-- ===== src/Json/Tests.antt =====
-- Runs of sanitize.py.
use diploid_agent.Prelude.{◌≡◌, refl, [], ◌∷◌}
use diploid_agent.Json.{Json, str, arr, obj, cons, nil, field, end, put_field, sanitize_json_value}

abbrev dirty : Json
dirty = obj (field (0xd800 ∷ []) (arr (cons (str (104 ∷ 0xdfff ∷ [])) nil)) end)

dirty_scrubbed :
    sanitize_json_value dirty
    ≡ obj (field (0xfffd ∷ []) (arr (cons (str (104 ∷ 0xfffd ∷ [])) nil)) end)
unfolding sanitize_json_value put_field
dirty_scrubbed = refl
