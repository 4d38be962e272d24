-- ===== src/Json/Clean.antt =====
-- What the scrubbing of sanitize.py gives.
use diploid_agent.Prelude.{false, ◌≡◌, [], ◌∷◌, All, arith, Bool-cases, inl, inr}
use diploid_agent.Json.{
  Text, Json, null, boolean, number, str, arr, obj, Items, nil, cons, Fields, end, field,
  is_surrogate, text_eq, put_field, sanitize_surrogates, sanitize_json_value, sanitize_items,
  sanitize_fields,
}

abbrev pub IsEncodable : Text → Type 0
IsEncodable s = All (λ c. is_surrogate c ≡ false) s

mutual
  pub IsClean : Json → Type 0
  IsClean null = Unit
  IsClean (boolean b) = Unit
  IsClean (number n) = Unit
  IsClean (str s) = IsEncodable s
  IsClean (arr xs) = IsCleanItems xs
  IsClean (obj fs) = IsCleanFields fs

  pub IsCleanItems : Items → Type 0
  IsCleanItems nil = Unit
  IsCleanItems (cons x xs) = IsClean x × IsCleanItems xs

  pub IsCleanFields : Fields → Type 0
  IsCleanFields end = Unit
  IsCleanFields (field k v fs) = IsEncodable k × IsClean v × IsCleanFields fs

sanitize_surrogates-IsEncodable : (s : Text) → IsEncodable (sanitize_surrogates s)
unfolding sanitize_surrogates
sanitize_surrogates-IsEncodable [] = tt
sanitize_surrogates-IsEncodable (c ∷ s) = ground (arith, sanitize_surrogates-IsEncodable s)

put_field-IsClean :
    (fs : Fields) (k : Text) (v : Json)
    → IsCleanFields fs
    → IsEncodable k
    → IsClean v
    → IsCleanFields (put_field fs k v)
unfolding put_field IsClean
put_field-IsClean end k v h e c = (e, c, tt)
put_field-IsClean (field j w fs) k v h e c = elim (Bool-cases (text_eq j k)) [
  | inl t ↦ rw t (h.0, c, h.2)
  | inr f ↦ rw f (h.0, h.1, put_field-IsClean fs k v h.2 e c)
]

mutual
  unfolding sanitize_json_value IsClean

  value-IsClean : (v : Json) → IsClean (sanitize_json_value v)
  value-IsClean null = tt
  value-IsClean (boolean b) = tt
  value-IsClean (number n) = tt
  value-IsClean (str s) = sanitize_surrogates-IsEncodable s
  value-IsClean (arr xs) = items_clean xs
  value-IsClean (obj fs) = fields_clean fs end tt

  items_clean : (xs : Items) → IsCleanItems (sanitize_items xs)
  items_clean nil = tt
  items_clean (cons x xs) = (value-IsClean x, items_clean xs)

  fields_clean : (fs done : Fields) → IsCleanFields done → IsCleanFields (sanitize_fields fs done)
  fields_clean end done h = h
  fields_clean (field k v fs) done h =
      fields_clean fs (put_field done (sanitize_surrogates k) (sanitize_json_value v)) (
        put_field-IsClean done (sanitize_surrogates k) (sanitize_json_value v) h
          (sanitize_surrogates-IsEncodable k) (value-IsClean v))

-- Whatever a payload holds, the scrubbed payload has no surrogate in any text or key, at any depth.
pub sanitize_json_value-IsClean : (v : Json) → IsClean (sanitize_json_value v)
sanitize_json_value-IsClean v = value-IsClean v

pub sanitize_payload-IsClean : (fs : Fields) → IsCleanFields (sanitize_fields fs end)
unfolding IsClean
sanitize_payload-IsClean fs = fields_clean fs end tt
