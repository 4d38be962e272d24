-- ===== src/Json.antt =====
-- JSON values as Python holds them after `json.loads`, and sanitize.py. A text is the list of its
-- code points, since a Python `str` may hold a lone surrogate. Numbers are natural: the payloads
-- hold counts, ids and delays.
pub mod Clean
mod Tests
use Prim.Native.Char.{code}
use diploid_agent.Prelude.{
  ℕ, String, Bool, true, false, ◌&&◌, ◌≡◌, ◌↔◌, Option, none, some, List, [], ◌∷◌, if◌then◌else◌,
  leb, nat_eq, map, arith,
}

abbrev pub Text : Type 0
Text = List ℕ

-- A literal.
abbrev pub codes : String → Text
codes String.[] = []
codes (String.◌∷◌ c s) = code c ∷ codes s

abbrev pub text_eq : Text → Text → Bool
text_eq [] [] = true
text_eq [] (d ∷ t) = false
text_eq (c ∷ s) [] = false
text_eq (c ∷ s) (d ∷ t) = nat_eq c d && text_eq s t

pub text_eq_iff : (s t : Text) → (text_eq s t ≡ true) ↔ (s ≡ t)
text_eq_iff [] [] = ground arith
text_eq_iff [] (d ∷ t) = ground arith
text_eq_iff (c ∷ s) [] = ground arith
text_eq_iff (c ∷ s) (d ∷ t) = ground (arith, text_eq_iff s t)

mutual
  pub data Json : Type 0 where
    null : Json
    boolean : Bool → Json
    number : ℕ → Json
    str : Text → Json
    arr : Items → Json
    obj : Fields → Json

  pub data Items : Type 0 where
    nil : Items
    cons : Json → Items → Items

  pub data Fields : Type 0 where
    end : Fields
    field : Text → Json → Fields → Fields

-- fields.get(key), and fields[key] = value.
unfoldable pub get_field : Fields → Text → Option Json
get_field end key = none
get_field (field k v fs) key = if text_eq k key then some v else get_field fs key

unfoldable pub put_field : Fields → Text → Json → Fields
put_field end key value = field key value end
put_field (field k v fs) key value =
    if text_eq k key then field k value fs else field k v (put_field fs key value)

abbrev pub append_items : Items → Items → Items
append_items nil ys = ys
append_items (cons x xs) ys = cons x (append_items xs ys)

abbrev pub is_surrogate : ℕ → Bool
is_surrogate c = leb 0xd800 c && leb c 0xdfff

unfoldable pub sanitize_surrogates : Text → Text
sanitize_surrogates s = map (λ c. if is_surrogate c then 0xfffd else c) s

-- The dict comprehension writes the scrubbed keys one after the other, so that two keys that
-- become one leave the later value.
unfoldable mutual
  unfolding sanitize_surrogates

  pub sanitize_json_value : Json → Json
  sanitize_json_value null = null
  sanitize_json_value (boolean b) = boolean b
  sanitize_json_value (number n) = number n
  sanitize_json_value (str s) = str (sanitize_surrogates s)
  sanitize_json_value (arr xs) = arr (sanitize_items xs)
  sanitize_json_value (obj fs) = obj (sanitize_fields fs end)

  pub sanitize_items : Items → Items
  sanitize_items nil = nil
  sanitize_items (cons x xs) = cons (sanitize_json_value x) (sanitize_items xs)

  pub sanitize_fields : Fields → Fields → Fields
  sanitize_fields end done = done
  sanitize_fields (field k v fs) done =
      sanitize_fields fs (put_field done (sanitize_surrogates k) (sanitize_json_value v))

-- `sanitize_json_value` at a dict.
abbrev pub sanitize_payload : Fields → Fields
sanitize_payload fs = sanitize_fields fs end
