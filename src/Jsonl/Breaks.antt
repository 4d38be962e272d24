-- ===== src/Jsonl/Breaks.antt =====
-- What `splitlines` does to a record whose JSON holds a line break. `model_dump_json` and
-- `json.dumps(..., ensure_ascii=False)` leave U+0085, U+2028 and U+2029 as they are.
use diploid_agent.Prelude.{
  ℕ, true, false, ◌≡◌, ◌⊎◌, refl, ap, ◌∙◌, none, [], ◌∷◌, ◌++◌, All, append_assoc, arith, inl, inr,
}
use diploid_agent.Prelude.Dict.{Dict}
use diploid_agent.Json.{Text}
use diploid_agent.Jsonl.{is_break, is_blank, Codec, read_line, read_lines, load, write_lines, save}
use diploid_agent.Jsonl.RoundTrip.{split_line, newline}

module _ {A : Type 0} (c : Codec A) where
  abbrev pub IsUnreadable : Text → Type 0
  IsUnreadable line = (is_blank line ≡ true) ⊎ (c.decode line ≡ none)

  skipped : (line : Text) (d : Dict A) → IsUnreadable line → read_line c line d ≡ d
  unfolding read_line
  skipped line d (inl b) = rw (b, read_line) refl
  skipped line d (inr n) = elim_blank line d n
    where
      elim_blank : (l : Text) (e : Dict A) → c.decode l ≡ none → read_line c l e ≡ e
      elim_blank l e n = ground (arith, n)

  -- A record whose line holds a break, with pieces that are no records, is lost: the store that
  -- holds this record alone is read back empty.
  pub load-save_broken :
      (a : A) (x y : Text) (b : ℕ)
      → c.encode a ≡ x ++ (b ∷ y)
      → is_break b ≡ true
      → All (λ z. is_break z ≡ false) x
      → All (λ z. is_break z ≡ false) y
      → IsUnreadable x
      → IsUnreadable y
      → load c (save c ((c.key a, a) ∷ [])) ≡ []
  unfolding load save write_lines read_lines
  load-save_broken a x y b e brk hx hy ux uy =
      rw
        (
          e,
          append_assoc x (b ∷ y) (10 ∷ []),
          split_line [] x b (y ++ 10 ∷ []) hx brk,
          split_line [] y 10 [] hy newline,
        )
        (ap (λ d. read_line c y d) (skipped x [] ux) ∙ skipped y [] uy)
