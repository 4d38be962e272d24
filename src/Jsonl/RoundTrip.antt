-- ===== src/Jsonl/RoundTrip.antt =====
-- A store reads back what it wrote, so a transaction on the file is one on the dictionary.
use diploid_agent.Prelude.{
  ℕ, String, true, false, ◌≡◌, ◌⊎◌, refl, ap, ◌∙◌, none, some, List, [], ◌∷◌, ◌++◌, All,
  append_assoc, append-nil, arith, IsDistinct, contains, Bool-cases, Option-cases, ◌==◌, inl, inr,
  eq_iff,
}
use diploid_agent.Prelude.Dict.{
  Dict, put, values, keys, Entries, put-Entries, put-IsDistinct, keys-put_new,
}
use diploid_agent.Json.{Text}
use diploid_agent.Jsonl.{
  is_break, is_blank, split_lines, Codec, IsLineCodec, read_line, read_lines, load, write_lines,
  save, transaction,
}

-- A dictionary in which each record stands under its own id, once.
abbrev pub IsKeyed : {A : Type 0} → Codec A → Dict A → Type 0
IsKeyed c d = Entries (λ k a. c.key a ≡ k) d × IsDistinct (keys d)

-- One line without a break, the break, then the rest.
pub split_line :
    (line x : Text) (b : ℕ) (text : Text)
    → All (λ c. is_break c ≡ false) x
    → is_break b ≡ true
    → split_lines line (x ++ (b ∷ text)) ≡ (line ++ x) ∷ split_lines [] text
unfolding split_lines
split_line line [] b text h e = rw (e, split_lines, append-nil) refl
split_line line (c ∷ x) b text h e =
    rw (h.0, split_lines)
      (split_line (line ++ c ∷ []) x b text h.1 e
        ∙ ap (λ l. l ∷ split_lines [] text) (append_assoc line (c ∷ []) x))

pub newline : is_break 10 ≡ true
unfolding is_break
newline = refl

pub split_nil : split_lines [] [] ≡ []
unfolding split_lines
split_nil = refl

module _ {A : Type 0} where
  apart_later :
      (k j : String) (a : A) (done todo : Dict A)
      → contains (keys (done ++ (k, a) ∷ todo)) j ≡ false
      → k == j ≡ false
  apart_later k j a [] todo h = ground arith
  apart_later k j a ((i, b) ∷ done) todo h = apart_later k j a done todo (ground arith)

  fresh_middle :
      (k : String) (a : A) (done todo : Dict A)
      → IsDistinct (keys (done ++ (k, a) ∷ todo))
      → contains (keys done) k ≡ false
  fresh_middle k a [] todo d = refl
  fresh_middle k a ((i, b) ∷ done) todo d = ground (
    arith,
    eq_iff i k,
    eq_iff k i,
    apart_later k i a done todo d.0,
    fresh_middle k a done todo d.1,
  )

  entry_middle :
      (P : String → A → Type 0) (k : String) (a : A) (done todo : Dict A)
      → Entries P (done ++ (k, a) ∷ todo)
      → P k a
  entry_middle P k a [] todo h = h.0
  entry_middle P k a ((i, b) ∷ done) todo h = entry_middle P k a done todo h.1

module _ {A : Type 0} (c : Codec A) where
  -- Any file that a store reads gives a dictionary with every record under its own id, once.
  read_lines-IsKeyed :
      (lines : List Text) (d : Dict A) → IsKeyed c d → IsKeyed c (read_lines c lines d)
  unfolding read_lines read_line
  read_lines-IsKeyed [] d h = h
  read_lines-IsKeyed (line ∷ lines) d h =
      read_lines-IsKeyed lines (read_line c line d)
        (one (Bool-cases (is_blank line)) (Option-cases (c.decode line)))
    where
      one :
          (is_blank line ≡ true) ⊎ (is_blank line ≡ false)
          → (c.decode line ≡ none) ⊎ ((a : A) × (c.decode line ≡ some a))
          → IsKeyed c (read_line c line d)
      one (inl b) o = rw (b, read_line) h
      one (inr b) (inl n) = rw (b, n, read_line) h
      one (inr b) (inr (a, e)) =
          rw (b, e, read_line)
            (
              put-Entries (λ k x. c.key x ≡ k) d (c.key a) a h.0 refl,
              put-IsDistinct d (c.key a) a h.1,
            )

  pub load-IsKeyed : (text : Text) → IsKeyed c (load c text)
  unfolding load
  load-IsKeyed text = read_lines-IsKeyed (split_lines [] text) [] (tt, tt)

module _ {A : Type 0} (c : Codec A) where
  -- A sequence of operations on the dictionary, and the same sequence as transactions on the file.
  pub run_memory : {R : Type 0} → List (Dict A → Dict A × R) → Dict A → Dict A
  run_memory [] d = d
  run_memory (f ∷ fs) d = run_memory fs (f d).0

  pub run_file : {R : Type 0} → List (Dict A → Dict A × R) → Text → Text
  unfolding transaction
  run_file [] text = text
  run_file (f ∷ fs) text = run_file fs (transaction c (λ d. some (f d)) text).0

module _ {A : Type 0} (c : Codec A) (lawful : IsLineCodec c) where
  read_own_line : (a : A) (d : Dict A) → read_line c (c.encode a) d ≡ put d (c.key a) a
  unfolding read_line
  read_own_line a d = rw (lawful.not_blank a, lawful.decode_encode a, read_line) refl

  read_write :
      (todo done : Dict A)
      → IsKeyed c (done ++ todo)
      → read_lines c (split_lines [] (write_lines c (values todo))) done ≡ done ++ todo
  unfolding write_lines read_lines
  read_write [] done h = rw (append-nil, split_nil) refl
  read_write ((k, a) ∷ todo) done h =
      let named : c.key a ≡ k = entry_middle (λ j b. c.key b ≡ j) k a done todo h.0 in
      let new : contains (keys done) k ≡ false = fresh_middle k a done todo h.1 in
      let placed : put done (c.key a) a ≡ done ++ (k, a) ∷ [] =
        ap (λ j. put done j a) named ∙ keys-put_new done k a new in
      let whole : (done ++ (k, a) ∷ []) ++ todo ≡ done ++ (k, a) ∷ todo =
        append_assoc done ((k, a) ∷ []) todo in
      rw (split_line [] (c.encode a) 10 (write_lines c (values todo)) (lawful.one_line a) newline) (
        ap (read_lines c (split_lines [] (write_lines c (values todo))))
          (read_own_line a done ∙ placed)
        ∙ read_write todo (done ++ (k, a) ∷ []) (rw whole h)
        ∙ whole)

  -- A store that reads the file back after writing it has the same dictionary, in the same order.
  pub load-save : (d : Dict A) → IsKeyed c d → load c (save c d) ≡ d
  unfolding load save
  load-save d h = read_write d [] h

  -- A file-backed store behaves as the dictionary, if the JSON of each record is one line without a
  -- character at which splitlines breaks, is not blank, and reads back as the record. After any
  -- operations that keep records under their own ids, what the next transaction reads is then what
  -- the operations make of the dictionary that the first one read.
  pub load-run_file :
      {R : Type 0} (fs : List (Dict A → Dict A × R)) (text : Text)
      → All (λ f. (d : Dict A) → IsKeyed c d → IsKeyed c (f d).0) fs
      → load c (run_file c fs text) ≡ run_memory c fs (load c text)
  unfolding run_file run_memory transaction
  load-run_file [] text keeps = refl
  load-run_file (f ∷ fs) text keeps =
      let after : load c (save c (f (load c text)).0) ≡ (f (load c text)).0 =
        load-save (f (load c text)).0 (keeps.0 (load c text) (load-IsKeyed c text)) in
      load-run_file fs (save c (f (load c text)).0) keeps.1 ∙ ap (run_memory c fs) after
