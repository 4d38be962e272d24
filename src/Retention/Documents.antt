-- ===== src/Retention/Documents.antt =====
-- What `flush` of memory_retention.py hands to the backend.
use diploid_agent.Prelude.{
  ℕ, zero, suc, ◌<◌, ◌≡◌, refl, sym, ◌∙◌, ap, String, true, List, [], ◌∷◌, ◌++◌, append_assoc,
  append-nil, arith, length, take, drop, map, All, Bool-cases, inl, inr, nat_eq, length-drop,
}
use diploid_agent.Retention.{
  Entry, MemoryItem, Backend, Buffer, run_length, item_of, attempt, kept, flush_loop, flush,
}

-- A turn, as the documents keep it: its session, its number and its content.
abbrev pub Turn : Type 0
Turn = ℕ × ℕ × String

abbrev pub turn_of : Entry → Turn
turn_of e = (e.session, e.turn, e.content)

abbrev pub zip : (session : ℕ) → List ℕ → List String → List Turn
zip session [] cs = []
zip session (n ∷ ns) [] = []
zip session (n ∷ ns) (c ∷ cs) = (session, n, c) ∷ zip session ns cs

abbrev pub turns_in : List MemoryItem → List Turn
turns_in [] = []
turns_in (i ∷ is) = zip i.session_number i.turns i.contents ++ turns_in is

-- Every turn that the buffer has been given: those of the documents, then those that wait.
abbrev pub history : Buffer → List Turn
history b = turns_in b.retained ++ map turn_of b.entries

turns_in-append : (xs ys : List MemoryItem) → turns_in (xs ++ ys) ≡ turns_in xs ++ turns_in ys
turns_in-append [] ys = refl
turns_in-append (x ∷ xs) ys =
    ap (λ r. zip x.session_number x.turns x.contents ++ r) (turns_in-append xs ys)
    ∙ sym (append_assoc (zip x.session_number x.turns x.contents) (turns_in xs) (turns_in ys))

-- The entries of a run are of one session.
take-run_length :
    (session : ℕ) (es : List Entry)
    → All (λ (x : Entry). x.session ≡ session) (take (run_length session es) es)
unfolding run_length
take-run_length session [] = tt
take-run_length session (e ∷ es) = elim (Bool-cases (nat_eq e.session session)) [
  | inl t ↦ rw (run_length, t) (ground arith, take-run_length session es)
  | inr f ↦ rw (run_length, f) tt
]

zip-entries :
    (session : ℕ) (es : List Entry)
    → All (λ (x : Entry). x.session ≡ session) es
    → zip session (map (λ (x : Entry). x.turn) es) (map (λ (x : Entry). x.content) es)
      ≡ map turn_of es
zip-entries session [] h = refl
zip-entries session (e ∷ es) h = λ i. (sym h.0 i, e.turn, e.content) ∷ zip-entries session es h.1 i

map-take-drop :
    (n : ℕ) (es : List Entry) → map turn_of (take n es) ++ map turn_of (drop n es) ≡ map turn_of es
map-take-drop zero es = refl
map-take-drop (suc n) [] = refl
map-take-drop (suc n) (e ∷ es) = ap (λ r. turn_of e ∷ r) (map-take-drop n es)

abbrev run : Entry → List Entry → ℕ
run e es = run_length e.session es

-- A document that is taken moves its turns from the buffer to the documents.
history-kept :
    (k : Backend) (e : Entry) (es : List Entry) (b : Buffer)
    → b.entries ≡ e ∷ es
    → history (kept k e (take (run e es) es) (drop (run e es) es) b) ≡ history b
unfolding item_of
history-kept k e es b same =
    let n = run e es in
    let rest = map turn_of (drop n es) in
    let own =
      zip e.session (map (λ (x : Entry). x.turn) (e ∷ take n es))
        (map (λ (x : Entry). x.content) (e ∷ take n es)) in
    let one_session = zip-entries e.session (e ∷ take n es) (refl, take-run_length e.session es) in
    ap (λ r. r ++ rest) (turns_in-append b.retained (item_of k b.chat_id e (take n es) ∷ []))
    ∙ append_assoc (turns_in b.retained) (own ++ []) rest
    ∙ ap (λ r. turns_in b.retained ++ r)
        (ap (λ r. r ++ rest) (append-nil own ∙ one_session)
          ∙ ap (λ r. turn_of e ∷ r) (map-take-drop n es)
          ∙ sym (ap (map turn_of) same))

history-flush_loop :
    (fuel : ℕ) (k : Backend) (es : List Entry) (b : Buffer)
    → b.entries ≡ es
    → history (flush_loop fuel k es b) ≡ history b
unfolding flush_loop
history-flush_loop zero k es b same = refl
history-flush_loop (suc fuel) k [] b same = refl
history-flush_loop (suc fuel) k (e ∷ es) b same =
    elim (Bool-cases (attempt k e (take (run e es) es) b)) [
      | inr f ↦ rw (flush_loop, f) refl
      | inl t ↦
          rw (flush_loop, t)
            (history-flush_loop fuel k (drop (run e es) es)
                (kept k e (take (run e es) es) (drop (run e es) es) b) refl
              ∙ history-kept k e es b same)
    ]

pub history-flush : (k : Backend) (b : Buffer) → history (flush k b) ≡ history b
unfolding flush
history-flush k b = history-flush_loop (suc (length b.entries)) k b.entries b refl

-- The loop ends with the file written, and with an empty buffer where nothing is refused.
abbrev pub IsSaved : Buffer → Type 0
IsSaved b = b.file ≡ b.entries

flush_loop-IsSaved :
    (fuel : ℕ) (k : Backend) (es : List Entry) (b : Buffer) → IsSaved (flush_loop fuel k es b)
unfolding flush_loop
flush_loop-IsSaved zero k es b = refl
flush_loop-IsSaved (suc fuel) k [] b = refl
flush_loop-IsSaved (suc fuel) k (e ∷ es) b =
    elim (Bool-cases (attempt k e (take (run e es) es) b)) [
      | inr f ↦ rw (flush_loop, f) refl
      | inl t ↦
          rw (flush_loop, t)
            (flush_loop-IsSaved fuel k (drop (run e es) es)
              (kept k e (take (run e es) es) (drop (run e es) es) b))
    ]

pub flush-IsSaved : (k : Backend) (b : Buffer) → IsSaved (flush k b)
unfolding flush
flush-IsSaved k b = flush_loop-IsSaved (suc (length b.entries)) k b.entries b

flush_loop_empties :
    (fuel : ℕ) (k : Backend) (es : List Entry) (b : Buffer)
    → ((attempt : ℕ) (i : MemoryItem) → k.takes attempt i ≡ true)
    → b.entries ≡ es
    → length es < fuel
    → (flush_loop fuel k es b).entries ≡ []
unfolding flush_loop
flush_loop_empties zero k es b all same h = absurd (omega arith)
flush_loop_empties (suc fuel) k [] b all same h = same
flush_loop_empties (suc fuel) k (e ∷ es) b all same h =
    let n = run e es in
    let taken : attempt k e (take n es) b ≡ true = all _ _ in
    rw (flush_loop, taken)
      (flush_loop_empties fuel k (drop n es) (kept k e (take n es) (drop n es) b) all refl
        (omega (arith, length-drop n es, h)))

pub flush_empties :
    (k : Backend) (b : Buffer)
    → ((attempt : ℕ) (i : MemoryItem) → k.takes attempt i ≡ true)
    → (flush k b).entries ≡ []
unfolding flush
flush_empties k b all =
    flush_loop_empties (suc (length b.entries)) k b.entries b all refl (omega arith)
