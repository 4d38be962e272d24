-- ===== src/Retention/Sequence.antt =====
-- Sequences of turns, flushes and restarts on the buffer of memory_retention.py.
use diploid_agent.Prelude.{
  ℕ, zero, suc, ◌≡◌, refl, sym, ◌∙◌, ap, max, false, ◌==◌, List, [], ◌∷◌, ◌++◌, append_assoc,
  append-nil, length, take, drop, map, All, All-append, Bool-cases, inl, inr, leb, subst,
}
use diploid_agent.Retention.{
  Entry, Backend, Buffer, run_length, attempt, kept, flush_loop, flush, crosses, before_append,
  append, has_content, load,
}
use diploid_agent.Retention.Documents.{
  Turn, turn_of, history, history-flush, IsSaved, flush-IsSaved, turns_in,
}

-- A restart makes a new buffer over the same file and backend, and loads it.
unfoldable pub restart : Buffer → Buffer
unfolding load
restart b = load (record b { entries = [] })

pub data Call : Type 0 where
  turn : Entry → Call
  flushing restarting : Call

unfoldable pub step : Backend → Call → Buffer → Buffer
unfolding append flush restart
step k (turn e) b = append k e b
step k flushing b = flush k b
step k restarting b = restart b

unfoldable pub run : Backend → List Call → Buffer → Buffer
unfolding step
run k [] b = b
run k (c ∷ calls) b = run k calls (step k c b)

abbrev pub given : List Call → List Turn
given [] = []
given (turn e ∷ calls) = turn_of e ∷ given calls
given (flushing ∷ calls) = given calls
given (restarting ∷ calls) = given calls

abbrev pub HasContent : Entry → Type 0
HasContent e = e.content == "" ≡ false

-- The turns of the calls have a content, as the writer of the buffer gives them.
abbrev pub AllContent : List Call → Type 0
AllContent [] = Unit
AllContent (turn e ∷ calls) = HasContent e × AllContent calls
AllContent (flushing ∷ calls) = AllContent calls
AllContent (restarting ∷ calls) = AllContent calls

All-drop {ℓ κ} : {A : Type ℓ} (P : A → Type κ) (n : ℕ) (xs : List A) → All P xs → All P (drop n xs)
All-drop P zero xs h = h
All-drop P (suc n) [] h = tt
All-drop P (suc n) (x ∷ xs) h = All-drop P n xs h.1

flush_loop-All :
    (P : Entry → Type 0) (fuel : ℕ) (k : Backend) (es : List Entry) (b : Buffer)
    → b.entries ≡ es
    → All P es
    → All P (flush_loop fuel k es b).entries
unfolding flush_loop
flush_loop-All P zero k es b same h = rw same h
flush_loop-All P (suc fuel) k [] b same h = rw same tt
flush_loop-All P (suc fuel) k (e ∷ es) b same h =
    let n = run_length e.session es in
    elim (Bool-cases (attempt k e (take n es) b)) [
      | inr f ↦ rw (flush_loop, f) (rw same h)
      | inl t ↦
          rw (flush_loop, t)
            (flush_loop-All P fuel k (drop n es) (kept k e (take n es) (drop n es) b) refl
              (All-drop P n es h.1))
    ]

flush-All :
    (P : Entry → Type 0) (k : Backend) (b : Buffer) → All P b.entries → All P (flush k b).entries
unfolding flush
flush-All P k b h = flush_loop-All P (suc (length b.entries)) k b.entries b refl h

-- The file is the buffer, and no entry is one that a restart would leave out.
pub record IsValid (b : Buffer) : Type 0 where
  pub saved : IsSaved b
  pub content : All HasContent b.entries

abbrev pub added : Entry → Buffer → Buffer
added e b = record b { entries = b.entries ++ e ∷ [] }

history-before_append :
    (k : Backend) (e : Entry) (b : Buffer) → history (before_append k e b) ≡ history b
unfolding before_append
history-before_append k e b = elim (Bool-cases (crosses e.session b.entries)) [
  | inl t ↦ rw (before_append, t) (history-flush k b)
  | inr f ↦ rw (before_append, f) refl
]

map-snoc :
    (es : List Entry) (e : Entry) → map turn_of (es ++ e ∷ []) ≡ map turn_of es ++ turn_of e ∷ []
map-snoc [] e = refl
map-snoc (x ∷ es) e = ap (λ r. turn_of x ∷ r) (map-snoc es e)

history-added : (e : Entry) (b : Buffer) → history (added e b) ≡ history b ++ turn_of e ∷ []
history-added e b =
    ap (λ r. turns_in b.retained ++ r) (map-snoc b.entries e)
    ∙ sym (append_assoc (turns_in b.retained) (map turn_of b.entries) (turn_of e ∷ []))

history-append :
    (k : Backend) (e : Entry) (b : Buffer) → history (append k e b) ≡ history b ++ turn_of e ∷ []
unfolding append
history-append k e b =
    let start = before_append k e b in
    let more =
      history-added e start ∙ ap (λ r. r ++ turn_of e ∷ []) (history-before_append k e b) in
    elim (Bool-cases (leb (max 1 start.bundle_turns) (length (start.entries ++ e ∷ [])))) [
      | inl t ↦ rw (append, t) (history-flush k (added e start) ∙ more)
      | inr f ↦ rw (append, f) more
    ]

before_append-All :
    (k : Backend) (e : Entry) (b : Buffer)
    → All HasContent b.entries
    → All HasContent (before_append k e b).entries
unfolding before_append
before_append-All k e b h = elim (Bool-cases (crosses e.session b.entries)) [
  | inl t ↦ rw (before_append, t) (flush-All HasContent k b h)
  | inr f ↦ rw (before_append, f) h
]

append-IsValid :
    (k : Backend) (e : Entry) (b : Buffer) → HasContent e → IsValid b → IsValid (append k e b)
unfolding append
append-IsValid k e b c v =
    let start = before_append k e b in
    let all =
      All-append HasContent start.entries (e ∷ []) (before_append-All k e b v.content) (c, tt) in
    elim (Bool-cases (leb (max 1 start.bundle_turns) (length (start.entries ++ e ∷ [])))) [
      | inl t ↦
          rw (append, t)
            (record {
              saved = flush-IsSaved k (added e start);
              content = flush-All HasContent k (added e start) all;
            })
      | inr f ↦ rw (append, f) (record { saved = refl; content = all })
    ]

has_content_keeps : (es : List Entry) → All HasContent es → has_content es ≡ es
unfolding has_content
has_content_keeps [] h = refl
has_content_keeps (e ∷ es) h = rw (has_content, h.0) (ap (λ r. e ∷ r) (has_content_keeps es h.1))

-- A restart gives the buffer back as it was.
restart_same : (b : Buffer) → IsValid b → restart b ≡ b
unfolding restart load
restart_same b v =
    let back : has_content b.file ≡ b.entries =
      ap has_content v.saved ∙ has_content_keeps b.entries v.content in
    ap (λ es. record b { entries = es }) back

step_lem :
    (k : Backend) (c : Call) (b : Buffer)
    → AllContent (c ∷ [])
    → IsValid b
    → IsValid (step k c b) × (history (step k c b) ≡ history b ++ given (c ∷ []))
unfolding step
step_lem k (turn e) b h v = (append-IsValid k e b h.0 v, history-append k e b)
step_lem k flushing b h v = (
  record { saved = flush-IsSaved k b; content = flush-All HasContent k b v.content },
  history-flush k b ∙ sym (append-nil (history b)),
)
step_lem k restarting b h v = (
  subst IsValid (sym (restart_same b v)) v,
  ap history (restart_same b v) ∙ sym (append-nil (history b)),
)

given-cons : (c : Call) (calls : List Call) → given (c ∷ calls) ≡ given (c ∷ []) ++ given calls
given-cons (turn e) calls = refl
given-cons flushing calls = refl
given-cons restarting calls = refl

AllContent-split :
    (c : Call) (calls : List Call) → AllContent (c ∷ calls) → AllContent (c ∷ []) × AllContent calls
AllContent-split (turn e) calls h = ((h.0, tt), h.1)
AllContent-split flushing calls h = (tt, h)
AllContent-split restarting calls h = (tt, h)

-- Whatever documents the backend refuses, and wherever between two calls the process restarts, a
-- sequence of turns and flushes loses no turn, stores none twice and changes no order: the turns
-- in the documents that the backend took, with the sessions of the documents, followed by those
-- that wait, are the turns at the start followed by the turns of the calls; and the file holds
-- the turns that wait. The turns have a content, and at the start the file is the buffer.
pub run_keeps_turns :
    (k : Backend) (calls : List Call) (b : Buffer)
    → AllContent calls
    → IsValid b
    → IsValid (run k calls b) × (history (run k calls b) ≡ history b ++ given calls)
unfolding run
run_keeps_turns k [] b h v = (v, sym (append-nil (history b)))
run_keeps_turns k (c ∷ calls) b h v =
    let (one, rest) = AllContent-split c calls h in
    let (v', same) = step_lem k c b one v in
    let (v'', all) = run_keeps_turns k calls (step k c b) rest v' in
    (
      v'',
      all
          ∙ ap (λ r. r ++ given calls) same
          ∙ append_assoc (history b) (given (c ∷ [])) (given calls)
          ∙ ap (λ r. history b ++ r) (sym (given-cons c calls)),
    )
