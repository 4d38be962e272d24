-- ===== src/Retention/Bound.antt =====
-- How many turns wait in the buffer of memory_retention.py.
use diploid_agent.Prelude.{
  ℕ, zero, suc, ◌<◌, ◌≡◌, refl, ap, max, true, List, [], ◌∷◌, ◌++◌, arith, length, take, drop,
  Bool-cases, inl, inr, leb,
}
use diploid_agent.Retention.{
  Entry, MemoryItem, Backend, Buffer, run_length, attempt, kept, flush_loop, flush, crosses,
  before_append, append,
}
use diploid_agent.Retention.Documents.{flush_empties}
use diploid_agent.Retention.Sequence.{added}

bundle_turns-flush_loop :
    (fuel : ℕ) (k : Backend) (es : List Entry) (b : Buffer)
    → (flush_loop fuel k es b).bundle_turns ≡ b.bundle_turns
unfolding flush_loop
bundle_turns-flush_loop zero k es b = refl
bundle_turns-flush_loop (suc fuel) k [] b = refl
bundle_turns-flush_loop (suc fuel) k (e ∷ es) b =
    let n = run_length e.session es in
    elim (Bool-cases (attempt k e (take n es) b)) [
      | inr f ↦ rw (flush_loop, f) refl
      | inl t ↦
          rw (flush_loop, t)
            (bundle_turns-flush_loop fuel k (drop n es) (kept k e (take n es) (drop n es) b))
    ]

bundle_turns-before_append :
    (k : Backend) (e : Entry) (b : Buffer) → (before_append k e b).bundle_turns ≡ b.bundle_turns
unfolding before_append flush
bundle_turns-before_append k e b = elim (Bool-cases (crosses e.session b.entries)) [
  | inl t ↦ rw (before_append, t) (bundle_turns-flush_loop (suc (length b.entries)) k b.entries b)
  | inr f ↦ rw (before_append, f) refl
]

-- While the backend takes every document, fewer turns wait after each turn than make a bundle.
pub append-bound :
    (k : Backend) (e : Entry) (b : Buffer)
    → ((attempt : ℕ) (i : MemoryItem) → k.takes attempt i ≡ true)
    → length (append k e b).entries < max 1 b.bundle_turns
unfolding append
append-bound k e b all =
    let size = bundle_turns-before_append k e b in
    let start = before_append k e b in
    elim (Bool-cases (leb (max 1 start.bundle_turns) (length (start.entries ++ e ∷ [])))) [
      | inl t ↦ rw (append, t) (omega (arith, ap length (flush_empties k (added e start) all)))
      | inr f ↦ rw (append, f) (ground (arith, size))
    ]
