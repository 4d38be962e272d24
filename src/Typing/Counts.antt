-- ===== src/Typing/Counts.antt =====
-- When a chat has a typing thread: the counts of runtime/typing.py.
use diploid_agent.Prelude.{
  ℕ, zero, suc, ◌≡◌, ◌⊎◌, refl, String, false, not, Option, none, some, List, [], ◌∷◌,
  if◌then◌else◌, ◌==◌, or_else, is_some, contains, nat_eq, arith, Bool-cases, Option-cases, inl,
  inr, eq_iff,
}
use diploid_agent.Prelude.Dict.{get, put, get-put, get-pop}
use diploid_agent.Typing.{
  Typing, increment, decrement, end_thread, on_task_started, on_task_done, on_turn_started,
  on_turn_finished, stop, discard, add_to,
}

abbrev pub count_of : Typing → String → ℕ
count_of t c = or_else (get t.counts c) 0

-- A chat has a thread when, and only when, something counts for it.
abbrev pub IsMatched : Typing → Type 0
IsMatched t = (c : String) → is_some (get t.threads c) ≡ not (nat_eq (count_of t c) 0)

increment-IsMatched : (k : String) (t : Typing) → IsMatched t → IsMatched (increment k t)
unfolding increment
increment-IsMatched k t m c = ground (
  arith,
  m c,
  m k,
  get-put t.counts k c (suc (count_of t k)),
  get-put t.threads k c t.started,
  eq_iff k c,
)

pub decrement_none : (k : String) (t : Typing) → count_of t k ≡ 0 → decrement k t ≡ t
unfolding decrement
decrement_none k t e = rw (decrement, e) refl

pub decrement_last :
    (k : String) (t : Typing)
    → count_of t k ≡ 1
    → decrement k t ≡ end_thread k (record t { counts = put t.counts k 0 })
unfolding decrement
decrement_last k t e = rw (decrement, e) refl

pub decrement_more :
    (k : String) (t : Typing) (n : ℕ)
    → count_of t k ≡ suc (suc n)
    → decrement k t ≡ record t { counts = put t.counts k (suc n) }
unfolding decrement
decrement_more k t n e =
    let positive : nat_eq (suc n) 0 ≡ false = ground arith in rw (decrement, e, positive) refl

threads-end_thread :
    (k c : String) (t : Typing)
    → get (end_thread k t).threads c ≡ (if k == c then none else get t.threads c)
unfolding end_thread
threads-end_thread k c t = elim (Option-cases (get t.threads k)) [
  | inl n ↦ rw (end_thread, n) (ground (arith, n, eq_iff k c))
  | inr (x, e) ↦ rw (end_thread, e) (get-pop t.threads k c)
]

counts-end_thread : (k : String) (t : Typing) → (end_thread k t).counts ≡ t.counts
unfolding end_thread
counts-end_thread k t = ground arith

pub count_cases : (n : ℕ) → (n ≡ 0) ⊎ (n ≡ 1) ⊎ ((m : ℕ) × (n ≡ suc (suc m)))
count_cases zero = inl refl
count_cases (suc zero) = inr (inl refl)
count_cases (suc (suc m)) = inr (inr (m, refl))

decrement-IsMatched : (k : String) (t : Typing) → IsMatched t → IsMatched (decrement k t)
decrement-IsMatched k t m c = elim (count_cases (count_of t k)) [
  | inl e ↦ rw (decrement_none k t e) (m c)
  | inr (inl e) ↦
      let t' : Typing = record t { counts = put t.counts k 0 } in
      rw (decrement_last k t e, counts-end_thread k t')
        (ground (arith, m c, threads-end_thread k c t', get-put t.counts k c 0))
  | inr (inr (n, e)) ↦
      rw (decrement_more k t n e)
        (ground (arith, m c, m k, e, get-put t.counts k c (suc n), eq_iff k c))
]

pub data Call : Type 0 where
  task_started task_done : Option String → Call
  turn_started turn_finished : String → Call
  stopped : Call

unfoldable pub after : Call → Typing → Typing
unfolding on_task_started on_task_done on_turn_started on_turn_finished stop
after (task_started c) t = on_task_started c t
after (task_done c) t = on_task_done c t
after (turn_started c) t = on_turn_started c t
after (turn_finished c) t = on_turn_finished c t
after stopped t = stop t

unfoldable pub run : List Call → Typing → Typing
unfolding after
run [] t = t
run (c ∷ cs) t = run cs (after c t)

pub after-IsMatched : (call : Call) (t : Typing) → IsMatched t → IsMatched (after call t)
unfolding after on_task_started on_task_done on_turn_started on_turn_finished stop get
after-IsMatched (task_started none) t m = m
after-IsMatched (task_started (some k)) t m = increment-IsMatched k t m
after-IsMatched (task_done none) t m = m
after-IsMatched (task_done (some k)) t m = decrement-IsMatched k t m
after-IsMatched (turn_started k) t m =
    increment-IsMatched k (record t { turn_chats = add_to k t.turn_chats }) m
after-IsMatched (turn_finished k) t m = elim (Bool-cases (contains t.turn_chats k)) [
  | inr f ↦ rw (on_turn_finished, f) m
  | inl b ↦
      rw (on_turn_finished, b)
        (decrement-IsMatched k (record t { turn_chats = discard k t.turn_chats }) m)
]
after-IsMatched stopped t m = λ c. refl
