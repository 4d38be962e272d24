-- ===== src/Typing/Threads.antt =====
-- What becomes of the threads of runtime/typing.py. A thread runs from its start until its stop event
-- is set.
use mathlib.Core.List.{Perm, perm_middle}
use mathlib.Core.List.Perm
use diploid_agent.Prelude.{
  ℕ, zero, suc, ◌≡◌, refl, subst, String, false, ◌==◌, Option, none, some, List, [], ◌∷◌, ◌++◌,
  append_assoc, append-nil, arith, contains, IsDistinct, Bool-cases, Option-cases, inl, inr, nat_eq,
  eq_iff,
}
use diploid_agent.Prelude.Dict.{
  Dict, get, put, pop, keys, put-IsDistinct, pop-IsDistinct, pop-absent,
}
use diploid_agent.Typing.{
  Typing, numbers, increment, decrement, end_thread, on_task_started, on_task_done, on_turn_started,
  on_turn_finished, stop, discard, add_to,
}
use diploid_agent.Typing.Counts.{
  IsMatched, count_of, count_cases, decrement_none, decrement_last, decrement_more, Call,
  task_started, task_done, turn_started, turn_finished, stopped, after, after-IsMatched, run,
}

-- The numbers of the threads that were started.
abbrev pub up_to : ℕ → List ℕ
up_to zero = []
up_to (suc n) = n ∷ up_to n

-- Each thread that was started is held by one chat, or its stop event was set, once.
abbrev pub IsTracked : Typing → Type 0
IsTracked t = IsDistinct (keys t.threads) × Perm (t.stopped ++ numbers t.threads) (up_to t.started)

numbers-put :
    (d : Dict ℕ) (k : String) (n : ℕ) → get d k ≡ none → Perm (numbers (put d k n)) (n ∷ numbers d)
unfolding get put
numbers-put [] k n h = Perm.refl (n ∷ [])
numbers-put ((i, w) ∷ d) k n h = elim (Bool-cases (i == k)) [
  | inl t ↦ absurd (held (rw (get, t) refl) h)
  | inr f ↦
      rw (put, f)
        (Perm.trans (Perm.cons w (numbers-put d k n (ground arith))) (Perm.swap n w (numbers d)))
]
  where
    held : {o : Option ℕ} → o ≡ some w → o ≡ none → ⊥
    held e g = cc

numbers-pop :
    (d : Dict ℕ) (k : String) (n : ℕ)
    → IsDistinct (keys d)
    → get d k ≡ some n
    → Perm (n ∷ numbers (pop d k)) (numbers d)
unfolding get pop
numbers-pop [] k n distinct h = cc
numbers-pop ((i, w) ∷ d) k n distinct h = elim (Bool-cases (i == k)) [
  | inl t ↦
      let one : w ≡ n = ground arith in
      let gone : pop d k ≡ d =
        pop-absent d k (subst (λ j. contains (keys d) j ≡ false) ((eq_iff i k).0 t) distinct.0) in
      rw (t, one, gone) (Perm.refl (n ∷ numbers d))
  | inr f ↦ rw f (
      Perm.trans (Perm.swap w n (numbers (pop d k)))
        (Perm.cons w (numbers-pop d k n distinct.1 (ground arith))))
]

no_thread : (k : String) (t : Typing) → IsMatched t → count_of t k ≡ 0 → get t.threads k ≡ none
no_thread k t m e = ground (arith, m k)

start_thread-IsTracked :
    (k : String) (counts : Dict ℕ) (t : Typing)
    → get t.threads k ≡ none
    → IsTracked t
    → IsTracked
        (record t { counts = counts; threads = put t.threads k t.started; started = suc t.started })
start_thread-IsTracked k counts t new (distinct, same) = (
  put-IsDistinct t.threads k t.started distinct,
  Perm.trans (Perm.append_left t.stopped (numbers-put t.threads k t.started new))
      (Perm.trans (perm_middle t.stopped (numbers t.threads)) (Perm.cons t.started same)),
)

increment-IsTracked :
    (k : String) (t : Typing) → IsMatched t → IsTracked t → IsTracked (increment k t)
unfolding increment
increment-IsTracked k t m h = elim (Bool-cases (nat_eq (count_of t k) 0)) [
  | inr f ↦ rw (increment, f) h
  | inl b ↦
      rw (increment, b)
        (start_thread-IsTracked k (put t.counts k (suc (count_of t k))) t
          (no_thread k t m (ground arith)) h)
]

end_thread-IsTracked : (k : String) (t : Typing) → IsTracked t → IsTracked (end_thread k t)
unfolding end_thread
end_thread-IsTracked k t (distinct, same) = elim (Option-cases (get t.threads k)) [
  | inl missing ↦ rw (end_thread, missing) (distinct, same)
  | inr (n, e) ↦
      rw (end_thread, e)
        (
          pop-IsDistinct t.threads k distinct,
          rw (append_assoc t.stopped (n ∷ []) (numbers (pop t.threads k)))
              (Perm.trans (Perm.append_left t.stopped (numbers-pop t.threads k n distinct e)) same),
        )
]

decrement-IsTracked : (k : String) (t : Typing) → IsTracked t → IsTracked (decrement k t)
decrement-IsTracked k t h = elim (count_cases (count_of t k)) [
  | inl e ↦ rw (decrement_none k t e) h
  | inr (inl e) ↦
      rw (decrement_last k t e) (end_thread-IsTracked k (record t { counts = put t.counts k 0 }) h)
  | inr (inr (n, e)) ↦ rw (decrement_more k t n e) h
]

after-IsTracked : (call : Call) (t : Typing) → IsMatched t → IsTracked t → IsTracked (after call t)
unfolding after on_task_started on_task_done on_turn_started on_turn_finished stop
after-IsTracked (task_started none) t m h = h
after-IsTracked (task_started (some k)) t m h = increment-IsTracked k t m h
after-IsTracked (task_done none) t m h = h
after-IsTracked (task_done (some k)) t m h = decrement-IsTracked k t h
after-IsTracked (turn_started k) t m h =
    increment-IsTracked k (record t { turn_chats = add_to k t.turn_chats }) m h
after-IsTracked (turn_finished k) t m h = elim (Bool-cases (contains t.turn_chats k)) [
  | inr f ↦ rw (on_turn_finished, f) h
  | inl b ↦
      rw (on_turn_finished, b)
        (decrement-IsTracked k (record t { turn_chats = discard k t.turn_chats }) h)
]
after-IsTracked stopped t m (distinct, same) =
    (tt, rw (append-nil (t.stopped ++ numbers t.threads)) same)

-- Through any calls, also unpaired ones: a chat has a typing thread exactly while its count of
-- running tasks and turns is positive; and each thread that was ever started either is the one
-- thread of one chat, or has had its stop event set, once: none is left running without a chat.
-- At the start, both hold.
pub run-IsMatched :
    (cs : List Call) (t : Typing)
    → IsMatched t
    → IsTracked t
    → IsMatched (run cs t) × IsTracked (run cs t)
unfolding run
run-IsMatched [] t m h = (m, h)
run-IsMatched (c ∷ cs) t m h =
    run-IsMatched cs (after c t) (after-IsMatched c t m) (after-IsTracked c t m h)
