-- ===== src/Typing.antt =====
-- RuntimeTyping of runtime/typing.py: the typing heartbeats of the chats. `_threads` holds the
-- chats whose thread is meant to run; `stopped` are the stop events that were set, oldest first.
pub mod Counts
pub mod Threads
mod Tests
use diploid_agent.Prelude.{
  ℕ, zero, suc, String, Bool, true, false, Option, none, some, List, [], ◌∷◌, ◌++◌, if◌then◌else◌,
  or_else, contains, keep, not, ◌==◌, nat_eq,
}
use diploid_agent.Prelude.Dict.{Dict, get, put, pop, keys}

pub record Typing : Type 0 where
  pub counts : Dict ℕ
  pub threads : Dict ℕ
  pub turn_chats : List String
  pub started : ℕ
  pub stopped : List ℕ

-- The number of the next thread stands for the thread and its stop event.
unfoldable pub increment : String → Typing → Typing
increment chat_id t =
    let count = or_else (get t.counts chat_id) 0 in
    let counted : Typing = record t { counts = put t.counts chat_id (suc count) } in
    if nat_eq count 0
    then record counted { threads = put t.threads chat_id t.started; started = suc t.started }
    else counted

unfoldable pub end_thread : String → Typing → Typing
end_thread chat_id t = elim (get t.threads chat_id) [
  | none ↦ t
  | some n ↦ record t { threads = pop t.threads chat_id; stopped = t.stopped ++ n ∷ [] }
]

unfoldable pub decrement : String → Typing → Typing
unfolding end_thread
decrement chat_id t = elim (or_else (get t.counts chat_id) 0) [
  | zero ↦ t
  | suc count ↦
      let counted : Typing = record t { counts = put t.counts chat_id count } in
      if nat_eq count 0 then end_thread chat_id counted else counted
]

-- The chat of a task may be missing.
unfoldable pub on_task_started : Option String → Typing → Typing
unfolding increment
on_task_started none t = t
on_task_started (some chat_id) t = increment chat_id t

unfoldable pub on_task_done : Option String → Typing → Typing
unfolding decrement
on_task_done none t = t
on_task_done (some chat_id) t = decrement chat_id t

-- A set: adding twice is adding once.
abbrev pub discard : String → List String → List String
discard c cs = keep (λ d. not (d == c)) cs

abbrev pub add_to : String → List String → List String
add_to c cs = if contains cs c then cs else c ∷ cs

unfoldable pub on_turn_started : String → Typing → Typing
unfolding increment
on_turn_started chat_id t =
    increment chat_id (record t { turn_chats = add_to chat_id t.turn_chats })

unfoldable pub on_turn_finished : String → Typing → Typing
unfolding decrement
on_turn_finished chat_id t =
    if not (contains t.turn_chats chat_id)
    then t
    else decrement chat_id (record t { turn_chats = discard chat_id t.turn_chats })

abbrev pub numbers : Dict ℕ → List ℕ
numbers [] = []
numbers ((k, n) ∷ d) = n ∷ numbers d

unfoldable pub stop : Typing → Typing
stop t = record {
  counts = [];
  threads = [];
  turn_chats = [];
  started = t.started;
  stopped = t.stopped ++ numbers t.threads;
}
