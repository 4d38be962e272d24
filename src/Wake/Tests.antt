-- ===== src/Wake/Tests.antt =====
-- Runs of runtime/wake_queue.py on a queue of three events.
use mathlib.Core.List.{Perm}
use diploid_agent.Prelude.{
  ℕ, ◌+◌, ◌≡◌, refl, String, true, false, ◌==◌, Option, none, some, [], ◌∷◌, All, map, keep, arith,
  IsDistinct,
}
use diploid_agent.Prelude.Sort.{sorted}
use diploid_agent.Prelude.Dict.{get, keys, values}
use diploid_agent.Json.{end}
use diploid_agent.Wake.{WakeEvent, Queue, leased, pop_due}
use diploid_agent.Wake.Leases.{may_go, IsRanked, pop_due_delivers, pop_due_once}

abbrev event : String → (priority scheduled_at : ℕ) → Option ℕ → WakeEvent
event id priority scheduled_at leased_until = record {
  id = id;
  chat_id = "chat";
  reason = "timer";
  priority = priority;
  scheduled_at = scheduled_at;
  payload = end;
  silent = false;
  created_at = 1;
  ready = true;
  attempts = 0;
  leased_until = leased_until;
}

-- "a" and "c" are due at 10; "b" is leased until 50.
abbrev three_events : Queue
three_events =
    ("a", event "a" 0 5 none) ∷ ("b", event "b" 0 5 (some 50)) ∷ ("c", event "c" 9 7 (some 10)) ∷ []

three_events-IsDistinct : IsDistinct (keys three_events)
three_events-IsDistinct = (refl, (refl, (refl, tt)))

pop_due_delivers_example :
    Perm
      (pop_due 10 30 three_events).1
      (map (leased (10 + 30)) (keep (may_go 10) (values three_events)))
    × IsRanked (pop_due 10 30 three_events).1
pop_due_delivers_example = pop_due_delivers 10 30 three_events

urgent_first : map (λ e. e.id) (pop_due 10 30 three_events).1 ≡ "c" ∷ "a" ∷ []
unfolding pop_due sorted
urgent_first = refl

pop_due_once_example :
    let first = pop_due 10 30 three_events in
    let second = pop_due 39 30 first.0 in
    All (λ e. All (λ f. f.id == e.id ≡ false) first.1) second.1
pop_due_once_example =
    pop_due_once 10 30 39 30 three_events ((refl, (refl, (refl, tt))), three_events-IsDistinct)
      (omega arith)

b_is_there : get three_events "b" ≡ some (event "b" 0 5 (some 50))
unfolding get
b_is_there = refl

abbrev Same : String → String → Type 0
Same a b = a ≡ b
