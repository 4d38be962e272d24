-- ===== src/Typing/Tests.antt =====
-- Runs of runtime/typing.py.
use mathlib.Core.List.Perm
use diploid_agent.Prelude.{◌≡◌, refl, some, List, [], ◌∷◌}
use diploid_agent.Prelude.Dict.{get, put}
use diploid_agent.Typing.{Typing}
use diploid_agent.Typing.Counts.{
  Call, task_started, turn_started, turn_finished, run, IsMatched, count_of,
}
use diploid_agent.Typing.Threads.{IsTracked, run-IsMatched}

abbrev quiet : Typing
quiet = record { counts = []; threads = []; turn_chats = []; started = 0; stopped = [] }

quiet-IsMatched : IsMatched quiet
unfolding get
quiet-IsMatched c = refl

abbrev busy : List Call
busy =
    task_started (some "chat")
    ∷ turn_started "chat"
    ∷ turn_finished "chat"
    ∷ turn_finished "chat"
    ∷ []

one_task_left : count_of (run busy quiet) "chat" ≡ 1
unfolding run get put
one_task_left = refl

quiet-IsTracked : IsTracked quiet
quiet-IsTracked = (tt, Perm.refl [])

run-IsMatched_example : IsMatched (run busy quiet) × IsTracked (run busy quiet)
run-IsMatched_example = run-IsMatched busy quiet quiet-IsMatched quiet-IsTracked
