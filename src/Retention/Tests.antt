-- ===== src/Retention/Tests.antt =====
-- Runs of memory_retention.py with a backend that refuses its first document.
use diploid_agent.Prelude.{
  ℕ, ◌<◌, ◌≡◌, refl, max, true, none, List, [], ◌∷◌, ◌++◌, length, map, nat_eq, not,
}
use diploid_agent.Retention.{Entry, Backend, Buffer, append, before_append}
use diploid_agent.Retention.Documents.{history}
use diploid_agent.Retention.Sequence.{
  Call, turn, flushing, restarting, run, given, IsValid, run_keeps_turns,
}
use diploid_agent.Retention.Bound.{append-bound}

abbrev talk : (turn session : ℕ) → Entry
talk number session = record {
  content = "User: hello";
  turn = number;
  session = session;
  model = none;
  context = none;
  timestamp = "today";
}

abbrev refusing_first : Backend
refusing_first = record {
  takes = λ attempt i. not (nat_eq attempt 0);
  number = λ n. "000001";
  now = "now";
}

abbrev empty_buffer : Buffer
empty_buffer = record {
  bundle_turns = 2;
  chat_id = "chat";
  entries = [];
  file = [];
  retained = [];
  attempts = 0;
}

abbrev two_sessions : List Call
two_sessions = turn (talk 1 1) ∷ turn (talk 2 1) ∷ restarting ∷ turn (talk 1 2) ∷ flushing ∷ []

documents_of_one_session :
    map (λ i. i.turns) (run refusing_first two_sessions empty_buffer).retained
    ≡ (1 ∷ 2 ∷ []) ∷ (1 ∷ []) ∷ []
unfolding run before_append
documents_of_one_session = refl

empty_buffer-IsValid : IsValid empty_buffer
empty_buffer-IsValid = record { saved = refl; content = tt }

run_keeps_turns_example :
    IsValid (run refusing_first two_sessions empty_buffer)
    × (history (run refusing_first two_sessions empty_buffer)
        ≡ history empty_buffer ++ given two_sessions)
run_keeps_turns_example =
    run_keeps_turns refusing_first two_sessions empty_buffer (refl, (refl, (refl, tt)))
      empty_buffer-IsValid

abbrev taking : Backend
taking = record refusing_first { takes = λ attempt i. true }

append-bound_example : length (append taking (talk 1 1) empty_buffer).entries < max 1 2
append-bound_example = append-bound taking (talk 1 1) empty_buffer (λ attempt i. refl)
