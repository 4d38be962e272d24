-- ===== src/Continue/Tests.antt =====
-- Runs of runtime/auto_continue.py.
use diploid_agent.Prelude.{◌≤◌, List, [], ◌∷◌, All, arith}
use diploid_agent.Continue.{AutoContinue}
use diploid_agent.Continue.Queries.{Query}

abbrev one_chat : AutoContinue
one_chat = record { suppressed = ("chat", 50) ∷ []; globally_suppressed_until = 0 }

abbrev two_queries : List Query
two_queries = record { now = 60; chat_id = "chat" } ∷ record { now = 65; chat_id = "other" } ∷ []

asked_before : All (λ q. q.now ≤ 70) two_queries
asked_before = (omega arith, (omega arith, tt))
