-- ===== src/Continue.antt =====
-- RuntimeAutoContinue of runtime/auto_continue.py. The clock is an argument.
pub mod Queries
mod Tests
use diploid_agent.Prelude.{
  ℕ, ◌+◌, String, Bool, true, false, Option, none, some, if◌then◌else◌, or_else, ltb,
}
use diploid_agent.Prelude.Dict.{Dict, get, put, pop}

pub record AutoContinue : Type 0 where
  pub suppressed : Dict ℕ
  pub globally_suppressed_until : ℕ

unfoldable pub suppress : (now : ℕ) → Option String → (seconds : ℕ) → AutoContinue → AutoContinue
suppress now none seconds a = record a { globally_suppressed_until = now + seconds }
suppress now (some chat_id) seconds a = record a {
  suppressed = put a.suppressed chat_id (now + seconds);
}

-- An entry whose time is over is taken out when it is asked for.
unfoldable pub is_suppressed : (now : ℕ) → String → AutoContinue → AutoContinue × Bool
is_suppressed now chat_id a =
    if ltb now a.globally_suppressed_until
    then (a, true)
    else if ltb now (or_else (get a.suppressed chat_id) 0)
    then (a, true)
    else (record a { suppressed = pop a.suppressed chat_id }, false)
