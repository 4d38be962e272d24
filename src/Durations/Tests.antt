-- ===== src/Durations/Tests.antt =====
-- Runs of text.py, with a thousand ticks in a second.
use diploid_agent.Prelude.{◌≡◌, ◌<◌, refl, arith}
use diploid_agent.Json.{codes}
use diploid_agent.Durations.{
  ahead, behind, human_duration, compact_duration, elapsed_short, whole_duration, whole_compact,
  whole_elapsed, decimal,
}
use diploid_agent.Durations.Reading.{duration_of, IsFull, duration_of-human_duration}

long_text_of : human_duration 1000 (ahead 3723600) ≡ codes "1h 2m 3s"
unfolding human_duration whole_duration decimal
long_text_of = refl

compact_text_of : compact_duration 1000 (ahead 3660000) ≡ codes "1h 1m"
unfolding compact_duration whole_compact decimal
compact_text_of = refl

short_text_of : elapsed_short 1000 (ahead 3723600) ≡ codes "62m 3s"
unfolding elapsed_short whole_elapsed decimal
short_text_of = refl

-- int(-5.0) // 60 is -1, and the remainder 55.
negative_text_of : elapsed_short 1000 (behind 5000) ≡ codes "55s"
unfolding elapsed_short decimal
negative_text_of = refl

duration_of-human_duration_example :
    IsFull 1000 3723600 (duration_of (human_duration 1000 (ahead 3723600)))
    × IsFull 1000 3723600 (duration_of (elapsed_short 1000 (ahead 3723600)))
    × (duration_of (human_duration 1000 (behind 3723600)) ≡ 0)
    × (duration_of (elapsed_short 1000 (behind 3723600)) < 60)
duration_of-human_duration_example = duration_of-human_duration 1000 3723600 (omega arith)
