-- ===== src/CronService/Schedule.antt =====
-- `_next_due` and `_cron_gap`: when a schedule is due. croniter and the calendar of the machine are
-- the parameter `Calendar`.
use diploid_agent.Prelude.{
  ℕ, zero, suc, ◌+◌, ◌-◌, min, String, Option, none, some, if◌then◌else◌, leb,
}
use diploid_agent.CronService.Specs.{Daily, Schedule}

-- `fires expr start` is none where croniter raises, and else the times of `get_next` in their order;
-- `daily_fires` is that of the expression "minute hour * * *", and `today_at` is `mktime` of the
-- hour on the day of `base`.
pub record Croniter : Type 0 where
  pub fires : String → ℕ → Option (ℕ → ℕ)
  pub daily_fires : Daily → ℕ → ℕ → ℕ

pub record Calendar : Type 0 where
  pub croniter : Option Croniter
  pub today_at : Daily → ℕ → ℕ

-- min(gaps) of `rounds` more gaps, the first of which is given.
unfoldable pub min_gap : (times : ℕ → ℕ) → (i : ℕ) → (rounds : ℕ) → (best : ℕ) → ℕ
min_gap times i zero best = best
min_gap times i (suc rounds) best =
    min_gap times (suc i) rounds (min best (times (suc i) - times i))

abbrev pub samples : ℕ
samples = 5

unfoldable pub cron_gap : Calendar → (expr : String) → (now : ℕ) → Option ℕ
unfolding min_gap
cron_gap cal expr now = elim cal.croniter [
  | none ↦ none
  | some croniter ↦ elim (croniter.fires expr now) [
    | none ↦ none
    | some times ↦ some (min_gap times 1 (samples - 2) (times 1 - times 0))
  ]
]

abbrev day : ℕ
day = 86400

-- The time that croniter gives for a job's expression. An expression that it refuses is dropped when
-- the files are merged, so the last branch is that of a machine without croniter.
unfoldable pub cron_next : Calendar → (expr : String) → (base : ℕ) → ℕ
cron_next cal expr base = elim cal.croniter [
  | none ↦ base + day
  | some croniter ↦ elim (croniter.fires expr base) [ none ↦ base + day | some times ↦ times 0 ]
]

unfoldable pub daily_next : Calendar → Daily → (base : ℕ) → ℕ
daily_next cal d base = elim cal.croniter [
  | some croniter ↦ croniter.daily_fires d base 0
  | none ↦
      let candidate = cal.today_at d base in
      if leb candidate base then candidate + day else candidate
]

unfoldable pub next_due : Calendar → Schedule → (base : ℕ) → ℕ
unfolding daily_next cron_next
next_due cal s base = elim s.every_seconds [
  | some seconds ↦ base + seconds
  | none ↦ elim s.at_daily [
    | some d ↦ daily_next cal d base
    | none ↦ elim s.cron [ some expr ↦ cron_next cal expr base | none ↦ base + day ]
  ]
]
