-- ===== src/CronService/Streak.antt =====
-- Auto-disabling in `_finalize` of runtime/cron_service.py, over any sequence of finished runs.
use diploid_agent.Prelude.{
  ℕ, suc, ◌+◌, ◌≤◌, ◌≡◌, refl, Bool, true, false, Option, none, some, List, [], ◌∷◌, if◌then◌else◌,
  arith, any, length, leb,
}
use diploid_agent.Plan.Models.{Task}
use diploid_agent.Cron.{CronJobState}
use diploid_agent.CronService.Jobs.{ResolvedJob}
use diploid_agent.CronService.State.{Clock}
use diploid_agent.CronService.Finalize.{
  closed_state, landed, counted, adopted, succeeded, max_failures,
}

-- A finished run: the task as it ended, and whether the event said that it failed.
pub record Run : Type 0 where
  pub clock : Clock
  pub ended : Task
  pub event_failed : Bool

abbrev pub is_ok : Run → Bool
is_ok r = succeeded r.ended r.event_failed

abbrev after_run : Option ResolvedJob → Run → CronJobState → CronJobState
after_run job r state = closed_state r.clock job r.ended (is_ok r) state

abbrev pub after_runs : Option ResolvedJob → List Run → CronJobState → CronJobState
after_runs job [] state = state
after_runs job (r ∷ runs) state = after_runs job runs (after_run job r state)

-- The failures behind the last success.
abbrev pub trailing : List Run → ℕ
trailing [] = 0
trailing (r ∷ runs) =
    if any is_ok runs then trailing runs else if is_ok r then length runs else suc (length runs)

adopted_keeps :
    (c : Clock) (job : Option ResolvedJob) (state : CronJobState)
    → ((adopted c job state).consecutive_failures ≡ state.consecutive_failures)
      × ((adopted c job state).disabled ≡ state.disabled)
unfolding adopted
adopted_keeps c none state = (refl, refl)
adopted_keeps c (some r) state = ground arith

module _ (job : Option ResolvedJob) where
  after_run_lem :
      (r : Run) (state : CronJobState)
      → let state' = after_run job r state in
        (state'.consecutive_failures ≡ (if is_ok r then 0 else suc state.consecutive_failures))
        × (state'.disabled ≡ (
            if is_ok r
            then false
            else if leb (max_failures job) (suc state.consecutive_failures)
            then true
            else state.disabled))
  unfolding closed_state counted landed
  after_run_lem r state = ground (
    arith,
    adopted_keeps r.clock job
        (counted r.clock job (is_ok r) (landed r.clock r.ended (is_ok r) state)),
  )

  failures_lem :
      (runs : List Run) (state : CronJobState)
      → (after_runs job runs state).consecutive_failures
        ≡ (if any is_ok runs then trailing runs else length runs + state.consecutive_failures)
  failures_lem [] state = omega arith
  failures_lem (r ∷ runs) state =
      ground (arith, failures_lem runs (after_run job r state), (after_run_lem r state).0)

  module _ (one : 1 ≤ max_failures job) where
    -- The flag of the state says whether the count has reached the limit.
    abbrev Agrees : CronJobState → Type 0
    Agrees state = state.disabled ≡ leb (max_failures job) state.consecutive_failures

    after_run-Agrees :
        (r : Run) (state : CronJobState) → Agrees state → Agrees (after_run job r state)
    after_run-Agrees r state h = ground (arith, after_run_lem r state)

    after_runs-Agrees :
        (runs : List Run) (state : CronJobState) → Agrees state → Agrees (after_runs job runs state)
    after_runs-Agrees [] state h = h
    after_runs-Agrees (r ∷ runs) state h =
        after_runs-Agrees runs (after_run job r state) (after_run-Agrees r state h)

  all_failed : (runs : List Run) → any is_ok runs ≡ false → trailing runs ≡ length runs
  all_failed [] h = refl
  all_failed (r ∷ runs) h = ground arith

-- A job that has not failed yet is disabled after a sequence of finished runs exactly when the runs
-- behind its last success, all of them failed, are at least as many as its limit, which is positive;
-- the count in the state is the number of those runs.
pub disabled_by_streak :
    (job : Option ResolvedJob) (runs : List Run) (state : CronJobState)
    → 1 ≤ max_failures job
    → state.consecutive_failures ≡ 0
    → state.disabled ≡ false
    → ((after_runs job runs state).consecutive_failures ≡ trailing runs)
      × ((after_runs job runs state).disabled ≡ leb (max_failures job) (trailing runs))
disabled_by_streak job runs state one zero_failures enabled =
    let counted_right : (after_runs job runs state).consecutive_failures ≡ trailing runs =
      ground (arith, failures_lem job runs state, all_failed job runs) in
    let agrees = after_runs-Agrees job one runs state (ground arith) in
    (counted_right, rw (← counted_right) agrees)
