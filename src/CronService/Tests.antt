-- ===== src/CronService/Tests.antt =====
-- Runs of runtime/cron_service.py.
use diploid_agent.Prelude.{
  ◌+◌, ◌≤◌, ◌≡◌, refl, true, false, none, some, [], ◌∷◌, arith, length, leb,
}
use diploid_agent.Prelude.Dict.{get, Entries}
use diploid_agent.Jsonl.{is_blank}
use diploid_agent.Wake.{Queue}
use diploid_agent.CronService.Specs.{spec_ok}
use diploid_agent.CronService.Jobs
use diploid_agent.CronService.State.{Clock, driver_key}
use diploid_agent.CronService.Finalize.{
  finalize, max_failures, closed_state, landed, counted, adopted,
}
use diploid_agent.CronService.Deliver.{Target, deliver_turn_to, turns_today}
use diploid_agent.CronService.Materialize.{fired}
use diploid_agent.CronService.Paths.{resolve_trigger_path, is_under, roots, candidate}
use diploid_agent.CronService.Triggers.{decide, decide_by, decide_file, in_window, watched_mtime}
use diploid_agent.CronService.Tick.{tick_due, tick_job}
use diploid_agent.CronService.Sound.{IsSound}
use diploid_agent.CronService.Merge.{merge_jobs-IsSound}
use diploid_agent.CronService.Caps.{listed, merge_jobs_accounts}
use diploid_agent.CronService.Streak
use diploid_agent.CronService.Streak.{after_runs, trailing, disabled_by_streak}
use diploid_agent.CronService.Cooldown.{IsApart, fires-IsApart}
use diploid_agent.CronService.Steps.{
  World, started, refused, ticked, finished, tick, land, here, next,
}
use diploid_agent.CronService.Budget.{armed, waiting, deliver_turn-within, day_cap_exceeded}
use diploid_agent.CronService.Runs.{run_at}
use diploid_agent.CronService.Once.{finalize_once}
use diploid_agent.CronService.Race.{deliveries, stale_write_delivers_twice}
use diploid_agent.CronService.Overlap.{tick_job_keeps_run}
use diploid_agent.CronService.Fixtures.{
  config, files, clock, hourly, watch_trigger, watching, job, two_files, done_task, in_flight,
  service, cron_wake,
}

specs_are_ok : spec_ok hourly ≡ true
unfolding spec_ok is_blank
specs_are_ok = refl

merge_jobs-IsSound_example :
    Entries (IsSound config files 10) (Jobs.merge_jobs config files 10 two_files).merged
merge_jobs-IsSound_example = merge_jobs-IsSound config files 10 two_files

merge_jobs_accounts_example :
    let m = Jobs.merge_jobs config files 10 two_files in
    listed config files 10 two_files ≤ length m.merged + length m.warnings
merge_jobs_accounts_example = merge_jobs_accounts config files 10 two_files refl

abbrev failing : Streak.Run
failing = record { clock = clock 70; ended = done_task; event_failed = true }

disabled_by_streak_example :
    let state = after_runs (some (job hourly)) (failing ∷ failing ∷ []) in_flight in
    (state.consecutive_failures ≡ trailing (failing ∷ failing ∷ []))
    × (state.disabled ≡ leb (max_failures (some (job hourly))) (trailing (failing ∷ failing ∷ [])))
disabled_by_streak_example =
    disabled_by_streak (some (job hourly)) (failing ∷ failing ∷ []) in_flight (omega arith) refl
      refl

abbrev watch_world : World
watch_world = record {
  now = 100;
  state = record in_flight {
    running_task_id = none;
    trigger_seen_mtime = some 50;
    schedule_key = "trigger";
  };
  fires = [];
}

abbrev first_fire : World
first_fire = ticked (clock 100) (job watching) watch_trigger (started "plan-1" "task-2") watch_world

abbrev landed_run : World
landed_run = finished (clock 650) (job watching) refused done_task true first_fire

abbrev changed : Clock
changed = record (clock 800) { files = record files { stat = λ path. some 200 } }

abbrev second_fire : World
second_fire = ticked changed (job watching) watch_trigger (started "plan-1" "task-3") landed_run

fired_twice : second_fire.fires ≡ 800 ∷ 100 ∷ []
unfolding decide decide_by decide_file in_window watched_mtime resolve_trigger_path is_under roots
    candidate fired closed_state landed counted adopted driver_key
fired_twice = refl

first_now : first_fire.now ≡ 100
unfolding decide decide_by decide_file in_window watched_mtime resolve_trigger_path is_under roots
    candidate fired closed_state landed counted adopted driver_key
first_now = refl

landed_now : landed_run.now ≡ 650
unfolding decide decide_by decide_file in_window watched_mtime resolve_trigger_path is_under roots
    candidate fired closed_state landed counted adopted driver_key
landed_now = refl

fires-IsApart_example : IsApart 600 second_fire.fires
fires-IsApart_example =
    fires-IsApart (job watching) watch_trigger 600 watch_world second_fire refl refl refl (
      next
        (next (next here (tick (clock 100) (started "plan-1" "task-2") (omega arith) refl refl))
          (land (clock 650) refused done_task true (omega (arith, first_now)) refl))
        (tick changed (started "plan-1" "task-3") (omega (arith, landed_now)) refl refl))

abbrev target : Target
target = record { spec = hourly; chat_id = "chat" }

none_today : turns_today "2026-01-01" service.store ≡ 0
unfolding turns_today
none_today = refl

no_turns : turns_today "2026-01-01" service.store + armed "chat" [] ≤ 1
no_turns = omega (arith, none_today)

abbrev no_queue : Queue
no_queue = []

empty_queue : get no_queue "wake-9" ≡ none
unfolding get
empty_queue = refl

deliver_turn-within_example :
    let q' = (deliver_turn_to (clock 70) target in_flight done_task service.store []).0 in
    (turns_today "2026-01-01" service.store + armed "chat" q' ≤ 1)
    × (waiting "chat" q' ≤ 4)
    × (armed "other" q' ≡ armed "other" [])
    × (waiting "other" q' ≡ waiting "other" [])
deliver_turn-within_example =
    deliver_turn-within (clock 70) target in_flight done_task service.store [] "other" empty_queue
      refl no_turns (omega arith)

abbrev busy_queue : Queue
busy_queue = ("wake-1", cron_wake "busy") ∷ []

fresh_wake : get busy_queue "wake-9" ≡ none
unfolding get
fresh_wake = refl

day_cap_exceeded_example :
    let q' = (deliver_turn_to (clock 70) target in_flight done_task service.store busy_queue).0 in
    armed "busy" q' + armed "chat" q' ≡ 2
day_cap_exceeded_example =
    day_cap_exceeded (clock 70) target in_flight done_task service.store busy_queue "busy"
      fresh_wake refl none_today refl (omega arith) refl (omega arith)

hourly_runs : get service.store "hourly" ≡ some in_flight
unfolding get
hourly_runs = refl

job_is_there : get service.jobs "hourly" ≡ some (job hourly)
unfolding get
job_is_there = refl

finalize_once_example :
    let s' = finalize (clock 70) "hourly" done_task false service in
    finalize (clock 75) "hourly" done_task true s' ≡ s'
finalize_once_example =
    finalize_once (clock 70) (clock 75) "hourly" done_task false true service in_flight (λ m. refl)
      hourly_runs refl

stale_write_delivers_twice_example :
    let closed = finalize (clock 70) "hourly" done_task false service in
    let ticked = tick_due (clock 71) "hourly" (job hourly) in_flight closed in
    deliveries "task-1" (finalize (clock 76) "hourly" done_task false ticked) ≡ 2
stale_write_delivers_twice_example =
    stale_write_delivers_twice (clock 70) (clock 71) (clock 76) (job hourly) done_task false false
      service in_flight hourly_runs job_is_there refl refl

tick_job_keeps_run_example :
    let s' = tick_job (clock 60) "hourly" (job hourly) service in
    (s'.engine ≡ service.engine) × (run_at "hourly" s'.store ≡ some "task-1")
tick_job_keeps_run_example =
    tick_job_keeps_run (clock 60) "hourly" "task-1" (job hourly) service in_flight hourly_runs refl
      refl
