-- ===== src/CronService/Tick.antt =====
-- `_tick`, `_tick_trigger`, `_boot_pass` and `_reload` of runtime/cron_service.py.
use diploid_agent.Prelude.{
  String, Bool, true, false, not, ◌||◌, ◌==◌, none, some, List, [], ◌∷◌, if◌then◌else◌, is_none,
  is_some, leb, ltb, contains, map, any,
}
use diploid_agent.Prelude.Dict.{Dict, get, keys}
use diploid_agent.Cron
use diploid_agent.Cron.{CronJobState, Store}
use diploid_agent.CronService.Specs.{Spec, Trigger, is_once}
use diploid_agent.CronService.Jobs.{
  ResolvedJob, Watch, Files, Merge, reload_watch, merge_jobs, same_time,
}
use diploid_agent.CronService.State.{
  Service, Clock, now_of, save_state, driver_key, reset_trigger, next_due_of,
}
use diploid_agent.CronService.Materialize.{materialize, plain}
use diploid_agent.CronService.Finalize.{reconcile_running}
use diploid_agent.CronService.Triggers.{Decision, wait, note, fire, decide, fire_reason, owed}

abbrev stale : Files → Watch → Bool
stale files w = not (same_time (files.stat w.path) w.mtime)

-- The merge replaces the jobs, and drops the states of the jobs that are gone.
unfoldable pub apply_merge : Merge → Service → Service
apply_merge m s = record s {
  jobs = m.merged;
  warnings = m.warnings;
  store = Cron.remove_missing (keys m.merged) s.store;
}

unfoldable pub reload : Clock → (force : Bool) → Service → Service
unfolding apply_merge
reload c force s =
    let s' : Service = record s { watches = map (reload_watch c.files force) s.watches } in
    if force || any (stale c.files) s.watches
    then apply_merge (merge_jobs c.cfg c.files (now_of c) s'.watches) s'
    else s'

unfoldable pub discard : String → List String → List String
discard k [] = []
discard k (x ∷ xs) = if x == k then discard k xs else x ∷ discard k xs

abbrev pub forget_catchup : String → Service → Service
forget_catchup job_id s = record s { catchup_pending = discard job_id s.catchup_pending }

-- A due time that passed while the service was down: fire once, or move on.
unfoldable pub boot_job :
    Clock → (states : Dict CronJobState) → String → ResolvedJob → Service → Service
boot_job c states job_id r s = if is_some r.spec.trigger then s else elim (get states job_id) [
  | none ↦ s
  | some state ↦ elim state.next_due_at [
    | none ↦ s
    | some due ↦
        if leb (now_of c) due || state.disabled
        then s
        else if is_once r.spec.catchup
        then (if contains s.catchup_pending job_id
            then s
            else record s { catchup_pending = job_id ∷ s.catchup_pending })
        else save_state c (record state { next_due_at = next_due_of c r.spec (now_of c) }) s
  ]
]

unfoldable pub boot_each : Clock → Dict CronJobState → Dict ResolvedJob → Service → Service
unfolding boot_job
boot_each c states [] s = s
boot_each c states ((job_id, r) ∷ jobs) s = boot_each c states jobs (boot_job c states job_id r s)

unfoldable pub boot_pass : Clock → Service → Service
unfolding boot_each
boot_pass c s = boot_each c s.store s.jobs s

unfoldable pub apply_decision :
    Clock → ResolvedJob → Trigger → CronJobState → Decision → Service → Service
unfolding materialize
apply_decision c r t state wait s = s
apply_decision c r t state (note state') s = save_state c state' s
apply_decision c r t state (fire state') s =
    (materialize c r state' (record plain { reason = some (fire_reason c r t) })
      (save_state c state' s)).0

-- A job whose due time has come.
unfoldable pub tick_due : Clock → String → ResolvedJob → CronJobState → Service → Service
unfolding materialize
tick_due c job_id r state s =
    if is_some state.running_task_id
    then save_state c (owed r.spec state) s
    else forget_catchup job_id
        (materialize c r state (record plain { catchup = contains s.catchup_pending job_id }) s).0

-- With the driver key settled.
unfoldable pub tick_driver : Clock → String → ResolvedJob → CronJobState → Service → Service
unfolding tick_due apply_decision decide
tick_driver c job_id r state s = elim r.spec.trigger [
  | some t ↦ apply_decision c r t state (decide c r t state) s
  | none ↦ elim state.next_due_at [
    | none ↦ save_state c (record state { next_due_at = next_due_of c r.spec (now_of c) }) s
    | some due ↦ if ltb (now_of c) due then s else tick_due c job_id r state s
  ]
]

abbrev keyed : Clock → Spec → CronJobState → CronJobState
keyed c spec state = record state { schedule_key = driver_key c spec }

-- A driver that was edited while the job is idle.
unfoldable pub tick_edited : Clock → String → ResolvedJob → CronJobState → Service → Service
unfolding tick_driver reset_trigger
tick_edited c job_id r state s =
    if is_some r.spec.trigger
    then (let state' = reset_trigger (keyed c r.spec state) in
        tick_driver c job_id r state' (save_state c state' s))
    else forget_catchup job_id (
        save_state c
          (record (keyed c r.spec state) { next_due_at = next_due_of c r.spec (now_of c) }) s)

unfoldable pub tick_state : Clock → String → ResolvedJob → CronJobState → Service → Service
unfolding tick_driver tick_edited driver_key
tick_state c job_id r state s =
    if state.schedule_key == driver_key c r.spec
    then tick_driver c job_id r state s
    else if state.schedule_key == ""
    then tick_driver c job_id r (keyed c r.spec state) (save_state c (keyed c r.spec state) s)
    else if is_none state.running_task_id
    then tick_edited c job_id r state s
    else tick_driver c job_id r state s

-- With the state that `ensure` gives.
unfoldable pub tick_loaded : Clock → String → ResolvedJob → Store × CronJobState → Service → Service
unfolding tick_state
tick_loaded c job_id r (store, state) s =
    let s' : Service = record s { store = store } in
    if state.disabled
    then s'
    else tick_state c job_id r (record state { source_file = r.source_file }) s'

unfoldable pub tick_job : Clock → String → ResolvedJob → Service → Service
unfolding tick_loaded
tick_job c job_id r s =
    if r.spec.enabled
    then tick_loaded c job_id r (Cron.ensure (now_of c) job_id r.source_file s.store s.store) s
    else s

unfoldable pub tick_jobs : Clock → Dict ResolvedJob → Service → Service
unfolding tick_job
tick_jobs c [] s = s
tick_jobs c ((job_id, r) ∷ jobs) s = tick_jobs c jobs (tick_job c job_id r s)

unfoldable pub boot_once : Clock → Service → Service
unfolding boot_pass
boot_once c s = if s.booted then s else boot_pass c (record s { booted = true })

unfoldable pub tick : Clock → Service → Service
unfolding reload boot_once reconcile_running tick_jobs
tick c s =
    if not c.cfg.enabled
    then s
    else (let s' = reconcile_running c (boot_once c (reload c false s)) in tick_jobs c s'.jobs s')
