-- ===== src/CronService/Finalize.antt =====
-- `_on_event`, `_finalize` and `_reconcile_running` of runtime/cron_service.py: a finished task
-- closes the run of its job.
use diploid_agent.Prelude.{
  ℕ, suc, String, Bool, true, false, not, ◌&&◌, ◌||◌, ◌==◌, Option, none, some, List, [], ◌∷◌,
  if◌then◌else◌, or_else, opt_eq, is_some, leb, find_first, ◌^◌,
}
use diploid_agent.Prelude.Dict.{get, put, pop, values}
use diploid_agent.Plan.Models.{Task, TaskStatus}
use diploid_agent.Plan.Manager
use diploid_agent.Tasks.Engine.{Event, task_completed, task_failed, task_crashed}
use diploid_agent.Cron
use diploid_agent.Cron.{CronJobState}
use diploid_agent.CronService.Jobs.{ResolvedJob}
use diploid_agent.CronService.State.{
  Service, Clock, now_of, save_state, driver_key, reset_trigger, next_due_of,
}
use diploid_agent.CronService.Materialize.{materialize, plain}
use diploid_agent.CronService.Deliver.{deliver, delivery_context}

abbrev pub is_done : TaskStatus → Bool
is_done TaskStatus.done = true
is_done _ = false

-- `task.status in (DONE, INCOMPLETE, FAILED)`
abbrev pub is_closed : TaskStatus → Bool
is_closed TaskStatus.done = true
is_closed TaskStatus.incomplete = true
is_closed TaskStatus.failed = true
is_closed _ = false

abbrev pub succeeded : Task → (event_failed : Bool) → Bool
succeeded t event_failed = is_done t.status && (not t.timed_out && not event_failed)

-- The outcome is written into the state, and the run is over.
unfoldable pub landed : Clock → Task → (ok : Bool) → CronJobState → CronJobState
landed c t ok state = record state {
  last_summary =
      c.first_line (elim t.result [ none ↦ t.log | some r ↦ if r == "" then t.log else r ]);
  last_status = some (if ok then "ok" else "failed");
  last_finished_at = some (now_of c);
  running_task_id = none;
  running_plan_id = none;
}

abbrev pub max_failures : Option ResolvedJob → ℕ
max_failures none = 3
max_failures (some r) = r.spec.max_consecutive_failures

-- Success resets the count and enables the job; enough failures in a row disable it.
unfoldable pub counted : Clock → Option ResolvedJob → (ok : Bool) → CronJobState → CronJobState
counted c resolved ok state =
    if ok
    then record state { consecutive_failures = 0; disabled = false }
    else (let failures = suc state.consecutive_failures in
        if leb (max_failures resolved) failures
        then record state {
          consecutive_failures = failures;
          disabled = true;
          last_status = some "disabled";
          last_summary =
              "auto-disabled after "
              ^ c.show failures
              ^ " consecutive failures: "
              ^ state.last_summary;
        }
        else record state { consecutive_failures = failures })

-- A driver that was edited while the run was in flight.
unfoldable pub adopted : Clock → Option ResolvedJob → CronJobState → CronJobState
unfolding driver_key reset_trigger
adopted c none state = state
adopted c (some r) state =
    if state.schedule_key == driver_key c r.spec
    then state
    else (let state' : CronJobState = record state { schedule_key = driver_key c r.spec } in
        if is_some r.spec.trigger
        then reset_trigger state'
        else record state' { next_due_at = next_due_of c r.spec (now_of c) })

unfoldable pub closed_state :
    Clock → Option ResolvedJob → Task → (ok : Bool) → CronJobState → CronJobState
unfolding landed counted adopted
closed_state c resolved t ok state =
    adopted c resolved (counted c resolved ok (landed c t ok state))

abbrev pub deliver_to : Clock → CronJobState → Option ResolvedJob → Task → Service → Service
deliver_to c state resolved t s = elim (delivery_context c state resolved) [
  | none ↦ s
  | some target ↦ deliver c target state t s
]

-- A fire that is owed starts now; the bookkeeping of a job that was removed is dropped.
unfoldable pub refire : Clock → Option ResolvedJob → CronJobState → Service → Service
unfolding materialize
refire c none state s = record s { store = Cron.drop state.job_id s.store }
refire c (some r) state s =
    if state.queued_due && not state.disabled
    then (let state' : CronJobState = record state { queued_due = false } in
        (materialize c r state' plain (save_state c state' s)).0)
    else s

-- Past the lock: the state is saved, the result delivered, an owed fire started.
unfoldable pub finish :
    Clock → Option ResolvedJob → Task → (event_failed : Bool) → CronJobState → Service → Service
unfolding closed_state refire
finish c resolved t event_failed fresh s =
    let state = closed_state c resolved t (succeeded t event_failed) fresh in
    refire c resolved state (deliver_to c state resolved t (save_state c state s))

-- Only the first caller finds the task in the state.
unfoldable pub finalize :
    Clock → (job_id : String) → Task → (event_failed : Bool) → Service → Service
unfolding finish
finalize c job_id t event_failed s = elim (get s.store job_id) [
  | none ↦ s
  | some fresh ↦
      if opt_eq fresh.running_task_id t.id
      then finish c (get s.jobs job_id) t event_failed fresh s
      else s
]

abbrev event_task : Event → String
event_task (task_completed plan_id task_id result log flags) = task_id
event_task (task_failed plan_id task_id log flags) = task_id
event_task (task_crashed plan_id task_id error) = task_id

abbrev event_failed : Event → Bool
event_failed (task_completed plan_id task_id result log flags) = false
event_failed _ = true

abbrev mentions : String → CronJobState → Bool
mentions task_id s = opt_eq s.running_task_id task_id || opt_eq s.last_task_id task_id

unfoldable pub state_of_task : (task_id : String) → Service → Option CronJobState
state_of_task task_id s =
    let known : Option CronJobState = elim (get s.task_to_job task_id) [
      | none ↦ none
      | some job_id ↦ get s.store job_id
    ] in
    elim known [ some state ↦ some state | none ↦ find_first (mentions task_id) (values s.store) ]

unfoldable pub on_event : Clock → Event → Service → Service
unfolding state_of_task finalize
on_event c event s =
    if event_task event == ""
    then s
    else (let s' : Service = record s { task_to_job = pop s.task_to_job (event_task event) } in
        elim (state_of_task (event_task event) s) [
          | none ↦ s'
          | some state ↦
              elim (Manager.get_task (or_else state.running_plan_id "") (event_task event)
                s'.engine.manager) [
                  | none ↦ s'
                  | some t ↦ finalize c state.job_id t (event_failed event) s'
                ]
        ])

abbrev lost : CronJobState → CronJobState
lost state = record state {
  running_task_id = none;
  running_plan_id = none;
  last_status = some "failed";
  last_summary = "task record lost during restart";
}

unfoldable pub reconcile : Clock → CronJobState → Service → Service
unfolding finalize
reconcile c state s = elim state.running_task_id [
  | none ↦ s
  | some task_id ↦
      elim (Manager.get_task (or_else state.running_plan_id "") task_id s.engine.manager) [
        | none ↦ save_state c (lost state) s
        | some t ↦
            let s' : Service = record s { task_to_job = put s.task_to_job t.id state.job_id } in
            if is_closed t.status then finalize c state.job_id t false s' else s'
      ]
]

-- `for state in self._state.all().values()`: the states as they were at the start.
unfoldable pub reconcile_all : Clock → List CronJobState → Service → Service
unfolding reconcile
reconcile_all c [] s = s
reconcile_all c (state ∷ states) s = reconcile_all c states (reconcile c state s)

unfoldable pub reconcile_running : Clock → Service → Service
unfolding reconcile_all
reconcile_running c s = reconcile_all c (values s.store) s
