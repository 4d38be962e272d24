-- ===== src/CronService/Overlap.antt =====
-- The tick of runtime/cron_service.py never starts a job whose run is in flight.
use diploid_agent.Prelude.{
  ℕ, ◌≡◌, refl, ◌∙◌, ap, String, Bool, true, false, ◌==◌, Option, none, some, if◌then◌else◌, arith,
  is_some, is_none, Bool-cases, Option-cases, inl, inr, ltb,
}
use diploid_agent.Prelude.Dict.{get}
use diploid_agent.Cron
use diploid_agent.Cron.{CronJobState, Store}
use diploid_agent.CronService.Specs.{Spec, Trigger, TriggerType}
use diploid_agent.CronService.Jobs.{ResolvedJob}
use diploid_agent.CronService.State.{Service, Clock, now_of, save_state, driver_key}
use diploid_agent.CronService.Triggers.{
  Decision, wait, note, fire, decide, decide_by, decide_file, decide_body, owed,
}
use diploid_agent.CronService.Tick.{
  apply_decision, tick_due, tick_driver, tick_state, tick_loaded, tick_job,
}
use diploid_agent.CronService.Runs.{run_of, run_at, run_at-update}

-- The same job, with the same run.
abbrev Same : CronJobState → CronJobState → Type 0
Same state state' =
    (state'.job_id ≡ state.job_id) × (state'.running_task_id ≡ state.running_task_id)

-- A decision on a running job: no fire, and the run stays in the state.
abbrev Holds : CronJobState → Decision → Type 0
Holds state wait = Unit
Holds state (note state') = Same state state'
Holds state (fire state') = state.running_task_id ≡ none

decide_file-Holds :
    (now cooldown : ℕ) (spec : Spec) (mtime : Option ℕ) (state : CronJobState)
    → Holds state (decide_file now cooldown spec mtime state)
unfolding decide_file
decide_file-Holds now cooldown spec none state = tt
decide_file-Holds now cooldown spec (some mtime) state = ground arith

decide_body-Holds :
    (now cooldown : ℕ) (spec : Spec) (met : Bool) (state : CronJobState)
    → Holds state (decide_body now cooldown spec met state)
unfolding decide_body
decide_body-Holds now cooldown spec met state = ground arith

decide_by-Holds :
    (c : Clock) (r : ResolvedJob) (t : Trigger) (kind : TriggerType) (state : CronJobState)
    → Holds state (decide_by c r t kind state)
unfolding decide_by
decide_by-Holds c r t TriggerType.file state = decide_file-Holds _ _ r.spec _ state
decide_by-Holds c r t TriggerType.body state = decide_body-Holds _ _ r.spec _ state

module _ (c : Clock) (j task : String) (r : ResolvedJob) where
  -- The run of `j` is `task`, in the state that the tick holds and in the store.
  abbrev InFlight : CronJobState → Service → Type 0
  InFlight state s =
      (state.job_id ≡ j) × (state.running_task_id ≡ some task) × (run_at j s.store ≡ some task)

  abbrev IsKept : Service → Service → Type 0
  IsKept s s' = (s'.engine ≡ s.engine) × (run_at j s'.store ≡ some task)

  save-IsKept :
      (state state' : CronJobState) (s : Service)
      → InFlight state s
      → Same state state'
      → IsKept s (save_state c state' s)
  save-IsKept state state' s f same =
      (refl, run_at-update (now_of c) state' s.store j (same.0 ∙ f.0) ∙ same.1 ∙ f.1)

  apply_decision-IsKept :
      (t : Trigger) (state : CronJobState) (d : Decision) (s : Service)
      → InFlight state s
      → Holds state d
      → IsKept s (apply_decision c r t state d s)
  unfolding apply_decision
  apply_decision-IsKept t state wait s f h = (refl, f.2)
  apply_decision-IsKept t state (note state') s f h = save-IsKept state state' s f h
  apply_decision-IsKept t state (fire state') s f h = cc

  tick_due-IsKept :
      (state : CronJobState) (s : Service) → InFlight state s → IsKept s (tick_due c j r state s)
  unfolding tick_due
  tick_due-IsKept state s f =
      let busy : is_some state.running_task_id ≡ true = ap is_some f.1 in
      rw (tick_due, busy) (save-IsKept state (owed r.spec state) s f (ground arith))

  tick_driver-IsKept :
      (state : CronJobState) (s : Service) → InFlight state s → IsKept s (tick_driver c j r state s)
  unfolding tick_driver decide
  tick_driver-IsKept state s f = elim (Option-cases r.spec.trigger) [
    | inr (t, e) ↦
        rw (tick_driver, e)
          (apply_decision-IsKept t state (decide c r t state) s f
            (decide_by-Holds c r t t.type state))
    | inl e ↦ elim (Option-cases state.next_due_at) [
      | inl n ↦ rw (tick_driver, e, n) (save-IsKept state _ s f (refl, refl))
      | inr (due, n) ↦ elim (Bool-cases (ltb (now_of c) due)) [
        | inl b ↦ rw (tick_driver, e, n, b) (refl, f.2)
        | inr b ↦ rw (tick_driver, e, n, b) (tick_due-IsKept state s f)
      ]
    ]
  ]

  tick_state-IsKept :
      (state : CronJobState) (s : Service) → InFlight state s → IsKept s (tick_state c j r state s)
  unfolding tick_state
  tick_state-IsKept state s f = elim (Bool-cases (state.schedule_key == driver_key c r.spec)) [
    | inl e ↦ rw (tick_state, e) (tick_driver-IsKept state s f)
    | inr e ↦ elim (Bool-cases (state.schedule_key == "")) [
      | inl b ↦
          let state' : CronJobState = record state { schedule_key = driver_key c r.spec } in
          let saved = save-IsKept state state' s f (refl, refl) in
          rw (tick_state, e, b)
            (tick_driver-IsKept state' (save_state c state' s) (f.0, f.1, saved.1))
      | inr b ↦
          let busy : is_none state.running_task_id ≡ false = ap is_none f.1 in
          rw (tick_state, e, b, busy) (tick_driver-IsKept state s f)
    ]
  ]

ensure_found :
    (now : ℕ) (j source : String) (store : Store) (state : CronJobState)
    → get store j ≡ some state
    → Cron.ensure now j source store store ≡ (store, state)
unfolding Cron.ensure
ensure_found now j source store state found = rw (Cron.ensure, found) refl

if-IsKept :
    (c : Clock) (j task : String) (r : ResolvedJob) (s : Service) (b : Bool) (x y : Service)
    → IsKept c j task r s x
    → IsKept c j task r s y
    → IsKept c j task r s (if b then x else y)
if-IsKept c j task r s true x y h k = h
if-IsKept c j task r s false x y h k = k

tick_loaded_lem :
    (c : Clock) (j task : String) (r : ResolvedJob) (state : CronJobState) (s : Service)
    → state.job_id ≡ j
    → state.running_task_id ≡ some task
    → run_at j s.store ≡ some task
    → IsKept c j task r s (tick_loaded c j r (s.store, state) s)
unfolding tick_loaded
tick_loaded_lem c j task r state s own running kept =
    if-IsKept c j task r s state.disabled s
      (tick_state c j r (record state { source_file = r.source_file }) s) (refl, kept)
      (tick_state-IsKept c j task r (record state { source_file = r.source_file }) s
        (own, running, kept))

-- While a job's run is in flight, a tick of the job starts nothing, whatever drives the job and
-- whether its driver was edited: the task engine with its plans is unchanged, and the state still
-- names the run.
pub tick_job_keeps_run :
    (c : Clock) (j task : String) (r : ResolvedJob) (s : Service) (state : CronJobState)
    → get s.store j ≡ some state
    → state.job_id ≡ j
    → state.running_task_id ≡ some task
    → let s' = tick_job c j r s in (s'.engine ≡ s.engine) × (run_at j s'.store ≡ some task)
unfolding tick_job
tick_job_keeps_run c j task r s state found own running =
    let kept : run_at j s.store ≡ some task = ap run_of found ∙ running in
    elim (Bool-cases r.spec.enabled) [
      | inr off ↦ simp (tick_job, off) (refl, kept)
      | inl on ↦
          simp (tick_job, on, ensure_found (now_of c) j r.source_file s.store state found)
            (tick_loaded_lem c j task r state s own running kept)
    ]
