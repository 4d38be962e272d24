-- ===== src/CronService/Race.antt =====
-- The tick and the event bus of runtime/cron_service.py are two threads: the tick reads a state, and
-- writes it back later. Only `_finalize` reads again under its lock.
use diploid_agent.Prelude.{
  ℕ, suc, ◌≡◌, refl, ◌∙◌, ap, String, Bool, true, false, not, ◌&&◌, ◌==◌, Option, none, some,
  if◌then◌else◌, arith, opt_eq, count, count-snoc, Bool-cases, Option-cases, inl, inr, eq_refl,
}
use diploid_agent.Prelude.Dict.{get}
use diploid_agent.Plan.Models.{Task}
use diploid_agent.Tasks.Engine.{Started, task, raises}
use diploid_agent.Cron.{CronJobState}
use diploid_agent.CronService.Specs.{Spec, is_turn}
use diploid_agent.CronService.Jobs.{ResolvedJob}
use diploid_agent.CronService.State.{
  Service, Clock, Delivered, now_of, save_state, cron_plan_id, find_cron_plan,
}
use diploid_agent.CronService.Materialize.{
  Mode, plain, after_start, start_run, launch, after_add, materialize,
}
use diploid_agent.CronService.Deliver.{
  Target, deliver, deliver_turn, delivery_context, fired_spec_of, fired_chat_of,
}
use diploid_agent.CronService.Finalize.{
  closed_state, deliver_to, refire, finish, finalize, succeeded,
}
use diploid_agent.CronService.Triggers.{owed}
use diploid_agent.CronService.Tick.{tick_due}
use diploid_agent.CronService.Runs.{get-update}
use diploid_agent.CronService.Once.{finalize_claims}

-- How often a task has been delivered.
abbrev pub deliveries : (task_id : String) → Service → ℕ
deliveries task_id s = count (λ d. d.task_id == task_id) s.delivered

-- Starting a run leaves the jobs and the deliveries.
abbrev IsKept : Service → Service → Type 0
IsKept s s' = (s'.delivered ≡ s.delivered) × (s'.jobs ≡ s.jobs)

after_start_keeps :
    (c : Clock) (plan_id task_id : String) (state : CronJobState) (started : Started) (s : Service)
    → IsKept s (after_start c plan_id task_id state started s).0
unfolding after_start
after_start_keeps c plan_id task_id state (task _) s = (refl, refl)
after_start_keeps c plan_id task_id state (raises error) s = (refl, refl)

after_add_keeps :
    (c : Clock) (r : ResolvedJob) (mode : Mode) (plan_id : String) (state : CronJobState)
    → (added : Option Task) (s : Service) → IsKept s (after_add c r mode plan_id state added s).0
unfolding after_add launch start_run
after_add_keeps c r mode plan_id state none s = (refl, refl)
after_add_keeps c r mode plan_id state (some t) s = after_start_keeps c plan_id t.id _ _ _

cron_plan_id_keeps :
    (c : Clock) (chat_id : String) (s : Service) → IsKept s (cron_plan_id c chat_id s).0
unfolding cron_plan_id find_cron_plan
cron_plan_id_keeps c chat_id s = ground arith

materialize_keeps :
    (c : Clock) (r : ResolvedJob) (state : CronJobState) (mode : Mode) (s : Service)
    → IsKept s (materialize c r state mode s).0
unfolding materialize
materialize_keeps c r state mode s =
    let plan = cron_plan_id_keeps c r.chat_id s in
    let more = after_add_keeps c r mode (cron_plan_id c r.chat_id s).1 state _ _ in
    (more.0 ∙ plan.0, more.1 ∙ plan.1)

refire_keeps :
    (c : Clock) (r : ResolvedJob) (state : CronJobState) (s : Service)
    → IsKept s (refire c (some r) state s)
unfolding refire
refire_keeps c r state s = elim (Bool-cases (state.queued_due && not state.disabled)) [
  | inl e ↦
      let state' : CronJobState = record state { queued_due = false } in
      rw (refire, e) (materialize_keeps c r state' plain (save_state c state' s))
  | inr e ↦ rw (refire, e) (refl, refl)
]

fired_spec_of-some :
    (c : Clock) (state : CronJobState) (r : ResolvedJob)
    → (spec : Spec) × (fired_spec_of c state (some r) ≡ some spec)
unfolding fired_spec_of
fired_spec_of-some c state r =
    elim (Option-cases (if state.fired_spec == "" then none else c.load_spec state.fired_spec)) [
      | inl e ↦ (r.spec, rw (fired_spec_of, e) refl)
      | inr (spec, e) ↦ (spec, rw (fired_spec_of, e) refl)
    ]

fired_chat_of-blank :
    (state : CronJobState) (r : ResolvedJob)
    → r.chat_id == "" ≡ false
    → fired_chat_of state (some r) == "" ≡ false
unfolding fired_chat_of
fired_chat_of-blank state r chat = ground arith

delivery_context-some :
    (c : Clock) (state : CronJobState) (r : ResolvedJob)
    → r.chat_id == "" ≡ false
    → (target : Target) × (delivery_context c state (some r) ≡ some target)
unfolding delivery_context
delivery_context-some c state r chat =
    let (spec, e) = fired_spec_of-some c state r in
    (
      record { spec = spec; chat_id = fired_chat_of state (some r) },
      rw (delivery_context, e, fired_chat_of-blank state r chat) refl,
    )

deliver_turn_keeps :
    (c : Clock) (target : Target) (state : CronJobState) (t : Task) (s : Service)
    → IsKept s (deliver_turn c target state t s).0
unfolding deliver_turn
deliver_turn_keeps c target state t s = ground arith

deliver_counts :
    (c : Clock) (target : Target) (state : CronJobState) (t : Task) (s : Service)
    → (deliveries t.id (deliver c target state t s) ≡ suc (deliveries t.id s))
      × ((deliver c target state t s).jobs ≡ s.jobs)
unfolding deliver
deliver_counts c target state t s = elim (Bool-cases (is_turn target.spec.delivery)) [
  | inl e ↦
      let kept = deliver_turn_keeps c target state t s in
      rw (deliver, e)
        (
          count-snoc (λ (d : Delivered). d.task_id == t.id) _ _
              ∙ rw (eq_refl t.id)
                  (ap suc (ap (count (λ (d : Delivered). d.task_id == t.id)) kept.0)),
          kept.1,
        )
  | inr e ↦
      rw (deliver, e)
        (count-snoc (λ (d : Delivered). d.task_id == t.id) _ _ ∙ rw (eq_refl t.id) refl, refl)
]

-- A run that is claimed is delivered once more.
finish_delivers :
    (c : Clock) (r : ResolvedJob) (t : Task) (event_failed : Bool) (state : CronJobState)
    → (s : Service) → r.chat_id == "" ≡ false
    → let s' = finish c (some r) t event_failed state s in
      (deliveries t.id s' ≡ suc (deliveries t.id s)) × (s'.jobs ≡ s.jobs)
unfolding finish
finish_delivers c r t event_failed state s chat =
    let state' = closed_state c (some r) t (succeeded t event_failed) state in
    let (target, e) = delivery_context-some c state' r chat in
    let saved = save_state c state' s in
    let to : deliver_to c state' (some r) t saved ≡ deliver c target state' t saved =
      rw (deliver_to, e) refl in
    let kept = refire_keeps c r state' (deliver_to c state' (some r) t saved) in
    let counted = deliver_counts c target state' t saved in
    (
      ap (count (λ (d : Delivered). d.task_id == t.id)) kept.0
          ∙ ap (deliveries t.id) to
          ∙ counted.0,
      kept.1 ∙ ap (λ (x : Service). x.jobs) to ∙ counted.1,
    )

-- The state as a save leaves it in the file.
abbrev stored : Clock → CronJobState → CronJobState
stored c state = record state { updated_at = now_of c }

owed_keeps :
    (spec : Spec) (state : CronJobState)
    → ((owed spec state).job_id ≡ state.job_id)
      × ((owed spec state).running_task_id ≡ state.running_task_id)
owed_keeps spec state = ground arith

-- The tick has read the state of a running job before the event bus closes its run, and writes the
-- old state back with its note on the overlap. The run is in the state again, and the next look at
-- the finished task closes it a second time: its result is delivered twice.
pub stale_write_delivers_twice :
    (c c' c'' : Clock) (r : ResolvedJob) (t : Task) (failed failed' : Bool) (s : Service)
    → (state : CronJobState) → get s.store state.job_id ≡ some state
    → get s.jobs state.job_id ≡ some r
    → r.chat_id == "" ≡ false
    → state.running_task_id ≡ some t.id
    → let closed = finalize c state.job_id t failed s in
      let ticked = tick_due c' state.job_id r state closed in
      deliveries t.id (finalize c'' state.job_id t failed' ticked) ≡ suc (suc (deliveries t.id s))
unfolding tick_due
stale_write_delivers_twice c c' c'' r t failed failed' s state found job chat running =
    let j = state.job_id in
    let runs : opt_eq state.running_task_id t.id ≡ true = rw running (eq_refl t.id) in
    let closed = finalize c j t failed s in
    let claimed : closed ≡ finish c (some r) t failed state s =
      finalize_claims c j t failed s state found runs ∙ ap (λ o. finish c o t failed state s) job in
    let first = finish_delivers c r t failed state s chat in
    let stale : CronJobState = owed r.spec state in
    let ticked = save_state c' stale closed in
    let written : tick_due c' j r state closed ≡ ticked = rw (tick_due, running) refl in
    let facts = owed_keeps r.spec state in
    let kept_state : get ticked.store j ≡ some (stored c' stale) =
      get-update (now_of c') stale closed.store j facts.0 in
    let kept_runs : opt_eq stale.running_task_id t.id ≡ true = rw facts.1 runs in
    let again : finalize c'' j t failed' ticked
        ≡ finish c'' (some r) t failed' (stored c' stale) ticked =
      finalize_claims c'' j t failed' ticked (stored c' stale) kept_state kept_runs
      ∙ ap (λ o. finish c'' o t failed' (stored c' stale) ticked)
          (ap (λ (x : Service). get x.jobs j) claimed ∙ ap (λ d. get d j) first.1 ∙ job) in
    let second = finish_delivers c'' r t failed' (stored c' stale) ticked chat in
    ap (λ x. deliveries t.id (finalize c'' j t failed' x)) written
    ∙ ap (deliveries t.id) again
    ∙ second.0
    ∙ ap suc (ap (deliveries t.id) claimed ∙ first.0)
