-- ===== src/CronService/Runs.antt =====
-- Which task the state of a job runs, through the steps of `_materialize` (runtime/cron_service.py).
use diploid_agent.Prelude.{
  ℕ, ◌≡◌, refl, ◌∙◌, ap, String, false, ◌==◌, Option, none, some, List, [], ◌∷◌, arith, opt_eq,
  find_first, Bool-cases, Option-cases, inl, inr, eq_iff, eq_refl, ◌++◌, contains, map,
}
use diploid_agent.Prelude.Dict.{get, get-put}
use diploid_agent.Plan.Models.{Task, Plan}
use diploid_agent.Plan.Manager
use diploid_agent.Plan.Manager.{commit, get_task_in_plan}
use diploid_agent.Plan.Resolve.{resolve_statuses, update_plan_status}
use diploid_agent.Tasks.Engine.{Started, task, raises}
use diploid_agent.Cron
use diploid_agent.Cron.{CronJobState, Store}
use diploid_agent.CronService.Jobs.{ResolvedJob}
use diploid_agent.CronService.State.{Service, Clock, now_of, cron_plan_id, find_cron_plan}
use diploid_agent.CronService.Materialize.{
  Mode, task_of, fired, not_started, after_start, start_run, launch, after_add, materialize,
}
use diploid_agent.CronService.Deliver.{deliver, deliver_turn, Target, delivery_context}
use diploid_agent.CronService.Finalize.{deliver_to}

-- The task that the state of a job runs.
abbrev pub run_of : Option CronJobState → Option String
run_of none = none
run_of (some state) = state.running_task_id

abbrev pub run_at : (job_id : String) → Store → Option String
run_at job_id store = run_of (get store job_id)

pub store-deliver :
    (c : Clock) (target : Target) (state : CronJobState) (t : Task) (s : Service)
    → (deliver c target state t s).store ≡ s.store
unfolding deliver deliver_turn
store-deliver c target state t s = ground arith

pub store-deliver_to :
    (c : Clock) (state : CronJobState) (job : Option ResolvedJob) (t : Task) (s : Service)
    → (deliver_to c state job t s).store ≡ s.store
store-deliver_to c state job t s = elim (Option-cases (delivery_context c state job)) [
  | inl e ↦ rw (deliver_to, e) refl
  | inr (target, e) ↦ rw (deliver_to, e) (store-deliver c target state t s)
]

pub store-cron_plan_id :
    (c : Clock) (chat_id : String) (s : Service) → (cron_plan_id c chat_id s).0.store ≡ s.store
unfolding cron_plan_id find_cron_plan
store-cron_plan_id c chat_id s = ground arith

find_first-some :
    (k : String) (ts : List Task) (t : Task) → find_first (λ u. u.id == k) ts ≡ some t → t.id ≡ k
find_first-some k [] t h = cc
find_first-some k (u ∷ ts) t h = ground (arith, eq_iff u.id k, find_first-some k ts t)

commit-id :
    (plan_id : String) (plan : Plan) (k : String) (t : Task) (m : Manager.Manager)
    → (commit plan_id plan k m).1 ≡ some t
    → t.id ≡ k
unfolding commit get_task_in_plan
commit-id plan_id plan k t m h = find_first-some k plan.tasks t h

pub task_of-id : (c : Clock) (r : ResolvedJob) (mode : Mode) → (task_of c r mode).id ≡ ""
unfolding task_of
task_of-id c r mode = ground arith

-- The task that add_task gives has the fresh id.
pub add_task-id :
    (id : String) (now : ℕ) (plan_id : String) (given t : Task) (m : Manager.Manager)
    → given.id ≡ ""
    → (Manager.add_task id now plan_id given m).1 ≡ some t
    → t.id ≡ id
unfolding Manager.add_task
add_task-id id now plan_id given t m blank h = elim (Option-cases (get m.plans plan_id)) [
  | inl e ↦ let no_task : none ≡ some t = rw (← h, Manager.add_task, e) refl in cc
  | inr (plan, e) ↦
      let named : Task = record given { id = id } in
      elim (Bool-cases (contains (map (λ (u : Task). u.id) plan.tasks) id)) [
        | inl d ↦ let no_task : none ≡ some t = rw (← h, Manager.add_task, e, blank, d) refl in cc
        | inr d ↦
            let plan' : Plan = Manager.touch now (
              update_plan_status
                (resolve_statuses (record plan { tasks = plan.tasks ++ named ∷ [] }))) in
            commit-id plan_id plan' id t m (rw (← h, Manager.add_task, e, blank, d) refl)
      ]
]

-- What a save leaves under the id of the job.
pub get-update :
    (now : ℕ) (state : CronJobState) (store : Store) (j : String)
    → state.job_id ≡ j
    → get (Cron.update now state store).0 j ≡ some (record state { updated_at = now })
unfolding Cron.update
get-update now state store j own =
    get-put store state.job_id j (record state { updated_at = now }) ∙ rw (own, eq_refl j) refl

pub run_at-update :
    (now : ℕ) (state : CronJobState) (store : Store) (j : String)
    → state.job_id ≡ j
    → run_at j (Cron.update now state store).0 ≡ state.running_task_id
run_at-update now state store j own = ap run_of (get-update now state store j own)

-- The job runs no task with the id `old`.
abbrev pub IsClear : (old : String) → (job_id : String) → Store → Type 0
IsClear old j store = opt_eq (run_at j store) old ≡ false

module _ (c : Clock) (old : String) (j : String) where
  after_start-IsClear :
      (plan_id task_id : String) (state : CronJobState) (started : Started) (s : Service)
      → state.job_id ≡ j
      → IsClear old j s.store
      → IsClear old j (after_start c plan_id task_id state started s).0.store
  unfolding after_start
  after_start-IsClear plan_id task_id state (task _) s own clear = clear
  after_start-IsClear plan_id task_id state (raises error) s own clear =
      ap (λ x. opt_eq x old)
        (run_at-update (now_of c) (not_started (c.show_error error) state) s.store j own)

  pub launch-IsClear :
      (r : ResolvedJob) (mode : Mode) (plan_id task_id : String) (state : CronJobState)
      (s : Service)
      → state.job_id ≡ j
      → task_id == old ≡ false
      → IsClear old j (launch c r mode plan_id task_id state s).0.store
  unfolding launch start_run fired
  launch-IsClear r mode plan_id task_id state s own fresh =
      after_start-IsClear plan_id task_id (fired c r mode plan_id task_id state) _ _ own (
        ap (λ x. opt_eq x old)
          (run_at-update (now_of c) (fired c r mode plan_id task_id state) s.store j own)
        ∙ fresh)

  pub materialize-IsClear :
      (r : ResolvedJob) (state : CronJobState) (mode : Mode) (s : Service)
      → ((m : Manager.Manager) → c.new_task_id m == old ≡ false)
      → state.job_id ≡ j
      → IsClear old j s.store
      → IsClear old j (materialize c r state mode s).0.store
  unfolding materialize task_of
  materialize-IsClear r state mode s fresh own clear =
      let planned = cron_plan_id c r.chat_id s in
      let m = planned.0.engine.manager in
      let added = Manager.add_task (c.new_task_id m) (now_of c) planned.1 (task_of c r mode) m in
      let start : Service = record planned.0 {
        engine = record planned.0.engine { manager = added.0 };
      } in
      let same : planned.0.store ≡ s.store = store-cron_plan_id c r.chat_id s in
      elim (Option-cases added.1) [
        | inl e ↦ rw (materialize, e, after_add) (rw same clear)
        | inr (t, e) ↦
            let id =
              add_task-id (c.new_task_id m) (now_of c) planned.1 (task_of c r mode) t m
                (task_of-id c r mode) e in
            rw (materialize, e, after_add)
              (launch-IsClear r mode planned.1 t.id state start own (rw id (fresh m)))
      ]
