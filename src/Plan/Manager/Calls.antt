-- ===== src/Plan/Manager/Calls.antt =====
-- Sequences of the manager's operations, and the invariant through them.
use diploid_agent.Prelude.{
  ℕ, ◌≡◌, refl, ◌∙◌, String, true, false, Option, none, some, List, [], ◌∷◌, ◌++◌, Bool-cases,
  Option-cases, inl, inr, ◌⊎◌, All, contains, IsDistinct, if◌then◌else◌, ◌==◌,
}
use diploid_agent.Prelude.Dict.{get, put, put-Entries, get-Entries, put-IsDistinct}
use diploid_agent.Plan.Models.{Task, Plan, PlanStatus, is_ready}
use diploid_agent.Plan.Resolve.{resolve_statuses, update_plan_status}
use diploid_agent.Plan.Resolve.Rounds.{ids_of}
use diploid_agent.Plan.Manager.{
  Manager, Flags, notify_change, get_task_in_plan, update_first, fill_ids, create_plan, commit,
  touch, add_task, with_task, start_found, finish_found, start_task, finish_task, complete_task,
  fail_task, completed, failed,
}
use diploid_agent.Plan.Manager.Invariant.{
  IsConsistent, IsValid, touch-IsConsistent, renewed-IsConsistent, started-IsConsistent,
  id-update_plan_status, id-renewed, ids_of-update_first, ids_of-append,
}

notify-IsValid : (p : Plan) (m : Manager) → IsValid m → IsValid (notify_change p m)
unfolding notify_change
notify-IsValid p m v = elim (Bool-cases m.subscribed) [
  | inl e ↦ rw (e, notify_change) v
  | inr e ↦ rw (e, notify_change) v
]

commit-IsValid :
    (k : String) (p : Plan) (t : String) (m : Manager)
    → p.id ≡ k
    → IsConsistent p
    → IsValid m
    → IsValid (commit k p t m).0
unfolding commit
commit-IsValid k p t m named c v = notify-IsValid p _ (
  put-Entries (λ j q. (q.id ≡ j) × IsConsistent q) m.plans k p v.0 (named, c),
  put-IsDistinct m.plans k p v.1,
)

-- The object that a call finds is consistent and stored under its id.
stored :
    (m : Manager) (k : String) (p : Plan)
    → IsValid m
    → get m.plans k ≡ some p
    → (p.id ≡ k) × IsConsistent p
stored m k p v e = get-Entries (λ j q. (q.id ≡ j) × IsConsistent q) m.plans k p v.0 e

with_task-IsValid :
    (k j : String) (body : Plan → Task → Manager → Manager × Option Task) (m : Manager)
    → IsValid m
    → ((p : Plan) (t : Task)
        → get m.plans k ≡ some p
        → get_task_in_plan p j ≡ some t
        → IsValid (body p t m).0)
    → IsValid (with_task k j body m).0
unfolding with_task
with_task-IsValid k j body m v f = elim (Option-cases (get m.plans k)) [
  | inl e ↦ rw (e, with_task) v
  | inr (p, e) ↦ elim (Option-cases (get_task_in_plan p j)) [
    | inl n ↦ rw (e, with_task) (rw (n, with_task) v)
    | inr (t, g) ↦ rw (e, with_task) (rw (g, with_task) (f p t e g))
  ]
]

start_task-IsValid :
    (now : ℕ) (k j : String) (m : Manager) → IsValid m → IsValid (start_task now k j m).0
unfolding start_task
start_task-IsValid now k j m v =
    with_task-IsValid k j (start_found now k j) m v
      λ p t e g. found p t e g (Bool-cases (is_ready t.status))
  where
    found :
        (p : Plan) (t : Task)
        → get m.plans k ≡ some p
        → get_task_in_plan p j ≡ some t
        → (is_ready t.status ≡ true) ⊎ (is_ready t.status ≡ false)
        → IsValid (start_found now k j p t m).0
    found p t e g (inl r) =
        let (named, c) = stored m k p v e in
        rw r (
          commit-IsValid k _ j m (id-update_plan_status _ ∙ named)
            (touch-IsConsistent now _ (started-IsConsistent now j p t g r c)) v)
    found p t e g (inr r) = rw r v

finish_task-IsValid :
    (f : Task → Task) (now : ℕ) (k j : String) (m : Manager)
    → ((t : Task) → (f t).id ≡ t.id)
    → IsValid m
    → IsValid (finish_task f now k j m).0
unfolding finish_task
finish_task-IsValid f now k j m same v = with_task-IsValid k j (finish_found f now k j) m v found
  where
    found :
        (p : Plan) (t : Task)
        → get m.plans k ≡ some p
        → get_task_in_plan p j ≡ some t
        → IsValid (finish_found f now k j p t m).0
    found p t e g =
        let (named, c) = stored m k p v e in
        let q : Plan = record p { tasks = update_first j f p.tasks } in
        commit-IsValid k _ j m (id-renewed q ∙ named)
          (touch-IsConsistent now _
            (renewed-IsConsistent q (rw (ids_of-update_first j f p.tasks same) c.distinct)))
          v

abbrev named_task : String → Task → Task
named_task fresh t = if t.id == "" then record t { id = fresh } else t

add_task-IsValid :
    (fresh : String) (now : ℕ) (k : String) (t : Task) (m : Manager)
    → IsValid m
    → IsValid (add_task fresh now k t m).0
unfolding add_task
add_task-IsValid fresh now k t m v = elim (Option-cases (get m.plans k)) [
  | inl e ↦ rw (e, add_task) v
  | inr (p, e) ↦
      rw (e, add_task) (found p e (Bool-cases (contains (ids_of p.tasks) (named_task fresh t).id)))
]
  where
    found :
        (p : Plan)
        → get m.plans k ≡ some p
        → (contains (ids_of p.tasks) (named_task fresh t).id ≡ true)
          ⊎ (contains (ids_of p.tasks) (named_task fresh t).id ≡ false)
        → IsValid
            (if contains (ids_of p.tasks) (named_task fresh t).id
              then (m, none)
              else commit k
                  (touch now (
                    update_plan_status
                      (resolve_statuses (record p { tasks = p.tasks ++ named_task fresh t ∷ [] }))))
                  (named_task fresh t).id
                  m).0
    found p e (inl h) = rw h v
    found p e (inr h) =
        let (named, c) = stored m k p v e in
        let q : Plan = record p { tasks = p.tasks ++ named_task fresh t ∷ [] } in
        rw h (
          commit-IsValid k (touch now (update_plan_status (resolve_statuses q)))
            (named_task fresh t).id m (id-renewed q ∙ named)
            (touch-IsConsistent now _
              (renewed-IsConsistent q (ids_of-append p.tasks (named_task fresh t) h c.distinct)))
            v)

-- The arguments of create_plan.
pub record Draft : Type 0 where
  pub unique_plan_id : String
  pub unique_task_id : ℕ → String
  pub name : String
  pub description : String
  pub chat_id : Option String
  pub tasks : List Task
  pub origin : String

pub data Call : Type 0 where
  create : ℕ → Draft → Call
  add : ℕ → String → String → Task → Call
  start : ℕ → String → String → Call
  complete : ℕ → ℕ → String → String → String → String → Flags → Call
  fail : ℕ → ℕ → String → String → String → Flags → Call

-- The state after one call of a mutating operation.
pub after : Call → Manager → Manager
unfolding create_plan add_task start_task complete_task fail_task
after (create now d) m =
    (create_plan d.unique_plan_id d.unique_task_id now d.name d.description d.chat_id d.tasks
      d.origin m).0
after (add now fresh plan_id t) m = (add_task fresh now plan_id t m).0
after (start now plan_id task_id) m = (start_task now plan_id task_id m).0
after (complete now later plan_id task_id result log flags) m =
    (complete_task now later plan_id task_id result log flags m).0
after (fail now later plan_id task_id log flags) m =
    (fail_task now later plan_id task_id log flags m).0

pub run : List Call → Manager → Manager
run [] m = m
run (c ∷ cs) m = run cs (after c m)

-- What the caller of create_plan has to see to: no two tasks with one id.
abbrev pub IsAllowed : Call → Type 0
IsAllowed (create now d) = IsDistinct (ids_of (fill_ids d.unique_task_id 0 d.tasks))
IsAllowed _ = Unit

create_plan-IsValid :
    (now : ℕ) (d : Draft) (m : Manager)
    → IsAllowed (create now d)
    → IsValid m
    → IsValid (after (create now d) m)
unfolding after create_plan
create_plan-IsValid now d m distinct v =
    notify-IsValid plan (record m { plans = put m.plans plan.id plan })
      (
        put-Entries (λ j q. (q.id ≡ j) × IsConsistent q) m.plans plan.id plan v.0
            (refl, renewed-IsConsistent start distinct),
        put-IsDistinct m.plans plan.id plan v.1,
      )
  where
    start : Plan
    start = record {
      id = d.unique_plan_id;
      name = d.name;
      description = d.description;
      status = PlanStatus.draft;
      chat_id = d.chat_id;
      origin = d.origin;
      tasks = fill_ids d.unique_task_id 0 d.tasks;
      created_at = now;
      updated_at = now;
    }

    plan : Plan
    plan = update_plan_status (resolve_statuses start)

after-IsValid : (c : Call) (m : Manager) → IsAllowed c → IsValid m → IsValid (after c m)
unfolding after complete_task fail_task
after-IsValid (create now d) m a v = create_plan-IsValid now d m a v
after-IsValid (add now fresh k t) m a v = add_task-IsValid fresh now k t m v
after-IsValid (start now k j) m a v = start_task-IsValid now k j m v
after-IsValid (complete now later k j result log flags) m a v =
    finish_task-IsValid (completed now result log flags) later k j m (λ t. refl) v
after-IsValid (fail now later k j log flags) m a v =
    finish_task-IsValid (failed now log flags) later k j m (λ t. refl) v

-- Through any sequence of create_plan, add_task, start_task, complete_task and fail_task, where no
-- plan is created with two tasks of one id: every stored plan stands under its own id, its tasks
-- have distinct ids, each task not yet started is BLOCKED or READY as its dependencies say, and
-- the status of the plan is the one that its tasks give.
pub run-IsValid : (cs : List Call) (m : Manager) → All IsAllowed cs → IsValid m → IsValid (run cs m)
unfolding run
run-IsValid [] m a v = v
run-IsValid (c ∷ cs) m a v = run-IsValid cs (after c m) a.1 (after-IsValid c m a.0 v)
