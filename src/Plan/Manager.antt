-- ===== src/Plan/Manager.antt =====
-- PlanManager of plan/manager.py. `plans` is the content of the backing file, which each
-- transaction reads and writes; `notices` are the calls of `on_change`, oldest first. The clock and
-- the fresh ids of `uuid` are arguments.
pub mod Invariant
pub mod Calls
pub mod Lookup
use diploid_agent.Prelude.{
  ℕ, suc, String, Bool, true, false, not, ◌&&◌, ◌||◌, Option, none, some, List, [], ◌∷◌, ◌++◌,
  if◌then◌else◌, is_some, keep, find_first, leb, map, contains, ◌==◌, opt_eq,
}
use diploid_agent.Prelude.Sort.{sorted}
use diploid_agent.Prelude.Dict.{Dict, get, put, values}
use diploid_agent.Plan.Models.{TaskStatus, Task, Plan, PlanStatus, is_ready}
use diploid_agent.Plan.Resolve.{resolve_statuses, update_plan_status}

pub record Manager : Type 0 where
  pub plans : Dict Plan
  pub subscribed : Bool
  pub notices : List Plan

-- An error of the subscriber is logged and goes no further.
unfoldable pub notify_change : Plan → Manager → Manager
notify_change plan m = if m.subscribed then record m { notices = m.notices ++ plan ∷ [] } else m

unfoldable pub get_task_in_plan : Plan → String → Option Task
get_task_in_plan plan task_id = find_first (λ t. t.id == task_id) plan.tasks

-- The object that `_get_task_in_plan` finds is changed in place: the first task with the id.
unfoldable pub update_first : String → (Task → Task) → List Task → List Task
update_first task_id f [] = []
update_first task_id f (t ∷ ts) =
    if t.id == task_id then f t ∷ ts else t ∷ update_first task_id f ts

-- `for task in tasks: if not task.id: task.id = self._unique_task_id()`
unfoldable pub fill_ids : (ℕ → String) → ℕ → List Task → List Task
fill_ids unique_task_id i [] = []
fill_ids unique_task_id i (t ∷ ts) =
    (if t.id == "" then record t { id = unique_task_id i } else t)
    ∷ fill_ids unique_task_id (suc i) ts

unfoldable pub create_plan :
    (unique_plan_id : String)
    → (unique_task_id : ℕ → String) → (now : ℕ) → (name description : String) → Option String
    → List Task
    → (origin : String) → Manager
    → Manager × Plan
unfolding fill_ids notify_change
create_plan unique_plan_id unique_task_id now name description chat_id tasks origin m =
    let plan = update_plan_status (resolve_statuses draft) in
    (notify_change plan (record m { plans = put m.plans plan.id plan }), plan)
  where
    draft : Plan
    draft = record {
      id = unique_plan_id;
      name = name;
      description = description;
      status = PlanStatus.draft;
      chat_id = chat_id;
      origin = origin;
      tasks = fill_ids unique_task_id 0 tasks;
      created_at = now;
      updated_at = now;
    }

unfoldable pub get_plan : String → Manager → Option Plan
get_plan plan_id m = get m.plans plan_id

abbrev pub newer_first : Plan → Plan → Bool
newer_first p q = leb q.created_at p.created_at

-- sorted(plans, key=created_at, reverse=True), which keeps the order of equal keys.
unfoldable pub list_plans : Option String → Manager → List Plan
list_plans none m = sorted newer_first (values m.plans)
list_plans (some chat_id) m =
    sorted newer_first (keep (λ p. opt_eq p.chat_id chat_id) (values m.plans))

-- The end of every mutation that went through: store the plan, notify, and return the task, which
-- is the object in the plan.
unfoldable pub commit : String → Plan → String → Manager → Manager × Option Task
unfolding notify_change get_task_in_plan
commit plan_id plan task_id m = (
  notify_change plan (record m { plans = put m.plans plan_id plan }),
  get_task_in_plan plan task_id,
)

abbrev pub touch : ℕ → Plan → Plan
touch now plan = record plan { updated_at = now }

unfoldable pub add_task :
    (unique_task_id : String) → (now : ℕ) → String → Task → Manager → Manager × Option Task
unfolding commit
add_task unique_task_id now plan_id given m = elim (get m.plans plan_id) [
  | none ↦ (m, none)
  | some plan ↦
      if contains (map (λ t. t.id) plan.tasks) task.id
      then (m, none)
      else commit plan_id
          (touch now (
            update_plan_status
              (resolve_statuses (record plan { tasks = plan.tasks ++ task ∷ [] }))))
          task.id m
]
  where
    task : Task
    task = if given.id == "" then record given { id = unique_task_id } else given

unfoldable pub get_task : String → String → Manager → Option Task
unfolding get_task_in_plan
get_task plan_id task_id m = elim (get m.plans plan_id) [
  | none ↦ none
  | some plan ↦ get_task_in_plan plan task_id
]

unfoldable pub get_ready_tasks : String → Manager → List Task
get_ready_tasks plan_id m = elim (get m.plans plan_id) [
  | none ↦ []
  | some plan ↦ keep (λ t. is_ready t.status) plan.tasks
]

-- `with self._transaction()`: look the plan and the task up, and go on only with both.
unfoldable pub with_task :
    String
    → String
    → (Plan → Task → Manager → Manager × Option Task)
    → Manager
    → Manager × Option Task
unfolding get_task_in_plan
with_task plan_id task_id body m = elim (get m.plans plan_id) [
  | none ↦ (m, none)
  | some plan ↦ elim (get_task_in_plan plan task_id) [
    | none ↦ (m, none)
    | some task ↦ body plan task m
  ]
]

abbrev pub started : ℕ → Task → Task
started now t = record t { status = TaskStatus.running; started_at = some now }

-- The body of start_task, with the plan and the task found.
abbrev pub start_found : ℕ → String → String → Plan → Task → Manager → Manager × Option Task
start_found now plan_id task_id plan task m =
    if not (is_ready task.status)
    then (m, none)
    else commit plan_id
        (touch now (
          update_plan_status
            (record plan { tasks = update_first task_id (started now) plan.tasks })))
        task_id m

unfoldable pub start_task : (now : ℕ) → String → String → Manager → Manager × Option Task
unfolding with_task commit update_first
start_task now plan_id task_id m = with_task plan_id task_id (start_found now plan_id task_id) m

-- The keyword arguments that complete_task and fail_task share.
pub record Flags : Type 0 where
  pub stop_reason : Option String
  pub cancelled : Bool
  pub partial : Bool
  pub timed_out : Bool

abbrev pub no_flags : Flags
no_flags = record { stop_reason = none; cancelled = false; partial = false; timed_out = false }

abbrev pub flagged : ℕ → String → Flags → Task → Task
flagged now log f t = record t {
  log = log;
  completed_at = some now;
  stop_reason = f.stop_reason;
  cancelled = f.cancelled;
  partial = f.partial;
  timed_out = f.timed_out;
}

abbrev pub completed : ℕ → String → String → Flags → Task → Task
completed now result log f t =
    let t' = flagged now log f t in
    record t' {
      status =
          if f.cancelled || (f.partial || f.timed_out)
          then TaskStatus.incomplete
          else TaskStatus.done;
      result = some result;
    }

abbrev pub failed : ℕ → String → Flags → Task → Task
failed now log f t = let t' = flagged now log f t in record t' { status = TaskStatus.failed }

-- Both finish a task whatever its status was, and settle the others. The clock is read twice.
abbrev pub finish_found :
    (Task → Task) → (later : ℕ) → String → String → Plan → Task → Manager → Manager × Option Task
finish_found f later plan_id task_id plan task m =
    commit plan_id
      (touch later (
        update_plan_status
          (resolve_statuses (record plan { tasks = update_first task_id f plan.tasks }))))
      task_id m

unfoldable pub finish_task :
    (Task → Task) → (later : ℕ) → String → String → Manager → Manager × Option Task
unfolding with_task commit update_first
finish_task f later plan_id task_id m =
    with_task plan_id task_id (finish_found f later plan_id task_id) m

unfoldable pub complete_task :
    (now later : ℕ)
    → String
    → String
    → (result log : String) → Flags
    → Manager
    → Manager × Option Task
unfolding finish_task
complete_task now later plan_id task_id result log flags =
    finish_task (completed now result log flags) later plan_id task_id

unfoldable pub fail_task :
    (now later : ℕ) → String → String → (log : String) → Flags → Manager → Manager × Option Task
unfolding finish_task
fail_task now later plan_id task_id log flags =
    finish_task (failed now log flags) later plan_id task_id
