-- ===== src/Plan/Resolve.antt =====
-- PlanManager._resolve_statuses and _update_plan_status of plan/manager.py.
-- The `while changed` loop takes fuel; `changed` in its result tells that the fuel ran out.
pub mod Termination
pub mod Rounds
pub mod Settled
pub mod Frame
use diploid_agent.Prelude.{
  ℕ, zero, suc, ◌+◌, ◌*◌, String, Bool, true, false, not, ◌&&◌, ◌||◌, Option, none, some, List, [],
  ◌∷◌, if◌then◌else◌, is_some, length, any, all, keep, map,
}
use diploid_agent.Prelude.Dict.{Dict, get, put}
use diploid_agent.Plan.Models.{
  TaskStatus, Task, Plan, PlanStatus, is_open, is_finished, is_stuck, is_live, is_blocked, is_ready,
  is_failed,
}

-- by_id = {t.id: t for t in plan.tasks}
unfoldable pub by_id : List Task → Dict Task → Dict Task
by_id [] d = d
by_id (t ∷ ts) d = by_id ts (put d t.id t)

-- status_map = {t.id: t.status for t in plan.tasks}
unfoldable pub status_map : List Task → Dict TaskStatus → Dict TaskStatus
status_map [] d = d
status_map (t ∷ ts) d = status_map ts (put d t.id t.status)

abbrev pub known : Dict Task → String → Bool
known ids d = is_some (get ids d)

-- A status that `status_map.get(d)` may give, tested against a tuple of statuses.
abbrev pub status_in : (TaskStatus → Bool) → Option TaskStatus → Bool
status_in p none = false
status_in p (some s) = p s

abbrev pub missing : Dict Task → List String → Bool
missing ids deps = any (λ d. not (known ids d)) deps

abbrev pub dep_statuses : Dict Task → Dict TaskStatus → List String → List (Option TaskStatus)
dep_statuses ids statuses deps = map (get statuses) (keep (known ids) deps)

unfoldable pub any_failed : Dict Task → Dict TaskStatus → List String → Bool
any_failed ids statuses deps = any (status_in is_stuck) (dep_statuses ids statuses deps)

unfoldable pub all_done : Dict Task → Dict TaskStatus → List String → Bool
all_done ids statuses deps =
    all (status_in is_finished) (dep_statuses ids statuses deps) && not (missing ids deps)

abbrev pub is_empty {ℓ} : {A : Type ℓ} → List A → Bool
is_empty [] = true
is_empty (_ ∷ _) = false

pub record Visit : Type 0 where
  pub statuses : Dict TaskStatus
  pub task : Task
  pub changed : Bool

-- The body of the `for task in plan.tasks` loop.
unfoldable pub visit : Dict Task → Dict TaskStatus → Task → Visit
visit ids statuses task =
    if not (is_open task.status)
    then record { statuses = statuses; task = task; changed = false }
    else if missing ids task.depends_on || any_failed ids statuses task.depends_on
    then (if is_blocked task.status
        then record { statuses = statuses; task = task; changed = false }
        else record {
          statuses = put statuses task.id TaskStatus.blocked;
          task = record task { status = TaskStatus.blocked };
          changed = true;
        })
    else if all_done ids statuses task.depends_on && not (is_empty task.depends_on)
        || is_empty task.depends_on
    then (if is_ready task.status
        then record { statuses = statuses; task = task; changed = false }
        else record {
          statuses = put statuses task.id TaskStatus.ready;
          task = record task { status = TaskStatus.ready };
          changed = true;
        })
    else record { statuses = put statuses task.id task.status; task = task; changed = false }

pub record Sweep : Type 0 where
  pub statuses : Dict TaskStatus
  pub tasks : List Task
  pub changed : Bool

-- One round of the `while` loop.
unfoldable pub sweep : Dict Task → Dict TaskStatus → List Task → Sweep
sweep ids statuses [] = record { statuses = statuses; tasks = []; changed = false }
sweep ids statuses (t ∷ ts) =
    let v = visit ids statuses t in
    let rest = sweep ids v.statuses ts in
    record {
      statuses = rest.statuses;
      tasks = v.task ∷ rest.tasks;
      changed = v.changed || rest.changed;
    }

unfoldable pub settle : ℕ → Dict Task → Dict TaskStatus → List Task → Sweep
settle zero ids statuses tasks = record { statuses = statuses; tasks = tasks; changed = true }
settle (suc fuel) ids statuses tasks =
    let s = sweep ids statuses tasks in
    elim s.changed [ true ↦ settle fuel ids s.statuses s.tasks | false ↦ s ]

abbrev pub enough : List Task → ℕ
enough tasks = 2 * length tasks + 1

unfoldable pub settle_all : List Task → Sweep
unfolding settle sweep visit any_failed all_done by_id status_map
settle_all tasks = settle (enough tasks) (by_id tasks []) (status_map tasks []) tasks

unfoldable pub resolve_statuses : Plan → Plan
unfolding settle_all
resolve_statuses plan = record plan { tasks = (settle_all plan.tasks).tasks }

unfoldable pub update_plan_status : Plan → Plan
update_plan_status plan =
    if is_empty plan.tasks
    then record plan { status = PlanStatus.draft }
    else if all (λ t. is_finished t.status) plan.tasks
    then record plan { status = PlanStatus.completed }
    else if any (λ t. is_failed t.status) plan.tasks && not (any (λ t. is_live t.status) plan.tasks)
    then record plan { status = PlanStatus.failed }
    else if any (λ t. is_live t.status) plan.tasks
    then record plan { status = PlanStatus.active }
    else record plan { status = PlanStatus.draft }
