-- ===== src/Plan/Tests.antt =====
-- Runs of plan/manager.py on small plans.
use diploid_agent.Prelude.{◌≡◌, refl, true, false, none, some, List, [], ◌∷◌, All, map, IsDistinct}
use diploid_agent.Prelude.Dict.{get, put}
use diploid_agent.Plan.Models.{Task, TaskStatus, PlanStatus, new_task}
use diploid_agent.Plan.Resolve.{settle_all}
use diploid_agent.Plan.Resolve.Rounds.{ids_of}
use diploid_agent.Plan.Resolve.Settled.{IsSettled, settle_all-IsSettled}
use diploid_agent.Plan.Resolve.Termination.{settle_all-changed}
use diploid_agent.Plan.Manager.{Manager, no_flags, get_task, fill_ids}
use diploid_agent.Plan.Manager.Invariant.{IsValid}
use diploid_agent.Plan.Manager.Calls.{
  Call, Draft, create, add, start, complete, fail, run, run-IsValid,
}

-- "b" waits for "a", "c" waits for a task that is not there, "d" waits for "c".
abbrev build_tasks : List Task
build_tasks =
    new_task "a" []
    ∷ new_task "b" ("a" ∷ [])
    ∷ new_task "c" ("a" ∷ "z" ∷ [])
    ∷ new_task "d" ("c" ∷ [])
    ∷ []

build_statuses :
    map (λ t. t.status) (settle_all build_tasks).tasks
    ≡ TaskStatus.ready ∷ TaskStatus.pending ∷ TaskStatus.blocked ∷ TaskStatus.blocked ∷ []
unfolding settle_all get put
build_statuses = refl

settle_all-IsSettled_example :
    All (IsSettled (settle_all build_tasks).tasks) (settle_all build_tasks).tasks
settle_all-IsSettled_example = settle_all-IsSettled build_tasks (refl, (refl, (refl, (refl, tt))))

settle_all-changed_example : (settle_all build_tasks).changed ≡ false
settle_all-changed_example = settle_all-changed build_tasks

abbrev no_plans : Manager
no_plans = record { plans = []; subscribed = true; notices = [] }

abbrev build_draft : Draft
build_draft = record {
  unique_plan_id = "plan-1";
  unique_task_id = λ i. "task-1";
  name = "build";
  description = "";
  chat_id = some "chat";
  tasks = build_tasks;
  origin = "agent";
}

abbrev build_calls : List Call
build_calls =
    create 1 build_draft
    ∷ start 2 "plan-1" "a"
    ∷ complete 3 4 "plan-1" "a" "ok" "" no_flags
    ∷ add 5 "task-2" "plan-1" (new_task "" ("b" ∷ []))
    ∷ fail 6 7 "plan-1" "b" "no" no_flags
    ∷ []

build_ids : IsDistinct (ids_of (fill_ids build_draft.unique_task_id 0 build_tasks))
unfolding fill_ids
build_ids = (refl, (refl, (refl, (refl, tt))))

run-IsValid_example : IsValid (run build_calls no_plans)
run-IsValid_example =
    run-IsValid build_calls no_plans (build_ids, (tt, (tt, (tt, (tt, tt))))) (tt, tt)

abbrev running_a : Task
running_a = let t = new_task "a" [] in record t { status = TaskStatus.running }

abbrev done_b : Task
done_b = let t = new_task "b" [] in record t { status = TaskStatus.done }

abbrev ready_c : Task
ready_c = let t = new_task "c" ("b" ∷ []) in record t { status = TaskStatus.ready }

abbrev one_plan : Manager
one_plan = record {
  plans =
      (
        "plan-1",
        record {
          id = "plan-1";
          name = "build";
          description = "";
          status = PlanStatus.active;
          chat_id = none;
          origin = "agent";
          tasks = running_a ∷ done_b ∷ ready_c ∷ [];
          created_at = 1;
          updated_at = 1;
        },
      )
      ∷ [];
  subscribed = false;
  notices = [];
}

a_is_there : get_task "plan-1" "a" one_plan ≡ some running_a
unfolding get_task get
a_is_there = refl

b_is_there : get_task "plan-1" "b" one_plan ≡ some done_b
unfolding get_task get
b_is_there = refl
