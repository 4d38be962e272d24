-- ===== src/Tasks/Tests.antt =====
-- A run of task/engine.py on a plan of two tasks.
use diploid_agent.Prelude.{◌≡◌, refl, true, false, none, some, [], ◌∷◌}
use diploid_agent.Prelude.Dict.{get}
use diploid_agent.Plan.Models.{Task, TaskType, TaskStatus, PlanStatus, new_task}
use diploid_agent.Plan.Manager
use diploid_agent.Plan.Manager.{Manager}
use diploid_agent.Tasks.Worker.{Pool}
use diploid_agent.Tasks.Worker.Flight
use diploid_agent.Tasks.Worker.Flight.{submits, resizes, shuts_down, in_flight_keeps}
use diploid_agent.Tasks.Execute.{exited, build_error, absent, code}
use diploid_agent.Tasks.Engine.{Engine, Env, run_task}
use diploid_agent.Tasks.Engine.Finishing.{IsOver, run_task-IsOver}

abbrev echoing : Env
echoing = record {
  outside = record {
    cwd = "/work";
    split = λ s. some (s ∷ []);
    split_error = λ s. s;
    run_process = λ words cwd timeout. exited "out" "" (code 0);
    timed_out_after = λ n. "Command timed out";
    build_engine = build_error "no engine";
  };
  settings = record {
    injected = absent;
    model = none;
    acp_timeout = none;
    config = none;
    enabled_types = TaskType.shell ∷ TaskType.noop ∷ [];
    workers = 4;
    shell_timeout = 60;
    task_acp_timeout = none;
    task_acp_model = none;
  };
  tick = 7;
  traceback = λ s. s;
  disabled = λ t. "Task type is disabled";
  start_error = "cannot schedule new futures after shutdown";
}

abbrev first_task : Task
first_task = let t = new_task "a" [] in record t { status = TaskStatus.running; command = "make" }

abbrev two_tasks : Engine
two_tasks = record {
  manager = record {
    plans =
        (
          "plan-1",
          record {
            id = "plan-1";
            name = "build";
            description = "";
            status = PlanStatus.active;
            chat_id = none;
            origin = "agent";
            tasks = first_task ∷ new_task "b" ("a" ∷ []) ∷ [];
            created_at = 1;
            updated_at = 1;
          },
        )
        ∷ [];
    subscribed = false;
    notices = [];
  };
  pool = record { running = true; max_workers = 4; futures = [] };
  events = [];
  calls = [];
}

first_is_there : Manager.get_task "plan-1" "a" two_tasks.manager ≡ some first_task
unfolding Manager.get_task get
first_is_there = refl

run_task-IsOver_example :
    IsOver echoing "plan-1" "a" (run_task echoing "plan-1" "a" two_tasks).state.manager
run_task-IsOver_example = run_task-IsOver echoing "plan-1" "a" two_tasks first_task first_is_there

abbrev busy_pool : Pool
busy_pool = record {
  running = true;
  max_workers = 4;
  futures = ("a", record { plan_id = "plan-1"; done = false }) ∷ [];
}

a_in_flight : get busy_pool.futures "a" ≡ some (record { plan_id = "plan-1"; done = false })
unfolding get
a_in_flight = refl

in_flight_keeps_example :
    get (Flight.run (submits "plan-2" "a" ∷ resizes 2 ∷ shuts_down ∷ []) busy_pool).futures "a"
    ≡ some (record { plan_id = "plan-1"; done = false })
in_flight_keeps_example =
    in_flight_keeps (submits "plan-2" "a" ∷ resizes 2 ∷ shuts_down ∷ []) busy_pool "a"
      (record { plan_id = "plan-1"; done = false }) refl a_in_flight
