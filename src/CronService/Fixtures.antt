-- ===== src/CronService/Fixtures.antt =====
-- A small service for the runs of runtime/cron_service.py in Tests.
use diploid_agent.Prelude.{ℕ, String, true, false, none, some, List, [], ◌∷◌}
use diploid_agent.Json.{end}
use diploid_agent.Plan.Models.{Task, TaskType, TaskStatus, PlanStatus, new_task}
use diploid_agent.Tasks.Execute.{exited, build_error, absent, code}
use diploid_agent.Tasks.Engine.{Engine, Env}
use diploid_agent.Wake.{WakeEvent}
use diploid_agent.Cron.{CronJobState, new_state}
use diploid_agent.CronService.Specs.{
  Spec, Trigger, TriggerType, CallType, Delivery, Overlap, Catchup,
}
use diploid_agent.CronService.Paths.{absolute}
use diploid_agent.CronService.Jobs.{Config, Files, Label, ResolvedJob, Watch}
use diploid_agent.CronService.State.{Clock, Service}

abbrev pub config : Config
config = record {
  enabled = true;
  max_jobs_global = 1;
  max_jobs_per_persona = 8;
  min_interval = 300;
  max_llm_timeout = 600;
  turn_delivery_max_per_day = 1;
  self_wake_max_pending = 4;
  self_wake_min_interval = 60;
  fallback_chat_id = some "chat";
  persona = none;
  persona_cron_permitted = true;
}

abbrev pub files : Files
files = record {
  stat = λ path. some 100;
  parse = λ path. none;
  parse_error = λ path. path;
  soul_exists = λ path. false;
  parent = λ path. path;
  places = record {
    expanduser = λ raw. absolute raw;
    resolve = λ base raw. "srv" ∷ "chat" ∷ "notes" ∷ [];
    home = "home" ∷ [];
    cwd = [];
    session_root = λ chat_id. "srv" ∷ "chat" ∷ [];
    allowed_roots = [];
  };
  calendar = record { croniter = none; today_at = λ d base. base };
}

abbrev pub env : ℕ → Env
env now = record {
  outside = record {
    cwd = "/work";
    split = λ s. some (s ∷ []);
    split_error = λ s. s;
    run_process = λ words cwd timeout. exited "out" "" (code 0);
    timed_out_after = λ n. "Command timed out";
    build_engine = build_error "no engine";
  };
  settings = record {
    injected = absent;
    model = none;
    acp_timeout = none;
    config = none;
    enabled_types = TaskType.shell ∷ [];
    workers = 4;
    shell_timeout = 60;
    task_acp_timeout = none;
    task_acp_model = none;
  };
  tick = now;
  traceback = λ s. s;
  disabled = λ t. "Task type is disabled";
  start_error = "cannot schedule new futures after shutdown";
}

abbrev pub clock : ℕ → Clock
clock now = record {
  tasks = env now;
  cfg = config;
  files = files;
  today = "2026-01-01";
  dump_schedule = λ s. "schedule";
  dump_trigger = λ t. "trigger";
  dump_spec = λ s. s.id;
  load_spec = λ text. none;
  phantom = λ r reason. "prompt";
  new_plan_id = λ m. "plan-9";
  new_task_id = λ m. "task-9";
  wake_id = "wake-9";
  expand = λ s. s;
  path_text = λ names. "/srv/chat/notes";
  first_line = λ s. s;
  strip = λ s. s;
  show = λ n. "n";
  show_error = λ e. "error";
  body_state = λ chat_id. none;
  repr = λ j. "value";
}

abbrev pub hourly : Spec
hourly = record {
  id = "hourly";
  enabled = true;
  schedule = some (record { cron = none; every_seconds = some 3600; at_daily = none });
  trigger = none;
  call = record {
    type = CallType.script;
    command = some "make";
    cwd = none;
    persona = none;
    prompt = none;
    model = none;
    timeout_seconds = none;
  };
  delivery = Delivery.turn;
  chat_id = some "chat";
  overlap = Overlap.skip;
  catchup = Catchup.once;
  max_consecutive_failures = 2;
}

abbrev pub watch_trigger : Trigger
watch_trigger = record {
  type = TriggerType.file;
  path = some "/srv/chat/notes";
  field = none;
  op = none;
  value = none;
  cooldown_seconds = some 600;
}

abbrev pub watching : Spec
watching = record hourly {
  id = "watching";
  schedule = none;
  trigger = some watch_trigger;
  overlap = Overlap.queue;
}

abbrev pub job : Spec → ResolvedJob
job spec = record {
  spec = spec;
  source_file = "crons.yaml";
  source_label = Label.operator;
  chat_id = "chat";
  persona = none;
  persona_dir = none;
}

-- The operator's file has two jobs, one more than its cap.
abbrev pub two_files : List Watch
two_files =
    record {
      path = "crons.yaml";
      label = Label.operator;
      mtime = some 1;
      jobs = hourly ∷ watching ∷ [];
      error = none;
    }
    ∷ record {
      path = "persona/crons.yaml";
      label = Label.persona;
      mtime = some 1;
      jobs = watching ∷ hourly ∷ [];
      error = none;
    }
    ∷ []

abbrev pub done_task : Task
done_task =
    let t = new_task "task-1" [] in
    record t { status = TaskStatus.done; result = some "all is well" }

abbrev pub in_flight : CronJobState
in_flight =
    let s = new_state 1 "hourly" "crons.yaml" in
    record s {
      running_task_id = some "task-1";
      running_plan_id = some "plan-1";
      next_due_at = some 50;
      schedule_key = "schedule";
    }

abbrev pub engine : Engine
engine = record {
  manager = record {
    plans =
        (
          "plan-1",
          record {
            id = "plan-1";
            name = "__cron__";
            description = "";
            status = PlanStatus.active;
            chat_id = some "chat";
            origin = "system";
            tasks = done_task ∷ [];
            created_at = 1;
            updated_at = 1;
          },
        )
        ∷ [];
    subscribed = false;
    notices = [];
  };
  pool = record { running = true; max_workers = 4; futures = [] };
  events = [];
  calls = [];
}

abbrev pub service : Service
service = record {
  store = ("hourly", in_flight) ∷ [];
  watches = two_files;
  jobs = ("hourly", job hourly) ∷ [];
  warnings = [];
  cron_plans = [];
  task_to_job = [];
  catchup_pending = [];
  booted = true;
  engine = engine;
  wake_queue = some [];
  delivered = [];
}

abbrev pub cron_wake : String → WakeEvent
cron_wake chat_id = record {
  id = "wake-1";
  chat_id = chat_id;
  reason = "cron:nightly";
  priority = 1;
  scheduled_at = 40;
  payload = end;
  silent = false;
  created_at = 1;
  ready = true;
  attempts = 0;
  leased_until = none;
}
