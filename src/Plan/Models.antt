-- ===== src/Plan/Models.antt =====
-- plan/models.py: the status enumerations and the two records. A time is a whole number of clock
-- ticks; `mcp_servers` is kept as the texts of its entries.
use diploid_agent.Prelude.{ℕ, String, Bool, true, false, Option, none, List}

pub data TaskStatus : Type 0 where
  pending ready running done incomplete failed blocked : TaskStatus

pub data TaskType : Type 0 where
  shell noop acp subagent : TaskType

pub data PlanStatus : Type 0 where
  draft active paused completed failed : PlanStatus

pub record Task : Type 0 where
  pub id : String
  pub name : String
  pub description : String
  pub type : TaskType
  pub command : String
  pub prompt : Option String
  pub depends_on : List String
  pub status : TaskStatus
  pub result : Option String
  pub log : String
  pub started_at : Option ℕ
  pub completed_at : Option ℕ
  pub created_at : ℕ
  pub cwd : Option String
  pub stop_reason : Option String
  pub cancelled : Bool
  pub partial : Bool
  pub timed_out : Bool
  pub chat_id : Option String
  pub acp_model : Option String
  pub acp_timeout : Option ℕ
  pub mcp_servers : Option (List String)
  pub dispatch_id : Option String
  pub quiet : Bool

pub record Plan : Type 0 where
  pub id : String
  pub name : String
  pub description : String
  pub status : PlanStatus
  pub chat_id : Option String
  pub origin : String
  pub tasks : List Task
  pub created_at : ℕ
  pub updated_at : ℕ

-- `s in (PENDING, READY, BLOCKED)`, `s in (DONE, INCOMPLETE)`, `s in (FAILED, BLOCKED)`,
-- `s in (RUNNING, READY)` and the tests against one status.
abbrev pub is_open : TaskStatus → Bool
is_open TaskStatus.pending = true
is_open TaskStatus.ready = true
is_open TaskStatus.blocked = true
is_open _ = false

abbrev pub is_finished : TaskStatus → Bool
is_finished TaskStatus.done = true
is_finished TaskStatus.incomplete = true
is_finished _ = false

abbrev pub is_stuck : TaskStatus → Bool
is_stuck TaskStatus.failed = true
is_stuck TaskStatus.blocked = true
is_stuck _ = false

abbrev pub is_live : TaskStatus → Bool
is_live TaskStatus.running = true
is_live TaskStatus.ready = true
is_live _ = false

abbrev pub is_ready : TaskStatus → Bool
is_ready TaskStatus.ready = true
is_ready _ = false

abbrev pub is_running : TaskStatus → Bool
is_running TaskStatus.running = true
is_running _ = false

abbrev pub is_blocked : TaskStatus → Bool
is_blocked TaskStatus.blocked = true
is_blocked _ = false

abbrev pub is_failed : TaskStatus → Bool
is_failed TaskStatus.failed = true
is_failed _ = false

-- A task as the constructor of the model class makes it, from the fields that callers give.
abbrev pub new_task : String → List String → Task
new_task id depends_on = record {
  id = id;
  name = id;
  description = "";
  type = TaskType.shell;
  command = "";
  prompt = none;
  depends_on = depends_on;
  status = TaskStatus.pending;
  result = none;
  log = "";
  started_at = none;
  completed_at = none;
  created_at = 0;
  cwd = none;
  stop_reason = none;
  cancelled = false;
  partial = false;
  timed_out = false;
  chat_id = none;
  acp_model = none;
  acp_timeout = none;
  mcp_servers = none;
  dispatch_id = none;
  quiet = false;
}
