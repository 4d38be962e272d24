-- ===== src/Tasks/Execute.antt =====
-- _execute, _run_shell and _run_acp of task/engine.py. Processes, shell parsing, the agent engines
-- and the rendering of errors and numbers are the parameter `Outside`.
use diploid_agent.Prelude.{
  ℕ, ◌+◌, String, Bool, true, false, not, ◌||◌, ◌==◌, Option, none, some, List, [], ◌∷◌,
  if◌then◌else◌, or_else, is_some, nat_eq,
}
use diploid_agent.Json.{codes}
use diploid_agent.Jsonl.{is_blank}
use diploid_agent.Plan.Models.{Task, TaskType}
use diploid_agent.Plan.Manager.{Flags}

-- A Python `int`: a process that a signal kills has a negative exit code.
pub data ExitCode : Type 0 where
  code : ℕ → ExitCode
  minus : ℕ → ExitCode

abbrev pub is_zero : ExitCode → Bool
is_zero (code n) = nat_eq n 0
is_zero (minus n) = nat_eq n 0

-- What `subprocess.run` does.
pub data ProcessResult : Type 0 where
  exited : (stdout stderr : String) → ExitCode → ProcessResult
  timeout_expired : ProcessResult
  os_error : String → ProcessResult

pub record TurnRequest : Type 0 where
  pub prompt : String
  pub cwd : String
  pub model : Option String
  pub mcp_servers : Option (List String)
  pub soft_timeout : Option ℕ
  pub timeout : Option ℕ

pub record TurnResult : Type 0 where
  pub reply : String
  pub stop_reason : Option String
  pub cancelled : Bool
  pub partial : Bool
  pub timed_out : Bool

-- What `engine.prompt` does.
pub data PromptResult : Type 0 where
  replied : TurnResult → PromptResult
  timeout_error : String → PromptResult
  error : String → PromptResult

-- What `build_engine` makes: an engine, as its answers to prompts, or an exception.
pub data Built : Type 0 where
  engine : (TurnRequest → PromptResult) → Built
  build_error : String → Built

pub record Outside : Type 0 where
  pub cwd : String
  pub split : String → Option (List String)
  pub split_error : String → String
  pub run_process : List String → (cwd : String) → (timeout : ℕ) → ProcessResult
  pub timed_out_after : ℕ → String
  pub build_engine : Built

-- The engine that was injected: none, an AcpEngine, or another one.
pub data Injected : Type 0 where
  absent acp : Injected
  other : (TurnRequest → PromptResult) → Injected

-- TaskEngine's settings; `config` is absent, or gives the model and timeout of its engine section.
pub record Settings : Type 0 where
  pub injected : Injected
  pub model : Option String
  pub acp_timeout : Option ℕ
  pub config : Option (Option String × Option ℕ)
  pub enabled_types : List TaskType
  pub workers : ℕ
  pub shell_timeout : ℕ
  pub task_acp_timeout : Option ℕ
  pub task_acp_model : Option String

-- (result, log, exit_code, extra)
pub record Outcome : Type 0 where
  pub result : String
  pub log : String
  pub exit_code : ExitCode
  pub extra : Option Flags

pub data Execution : Type 0 where
  outcome : Outcome → Execution
  exception : String → Execution

abbrev pub stopped : String → Bool → Flags
stopped reason timed_out = record {
  stop_reason = some reason;
  cancelled = false;
  partial = false;
  timed_out = timed_out;
}

-- `return result, log, -1, {"stop_reason": reason, ...}`
abbrev pub broken : String → String → Flags → Outcome
broken result log extra = record {
  result = result;
  log = log;
  exit_code = minus 1;
  extra = some extra;
}

unfoldable pub run_shell : Outside → Settings → Task → Outcome
run_shell out s task =
    if is_blank (codes task.command)
    then broken "" "Empty shell command" (stopped "failed" false)
    else elim (out.split task.command) [
      | none ↦ broken "" (out.split_error task.command) (stopped "failed" false)
      | some [] ↦ broken "" "Empty shell command after parsing" (stopped "failed" false)
      | some (word ∷ words) ↦
          elim (out.run_process (word ∷ words) (or_else task.cwd out.cwd) s.shell_timeout) [
            | exited stdout stderr returncode ↦ record {
              result = stdout;
              log = stderr;
              exit_code = returncode;
              extra = none;
            }
            | timeout_expired ↦
                broken "" (out.timed_out_after s.shell_timeout) (stopped "timeout" true)
            | os_error message ↦ broken "" message (stopped "failed" false)
          ]
    ]

-- `x or y` on texts that may be None or empty.
abbrev pub truthy : Option String → Bool
truthy none = false
truthy (some s) = not (s == "")

abbrev pub first_some {ℓ} : {A : Type ℓ} → Option A → Option A → Option A
first_some none b = b
first_some (some a) b = some a

unfoldable pub request :
    Outside → Settings → (Option String × Option ℕ) → String → Task → TurnRequest
request out s (engine_model, engine_timeout) prompt_text task = record {
  prompt = prompt_text;
  cwd = or_else task.cwd out.cwd;
  model = first_some task.acp_model (first_some s.task_acp_model (first_some s.model engine_model));
  mcp_servers = task.mcp_servers;
  soft_timeout = soft;
  timeout = elim soft [ none ↦ none | some t ↦ some (t + 30) ];
}
  where
    soft : Option ℕ
    soft =
        first_some task.acp_timeout
          (first_some s.task_acp_timeout (first_some s.acp_timeout engine_timeout))

-- How a reply is labelled: the stop reason and the three flags.
unfoldable pub labels : TurnResult → Flags
labels r =
    if r.timed_out
    then record {
      stop_reason = some "timeout";
      cancelled = false;
      partial = r.partial;
      timed_out = true;
    }
    else if r.cancelled
    then record {
      stop_reason = some "cancelled";
      cancelled = true;
      partial = r.partial;
      timed_out = false;
    }
    else elim r.stop_reason [
      | none ↦ record {
        stop_reason = none;
        cancelled = false;
        partial = r.partial;
        timed_out = false;
      }
      | some reason ↦
          if reason == "timeout"
          then record {
            stop_reason = some "timeout";
            cancelled = false;
            partial = true;
            timed_out = true;
          }
          else if reason == "cancelled"
          then record {
            stop_reason = some "cancelled";
            cancelled = true;
            partial = true;
            timed_out = false;
          }
          else record {
            stop_reason = none;
            cancelled = false;
            partial = r.partial;
            timed_out = false;
          }
    ]

unfoldable pub log_of : Option String → String
log_of none = ""
log_of (some reason) =
    if reason == "timeout"
    then "Subagent stopped early: timed out"
    else if reason == "cancelled"
    then "Subagent stopped early: cancelled"
    else ""

unfoldable pub reply_outcome : TurnResult → Outcome
unfolding labels log_of
reply_outcome r =
    let f = labels r in
    record {
      result = r.reply;
      log = log_of f.stop_reason;
      exit_code = code 0;
      extra =
          if is_some f.stop_reason || (f.partial || (f.cancelled || f.timed_out))
          then some f
          else none;
    }

unfoldable pub prompt_outcome : PromptResult → Outcome
unfolding reply_outcome
prompt_outcome (replied r) = reply_outcome r
prompt_outcome (timeout_error message) = broken message "" (stopped "timeout" true)
prompt_outcome (error message) = broken message "" (stopped "failed" false)

unfoldable pub prompt_with :
    Outside → Settings → (Option String × Option ℕ) → String → Task → Built → Execution
unfolding prompt_outcome request
prompt_with out s config prompt_text task (engine prompt) =
    outcome (prompt_outcome (prompt (request out s config prompt_text task)))
prompt_with out s config prompt_text task (build_error message) = exception message

-- A fresh engine for each task, unless one of another kind was injected.
unfoldable pub pick_engine : Outside → Injected → Built
pick_engine out absent = out.build_engine
pick_engine out acp = out.build_engine
pick_engine out (other prompt) = engine prompt

unfoldable pub run_acp : Outside → Settings → Task → Execution
unfolding prompt_with pick_engine
run_acp out s task =
    let prompt_text = if truthy task.prompt then or_else task.prompt "" else task.command in
    if prompt_text == ""
    then outcome (broken "ACP task has no prompt or command" "" (stopped "failed" false))
    else elim s.config [
      | none ↦ outcome (broken "ACP engine not configured" "" (stopped "failed" false))
      | some config ↦ prompt_with out s config prompt_text task (pick_engine out s.injected)
    ]

unfoldable pub execute : Outside → Settings → Task → Execution
unfolding run_shell run_acp
execute out s task = elim task.type [
  | TaskType.shell ↦ outcome (run_shell out s task)
  | TaskType.acp ↦ run_acp out s task
  | TaskType.subagent ↦ run_acp out s task
  | TaskType.noop ↦ outcome (record { result = "noop"; log = ""; exit_code = code 0; extra = none })
]
