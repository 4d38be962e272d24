-- ===== src/Tasks/Engine.antt =====
-- TaskEngine of task/engine.py: starting tasks, running one, and starting what became ready. The
-- two callbacks are logged in `calls`; what they do, and their errors, stay outside. A clock reading
-- is `tick`, which the environment gives.
pub mod Finishing
use diploid_agent.Prelude.{
  ℕ, suc, String, Bool, true, false, not, ◌&&◌, ◌||◌, ◌==◌, Option, none, some, List, [], ◌∷◌, ◌++◌,
  if◌then◌else◌, or_else,
}
use diploid_agent.Plan.Models.{Task, TaskType, TaskStatus, is_ready}
use diploid_agent.Plan.Manager
use diploid_agent.Plan.Manager.{Manager, Flags, no_flags}
use diploid_agent.Tasks.Worker
use diploid_agent.Tasks.Worker.{
  Pool, PoolError, value_error, runtime_error, Raised, resize, submit, is_in_flight,
}
use diploid_agent.Tasks.Execute.{
  Outside, Settings, ExitCode, minus, is_zero, Outcome, Execution, outcome, exception, execute,
}

pub data Event : Type 0 where
  task_completed : (plan_id task_id result log : String) → Flags → Event
  task_failed : (plan_id task_id log : String) → Flags → Event
  task_crashed : (plan_id task_id error : String) → Event

pub data Callback : Type 0 where
  task_start : (plan_id task_id : String) → Callback
  task_done : (plan_id task_id result log : String) → ExitCode → Callback

pub record Engine : Type 0 where
  pub manager : Manager
  pub pool : Pool
  pub events : List Event
  pub calls : List Callback

-- The clock, and the text that `traceback` makes of an error.
pub record Env : Type 0 where
  pub outside : Outside
  pub settings : Settings
  pub tick : ℕ
  pub traceback : String → String
  pub disabled : TaskType → String
  pub start_error : String

abbrev pub post : Event → Engine → Engine
post event e = record e { events = e.events ++ event ∷ [] }

abbrev pub notify : Callback → Engine → Engine
notify c e = record e { calls = e.calls ++ c ∷ [] }

-- What start_task gives: the task, or the error that it raises.
pub data Started : Type 0 where
  task : Task → Started
  raises : PoolError → Started

-- The pool takes the job: `resize`, then `submit`.
unfoldable pub submit_job : Env → (plan_id : String) → Task → Engine → Engine × Started
unfolding resize submit
submit_job env plan_id t e =
    let sized = resize env.settings.workers e.pool in
    elim sized.error [
      | some error ↦ (record e { pool = sized.state }, raises error)
      | none ↦
          let given = submit plan_id t.id sized.state in
          elim given.error [
            | some error ↦ (record e { pool = given.state }, raises error)
            | none ↦ (record e { pool = given.state }, task t)
          ]
    ]

unfoldable pub begin : Env → (plan_id task_id : String) → Engine → Engine × Started
unfolding submit_job
begin env plan_id task_id e =
    let (manager', started) = Manager.start_task env.tick plan_id task_id e.manager in
    let e' : Engine = record e { manager = manager' } in
    elim started [ none ↦ (e', raises value_error) | some t ↦ submit_job env plan_id t e' ]

unfoldable pub start_task :
    Env → (plan_id : String) → (task_id : Option String) → Engine → Engine × Started
unfolding begin
start_task env plan_id none e = elim (Manager.get_ready_tasks plan_id e.manager) [
  | [] ↦ (e, raises value_error)
  | t ∷ rest ↦ begin env plan_id t.id e
]
start_task env plan_id (some task_id) e = elim (Manager.get_task plan_id task_id e.manager) [
  | none ↦ (e, raises value_error)
  | some t ↦
      if not (is_ready t.status) then (e, raises value_error) else begin env plan_id task_id e
]

-- `try: self.start_task(...) except ValueError: pass`
abbrev pub is_value_error : PoolError → Bool
is_value_error value_error = true
is_value_error runtime_error = false

abbrev pub passes : Started → Option PoolError
passes (task t) = none
passes (raises error) = if is_value_error error then none else some error

-- The loop of _start_ready_dependents: an error other than ValueError ends it.
unfoldable pub start_each : Env → String → List Task → Engine → Raised Engine
start_each env plan_id [] e = record { error = none; state = e }
start_each env plan_id (t ∷ ts) e =
    if is_in_flight t.id e.pool
    then start_each env plan_id ts e
    else (let (e', started) = start_task env plan_id (some t.id) e in
        elim (passes started) [
          | none ↦ start_each env plan_id ts e'
          | some error ↦ record { error = some error; state = e' }
        ])

unfoldable pub start_ready_dependents : Env → String → Engine → Raised Engine
unfolding start_each
start_ready_dependents env plan_id e =
    start_each env plan_id (Manager.get_ready_tasks plan_id e.manager) e

abbrev pub type_in : List TaskType → TaskType → Bool
type_in [] t = false
type_in (u ∷ us) t = same u t || type_in us t
  where
    same : TaskType → TaskType → Bool
    same TaskType.shell TaskType.shell = true
    same TaskType.noop TaskType.noop = true
    same TaskType.acp TaskType.acp = true
    same TaskType.subagent TaskType.subagent = true
    same _ _ = false

-- `except Exception as exc`: the task fails, whatever it was before, and the event is posted.
unfoldable pub crash : Env → (plan_id task_id error : String) → Engine → Engine
crash env plan_id task_id error e =
    let (manager', failed) =
      Manager.fail_task env.tick env.tick plan_id task_id (env.traceback error) no_flags
        e.manager in
    post (task_crashed plan_id task_id error) (record e { manager = manager' })

-- The result of _run_task's middle part, with what on_task_done is told.
pub record Ran : Type 0 where
  pub engine : Engine
  pub result : String
  pub log : String
  pub exit_code : ExitCode

abbrev pub crashed : Env → (plan_id task_id error : String) → Engine → Ran
crashed env plan_id task_id error e = record {
  engine = crash env plan_id task_id error e;
  result = "";
  log = env.traceback error;
  exit_code = minus 1;
}

abbrev pub ran : Outcome → Engine → Ran
ran o e = record { engine = e; result = o.result; log = o.log; exit_code = o.exit_code }

-- After a status change that went through: post the event, then start what became ready. An error
-- there is caught like any other.
unfoldable pub announce : Env → (plan_id task_id : String) → Event → Outcome → Engine → Ran
unfolding crash start_ready_dependents
announce env plan_id task_id event o e =
    let next = start_ready_dependents env plan_id (post event e) in
    elim next.error [
      | none ↦ ran o next.state
      | some error ↦ crashed env plan_id task_id env.start_error next.state
    ]

abbrev pub log_or_result : Outcome → String
log_or_result o = if o.log == "" then o.result else o.log

unfoldable pub conclude : Env → (plan_id task_id : String) → Outcome → Engine → Ran
unfolding announce
conclude env plan_id task_id o e =
    if is_zero o.exit_code
    then (let (manager', completed) =
          Manager.complete_task env.tick env.tick plan_id task_id o.result o.log flags e.manager in
        let e' : Engine = record e { manager = manager' } in
        elim completed [
          | none ↦ ran o e'
          | some t ↦
              announce env plan_id task_id (task_completed plan_id task_id o.result o.log flags) o
                e'
        ])
    else (let (manager', failed) =
          Manager.fail_task env.tick env.tick plan_id task_id (log_or_result o) flags e.manager in
        let e' : Engine = record e { manager = manager' } in
        elim failed [
          | none ↦ ran o e'
          | some t ↦
              announce env plan_id task_id (task_failed plan_id task_id (log_or_result o) flags) o
                e'
        ])
  where
    flags : Flags
    flags = or_else o.extra no_flags

unfoldable pub run_enabled : Env → (plan_id : String) → Task → (task_id : String) → Engine → Ran
unfolding conclude crash
run_enabled env plan_id t task_id e =
    let e' = notify (task_start plan_id task_id) e in
    elim (execute env.outside env.settings t) [
      | outcome o ↦ conclude env plan_id task_id o e'
      | exception message ↦ crashed env plan_id task_id message e'
    ]

-- A task of a disabled type fails; here an error of the dependents leaves _run_task.
unfoldable pub run_disabled :
    Env → (plan_id : String) → Task → (task_id : String) → Engine → Raised Engine
unfolding start_ready_dependents
run_disabled env plan_id t task_id e =
    let result = env.disabled t.type in
    let (manager', failed) =
      Manager.fail_task env.tick env.tick plan_id task_id result no_flags e.manager in
    let e' : Engine = record e { manager = manager' } in
    elim failed [
      | none ↦ record { error = none; state = e' }
      | some _ ↦
          start_ready_dependents env plan_id (post (task_failed plan_id task_id result no_flags) e')
    ]

abbrev pub done_call : (plan_id task_id result log : String) → ExitCode → Engine → Engine
done_call plan_id task_id result log exit_code =
    notify (task_done plan_id task_id result log exit_code)

unfoldable pub run_task : Env → (plan_id task_id : String) → Engine → Raised Engine
unfolding run_enabled run_disabled
run_task env plan_id task_id e = elim (Manager.get_task plan_id task_id e.manager) [
  | none ↦ record { error = none; state = e }
  | some t ↦
      if not (type_in env.settings.enabled_types t.type)
      then (let r = run_disabled env plan_id t task_id e in
          elim r.error [
            | some error ↦ r
            | none ↦ record {
              error = none;
              state = done_call plan_id task_id (env.disabled t.type) "" (minus 1) r.state;
            }
          ])
      else (let r = run_enabled env plan_id t task_id e in
          record {
            error = none;
            state = done_call plan_id task_id r.result r.log r.exit_code r.engine;
          })
]

unfoldable pub reconfigure : Env → Engine → Raised Engine
unfolding resize
reconfigure env e =
    let sized = resize env.settings.workers e.pool in
    record { error = sized.error; state = record e { pool = sized.state } }

unfoldable pub shutdown : Engine → Engine
unfolding Worker.shutdown
shutdown e = record e { pool = Worker.shutdown e.pool }
