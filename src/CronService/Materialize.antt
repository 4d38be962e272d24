-- ===== src/CronService/Materialize.antt =====
-- `_materialize` and `run_now` of runtime/cron_service.py: a due job becomes a running task. The
-- other threads are not seen between the steps of one call.
use diploid_agent.Prelude.{
  min, String, Bool, true, false, not, ◌&&◌, ◌==◌, Option, none, some, [], if◌then◌else◌, or_else,
  is_some, ◌^◌,
}
use diploid_agent.Prelude.Dict.{get, put}
use diploid_agent.Plan.Models.{Task, TaskType, new_task}
use diploid_agent.Plan.Manager
use diploid_agent.Plan.Manager.{no_flags}
use diploid_agent.Tasks.Engine
use diploid_agent.Tasks.Engine.{Started, task, raises}
use diploid_agent.Cron
use diploid_agent.Cron.{CronJobState}
use diploid_agent.CronService.Specs.{CallType, is_silent}
use diploid_agent.CronService.Jobs.{ResolvedJob, Label, number_or}
use diploid_agent.CronService.State.{Service, Clock, now_of, save_state, cron_plan_id, next_due_of}

-- The keyword arguments of _materialize.
pub record Mode : Type 0 where
  pub catchup : Bool
  pub manual : Bool
  pub reason : Option String

abbrev pub plain : Mode
plain = record { catchup = false; manual = false; reason = none }

abbrev label_text : Label → String
label_text Label.operator = "global"
label_text Label.persona = "persona"

unfoldable pub description : ResolvedJob → Mode → String
description r mode =
    "cron job "
    ^ r.spec.id
    ^ " ("
    ^ label_text r.source_label
    ^ (if mode.catchup then ", catchup" else "")
    ^ (if mode.manual then ", manual" else "")
    ^ ")"
    ^ reason
  where
    reason : String
    reason = elim mode.reason [ none ↦ "" | some why ↦ if why == "" then "" else " — " ^ why ]

abbrev cwd_of : Clock → ResolvedJob → Option String
cwd_of c r = elim r.spec.call.cwd [
  | some dir ↦ if dir == "" then persona_dir else some (c.expand dir)
  | none ↦ persona_dir
]
  where
    persona_dir : Option String
    persona_dir = elim r.persona_dir [ none ↦ none | some dir ↦ some (c.path_text dir) ]

-- The task of a run: a shell command, or a prompt with a bounded timeout and no MCP servers.
unfoldable pub task_of : Clock → ResolvedJob → Mode → Task
unfolding description
task_of c r mode = elim r.spec.call.type [
  | CallType.script ↦ record base {
    type = TaskType.shell;
    command = or_else r.spec.call.command "";
  }
  | CallType.llm ↦ record base {
    type = TaskType.acp;
    prompt = some (c.phantom r mode.reason);
    acp_model = r.spec.call.model;
    acp_timeout =
        some
          (min (number_or r.spec.call.timeout_seconds c.cfg.max_llm_timeout) c.cfg.max_llm_timeout);
    mcp_servers = some [];
  }
]
  where
    base : Task
    base = record (new_task "" []) {
      name = "cron:" ^ r.spec.id;
      description = description r mode;
      chat_id = some r.chat_id;
      cwd = cwd_of c r;
      quiet = is_silent r.spec.delivery;
      created_at = now_of c;
    }

-- The state of a job whose task `task_id` has been added.
unfoldable pub fired :
    Clock → ResolvedJob → Mode → (plan_id task_id : String) → CronJobState → CronJobState
fired c r mode plan_id task_id state = record state {
  running_task_id = some task_id;
  running_plan_id = some plan_id;
  last_task_id = some task_id;
  last_run_at = some (now_of c);
  queued_due = false;
  fired_spec = c.dump_spec r.spec;
  fired_chat_id = r.chat_id;
  next_due_at =
      if not mode.manual && is_some r.spec.schedule
      then next_due_of c r.spec (now_of c)
      else state.next_due_at;
  trigger_fired_at =
      if not mode.manual && is_some r.spec.trigger then some (now_of c) else state.trigger_fired_at;
  last_status = if mode.catchup then some "catchup" else state.last_status;
}

abbrev pub not_started : (error : String) → CronJobState → CronJobState
not_started error state = record state {
  running_task_id = none;
  running_plan_id = none;
  last_status = some "failed";
  last_summary = "could not start: " ^ error;
}

-- `try: start_task(...) except Exception`: a run that does not start fails at once.
unfoldable pub after_start :
    Clock → (plan_id task_id : String) → CronJobState → Started → Service → Service × CronJobState
after_start c plan_id task_id state (task _) s = (s, state)
after_start c plan_id task_id state (raises error) s =
    let message = c.show_error error in
    let (manager, _) =
      Manager.fail_task (now_of c) (now_of c) plan_id task_id ("cron could not start: " ^ message)
        no_flags s.engine.manager in
    (
      save_state c (not_started message state)
          (record s { engine = record s.engine { manager = manager } }),
      not_started message state,
    )

unfoldable pub start_run :
    Clock → (plan_id task_id : String) → CronJobState → Service → Service × CronJobState
unfolding after_start
start_run c plan_id task_id state s =
    let (engine, started) = Engine.start_task c.tasks plan_id (some task_id) s.engine in
    after_start c plan_id task_id state started (record s { engine = engine })

-- After add_task.
unfoldable pub launch :
    Clock
    → ResolvedJob
    → Mode
    → (plan_id task_id : String) → CronJobState
    → Service
    → Service × CronJobState
unfolding fired start_run
launch c r mode plan_id task_id state s =
    let state' = fired c r mode plan_id task_id state in
    let saved = save_state c state' s in
    start_run c plan_id task_id state'
      (record saved { task_to_job = put saved.task_to_job task_id r.spec.id })

-- A task that the plan refuses is logged, and the job stays due.
unfoldable pub after_add :
    Clock
    → ResolvedJob
    → Mode
    → (plan_id : String) → CronJobState
    → Option Task
    → Service
    → Service × CronJobState
unfolding launch
after_add c r mode plan_id state none s = (s, state)
after_add c r mode plan_id state (some t) s = launch c r mode plan_id t.id state s

unfoldable pub materialize :
    Clock → ResolvedJob → CronJobState → Mode → Service → Service × CronJobState
unfolding after_add task_of
materialize c r state mode s =
    let (s', plan_id) = cron_plan_id c r.chat_id s in
    let (manager, added) =
      Manager.add_task (c.new_task_id s'.engine.manager) (now_of c) plan_id (task_of c r mode)
        s'.engine.manager in
    after_add c r mode plan_id state added
      (record s' { engine = record s'.engine { manager = manager } })

-- What run_now does: KeyError, RuntimeError, or the task and whether it started.
pub data RunNow : Type 0 where
  key_error already_running : RunNow
  report : (task_id : Option String) → (started : Bool) → RunNow

unfoldable pub run_now : Clock → (job_id : String) → Service → Service × RunNow
unfolding materialize
run_now c job_id s = elim (get s.jobs job_id) [
  | none ↦ (s, key_error)
  | some r ↦
      let (store, state) = Cron.ensure (now_of c) job_id r.source_file s.store s.store in
      let s' : Service = record s { store = store } in
      elim state.running_task_id [
        | some _ ↦ (s', already_running)
        | none ↦
            let (s'', state') = materialize c r state (record plain { manual = true }) s' in
            (s'', report state'.last_task_id (is_some state'.running_task_id))
      ]
]
