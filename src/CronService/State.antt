-- ===== src/CronService/State.antt =====
-- The state of CronService (runtime/cron_service.py) with the stores that it shares, and
-- `_cron_plan_id`, `_driver_key` and `_reset_trigger`. What the service writes to the chats' result
-- files is the list `delivered`.
use diploid_agent.Prelude.{ℕ, String, Bool, false, Option, none, some, List, [], ◌==◌, find_first}
use diploid_agent.Prelude.Dict.{Dict, get, put}
use diploid_agent.Plan.Models.{Plan}
use diploid_agent.Plan.Manager
use diploid_agent.Plan.Manager.{Manager}
use diploid_agent.Tasks.Worker.{PoolError}
use diploid_agent.Tasks.Engine.{Engine, Env}
use diploid_agent.Json.{Json, Fields}
use diploid_agent.Wake.{Queue}
use diploid_agent.Cron
use diploid_agent.Cron.{CronJobState, Store}
use diploid_agent.CronService.Specs.{Spec, Schedule, Trigger}
use diploid_agent.CronService.Schedule.{next_due}
use diploid_agent.CronService.Jobs.{Config, Files, ResolvedJob, Watch, Warning}

-- One delivery of a finished run: the job and chat, the task, and the outcome that is written.
pub record Delivered : Type 0 where
  pub job_id : String
  pub chat_id : String
  pub task_id : String
  pub status : Option String
  pub outcome : String

pub record Service : Type 0 where
  pub store : Store
  pub watches : List Watch
  pub jobs : Dict ResolvedJob
  pub warnings : List Warning
  pub cron_plans : Dict String
  pub task_to_job : Dict String
  pub catchup_pending : List String
  pub booted : Bool
  pub engine : Engine
  pub wake_queue : Option Queue
  pub delivered : List Delivered

-- The environment of one call: the clock is `tasks.tick`, `today` its local day. `model_dump_json`
-- and its inverse are `dump_schedule`, `dump_trigger`, `dump_spec` and `load_spec`; `phantom` is the
-- prompt of _compose_phantom; the `new_` ids and `wake_id` are fresh. `first_line` is the first line
-- of the stripped text, cut at 200 characters. `body_state` is the parsed chat_body_state.json of a
-- chat, or persona_body_state.json, where it holds an object.
pub record Clock : Type 0 where
  pub tasks : Env
  pub cfg : Config
  pub files : Files
  pub today : String
  pub dump_schedule : Schedule → String
  pub dump_trigger : Trigger → String
  pub dump_spec : Spec → String
  pub load_spec : String → Option Spec
  pub phantom : ResolvedJob → Option String → String
  pub new_plan_id : Manager → String
  pub new_task_id : Manager → String
  pub wake_id : String
  pub expand : String → String
  pub path_text : List String → String
  pub first_line : String → String
  pub strip : String → String
  pub show : ℕ → String
  pub show_error : PoolError → String
  pub body_state : Option String → Option Fields
  pub repr : Json → String

abbrev pub now_of : Clock → ℕ
now_of c = c.tasks.tick

-- self._state.update(state)
abbrev pub save_state : Clock → CronJobState → Service → Service
save_state c state s = record s { store = (Cron.update (now_of c) state s.store).0 }

abbrev pub cron_plan_name : String
cron_plan_name = "__cron__"

abbrev with_plan : String → String → Service → Service × String
with_plan chat_id plan_id s = (record s { cron_plans = put s.cron_plans chat_id plan_id }, plan_id)

-- Find the standing plan by its name, or create it.
unfoldable pub find_cron_plan : Clock → (chat_id : String) → Service → Service × String
find_cron_plan c chat_id s =
    elim (find_first (λ (p : Plan). p.name == cron_plan_name)
      (Manager.list_plans (some chat_id) s.engine.manager)) [
        | some plan ↦ with_plan chat_id plan.id s
        | none ↦
            let (manager, plan) =
              Manager.create_plan (c.new_plan_id s.engine.manager)
                (λ _. c.new_task_id s.engine.manager) (now_of c) cron_plan_name
                "Standing plan for cron-scheduled tasks." (some chat_id) [] "system"
                s.engine.manager in
            with_plan chat_id plan.id (record s { engine = record s.engine { manager = manager } })
      ]

unfoldable pub cron_plan_id : Clock → (chat_id : String) → Service → Service × String
unfolding find_cron_plan
cron_plan_id c chat_id s = elim (get s.cron_plans chat_id) [
  | none ↦ find_cron_plan c chat_id s
  | some plan_id ↦ elim (Manager.get_plan plan_id s.engine.manager) [
    | some _ ↦ (s, plan_id)
    | none ↦ find_cron_plan c chat_id s
  ]
]

unfoldable pub driver_key : Clock → Spec → String
driver_key c spec = elim spec.schedule [
  | some schedule ↦ c.dump_schedule schedule
  | none ↦ elim spec.trigger [ none ↦ "" | some trigger ↦ c.dump_trigger trigger ]
]

unfoldable pub reset_trigger : CronJobState → CronJobState
reset_trigger state = record state {
  trigger_seen_mtime = none;
  trigger_held = false;
  queued_due = false;
  next_due_at = none;
}

-- `state.next_due_at = self._next_due(spec, base)`; the callers see to it that there is a schedule.
abbrev pub next_due_of : Clock → Spec → ℕ → Option ℕ
next_due_of c spec base = elim spec.schedule [
  | none ↦ none
  | some schedule ↦ some (next_due c.files.calendar schedule base)
]
