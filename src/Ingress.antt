-- ===== src/Ingress.antt =====
-- RuntimeIngress of runtime/ingress.py over the instance lock, the wake queue and the dispatch
-- store: `process` and `continue_turn` are here, `wake` is in Waking, and Timer has the timer
-- that calls it. The turn controller is the parameter `Controller`: it may change the queue and
-- the dispatches as it likes, and never touches the instance lock. `calls` logs its calls,
-- `delivered` the results handed to the outbox, `posted` the events on the bus, and `billed` the
-- calls of CronService.record_turn_delivery.
pub mod Waking
pub mod Timer
pub mod Settled
pub mod Locks
pub mod Busy
pub mod Nested
mod Tests
use diploid_agent.Prelude.{
  ℕ, ◌+◌, String, Bool, true, false, not, ◌&&◌, ◌||◌, ◌==◌, Option, none, some, List, [], ◌∷◌, ◌++◌,
  if◌then◌else◌, or_else, is_none, is_some, find_first, map, ◌^◌,
}
use diploid_agent.Prelude.Dict.{get}
use diploid_agent.Json.{
  Text, Json, null, boolean, number, str, arr, obj, Fields, end, field, codes, text_eq, get_field,
}
use diploid_agent.Dispatch.{Dispatch, DispatchStatus, Store}
use diploid_agent.Instance
use diploid_agent.Instance.{Manager, Os}
use diploid_agent.Wake
use diploid_agent.Wake.{WakeEvent, Queue}

-- The fields of ChatResult of models.py that the ingress and the handler read or write.
pub record ChatResult : Type 0 where
  pub reply : String
  pub notice : Option String
  pub turn_number : Option ℕ
  pub reply_to_message_id : Json

abbrev pub reply_only : String → ChatResult
reply_only reply = record {
  reply = reply;
  notice = none;
  turn_number = none;
  reply_to_message_id = null;
}

pub data Outcome : Type 0 where
  returned : ChatResult → Outcome
  raised : (error : String) → Outcome

-- The arguments of a turn; `null` is None.
pub record Args : Type 0 where
  pub chat_id : String
  pub user_message : Text
  pub model : Json
  pub reply_to : Json
  pub reply_to_is_bot : Json
  pub reply_to_message_id : Json
  pub wake_event : Option WakeEvent
  pub notify : Json

pub data Call : Type 0 where
  processed : Args → Call
  continued : (dispatch_id : String) → (result : Json) → Call
  session_op : (chat_id : String) → (payload : Fields) → Call

-- The payload of a timer event.
pub record Fired : Type 0 where
  pub event_id : String
  pub chat_id : String
  pub reason : String
  pub silent : Bool

-- What the controller shares with the ingress.
pub record Shared : Type 0 where
  pub queue : Queue
  pub dispatches : Store

abbrev pub Controller : Type 0
Controller = Call → Shared → Shared × Outcome

pub record World : Type 0 where
  pub manager : Manager
  pub os : Os
  pub shared : Shared
  pub calls : List Call
  pub delivered : List (String × ChatResult)
  pub posted : List Fired
  pub billed : List Json

-- The environment of a call: the thread, the clock, a fresh id, the texts of
-- _build_plan_task_update_message, _build_plan_completed_message and json.dumps, the error
-- that the queue's file gives where a dispatch's wake is made ready, if any, and the retry times of
-- the configuration.
pub record Env : Type 0 where
  pub process : String
  pub tid : ℕ
  pub now : ℕ
  pub pid_alive : ℕ → Bool
  pub controller : Controller
  pub wake_id : String
  pub plan_task_text : Fields → Text
  pub plan_completed_text : Fields → Text
  pub dump : Fields → Text
  pub ready_error : Option String
  pub waker_retry_after : ℕ
  pub timer_retry_after : ℕ
  pub lease_seconds : ℕ
  pub timer_enabled : Bool
  pub outbox_delivery_enabled : Bool
  pub has_cron_service : Bool

-- self._instance_manager.acquire(chat_id) and release(chat_id).
unfoldable pub acquire : Env → String → World → World × Bool
acquire env chat_id w =
    let a = Instance.acquire env.process env.now env.tid env.pid_alive chat_id w.manager w.os in
    (record w { manager = a.manager; os = a.os }, a.result)

unfoldable pub release : String → World → World
release chat_id w =
    let (manager, os) = Instance.release chat_id w.manager w.os in
    record w { manager = manager; os = os }

abbrev pub set_queue : Queue → World → World
set_queue q w = record w { shared = record w.shared { queue = q } }

unfoldable pub call : Env → Call → World → World × Outcome
call env c w =
    let (shared, outcome) = env.controller c w.shared in
    (record w { shared = shared; calls = w.calls ++ c ∷ [] }, outcome)

-- `if result is not None and reply_to_message_id is not None: ...`
abbrev pub is_null : Json → Bool
is_null null = true
is_null _ = false

unfoldable pub answered : Json → Outcome → Outcome
answered message_id (returned r) =
    returned (if is_null message_id then r else record r { reply_to_message_id = message_id })
answered message_id (raised error) = raised error

-- A turn of the controller, after which the lock is released however it ends.
unfoldable pub turn : Env → Args → World → World × Outcome
unfolding call release answered
turn env args w =
    let (w', outcome) = call env (processed args) w in
    (release args.chat_id w', answered args.reply_to_message_id outcome)

-- The wake that keeps a user message while the chat is busy.
unfoldable pub busy_payload : Args → Fields
busy_payload args = field (codes "user_message") (str args.user_message) (
    field (codes "model") args.model (
      field (codes "reply_to") args.reply_to (
        field (codes "reply_to_is_bot") args.reply_to_is_bot (
          field (codes "reply_to_message_id") args.reply_to_message_id
            (field (codes "notify") (boolean true) (field (codes "retry_after") (number 2) end))))))

unfoldable pub busy_wake : Env → Args → WakeEvent
unfolding busy_payload
busy_wake env args = record {
  id = "";
  chat_id = args.chat_id;
  reason = "user_request";
  priority = 10;
  scheduled_at = env.now;
  payload = busy_payload args;
  silent = false;
  created_at = env.now;
  ready = true;
  attempts = 0;
  leased_until = none;
}

abbrev pub busy_result : ChatResult
busy_result = record (reply_only "I'll get back to you in a moment.") {
  notice = some "This chat is busy; your message was queued.";
}

unfoldable pub process : Env → Args → World → World × Outcome
unfolding acquire turn busy_wake
process env args w =
    let (w', held) = acquire env args.chat_id w in
    if held then turn env args w' else (
      set_queue (Wake.enqueue env.wake_id (busy_wake env args) w'.shared.queue).0 w',
      returned busy_result,
    )

abbrev pub wake_id_of : (dispatch_id : String) → String
wake_id_of dispatch_id = "wake-" ^ dispatch_id

-- With the outcome of the controller: complete, leave, or fail the wake of the dispatch.
unfoldable pub settle_dispatch : Env → (wake_id : String) → Outcome → Queue → Queue
settle_dispatch env wake_id (returned r) q =
    if is_some r.turn_number then (Wake.complete wake_id q).0 else q
settle_dispatch env wake_id (raised error) q = (Wake.fail env.now env.waker_retry_after wake_id q).0

-- The try block of continue_turn, with its finally. An error of complete or fail is not modelled; the
-- finally follows it.
unfoldable pub continue_ready :
    Env → (dispatch_id : String) → (result : Json) → (chat_id : String) → World → World × Outcome
unfolding call settle_dispatch release
continue_ready env dispatch_id result chat_id w =
    let wake_id = wake_id_of dispatch_id in
    let made_ready = set_queue (Wake.ready env.now wake_id w.shared.queue).0 w in
    let (w', outcome) = call env (continued dispatch_id result) made_ready in
    (release chat_id (set_queue (settle_dispatch env wake_id outcome w'.shared.queue) w'), outcome)

-- The part of continue_turn behind the lock. The file of the wake queue is written before the try.
unfoldable pub continue_held :
    Env → (dispatch_id : String) → (result : Json) → (chat_id : String) → World → World × Outcome
unfolding continue_ready
continue_held env dispatch_id result chat_id w = elim env.ready_error [
  | some error ↦ (w, raised error)
  | none ↦ continue_ready env dispatch_id result chat_id w
]

unfoldable pub continue_turn :
    Env → (dispatch_id : String) → (result : Json) → World → World × Outcome
unfolding acquire continue_held
continue_turn env dispatch_id result w = elim (get w.shared.dispatches dispatch_id) [
  | none ↦ (w, returned (reply_only "Unknown dispatch."))
  | some dispatch ↦
      let (w', held) = acquire env dispatch.chat_id w in
      if held
      then continue_held env dispatch_id result dispatch.chat_id w'
      else (w', returned (reply_only "Another instance is currently handling this chat."))
]
