-- ===== src/Ingress/Waking.antt =====
-- `wake` of runtime/ingress.py.
use diploid_agent.Prelude.{
  String, Bool, true, false, not, ◌&&◌, ◌==◌, Option, none, some, [], ◌∷◌, ◌++◌, if◌then◌else◌,
  or_else, find_first, ◌^◌,
}
use diploid_agent.Prelude.Dict.{get}
use diploid_agent.Json.{
  Text, Json, null, boolean, str, Fields, end, field, codes, text_eq, get_field,
}
use diploid_agent.Dispatch.{Dispatch, DispatchStatus, Store}
use diploid_agent.Wake.{WakeEvent}
use diploid_agent.Ingress.{
  ChatResult, reply_only, Outcome, returned, raised, Args, session_op, World, Env, acquire, release,
  call, turn, continue_turn,
}

-- payload.get(key), with None for a missing key.
abbrev pub lookup : Fields → String → Json
lookup payload key = or_else (get_field payload (codes key)) null

abbrev text_of : Option Json → Option Text
text_of (some (str t)) = some t
text_of _ = none

abbrev is_nil : Fields → Bool
is_nil end = true
is_nil (field k v fs) = false

-- The user message of a wake.
unfoldable pub wake_message : Env → (reason : String) → (payload : Fields) → Text
wake_message env reason payload =
    if reason == "plan_task_update"
    then env.plan_task_text payload
    else if reason == "plan_completed"
    then env.plan_completed_text payload
    else elim (text_of (get_field payload (codes "user_message"))) [
      | some message ↦ message
      | none ↦
          codes ("[system wake: " ^ reason ^ "]")
          ++ (if is_nil payload then [] else 10 ∷ env.dump payload)
    ]

unfoldable pub wake_args :
    Env → (chat_id reason : String) → (silent : Bool) → Option WakeEvent → (payload : Fields) → Args
unfolding wake_message
wake_args env chat_id reason silent event payload = record {
  chat_id = chat_id;
  user_message = wake_message env reason payload;
  model = lookup payload "model";
  reply_to = lookup payload "reply_to";
  reply_to_is_bot = lookup payload "reply_to_is_bot";
  reply_to_message_id = lookup payload "reply_to_message_id";
  wake_event = event;
  notify = or_else (get_field payload (codes "notify")) (boolean (not silent));
}

-- A dispatch that may still be continued: every status but COMPLETED.
abbrev pub may_continue : DispatchStatus → Bool
may_continue DispatchStatus.completed = false
may_continue _ = true

-- The dispatch that the payload names, with its id.
unfoldable pub named_dispatch : (payload : Fields) → Store → Option (String × Dispatch)
named_dispatch payload store = elim (text_of (get_field payload (codes "dispatch_id"))) [
  | none ↦ none
  | some id ↦ find_first (λ (e : String × Dispatch). text_eq (codes e.0) id) store
]

unfoldable pub continuable :
    (reason : String) → (payload : Fields) → Store → Option (String × Dispatch)
unfolding named_dispatch
continuable reason payload store =
    if reason == "dispatch"
    then elim (named_dispatch payload store) [
      | none ↦ none
      | some (id, dispatch) ↦ if may_continue dispatch.status then some (id, dispatch) else none
    ]
    else none

abbrev pub busy_reply : String
busy_reply = "Chat is busy; wake re-enqueued."

abbrev pub says_something : ChatResult → Bool
says_something r = not (r.reply == "" && or_else r.notice "" == "")

-- A queued session operation: its result is delivered here, unless the gate is still closed.
unfoldable pub after_session_op : (chat_id : String) → Outcome → World → World × Outcome
after_session_op chat_id (raised error) w = (w, raised error)
after_session_op chat_id (returned r) w = if r.reply == busy_reply then (w, returned r) else (
  if says_something r then record w { delivered = w.delivered ++ (chat_id, r) ∷ [] } else w,
  returned (reply_only ""),
)

abbrev pub payload_of : Option WakeEvent → Fields
payload_of none = end
payload_of (some e) = e.payload

-- payload.get("result", dispatch.result or "")
abbrev pub result_of : Fields → Dispatch → Json
result_of payload dispatch =
    or_else (get_field payload (codes "result")) (str (codes (or_else dispatch.result "")))

-- The part of wake behind the lock, which `release` follows on every path.
unfoldable pub wake_held :
    Env → (chat_id reason : String) → (silent : Bool) → Option WakeEvent → World → World × Outcome
unfolding call after_session_op continuable continue_turn turn wake_args release
wake_held env chat_id reason silent event w =
    let payload = payload_of event in
    if reason == "session_op"
    then (let (w', outcome) = call env (session_op chat_id payload) w in
        let (w'', outcome') = after_session_op chat_id outcome w' in
        (release chat_id w'', outcome'))
    else elim (continuable reason payload w.shared.dispatches) [
      | none ↦ turn env (wake_args env chat_id reason silent event payload) w
      | some (id, dispatch) ↦
          let (w', outcome) = continue_turn env id (result_of payload dispatch) w in
          (release chat_id w', outcome)
    ]

abbrev pub named_or : Option String → String
named_or none = "user_request"
named_or (some reason) = if reason == "" then "user_request" else reason

unfoldable pub wake_known :
    Env → (chat_id reason : String) → (silent : Bool) → Option WakeEvent → World → World × Outcome
unfolding acquire wake_held
wake_known env chat_id reason silent event w =
    let (w', held) = acquire env chat_id w in
    if held
    then wake_held env chat_id reason silent event w'
    else (w', returned (reply_only busy_reply))

-- `event_id` names an event of the queue, whose chat and reason then count.
unfoldable pub wake :
    Env
    → (chat_id : String) → (event_id reason : Option String) → (silent : Option Bool) → World
    → World × Outcome
unfolding wake_known
wake env chat_id none reason silent w =
    wake_known env chat_id (named_or reason) (or_else silent false) none w
wake env chat_id (some event_id) reason silent w = elim (get w.shared.queue event_id) [
  | none ↦ (w, returned (reply_only "Unknown or already completed wake event."))
  | some event ↦
      wake_known env event.chat_id (named_or (some event.reason)) (or_else silent event.silent)
        (some event) w
]
