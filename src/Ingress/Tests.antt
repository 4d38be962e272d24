-- ===== src/Ingress/Tests.antt =====
-- Runs of runtime/ingress.py and of the timer on one chat, with a controller that replies to
-- everything, or raises.
use mathlib.Core.List.{Mem}
use diploid_agent.Prelude.{ℕ, ◌+◌, ◌≡◌, refl, true, false, none, some, List, [], ◌∷◌, ◌++◌}
use diploid_agent.Prelude.Dict.{get, put}
use diploid_agent.Json.{
  null, boolean, str, end, field, codes, get_field, put_field, sanitize_json_value,
  sanitize_surrogates,
}
use diploid_agent.Dispatch.{Dispatch, DispatchStatus}
use diploid_agent.Instance
use diploid_agent.Instance.{Manager}
use diploid_agent.Wake
use diploid_agent.Wake.{is_due, WakeEvent}
use diploid_agent.Ingress.{
  reply_only, Outcome, returned, raised, Args, Call, processed, Shared, World, Env, acquire,
  release, busy_payload, busy_wake, process, continue_turn,
}
use diploid_agent.Ingress.Waking.{named_dispatch, continuable, result_of, wake}
use diploid_agent.Ingress.Timer.{fired, tick, retry_after, seconds_of, handle_timer_fired}
use diploid_agent.Ingress.Settled.{IsSettled, handle_timer_fired-IsSettled}
use diploid_agent.Ingress.Locks.{
  IsKept, Request, processes, continues, wakes, serve_all, serve_all-IsKept,
}
use diploid_agent.Ingress.Busy.{
  queued, rescheduled, resumed, busy_event_is_kept, queued_message_is_processed,
}
use diploid_agent.Ingress.Nested.{IsFree, Holds, wake_releases_twice}

abbrev replying : Call → Shared → Shared × Outcome
replying c s = (s, returned (record (reply_only "Hello.") { turn_number = some 1 }))

abbrev failing : Call → Shared → Shared × Outcome
failing c s = (s, raised "no engine")

abbrev thread : (tid : ℕ) → (now : ℕ) → (Call → Shared → Shared × Outcome) → Env
thread tid now controller = record {
  process = "p";
  tid = tid;
  now = now;
  pid_alive = λ n. true;
  controller = controller;
  wake_id = "wake-1";
  plan_task_text = λ p. [];
  plan_completed_text = λ p. [];
  dump = λ p. [];
  ready_error = none;
  waker_retry_after = 30;
  timer_retry_after = 30;
  lease_seconds = 300;
  timer_enabled = true;
  outbox_delivery_enabled = true;
  has_cron_service = true;
}

abbrev idle : Manager
idle = record {
  instance_id = "one";
  pid = 1;
  ttl_seconds = 60;
  held = [];
  alive = false;
  stop = false;
}

abbrev empty_world : World
empty_world = record {
  manager = idle;
  os = record { files = []; locks = [] };
  shared = record { queue = []; dispatches = [] };
  calls = [];
  delivered = [];
  posted = [];
  billed = [];
}

-- Thread 8 has a turn in the chat.
abbrev busy_world : World
busy_world = record empty_world {
  manager = record idle { held = ("chat", record { pid = 1; tid = 8 }) ∷ []; alive = true };
  os = record {
    files = ("chat", record { pid = 1; instance_id = "one"; heartbeat = 5 }) ∷ [];
    locks = ("chat", "p") ∷ [];
  };
}

abbrev hello : Args
hello = record {
  chat_id = "chat";
  user_message = codes "hello";
  model = null;
  reply_to = null;
  reply_to_is_bot = null;
  reply_to_message_id = null;
  wake_event = none;
  notify = boolean true;
}

abbrev message_event : WakeEvent
message_event = queued (thread 7 10 replying) hello

-- The chat is free again, and the message stands in the queue.
abbrev later_world : World
later_world = record empty_world {
  shared = record { queue = ("wake-1", message_event) ∷ []; dispatches = [] };
}

busy_now : (acquire (thread 7 10 replying) "chat" busy_world).1 ≡ false
unfolding acquire Instance.acquire get
busy_now = refl

-- What thread 7 leaves, and what the timer then makes of it.
abbrev queued_world : World
queued_world = (process (thread 7 10 replying) hello busy_world).0

abbrev fired_world : World
fired_world = tick (thread 1 12 replying) queued_world

-- The turn of thread 8 is over when the event is handled.
abbrev free_world : World
free_world = record empty_world { shared = fired_world.shared }

free_later : (acquire (thread 7 13 replying) "chat" free_world).1 ≡ true
unfolding acquire Instance.acquire get Instance.take_lock Instance.owned_elsewhere
free_later = refl

message_is_due : is_due 12 (rescheduled 10 0 none message_event) ≡ true
unfolding is_due busy_wake
message_is_due = refl

stands : get queued_world.shared.queue "wake-1" ≡ some (rescheduled 10 0 none message_event)
unfolding process acquire Instance.acquire get put Wake.enqueue busy_wake
stands = refl

queued_message_is_processed_example :
    (get queued_world.shared.queue "wake-1" ≡ some message_event)
    × Mem (fired message_event) fired_world.posted
    × ((handle_timer_fired (thread 7 13 replying) (fired message_event) free_world).calls
        ≡ [] ++ processed (resumed hello (rescheduled 10 0 (some (12 + 300)) message_event)) ∷ [])
queued_message_is_processed_example =
    queued_message_is_processed (thread 7 10 replying) (thread 1 12 replying) (thread 7 13 replying)
      hello busy_world queued_world free_world 10 0 none busy_now stands message_is_due refl refl
      free_later

-- The message is fired while the chat is still busy.
abbrev still_busy : World
still_busy = record busy_world {
  shared = record { queue = ("wake-1", message_event) ∷ []; dispatches = [] };
}

message_is_there : get still_busy.shared.queue "wake-1" ≡ some message_event
unfolding get
message_is_there = refl

refused_again : (acquire (thread 7 12 replying) message_event.chat_id still_busy).1 ≡ false
unfolding acquire Instance.acquire get busy_wake
refused_again = refl

two_seconds : seconds_of (retry_after (thread 7 12 replying) (some message_event)) ≡ some 2
unfolding retry_after busy_wake busy_payload get_field put_field sanitize_json_value
    sanitize_surrogates
two_seconds = refl

busy_event_is_kept_example :
    ((handle_timer_fired (thread 7 12 replying) (fired message_event) still_busy).calls ≡ [])
    × (get
          (handle_timer_fired (thread 7 12 replying) (fired message_event) still_busy).shared.queue
          "wake-1"
        ≡ some (record message_event {
          attempts = message_event.attempts + 1;
          scheduled_at = 12 + 2;
          leased_until = none;
        }))
busy_event_is_kept_example =
    busy_event_is_kept (thread 7 12 replying) (fired message_event) still_busy message_event 2
      message_is_there refused_again two_seconds

two_seconds_queued :
    seconds_of (retry_after (thread 7 12 failing) (get later_world.shared.queue "wake-1")) ≡ some 2
unfolding retry_after busy_wake busy_payload get_field put_field sanitize_json_value
    sanitize_surrogates get
two_seconds_queued = refl

-- The turn raises.
handle_timer_fired-IsSettled_example :
    IsSettled
      (thread 7 12 failing)
      2
      "wake-1"
      (handle_timer_fired (thread 7 12 failing) (fired message_event) later_world)
handle_timer_fired-IsSettled_example =
    handle_timer_fired-IsSettled (thread 7 12 failing) (fired message_event) later_world 2
      two_seconds_queued

abbrev requests : List (Env × Request)
requests =
    (thread 7 10 failing, processes hello)
    ∷ (thread 9 11 replying, wakes "chat" none (some "cron:digest") none)
    ∷ (thread 7 12 replying, continues "unknown" (str []))
    ∷ []

serve_all-IsKept_example : IsKept idle (serve_all requests empty_world).manager
serve_all-IsKept_example = serve_all-IsKept requests empty_world (refl, (refl, (refl, tt)))

abbrev lookup_task : Dispatch
lookup_task = record {
  id = "d1";
  chat_id = "chat";
  session_id = "session";
  status = DispatchStatus.pending;
  result = some "found";
  context = none;
  type = "dispatch";
  started_at = some 1;
  finished_at = none;
  summary = none;
  stop_reason = none;
  cancelled = false;
  partial = false;
  timed_out = false;
  full_result_path = none;
}

abbrev dispatch_event : WakeEvent
dispatch_event = record message_event {
  id = "wake-d1";
  reason = "dispatch";
  payload = field (codes "dispatch_id") (str (codes "d1")) end;
}

abbrev dispatch_world : World
dispatch_world = record empty_world {
  shared = record {
    queue = ("wake-d1", dispatch_event) ∷ [];
    dispatches = ("d1", lookup_task) ∷ [];
  };
}

event_is_there : get dispatch_world.shared.queue "wake-d1" ≡ some dispatch_event
unfolding get
event_is_there = refl

dispatch_is_open :
    continuable "dispatch" dispatch_event.payload dispatch_world.shared.dispatches
    ≡ some ("d1", lookup_task)
unfolding continuable named_dispatch get_field
dispatch_is_open = refl

dispatch_is_there : get dispatch_world.shared.dispatches "d1" ≡ some lookup_task
unfolding get
dispatch_is_there = refl

chat-IsFree : IsFree "chat" idle empty_world.os
unfolding get
chat-IsFree = record { unheld = refl; unlocked = refl; unwritten = refl }

same_chat : lookup_task.chat_id ≡ dispatch_event.chat_id
unfolding busy_wake
same_chat = refl

wake_releases_twice_example :
    let between =
      (continue_turn
        (thread 7 12 replying)
        "d1"
        (result_of dispatch_event.payload lookup_task)
        (acquire (thread 7 12 replying) "chat" dispatch_world).0).0 in
    let other = acquire (thread 9 12 replying) "chat" between in
    ((wake (thread 7 12 replying) "chat" (some "wake-d1") none none dispatch_world).0
      ≡ release "chat" between)
    × (other.1 ≡ true)
    × Holds 9 "chat" other.0.manager
    × (get (release "chat" other.0).manager.held "chat" ≡ none)
unfolding busy_wake
wake_releases_twice_example =
    wake_releases_twice (thread 7 12 replying) (thread 9 12 replying) "wake-d1" "d1" dispatch_world
      dispatch_event lookup_task event_is_there refl dispatch_is_open dispatch_is_there same_chat
      chat-IsFree refl
