-- ===== src/Ingress/Timer.antt =====
-- TimerService._tick of runtime/timer_service.py and `_handle_timer_fired` of runtime/lifecycle.py.
use diploid_agent.Prelude.{
  ℕ, String, Bool, true, false, not, ◌&&◌, Option, none, some, List, [], ◌∷◌, ◌++◌, if◌then◌else◌,
  or_else, is_some, map, contains, nat_eq,
}
use diploid_agent.Prelude.Dict.{get}
use diploid_agent.Json.{
  Json, null, boolean, number, str, arr, obj, nil, cons, end, field, codes, get_field,
}
use diploid_agent.Wake
use diploid_agent.Wake.{WakeEvent, Queue}
use diploid_agent.Ingress.{ChatResult, Outcome, returned, raised, Fired, World, Env, set_queue}
use diploid_agent.Ingress.Waking.{wake, payload_of, says_something, busy_reply}

abbrev pub fired : WakeEvent → Fired
fired e = record { event_id = e.id; chat_id = e.chat_id; reason = e.reason; silent = e.silent }

-- One pass of the timer thread.
unfoldable pub tick : Env → World → World
tick env w =
    if env.timer_enabled
    then (let (q, due) = Wake.pop_due env.now env.lease_seconds w.shared.queue in
        record (set_queue q w) { posted = w.posted ++ map fired due })
    else w

abbrev pub retry_replies : List String
retry_replies =
    busy_reply ∷ "A turn is already in progress for this chat."
    ∷ "Another instance is currently handling this chat."
    ∷ "A turn is already in progress; continuation queued."
    ∷ "A session operation is in progress for this chat."
    ∷ "A turn or session operation is in progress for this chat." ∷ []

abbrev pub drop_replies : List String
drop_replies = "Unknown or already completed wake event." ∷ []

-- The payload's own retry time, or the one of the configuration.
unfoldable pub retry_after : Env → Option WakeEvent → Json
retry_after env e =
    or_else (get_field (payload_of e) (codes "retry_after")) (number env.timer_retry_after)

-- What Python adds to a time; on anything else it raises a TypeError.
abbrev pub seconds_of : Json → Option ℕ
seconds_of (number n) = some n
seconds_of (boolean b) = some (if b then 1 else 0)
seconds_of null = none
seconds_of (str s) = none
seconds_of (arr xs) = none
seconds_of (obj fs) = none

-- A TypeError, which the handler lets out at its second attempt, leaves the queue as it was.
unfoldable pub fail_wake : Env → (event_id : String) → (retry : Json) → World → World
fail_wake env event_id retry w = elim (seconds_of retry) [
  | none ↦ w
  | some n ↦ set_queue (Wake.fail env.now n event_id w.shared.queue).0 w
]

unfoldable pub complete_wake : (event_id : String) → World → World
complete_wake event_id w = set_queue (Wake.complete event_id w.shared.queue).0 w

abbrev pub is_truthy : Option Json → Bool
is_truthy none = false
is_truthy (some null) = false
is_truthy (some (boolean b)) = b
is_truthy (some (number n)) = not (nat_eq n 0)
is_truthy (some (str [])) = false
is_truthy (some (str (_ ∷ _))) = true
is_truthy (some (arr nil)) = false
is_truthy (some (arr (cons _ _))) = true
is_truthy (some (obj end)) = false
is_truthy (some (obj (field _ _ _))) = true

-- A turn that a cron job asked for is billed to the job.
unfoldable pub bill : Env → Option WakeEvent → World → World
bill env e w =
    let job = get_field (payload_of e) (codes "cron_job_id") in
    if env.has_cron_service && is_truthy job
    then record w { billed = w.billed ++ or_else job null ∷ [] }
    else w

unfoldable pub deliver : Env → (chat_id : String) → ChatResult → World → World
deliver env chat_id r w =
    if says_something r && env.outbox_delivery_enabled
    then record w { delivered = w.delivered ++ (chat_id, r) ∷ [] }
    else w

-- The event is retried, dropped, or done with, as the result of its wake says.
unfoldable pub settle : Env → Fired → Option WakeEvent → Outcome → World → World
unfolding fail_wake complete_wake bill deliver retry_after
settle env f e (raised error) w = fail_wake env f.event_id (retry_after env e) w
settle env f e (returned r) w =
    if is_some r.turn_number
    then complete_wake f.event_id (bill env e w)
    else if contains retry_replies r.reply
    then fail_wake env f.event_id (retry_after env e) w
    else if contains drop_replies r.reply
    then complete_wake f.event_id w
    else complete_wake f.event_id (deliver env f.chat_id r w)

unfoldable pub handle_timer_fired : Env → Fired → World → World
unfolding wake settle
handle_timer_fired env f w =
    let (w', outcome) = wake env f.chat_id (some f.event_id) (some f.reason) (some f.silent) w in
    settle env f (get w.shared.queue f.event_id) outcome w'
