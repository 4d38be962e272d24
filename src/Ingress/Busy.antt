-- ===== src/Ingress/Busy.antt =====
-- A message that comes while its chat is busy (runtime/ingress.py), and the timer that brings it
-- back.
use mathlib.Core.List.{Mem, mem-cons_self, mem-cons_of_mem, mem-append_right}
use mathlib.Core.List.Perm
use diploid_agent.Prelude.{
  arith, ◌==◌, map, keep, Bool-cases, ℕ, ◌+◌, ◌≡◌, refl, ap, ◌∙◌, String, Bool, true, false, Option,
  none, some, List, [], ◌∷◌, ◌++◌, Option-cases, inl, inr, if◌then◌else◌, is_some, contains,
}
use diploid_agent.Prelude.Dict.{get, values, get-put_self}
use diploid_agent.Prelude.Sort.{sorted-perm}
use diploid_agent.Json.{
  Json, boolean, get_field, put_field, sanitize_surrogates, sanitize_json_value, sanitize_payload,
}
use diploid_agent.Wake
use diploid_agent.Wake.{WakeEvent, Queue, is_due, leased, lease_due}
use diploid_agent.Ingress.{
  reply_only, Outcome, returned, raised, Args, Call, processed, Fired, World, Env, acquire, release,
  call, turn, busy_payload, busy_wake, process,
}
use diploid_agent.Ingress.Waking.{
  busy_reply, continuable, wake_message, wake_args, wake_held, wake_known, wake,
}
use diploid_agent.Ingress.Timer.{
  fired, tick, retry_replies, drop_replies, retry_after, seconds_of, fail_wake, complete_wake, bill,
  deliver, settle, handle_timer_fired,
}

-- The event of a queued message.
abbrev pub queued : Env → Args → WakeEvent
queued env args = record (busy_wake env args) {
  id = env.wake_id;
  payload = sanitize_payload (busy_payload args);
}

-- The same event at another time, after more attempts, or under a lease.
abbrev pub rescheduled : (at attempts : ℕ) → (lease : Option ℕ) → WakeEvent → WakeEvent
rescheduled at attempts lease e = record e {
  scheduled_at = at;
  attempts = attempts;
  leased_until = lease;
}

-- The turn that the message gets from its event.
abbrev pub resumed : Args → WakeEvent → Args
resumed args e = record {
  chat_id = args.chat_id;
  user_message = sanitize_surrogates args.user_message;
  model = sanitize_json_value args.model;
  reply_to = sanitize_json_value args.reply_to;
  reply_to_is_bot = sanitize_json_value args.reply_to_is_bot;
  reply_to_message_id = sanitize_json_value args.reply_to_message_id;
  wake_event = some e;
  notify = boolean true;
}

module _ (env env' : Env) (args : Args) (at attempts : ℕ) (lease : Option ℕ) where
  abbrev event : WakeEvent
  event = rescheduled at attempts lease (queued env args)

  wake_args-queued :
      wake_args env' args.chat_id "user_request" false (some event) event.payload
      ≡ resumed args event
  unfolding wake_args wake_message busy_wake busy_payload get_field sanitize_json_value
      sanitize_surrogates put_field
  wake_args-queued = refl

  wake_known-queued :
      (w : World)
      → (acquire env' args.chat_id w).1 ≡ true
      → (wake_known env' args.chat_id "user_request" false (some event) w).0.calls
        ≡ w.calls ++ processed (resumed args event) ∷ []
  unfolding wake_known wake_held continuable turn call release acquire
  wake_known-queued w h =
      rw (wake_known, h) (ap (λ a. w.calls ++ processed a ∷ []) wake_args-queued)

process_queues :
    (env : Env) (args : Args) (w : World)
    → (acquire env args.chat_id w).1 ≡ false
    → get (process env args w).0.shared.queue env.wake_id ≡ some (queued env args)
unfolding process Wake.enqueue busy_wake acquire
process_queues env args w h = rw (process, h) (get-put_self w.shared.queue env.wake_id _)

if_calls :
    (b : Bool) (x y : World) (cs : List Call)
    → x.calls ≡ cs
    → y.calls ≡ cs
    → (if b then x else y).calls ≡ cs
if_calls true x y cs h k = h
if_calls false x y cs h k = k

fail_wake_calls :
    (env : Env) (event_id : String) (retry : Json) (w : World)
    → (fail_wake env event_id retry w).calls ≡ w.calls
unfolding fail_wake
fail_wake_calls env event_id retry w = elim (Option-cases (seconds_of retry)) [
  | inl n ↦ rw (fail_wake, n) refl
  | inr (s, e) ↦ rw (fail_wake, e) refl
]

-- The handler calls the controller through wake only.
settle_calls :
    (env : Env) (f : Fired) (e : Option WakeEvent) (outcome : Outcome) (w : World)
    → (settle env f e outcome w).calls ≡ w.calls
unfolding settle bill deliver complete_wake
settle_calls env f e (raised error) w = fail_wake_calls env f.event_id (retry_after env e) w
settle_calls env f e (returned r) w =
    if_calls (is_some r.turn_number) _ _ w.calls (if_calls _ _ w w.calls refl refl) (
      if_calls (contains retry_replies r.reply) _ _ w.calls
        (fail_wake_calls env f.event_id (retry_after env e) w)
        (if_calls (contains drop_replies r.reply) (complete_wake f.event_id w) _ w.calls refl
          (if_calls _ _ w w.calls refl refl)))

fail_wake_found :
    (env : Env) (event_id : String) (retry : Json) (n : ℕ) (e : WakeEvent) (w : World)
    → seconds_of retry ≡ some n
    → get w.shared.queue event_id ≡ some e
    → get (fail_wake env event_id retry w).shared.queue event_id
      ≡ some
          (record e { attempts = e.attempts + 1; scheduled_at = env.now + n; leased_until = none })
unfolding fail_wake Wake.fail
fail_wake_found env event_id retry n e w h found =
    rw (fail_wake, h) (rw (Wake.fail, found) (get-put_self w.shared.queue event_id _))

settle_busy :
    (env : Env) (f : Fired) (e : Option WakeEvent) (w : World)
    → settle env f e (returned (reply_only busy_reply)) w
      ≡ fail_wake env f.event_id (retry_after env e) w
unfolding settle
settle_busy env f e w = refl

wake-busy :
    (env : Env) (f : Fired) (w : World) (e : WakeEvent)
    → get w.shared.queue f.event_id ≡ some e
    → (acquire env e.chat_id w).1 ≡ false
    → wake env f.chat_id (some f.event_id) (some f.reason) (some f.silent) w
      ≡ ((acquire env e.chat_id w).0, returned (reply_only busy_reply))
unfolding wake wake_known
wake-busy env f w e found busy = rw (wake, found) (rw (wake_known, busy) refl)

handle-busy :
    (env : Env) (f : Fired) (w : World) (e : WakeEvent)
    → get w.shared.queue f.event_id ≡ some e
    → (acquire env e.chat_id w).1 ≡ false
    → handle_timer_fired env f w
      ≡ fail_wake env f.event_id (retry_after env (some e)) (acquire env e.chat_id w).0
unfolding handle_timer_fired
handle-busy env f w e found busy =
    ap (λ (r : World × Outcome). settle env f (get w.shared.queue f.event_id) r.1 r.0)
      (wake-busy env f w e found busy)
    ∙ settle_busy env f (get w.shared.queue f.event_id) (acquire env e.chat_id w).0
    ∙ ap (λ x. fail_wake env f.event_id (retry_after env x) (acquire env e.chat_id w).0) found

-- An event that is fired while its chat is busy stays in the queue, whatever its reason: it has
-- one attempt more, no lease, and is due after its retry time, a number; the controller is not
-- called.
pub busy_event_is_kept :
    (env : Env) (f : Fired) (w : World) (e : WakeEvent) (n : ℕ)
    → get w.shared.queue f.event_id ≡ some e
    → (acquire env e.chat_id w).1 ≡ false
    → seconds_of (retry_after env (some e)) ≡ some n
    → ((handle_timer_fired env f w).calls ≡ w.calls)
      × (get (handle_timer_fired env f w).shared.queue f.event_id
          ≡ some (record e {
            attempts = e.attempts + 1;
            scheduled_at = env.now + n;
            leased_until = none;
          }))
unfolding acquire
busy_event_is_kept env f w e n found busy number_given =
    let held = (acquire env e.chat_id w).0 in
    let same = handle-busy env f w e found busy in
    (
      ap (λ (v : World). v.calls) same
          ∙ fail_wake_calls env f.event_id (retry_after env (some e)) held,
      ap (λ (v : World). get v.shared.queue f.event_id) same
          ∙ fail_wake_found env f.event_id (retry_after env (some e)) n e held number_given found,
    )

get-lease_due :
    (now until : ℕ) (q : Queue) (k : String) (e : WakeEvent)
    → get q k ≡ some e
    → is_due now e ≡ true
    → get (lease_due now until q) k ≡ some (leased until e)
unfolding get lease_due
get-lease_due now until [] k e h due = cc
get-lease_due now until ((i, x) ∷ q) k e h due = elim (Bool-cases (i == k)) [
  | inl t ↦ let same : x ≡ e = ground arith in rw (t, same, due) refl
  | inr f ↦ rw f (get-lease_due now until q k e (ground arith) due)
]

fired_due :
    (now until : ℕ) (q : Queue) (k : String) (e : WakeEvent)
    → get q k ≡ some e
    → is_due now e ≡ true
    → Mem (fired e) (map fired (map (leased until) (keep (is_due now) (values q))))
unfolding get
fired_due now until [] k e h due = cc
fired_due now until ((i, x) ∷ q) k e h due = elim (Bool-cases (i == k)) [
  | inl t ↦ let same : x ≡ e = ground arith in rw (same, due) mem-cons_self
  | inr f ↦
      let later = fired_due now until q k e (ground arith) due in
      elim (Bool-cases (is_due now x)) [
        | inl d ↦ rw d (mem-cons_of_mem (fired x) later)
        | inr d ↦ rw d later
      ]
]

-- The timer posts an event that is due, and keeps it under a lease.
tick_posts :
    (env : Env) (w : World) (k : String) (e : WakeEvent)
    → env.timer_enabled ≡ true
    → get w.shared.queue k ≡ some e
    → is_due env.now e ≡ true
    → Mem (fired e) (tick env w).posted
      × (get (tick env w).shared.queue k ≡ some (leased (env.now + env.lease_seconds) e))
unfolding tick Wake.pop_due
tick_posts env w k e on h due =
    let q = w.shared.queue in
    let until = env.now + env.lease_seconds in
    let sorted_due =
      Perm.map fired
        (Perm.map (leased until) (sorted-perm Wake.before (keep (is_due env.now) (values q)))) in
    rw (tick, on)
      (
        mem-append_right w.posted
            (Perm.subset (Perm.symm sorted_due) (fired e) (fired_due env.now until q k e h due)),
        get-lease_due env.now until q k e h due,
      )

-- A message that finds its chat busy is not lost and not changed, but for scrubbing. First, it
-- stands in the queue as a wake. Second, from there, at whatever time, after whatever attempts and
-- leases, the timer posts it once it is due. Third, when that is handled while the lock can be had
-- and the wake, now under the timer's lease, has not been taken out of the queue, the controller
-- gets one call, for a turn with its text, model and reply fields, whatever the controller then
-- does.
pub queued_message_is_processed :
    (env env1 env2 : Env) (args : Args) (w w1 w2 : World) (at attempts : ℕ) (lease : Option ℕ)
    → (acquire env args.chat_id w).1 ≡ false
    → get w1.shared.queue env.wake_id ≡ some (rescheduled at attempts lease (queued env args))
    → is_due env1.now (rescheduled at attempts lease (queued env args)) ≡ true
    → env1.timer_enabled ≡ true
    → get w2.shared.queue env.wake_id ≡ get (tick env1 w1).shared.queue env.wake_id
    → (acquire env2 args.chat_id w2).1 ≡ true
    → let leased_event =
        rescheduled at attempts (some (env1.now + env1.lease_seconds)) (queued env args) in
      (get (process env args w).0.shared.queue env.wake_id ≡ some (queued env args))
      × Mem (fired (queued env args)) (tick env1 w1).posted
      × ((handle_timer_fired env2 (fired (queued env args)) w2).calls
          ≡ w2.calls ++ processed (resumed args leased_event) ∷ [])
unfolding handle_timer_fired wake busy_wake
queued_message_is_processed env env1 env2 args w w1 w2 at attempts lease busy there due on stands
      free =
    let e = rescheduled at attempts lease (queued env args) in
    let (posted, kept) = tick_posts env1 w1 env.wake_id e on there due in
    let found = stands ∙ kept in
    let f = fired (queued env args) in
    let (woken, outcome) =
      wake env2 args.chat_id (some env.wake_id) (some f.reason) (some false) w2 in
    (
      process_queues env args w busy,
      posted,
      settle_calls env2 f (get w2.shared.queue env.wake_id) outcome woken
          ∙ rw (wake, found)
              (wake_known-queued env env2 args at attempts (some (env1.now + env1.lease_seconds)) w2
                free),
    )
