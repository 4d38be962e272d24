-- ===== src/Ingress/Settled.antt =====
-- What `_handle_timer_fired` of runtime/lifecycle.py leaves of the event.
use diploid_agent.Prelude.{
  ℕ, ◌+◌, ◌≡◌, refl, ◌⊎◌, inl, inr, String, Option, none, some, is_some, contains, Bool-cases,
  Option-cases,
}
use diploid_agent.Prelude.Dict.{get, get-put_self, get-pop_self}
use diploid_agent.Json.{Json}
use diploid_agent.Wake
use diploid_agent.Wake.{WakeEvent}
use diploid_agent.Ingress.{Outcome, returned, raised, Fired, World, Env}
use diploid_agent.Ingress.Waking.{wake}
use diploid_agent.Ingress.Timer.{
  retry_replies, drop_replies, retry_after, seconds_of, fail_wake, complete_wake, bill, deliver,
  settle, handle_timer_fired,
}

-- The event is gone, or free again and due `n` after now.
abbrev pub IsSettled : Env → (n : ℕ) → (event_id : String) → World → Type 0
IsSettled env n event_id w =
    (get w.shared.queue event_id ≡ none)
    ⊎ (e : WakeEvent) × (get w.shared.queue event_id ≡ some e)
      × (e.leased_until ≡ none)
      × (e.scheduled_at ≡ env.now + n)

complete_wake-IsSettled :
    (env : Env) (n : ℕ) (event_id : String) (w : World)
    → IsSettled env n event_id (complete_wake event_id w)
unfolding complete_wake Wake.complete
complete_wake-IsSettled env n event_id w = inl (get-pop_self w.shared.queue event_id)

fail_wake-IsSettled :
    (env : Env) (n : ℕ) (retry : Json) (event_id : String) (w : World)
    → seconds_of retry ≡ some n
    → IsSettled env n event_id (fail_wake env event_id retry w)
unfolding fail_wake Wake.fail
fail_wake-IsSettled env n retry event_id w h = elim (Option-cases (get w.shared.queue event_id)) [
  | inl absent ↦ inl (rw (fail_wake, h) (rw (Wake.fail, absent) absent))
  | inr (e, found) ↦ inr (
    record e { attempts = e.attempts + 1; scheduled_at = env.now + n; leased_until = none },
    rw (fail_wake, h) (rw (Wake.fail, found) (get-put_self w.shared.queue event_id _)),
    refl,
    refl,
  )
]

settle-IsSettled :
    (env : Env) (f : Fired) (n : ℕ) (e : Option WakeEvent) (outcome : Outcome) (w' : World)
    → seconds_of (retry_after env e) ≡ some n
    → IsSettled env n f.event_id (settle env f e outcome w')
unfolding settle
settle-IsSettled env f n e (raised error) w' g =
    fail_wake-IsSettled env n (retry_after env e) f.event_id w' g
settle-IsSettled env f n e (returned r) w' g = elim (Bool-cases (is_some r.turn_number)) [
  | inl t ↦ rw (settle, t) (complete_wake-IsSettled env n f.event_id (bill env e w'))
  | inr f1 ↦ elim (Bool-cases (contains retry_replies r.reply)) [
    | inl t ↦ rw (settle, f1) (rw t (fail_wake-IsSettled env n (retry_after env e) f.event_id w' g))
    | inr f2 ↦ elim (Bool-cases (contains drop_replies r.reply)) [
      | inl t ↦ rw (settle, f1) (rw f2 (rw t (complete_wake-IsSettled env n f.event_id w')))
      | inr f3 ↦
          rw (settle, f1)
            (rw f2 (rw f3 (complete_wake-IsSettled env n f.event_id (deliver env f.chat_id r w'))))
    ]
  ]
]

-- However the turn goes - it runs, it raises, its chat is busy, it changes the queue itself - a
-- fired event is either gone from the queue when the handler returns, or it stands in it without
-- a lease and due after its retry time: no event is left behind under a lease. The retry time, of
-- the payload or of the configuration, is a number.
pub handle_timer_fired-IsSettled :
    (env : Env) (f : Fired) (w : World) (n : ℕ)
    → seconds_of (retry_after env (get w.shared.queue f.event_id)) ≡ some n
    → IsSettled env n f.event_id (handle_timer_fired env f w)
unfolding handle_timer_fired
handle_timer_fired-IsSettled env f w n h =
    let (w', outcome) = wake env f.chat_id (some f.event_id) (some f.reason) (some f.silent) w in
    settle-IsSettled env f n (get w.shared.queue f.event_id) outcome w' h
