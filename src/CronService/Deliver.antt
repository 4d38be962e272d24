-- ===== src/CronService/Deliver.antt =====
-- `_deliver`, `_deliver_turn`, `_delivery_context` and `record_turn_delivery` of
-- runtime/cron_service.py.
use diploid_agent.Prelude.{
  ℕ, ◌+◌, ◌-◌, max, String, Bool, true, false, ◌||◌, ◌==◌, Option, none, some, List, [], ◌∷◌, ◌++◌,
  if◌then◌else◌, or_else, keep, count, length, leb, ltb, ◌^◌, starts_with,
}
use diploid_agent.Prelude.Dict.{get, values}
use diploid_agent.Json.{codes, field, end, str, boolean}
use diploid_agent.Plan.Models.{Task}
use diploid_agent.Wake
use diploid_agent.Wake.{WakeEvent, Queue}
use diploid_agent.Cron.{CronJobState, Store}
use diploid_agent.CronService.Specs.{Spec, Delivery, is_turn}
use diploid_agent.CronService.Jobs.{ResolvedJob}
use diploid_agent.CronService.State.{Service, Clock, now_of, save_state}

-- What _deliver reads of the view that _delivery_context builds.
pub record Target : Type 0 where
  pub spec : Spec
  pub chat_id : String

-- WAKE_BUDGET_REASON_PREFIXES and CRON_WAKE_REASON_PREFIX.
abbrev pub is_cron : WakeEvent → Bool
is_cron e = starts_with e.reason "cron:"

abbrev pub is_budgeted : WakeEvent → Bool
is_budgeted e = starts_with e.reason "self_wake" || is_cron e

unfoldable pub budget_events : (chat_id : String) → Queue → List WakeEvent
budget_events chat_id q = keep is_budgeted (Wake.pending (some chat_id) none q)

abbrev pub turns_of : (today : String) → CronJobState → ℕ
turns_of today s = if s.turn_date == today then s.turn_count else 0

abbrev pub sum_turns : (today : String) → List CronJobState → ℕ
sum_turns today [] = 0
sum_turns today (s ∷ ss) = turns_of today s + sum_turns today ss

unfoldable pub turns_today : (today : String) → Store → ℕ
turns_today today store = sum_turns today (values store)

-- `max(colliding)` with `now` below every entry: the latest fire inside the window.
unfoldable pub latest : (now interval : ℕ) → (best : ℕ) → List WakeEvent → ℕ
latest now interval best [] = best
latest now interval best (e ∷ es) =
    latest now interval
      (if ltb e.scheduled_at (now + interval) then max best (max e.scheduled_at now) else best) es

abbrev pub collides : (now interval : ℕ) → WakeEvent → Bool
collides now interval e = ltb e.scheduled_at (now + interval)

-- The time of the new wake: now, or an interval behind the latest colliding fire.
unfoldable pub wake_time : (now interval : ℕ) → List WakeEvent → ℕ
unfolding latest
wake_time now interval pending = elim (keep (collides now interval) pending) [
  | [] ↦ now
  | _ ∷ _ ↦ latest now interval now pending + interval
]

abbrev outcome_text : Delivery → String
outcome_text Delivery.silent = "silent"
outcome_text Delivery.digest = "digest"
outcome_text Delivery.turn = "turn"

abbrev result_text : Task → String
result_text t = elim t.result [ none ↦ t.log | some r ↦ if r == "" then t.log else r ]

unfoldable pub message : Clock → Spec → CronJobState → Task → String
message c spec state t =
    "[cron: "
    ^ spec.id
    ^ " finished — "
    ^ or_else state.last_status "None"
    ^ "]\n"
    ^ (if summary == "" then "(no summary)" else summary)
    ^ "\n\nA scheduled job delivered this result as a turn — respond with judgment."
  where
    summary : String
    summary = c.strip (result_text t)

unfoldable pub turn_wake : Clock → Target → CronJobState → Task → (scheduled_at : ℕ) → WakeEvent
unfolding message
turn_wake c r state t scheduled_at = record {
  id = "";
  chat_id = r.chat_id;
  reason = "cron:" ^ r.spec.id;
  priority = 1;
  scheduled_at = scheduled_at;
  payload = field (codes "user_message") (str (codes (message c r.spec state t))) (
      field (codes "agent_reason") (str (codes ("cron:" ^ r.spec.id))) (
        field (codes "notify") (boolean true)
          (field (codes "cron_job_id") (str (codes r.spec.id)) end)));
  silent = false;
  created_at = now_of c;
  ready = true;
  attempts = 0;
  leased_until = none;
}

-- The queue after the call, and the outcome.
unfoldable pub deliver_turn_to :
    Clock → Target → CronJobState → Task → Store → Queue → Queue × String
unfolding budget_events turns_today wake_time turn_wake
deliver_turn_to c r state t store q =
    let pending = budget_events r.chat_id q in
    let at = wake_time (now_of c) c.cfg.self_wake_min_interval pending in
    if leb c.cfg.turn_delivery_max_per_day (turns_today c.today store + count is_cron pending)
    then (q, "turn_suppressed: daily cap reached")
    else if leb c.cfg.self_wake_max_pending (length pending)
    then (q, "turn_suppressed: wake budget reached")
    else (
      (Wake.enqueue c.wake_id (turn_wake c r state t at) q).0,
      if ltb (now_of c) at then "turn_deferred: " ^ c.show (at - now_of c) ^ "s" else "turn",
    )

unfoldable pub deliver_turn : Clock → Target → CronJobState → Task → Service → Service × String
unfolding deliver_turn_to
deliver_turn c r state t s = elim s.wake_queue [
  | none ↦ (s, "turn_suppressed: no wake queue")
  | some q ↦
      let (q', outcome) = deliver_turn_to c r state t s.store q in
      (record s { wake_queue = some q' }, outcome)
]

-- A file error is logged and goes no further; the lines of the files are the list `delivered`.
unfoldable pub deliver : Clock → Target → CronJobState → Task → Service → Service
unfolding deliver_turn
deliver c r state t s =
    let (s', outcome) =
      if is_turn r.spec.delivery
      then deliver_turn c r state t s
      else (s, outcome_text r.spec.delivery) in
    record s' {
      delivered =
          s'.delivered
          ++ record {
            job_id = r.spec.id;
            chat_id = r.chat_id;
            task_id = t.id;
            status = state.last_status;
            outcome = outcome;
          }
            ∷ [];
    }

-- The spec that fired the run wins, and so does its chat.
unfoldable pub fired_spec_of : Clock → CronJobState → Option ResolvedJob → Option Spec
fired_spec_of c state resolved =
    elim (if state.fired_spec == "" then none else c.load_spec state.fired_spec) [
      | some spec ↦ some spec
      | none ↦ elim resolved [ none ↦ none | some r ↦ some r.spec ]
    ]

unfoldable pub fired_chat_of : CronJobState → Option ResolvedJob → String
fired_chat_of state resolved =
    if state.fired_chat_id == ""
    then elim resolved [ none ↦ "" | some r ↦ r.chat_id ]
    else state.fired_chat_id

unfoldable pub delivery_context : Clock → CronJobState → Option ResolvedJob → Option Target
unfolding fired_spec_of fired_chat_of
delivery_context c state resolved = elim (fired_spec_of c state resolved) [
  | none ↦ none
  | some spec ↦
      let chat_id = fired_chat_of state resolved in
      if chat_id == "" then none else some (record { spec = spec; chat_id = chat_id })
]

unfoldable pub record_turn_delivery : Clock → (job_id : String) → Service → Service
record_turn_delivery c job_id s = elim (get s.store job_id) [
  | none ↦ s
  | some state ↦
      save_state c (record state { turn_date = c.today; turn_count = turns_of c.today state + 1 }) s
]
