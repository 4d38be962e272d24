-- ===== src/CronService/Spacing.antt =====
-- When the wake of a delivered turn is scheduled: `_deliver_turn` of runtime/cron_service.py.
use diploid_agent.Prelude.{
  ℕ, ◌+◌, ◌≤◌, ◌≡◌, refl, subst, List, [], ◌∷◌, arith, keep, All, All-map, ◌⊎◌, Bool-cases, inl,
  inr, max,
}
use diploid_agent.Plan.Models.{Task}
use diploid_agent.Cron.{CronJobState}
use diploid_agent.Wake
use diploid_agent.Wake.{WakeEvent, Queue}
use diploid_agent.CronService.State.{Clock, now_of}
use diploid_agent.CronService.Deliver.{
  Target, budget_events, wake_time, latest, collides, turn_wake,
}
use diploid_agent.CronService.Budget.{wake_of}

List-cases {ℓ} : {A : Type ℓ} (xs : List A) → (xs ≡ []) ⊎ ((x : A) × (ys : List A) × (xs ≡ x ∷ ys))
List-cases [] = inl refl
List-cases (x ∷ xs) = inr (x, xs, refl)

latest_lem :
    (now interval best : ℕ) (es : List WakeEvent)
    → let top = latest now interval best es in
      (best ≤ top) × All (λ e. e.scheduled_at ≤ top) (keep (collides now interval) es)
unfolding latest
latest_lem now interval best [] = (omega arith, tt)
latest_lem now interval best (e ∷ es) = elim (Bool-cases (collides now interval e)) [
  | inr f ↦ rw (f, latest) (latest_lem now interval best es)
  | inl t ↦
      let rest = latest_lem now interval (max best (max e.scheduled_at now)) es in
      rw (t, latest) (omega (arith, rest.0), (omega (arith, rest.0), rest.1))
]

wake_time_lem :
    (now interval : ℕ) (pending : List WakeEvent)
    → let at = wake_time now interval pending in
      (now ≤ at) × All (λ e. e.scheduled_at + interval ≤ at) (keep (collides now interval) pending)
unfolding wake_time
wake_time_lem now interval pending = elim (List-cases (keep (collides now interval) pending)) [
  | inl e ↦ rw (wake_time, e) (omega arith, tt)
  | inr (x, xs, e) ↦
      let top = latest_lem now interval now pending in
      rw (wake_time, e)
        (
          omega (arith, top.0),
          All-map _ _ (x ∷ xs) (λ y h. omega (arith, h))
              (subst (All (λ y. y.scheduled_at ≤ latest now interval now pending)) e top.1),
        )
]

-- The wake of a delivered turn is not scheduled before now, and at least the self-wake interval
-- behind every pending wake of the chat that shares the budget and falls in the interval from now.
pub wake_of_apart :
    (c : Clock) (r : Target) (state : CronJobState) (t : Task) (q : Queue)
    → let e = wake_of c r state t q in
      (now_of c ≤ e.scheduled_at)
      × All
          (λ p. p.scheduled_at + c.cfg.self_wake_min_interval ≤ e.scheduled_at)
          (keep (collides (now_of c) c.cfg.self_wake_min_interval) (budget_events r.chat_id q))
unfolding Wake.enqueue turn_wake
wake_of_apart c r state t q =
    wake_time_lem (now_of c) c.cfg.self_wake_min_interval (budget_events r.chat_id q)
