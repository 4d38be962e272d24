-- ===== src/CronService/Cooldown.antt =====
-- The cooldown of event-driven jobs, runtime/cron_service.py, through the steps of a job.
use diploid_agent.Prelude.{
  ℕ, ◌+◌, ◌≤◌, ◌≡◌, refl, sym, subst, ◌∙◌, Bool, true, false, Option, none, some, List, [], ◌∷◌,
  if◌then◌else◌, arith, is_some, Bool-cases, inl, inr,
}
use diploid_agent.Plan.Models.{Task}
use diploid_agent.Cron.{CronJobState}
use diploid_agent.CronService.Specs.{Trigger}
use diploid_agent.CronService.Jobs.{ResolvedJob}
use diploid_agent.CronService.State.{Clock, now_of}
use diploid_agent.CronService.Materialize.{Mode, plain, fired, not_started}
use diploid_agent.CronService.Finalize.{closed_state, landed, counted, adopted}
use diploid_agent.CronService.Triggers.{Decision, wait, note, fire, decide}
use diploid_agent.CronService.Steps.{
  Launch, refused, started, broken, World, launched, decided, owed_fire, refired, finished,
  run_by_hand, Step, tick, land, manual, Run, here, next,
}
use diploid_agent.CronService.Fair.{IsOpen, Fair, decide-Fair}

abbrev pub IsApart : ℕ → List ℕ → Type 0
IsApart cooldown [] = Unit
IsApart cooldown (x ∷ []) = Unit
IsApart cooldown (x ∷ y ∷ ts) = (y + cooldown ≤ x) × IsApart cooldown (y ∷ ts)

abbrev Anchored : CronJobState → List ℕ → Type 0
Anchored state [] = Unit
Anchored state (x ∷ ts) = state.trigger_fired_at ≡ some x

record IsValid (cooldown : ℕ) (w : World) : Type 0 where
  anchored : Anchored w.state w.fires
  apart : IsApart cooldown w.fires
  owes : (w.state.queued_due ≡ true) → IsOpen cooldown w.now w.state

closed_state_keeps :
    (c : Clock) (job : Option ResolvedJob) (ended : Task) (ok : Bool) (state : CronJobState)
    → let state' = closed_state c job ended ok state in
      (state'.trigger_fired_at ≡ state.trigger_fired_at)
      × ((state'.queued_due ≡ true) → state.queued_due ≡ true)
unfolding closed_state landed counted adopted
closed_state_keeps c none ended ok state = ground arith
closed_state_keeps c (some r) ended ok state = ground arith

IsOpen-later :
    (cooldown now later : ℕ) (state : CronJobState)
    → now ≤ later
    → IsOpen cooldown now state
    → IsOpen cooldown later state
IsOpen-later cooldown now later state n o = ground arith

-- A clock that goes on takes nothing away.
wait-IsValid :
    (cooldown now : ℕ) (w : World)
    → w.now ≤ now
    → IsValid cooldown w
    → IsValid cooldown (record w { now = now })
wait-IsValid cooldown now w n v = record {
  anchored = v.anchored;
  apart = v.apart;
  owes = λ q. IsOpen-later cooldown w.now now w.state n (v.owes q);
}

IsApart-cons :
    (cooldown now : ℕ) (state : CronJobState) (fires : List ℕ)
    → Anchored state fires
    → IsApart cooldown fires
    → IsOpen cooldown now state
    → IsApart cooldown (now ∷ fires)
IsApart-cons cooldown now state [] a p o = tt
IsApart-cons cooldown now state (x ∷ ts) a p o = (ground arith, p)

Anchored-same :
    (state state' : CronJobState) (fires : List ℕ)
    → state'.trigger_fired_at ≡ state.trigger_fired_at
    → Anchored state fires
    → Anchored state' fires
Anchored-same state state' [] e a = tt
Anchored-same state state' (x ∷ ts) e a = e ∙ a

-- A state after a fire: nothing is owed, and the window starts anew unless the run is manual.
placed-IsValid :
    (cooldown now : ℕ) (by_hand : Bool) (w : World) (state : CronJobState)
    → IsValid cooldown w
    → (by_hand ≡ false → IsOpen cooldown now w.state)
    → state.queued_due ≡ false
    → state.trigger_fired_at ≡ (if by_hand then w.state.trigger_fired_at else some now)
    → IsValid cooldown
        (record { now = now; state = state; fires = if by_hand then w.fires else now ∷ w.fires })
placed-IsValid cooldown now true w state v o q e = record {
  anchored = Anchored-same w.state state w.fires e v.anchored;
  apart = v.apart;
  owes = λ h. cc;
}
placed-IsValid cooldown now false w state v o q e = record {
  anchored = e;
  apart = IsApart-cons cooldown now w.state w.fires v.anchored v.apart (o refl);
  owes = λ h. cc;
}

-- A state that owes only what the old one owed, or what a passed window allows.
noted-IsValid :
    (cooldown now : ℕ) (w : World) (state : CronJobState)
    → w.now ≤ now
    → IsValid cooldown w
    → state.trigger_fired_at ≡ w.state.trigger_fired_at
    → (state.queued_due ≡ true → w.state.queued_due ≡ false → IsOpen cooldown now w.state)
    → IsValid cooldown (record w { now = now; state = state })
noted-IsValid cooldown now w state n v e o = record {
  anchored = Anchored-same w.state state w.fires e v.anchored;
  apart = v.apart;
  owes = λ h.
      let open_now : IsOpen cooldown now w.state = elim (Bool-cases w.state.queued_due) [
        | inl q ↦ IsOpen-later cooldown w.now now w.state n (v.owes q)
        | inr q ↦ o h q
      ] in
      rw e open_now;
}

module _ (r : ResolvedJob) (cooldown : ℕ) (triggered : is_some r.spec.trigger ≡ true) where
  launched-IsValid :
      (c : Clock) (mode : Mode) (l : Launch) (w : World)
      → w.now ≤ now_of c
      → IsValid cooldown w
      → (mode.manual ≡ false → IsOpen cooldown (now_of c) w.state)
      → IsValid cooldown (launched c r mode l w)
  unfolding fired
  launched-IsValid c mode refused w n v o = wait-IsValid cooldown (now_of c) w n v
  launched-IsValid c mode (started plan_id task_id) w n v o =
      placed-IsValid cooldown (now_of c) mode.manual w (fired c r mode plan_id task_id w.state) v o
        refl (ground (arith, triggered))
  launched-IsValid c mode (broken plan_id task_id error) w n v o =
      placed-IsValid cooldown (now_of c) mode.manual w
        (not_started error (fired c r mode plan_id task_id w.state)) v o refl
        (ground (arith, triggered))

  decided-IsValid :
      (c : Clock) (l : Launch) (d : Decision) (w : World)
      → w.now ≤ now_of c
      → IsValid cooldown w
      → Fair cooldown (now_of c) w.state d
      → IsValid cooldown (decided c r l d w)
  decided-IsValid c l wait w n v f = wait-IsValid cooldown (now_of c) w n v
  decided-IsValid c l (note state) w n v f = noted-IsValid cooldown (now_of c) w state n v f.0 f.1
  decided-IsValid c l (fire state) w n v f =
      launched-IsValid c plain l (record w { now = now_of c; state = state }) (omega arith)
        (noted-IsValid cooldown (now_of c) w state n v f.0 (λ q p. f.1)) (λ m. rw f.0 f.1)

  refired-IsValid :
      (c : Clock) (l : Launch) (w : World)
      → w.now ≡ now_of c
      → IsValid cooldown w
      → IsValid cooldown (refired c r l w)
  refired-IsValid c l w n v = elim (Bool-cases (owed_fire w.state)) [
    | inr f ↦ rw f v
    | inl t ↦
        let owes : w.state.queued_due ≡ true = ground arith in
        let cleared : CronJobState = record w.state { queued_due = false } in
        let open_now : IsOpen cooldown (now_of c) w.state = rw (← n) (v.owes owes) in
        let w' : World = record w { state = cleared } in
        rw t (
          launched-IsValid c plain l w' (omega (arith, n))
            (noted-IsValid cooldown w.now w cleared (omega arith) v refl (λ q p. cc))
            (λ m. open_now))
  ]

  finished-IsValid :
      (c : Clock) (l : Launch) (ended : Task) (ok : Bool) (w : World)
      → w.now ≤ now_of c
      → IsValid cooldown w
      → IsValid cooldown (finished c r l ended ok w)
  finished-IsValid c l ended ok w n v =
      let kept = closed_state_keeps c (some r) ended ok w.state in
      refired-IsValid c l
        (record w { now = now_of c; state = closed_state c (some r) ended ok w.state }) refl
        (noted-IsValid cooldown (now_of c) w (closed_state c (some r) ended ok w.state) n v kept.0
          (λ q p. let owed : w.state.queued_due ≡ true = kept.1 q in cc))

  by_hand-IsValid :
      (c : Clock) (l : Launch) (w : World)
      → w.now ≤ now_of c
      → IsValid cooldown w
      → IsValid cooldown (run_by_hand c r l w)
  by_hand-IsValid c l w n v = elim (Bool-cases (is_some w.state.running_task_id)) [
    | inl t ↦ rw t (wait-IsValid cooldown (now_of c) w n v)
    | inr f ↦ rw f (launched-IsValid c (record plain { manual = true }) l w n v (λ m. cc))
  ]

  Step-IsValid :
      {t : Trigger} {w w' : World}
      → Step r t cooldown w w'
      → IsValid cooldown w
      → IsValid cooldown w'
  Step-IsValid {t} {w} {w'} (tick c l n e s) v = subst (IsValid cooldown) (sym s) (
      decided-IsValid c l (decide c r t w.state) w n v (
        subst (λ k. Fair k (now_of c) w.state (decide c r t w.state)) e
          (decide-Fair c r t w.state)))
  Step-IsValid {t} {w} {w'} (land c l ended ok n s) v =
      subst (IsValid cooldown) (sym s) (finished-IsValid c l ended ok w n v)
  Step-IsValid {t} {w} {w'} (manual c l n s) v =
      subst (IsValid cooldown) (sym s) (by_hand-IsValid c l w n v)

  Run-IsValid :
      {t : Trigger} {w w' : World}
      → IsValid cooldown w
      → Run r t cooldown w w'
      → IsValid cooldown w'
  Run-IsValid v here = v
  Run-IsValid v (next run step) = Step-IsValid step (Run-IsValid v run)

-- A job with a trigger that starts with no fire owed: in every sequence of ticks, runs that land
-- with the fires that they owe, and manual runs, whose clock does not run back and whose cooldown
-- stays the same, two of its fires that are not manual are at least the cooldown apart.
pub fires-IsApart :
    (r : ResolvedJob) (t : Trigger) (cooldown : ℕ) (w w' : World)
    → r.spec.trigger ≡ some t
    → w.fires ≡ []
    → w.state.queued_due ≡ false
    → Run r t cooldown w w'
    → IsApart cooldown w'.fires
fires-IsApart r t cooldown w w' triggered none_yet nothing_owed run =
    (Run-IsValid r cooldown (rw triggered refl) {t = t} start run).apart
  where
    start : IsValid cooldown w
    start = record { anchored = rw none_yet tt; apart = rw none_yet tt; owes = λ q. cc }
