-- ===== src/CronService/Fair.antt =====
-- The triggers of runtime/cron_service.py decide for a fire only when the cooldown has passed.
use diploid_agent.Prelude.{ℕ, ◌+◌, ◌≤◌, ◌≡◌, Bool, true, false, Option, none, some, arith}
use diploid_agent.Cron.{CronJobState}
use diploid_agent.CronService.Specs.{Spec, Trigger, TriggerType}
use diploid_agent.CronService.Jobs.{ResolvedJob, cooldown_of}
use diploid_agent.CronService.State.{Clock, now_of}
use diploid_agent.CronService.Triggers.{
  Decision, wait, note, fire, decide, decide_by, decide_file, decide_body, in_window,
}

-- The window of the last fire has passed.
abbrev pub IsOpen : ℕ → ℕ → CronJobState → Type 0
IsOpen cooldown now state = elim state.trigger_fired_at [
  | none ↦ Unit
  | some fired_at ↦ fired_at + cooldown ≤ now
]

-- A fire, and an edge that is owed, come when the window has passed.
abbrev pub Fair : ℕ → ℕ → CronJobState → Decision → Type 0
Fair cooldown now state wait = Unit
Fair cooldown now state (note state') =
    (state'.trigger_fired_at ≡ state.trigger_fired_at)
    × ((state'.queued_due ≡ true) → (state.queued_due ≡ false) → IsOpen cooldown now state)
Fair cooldown now state (fire state') =
    (state'.trigger_fired_at ≡ state.trigger_fired_at) × IsOpen cooldown now state

decide_file-Fair :
    (now cooldown : ℕ) (spec : Spec) (mtime : Option ℕ) (state : CronJobState)
    → Fair cooldown now state (decide_file now cooldown spec mtime state)
unfolding decide_file in_window
decide_file-Fair now cooldown spec none state = tt
decide_file-Fair now cooldown spec (some mtime) state = ground arith

decide_body-Fair :
    (now cooldown : ℕ) (spec : Spec) (met : Bool) (state : CronJobState)
    → Fair cooldown now state (decide_body now cooldown spec met state)
unfolding decide_body in_window
decide_body-Fair now cooldown spec met state = ground arith

decide_by-Fair :
    (c : Clock) (r : ResolvedJob) (t : Trigger) (kind : TriggerType) (state : CronJobState)
    → Fair (cooldown_of c.cfg t) (now_of c) state (decide_by c r t kind state)
unfolding decide_by
decide_by-Fair c r t TriggerType.file state = decide_file-Fair _ _ r.spec _ state
decide_by-Fair c r t TriggerType.body state = decide_body-Fair _ _ r.spec _ state

pub decide-Fair :
    (c : Clock) (r : ResolvedJob) (t : Trigger) (state : CronJobState)
    → Fair (cooldown_of c.cfg t) (now_of c) state (decide c r t state)
unfolding decide
decide-Fair c r t state = decide_by-Fair c r t t.type state
