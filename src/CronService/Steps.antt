-- ===== src/CronService/Steps.antt =====
-- The steps of runtime/cron_service.py that change the state of one job with a trigger: ticks, runs
-- that land with the fires that they owe, and manual runs.
use diploid_agent.Prelude.{
  ℕ, ◌≤◌, ◌≡◌, String, Bool, true, false, not, ◌&&◌, some, List, ◌∷◌, if◌then◌else◌, is_some,
}
use diploid_agent.Plan.Models.{Task}
use diploid_agent.Cron.{CronJobState}
use diploid_agent.CronService.Specs.{Trigger}
use diploid_agent.CronService.Jobs.{ResolvedJob, cooldown_of}
use diploid_agent.CronService.State.{Clock, now_of}
use diploid_agent.CronService.Materialize.{Mode, plain, fired, not_started}
use diploid_agent.CronService.Finalize.{closed_state}
use diploid_agent.CronService.Triggers.{Decision, wait, note, fire, decide}

-- What the plan and the task engine do with a run: the task is refused, it starts, or it does not.
pub data Launch : Type 0 where
  refused : Launch
  started : (plan_id task_id : String) → Launch
  broken : (plan_id task_id error : String) → Launch

-- The job with the times at which it fired, newest first, a manual run left out.
pub record World : Type 0 where
  pub now : ℕ
  pub state : CronJobState
  pub fires : List ℕ

abbrev pub launched : Clock → ResolvedJob → Mode → Launch → World → World
launched c r mode refused w = record w { now = now_of c }
launched c r mode (started plan_id task_id) w = record {
  now = now_of c;
  state = fired c r mode plan_id task_id w.state;
  fires = if mode.manual then w.fires else now_of c ∷ w.fires;
}
launched c r mode (broken plan_id task_id error) w = record {
  now = now_of c;
  state = not_started error (fired c r mode plan_id task_id w.state);
  fires = if mode.manual then w.fires else now_of c ∷ w.fires;
}

abbrev pub decided : Clock → ResolvedJob → Launch → Decision → World → World
decided c r l wait w = record w { now = now_of c }
decided c r l (note state) w = record w { now = now_of c; state = state }
decided c r l (fire state) w = launched c r plain l (record w { now = now_of c; state = state })

abbrev pub ticked : Clock → ResolvedJob → Trigger → Launch → World → World
ticked c r t l w = decided c r l (decide c r t w.state) w

-- A run lands: the state is closed, then an owed fire starts.
abbrev pub owed_fire : CronJobState → Bool
owed_fire state = state.queued_due && not state.disabled

abbrev pub refired : Clock → ResolvedJob → Launch → World → World
refired c r l w =
    if owed_fire w.state
    then launched c r plain l (record w { state = record w.state { queued_due = false } })
    else w

abbrev pub finished : Clock → ResolvedJob → Launch → Task → Bool → World → World
finished c r l ended ok w =
    refired c r l (record w { now = now_of c; state = closed_state c (some r) ended ok w.state })

abbrev pub run_by_hand : Clock → ResolvedJob → Launch → World → World
run_by_hand c r l w =
    if is_some w.state.running_task_id
    then record w { now = now_of c }
    else launched c r (record plain { manual = true }) l w

-- The calls that change the state of the job, each at a clock that does not run back.
pub data Step (r : ResolvedJob) (t : Trigger) (cooldown : ℕ) (w : World) (w' : World) : Type 0 where
  tick :
      (c : Clock) (l : Launch)
      → w.now ≤ now_of c
      → cooldown_of c.cfg t ≡ cooldown
      → w' ≡ ticked c r t l w
      → Step r t cooldown w w'
  land :
      (c : Clock) (l : Launch) (ended : Task) (ok : Bool)
      → w.now ≤ now_of c
      → w' ≡ finished c r l ended ok w
      → Step r t cooldown w w'
  manual :
      (c : Clock) (l : Launch)
      → w.now ≤ now_of c
      → w' ≡ run_by_hand c r l w
      → Step r t cooldown w w'

pub data Run (r : ResolvedJob) (t : Trigger) (cooldown : ℕ) (w : World) : World → Type 0 where
  here : Run r t cooldown w w
  next : {u v : World} → Run r t cooldown w u → Step r t cooldown u v → Run r t cooldown w v
