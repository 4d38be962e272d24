-- ===== src/Restart.antt =====
-- RuntimeRestart of runtime/restart.py, with the flags of runtime/state.py. Its threads are the
-- jobs in three lists: those that drain, those that call the service manager, and the watchdogs.
-- `effects` are the calls that go out, oldest first. The wait for the active turns, the plugin
-- flush and the service manager itself are outside: a step says how they end.
pub mod Drain
pub mod Cooldown
mod Tests
use diploid_agent.Prelude.{
  ℕ, zero, suc, ◌+◌, ◌-◌, String, Bool, true, false, not, ◌&&◌, ◌||◌, ◌==◌, Option, none, some,
  List, [], ◌∷◌, ◌++◌, if◌then◌else◌, or_else, contains, ltb,
}
use diploid_agent.Prelude.Dict.{Dict, get, put}
use diploid_agent.Json.{codes}
use diploid_agent.Jsonl.{is_blank}

-- A plugin of the configuration: `restart_enabled` is what its settings say, if they are valid.
pub record Plugin : Type 0 where
  pub name : String
  pub enabled : Bool
  pub restart_enabled : Option Bool

-- `own_unit` is f"{persona}.service", when the persona has a name.
pub record Config : Type 0 where
  pub plugins : List Plugin
  pub restart_allowed_units : List String
  pub own_unit : Option String
  pub fallback_chat_id : String
  pub unit_exists : String → Bool
  pub has_notify : Bool
  pub has_incidents : Bool
  pub has_wake_queue : Bool

pub data Verdict : Type 0 where
  not_enabled no_reason not_allowed : Verdict

pub data Effect : Type 0 where
  cancel_auto_continue suppress_auto_continue : Effect
  gate_incident : (service : String) → Verdict → Effect
  requested_incident : (service reason : String) → Effect
  failed_incident : (service cause : String) → Option String → Effect
  scheduled_notice : (chat_id service reason : String) → Effect
  failed_notice : (chat_id service cause : String) → Effect

pub record Job : Type 0 where
  pub service : String
  pub chat_id : Option String
  pub reason : String

pub record Restart : Type 0 where
  pub started : Bool
  pub restart_draining : Bool
  pub pending : Option (Job × ℕ)
  pub last_service_restart_at : ℕ
  pub cooldown_seconds : ℕ
  pub drains : List Job
  pub schedulers : List Job
  pub watchdogs : List Job
  pub effects : List Effect

abbrev pub is_self_unit : Config → String → Bool
is_self_unit c service = is c.own_unit
  where
    is : Option String → Bool
    is none = false
    is (some own) = service == own

-- The first plugin with the name decides.
unfoldable pub restart_enabled : List Plugin → Bool
restart_enabled [] = false
restart_enabled (p ∷ ps) =
    if not (p.name == "authorship")
    then restart_enabled ps
    else if p.enabled
    then or_else p.restart_enabled false
    else false

abbrev pub allowed_units : Config → List String
allowed_units c = allowed c.restart_allowed_units c.own_unit
  where
    allowed : List String → Option String → List String
    allowed (u ∷ us) own = u ∷ us
    allowed [] none = []
    allowed [] (some own) = own ∷ []

unfoldable pub agent_restart_verdict : Config → (service reason : String) → Option Verdict
unfolding restart_enabled
agent_restart_verdict c service reason =
    if not (restart_enabled c.plugins)
    then some not_enabled
    else if is_blank (codes reason)
    then some no_reason
    else if not (contains (allowed_units c) service)
    then some not_allowed
    else none

abbrev pub emit : Bool → Effect → Restart → Restart
emit on e r = if on then record r { effects = r.effects ++ e ∷ [] } else r

-- The drain thread is started; the caller goes on.
unfoldable pub schedule_draining_restart : Config → (now : ℕ) → Job → Restart → Restart × Bool
schedule_draining_restart c now job r = if not (c.unit_exists job.service) then (r, false) else (
  record r { restart_draining = true; pending = some (job, now); drains = r.drains ++ job ∷ [] },
  true,
)

unfoldable pub notify_agent_restart : Config → (service reason : String) → Restart → Restart
notify_agent_restart c service reason r =
    emit (c.has_notify && not (c.fallback_chat_id == ""))
      (scheduled_notice c.fallback_chat_id service reason) r

pub data Status : Type 0 where
  scheduled cooldown no_such_unit : Status
  rejected : Verdict → Status

-- What comes between the cooldown check and the drain.
abbrev pub prepare : Config → (service reason : String) → Restart → Restart
prepare c service reason r =
    emit c.has_incidents (requested_incident service reason)
      (emit true suppress_auto_continue (emit c.has_wake_queue cancel_auto_continue r))

unfoldable pub on_service_restart :
    Config → (now : ℕ) → (service reason : String) → Restart → Restart × Status
unfolding schedule_draining_restart notify_agent_restart
on_service_restart c now service reason r = elim (agent_restart_verdict c service reason) [
  | some verdict ↦ (emit c.has_incidents (gate_incident service verdict) r, rejected verdict)
  | none ↦
      if ltb now (r.last_service_restart_at + r.cooldown_seconds)
      then (r, cooldown)
      else (let job : Job = record { service = service; chat_id = none; reason = reason } in
          let (r', ok) = schedule_draining_restart c now job (prepare c service reason r) in
          if not ok then (r', no_such_unit) else (
            notify_agent_restart c service reason (record r' { last_service_restart_at = now }),
            scheduled,
          ))
]

abbrev pub notice_chat : Config → Option String → String
notice_chat c none = c.fallback_chat_id
notice_chat c (some chat_id) = if chat_id == "" then c.fallback_chat_id else chat_id

unfoldable pub restart_failed : Config → Job → (cause : String) → Restart → Restart
restart_failed c job cause r =
    emit (c.has_notify && not (notice_chat c job.chat_id == ""))
      (failed_notice (notice_chat c job.chat_id) job.service cause)
      (emit c.has_incidents (failed_incident job.service cause job.chat_id)
        (record r { restart_draining = false; pending = none; last_service_restart_at = 0 }))

-- The drain thread ends: the scheduler's thread starts, and the watchdog for an own restart.
unfoldable pub drained : Config → Job → Restart → Restart
drained c job r = record r {
  schedulers = r.schedulers ++ job ∷ [];
  watchdogs = if is_self_unit c job.service then r.watchdogs ++ job ∷ [] else r.watchdogs;
}

-- What the service manager answers: an exit code of zero, or a failure with its text.
unfoldable pub answered : Config → Job → (failure : Option String) → Restart → Restart
unfolding restart_failed
answered c job (some cause) r = restart_failed c job cause r
answered c job none r =
    if not (is_self_unit c job.service)
    then record r { restart_draining = false; pending = none }
    else r

-- The watchdog's time is up and the process is still there.
unfoldable pub reap : Config → Job → Restart → Restart
unfolding restart_failed
reap c job r =
    if not r.started || not r.restart_draining
    then r
    else restart_failed c job "scheduled restart never fired" r

-- _record_restart_memory: the time of the last note by chat, and whether a note is retained now.
unfoldable pub record_restart_memory : (now : ℕ) → (chat_id : String) → Dict ℕ → Dict ℕ × Bool
record_restart_memory now chat_id written =
    if ltb now (or_else (get written chat_id) 0 + 60)
    then (written, false)
    else (put written chat_id now, true)

-- One thread of a list, and the others.
unfoldable pub pick : ℕ → List Job → Option (Job × List Job)
pick n [] = none
pick zero (j ∷ js) = some (j, js)
pick (suc n) (j ∷ js) = elim (pick n js) [ none ↦ none | some (k, ks) ↦ some (k, j ∷ ks) ]

pub data Step : Type 0 where
  agent_asks : (now : ℕ) → (service reason : String) → Step
  operator_asks : (now : ℕ) → Job → Step
  drain_ends : ℕ → Step
  manager_answers : ℕ → (failure : Option String) → Step
  watchdog_wakes : ℕ → Step

unfoldable pub happen : Config → Step → Restart → Restart
unfolding on_service_restart schedule_draining_restart drained answered reap pick
happen c (agent_asks now service reason) r = (on_service_restart c now service reason r).0
happen c (operator_asks now job) r = (schedule_draining_restart c now job r).0
happen c (drain_ends n) r = elim (pick n r.drains) [
  | none ↦ r
  | some (job, rest) ↦ drained c job (record r { drains = rest })
]
happen c (manager_answers n failure) r = elim (pick n r.schedulers) [
  | none ↦ r
  | some (job, rest) ↦ answered c job failure (record r { schedulers = rest })
]
happen c (watchdog_wakes n) r = elim (pick n r.watchdogs) [
  | none ↦ r
  | some (job, rest) ↦ reap c job (record r { watchdogs = rest })
]

unfoldable pub run : Config → List Step → Restart → Restart
unfolding happen
run c [] r = r
run c (s ∷ ss) r = run c ss (happen c s r)
