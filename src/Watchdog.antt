-- ===== src/Watchdog.antt =====
-- PromptWatchdog of acp_client/watchdog.py: `check` judges the transport, and the recovery, which
-- may have to wait for a lock, looks at it again. The two are separate steps, so that anything
-- can happen between them. The transport is the record Client; a process is its number, since the
-- code compares processes by identity. The files of the lifecycle log and the metrics are the
-- list `log`.
pub mod Unblocked
pub mod Stalls
pub mod Silence
mod Tests
use diploid_agent.Prelude.{
  ℕ, ◌+◌, ◌-◌, String, Bool, true, false, not, ◌&&◌, ◌||◌, Option, none, some, List, [], ◌∷◌, ◌++◌,
  map, if◌then◌else◌, is_none, is_some, ltb, leb, nat_eq,
}

pub record Proc : Type 0 where
  pub ref : ℕ
  pub returncode : Option ℕ

-- A future waits, has its answer, or has an exception.
pub data Future : Type 0 where
  waiting answered failed : Future

pub record Prompt : Type 0 where
  pub session_id : String
  pub cancelled : Bool
  pub timed_out : Bool
  pub cancel_done : Bool

pub data Trigger : Type 0 where
  unknown proc_dead inflight_deadline control_deadline : Trigger

pub data Entry : Type 0 where
  prompt_silence : (silence : ℕ) → Entry
  stale_generation cleared restarted : Trigger → Entry

-- `pending` has the ids of the requests that the transport knows of; `futures` gives the future of
-- each request, which its caller keeps, whether or not the transport still knows of it. `killed` has
-- the processes that were killed, and `restarts` counts the recorded restart attempts.
pub record Client : Type 0 where
  pub inflight_future : Option Future
  pub inflight_deadline : ℕ
  pub last_request_at : ℕ
  pub last_stdout_at : ℕ
  pub last_control_call_deadline : ℕ
  pub active_prompts : List Prompt
  pub pending : List ℕ
  pub futures : ℕ → Future
  pub proc : Option Proc
  pub generation : Option ℕ
  pub transport_healthy : Bool
  pub initialized : Bool
  pub loop_running : Bool
  pub killed : List ℕ
  pub restarts : ℕ
  pub log : List Entry

pub record Config : Type 0 where
  pub watchdog_timeout : ℕ
  pub silence_warn_after : ℕ

pub record Watchdog : Type 0 where
  pub running : Bool
  pub last_silence_warn : ℕ

-- What a check saw when it found a stall: `proc` and `gen` are the snapshot of the transport's
-- identity.
pub record Stall : Type 0 where
  pub trigger : Trigger
  pub proc : Option ℕ
  pub gen : Option ℕ

abbrev pub is_empty {ℓ} : {A : Type ℓ} → List A → Bool
is_empty [] = true
is_empty (_ ∷ _) = false

abbrev pub is_done : Future → Bool
is_done waiting = false
is_done answered = true
is_done failed = true

abbrev pub is_idle : Option Future → Bool
is_idle none = true
is_idle (some f) = is_done f

abbrev pub is_dead : Option Proc → Bool
is_dead none = false
is_dead (some p) = is_some p.returncode

abbrev pub ref_of : Option Proc → Option ℕ
ref_of none = none
ref_of (some p) = some p.ref

-- A control call is late by its own deadline, where it has one, or by the timeout.
unfoldable pub is_late : Config → (now : ℕ) → Client → Bool
is_late cfg now c =
    if nat_eq c.last_control_call_deadline 0
    then ltb cfg.watchdog_timeout (now - c.last_request_at)
    else ltb c.last_control_call_deadline now

-- Only a control call is judged: a request with no prompt under way.
abbrev pub has_control_call : Client → Bool
has_control_call c = not (is_empty c.pending) && is_empty c.active_prompts

unfoldable pub stall : Config → (now : ℕ) → Client → Option Trigger
unfolding is_late
stall cfg now c =
    if is_dead c.proc
    then some proc_dead
    else if ltb c.inflight_deadline now
    then some inflight_deadline
    else if has_control_call c && is_late cfg now c
    then some control_deadline
    else none

-- The silence of a prompt is due for a warning.
unfoldable pub is_silent : Config → (now : ℕ) → Watchdog → Client → Bool
is_silent cfg now d c =
    not (is_empty c.active_prompts)
    && (ltb 0 cfg.silence_warn_after
        && (ltb 0 c.last_stdout_at
            && (leb cfg.silence_warn_after (now - c.last_stdout_at)
                && leb cfg.silence_warn_after (now - d.last_silence_warn))))

abbrev pub write : Entry → Client → Client
write e c = record c { log = c.log ++ e ∷ [] }

unfoldable pub warn_silence : Config → (now : ℕ) → Watchdog → Client → Watchdog × Client
unfolding is_silent
warn_silence cfg now d c =
    if is_silent cfg now d c
    then (record d { last_silence_warn = now }, write (prompt_silence (now - c.last_stdout_at)) c)
    else (d, c)

pub record Checked : Type 0 where
  pub watchdog : Watchdog
  pub client : Client
  pub found : Option Stall

-- `check`, up to the call of the recovery, which `found` asks for.
unfoldable pub check : Config → (now : ℕ) → Watchdog → Client → Checked
unfolding stall warn_silence
check cfg now d c =
    if not d.running || is_idle c.inflight_future
    then record { watchdog = d; client = c; found = none }
    else elim (stall cfg now c) [
      | some trigger ↦ record {
        watchdog = d;
        client = c;
        found = some (record { trigger = trigger; proc = ref_of c.proc; gen = c.generation });
      }
      | none ↦
          let (d', c') = warn_silence cfg now d c in
          record { watchdog = d'; client = c'; found = none }
    ]

abbrev pub same : Option ℕ → Option ℕ → Bool
same none none = true
same (some m) (some n) = nat_eq m n
same none (some n) = false
same (some m) none = false

-- The transport judged stalled was already replaced.
unfoldable pub is_stale : Stall → Client → Bool
is_stale s c =
    (is_some s.gen || is_some s.proc)
    && (not (same c.generation s.gen) || not (same (ref_of c.proc) s.proc))

-- `_still_stalled`; the observed process is the one of the client where it is asked.
unfoldable pub still_stalled : Config → (now : ℕ) → Trigger → Client → Bool
unfolding is_late
still_stalled cfg now unknown c = true
still_stalled cfg now proc_dead c = is_dead c.proc
still_stalled cfg now inflight_deadline c =
    not (is_idle c.inflight_future) && ltb c.inflight_deadline now
still_stalled cfg now control_deadline c = has_control_call c && is_late cfg now c

-- `if not future.done(): future.set_exception(...)`
abbrev pub fail : Future → Future
fail f = if is_done f then f else failed

-- for req_id, future in list(self._pending.items())
unfoldable pub abort : List ℕ → (ℕ → Future) → ℕ → Future
abort [] futures = futures
abort (i ∷ is) futures = abort is (λ j. if nat_eq j i then fail (futures j) else futures j)

abbrev pub interrupt : Prompt → Prompt
interrupt p = record p { cancelled = true; timed_out = true; cancel_done = true }

-- `_unblock_inflight` of the transport. The notifications that it schedules for the prompts are output.
unfoldable pub unblock_inflight : Client → Client
unfolding abort
unblock_inflight c = record c {
  inflight_future = elim c.inflight_future [ none ↦ none | some f ↦ some (fail f) ];
  futures = abort c.pending c.futures;
  pending = [];
  active_prompts = map interrupt c.active_prompts;
}

-- A process that has not exited yet is killed.
unfoldable pub kill : Option Proc → Client → Client
kill none c = c
kill (some p) c = if is_none p.returncode then record c { killed = c.killed ++ p.ref ∷ [] } else c

-- The transport is marked as down before the process is killed and the loop stopped.
unfoldable pub take_down : Trigger → Client → Client
unfolding unblock_inflight
take_down trigger c =
    let noted : Client = record (write (restarted trigger) c) { restarts = c.restarts + 1 } in
    record (unblock_inflight noted) { transport_healthy = false; initialized = false }

unfoldable pub recover : Trigger → Client → Client
unfolding take_down kill
recover trigger c =
    let down = kill c.proc (take_down trigger c) in record down { loop_running = false }

-- `_stall_recovery_inner`
unfoldable pub stall_recovery : Config → (now : ℕ) → Stall → Client → Client
unfolding is_stale still_stalled recover
stall_recovery cfg now s c =
    if is_stale s c
    then write (stale_generation s.trigger) c
    else if not (still_stalled cfg now s.trigger c)
    then write (cleared s.trigger) c
    else recover s.trigger c
