-- ===== src/Watchdog/Tests.antt =====
-- Checks of acp_client/watchdog.py on a transport whose call is late.
use diploid_agent.Prelude.{ℕ, ◌≡◌, refl, ◌⊎◌, true, false, none, some, List, [], ◌∷◌, arith}
use diploid_agent.Watchdog.{
  Config, Client, Watchdog, Stall, inflight_deadline, waiting, answered, failed, stale_generation,
  cleared, abort, is_late, stall, is_silent, warn_silence, check, is_stale, still_stalled,
  take_down, unblock_inflight, kill, recover, stall_recovery, write,
}
use diploid_agent.Watchdog.Unblocked.{IsUnblocked}
use diploid_agent.Watchdog.Stalls.{
  OnlyLogged, StillThere, stall_recovery_spares, stall_recovery_unblocks,
}
use diploid_agent.Watchdog.Silence.{warnings, Spaced, warnings-Spaced}

abbrev config : Config
config = record { watchdog_timeout = 30; silence_warn_after = 600 }

abbrev watching : Watchdog
watching = record { running = true; last_silence_warn = 0 }

-- A prompt is under way, and its call was to end at 100.
abbrev prompting : Client
prompting = record {
  inflight_future = some waiting;
  inflight_deadline = 100;
  last_request_at = 5;
  last_stdout_at = 6;
  last_control_call_deadline = 0;
  active_prompts =
      record { session_id = "session"; cancelled = false; timed_out = false; cancel_done = false }
      ∷ [];
  pending = 4 ∷ [];
  futures = λ i. waiting;
  proc = some (record { ref = 1; returncode = none });
  generation = some 1;
  transport_healthy = true;
  initialized = true;
  loop_running = true;
  killed = [];
  restarts = 0;
  log = [];
}

-- Another thread has started a new child.
abbrev replaced : Client
replaced = record prompting {
  proc = some (record { ref = 2; returncode = none });
  generation = some 2;
}

abbrev late : Stall
late = record { trigger = inflight_deadline; proc = some 1; gen = some 1 }

found_late : (check config 101 watching prompting).found ≡ some late
unfolding check stall is_late
found_late = refl

-- The stall of the old child does nothing to the new one, and the old one is killed.
replacement_is_spared :
    stall_recovery config 102 late replaced ≡ write (stale_generation inflight_deadline) replaced
unfolding stall_recovery is_stale
replacement_is_spared = refl

old_one_is_killed : (stall_recovery config 102 late prompting).killed ≡ 1 ∷ []
unfolding stall_recovery is_stale still_stalled recover take_down unblock_inflight kill
old_one_is_killed = refl

stall_recovery_spares_example :
    OnlyLogged replaced (stall_recovery config 102 late replaced)
    ⊎ StillThere config 102 late prompting replaced
stall_recovery_spares_example =
    stall_recovery_spares config 101 102 watching prompting replaced late refl found_late

-- The call was answered after the check.
abbrev replied : Client
replied = record prompting { inflight_future = some answered }

answered_is_spared :
    stall_recovery config 102 late replied ≡ write (cleared inflight_deadline) replied
unfolding stall_recovery is_stale still_stalled
answered_is_spared = refl

-- The request's caller has an exception.
request_is_aborted : (stall_recovery config 102 late prompting).futures 4 ≡ failed
unfolding stall_recovery is_stale still_stalled recover take_down unblock_inflight kill abort
request_is_aborted = refl

stall_recovery_unblocks_example :
    (stall_recovery config 102 late prompting ≡ recover inflight_deadline prompting)
    × IsUnblocked prompting (stall_recovery config 102 late prompting)
stall_recovery_unblocks_example =
    stall_recovery_unblocks config 101 102 watching prompting late (omega arith) found_late

-- The prompt may take long, and says nothing at four checks.
abbrev patient : Client
patient = record prompting { inflight_deadline = 5000 }

abbrev silent_run : List (ℕ × Client)
silent_run = (500, patient) ∷ (700, patient) ∷ (900, patient) ∷ (1300, patient) ∷ []

silent_run_warns : warnings config watching silent_run ≡ 700 ∷ 1300 ∷ []
unfolding warnings check stall is_late warn_silence is_silent
silent_run_warns = refl

warnings-Spaced_example : Spaced 600 0 (warnings config watching silent_run)
warnings-Spaced_example = warnings-Spaced config watching silent_run
