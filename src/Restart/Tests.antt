-- ===== src/Restart/Tests.antt =====
-- Runs of runtime/restart.py.
use diploid_agent.Prelude.{◌+◌, ◌≤◌, ◌≡◌, refl, true, false, none, some, List, [], ◌∷◌}
use diploid_agent.Restart.{
  Config, Restart, Step, agent_asks, drain_ends, manager_answers, watchdog_wakes, run, scheduled,
  on_service_restart, agent_restart_verdict,
}
use diploid_agent.Jsonl.{is_blank}
use diploid_agent.Restart.Drain.{gate_reopens}
use diploid_agent.Restart.Cooldown.{requests_apart}

abbrev config : Config
config = record {
  plugins = record { name = "authorship"; enabled = true; restart_enabled = some true } ∷ [];
  restart_allowed_units = [];
  own_unit = some "ada.service";
  fallback_chat_id = "chat";
  unit_exists = λ u. true;
  has_notify = true;
  has_incidents = true;
  has_wake_queue = true;
}

abbrev running : Restart
running = record {
  started = true;
  restart_draining = false;
  pending = none;
  last_service_restart_at = 0;
  cooldown_seconds = 60;
  drains = [];
  schedulers = [];
  watchdogs = [];
  effects = [];
}

-- The service manager takes the restart, but nothing happens.
abbrev lost_restart : List Step
lost_restart =
    agent_asks 100 "ada.service" "new model"
    ∷ drain_ends 0
    ∷ manager_answers 0 none
    ∷ watchdog_wakes 0
    ∷ []

no_drains : (run config lost_restart running).drains ≡ []
unfolding run agent_restart_verdict is_blank
no_drains = refl

no_schedulers : (run config lost_restart running).schedulers ≡ []
unfolding run agent_restart_verdict is_blank
no_schedulers = refl

no_watchdogs : (run config lost_restart running).watchdogs ≡ []
unfolding run agent_restart_verdict is_blank
no_watchdogs = refl

gate_reopens_example : (run config lost_restart running).restart_draining ≡ false
gate_reopens_example =
    gate_reopens config lost_restart running (refl, refl) no_drains no_schedulers no_watchdogs

accepted : (on_service_restart config 100 "ada.service" "new model" running).1 ≡ scheduled
unfolding on_service_restart agent_restart_verdict is_blank
accepted = refl

accepted_again :
    (on_service_restart config 160 "ada.service" "again"
      (on_service_restart config 100 "ada.service" "new model" running).0).1
    ≡ scheduled
unfolding on_service_restart agent_restart_verdict is_blank
accepted_again = refl

requests_apart_example : 100 + 60 ≤ 160
requests_apart_example =
    requests_apart config 100 160 "ada.service" "new model" "ada.service" "again" running accepted
      accepted_again
