-- ===== src/Cron/Tests.antt =====
-- Runs of runtime/cron_state.py.
use diploid_agent.Prelude.{◌≡◌, refl, none, some, [], ◌∷◌}
use diploid_agent.Prelude.Dict.{get, pop, keys}
use diploid_agent.Cron.{CronJobState, Store, new_state, remove_missing}

abbrev running_job : CronJobState
running_job =
    let s = new_state 1 "nightly" "cron.yaml" in record s { running_task_id = some "task-1" }

abbrev two_jobs : Store
two_jobs = ("nightly", running_job) ∷ ("hourly", new_state 1 "hourly" "cron.yaml") ∷ []

hourly_is_there : get two_jobs "hourly" ≡ some (new_state 1 "hourly" "cron.yaml")
unfolding get
hourly_is_there = refl

nightly_left : keys (remove_missing [] two_jobs) ≡ "nightly" ∷ []
unfolding remove_missing get pop
nightly_left = refl

not_there : get two_jobs "weekly" ≡ none
unfolding get
not_there = refl
