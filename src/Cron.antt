-- ===== src/Cron.antt =====
-- CronStateStore of runtime/cron_state.py, on the dictionary that a transaction reads and writes
-- back (Jsonl has the file). The clock is an argument.
pub mod Jobs
mod Tests
use diploid_agent.Prelude.{
  ℕ, String, Bool, true, false, not, ◌&&◌, Option, none, some, List, [], ◌∷◌, if◌then◌else◌,
  is_none, contains,
}
use diploid_agent.Prelude.Dict.{Dict, get, put, pop, keys}

pub record CronJobState : Type 0 where
  pub job_id : String
  pub source_file : String
  pub last_run_at : Option ℕ
  pub next_due_at : Option ℕ
  pub last_status : Option String
  pub running_task_id : Option String
  pub running_plan_id : Option String
  pub consecutive_failures : ℕ
  pub disabled : Bool
  pub last_finished_at : Option ℕ
  pub last_summary : String
  pub last_task_id : Option String
  pub queued_due : Bool
  pub schedule_key : String
  pub fired_spec : String
  pub fired_chat_id : String
  pub turn_count : ℕ
  pub turn_date : String
  pub trigger_seen_mtime : Option ℕ
  pub trigger_fired_at : Option ℕ
  pub trigger_held : Bool
  pub updated_at : ℕ

abbrev pub Store : Type 0
Store = Dict CronJobState

abbrev pub new_state : (now : ℕ) → (job_id source_file : String) → CronJobState
new_state now job_id source_file = record {
  job_id = job_id;
  source_file = source_file;
  last_run_at = none;
  next_due_at = none;
  last_status = none;
  running_task_id = none;
  running_plan_id = none;
  consecutive_failures = 0;
  disabled = false;
  last_finished_at = none;
  last_summary = "";
  last_task_id = none;
  queued_due = false;
  schedule_key = "";
  fired_spec = "";
  fired_chat_id = "";
  turn_count = 0;
  turn_date = "";
  trigger_seen_mtime = none;
  trigger_fired_at = none;
  trigger_held = false;
  updated_at = now;
}

unfoldable pub update : (now : ℕ) → CronJobState → Store → Store × CronJobState
update now state s =
    let state' : CronJobState = record state { updated_at = now } in
    (put s state'.job_id state', state')

-- Two transactions: another process may write between them, so the second finds `later`.
unfoldable pub ensure :
    (now : ℕ) → (job_id source_file : String) → Store → (later : Store) → Store × CronJobState
unfolding update
ensure now job_id source_file s later = elim (get s job_id) [
  | none ↦ update now (new_state now job_id source_file) later
  | some state ↦ (later, state)
]

abbrev pub idle : Option CronJobState → Bool
idle none = false
idle (some state) = is_none state.running_task_id

-- `for job_id in list(self._in_memory)`: the ids as they were at the start.
unfoldable pub remove_each : List String → (job_ids : List String) → Store → Store
remove_each [] job_ids s = s
remove_each (k ∷ ks) job_ids s =
    remove_each ks job_ids (if not (contains job_ids k) && idle (get s k) then pop s k else s)

unfoldable pub remove_missing : (job_ids : List String) → Store → Store
unfolding remove_each
remove_missing job_ids s = remove_each (keys s) job_ids s

unfoldable pub drop : String → Store → Store
drop job_id s = pop s job_id
