-- ===== src/Instance.antt =====
-- InstanceManager of runtime/instance.py: one lock file for each chat. `fcntl.flock` is the table
-- of the processes that hold a lock; a lock file that is missing, empty or no JSON has no entry.
-- `_held`, `_holder` and `_fds` change together and are one dictionary.
pub mod Steps
pub mod Exclusion
pub mod Heartbeat
mod Tests
use diploid_agent.Prelude.{
  ℕ, ◌-◌, String, Bool, true, false, not, ◌&&◌, ◌==◌, Option, none, some, List, [], ◌∷◌,
  if◌then◌else◌, leb, ltb, nat_eq,
}
use diploid_agent.Prelude.Dict.{Dict, get, put, pop, keys}

-- The JSON in a lock file.
pub record LockData : Type 0 where
  pub pid : ℕ
  pub instance_id : String
  pub heartbeat : ℕ

pub record Os : Type 0 where
  pub files : Dict LockData
  pub locks : Dict String

pub record Holder : Type 0 where
  pub pid : ℕ
  pub tid : ℕ

-- `alive` is the heartbeat thread, `stop` the event that it waits on.
pub record Manager : Type 0 where
  pub instance_id : String
  pub pid : ℕ
  pub ttl_seconds : ℕ
  pub held : Dict Holder
  pub alive : Bool
  pub stop : Bool

unfoldable pub write_lock : (now : ℕ) → String → Manager → Os → Os
write_lock now chat_id m os = record os {
  files =
      put os.files chat_id (record { pid = m.pid; instance_id = m.instance_id; heartbeat = now });
}

abbrev pub lock : (process : String) → String → Os → Os
lock process chat_id os = record os { locks = put os.locks chat_id process }

abbrev pub unlock : String → Os → Os
unlock chat_id os = record os { locks = pop os.locks chat_id }

unfoldable pub is_held : (now : ℕ) → (pid_alive : ℕ → Bool) → String → Manager → Os → Bool
is_held now pid_alive chat_id m os = elim (get os.files chat_id) [
  | none ↦ false
  | some found ↦ not (ltb m.ttl_seconds (now - found.heartbeat)) && pid_alive found.pid
]

unfoldable pub is_ours : String → Manager → Os → Bool
is_ours chat_id m os = elim (get os.files chat_id) [
  | none ↦ false
  | some found ↦ found.instance_id == m.instance_id
]

-- A different, live instance still owns the chat.
unfoldable pub owned_elsewhere :
    (now : ℕ) → (pid_alive : ℕ → Bool) → Manager → Option LockData → Bool
owned_elsewhere now pid_alive m none = false
owned_elsewhere now pid_alive m (some old) =
    not (nat_eq old.pid m.pid)
    && (not (old.instance_id == m.instance_id)
        && (pid_alive old.pid && leb (now - old.heartbeat) m.ttl_seconds))

-- A thread that still runs is left alone, and so is the event.
unfoldable pub start_heartbeat : Manager → Manager
start_heartbeat m = if m.alive then m else record m { alive = true; stop = false }

pub record Acquired : Type 0 where
  pub manager : Manager
  pub os : Os
  pub result : Bool

unfoldable pub take_lock : (process : String) → (now tid : ℕ) → String → Manager → Os → Acquired
unfolding write_lock start_heartbeat
take_lock process now tid chat_id m os = record {
  manager =
      start_heartbeat (record m { held = put m.held chat_id (record { pid = m.pid; tid = tid }) });
  os = write_lock now chat_id m (lock process chat_id os);
  result = true;
}

abbrev pub refused : Manager → Os → Acquired
refused m os = record { manager = m; os = os; result = false }

unfoldable pub acquire :
    (process : String) → (now tid : ℕ) → (pid_alive : ℕ → Bool) → String → Manager → Os → Acquired
unfolding write_lock owned_elsewhere take_lock
acquire process now tid pid_alive chat_id m os = elim (get m.held chat_id) [
  | some holder ↦
      if nat_eq holder.pid m.pid && nat_eq holder.tid tid
      then record { manager = m; os = write_lock now chat_id m os; result = true }
      else refused m os
  | none ↦ elim (get os.locks chat_id) [
    | some other ↦ refused m os
    | none ↦
        if owned_elsewhere now pid_alive m (get os.files chat_id)
        then refused m (unlock chat_id (lock process chat_id os))
        else take_lock process now tid chat_id m os
  ]
]

abbrev pub is_empty {ℓ} : {A : Type ℓ} → List A → Bool
is_empty [] = true
is_empty (_ ∷ _) = false

-- With a file descriptor: truncate the file, unlock and close.
unfoldable pub release : String → Manager → Os → Manager × Os
release chat_id m os = (
  let held = pop m.held chat_id in
      record m { held = held; stop = if is_empty held then true else m.stop },
  elim (get m.held chat_id) [
    | none ↦ os
    | some holder ↦ record { files = pop os.files chat_id; locks = pop os.locks chat_id }
  ],
)

unfoldable pub write_all : (now : ℕ) → List String → Manager → Os → Os
unfolding write_lock
write_all now [] m os = os
write_all now (chat_id ∷ chats) m os = write_all now chats m (write_lock now chat_id m os)

unfoldable pub heartbeat : (now : ℕ) → Manager → Os → Os
unfolding write_all
heartbeat now m os = write_all now (keys m.held) m os

-- The heartbeat thread looks at the event: it ends, or it beats and waits again.
unfoldable pub beat : (now : ℕ) → Manager → Os → Manager × Os
unfolding heartbeat
beat now m os =
    if not m.alive
    then (m, os)
    else if m.stop
    then (record m { alive = false }, os)
    else (m, heartbeat now m os)

-- The thread is told to end, waited for, and forgotten.
unfoldable pub stop_heartbeat : Manager → Manager
stop_heartbeat m = record m { alive = false; stop = true }
