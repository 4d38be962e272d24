-- ===== src/Instance/Heartbeat.antt =====
-- What the heartbeat thread of runtime/instance.py does for the chats that are held.
use diploid_agent.Prelude.{
  ℕ, ◌+◌, ◌≤◌, ◌≡◌, refl, ap, ◌∙◌, String, Bool, true, false, some, List, [], ◌∷◌, if◌then◌else◌,
  arith, eq_refl, contains,
}
use diploid_agent.Prelude.Dict.{get, pop, keys, get-put, get-some-contains}
use diploid_agent.Instance.{
  Manager, Os, Holder, LockData, acquire, take_lock, release, write_lock, write_all, heartbeat,
  beat, start_heartbeat, is_held,
}

abbrev stamp : ℕ → Manager → LockData
stamp now m = record { pid = m.pid; instance_id = m.instance_id; heartbeat = now }

files-write_all :
    (now : ℕ) (cs : List String) (m : Manager) (os : Os) (c : String)
    → get (write_all now cs m os).files c
      ≡ (if contains cs c then some (stamp now m) else get os.files c)
unfolding write_all write_lock
files-write_all now [] m os c = refl
files-write_all now (d ∷ cs) m os c =
    files-write_all now cs m (write_lock now d m os) c
    ∙ ground (arith, get-put os.files d c (stamp now m))

beat_running :
    (now : ℕ) (m : Manager) (os : Os)
    → m.alive ≡ true
    → m.stop ≡ false
    → beat now m os ≡ (m, heartbeat now m os)
unfolding beat
beat_running now m os a s = ground (arith, a, s)

-- A beat of the running thread makes every chat that is held count as held, for any manager that
-- looks at its file within the time to live, as long as the process lives.
pub beat-is_held :
    (now later : ℕ) (pid_alive : ℕ → Bool) (m other : Manager) (os : Os) (c : String) (h : Holder)
    → m.alive ≡ true
    → m.stop ≡ false
    → get m.held c ≡ some h
    → pid_alive m.pid ≡ true
    → later ≤ now + other.ttl_seconds
    → is_held later pid_alive c other (beat now m os).1 ≡ true
unfolding is_held heartbeat
beat-is_held now later pid_alive m other os c h a s held lives soon =
    let written : get (beat now m os).1.files c ≡ some (stamp now m) =
      ap (λ (r : Manager × Os). get r.1.files c) (beat_running now m os a s)
      ∙ files-write_all now (keys m.held) m os c
      ∙ rw (get-some-contains m.held c h held) refl in
    rw (is_held, written) (ground (arith, lives, soon))

-- With the thread alive, acquire leaves the thread and its stop event as they are.
flags-acquire :
    (p : String) (now tid : ℕ) (lives : ℕ → Bool) (c : String) (m : Manager) (os : Os)
    → m.alive ≡ true
    → ((acquire p now tid lives c m os).manager.alive ≡ true)
      × ((acquire p now tid lives c m os).manager.stop ≡ m.stop)
unfolding acquire take_lock start_heartbeat
flags-acquire p now tid lives c m os a = ground (arith, a)

stop-release :
    (c : String) (m : Manager) (os : Os) (h : Holder)
    → m.held ≡ (c, h) ∷ []
    → ((release c m os).0.stop ≡ true) × ((release c m os).0.alive ≡ m.alive)
unfolding release pop
stop-release c m os h one = (rw (one, eq_refl c) refl, refl)

beat_stopped :
    (now : ℕ) (m : Manager) (os : Os)
    → m.alive ≡ true
    → m.stop ≡ true
    → ((beat now m os).0.alive ≡ false) × ((beat now m os).1 ≡ os)
unfolding beat
beat_stopped now m os a s = ground (arith, a, s)

-- When the only chat is released and another is acquired before the heartbeat thread has looked at
-- its stop event, the thread still ends: its next round writes no heartbeat, and no thread is left.
pub silent_after_release :
    (p : String) (now later tid : ℕ) (lives : ℕ → Bool) (c d : String) (m : Manager) (os : Os)
    (h : Holder)
    → m.alive ≡ true
    → m.held ≡ (c, h) ∷ []
    → let (m', os') = release c m os in
      let r = acquire p now tid lives d m' os' in
      ((beat later r.manager r.os).0.alive ≡ false) × ((beat later r.manager r.os).1 ≡ r.os)
silent_after_release p now later tid lives c d m os h a one =
    let (m', os') = release c m os in
    let r = acquire p now tid lives d m' os' in
    let (stopped, alive) = stop-release c m os h one in
    let (alive', same) = flags-acquire p now tid lives d m' os' (alive ∙ a) in
    beat_stopped later r.manager r.os alive' (same ∙ stopped)
