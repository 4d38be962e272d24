-- ===== src/Ingress/Nested.antt =====
-- A wake that continues a dispatch holds its chat twice (runtime/ingress.py), and gives it back
-- twice.
use diploid_agent.Prelude.{
  false, ℕ, ◌≡◌, refl, sym, subst, ap, ◌∙◌, String, Bool, true, none, some, arith, nat_eq,
}
use diploid_agent.Prelude.Dict.{get, get-put_self, get-pop_self}
use diploid_agent.Json.{Json}
use diploid_agent.Instance
use diploid_agent.Instance.{
  Manager, Os, Holder, owned_elsewhere, write_lock, take_lock, start_heartbeat, Acquired,
}
use diploid_agent.Instance.Steps.{held-start_heartbeat}
use diploid_agent.Dispatch.{Dispatch}
use diploid_agent.Wake.{WakeEvent}
use diploid_agent.Ingress.{
  Outcome, raised, continue_ready, World, Env, acquire, release, call, continue_held, continue_turn,
}
use diploid_agent.Ingress.Waking.{continuable, result_of, wake_held, wake_known, named_or, wake}

-- Nobody holds the chat, and its lock file is empty.
pub record IsFree (k : String) (m : Manager) (os : Os) : Type 0 where
  pub unheld : get m.held k ≡ none
  pub unlocked : get os.locks k ≡ none
  pub unwritten : get os.files k ≡ none

free_takes :
    (p : String) (now tid : ℕ) (alive : ℕ → Bool) (k : String) (m : Manager) (os : Os)
    → IsFree k m os
    → Instance.acquire p now tid alive k m os ≡ take_lock p now tid k m os
unfolding Instance.acquire owned_elsewhere
free_takes p now tid alive k m os f =
    rw (Instance.acquire, f.unheld) (rw (f.unlocked) (rw (f.unwritten) refl))

pid-start_heartbeat : (m : Manager) → (start_heartbeat m).pid ≡ m.pid
unfolding start_heartbeat
pid-start_heartbeat m = ground arith

-- The thread `tid` of this process holds the chat.
abbrev pub Holds : ℕ → String → Manager → Type 0
Holds tid k m = get m.held k ≡ some (record { pid = m.pid; tid = tid })

take_lock-Holds :
    (p : String) (now tid : ℕ) (k : String) (m : Manager) (os : Os)
    → Holds tid k (take_lock p now tid k m os).manager
unfolding take_lock
take_lock-Holds p now tid k m os =
    ap (λ d. get d k) (held-start_heartbeat _)
    ∙ get-put_self m.held k _
    ∙ ap (λ pid. some (record { pid = pid; tid = tid })) (sym (pid-start_heartbeat _))

nat_eq_refl : (n : ℕ) → nat_eq n n ≡ true
nat_eq_refl n = ground arith

again_keeps :
    (p : String) (now tid : ℕ) (alive : ℕ → Bool) (k : String) (m : Manager) (os : Os)
    → Holds tid k m
    → Instance.acquire p now tid alive k m os
      ≡ record { manager = m; os = write_lock now k m os; result = true }
unfolding Instance.acquire
again_keeps p now tid alive k m os h =
    rw (Instance.acquire, h) (rw (nat_eq_refl m.pid) (rw (nat_eq_refl tid) refl))

release-IsFree :
    (tid : ℕ) (k : String) (m : Manager) (os : Os)
    → Holds tid k m
    → IsFree k (Instance.release k m os).0 (Instance.release k m os).1
unfolding Instance.release
release-IsFree tid k m os h = record {
  unheld = get-pop_self m.held k;
  unlocked = rw (Instance.release, h) (get-pop_self os.locks k);
  unwritten = rw (Instance.release, h) (get-pop_self os.files k);
}

continue_ready-IsFree :
    (env : Env) (id k : String) (result : Json) (w : World)
    → Holds env.tid k w.manager
    → let w' = (continue_ready env id result k (acquire env k w).0).0 in IsFree k w'.manager w'.os
unfolding continue_ready call acquire release
continue_ready-IsFree env id k result w h =
    rw (again_keeps env.process env.now env.tid env.pid_alive k w.manager w.os h)
      (release-IsFree env.tid k w.manager (write_lock env.now k w.manager w.os) h)

acquire_again :
    (env : Env) (k : String) (w : World) → Holds env.tid k w.manager → (acquire env k w).1 ≡ true
unfolding acquire
acquire_again env k w h =
    ap (λ (a : Acquired). a.result)
      (again_keeps env.process env.now env.tid env.pid_alive k w.manager w.os h)

-- continue_turn frees a chat that its thread held already.
continue_turn-IsFree :
    (env : Env) (id : String) (result : Json) (d : Dispatch) (w : World)
    → env.ready_error ≡ none
    → get w.shared.dispatches id ≡ some d
    → Holds env.tid d.chat_id w.manager
    → let w' = (continue_turn env id result w).0 in IsFree d.chat_id w'.manager w'.os
unfolding continue_turn continue_held
continue_turn-IsFree env id result d w fine found h =
    rw (continue_turn, found)
      (rw (acquire_again env d.chat_id w h, continue_held, fine)
        (continue_ready-IsFree env id d.chat_id result w h))

acquire_free :
    (env : Env) (k : String) (w : World)
    → IsFree k w.manager w.os
    → ((acquire env k w).1 ≡ true) × Holds env.tid k (acquire env k w).0.manager
unfolding acquire take_lock
acquire_free env k w f =
    let same = free_takes env.process env.now env.tid env.pid_alive k w.manager w.os f in
    (
      ap (λ (a : Acquired). a.result) same,
      ap (λ (a : Acquired). get a.manager.held k) same
          ∙ take_lock-Holds env.process env.now env.tid k w.manager w.os
          ∙ ap (λ (a : Acquired). some (record { pid = a.manager.pid; tid = env.tid })) (sym same),
    )

held_splits :
    (env : Env) (id : String) (silent : Bool) (w : World) (e : WakeEvent) (d : Dispatch)
    → continuable "dispatch" e.payload w.shared.dispatches ≡ some (id, d)
    → (wake_held env e.chat_id "dispatch" silent (some e) w).0
      ≡ release e.chat_id (continue_turn env id (result_of e.payload d) w).0
unfolding wake_held
held_splits env id silent w e d open_dispatch = rw (wake_held, open_dispatch) refl

-- A wake that continues a dispatch of its chat is over in two steps: continue_turn, and the
-- release of the chat.
wake_splits :
    (env : Env) (event_id id : String) (w : World) (e : WakeEvent) (d : Dispatch)
    → get w.shared.queue event_id ≡ some e
    → e.reason ≡ "dispatch"
    → continuable "dispatch" e.payload (acquire env e.chat_id w).0.shared.dispatches ≡ some (id, d)
    → (acquire env e.chat_id w).1 ≡ true
    → (wake env e.chat_id (some event_id) none none w).0
      ≡ release e.chat_id
          (continue_turn env id (result_of e.payload d) (acquire env e.chat_id w).0).0
unfolding wake wake_known
wake_splits env event_id id w e d found reason open_dispatch held =
    rw (wake, found)
      (rw (wake_known, held)
        (ap
            (λ r.
              (wake_held env e.chat_id (named_or (some r)) e.silent (some e)
                (acquire env e.chat_id w).0).0)
            reason
          ∙ held_splits env id e.silent (acquire env e.chat_id w).0 e d open_dispatch))

-- Where a wake continues a dispatch of its own chat, the lock is given back twice: once by
-- continue_turn, and once more by wake itself. Between the two, a thread of the same process can
-- acquire the chat, and the second release then takes the lock away from that thread while it
-- holds it. At the start, nobody holds the chat, the event, with the reason "dispatch", names a
-- dispatch that may be continued, and the write that makes its wake ready does not fail.
pub wake_releases_twice :
    (env env' : Env) (event_id id : String) (w : World) (e : WakeEvent) (d : Dispatch)
    → get w.shared.queue event_id ≡ some e
    → e.reason ≡ "dispatch"
    → continuable "dispatch" e.payload w.shared.dispatches ≡ some (id, d)
    → get w.shared.dispatches id ≡ some d
    → d.chat_id ≡ e.chat_id
    → IsFree e.chat_id w.manager w.os
    → env.ready_error ≡ none
    → let between = (continue_turn env id (result_of e.payload d) (acquire env e.chat_id w).0).0 in
      let other = acquire env' e.chat_id between in
      ((wake env e.chat_id (some event_id) none none w).0 ≡ release e.chat_id between)
      × (other.1 ≡ true)
      × Holds env'.tid e.chat_id other.0.manager
      × (get (release e.chat_id other.0).manager.held e.chat_id ≡ none)
unfolding release Instance.release acquire
wake_releases_twice env env' event_id id w e d found reason open_dispatch known same free fine =
    let (taken, holds) = acquire_free env e.chat_id w free in
    let held = (acquire env e.chat_id w).0 in
    let between = (continue_turn env id (result_of e.payload d) held).0 in
    let holds' : Holds env.tid d.chat_id held.manager =
      subst (λ k. Holds env.tid k held.manager) (sym same) holds in
    let free' : IsFree e.chat_id between.manager between.os =
      subst (λ k. IsFree k between.manager between.os) same
        (continue_turn-IsFree env id (result_of e.payload d) d held fine known holds') in
    let (again, other_holds) = acquire_free env' e.chat_id between free' in
    (
      wake_splits env event_id id w e d found reason open_dispatch taken,
      again,
      other_holds,
      get-pop_self (acquire env' e.chat_id between).0.manager.held e.chat_id,
    )

-- A thread that holds a chat keeps every other thread of the process out.
others_refused :
    (env : Env) (k : String) (tid : ℕ) (w : World)
    → Holds tid k w.manager
    → nat_eq tid env.tid ≡ false
    → (acquire env k w).1 ≡ false
unfolding acquire Instance.acquire
others_refused env k tid w h apart =
    rw (Instance.acquire, h) (rw (nat_eq_refl w.manager.pid) (rw apart refl))

calls_acquire : (env : Env) (k : String) (w : World) → (acquire env k w).0.calls ≡ w.calls
unfolding acquire
calls_acquire env k w = refl

left_locked :
    (env : Env) (id : String) (result : Json) (w : World) (d : Dispatch) (error : String)
    → env.ready_error ≡ some error
    → get w.shared.dispatches id ≡ some d
    → (acquire env d.chat_id w).1 ≡ true
    → continue_turn env id result w ≡ ((acquire env d.chat_id w).0, raised error)
unfolding continue_turn continue_held
left_locked env id result w d error e found taken =
    rw (continue_turn, found) (rw (taken, continue_held, e) refl)

-- An error of the write that makes a dispatch's wake ready leaves the chat locked: continue_turn
-- takes the lock before that write and gives it back only in the finally of a try that begins after
-- it. The error goes to the caller, the turn controller was not called, the thread still holds the
-- chat, and every other thread of the process is refused. At the start, nobody holds the chat of
-- the dispatch.
pub ready_error_keeps_lock :
    (env env' : Env) (id : String) (result : Json) (w : World) (d : Dispatch) (error : String)
    → env.ready_error ≡ some error
    → get w.shared.dispatches id ≡ some d
    → IsFree d.chat_id w.manager w.os
    → nat_eq env.tid env'.tid ≡ false
    → let r = continue_turn env id result w in
      (r.1 ≡ raised error)
      × (r.0.calls ≡ w.calls)
      × Holds env.tid d.chat_id r.0.manager
      × ((acquire env' d.chat_id r.0).1 ≡ false)
ready_error_keeps_lock env env' id result w d error e found free apart =
    let (taken, holds) = acquire_free env d.chat_id w free in
    let same = left_locked env id result w d error e found taken in
    (
      ap (λ (r : World × Outcome). r.1) same,
      ap (λ (r : World × Outcome). r.0.calls) same ∙ calls_acquire env d.chat_id w,
      subst (λ (r : World × Outcome). Holds env.tid d.chat_id r.0.manager) (sym same) holds,
      subst (λ (r : World × Outcome). (acquire env' d.chat_id r.0).1 ≡ false) (sym same)
          (others_refused env' d.chat_id env.tid (acquire env d.chat_id w).0 holds apart),
    )
