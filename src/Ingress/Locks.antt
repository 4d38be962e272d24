-- ===== src/Ingress/Locks.antt =====
-- The chat locks that the entry points of runtime/ingress.py take and give back.
use diploid_agent.Prelude.{
  ℕ, ◌≡◌, refl, ap, ◌∙◌, ◌⊎◌, All, inl, inr, String, Bool, true, false, ◌&&◌, ◌==◌, Option, none,
  some, List, [], ◌∷◌, Bool-cases, Option-cases, or_else, nat_eq,
}
use diploid_agent.Prelude.Dict.{get, get-put, get-pop}
use diploid_agent.Json.{Json}
use diploid_agent.Instance
use diploid_agent.Instance.{
  Manager, Os, Holder, owned_elsewhere, write_lock, take_lock, start_heartbeat,
}
use diploid_agent.Instance.Steps.{held-start_heartbeat}
use diploid_agent.Wake.{WakeEvent}
use diploid_agent.Ingress.{
  Outcome, returned, raised, Args, session_op, World, Env, acquire, release, call, turn, process,
  continue_held, continue_ready, continue_turn,
}
use diploid_agent.Ingress.Waking.{
  busy_reply, says_something, after_session_op, continuable, payload_of, result_of, wake_args,
  wake_held, wake_known, named_or, wake,
}

-- Each chat is held by the thread that held it before, or by none.
abbrev pub IsKept : Manager → Manager → Type 0
IsKept m m' = (c : String) → (get m'.held c ≡ none) ⊎ (get m'.held c ≡ get m.held c)

same-IsKept : (m m' : Manager) → m' ≡ m → IsKept m m'
same-IsKept m m' e c = inr (ap (λ (n : Manager). get n.held c) e)

trans-IsKept : (l m n : Manager) → IsKept l m → IsKept m n → IsKept l n
trans-IsKept l m n h k c = elim (k c) [
  | inl e ↦ inl e
  | inr e ↦ elim (h c) [ inl f ↦ inl (e ∙ f) | inr f ↦ inr (e ∙ f) ]
]

held-take_lock :
    (p : String) (now tid : ℕ) (k c : String) (m : Manager) (os : Os)
    → k == c ≡ false
    → get (take_lock p now tid k m os).manager.held c ≡ get m.held c
unfolding take_lock
held-take_lock p now tid k c m os apart =
    ap (λ d. get d c) (held-start_heartbeat _) ∙ get-put m.held k c _ ∙ rw apart refl

-- acquire changes what is held of its own chat at most.
acquire_others :
    (p : String) (now tid : ℕ) (alive : ℕ → Bool) (k c : String) (m : Manager) (os : Os)
    → k == c ≡ false
    → get (Instance.acquire p now tid alive k m os).manager.held c ≡ get m.held c
unfolding Instance.acquire
acquire_others p now tid alive k c m os apart = elim (Option-cases (get m.held k)) [
  | inr (h, e) ↦ elim (Bool-cases (nat_eq h.pid m.pid && nat_eq h.tid tid)) [
    | inl t ↦ rw (Instance.acquire, e) (rw t refl)
    | inr f ↦ rw (Instance.acquire, e) (rw f refl)
  ]
  | inl n ↦ elim (Option-cases (get os.locks k)) [
    | inr (o, e) ↦ rw (Instance.acquire, n) (rw e refl)
    | inl free ↦ elim (Bool-cases (owned_elsewhere now alive m (get os.files k))) [
      | inl t ↦ rw (Instance.acquire, n) (rw free (rw t refl))
      | inr f ↦ rw (Instance.acquire, n) (rw free (rw f (held-take_lock p now tid k c m os apart)))
    ]
  ]
]

-- What runs between acquire and release of a chat.
bracket-IsKept :
    (env : Env) (k : String) (w w2 : World)
    → IsKept (acquire env k w).0.manager w2.manager
    → IsKept w.manager (release k w2).manager
unfolding acquire release Instance.release
bracket-IsKept env k w w2 h c = elim (Bool-cases (k == c)) [
  | inl t ↦ inl (get-pop w2.manager.held k c ∙ rw t refl)
  | inr f ↦ elim (h c) [
    | inl e ↦ inl (get-pop w2.manager.held k c ∙ rw f e)
    | inr e ↦ inr (
        get-pop w2.manager.held k c
        ∙ rw f (e ∙ acquire_others env.process env.now env.tid env.pid_alive k c w.manager w.os f))
  ]
]

clash : {b : Bool} → b ≡ true → b ≡ false → ⊥
clash e f = cc

-- acquire that returns False changes nothing of the process.
refused_same :
    (p : String) (now tid : ℕ) (alive : ℕ → Bool) (k : String) (m : Manager) (os : Os)
    → (Instance.acquire p now tid alive k m os).result ≡ false
    → (Instance.acquire p now tid alive k m os).manager ≡ m
unfolding Instance.acquire take_lock
refused_same p now tid alive k m os h = elim (Option-cases (get m.held k)) [
  | inr (o, e) ↦ elim (Bool-cases (nat_eq o.pid m.pid && nat_eq o.tid tid)) [
    | inl t ↦ rw (Instance.acquire, e) (rw t refl)
    | inr f ↦ rw (Instance.acquire, e) (rw f refl)
  ]
  | inl n ↦ elim (Option-cases (get os.locks k)) [
    | inr (o, e) ↦ rw (Instance.acquire, n) (rw e refl)
    | inl free ↦ elim (Bool-cases (owned_elsewhere now alive m (get os.files k))) [
      | inl t ↦ rw (Instance.acquire, n) (rw free (rw t refl))
      | inr f ↦ absurd (clash (rw (Instance.acquire, n) (rw free (rw f refl))) h)
    ]
  ]
]

refused-IsKept :
    (env : Env) (k : String) (w : World)
    → (acquire env k w).1 ≡ false
    → IsKept w.manager (acquire env k w).0.manager
unfolding acquire
refused-IsKept env k w h =
    same-IsKept w.manager _
      (refused_same env.process env.now env.tid env.pid_alive k w.manager w.os h)

turn-IsKept :
    (env : Env) (args : Args) (w : World)
    → IsKept w.manager (turn env args (acquire env args.chat_id w).0).0.manager
unfolding turn call
turn-IsKept env args w =
    bracket-IsKept env args.chat_id w (acquire env args.chat_id w).0 (λ c. inr refl)

process-IsKept :
    (env : Env) (args : Args) (w : World) → IsKept w.manager (process env args w).0.manager
unfolding process
process-IsKept env args w = elim (Bool-cases (acquire env args.chat_id w).1) [
  | inl t ↦ rw (process, t) (turn-IsKept env args w)
  | inr f ↦ rw (process, f) (refused-IsKept env args.chat_id w f)
]

continue_held-IsKept :
    (env : Env) (id : String) (result : Json) (k : String) (w : World)
    → env.ready_error ≡ none
    → IsKept w.manager (continue_held env id result k (acquire env k w).0).0.manager
unfolding continue_held continue_ready call
continue_held-IsKept env id result k w fine =
    rw (continue_held, fine) (bracket-IsKept env k w (acquire env k w).0 (λ c. inr refl))

continue_turn-IsKept :
    (env : Env) (id : String) (result : Json) (w : World)
    → env.ready_error ≡ none
    → IsKept w.manager (continue_turn env id result w).0.manager
unfolding continue_turn
continue_turn-IsKept env id result w fine = elim (Option-cases (get w.shared.dispatches id)) [
  | inl n ↦ rw (continue_turn, n) (λ c. inr refl)
  | inr (d, found) ↦ elim (Bool-cases (acquire env d.chat_id w).1) [
    | inl t ↦ rw (continue_turn, found) (rw t (continue_held-IsKept env id result d.chat_id w fine))
    | inr f ↦ rw (continue_turn, found) (rw f (refused-IsKept env d.chat_id w f))
  ]
]

after_session_op_same :
    (chat_id : String) (outcome : Outcome) (w : World)
    → (after_session_op chat_id outcome w).0.manager ≡ w.manager
unfolding after_session_op
after_session_op_same chat_id (raised error) w = refl
after_session_op_same chat_id (returned r) w = elim (Bool-cases (r.reply == busy_reply)) [
  | inl t ↦ rw (after_session_op, t) refl
  | inr f ↦ elim (Bool-cases (says_something r)) [
    | inl t ↦ rw (after_session_op, f) (rw t refl)
    | inr g ↦ rw (after_session_op, f) (rw g refl)
  ]
]

wake_held-IsKept :
    (env : Env) (chat_id reason : String) (silent : Bool) (e : Option WakeEvent) (w : World)
    → env.ready_error ≡ none
    → IsKept w.manager (wake_held env chat_id reason silent e (acquire env chat_id w).0).0.manager
unfolding wake_held call turn wake_args
wake_held-IsKept env chat_id reason silent e w fine =
    let held = (acquire env chat_id w).0 in
    elim (Bool-cases (reason == "session_op")) [
      | inl t ↦
          let (w', outcome) = call env (session_op chat_id (payload_of e)) held in
          rw (wake_held, t)
            (bracket-IsKept env chat_id w (after_session_op chat_id outcome w').0
              (same-IsKept held.manager _ (after_session_op_same chat_id outcome w')))
      | inr f ↦ elim (Option-cases (continuable reason (payload_of e) held.shared.dispatches)) [
        | inl n ↦ rw (wake_held, f) (rw n (bracket-IsKept env chat_id w held (λ c. inr refl)))
        | inr ((id, d), found) ↦
            rw (wake_held, f)
              (rw found (
                bracket-IsKept env chat_id w
                  (continue_turn env id (result_of (payload_of e) d) held).0
                  (continue_turn-IsKept env id (result_of (payload_of e) d) held fine)))
      ]
    ]

wake_known-IsKept :
    (env : Env) (chat_id reason : String) (silent : Bool) (e : Option WakeEvent) (w : World)
    → env.ready_error ≡ none
    → IsKept w.manager (wake_known env chat_id reason silent e w).0.manager
unfolding wake_known
wake_known-IsKept env chat_id reason silent e w fine = elim (Bool-cases (acquire env chat_id w).1) [
  | inl t ↦ rw (wake_known, t) (wake_held-IsKept env chat_id reason silent e w fine)
  | inr f ↦ rw (wake_known, f) (refused-IsKept env chat_id w f)
]

wake-IsKept :
    (env : Env) (chat_id : String) (event_id reason : Option String) (silent : Option Bool)
    (w : World)
    → env.ready_error ≡ none
    → IsKept w.manager (wake env chat_id event_id reason silent w).0.manager
unfolding wake
wake-IsKept env chat_id none reason silent w fine =
    wake_known-IsKept env chat_id (named_or reason) (or_else silent false) none w fine
wake-IsKept env chat_id (some event_id) reason silent w fine =
    elim (Option-cases (get w.shared.queue event_id)) [
      | inl n ↦ rw (wake, n) (λ c. inr refl)
      | inr (e, found) ↦
          rw (wake, found)
            (wake_known-IsKept env e.chat_id (named_or (some e.reason)) (or_else silent e.silent)
              (some e) w fine)
    ]

-- A call of one of the entry points, by a thread at a time.
pub data Request : Type 0 where
  processes : Args → Request
  continues : (dispatch_id : String) → (result : Json) → Request
  wakes : (chat_id : String) → (event_id reason : Option String) → (silent : Option Bool) → Request

unfoldable pub serve : Env → Request → World → World × Outcome
unfolding process continue_turn wake
serve env (processes args) w = process env args w
serve env (continues dispatch_id result) w = continue_turn env dispatch_id result w
serve env (wakes chat_id event_id reason silent) w = wake env chat_id event_id reason silent w

unfoldable pub serve_all : List (Env × Request) → World → World
unfolding serve
serve_all [] w = w
serve_all ((env, r) ∷ rs) w = serve_all rs (serve env r w).0

-- Whatever the turns do - they return or raise, and change the queue and the dispatches as they
-- like - after any calls of process, continue_turn and wake, one after the other, each by any thread
-- and at any time, each chat is held by the thread that held it at the start, or by none, if no
-- write that makes a dispatch's wake ready fails.
pub serve_all-IsKept :
    (rs : List (Env × Request)) (w : World)
    → All (λ r. r.0.ready_error ≡ none) rs
    → IsKept w.manager (serve_all rs w).manager
unfolding serve_all serve
serve_all-IsKept [] w fine = λ c. inr refl
serve_all-IsKept ((env, r) ∷ rs) w (fine, more) =
    trans-IsKept w.manager (serve env r w).0.manager (serve_all rs (serve env r w).0).manager
      (one env r w fine) (serve_all-IsKept rs (serve env r w).0 more)
  where
    one :
        (env : Env) (r : Request) (w : World)
        → env.ready_error ≡ none
        → IsKept w.manager (serve env r w).0.manager
    one env (processes args) w fine = process-IsKept env args w
    one env (continues dispatch_id result) w fine =
        continue_turn-IsKept env dispatch_id result w fine
    one env (wakes chat_id event_id reason silent) w fine =
        wake-IsKept env chat_id event_id reason silent w fine
