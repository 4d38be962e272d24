-- ===== src/Instance/Exclusion.antt =====
-- No chat is held by two processes: acquire and release of runtime/instance.py, interleaved.
use diploid_agent.Prelude.{
  ℕ, ◌≡◌, ◌⊎◌, refl, sym, ap, ◌∙◌, subst, String, Bool, true, false, ◌&&◌, ◌==◌, none, some, List,
  [], ◌∷◌, if◌then◌else◌, arith, Bool-cases, Option-cases, inl, inr, eq_iff, eq_refl, nat_eq,
}
use diploid_agent.Prelude.Dict.{Dict, get, put, pop, get-put, get-pop}
use diploid_agent.Instance.{
  stop_heartbeat, Manager, Os, Holder, Acquired, acquire, take_lock, owned_elsewhere, release,
  write_lock, beat, stop_heartbeat,
}
use diploid_agent.Instance.Steps.{
  Owns, Step, held-start_heartbeat, acquire-Step, release-Step, beat-Step,
}

-- The processes, by name, and the operating system that they share.
pub record System : Type 0 where
  pub managers : Dict Manager
  pub os : Os

pub data Event : Type 0 where
  acquires : (process : String) → (now tid : ℕ) → (ℕ → Bool) → (chat_id : String) → Event
  releases : (process chat_id : String) → Event
  beats : (process : String) → (now : ℕ) → Event
  stops : (process : String) → Event
  dies : (process : String) → Event

-- The system frees the locks of a process that ends.
unfoldable pub without : String → Dict String → Dict String
without p [] = []
without p ((c, q) ∷ ls) = if q == p then without p ls else (c, q) ∷ without p ls

abbrev pub place : String → Manager → Os → System → System
place p m os s = record { managers = put s.managers p m; os = os }

unfoldable pub happen : Event → System → System
unfolding acquire release beat stop_heartbeat without
happen (acquires p now tid alive c) s = elim (get s.managers p) [
  | none ↦ s
  | some m ↦ let r = acquire p now tid alive c m s.os in place p r.manager r.os s
]
happen (releases p c) s = elim (get s.managers p) [
  | none ↦ s
  | some m ↦ let r = release c m s.os in place p r.0 r.1 s
]
happen (beats p now) s = elim (get s.managers p) [
  | none ↦ s
  | some m ↦ let r = beat now m s.os in place p r.0 r.1 s
]
happen (stops p) s = elim (get s.managers p) [
  | none ↦ s
  | some m ↦ place p (stop_heartbeat m) s.os s
]
happen (dies p) s = record {
  managers = pop s.managers p;
  os = let os = s.os in record os { locks = without p os.locks };
}

unfoldable pub run : List Event → System → System
unfolding happen
run [] s = s
run (e ∷ es) s = run es (happen e s)

-- Every chat that a process holds is locked by it.
abbrev pub IsSound : System → Type 0
IsSound s = (p : String) (m : Manager) → get s.managers p ≡ some m → Owns p m s.os

place-IsSound :
    (p : String) (m m' : Manager) (os' : Os) (s : System)
    → IsSound s
    → Step p m s.os m' os'
    → IsSound (place p m' os' s)
place-IsSound p m m' os' s sound (mine, others) q n found c h e = elim (Bool-cases (p == q)) [
  | inl t ↦
      let same : p ≡ q = (eq_iff p q).0 t in
      let now_m : n ≡ m' = ground (arith, get-put s.managers p q m', found) in
      subst (λ r. get os'.locks c ≡ some r) same (mine c h (ap (λ x. get x.held c) (sym now_m) ∙ e))
  | inr f ↦
      let before : get s.managers q ≡ some n =
        sym (get-put s.managers p q m' ∙ rw f refl) ∙ found in
      others c q (sound q n before c h e) (λ z. cc ((eq_iff p q).1 (sym z)))
]

get-without :
    (p q c : String) (ls : Dict String)
    → get ls c ≡ some q
    → q == p ≡ false
    → get (without p ls) c ≡ some q
unfolding without get
get-without p q c [] e f = cc
get-without p q c ((d, r) ∷ ls) e f = ground (arith, get-without p q c ls)

dies-IsSound : (p : String) (s : System) → IsSound s → IsSound (happen (dies p) s)
unfolding happen
dies-IsSound p s sound q n found c h e = elim (Bool-cases (q == p)) [
  | inl t ↦
      let gone : get (pop s.managers p) q ≡ none =
        get-pop s.managers p q ∙ rw ((eq_iff p q).1 (sym ((eq_iff q p).0 t))) refl in
      cc
  | inr f ↦
      let apart : p == q ≡ false = ground (arith, eq_iff p q, eq_iff q p) in
      let before : get s.managers q ≡ some n =
        sym (get-pop s.managers p q ∙ rw apart refl) ∙ found in
      get-without p q c s.os.locks (sound q n before c h e) f
]

by_manager :
    (s : System) (p : String)
    → (get s.managers p ≡ none) ⊎ ((m : Manager) × (get s.managers p ≡ some m))
by_manager s p = Option-cases (get s.managers p)

happen-IsSound : (e : Event) (s : System) → IsSound s → IsSound (happen e s)
unfolding happen
happen-IsSound (acquires p now tid alive c) s sound = elim (by_manager s p) [
  | inl n ↦ rw (happen, n) sound
  | inr (m, g) ↦
      let r = acquire p now tid alive c m s.os in
      rw (happen, g)
        (place-IsSound p m r.manager r.os s sound
          (acquire-Step p now tid alive c m s.os (sound p m g)))
]
happen-IsSound (releases p c) s sound = elim (by_manager s p) [
  | inl n ↦ rw (happen, n) sound
  | inr (m, g) ↦
      let r = release c m s.os in
      rw (happen, g) (place-IsSound p m r.0 r.1 s sound (release-Step p c m s.os (sound p m g)))
]
happen-IsSound (beats p now) s sound = elim (by_manager s p) [
  | inl n ↦ rw (happen, n) sound
  | inr (m, g) ↦
      let r = beat now m s.os in
      rw (happen, g) (place-IsSound p m r.0 r.1 s sound (beat-Step p now m s.os (sound p m g)))
]
happen-IsSound (stops p) s sound = elim (by_manager s p) [
  | inl n ↦ rw (happen, n) sound
  | inr (m, g) ↦
      rw (happen, g)
        (place-IsSound p m (stop_heartbeat m) s.os s sound
          ((λ c h e. sound p m g c h e), (λ c q e d. e)))
]
happen-IsSound (dies p) s sound = dies-IsSound p s sound

run-IsSound : (es : List Event) (s : System) → IsSound s → IsSound (run es s)
unfolding run
run-IsSound [] s sound = sound
run-IsSound (e ∷ es) s sound = run-IsSound es (happen e s) (happen-IsSound e s sound)

-- After any interleaving of acquire, release, heartbeats, stops and deaths of any processes, from
-- a state in which the processes have locked what they hold: two processes that hold the same
-- chat are the same process.
pub held_by_one :
    (es : List Event) (s : System) (p q : String) (m n : Manager) (c : String) (h i : Holder)
    → IsSound s
    → get (run es s).managers p ≡ some m
    → get (run es s).managers q ≡ some n
    → get m.held c ≡ some h
    → get n.held c ≡ some i
    → p ≡ q
held_by_one es s p q m n c h i sound found_p found_q held_p held_q =
    let after = run-IsSound es s sound in
    let by_p : get (run es s).os.locks c ≡ some p = after p m found_p c h held_p in
    let by_q : get (run es s).os.locks c ≡ some q = after q n found_q c i held_q in cc

holds-take_lock :
    (p : String) (now tid : ℕ) (k : String) (m : Manager) (os : Os)
    → (h : Holder) × (get (take_lock p now tid k m os).manager.held k ≡ some h) × (h.tid ≡ tid)
unfolding take_lock
holds-take_lock p now tid k m os = (
  record { pid = m.pid; tid = tid },
  ap (λ d. get d k) (held-start_heartbeat _) ∙ get-put m.held k k _ ∙ rw (eq_refl k) refl,
  refl,
)

-- acquire returns True only to a thread that then holds the chat.
pub acquire_holds :
    (p : String) (now tid : ℕ) (alive : ℕ → Bool) (k : String) (m : Manager) (os : Os)
    → (acquire p now tid alive k m os).result ≡ true
    → (h : Holder) × (get (acquire p now tid alive k m os).manager.held k ≡ some h) × (h.tid ≡ tid)
unfolding acquire
acquire_holds p now tid alive k m os holds = elim (Option-cases (get m.held k)) [
  | inr (h, e) ↦ elim (Bool-cases (nat_eq h.pid m.pid && nat_eq h.tid tid)) [
    | inl t ↦ (h, ap (λ (r : Acquired). get r.manager.held k) (again h e t) ∙ e, ground arith)
    | inr f ↦ absurd (not_both (rw (acquire, e) (rw f refl)) holds)
  ]
  | inl n ↦ elim (Option-cases (get os.locks k)) [
    | inr (o, e) ↦ absurd (not_both (rw (acquire, n) (rw e refl)) holds)
    | inl free ↦ elim (Bool-cases (owned_elsewhere now alive m (get os.files k))) [
      | inl t ↦ absurd (not_both (rw (acquire, n) (rw free (rw t refl))) holds)
      | inr f ↦
          let (h, found, same) = holds-take_lock p now tid k m os in
          (h, ap (λ (r : Acquired). get r.manager.held k) (fresh n free f) ∙ found, same)
    ]
  ]
]
  where
    not_both : {b : Bool} → b ≡ false → b ≡ true → ⊥
    not_both e f = cc

    fresh :
        get m.held k ≡ none
        → get os.locks k ≡ none
        → owned_elsewhere now alive m (get os.files k) ≡ false
        → acquire p now tid alive k m os ≡ take_lock p now tid k m os
    fresh n free f = rw (acquire, n) (rw free (rw f refl))

    again :
        (h : Holder)
        → get m.held k ≡ some h
        → (nat_eq h.pid m.pid && nat_eq h.tid tid) ≡ true
        → acquire p now tid alive k m os
          ≡ record { manager = m; os = write_lock now k m os; result = true }
    again h e t = rw (acquire, e) (rw t refl)
