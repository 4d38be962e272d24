-- ===== src/Instance/Steps.antt =====
-- What each operation of runtime/instance.py does to the locks of a process and of the others.
use diploid_agent.Prelude.{
  ℕ, ◌≡◌, ◌≢◌, refl, sym, ap, ◌∙◌, String, Bool, false, ◌&&◌, ◌==◌, none, some, List, [], ◌∷◌,
  arith, Bool-cases, Option-cases, inl, inr, eq_iff, nat_eq,
}
use diploid_agent.Prelude.Dict.{get, put, pop, keys, get-put, get-pop}
use diploid_agent.Instance.{
  Manager, Os, Holder, acquire, take_lock, owned_elsewhere, lock, unlock, release, write_lock,
  write_all, heartbeat, beat, start_heartbeat,
}

-- What a process has in `_held` it has locked.
abbrev pub Owns : String → Manager → Os → Type 0
Owns p m os = (c : String) (h : Holder) → get m.held c ≡ some h → get os.locks c ≡ some p

-- The locks of the others are as they were.
abbrev pub Spares : String → Os → Os → Type 0
Spares p os os' = (c q : String) → get os.locks c ≡ some q → q ≢ p → get os'.locks c ≡ some q

abbrev pub Step : String → Manager → Os → Manager → Os → Type 0
Step p m os m' os' = Owns p m' os' × Spares p os os'

pub held-start_heartbeat : (m : Manager) → (start_heartbeat m).held ≡ m.held
unfolding start_heartbeat
held-start_heartbeat m = ground arith

take_lock-Step :
    (p : String) (now tid : ℕ) (k : String) (m : Manager) (os : Os)
    → Owns p m os
    → get os.locks k ≡ none
    → let r = take_lock p now tid k m os in Step p m os r.manager r.os
unfolding take_lock write_lock
take_lock-Step p now tid k m os owns free = (mine, others)
  where
    taken : Holder
    taken = record { pid = m.pid; tid = tid }

    mine : Owns p (start_heartbeat (record m { held = put m.held k taken })) (lock p k os)
    mine c h e = elim (Bool-cases (k == c)) [
      | inl t ↦ get-put os.locks k c p ∙ rw t refl
      | inr f ↦
          let before : get m.held c ≡ some h =
            sym (
              ap (λ d. get d c) (held-start_heartbeat (record m { held = put m.held k taken }))
              ∙ get-put m.held k c taken
              ∙ rw f refl)
            ∙ e in
          get-put os.locks k c p ∙ rw f (owns c h before)
    ]

    others : Spares p os (lock p k os)
    others c q e d = elim (Bool-cases (k == c)) [
      | inl t ↦ let same : k ≡ c = (eq_iff k c).0 t in cc
      | inr f ↦ get-put os.locks k c p ∙ rw f e
    ]

-- Lock and unlock again.
tried-Step :
    (p k : String) (m : Manager) (os : Os)
    → Owns p m os
    → get os.locks k ≡ none
    → Step p m os m (unlock k (lock p k os))
tried-Step p k m os owns free = (λ c h e. as_before c p (owns c h e), λ c q e d. as_before c q e)
  where
    as_before : (c q : String) → get os.locks c ≡ some q → get (pop (put os.locks k p) k) c ≡ some q
    as_before c q e = elim (Bool-cases (k == c)) [
      | inl t ↦ let same : k ≡ c = (eq_iff k c).0 t in cc
      | inr f ↦ get-pop (put os.locks k p) k c ∙ rw f (get-put os.locks k c p ∙ rw f e)
    ]

pub acquire-Step :
    (p : String) (now tid : ℕ) (alive : ℕ → Bool) (k : String) (m : Manager) (os : Os)
    → Owns p m os
    → let r = acquire p now tid alive k m os in Step p m os r.manager r.os
unfolding acquire write_lock
acquire-Step p now tid alive k m os owns = elim (Option-cases (get m.held k)) [
  | inr (h, e) ↦ elim (Bool-cases (nat_eq h.pid m.pid && nat_eq h.tid tid)) [
    | inl t ↦ rw (acquire, e) (rw t (owns, λ c q g d. g))
    | inr f ↦ rw (acquire, e) (rw f (owns, λ c q g d. g))
  ]
  | inl n ↦ elim (Option-cases (get os.locks k)) [
    | inr (o, e) ↦ rw (acquire, n) (rw e (owns, λ c q g d. g))
    | inl free ↦ elim (Bool-cases (owned_elsewhere now alive m (get os.files k))) [
      | inl t ↦ rw (acquire, n) (rw free (rw t (tried-Step p k m os owns free)))
      | inr f ↦ rw (acquire, n) (rw free (rw f (take_lock-Step p now tid k m os owns free)))
    ]
  ]
]

release_unheld :
    (k : String) (m : Manager) (os : Os) → get m.held k ≡ none → (release k m os).1 ≡ os
unfolding release
release_unheld k m os n = rw (release, n) refl

release_other :
    (k c : String) (m : Manager) (os : Os)
    → k == c ≡ false
    → get (release k m os).1.locks c ≡ get os.locks c
unfolding release
release_other k c m os f = elim (Option-cases (get m.held k)) [
  | inl n ↦ rw (release, n) refl
  | inr (h, e) ↦ rw (release, e) (get-pop os.locks k c ∙ rw f refl)
]

held-release : (k : String) (m : Manager) (os : Os) → (release k m os).0.held ≡ pop m.held k
unfolding release
held-release k m os = refl

pub release-Step :
    (p k : String) (m : Manager) (os : Os)
    → Owns p m os
    → let r = release k m os in Step p m os r.0 r.1
release-Step p k m os owns = (mine, others)
  where
    mine : Owns p (release k m os).0 (release k m os).1
    mine c h e =
        let e' : get (pop m.held k) c ≡ some h =
          sym (ap (λ d. get d c) (held-release k m os)) ∙ e in
        elim (Bool-cases (k == c)) [
          | inl t ↦ let gone : get (pop m.held k) c ≡ none = get-pop m.held k c ∙ rw t refl in cc
          | inr f ↦ release_other k c m os f ∙ owns c h (sym (get-pop m.held k c ∙ rw f refl) ∙ e')
        ]

    others : Spares p os (release k m os).1
    others c q e d = elim (Bool-cases (k == c)) [
      | inr f ↦ release_other k c m os f ∙ e
      | inl t ↦ elim (Option-cases (get m.held k)) [
        | inl n ↦ ap (λ o. get o.locks c) (release_unheld k m os n) ∙ e
        | inr (h, g) ↦
            let ours : get os.locks k ≡ some p = owns k h g in
            let same : k ≡ c = (eq_iff k c).0 t in let q_p : q ≡ p = cc in absurd (d q_p)
      ]
    ]

locks-write_all :
    (now : ℕ) (cs : List String) (m : Manager) (os : Os) → (write_all now cs m os).locks ≡ os.locks
unfolding write_all write_lock
locks-write_all now [] m os = refl
locks-write_all now (c ∷ cs) m os = locks-write_all now cs m (write_lock now c m os)

locks-beat : (now : ℕ) (m : Manager) (os : Os) → (beat now m os).1.locks ≡ os.locks
unfolding beat heartbeat
locks-beat now m os = ground (arith, locks-write_all now (keys m.held) m os)

held-beat : (now : ℕ) (m : Manager) (os : Os) → (beat now m os).0.held ≡ m.held
unfolding beat
held-beat now m os = ground arith

pub beat-Step :
    (p : String) (now : ℕ) (m : Manager) (os : Os)
    → Owns p m os
    → let r = beat now m os in Step p m os r.0 r.1
beat-Step p now m os owns = (
  (λ c h e.
      ap (λ d. get d c) (locks-beat now m os)
      ∙ owns c h (sym (ap (λ d. get d c) (held-beat now m os)) ∙ e)),
  (λ c q e d. ap (λ d. get d c) (locks-beat now m os) ∙ e),
)
