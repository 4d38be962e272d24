-- ===== src/Wake/Cancel.antt =====
-- The removals of runtime/wake_queue.py: cancel_event, cancel and cancel_older_than.
use diploid_agent.Prelude.{
  ℕ, ◌+◌, ◌<◌, ◌≡◌, ◌≢◌, ◌⊎◌, refl, sym, ap, ◌∙◌, String, Bool, true, false, ◌&&◌, ◌==◌, Option,
  none, some, List, [], ◌∷◌, if◌then◌else◌, arith, IsDistinct, contains, count, length, eq_iff, leb,
  ltb, eq_refl, Bool-cases, inl, inr,
}
use diploid_agent.Prelude.Dict.{get, pop, get-pop, keys, values, pop-absent}
use diploid_agent.Wake.{
  WakeEvent, Queue, pop_all, keys_where, remove_where, cancel, cancel_event, cancel_older_than,
  cancellable, outdated, matches, unleased, free_at,
}

get-pop_all :
    (ks : List String) (q : Queue) (k : String)
    → get (pop_all ks q) k ≡ (if contains ks k then none else get q k)
unfolding pop_all
get-pop_all [] q k = refl
get-pop_all (j ∷ ks) q k = ground (arith, get-pop_all ks (pop q j) k, get-pop q j k)

keys_where_absent :
    (p : WakeEvent → Bool) (q : Queue) (k : String)
    → contains (keys q) k ≡ false
    → contains (keys_where p q) k ≡ false
unfolding keys_where
keys_where_absent p [] k h = refl
keys_where_absent p ((j, e) ∷ q) k h = ground (arith, keys_where_absent p q k)

keys_where_lem :
    (p : WakeEvent → Bool) (q : Queue) (k : String) (e : WakeEvent)
    → IsDistinct (keys q)
    → get q k ≡ some e
    → contains (keys_where p q) k ≡ p e
unfolding keys_where get
keys_where_lem p [] k e d h = cc
keys_where_lem p ((j, f) ∷ q) k e d h = elim (Bool-cases (j == k)) [
  | inl t ↦
      let same : f ≡ e = ground arith in
      let gone : contains (keys_where p q) k ≡ false =
        keys_where_absent p q k (ap (contains (keys q)) (sym ((eq_iff j k).0 t)) ∙ d.0) in
      ground (arith, ap p same)
  | inr n ↦ ground (arith, keys_where_lem p q k e d.1)
]

get-remove_where :
    (p : WakeEvent → Bool) (q : Queue) (k : String) (e : WakeEvent)
    → IsDistinct (keys q)
    → get q k ≡ some e
    → get (remove_where p q).0 k ≡ (if p e then none else some e)
unfolding remove_where
get-remove_where p q k e d h =
    ground (arith, get-pop_all (keys_where p q) q k, keys_where_lem p q k e d h)

length-keys_where :
    (p : WakeEvent → Bool) (q : Queue) → length (keys_where p q) ≡ count p (values q)
unfolding keys_where
length-keys_where p [] = refl
length-keys_where p ((j, e) ∷ q) = ground (arith, length-keys_where p q)

-- A filter that is given and differs.
abbrev pub Differs : Option String → String → Type 0
Differs none s = ⊥
Differs (some t) s = s ≢ t

abbrev pub IsLeased : ℕ → WakeEvent → Type 0
IsLeased now e = (t : ℕ) × (e.leased_until ≡ some t) × (now < t)

-- What keeps an event from being cancelled: it is not ready, it belongs to another chat or has
-- another reason than asked for, or it is leased.
abbrev pub IsKept : ℕ → Option String → Option String → WakeEvent → Type 0
IsKept now chat_id reason e =
    (e.ready ≡ false) ⊎ Differs chat_id e.chat_id ⊎ Differs reason e.reason ⊎ IsLeased now e

matches_cases :
    (o : Option String) (s : String)
    → (matches o s ≡ true) × ¬ Differs o s ⊎ (matches o s ≡ false) × Differs o s
matches_cases none s = inl (refl, λ h. h)
matches_cases (some t) s = elim (Bool-cases (s == t)) [
  | inl e ↦ inl (e, λ d. d ((eq_iff s t).0 e))
  | inr n ↦ inr (n, λ e. cc ((eq_iff s t).1 e))
]

lease_cases :
    (now : ℕ) (o : Option ℕ)
    → (free_at now o ≡ true) × ¬ ((t : ℕ) × (o ≡ some t) × (now < t))
      ⊎ (free_at now o ≡ false) × ((t : ℕ) × (o ≡ some t) × (now < t))
lease_cases now none = inl (refl, λ (t, e, h). cc)
lease_cases now (some t) = elim (Bool-cases (leb t now)) [
  | inl e ↦ inl (e, λ (u, q, h). ground arith)
  | inr e ↦ inr (e, (t, refl, ground arith))
]

IsKept-cases :
    (now : ℕ) (chat_id reason : Option String) (e : WakeEvent)
    → (cancellable now chat_id reason e ≡ true) × ¬ IsKept now chat_id reason e
      ⊎ (cancellable now chat_id reason e ≡ false) × IsKept now chat_id reason e
IsKept-cases now chat_id reason e = elim (Bool-cases e.ready) [
  | inr f ↦ inr (rw f, inl f)
  | inl r ↦ elim (matches_cases chat_id e.chat_id) [
    | inr (m, d) ↦ inr (rw (r, m), inr (inl d))
    | inl (m, d) ↦ elim (matches_cases reason e.reason) [
      | inr (m', d') ↦ inr (rw (r, m, m'), inr (inr (inl d')))
      | inl (m', d') ↦ elim (lease_cases now e.leased_until) [
        | inr (l, t) ↦ inr (rw (r, m, m', l), inr (inr (inr t)))
        | inl (l, t) ↦ inl (rw (r, m, m', l), not_any (λ z. cc) d d' t)
      ]
    ]
  ]
]
  where
    not_any : {A B C D : Type 0} → ¬ A → ¬ B → ¬ C → ¬ D → ¬ (A ⊎ B ⊎ C ⊎ D)
    not_any a b c d (inl h) = a h
    not_any a b c d (inr (inl h)) = b h
    not_any a b c d (inr (inr (inl h))) = c h
    not_any a b c d (inr (inr (inr h))) = d h

-- An event that is not ready, or that another chat or reason owns, or whose lease runs, survives a
-- cancellation by chat and reason; every other event is gone.
pub cancel_exact :
    (now : ℕ) (chat_id reason : Option String) (q : Queue) (k : String) (e : WakeEvent)
    → IsDistinct (keys q)
    → get q k ≡ some e
    → (IsKept now chat_id reason e → get (cancel now chat_id reason q).0 k ≡ some e)
      × (¬ IsKept now chat_id reason e → get (cancel now chat_id reason q).0 k ≡ none)
unfolding cancel
cancel_exact now chat_id reason q k e d h =
    let found = get-remove_where (cancellable now chat_id reason) q k e d h in
    elim (IsKept-cases now chat_id reason e) [
      | inl (c, f) ↦ (λ kept. absurd (f kept), λ _. found ∙ rw c)
      | inr (c, kept) ↦ (λ _. found ∙ rw c, λ free. absurd (free kept))
    ]

pop_all_cons :
    (ks : List String) (j : String) (e : WakeEvent) (q : Queue)
    → contains ks j ≡ false
    → pop_all ks ((j, e) ∷ q) ≡ (j, e) ∷ pop_all ks q
unfolding pop_all pop
pop_all_cons [] j e q h = refl
pop_all_cons (k ∷ ks) j e q h =
    ground (arith, eq_iff j k, eq_iff k j, pop_all_cons ks j e (pop q k))

length-remove_where :
    (p : WakeEvent → Bool) (q : Queue)
    → IsDistinct (keys q)
    → length (pop_all (keys_where p q) q) + length (keys_where p q) ≡ length q
unfolding keys_where pop_all pop
length-remove_where p [] d = refl
length-remove_where p ((j, e) ∷ q) d = elim (Bool-cases (p e)) [
  | inl t ↦
      rw (t, pop_all, pop, eq_refl j, pop-absent q j d.0)
        (omega (arith, length-remove_where p q d.1))
  | inr f ↦
      rw (f, pop_all_cons (keys_where p q) j e q (keys_where_absent p q j d.0))
        (omega (arith, length-remove_where p q d.1))
]

-- The count that `cancel` returns is the number of events that are gone.
pub cancel_count :
    (now : ℕ) (chat_id reason : Option String) (q : Queue)
    → IsDistinct (keys q)
    → length (cancel now chat_id reason q).0 + (cancel now chat_id reason q).1 ≡ length q
unfolding cancel remove_where
cancel_count now chat_id reason q d = length-remove_where (cancellable now chat_id reason) q d

outdated_kept :
    (now bound : ℕ) (reason : Option String) (e : WakeEvent)
    → (outdated now bound reason e ≡ false)
      ⊎ (outdated now bound reason e ≡ true)
        × (e.ready ≡ true)
        × (e.created_at < bound)
        × ¬ Differs reason e.reason
        × ¬ IsLeased now e
outdated_kept now bound reason e = elim (matches_cases reason e.reason) [
  | inr (m, d) ↦ inl (ground arith)
  | inl (m, d) ↦ elim (lease_cases now e.leased_until) [
    | inr (l, t) ↦ inl (ground arith)
    | inl (l, t) ↦ elim (Bool-cases (e.ready && ltb e.created_at bound)) [
      | inl b ↦ inr (ground arith, ground arith, ground arith, d, t)
      | inr b ↦ inl (ground arith)
    ]
  ]
]

-- cancel_older_than takes away nothing but a ready event that was created before the bound, has the
-- reason asked for and no running lease: any other event is there afterwards, unchanged.
pub cancel_older_than_safe :
    (now bound : ℕ) (reason : Option String) (q : Queue) (k : String) (e : WakeEvent)
    → IsDistinct (keys q)
    → get q k ≡ some e
    → (get (cancel_older_than now bound reason q).0 k ≡ some e)
      ⊎ (get (cancel_older_than now bound reason q).0 k ≡ none)
        × (e.ready ≡ true)
        × (e.created_at < bound)
        × ¬ Differs reason e.reason
        × ¬ IsLeased now e
unfolding cancel_older_than
cancel_older_than_safe now bound reason q k e d h =
    let found = get-remove_where (outdated now bound reason) q k e d h in
    elim (outdated_kept now bound reason e) [
      | inl f ↦ inl (found ∙ rw f)
      | inr (t, r, c, m, l) ↦ inr (found ∙ rw t, r, c, m, l)
    ]

-- cancel_event takes away nothing but the event that it names, and that only when it is ready and
-- unleased: any other event is there afterwards, unchanged.
pub cancel_event_safe :
    (now : ℕ) (j : String) (chat_id : Option String) (q : Queue) (k : String) (e : WakeEvent)
    → get q k ≡ some e
    → (get (cancel_event now j chat_id q).0 k ≡ some e)
      ⊎ (get (cancel_event now j chat_id q).0 k ≡ none)
        × (j ≡ k)
        × (e.ready ≡ true)
        × (unleased now e ≡ true)
unfolding cancel_event
cancel_event_safe now j chat_id q k e h = ground (arith, get-pop q j k, eq_iff j k)
