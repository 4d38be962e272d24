-- ===== src/Wake/Leases.antt =====
-- What pop_due of runtime/wake_queue.py delivers, and that a running lease keeps an event from
-- being delivered again.
use mathlib.Core.List.{Perm}
use mathlib.Core.List.Perm
use diploid_agent.Prelude.{
  Bool, Option, none, some, ◌&&◌, leb, nat_eq, Option-cases, ℕ, ◌+◌, ◌<◌, ◌≤◌, ◌≡◌, refl, sym,
  subst, ◌⊎◌, String, true, false, ◌==◌, List, [], ◌∷◌, if◌then◌else◌, arith, keep, map, All,
  All-map, IsDistinct, contains, count, eq_iff, Bool-cases, inl, inr,
}
use diploid_agent.Prelude.Sort.{sorted, sorted-perm, sorted-All, sorted-IsSorted, IsOrder, IsSorted}
use diploid_agent.Prelude.Dict.{Entries, keys, values}
use diploid_agent.Wake.{WakeEvent, Queue, is_due, lease_due, leased, pop_due, before, due_count}

-- Every event stands under its own id, once.
abbrev pub IsValid : Queue → Type 0
IsValid q = Entries (λ k e. e.id ≡ k) q × IsDistinct (keys q)

before-IsOrder : IsOrder before
unfolding before
before-IsOrder = record { total = λ a b h. ground arith; trans = λ a b c h k. ground arith }

module _ {ℓ} {A B : Type ℓ} where
  All-image {κ} :
      (P : B → Type κ) (f : A → B) (xs : List A) → All (λ x. P (f x)) xs → All P (map f xs)
  All-image P f [] h = tt
  All-image P f (x ∷ xs) h = (h.0, All-image P f xs h.1)

IsSorted-leased :
    (until : ℕ) (es : List WakeEvent) → IsSorted before es → IsSorted before (map (leased until) es)
unfolding before
IsSorted-leased until [] h = tt
IsSorted-leased until (e ∷ es) h =
    (All-image (λ y. before e y ≡ true) (leased until) es h.0, IsSorted-leased until es h.1)

-- An event that may be handed out: ready, due, and under no lease that still runs.
abbrev pub may_go : (now : ℕ) → WakeEvent → Bool
may_go now e = e.ready && (leb e.scheduled_at now && is_free e.leased_until)
  where
    is_free : Option ℕ → Bool
    is_free none = true
    is_free (some until) = leb until now

-- The order of delivery: falling priority, then rising schedule, then rising age.
abbrev pub GoesFirst : WakeEvent → WakeEvent → Type 0
GoesFirst a b =
    (b.priority < a.priority)
    ⊎ (a.priority ≡ b.priority)
      × ((a.scheduled_at < b.scheduled_at)
          ⊎ (a.scheduled_at ≡ b.scheduled_at) × (a.created_at ≤ b.created_at))

abbrev pub IsRanked : List WakeEvent → Type 0
IsRanked [] = Unit
IsRanked (e ∷ es) = All (GoesFirst e) es × IsRanked es

is_due_lem : (now : ℕ) (e : WakeEvent) → is_due now e ≡ may_go now e
unfolding is_due
is_due_lem now e = elim (Option-cases e.leased_until) [ inl n ↦ rw n refl | inr (t, s) ↦ rw s refl ]

keep_same :
    (p q : WakeEvent → Bool) (es : List WakeEvent)
    → ((e : WakeEvent) → p e ≡ q e)
    → keep p es ≡ keep q es
keep_same p q [] h = refl
keep_same p q (e ∷ es) h = rw (h e, keep_same p q es h) refl

before-GoesFirst : (a b : WakeEvent) → before a b ≡ true → GoesFirst a b
unfolding before
before-GoesFirst a b h = elim (Bool-cases (nat_eq a.priority b.priority)) [
  | inr n ↦ inl (ground arith)
  | inl p ↦ elim (Bool-cases (nat_eq a.scheduled_at b.scheduled_at)) [
    | inr n ↦ inr (ground arith, inl (ground arith))
    | inl s ↦ inr (ground arith, inr (ground arith, ground arith))
  ]
]

All-GoesFirst :
    (e : WakeEvent) (es : List WakeEvent) → All (λ y. before e y ≡ true) es → All (GoesFirst e) es
All-GoesFirst e [] h = tt
All-GoesFirst e (x ∷ es) h = (before-GoesFirst e x h.0, All-GoesFirst e es h.1)

sorted-IsRanked : (es : List WakeEvent) → IsSorted before es → IsRanked es
sorted-IsRanked [] h = tt
sorted-IsRanked (e ∷ es) h = (All-GoesFirst e es h.0, sorted-IsRanked es h.1)

-- pop_due hands out exactly the events that are ready, whose time has come, and that no running
-- lease covers, each once and with its new lease; and it hands them out by falling priority, those
-- of one priority by their scheduled time, and those of one time by their creation.
pub pop_due_delivers :
    (now lease_seconds : ℕ) (q : Queue)
    → Perm
        (pop_due now lease_seconds q).1
        (map (leased (now + lease_seconds)) (keep (may_go now) (values q)))
      × IsRanked (pop_due now lease_seconds q).1
unfolding pop_due
pop_due_delivers now lease_seconds q =
    let due = keep (is_due now) (values q) in
    let until = now + lease_seconds in
    (
      subst (λ l. Perm (map (leased until) (sorted before due)) (map (leased until) l))
          (keep_same (is_due now) (may_go now) (values q) (is_due_lem now))
          (Perm.map (leased until) (sorted-perm before due)),
      sorted-IsRanked (map (leased until) (sorted before due))
          (IsSorted-leased until (sorted before due) (sorted-IsSorted before before-IsOrder due)),
    )

module _ (now until later : ℕ) (running : later < until) where
  -- The events of the leased queue have the ids that they had.
  apart_leased :
      (k : String) (q : Queue)
      → Entries (λ j e. e.id ≡ j) q
      → contains (keys q) k ≡ false
      → All (λ e. k == e.id ≡ false) (keep (is_due later) (values (lease_due now until q)))
  unfolding lease_due is_due
  apart_leased k [] v h = tt
  apart_leased k ((j, e) ∷ q) v h =
      ground (arith, v.0, eq_iff k j, eq_iff j k, apart_leased k q v.1)

  apart_due :
      (k : String) (q : Queue)
      → Entries (λ j e. e.id ≡ j) q
      → contains (keys q) k ≡ false
      → All (λ e. e.id == k ≡ false) (keep (is_due now) (values q))
  unfolding is_due
  apart_due k [] v h = tt
  apart_due k ((j, e) ∷ q) v h = ground (arith, v.0, apart_due k q v.1)

  abbrev Apart : WakeEvent → WakeEvent → Type 0
  Apart e f = f.id == e.id ≡ false

  add_first :
      (f : WakeEvent) (fs es : List WakeEvent)
      → All (λ e. f.id == e.id ≡ false) es
      → All (λ e. All (Apart e) fs) es
      → All (λ e. All (Apart e) (f ∷ fs)) es
  add_first f fs [] h k = tt
  add_first f fs (e ∷ es) h k = ((h.0, k.0), add_first f fs es h.1 k.1)

  -- A leased event is not due before its lease has run out.
  leased_not_due : (e : WakeEvent) → is_due later (leased until e) ≡ false
  unfolding is_due
  leased_not_due e = ground arith

  due_twice :
      (q : Queue)
      → Entries (λ j e. e.id ≡ j) q
      → IsDistinct (keys q)
      → All
          (λ e. All (Apart e) (keep (is_due now) (values q)))
          (keep (is_due later) (values (lease_due now until q)))
  unfolding lease_due
  due_twice [] v d = tt
  due_twice ((k, e) ∷ q) v d = elim (Bool-cases (is_due now e)) [
    | inl due ↦
        rw (due, leased_not_due e)
          (add_first e _ _
            (subst
              (λ j.
                All (λ g. j == g.id ≡ false) (keep (is_due later) (values (lease_due now until q))))
              (sym v.0) (apart_leased k q v.1 d.0))
            (due_twice q v.1 d.1))
    | inr idle ↦ rw idle (outer (due_twice q v.1 d.1) (Bool-cases (is_due later e)))
  ]
    where
      outer :
          All
            (λ g. All (Apart g) (keep (is_due now) (values q)))
            (keep (is_due later) (values (lease_due now until q)))
          → (is_due later e ≡ true) ⊎ (is_due later e ≡ false)
          → All
              (λ g. All (Apart g) (keep (is_due now) (values q)))
              (if is_due later e
                then e ∷ keep (is_due later) (values (lease_due now until q))
                else keep (is_due later) (values (lease_due now until q)))
      outer rest (inl due) = rw due (
        subst (λ j. All (λ f. f.id == j ≡ false) (keep (is_due now) (values q))) (sym v.0)
            (apart_due k q v.1 d.0),
        rest,
      )
      outer rest (inr idle) = rw idle rest

-- While a lease runs, no event that it covers is delivered again: a second pop_due before
-- `now + lease_seconds` hands out no event that the first one handed out.
pub pop_due_once :
    (now lease_seconds later lease_seconds' : ℕ) (q : Queue)
    → IsValid q
    → later < now + lease_seconds
    → let first = pop_due now lease_seconds q in
      let second = pop_due later lease_seconds' first.0 in
      All (λ e. All (λ f. f.id == e.id ≡ false) first.1) second.1
unfolding pop_due
pop_due_once now lease_seconds later lease_seconds' q v running =
    let until = now + lease_seconds in
    All-image _ (leased (later + lease_seconds')) _ (
      sorted-All before _ _ (
        All-map _ _ (keep (is_due later) (values (lease_due now until q)))
          (λ e h.
            All-image (λ f. f.id == e.id ≡ false) (leased until)
              (sorted before (keep (is_due now) (values q)))
              (sorted-All before (λ f. f.id == e.id ≡ false) (keep (is_due now) (values q)) h))
          (due_twice now until later running q v.0 v.1)))

count_leased :
    (now until later : ℕ) (q : Queue)
    → later < until
    → later ≤ now
    → count (is_due later) (values (lease_due now until q)) ≡ 0
unfolding lease_due is_due
count_leased now until later [] h k = refl
count_leased now until later ((j, e) ∷ q) h k = ground (arith, count_leased now until later q)

-- Nothing is left due by a pop_due with a positive lease.
pub due_count-pop_due :
    (now lease_seconds : ℕ) (q : Queue)
    → 0 < lease_seconds
    → due_count now (pop_due now lease_seconds q).0 ≡ 0
unfolding due_count pop_due
due_count-pop_due now lease_seconds q h =
    count_leased now (now + lease_seconds) now q (omega arith) (omega arith)
