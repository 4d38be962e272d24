-- ===== src/Dispatch/Capacity.antt =====
-- The cap on the terminal dispatches that a save leaves: _evict_terminal of dispatch.py.
use diploid_agent.Prelude.{
  ℕ, zero, suc, ◌+◌, ◌-◌, ◌≤◌, ◌≡◌, refl, sym, ap, ◌∙◌, String, true, false, ◌||◌, ◌==◌, some, List,
  [], ◌∷◌, arith, length, ltb, take, length-take, map, All, All-map, contains, IsDistinct, eq_iff,
  Bool-cases, inl, inr, subst,
}
use diploid_agent.Prelude.Sort.{sorted, insert, sorted-All}
use diploid_agent.Prelude.Dict.{
  get, pop, keys, Entries, get-pop, pop-IsDistinct, pop-absent, get-some-contains,
}
use diploid_agent.Dispatch.{
  Dispatch, Store, is_terminal, drop_stale, terminals, older_first, delete_all, cap_terminal,
  evict_terminal, terminal_max_kept,
}
use diploid_agent.Dispatch.Eviction.{IsValid, take-All, drop_stale-IsValid, evict_terminal_lem}

abbrev ids : List Dispatch → List String
ids ds = map (λ d. d.id) ds

abbrev Stored : Store → Dispatch → Type 0
Stored s d = (get s d.id ≡ some d) × (is_terminal d.status ≡ true)

terminals_absent :
    (s : Store) (k : String)
    → Entries (λ j d. d.id ≡ j) s
    → contains (keys s) k ≡ false
    → contains (ids (terminals s)) k ≡ false
terminals_absent [] k v h = refl
terminals_absent ((j, d) ∷ s) k v h = ground (arith, ap (λ x. x == k) v.0, terminals_absent s k v.1)

terminals-IsDistinct : (s : Store) → IsValid s → IsDistinct (ids (terminals s))
terminals-IsDistinct [] v = tt
terminals-IsDistinct ((j, d) ∷ s) (named, distinct) =
    let rest = terminals-IsDistinct s (named.1, distinct.1) in
    elim (Bool-cases (is_terminal d.status)) [
      | inl t ↦ rw t (
        subst (λ x. contains (ids (terminals s)) x ≡ false) (sym named.0)
            (terminals_absent s j named.1 distinct.0),
        rest,
      )
      | inr t ↦ rw t rest
    ]

Stored-cons :
    (j : String) (d : Dispatch) (s : Store) (e : Dispatch)
    → contains (keys s) j ≡ false
    → Stored s e
    → Stored ((j, d) ∷ s) e
unfolding get
Stored-cons j d s e h (g, t) = elim (Bool-cases (j == e.id)) [
  | inr n ↦ (rw n g, t)
  | inl same ↦ absurd (
      cc (
        sym (get-some-contains s e.id e g)
        ∙ (ap (contains (keys s)) (sym ((eq_iff j e.id).0 same)) ∙ h)))
]

terminals-Stored : (s : Store) → IsValid s → All (Stored s) (terminals s)
unfolding get
terminals-Stored [] v = tt
terminals-Stored ((j, d) ∷ s) (named, distinct) =
    let rest =
      All-map (Stored s) (Stored ((j, d) ∷ s)) (terminals s) (λ e. Stored-cons j d s e distinct.0)
        (terminals-Stored s (named.1, distinct.1)) in
    elim (Bool-cases (is_terminal d.status)) [
      | inl t ↦ rw t ((ground (arith, (eq_iff j d.id).1 (sym named.0)), t), rest)
      | inr t ↦ rw t rest
    ]

count_pop :
    (s : Store) (k : String) (d : Dispatch)
    → IsDistinct (keys s)
    → get s k ≡ some d
    → is_terminal d.status ≡ true
    → suc (length (terminals (pop s k))) ≡ length (terminals s)
unfolding get pop
count_pop [] k d v h t = cc
count_pop ((j, e) ∷ s) k d v h t = elim (Bool-cases (j == k)) [
  | inl same ↦
      let here : e ≡ d = ground (arith, h) in
      let over : is_terminal e.status ≡ true = ap (λ x. is_terminal x.status) here ∙ t in
      let gone : contains (keys s) k ≡ false =
        ap (contains (keys s)) (sym ((eq_iff j k).0 same)) ∙ v.0 in
      rw (same, over, pop-absent s k gone) refl
  | inr n ↦ ground (arith, count_pop s k d v.1)
]

apart-All :
    (k : String) (ds : List Dispatch)
    → contains (ids ds) k ≡ false
    → All (λ d. k == d.id ≡ false) ds
apart-All k [] h = tt
apart-All k (d ∷ ds) h =
    (ground (arith, eq_iff k d.id, eq_iff d.id k), apart-All k ds (ground arith))

Stored-pop :
    (s : Store) (k : String) (ds : List Dispatch)
    → All (λ d. k == d.id ≡ false) ds
    → All (Stored s) ds
    → All (Stored (pop s k)) ds
Stored-pop s k [] h st = tt
Stored-pop s k (d ∷ ds) h st =
    ((get-pop s k d.id ∙ rw h.0 st.0.0, st.0.1), Stored-pop s k ds h.1 st.1)

count_delete_all :
    (ds : List Dispatch) (s : Store)
    → IsDistinct (keys s)
    → IsDistinct (ids ds)
    → All (Stored s) ds
    → length (terminals (delete_all ds s)) + length ds ≡ length (terminals s)
unfolding delete_all
count_delete_all [] s v dis st = omega arith
count_delete_all (d ∷ ds) s v dis st = omega (
  arith,
  count_pop s d.id d v st.0.0 st.0.1,
  count_delete_all ds (pop s d.id) (pop-IsDistinct s d.id v) dis.1
      (Stored-pop s d.id ds (apart-All d.id ds dis.0) st.1),
)

contains-insert :
    (d : Dispatch) (ds : List Dispatch) (k : String)
    → contains (ids (insert older_first d ds)) k ≡ (d.id == k || contains (ids ds) k)
unfolding insert
contains-insert d [] k = refl
contains-insert d (e ∷ ds) k = elim (Bool-cases (older_first d e)) [
  | inl t ↦ rw t refl
  | inr f ↦ rw f (ground (arith, contains-insert d ds k))
]

insert-IsDistinct :
    (d : Dispatch) (ds : List Dispatch)
    → contains (ids ds) d.id ≡ false
    → IsDistinct (ids ds)
    → IsDistinct (ids (insert older_first d ds))
unfolding insert
insert-IsDistinct d [] h v = (refl, tt)
insert-IsDistinct d (e ∷ ds) h v = elim (Bool-cases (older_first d e)) [
  | inl t ↦ rw t (h, v)
  | inr f ↦ rw f (
    ground (arith, contains-insert d ds e.id, eq_iff d.id e.id, eq_iff e.id d.id, v.0),
    insert-IsDistinct d ds (ground arith) v.1,
  )
]

contains-sorted :
    (ds : List Dispatch) (k : String)
    → contains (ids (sorted older_first ds)) k ≡ contains (ids ds) k
unfolding sorted
contains-sorted [] k = refl
contains-sorted (d ∷ ds) k =
    contains-insert d (sorted older_first ds) k ∙ ap (λ b. d.id == k || b) (contains-sorted ds k)

sorted-IsDistinct :
    (ds : List Dispatch) → IsDistinct (ids ds) → IsDistinct (ids (sorted older_first ds))
unfolding sorted
sorted-IsDistinct [] v = tt
sorted-IsDistinct (d ∷ ds) v =
    insert-IsDistinct d (sorted older_first ds) (contains-sorted ds d.id ∙ v.0)
      (sorted-IsDistinct ds v.1)

take-absent :
    (n : ℕ) (ds : List Dispatch) (k : String)
    → contains (ids ds) k ≡ false
    → contains (ids (take n ds)) k ≡ false
take-absent zero ds k h = refl
take-absent (suc n) [] k h = refl
take-absent (suc n) (d ∷ ds) k h = ground (arith, take-absent n ds k)

take-IsDistinct : (n : ℕ) (ds : List Dispatch) → IsDistinct (ids ds) → IsDistinct (ids (take n ds))
take-IsDistinct zero ds v = tt
take-IsDistinct (suc n) [] v = tt
take-IsDistinct (suc n) (d ∷ ds) v = (take-absent n ds d.id v.0, take-IsDistinct n ds v.1)

length-insert :
    (d : Dispatch) (ds : List Dispatch) → length (insert older_first d ds) ≡ suc (length ds)
unfolding insert
length-insert d [] = refl
length-insert d (e ∷ ds) = elim (Bool-cases (older_first d e)) [
  | inl t ↦ rw t refl
  | inr f ↦ rw f (ap suc (length-insert d ds))
]

length-sorted : (ds : List Dispatch) → length (sorted older_first ds) ≡ length ds
unfolding sorted
length-sorted [] = refl
length-sorted (d ∷ ds) = length-insert d (sorted older_first ds) ∙ ap suc (length-sorted ds)

cap_bound : (s : Store) → IsValid s → length (terminals (cap_terminal s)) ≤ terminal_max_kept
unfolding cap_terminal
cap_bound s v = elim (Bool-cases (ltb terminal_max_kept (length (terminals s)))) [
  | inr n ↦ rw (n, cap_terminal) (ground arith)
  | inl n ↦
      let m = length (terminals s) - terminal_max_kept in
      let old = take m (sorted older_first (terminals s)) in
      rw (n, cap_terminal)
        (ground (
          arith,
          count_delete_all old s v.1
              (take-IsDistinct m _ (sorted-IsDistinct (terminals s) (terminals-IsDistinct s v)))
              (take-All (Stored s) m _
                (sorted-All older_first (Stored s) (terminals s) (terminals-Stored s v))),
          length-take m (sorted older_first (terminals s)),
          length-sorted (terminals s),
        ))
]

-- After the eviction that every save makes, at most 200 terminal dispatches are left.
pub evict_terminal_bound :
    (now : ℕ) (s : Store) → IsValid s → length (terminals (evict_terminal now s)) ≤ 200
evict_terminal_bound now s v =
    rw (evict_terminal_lem now s) (cap_bound (drop_stale now s) (drop_stale-IsValid now s v))
