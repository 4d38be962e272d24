-- ===== src/Dispatch/Eviction.antt =====
-- What a save of the dispatch store may drop: _evict_terminal of dispatch.py.
use diploid_agent.Prelude.{
  ℕ, zero, suc, ◌-◌, ◌≡◌, refl, ap, ◌∙◌, String, false, ◌==◌, some, List, [], ◌∷◌, arith, length,
  ltb, take, All, contains, IsDistinct, eq_iff, Bool-cases, inl, inr, subst,
}
use diploid_agent.Prelude.Sort.{sorted, sorted-All}
use diploid_agent.Prelude.Dict.{get, pop, keys, Entries, get-pop, pop-Entries, pop-IsDistinct}
use diploid_agent.Dispatch.{
  Dispatch, Store, is_terminal, is_stale, drop_stale, terminals, older_first, delete_all,
  cap_terminal, evict_terminal, terminal_max_kept,
}

-- Every dispatch stands under its own id, once.
abbrev pub IsValid : Store → Type 0
IsValid s = Entries (λ k d. d.id ≡ k) s × IsDistinct (keys s)

drop_stale-absent :
    (now : ℕ) (s : Store) (k : String)
    → contains (keys s) k ≡ false
    → contains (keys (drop_stale now s)) k ≡ false
unfolding drop_stale
drop_stale-absent now [] k h = refl
drop_stale-absent now ((j, d) ∷ s) k h = ground (arith, drop_stale-absent now s k)

pub drop_stale-IsValid : (now : ℕ) (s : Store) → IsValid s → IsValid (drop_stale now s)
unfolding drop_stale
drop_stale-IsValid now [] v = v
drop_stale-IsValid now ((j, d) ∷ s) (named, distinct) = elim (Bool-cases (is_stale now d)) [
  | inl e ↦ rw e (drop_stale-IsValid now s (named.1, distinct.1))
  | inr e ↦
      let rest = drop_stale-IsValid now s (named.1, distinct.1) in
      rw e ((named.0, rest.0), (drop_stale-absent now s j distinct.0, rest.1))
]

get-drop_stale :
    (now : ℕ) (s : Store) (k : String) (d : Dispatch)
    → get s k ≡ some d
    → is_stale now d ≡ false
    → get (drop_stale now s) k ≡ some d
unfolding drop_stale get
get-drop_stale now [] k d h f = cc
get-drop_stale now ((j, e) ∷ s) k d h f = ground (arith, get-drop_stale now s k d)

pub delete_all-IsValid : (ds : List Dispatch) (s : Store) → IsValid s → IsValid (delete_all ds s)
unfolding delete_all
delete_all-IsValid [] s v = v
delete_all-IsValid (d ∷ ds) s v =
    delete_all-IsValid ds (pop s d.id)
      (pop-Entries (λ k e. e.id ≡ k) s d.id v.0, pop-IsDistinct s d.id v.1)

get-delete_all :
    (ds : List Dispatch) (s : Store) (k : String)
    → All (λ e. e.id == k ≡ false) ds
    → get (delete_all ds s) k ≡ get s k
unfolding delete_all
get-delete_all [] s k h = refl
get-delete_all (d ∷ ds) s k h =
    get-delete_all ds (pop s d.id) k h.1 ∙ (get-pop s d.id k ∙ rw h.0 refl)

pub take-All {κ} :
    (P : Dispatch → Type κ) (n : ℕ) (ds : List Dispatch) → All P ds → All P (take n ds)
take-All P zero ds h = tt
take-All P (suc n) [] h = tt
take-All P (suc n) (d ∷ ds) h = (h.0, take-All P n ds h.1)

-- A dispatch that is not terminal has another id than every terminal one.
terminals_apart :
    (s : Store) (k : String) (d : Dispatch)
    → IsValid s
    → get s k ≡ some d
    → is_terminal d.status ≡ false
    → All (λ e. e.id == k ≡ false) (terminals s)
unfolding get
terminals_apart [] k d v h f = tt
terminals_apart ((j, e) ∷ s) k d (named, distinct) h f = elim (Bool-cases (j == k)) [
  | inl t ↦
      let here : e ≡ d = ground (arith, h) in
      let open_head : is_terminal e.status ≡ false = ap (λ x. is_terminal x.status) here ∙ f in
      rw open_head
        (others s named.1 (subst (λ x. contains (keys s) x ≡ false) ((eq_iff j k).0 t) distinct.0))
  | inr n ↦
      let rest = terminals_apart s k d (named.1, distinct.1) (ground (arith, h)) f in
      let head : e.id == k ≡ false = ap (λ x. x == k) named.0 ∙ n in
      elim (Bool-cases (is_terminal e.status)) [ inl b ↦ rw b (head, rest) | inr b ↦ rw b rest ]
]
  where
    others :
        (r : Store)
        → Entries (λ i x. x.id ≡ i) r
        → contains (keys r) k ≡ false
        → All (λ x. x.id == k ≡ false) (terminals r)
    others [] nm c = tt
    others ((i, x) ∷ r) nm c =
        let head : x.id == k ≡ false = ap (λ y. y == k) nm.0 ∙ ground (arith, c) in
        elim (Bool-cases (is_terminal x.status)) [
          | inl b ↦ rw b (head, others r nm.1 (ground (arith, c)))
          | inr b ↦ rw b (others r nm.1 (ground (arith, c)))
        ]

cap_terminal_keeps :
    (s : Store) (k : String) (d : Dispatch)
    → IsValid s
    → get s k ≡ some d
    → is_terminal d.status ≡ false
    → get (cap_terminal s) k ≡ some d
unfolding cap_terminal
cap_terminal_keeps s k d v h f = elim (Bool-cases (ltb terminal_max_kept (length (terminals s)))) [
  | inr n ↦ rw (n, cap_terminal) h
  | inl n ↦
      rw (n, cap_terminal)
        (get-delete_all
            (take (length (terminals s) - terminal_max_kept) (sorted older_first (terminals s))) s k
            (take-All _ (length (terminals s) - terminal_max_kept) _
              (sorted-All older_first _ (terminals s) (terminals_apart s k d v h f)))
          ∙ h)
]

fresh_stale : (n : ℕ) (e : Dispatch) → is_terminal e.status ≡ false → is_stale n e ≡ false
unfolding is_stale
fresh_stale n e g = rw g refl

pub evict_terminal_lem :
    (now : ℕ) (s : Store) → evict_terminal now s ≡ cap_terminal (drop_stale now s)
unfolding evict_terminal
evict_terminal_lem now s = refl

-- A pending dispatch is never evicted, however old it is and however full the store.
pub evict_terminal_keeps_pending :
    (now : ℕ) (s : Store) (k : String) (d : Dispatch)
    → IsValid s
    → get s k ≡ some d
    → is_terminal d.status ≡ false
    → get (evict_terminal now s) k ≡ some d
evict_terminal_keeps_pending now s k d v h f = rw (evict_terminal_lem now s) (
    cap_terminal_keeps (drop_stale now s) k d (drop_stale-IsValid now s v)
      (get-drop_stale now s k d h (fresh_stale now d f)) f)
