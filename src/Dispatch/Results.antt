-- ===== src/Dispatch/Results.antt =====
-- What is kept of a dispatch's result: set_result of dispatch.py, and the saves behind it.
use diploid_agent.Prelude.{
  ℕ, ◌-◌, ◌≡◌, ◌⊎◌, refl, ◌∙◌, String, Bool, true, false, ◌==◌, Option, none, some, List, [], ◌∷◌,
  arith, length, ltb, take, All, contains, eq_iff, Bool-cases, Option-cases, inl, inr, or_else,
}
use diploid_agent.Prelude.Sort.{sorted}
use diploid_agent.Prelude.Dict.{
  get-Entries, get, put, pop, keys, get-pop, get-put, get-some-contains, put-Entries,
  put-IsDistinct,
}
use diploid_agent.Dispatch.{
  Dispatch, DispatchStatus, Store, Closing, drop_stale, terminals, older_first, delete_all,
  cap_terminal, terminal_max_kept, is_unclosed, closed, update, set_result, save,
}
use diploid_agent.Dispatch.Eviction.{
  IsValid, drop_stale-IsValid, delete_all-IsValid, evict_terminal_lem,
}

get-delete_all_cases :
    (ds : List Dispatch) (s : Store) (k : String)
    → (get (delete_all ds s) k ≡ none) ⊎ (get (delete_all ds s) k ≡ get s k)
unfolding delete_all
get-delete_all_cases [] s k = inr refl
get-delete_all_cases (d ∷ ds) s k =
    ground (arith, get-delete_all_cases ds (pop s d.id) k, get-pop s d.id k)

get-absent : (s : Store) (k : String) → contains (keys s) k ≡ false → get s k ≡ none
get-absent s k h = elim (Option-cases (get s k)) [
  | inl e ↦ e
  | inr (d, e) ↦ cc (h, get-some-contains s k d e)
]

get-drop_stale_cases :
    (now : ℕ) (s : Store) (k : String)
    → IsValid s
    → (get (drop_stale now s) k ≡ none) ⊎ (get (drop_stale now s) k ≡ get s k)
unfolding drop_stale get
get-drop_stale_cases now [] k v = inr refl
get-drop_stale_cases now ((j, d) ∷ s) k (named, distinct) = ground (
  arith,
  get-drop_stale_cases now s k (named.1, distinct.1),
  eq_iff j k,
  get-absent s j distinct.0,
)

cap_terminal_cases :
    (s : Store) (k : String) → (get (cap_terminal s) k ≡ none) ⊎ (get (cap_terminal s) k ≡ get s k)
unfolding cap_terminal
cap_terminal_cases s k = elim (Bool-cases (ltb terminal_max_kept (length (terminals s)))) [
  | inr n ↦ rw n (inr refl)
  | inl n ↦ rw n (
      get-delete_all_cases
        (take (length (terminals s) - terminal_max_kept) (sorted older_first (terminals s))) s k)
]

cap_terminal-IsValid : (s : Store) → IsValid s → IsValid (cap_terminal s)
unfolding cap_terminal
cap_terminal-IsValid s v = elim (Bool-cases (ltb terminal_max_kept (length (terminals s)))) [
  | inr n ↦ rw n v
  | inl n ↦ rw n (
      delete_all-IsValid
        (take (length (terminals s) - terminal_max_kept) (sorted older_first (terminals s))) s v)
]

pub save-IsValid :
    (has_path : Bool) (now : ℕ) (s : Store) → IsValid s → IsValid (save has_path now s)
unfolding save
save-IsValid false now s v = v
save-IsValid true now s v =
    rw (evict_terminal_lem now s)
      (cap_terminal-IsValid (drop_stale now s) (drop_stale-IsValid now s v))

-- A save either drops a dispatch or leaves it as it is.
save_cases :
    (has_path : Bool) (now : ℕ) (s : Store) (k : String)
    → IsValid s
    → (get (save has_path now s) k ≡ none) ⊎ (get (save has_path now s) k ≡ get s k)
unfolding save
save_cases false now s k v = inr refl
save_cases true now s k v = elim (get-drop_stale_cases now s k v) [
  | inl e ↦ inl (elim (cap_terminal_cases (drop_stale now s) k) [
    | inl c ↦ rw (evict_terminal_lem now s) c
    | inr c ↦ rw (evict_terminal_lem now s) (c ∙ e)
  ])
  | inr e ↦ elim (cap_terminal_cases (drop_stale now s) k) [
    | inl c ↦ inl (rw (evict_terminal_lem now s) c)
    | inr c ↦ inr (rw (evict_terminal_lem now s) (c ∙ e))
  ]
]

-- One call of set_result.
pub record Report : Type 0 where
  pub id : String
  pub result : String
  pub closing : Closing
  pub now : ℕ

unfoldable pub report_all : Bool → List Report → Store → Store
unfolding set_result
report_all has_path [] s = s
report_all has_path (r ∷ rs) s =
    report_all has_path rs (set_result has_path r.now r.id r.result r.closing s).0

-- The status a report sets, if it sets one, is COMPLETED or FAILED.
abbrev pub IsClosing : Report → Type 0
IsClosing r = is_unclosed (or_else r.closing.status DispatchStatus.completed) ≡ false

-- What is left of `d` in the dispatch `e`: it is still closed, and it has the same result.
abbrev pub SameResult : Dispatch → Dispatch → Type 0
SameResult d e =
    (is_unclosed e.status ≡ false)
    × (e.result ≡ d.result)
    × (e.summary ≡ d.summary)
    × (e.finished_at ≡ d.finished_at)

-- The dispatch is evicted, or it has the result it was closed with.
abbrev pub IsKept : Store → String → Dispatch → Type 0
IsKept s k d = (get s k ≡ none) ⊎ (e : Dispatch) × (get s k ≡ some e) × SameResult d e

closed_same :
    (r : Report) (e : Dispatch)
    → IsClosing r
    → is_unclosed e.status ≡ false
    → SameResult e (closed r.result r.closing e)
unfolding closed
closed_same r e c u = rw u (status r.closing.status c, refl, refl, refl)
  where
    status :
        (o : Option DispatchStatus)
        → is_unclosed (or_else o DispatchStatus.completed) ≡ false
        → is_unclosed (or_else o e.status) ≡ false
    status none h = u
    status (some s) h = h

IsKept-save :
    (has_path : Bool) (now : ℕ) (s : Store) (k : String) (d : Dispatch)
    → IsValid s
    → IsKept s k d
    → IsKept (save has_path now s) k d
IsKept-save has_path now s k d v (inl n) = elim (save_cases has_path now s k v) [
  | inl e ↦ inl e
  | inr e ↦ inl (e ∙ n)
]
IsKept-save has_path now s k d v (inr (x, g, same)) = elim (save_cases has_path now s k v) [
  | inl e ↦ inl e
  | inr e ↦ inr (x, e ∙ g, same)
]

id-closed : (result : String) (c : Closing) (d : Dispatch) → (closed result c d).id ≡ d.id
unfolding closed
id-closed result c d = refl

set_result_missing :
    (has_path : Bool) (now : ℕ) (k result : String) (c : Closing) (s : Store)
    → get s k ≡ none
    → (set_result has_path now k result c s).0 ≡ s
unfolding set_result update
set_result_missing has_path now k result c s e = rw (set_result, update, e) refl

set_result_found :
    (has_path : Bool) (now : ℕ) (k result : String) (c : Closing) (s : Store) (d : Dispatch)
    → get s k ≡ some d
    → (set_result has_path now k result c s).0 ≡ save has_path now (put s k (closed result c d))
unfolding set_result update
set_result_found has_path now k result c s d e = rw (set_result, update, e) refl

pub set_result-IsValid :
    (has_path : Bool) (now : ℕ) (k result : String) (c : Closing) (s : Store)
    → IsValid s
    → IsValid (set_result has_path now k result c s).0
set_result-IsValid has_path now k result c s v = elim (Option-cases (get s k)) [
  | inl e ↦ rw (set_result_missing has_path now k result c s e) v
  | inr (d, e) ↦
      let named : d.id ≡ k = get-Entries (λ i x. x.id ≡ i) s k d v.0 e in
      rw (set_result_found has_path now k result c s d e) (
        save-IsValid has_path now (put s k (closed result c d)) (
          put-Entries (λ i x. x.id ≡ i) s k (closed result c d) v.0 (id-closed result c d ∙ named),
          put-IsDistinct s k (closed result c d) v.1,
        ))
]

put-IsKept :
    (s : Store) (r : Report) (x : Dispatch) (k : String) (d : Dispatch)
    → IsClosing r
    → get s r.id ≡ some x
    → IsKept s k d
    → IsKept (put s r.id (closed r.result r.closing x)) k d
put-IsKept s r x k d c g (inl n) =
    inl (ground (arith, get-put s r.id k (closed r.result r.closing x), eq_iff r.id k))
put-IsKept s r x k d c g (inr (e, h, (u, p, q, t))) = elim (Bool-cases (r.id == k)) [
  | inl same ↦
      let x_e : x ≡ e = ground (arith, (eq_iff r.id k).0 same) in
      let kept = closed_same r x c (rw x_e u) in
      inr (
        closed r.result r.closing x,
        get-put s r.id k _ ∙ rw same refl,
        (kept.0, kept.1 ∙ rw x_e p, kept.2 ∙ rw x_e q, kept.3 ∙ rw x_e t),
      )
  | inr n ↦ inr (e, get-put s r.id k _ ∙ rw n h, (u, p, q, t))
]

set_result-IsKept :
    (has_path : Bool) (s : Store) (r : Report) (k : String) (d : Dispatch)
    → IsValid s
    → IsClosing r
    → IsKept s k d
    → IsKept (set_result has_path r.now r.id r.result r.closing s).0 k d
set_result-IsKept has_path s r k d v c kept = elim (Option-cases (get s r.id)) [
  | inl e ↦ rw (set_result_missing has_path r.now r.id r.result r.closing s e) kept
  | inr (x, e) ↦
      let named : x.id ≡ r.id = get-Entries (λ i y. y.id ≡ i) s r.id x v.0 e in
      rw (set_result_found has_path r.now r.id r.result r.closing s x e) (
        IsKept-save has_path r.now (put s r.id (closed r.result r.closing x)) k d
          (
            put-Entries (λ i y. y.id ≡ i) s r.id (closed r.result r.closing x) v.0
                (id-closed r.result r.closing x ∙ named),
            put-IsDistinct s r.id (closed r.result r.closing x) v.1,
          )
          (put-IsKept s r x k d c e kept))
]

report_all-IsKept :
    (has_path : Bool) (rs : List Report) (s : Store) (k : String) (d : Dispatch)
    → IsValid s
    → All IsClosing rs
    → IsKept s k d
    → IsKept (report_all has_path rs s) k d
unfolding report_all
report_all-IsKept has_path [] s k d v c kept = kept
report_all-IsKept has_path (r ∷ rs) s k d v (c, cs) kept =
    report_all-IsKept has_path rs (set_result has_path r.now r.id r.result r.closing s).0 k d
      (set_result-IsValid has_path r.now r.id r.result r.closing s v) cs
      (set_result-IsKept has_path s r k d v c kept)

-- No sequence of set_result calls changes the result of a closed dispatch, if none of them sets a
-- status other than COMPLETED or FAILED. In a store whose dispatches stand under their own ids, a
-- dispatch that is COMPLETED or FAILED has the same result, summary and finish time after such calls
-- on any dispatches, unless it has been evicted. complete and fail are not among the calls: they
-- overwrite the result.
pub result_is_final :
    (has_path : Bool) (rs : List Report) (s : Store) (k : String) (d : Dispatch)
    → IsValid s
    → get s k ≡ some d
    → is_unclosed d.status ≡ false
    → All IsClosing rs
    → IsKept (report_all has_path rs s) k d
result_is_final has_path rs s k d v h u c =
    report_all-IsKept has_path rs s k d v c (inr (d, h, (u, refl, refl, refl)))
