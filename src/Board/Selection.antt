-- ===== src/Board/Selection.antt =====
-- Which plan the board of runtime/task_board.py shows.
use diploid_agent.Prelude.{
  ◌≤◌, ◌≡◌, refl, subst, String, Bool, true, false, not, none, some, List, [], ◌∷◌, keep,
  find_first, opt_eq, All, All-map, arith, Bool-cases, Option-cases, inl, inr,
}
use diploid_agent.Prelude.Sort.{IsSorted, IsOrder, sorted-IsSorted}
use diploid_agent.Prelude.Dict.{values}
use diploid_agent.Plan.Models.{Plan}
use diploid_agent.Plan.Manager.{Manager, list_plans, newer_first}
use diploid_agent.Board.{select, is_terminal}

newer_first-IsOrder : IsOrder newer_first
newer_first-IsOrder = record { total = λ a b h. ground arith; trans = λ a b c h k. ground arith }

abbrev pub is_open : Plan → Bool
is_open p = not (is_terminal p.status)

list_plans-IsSorted :
    (chat_id : String) (m : Manager) → IsSorted newer_first (list_plans (some chat_id) m)
unfolding list_plans
list_plans-IsSorted chat_id m =
    sorted-IsSorted newer_first newer_first-IsOrder
      (keep (λ p. opt_eq p.chat_id chat_id) (values m.plans))

-- In a list from new to old, the first open plan is the newest open one.
first_is_newest :
    (ps : List Plan) (p : Plan)
    → IsSorted newer_first ps
    → find_first is_open ps ≡ some p
    → (is_open p ≡ true) × All (λ q. is_open q ≡ true → q.created_at ≤ p.created_at) ps
first_is_newest [] p s e = cc
first_is_newest (q ∷ ps) p s e = elim (Bool-cases (is_open q)) [
  | inl t ↦
      let same : q ≡ p = ground (arith, e, t) in
      let all_older : All (λ x. is_open x ≡ true → x.created_at ≤ q.created_at) ps =
        All-map _ _ ps (λ x older _. ground (arith, older)) s.0 in
      subst
        (λ r.
          (is_open r ≡ true) × All (λ x. is_open x ≡ true → x.created_at ≤ r.created_at) (q ∷ ps))
        same (t, ((λ _. omega arith), all_older))
  | inr f ↦
      let rest = first_is_newest ps p s.1 (ground (arith, e, f)) in
      (rest.0, ((λ t. absurd (not_both t f)), rest.1))
]
  where
    not_both : {b : Bool} → b ≡ true → b ≡ false → ⊥
    not_both t f = cc

nothing_open : (ps : List Plan) → find_first is_open ps ≡ none → All (λ q. is_open q ≡ false) ps
nothing_open [] e = tt
nothing_open (q ∷ ps) e = elim (Bool-cases (is_open q)) [
  | inl t ↦ absurd (found q (ground (arith, e, t)))
  | inr f ↦ (f, nothing_open ps (ground (arith, e, f)))
]
  where
    found : (p : Plan) → some p ≡ none → ⊥
    found p h = cc

select_open :
    (chat_id : String) (m : Manager) (p : Plan)
    → find_first is_open (list_plans (some chat_id) m) ≡ some p
    → select chat_id m ≡ some p
unfolding select
select_open chat_id m p e = rw (select, e) refl

-- The board shows an open plan of the chat whenever it has one, and then the newest open one: if
-- some plan of the chat is neither COMPLETED nor FAILED, the plan that is selected is not either,
-- and no open plan of the chat was created after it.
pub select_newest_open :
    (chat_id : String) (m : Manager)
    → ¬ All (λ q. is_open q ≡ false) (list_plans (some chat_id) m)
    → (p : Plan) × (select chat_id m ≡ some p)
      × (is_open p ≡ true)
      × All (λ q. is_open q ≡ true → q.created_at ≤ p.created_at) (list_plans (some chat_id) m)
select_newest_open chat_id m some_open =
    let plans = list_plans (some chat_id) m in
    elim (Option-cases (find_first is_open plans)) [
      | inl n ↦ absurd (some_open (nothing_open plans n))
      | inr (p, e) ↦
          let newest = first_is_newest plans p (list_plans-IsSorted chat_id m) e in
          (p, select_open chat_id m p e, newest.0, newest.1)
    ]
