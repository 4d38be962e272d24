-- ===== src/Plan/Manager/Lookup.antt =====
-- What the operations of the manager do to one task, found by its plan and id.
use diploid_agent.Prelude.{
  ℕ, ◌≡◌, ◌⊎◌, refl, sym, ap, ◌∙◌, String, true, false, Option, none, some, List, [], ◌∷◌,
  if◌then◌else◌, arith, find_first, map, ◌==◌, eq_iff, Bool-cases, Option-cases, inl, inr,
}
use diploid_agent.Prelude.Dict.{get, put, get-put, get-put_self}
use diploid_agent.Plan.Models.{TaskStatus, Task, Plan, is_open, is_ready, is_finished, is_failed}
use diploid_agent.Plan.Resolve.{resolve_statuses, update_plan_status, settle_all}
use diploid_agent.Plan.Resolve.Frame.{skeleton, settle_all-skeleton}
use diploid_agent.Plan.Manager.{
  Manager, notify_change, get_task_in_plan, update_first, commit, touch, with_task, get_task,
  started, start_found, start_task, finish_found, finish_task,
}
use diploid_agent.Plan.Manager.Invariant.{tasks-update_plan_status}

-- DONE, INCOMPLETE or FAILED.
abbrev pub IsTerminal : TaskStatus → Type 0
IsTerminal s = (is_finished s ≡ true) ⊎ (is_failed s ≡ true)

terminal_closed : (s : TaskStatus) → IsTerminal s → (is_open s ≡ false) × (is_ready s ≡ false)
terminal_closed s (inl h) = ground arith
terminal_closed s (inr h) = ground arith

abbrev find_task : String → List Task → Option Task
find_task k ts = find_first (λ t. t.id == k) ts

skeleton_same : (t u : Task) → skeleton u ≡ skeleton t → is_open t.status ≡ false → u ≡ t
skeleton_same t u e o = ground (arith, ap (λ x. x.status) e)

-- _resolve_statuses leaves a task alone that is not PENDING, READY or BLOCKED.
find_skeleton :
    (k : String) (t : Task) (xs ys : List Task)
    → map skeleton ys ≡ map skeleton xs
    → find_task k xs ≡ some t
    → is_open t.status ≡ false
    → find_task k ys ≡ some t
find_skeleton k t [] ys e f o = cc
find_skeleton k t (x ∷ xs) [] e f o = cc
find_skeleton k t (x ∷ xs) (y ∷ ys) e f o =
    let heads : skeleton y ≡ skeleton x = ground (arith, e) in
    let tails : map skeleton ys ≡ map skeleton xs = ground (arith, e) in
    let ids : y.id ≡ x.id = ap (λ u. u.id) heads in
    elim (Bool-cases (x.id == k)) [
      | inl h ↦
          let same : x ≡ t = ground (arith, f) in
          let same' : y ≡ t = skeleton_same t y (heads ∙ ap skeleton same) o in
          let hit : y.id == k ≡ true = ap (λ s. s == k) ids ∙ h in rw hit (ap some same')
      | inr h ↦
          let miss : y.id == k ≡ false = ap (λ s. s == k) ids ∙ h in
          rw miss (find_skeleton k t xs ys tails (ground (arith, f)) o)
    ]

find_update_first :
    (k : String) (f : Task → Task) (t : Task) (xs : List Task)
    → ((u : Task) → (f u).id ≡ u.id)
    → find_task k xs ≡ some t
    → find_task k (update_first k f xs) ≡ some (f t)
unfolding update_first
find_update_first k f t [] same h = cc
find_update_first k f t (x ∷ xs) same h = elim (Bool-cases (x.id == k)) [
  | inl e ↦
      let hit : (f x).id == k ≡ true = ap (λ s. s == k) (same x) ∙ e in
      let found : x ≡ t = ground (arith, h) in rw (e, hit) (ap (λ u. some (f u)) found)
  | inr e ↦ rw (e, e) (find_update_first k f t xs same (ground (arith, h)))
]

find_update_other :
    (k j : String) (f : Task → Task) (t : Task) (xs : List Task)
    → ((u : Task) → (f u).id ≡ u.id)
    → j == k ≡ false
    → find_task k xs ≡ some t
    → find_task k (update_first j f xs) ≡ some t
unfolding update_first
find_update_other k j f t [] same n h = cc
find_update_other k j f t (x ∷ xs) same n h = elim (Bool-cases (x.id == j)) [
  | inl e ↦
      let apart : x.id == k ≡ false = ap (λ s. s == k) ((eq_iff x.id j).0 e) ∙ n in
      let apart' : (f x).id == k ≡ false = ap (λ s. s == k) (same x) ∙ apart in
      rw (e, apart') (ground (arith, h, apart))
  | inr e ↦ rw e (ground (arith, find_update_other k j f t xs same n))
]

plans-notify_change : (p : Plan) (m : Manager) → (notify_change p m).plans ≡ m.plans
unfolding notify_change
plans-notify_change p m = ground arith

abbrev Finds : String → String → Manager → Task → Type 0
Finds k j m t = (p : Plan) × (get m.plans k ≡ some p) × (find_task j p.tasks ≡ some t)

get_task-Finds : (k j : String) (m : Manager) (t : Task) → get_task k j m ≡ some t → Finds k j m t
unfolding get_task get_task_in_plan
get_task-Finds k j m t h = elim (Option-cases (get m.plans k)) [
  | inl e ↦ cc (rw (e, get_task) at h)
  | inr (p, e) ↦ (p, e, rw (e, get_task) at h)
]

Finds-get_task : (k j : String) (m : Manager) (t : Task) → Finds k j m t → get_task k j m ≡ some t
unfolding get_task get_task_in_plan
Finds-get_task k j m t (p, e, f) = rw (e, get_task) f

-- After a commit the plan is the one that was stored.
get_task-commit :
    (k j : String) (p : Plan) (m : Manager)
    → (get_task k j (commit k p j m).0 ≡ find_task j p.tasks)
      × ((commit k p j m).1 ≡ find_task j p.tasks)
unfolding commit get_task get_task_in_plan
get_task-commit k j p m = (
  rw
      (
        plans-notify_change p (record m { plans = put m.plans k p }),
        get-put_self m.plans k p,
        get_task,
      )
      refl,
  refl,
)

with_task_found :
    (k j : String) (body : Plan → Task → Manager → Manager × Option Task) (m : Manager) (p : Plan)
    (t : Task)
    → get m.plans k ≡ some p
    → find_task j p.tasks ≡ some t
    → with_task k j body m ≡ body p t m
unfolding with_task get_task_in_plan
with_task_found k j body m p t e f = rw (e, with_task) (rw (f, with_task) refl)

-- complete_task and fail_task leave the task that they name as they say, and return it.
pub finish_task-get_task :
    (f : Task → Task) (later : ℕ) (k j : String) (m : Manager) (t : Task)
    → ((u : Task) → (f u).id ≡ u.id)
    → get_task k j m ≡ some t
    → IsTerminal (f t).status
    → (get_task k j (finish_task f later k j m).0 ≡ some (f t))
      × ((finish_task f later k j m).1 ≡ some (f t))
unfolding finish_task resolve_statuses
finish_task-get_task f later k j m t same h term =
    let (p, e, g) = get_task-Finds k j m t h in
    let q : Plan = record p { tasks = update_first j f p.tasks } in
    let put_in : find_task j q.tasks ≡ some (f t) = find_update_first j f t p.tasks same g in
    let kept : find_task j (resolve_statuses q).tasks ≡ some (f t) =
      find_skeleton j (f t) q.tasks (settle_all q.tasks).tasks (settle_all-skeleton q.tasks) put_in
        (terminal_closed (f t).status term).0 in
    let there : find_task j (touch later (update_plan_status (resolve_statuses q))).tasks
        ≡ some (f t) =
      ap (find_task j) (tasks-update_plan_status (resolve_statuses q)) ∙ kept in
    let both = get_task-commit k j (touch later (update_plan_status (resolve_statuses q))) m in
    rw (with_task_found k j (finish_found f later k j) m p t e g) (both.0 ∙ there, both.1 ∙ there)

get_plans-commit :
    (k i j : String) (p : Plan) (m : Manager)
    → get (commit i p j m).0.plans k ≡ (if i == k then some p else get m.plans k)
unfolding commit
get_plans-commit k i j p m =
    rw (plans-notify_change p (record m { plans = put m.plans i p })) (get-put m.plans i k p)

start_found_keeps :
    (now : ℕ) (k j i l : String) (m : Manager) (t : Task) (p : Plan) (u : Task)
    → Finds k j m t
    → IsTerminal t.status
    → get m.plans i ≡ some p
    → find_task l p.tasks ≡ some u
    → Finds k j (start_found now i l p u m).0 t
start_found_keeps now k j i l m t p u (q, e, g) term e' g' = elim (Bool-cases (is_ready u.status)) [
  | inr n ↦ rw n (q, e, g)
  | inl r ↦
      let next : Plan =
        touch now
          (update_plan_status (record p { tasks = update_first l (started now) p.tasks })) in
      rw r (elim (Bool-cases (i == k)) [
        | inr n ↦ (q, get_plans-commit k i l next m ∙ rw n e, g)
        | inl same ↦
            let one : some p ≡ some q = sym e' ∙ (ap (get m.plans) ((eq_iff i k).0 same) ∙ e) in
            let plans : p ≡ q = ground (arith, one) in
            let here : find_task j p.tasks ≡ some t = ap (λ x. find_task j x.tasks) plans ∙ g in
            (
              next,
              get_plans-commit k i l next m ∙ rw same refl,
              ap (find_task j) (
                    tasks-update_plan_status
                      (record p { tasks = update_first l (started now) p.tasks }))
                  ∙ find_update_other j l (started now) t p.tasks (λ x. refl) (names r here) here,
            )
      ])
]
  where
    names : is_ready u.status ≡ true → find_task j p.tasks ≡ some t → l == j ≡ false
    names r here = elim (Bool-cases (l == j)) [
      | inr n ↦ n
      | inl same ↦
          let twice : some u ≡ some t =
            sym g' ∙ (ap (λ x. find_task x p.tasks) ((eq_iff l j).0 same) ∙ here) in
          let tasks : u ≡ t = ground (arith, twice) in
          let not_ready : is_ready u.status ≡ false =
            ap (λ x. is_ready x.status) tasks ∙ (terminal_closed t.status term).1 in
          absurd (cc not_ready)
    ]

-- A finished task stays as it is whatever task is started, its own id included.
pub start_task_keeps :
    (now : ℕ) (k j i l : String) (m : Manager) (t : Task)
    → get_task k j m ≡ some t
    → IsTerminal t.status
    → get_task k j (start_task now i l m).0 ≡ some t
unfolding start_task get_task_in_plan
start_task_keeps now k j i l m t h term =
    Finds-get_task k j _ t (by_plan (Option-cases (get m.plans i)))
  where
    before : Finds k j m t
    before = get_task-Finds k j m t h

    by_task :
        (p : Plan)
        → get m.plans i ≡ some p
        → (find_task l p.tasks ≡ none) ⊎ ((u : Task) × (find_task l p.tasks ≡ some u))
        → Finds k j (with_task i l (start_found now i l) m).0 t
    by_task p e (inl n) = rw (e, with_task) (rw (n, with_task) before)
    by_task p e (inr (u, f)) =
        rw (with_task_found i l (start_found now i l) m p u e f)
          (start_found_keeps now k j i l m t p u before term e f)

    by_plan :
        (get m.plans i ≡ none) ⊎ ((p : Plan) × (get m.plans i ≡ some p))
        → Finds k j (with_task i l (start_found now i l) m).0 t
    by_plan (inl n) = rw (n, with_task) before
    by_plan (inr (p, e)) = by_task p e (Option-cases (find_task l p.tasks))
