-- ===== src/Plan/Resolve/Rounds.antt =====
-- The rounds of _resolve_statuses of plan/manager.py: what stays, and what holds after a round
-- that changes nothing.
use diploid_agent.Prelude.{
  ℕ, zero, suc, ◌≡◌, refl, ap, ◌∙◌, subst, fun_ext, String, true, false, not, ◌&&◌, ◌||◌, some,
  List, [], ◌∷◌, arith, eq_iff, eq_refl, Bool-cases, inl, inr, keep, all, any, map, All, All-map,
  contains, IsDistinct, ◌==◌,
}
use diploid_agent.Prelude.Dict.{Dict, get, get-put, get-put_self}
use diploid_agent.Plan.Models.{TaskStatus, Task, is_finished, is_open, is_stuck}
use diploid_agent.Plan.Resolve.{
  visit, sweep, settle, settle_all, all_done, any_failed, status_in, known, missing, enough, by_id,
  status_map,
}
use diploid_agent.Plan.Resolve.Termination.{blocked_not_done, empty_done}

abbrev pub ids_of : List Task → List String
ids_of tasks = map (λ t. t.id) tasks

-- The map of statuses and the list of tasks say the same.
abbrev pub Agrees : Dict TaskStatus → List Task → Type 0
Agrees m ts = All (λ t. get m t.id ≡ some t.status) ts

module _ (ids : Dict Task) (m : Dict TaskStatus) (t : Task) where
  visit_id : (visit ids m t).task.id ≡ t.id
  unfolding visit
  visit_id = ground arith

  visit_other : (k : String) → t.id == k ≡ false → get (visit ids m t).statuses k ≡ get m k
  unfolding visit
  visit_other k h = ground (
    arith,
    get-put m t.id k TaskStatus.blocked,
    get-put m t.id k TaskStatus.ready,
    get-put m t.id k t.status,
  )

  visit_own :
      get m t.id ≡ some t.status
      → get (visit ids m t).statuses t.id ≡ some (visit ids m t).task.status
  unfolding visit
  visit_own h = ground (
    arith,
    get-put_self m t.id TaskStatus.blocked,
    get-put_self m t.id TaskStatus.ready,
    get-put_self m t.id t.status,
  )

  visit_same : (visit ids m t).changed ≡ false → (visit ids m t).task ≡ t
  unfolding visit
  visit_same h = ground arith

  visit_still :
      (visit ids m t).changed ≡ false
      → get m t.id ≡ some t.status
      → (k : String) → get (visit ids m t).statuses k ≡ get m k
  unfolding visit
  visit_still h a k = ground (arith, get-put m t.id k t.status, eq_iff t.id k)

  abbrev pub SettledBy : Type 0
  SettledBy =
      is_open t.status ≡ true
      → ((missing ids t.depends_on || any_failed ids m t.depends_on) ≡ true
          → t.status ≡ TaskStatus.blocked)
        × (all_done ids m t.depends_on ≡ true → t.status ≡ TaskStatus.ready)

  visit_settled : (visit ids m t).changed ≡ false → SettledBy
  unfolding visit
  visit_settled h o = (
    ground arith,
    ground (arith, blocked_not_done ids m t.depends_on, empty_done ids m t.depends_on),
  )

sweep_ids :
    (ids : Dict Task) (m : Dict TaskStatus) (ts : List Task)
    → ids_of (sweep ids m ts).tasks ≡ ids_of ts
unfolding sweep
sweep_ids ids m [] = refl
sweep_ids ids m (t ∷ ts) = cc (visit_id ids m t, sweep_ids ids (visit ids m t).statuses ts)

sweep_other :
    (ids : Dict Task) (m : Dict TaskStatus) (ts : List Task) (k : String)
    → contains (ids_of ts) k ≡ false
    → get (sweep ids m ts).statuses k ≡ get m k
unfolding sweep
sweep_other ids m [] k h = refl
sweep_other ids m (t ∷ ts) k h =
    ground (arith, visit_other ids m t k, sweep_other ids (visit ids m t).statuses ts k)

settle_ids :
    (fuel : ℕ) (ids : Dict Task) (m : Dict TaskStatus) (ts : List Task)
    → ids_of (settle fuel ids m ts).tasks ≡ ids_of ts
unfolding settle
settle_ids zero ids m ts = refl
settle_ids (suc fuel) ids m ts =
    let s = sweep ids m ts in
    ground (arith, sweep_ids ids m ts, settle_ids fuel ids s.statuses s.tasks)

pub ids_of-settle_all : (tasks : List Task) → ids_of (settle_all tasks).tasks ≡ ids_of tasks
unfolding settle_all
ids_of-settle_all tasks = settle_ids (enough tasks) (by_id tasks []) (status_map tasks []) tasks

Agrees-cong :
    (m n : Dict TaskStatus) (ts : List Task)
    → ((k : String) → contains (ids_of ts) k ≡ true → get n k ≡ get m k)
    → Agrees m ts
    → Agrees n ts
Agrees-cong m n [] same a = tt
Agrees-cong m n (t ∷ ts) same a = (
  same t.id (ground (arith, eq_refl t.id)) ∙ a.0,
  Agrees-cong m n ts (λ k h. same k (ground arith)) a.1,
)

apart :
    (xs : List String) (x k : String)
    → contains xs x ≡ false
    → contains xs k ≡ true
    → x == k ≡ false
apart xs x k h g = elim (Bool-cases (x == k)) [
  | inl e ↦ let same : x ≡ k = (eq_iff x k).0 e in absurd (cc (ap (contains xs) same))
  | inr e ↦ e
]

sweep-Agrees :
    (ids : Dict Task) (m : Dict TaskStatus) (ts : List Task)
    → IsDistinct (ids_of ts)
    → Agrees m ts
    → Agrees (sweep ids m ts).statuses (sweep ids m ts).tasks
unfolding sweep
sweep-Agrees ids m [] d a = tt
sweep-Agrees ids m (t ∷ ts) d a =
    let v = visit ids m t in
    let own : get (sweep ids v.statuses ts).statuses v.task.id ≡ some v.task.status =
      ground (arith, visit_id ids m t, sweep_other ids v.statuses ts t.id, visit_own ids m t a.0) in
    (
      own,
      sweep-Agrees ids v.statuses ts d.1 (
          Agrees-cong m v.statuses ts
            (λ k h. visit_other ids m t k (apart (ids_of ts) t.id k d.0 h)) a.1),
    )

sweep_same :
    (ids : Dict Task) (m : Dict TaskStatus) (ts : List Task)
    → (sweep ids m ts).changed ≡ false
    → (sweep ids m ts).tasks ≡ ts
unfolding sweep
sweep_same ids m [] h = refl
sweep_same ids m (t ∷ ts) h =
    ground (arith, visit_same ids m t, sweep_same ids (visit ids m t).statuses ts)

SettledBy-cong :
    (ids : Dict Task) (m n : Dict TaskStatus) (t : Task)
    → ((k : String) → get n k ≡ get m k)
    → SettledBy ids n t
    → SettledBy ids m t
unfolding all_done any_failed
SettledBy-cong ids m n t same s =
    subst
      (λ g.
        is_open t.status ≡ true
        → ((missing ids t.depends_on
                || any (status_in is_stuck) (map g (keep (known ids) t.depends_on)))
              ≡ true
            → t.status ≡ TaskStatus.blocked)
          × ((all (status_in is_finished) (map g (keep (known ids) t.depends_on))
                  && not (missing ids t.depends_on))
                ≡ true
              → t.status ≡ TaskStatus.ready))
      (fun_ext same) s

sweep_settled :
    (ids : Dict Task) (m : Dict TaskStatus) (ts : List Task)
    → (sweep ids m ts).changed ≡ false
    → Agrees m ts
    → All (SettledBy ids m) ts
unfolding sweep
sweep_settled ids m [] h a = tt
sweep_settled ids m (t ∷ ts) h a =
    let v = visit ids m t in
    let quiet : v.changed ≡ false = ground arith in
    let still = visit_still ids m t quiet a.0 in
    (
      visit_settled ids m t quiet,
      All-map (SettledBy ids v.statuses) (SettledBy ids m) ts
          (λ u. SettledBy-cong ids m v.statuses u still)
          (sweep_settled ids v.statuses ts (ground arith)
            (Agrees-cong m v.statuses ts (λ k _. still k) a.1)),
    )

-- What holds when the loop has stopped by itself.
pub record Stopped (ids : Dict Task) (start : List Task) (m : Dict TaskStatus) (ts : List Task)
    : Type 0 where
  pub same_ids : ids_of ts ≡ ids_of start
  pub agrees : Agrees m ts
  pub settled : All (SettledBy ids m) ts

pub settle-Stopped :
    (fuel : ℕ) (ids : Dict Task) (m : Dict TaskStatus) (ts : List Task)
    → IsDistinct (ids_of ts)
    → Agrees m ts
    → (settle fuel ids m ts).changed ≡ false
    → (n : Dict TaskStatus) × Stopped ids ts n (settle fuel ids m ts).tasks
unfolding settle
settle-Stopped zero ids m ts d a h = cc
settle-Stopped (suc fuel) ids m ts d a h = elim (Bool-cases (sweep ids m ts).changed) [
  | inl more ↦
      let s = sweep ids m ts in
      let again : settle (suc fuel) ids m ts ≡ settle fuel ids s.statuses s.tasks =
        rw (more, settle) in
      let (n, r) =
        settle-Stopped fuel ids s.statuses s.tasks (rw (sweep_ids ids m ts) d)
          (sweep-Agrees ids m ts d a) (rw again at h) in
      (
        n,
        rw again (record {
          same_ids = r.same_ids ∙ sweep_ids ids m ts;
          agrees = r.agrees;
          settled = r.settled;
        }),
      )
  | inr stop ↦
      let s = sweep ids m ts in
      let last : (settle (suc fuel) ids m ts).tasks ≡ ts =
        rw (stop, settle) (sweep_same ids m ts stop) in
      (m, rw last (record { same_ids = refl; agrees = a; settled = sweep_settled ids m ts stop a }))
]
