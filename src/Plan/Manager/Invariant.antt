-- ===== src/Plan/Manager/Invariant.antt =====
-- What holds of every plan that the manager stores, through any sequence of its operations.
use diploid_agent.Prelude.{
  ℕ, ◌≡◌, refl, sym, ap, ◌∙◌, fun_ext, String, true, false, some, List, [], ◌∷◌, ◌++◌, arith,
  Bool-cases, inl, inr, all, any, All, contains, IsDistinct, find_first, ◌==◌, eq_iff,
}
use diploid_agent.Prelude.Dict.{Entries, keys}
use diploid_agent.Plan.Models.{Task, Plan, is_ready, is_finished}
use diploid_agent.Plan.Resolve.{resolve_statuses, update_plan_status, status_in}
use diploid_agent.Plan.Resolve.Rounds.{ids_of, ids_of-settle_all}
use diploid_agent.Plan.Resolve.Settled.{IsSettled, status_of, blocks, settle_all-IsSettled}
use diploid_agent.Plan.Manager.{Manager, get_task_in_plan, update_first, touch, started}

-- A plan with distinct task ids, settled tasks and the status that they give it.
pub record IsConsistent (p : Plan) : Type 0 where
  pub distinct : IsDistinct (ids_of p.tasks)
  pub settled : All (IsSettled p.tasks) p.tasks
  pub status : (update_plan_status p).status ≡ p.status

abbrev pub IsValid : Manager → Type 0
IsValid m = Entries (λ k p. (p.id ≡ k) × IsConsistent p) m.plans × IsDistinct (keys m.plans)

pub tasks-update_plan_status : (p : Plan) → (update_plan_status p).tasks ≡ p.tasks
unfolding update_plan_status
tasks-update_plan_status p = ground arith

pub id-update_plan_status : (p : Plan) → (update_plan_status p).id ≡ p.id
unfolding update_plan_status
id-update_plan_status p = ground arith

-- The status of a plan depends on its tasks alone.
status_idem :
    (p : Plan) → (update_plan_status (update_plan_status p)).status ≡ (update_plan_status p).status
unfolding update_plan_status
status_idem p = ground arith

pub touch-IsConsistent : (now : ℕ) (p : Plan) → IsConsistent p → IsConsistent (touch now p)
unfolding update_plan_status
touch-IsConsistent now p c = record {
  distinct = c.distinct;
  settled = c.settled;
  status = ground (arith, c.status);
}

pub id-renewed : (p : Plan) → (update_plan_status (resolve_statuses p)).id ≡ p.id
unfolding resolve_statuses
id-renewed p = id-update_plan_status (resolve_statuses p)

pub renewed-IsConsistent :
    (p : Plan)
    → IsDistinct (ids_of p.tasks)
    → IsConsistent (update_plan_status (resolve_statuses p))
unfolding resolve_statuses
renewed-IsConsistent p d =
    let q = resolve_statuses p in
    record {
      distinct = rw (tasks-update_plan_status q, ids_of-settle_all p.tasks) d;
      settled = rw (tasks-update_plan_status q) (settle_all-IsSettled p.tasks d);
      status = status_idem q;
    }

pub ids_of-update_first :
    (k : String) (f : Task → Task) (ts : List Task)
    → ((t : Task) → (f t).id ≡ t.id)
    → ids_of (update_first k f ts) ≡ ids_of ts
unfolding update_first
ids_of-update_first k f [] same = refl
ids_of-update_first k f (t ∷ ts) same = ground (arith, same t, ids_of-update_first k f ts same)

pub ids_of-append :
    (ts : List Task) (t : Task)
    → contains (ids_of ts) t.id ≡ false
    → IsDistinct (ids_of ts)
    → IsDistinct (ids_of (ts ++ t ∷ []))
ids_of-append [] t h d = (refl, tt)
ids_of-append (u ∷ ts) t h d =
    (fresh_last ts (ground arith) d.0, ids_of-append ts t (ground arith) d.1)
  where
    fresh_last :
        (us : List Task)
        → u.id == t.id ≡ false
        → contains (ids_of us) u.id ≡ false
        → contains (ids_of (us ++ t ∷ [])) u.id ≡ false
    fresh_last [] a b = ground (arith, eq_iff u.id t.id, eq_iff t.id u.id)
    fresh_last (v ∷ us) a b = ground (arith, fresh_last us a)

-- Starting a READY task changes nothing for the tasks that depend on it.
status_of-started :
    (now : ℕ) (k : String) (ts : List Task) (t : Task) (d : String)
    → find_first (λ u. u.id == k) ts ≡ some t
    → is_ready t.status ≡ true
    → (blocks (status_of (update_first k (started now) ts) d) ≡ blocks (status_of ts d))
      × (status_in is_finished (status_of (update_first k (started now) ts) d)
          ≡ status_in is_finished (status_of ts d))
unfolding update_first
status_of-started now k [] t d f r = (refl, refl)
status_of-started now k (u ∷ ts) t d f r = ground (arith, status_of-started now k ts t d)

module _ (xs ys : List Task)
    (stuck : (d : String) → blocks (status_of ys d) ≡ blocks (status_of xs d))
    (finished : (d : String)
      → status_in is_finished (status_of ys d) ≡ status_in is_finished (status_of xs d)) where
  IsSettled-cong : (t : Task) → IsSettled xs t → IsSettled ys t
  IsSettled-cong t s o =
      let both = s o in
      (
        λ b. both.0 (sym (ap (λ g. any g t.depends_on) (fun_ext stuck)) ∙ b),
        λ b. both.1 (sym (ap (λ g. all g t.depends_on) (fun_ext finished)) ∙ b),
      )

  started-IsSettled :
      (now : ℕ) (k : String) (ts : List Task)
      → All (IsSettled xs) ts
      → All (IsSettled ys) (update_first k (started now) ts)
  unfolding update_first
  started-IsSettled now k [] h = tt
  started-IsSettled now k (t ∷ ts) h = elim (Bool-cases (t.id == k)) [
    | inl e ↦ rw e ((λ o. cc), rest ts h.1)
    | inr e ↦ rw e (IsSettled-cong t h.0, started-IsSettled now k ts h.1)
  ]
    where
      rest : (us : List Task) → All (IsSettled xs) us → All (IsSettled ys) us
      rest [] g = tt
      rest (u ∷ us) g = (IsSettled-cong u g.0, rest us g.1)

pub started-IsConsistent :
    (now : ℕ) (k : String) (p : Plan) (t : Task)
    → get_task_in_plan p k ≡ some t
    → is_ready t.status ≡ true
    → IsConsistent p
    → IsConsistent (update_plan_status (record p { tasks = update_first k (started now) p.tasks }))
unfolding get_task_in_plan
started-IsConsistent now k p t f r c =
    let q : Plan = record p { tasks = update_first k (started now) p.tasks } in
    let facts = λ (d : String). status_of-started now k p.tasks t d f r in
    record {
      distinct =
          rw (tasks-update_plan_status q, ids_of-update_first k (started now) p.tasks (λ u. refl))
            c.distinct;
      settled = rw (tasks-update_plan_status q) (
          started-IsSettled p.tasks q.tasks (λ d. (facts d).0) (λ d. (facts d).1) now k p.tasks
            c.settled);
      status = status_idem q;
    }
