-- ===== src/Plan/Resolve/Termination.antt =====
-- The `while changed` loop of _resolve_statuses ends: each task changes at most twice.
use diploid_agent.Prelude.{
  ℕ, zero, suc, ◌+◌, ◌*◌, ◌≤◌, ◌<◌, ◌≡◌, refl, String, Bool, true, false, ◌||◌, Option, none, some,
  List, [], ◌∷◌, if◌then◌else◌, length, arith, keep, all, any, map,
}
use diploid_agent.Prelude.Dict.{Dict, get, put, get-put}
use diploid_agent.Plan.Models.{TaskStatus, Task, is_finished, is_stuck}
use diploid_agent.Plan.Resolve.{
  visit, sweep, settle, settle_all, all_done, any_failed, status_in, known, missing, is_empty,
  enough, by_id, status_map,
}

-- Going from `m` to `n`, no entry becomes finished.
abbrev Fades : Dict TaskStatus → Dict TaskStatus → Type 0
Fades m n =
    (d : String) → status_in is_finished (get n d) ≡ true → status_in is_finished (get m d) ≡ true

Fades-put :
    (m : Dict TaskStatus) (k : String) (s : TaskStatus)
    → is_finished s ≡ false
    → Fades m (put m k s)
Fades-put m k s unfinished d h = ground (arith, get-put m k d s)

finished-Fades :
    (ids : Dict Task) (m n : Dict TaskStatus) (deps : List String)
    → Fades m n
    → all (status_in is_finished) (map (get n) (keep (known ids) deps)) ≡ true
    → all (status_in is_finished) (map (get m) (keep (known ids) deps)) ≡ true
finished-Fades ids m n [] f h = refl
finished-Fades ids m n (d ∷ deps) f h = ground (arith, f d, finished-Fades ids m n deps f)

all_done-Fades :
    (ids : Dict Task) (m n : Dict TaskStatus) (deps : List String)
    → Fades m n
    → all_done ids n deps ≡ true
    → all_done ids m deps ≡ true
unfolding all_done
all_done-Fades ids m n deps f h = ground (arith, finished-Fades ids m n deps f)

-- The changes that a task may still make.
potential : Dict Task → Dict TaskStatus → Task → ℕ
potential ids m t =
    if all_done ids m t.depends_on
    then (elim t.status [ TaskStatus.ready ↦ 1 | _ ↦ 2 ])
    else (elim t.status [ TaskStatus.blocked ↦ 0 | _ ↦ 1 ])

potential-Fades :
    (ids : Dict Task) (m n : Dict TaskStatus) (t : Task)
    → Fades m n
    → potential ids n t ≤ potential ids m t
unfolding potential
potential-Fades ids m n t f = ground (arith, all_done-Fades ids m n t.depends_on f)

stuck_not_finished :
    (xs : List (Option TaskStatus))
    → any (status_in is_stuck) xs ≡ true
    → all (status_in is_finished) xs ≡ false
stuck_not_finished [] h = cc
stuck_not_finished (none ∷ xs) h = refl
stuck_not_finished (some s ∷ xs) h = ground (arith, stuck_not_finished xs)

pub blocked_not_done :
    (ids : Dict Task) (m : Dict TaskStatus) (deps : List String)
    → (missing ids deps || any_failed ids m deps) ≡ true
    → all_done ids m deps ≡ false
unfolding all_done any_failed
blocked_not_done ids m deps h =
    ground (arith, stuck_not_finished (map (get m) (keep (known ids) deps)))

pub empty_done :
    (ids : Dict Task) (m : Dict TaskStatus) (deps : List String)
    → is_empty deps ≡ true
    → all_done ids m deps ≡ true
unfolding all_done
empty_done ids m [] h = refl
empty_done ids m (d ∷ deps) h = cc

-- A visit lets no entry become finished.
visit-Fades : (ids : Dict Task) (m : Dict TaskStatus) (t : Task) → Fades m (visit ids m t).statuses
unfolding visit
visit-Fades ids m t d h = ground (
  arith,
  get-put m t.id d TaskStatus.blocked,
  get-put m t.id d TaskStatus.ready,
  get-put m t.id d t.status,
)

abbrev tick : Bool → ℕ
tick true = 1
tick false = 0

-- With the statuses held, a change uses up the potential of its task.
potential-visit :
    (ids : Dict Task) (m : Dict TaskStatus) (t : Task)
    → potential ids m (visit ids m t).task + tick (visit ids m t).changed ≤ potential ids m t
unfolding visit potential
potential-visit ids m t =
    ground (arith, blocked_not_done ids m t.depends_on, empty_done ids m t.depends_on)

total : Dict Task → Dict TaskStatus → List Task → ℕ
total ids m [] = 0
total ids m (t ∷ ts) = potential ids m t + total ids m ts

total-Fades :
    (ids : Dict Task) (m n : Dict TaskStatus) (ts : List Task)
    → Fades m n
    → total ids n ts ≤ total ids m ts
unfolding total
total-Fades ids m n [] f = omega arith
total-Fades ids m n (t ∷ ts) f =
    omega (arith, potential-Fades ids m n t f, total-Fades ids m n ts f)

sweep-Fades :
    (ids : Dict Task) (m : Dict TaskStatus) (ts : List Task) → Fades m (sweep ids m ts).statuses
unfolding sweep
sweep-Fades ids m [] d h = h
sweep-Fades ids m (t ∷ ts) d h =
    visit-Fades ids m t d (sweep-Fades ids (visit ids m t).statuses ts d h)

sweep_total :
    (ids : Dict Task) (m : Dict TaskStatus) (ts : List Task)
    → total ids (sweep ids m ts).statuses (sweep ids m ts).tasks + tick (sweep ids m ts).changed
      ≤ total ids m ts
unfolding sweep total
sweep_total ids m [] = omega arith
sweep_total ids m (t ∷ ts) =
    let v = visit ids m t in
    let s = sweep ids v.statuses ts in
    ground (
      arith,
      potential-visit ids m t,
      potential-Fades ids m v.statuses v.task (visit-Fades ids m t),
      potential-Fades ids v.statuses s.statuses v.task (sweep-Fades ids v.statuses ts),
      total-Fades ids m v.statuses ts (visit-Fades ids m t),
      sweep_total ids v.statuses ts,
    )

potential-le : (ids : Dict Task) (m : Dict TaskStatus) (t : Task) → potential ids m t ≤ 2
unfolding potential
potential-le ids m t = ground arith

total-le : (ids : Dict Task) (m : Dict TaskStatus) (ts : List Task) → total ids m ts ≤ 2 * length ts
unfolding total
total-le ids m [] = omega arith
total-le ids m (t ∷ ts) = omega (arith, potential-le ids m t, total-le ids m ts)

settle_ends :
    (fuel : ℕ) (ids : Dict Task) (m : Dict TaskStatus) (ts : List Task)
    → total ids m ts < fuel
    → (settle fuel ids m ts).changed ≡ false
unfolding settle
settle_ends zero ids m ts h = absurd (omega arith)
settle_ends (suc fuel) ids m ts h = ground (
  arith,
  sweep_total ids m ts,
  settle_ends fuel ids (sweep ids m ts).statuses (sweep ids m ts).tasks,
)

-- The loop of _resolve_statuses ends on every list of tasks, also with repeated ids and cycles:
-- it stops at a round that changes nothing, after at most twice as many rounds as there are tasks
-- and one more.
pub settle_all-changed : (tasks : List Task) → (settle_all tasks).changed ≡ false
unfolding settle_all
settle_all-changed tasks =
    settle_ends (enough tasks) (by_id tasks []) (status_map tasks []) tasks
      (omega (arith, total-le (by_id tasks []) (status_map tasks []) tasks))
