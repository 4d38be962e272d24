-- ===== src/Plan/Resolve/Frame.antt =====
-- What _resolve_statuses leaves alone.
use diploid_agent.Prelude.{ℕ, zero, suc, ◌≡◌, refl, List, [], ◌∷◌, if◌then◌else◌, arith, map}
use diploid_agent.Prelude.Dict.{Dict}
use diploid_agent.Plan.Models.{TaskStatus, Task, is_open}
use diploid_agent.Plan.Resolve.{visit, sweep, settle, settle_all, enough, by_id, status_map}

-- A task with its status forgotten, if it is PENDING, READY or BLOCKED.
abbrev pub skeleton : Task → Task
skeleton t = record t { status = if is_open t.status then TaskStatus.pending else t.status }

visit-skeleton :
    (ids : Dict Task) (m : Dict TaskStatus) (t : Task) → skeleton (visit ids m t).task ≡ skeleton t
unfolding visit
visit-skeleton ids m t = ground arith

sweep-skeleton :
    (ids : Dict Task) (m : Dict TaskStatus) (ts : List Task)
    → map skeleton (sweep ids m ts).tasks ≡ map skeleton ts
unfolding sweep
sweep-skeleton ids m [] = refl
sweep-skeleton ids m (t ∷ ts) =
    cc (visit-skeleton ids m t, sweep-skeleton ids (visit ids m t).statuses ts)

settle-skeleton :
    (fuel : ℕ) (ids : Dict Task) (m : Dict TaskStatus) (ts : List Task)
    → map skeleton (settle fuel ids m ts).tasks ≡ map skeleton ts
unfolding settle
settle-skeleton zero ids m ts = refl
settle-skeleton (suc fuel) ids m ts =
    let s = sweep ids m ts in
    ground (arith, sweep-skeleton ids m ts, settle-skeleton fuel ids s.statuses s.tasks)

-- _resolve_statuses changes nothing of a task but its status, and that only where it is PENDING,
-- READY or BLOCKED; tasks are neither added, removed nor reordered.
pub settle_all-skeleton :
    (tasks : List Task) → map skeleton (settle_all tasks).tasks ≡ map skeleton tasks
unfolding settle_all
settle_all-skeleton tasks =
    settle-skeleton (enough tasks) (by_id tasks []) (status_map tasks []) tasks
