-- ===== src/Tasks/Worker.antt =====
-- WorkerPool of task/worker.py. A future is the plan of its task and whether it is done, which the
-- threads decide. `submit` and `resize` may raise; `executor.submit` raises after `shutdown`.
pub mod Flight
use diploid_agent.Prelude.{
  ℕ, String, Bool, true, false, not, Option, none, some, [], ◌∷◌, if◌then◌else◌, ltb, nat_eq,
}
use diploid_agent.Prelude.Dict.{Dict, get, put}

pub record Future : Type 0 where
  pub plan_id : String
  pub done : Bool

pub record Pool : Type 0 where
  pub running : Bool
  pub max_workers : ℕ
  pub futures : Dict Future

pub data PoolError : Type 0 where
  value_error runtime_error : PoolError

-- A method that may raise: the error, if any, and the state that it leaves.
pub record Raised (S : Type 0) : Type 0 where
  pub error : Option PoolError
  pub state : S

abbrev pub fine : {S : Type 0} → S → Raised S
fine s = record { error = none; state = s }

abbrev pub raise : {S : Type 0} → PoolError → S → Raised S
raise e s = record { error = some e; state = s }

-- {task_id: future for ... if not future.done()}
unfoldable pub undone : Dict Future → Dict Future
undone [] = []
undone ((k, f) ∷ fs) = if not f.done then (k, f) ∷ undone fs else undone fs

abbrev pub prune_done : Pool → Pool
prune_done p = record p { futures = undone p.futures }

-- The new executor takes the place of the old one; its workers are not modelled.
unfoldable pub resize : ℕ → Pool → Raised Pool
unfolding undone
resize max_workers p =
    if ltb max_workers 1
    then raise value_error p
    else if not p.running
    then fine p
    else if nat_eq max_workers p.max_workers
    then fine p
    else (let pruned = prune_done p in fine (record pruned { max_workers = max_workers }))

abbrev pub in_flight : Option Future → Bool
in_flight none = false
in_flight (some f) = not f.done

unfoldable pub submit : (plan_id task_id : String) → Pool → Raised Pool
unfolding undone
submit plan_id task_id p =
    let pruned = prune_done p in
    if in_flight (get pruned.futures task_id)
    then fine pruned
    else if p.running
    then fine (record pruned {
      futures = put pruned.futures task_id (record { plan_id = plan_id; done = false });
    })
    else raise runtime_error pruned

unfoldable pub is_in_flight : String → Pool → Bool
is_in_flight task_id p = in_flight (get p.futures task_id)

unfoldable pub shutdown : Pool → Pool
unfolding undone
shutdown p = let stopped : Pool = record p { running = false } in prune_done stopped
