-- ===== src/Plan/Resolve/Settled.antt =====
-- What _resolve_statuses reaches, told from the statuses of the result alone.
use diploid_agent.Prelude.{
  ◌≡◌, refl, sym, ap, ◌∙◌, String, Bool, true, false, ◌||◌, Option, none, some, List, [], ◌∷◌,
  if◌then◌else◌, arith, eq_iff, Bool-cases, inl, inr, all, any, All, All-map, contains, IsDistinct,
  ◌==◌, is_some,
}
use diploid_agent.Prelude.Dict.{Dict, get, put, get-put, get-put_self}
use diploid_agent.Plan.Models.{TaskStatus, Task, is_finished, is_open, is_stuck}
use diploid_agent.Plan.Resolve.{
  settle_all, all_done, any_failed, status_in, known, missing, enough, by_id, status_map,
}
use diploid_agent.Plan.Resolve.Termination.{settle_all-changed}
use diploid_agent.Plan.Resolve.Rounds.{ids_of, Agrees, SettledBy, settle-Stopped}

-- The independent description: the status of the task that a dependency names.
abbrev pub status_of : List Task → String → Option TaskStatus
status_of [] d = none
status_of (t ∷ ts) d = if t.id == d then some t.status else status_of ts d

-- A dependency that blocks: no task has its id, or its task is FAILED or BLOCKED.
abbrev pub blocks : Option TaskStatus → Bool
blocks none = true
blocks (some s) = is_stuck s

abbrev pub IsSettled : List Task → Task → Type 0
IsSettled tasks t =
    is_open t.status ≡ true
    → (any (λ d. blocks (status_of tasks d)) t.depends_on ≡ true → t.status ≡ TaskStatus.blocked)
      × (all (λ d. status_in is_finished (status_of tasks d)) t.depends_on ≡ true
          → t.status ≡ TaskStatus.ready)

get-status_of :
    (m : Dict TaskStatus) (ts : List Task) (d : String)
    → Agrees m ts
    → contains (ids_of ts) d ≡ true
    → get m d ≡ status_of ts d
get-status_of m [] d a h = cc
get-status_of m (t ∷ ts) d a h = elim (Bool-cases (t.id == d)) [
  | inl e ↦ rw e (ap (get m) (sym ((eq_iff t.id d).0 e)) ∙ a.0)
  | inr e ↦ rw e (get-status_of m ts d a.1 (ground arith))
]

status_of_unknown :
    (ts : List Task) (d : String) → contains (ids_of ts) d ≡ false → status_of ts d ≡ none
status_of_unknown [] d h = refl
status_of_unknown (t ∷ ts) d h = ground (arith, status_of_unknown ts d)

known_by_id :
    (ts : List Task) (acc : Dict Task) (d : String)
    → is_some (get (by_id ts acc) d) ≡ (contains (ids_of ts) d || is_some (get acc d))
unfolding by_id
known_by_id [] acc d = refl
known_by_id (t ∷ ts) acc d = ground (arith, known_by_id ts (put acc t.id t) d, get-put acc t.id d t)

status_of_known :
    (ts : List Task) (d : String)
    → contains (ids_of ts) d ≡ true
    → (s : TaskStatus) × (status_of ts d ≡ some s)
status_of_known [] d h = cc
status_of_known (t ∷ ts) d h = elim (Bool-cases (t.id == d)) [
  | inl e ↦ (t.status, rw e)
  | inr e ↦ let (s, q) = status_of_known ts d (ground arith) in (s, rw e q)
]

known_by_id_nil :
    (ts : List Task) (d : String) → is_some (get (by_id ts []) d) ≡ contains (ids_of ts) d
unfolding get
known_by_id_nil ts d = ground (arith, known_by_id ts [] d)

get-status_map_other :
    (ts : List Task) (acc : Dict TaskStatus) (k : String)
    → contains (ids_of ts) k ≡ false
    → get (status_map ts acc) k ≡ get acc k
unfolding status_map
get-status_map_other [] acc k h = refl
get-status_map_other (t ∷ ts) acc k h =
    ground (arith, get-status_map_other ts (put acc t.id t.status) k, get-put acc t.id k t.status)

status_map-Agrees :
    (ts : List Task) (acc : Dict TaskStatus)
    → IsDistinct (ids_of ts)
    → Agrees (status_map ts acc) ts
unfolding status_map
status_map-Agrees [] acc d = tt
status_map-Agrees (t ∷ ts) acc d = (
  get-status_map_other ts (put acc t.id t.status) t.id d.0 ∙ get-put_self acc t.id t.status,
  status_map-Agrees ts (put acc t.id t.status) d.1,
)

module _ (ids : Dict Task) (m : Dict TaskStatus) (ts : List Task)
    (knows : (d : String) → known ids d ≡ contains (ids_of ts) d) (agrees : Agrees m ts) where
  blocks_lem :
      (deps : List String)
      → (missing ids deps || any_failed ids m deps) ≡ any (λ d. blocks (status_of ts d)) deps
  unfolding any_failed
  blocks_lem [] = refl
  blocks_lem (d ∷ deps) = elim (Bool-cases (contains (ids_of ts) d)) [
    | inl e ↦
        let (s, q) = status_of_known ts d e in
        let found : get m d ≡ some s = get-status_of m ts d agrees e ∙ q in
        let is_known : known ids d ≡ true = knows d ∙ e in
        rw (is_known, q, found) (ground (arith, blocks_lem deps))
    | inr e ↦
        let is_unknown : known ids d ≡ false = knows d ∙ e in
        rw (is_unknown, status_of_unknown ts d e) (ground (arith, blocks_lem deps))
  ]

  done_lem :
      (deps : List String)
      → all_done ids m deps ≡ all (λ d. status_in is_finished (status_of ts d)) deps
  unfolding all_done
  done_lem [] = refl
  done_lem (d ∷ deps) = elim (Bool-cases (contains (ids_of ts) d)) [
    | inl e ↦
        let (s, q) = status_of_known ts d e in
        let found : get m d ≡ some s = get-status_of m ts d agrees e ∙ q in
        let is_known : known ids d ≡ true = knows d ∙ e in
        rw (is_known, q, found) (ground (arith, done_lem deps))
    | inr e ↦
        let is_unknown : known ids d ≡ false = knows d ∙ e in
        rw (is_unknown, status_of_unknown ts d e) (ground (arith, done_lem deps))
  ]

  settled_lem : (us : List Task) → All (SettledBy ids m) us → All (IsSettled ts) us
  settled_lem us = All-map (SettledBy ids m) (IsSettled ts) us (λ t s o.
      let both = s o in
      (λ b. both.0 (blocks_lem t.depends_on ∙ b), λ f. both.1 (done_lem t.depends_on ∙ f)))

-- After _resolve_statuses, on tasks with distinct ids, each task that has not been started is
-- BLOCKED if one of its dependencies is unknown, FAILED or BLOCKED, and READY if all of them are
-- DONE or INCOMPLETE, where the dependencies are looked up in the result itself.
pub settle_all-IsSettled :
    (tasks : List Task)
    → IsDistinct (ids_of tasks)
    → All (IsSettled (settle_all tasks).tasks) (settle_all tasks).tasks
unfolding settle_all
settle_all-IsSettled tasks distinct =
    let ids = by_id tasks [] in
    let (n, r) =
      settle-Stopped (enough tasks) ids (status_map tasks []) tasks distinct
        (status_map-Agrees tasks [] distinct) (settle_all-changed tasks) in
    settled_lem ids n (settle_all tasks).tasks (λ d. rw r.same_ids (known_by_id_nil tasks d))
      r.agrees (settle_all tasks).tasks r.settled
