-- ===== src/Dispatch.antt =====
-- Dispatch records and their store: dispatch.py. The clock and the fresh ids of `uuid` are
-- arguments; `metadata` is not read by the store and is left out.
pub mod Eviction
pub mod Capacity
pub mod Results
mod Tests
use diploid_agent.Prelude.{
  ℕ, suc, ◌+◌, ◌-◌, ◌*◌, String, Bool, true, false, not, ◌&&◌, ◌||◌, ◌==◌, Option, none, some, List,
  [], ◌∷◌, if◌then◌else◌, or_else, is_some, keep, length, ltb, leb, nat_eq, take, opt_eq,
}
use diploid_agent.Prelude.Sort.{sorted}
use diploid_agent.Prelude.Dict.{Dict, get, put, pop, values}

pub data DispatchStatus : Type 0 where
  pending completed failed timeout cancelled : DispatchStatus

-- `status in _TERMINAL_STATUSES`
abbrev pub is_terminal : DispatchStatus → Bool
is_terminal DispatchStatus.pending = false
is_terminal _ = true

-- _TERMINAL_RETENTION_SECONDS, in clock ticks of a second, and _TERMINAL_MAX_KEPT.
abbrev pub terminal_retention : ℕ
terminal_retention = 7 * 86400

abbrev pub terminal_max_kept : ℕ
terminal_max_kept = 200

pub record Dispatch : Type 0 where
  pub id : String
  pub chat_id : String
  pub session_id : String
  pub status : DispatchStatus
  pub result : Option String
  pub context : Option String
  pub type : String
  pub started_at : Option ℕ
  pub finished_at : Option ℕ
  pub summary : Option String
  pub stop_reason : Option String
  pub cancelled : Bool
  pub partial : Bool
  pub timed_out : Bool
  pub full_result_path : Option String

-- `finished_at or started_at or 0.0`: zero counts as missing.
abbrev pub truthy : Option ℕ → Bool
truthy none = false
truthy (some n) = not (nat_eq n 0)

unfoldable pub age_key : Dispatch → ℕ
age_key d =
    if truthy d.finished_at
    then or_else d.finished_at 0
    else if truthy d.started_at
    then or_else d.started_at 0
    else 0

abbrev pub Store : Type 0
Store = Dict Dispatch

-- `stamp and now - stamp > _TERMINAL_RETENTION_SECONDS`, for a terminal dispatch.
unfoldable pub is_stale : ℕ → Dispatch → Bool
unfolding age_key
is_stale now d =
    is_terminal d.status && (not (nat_eq (age_key d) 0) && ltb (age_key d + terminal_retention) now)

unfoldable pub drop_stale : ℕ → Store → Store
drop_stale now [] = []
drop_stale now ((k, d) ∷ s) = if is_stale now d then drop_stale now s else (k, d) ∷ drop_stale now s

abbrev pub terminals : Store → List Dispatch
terminals s = keep (λ d. is_terminal d.status) (values s)

abbrev pub older_first : Dispatch → Dispatch → Bool
older_first a b = leb (age_key a) (age_key b)

-- `for d in ...: del self._dispatches[d.id]`
unfoldable pub delete_all : List Dispatch → Store → Store
delete_all [] s = s
delete_all (d ∷ ds) s = delete_all ds (pop s d.id)

unfoldable pub cap_terminal : Store → Store
unfolding delete_all
cap_terminal s =
    let remaining = terminals s in
    if ltb terminal_max_kept (length remaining)
    then delete_all (take (length remaining - terminal_max_kept) (sorted older_first remaining)) s
    else s

unfoldable pub evict_terminal : (now : ℕ) → Store → Store
unfolding drop_stale is_stale cap_terminal
evict_terminal now s = cap_terminal (drop_stale now s)

-- A store with a path evicts when it saves; one without a path only lives in memory.
unfoldable pub save : (has_path : Bool) → (now : ℕ) → Store → Store
unfolding evict_terminal
save has_path now s = if has_path then evict_terminal now s else s

unfoldable pub put_all : List Dispatch → Store → Store
put_all [] s = s
put_all (d ∷ ds) s = put_all ds (put s d.id d)

-- `load` at the start: the records of the lines of the file, malformed ones left out, then a save.
unfoldable pub load : (has_path : Bool) → (now : ℕ) → List Dispatch → Store → Store
unfolding save put_all
load has_path now ds s = if has_path then save has_path now (put_all ds s) else s

unfoldable pub add :
    (has_path : Bool)
    → (now : ℕ) → (unique_id : String) → (chat_id session_id : String) → (context : Option String)
    → (dispatch_type : String) → (started_at : Option ℕ) → Store
    → Store × Dispatch
unfolding save
add has_path now unique_id chat_id session_id context dispatch_type started_at s =
    (save has_path now (put s dispatch.id dispatch), dispatch)
  where
    dispatch : Dispatch
    dispatch = record {
      id = unique_id;
      chat_id = chat_id;
      session_id = session_id;
      status = DispatchStatus.pending;
      result = none;
      context = context;
      type = dispatch_type;
      started_at = started_at;
      finished_at = none;
      summary = none;
      stop_reason = none;
      cancelled = false;
      partial = false;
      timed_out = false;
      full_result_path = none;
    }

-- PENDING, TIMEOUT and CANCELLED may still take a result.
abbrev pub is_unclosed : DispatchStatus → Bool
is_unclosed DispatchStatus.pending = true
is_unclosed DispatchStatus.timeout = true
is_unclosed DispatchStatus.cancelled = true
is_unclosed _ = false

abbrev pub over {ℓ} : {A : Type ℓ} → Option A → Option A → Option A
over none old = old
over (some a) old = some a

-- The keyword arguments of set_result.
pub record Closing : Type 0 where
  pub summary : Option String
  pub finished_at : Option ℕ
  pub status : Option DispatchStatus
  pub stop_reason : Option String
  pub cancelled : Bool
  pub partial : Bool
  pub timed_out : Bool
  pub full_result_path : Option String

unfoldable pub closed : String → Closing → Dispatch → Dispatch
closed result c d = record d {
  result = if is_unclosed d.status then some result else d.result;
  summary = if is_unclosed d.status then over c.summary d.summary else d.summary;
  finished_at = if is_unclosed d.status then over c.finished_at d.finished_at else d.finished_at;
  status = or_else c.status d.status;
  stop_reason = over c.stop_reason d.stop_reason;
  cancelled = c.cancelled;
  partial = c.partial;
  timed_out = c.timed_out;
  full_result_path = over c.full_result_path d.full_result_path;
}

-- Each update finds the dispatch, changes the object, saves, and returns the object.
unfoldable pub update :
    (Dispatch → Dispatch) → (has_path : Bool) → (now : ℕ) → String → Store → Store × Option Dispatch
unfolding save
update f has_path now dispatch_id s = elim (get s dispatch_id) [
  | none ↦ (s, none)
  | some d ↦ (save has_path now (put s dispatch_id (f d)), some (f d))
]

unfoldable pub set_result :
    (has_path : Bool) → (now : ℕ) → String → String → Closing → Store → Store × Option Dispatch
unfolding update closed
set_result has_path now dispatch_id result c s = update (closed result c) has_path now dispatch_id s

abbrev pub ended : DispatchStatus → String → Dispatch → Dispatch
ended status result d = record d { status = status; result = some result }

unfoldable pub complete :
    (has_path : Bool) → (now : ℕ) → String → String → Store → Store × Option Dispatch
unfolding update
complete has_path now dispatch_id result s =
    update (ended DispatchStatus.completed result) has_path now dispatch_id s

unfoldable pub fail :
    (has_path : Bool) → (now : ℕ) → String → String → Store → Store × Option Dispatch
unfolding update
fail has_path now dispatch_id result s =
    update (ended DispatchStatus.failed result) has_path now dispatch_id s

abbrev pub same_status : DispatchStatus → DispatchStatus → Bool
same_status DispatchStatus.pending DispatchStatus.pending = true
same_status DispatchStatus.completed DispatchStatus.completed = true
same_status DispatchStatus.failed DispatchStatus.failed = true
same_status DispatchStatus.timeout DispatchStatus.timeout = true
same_status DispatchStatus.cancelled DispatchStatus.cancelled = true
same_status _ _ = false

abbrev pub status_matches : Option DispatchStatus → DispatchStatus → Bool
status_matches none s = true
status_matches (some t) s = same_status s t

unfoldable pub list_by_chat : String → Option DispatchStatus → Store → List Dispatch
list_by_chat chat_id status s =
    keep (λ d. d.chat_id == chat_id && status_matches status d.status) (values s)
