-- ===== src/Dispatch/Tests.antt =====
-- Runs of dispatch.py on a store of two dispatches.
use diploid_agent.Prelude.{◌≡◌, ◌≤◌, refl, String, true, false, Option, none, some, [], ◌∷◌, length}
use diploid_agent.Prelude.Dict.{get}
use diploid_agent.Dispatch.{Dispatch, DispatchStatus, Store, terminals, evict_terminal}
use diploid_agent.Dispatch.Eviction.{IsValid, evict_terminal_keeps_pending}
use diploid_agent.Dispatch.Capacity.{evict_terminal_bound}
use diploid_agent.Dispatch.Results.{Report, report_all, IsKept, result_is_final}

abbrev dispatch : String → DispatchStatus → Option String → Dispatch
dispatch id status result = record {
  id = id;
  chat_id = "chat";
  session_id = "session";
  status = status;
  result = result;
  context = none;
  type = "dispatch";
  started_at = some 1;
  finished_at = none;
  summary = none;
  stop_reason = none;
  cancelled = false;
  partial = false;
  timed_out = false;
  full_result_path = none;
}

abbrev two_dispatches : Store
two_dispatches =
    ("p", dispatch "p" DispatchStatus.pending none)
    ∷ ("q", dispatch "q" DispatchStatus.completed (some "done"))
    ∷ []

two_dispatches-IsValid : IsValid two_dispatches
two_dispatches-IsValid = ((refl, (refl, tt)), (refl, (refl, tt)))

p_is_there : get two_dispatches "p" ≡ some (dispatch "p" DispatchStatus.pending none)
unfolding get
p_is_there = refl

q_is_there : get two_dispatches "q" ≡ some (dispatch "q" DispatchStatus.completed (some "done"))
unfolding get
q_is_there = refl

evict_terminal_keeps_pending_example :
    get (evict_terminal 999999 two_dispatches) "p" ≡ some (dispatch "p" DispatchStatus.pending none)
evict_terminal_keeps_pending_example =
    evict_terminal_keeps_pending 999999 two_dispatches "p"
      (dispatch "p" DispatchStatus.pending none) two_dispatches-IsValid p_is_there refl

evict_terminal_bound_example : length (terminals (evict_terminal 999999 two_dispatches)) ≤ 200
evict_terminal_bound_example = evict_terminal_bound 999999 two_dispatches two_dispatches-IsValid

abbrev late_report : Report
late_report = record {
  id = "q";
  result = "other";
  closing = record {
    summary = none;
    finished_at = some 9;
    status = some DispatchStatus.failed;
    stop_reason = none;
    cancelled = false;
    partial = false;
    timed_out = false;
    full_result_path = none;
  };
  now = 9;
}

result_is_final_example :
    IsKept
      (report_all true (late_report ∷ []) two_dispatches)
      "q"
      (dispatch "q" DispatchStatus.completed (some "done"))
result_is_final_example =
    result_is_final true (late_report ∷ []) two_dispatches "q"
      (dispatch "q" DispatchStatus.completed (some "done")) two_dispatches-IsValid q_is_there refl
      (refl, tt)
