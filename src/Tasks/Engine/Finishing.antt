-- ===== src/Tasks/Engine/Finishing.antt =====
-- How a run of a task ends.
use diploid_agent.Prelude.{
  ℕ, ◌≡◌, ◌⊎◌, refl, String, Option, none, some, List, [], ◌∷◌, or_else, arith, Bool-cases,
  Option-cases, inl, inr, ◌||◌,
}
use diploid_agent.Plan.Models.{Task, is_ready}
use diploid_agent.Plan.Manager
use diploid_agent.Plan.Manager.{Manager, Flags, no_flags, completed, failed}
use diploid_agent.Plan.Manager.Lookup.{IsTerminal, finish_task-get_task, start_task_keeps}
use diploid_agent.Tasks.Worker.{PoolError, Raised, is_in_flight}
use diploid_agent.Tasks.Execute.{minus, is_zero, Outcome, Execution, outcome, exception, execute}
use diploid_agent.Tasks.Engine.{
  Event, Callback, Engine, Env, post, notify, submit_job, begin, start_task, passes, start_each,
  start_ready_dependents, crash, announce, log_or_result, conclude, run_enabled, run_disabled,
  run_task, type_in, done_call,
}

module _ (env : Env) (k j : String) where
  abbrev Has : Manager → Type 0
  Has m = (t : Task) × (Manager.get_task k j m ≡ some t)

  -- The task is there, DONE, INCOMPLETE or FAILED.
  abbrev pub IsOver : Manager → Type 0
  IsOver m = (t : Task) × (Manager.get_task k j m ≡ some t) × IsTerminal t.status

  fail_task-IsOver :
      (now later : ℕ) (log : String) (flags : Flags) (m : Manager)
      → Has m
      → IsOver (Manager.fail_task now later k j log flags m).0
        × ((t : Task) × ((Manager.fail_task now later k j log flags m).1 ≡ some t))
  unfolding Manager.fail_task
  fail_task-IsOver now later log flags m (t, h) =
      let r = finish_task-get_task (failed now log flags) later k j m t (λ u. refl) h (inr refl) in
      ((failed now log flags t, r.0, inr refl), (failed now log flags t, r.1))

  completed-IsTerminal :
      (now : ℕ) (result log : String) (flags : Flags) (t : Task)
      → IsTerminal (completed now result log flags t).status
  completed-IsTerminal now result log flags t =
      elim (Bool-cases (flags.cancelled || (flags.partial || flags.timed_out))) [
        | inl e ↦ rw e (inl refl)
        | inr e ↦ rw e (inl refl)
      ]

  complete_task-IsOver :
      (now later : ℕ) (result log : String) (flags : Flags) (m : Manager)
      → Has m
      → IsOver (Manager.complete_task now later k j result log flags m).0
        × ((t : Task) × ((Manager.complete_task now later k j result log flags m).1 ≡ some t))
  unfolding Manager.complete_task
  complete_task-IsOver now later result log flags m (t, h) =
      let term = completed-IsTerminal now result log flags t in
      let r =
        finish_task-get_task (completed now result log flags) later k j m t (λ u. refl) h term in
      ((completed now result log flags t, r.0, term), (completed now result log flags t, r.1))

  manager-submit_job :
      (p : String) (t : Task) (e : Engine) → (submit_job env p t e).0.manager ≡ e.manager
  unfolding submit_job
  manager-submit_job p t e = ground arith

  begin-IsOver : (p i : String) (e : Engine) → IsOver e.manager → IsOver (begin env p i e).0.manager
  unfolding begin
  begin-IsOver p i e (t, h, term) = go (Manager.start_task env.tick p i e.manager).1 refl
    where
      kept : IsOver (Manager.start_task env.tick p i e.manager).0
      kept = (t, start_task_keeps env.tick k j p i e.manager t h term, term)

      go :
          (o : Option Task)
          → (Manager.start_task env.tick p i e.manager).1 ≡ o
          → IsOver (begin env p i e).0.manager
      go none q = rw (q, begin) kept
      go (some u) q =
          rw (q, begin)
            (rw
              (manager-submit_job p u
                (record e { manager = (Manager.start_task env.tick p i e.manager).0 }))
              kept)

  start_task-IsOver :
      (p i : String) (e : Engine)
      → IsOver e.manager
      → IsOver (start_task env p (some i) e).0.manager
  unfolding start_task
  start_task-IsOver p i e v = go (Option-cases (Manager.get_task p i e.manager))
    where
      go :
          (Manager.get_task p i e.manager ≡ none)
            ⊎ ((u : Task) × (Manager.get_task p i e.manager ≡ some u))
          → IsOver (start_task env p (some i) e).0.manager
      go (inl n) = rw (n, start_task) v
      go (inr (u, q)) = elim (Bool-cases (is_ready u.status)) [
        | inl r ↦ rw (q, start_task) (rw r (begin-IsOver p i e v))
        | inr r ↦ rw (q, start_task) (rw r v)
      ]

  start_each-IsOver :
      (p : String) (ts : List Task) (e : Engine)
      → IsOver e.manager
      → IsOver (start_each env p ts e).state.manager
  unfolding start_each
  start_each-IsOver p [] e v = v
  start_each-IsOver p (t ∷ ts) e v =
      let next = start_task env p (some t.id) e in
      let rest = start_each-IsOver p ts next.0 (start_task-IsOver p t.id e v) in
      let skip = start_each-IsOver p ts e v in
      elim (Bool-cases (is_in_flight t.id e.pool)) [
        | inl b ↦ rw b skip
        | inr b ↦ rw b (elim (Option-cases (passes next.1)) [
          | inl n ↦ rw n rest
          | inr (x, q) ↦ rw q (start_task-IsOver p t.id e v)
        ])
      ]

  crash-IsOver :
      (error : String) (e : Engine) → Has e.manager → IsOver (crash env k j error e).manager
  unfolding crash
  crash-IsOver error e h =
      (fail_task-IsOver env.tick env.tick (env.traceback error) no_flags e.manager h).0

  announce-IsOver :
      (event : Event) (o : Outcome) (e : Engine)
      → IsOver e.manager
      → IsOver (announce env k j event o e).engine.manager
  unfolding announce start_ready_dependents
  announce-IsOver event o e v =
      let after = start_each-IsOver k (Manager.get_ready_tasks k e.manager) (post event e) v in
      elim (Option-cases (start_ready_dependents env k (post event e)).error) [
        | inl n ↦ rw (n, announce) after
        | inr (x, q) ↦
            rw (q, announce)
              (crash-IsOver env.start_error (start_ready_dependents env k (post event e)).state
                (after.0, after.1))
      ]

  conclude-IsOver :
      (o : Outcome) (e : Engine) → Has e.manager → IsOver (conclude env k j o e).engine.manager
  unfolding conclude
  conclude-IsOver o e h =
      let flags = or_else o.extra no_flags in
      let good = complete_task-IsOver env.tick env.tick o.result o.log flags e.manager h in
      let bad = fail_task-IsOver env.tick env.tick (log_or_result o) flags e.manager h in
      elim (Bool-cases (is_zero o.exit_code)) [
        | inl z ↦ rw z (rw (good.1.1, conclude) (announce-IsOver _ o _ good.0))
        | inr z ↦ rw z (rw (bad.1.1, conclude) (announce-IsOver _ o _ bad.0))
      ]

  run_enabled-IsOver :
      (t : Task) (e : Engine) → Has e.manager → IsOver (run_enabled env k t j e).engine.manager
  unfolding run_enabled
  run_enabled-IsOver t e h = go (execute env.outside env.settings t) refl
    where
      go :
          (x : Execution)
          → execute env.outside env.settings t ≡ x
          → IsOver (run_enabled env k t j e).engine.manager
      go (outcome o) q =
          rw (q, run_enabled) (conclude-IsOver o (notify (Callback.task_start k j) e) h)
      go (exception message) q =
          rw (q, run_enabled) (crash-IsOver message (notify (Callback.task_start k j) e) h)

  run_disabled-IsOver :
      (t : Task) (e : Engine) → Has e.manager → IsOver (run_disabled env k t j e).state.manager
  unfolding run_disabled start_ready_dependents
  run_disabled-IsOver t e h =
      let bad = fail_task-IsOver env.tick env.tick (env.disabled t.type) no_flags e.manager h in
      let e' : Engine = record e {
        manager =
            (Manager.fail_task env.tick env.tick k j (env.disabled t.type) no_flags e.manager).0;
      } in
      rw (bad.1.1, run_disabled)
        (start_each-IsOver k (Manager.get_ready_tasks k e'.manager)
          (post (Event.task_failed k j (env.disabled t.type) no_flags) e') bad.0)

-- Whatever the task does - it replies, exits with any code, times out, cannot be started, raises,
-- or has a disabled type - and whatever happens when its dependents are started, a run of a task
-- that is in its plan leaves the task DONE, INCOMPLETE or FAILED.
pub run_task-IsOver :
    (env : Env) (plan_id task_id : String) (e : Engine) (t : Task)
    → Manager.get_task plan_id task_id e.manager ≡ some t
    → IsOver env plan_id task_id (run_task env plan_id task_id e).state.manager
unfolding run_task
run_task-IsOver env k j e t h = elim (Bool-cases (type_in env.settings.enabled_types t.type)) [
  | inl on ↦ rw (h, run_task) (rw on (run_enabled-IsOver env k j t e (t, h)))
  | inr off ↦ rw (h, run_task) (rw off (disabled (Option-cases (run_disabled env k t j e).error)))
]
  where
    over : IsOver env k j (run_disabled env k t j e).state.manager
    over = run_disabled-IsOver env k j t e (t, h)

    disabled :
        ((run_disabled env k t j e).error ≡ none)
          ⊎ ((x : PoolError) × ((run_disabled env k t j e).error ≡ some x))
        → IsOver env k j
            (let r = run_disabled env k t j e in
              elim r.error as (λ _. Raised Engine) [
                | some error ↦ r
                | none ↦ record {
                  error = none;
                  state = done_call k j (env.disabled t.type) "" (minus 1) r.state;
                }
              ]).state.manager
    disabled (inl n) = rw n over
    disabled (inr (x, q)) = rw q over
