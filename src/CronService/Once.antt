-- ===== src/CronService/Once.antt =====
-- `_finalize` of runtime/cron_service.py claims a run once; the event bus and the tick both call it.
use diploid_agent.Prelude.{
  ◌≡◌, refl, sym, ◌∙◌, ap, subst, String, Bool, true, false, not, ◌&&◌, ◌==◌, Option, none, some,
  arith, opt_eq, Bool-cases, inl, inr,
}
use diploid_agent.Prelude.Dict.{get, get-pop_self}
use diploid_agent.Plan.Models.{Task}
use diploid_agent.Plan.Manager
use diploid_agent.Cron
use diploid_agent.Cron.{CronJobState, Store}
use diploid_agent.CronService.Jobs.{ResolvedJob}
use diploid_agent.CronService.State.{Service, Clock, now_of, save_state}
use diploid_agent.CronService.Materialize.{plain}
use diploid_agent.CronService.Finalize.{
  landed, counted, adopted, closed_state, deliver_to, refire, finish, finalize, succeeded,
}
use diploid_agent.CronService.Runs.{
  run_of, run_at-update, IsClear, materialize-IsClear, store-deliver_to,
}

-- A closed state is idle, and belongs to the same job.
pub closed_state_idle :
    (c : Clock) (job : Option ResolvedJob) (t : Task) (ok : Bool) (state : CronJobState)
    → let state' = closed_state c job t ok state in
      (state'.running_task_id ≡ none) × (state'.job_id ≡ state.job_id)
unfolding closed_state landed counted adopted
closed_state_idle c none t ok state = ground arith
closed_state_idle c (some r) t ok state = ground arith

module _ (c : Clock) (old j : String)
    (fresh : (m : Manager.Manager) → c.new_task_id m == old ≡ false) where
  refire-IsClear :
      (job : Option ResolvedJob) (state : CronJobState) (s : Service)
      → state.job_id ≡ j
      → state.running_task_id ≡ none
      → IsClear old j s.store
      → IsClear old j (refire c job state s).store
  unfolding refire Cron.drop
  refire-IsClear none state s own idle clear =
      rw own (ap (λ o. opt_eq (run_of o) old) (get-pop_self s.store j))
  refire-IsClear (some r) state s own idle clear =
      elim (Bool-cases (state.queued_due && not state.disabled)) [
        | inr f ↦ rw (refire, f) clear
        | inl e ↦
            let state' : CronJobState = record state { queued_due = false } in
            rw (refire, e)
              (materialize-IsClear c old j r state' plain (save_state c state' s) fresh own (
                ap (λ x. opt_eq x old) (run_at-update (now_of c) state' s.store j own)
                ∙ rw idle refl))
      ]

  finish-IsClear :
      (job : Option ResolvedJob) (t : Task) (event_failed : Bool) (state : CronJobState)
      → (s : Service) → state.job_id ≡ j
      → IsClear old j (finish c job t event_failed state s).store
  unfolding finish
  finish-IsClear job t event_failed state s own =
      let state' = closed_state c job t (succeeded t event_failed) state in
      let facts = closed_state_idle c job t (succeeded t event_failed) state in
      let saved = save_state c state' s in
      let idle : IsClear old j saved.store =
        ap (λ x. opt_eq x old) (run_at-update (now_of c) state' s.store j (facts.1 ∙ own))
        ∙ rw facts.0 refl in
      refire-IsClear job state' (deliver_to c state' job t saved) (facts.1 ∙ own) facts.0
        (rw (store-deliver_to c state' job t saved) idle)

finalize_clear :
    (c : Clock) (j : String) (t : Task) (event_failed : Bool) (s : Service)
    → IsClear t.id j s.store
    → finalize c j t event_failed s ≡ s
unfolding finalize
finalize_clear c j t event_failed s clear = ground arith

pub finalize_claims :
    (c : Clock) (j : String) (t : Task) (event_failed : Bool) (s : Service) (state : CronJobState)
    → get s.store j ≡ some state
    → opt_eq state.running_task_id t.id ≡ true
    → finalize c j t event_failed s ≡ finish c (get s.jobs j) t event_failed state s
unfolding finalize
finalize_claims c j t event_failed s state found e = rw (finalize, found, e) refl

-- The event of a finished task and the tick's own look at it both finalize its run: the second call
-- changes nothing, whatever clock and event it comes with. The state stands under the id of its job,
-- and a run that starts in the first call has another id.
pub finalize_once :
    (c c' : Clock) (j : String) (t : Task) (failed failed' : Bool) (s : Service)
    → (state : CronJobState) → ((m : Manager.Manager) → c.new_task_id m == t.id ≡ false)
    → get s.store j ≡ some state
    → state.job_id ≡ j
    → let s' = finalize c j t failed s in finalize c' j t failed' s' ≡ s'
finalize_once c c' j t failed failed' s state fresh found own =
    finalize_clear c' j t failed' (finalize c j t failed s)
      (elim (Bool-cases (opt_eq state.running_task_id t.id)) [
        | inl e ↦
            subst (λ (x : Service). IsClear t.id j x.store)
              (sym (finalize_claims c j t failed s state found e))
              (finish-IsClear c t.id j fresh (get s.jobs j) t failed state s own)
        | inr e ↦
            let clear : IsClear t.id j s.store = ap (λ o. opt_eq (run_of o) t.id) found ∙ e in
            subst (λ (x : Service). IsClear t.id j x.store)
              (sym (finalize_clear c j t failed s clear)) clear
      ])
