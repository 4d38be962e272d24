-- ===== src/Restart/Drain.antt =====
-- The drain of runtime/restart.py ends: the gate for new turns is not left shut by an alive process.
use diploid_agent.Prelude.{
  ℕ, zero, suc, ◌+◌, ◌≡◌, refl, sym, ap, subst, ◌∙◌, String, Bool, true, false, not, ◌||◌, Option,
  none, some, List, [], ◌∷◌, ◌++◌, if◌then◌else◌, any, arith, Bool-cases, Option-cases, inl, inr,
  ltb,
}
use diploid_agent.Restart.{
  Config, Job, Restart, Step, agent_asks, operator_asks, drain_ends, manager_answers,
  watchdog_wakes, happen, run, pick, drained, answered, reap, restart_failed, on_service_restart,
  schedule_draining_restart, notify_agent_restart, is_self_unit, agent_restart_verdict,
}

abbrev pub is_foreign : Config → Job → Bool
is_foreign c j = not (is_self_unit c j.service)

abbrev pub is_empty : List Job → Bool
is_empty [] = true
is_empty (_ ∷ _) = false

-- Some thread is left that will open the gate.
abbrev pub is_watched : Config → Restart → Bool
is_watched c r =
    not (is_empty r.drains) || (any (is_foreign c) r.schedulers || not (is_empty r.watchdogs))

-- The process is up, and when it drains, some thread will end that.
abbrev pub IsWatched : Config → Restart → Type 0
IsWatched c r = (r.started ≡ true) × ((not r.restart_draining || is_watched c r) ≡ true)

any-append_one :
    (p : Job → Bool) (js : List Job) (j : Job) → any p (js ++ j ∷ []) ≡ (any p js || p j)
any-append_one p [] j = ground arith
any-append_one p (k ∷ js) j = ground (arith, any-append_one p js j)

empty-append_one : (js : List Job) (j : Job) → is_empty (js ++ j ∷ []) ≡ false
empty-append_one [] j = refl
empty-append_one (k ∷ js) j = refl

pick-none : (n : ℕ) (k : Job) (js : List Job) → pick n js ≡ none → pick (suc n) (k ∷ js) ≡ none
unfolding pick
pick-none n k js e = rw (pick, e) refl

pick-some :
    (n : ℕ) (k : Job) (js : List Job) (m : Job) (ms : List Job)
    → pick n js ≡ some (m, ms)
    → pick (suc n) (k ∷ js) ≡ some (m, k ∷ ms)
unfolding pick
pick-some n k js m ms e = rw (pick, e) refl

pick_first : (k : Job) (js : List Job) → pick zero (k ∷ js) ≡ some (k, js)
unfolding pick
pick_first k js = refl

swapped : (a b d : Bool) → (a || (b || d)) ≡ (b || (a || d))
swapped a b d = ground arith

any-pick :
    (p : Job → Bool) (n : ℕ) (js : List Job) (j : Job) (rest : List Job)
    → pick n js ≡ some (j, rest)
    → any p js ≡ (p j || any p rest)
unfolding pick
any-pick p n [] j rest e = cc
any-pick p zero (k ∷ js) j rest e = cc (pick_first k js)
any-pick p (suc n) (k ∷ js) j rest e = elim (Option-cases (pick n js)) [
  | inl f ↦ cc (pick-none n k js f)
  | inr ((m, ms), f) ↦
      let here = pick-some n k js m ms f in
      let m_j : m ≡ j = cc in
      let ms_rest : k ∷ ms ≡ rest = cc in
      ap (λ b. p k || b) (any-pick p n js m ms f)
      ∙ swapped (p k) (p m) (any p ms)
      ∙ ap (λ x. p x || any p (k ∷ ms)) m_j
      ∙ ap (λ xs. p j || any p xs) ms_rest
]

failed-IsWatched :
    (c : Config) (j : Job) (cause : String) (r : Restart)
    → r.started ≡ true
    → IsWatched c (restart_failed c j cause r)
unfolding restart_failed
failed-IsWatched c j cause r s = ground (arith, s)

drained-IsWatched :
    (c : Config) (j : Job) (r : Restart) → r.started ≡ true → IsWatched c (drained c j r)
unfolding drained
drained-IsWatched c j r s =
    ground (arith, s, any-append_one (is_foreign c) r.schedulers j, empty-append_one r.watchdogs j)

schedule-IsWatched :
    (c : Config) (now : ℕ) (j : Job) (r : Restart)
    → IsWatched c r
    → IsWatched c (schedule_draining_restart c now j r).0
unfolding schedule_draining_restart
schedule-IsWatched c now j r w = ground (arith, w.0, w.1, empty-append_one r.drains j)

agent-IsWatched :
    (c : Config) (now : ℕ) (service reason : String) (r : Restart)
    → IsWatched c r
    → IsWatched c (on_service_restart c now service reason r).0
unfolding on_service_restart schedule_draining_restart notify_agent_restart
agent-IsWatched c now service reason r w =
    elim (Option-cases (agent_restart_verdict c service reason)) [
      | inr (v, e) ↦ rw (on_service_restart, e) (ground (arith, w.0, w.1))
      | inl n ↦ elim (Bool-cases (ltb now (r.last_service_restart_at + r.cooldown_seconds))) [
        | inl t ↦ rw (on_service_restart, n) (rw t w)
        | inr f ↦
            rw (on_service_restart, n)
              (rw f (
                ground (
                  arith,
                  w.0,
                  w.1,
                  empty-append_one r.drains
                      (record { service = service; chat_id = none; reason = reason }),
                )))
      ]
    ]

answered-IsWatched :
    (c : Config) (n : ℕ) (j : Job) (rest : List Job) (failure : Option String) (r : Restart)
    → IsWatched c r
    → pick n r.schedulers ≡ some (j, rest)
    → IsWatched c (answered c j failure (record r { schedulers = rest }))
unfolding answered
answered-IsWatched c n j rest (some cause) r w e =
    failed-IsWatched c j cause (record r { schedulers = rest }) w.0
answered-IsWatched c n j rest none r w e =
    ground (arith, w.0, w.1, any-pick (is_foreign c) n r.schedulers j rest e)

reap_running :
    (c : Config) (j : Job) (r : Restart)
    → r.started ≡ true
    → r.restart_draining ≡ true
    → reap c j r ≡ restart_failed c j "scheduled restart never fired" r
unfolding reap
reap_running c j r s d =
    let goes_on : (not r.started || not r.restart_draining) ≡ false = ground (arith, s, d) in
    ap (λ b. if b then r else restart_failed c j "scheduled restart never fired" r) goes_on

reap-IsWatched :
    (c : Config) (j : Job) (rest : List Job) (r : Restart)
    → IsWatched c r
    → IsWatched c (reap c j (record r { watchdogs = rest }))
unfolding reap
reap-IsWatched c j rest r w =
    let left : Restart = record r { watchdogs = rest } in
    elim (Bool-cases r.restart_draining) [
      | inl t ↦
          subst (IsWatched c) (sym (reap_running c j left w.0 t))
            (failed-IsWatched c j "scheduled restart never fired" left w.0)
      | inr f ↦ ground (arith, w.0, f)
    ]

happen-IsWatched :
    (c : Config) (s : Step) (r : Restart) → IsWatched c r → IsWatched c (happen c s r)
unfolding happen
happen-IsWatched c (agent_asks now service reason) r w = agent-IsWatched c now service reason r w
happen-IsWatched c (operator_asks now job) r w = schedule-IsWatched c now job r w
happen-IsWatched c (drain_ends n) r w = elim (Option-cases (pick n r.drains)) [
  | inl f ↦ rw (happen, f) w
  | inr ((j, rest), f) ↦ rw (happen, f) (drained-IsWatched c j (record r { drains = rest }) w.0)
]
happen-IsWatched c (manager_answers n failure) r w = elim (Option-cases (pick n r.schedulers)) [
  | inl f ↦ rw (happen, f) w
  | inr ((j, rest), f) ↦ rw (happen, f) (answered-IsWatched c n j rest failure r w f)
]
happen-IsWatched c (watchdog_wakes n) r w = elim (Option-cases (pick n r.watchdogs)) [
  | inl f ↦ rw (happen, f) w
  | inr ((j, rest), f) ↦ rw (happen, f) (reap-IsWatched c j rest r w)
]

run-IsWatched :
    (c : Config) (ss : List Step) (r : Restart) → IsWatched c r → IsWatched c (run c ss r)
unfolding run
run-IsWatched c [] r w = w
run-IsWatched c (s ∷ ss) r w = run-IsWatched c ss (happen c s r) (happen-IsWatched c s r w)

shut : (b : Bool) → (not b || false) ≡ true → b ≡ false
shut b h = ground (arith, h)

open_gate :
    (c : Config) (s : Restart)
    → IsWatched c s
    → s.drains ≡ []
    → s.schedulers ≡ []
    → s.watchdogs ≡ []
    → s.restart_draining ≡ false
open_gate c s v a b d =
    let nobody : is_watched c s ≡ false =
      ap
        (λ xs. not (is_empty xs) || (any (is_foreign c) s.schedulers || not (is_empty s.watchdogs)))
        a
      ∙ ap (λ xs. any (is_foreign c) xs || not (is_empty s.watchdogs)) b
      ∙ ap (λ xs. not (is_empty xs)) d in
    shut s.restart_draining (ap (λ x. not s.restart_draining || x) (sym nobody) ∙ v.1)

-- The process does not stay closed: after any requests of agents and operators and any ends of the
-- threads, in any order and with any answers of the service manager, when no thread is left, the
-- process accepts turns again (if it is alive). The start is any state in which a running process
-- either does not drain or has a thread that will end the drain.
pub gate_reopens :
    (c : Config) (ss : List Step) (r : Restart)
    → IsWatched c r
    → (run c ss r).drains ≡ []
    → (run c ss r).schedulers ≡ []
    → (run c ss r).watchdogs ≡ []
    → (run c ss r).restart_draining ≡ false
gate_reopens c ss r w no_drains no_schedulers no_watchdogs =
    open_gate c (run c ss r) (run-IsWatched c ss r w) no_drains no_schedulers no_watchdogs
