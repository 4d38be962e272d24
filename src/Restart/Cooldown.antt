-- ===== src/Restart/Cooldown.antt =====
-- The cooldown of the agent's restart requests in runtime/restart.py.
use diploid_agent.Prelude.{
  ℕ, ◌+◌, ◌≤◌, ◌≡◌, refl, sym, ◌∙◌, String, Bool, true, false, none, some, arith, Bool-cases,
  Option-cases, inl, inr, ltb,
}
use diploid_agent.Restart.{
  Config, Restart, Status, Verdict, scheduled, rejected, cooldown, no_such_unit, on_service_restart,
  schedule_draining_restart, notify_agent_restart, agent_restart_verdict,
}

module _ (c : Config) (now : ℕ) (service reason : String) (r : Restart) where
  abbrev answer : Restart × Status
  answer = on_service_restart c now service reason r

  abbrev is_early : Bool
  is_early = ltb now (r.last_service_restart_at + r.cooldown_seconds)

  refused_lem :
      (v : Verdict) → agent_restart_verdict c service reason ≡ some v → answer.1 ≡ rejected v
  unfolding on_service_restart
  refused_lem v e = rw (on_service_restart, e) refl

  early_lem : agent_restart_verdict c service reason ≡ none → is_early ≡ true → answer.1 ≡ cooldown
  unfolding on_service_restart
  early_lem n t = rw (on_service_restart, n) (rw t refl)

  missing_lem :
      agent_restart_verdict c service reason ≡ none
      → is_early ≡ false
      → c.unit_exists service ≡ false
      → answer.1 ≡ no_such_unit
  unfolding on_service_restart schedule_draining_restart
  missing_lem n f u = rw (on_service_restart, n) (rw f (rw u refl))

  accepted_lem :
      agent_restart_verdict c service reason ≡ none
      → is_early ≡ false
      → c.unit_exists service ≡ true
      → (answer.0.restart_draining ≡ true)
        × (answer.0.last_service_restart_at ≡ now)
        × (answer.0.cooldown_seconds ≡ r.cooldown_seconds)
  unfolding on_service_restart schedule_draining_restart notify_agent_restart
  accepted_lem n f u = rw (on_service_restart, n) (rw f (ground (arith, u)))

  -- A request of an agent is accepted only if the policy allows it, the cooldown is over and the
  -- unit exists; then the process drains, and the cooldown starts again.
  pub scheduled_lem :
      (on_service_restart c now service reason r).1 ≡ scheduled
      → (agent_restart_verdict c service reason ≡ none)
        × (r.last_service_restart_at + r.cooldown_seconds ≤ now)
        × (c.unit_exists service ≡ true)
        × (((on_service_restart c now service reason r).0.restart_draining ≡ true)
            × ((on_service_restart c now service reason r).0.last_service_restart_at ≡ now)
            × ((on_service_restart c now service reason r).0.cooldown_seconds ≡ r.cooldown_seconds))
  scheduled_lem h = elim (Option-cases (agent_restart_verdict c service reason)) [
    | inr (v, e) ↦ let wrong : rejected v ≡ scheduled = sym (refused_lem v e) ∙ h in cc
    | inl n ↦ elim (Bool-cases is_early) [
      | inl t ↦ let wrong : cooldown ≡ scheduled = sym (early_lem n t) ∙ h in cc
      | inr f ↦ elim (Bool-cases (c.unit_exists service)) [
        | inr u ↦ let wrong : no_such_unit ≡ scheduled = sym (missing_lem n f u) ∙ h in cc
        | inl u ↦ (n, ground (arith, f), u, accepted_lem n f u)
      ]
    ]
  ]

-- Of two requests of agents that are both accepted, one directly after the other, the second comes
-- at least the cooldown later.
pub requests_apart :
    (c : Config) (now later : ℕ) (service reason service' reason' : String) (r : Restart)
    → (on_service_restart c now service reason r).1 ≡ scheduled
    → (on_service_restart c later service' reason' (on_service_restart c now service reason r).0).1
      ≡ scheduled
    → now + r.cooldown_seconds ≤ later
requests_apart c now later service reason service' reason' r first second =
    let (_, _, _, (_, at_now, same)) = scheduled_lem c now service reason r first in
    let r' = (on_service_restart c now service reason r).0 in
    let (_, apart, _, _) = scheduled_lem c later service' reason' r' second in
    omega (arith, at_now, same, apart)
