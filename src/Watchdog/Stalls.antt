-- ===== src/Watchdog/Stalls.antt =====
-- What a recovery of acp_client/watchdog.py does to a transport that may have changed since the
-- check.
use diploid_agent.Prelude.{
  ℕ, ◌≤◌, ◌≡◌, refl, ◌≢◌, ◌<◌, ◌+◌, nat_eq, sym, subst, ap, ◌∙◌, ◌⊎◌, inl, inr, Bool, true, false,
  not, ◌&&◌, ◌||◌, Option, none, some, List, [], ◌∷◌, arith, is_some, ltb, Bool-cases, Option-cases,
}
use diploid_agent.Watchdog.{
  Config, Client, Watchdog, Stall, Trigger, unknown, waiting, is_empty, proc_dead,
  inflight_deadline, control_deadline, Entry, stale_generation, cleared, check, stall, is_stale,
  is_idle, is_dead, is_late, has_control_call, still_stalled, same, ref_of, recover, Proc,
  stall_recovery, write,
}
use diploid_agent.Watchdog.Unblocked.{IsUnblocked, waiting_lem, recover-IsUnblocked}

same_iff : (a b : Option ℕ) → same a b ≡ true → a ≡ b
same_iff none none h = refl
same_iff (some m) (some n) h = ap some (ground arith)
same_iff none (some n) h = cc
same_iff (some m) none h = cc

clash : {o : Option Stall} {s : Stall} → o ≡ none → o ≡ some s → ⊥
clash e f = cc

abbrev stall_of : Trigger → Client → Stall
stall_of t c = record { trigger = t; proc = ref_of c.proc; gen = c.generation }

-- What a check found is the stall and the identity of the transport that it saw.
found_lem :
    (cfg : Config) (now : ℕ) (d : Watchdog) (c : Client) (s : Stall)
    → (check cfg now d c).found ≡ some s
    → (stall cfg now c ≡ some s.trigger)
      × (s ≡ stall_of s.trigger c)
      × (is_idle c.inflight_future ≡ false)
unfolding check
found_lem cfg now d c s h = elim (Bool-cases (not d.running || is_idle c.inflight_future)) [
  | inl t ↦ let e : (check cfg now d c).found ≡ none = rw (check, t) refl in absurd (clash e h)
  | inr f ↦ elim (Option-cases (stall cfg now c)) [
    | inl n ↦
        let e : (check cfg now d c).found ≡ none = rw (check, f) (rw n refl) in absurd (clash e h)
    | inr (x, e) ↦
        let found : (check cfg now d c).found ≡ some (stall_of x c) = rw (check, f) (rw e refl) in
        let same : stall_of x c ≡ s = cc in
        let trigger : x ≡ s.trigger = ap (λ (y : Stall). y.trigger) same in
        (e ∙ ap some trigger, sym same ∙ ap (λ t. stall_of t c) trigger, ground arith)
  ]
]

-- Nothing but an entry of the log.
abbrev pub OnlyLogged : Client → Client → Type 0
OnlyLogged c r = (e : Entry) × (r ≡ write e c)

-- What each trigger says of a transport: its process has exited; its call has no answer after its
-- deadline; or a request is on its way, with no prompt, and is late by its own deadline, if it has
-- one, or by the timeout.
abbrev pub IsStalled : Config → (now : ℕ) → Trigger → Client → Type 0
IsStalled cfg now unknown c = Unit
IsStalled cfg now proc_dead c =
    (p : Proc) × (code : ℕ) × (c.proc ≡ some p) × (p.returncode ≡ some code)
IsStalled cfg now inflight_deadline c =
    (c.inflight_future ≡ some waiting) × (c.inflight_deadline < now)
IsStalled cfg now control_deadline c =
    (c.active_prompts ≡ [])
    × (c.pending ≢ [])
    × ((c.last_control_call_deadline ≡ 0) × (c.last_request_at + cfg.watchdog_timeout < now)
        ⊎ (0 < c.last_control_call_deadline) × (c.last_control_call_deadline < now))

-- The transport is the one that the check saw, and stalled.
abbrev pub StillThere : Config → (now : ℕ) → Stall → (seen later : Client) → Type 0
StillThere cfg now s seen later =
    (ref_of later.proc ≡ ref_of seen.proc)
    × (later.generation ≡ seen.generation)
    × IsStalled cfg now s.trigger later

dead_lem :
    (o : Option Proc)
    → is_dead o ≡ true
    → (p : Proc) × (code : ℕ) × (o ≡ some p) × (p.returncode ≡ some code)
dead_lem none h = cc
dead_lem (some p) h = elim (Option-cases p.returncode) [
  | inl n ↦ cc
  | inr (code, e) ↦ (p, code, refl, e)
]

empty_lem {ℓ} : {A : Type ℓ} (xs : List A) → is_empty xs ≡ true → xs ≡ []
empty_lem [] h = refl
empty_lem (x ∷ xs) h = cc

nonempty_lem {ℓ} : {A : Type ℓ} (xs : List A) → is_empty xs ≡ false → xs ≢ []
nonempty_lem [] h e = cc
nonempty_lem (x ∷ xs) h e = cc

still_stalled-IsStalled :
    (cfg : Config) (now : ℕ) (t : Trigger) (c : Client)
    → still_stalled cfg now t c ≡ true
    → IsStalled cfg now t c
unfolding still_stalled is_late
still_stalled-IsStalled cfg now unknown c h = tt
still_stalled-IsStalled cfg now proc_dead c h = dead_lem c.proc h
still_stalled-IsStalled cfg now inflight_deadline c h =
    (waiting_lem c.inflight_future (ground arith), ground arith)
still_stalled-IsStalled cfg now control_deadline c h = (
  empty_lem c.active_prompts (ground arith),
  nonempty_lem c.pending (ground arith),
  elim (Bool-cases (nat_eq c.last_control_call_deadline 0)) [
    | inl z ↦ inl (ground arith, ground arith)
    | inr n ↦ inr (ground arith, ground arith)
  ],
)

both_same :
    (g p a b : Bool) → g ≡ true → ((g || p) && (not a || not b)) ≡ false → (a ≡ true) × (b ≡ true)
both_same true p true true h k = (refl, refl)
both_same true p true false h k = cc
both_same true p false b h k = cc
both_same false p a b h k = cc

fresh_same :
    (t : Trigger) (c c' : Client)
    → is_some c.generation ≡ true
    → is_stale (stall_of t c) c' ≡ false
    → (ref_of c'.proc ≡ ref_of c.proc) × (c'.generation ≡ c.generation)
unfolding is_stale
fresh_same t c c' g f =
    let (gens, procs) =
      both_same (is_some c.generation) (is_some (ref_of c.proc)) (same c'.generation c.generation)
        (same (ref_of c'.proc) (ref_of c.proc)) g f in
    (same_iff (ref_of c'.proc) (ref_of c.proc) procs, same_iff c'.generation c.generation gens)

-- However the transport has changed since a check found it stalled - restarted, answered, closed -
-- the recovery does nothing but log, unless the process and the generation are those that the
-- check saw, and the transport is stalled: its process has exited, its call has no answer past the
-- deadline, or a control call is late. A replacement is never taken down, nor,
-- for a missed deadline, a transport whose call was answered meanwhile. The transport that the check saw has a generation.
pub stall_recovery_spares :
    (cfg : Config) (now now' : ℕ) (d : Watchdog) (c c' : Client) (s : Stall)
    → is_some c.generation ≡ true
    → (check cfg now d c).found ≡ some s
    → OnlyLogged c' (stall_recovery cfg now' s c') ⊎ StillThere cfg now' s c c'
unfolding stall_recovery
stall_recovery_spares cfg now now' d c c' s g h =
    let (_, identity, _) = found_lem cfg now d c s h in
    elim (Bool-cases (is_stale s c')) [
      | inl t ↦ inl (stale_generation s.trigger, rw (stall_recovery, t) refl)
      | inr f ↦ elim (Bool-cases (still_stalled cfg now' s.trigger c')) [
        | inr g' ↦ inl (cleared s.trigger, rw (stall_recovery, f) (rw g' refl))
        | inl t ↦
            let (process, generation) =
              fresh_same s.trigger c c' g (ap (λ x. is_stale x c') (sym identity) ∙ f) in
            inr (process, generation, still_stalled-IsStalled cfg now' s.trigger c' t)
      ]
    ]

same_refl : (a : Option ℕ) → same a a ≡ true
same_refl none = refl
same_refl (some n) = ground arith

both_refl : (g p a b : Bool) → a ≡ true → b ≡ true → ((g || p) && (not a || not b)) ≡ false
both_refl g p a b h k = ground arith

fresh_lem : (t : Trigger) (c : Client) → is_stale (stall_of t c) c ≡ false
unfolding is_stale
fresh_lem t c =
    both_refl (is_some c.generation) (is_some (ref_of c.proc)) _ _ (same_refl c.generation)
      (same_refl (ref_of c.proc))

is_late_stays :
    (cfg : Config) (now now' : ℕ) (c : Client)
    → now ≤ now'
    → is_late cfg now c ≡ true
    → is_late cfg now' c ≡ true
unfolding is_late
is_late_stays cfg now now' c h k = ground arith

one_trigger : {o : Option Trigger} {t u : Trigger} → o ≡ some u → o ≡ some t → u ≡ t
one_trigger e f = cc

moved :
    (cfg : Config) (now : ℕ) (c : Client) (o : Option Trigger) (t u : Trigger)
    → o ≡ some u
    → o ≡ some t
    → still_stalled cfg now u c ≡ true
    → still_stalled cfg now t c ≡ true
moved cfg now c o t u e f h = subst (λ x. still_stalled cfg now x c ≡ true) (one_trigger e f) h

no_trigger : {o : Option Trigger} {t : Trigger} → o ≡ none → o ≡ some t → ⊥
no_trigger e f = cc

-- The second look agrees with the first, as long as the transport stays as it is.
stall_stays :
    (cfg : Config) (now now' : ℕ) (c : Client) (t : Trigger)
    → now ≤ now'
    → is_idle c.inflight_future ≡ false
    → stall cfg now c ≡ some t
    → still_stalled cfg now' t c ≡ true
unfolding stall still_stalled
stall_stays cfg now now' c t h idle e = elim (Bool-cases (is_dead c.proc)) [
  | inl dead ↦ moved cfg now' c (stall cfg now c) t proc_dead (rw (stall, dead) refl) e dead
  | inr alive ↦ elim (Bool-cases (ltb c.inflight_deadline now)) [
    | inl late ↦
        let q : still_stalled cfg now' inflight_deadline c ≡ true = ground arith in
        moved cfg now' c (stall cfg now c) t inflight_deadline (rw (stall, alive) (rw late refl)) e
          q
    | inr early ↦ elim (Bool-cases (has_control_call c && is_late cfg now c)) [
      | inl call ↦
          let l = is_late_stays cfg now now' c h (ground arith) in
          let q : still_stalled cfg now' control_deadline c ≡ true = ground arith in
          moved cfg now' c (stall cfg now c) t control_deadline
            (rw (stall, alive) (rw early (rw call refl))) e q
      | inr none_late ↦ absurd (no_trigger (rw (stall, alive) (rw early (rw none_late refl))) e)
    ]
  ]
]

-- A stall that a check found, in a transport that stays as it is, is recovered from, at any later
-- time: the second look agrees with the first. Everyone who waits is told: the call gets an
-- exception, so does each pending request that was not done, and each active prompt is cancelled and
-- its wait for the cancellation ended; then no request is pending, and the transport is unhealthy.
pub stall_recovery_unblocks :
    (cfg : Config) (now now' : ℕ) (d : Watchdog) (c : Client) (s : Stall)
    → now ≤ now'
    → (check cfg now d c).found ≡ some s
    → let r = stall_recovery cfg now' s c in (r ≡ recover s.trigger c) × IsUnblocked c r
unfolding stall_recovery
stall_recovery_unblocks cfg now now' d c s h found =
    let (what, identity, idle) = found_lem cfg now d c s found in
    let fresh : is_stale s c ≡ false = ap (λ x. is_stale x c) identity ∙ fresh_lem s.trigger c in
    let still = stall_stays cfg now now' c s.trigger h idle what in
    let same : stall_recovery cfg now' s c ≡ recover s.trigger c =
      rw (stall_recovery, fresh) (rw still refl) in
    (same, subst (IsUnblocked c) (sym same) (recover-IsUnblocked s.trigger c idle))
