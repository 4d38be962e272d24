-- ===== src/Watchdog/Silence.antt =====
-- The warnings of acp_client/watchdog.py about a prompt that produces no output.
use diploid_agent.Prelude.{
  ℕ, ◌+◌, ◌-◌, ◌≤◌, ◌≡◌, refl, ◌⊎◌, inl, inr, Bool, true, false, ◌||◌, not, List, [], ◌∷◌, ◌++◌,
  if◌then◌else◌, arith, length, ltb, Bool-cases, Option-cases,
}
use diploid_agent.Watchdog.{
  Config, Client, Watchdog, Checked, prompt_silence, check, stall, is_silent, warn_silence, is_idle,
  write,
}

-- A check that wrote to the log.
abbrev pub is_warned : Client → Checked → Bool
is_warned c r = ltb (length c.log) (length r.client.log)

-- The times of the warnings of a run of checks, each of which finds the transport in any state.
unfoldable pub warnings : Config → Watchdog → List (ℕ × Client) → List ℕ
unfolding check
warnings cfg d [] = []
warnings cfg d ((now, c) ∷ seen) =
    let r = check cfg now d c in
    let rest = warnings cfg r.watchdog seen in if is_warned c r then now ∷ rest else rest

abbrev pub Spaced : (gap last : ℕ) → List ℕ → Type 0
Spaced gap last [] = Unit
Spaced gap last (t ∷ ts) = (last + gap ≤ t) × Spaced gap t ts

length-snoc {ℓ} : {A : Type ℓ} → (xs : List A) (x : A) → length (xs ++ x ∷ []) ≡ length xs + 1
length-snoc [] x = refl
length-snoc (y ∷ ys) x = omega (arith, length-snoc ys x)

-- A check says nothing, or warns about a silence that is due.
abbrev Says : Config → ℕ → Watchdog → Client → Checked → Type 0
Says cfg now d c r =
    ((r.watchdog ≡ d) × (r.client ≡ c))
    ⊎ (is_silent cfg now d c ≡ true)
      × (r.watchdog ≡ record d { last_silence_warn = now })
      × (r.client ≡ write (prompt_silence (now - c.last_stdout_at)) c)

check-Says :
    (cfg : Config) (now : ℕ) (d : Watchdog) (c : Client) → Says cfg now d c (check cfg now d c)
unfolding check warn_silence
check-Says cfg now d c = elim (Bool-cases (not d.running || is_idle c.inflight_future)) [
  | inl t ↦ inl (rw (check, t) refl, rw (check, t) refl)
  | inr f ↦ elim (Option-cases (stall cfg now c)) [
    | inr (s, e) ↦ inl (rw (check, f) (rw e refl), rw (check, f) (rw e refl))
    | inl n ↦ elim (Bool-cases (is_silent cfg now d c)) [
      | inl t ↦ inr (
        t,
        rw (check, f) (rw n (rw (warn_silence, t) refl)),
        rw (check, f) (rw n (rw (warn_silence, t) refl)),
      )
      | inr g ↦ inl (
        rw (check, f) (rw n (rw (warn_silence, g) refl)),
        rw (check, f) (rw n (rw (warn_silence, g) refl)),
      )
    ]
  ]
]

is_silent_due :
    (cfg : Config) (now : ℕ) (d : Watchdog) (c : Client)
    → is_silent cfg now d c ≡ true
    → d.last_silence_warn + cfg.silence_warn_after ≤ now
unfolding is_silent
is_silent_due cfg now d c h = ground arith

-- Over any checks of any states of the transport, the warnings come at least `silence_warn_after`
-- apart, and the first no sooner than that after the last one before.
pub warnings-Spaced :
    (cfg : Config) (d : Watchdog) (seen : List (ℕ × Client))
    → Spaced cfg.silence_warn_after d.last_silence_warn (warnings cfg d seen)
unfolding warnings
warnings-Spaced cfg d [] = tt
warnings-Spaced cfg d ((now, c) ∷ seen) = elim (check-Says cfg now d c) [
  | inl (same, unsaid) ↦
      let quiet : is_warned c (check cfg now d c) ≡ false = rw unsaid (ground arith) in
      rw (warnings, quiet) (rw same (warnings-Spaced cfg d seen))
  | inr (due, stamped, said) ↦
      let warned : is_warned c (check cfg now d c) ≡ true =
        rw said (rw (length-snoc c.log (prompt_silence (now - c.last_stdout_at))) (ground arith)) in
      rw (warnings, warned)
        (
          is_silent_due cfg now d c due,
          rw stamped (warnings-Spaced cfg (record d { last_silence_warn = now }) seen),
        )
]
