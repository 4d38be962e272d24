-- ===== src/Watchdog/Unblocked.antt =====
-- Whom a recovery tells: `_unblock_inflight` of acp_client/transport.py, as the recovery of
-- acp_client/watchdog.py calls it.
use diploid_agent.Prelude.{
  ℕ, ◌≡◌, refl, any, All, map, nat_eq, sym, subst, ◌∙◌, Bool, true, false, ◌||◌, Option, none, some,
  List, [], ◌∷◌, ◌++◌, if◌then◌else◌, arith, is_none,
}
use diploid_agent.Watchdog.{
  is_idle, Client, Trigger, Prompt, waiting, answered, failed, abort, fail, interrupt, recover,
  take_down, unblock_inflight, kill, Future, Proc,
}

pub waiting_lem : (o : Option Future) → is_idle o ≡ false → o ≡ some waiting
waiting_lem none h = cc
waiting_lem (some waiting) h = refl
waiting_lem (some answered) h = cc
waiting_lem (some failed) h = cc

if_frame :
    {X : Type 0} (f : Client → X) (b : Bool) (x y : Client)
    → f x ≡ f y
    → f (if b then x else y) ≡ f y
if_frame f true x y h = h
if_frame f false x y h = refl

-- kill changes the list of killed processes only.
kill_frame :
    {X : Type 0} (f : Client → X) (p : Option Proc) (c : Client)
    → ((l : List ℕ) → f (record c { killed = l }) ≡ f c)
    → f (kill p c) ≡ f c
unfolding kill
kill_frame f none c h = refl
kill_frame f (some p) c h = if_frame f (is_none p.returncode) _ c (h (c.killed ++ p.ref ∷ []))

-- Each pending request has its exception, unless it was done.
has : List ℕ → ℕ → Bool
has is i = any (nat_eq i) is

abort_lem :
    (is : List ℕ) (futures : ℕ → Future) (i : ℕ)
    → abort is futures i ≡ (if has is i then fail (futures i) else futures i)
unfolding abort has
abort_lem [] futures i = refl
abort_lem (j ∷ is) futures i =
    abort_lem is (λ k. if nat_eq k j then fail (futures k) else futures k) i
    ∙ again (nat_eq i j) (has is i) (futures i)
  where
    again :
        (b d : Bool) (f : Future)
        → (if d then fail (if b then fail f else f) else if b then fail f else f)
          ≡ (if b || d then fail f else f)
    again true true waiting = refl
    again true true answered = refl
    again true true failed = refl
    again true false f = refl
    again false true f = refl
    again false false f = refl

all_of : (P : ℕ → Type 0) (is : List ℕ) → ((i : ℕ) → has is i ≡ true → P i) → All P is
unfolding has
all_of P [] h = tt
all_of P (j ∷ is) h = (h j (ground arith), all_of P is (λ i e. h i (ground arith)))

abbrev pub IsInterrupted : Prompt → Type 0
IsInterrupted p = (p.cancelled ≡ true) × (p.cancel_done ≡ true)

all-IsInterrupted : (ps : List Prompt) → All IsInterrupted (map interrupt ps)
all-IsInterrupted [] = tt
all-IsInterrupted (p ∷ ps) = ((refl, refl), all-IsInterrupted ps)

-- What a request's future is after it was aborted: an exception, unless it was done.
abbrev pub IsAborted : (before after : Future) → Type 0
IsAborted waiting after = after ≡ failed
IsAborted answered after = after ≡ answered
IsAborted failed after = after ≡ failed

fail-IsAborted : (f g : Future) → g ≡ fail f → IsAborted f g
fail-IsAborted waiting g e = e
fail-IsAborted answered g e = e
fail-IsAborted failed g e = e

-- Everyone who waits for the transport `c` is told in `r`.
pub record IsUnblocked (c r : Client) : Type 0 where
  pub call : r.inflight_future ≡ some failed
  pub requests : All (λ i. IsAborted (c.futures i) (r.futures i)) c.pending
  pub none_left : r.pending ≡ []
  pub prompts : All IsInterrupted r.active_prompts
  pub unhealthy : r.transport_healthy ≡ false

pub recover-IsUnblocked :
    (t : Trigger) (c : Client) → is_idle c.inflight_future ≡ false → IsUnblocked c (recover t c)
unfolding recover take_down unblock_inflight
recover-IsUnblocked t c idle =
    let down = take_down t c in
    record {
      call =
          kill_frame (λ x. x.inflight_future) c.proc down (λ l. refl)
          ∙ rw (waiting_lem c.inflight_future idle) refl;
      requests =
          all_of (λ i. IsAborted (c.futures i) ((recover t c).futures i)) c.pending
            (λ i e. fail-IsAborted (c.futures i) ((recover t c).futures i) (
              kill_frame (λ x. x.futures i) c.proc down (λ l. refl)
              ∙ abort_lem c.pending c.futures i
              ∙ rw e refl));
      none_left = kill_frame (λ x. x.pending) c.proc down (λ l. refl);
      prompts =
          subst (All IsInterrupted)
            (sym (kill_frame (λ x. x.active_prompts) c.proc down (λ l. refl)))
            (all-IsInterrupted c.active_prompts);
      unhealthy = kill_frame (λ x. x.transport_healthy) c.proc down (λ l. refl);
    }
