-- ===== src/Events/Order.antt =====
-- The order of the events in a log of runtime/event_log.py, and what the ring holds of them.
use diploid_agent.Prelude.{
  ℕ, zero, suc, ◌+◌, ◌-◌, ◌<◌, ◌≤◌, ◌≡◌, refl, sym, ap, ◌∙◌, subst, false, List, [], ◌∷◌, ◌++◌,
  arith, All, All-map, length, drop, keep, All-append, length-drop, length-append, append_assoc,
  ltb,
}
use diploid_agent.Events.{LogEvent, ring_max, last_seq, next_seq, push, newer, is_truncated}

-- The sequence numbers rise.
abbrev pub IsRising : List LogEvent → Type 0
IsRising [] = Unit
IsRising (e ∷ es) = All (λ f. e.seq < f.seq) es × IsRising es

-- All numbers of a rising list are at most the last.
pub up_to_last :
    (d : ℕ) (es : List LogEvent)
    → All (λ f. d < f.seq) es
    → IsRising es
    → (d ≤ last_seq d es) × All (λ f. f.seq ≤ last_seq d es) es
unfolding last_seq
up_to_last d [] h r = (omega arith, tt)
up_to_last d (e ∷ es) h r =
    let rest = up_to_last e.seq es r.0 r.1 in (omega (arith, h.0, rest.0), (rest.0, rest.1))

IsRising-append :
    (es : List LogEvent) (x : LogEvent)
    → IsRising es
    → All (λ f. f.seq < x.seq) es
    → IsRising (es ++ x ∷ [])
IsRising-append [] x r h = (tt, tt)
IsRising-append (e ∷ es) x r h = (every es r.0, IsRising-append es x r.1 h.1)
  where
    every :
        (xs : List LogEvent) → All (λ f. e.seq < f.seq) xs → All (λ f. e.seq < f.seq) (xs ++ x ∷ [])
    every [] k = (h.0, tt)
    every (y ∷ xs) k = (k.0, every xs k.1)

-- The events ever appended, `history`, are those that fell out of the ring, then the ring.
pub record IsTail (history ring : List LogEvent) : Type 0 where
  pub dropped : List LogEvent
  pub parts : history ≡ dropped ++ ring
  pub rising : IsRising history
  pub kept : (ring ≡ []) → dropped ≡ []

drop_split {ℓ} : {A : Type ℓ} (n : ℕ) (xs : List A) → (d : List A) × (xs ≡ d ++ drop n xs)
drop_split zero xs = ([], refl)
drop_split (suc n) [] = ([], refl)
drop_split (suc n) (x ∷ xs) = let (d, e) = drop_split n xs in (x ∷ d, ap (λ l. x ∷ l) e)

IsRising-parts :
    (xs : List LogEvent) (e : LogEvent) (es : List LogEvent)
    → IsRising (xs ++ e ∷ es)
    → All (λ f. f.seq < e.seq) xs × IsRising (e ∷ es)
IsRising-parts [] e es r = (tt, r)
IsRising-parts (x ∷ xs) e es r =
    let rest = IsRising-parts xs e es r.1 in ((first xs r.0, rest.0), rest.1)
  where
    first : (ys : List LogEvent) → All (λ f. x.seq < f.seq) (ys ++ e ∷ es) → x.seq < e.seq
    first [] h = h.0
    first (y ∷ ys) h = first ys h.1

below_next :
    (dropped ring : List LogEvent)
    → IsRising (dropped ++ ring)
    → ((ring ≡ []) → dropped ≡ [])
    → All (λ f. f.seq < next_seq ring) (dropped ++ ring)
unfolding next_seq
below_next dropped [] r kept = rw (kept refl) tt
below_next dropped (e ∷ es) r kept =
    let (before, rest) = IsRising-parts dropped e es r in
    let (low, high) = up_to_last e.seq es rest.0 rest.1 in
    All-append (λ f. f.seq < last_seq e.seq es + 1) dropped (e ∷ es)
      (All-map _ _ dropped (λ f h. omega (arith, h, low)) before)
      (omega (arith, low), All-map _ _ es (λ f h. omega (arith, h)) high)

length-push : (x : LogEvent) (ring : List LogEvent) → 1 ≤ length (push x ring)
unfolding push
length-push x ring = omega (
  arith,
  length-drop (length (ring ++ x ∷ []) - ring_max) (ring ++ x ∷ []),
  length-append ring (x ∷ []),
)

-- The next event takes the ring to the ring of the longer history.
pub push-IsTail :
    (history ring : List LogEvent) (x : LogEvent)
    → IsTail history ring
    → x.seq ≡ next_seq ring
    → IsTail (history ++ x ∷ []) (push x ring)
unfolding push
push-IsTail history ring x t numbered =
    let (d, split) = drop_split (length (ring ++ x ∷ []) - ring_max) (ring ++ x ∷ []) in
    let below : All (λ f. f.seq < next_seq ring) (t.dropped ++ ring) =
      below_next t.dropped ring (subst IsRising t.parts t.rising) t.kept in
    record {
      dropped = t.dropped ++ d;
      parts =
          ap (λ l. l ++ x ∷ []) t.parts
          ∙ append_assoc t.dropped ring (x ∷ [])
          ∙ ap (λ l. t.dropped ++ l) split
          ∙ sym (append_assoc t.dropped d _);
      rising = IsRising-append history x t.rising (
          subst (λ n. All (λ f. f.seq < n) history) (sym numbered)
            (subst (All (λ f. f.seq < next_seq ring)) (sym t.parts) below));
      kept = λ empty. absurd (one_event (ap length empty) (length-push x ring));
    }
  where
    one_event : {n : ℕ} → n ≡ 0 → ¬ (1 ≤ n)
    one_event e h = omega (arith, e, h)

-- What an untruncated page may leave out: nothing that was ever appended.
pub newer_kept :
    (since : ℕ) (history ring : List LogEvent)
    → IsTail history ring
    → is_truncated since ring ≡ false
    → keep (newer since) history ≡ keep (newer since) ring
unfolding is_truncated
newer_kept since history [] t u = rw t.parts (rw (t.kept refl) refl)
newer_kept since history (e ∷ es) t u =
    let r = IsRising-parts t.dropped e es (subst IsRising t.parts t.rising) in
    rw t.parts (skip t.dropped r.0)
  where
    skip :
        (xs : List LogEvent)
        → All (λ f. f.seq < e.seq) xs
        → keep (newer since) (xs ++ e ∷ es) ≡ keep (newer since) (e ∷ es)
    skip [] h = refl
    skip (x ∷ xs) h =
        let old : ltb since x.seq ≡ false = ground (arith, u, h.0) in rw old (skip xs h.1)
