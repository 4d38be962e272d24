-- ===== src/Events/Clients.antt =====
-- Clients that poll the log of runtime/event_log.py: what they receive in the end.
use diploid_agent.Prelude.{
  ℕ, zero, suc, ◌<◌, ◌≤◌, ◌≡◌, ◌⊎◌, refl, sym, ap, ◌∙◌, subst, String, Bool, false, List, [], ◌∷◌,
  ◌++◌, arith, All, All-map, length, take, drop, keep, append_assoc, append-nil, inl, inr,
  Bool-cases, length-keep, count-le-length, length-drop, All-keep, keep-All,
}
use diploid_agent.Json.{Fields}
use diploid_agent.Events.{
  LogEvent, Log, last_seq, loaded_ring, append, newer, is_truncated, page, since_wait,
}
use diploid_agent.Events.Order.{IsRising, IsTail, up_to_last, push-IsTail, newer_kept}

-- A client that polls until a page is empty, each time from the last event that it has seen.
unfoldable pub poll_all : (polls : ℕ) → (since limit : ℕ) → List LogEvent → List LogEvent
unfolding page last_seq
poll_all zero since limit ring = []
poll_all (suc polls) since limit ring =
    let events = (page since limit ring).events in
    events ++ poll_all polls (last_seq since events) limit ring

keep-keep :
    (c m : ℕ) (es : List LogEvent) → c ≤ m → keep (newer m) (keep (newer c) es) ≡ keep (newer m) es
keep-keep c m [] h = refl
keep-keep c m (e ∷ es) h = ground (arith, keep-keep c m es h)

IsRising-keep : (p : LogEvent → Bool) (es : List LogEvent) → IsRising es → IsRising (keep p es)
IsRising-keep p [] r = tt
IsRising-keep p (e ∷ es) r = elim (Bool-cases (p e)) [
  | inl t ↦ rw t (All-keep (λ f. e.seq < f.seq) p es r.0, IsRising-keep p es r.1)
  | inr f ↦ rw f (IsRising-keep p es r.1)
]

keep_whole : (d : ℕ) (es : List LogEvent) → All (λ f. d < f.seq) es → keep (newer d) es ≡ es
keep_whole d [] h = refl
keep_whole d (e ∷ es) h = ground (arith, h.0, keep_whole d es h.1)

Rising-take : (n : ℕ) (es : List LogEvent) → IsRising es → IsRising (take n es)
Rising-take zero es r = tt
Rising-take (suc n) [] r = tt
Rising-take (suc n) (e ∷ es) r = (all_take n es r.0, Rising-take n es r.1)
  where
    all_take :
        (k : ℕ) (xs : List LogEvent)
        → All (λ f. e.seq < f.seq) xs
        → All (λ f. e.seq < f.seq) (take k xs)
    all_take zero xs h = tt
    all_take (suc k) [] h = tt
    all_take (suc k) (x ∷ xs) h = (h.0, all_take k xs h.1)

All-take :
    (d n : ℕ) (es : List LogEvent) → All (λ f. d < f.seq) es → All (λ f. d < f.seq) (take n es)
All-take d zero es h = tt
All-take d (suc n) [] h = tt
All-take d (suc n) (e ∷ es) h = (h.0, All-take d n es h.1)

last-take_le :
    (d n : ℕ) (es : List LogEvent)
    → All (λ f. d < f.seq) es
    → IsRising es
    → d ≤ last_seq d (take n es)
last-take_le d n es h r = (up_to_last d (take n es) (All-take d n es h) (Rising-take n es r)).0

-- From the last event of a page, the rest is what the page left.
keep_after_take :
    (d n : ℕ) (es : List LogEvent)
    → All (λ f. d < f.seq) es
    → IsRising es
    → keep (newer (last_seq d (take n es))) es ≡ drop n es
unfolding last_seq
keep_after_take d zero es h r = keep_whole d es h
keep_after_take d (suc n) [] h r = refl
keep_after_take d (suc n) (e ∷ es) h r =
    let seen : newer (last_seq e.seq (take n es)) e ≡ false =
      ground (arith, last-take_le e.seq n es r.0 r.1) in
    rw seen (keep_after_take e.seq n es r.0 r.1)

take-drop {ℓ} : {A : Type ℓ} (n : ℕ) (xs : List A) → take n xs ++ drop n xs ≡ xs
take-drop zero xs = refl
take-drop (suc n) [] = refl
take-drop (suc n) (x ∷ xs) = ap (λ l. x ∷ l) (take-drop n xs)

empty_list {ℓ} : {A : Type ℓ} (xs : List A) → length xs ≤ 0 → xs ≡ []
empty_list [] h = refl
empty_list (x ∷ xs) h = absurd (omega (arith, h))

newer-All : (c : ℕ) (es : List LogEvent) → All (λ f. c < f.seq) (keep (newer c) es)
newer-All c es = All-map _ _ (keep (newer c) es) (λ f h. ground (arith, h)) (keep-All (newer c) es)

-- Enough polls give all the newer events of the ring, each once and in order.
poll_all_lem :
    (polls since limit : ℕ) (ring : List LogEvent)
    → IsRising ring
    → 0 < limit
    → length (keep (newer since) ring) ≤ polls
    → poll_all polls since limit ring ≡ keep (newer since) ring
unfolding poll_all page
poll_all_lem zero since limit ring r positive enough = sym (empty_list _ enough)
poll_all_lem (suc polls) since limit ring r positive enough =
    let new = keep (newer since) ring in
    let above = newer-All since ring in
    let rising = IsRising-keep (newer since) ring r in
    let cursor = last_seq since (take limit new) in
    let rest : keep (newer cursor) ring ≡ drop limit new =
      sym (keep-keep since cursor ring (last-take_le since limit new above rising))
      ∙ keep_after_take since limit new above rising in
    let fewer : length (keep (newer cursor) ring) ≤ polls =
      rw rest (omega (arith, length-drop limit new, enough, positive)) in
    ap (λ l. take limit new ++ l) (poll_all_lem polls cursor limit ring r positive fewer ∙ rest)
    ∙ take-drop limit new

-- The arguments of one `append`, with whether its line is written.
pub record Post : Type 0 where
  pub wrote : Bool
  pub now : ℕ
  pub chat_id : String
  pub kind : String
  pub payload : Fields

-- The log after the calls, and the events that they gave, oldest first.
unfoldable pub append_all : List Post → Log → Log × List LogEvent
unfolding append
append_all [] log = (log, [])
append_all (p ∷ ps) log =
    let (log', event) = append p.wrote p.now p.chat_id p.kind p.payload log in
    let (last, events) = append_all ps log' in (last, event ∷ events)

append-IsTail :
    (p : Post) (log : Log) (history : List LogEvent)
    → IsTail history (loaded_ring log)
    → let (log', event) = append p.wrote p.now p.chat_id p.kind p.payload log in
      IsTail (history ++ event ∷ []) (loaded_ring log')
unfolding append loaded_ring
append-IsTail p log history t = push-IsTail history (loaded_ring log) _ t refl

append_all-IsTail :
    (ps : List Post) (log : Log) (history : List LogEvent)
    → IsTail history (loaded_ring log)
    → IsTail (history ++ (append_all ps log).1) (loaded_ring (append_all ps log).0)
unfolding append_all
append_all-IsTail [] log history t = rw (append-nil) t
append_all-IsTail (p ∷ ps) log history t =
    let (log', event) = append p.wrote p.now p.chat_id p.kind p.payload log in
    subst (λ h. IsTail h (loaded_ring (append_all ps log').0))
      (append_assoc history (event ∷ []) (append_all ps log').1)
      (append_all-IsTail ps log' (history ++ event ∷ []) (append-IsTail p log history t))

ring-IsRising : (history ring : List LogEvent) → IsTail history ring → IsRising ring
ring-IsRising history ring t = drop_part t.dropped (subst IsRising t.parts t.rising)
  where
    drop_part : (xs : List LogEvent) → IsRising (xs ++ ring) → IsRising ring
    drop_part [] r = r
    drop_part (x ∷ xs) r = drop_part xs r.1

-- After any appends, whether or not their lines could be written, a client whose next page does not
-- say `truncated`, and that polls with a positive limit until the pages are empty, receives every
-- event that it has not seen of all that were ever appended, each once and in order. The ring at
-- the start is the end of a history with rising sequence numbers, and as many polls as the ring
-- has events are enough.
pub client_sees_all :
    (ps : List Post) (log : Log) (history : List LogEvent) (since limit polls : ℕ)
    → IsTail history (loaded_ring log)
    → 0 < limit
    → length (loaded_ring (append_all ps log).0) ≤ polls
    → is_truncated since (loaded_ring (append_all ps log).0) ≡ false
    → poll_all polls since limit (loaded_ring (append_all ps log).0)
      ≡ keep (newer since) (history ++ (append_all ps log).1)
client_sees_all ps log history since limit polls t positive enough whole =
    let ring = loaded_ring (append_all ps log).0 in
    let t' = append_all-IsTail ps log history t in
    poll_all_lem polls since limit ring (ring-IsRising _ ring t') positive
      (omega (arith, length-keep (newer since) ring, count-le-length (newer since) ring, enough))
    ∙ sym (newer_kept since _ ring t' whole)

-- The sequence numbers of all events, those before and those of the calls, rise without a repeat.
pub append_all-IsRising :
    (ps : List Post) (log : Log) (history : List LogEvent)
    → IsTail history (loaded_ring log)
    → IsRising (history ++ (append_all ps log).1)
append_all-IsRising ps log history t = (append_all-IsTail ps log history t).rising

nothing_taken : (n : ℕ) (es : List LogEvent) → 0 < n → take n es ≡ [] → es ≡ []
nothing_taken zero es p e = absurd (omega (arith, p))
nothing_taken (suc n) [] p e = refl
nothing_taken (suc n) (x ∷ es) p e = cc

List-cases {ℓ} : {A : Type ℓ} (xs : List A) → (xs ≡ []) ⊎ ((x : A) × (ys : List A) × (xs ≡ x ∷ ys))
List-cases [] = inl refl
List-cases (x ∷ xs) = inr (x, xs, refl)

round_without_events :
    (since limit : ℕ) (ring next : List LogEvent) (later : List (List LogEvent))
    → (page since limit ring).events ≡ []
    → since_wait since limit ring (next ∷ later) ≡ since_wait since limit next later
unfolding since_wait
round_without_events since limit ring next later e = rw (since_wait, e) refl

round_with_events :
    (since limit : ℕ) (ring next : List LogEvent) (later : List (List LogEvent)) (x : LogEvent)
    (xs : List LogEvent)
    → (page since limit ring).events ≡ x ∷ xs
    → (since_wait since limit ring (next ∷ later)).events ≡ x ∷ xs
unfolding since_wait
round_with_events since limit ring next later x xs e = rw (since_wait, e) e

events-page :
    (since limit : ℕ) (ring : List LogEvent)
    → (page since limit ring).events ≡ take limit (keep (newer since) ring)
unfolding page
events-page since limit ring = refl

-- The long poll answers with events as soon as some ring that it looks at has a newer one: with a
-- positive limit its page is empty only when no ring up to the deadline held a newer event.
pub since_wait_wakes :
    (since limit : ℕ) (ring : List LogEvent) (later : List (List LogEvent))
    → 0 < limit
    → (since_wait since limit ring later).events ≡ []
    → All (λ r. keep (newer since) r ≡ []) (ring ∷ later)
unfolding since_wait page
since_wait_wakes since limit ring [] positive empty = (nothing_taken limit _ positive empty, tt)
since_wait_wakes since limit ring (next ∷ later) positive empty =
    elim (List-cases (page since limit ring).events) [
      | inl e ↦ (
        nothing_taken limit _ positive (sym (events-page since limit ring) ∙ e),
        since_wait_wakes since limit next later positive
            (sym (ap (λ p. p.events) (round_without_events since limit ring next later e)) ∙ empty),
      )
      | inr (x, xs, e) ↦
          let some_events : x ∷ xs ≡ [] =
            sym (round_with_events since limit ring next later x xs e) ∙ empty in
          cc
    ]
