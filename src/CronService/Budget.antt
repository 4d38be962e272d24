-- ===== src/CronService/Budget.antt =====
-- The budgets of `_deliver_turn`, runtime/cron_service.py: what a delivery adds to the wake queue.
use diploid_agent.Prelude.{
  ℕ, suc, ◌+◌, ◌≤◌, ◌<◌, ◌≡◌, refl, ◌∙◌, ap, String, Bool, true, false, ◌&&◌, ◌==◌, none, some,
  List, [], ◌∷◌, ◌++◌, if◌then◌else◌, arith, keep, count, length, Bool-cases, inl, inr, ltb,
  eq_refl, starts_with-join, count-snoc,
}
use diploid_agent.Prelude.Sort.{sorted, insert}
use diploid_agent.Prelude.Dict.{Dict, get, put, values}
use diploid_agent.Plan.Models.{Task}
use diploid_agent.Cron.{CronJobState, Store}
use diploid_agent.Wake
use diploid_agent.Wake.{WakeEvent, Queue}
use diploid_agent.CronService.State.{Clock, now_of}
use diploid_agent.CronService.Deliver.{
  Target, is_cron, is_budgeted, budget_events, turns_today, wake_time, turn_wake, deliver_turn_to,
}

module _ {ℓ} {A : Type ℓ} where
  count-insert :
      (le : A → A → Bool) (p : A → Bool) (a : A) (xs : List A)
      → count p (insert le a xs) ≡ (if p a then suc (count p xs) else count p xs)
  unfolding insert
  count-insert le p a [] = refl
  count-insert le p a (x ∷ xs) = ground (arith, count-insert le p a xs)

  count-sorted :
      (le : A → A → Bool) (p : A → Bool) (xs : List A) → count p (sorted le xs) ≡ count p xs
  unfolding sorted
  count-sorted le p [] = refl
  count-sorted le p (x ∷ xs) =
      ground (arith, count-insert le p x (sorted le xs), count-sorted le p xs)

  count-keep : (p q : A → Bool) (xs : List A) → count p (keep q xs) ≡ count (λ x. q x && p x) xs
  count-keep p q [] = refl
  count-keep p q (x ∷ xs) = ground (arith, count-keep p q xs)

  keep_all : (xs : List A) → keep (λ x. true) xs ≡ xs
  keep_all [] = refl
  keep_all (x ∷ xs) = ap (λ ys. x ∷ ys) (keep_all xs)

  length-count : (xs : List A) → length xs ≡ count (λ x. true) xs
  length-count [] = refl
  length-count (x ∷ xs) = omega (arith, length-count xs)

-- The cron wakes of a chat, and all its wakes that share the budget.
abbrev pub armed : (chat_id : String) → Queue → ℕ
armed chat_id q = count (λ e. e.chat_id == chat_id && is_cron e) (values q)

abbrev pub waiting : (chat_id : String) → Queue → ℕ
waiting chat_id q = count (λ e. e.chat_id == chat_id && is_budgeted e) (values q)

count_budget :
    (p : WakeEvent → Bool) (chat_id : String) (q : Queue)
    → count p (budget_events chat_id q)
      ≡ count (λ e. e.chat_id == chat_id && (is_budgeted e && p e)) (values q)
unfolding budget_events Wake.pending
count_budget p chat_id q =
    let mine : WakeEvent → Bool = λ e. Wake.matches (some chat_id) e.chat_id in
    let both : WakeEvent → Bool = λ e. is_budgeted e && p e in
    count-keep p is_budgeted
      (sorted Wake.before (keep (Wake.not_later none) (keep mine (values q))))
    ∙ count-sorted Wake.before both (keep (Wake.not_later none) (keep mine (values q)))
    ∙ count-keep both (Wake.not_later none) (keep mine (values q))
    ∙ count-keep both mine (values q)

count_same {ℓ} :
    {A : Type ℓ} (p q : A → Bool) (xs : List A) → ((x : A) → p x ≡ q x) → count p xs ≡ count q xs
count_same p q [] h = refl
count_same p q (x ∷ xs) h = ground (arith, h x, count_same p q xs h)

armed_lem :
    (chat_id : String) (q : Queue) → count is_cron (budget_events chat_id q) ≡ armed chat_id q
armed_lem chat_id q =
    count_budget is_cron chat_id q ∙ count_same _ _ (values q) (λ (e : WakeEvent). ground arith)

waiting_lem : (chat_id : String) (q : Queue) → length (budget_events chat_id q) ≡ waiting chat_id q
waiting_lem chat_id q =
    length-count (budget_events chat_id q)
    ∙ count_budget (λ e. true) chat_id q
    ∙ count_same _ _ (values q) (λ (e : WakeEvent). ground arith)

values-put_new {ℓ} :
    {V : Type ℓ} (d : Dict V) (k : String) (v : V)
    → get d k ≡ none
    → values (put d k v) ≡ values d ++ v ∷ []
unfolding get put
values-put_new [] k v h = refl
values-put_new ((j, w) ∷ d) k v h = ground (arith, values-put_new d k v)

-- What a delivery puts into the queue.
abbrev pub wake_of : Clock → Target → CronJobState → Task → Queue → WakeEvent
wake_of c r state t q =
    (Wake.enqueue c.wake_id
      (turn_wake c r state t
        (wake_time (now_of c) c.cfg.self_wake_min_interval (budget_events r.chat_id q)))
      q).1

wake_of_lem :
    (c : Clock) (r : Target) (state : CronJobState) (t : Task) (q : Queue)
    → let e = wake_of c r state t q in
      (e.id ≡ c.wake_id) × (e.chat_id ≡ r.chat_id) × (is_cron e ≡ true)
unfolding Wake.enqueue turn_wake
wake_of_lem c r state t q = (refl, refl, starts_with-join "cron:" r.spec.id)

abbrev pub is_under : Clock → Target → Store → Queue → Bool
is_under c r store q =
    ltb (turns_today c.today store + armed r.chat_id q) c.cfg.turn_delivery_max_per_day
    && ltb (waiting r.chat_id q) c.cfg.self_wake_max_pending

delivered_queue :
    (c : Clock) (r : Target) (state : CronJobState) (t : Task) (store : Store) (q : Queue)
    → (deliver_turn_to c r state t store q).0
      ≡ (if is_under c r store q then put q c.wake_id (wake_of c r state t q) else q)
unfolding deliver_turn_to Wake.enqueue turn_wake
delivered_queue c r state t store q = ground (arith, armed_lem r.chat_id q, waiting_lem r.chat_id q)

count-delivered :
    (p : WakeEvent → Bool) (c : Clock) (r : Target) (state : CronJobState) (t : Task) (q : Queue)
    → get q c.wake_id ≡ none
    → let e = wake_of c r state t q in
      count p (values (put q c.wake_id e))
      ≡ (if p e then suc (count p (values q)) else count p (values q))
count-delivered p c r state t q fresh =
    ap (λ es. count p es) (values-put_new q c.wake_id (wake_of c r state t q) fresh)
    ∙ count-snoc p (values q) (wake_of c r state t q)

-- The new wake counts for its chat, in both budgets, and for no other chat.
put-armed :
    (c : Clock) (r : Target) (state : CronJobState) (t : Task) (q : Queue) (chat_id : String)
    → get q c.wake_id ≡ none
    → let q' = put q c.wake_id (wake_of c r state t q) in
      (armed chat_id q' ≡ (if r.chat_id == chat_id then suc (armed chat_id q) else armed chat_id q))
      × (waiting chat_id q'
          ≡ (if r.chat_id == chat_id then suc (waiting chat_id q) else waiting chat_id q))
put-armed c r state t q chat_id fresh =
    let e = wake_of c r state t q in
    let facts = wake_of_lem c r state t q in
    (
      count-delivered (λ x. x.chat_id == chat_id && is_cron x) c r state t q fresh
          ∙ rw (facts.1, facts.2) (ground arith),
      count-delivered (λ x. x.chat_id == chat_id && is_budgeted x) c r state t q fresh
          ∙ rw (facts.1, facts.2) (ground arith),
    )

-- A delivery as a turn keeps the budgets of its chat: if the turns of the day with the cron wakes of
-- the chat were within the daily cap, and its wakes within the cap on pending wakes, they still are,
-- and the wakes of every other chat are as many as before. The id of the wake is fresh.
pub deliver_turn-within :
    (c : Clock) (r : Target) (state : CronJobState) (t : Task) (store : Store) (q : Queue)
    → (other : String) → get q c.wake_id ≡ none
    → r.chat_id == other ≡ false
    → turns_today c.today store + armed r.chat_id q ≤ c.cfg.turn_delivery_max_per_day
    → waiting r.chat_id q ≤ c.cfg.self_wake_max_pending
    → let q' = (deliver_turn_to c r state t store q).0 in
      (turns_today c.today store + armed r.chat_id q' ≤ c.cfg.turn_delivery_max_per_day)
      × (waiting r.chat_id q' ≤ c.cfg.self_wake_max_pending)
      × (armed other q' ≡ armed other q)
      × (waiting other q' ≡ waiting other q)
deliver_turn-within c r state t store q other fresh apart turns wakes =
    elim (Bool-cases (is_under c r store q)) [
      | inr f ↦ rw (delivered_queue c r state t store q, f) (turns, wakes, refl, refl)
      | inl e ↦
          let here = put-armed c r state t q r.chat_id fresh in
          let there = put-armed c r state t q other fresh in
          rw (delivered_queue c r state t store q, e)
            (
              ground (arith, here.0, eq_refl r.chat_id, e),
              ground (arith, here.1, eq_refl r.chat_id, e),
              there.0 ∙ rw apart refl,
              there.1 ∙ rw apart refl,
            )
    ]

-- The daily cap is not a cap on the day's turns of all chats: where the wakes of one chat already
-- use it up, a delivery to another chat with no cron wake is still queued, and the cron wakes of
-- the two chats are together one more than the cap.
pub day_cap_exceeded :
    (c : Clock) (r : Target) (state : CronJobState) (t : Task) (store : Store) (q : Queue)
    → (busy : String) → get q c.wake_id ≡ none
    → r.chat_id == busy ≡ false
    → turns_today c.today store ≡ 0
    → armed busy q ≡ c.cfg.turn_delivery_max_per_day
    → 0 < c.cfg.turn_delivery_max_per_day
    → armed r.chat_id q ≡ 0
    → waiting r.chat_id q < c.cfg.self_wake_max_pending
    → let q' = (deliver_turn_to c r state t store q).0 in
      armed busy q' + armed r.chat_id q' ≡ suc c.cfg.turn_delivery_max_per_day
day_cap_exceeded c r state t store q busy fresh apart none_today full cap none_here room =
    let under : is_under c r store q ≡ true = ground (arith, none_today, none_here, cap, room) in
    let here = put-armed c r state t q r.chat_id fresh in
    let there = put-armed c r state t q busy fresh in
    rw (delivered_queue c r state t store q, under)
      (ground (arith, here.0, there.0, eq_refl r.chat_id, full, none_here, apart))
