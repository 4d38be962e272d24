-- ===== src/Outbox/Order.antt =====
-- In which order the queue of runtime/outbox.py delivers.
use diploid_agent.Prelude.{
  ℕ, Bool, if◌then◌else◌, All, ◌≡◌, refl, sym, ap, ◌∙◌, String, true, false, ◌==◌, Option, none,
  some, List, [], ◌∷◌, ◌++◌, keep, arith, append_assoc, append-nil, Bool-cases, Option-cases, inl,
  inr, eq_iff,
}
use diploid_agent.Outbox.{
  Item, turn_started, Queue, Outbox, pop_first, wanted, enqueue_outbox, emit_turn_started,
  outbox_pop,
}

-- The entries for one chat, in their order.
abbrev pub of_chat : String → Queue → Queue
of_chat c q = keep (λ e. e.0 == c) q

keep-append : (c : String) (xs ys : Queue) → of_chat c (xs ++ ys) ≡ of_chat c xs ++ of_chat c ys
keep-append c [] ys = refl
keep-append c (x ∷ xs) ys = elim (Bool-cases (x.0 == c)) [
  | inl t ↦ rw t (ap (λ l. x ∷ l) (keep-append c xs ys))
  | inr f ↦ rw f (keep-append c xs ys)
]

skipped :
    (chat_id : Option String) (c : String) (e x : String × Item) (rest : Queue)
    → wanted chat_id e.0 ≡ false
    → wanted chat_id x.0 ≡ true
    → of_chat c (e ∷ (x ∷ rest)) ≡ of_chat c (x ∷ (e ∷ rest))
skipped none c e x rest f t = cc
skipped (some d) c e x rest f t =
    ground (arith, f, t, eq_iff e.0 c, eq_iff x.0 c, eq_iff e.0 d, eq_iff x.0 d)

pop_later :
    (chat_id : Option String) (e x : String × Item) (q rest : Queue)
    → wanted chat_id e.0 ≡ false
    → pop_first chat_id q ≡ some (x, rest)
    → pop_first chat_id (e ∷ q) ≡ some (x, e ∷ rest)
unfolding pop_first
pop_later chat_id e x q rest f g = rw (pop_first, f) (rw g refl)

pop_never :
    (chat_id : Option String) (e : String × Item) (q : Queue)
    → wanted chat_id e.0 ≡ false
    → pop_first chat_id q ≡ none
    → pop_first chat_id (e ∷ q) ≡ none
unfolding pop_first
pop_never chat_id e q f g = rw (pop_first, f) (rw g refl)

pop_now :
    (chat_id : Option String) (e : String × Item) (q : Queue)
    → wanted chat_id e.0 ≡ true
    → pop_first chat_id (e ∷ q) ≡ some (e, q)
unfolding pop_first
pop_now chat_id e q t = rw (pop_first, t) refl

-- The entry that a round takes is wanted, and was the first of its chat.
pop_first_lem :
    (chat_id : Option String) (c : String) (q : Queue) (x : String × Item) (rest : Queue)
    → pop_first chat_id q ≡ some (x, rest)
    → (wanted chat_id x.0 ≡ true) × (of_chat c q ≡ of_chat c (x ∷ rest))
unfolding pop_first
pop_first_lem chat_id c [] x rest h = cc
pop_first_lem chat_id c (e ∷ q) x rest h = elim (Bool-cases (wanted chat_id e.0)) [
  | inl t ↦
      let now = pop_now chat_id e q t in
      let same : e ≡ x = cc in
      let left : q ≡ rest = cc in
      (
        ap (λ y. wanted chat_id y.0) (sym same) ∙ t,
        ap (λ y. of_chat c (y ∷ q)) same ∙ ap (λ r. of_chat c (x ∷ r)) left,
      )
  | inr f ↦ elim (Option-cases (pop_first chat_id q)) [
    | inl n ↦ let never = pop_never chat_id e q f n in cc
    | inr ((y, ys), g) ↦
        let later = pop_later chat_id e y q ys f g in
        let same : y ≡ x = cc in
        let left : e ∷ ys ≡ rest = cc in
        let (want, order) = pop_first_lem chat_id c q y ys g in
        (
          ap (λ z. wanted chat_id z.0) (sym same) ∙ want,
          keep-append c (e ∷ []) q
              ∙ ap (λ l. of_chat c (e ∷ []) ++ l) order
              ∙ sym (keep-append c (e ∷ []) (y ∷ ys))
              ∙ skipped chat_id c e y ys f want
              ∙ ap (λ z. of_chat c (z ∷ (e ∷ ys))) same
              ∙ ap (λ r. of_chat c (x ∷ r)) left,
        )
  ]
]

-- What the threads do: one puts a result or the marker of a turn, or one looks for the next item.
pub data Op : Type 0 where
  puts : (now : ℕ) → (chat_id : String) → Item → Op
  starts :
      (chat_id : String)
      → (session_number turn_number : Option ℕ) → (user_message : Option String) → Op
  pops : (chat_id : Option String) → Op

-- An item that was handed out, with the chat that its consumer asked for.
pub record Handed : Type 0 where
  pub asked : Option String
  pub entry : String × Item

abbrev pub at : Queue → Outbox → Outbox
at q o = record o { queue = q }

abbrev hand : Option String → Option (String × Item) → Queue × List Handed → Queue × List Handed
hand chat_id none r = r
hand chat_id (some e) r = (r.0, record { asked = chat_id; entry = e } ∷ r.1)

-- The queue at the end, and the items that were handed out, oldest first.
unfoldable pub run : List Op → Outbox → Queue × List Handed
unfolding enqueue_outbox emit_turn_started outbox_pop
run [] o = (o.queue, [])
run (puts now chat_id item ∷ ops) o = run ops (enqueue_outbox now chat_id item o)
run (starts chat_id session_number turn_number user_message ∷ ops) o =
    run ops (emit_turn_started chat_id session_number turn_number user_message o)
run (pops chat_id ∷ ops) o =
    let popped = outbox_pop chat_id [] o.queue in hand chat_id popped.1 (run ops (at popped.0 o))

-- What the threads put, in their order: markers only where the delivery of the outbox is on.
abbrev pub entered : (outbox_delivery : Bool) → List Op → Queue
entered on [] = []
entered on (puts now chat_id item ∷ ops) = (chat_id, item) ∷ entered on ops
entered on (starts chat_id session_number turn_number user_message ∷ ops) =
    if on
    then (chat_id, turn_started session_number turn_number user_message) ∷ entered on ops
    else entered on ops
entered on (pops chat_id ∷ ops) = entered on ops

abbrev pub entries : List Handed → Queue
entries [] = []
entries (h ∷ hs) = h.entry ∷ entries hs

-- A consumer that asks for a chat gets an item of that chat.
abbrev pub IsAsked : Handed → Type 0
IsAsked h = elim h.asked [ none ↦ Unit | some chat_id ↦ h.entry.0 ≡ chat_id ]

asked_lem :
    (chat_id : Option String) (e : String × Item)
    → wanted chat_id e.0 ≡ true
    → IsAsked (record { asked = chat_id; entry = e })
asked_lem none e w = tt
asked_lem (some c) e w = (eq_iff e.0 c).0 w

put_lem :
    (q : Queue) (e : String × Item) (later : Queue) (c : String)
    → of_chat c (q ++ e ∷ []) ++ of_chat c later ≡ of_chat c q ++ of_chat c (e ∷ later)
put_lem q e later c =
    ap (λ l. l ++ of_chat c later) (keep-append c q (e ∷ []))
    ∙ append_assoc (of_chat c q) (of_chat c (e ∷ [])) (of_chat c later)
    ∙ ap (λ l. of_chat c q ++ l) (sym (keep-append c (e ∷ []) later))

popped_nothing :
    (chat_id : Option String) (q : Queue)
    → pop_first chat_id q ≡ none
    → outbox_pop chat_id [] q ≡ (q, none)
unfolding outbox_pop
popped_nothing chat_id q n = rw (outbox_pop, n) refl

popped_entry :
    (chat_id : Option String) (q : Queue) (e : String × Item) (rest : Queue)
    → pop_first chat_id q ≡ some (e, rest)
    → outbox_pop chat_id [] q ≡ (rest, some e)
unfolding outbox_pop
popped_entry chat_id q e rest g = rw (outbox_pop, g) refl

emit_lem :
    (b : Bool) (e : String × Item) (ops : List Op) (o : Outbox) (c : String)
    → let o' : Outbox = if b then at (o.queue ++ e ∷ []) o else o in
      of_chat c o'.queue ++ of_chat c (entered o'.outbox_delivery ops)
      ≡ of_chat c o.queue
        ++ of_chat c
            (if b then e ∷ entered o.outbox_delivery ops else entered o.outbox_delivery ops)
emit_lem true e ops o c = put_lem o.queue e (entered o.outbox_delivery ops) c
emit_lem false e ops o c = refl

run_nothing :
    (chat_id : Option String) (ops : List Op) (o : Outbox)
    → pop_first chat_id o.queue ≡ none
    → run (pops chat_id ∷ ops) o ≡ run ops o
unfolding run
run_nothing chat_id ops o n =
    ap (λ (r : Queue × Option (String × Item)). hand chat_id r.1 (run ops (at r.0 o)))
      (popped_nothing chat_id o.queue n)

run_entry :
    (chat_id : Option String) (ops : List Op) (o : Outbox) (e : String × Item) (rest : Queue)
    → pop_first chat_id o.queue ≡ some (e, rest)
    → run (pops chat_id ∷ ops) o
      ≡ ((run ops (at rest o)).0, record { asked = chat_id; entry = e } ∷ (run ops (at rest o)).1)
unfolding run
run_entry chat_id ops o e rest g =
    ap (λ (r : Queue × Option (String × Item)). hand chat_id r.1 (run ops (at r.0 o)))
      (popped_entry chat_id o.queue e rest g)

-- Each chat gets its items in the order in which they were put, none twice and none lost, and none
-- goes to a consumer of another chat: whatever results and turn markers the threads put, and
-- whatever consumers pop, for one chat or for any, what was handed out for a chat, followed by what
-- is left for it, is what was there for it and what was put for it; and an item that was handed to
-- a consumer of one chat is an item of that chat. A marker is put where the delivery is on.
pub run_fifo :
    (ops : List Op) (o : Outbox) (c : String)
    → (of_chat c (entries (run ops o).1) ++ of_chat c (run ops o).0
        ≡ of_chat c o.queue ++ of_chat c (entered o.outbox_delivery ops))
      × All IsAsked (run ops o).1
unfolding run enqueue_outbox emit_turn_started
run_fifo [] o c = (sym (append-nil (of_chat c o.queue)), tt)
run_fifo (puts now chat_id item ∷ ops) o c =
    let (order, asked) = run_fifo ops (enqueue_outbox now chat_id item o) c in
    (order ∙ put_lem o.queue (chat_id, item) (entered o.outbox_delivery ops) c, asked)
run_fifo (starts chat_id s t u ∷ ops) o c =
    let (order, asked) = run_fifo ops (emit_turn_started chat_id s t u o) c in
    (order ∙ emit_lem o.outbox_delivery (chat_id, turn_started s t u) ops o c, asked)
run_fifo (pops chat_id ∷ ops) o c = elim (Option-cases (pop_first chat_id o.queue)) [
  | inl n ↦ rw (run_nothing chat_id ops o n) (run_fifo ops o c)
  | inr ((e, rest), g) ↦
      let (want, order) = pop_first_lem chat_id c o.queue e rest g in
      let (later, asked) = run_fifo ops (at rest o) c in
      rw (run_entry chat_id ops o e rest g) (
        ap (λ l. l ++ of_chat c (run ops (at rest o)).0)
              (keep-append c (e ∷ []) (entries (run ops (at rest o)).1))
            ∙ append_assoc (of_chat c (e ∷ [])) (of_chat c (entries (run ops (at rest o)).1))
                (of_chat c (run ops (at rest o)).0)
            ∙ ap (λ l. of_chat c (e ∷ []) ++ l) later
            ∙ sym (
                append_assoc (of_chat c (e ∷ [])) (of_chat c rest)
                  (of_chat c (entered o.outbox_delivery ops)))
            ∙ ap (λ l. l ++ of_chat c (entered o.outbox_delivery ops))
                (sym (keep-append c (e ∷ []) rest) ∙ sym order),
        (asked_lem chat_id e want, asked),
      )
]
