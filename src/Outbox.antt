-- ===== src/Outbox.antt =====
-- The queue of runtime/outbox.py. A wait is the rounds of the loop, with what other threads do to
-- the queue in between. Notifiers and the rendering of notices are outside.
pub mod Order
mod Tests
use diploid_agent.Prelude.{
  ℕ, String, Bool, true, false, ◌==◌, ◌++◌, Option, none, some, List, [], ◌∷◌, if◌then◌else◌,
  or_else,
}
use diploid_agent.Json.{codes, Fields, field, end, str}
use diploid_agent.Events
use diploid_agent.Events.{Log}

pub data Item : Type 0 where
  chat_result : (reply : Option String) → (transient : Bool) → Item
  turn_started : (session_number turn_number : Option ℕ) → (user_message : Option String) → Item

abbrev pub Queue : Type 0
Queue = List (String × Item)

pub record Outbox : Type 0 where
  pub outbox_delivery : Bool
  pub queue : Queue
  pub event_log : Option Log

abbrev pub is_transient : Item → Bool
is_transient (chat_result reply transient) = transient
is_transient _ = false

abbrev pub text_of : Item → Fields
text_of (chat_result reply transient) = field (codes "text") (str (codes (or_else reply ""))) end
text_of _ = field (codes "text") (str (codes "")) end

-- The log is the one of the chat that the item is for.
unfoldable pub log_transient : (now : ℕ) → String → Item → Option Log → Option Log
log_transient now chat_id item none = none
log_transient now chat_id item (some log) =
    if is_transient item
    then some (Events.append true now chat_id "system" (text_of item) log).0
    else some log

unfoldable pub enqueue_outbox : (now : ℕ) → String → Item → Outbox → Outbox
unfolding log_transient
enqueue_outbox now chat_id item o = record o {
  event_log = log_transient now chat_id item o.event_log;
  queue = o.queue ++ (chat_id, item) ∷ [];
}

unfoldable pub emit_turn_started :
    String
    → (session_number turn_number : Option ℕ) → (user_message : Option String) → Outbox
    → Outbox
emit_turn_started chat_id session_number turn_number user_message o =
    if o.outbox_delivery
    then record o {
      queue = o.queue ++ (chat_id, turn_started session_number turn_number user_message) ∷ [];
    }
    else o

abbrev pub wanted : Option String → String → Bool
wanted none cid = true
wanted (some chat_id) cid = cid == chat_id

-- One round: the first entry for the chat, and the queue without it.
unfoldable pub pop_first : Option String → Queue → Option ((String × Item) × Queue)
pop_first chat_id [] = none
pop_first chat_id (e ∷ q) =
    if wanted chat_id e.0
    then some (e, q)
    else elim (pop_first chat_id q) [ none ↦ none | some (x, rest) ↦ some (x, e ∷ rest) ]

unfoldable pub outbox_pop :
    (chat_id : Option String)
    → (wakes : List (Queue → Queue)) → Queue
    → Queue × Option (String × Item)
unfolding pop_first
outbox_pop chat_id [] q = elim (pop_first chat_id q) [
  | none ↦ (q, none)
  | some (e, rest) ↦ (rest, some e)
]
outbox_pop chat_id (wake ∷ wakes) q =
    let later = outbox_pop chat_id wakes (wake q) in
    elim (pop_first chat_id q) [ none ↦ later | some (e, rest) ↦ (rest, some e) ]
