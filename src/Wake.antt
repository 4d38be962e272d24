-- ===== src/Wake.antt =====
-- The wake queue, runtime/wake_queue.py, and WakeEvent of models.py. A queue is the dictionary that
-- each transaction reads from the backing file and writes back. The clock and the fresh ids of
-- `uuid` are arguments.
pub mod Leases
pub mod Cancel
mod Tests
use diploid_agent.Prelude.{
  ℕ, suc, ◌+◌, String, Bool, true, false, not, ◌&&◌, ◌||◌, ◌==◌, Option, none, some, List, [], ◌∷◌,
  if◌then◌else◌, is_none, keep, count, length, ltb, leb, nat_eq, map,
}
use diploid_agent.Prelude.Sort.{sorted}
use diploid_agent.Prelude.Dict.{Dict, get, put, pop, values}
use diploid_agent.Json.{
  Text, Json, null, boolean, number, str, arr, obj, Items, nil, cons, Fields, end, field, codes,
  text_eq, get_field, put_field, append_items, sanitize_payload,
}

pub record WakeEvent : Type 0 where
  pub id : String
  pub chat_id : String
  pub reason : String
  pub priority : ℕ
  pub scheduled_at : ℕ
  pub payload : Fields
  pub silent : Bool
  pub created_at : ℕ
  pub ready : Bool
  pub attempts : ℕ
  pub leased_until : Option ℕ

abbrev pub Queue : Type 0
Queue = Dict WakeEvent

-- e.leased_until is None or e.leased_until <= now
abbrev pub free_at : ℕ → Option ℕ → Bool
free_at now none = true
free_at now (some t) = leb t now

abbrev pub unleased : ℕ → WakeEvent → Bool
unleased now e = free_at now e.leased_until

-- An optional argument that filters: `x is None or e.field == x`.
abbrev pub matches : Option String → String → Bool
matches none s = true
matches (some t) s = s == t

unfoldable pub enqueue : (unique_id : String) → WakeEvent → Queue → Queue × WakeEvent
enqueue unique_id given q = (put q event.id event, event)
  where
    event : WakeEvent
    event = record given {
      id = if given.id == "" then unique_id else given.id;
      payload = sanitize_payload given.payload;
    }

abbrev pub is_str : Option Json → String → Bool
is_str (some (str t)) s = text_eq t (codes s)
is_str _ s = false

-- list(x or []): a list is copied, what is false gives no items, a text gives its characters, a
-- dict its keys, and any other value is a TypeError.
abbrev pub chars : Text → Items
chars [] = nil
chars (c ∷ s) = cons (str (c ∷ [])) (chars s)

abbrev pub field_names : Fields → Items
field_names end = nil
field_names (field k v fs) = cons (str k) (field_names fs)

unfoldable pub as_list : Option Json → Option Items
as_list none = some nil
as_list (some null) = some nil
as_list (some (boolean b)) = if b then none else some nil
as_list (some (number n)) = if nat_eq n 0 then some nil else none
as_list (some (str t)) = some (chars t)
as_list (some (arr xs)) = some xs
as_list (some (obj fs)) = some (field_names fs)

-- merged.update({k: v for k, v in new.items() if k != "tasks"})
unfoldable pub update_except_tasks : Fields → Fields → Fields
update_except_tasks merged end = merged
update_except_tasks merged (field k v fs) =
    update_except_tasks (if text_eq k (codes "tasks") then merged else put_field merged k v) fs

-- `max(candidates, key=created_at)`: the first of the newest.
unfoldable pub newest : WakeEvent → List WakeEvent → WakeEvent
newest best [] = best
newest best (e ∷ es) = newest (if ltb best.created_at e.created_at then e else best) es

unfoldable pub can_absorb : ℕ → WakeEvent → String → WakeEvent → Bool
can_absorb now event key e =
    e.chat_id == event.chat_id
    && (e.reason == event.reason
        && (e.ready && (unleased now e && is_str (get_field e.payload (codes "plan_id")) key)))

unfoldable pub merge_payload : Fields → Fields → Option Fields
unfolding as_list update_except_tasks
merge_payload old new = elim (as_list (get_field old (codes "tasks"))) [
  | none ↦ none
  | some tasks ↦ elim (as_list (get_field new (codes "tasks"))) [
    | none ↦ none
    | some more ↦ some (
        sanitize_payload
          (put_field (update_except_tasks old new) (codes "tasks") (arr (append_items tasks more))))
  ]
]

-- `none` is the TypeError of `list`, which leaves the file as it was.
unfoldable pub merge_into_ready :
    (now : ℕ) → WakeEvent → (key : String) → Queue → Option (Queue × Bool)
unfolding newest can_absorb merge_payload
merge_into_ready now event key q = elim (keep (can_absorb now event key) (values q)) [
  | [] ↦ some (q, false)
  | e ∷ es ↦
      let target = newest e es in
      elim (merge_payload target.payload event.payload) [
        | none ↦ none
        | some merged ↦ some (put q target.id (record target { payload = merged }), true)
      ]
]

unfoldable pub ready : (now : ℕ) → String → Queue → Queue × Option WakeEvent
ready now event_id q = elim (get q event_id) [
  | none ↦ (q, none)
  | some event ↦
      if event.ready
      then (q, some event)
      else let event' : WakeEvent = record event {
        ready = true;
        scheduled_at = now;
        leased_until = none;
      } in
        (put q event_id event', some event')
]

-- (-e.priority, e.scheduled_at, e.created_at), compared as Python compares tuples.
unfoldable pub before : WakeEvent → WakeEvent → Bool
before a b =
    if nat_eq a.priority b.priority
    then (if nat_eq a.scheduled_at b.scheduled_at
        then leb a.created_at b.created_at
        else ltb a.scheduled_at b.scheduled_at)
    else ltb b.priority a.priority

abbrev pub not_later : Option ℕ → WakeEvent → Bool
not_later none e = true
not_later (some now) e = not e.ready || leb e.scheduled_at now

unfoldable pub pending : Option String → (now : Option ℕ) → Queue → List WakeEvent
unfolding before
pending chat_id now q =
    sorted before (keep (not_later now) (keep (λ e. matches chat_id e.chat_id) (values q)))

unfoldable pub is_due : ℕ → WakeEvent → Bool
is_due now e = e.ready && (leb e.scheduled_at now && unleased now e)

-- `for event in due: event.leased_until = ...`, where `due` holds the objects of the dictionary.
abbrev pub leased : ℕ → WakeEvent → WakeEvent
leased until e = record e { leased_until = some until }

unfoldable pub lease_due : ℕ → ℕ → Queue → Queue
unfolding is_due
lease_due now until [] = []
lease_due now until ((k, e) ∷ q) =
    (k, if is_due now e then leased until e else e) ∷ lease_due now until q

unfoldable pub pop_due : (now lease_seconds : ℕ) → Queue → Queue × List WakeEvent
unfolding is_due before lease_due
pop_due now lease_seconds q =
    let until = now + lease_seconds in
    (lease_due now until q, map (leased until) (sorted before (keep (is_due now) (values q))))

unfoldable pub complete : String → Queue → Queue × Option WakeEvent
complete event_id q = (pop q event_id, get q event_id)

unfoldable pub fail : (now retry_after : ℕ) → String → Queue → Queue × Option WakeEvent
fail now retry_after event_id q = elim (get q event_id) [
  | none ↦ (q, none)
  | some event ↦
      let event' : WakeEvent = record event {
        attempts = event.attempts + 1;
        scheduled_at = now + retry_after;
        leased_until = none;
      } in
      (put q event_id event', some event')
]

unfoldable pub pending_count : (now : ℕ) → Queue → ℕ
pending_count now q = count (λ e. e.ready && unleased now e) (values q)

unfoldable pub due_count : (now : ℕ) → Queue → ℕ
unfolding is_due
due_count now q = count (is_due now) (values q)

unfoldable pub cancel_event :
    (now : ℕ) → String → (chat_id : Option String) → Queue → Queue × Option WakeEvent
cancel_event now event_id chat_id q = elim (get q event_id) [
  | none ↦ (q, none)
  | some event ↦
      if not event.ready || (not (matches chat_id event.chat_id) || not (unleased now event))
      then (q, none)
      else (pop q event_id, some event)
]

-- `for event_id in to_remove: self._in_memory.pop(event_id)`
unfoldable pub pop_all : List String → Queue → Queue
pop_all [] q = q
pop_all (k ∷ ks) q = pop_all ks (pop q k)

unfoldable pub keys_where : (WakeEvent → Bool) → Queue → List String
keys_where p [] = []
keys_where p ((k, e) ∷ q) = if p e then k ∷ keys_where p q else keys_where p q

unfoldable pub remove_where : (WakeEvent → Bool) → Queue → Queue × ℕ
unfolding pop_all keys_where
remove_where p q = let to_remove = keys_where p q in (pop_all to_remove q, length to_remove)

abbrev pub cancellable : ℕ → Option String → Option String → WakeEvent → Bool
cancellable now chat_id reason e =
    e.ready && (matches chat_id e.chat_id && (matches reason e.reason && unleased now e))

unfoldable pub cancel : (now : ℕ) → (chat_id reason : Option String) → Queue → Queue × ℕ
unfolding remove_where
cancel now chat_id reason q = remove_where (cancellable now chat_id reason) q

abbrev pub outdated : ℕ → ℕ → Option String → WakeEvent → Bool
outdated now bound reason e =
    e.ready && (ltb e.created_at bound && (matches reason e.reason && unleased now e))

unfoldable pub cancel_older_than : (now bound : ℕ) → (reason : Option String) → Queue → Queue × ℕ
unfolding remove_where
cancel_older_than now bound reason q = remove_where (outdated now bound reason) q
