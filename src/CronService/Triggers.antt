-- ===== src/CronService/Triggers.antt =====
-- `_eval_file_trigger`, `_eval_body_trigger` and `_compare` of runtime/cron_service.py. Both
-- evaluations end in one decision on what was observed: the same window, overlap and consumption.
use diploid_agent.Prelude.{
  ℕ, ◌+◌, String, Bool, true, false, not, ◌&&◌, ◌||◌, ◌==◌, Option, none, some, [], ◌∷◌,
  if◌then◌else◌, or_else, is_some, ltb, nat_eq, ◌^◌,
}
use diploid_agent.Json.{Text, Json, null, boolean, number, str, obj, codes, text_eq, get_field}
use diploid_agent.Cron.{CronJobState}
use diploid_agent.CronService.Specs.{Spec, Trigger, TriggerType, is_queue}
use diploid_agent.CronService.Jobs.{ResolvedJob, cooldown_of, trigger_path}
use diploid_agent.CronService.State.{Clock, now_of}

-- Python's order of texts.
abbrev pub text_less : Text → Text → Bool
text_less [] [] = false
text_less [] (d ∷ t) = true
text_less (c ∷ s) [] = false
text_less (c ∷ s) (d ∷ t) = ltb c d || nat_eq c d && text_less s t

abbrev pub as_number : Json → Option ℕ
as_number (boolean b) = some (if b then 1 else 0)
as_number (number n) = some n
as_number _ = none

abbrev pub as_text : Json → Option Text
as_text (str t) = some t
as_text _ = none

-- `current < value` and `current == value`; the order is none where Python raises TypeError. The
-- value of a trigger is a number, a text or a truth value.
unfoldable pub less : Json → Json → Option Bool
less a b = elim (as_number a) [
  | some m ↦ elim (as_number b) [ some n ↦ some (ltb m n) | none ↦ none ]
  | none ↦ elim (as_text a) [
    | some s ↦ elim (as_text b) [ some t ↦ some (text_less s t) | none ↦ none ]
    | none ↦ none
  ]
]

unfoldable pub equal : Json → Json → Bool
equal a b = elim (as_number a) [
  | some m ↦ elim (as_number b) [ some n ↦ nat_eq m n | none ↦ false ]
  | none ↦ elim (as_text a) [
    | some s ↦ elim (as_text b) [ some t ↦ text_eq s t | none ↦ false ]
    | none ↦ false
  ]
]

abbrev holds : Option Bool → Bool
holds none = false
holds (some b) = b

abbrev fails : Option Bool → Bool
fails none = false
fails (some b) = not b

-- The operators of _TRIGGER_OPS; any other text matches nothing.
unfoldable pub compare_by : (op : String) → Json → Json → Bool
unfolding less equal
compare_by op a b =
    if op == ">"
    then holds (less b a)
    else if op == ">="
    then fails (less a b)
    else if op == "<"
    then holds (less a b)
    else if op == "<="
    then fails (less b a)
    else if op == "=="
    then equal a b
    else if op == "!="
    then not (equal a b)
    else false

unfoldable pub compare : Option Json → (op : Option String) → Option Json → Bool
unfolding compare_by
compare none op value = false
compare (some null) op value = false
compare (some current) none value = false
compare (some current) (some text) value = elim value [
  | none ↦ if text == "!=" then true else false
  | some v ↦ compare_by text current v
]

-- `now - fired_at < cooldown`: inside the cooldown window an edge is not consumed.
unfoldable pub in_window : (now cooldown : ℕ) → CronJobState → Bool
in_window now cooldown state = elim state.trigger_fired_at [
  | none ↦ false
  | some fired_at ↦ ltb now (fired_at + cooldown)
]

-- An edge while a run is in flight: it is owed, or skipped.
abbrev pub owed : Spec → CronJobState → CronJobState
owed spec state =
    if is_queue spec.overlap
    then record state { queued_due = true }
    else record state { last_status = some "skipped" }

-- The decision: the new state, which is saved, and whether the job fires.
pub data Decision : Type 0 where
  wait : Decision
  note : CronJobState → Decision
  fire : CronJobState → Decision

abbrev pub decide_edge :
    (now cooldown : ℕ) → Spec → (consume : CronJobState → CronJobState) → CronJobState → Decision
decide_edge now cooldown spec consume state =
    if in_window now cooldown state
    then wait
    else if is_some state.running_task_id
    then note (owed spec (consume state))
    else fire (consume state)

abbrev pub seen : ℕ → CronJobState → CronJobState
seen mtime state = record state { trigger_seen_mtime = some mtime }

abbrev pub held : CronJobState → CronJobState
held state = record state { trigger_held = true }

unfoldable pub decide_file :
    (now cooldown : ℕ) → Spec → (mtime : Option ℕ) → CronJobState → Decision
unfolding in_window
decide_file now cooldown spec none state = wait
decide_file now cooldown spec (some mtime) state = elim state.trigger_seen_mtime [
  | none ↦ note (seen mtime state)
  | some before ↦
      if nat_eq mtime before then wait else decide_edge now cooldown spec (seen mtime) state
]

unfoldable pub decide_body : (now cooldown : ℕ) → Spec → (met : Bool) → CronJobState → Decision
unfolding in_window
decide_body now cooldown spec met state =
    if not met
    then (if state.trigger_held then note (record state { trigger_held = false }) else wait)
    else if state.trigger_held
    then wait
    else decide_edge now cooldown spec held state

-- A field that is an object with a value stands for the value.
abbrev value_of : Option Json → Option Json
value_of (some (obj fields)) = elim (get_field fields (codes "value")) [
  | none ↦ some (obj fields)
  | some v ↦ some v
]
value_of v = v

abbrev lookup : Clock → Option String → Text → Option Json
lookup c chat_id key = elim (c.body_state chat_id) [
  | none ↦ none
  | some fields ↦ get_field fields key
]

abbrev absent : Option Json → Bool
absent none = true
absent (some null) = true
absent (some _) = false

-- The chat's own field, or the persona's.
unfoldable pub current_value : Clock → ResolvedJob → Trigger → Option Json
current_value c r t =
    let key = codes (or_else t.field "") in
    let own = lookup c (some r.chat_id) key in
    value_of (if absent own then lookup c none key else own)

-- The time of the watched file; none also where the path is refused, or the file is not there.
unfoldable pub watched_mtime : Clock → ResolvedJob → Trigger → Option ℕ
watched_mtime c r t = elim (trigger_path c.files r t) [
  | none ↦ none
  | some path ↦ c.files.stat (c.path_text path)
]

unfoldable pub decide_by : Clock → ResolvedJob → Trigger → TriggerType → CronJobState → Decision
unfolding decide_file decide_body current_value compare watched_mtime
decide_by c r t TriggerType.file state =
    decide_file (now_of c) (cooldown_of c.cfg t) r.spec (watched_mtime c r t) state
decide_by c r t TriggerType.body state =
    decide_body (now_of c) (cooldown_of c.cfg t) r.spec (compare (current_value c r t) t.op t.value)
      state

unfoldable pub decide : Clock → ResolvedJob → Trigger → CronJobState → Decision
unfolding decide_by
decide c r t state = decide_by c r t t.type state

-- The text that a fire gives as its reason.
unfoldable pub fire_reason : Clock → ResolvedJob → Trigger → String
unfolding current_value
fire_reason c r t = elim t.type [
  | TriggerType.file ↦
      "file changed: "
      ^ elim (trigger_path c.files r t) [ none ↦ "" | some path ↦ c.path_text path ]
  | TriggerType.body ↦
      "body "
      ^ or_else t.field ""
      ^ " "
      ^ or_else t.op ""
      ^ " "
      ^ c.repr (or_else t.value null)
      ^ " (now "
      ^ c.repr (or_else (current_value c r t) null)
      ^ ")"
]
