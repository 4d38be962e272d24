-- ===== src/CronService/Specs.antt =====
-- CronScheduleSpec, CronTriggerSpec, CronCallSpec and CronJobSpec of config.py, with their
-- validators as tests. `at_daily` is the pair of numbers in its text.
use diploid_agent.Prelude.{
  ℕ, ◌+◌, String, Bool, true, false, not, ◌&&◌, ◌||◌, Option, none, some, [], ◌∷◌, is_none, is_some,
  leb, ltb, nat_eq, all, if◌then◌else◌,
}
use diploid_agent.Json.{Text, Json, codes}
use diploid_agent.Jsonl.{is_blank}

pub record Daily : Type 0 where
  pub hour : ℕ
  pub minute : ℕ

pub record Schedule : Type 0 where
  pub cron : Option String
  pub every_seconds : Option ℕ
  pub at_daily : Option Daily

pub data TriggerType : Type 0 where
  file body : TriggerType

pub record Trigger : Type 0 where
  pub type : TriggerType
  pub path : Option String
  pub field : Option String
  pub op : Option String
  pub value : Option Json
  pub cooldown_seconds : Option ℕ

pub data CallType : Type 0 where
  script llm : CallType

pub record Call : Type 0 where
  pub type : CallType
  pub command : Option String
  pub cwd : Option String
  pub persona : Option String
  pub prompt : Option String
  pub model : Option String
  pub timeout_seconds : Option ℕ

pub data Delivery : Type 0 where
  silent digest turn : Delivery

pub data Overlap : Type 0 where
  skip queue : Overlap

pub data Catchup : Type 0 where
  once skip : Catchup

pub record Spec : Type 0 where
  pub id : String
  pub enabled : Bool
  pub schedule : Option Schedule
  pub trigger : Option Trigger
  pub call : Call
  pub delivery : Delivery
  pub chat_id : Option String
  pub overlap : Overlap
  pub catchup : Catchup
  pub max_consecutive_failures : ℕ

abbrev pub is_silent : Delivery → Bool
is_silent Delivery.silent = true
is_silent _ = false

abbrev pub is_turn : Delivery → Bool
is_turn Delivery.turn = true
is_turn _ = false

abbrev pub is_queue : Overlap → Bool
is_queue Overlap.queue = true
is_queue Overlap.skip = false

abbrev pub is_once : Catchup → Bool
is_once Catchup.once = true
is_once Catchup.skip = false

abbrev pub is_file : TriggerType → Bool
is_file TriggerType.file = true
is_file TriggerType.body = false

abbrev pub is_llm : CallType → Bool
is_llm CallType.llm = true
is_llm CallType.script = false

-- `(text or "").strip()` is empty.
abbrev pub is_missing_text : Option String → Bool
is_missing_text none = true
is_missing_text (some s) = is_blank (codes s)

abbrev one_if : Bool → ℕ
one_if b = if b then 1 else 0

-- `_check_at_daily` and `_exactly_one`.
unfoldable pub schedule_ok : Schedule → Bool
schedule_ok s =
    nat_eq
      (one_if (is_some s.cron) + (one_if (is_some s.every_seconds) + one_if (is_some s.at_daily))) 1
    && elim s.at_daily [ none ↦ true | some d ↦ leb d.hour 23 && leb d.minute 59 ]

-- `_fields_for_type`, with the bounds of `cooldown_seconds`.
unfoldable pub trigger_ok : Trigger → Bool
trigger_ok t =
    elim t.cooldown_seconds [ none ↦ true | some c ↦ ltb 0 c && leb c 86400 ] && elim t.type [
      | TriggerType.file ↦
          not (is_missing_text t.path) && (is_none t.field && (is_none t.op && is_none t.value))
      | TriggerType.body ↦
          not (is_missing_text t.field) && (is_some t.op && (is_some t.value && is_none t.path))
    ]

-- `_required_fields`.
unfoldable pub call_ok : Call → Bool
call_ok c = elim c.type [
  | CallType.script ↦ not (is_missing_text c.command)
  | CallType.llm ↦ not (is_missing_text c.prompt)
]

abbrev slug_start : ℕ → Bool
slug_start c = leb b'a' c && leb c b'z' || leb b'0' c && leb c b'9'

abbrev slug_char : ℕ → Bool
slug_char c = slug_start c || (nat_eq c b'_' || nat_eq c b'-')

-- `_CRON_JOB_ID_RE`.
unfoldable pub id_ok : Text → Bool
id_ok [] = false
id_ok (c ∷ s) = slug_start c && all slug_char s

-- `CronJobSpec.model_validate` on the fields: what a parsed job satisfies.
unfoldable pub spec_ok : Spec → Bool
unfolding schedule_ok trigger_ok call_ok id_ok
spec_ok s =
    id_ok (codes s.id)
    && (not (nat_eq (one_if (is_none s.schedule)) (one_if (is_none s.trigger)))
        && (elim s.schedule [ none ↦ true | some sched ↦ schedule_ok sched ]
            && (elim s.trigger [ none ↦ true | some t ↦ trigger_ok t ]
                && (call_ok s.call
                    && (leb 1 s.max_consecutive_failures && leb s.max_consecutive_failures 100)))))
