-- ===== src/CronService/Jobs.antt =====
-- `_reload`, `_merge_jobs`, `_resolve_job` and `_resolve_persona` of runtime/cron_service.py. A
-- warning is a value with the parts of its text.
use diploid_agent.Prelude.{
  ℕ, suc, String, Bool, true, false, not, ◌&&◌, ◌||◌, ◌==◌, Option, none, some, List, [], ◌∷◌, ◌++◌,
  if◌then◌else◌, or_else, is_none, leb, ltb, nat_eq,
}
use diploid_agent.Prelude.Dict.{Dict, get, put}
use diploid_agent.CronService.Specs.{Spec, Trigger, is_llm, is_file}
use diploid_agent.CronService.Schedule.{Calendar, cron_gap}
use diploid_agent.CronService.Paths.{FilePath, Places, resolve_trigger_path}

pub record Persona : Type 0 where
  pub name : String
  pub profile_root : FilePath
  pub fleet_root : Option FilePath
  pub memory_filename : String

pub data Label : Type 0 where
  operator persona : Label

abbrev pub is_operator : Label → Bool
is_operator Label.operator = true
is_operator Label.persona = false

pub record ResolvedJob : Type 0 where
  pub spec : Spec
  pub source_file : String
  pub source_label : Label
  pub chat_id : String
  pub persona : Option Persona
  pub persona_dir : Option FilePath

pub data Warning : Type 0 where
  file_error : String → Warning
  persona_off : (path : String) → Warning
  over_cap : (path id : String) → (cap : ℕ) → Warning
  shadowed : (id path by : String) → Warning
  interval_below : (id : String) → (seconds : ℕ) → Warning
  invalid_cron no_persona no_chat path_escapes : (id : String) → Warning

pub record Watch : Type 0 where
  pub path : String
  pub label : Label
  pub mtime : Option ℕ
  pub jobs : List Spec
  pub error : Option String

-- The parts of the configuration that the service reads.
pub record Config : Type 0 where
  pub enabled : Bool
  pub max_jobs_global : ℕ
  pub max_jobs_per_persona : ℕ
  pub min_interval : ℕ
  pub max_llm_timeout : ℕ
  pub turn_delivery_max_per_day : ℕ
  pub self_wake_max_pending : ℕ
  pub self_wake_min_interval : ℕ
  pub fallback_chat_id : Option String
  pub persona : Option Persona
  pub persona_cron_permitted : Bool

-- What the file system holds: `parse` is none where reading or validating the file fails.
pub record Files : Type 0 where
  pub stat : String → Option ℕ
  pub parse : String → Option (List Spec)
  pub parse_error : String → String
  pub soul_exists : FilePath → Bool
  pub parent : FilePath → FilePath
  pub places : Places
  pub calendar : Calendar

unfoldable pub resolve_persona : Config → Files → Option String → Option Persona
resolve_persona cfg files name = elim cfg.persona [
  | none ↦ none
  | some own ↦ elim name [
    | none ↦ some own
    | some n ↦
        if n == "" || n == own.name
        then some own
        else (let fleet_root = or_else own.fleet_root (files.parent own.profile_root) in
            let root = fleet_root ++ n ∷ [] in
            if files.soul_exists root
            then some (record {
              name = n;
              profile_root = root;
              fleet_root = some fleet_root;
              memory_filename = own.memory_filename;
            })
            else none)
  ]
]

-- x or default, for a number that counts as false when it is zero.
abbrev pub number_or : Option ℕ → ℕ → ℕ
number_or none d = d
number_or (some n) d = if nat_eq n 0 then d else n

abbrev pub cooldown_of : Config → Trigger → ℕ
cooldown_of cfg t = number_or t.cooldown_seconds cfg.min_interval

-- The minimum-interval floor: a warning where the job is below it.
unfoldable pub interval_warning : Config → Files → (now : ℕ) → Spec → Option Warning
unfolding cron_gap
interval_warning cfg files now spec = elim spec.schedule [
  | some s ↦ elim s.every_seconds [
    | some seconds ↦
        if ltb seconds cfg.min_interval then some (interval_below spec.id seconds) else none
    | none ↦ elim s.cron [
      | none ↦ none
      | some expr ↦ elim (cron_gap files.calendar expr now) [
        | none ↦ some (invalid_cron spec.id)
        | some gap ↦ if ltb gap cfg.min_interval then some (interval_below spec.id gap) else none
      ]
    ]
  ]
  | none ↦ elim spec.trigger [
    | none ↦ none
    | some t ↦
        if ltb (cooldown_of cfg t) cfg.min_interval
        then some (interval_below spec.id (cooldown_of cfg t))
        else none
  ]
]

-- `spec.chat_id or fallback`, with empty texts as false.
abbrev pub text_or : Option String → Option String → Option String
text_or none d = elim d [ none ↦ none | some t ↦ if t == "" then none else some t ]
text_or (some s) d =
    if s == "" then elim d [ none ↦ none | some t ↦ if t == "" then none else some t ] else some s

abbrev pub dir_of : Option Persona → Option FilePath
dir_of none = none
dir_of (some p) = some p.profile_root

abbrev pub trigger_path : Files → ResolvedJob → Trigger → Option FilePath
trigger_path files r t =
    resolve_trigger_path files.places (is_operator r.source_label) r.persona_dir r.chat_id
      (or_else t.path "")

abbrev pub escapes : Files → ResolvedJob → Bool
escapes files r = elim r.spec.trigger [
  | none ↦ false
  | some t ↦ is_file t.type && is_none (trigger_path files r t)
]

-- A job, or the warning with which it is dropped.
pub data Resolved : Type 0 where
  kept : ResolvedJob → Resolved
  dropped : Warning → Resolved

unfoldable pub resolve_job : Config → Files → (now : ℕ) → Watch → Spec → Resolved
unfolding interval_warning resolve_persona
resolve_job cfg files now watch spec = elim (interval_warning cfg files now spec) [
  | some w ↦ dropped w
  | none ↦
      let persona = resolve_persona cfg files spec.call.persona in
      if is_llm spec.call.type && is_none persona
      then dropped (no_persona spec.id)
      else elim (text_or spec.chat_id cfg.fallback_chat_id) [
        | none ↦ dropped (no_chat spec.id)
        | some chat_id ↦
            let resolved : ResolvedJob = record {
              spec = spec;
              source_file = watch.path;
              source_label = watch.label;
              chat_id = chat_id;
              persona = persona;
              persona_dir = dir_of persona;
            } in
            if escapes files resolved then dropped (path_escapes spec.id) else kept resolved
      ]
]

-- The loop's state: `merged`, `warnings`, and `kept` of the file at hand.
pub record Merge : Type 0 where
  pub merged : Dict ResolvedJob
  pub warnings : List Warning
  pub kept : ℕ

abbrev pub warn : Warning → Merge → Merge
warn w m = record m { warnings = m.warnings ++ w ∷ [] }

abbrev pub keep_job : Resolved → String → Merge → Merge
keep_job (kept r) id m = record m { merged = put m.merged id r; kept = suc m.kept }
keep_job (dropped w) id m = warn w m

unfoldable pub merge_job : Config → Files → (now : ℕ) → Watch → (cap : ℕ) → Spec → Merge → Merge
unfolding resolve_job
merge_job cfg files now watch cap spec m =
    if leb cap m.kept
    then warn (over_cap watch.path spec.id cap) m
    else elim (get m.merged spec.id) [
      | some other ↦ warn (shadowed spec.id watch.path other.source_file) m
      | none ↦ keep_job (resolve_job cfg files now watch spec) spec.id m
    ]

unfoldable pub merge_specs :
    Config → Files → (now : ℕ) → Watch → (cap : ℕ) → List Spec → Merge → Merge
unfolding merge_job
merge_specs cfg files now watch cap [] m = m
merge_specs cfg files now watch cap (spec ∷ specs) m =
    merge_specs cfg files now watch cap specs (merge_job cfg files now watch cap spec m)

abbrev pub cap_of : Config → Label → ℕ
cap_of cfg Label.operator = cfg.max_jobs_global
cap_of cfg Label.persona = cfg.max_jobs_per_persona

abbrev pub with_error : Option String → Merge → Merge
with_error none m = m
with_error (some e) m = warn (file_error e) m

abbrev pub is_gated : Config → Label → Bool
is_gated cfg label = not (is_operator label) && not cfg.persona_cron_permitted

unfoldable pub merge_watch : Config → Files → (now : ℕ) → Watch → Merge → Merge
unfolding merge_specs
merge_watch cfg files now watch m =
    let m' = with_error watch.error m in
    if is_gated cfg watch.label
    then elim watch.jobs [ [] ↦ m' | _ ∷ _ ↦ warn (persona_off watch.path) m' ]
    else merge_specs cfg files now watch (cap_of cfg watch.label) watch.jobs
        (record m' { kept = 0 })

unfoldable pub merge_watches : Config → Files → (now : ℕ) → List Watch → Merge → Merge
unfolding merge_watch
merge_watches cfg files now [] m = m
merge_watches cfg files now (w ∷ ws) m =
    merge_watches cfg files now ws (merge_watch cfg files now w m)

abbrev pub no_jobs : Merge
no_jobs = record { merged = []; warnings = []; kept = 0 }

unfoldable pub merge_jobs : Config → Files → (now : ℕ) → List Watch → Merge
unfolding merge_watches
merge_jobs cfg files now watches = merge_watches cfg files now watches no_jobs

abbrev pub same_time : Option ℕ → Option ℕ → Bool
same_time none none = true
same_time none (some b) = false
same_time (some a) none = false
same_time (some a) (some b) = nat_eq a b

-- One round of the loop of `_reload`, for a file whose time has changed.
unfoldable pub reload_watch : Files → (force : Bool) → Watch → Watch
reload_watch files force w =
    if not force && same_time (files.stat w.path) w.mtime then w else elim (files.stat w.path) [
      | none ↦ record w { mtime = none; jobs = []; error = none }
      | some mtime ↦ elim (files.parse w.path) [
        | none ↦ record w { mtime = some mtime; error = some (files.parse_error w.path) }
        | some parsed ↦ record w { mtime = some mtime; jobs = parsed; error = none }
      ]
    ]
