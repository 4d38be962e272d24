-- ===== src/CronService/Sound.antt =====
-- What `_resolve_job` of runtime/cron_service.py demands of a job that it keeps, and that it does.
use diploid_agent.Prelude.{
  ℕ, ◌≤◌, ◌≡◌, String, true, false, ◌&&◌, ◌⊎◌, inl, inr, Option, none, some, is_none, arith,
  Bool-cases, Option-cases, or_else, ◌-◌, sym, ap,
}
use diploid_agent.CronService.Specs.{Spec, Schedule, is_llm, is_file}
use diploid_agent.CronService.Schedule.{Calendar, Croniter, cron_gap, min_gap}
use diploid_agent.CronService.Paths.{FilePath}
use diploid_agent.CronService.Inside.{IsInside, resolve_trigger_path-IsInside}
use diploid_agent.CronService.Jobs

-- Each of the first four gaps between the times at which croniter fires is at least `floor`.
abbrev pub IsSparse : Calendar → (floor now : ℕ) → (expr : String) → Type 0
IsSparse cal floor now expr =
    (croniter : Croniter) × (times : (ℕ → ℕ)) × (cal.croniter ≡ some croniter)
    × (croniter.fires expr now ≡ some times)
    × (floor ≤ times 1 - times 0)
    × (floor ≤ times 2 - times 1)
    × (floor ≤ times 3 - times 2)
    × (floor ≤ times 4 - times 3)

-- The floor of the configuration, for each kind of driver.
abbrev pub IsPaced : Jobs.Config → Jobs.Files → ℕ → Spec → Type 0
IsPaced cfg files now spec = elim spec.schedule [
  | some s ↦ elim s.every_seconds [
    | some seconds ↦ cfg.min_interval ≤ seconds
    | none ↦ elim s.cron [
      | none ↦ Unit
      | some expr ↦ IsSparse files.calendar cfg.min_interval now expr
    ]
  ]
  | none ↦ elim spec.trigger [ none ↦ Unit | some t ↦ cfg.min_interval ≤ Jobs.cooldown_of cfg t ]
]

-- A persona that a model call can use: the service's own, or one with a soul file.
abbrev pub HasPersona : Jobs.Config → Jobs.Files → Option Jobs.Persona → Type 0
HasPersona cfg files persona =
    (p : Jobs.Persona) × (persona ≡ some p)
    × ((cfg.persona ≡ some p) ⊎ (files.soul_exists p.profile_root ≡ true))

abbrev pub IsConfined : Jobs.Files → Jobs.ResolvedJob → Type 0
IsConfined files r = elim r.spec.trigger [
  | none ↦ Unit
  | some t ↦
      (is_file t.type ≡ false)
      ⊎ ((found : FilePath) × (Jobs.trigger_path files r t ≡ some found)
          × IsInside files.places (Jobs.is_operator r.source_label) r.persona_dir r.chat_id found)
]

module _ (cfg : Jobs.Config) (files : Jobs.Files) (now : ℕ) where
  -- A job's id is its key, no floor is violated, and what its run needs is there.
  pub record IsSound (id : String) (r : Jobs.ResolvedJob) : Type 0 where
    pub own_id : r.spec.id ≡ id
    pub allowed : Jobs.is_gated cfg r.source_label ≡ false
    pub paced : IsPaced cfg files now r.spec
    pub has_persona : (is_llm r.spec.call.type ≡ false) ⊎ HasPersona cfg files r.persona
    pub confined : IsConfined files r

  four_gaps :
      (times : ℕ → ℕ) (gap : ℕ)
      → gap ≡ min_gap times 1 3 (times 1 - times 0)
      → (gap ≤ times 1 - times 0)
        × (gap ≤ times 2 - times 1)
        × (gap ≤ times 3 - times 2)
        × (gap ≤ times 4 - times 3)
  unfolding min_gap
  four_gaps times gap e = (omega arith, omega arith, omega arith, omega arith)

  cron_gap-IsSparse :
      (expr : String) (gap : ℕ)
      → cron_gap files.calendar expr now ≡ some gap
      → cfg.min_interval ≤ gap
      → IsSparse files.calendar cfg.min_interval now expr
  unfolding cron_gap min_gap
  cron_gap-IsSparse expr gap e h = elim (Option-cases files.calendar.croniter) [
    | inl n ↦ ground arith
    | inr (croniter, c) ↦ elim (Option-cases (croniter.fires expr now)) [
      | inl n ↦ ground arith
      | inr (times, t) ↦
          let least : gap ≡ min_gap times 1 3 (times 1 - times 0) = ground arith in
          let (h1, h2, h3, h4) = four_gaps times gap least in
          (croniter, times, c, t, omega arith, omega arith, omega arith, omega arith)
    ]
  ]

  far_enough :
      (spec : Spec) (s : Schedule) (expr : String)
      → spec.schedule ≡ some s
      → s.every_seconds ≡ none
      → s.cron ≡ some expr
      → Jobs.interval_warning cfg files now spec ≡ none
      → IsSparse files.calendar cfg.min_interval now expr
  unfolding Jobs.interval_warning
  far_enough spec s expr e k c h = elim (Option-cases (cron_gap files.calendar expr now)) [
    | inl n ↦ ground arith
    | inr (gap, g) ↦ cron_gap-IsSparse expr gap g (ground arith)
  ]

  interval_warning-IsPaced :
      (spec : Spec) → Jobs.interval_warning cfg files now spec ≡ none → IsPaced cfg files now spec
  unfolding Jobs.interval_warning
  interval_warning-IsPaced spec h = elim (Option-cases spec.schedule) [
    | inl n ↦ ground arith
    | inr (s, e) ↦ elim (Option-cases s.cron) [
      | inl n ↦ ground arith
      | inr (expr, c) ↦ elim (Option-cases s.every_seconds) [
        | inr (seconds, k) ↦ ground arith
        | inl k ↦ rw (e, k, c) (far_enough spec s expr e k c h)
      ]
    ]
  ]

  resolve_persona-HasPersona :
      (name : Option String) (p : Jobs.Persona)
      → Jobs.resolve_persona cfg files name ≡ some p
      → HasPersona cfg files (some p)
  unfolding Jobs.resolve_persona
  resolve_persona-HasPersona name p h = ground arith

  persona_cases :
      (spec : Spec) (persona : Option Jobs.Persona)
      → persona ≡ Jobs.resolve_persona cfg files spec.call.persona
      → is_llm spec.call.type && is_none persona ≡ false
      → (is_llm spec.call.type ≡ false) ⊎ HasPersona cfg files persona
  persona_cases spec none e h = inl (ground arith)
  persona_cases spec (some p) e h = inr (resolve_persona-HasPersona spec.call.persona p (sym e))

  escapes-IsConfined : (r : Jobs.ResolvedJob) → Jobs.escapes files r ≡ false → IsConfined files r
  escapes-IsConfined r h = elim (Option-cases r.spec.trigger) [
    | inl n ↦ rw n tt
    | inr (t, e) ↦ elim (Bool-cases (is_file t.type)) [
      | inr f ↦ rw e (inl f)
      | inl f ↦ elim (Option-cases (Jobs.trigger_path files r t)) [
        | inl n ↦ ground arith
        | inr (found, k) ↦
            let inside =
              resolve_trigger_path-IsInside files.places (Jobs.is_operator r.source_label)
                r.persona_dir r.chat_id (or_else t.path "") found k in
            rw e (inr (found, k, inside))
      ]
    ]
  ]

  pub resolve_job-IsSound :
      (watch : Jobs.Watch) (spec : Spec) (r : Jobs.ResolvedJob)
      → Jobs.is_gated cfg watch.label ≡ false
      → Jobs.resolve_job cfg files now watch spec ≡ Jobs.kept r
      → IsSound spec.id r
  unfolding Jobs.resolve_job
  resolve_job-IsSound watch spec r allowed h =
      let named : r.spec ≡ spec = ground arith in
      let whose : r.persona ≡ Jobs.resolve_persona cfg files spec.call.persona = ground arith in
      let gate : Jobs.is_gated cfg r.source_label ≡ false = ground arith in
      let quiet : Jobs.interval_warning cfg files now spec ≡ none = ground arith in
      let here : is_llm spec.call.type && is_none r.persona ≡ false = ground arith in
      let inside : Jobs.escapes files r ≡ false = ground arith in
      record {
        own_id = ap (λ x. x.id) named;
        allowed = gate;
        paced = rw named (interval_warning-IsPaced spec quiet);
        has_persona = rw named (persona_cases spec r.persona whose here);
        confined = escapes-IsConfined r inside;
      }
