-- ===== src/CronService/Merge.antt =====
-- What the merge of the cron files keeps: `_merge_jobs` of runtime/cron_service.py.
use diploid_agent.Prelude.{
  ℕ, suc, ◌≡◌, refl, String, true, false, ◌⊎◌, inl, inr, Option, none, some, List, [], ◌∷◌, arith,
  Bool-cases, Option-cases, leb,
}
use diploid_agent.Prelude.Dict.{get, put, Entries, put-Entries}
use diploid_agent.CronService.Specs.{Spec}
use diploid_agent.CronService.Sound
use diploid_agent.CronService.Jobs

module _ (cfg : Jobs.Config) (files : Jobs.Files) (now : ℕ) where
  Resolved-cases :
      (x : Jobs.Resolved)
      → ((r : Jobs.ResolvedJob) × (x ≡ Jobs.kept r)) ⊎ ((w : Jobs.Warning) × (x ≡ Jobs.dropped w))
  Resolved-cases (Jobs.kept r) = inl (r, refl)
  Resolved-cases (Jobs.dropped w) = inr (w, refl)

  -- One job of a file: it is kept under its id, or a warning tells why not.
  abbrev pub Kept : Jobs.Watch → Spec → (cap : ℕ) → Jobs.Merge → Jobs.Merge → Type 0
  Kept watch spec cap m m' =
      (r : Jobs.ResolvedJob) × (get m.merged spec.id ≡ none)
      × (leb cap m.kept ≡ false)
      × (Jobs.resolve_job cfg files now watch spec ≡ Jobs.kept r)
      × (m' ≡ record m { merged = put m.merged spec.id r; kept = suc m.kept })

  abbrev pub Warned : Jobs.Merge → Jobs.Merge → Type 0
  Warned m m' = (w : Jobs.Warning) × (m' ≡ Jobs.warn w m)

  pub merge_job-cases :
      (watch : Jobs.Watch) (cap : ℕ) (spec : Spec) (m : Jobs.Merge)
      → Kept watch spec cap m (Jobs.merge_job cfg files now watch cap spec m)
        ⊎ Warned m (Jobs.merge_job cfg files now watch cap spec m)
  unfolding Jobs.merge_job
  merge_job-cases watch cap spec m = elim (Bool-cases (leb cap m.kept)) [
    | inl e ↦ inr (Jobs.over_cap watch.path spec.id cap, rw e refl)
    | inr e ↦ elim (Option-cases (get m.merged spec.id)) [
      | inr (other, o) ↦ inr (Jobs.shadowed spec.id watch.path other.source_file, rw (e, o) refl)
      | inl o ↦ elim (Resolved-cases (Jobs.resolve_job cfg files now watch spec)) [
        | inl (r, k) ↦ inl (r, o, e, k, rw (e, o, k) refl)
        | inr (w, k) ↦ inr (w, rw (e, o, k) refl)
      ]
    ]
  ]

  merge_job-IsSound :
      (watch : Jobs.Watch) (cap : ℕ) (spec : Spec) (m : Jobs.Merge)
      → Jobs.is_gated cfg watch.label ≡ false
      → Entries (Sound.IsSound cfg files now) m.merged
      → Entries (Sound.IsSound cfg files now) (Jobs.merge_job cfg files now watch cap spec m).merged
  merge_job-IsSound watch cap spec m allowed h = elim (merge_job-cases watch cap spec m) [
    | inl (r, o, e, k, same) ↦ rw same (
        put-Entries (Sound.IsSound cfg files now) m.merged spec.id r h
          (Sound.resolve_job-IsSound cfg files now watch spec r allowed k))
    | inr (w, same) ↦ rw same h
  ]

  merge_specs-IsSound :
      (watch : Jobs.Watch) (cap : ℕ) (specs : List Spec) (m : Jobs.Merge)
      → Jobs.is_gated cfg watch.label ≡ false
      → Entries (Sound.IsSound cfg files now) m.merged
      → Entries
          (Sound.IsSound cfg files now)
          (Jobs.merge_specs cfg files now watch cap specs m).merged
  unfolding Jobs.merge_specs
  merge_specs-IsSound watch cap [] m allowed h = h
  merge_specs-IsSound watch cap (spec ∷ specs) m allowed h =
      merge_specs-IsSound watch cap specs (Jobs.merge_job cfg files now watch cap spec m) allowed
        (merge_job-IsSound watch cap spec m allowed h)

  -- The gate of a file: what a closed gate lets through of the state.
  pub merged-with_error :
      (e : Option String) (m : Jobs.Merge) → (Jobs.with_error e m).merged ≡ m.merged
  merged-with_error none m = refl
  merged-with_error (some e) m = refl

  pub merge_watch_gated :
      (watch : Jobs.Watch) (m : Jobs.Merge)
      → Jobs.is_gated cfg watch.label ≡ true
      → (Jobs.merge_watch cfg files now watch m).merged ≡ m.merged
  unfolding Jobs.merge_watch
  merge_watch_gated watch m g = ground (arith, merged-with_error watch.error m)

  pub merge_watch_open :
      (watch : Jobs.Watch) (m : Jobs.Merge)
      → Jobs.is_gated cfg watch.label ≡ false
      → Jobs.merge_watch cfg files now watch m
        ≡ Jobs.merge_specs cfg files now watch
            (Jobs.cap_of cfg watch.label)
            watch.jobs
            (record (Jobs.with_error watch.error m) { kept = 0 })
  unfolding Jobs.merge_watch
  merge_watch_open watch m g = rw (Jobs.merge_watch, g) refl

  merge_watch-IsSound :
      (watch : Jobs.Watch) (m : Jobs.Merge)
      → Entries (Sound.IsSound cfg files now) m.merged
      → Entries (Sound.IsSound cfg files now) (Jobs.merge_watch cfg files now watch m).merged
  merge_watch-IsSound watch m h = elim (Bool-cases (Jobs.is_gated cfg watch.label)) [
    | inl g ↦ rw (merge_watch_gated watch m g) h
    | inr g ↦ rw (merge_watch_open watch m g) (
        merge_specs-IsSound watch _ watch.jobs (record (Jobs.with_error watch.error m) { kept = 0 })
          g (rw (merged-with_error watch.error m) h))
  ]

  merge_watches-IsSound :
      (watches : List Jobs.Watch) (m : Jobs.Merge)
      → Entries (Sound.IsSound cfg files now) m.merged
      → Entries (Sound.IsSound cfg files now) (Jobs.merge_watches cfg files now watches m).merged
  unfolding Jobs.merge_watches
  merge_watches-IsSound [] m h = h
  merge_watches-IsSound (w ∷ ws) m h =
      merge_watches-IsSound ws (Jobs.merge_watch cfg files now w m) (merge_watch-IsSound w m h)

  -- Each job that the merge of the cron files keeps stands under its own id and is not from a file
  -- whose jobs the authorship switch forbids. The interval of its schedule, or the cooldown of its
  -- trigger, is at least the minimum, where a cron expression has at least that much between each two
  -- neighbours of the next five times at which it fires; a daily time has no minimum. If it calls a model, its
  -- persona is the service's own or has a soul file. The file that it watches is one of its roots or
  -- has one as a prefix of its path: the persona's directory, the chat's, the home for an operator's
  -- job, and the allowed ones.
  pub merge_jobs-IsSound :
      (watches : List Jobs.Watch)
      → Entries (Sound.IsSound cfg files now) (Jobs.merge_jobs cfg files now watches).merged
  unfolding Jobs.merge_jobs
  merge_jobs-IsSound watches = merge_watches-IsSound watches _ tt
