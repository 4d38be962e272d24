-- ===== src/CronService/Caps.antt =====
-- How many jobs `_merge_jobs` of runtime/cron_service.py keeps, and that it drops none in silence.
use diploid_agent.Prelude.{
  ℕ, suc, ◌+◌, ◌≤◌, ◌≡◌, refl, ap, String, true, false, inl, inr, Option, none, some, List, [], ◌∷◌,
  arith, Bool-cases, length, length-append, contains,
}
use diploid_agent.Prelude.Dict.{Dict, get, put, keys, keys-put_new}
use diploid_agent.CronService.Specs.{Spec}
use diploid_agent.CronService.Jobs
use diploid_agent.CronService.Merge.{
  merge_job-cases, merge_watch_gated, merge_watch_open, merged-with_error,
}

absent-contains {ℓ} :
    {V : Type ℓ} (d : Dict V) (k : String) → get d k ≡ none → contains (keys d) k ≡ false
unfolding get
absent-contains [] k h = refl
absent-contains ((j, v) ∷ d) k h = ground (arith, absent-contains d k)

length-put_new {ℓ} :
    {V : Type ℓ} (d : Dict V) (k : String) (v : V)
    → get d k ≡ none
    → length (put d k v) ≡ suc (length d)
length-put_new d k v h =
    rw (keys-put_new d k v (absent-contains d k h))
      (omega (arith, length-append {ℓ} d ((k, v) ∷ [])))

module _ (cfg : Jobs.Config) (files : Jobs.Files) (now : ℕ) where
  -- One job adds to the jobs or to the warnings, and to the file's count as to the jobs.
  merge_job_lem :
      (watch : Jobs.Watch) (cap : ℕ) (spec : Spec) (m : Jobs.Merge)
      → let m' = Jobs.merge_job cfg files now watch cap spec m in
        (length m'.merged + length m'.warnings ≡ suc (length m.merged + length m.warnings))
        × (length m'.merged + m.kept ≡ length m.merged + m'.kept)
        × (m.kept ≤ cap → m'.kept ≤ cap)
  merge_job_lem watch cap spec m = elim (merge_job-cases cfg files now watch cap spec m) [
    | inl (r, o, e, k, same) ↦ rw same (ground (arith, length-put_new m.merged spec.id r o))
    | inr (w, same) ↦ rw same (omega (arith, length-append {0} m.warnings (w ∷ [])))
  ]

  merge_specs_lem :
      (watch : Jobs.Watch) (cap : ℕ) (specs : List Spec) (m : Jobs.Merge)
      → let m' = Jobs.merge_specs cfg files now watch cap specs m in
        (length m'.merged + length m'.warnings
          ≡ length specs + (length m.merged + length m.warnings))
        × (length m'.merged + m.kept ≡ length m.merged + m'.kept)
        × (m.kept ≤ cap → m'.kept ≤ cap)
  unfolding Jobs.merge_specs
  merge_specs_lem watch cap [] m = (omega arith, refl, λ h. h)
  merge_specs_lem watch cap (spec ∷ specs) m =
      let m' = Jobs.merge_job cfg files now watch cap spec m in
      let (one, fair, capped) = merge_job_lem watch cap spec m in
      let (more, fair', capped') = merge_specs_lem watch cap specs m' in
      (omega (arith, one, more), omega (arith, fair, fair'), λ h. capped' (capped h))

  -- Every job of the files whose gate is open is accounted for.
  abbrev pub listed : List Jobs.Watch → ℕ
  listed [] = 0
  listed (w ∷ ws) = length w.jobs + listed ws

  abbrev pub caps : List Jobs.Watch → ℕ
  caps [] = 0
  caps (w ∷ ws) = Jobs.cap_of cfg w.label + caps ws

  length-with_error :
      (e : Option String) (m : Jobs.Merge)
      → length m.warnings ≤ length (Jobs.with_error e m).warnings
  length-with_error none m = omega arith
  length-with_error (some e) m =
      omega (arith, length-append {0} m.warnings (Jobs.file_error e ∷ []))

  merge_watch-bound :
      (watch : Jobs.Watch) (m : Jobs.Merge)
      → length (Jobs.merge_watch cfg files now watch m).merged
        ≤ length m.merged + Jobs.cap_of cfg watch.label
  merge_watch-bound watch m = elim (Bool-cases (Jobs.is_gated cfg watch.label)) [
    | inl g ↦ rw (merge_watch_gated cfg files now watch m g) (omega arith)
    | inr g ↦
        let start : Jobs.Merge = record (Jobs.with_error watch.error m) { kept = 0 } in
        let (all, fair, capped) =
          merge_specs_lem watch (Jobs.cap_of cfg watch.label) watch.jobs start in
        let below = capped (omega arith) in
        rw (merge_watch_open cfg files now watch m g)
          (omega (arith, fair, below, ap length (merged-with_error cfg files now watch.error m)))
  ]

  merge_watches-bound :
      (watches : List Jobs.Watch) (m : Jobs.Merge)
      → length (Jobs.merge_watches cfg files now watches m).merged ≤ length m.merged + caps watches
  unfolding Jobs.merge_watches
  merge_watches-bound [] m = omega arith
  merge_watches-bound (w ∷ ws) m =
      omega
        (arith, merge_watch-bound w m, merge_watches-bound ws (Jobs.merge_watch cfg files now w m))

  open_gate :
      (w : Jobs.Watch) → cfg.persona_cron_permitted ≡ true → Jobs.is_gated cfg w.label ≡ false
  open_gate w p = ground arith

  merge_watches_lem :
      (watches : List Jobs.Watch) (m : Jobs.Merge)
      → cfg.persona_cron_permitted ≡ true
      → let m' = Jobs.merge_watches cfg files now watches m in
        listed watches + (length m.merged + length m.warnings)
        ≤ length m'.merged + length m'.warnings
  unfolding Jobs.merge_watches
  merge_watches_lem [] m p = omega arith
  merge_watches_lem (w ∷ ws) m p =
      let start : Jobs.Merge = record (Jobs.with_error w.error m) { kept = 0 } in
      let (all, _, _) = merge_specs_lem w (Jobs.cap_of cfg w.label) w.jobs start in
      let rest = merge_watches_lem ws (Jobs.merge_watch cfg files now w m) p in
      let step =
        ap (λ (x : Jobs.Merge). length x.merged + length x.warnings)
          (merge_watch_open cfg files now w m (open_gate w p)) in
      omega (
        arith,
        all,
        rest,
        step,
        length-with_error w.error m,
        ap length (merged-with_error cfg files now w.error m),
      )

  -- The jobs that the merge keeps are at most as many as the caps of the files together.
  pub merge_jobs-bound :
      (watches : List Jobs.Watch)
      → length (Jobs.merge_jobs cfg files now watches).merged ≤ caps watches
  unfolding Jobs.merge_jobs
  merge_jobs-bound watches = omega (arith, merge_watches-bound watches Jobs.no_jobs)

  -- Where persona jobs are permitted, no job of a cron file is dropped in silence: the jobs that the
  -- merge keeps and the warnings that it gives are together at least as many as the jobs listed.
  pub merge_jobs_accounts :
      (watches : List Jobs.Watch)
      → cfg.persona_cron_permitted ≡ true
      → let m = Jobs.merge_jobs cfg files now watches in
        listed watches ≤ length m.merged + length m.warnings
  unfolding Jobs.merge_jobs
  merge_jobs_accounts watches p = omega (arith, merge_watches_lem watches Jobs.no_jobs p)
