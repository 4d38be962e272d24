-- ===== src/Cron/Jobs.antt =====
-- Which job states runtime/cron_state.py keeps.
use diploid_agent.Prelude.{
  ℕ, ◌≡◌, refl, ap, ◌∙◌, String, Bool, false, not, ◌&&◌, ◌==◌, none, some, List, [], ◌∷◌,
  if◌then◌else◌, is_none, contains, arith, Bool-cases, inl, inr, eq_iff, eq_refl,
}
use diploid_agent.Prelude.Dict.{get, put, pop, keys, get-put, get-pop, get-some-contains}
use diploid_agent.Cron.{
  CronJobState, idle, Store, update, ensure, remove_each, remove_missing, new_state,
}

abbrev drops : List String → String → Store → Bool
drops job_ids k s = not (contains job_ids k) && idle (get s k)

abbrev one : List String → String → Store → Store
one job_ids k s = if drops job_ids k s then pop s k else s

-- A job that no config file names and that does not run.
abbrev pub is_missing : List String → String → CronJobState → Bool
is_missing job_ids j e = not (contains job_ids j) && is_none e.running_task_id

get-one :
    (job_ids : List String) (k j : String) (s : Store)
    → get (one job_ids k s) j ≡ (if k == j && drops job_ids k s then none else get s j)
get-one job_ids k j s = ground (arith, get-pop s k j)

still_gone :
    (ks job_ids : List String) (s : Store) (j : String)
    → get s j ≡ none
    → get (remove_each ks job_ids s) j ≡ none
unfolding remove_each
still_gone [] job_ids s j h = h
still_gone (k ∷ ks) job_ids s j h =
    still_gone ks job_ids (one job_ids k s) j (get-one job_ids k j s ∙ ground (arith, h))

get-remove_each :
    (ks job_ids : List String) (s : Store) (j : String) (e : CronJobState)
    → get s j ≡ some e
    → get (remove_each ks job_ids s) j
      ≡ (if contains ks j && is_missing job_ids j e then none else some e)
unfolding remove_each
get-remove_each [] job_ids s j e h = h
get-remove_each (k ∷ ks) job_ids s j e h = elim (Bool-cases (k == j)) [
  | inr f ↦
      get-remove_each ks job_ids (one job_ids k s) j e (get-one job_ids k j s ∙ rw f h) ∙ rw f refl
  | inl t ↦
      let same : drops job_ids k s ≡ is_missing job_ids j e =
        ap (λ x. drops job_ids x s) ((eq_iff k j).0 t)
        ∙ ap (λ o. not (contains job_ids j) && idle o) h in
      elim (Bool-cases (is_missing job_ids j e)) [
        | inl b ↦
            still_gone ks job_ids (one job_ids k s) j
              (get-one job_ids k j s ∙ rw (t, same ∙ b) refl)
            ∙ rw (t, b) refl
        | inr b ↦
            get-remove_each ks job_ids (one job_ids k s) j e
              (get-one job_ids k j s ∙ rw (t, same ∙ b) h)
            ∙ ground (arith, t, b)
      ]
]

-- remove_missing drops exactly the states of jobs that no config file names any more and that have
-- no running task; every other state is there afterwards, unchanged.
pub remove_missing_exact :
    (job_ids : List String) (s : Store) (j : String) (e : CronJobState)
    → get s j ≡ some e
    → get (remove_missing job_ids s) j ≡ (if is_missing job_ids j e then none else some e)
unfolding remove_missing
remove_missing_exact job_ids s j e h =
    get-remove_each (keys s) job_ids s j e h ∙ rw (get-some-contains s j e h) refl

ensure_absent :
    (now : ℕ) (j source : String) (s later : Store)
    → get s j ≡ none
    → (ensure now j source s later).0 ≡ put later j (new_state now j source)
unfolding ensure update
ensure_absent now j source s later n = rw (ensure, n) refl

-- When the first transaction of ensure finds no state of the job, the job has a blank state
-- afterwards, whatever another process wrote for it before the second transaction; the states of
-- the other jobs are as that process left them.
pub ensure_overwrites :
    (now : ℕ) (j source : String) (s later : Store)
    → get s j ≡ none
    → (get (ensure now j source s later).0 j ≡ some (new_state now j source))
      × ((k : String) → j == k ≡ false → get (ensure now j source s later).0 k ≡ get later k)
ensure_overwrites now j source s later n =
    let placed : (k : String)
        → get (ensure now j source s later).0 k
          ≡ (if j == k then some (new_state now j source) else get later k) =
      λ k. ap (λ d. get d k) (ensure_absent now j source s later n) ∙ get-put later j k _ in
    (placed j ∙ rw (eq_refl j) refl, λ k f. placed k ∙ rw f refl)
