-- ===== src/CronService/Inside.antt =====
-- What `_resolve_trigger_path` of runtime/cron_service.py lets a job watch: a path that starts with
-- one of the job's directories.
use diploid_agent.Prelude.{
  ◌≡◌, refl, String, true, false, ◌⊎◌, inl, inr, Option, none, some, List, [], ◌∷◌, arith,
  Bool-cases, Option-cases, ◌++◌, Bool, ◌==◌, any, eq_iff, All, sym, ◌∙◌, ap, if◌then◌else◌,
  All-append,
}
use mathlib.Core.List.{Mem, mem-cons_self, mem-cons_of_mem}
use diploid_agent.CronService.Paths.{
  FilePath, Places, is_under, roots, confine, candidate, resolve_trigger_path, strip_prefix,
  session_prefix,
}
use diploid_agent.Json.{codes}

-- The directories that a job may watch.
abbrev pub IsRoot : Places → Bool → Option FilePath → String → FilePath → Type 0
IsRoot places is_global persona_dir chat_id root =
    (persona_dir ≡ some root)
    ⊎ ((root ≡ places.session_root chat_id)
        ⊎ (((is_global ≡ true) × (root ≡ places.home)) ⊎ Mem root places.allowed_roots))

-- The path is a root of the job or stands below one.
abbrev pub IsInside : Places → Bool → Option FilePath → String → FilePath → Type 0
IsInside places is_global persona_dir chat_id found =
    (root : FilePath) × (rest : FilePath) × (found ≡ root ++ rest)
    × IsRoot places is_global persona_dir chat_id root

is_under-prefix :
    (root found : FilePath)
    → is_under root found ≡ true
    → (rest : FilePath) × (found ≡ root ++ rest)
unfolding is_under
is_under-prefix [] found h = (found, refl)
is_under-prefix (r ∷ root) [] h = ground arith
is_under-prefix (r ∷ root) (c ∷ found) h =
    let same : r == c ≡ true = ground arith in
    let below : is_under root found ≡ true = ground arith in
    let (rest, e) = is_under-prefix root found below in
    (rest, ap (λ n. n ∷ found) (sym ((eq_iff r c).0 same)) ∙ ap (λ names. r ∷ names) e)

-- One of the directories stands above a path that `confine` lets through.
any-is_under :
    (P : FilePath → Type 0) (allowed : List FilePath) (found : FilePath)
    → All P allowed
    → any (λ root. is_under root found) allowed ≡ true
    → (root : FilePath) × (rest : FilePath) × (found ≡ root ++ rest) × P root
any-is_under P [] found ps h = ground arith
any-is_under P (root ∷ allowed) found ps h = elim (Bool-cases (is_under root found)) [
  | inl e ↦ let (rest, same) = is_under-prefix root found e in (root, rest, same, ps.0)
  | inr e ↦ any-is_under P allowed found ps.1 (ground arith)
]

confine-prefix :
    (P : FilePath → Type 0) (allowed : List FilePath) (x found : FilePath)
    → All P allowed
    → confine allowed x ≡ some found
    → (root : FilePath) × (rest : FilePath) × (found ≡ root ++ rest) × P root
confine-prefix P allowed x found ps h = elim (Bool-cases (any (λ root. is_under root x) allowed)) [
  | inl e ↦
      let (root, rest, same, p) = any-is_under P allowed x ps e in
      let is_x : x ≡ found = ground arith in (root, rest, sym is_x ∙ same, p)
  | inr e ↦ ground arith
]

module _ {A : Type 0} (P : A → Type 0) where
  all_members : (xs : List A) → ((x : A) → Mem x xs → P x) → All P xs
  all_members [] h = tt
  all_members (x ∷ xs) h = (h x (mem-cons_self), all_members xs (λ y m. h y (mem-cons_of_mem x m)))

  all_of_option :
      (d : Option A) → ((x : A) → d ≡ some x → P x) → All P (elim d [ none ↦ [] | some x ↦ x ∷ [] ])
  all_of_option none h = tt
  all_of_option (some x) h = (h x refl, tt)

  all_if : (b : Bool) (x : A) → (b ≡ true → P x) → All P (if b then x ∷ [] else [])
  all_if true x h = (h refl, tt)
  all_if false x h = tt

roots-IsRoot :
    (places : Places) (is_global : Bool) (persona_dir : Option FilePath) (chat_id : String)
    → All (IsRoot places is_global persona_dir chat_id) (roots places is_global persona_dir chat_id)
unfolding roots
roots-IsRoot places is_global persona_dir chat_id =
    let R = IsRoot places is_global persona_dir chat_id in
    let own : List FilePath = elim persona_dir [ none ↦ [] | some dir ↦ dir ∷ [] ] in
    let chat : List FilePath = places.session_root chat_id ∷ [] in
    let homes : List FilePath = if is_global then places.home ∷ [] else [] in
    All-append R ((own ++ chat) ++ homes) places.allowed_roots
      (All-append R (own ++ chat) homes
        (All-append R own chat (all_of_option R persona_dir (λ dir e. inl e)) (inr (inl refl), tt))
        (all_if R is_global places.home (λ e. inr (inr (inl (e, refl))))))
      (all_members R places.allowed_roots (λ root m. inr (inr (inr m))))

pub resolve_trigger_path-IsInside :
    (places : Places) (is_global : Bool) (persona_dir : Option FilePath) (chat_id raw : String)
    (found : FilePath)
    → resolve_trigger_path places is_global persona_dir chat_id raw ≡ some found
    → IsInside places is_global persona_dir chat_id found
unfolding resolve_trigger_path
resolve_trigger_path-IsInside places is_global persona_dir chat_id raw found h =
    elim (Option-cases (strip_prefix session_prefix (codes raw))) [
      | inr (rel, e) ↦
          confine-prefix (IsRoot places is_global persona_dir chat_id)
            (places.session_root chat_id ∷ []) (places.resolve (places.session_root chat_id) rel)
            found (inr (inl refl), tt) (ground arith)
      | inl e ↦
          confine-prefix (IsRoot places is_global persona_dir chat_id)
            (roots places is_global persona_dir chat_id) (candidate places persona_dir (codes raw))
            found (roots-IsRoot places is_global persona_dir chat_id) (ground arith)
    ]
