-- ===== src/CronService/Paths.antt =====
-- `_resolve_trigger_path` of runtime/cron_service.py. An absolute path is the list of its names from
-- the root; what `resolve`, `expanduser` and the working directory give is the parameter `Places`.
use diploid_agent.Prelude.{
  String, Bool, true, false, ◌&&◌, ◌==◌, Option, none, some, List, [], ◌∷◌, ◌++◌, if◌then◌else◌,
  any, or_else, nat_eq,
}
use diploid_agent.Json.{Text, codes}

abbrev pub FilePath : Type 0
FilePath = List String

-- A path in a job file after `expanduser`: absolute, or to be put under a base.
pub data RawPath : Type 0 where
  absolute relative : Text → RawPath

pub record Places : Type 0 where
  pub expanduser : Text → RawPath
  pub resolve : FilePath → Text → FilePath
  pub home : FilePath
  pub cwd : FilePath
  pub session_root : (chat_id : String) → FilePath
  pub allowed_roots : List FilePath

-- `candidate == root or root in candidate.parents`
unfoldable pub is_under : (root : FilePath) → (candidate : FilePath) → Bool
is_under [] candidate = true
is_under (r ∷ root) [] = false
is_under (r ∷ root) (c ∷ candidate) = r == c && is_under root candidate

-- raw.startswith(prefix), and raw[len(prefix):].
abbrev pub strip_prefix : Text → Text → Option Text
strip_prefix [] raw = some raw
strip_prefix (p ∷ prefix) [] = none
strip_prefix (p ∷ prefix) (c ∷ raw) = if nat_eq p c then strip_prefix prefix raw else none

abbrev pub session_prefix : Text
session_prefix = codes "session:"

-- The roots of a job: the persona's directory, the chat's, the home of an operator's job, the
-- extras.
unfoldable pub roots : Places → Bool → Option FilePath → String → List FilePath
roots places is_global persona_dir chat_id =
    elim persona_dir [ none ↦ [] | some dir ↦ dir ∷ [] ]
    ++ (places.session_root chat_id ∷ [])
    ++ (if is_global then places.home ∷ [] else [])
    ++ places.allowed_roots

unfoldable pub candidate : Places → Option FilePath → Text → FilePath
candidate places persona_dir raw = elim (places.expanduser raw) [
  | absolute text ↦ places.resolve [] text
  | relative text ↦ places.resolve (or_else persona_dir places.cwd) text
]

abbrev pub confine : List FilePath → FilePath → Option FilePath
confine allowed found = if any (λ root. is_under root found) allowed then some found else none

unfoldable pub resolve_trigger_path :
    Places
    → (is_global : Bool) → (persona_dir : Option FilePath) → (chat_id raw : String)
    → Option FilePath
unfolding is_under roots candidate
resolve_trigger_path places is_global persona_dir chat_id raw =
    elim (strip_prefix session_prefix (codes raw)) [
      | some rel ↦
          confine (places.session_root chat_id ∷ [])
            (places.resolve (places.session_root chat_id) rel)
      | none ↦
          confine (roots places is_global persona_dir chat_id)
            (candidate places persona_dir (codes raw))
    ]
