-- ===== src/Prelude/Dict.antt =====
-- Python's `dict` with text keys, in insertion order: an assignment to a key that is there keeps
-- its place, a new key goes to the end.
use Prim.Native.Nat.{}
use Prim.Native.String.{String}
use mathlib.Core.Path.{◌≡◌, refl, sym, subst}
use mathlib.Core.Logic.{inl, inr}
use mathlib.Core.Bool.{true, false, ◌||◌}
use mathlib.Core.Option.{Option, none, some}
use mathlib.Core.List.{List, [], ◌∷◌, ◌++◌, map}
use native.Mathlib.Omega.{arith}
use text.Mathlib.Text.{◌==◌}
use text.Mathlib.TextEquality.{eq_iff}
use text.Mathlib.TextPositions.{eq_refl}
use diploid_agent.Prelude.Tests.{if◌then◌else◌, Bool-cases}
use diploid_agent.Prelude.Lists.{All, contains, IsDistinct}

abbrev pub Dict {ℓ} : Type ℓ → Type ℓ
Dict V = List (String × V)

module _ {ℓ} {V : Type ℓ} where
  -- d.get(k)
  unfoldable pub get : Dict V → String → Option V
  get [] k = none
  get ((j, v) ∷ d) k = if j == k then some v else get d k

  -- d[k] = v
  unfoldable pub put : Dict V → String → V → Dict V
  put [] k v = (k, v) ∷ []
  put ((j, w) ∷ d) k v = if j == k then (j, v) ∷ d else (j, w) ∷ put d k v

  -- d.pop(k, None), del d[k]
  unfoldable pub pop : Dict V → String → Dict V
  pop [] k = []
  pop ((j, w) ∷ d) k = if j == k then pop d k else (j, w) ∷ pop d k

  -- d.values(), d.keys()
  abbrev pub values : Dict V → List V
  values d = map (λ e. e.1) d

  abbrev pub keys : Dict V → List String
  keys d = map (λ e. e.0) d

  pub get-put :
      (d : Dict V) (k j : String) (v : V) → get (put d k v) j ≡ (if k == j then some v else get d j)
  unfolding get put
  get-put [] k j v = refl
  get-put ((i, w) ∷ d) k j v = ground (arith, eq_iff k j, eq_iff i k, eq_iff i j, get-put d k j v)

  pub get-pop : (d : Dict V) (k j : String) → get (pop d k) j ≡ (if k == j then none else get d j)
  unfolding get pop
  get-pop [] k j = ground arith
  get-pop ((i, w) ∷ d) k j = ground (arith, eq_iff k j, eq_iff i k, eq_iff i j, get-pop d k j)

  pub get-put_self : (d : Dict V) (k : String) (v : V) → get (put d k v) k ≡ some v
  get-put_self d k v = simp (get-put, eq_refl)

  pub get-pop_self : (d : Dict V) (k : String) → get (pop d k) k ≡ none
  get-pop_self d k = simp (get-pop, eq_refl)

  -- An assignment to a key that is there leaves the keys; a new one goes to the end.
  pub keys-put_old :
      (d : Dict V) (k : String) (v : V) → contains (keys d) k ≡ true → keys (put d k v) ≡ keys d
  unfolding put
  keys-put_old [] k v h = ground arith
  keys-put_old ((i, w) ∷ d) k v h = ground (arith, keys-put_old d k v)

  pub keys-put_new :
      (d : Dict V) (k : String) (v : V) → contains (keys d) k ≡ false → put d k v ≡ d ++ (k, v) ∷ []
  unfolding put
  keys-put_new [] k v h = refl
  keys-put_new ((i, w) ∷ d) k v h = ground (arith, keys-put_new d k v)

  contains-keys-put :
      (d : Dict V) (k j : String) (v : V)
      → contains (keys (put d k v)) j ≡ (k == j || contains (keys d) j)
  unfolding put
  contains-keys-put [] k j v = refl
  contains-keys-put ((i, w) ∷ d) k j v =
      ground (arith, eq_iff k j, eq_iff i k, eq_iff i j, contains-keys-put d k j v)

  contains-keys-pop :
      (d : Dict V) (k j : String)
      → contains (keys d) j ≡ false
      → contains (keys (pop d k)) j ≡ false
  unfolding pop
  contains-keys-pop [] k j h = refl
  contains-keys-pop ((i, w) ∷ d) k j h = ground (arith, contains-keys-pop d k j)

  pub put-IsDistinct :
      (d : Dict V) (k : String) (v : V) → IsDistinct (keys d) → IsDistinct (keys (put d k v))
  unfolding put
  put-IsDistinct [] k v h = (refl, tt)
  put-IsDistinct ((i, w) ∷ d) k v h =
      ground (arith, eq_iff i k, eq_iff k i, contains-keys-put d k i v, put-IsDistinct d k v h.1)

  pub pop-IsDistinct : (d : Dict V) (k : String) → IsDistinct (keys d) → IsDistinct (keys (pop d k))
  unfolding pop
  pop-IsDistinct [] k h = tt
  pop-IsDistinct ((i, w) ∷ d) k h =
      ground (arith, contains-keys-pop d k i h.0, pop-IsDistinct d k h.1)

  pub get-some-contains :
      (d : Dict V) (k : String) (v : V) → get d k ≡ some v → contains (keys d) k ≡ true
  unfolding get
  get-some-contains [] k v h = cc
  get-some-contains ((i, w) ∷ d) k v h = ground (arith, get-some-contains d k v)

  pub pop-absent : (d : Dict V) (k : String) → contains (keys d) k ≡ false → pop d k ≡ d
  unfolding pop
  pop-absent [] k h = refl
  pop-absent ((i, w) ∷ d) k h = ground (arith, pop-absent d k)

  -- Each entry of a dictionary satisfies `P`.
  abbrev pub Entries {κ} : (String → V → Type κ) → Dict V → Type κ
  Entries P d = All (λ e. P e.0 e.1) d

  pub put-Entries {κ} :
      (P : String → V → Type κ) (d : Dict V) (k : String) (v : V)
      → Entries P d
      → P k v
      → Entries P (put d k v)
  unfolding put
  put-Entries P [] k v h p = (p, tt)
  put-Entries P ((i, w) ∷ d) k v h p = elim (Bool-cases (i == k)) [
    | inl e ↦ rw e (subst (λ j. P j v) (sym ((eq_iff i k).0 e)) p, h.1)
    | inr e ↦ rw e (h.0, put-Entries P d k v h.1 p)
  ]

  pub pop-Entries {κ} :
      (P : String → V → Type κ) (d : Dict V) (k : String) → Entries P d → Entries P (pop d k)
  unfolding pop
  pop-Entries P [] k h = tt
  pop-Entries P ((i, w) ∷ d) k h = ground (arith, pop-Entries P d k h.1)

  pub get-Entries {κ} :
      (P : String → V → Type κ) (d : Dict V) (k : String) (v : V)
      → Entries P d
      → get d k ≡ some v
      → P k v
  unfolding get
  get-Entries P [] k v h e = cc
  get-Entries P ((i, w) ∷ d) k v h e = elim (Bool-cases (i == k)) [
    | inl t ↦
        let same : w ≡ v = ground arith in
        subst (λ j. P j v) ((eq_iff i k).0 t) (subst (P i) same h.0)
    | inr f ↦ get-Entries P d k v h.1 (ground arith)
  ]
