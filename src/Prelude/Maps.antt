-- ===== src/Prelude/Maps.antt =====
-- A map with text keys (`BTreeMap<String, V>`, `HashMap<String, V>`): an association list.
-- An inserted key stands at its place in the order of keys, so a list that is built by inserts is
-- what `BTreeMap` iterates over. The order of a `HashMap` is never observed by the source.
use Prim.Native.String.{String, compare}
use mathlib.Core.Path.{◌≡◌, refl}
use mathlib.Core.Bool.{Bool, true, false}
use mathlib.Core.Option.{Option, none, some}
use mathlib.Core.List.{List, [], ◌∷◌, map}
use native.Mathlib.Omega.{arith}
use text.Mathlib.Text.{◌==◌, is_lt}
use text.Mathlib.TextEquality.{eq_iff}
use mathlib.Core.Logic.{inl, inr}
use jesterky.Prelude.Tests.{if◌then◌else◌, is_some, Bool-cases}

abbrev pub Dict {ℓ} : Type ℓ → Type ℓ
Dict V = List (String × V)

module _ {ℓ} {V : Type ℓ} where
  abbrev pub lookup : String → Dict V → Option V
  lookup k [] = none
  lookup k ((j, v) ∷ d) = if j == k then some v else lookup k d

  abbrev pub contains_key : String → Dict V → Bool
  contains_key k d = is_some (lookup k d)

  replace : String → V → Dict V → Dict V
  replace k v [] = []
  replace k v ((j, w) ∷ d) = if j == k then (j, v) ∷ d else (j, w) ∷ replace k v d

  insert_new : String → V → Dict V → Dict V
  insert_new k v [] = (k, v) ∷ []
  insert_new k v ((j, w) ∷ d) =
      if is_lt (compare k j) then (k, v) ∷ (j, w) ∷ d else (j, w) ∷ insert_new k v d

  -- `map.insert(key, value)`: a key that is there keeps its place.
  unfoldable pub insert : String → V → Dict V → Dict V
  unfolding replace insert_new
  insert k v d = if contains_key k d then replace k v d else insert_new k v d

  -- `HashMap::remove`
  unfoldable pub remove : String → Dict V → Dict V
  remove k [] = []
  remove k ((j, w) ∷ d) = if j == k then remove k d else (j, w) ∷ remove k d

  abbrev pub keys : Dict V → List String
  keys d = map (λ (e : String × V). e.0) d

  -- No key stands twice.
  abbrev pub IsDistinct : Dict V → Type 0
  IsDistinct [] = Unit
  IsDistinct ((k, v) ∷ d) = (contains_key k d ≡ false) × IsDistinct d

module _ {ℓ} {V : Type ℓ} where
  lookup-replace :
      (k j : String) (v : V) (d : Dict V)
      → contains_key k d ≡ true
      → lookup j (replace k v d) ≡ (if k == j then some v else lookup j d)
  unfolding replace
  lookup-replace k j v [] h = cc
  lookup-replace k j v ((i, w) ∷ d) h =
      ground (arith, eq_iff k j, eq_iff i k, eq_iff i j, lookup-replace k j v d)

  lookup-insert_new :
      (k j : String) (v : V) (d : Dict V)
      → contains_key k d ≡ false
      → lookup j (insert_new k v d) ≡ (if k == j then some v else lookup j d)
  unfolding insert_new
  lookup-insert_new k j v [] h = refl
  lookup-insert_new k j v ((i, w) ∷ d) h =
      ground (arith, eq_iff k j, eq_iff i k, eq_iff i j, lookup-insert_new k j v d)

  pub lookup-insert :
      (k j : String) (v : V) (d : Dict V)
      → lookup j (insert k v d) ≡ (if k == j then some v else lookup j d)
  unfolding insert
  lookup-insert k j v d = elim (Bool-cases (contains_key k d)) [
    | inl old ↦ rw old (lookup-replace k j v d old)
    | inr new ↦ rw new (lookup-insert_new k j v d new)
  ]

  replace_self : (k : String) (v : V) (d : Dict V) → lookup k d ≡ some v → replace k v d ≡ d
  unfolding replace
  replace_self k v [] h = refl
  replace_self k v ((i, w) ∷ d) h = ground (arith, replace_self k v d)

  -- Writing back what is there changes nothing.
  pub insert_self : (k : String) (v : V) (d : Dict V) → lookup k d ≡ some v → insert k v d ≡ d
  unfolding insert
  insert_self k v d h = ground (arith, replace_self k v d h)

  pub lookup-remove :
      (k j : String) (d : Dict V) → lookup j (remove k d) ≡ (if k == j then none else lookup j d)
  unfolding remove
  lookup-remove k j [] = ground arith
  lookup-remove k j ((i, w) ∷ d) =
      ground (arith, lookup-remove k j d, eq_iff i k, eq_iff i j, eq_iff k j)
