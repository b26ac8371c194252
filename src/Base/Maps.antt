-- ===== src/Base/Maps.antt =====
-- Maps keyed by text, as association lists.
use Prim.Native.Nat.{ℕ}
use Prim.Native.String.{String}
use mathlib.Core.Path.{◌≡◌, refl}
use mathlib.Core.List.{List, [], ◌∷◌}
use mathlib.Core.Option.{Option, none, some}
use native.Mathlib.Omega.{arith}
use text.Mathlib.Text.{◌==◌ as str_eq}
use text.Mathlib.TextEquality.{eq_iff}
use planning_poker.Base.Tests.{if◌then◌else◌}

abbrev pub StringMap {ℓ} : Type ℓ → Type ℓ
StringMap V = List (String × V)

module _ {ℓ} {V : Type ℓ} where
  unfoldable pub lookup : String → StringMap V → Option V
  lookup key [] = none
  lookup key ((here, v) ∷ m) = if str_eq here key then some v else lookup key m

  -- A key that the map has keeps its place.
  unfoldable pub insert : String → V → StringMap V → StringMap V
  insert key new [] = (key, new) ∷ []
  insert key new ((here, old) ∷ m) =
      let rest = insert key new m in if str_eq here key then (key, new) ∷ m else (here, old) ∷ rest

  unfoldable pub delete : String → StringMap V → StringMap V
  delete k [] = []
  delete k ((j, w) ∷ m) = let rest = delete k m in if str_eq j k then rest else (j, w) ∷ rest

  pub lookup-insert :
      (written asked : String) (new : V) (m : StringMap V)
      → lookup asked (insert written new m)
        ≡ (if str_eq written asked then some new else lookup asked m)
  unfolding lookup insert
  lookup-insert written asked new ((here, old) ∷ m) = ground (
    arith,
    lookup-insert written asked new m,
    eq_iff here written,
    eq_iff here asked,
    eq_iff written asked,
  )
  lookup-insert written asked new [] = refl

  pub lookup-delete :
      (k j : String) (m : StringMap V)
      → lookup j (delete k m) ≡ (if str_eq k j then none else lookup j m)
  unfolding lookup delete
  lookup-delete k j [] = ground arith
  lookup-delete k j ((i, w) ∷ m) =
      ground (arith, lookup-delete k j m, eq_iff i k, eq_iff i j, eq_iff k j)

-- A number of a map, which is 0 for a key that it lacks.
unfoldable pub or_zero : Option ℕ → ℕ
or_zero none = 0
or_zero (some n) = n

pub ruleset map_laws = (lookup-insert, lookup-delete)

-- Every key has one entry.
abbrev pub Distinct {ℓ} : {V : Type ℓ} → StringMap V → Type ℓ
Distinct [] = Unit
Distinct ((k, v) ∷ m) = (lookup k m ≡ none) × Distinct m

module _ {ℓ} {V : Type ℓ} where
  pub insert-Distinct :
      (k : String) (v : V) (m : StringMap V) → Distinct m → Distinct (insert k v m)
  unfolding insert
  insert-Distinct k v [] h = (unfold lookup in refl, tt)
  insert-Distinct k v ((i, w) ∷ m) h =
      ground (arith, eq_iff i k, eq_iff k i, lookup-insert k i v m, insert-Distinct k v m h.1)
