-- ===== src/Base/Sorting.antt =====
-- A sort by a number, and its independence of the order in which the items are given.
use Prim.Native.Nat.{ℕ}
use mathlib.Core.Path.{◌≡◌}
use mathlib.Core.Logic.{◌≢◌}
use mathlib.Core.List.{List, [], ◌∷◌}
use native.Mathlib.Omega.{arith}
use planning_poker.Base.Tests.{leb, if◌then◌else◌}

module _ {ℓ} {A : Type ℓ} (key : A → ℕ) where
  unfoldable pub insert_by : A → List A → List A
  insert_by x [] = x ∷ []
  insert_by x (y ∷ ys) = if leb (key x) (key y) then x ∷ y ∷ ys else y ∷ insert_by x ys

  unfoldable pub sort_by : List A → List A
  unfolding insert_by
  sort_by [] = []
  sort_by (x ∷ xs) = insert_by x (sort_by xs)

  insert_by_comm :
      (x y : A) (l : List A)
      → key x ≢ key y
      → insert_by x (insert_by y l) ≡ insert_by y (insert_by x l)
  unfolding insert_by
  insert_by_comm x y [] h = ground arith
  insert_by_comm x y (z ∷ l) h = ground (arith, insert_by_comm x y l h)
