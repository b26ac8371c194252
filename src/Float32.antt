-- ===== src/Float32.antt =====
-- Go's `float32` and the operations that the room uses of it, as an interface: the arithmetic and
-- its rounding are the machine's. `IsCounter` is what counting by ones up from zero relies on.
use planning_poker.Base.{◌≡◌, Bool, true, false}
use planning_poker.Base.Int.{ℤ}

pub record Float32 (F : Type 0) : Type 0 where
  pub zero : F
  pub one : F
  pub of_int : ℤ → F
  pub add : F → F → F
  pub div : F → F → F
  pub lt : F → F → Bool

-- A sum of ones is positive as soon as it has one.
pub record IsCounter {F : Type 0} (fl : Float32 F) : Type 0 where
  pub zero_lt : fl.lt fl.zero fl.zero ≡ false
  pub one_lt : fl.lt fl.zero (fl.add fl.zero fl.one) ≡ true
  pub next_lt : (x : F) → fl.lt fl.zero x ≡ true → fl.lt fl.zero (fl.add x fl.one) ≡ true
