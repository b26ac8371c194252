-- ===== src/Base/Text.antt =====
-- Go's `strconv.Atoi` on native texts: an optional sign and decimal digits, within 64 bits.
use Prim.Native.Nat.{ℕ, ◌+◌, ◌-◌, ◌*◌, ◌^◌}
use Prim.Native.Char.{code}
use Prim.Native.String.{String}
use mathlib.Core.Path.{◌≡◌, refl}
use mathlib.Core.Bool.{◌&&◌}
use mathlib.Core.Option.{Option, none, some}
use planning_poker.Base.Tests.{ltb, leb, ◌==◌, if◌then◌else◌}
use planning_poker.Base.Int.{ℤ, pos, negsuc, sub_ℕ}

digits : ℕ → String → Option ℕ
digits n String.[] = some n
digits n (String.◌∷◌ ch rest) =
    let more = digits (n * 10 + (code ch - 48)) rest in
    if leb 48 (code ch) && leb (code ch) 57 then more else none

-- At least one digit.
digits1 : String → Option ℕ
unfolding digits
digits1 String.[] = none
digits1 (String.◌∷◌ ch rest) = digits 0 (String.◌∷◌ ch rest)

positive : Option ℕ → Option ℤ
positive none = none
positive (some n) = if ltb n (2 ^ 63) then some (pos n) else none

negative : Option ℕ → Option ℤ
negative none = none
negative (some n) = if leb n (2 ^ 63) then some (sub_ℕ 0 n) else none

unfoldable pub atoi : String → Option ℤ
unfolding digits1 positive negative
atoi String.[] = none
atoi (String.◌∷◌ ch rest) =
    if code ch == 43
    then positive (digits1 rest)
    else if code ch == 45
    then negative (digits1 rest)
    else positive (digits1 (String.◌∷◌ ch rest))

atoi_runs :
    (atoi "34" ≡ some (pos 34))
    × (atoi "-7" ≡ some (negsuc 6))
    × (atoi "XL" ≡ none)
    × (atoi "" ≡ none)
unfolding atoi
atoi_runs = (refl, refl, refl, refl)
