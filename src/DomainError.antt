-- ===== src/DomainError.antt =====
-- internal/domain/domainerror/domainerror.go, and the ways in which the code wraps its errors.
-- A message stays a format and its arguments, as it is handed to `fmt.Sprintf`.
use planning_poker.Base.{String, Bool, true, false, Option, none, some, List, []}
use planning_poker.Base.Int.{ℤ}

pub data Code : Type 0 where
  validation forbidden not_found conflict stale_version : Code

pub data Arg : Type 0 where
  text : String → Arg
  int : ℤ → Arg

-- `domain` is `Newf`; the next four are the package's variables, which `errors.Is` tells apart by
-- their addresses, as it does `bus.ErrInvalidPayload`; `wrap` is `fmt.Errorf` with `%w`, and `plain` any other error.
pub data Error : Type 0 where
  domain : Code → String → List Arg → Error
  room_not_found client_not_found last_owner stale_room_version : Error
  invalid_payload : Error
  wrap : String → List Arg → Error → Error
  plain : String → List Arg → Error

-- `As`, followed by `Code`: the code of the first domain error of the chain.
unfoldable pub code_of : Error → Option Code
code_of (domain c _ _) = some c
code_of room_not_found = some not_found
code_of client_not_found = some not_found
code_of last_owner = some conflict
code_of stale_room_version = some stale_version
code_of (wrap _ _ e) = code_of e
code_of (plain _ _) = none
code_of invalid_payload = none

-- `As`, followed by `Message`.
unfoldable pub message_of : Error → Option (String × List Arg)
message_of (domain _ message args) = some (message, args)
message_of room_not_found = some ("room not found", [])
message_of client_not_found = some ("client not found", [])
message_of last_owner = some ("cannot remove the last owner", [])
message_of stale_room_version = some ("stale room version", [])
message_of (wrap _ _ e) = message_of e
message_of (plain _ _) = none
message_of invalid_payload = none

unfoldable pub is_room_not_found : Error → Bool
is_room_not_found room_not_found = true
is_room_not_found (wrap _ _ e) = is_room_not_found e
is_room_not_found _ = false

-- `errors.Is` for the stale version, and for the payload.
unfoldable pub is_stale : Error → Bool
is_stale stale_room_version = true
is_stale (wrap _ _ e) = is_stale e
is_stale _ = false

unfoldable pub is_invalid_payload : Error → Bool
is_invalid_payload invalid_payload = true
is_invalid_payload (wrap _ _ e) = is_invalid_payload e
is_invalid_payload _ = false

-- What a call gives, or its error.
pub data Result {ℓ} (A : Type ℓ) : Type ℓ where
  ok : A → Result A
  err : Error → Result A

module _ {ℓ κ} {A : Type ℓ} {B : Type κ} where
  infixl 5 ◌>>=◌ ◌>>◌
  abbrev pub ◌>>=◌ : Result A → (A → Result B) → Result B
  ok a >>= f = f a
  err e >>= f = err e

  abbrev pub ◌>>◌ : Result A → Result B → Result B
  r >> s = r >>= λ _. s
