-- ===== src/Room/Guards.antt =====
-- What the room's methods return, and the checks with which they begin.
use planning_poker.Base.{String, Option, none, some, [], ◌∷◌, if◌then◌else◌}
use planning_poker.DomainError.{Error, domain, not_found, forbidden, text}
use planning_poker.Room.{Client, Room}
use planning_poker.Room.Clients.{find_client}

-- The room after a method and the error that it returns.
abbrev pub Reply : Type 0 → Type 0
Reply F = Room F × Option Error

abbrev pub not_found_format : String
not_found_format = "client %s not found in room %s"

unfoldable pub missing_client : String → String → Error
missing_client client_id room_id =
    domain not_found not_found_format (text client_id ∷ text room_id ∷ [])

unfoldable pub missing_target : String → String → Error
missing_target client_id room_id =
    domain not_found "target client %s not found in room %s" (text client_id ∷ text room_id ∷ [])

unfoldable pub refused : String → Error
refused message = domain forbidden message []

module _ {F : Type 0} where
  -- `client, ok := r.FindClient(clientID); if !ok { … }`
  unfoldable pub with_client : String → Room F → (Client → Reply F) → Reply F
  with_client id r body = elim (find_client id r) [
    | none ↦ (r, some (missing_client id r.id))
    | some c ↦ body c
  ]

  -- The same, followed by `if !client.IsOwner { … }`.
  unfoldable pub as_owner : String → String → Room F → Reply F → Reply F
  unfolding with_client
  as_owner id message r body =
      with_client id r (λ c. if c.is_owner then body else (r, some (refused message)))
