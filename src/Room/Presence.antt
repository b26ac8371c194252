-- ===== src/Room/Presence.antt =====
-- The methods of room_presence.go.
use planning_poker.Base.{
  String, Bool, false, ◌&&◌, not, Option, none, some, List, [], ◌∷◌, str_eq, ◌==◌, ltb,
  if◌then◌else◌, length, first,
}
use planning_poker.DomainError.{Error, wrap, client_not_found, last_owner, text}
use planning_poker.Float32.{Float32}
use planning_poker.Room.{Clock, Client, Room, new_client, mark_vote, update_name}
use planning_poker.Room.Clients.{
  add, remove, update_first, find_client, owners, count_owners, promote_first,
}
use planning_poker.Room.Reveal.{check_reveal}
use planning_poker.Room.Guards.{Reply, missing_target, with_client, as_owner}

unfoldable pub flip_spectator : Client → Client
flip_spectator c = record c { is_spectator = not c.is_spectator }

unfoldable pub flip_owner : Client → Client
flip_owner c = record c { is_owner = not c.is_owner }

-- Whether the target is the only owner of the room.
unfoldable pub is_last_owner : String → List Client → Bool
is_last_owner target cs =
    if length (owners cs) == 1
    then elim (first (owners cs)) [ none ↦ false | some o ↦ str_eq o.id target && o.is_owner ]
    else false

module _ {F : Type 0} where
  -- `NewClient`: the first client of a room owns it. Its own identifier is new to the room.
  unfoldable pub new_client_in : String → Room F → Room F
  new_client_in id r =
      let joined = add (new_client id) r.clients in
      record r { clients = if length joined == 1 then promote_first joined else joined }

  -- The owner that `RemoveClient` names when none is left.
  unfoldable pub ensure_owner : Room F → Room F
  ensure_owner r =
      if (count_owners r == 0) && ltb 0 (length r.clients)
      then record r { clients = promote_first r.clients }
      else r

  unfoldable pub update_client_name : String → String → Room F → Reply F
  update_client_name id name r =
      with_client id r
        λ _. (record r { clients = update_first id (update_name name) r.clients }, none)

  -- `r.applyVote(client, vote)` on the client of the identifier: nothing once the votes are shown.
  unfoldable pub apply_vote : Clock → String → Option String → Room F → Room F
  apply_vote t id vote r =
      if r.reveal then r else record r { clients = update_first id (mark_vote t vote) r.clients }

  unfoldable pub toggle_owner_of : String → Error → Room F → Reply F
  toggle_owner_of target missing r = elim (find_client target r) [
    | none ↦ (r, some missing)
    | some _ ↦ (record r { clients = update_first target flip_owner r.clients }, none)
  ]

  unfoldable pub toggle_owner : String → String → Room F → Reply F
  unfolding as_owner
  toggle_owner id target r = as_owner id "only the room owner can toggle ownership" r (
      if is_last_owner target r.clients
      then (r, none)
      else toggle_owner_of target (missing_target target r.id) r)

  unfoldable pub admin_toggle_owner : String → Room F → Reply F
  admin_toggle_owner target r =
      if is_last_owner target r.clients
      then (r, some last_owner)
      else toggle_owner_of target
          (wrap "target client %s not found in room %s: %w" (text target ∷ text r.id ∷ [])
            client_not_found)
          r

module _ {F : Type 0} ⦃fl : Float32 F⦄ where
  unfoldable pub remove_client : Clock → String → Room F → Room F
  remove_client t id r = check_reveal t (ensure_owner (record r { clients = remove id r.clients }))

  unfoldable pub toggle_spectator_of : Clock → String → Room F → Reply F
  toggle_spectator_of t target r = elim (find_client target r) [
    | none ↦ (r, some (missing_target target r.id))
    | some _ ↦ (
      check_reveal t (
          apply_vote t target none
            (record r { clients = update_first target flip_spectator r.clients })),
      none,
    )
  ]

  unfoldable pub toggle_spectator : Clock → String → String → Room F → Reply F
  unfolding as_owner
  toggle_spectator t id target r =
      as_owner id "only the room owner can toggle ownership" r (toggle_spectator_of t target r)
