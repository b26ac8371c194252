-- ===== src/UseCase/Join.antt =====
-- The use case joinroom.go over the hub in memory, under the lock of its room. The calls of that hub
-- that it makes never fail, but for the broadcast.
pub mod Coherence
pub mod Rollback
pub mod Emptied
pub mod Undone
use planning_poker.Base.{
  ℕ, String, Bool, true, false, Option, none, some, List, [], ◌∷◌, ◌++◌, if◌then◌else◌,
}
use planning_poker.DomainError.{Error, wrap}
use planning_poker.Float32.{Float32}
use planning_poker.Room.{Clock, Room, Time}
use planning_poker.Room.Clients.{find_client}
use planning_poker.Room.Presence.{new_client_in}
use planning_poker.Hub.{
  InMemoryHub, at, store, load_room, new_room_with_id, add_client, add_bus, get_bus, remove_bus,
  remove_client_from_hub,
}
use planning_poker.Dto.{ServerMessage, update_client_id}
use planning_poker.UseCase.{World, Done, Ran, stopped, ended, broadcast_state}
use planning_poker.UseCase.Membership.{
  Count, increments_users_total, increments_active_users, increments_active_rooms,
}

-- `JoinRoomCommand`, with the clock readings of the room that it may make.
pub record JoinCommand : Type 0 where
  pub room_id : String
  pub sender_id : String
  pub bus : ℕ
  pub now : Time

-- What a join leaves: `closed` are the buses that it detached and closed; without an error its
-- output is the client of the sender in the loaded room.
pub record Joined (F : Type 0) : Type 0 where
  pub hub : InMemoryHub F
  pub error : Option Error
  pub sent : List (ℕ × ServerMessage F)
  pub closed : List ℕ
  pub counts : List Count

-- `recordJoinMetrics`
unfoldable pub join_counts : Bool → Bool → List Count
join_counts auto_created is_reconnect =
    (if is_reconnect then [] else increments_users_total ∷ increments_active_users ∷ [])
    ++ (if auto_created then increments_active_rooms ∷ [] else [])

module _ {F : Type 0} where
  -- The address of the room, whether it was created, and the hub.
  unfoldable pub load_or_create_room : String → Time → InMemoryHub F → ℕ × Bool × InMemoryHub F
  load_or_create_room id now h = elim (load_room id h) [
    | some p ↦ (p, false, h)
    | none ↦ let (p, k) = new_room_with_id id now h in (p, true, k)
  ]

  -- The hub and the bus that was closed.
  unfoldable pub reconnect_client : String → ℕ → InMemoryHub F → InMemoryHub F × List ℕ
  reconnect_client id bus h = elim (get_bus id h) [
    | none ↦ (add_bus id bus h, [])
    | some old ↦ (add_bus id bus h, old ∷ [])
  ]

  -- `room.NewClient` and `createNewClient`, for the room at the address.
  unfoldable pub create_new_client : ℕ → Room F → String → ℕ → InMemoryHub F → InMemoryHub F
  create_new_client p r id bus h =
      let joined = new_client_in id r in add_bus id bus (add_client p joined id (store p joined h))

  -- Whether the sender was in the room, the hub, and the bus that was closed.
  unfoldable pub join_client :
      ℕ → Room F → JoinCommand → InMemoryHub F → Bool × InMemoryHub F × List ℕ
  join_client p r cmd h = elim (find_client cmd.sender_id r) [
    | none ↦ (false, create_new_client p r cmd.sender_id cmd.bus h, [])
    | some c ↦ let (k, closed) = reconnect_client cmd.sender_id cmd.bus h in (true, k, closed)
  ]

  -- The error of the first send wins; otherwise the broadcast of the state decides.
  unfoldable pub notify_join : World → JoinCommand → ℕ → Room F → InMemoryHub F → Ran F (Done F)
  notify_join world cmd p r h =
      let told : ℕ × ServerMessage F = (cmd.bus, update_client_id cmd.sender_id) in
      elim (world.send cmd.bus) [
        | some e ↦ ended (record {
          hub = h;
          error = some (wrap "failed to send update client ID command: %w" [] e);
          sent = told ∷ [];
        })
        | none ↦ elim (broadcast_state world p r h) [
          | stopped k ↦ stopped k
          | ended d ↦ elim d.error [
            | none ↦ ended (record d { sent = told ∷ d.sent })
            | some e ↦ ended (record d {
              error = some (wrap "failed to broadcast room state: %w" [] e);
              sent = told ∷ d.sent;
            })
          ]
        ]
      ]

module _ {F : Type 0} ⦃fl : Float32 F⦄ where
  -- The function that `joinClient` returns, for the two ways to join.
  unfoldable pub roll_back_join : Clock → JoinCommand → Bool → InMemoryHub F → InMemoryHub F
  roll_back_join t cmd is_reconnect h =
      if is_reconnect
      then remove_bus cmd.sender_id h
      else remove_client_from_hub t cmd.sender_id cmd.room_id h

  -- The end of `Execute`, from what the notification did; nothing is rolled back at a panic.
  unfoldable pub after_notify :
      Clock → JoinCommand → Bool → Bool → List ℕ → Ran F (Done F) → Ran F (Joined F)
  after_notify t cmd auto_created is_reconnect closed (stopped h) = stopped h
  after_notify t cmd auto_created is_reconnect closed (ended d) = elim d.error [
    | none ↦ ended (record {
      hub = d.hub;
      error = none;
      sent = d.sent;
      closed = closed;
      counts = join_counts auto_created is_reconnect;
    })
    | some e ↦ ended (record {
      hub = roll_back_join t cmd is_reconnect d.hub;
      error = some e;
      sent = d.sent;
      closed = closed;
      counts = [];
    })
  ]

  -- `joinClient` and what follows it, for the loaded room.
  unfoldable pub join_room :
      World → Clock → JoinCommand → ℕ → Bool → Room F → InMemoryHub F → Ran F (Joined F)
  join_room world t cmd p auto_created r h =
      let (is_reconnect, k, closed) = join_client p r cmd h in
      elim (at p k) [
        | none ↦ stopped k
        | some joined ↦
            after_notify t cmd auto_created is_reconnect closed (notify_join world cmd p joined k)
      ]

  unfoldable pub execute_join_room : World → Clock → JoinCommand → InMemoryHub F → Ran F (Joined F)
  execute_join_room world t cmd h =
      let (p, auto_created, k) = load_or_create_room cmd.room_id cmd.now h in
      elim (at p k) [ none ↦ stopped k | some r ↦ join_room world t cmd p auto_created r k ]
