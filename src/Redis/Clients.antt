-- ===== src/Redis/Clients.antt =====
-- The rest of internal/infra/boundaries/hub/redis/hub.go: new rooms, clients, and the messages to a
-- room. A failure that is only logged leaves no other trace.
use planning_poker.Base.{String, Option, none, some, List, [], ◌∷◌, if◌then◌else◌}
use planning_poker.DomainError.{Error, wrap, plain, is_room_not_found}
use planning_poker.Float32.{Float32}
use planning_poker.Room.{Clock, Client, Room, Time, new_room_with_id_and_deck}
use planning_poker.Room.Clients.{find_client, is_empty}
use planning_poker.Room.Presence.{remove_client}
use planning_poker.Redis.Serialization.{Json, Result, ok, err}
use planning_poker.Redis.Client.{Redis, Lua, client_entry}
use planning_poker.Redis.Rooms.{
  Saved, unsaved, save_room, save_initial_room, load_room, remove_room,
}
use planning_poker.Redis.Buses.{Bus, RedisHub, get_bus, remove_bus}

module _ {F S D A : Type 0} (rd : Redis S D) (js : Json F D) (lua : Lua D A) where
  -- `NewRoom`, `NewRoomWithDeck` and `NewRoomWithID`, for the room that they have made.
  unfoldable pub kept_room : Room F → S → S × Result (Room F)
  kept_room r s =
      let (t, e) = save_initial_room rd js lua r s in
      elim e [ none ↦ (t, ok r) | some x ↦ (t, err x) ]

  unfoldable pub new_room : String → Time → S → S × Result (Room F)
  new_room id now s = kept_room (new_room_with_id_and_deck id [] "fibonacci" now) s

  unfoldable pub new_room_with_deck : String → String → Time → S → S × Result (Room F)
  new_room_with_deck id deck_type now s =
      kept_room (new_room_with_id_and_deck id [] deck_type now) s

  unfoldable pub new_room_with_id : String → Time → S → S × Result (Room F)
  new_room_with_id id now s = kept_room (new_room_with_id_and_deck id [] "fibonacci" now) s

  unfoldable pub add_client : Room F → String → S → Saved F S
  add_client r id s = elim (rd.down s) [
    | some e ↦ unsaved rd js lua s r e
    | none ↦ save_room rd js lua r (rd.write (client_entry id) (rd.of_text r.id) s)
  ]

  unfoldable pub client_of_room : String → Result (Room F) → Option Client
  client_of_room id (ok r) = find_client id r
  client_of_room id (err e) = none

  unfoldable pub find_client_by_id : String → S → Option Client
  find_client_by_id id s = elim (rd.down s) [
    | some e ↦ none
    | none ↦ elim (rd.read (client_entry id) s) [
      | none ↦ none
      | some d ↦ client_of_room id (load_room rd js lua (rd.to_text d) s)
    ]
  ]

  -- The rooms of the keys that `KEYS` gives, without those that cannot be loaded.
  unfoldable pub rooms_of : List String → S → List (Room F)
  rooms_of [] s = []
  rooms_of (id ∷ ids) s =
      let rest = rooms_of ids s in
      elim (load_room rd js lua id s) [ ok r ↦ r ∷ rest | err e ↦ rest ]

  unfoldable pub get_rooms : Result (List String) → S → List (Room F)
  get_rooms (ok ids) s = rooms_of ids s
  get_rooms (err e) s = []

  -- The buses of this instance that a message to the room is sent to; a send that fails is logged.
  unfoldable pub local_buses : List Client → RedisHub → List Bus
  local_buses [] h = []
  local_buses (c ∷ cs) h =
      let rest = local_buses cs h in elim (get_bus c.id h) [ none ↦ rest | some bus ↦ bus ∷ rest ]

  unfoldable pub forward_to_local_clients : String → S → RedisHub → List Bus
  forward_to_local_clients room_id s h = elim (load_room rd js lua room_id s) [
    | err e ↦ []
    | ok r ↦ local_buses r.clients h
  ]

-- `encode` is the JSON of the message with its room, and `publish` the answer of the server.
unfoldable pub broadcast_to_room : Option String → (String → Option Error) → Option Error
broadcast_to_room none publish =
    some (wrap "failed to marshal broadcast message: %w" [] (plain "marshal" []))
broadcast_to_room (some message) publish = elim (publish message) [
  | none ↦ none
  | some e ↦ some (wrap "failed to publish message to Redis: %w" [] e)
]

module _ {F S D A : Type 0} ⦃fl : Float32 F⦄ (rd : Redis S D) (js : Json F D) (lua : Lua D A) where
  -- `RemoveClient` once the room is loaded.
  unfoldable pub leave_loaded : Clock → String → Room F → S → S × Option Error
  leave_loaded t id r s =
      let left = remove_client t id r in
      if is_empty left
      then (remove_room rd js lua left.id s, none)
      else let saved = save_room rd js lua left s in (saved.store, saved.error)

  unfoldable pub after_load : Clock → String → Result (Room F) → S → S × Option Error
  after_load t id (ok r) s = leave_loaded t id r s
  after_load t id (err e) s = if is_room_not_found e then (s, none) else (s, some e)

  unfoldable pub remove_client_of :
      Clock → String → String → S → RedisHub → S × RedisHub × Option Error
  remove_client_of t id room_id s h =
      let erased : S = elim (rd.down s) [ some e ↦ s | none ↦ rd.erase (client_entry id) s ] in
      let (k, e) = after_load t id (load_room rd js lua room_id erased) erased in
      (k, remove_bus id h, e)
