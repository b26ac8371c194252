-- ===== src/Hub.antt =====
-- internal/infra/boundaries/hub/inmemory/hub.go: the hub that keeps rooms, clients and buses in
-- memory. Rooms are shared by pointer, so they stand in a heap and the hub's map holds their
-- addresses; the snapshots of `saved` are never handed out and are values. A pointer to a client
-- is the address of the room that made it and its identifier; a bus and a channel are numbers.
mod Copies
pub mod Clone
pub mod Versions
pub mod Coherence
pub mod Removal
pub mod Buses
pub mod Tests
use Prim.Native.Char.{nul}
use Prim.Native.String.{[] as nil_text, ◌∷◌ as cons_text, ◌++◌ as concat}
use planning_poker.Base.{
  ℕ, zero, suc, ◌+◌, ◌%◌, ◌^◌, String, Bool, true, false, not, Option, none, some, List, [], ◌∷◌,
  ◌++◌, map, str_eq, ◌==◌, if◌then◌else◌, length, get_elem?, set,
}
use planning_poker.Base.Maps.{StringMap, lookup, insert, delete}
use planning_poker.DomainError.{Error, stale_room_version, room_not_found, wrap, text}
use planning_poker.Float32.{Float32}
use planning_poker.Room.{
  Clock, Client, Room, Time, new_room_with_id_and_deck, new_room_with_id_and_started_at,
  next_version, optional_utc_time,
}
use planning_poker.Room.Clients.{is_empty}
use planning_poker.Room.Presence.{new_client_in, remove_client}
unfoldable pub use Copies.*

pub record InMemoryHub (F : Type 0) : Type 0 where
  pub heap : List (Room F)
  pub rooms : StringMap ℕ
  pub clients : StringMap (ℕ × String)
  pub buses : StringMap ℕ
  pub saved : StringMap (Room F)
  pub removed : StringMap ℕ
  pub removed_clients : StringMap ℕ
  pub channels : ℕ
  pub closed : List ℕ

unfoldable pub new_hub : {F : Type 0} → InMemoryHub F
new_hub = record {
  heap = [];
  rooms = [];
  clients = [];
  buses = [];
  saved = [];
  removed = [];
  removed_clients = [];
  channels = 0;
  closed = [];
}

-- `roomID + "\x00" + clientID`
unfoldable pub client_key : String → String → String
client_key room_id client_id = concat room_id (cons_text nul client_id)

-- `expectedVersion != nil && persistedVersion.Uint64() == *expectedVersion`
unfoldable pub expects : Option ℕ → ℕ → Bool
expects none version = false
expects (some e) version = version == e

module _ {F : Type 0} where
  -- The room at an address.
  unfoldable pub at : ℕ → InMemoryHub F → Option (Room F)
  at p h = get_elem? h.heap p

  unfoldable pub store : ℕ → Room F → InMemoryHub F → InMemoryHub F
  store p r h = record h { heap = set h.heap p r }

  -- What `NewRoom`, `NewRoomWithID` and `NewRoomWithDeck` do with the room they have made.
  unfoldable pub register : Room F → InMemoryHub F → ℕ × InMemoryHub F
  register r h = (
    length h.heap,
    record h {
      heap = h.heap ++ r ∷ [];
      rooms = insert r.id (length h.heap) h.rooms;
      saved = insert r.id (clone_room r) h.saved;
      removed = insert r.id h.channels h.removed;
      channels = suc h.channels;
    },
  )

  unfoldable pub new_room_with_id : String → Time → InMemoryHub F → ℕ × InMemoryHub F
  new_room_with_id id now h = register (new_room_with_id_and_deck id [] "fibonacci" now) h

  -- The identifier is the one that `uuid.NewString` gives.
  unfoldable pub new_room : String → Time → InMemoryHub F → ℕ × InMemoryHub F
  new_room id now h = register (new_room_with_id_and_deck id [] "fibonacci" now) h

  unfoldable pub new_room_with_deck : String → String → Time → InMemoryHub F → ℕ × InMemoryHub F
  new_room_with_deck id deck_type now h = register (new_room_with_id_and_deck id [] deck_type now) h

  -- None is `ErrRoomNotFound`.
  unfoldable pub load_room : String → InMemoryHub F → Option ℕ
  load_room id h = lookup id h.rooms

  -- `close(removed)`, if the map has the channel, and its deletion.
  unfoldable pub close_removed : String → InMemoryHub F → InMemoryHub F
  close_removed id h = elim (lookup id h.removed) [
    | none ↦ h
    | some ch ↦ record h { closed = ch ∷ h.closed; removed = delete id h.removed }
  ]

  unfoldable pub remove_room : String → InMemoryHub F → InMemoryHub F
  remove_room id h =
      close_removed id (record h { rooms = delete id h.rooms; saved = delete id h.saved })

  -- The channel that `WaitForRoomRemoval` waits on, if it waits.
  unfoldable pub wait_for_room_removal : String → InMemoryHub F → Option ℕ
  wait_for_room_removal id h = lookup id h.removed

  unfoldable pub wait_for_client_removal : String → String → InMemoryHub F → Option ℕ
  wait_for_client_removal room_id client_id h =
      lookup (client_key room_id client_id) h.removed_clients

  unfoldable pub find_client_by_id : String → InMemoryHub F → Option (ℕ × String)
  find_client_by_id id h = lookup id h.clients

  unfoldable pub refresh_saved_room : Room F → InMemoryHub F → InMemoryHub F
  refresh_saved_room r h = elim (lookup r.id h.saved) [
    | none ↦ h
    | some old ↦ record h {
      saved = insert r.id (record (clone_room r) { room_version = old.room_version }) h.saved;
    }
  ]

  -- `AddClient` for the client of the identifier in the room at the address, which is never nil.
  unfoldable pub add_client : ℕ → Room F → String → InMemoryHub F → InMemoryHub F
  add_client p r id h = refresh_saved_room r (record h {
    clients = insert id (p, id) h.clients;
    removed_clients = insert (client_key r.id id) h.channels h.removed_clients;
    channels = suc h.channels;
  })

  unfoldable pub add_bus : String → ℕ → InMemoryHub F → InMemoryHub F
  add_bus id bus h = record h { buses = insert id bus h.buses }

  unfoldable pub get_bus : String → InMemoryHub F → Option ℕ
  get_bus id h = lookup id h.buses

  unfoldable pub remove_bus : String → InMemoryHub F → InMemoryHub F
  remove_bus id h = record h { buses = delete id h.buses }

  -- `close(removed)` for a client, if the map has the channel, and its deletion.
  unfoldable pub close_removed_client : String → InMemoryHub F → InMemoryHub F
  close_removed_client key h = elim (lookup key h.removed_clients) [
    | none ↦ h
    | some ch ↦ record h { closed = ch ∷ h.closed; removed_clients = delete key h.removed_clients }
  ]

  unfoldable pub save_room : ℕ → Room F → InMemoryHub F → InMemoryHub F
  save_room p r h =
      let next : ℕ = elim (lookup r.id h.saved) [
        | none ↦ next_version r.room_version
        | some old ↦ next_version old.room_version
      ] in
      store p (record r { room_version = next })
        (record h { saved = insert r.id (record (clone_room r) { room_version = next }) h.saved })

  unfoldable pub saved_version : String → InMemoryHub F → ℕ
  saved_version id h = elim (lookup id h.saved) [ none ↦ 0 | some old ↦ old.room_version ]

  -- `h.Rooms[room.ID] == room`
  unfoldable pub is_current : ℕ → String → InMemoryHub F → Bool
  is_current p id h = elim (lookup id h.rooms) [ none ↦ false | some q ↦ q == p ]

  -- A stale save of the current room puts a copy of the snapshot in its place.
  unfoldable pub roll_back : String → InMemoryHub F → InMemoryHub F
  roll_back id h = elim (lookup id h.saved) [
    | none ↦ h
    | some old ↦ record h {
      heap = h.heap ++ clone_room old ∷ [];
      rooms = insert id (length h.heap) h.rooms;
    }
  ]

  unfoldable pub commit : ℕ → Room F → ℕ → InMemoryHub F → InMemoryHub F
  commit p r next h =
      store p (record r { room_version = next })
        (record h {
          saved = insert r.id (record (clone_room r) { room_version = next }) h.saved;
          rooms = insert r.id p h.rooms;
        })

  unfoldable pub save_room_if_version :
      ℕ → Room F → Option ℕ → InMemoryHub F → InMemoryHub F × Option Error
  save_room_if_version p r expected h =
      if not (is_current p r.id h)
      then (h, some stale_room_version)
      else if expects expected (saved_version r.id h)
      then (commit p r (next_version (saved_version r.id h)) h, none)
      else (roll_back r.id h, some stale_room_version)

  unfoldable pub get_rooms : InMemoryHub F → List ℕ
  get_rooms h = map (λ e. e.1) h.rooms

  -- The sends of `BroadcastToRoom`, to the first that fails; `send` says how a bus answers.
  unfoldable pub broadcast_to :
      (ℕ → Option Error) → InMemoryHub F → List Client → List ℕ × Option Error
  broadcast_to send h [] = ([], none)
  broadcast_to send h (c ∷ cs) =
      let rest = broadcast_to send h cs in
      elim (get_bus c.id h) [
        | none ↦ rest
        | some bus ↦ elim (send bus) [
          | none ↦ (bus ∷ rest.0, rest.1)
          | some e ↦
              (bus ∷ [], some (wrap "failed to send message to client %s: %w" (text c.id ∷ []) e))
        ]
      ]

  unfoldable pub broadcast_to_room :
      (ℕ → Option Error) → String → InMemoryHub F → List ℕ × Option Error
  broadcast_to_room send room_id h = elim (load_room room_id h) [
    | none ↦ ([], some room_not_found)
    | some p ↦ elim (at p h) [ none ↦ ([], none) | some r ↦ broadcast_to send h r.clients ]
  ]

module _ {F : Type 0} ⦃fl : Float32 F⦄ where
  -- `RemoveClient` once the room is loaded.
  unfoldable pub remove_from : Clock → String → String → ℕ → Room F → InMemoryHub F → InMemoryHub F
  remove_from t id room_id p r h =
      let left = remove_client t id r in
      let kept = store p left h in
      close_removed_client (client_key room_id id)
        (if is_empty left then remove_room left.id kept else refresh_saved_room left kept)

  -- The hub's `RemoveClient`: the client and its bus go first, and an absent room is no error.
  unfoldable pub remove_client_from_hub : Clock → String → String → InMemoryHub F → InMemoryHub F
  remove_client_from_hub t id room_id h =
      let gone = remove_bus id (record h { clients = delete id h.clients }) in
      elim (load_room room_id gone) [
        | none ↦ gone
        | some p ↦ elim (at p gone) [ none ↦ gone | some r ↦ remove_from t id room_id p r gone ]
      ]
