-- ===== src/UseCase.antt =====
-- internal/application/planningpoker/usecase: the use cases, over the hub in memory. Each runs under
-- the lock of its room (`ExecuteWithLock`), so each is one step; how a bus answers a send is `send`,
-- and `slices.SortFunc` by name is `sort`.
pub mod Requests
pub mod Stale
pub mod Dispatch
pub mod Coherence
pub mod Membership
pub mod Join
pub mod Administration
pub mod Tests
use planning_poker.Base.{ℕ, String, Bool, false, Option, none, some, List, [], ◌∷◌, map}
use planning_poker.DomainError.{Error, room_not_found}
use planning_poker.Room.{Client, Room}
use planning_poker.Room.Guards.{Reply}
use planning_poker.Room.Backlog.{Outcome, returns, panics}
use planning_poker.Hub.{
  InMemoryHub, at, store, load_room, save_room, save_room_if_version, broadcast_to_room,
}
use planning_poker.Dto.{ServerMessage, room_state, new_room_state_command}

-- The hub after a use case, the error that it returns, and the messages that the buses were given.
pub record Done (F : Type 0) : Type 0 where
  pub hub : InMemoryHub F
  pub error : Option Error
  pub sent : List (ℕ × ServerMessage F)

-- How a use case comes to its end: in a panic, with the hub as it is at that moment, which the calls
-- after it find, as the server recovers the panic; or with a value.
pub data Ran (F A : Type 0) : Type 0 where
  stopped : InMemoryHub F → Ran F A
  ended : A → Ran F A

-- What a use case is given of the world.
pub record World : Type 0 where
  pub send : ℕ → Option Error
  pub sort : List Client → List Client

module _ {F : Type 0} where
  unfoldable pub failed : InMemoryHub F → Error → Ran F (Done F)
  failed h e = ended (record { hub = h; error = some e; sent = [] })

  -- `uc.hub.BroadcastToRoom(ctx, room.ID, dto.NewRoomStateCommand(room))`; a current story that
  -- cannot be read stops it before the participants are sorted.
  unfoldable pub broadcast_state : World → ℕ → Room F → InMemoryHub F → Ran F (Done F)
  broadcast_state world p r h = elim (new_room_state_command world.sort r) [
    | panics ↦ stopped h
    | returns (sorted, state) ↦
        let k = store p sorted h in
        let (buses, e) = broadcast_to_room world.send r.id k in
        ended (record { hub = k; error = e; sent = map (λ bus. (bus, room_state state)) buses })
  ]

  -- The broadcast of a save that went well; the room has its new version by now.
  unfoldable pub after_save : World → ℕ → InMemoryHub F × Option Error → Ran F (Done F)
  after_save world p (h, some e) = failed h e
  after_save world p (h, none) = elim (at p h) [
    | none ↦ stopped h
    | some r ↦ broadcast_state world p r h
  ]

  -- The room at a panic of its method. `ToggleBacklogMode` is the only one that panics, over a
  -- current story out of range, and it has left the backlog mode by then; `SelectStory` reads a
  -- story at an index that it has found.
  unfoldable pub at_panic : Room F → Room F
  at_panic r = record r { backlog_mode = false }

  -- A method of the loaded room, which changes it in place whether or not it fails; then the save.
  unfoldable pub after_method :
      World
      → (ℕ → Room F → InMemoryHub F → InMemoryHub F × Option Error)
      → ℕ
      → Room F
      → InMemoryHub F
      → Outcome (Reply F)
      → Ran F (Done F)
  after_method world save p loaded h panics = stopped (store p (at_panic loaded) h)
  after_method world save p loaded h (returns (r, some e)) = failed (store p r h) e
  after_method world save p loaded h (returns (r, none)) =
      after_save world p (save p r (store p r h))

  -- `LoadRoom`, then the method, the save and the broadcast; each failure returns at once. An
  -- address that is not in the heap would be a nil pointer.
  unfoldable pub on_room :
      World
      → (ℕ → Room F → InMemoryHub F → InMemoryHub F × Option Error)
      → String
      → (Room F → Outcome (Reply F))
      → InMemoryHub F
      → Ran F (Done F)
  on_room world save room_id method h = elim (load_room room_id h) [
    | none ↦ failed h room_not_found
    | some p ↦ elim (at p h) [
      | none ↦ stopped h
      | some r ↦ after_method world save p r h (method r)
    ]
  ]

  unfoldable pub save_always : ℕ → Room F → InMemoryHub F → InMemoryHub F × Option Error
  save_always p r h = (save_room p r h, none)

  unfoldable pub save_if : Option ℕ → ℕ → Room F → InMemoryHub F → InMemoryHub F × Option Error
  save_if expected p r h = save_room_if_version p r expected h
