-- ===== src/Redis/Rooms.antt =====
-- The rooms of internal/infra/boundaries/hub/redis/hub.go: loading and saving, with the two Lua
-- scripts. Each load makes a room of its own, so a room is a value here.
pub mod Texts
pub mod Loads
use planning_poker.Base.{
  ℕ, ◌+◌, String, Bool, true, false, Option, none, some, List, [], ◌∷◌, ◌==◌, if◌then◌else◌,
}
use planning_poker.DomainError.{
  Error, wrap, plain, text, room_not_found, stale_room_version, is_room_not_found,
}
use planning_poker.Room.{Room, next_version}
use planning_poker.Redis.Serialization.{Json, Result, ok, err, serialize_room, deserialize_room}
use planning_poker.Redis.Client.{put_version, Redis, Lua, room_key}

-- The server after a save, the room with the version that it was given, and the error.
pub record Saved (F S : Type 0) : Type 0 where
  pub store : S
  pub room : Room F
  pub error : Option Error

module _ {F S D A : Type 0} (rd : Redis S D) (js : Json F D) (lua : Lua D A) where
  unfoldable pub unsaved : S → Room F → Error → Saved F S
  unsaved s r e = record { store = s; room = r; error = some e }

  -- What `json.Marshal` says of a number that it cannot write.
  unfoldable pub not_serialized : Error
  not_serialized = wrap "failed to serialize room: %w" [] (plain "marshal" [])

  -- `saveRoomScript`, on the stored text of the key.
  unfoldable pub next_of : Option D → ℕ
  next_of none = 0 + 1
  next_of (some d) = lua.version_of d + 1

  unfoldable pub save_room : Room F → S → Saved F S
  save_room r s = elim (serialize_room js r) [
    | none ↦ unsaved s r not_serialized
    | some d ↦ elim (rd.down s) [
      | some e ↦ unsaved s r (wrap "failed to save room to Redis: %w" [] e)
      | none ↦
          let next = next_of (rd.read (room_key r.id) s) in
          record {
            store = rd.write (room_key r.id) (put_version lua next d) s;
            room = record r { room_version = next };
            error = none;
          }
    ]
  ]

  unfoldable pub save_initial_room : Room F → S → S × Option Error
  save_initial_room r s = elim (serialize_room js r) [
    | none ↦ (s, some not_serialized)
    | some d ↦ elim (rd.down s) [
      | some e ↦ (s, some (wrap "failed to save room to Redis: %w" [] e))
      | none ↦ (rd.write (room_key r.id) d s, none)
    ]
  ]

  -- `compareAndSaveRoomScript`: whether it writes.
  unfoldable pub matches : ℕ → Option D → Bool
  matches expected none = false
  matches expected (some d) = lua.version_of d == expected

  -- The script with its answer, once there is something to write.
  unfoldable pub compare_and_save : ℕ → Room F → D → S → Saved F S
  compare_and_save expected r d s =
      if matches expected (rd.read (room_key r.id) s)
      then record {
        store = rd.write (room_key r.id) d s;
        room = record r { room_version = next_version expected };
        error = none;
      }
      else unsaved s r stale_room_version

  unfoldable pub save_room_conditionally : Room F → Option ℕ → S → Saved F S
  save_room_conditionally r none s = unsaved s r stale_room_version
  save_room_conditionally r (some expected) s =
      elim (serialize_room js (record r { room_version = next_version expected })) [
        | none ↦ unsaved s r not_serialized
        | some d ↦ elim (rd.down s) [
          | some e ↦ unsaved s r (wrap "failed to conditionally save room to Redis: %w" [] e)
          | none ↦ compare_and_save expected r d s
        ]
      ]

  unfoldable pub read_room : D → Result (Room F)
  read_room d = elim (deserialize_room js d) [
    | ok r ↦ ok r
    | err e ↦ err (wrap "failed to deserialize room: %w" [] e)
  ]

  -- `LoadRoom` with the private `loadRoom`; `redis.Nil` is the absent key.
  unfoldable pub load_room : String → S → Result (Room F)
  load_room id s = elim (rd.down s) [
    | some e ↦ err (wrap "load room %s: %w" (text id ∷ []) e)
    | none ↦ elim (rd.read (room_key id) s) [
      | none ↦ err room_not_found
      | some d ↦ elim (read_room d) [
        | ok r ↦ ok r
        | err e ↦ err (wrap "load room %s: %w" (text id ∷ []) e)
      ]
    ]
  ]

  -- `RemoveRoom`, whose failure is only logged.
  unfoldable pub remove_room : String → S → S
  remove_room id s = elim (rd.down s) [ some e ↦ s | none ↦ rd.erase (room_key id) s ]
