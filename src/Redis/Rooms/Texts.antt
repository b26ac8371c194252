-- ===== src/Redis/Rooms/Texts.antt =====
-- What the server keeps under the keys of the rooms: texts of rooms whose stories have identifiers.
use planning_poker.Base.{
  ℕ, String, ◌≡◌, inl, inr, refl, subst, Option, none, some, arith, str_eq, eq_iff, All,
  Option-cases, Bool-cases,
}
use planning_poker.Room.{Room, next_version}
use planning_poker.Hub.{clone_room}
use planning_poker.Redis.Serialization.{
  Json, IsFaithful, Result, ok, err, serialized, serialize_room, deserialize_room,
}
use planning_poker.Redis.Serialization.Laws.{HasId, deserialize_room-serialize_room}
use planning_poker.Redis.Client.{put_version, put_version_lem, Redis, IsStore, Lua, IsLua, room_key}
use planning_poker.Redis.Rooms.{
  next_of, unsaved, matches, save_room, save_initial_room, compare_and_save,
  save_room_conditionally, remove_room,
}

module _ {F S D : Type 0} (rd : Redis S D) (js : Json F D) where
  pub record IsText (d : D) : Type 0 where
    pub room : Room F
    pub text : serialize_room js room ≡ some d
    pub ids : All HasId room.stories

  abbrev pub IsReadable : S → Type 0
  IsReadable s = (id : String) (d : D) → rd.read (room_key id) s ≡ some d → IsText d

  unfoldable pub room_of : Result (Room F) → Option (Room F)
  room_of (ok r) = some r
  room_of (err e) = none

  unfoldable pub view_of : Option D → Option (Room F)
  view_of none = none
  view_of (some d) = room_of (deserialize_room js d)

  -- The room that is kept under an identifier, as a load sees it.
  unfoldable pub view : String → S → Option (Room F)
  view id s = view_of (rd.read (room_key id) s)

module _ {F S D A : Type 0} (rd : Redis S D) (js : Json F D) (lua : Lua D A) (st : IsStore rd)
    (fa : IsFaithful js) (lu : IsLua js lua) where
  -- The text of a room with another version.
  pub marshalled :
      (r : Room F) (d : D) (n : ℕ)
      → serialize_room js r ≡ some d
      → serialize_room js (record r { room_version = n }) ≡ some (put_version lua n d)
  unfolding serialize_room serialized
  marshalled r d n e = put_version_lem js lua lu n (serialized r) d e

  pub version_of-text :
      (r : Room F) (d : D) → serialize_room js r ≡ some d → lua.version_of d ≡ r.room_version
  unfolding serialize_room serialized
  version_of-text r d e = lu.version_read (serialized r) d e

  pub view_of-text :
      (r : Room F) (d : D)
      → All HasId r.stories
      → serialize_room js r ≡ some d
      → view_of rd js (some d) ≡ some (clone_room r)
  unfolding view_of room_of
  view_of-text r d ids e = rw (deserialize_room-serialize_room js fa r d ids e) refl

  write-IsReadable :
      (k : String) (d : D) (s : S)
      → IsText rd js d
      → IsReadable rd js s
      → IsReadable rd js (rd.write k d s)
  write-IsReadable k d s t g id x e = elim (Bool-cases (str_eq k (room_key id))) [
    | inl y ↦ subst (IsText rd js) (ground (arith, st.read_write k (room_key id) d s)) t
    | inr n ↦ g id x (ground (arith, st.read_write k (room_key id) d s))
  ]

  erase-IsReadable : (k : String) (s : S) → IsReadable rd js s → IsReadable rd js (rd.erase k s)
  erase-IsReadable k s g id x e = g id x (ground (arith, st.read_erase k (room_key id) s))

  pub written :
      (r : Room F) (d : D) (s : S) → rd.read (room_key r.id) (rd.write (room_key r.id) d s) ≡ some d
  written r d s = ground (
    arith,
    st.read_write (room_key r.id) (room_key r.id) d s,
    eq_iff (room_key r.id) (room_key r.id),
  )

  kept :
      (r : Room F) (n : ℕ) (d : D)
      → All HasId r.stories
      → serialize_room js (record r { room_version = n }) ≡ some d
      → IsText rd js d
  kept r n d ids e = record { room = record r { room_version = n }; text = e; ids = ids }

  save_room-IsReadable :
      (r : Room F) (s : S)
      → All HasId r.stories
      → IsReadable rd js s
      → IsReadable rd js (save_room rd js lua r s).store
  unfolding save_room unsaved
  save_room-IsReadable r s ids g = elim (Option-cases (serialize_room js r)) [
    | inl n ↦ rw (save_room, n) g
    | inr (d, e) ↦ elim (Option-cases (rd.down s)) [
      | inl up ↦
          let n = next_of rd js lua (rd.read (room_key r.id) s) in
          rw (save_room, e, up)
            (write-IsReadable (room_key r.id) (put_version lua n d) s
              (kept r n (put_version lua n d) ids (marshalled r d n e)) g)
      | inr (x, dn) ↦ rw (save_room, e, dn) g
    ]
  ]

  save_initial_room-IsReadable :
      (r : Room F) (s : S)
      → All HasId r.stories
      → IsReadable rd js s
      → IsReadable rd js (save_initial_room rd js lua r s).0
  unfolding save_initial_room
  save_initial_room-IsReadable r s ids g = elim (Option-cases (serialize_room js r)) [
    | inl n ↦ rw (save_initial_room, n) g
    | inr (d, e) ↦ elim (Option-cases (rd.down s)) [
      | inl up ↦
          rw (save_initial_room, e, up)
            (write-IsReadable (room_key r.id) d s (kept r r.room_version d ids e) g)
      | inr (x, dn) ↦ rw (save_initial_room, e, dn) g
    ]
  ]

  compare_and_save-IsReadable :
      (n : ℕ) (r : Room F) (d : D) (s : S)
      → IsText rd js d
      → IsReadable rd js s
      → IsReadable rd js (compare_and_save rd js lua n r d s).store
  unfolding compare_and_save unsaved
  compare_and_save-IsReadable n r d s t g =
      elim (Bool-cases (matches rd js lua n (rd.read (room_key r.id) s))) [
        | inl y ↦ rw (compare_and_save, y) (write-IsReadable (room_key r.id) d s t g)
        | inr other ↦ rw (compare_and_save, other) g
      ]

  save_room_conditionally-IsReadable :
      (r : Room F) (expected : Option ℕ) (s : S)
      → All HasId r.stories
      → IsReadable rd js s
      → IsReadable rd js (save_room_conditionally rd js lua r expected s).store
  unfolding save_room_conditionally unsaved
  save_room_conditionally-IsReadable r none s ids g = g
  save_room_conditionally-IsReadable r (some v) s ids g =
      let n = next_version v in
      elim (Option-cases (serialize_room js (record r { room_version = n }))) [
        | inl x ↦ rw (save_room_conditionally, x) g
        | inr (d, e) ↦ elim (Option-cases (rd.down s)) [
          | inl up ↦
              rw (save_room_conditionally, e, up)
                (compare_and_save-IsReadable v r d s (kept r n d ids e) g)
          | inr (x, dn) ↦ rw (save_room_conditionally, e, dn) g
        ]
      ]

  remove_room-IsReadable :
      (id : String) (s : S) → IsReadable rd js s → IsReadable rd js (remove_room rd js lua id s)
  unfolding remove_room
  remove_room-IsReadable id s g = elim (Option-cases (rd.down s)) [
    | inl up ↦ rw (remove_room, up) (erase-IsReadable (room_key id) s g)
    | inr (x, dn) ↦ rw (remove_room, dn) g
  ]

  -- What is kept under the keys of the rooms stays readable: by a save of a room whose stories have
  -- identifiers, in each of its three forms, and by a removal, whether or not the server answers.
  pub rooms-IsReadable :
      (r : Room F) (expected : Option ℕ) (id : String) (s : S)
      → All HasId r.stories
      → IsReadable rd js s
      → IsReadable rd js (save_room rd js lua r s).store
        × IsReadable rd js (save_initial_room rd js lua r s).0
        × IsReadable rd js (save_room_conditionally rd js lua r expected s).store
        × IsReadable rd js (remove_room rd js lua id s)
  rooms-IsReadable r expected id s ids g = (
    save_room-IsReadable r s ids g,
    save_initial_room-IsReadable r s ids g,
    save_room_conditionally-IsReadable r expected s ids g,
    remove_room-IsReadable id s g,
  )
