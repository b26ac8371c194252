-- ===== src/Redis/Rooms/Loads.antt =====
-- What a load gives of what was saved.
use planning_poker.Base.{
  String, ◌≡◌, inl, inr, refl, ap, ◌∙◌, sym, Option, none, some, All, Option-cases,
}
use planning_poker.DomainError.{room_not_found}
use planning_poker.Room.{Room}
use planning_poker.Hub.{clone_room}
use planning_poker.Redis.Serialization.{Json, IsFaithful, Result, ok, err, serialize_room}
use planning_poker.Redis.Serialization.Laws.{HasId, deserialize_room-serialize_room}
use planning_poker.Redis.Client.{put_version, Redis, IsStore, Lua, IsLua, room_key}
use planning_poker.Redis.Rooms.{next_of, save_room, load_room, read_room}
use planning_poker.Redis.Rooms.Texts.{
  IsReadable, view, view_of, room_of, view_of-text, marshalled, written,
}

-- What a load should give, from the room that is kept.
unfoldable pub loaded : {F : Type 0} → Option (Room F) → Result (Room F)
loaded none = err room_not_found
loaded (some r) = ok r

module _ {F S D A : Type 0} (rd : Redis S D) (js : Json F D) (lua : Lua D A) (st : IsStore rd)
    (fa : IsFaithful js) (lu : IsLua js lua) where
  read_room-text :
      (r : Room F) (d : D)
      → All HasId r.stories
      → serialize_room js r ≡ some d
      → read_room rd js lua d ≡ ok (clone_room r)
  unfolding read_room
  read_room-text r d ids e = rw (read_room, deserialize_room-serialize_room js fa r d ids e) refl

  at_key :
      (r : Room F) (d : D) (id : String) (s : S)
      → rd.down s ≡ none
      → rd.read (room_key id) s ≡ some d
      → All HasId r.stories
      → serialize_room js r ≡ some d
      → load_room rd js lua id s ≡ ok (clone_room r)
  unfolding load_room
  at_key r d id s up e ids t = rw (load_room, up, e, read_room-text r d ids t) refl

  save_room-saved :
      (r : Room F) (d : D) (s : S)
      → serialize_room js r ≡ some d
      → rd.down s ≡ none
      → let n = next_of rd js lua (rd.read (room_key r.id) s) in
        save_room rd js lua r s ≡ record {
          store = rd.write (room_key r.id) (put_version lua n d) s;
          room = record r { room_version = n };
          error = none;
        }
  unfolding save_room
  save_room-saved r d s e up = rw (save_room, e, up) refl

  -- After a save of a room that can be written and whose stories have identifiers, while the server
  -- answers both calls, a load gives the saved room: without its pending events, with its times in
  -- UTC, and with the version that the save returned.
  pub load_room-save_room :
      (r : Room F) (d : D) (s : S)
      → All HasId r.stories
      → serialize_room js r ≡ some d
      → rd.down s ≡ none
      → rd.down (save_room rd js lua r s).store ≡ none
      → load_room rd js lua r.id (save_room rd js lua r s).store
        ≡ ok (clone_room (save_room rd js lua r s).room)
  load_room-save_room r d s ids e up dn =
      let n = next_of rd js lua (rd.read (room_key r.id) s) in
      let d' = put_version lua n d in
      let done = save_room-saved r d s e up in
      rw (done) (
        at_key (record r { room_version = n }) d' r.id (rd.write (room_key r.id) d' s)
          (ap (λ x. rd.down x.store) (sym done) ∙ dn) (written rd js lua st fa lu r d' s) ids
          (marshalled rd js lua st fa lu r d n e))

  -- While the server answers and what it keeps can be read, a load gives the room that is kept, or
  -- says that there is none.
  load_room-IsReadable :
      (id : String) (s : S)
      → IsReadable rd js s
      → rd.down s ≡ none
      → load_room rd js lua id s ≡ loaded (view rd js id s)
  unfolding load_room view view_of room_of loaded
  load_room-IsReadable id s g up = elim (Option-cases (rd.read (room_key id) s)) [
    | inl n ↦ rw (load_room, up, view, n) refl
    | inr (d, e) ↦
        let t = g id d e in
        rw
          (
            at_key t.room d id s up e t.ids t.text,
            view,
            e,
            view_of-text rd js lua st fa lu t.room d t.ids t.text,
          )
          refl
  ]
