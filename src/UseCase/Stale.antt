-- ===== src/UseCase/Stale.antt =====
-- Use cases that carry the version of the room they were made for (`ExpectedRoomVersion`).
use planning_poker.Base.{
  ℕ, String, ◌≡◌, refl, ap, ◌∙◌, true, Option, none, some, List, [], ◌∷◌, map, arith, length, All,
  ◌<◌, get_elem?-lt, length-set,
}
use planning_poker.Base.Maps.{lookup}
use planning_poker.DomainError.{Error}
use planning_poker.Room.{Room, next_version}
use planning_poker.Room.Guards.{Reply}
use planning_poker.Room.Backlog.{Outcome, returns, effective_current_story}
use planning_poker.Hub.{
  InMemoryHub, at, store, load_room, save_room_if_version, saved_version, expects, is_current,
  broadcast_to_room, clone_room,
}
use planning_poker.Hub.Versions.{save_room_if_version-saved}
use planning_poker.Dto.{RoomState, ServerMessage, room_state, new_room_state_command, state_of}
use planning_poker.UseCase.{
  World, Done, ended, broadcast_state, after_save, after_method, on_room, save_if,
}

module _ {F : Type 0} where
  -- The load and the method go well.
  loaded :
      (world : World) (save : ℕ → Room F → InMemoryHub F → InMemoryHub F × Option Error)
      (room_id : String) (method : Room F → Outcome (Reply F)) (h : InMemoryHub F) (p : ℕ)
      (r s : Room F)
      → load_room room_id h ≡ some p
      → at p h ≡ some r
      → method r ≡ returns (s, none)
      → on_room world save room_id method h ≡ after_save world p (save p s (store p s h))
  unfolding on_room after_method
  loaded world save room_id method h p r s l o m = rw (on_room, l, o, m) refl

  stored-lt :
      (p : ℕ) (s : Room F) (h : InMemoryHub F) (r : Room F)
      → at p h ≡ some r
      → p < length (store p s h).heap
  unfolding at store
  stored-lt p s h r o = ground (arith, length-set h.heap p s, get_elem?-lt h.heap p o)

  stored-current :
      (p : ℕ) (s : Room F) (h : InMemoryHub F)
      → load_room s.id h ≡ some p
      → is_current p s.id (store p s h) ≡ true
  unfolding load_room is_current store
  stored-current p s h l = ground arith

  -- A message that tells the version.
  abbrev pub Tells : ℕ → ServerMessage F → Type 0
  Tells v (room_state st) = st.room_version ≡ v
  Tells v _ = ⊥

  Tells-map :
      (v : ℕ) (st : RoomState F) (buses : List ℕ)
      → st.room_version ≡ v
      → All (λ (m : ℕ × ServerMessage F). Tells v m.1) (map (λ bus. (bus, room_state st)) buses)
  Tells-map v st [] e = tt
  Tells-map v st (b ∷ bs) e = (e, Tells-map v st bs e)

  broadcast_state-Tells :
      (world : World) (p : ℕ) (r : Room F) (h : InMemoryHub F) (story : String)
      → effective_current_story r ≡ returns story
      → (d : Done F) × (broadcast_state world p r h ≡ ended d)
        × All (λ (m : ℕ × ServerMessage F). Tells r.room_version m.1) d.sent
        × (d.hub.saved ≡ h.saved)
  unfolding broadcast_state new_room_state_command store state_of
  broadcast_state-Tells world p r h story x =
      let sorted = record r { clients = world.sort r.clients } in
      let k = store p sorted h in
      let b = broadcast_to_room world.send r.id k in
      (
        record {
          hub = k;
          error = b.1;
          sent = map (λ bus. (bus, room_state (state_of sorted story))) b.0;
        },
        rw (broadcast_state, new_room_state_command, x) refl,
        Tells-map r.room_version (state_of sorted story) b.0 refl,
        refl,
      )

  -- A request that expects the saved version, whose method goes well and leaves a room with a
  -- current story to read, comes to an end: the room that the method leaves is saved under the next
  -- version, and every message that is sent tells that version.
  pub on_room-Tells :
      (world : World) (e : Option ℕ) (method : Room F → Outcome (Reply F)) (h : InMemoryHub F)
      (p : ℕ) (r s : Room F) (story : String)
      → load_room s.id h ≡ some p
      → at p h ≡ some r
      → method r ≡ returns (s, none)
      → effective_current_story s ≡ returns story
      → expects e (saved_version s.id h) ≡ true
      → let next = next_version (saved_version s.id h) in
        (d : Done F) × (on_room world (save_if e) s.id method h ≡ ended d)
        × All (λ (m : ℕ × ServerMessage F). Tells next m.1) d.sent
        × (lookup s.id d.hub.saved ≡ some (record (clone_room s) { room_version = next }))
  unfolding save_if after_save saved_version store effective_current_story
  on_room-Tells world e method h p r s story l o m y x =
      let g = store p s h in
      let done =
        save_room_if_version-saved p s e g (stored-lt p s h r o) (stored-current p s h l) x in
      let res = save_room_if_version p s e g in
      let next = next_version (saved_version s.id h) in
      let run : on_room world (save_if e) s.id method h
          ≡ broadcast_state world p (record s { room_version = next }) res.0 =
        loaded world (save_if e) s.id method h p r s l o m
        ∙ ap (λ error. after_save world p (res.0, error)) done.0
        ∙ rw (after_save, done.2) refl in
      let (d, same, told, kept) =
        broadcast_state-Tells world p (record s { room_version = next }) res.0 story y in
      (d, run ∙ same, told, ap (λ m. lookup s.id m) kept ∙ done.3)
