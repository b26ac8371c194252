-- ===== src/Hub/Coherence/Saves.antt =====
-- `SaveRoom` and `SaveRoomIfVersion` and the coherence of the hub.
use planning_poker.Base.{
  ℕ, String, ◌≡◌, inl, inr, refl, ap, ◌∙◌, sym, true, Option, none, some, arith, length,
  get_elem?-append, Bool-cases,
}
use planning_poker.Base.Maps.{lookup, lookup-insert}
use planning_poker.Room.{Room, next_version}
use planning_poker.Hub.{
  InMemoryHub, at, store, clone_room, commit, roll_back, is_current, expects, saved_version,
  save_room, save_room_if_version,
}
use planning_poker.Hub.Clone.{clone_room-eq}
use planning_poker.Hub.Coherence.{
  IsCoherent, Written-IsCoherent, new-alone, at-append, rewritten-IsCoherent, same_rooms,
  same_saved,
}

module _ {F : Type 0} where
  pub save_room-IsCoherent :
      (h : InMemoryHub F) (p : ℕ) (r : Room F)
      → IsCoherent h
      → at p h ≡ some r
      → lookup r.id h.rooms ≡ some p
      → IsCoherent (save_room p r h)
  unfolding save_room store
  save_room-IsCoherent h p r c o l =
      let next : ℕ = elim (lookup r.id h.saved) [
        | none ↦ next_version r.room_version
        | some old ↦ next_version old.room_version
      ] in
      let s = record (clone_room r) { room_version = next } in
      rewritten-IsCoherent h (save_room p r h) p r (record r { room_version = next }) s c o refl
        (ap (λ x. x.id) (clone_room-eq r), refl) refl (same_rooms h r.id p l)
        (λ j. lookup-insert r.id j s h.saved)

  commit-IsCoherent :
      (h : InMemoryHub F) (p : ℕ) (r : Room F) (n : ℕ)
      → IsCoherent h
      → at p h ≡ some r
      → IsCoherent (commit p r n h)
  unfolding commit store
  commit-IsCoherent h p r n c o =
      let s = record (clone_room r) { room_version = n } in
      rewritten-IsCoherent h (commit p r n h) p r (record r { room_version = n }) s c o refl
        (ap (λ x. x.id) (clone_room-eq r), refl) refl (λ j. lookup-insert r.id j p h.rooms)
        (λ j. lookup-insert r.id j s h.saved)

  roll_back-IsCoherent :
      (h : InMemoryHub F) (id : String) (p : ℕ)
      → IsCoherent h
      → lookup id h.rooms ≡ some p
      → IsCoherent (roll_back id h)
  unfolding roll_back at
  roll_back-IsCoherent h id p c l =
      let st = c.stands id p l in
      let old = st.snapshot in
      rw (roll_back, st.saved)
        (Written-IsCoherent {r = clone_room old} {s = old}
          (record {
            room_id = ap (λ x. x.id) (clone_room-eq old) ∙ st.snapshot_id;
            snapshot_id = st.snapshot_id;
            version = sym (ap (λ x. x.room_version) (clone_room-eq old));
            alone = new-alone h id c;
            heap = λ q u e. at-append h (clone_room old) q u e;
            here = get_elem?-append h.heap (length h.heap) (clone_room old) ∙ ground arith;
            rooms = λ j. lookup-insert id j (length h.heap) h.rooms;
            saved = same_saved h id old st.saved;
          })
          c)

  current_address :
      (h : InMemoryHub F) (p : ℕ) (id : String)
      → is_current p id h ≡ true
      → lookup id h.rooms ≡ some p
  unfolding is_current
  current_address h p id e = ground arith

  -- A versioned save of a room that stands at its address keeps the hub coherent, whether it is
  -- granted, refused as stale, or refused since the room is not the current one.
  pub save_room_if_version-IsCoherent :
      (h : InMemoryHub F) (p : ℕ) (r : Room F) (e : Option ℕ)
      → IsCoherent h
      → at p h ≡ some r
      → IsCoherent (save_room_if_version p r e h).0
  unfolding save_room_if_version
  save_room_if_version-IsCoherent h p r e c o = elim (Bool-cases (is_current p r.id h)) [
    | inr x ↦ rw x c
    | inl x ↦ rw x (elim (Bool-cases (expects e (saved_version r.id h))) [
      | inl y ↦ rw y (commit-IsCoherent h p r _ c o)
      | inr y ↦ rw y (roll_back-IsCoherent h r.id p c (current_address h p r.id x))
    ])
  ]
