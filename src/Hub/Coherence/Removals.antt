-- ===== src/Hub/Coherence/Removals.antt =====
-- `RemoveRoom`, `AddClient` and the refresh of a snapshot, and the coherence of the hub.
use planning_poker.Base.{
  ℕ, String, ◌≡◌, inl, inr, refl, ap, ◌∙◌, sym, some, arith, get_elem?, Option-cases,
}
use planning_poker.Base.Maps.{lookup, delete, lookup-insert, lookup-delete}
use planning_poker.Room.{Room}
use planning_poker.Hub.{
  InMemoryHub, at, clone_room, close_removed, remove_room, refresh_saved_room, add_client,
  close_removed_client,
}
use planning_poker.Hub.Clone.{clone_room-eq}
use planning_poker.Hub.Coherence.{IsCoherent, Written-IsCoherent, stands-alone, same_rooms}

module _ {F : Type 0} where
  -- Writes elsewhere than to the rooms and the snapshots.
  pub frame-IsCoherent :
      (h k : InMemoryHub F)
      → k.heap ≡ h.heap
      → k.rooms ≡ h.rooms
      → k.saved ≡ h.saved
      → IsCoherent h
      → IsCoherent k
  unfolding at
  frame-IsCoherent h k a b d c = record {
    stands = λ id p e.
        let st = c.stands id p (ap (λ m. lookup id m) (sym b) ∙ e) in
        record {
          room = st.room;
          snapshot = st.snapshot;
          here = ap (λ l. get_elem? l p) a ∙ st.here;
          saved = ap (λ m. lookup id m) d ∙ st.saved;
          room_id = st.room_id;
          snapshot_id = st.snapshot_id;
          version = st.version;
        };
    absent = λ id e. ap (λ m. lookup id m) d ∙ c.absent id (ap (λ m. lookup id m) (sym b) ∙ e);
  }

  close_removed-frame :
      (id : String) (h : InMemoryHub F)
      → let k = close_removed id h in (k.heap ≡ h.heap) × (k.rooms ≡ h.rooms) × (k.saved ≡ h.saved)
  unfolding close_removed
  close_removed-frame id h = ground arith

  pub close_removed_client-IsCoherent :
      (key : String) (h : InMemoryHub F) → IsCoherent h → IsCoherent (close_removed_client key h)
  unfolding close_removed_client
  close_removed_client-IsCoherent key h c = elim (Option-cases (lookup key h.removed_clients)) [
    | inl e ↦ rw (close_removed_client, e) c
    | inr (ch, e) ↦ rw (close_removed_client, e) (frame-IsCoherent h _ refl refl refl c)
  ]

  pub remove_room-IsCoherent :
      (id : String) (h : InMemoryHub F) → IsCoherent h → IsCoherent (remove_room id h)
  unfolding remove_room
  remove_room-IsCoherent id h c =
      let gone = record h { rooms = delete id h.rooms; saved = delete id h.saved } in
      let (a, b, d) = close_removed-frame id gone in
      frame-IsCoherent gone (remove_room id h) a b d (record {
        stands = λ j p e.
            let st = c.stands j p (ground (arith, lookup-delete id j h.rooms)) in
            record {
              room = st.room;
              snapshot = st.snapshot;
              here = unfold at in st.here;
              saved =
                  ground (arith, lookup-delete id j h.rooms, lookup-delete id j h.saved, st.saved);
              room_id = st.room_id;
              snapshot_id = st.snapshot_id;
              version = st.version;
            };
        absent = λ j e.
            ground (arith, lookup-delete id j h.rooms, lookup-delete id j h.saved, c.absent j);
      })

  pub refresh_saved_room-IsCoherent :
      (h : InMemoryHub F) (p : ℕ) (r : Room F)
      → IsCoherent h
      → at p h ≡ some r
      → lookup r.id h.rooms ≡ some p
      → IsCoherent (refresh_saved_room r h)
  unfolding refresh_saved_room at
  refresh_saved_room-IsCoherent h p r c o l =
      let st = c.stands r.id p l in
      let s = record (clone_room r) { room_version = st.snapshot.room_version } in
      rw (refresh_saved_room, st.saved)
        (Written-IsCoherent {r = r} {s = s}
          (record {
            room_id = refl;
            snapshot_id = ap (λ x. x.id) (clone_room-eq r);
            version = ground (arith, st.version, st.here);
            alone = stands-alone h p r c o;
            heap = λ q u e. ground arith;
            here = o;
            rooms = same_rooms h r.id p l;
            saved = λ j. lookup-insert r.id j s h.saved;
          })
          c)

  pub add_client-IsCoherent :
      (h : InMemoryHub F) (p : ℕ) (r : Room F) (id : String)
      → IsCoherent h
      → at p h ≡ some r
      → lookup r.id h.rooms ≡ some p
      → IsCoherent (add_client p r id h)
  unfolding add_client at
  add_client-IsCoherent h p r id c o l =
      refresh_saved_room-IsCoherent _ p r (frame-IsCoherent h _ refl refl refl c) o l
