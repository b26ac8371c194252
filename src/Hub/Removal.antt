-- ===== src/Hub/Removal.antt =====
-- `RemoveClient` and `RemoveRoom` of inmemory/hub.go.
use planning_poker.Base.{
  ℕ, String, ◌≡◌, refl, ap, ◌∙◌, none, some, arith, eq_iff, get_elem?-set, get_elem?-lt,
  Option-cases, Bool-cases, inl, inr,
}
use planning_poker.Base.Maps.{lookup, delete, lookup-delete}
use planning_poker.Float32.{Float32}
use planning_poker.Room.{Clock, Room}
use planning_poker.Room.Clients.{is_empty, remove}
use planning_poker.Room.Presence.{remove_client, ensure_owner}
use planning_poker.Room.Frame.{check_reveal-SameFrame}
use planning_poker.Hub.{
  InMemoryHub, at, store, load_room, remove_bus, close_removed, remove_room, remove_from,
  remove_client_from_hub, client_key,
}
use planning_poker.Hub.Coherence.{IsCoherent, store-IsCoherent}
use planning_poker.Hub.Coherence.Removals.{
  remove_room-IsCoherent, refresh_saved_room-IsCoherent, close_removed_client-IsCoherent,
  frame-IsCoherent,
}

module _ {F : Type 0} where
  ensure_owner-frame :
      (r : Room F) → ((ensure_owner r).id ≡ r.id) × ((ensure_owner r).room_version ≡ r.room_version)
  unfolding ensure_owner
  ensure_owner-frame r = ground arith

  pub at-store :
      (p : ℕ) (old r : Room F) (h : InMemoryHub F) → at p h ≡ some old → at p (store p r h) ≡ some r
  unfolding at store
  at-store p old r h o = ground (arith, get_elem?-set h.heap p p r, get_elem?-lt h.heap p o)

  -- A room that is removed is not found, has no snapshot, and nobody can wait for its removal any
  -- more.
  remove_room-gone :
      (id : String) (h : InMemoryHub F)
      → let k = remove_room id h in
        (load_room id k ≡ none) × (lookup id k.saved ≡ none) × (lookup id k.removed ≡ none)
  unfolding remove_room close_removed load_room
  remove_room-gone id h = ground (
    arith,
    eq_iff id id,
    lookup-delete id id h.rooms,
    lookup-delete id id h.saved,
    lookup-delete id id h.removed,
  )

module _ {F : Type 0} ⦃fl : Float32 F⦄ where
  pub remove_client-frame :
      (t : Clock) (id : String) (r : Room F)
      → ((remove_client t id r).id ≡ r.id) × ((remove_client t id r).room_version ≡ r.room_version)
  unfolding remove_client
  remove_client-frame t id r =
      let left = record r { clients = remove id r.clients } in
      let (i, v) = ensure_owner-frame left in
      let s = check_reveal-SameFrame t (ensure_owner left) in (s.id ∙ i, s.room_version ∙ v)

  remove_from-IsCoherent :
      (t : Clock) (id room_id : String) (p : ℕ) (r : Room F) (h : InMemoryHub F)
      → IsCoherent h
      → at p h ≡ some r
      → lookup r.id h.rooms ≡ some p
      → IsCoherent (remove_from t id room_id p r h)
  unfolding remove_from
  remove_from-IsCoherent t id room_id p r h c o l =
      let left = remove_client t id r in
      let (i, v) = remove_client-frame t id r in
      let named = ap (λ k. lookup k h.rooms) i ∙ l in
      let kept = store-IsCoherent h p r left c o named (i, v) in
      close_removed_client-IsCoherent (client_key room_id id) _ (elim (Bool-cases (is_empty left)) [
        | inl e ↦ rw e (remove_room-IsCoherent left.id (store p left h) kept)
        | inr e ↦ rw e (
            refresh_saved_room-IsCoherent (store p left h) p left kept (at-store p r left h o)
              (unfold store in named))
      ])

  -- The removal of a client keeps the hub coherent: in a room that stays, in a room that it empties,
  -- and in a room that is not there.
  pub remove_client_from_hub-IsCoherent :
      (t : Clock) (id room_id : String) (h : InMemoryHub F)
      → IsCoherent h
      → IsCoherent (remove_client_from_hub t id room_id h)
  unfolding remove_client_from_hub remove_bus load_room
  remove_client_from_hub-IsCoherent t id room_id h c =
      let gone = remove_bus id (record h { clients = delete id h.clients }) in
      let cg = frame-IsCoherent h gone refl refl refl c in
      elim (Option-cases (lookup room_id h.rooms)) [
        | inl e ↦ rw (remove_client_from_hub, load_room, e) cg
        | inr (p, e) ↦
            let st = cg.stands room_id p e in
            rw (remove_client_from_hub, load_room, e, st.here)
              (remove_from-IsCoherent t id room_id p st.room gone cg st.here
                (ap (λ k. lookup k h.rooms) st.room_id ∙ e))
      ]
