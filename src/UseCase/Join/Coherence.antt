-- ===== src/UseCase/Join/Coherence.antt =====
-- A join and the coherence of the hub.
use planning_poker.Base.{
  ℕ, String, ◌≡◌, inl, inr, refl, ap, ◌∙◌, subst, Bool, true, false, none, some, List, [], arith,
  eq_iff, Option-cases, length, get_elem?-append,
}
use planning_poker.Base.Maps.{lookup, lookup-insert}
use planning_poker.Float32.{Float32}
use planning_poker.Room.{Clock, Room, new_room_with_id_and_deck}
use planning_poker.Room.Clients.{find_client}
use planning_poker.Room.Presence.{new_client_in}
use planning_poker.Hub.{
  InMemoryHub, at, store, load_room, new_room_with_id, register, add_client, add_bus, get_bus,
  remove_bus, refresh_saved_room,
}
use planning_poker.Hub.Coherence.{IsCoherent, store-IsCoherent, register-IsCoherent}
use planning_poker.Hub.Coherence.Removals.{frame-IsCoherent, add_client-IsCoherent}
use planning_poker.Hub.Removal.{at-store, remove_client_from_hub-IsCoherent}
use planning_poker.UseCase.{World, Done, Ran, stopped, ended, broadcast_state}
use planning_poker.UseCase.Coherence.{hub_after, Placed, broadcast_state-IsCoherent, Ran-cases}
use planning_poker.UseCase.Join.{
  JoinCommand, Joined, load_or_create_room, reconnect_client, create_new_client, join_client,
  notify_join, roll_back_join, after_notify, join_room, execute_join_room,
}

module _ {F : Type 0} where
  -- The hub that stands after a join, whether or not it panics.
  abbrev pub hub_joined : Ran F (Joined F) → InMemoryHub F
  hub_joined (stopped h) = h
  hub_joined (ended j) = j.hub

  pub register-Placed :
      (r : Room F) (h : InMemoryHub F)
      → IsCoherent h
      → let (p, k) = register r h in IsCoherent k × Placed p r k
  unfolding register at
  register-Placed r h c = (
    register-IsCoherent r h c,
    (
      get_elem?-append h.heap (length h.heap) r ∙ ground arith,
      lookup-insert r.id r.id (length h.heap) h.rooms ∙ ground (arith, eq_iff r.id r.id),
    ),
  )

  pub load_or_create_room-Placed :
      (cmd : JoinCommand) (h : InMemoryHub F)
      → IsCoherent h
      → let (p, made, k) = load_or_create_room cmd.room_id cmd.now h in
        IsCoherent k × ((r : Room F) × Placed p r k)
  unfolding load_or_create_room load_room new_room_with_id
  load_or_create_room-Placed cmd h c = elim (Option-cases (lookup cmd.room_id h.rooms)) [
    | inl e ↦
        rw (load_or_create_room, load_room, e)
          (let made = new_room_with_id_and_deck cmd.room_id [] "fibonacci" cmd.now in
            let (ck, pl) = register-Placed made h c in (ck, (made, pl)))
    | inr (p, e) ↦
        let st = c.stands cmd.room_id p e in
        rw (load_or_create_room, load_room, e)
          (c, (st.room, (st.here, ap (λ id. lookup id h.rooms) st.room_id ∙ e)))
  ]

  add_client-Placed :
      (p : ℕ) (r s : Room F) (id : String) (h : InMemoryHub F)
      → Placed p s h
      → Placed p s (add_client p r id h)
  unfolding add_client refresh_saved_room at
  add_client-Placed p r s id h pl = elim (Option-cases (lookup r.id h.saved)) [
    | inl e ↦ rw (add_client, refresh_saved_room, e) pl
    | inr (old, e) ↦ rw (add_client, refresh_saved_room, e) pl
  ]

  pub create_new_client-Placed :
      (p : ℕ) (r : Room F) (id : String) (bus : ℕ) (h : InMemoryHub F)
      → IsCoherent h
      → Placed p r h
      → let k = create_new_client p r id bus h in IsCoherent k × Placed p (new_client_in id r) k
  unfolding create_new_client add_bus at new_client_in
  create_new_client-Placed p r id bus h c (o, l) =
      let joined = new_client_in id r in
      let kept = store-IsCoherent h p r joined c o l (refl, refl) in
      let there = at-store p r joined h o in
      let named : lookup joined.id (store p joined h).rooms ≡ some p = unfold store in l in
      let added = add_client-IsCoherent (store p joined h) p joined id kept there named in
      let here : Placed p joined (store p joined h) = (there, named) in
      let k = add_client p joined id (store p joined h) in
      (
        frame-IsCoherent k (add_bus id bus k) refl refl refl added,
        unfold at in add_client-Placed p joined joined id (store p joined h) here,
      )

  reconnect_client-Placed :
      (p : ℕ) (r : Room F) (id : String) (bus : ℕ) (h : InMemoryHub F)
      → IsCoherent h
      → Placed p r h
      → let k = (reconnect_client id bus h).0 in IsCoherent k × Placed p r k
  unfolding reconnect_client add_bus at
  reconnect_client-Placed p r id bus h c pl = elim (Option-cases (get_bus id h)) [
    | inl e ↦ rw (reconnect_client, e) (frame-IsCoherent h _ refl refl refl c, pl)
    | inr (old, e) ↦ rw (reconnect_client, e) (frame-IsCoherent h _ refl refl refl c, pl)
  ]

  -- The room after either way to join.
  unfoldable pub joined_room : JoinCommand → Room F → Room F
  joined_room cmd r = elim (find_client cmd.sender_id r) [
    | none ↦ new_client_in cmd.sender_id r
    | some c ↦ r
  ]

  -- The room is where it was after either way to join.
  pub join_client-Placed :
      (p : ℕ) (r : Room F) (cmd : JoinCommand) (h : InMemoryHub F)
      → IsCoherent h
      → Placed p r h
      → let k = (join_client p r cmd h).1 in IsCoherent k × Placed p (joined_room cmd r) k
  unfolding join_client joined_room
  join_client-Placed p r cmd h c pl = elim (Option-cases (find_client cmd.sender_id r)) [
    | inl e ↦
        let (ck, there) = create_new_client-Placed p r cmd.sender_id cmd.bus h c pl in
        rw (join_client, joined_room, e) (ck, there)
    | inr (x, e) ↦
        let (ck, there) = reconnect_client-Placed p r cmd.sender_id cmd.bus h c pl in
        rw (join_client, joined_room, e) (ck, there)
  ]

  notify_join-IsCoherent :
      (world : World) (cmd : JoinCommand) (p : ℕ) (r : Room F) (h : InMemoryHub F)
      → IsCoherent h
      → Placed p r h
      → IsCoherent (hub_after (notify_join world cmd p r h))
  unfolding notify_join
  notify_join-IsCoherent world cmd p r h c pl = elim (Option-cases (world.send cmd.bus)) [
    | inr (x, e) ↦ rw (notify_join, e) c
    | inl e ↦
        let sent = broadcast_state-IsCoherent world p r h c pl in
        elim (Ran-cases (broadcast_state world p r h)) [
          | inl (k, b) ↦ rw (notify_join, e, b) (subst (λ o. IsCoherent (hub_after o)) b sent)
          | inr (d, b) ↦
              let kept = subst (λ o. IsCoherent (hub_after o)) b sent in
              elim (Option-cases d.error) [
                | inl n ↦ rw (notify_join, e, b, n) kept
                | inr (x, n) ↦ rw (notify_join, e, b, n) kept
              ]
        ]
  ]

module _ {F : Type 0} ⦃fl : Float32 F⦄ where
  roll_back_join-IsCoherent :
      (t : Clock) (cmd : JoinCommand) (again : Bool) (h : InMemoryHub F)
      → IsCoherent h
      → IsCoherent (roll_back_join t cmd again h)
  unfolding roll_back_join remove_bus
  roll_back_join-IsCoherent t cmd true h c = frame-IsCoherent h _ refl refl refl c
  roll_back_join-IsCoherent t cmd false h c =
      remove_client_from_hub-IsCoherent t cmd.sender_id cmd.room_id h c

  after_notify-IsCoherent :
      (t : Clock) (cmd : JoinCommand) (made again : Bool) (closed : List ℕ) (o : Ran F (Done F))
      → IsCoherent (hub_after o)
      → IsCoherent (hub_joined (after_notify t cmd made again closed o))
  unfolding after_notify
  after_notify-IsCoherent t cmd made again closed (stopped h) k = k
  after_notify-IsCoherent t cmd made again closed (ended d) k = elim (Option-cases d.error) [
    | inl e ↦ rw (e) k
    | inr (x, e) ↦ rw (e) (roll_back_join-IsCoherent t cmd again d.hub k)
  ]

  -- Whoever joins whatever room, the hub is as coherent after the join as before: for a new client,
  -- a client that comes back, a room that the join makes, a join that is rolled back, and a join that
  -- panics after the client and its bus are registered.
  pub execute_join_room-IsCoherent :
      (world : World) (t : Clock) (cmd : JoinCommand) (h : InMemoryHub F)
      → IsCoherent h
      → IsCoherent (hub_joined (execute_join_room world t cmd h))
  unfolding execute_join_room join_room
  execute_join_room-IsCoherent world t cmd h c =
      let (p, made, k) = load_or_create_room cmd.room_id cmd.now h in
      let (ck, (r, pl)) = load_or_create_room-Placed cmd h c in
      let (again, j, closed) = join_client p r cmd k in
      let s = joined_room cmd r in
      let (cj, there) = join_client-Placed p r cmd k ck pl in
      rw (execute_join_room, pl.0, join_room, there.0)
        (after_notify-IsCoherent t cmd made again closed (notify_join world cmd p s j)
          (notify_join-IsCoherent world cmd p s j cj there))
