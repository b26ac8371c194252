-- ===== src/UseCase/Join/Undone.antt =====
-- A join that makes its room and fails.
use planning_poker.Base.{
  str_eq, if◌then◌else◌, ◌++◌, set, ℕ, String, ◌≡◌, refl, ap, ◌∙◌, true, false, none, some, [], ◌∷◌,
  arith, eq_iff, ◌==◌, length,
}
use planning_poker.Base.Maps.{lookup, delete, lookup-delete}
use planning_poker.DomainError.{Error, wrap}
use planning_poker.Float32.{Float32}
use planning_poker.Room.{
  Clock, Room, new_client, new_room_with_id_and_deck, new_room_with_id_and_started_at,
}
use planning_poker.Room.Clients.{
  find_client, find, add, remove, promote_first, make_owner, is_empty,
}
use planning_poker.Room.Presence.{new_client_in, remove_client, ensure_owner}
use planning_poker.Room.Frame.{check_reveal-SameFrame}
use planning_poker.Hub.{
  clone_room, InMemoryHub, store, load_room, new_room_with_id, register, add_client, add_bus,
  get_bus, refresh_saved_room, remove_client_from_hub,
}
use planning_poker.Hub.Coherence.{IsCoherent}
use planning_poker.Dto.{update_client_id}
use planning_poker.UseCase.{World, ended}
use planning_poker.UseCase.Coherence.{Placed}
use planning_poker.UseCase.Join.Emptied.{
  emptied, create_new_client-parts, lookup-delete-insert, lookup-insert_elsewhere, set-length,
}
use planning_poker.UseCase.Join.Coherence.{create_new_client-Placed, register-Placed}
use planning_poker.UseCase.Join.{
  JoinCommand, Joined, load_or_create_room, create_new_client, join_client, notify_join,
  roll_back_join, after_notify, join_room, execute_join_room,
}

-- The room that a join makes.
abbrev pub made_room : {F : Type 0} → JoinCommand → Room F
made_room cmd = new_room_with_id_and_deck cmd.room_id [] "fibonacci" cmd.now

-- What the hub `k` keeps of the hub `h` when a sender is gone: the rooms and their addresses, with one
-- that nothing finds behind them; the snapshots; and the clients and the buses but the sender's.
pub record IsCleared {F : Type 0} (sender : String) (h k : InMemoryHub F) : Type 0 where
  pub rooms : (id : String) → load_room id k ≡ load_room id h
  pub saved : (id : String) → lookup id k.saved ≡ lookup id h.saved
  pub garbage : Room F
  pub heap : k.heap ≡ h.heap ++ garbage ∷ []
  pub clients :
      (id : String) → lookup id k.clients ≡ (if str_eq sender id then none else lookup id h.clients)
  pub buses : (id : String) → get_bus id k ≡ (if str_eq sender id then none else get_bus id h)

module _ {F : Type 0} where
  -- The first client of a new room.
  made_room-clients :
      (cmd : JoinCommand) (joined : Room F)
      → joined ≡ new_client_in cmd.sender_id (made_room cmd)
      → remove cmd.sender_id joined.clients ≡ []
  unfolding new_client_in new_room_with_id_and_deck new_room_with_id_and_started_at add remove
      promote_first make_owner new_client
  made_room-clients cmd joined e = rw e (ground (arith, eq_iff cmd.sender_id cmd.sender_id))

  ensure_owner-empty : (r : Room F) → r.clients ≡ [] → (ensure_owner r).clients ≡ []
  unfolding ensure_owner
  ensure_owner-empty r e = ground (arith, e)

  rooms-refresh_saved_room :
      (r : Room F) (h : InMemoryHub F) → (refresh_saved_room r h).rooms ≡ h.rooms
  unfolding refresh_saved_room
  rooms-refresh_saved_room r h = ground arith

  rooms-create_new_client :
      (p : ℕ) (r : Room F) (id : String) (bus : ℕ) (h : InMemoryHub F)
      → (create_new_client p r id bus h).rooms ≡ h.rooms
  unfolding create_new_client add_bus add_client store
  rooms-create_new_client p r id bus h = rooms-refresh_saved_room (new_client_in id r) _

  join_client-made :
      (p : ℕ) (cmd : JoinCommand) (h : InMemoryHub F)
      → join_client p (made_room cmd) cmd h
        ≡ (false, create_new_client p (made_room cmd) cmd.sender_id cmd.bus h, [])
  unfolding join_client find_client find new_room_with_id_and_deck new_room_with_id_and_started_at
  join_client-made p cmd h = refl

module _ {F : Type 0} ⦃fl : Float32 F⦄ where
  -- Its only client leaves it empty.
  made_room-empty :
      (t : Clock) (id : String) (joined : Room F)
      → remove id joined.clients ≡ []
      → is_empty (remove_client t id joined) ≡ true
  unfolding remove_client is_empty
  made_room-empty t id joined e =
      let left = record joined { clients = remove id joined.clients } in
      let kept = (check_reveal-SameFrame t (ensure_owner left)).clients in
      ap (λ cs. length cs == 0) (kept ∙ ensure_owner-empty left e)

  -- The removal of the first client of the room that the join has made: `k` is the hub with the room,
  -- and `n` with its first client.
  made-IsCleared :
      (t : Clock) (cmd : JoinCommand) (h : InMemoryHub F)
      → IsCoherent h
      → load_room cmd.room_id h ≡ none
      → let (q, k) = register (made_room cmd) h in
        let n = create_new_client q (made_room cmd) cmd.sender_id cmd.bus k in
        Placed q (new_client_in cmd.sender_id (made_room cmd)) n
        → IsCleared cmd.sender_id h (remove_client_from_hub t cmd.sender_id cmd.room_id n)
  unfolding load_room register get_bus new_client_in new_room_with_id_and_deck
      new_room_with_id_and_started_at
  made-IsCleared t cmd h c l placed =
      let made = made_room cmd in
      let (q, k) = register made h in
      let n = create_new_client q made cmd.sender_id cmd.bus k in
      let joined = new_client_in cmd.sender_id made in
      let left = remove_client t cmd.sender_id joined in
      let alone = made_room-empty t cmd.sender_id joined (made_room-clients cmd joined refl) in
      let gone = emptied t cmd.sender_id q joined n placed alone in
      let parts = λ (id : String). create_new_client-parts id q made cmd.sender_id cmd.bus k in
      let (heap, clients, buses, saved) = parts cmd.sender_id in
      record {
        rooms = λ id.
            ap (λ m. lookup id m)
              (gone.rooms
                ∙ ap (λ m. delete cmd.room_id m)
                    (rooms-create_new_client q made cmd.sender_id cmd.bus k))
            ∙ lookup-delete-insert cmd.room_id id q h.rooms
            ∙ ground (arith, l, eq_iff cmd.room_id id);
        saved = λ id.
            ap (λ m. lookup id m) gone.saved
            ∙ lookup-delete cmd.room_id id n.saved
            ∙ (parts id).3
            ∙ lookup-insert_elsewhere cmd.room_id id (clone_room made) h.saved
            ∙ ground (arith, c.absent cmd.room_id l, eq_iff cmd.room_id id);
        garbage = left;
        heap =
            gone.heap
            ∙ ap (λ rs. set rs q left) (heap ∙ set-length h.heap made joined)
            ∙ set-length h.heap joined left;
        clients = λ id.
            ap (λ m. lookup id m) (gone.clients ∙ ap (λ m. delete cmd.sender_id m) clients)
            ∙ lookup-delete-insert cmd.sender_id id (q, cmd.sender_id) h.clients;
        buses = λ id.
            ap (λ m. lookup id m) (gone.buses ∙ ap (λ m. delete cmd.sender_id m) buses)
            ∙ lookup-delete-insert cmd.sender_id id cmd.bus h.buses;
      }

  -- A join that makes its room, and whose first message is not taken, says so and leaves no room
  -- behind: the same rooms are found at the same addresses, those at the addresses there were are as
  -- they were, and so is every snapshot; the sender is no client and has no bus by then, every other
  -- client and bus is as it was, and nothing is counted.
  pub execute_join_room-undone :
      (world : World) (t : Clock) (cmd : JoinCommand) (h : InMemoryHub F) (e : Error)
      → IsCoherent h
      → load_room cmd.room_id h ≡ none
      → world.send cmd.bus ≡ some e
      → (j : Joined F) × (execute_join_room world t cmd h ≡ ended j)
        × (j.error ≡ some (wrap "failed to send update client ID command: %w" [] e))
        × IsCleared cmd.sender_id h j.hub
        × (j.counts ≡ [])
  unfolding execute_join_room load_or_create_room new_room_with_id join_room notify_join
      after_notify roll_back_join
  execute_join_room-undone world t cmd h e c l s =
      let made = made_room cmd in
      let (q, k) = register made h in
      let (ck, there) = register-Placed made h c in
      let n = create_new_client q made cmd.sender_id cmd.bus k in
      let (cn, placed) = create_new_client-Placed q made cmd.sender_id cmd.bus k ck there in
      let loaded : load_or_create_room cmd.room_id cmd.now h ≡ (q, true, k) =
        rw (load_or_create_room, l) refl in
      let j : Joined F = record {
        hub = remove_client_from_hub t cmd.sender_id cmd.room_id n;
        error = some (wrap "failed to send update client ID command: %w" [] e);
        sent = (cmd.bus, update_client_id cmd.sender_id) ∷ [];
        closed = [];
        counts = [];
      } in
      (
        j,
        rw
            (
              execute_join_room,
              loaded,
              there.0,
              loaded,
              join_room,
              join_client-made q cmd k,
              placed.0,
              notify_join,
              s,
              loaded,
              join_client-made q cmd k,
            )
            refl,
        refl,
        made-IsCleared t cmd h c l placed,
        refl,
      )
