-- ===== src/UseCase/Join/Rollback.antt =====
-- What a join leaves of the sender's bus and of the metrics, when it succeeds and when it fails.
use planning_poker.Base.{
  ℕ, ◌≡◌, inl, inr, refl, ◌∙◌, sym, subst, Bool, true, false, none, some, List, [], arith,
  Option-cases,
}
use planning_poker.DomainError.{Error}
use planning_poker.Float32.{Float32}
use planning_poker.Room.{Clock, Room}
use planning_poker.Room.Clients.{find_client}
use planning_poker.Room.Presence.{new_client_in}
use planning_poker.Room.Backlog.{panics, effective_current_story}
use planning_poker.Hub.{InMemoryHub, at, store, get_bus}
use planning_poker.Hub.Buses.{get_bus-add_bus, get_bus-remove_bus, get_bus-remove_client_from_hub}
use planning_poker.Dto.{new_room_state_command}
use planning_poker.UseCase.{World, Done, Ran, stopped, ended, broadcast_state}
use planning_poker.UseCase.Coherence.{Outcome-cases, Ran-cases}
use planning_poker.Hub.Coherence.{IsCoherent}
use planning_poker.UseCase.Join.Coherence.{
  joined_room, join_client-Placed, load_or_create_room-Placed,
}
use planning_poker.UseCase.Join.{
  JoinCommand, Joined, load_or_create_room, reconnect_client, create_new_client, join_client,
  notify_join, roll_back_join, after_notify, join_room, execute_join_room,
}

-- The sender has the new bus after a join that succeeds, and none after one that fails, which
-- counts nothing.
abbrev pub IsSettled : {F : Type 0} → JoinCommand → Joined F → Type 0
IsSettled cmd j =
    (j.error ≡ none → get_bus cmd.sender_id j.hub ≡ some cmd.bus)
    × ((e : Error) → j.error ≡ some e → (get_bus cmd.sender_id j.hub ≡ none) × (j.counts ≡ []))

module _ {F : Type 0} where
  get_bus-join_client :
      (p : ℕ) (r : Room F) (cmd : JoinCommand) (h : InMemoryHub F)
      → get_bus cmd.sender_id (join_client p r cmd h).1 ≡ some cmd.bus
  unfolding join_client reconnect_client create_new_client
  get_bus-join_client p r cmd h = elim (Option-cases (find_client cmd.sender_id r)) [
    | inl e ↦ rw (join_client, e) (get_bus-add_bus cmd.sender_id cmd.bus _)
    | inr (c, e) ↦ elim (Option-cases (get_bus cmd.sender_id h)) [
      | inl n ↦ rw (join_client, e, reconnect_client, n) (get_bus-add_bus cmd.sender_id cmd.bus h)
      | inr (old, n) ↦
          rw (join_client, e, reconnect_client, n) (get_bus-add_bus cmd.sender_id cmd.bus h)
    ]
  ]

  -- A notification leaves the buses alone; it panics only over a current story that cannot be read.
  abbrev Told : JoinCommand → Room F → Ran F (Done F) → Type 0
  Told cmd r (stopped h) = effective_current_story r ≡ panics
  Told cmd r (ended d) = get_bus cmd.sender_id d.hub ≡ some cmd.bus

  broadcast_state-Told :
      (world : World) (cmd : JoinCommand) (p : ℕ) (r : Room F) (h : InMemoryHub F)
      → get_bus cmd.sender_id h ≡ some cmd.bus
      → Told cmd r (broadcast_state world p r h)
  unfolding broadcast_state store get_bus new_room_state_command
  broadcast_state-Told world cmd p r h b = elim (Outcome-cases (effective_current_story r)) [
    | inl n ↦ rw (broadcast_state, new_room_state_command, n) n
    | inr (x, n) ↦ rw (broadcast_state, new_room_state_command, n) b
  ]

  notify_join-Told :
      (world : World) (cmd : JoinCommand) (p : ℕ) (r : Room F) (h : InMemoryHub F)
      → get_bus cmd.sender_id h ≡ some cmd.bus
      → Told cmd r (notify_join world cmd p r h)
  unfolding notify_join
  notify_join-Told world cmd p r h b = elim (Option-cases (world.send cmd.bus)) [
    | inr (x, e) ↦ rw (notify_join, e) b
    | inl e ↦
        let sent = broadcast_state-Told world cmd p r h b in
        elim (Ran-cases (broadcast_state world p r h)) [
          | inl (k, n) ↦ rw (notify_join, e, n) (subst (Told cmd r) n sent)
          | inr (d, n) ↦
              let kept = subst (Told cmd r) n sent in
              elim (Option-cases d.error) [
                | inl k ↦ rw (notify_join, e, n, k) kept
                | inr (x, k) ↦ rw (notify_join, e, n, k) kept
              ]
        ]
  ]

  story_of_joined :
      (cmd : JoinCommand) (r : Room F)
      → effective_current_story (joined_room cmd r) ≡ effective_current_story r
  unfolding effective_current_story joined_room new_client_in
  story_of_joined cmd r = elim (Option-cases (find_client cmd.sender_id r)) [
    | inl e ↦ rw (joined_room, e) refl
    | inr (c, e) ↦ rw (joined_room, e) refl
  ]

  Told-joined_room :
      (cmd : JoinCommand) (r : Room F) (o : Ran F (Done F))
      → Told cmd (joined_room cmd r) o
      → Told cmd r o
  Told-joined_room cmd r (stopped h) k = sym (story_of_joined cmd r) ∙ k
  Told-joined_room cmd r (ended d) k = k

module _ {F : Type 0} ⦃fl : Float32 F⦄ where
  get_bus-roll_back_join :
      (t : Clock) (cmd : JoinCommand) (again : Bool) (h : InMemoryHub F)
      → get_bus cmd.sender_id (roll_back_join t cmd again h) ≡ none
  unfolding roll_back_join
  get_bus-roll_back_join t cmd true h = get_bus-remove_bus cmd.sender_id h
  get_bus-roll_back_join t cmd false h =
      get_bus-remove_client_from_hub t cmd.sender_id cmd.room_id h

  -- How a join of the room `r` ends.
  abbrev pub Settles : JoinCommand → Room F → Ran F (Joined F) → Type 0
  Settles cmd r (stopped h) = effective_current_story r ≡ panics
  Settles cmd r (ended j) = IsSettled cmd j

  after_notify-Settles :
      (t : Clock) (cmd : JoinCommand) (made again : Bool) (closed : List ℕ) (r : Room F)
      (o : Ran F (Done F))
      → Told cmd r o
      → Settles cmd r (after_notify t cmd made again closed o)
  unfolding after_notify
  after_notify-Settles t cmd made again closed r (stopped h) k = k
  after_notify-Settles t cmd made again closed r (ended d) k = elim (Option-cases d.error) [
    | inl e ↦ rw (e) (λ n. k, λ x n. absurd (ground arith))
    | inr (x, e) ↦
        rw (e) (λ n. absurd (ground arith), λ y n. (get_bus-roll_back_join t cmd again d.hub, refl))
  ]

  -- A join in a coherent hub comes to an end: it succeeds, with the new bus as the bus of the sender,
  -- or it fails, with no bus for the sender and nothing counted. It panics only if the current story
  -- of the room cannot be read.
  pub execute_join_room-Settles :
      (world : World) (t : Clock) (cmd : JoinCommand) (h : InMemoryHub F)
      → IsCoherent h
      → (r : Room F) × (let (p, made, k) = load_or_create_room cmd.room_id cmd.now h in
          at p k ≡ some r)
        × Settles cmd r (execute_join_room world t cmd h)
  unfolding execute_join_room join_room
  execute_join_room-Settles world t cmd h c =
      let (p, made, k) = load_or_create_room cmd.room_id cmd.now h in
      let (ck, (r, pl)) = load_or_create_room-Placed cmd h c in
      let (again, j, closed) = join_client p r cmd k in
      let (cj, there) = join_client-Placed p r cmd k ck pl in
      let s = joined_room cmd r in
      let told = notify_join-Told world cmd p s j (get_bus-join_client p r cmd k) in
      (
        r,
        pl.0,
        rw (execute_join_room, pl.0, join_room, there.0)
            (after_notify-Settles t cmd made again closed r (notify_join world cmd p s j)
              (Told-joined_room cmd r (notify_join world cmd p s j) told)),
      )
