-- ===== src/UseCase/Membership.antt =====
-- The use cases leaveroom.go and createroom.go, with the metrics that they count.
use planning_poker.Base.{
  String, ◌≡◌, refl, ap, Option, none, some, List, [], ◌∷◌, Option-cases, inl, inr, arith, ◌∙◌, ◌⊎◌,
  length, eq_iff,
}
use planning_poker.Base.Maps.{lookup, lookup-insert}
use planning_poker.Deck.{deck_by_type}
use planning_poker.DomainError.{Error, plain, text}
use planning_poker.Float32.{Float32}
use planning_poker.Room.{Clock, Time, new_room_with_id_and_deck, new_room_with_id_and_started_at}
use planning_poker.Hub.{
  InMemoryHub, at, load_room, new_room_with_deck, remove_client_from_hub, register,
}
use planning_poker.Hub.Coherence.{IsCoherent, register-IsCoherent}
use planning_poker.Hub.Removal.{remove_client_from_hub-IsCoherent}
use planning_poker.UseCase.{World, Done, Ran, stopped, ended, broadcast_state}
use planning_poker.UseCase.Coherence.{hub_after, broadcast_state-IsCoherent}

-- The calls of the metrics.
pub data Count : Type 0 where
  increments_users_total increments_active_users decrements_active_users increments_active_rooms
        decrements_active_rooms :
      Count

module _ {F : Type 0} where
  -- After the removal: the state is sent to a room that still exists, and otherwise the room is
  -- counted as gone.
  unfoldable pub tell_room : World → String → InMemoryHub F → Ran F (Done F) × List Count
  tell_room world room_id k = elim (load_room room_id k) [
    | none ↦ (
      ended (record { hub = k; error = none; sent = [] }),
      decrements_active_users ∷ decrements_active_rooms ∷ [],
    )
    | some p ↦ elim (at p k) [
      | none ↦ (stopped k, decrements_active_users ∷ [])
      | some r ↦ (broadcast_state world p r k, decrements_active_users ∷ [])
    ]
  ]

  -- The identifier of the room or the error, the hub and the metrics.
  unfoldable pub execute_create_room :
      String → String → Time → InMemoryHub F → Option Error × InMemoryHub F × List Count
  execute_create_room id deck_type now h = elim (deck_by_type deck_type) [
    | none ↦ (some (plain "unknown deck type %q" (text deck_type ∷ [])), h, [])
    | some _ ↦ (none, (new_room_with_deck id deck_type now h).1, increments_active_rooms ∷ [])
  ]

  -- The creation of a room keeps the hub coherent, and counts a room exactly if it makes one.
  pub execute_create_room-IsCoherent :
      (id deck_type : String) (now : Time) (h : InMemoryHub F)
      → IsCoherent h
      → let (e, k, counts) = execute_create_room id deck_type now h in
        IsCoherent k
        × (((e ≡ none)
              × (load_room id k ≡ some (length h.heap))
              × (counts ≡ increments_active_rooms ∷ []))
            ⊎ ((k ≡ h) × (counts ≡ [])))
  unfolding execute_create_room new_room_with_deck register load_room new_room_with_id_and_deck
      new_room_with_id_and_started_at
  execute_create_room-IsCoherent id deck_type now h c =
      elim (Option-cases (deck_by_type deck_type)) [
        | inl e ↦ rw (execute_create_room, e) (c, inr (refl, refl))
        | inr (d, e) ↦
            rw (execute_create_room, e)
              (
                register-IsCoherent (new_room_with_id_and_deck id [] deck_type now) h c,
                inl (
                  refl,
                  lookup-insert id id (length h.heap) h.rooms ∙ ground (arith, eq_iff id id),
                  refl,
                ),
              )
      ]

module _ {F : Type 0} ⦃fl : Float32 F⦄ where
  -- The removal never fails in the hub in memory.
  unfoldable pub execute_leave_room :
      World → Clock → String → String → InMemoryHub F → Ran F (Done F) × List Count
  unfolding tell_room
  execute_leave_room world t room_id sender_id h =
      tell_room world room_id (remove_client_from_hub t sender_id room_id h)

  -- Whoever leaves whatever room, the hub stays coherent, also when the broadcast to those who stay
  -- panics and the client has left by then.
  pub execute_leave_room-IsCoherent :
      (world : World) (t : Clock) (room_id sender_id : String) (h : InMemoryHub F)
      → IsCoherent h
      → IsCoherent (hub_after (execute_leave_room world t room_id sender_id h).0)
  unfolding execute_leave_room tell_room load_room
  execute_leave_room-IsCoherent world t room_id sender_id h c =
      let k = remove_client_from_hub t sender_id room_id h in
      let ck = remove_client_from_hub-IsCoherent t sender_id room_id h c in
      elim (Option-cases (lookup room_id k.rooms)) [
        | inl e ↦ rw (execute_leave_room, tell_room, load_room, e) ck
        | inr (p, e) ↦
            let st = ck.stands room_id p e in
            rw (tell_room, load_room, e, st.here)
              (broadcast_state-IsCoherent world p st.room k ck
                (st.here, ap (λ id. lookup id k.rooms) st.room_id ∙ e))
      ]
