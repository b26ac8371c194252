-- ===== src/UseCase/Administration.antt =====
-- adminremoveclient.go and adminkickclient.go: an administrator removes a client from a room.
use planning_poker.Base.{ℕ, String, Option, none, some, List, [], ◌∷◌, ◌++◌, Option-cases, inl, inr}
use planning_poker.DomainError.{Error, wrap, text, room_not_found, client_not_found}
use planning_poker.Float32.{Float32}
use planning_poker.Room.{Clock}
use planning_poker.Room.Clients.{find_client}
use planning_poker.Hub.{InMemoryHub, at, load_room, get_bus}
use planning_poker.Hub.Coherence.{IsCoherent}
use planning_poker.Dto.{ServerMessage, kicked}
use planning_poker.UseCase.{World, Done, Ran, stopped, ended, failed}
use planning_poker.UseCase.Coherence.{hub_after}
use planning_poker.UseCase.Membership.{Count, execute_leave_room, execute_leave_room-IsCoherent}

-- What a removal does: the use case, the metrics, and the bus that is detached and closed.
pub record Removal (F : Type 0) : Type 0 where
  pub outcome : Ran F (Done F)
  pub counts : List Count
  pub closed : Option ℕ

module _ {F : Type 0} where
  unfoldable pub not_removed : InMemoryHub F → Error → Removal F
  not_removed h e = record { outcome = failed h e; counts = []; closed = none }

  -- The message to the bus of a client that is kicked; how the send goes is only logged.
  unfoldable pub notify : List (ServerMessage F) → Option ℕ → List (ℕ × ServerMessage F)
  notify [] bus = []
  notify (m ∷ ms) none = []
  notify (m ∷ ms) (some b) = (b, m) ∷ notify ms (some b)

  -- What follows the leave: its error is wrapped, and the bus that the client had is closed.
  unfoldable pub after_leave :
      List (ServerMessage F) → Option ℕ → List Count → Ran F (Done F) → Removal F
  after_leave ms bus counts (stopped h) = record {
    outcome = stopped h;
    counts = counts;
    closed = none;
  }
  after_leave ms bus counts (ended d) = elim d.error [
    | none ↦ record {
      outcome = ended (record d { sent = d.sent ++ notify ms bus });
      counts = counts;
      closed = bus;
    }
    | some e ↦ record {
      outcome = ended (record d { error = some (wrap "remove client: %w" [] e) });
      counts = counts;
      closed = none;
    }
  ]

  after_leave-IsCoherent :
      (ms : List (ServerMessage F)) (bus : Option ℕ) (counts : List Count) (o : Ran F (Done F))
      → IsCoherent (hub_after o)
      → IsCoherent (hub_after (after_leave ms bus counts o).outcome)
  unfolding after_leave
  after_leave-IsCoherent ms bus counts (stopped h) c = c
  after_leave-IsCoherent ms bus counts (ended d) c = elim (Option-cases d.error) [
    | inl e ↦ rw (after_leave, e) c
    | inr (x, e) ↦ rw (after_leave, e) c
  ]

module _ {F : Type 0} ⦃fl : Float32 F⦄ (world : World) (t : Clock)
    (room_id client_id : String) where
  -- The removal with the messages that the client's own bus gets; the bus is read before the leave.
  unfoldable pub remove_with : List (ServerMessage F) → InMemoryHub F → Removal F
  remove_with ms h = elim (load_room room_id h) [
    | none ↦ not_removed h (wrap "load room: %w" [] room_not_found)
    | some p ↦ elim (at p h) [
      | none ↦ record { outcome = stopped h; counts = []; closed = none }
      | some r ↦ elim (find_client client_id r) [
        | none ↦
            not_removed h (wrap "client %s not found: %w" (text client_id ∷ []) client_not_found)
        | some _ ↦
            let (o, counts) = execute_leave_room world t room_id client_id h in
            after_leave ms (get_bus client_id h) counts o
      ]
    ]
  ]

  unfoldable pub execute_admin_remove_client : InMemoryHub F → Removal F
  unfolding remove_with
  execute_admin_remove_client h = remove_with [] h

  unfoldable pub execute_admin_kick_client : InMemoryHub F → Removal F
  unfolding remove_with
  execute_admin_kick_client h = remove_with (kicked ∷ []) h

  -- Both removals by an administrator keep a coherent hub coherent on every branch, also when the
  -- broadcast panics and the client has been removed by then.
  pub remove_with-IsCoherent :
      (ms : List (ServerMessage F)) (h : InMemoryHub F)
      → IsCoherent h
      → IsCoherent (hub_after (remove_with ms h).outcome)
  unfolding remove_with not_removed failed
  remove_with-IsCoherent ms h c = elim (Option-cases (load_room room_id h)) [
    | inl e ↦ rw (remove_with, e) c
    | inr (p, e) ↦ elim (Option-cases (at p h)) [
      | inl u ↦ rw (remove_with, e, u) c
      | inr (r, u) ↦ elim (Option-cases (find_client client_id r)) [
        | inl v ↦ rw (remove_with, e, u, v) c
        | inr (k, v) ↦
            let (o, counts) = execute_leave_room world t room_id client_id h in
            rw (remove_with, e, u, v)
              (after_leave-IsCoherent ms (get_bus client_id h) counts o
                (execute_leave_room-IsCoherent world t room_id client_id h c))
      ]
    ]
  ]
