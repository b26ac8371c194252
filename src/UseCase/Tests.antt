-- ===== src/UseCase/Tests.antt =====
-- The use cases' theorems at fixed inputs.
use planning_poker.Base.{◌∷◌, ℕ, ◌≡◌, refl, none, some, [], All, length, ◌⊎◌}
use planning_poker.Base.Maps.{lookup, insert}
use planning_poker.DomainError.{stale_room_version, wrap}
use planning_poker.Room.{Room, next_version}
use planning_poker.Room.Tests.{table, clock, whole, midnight}
use planning_poker.Room.Guards.{Reply}
use planning_poker.Room.Backlog.{Outcome, returns, effective_current_story}
use planning_poker.Hub.Coherence.{IsCoherent, new_hub-IsCoherent, register-IsCoherent}
use planning_poker.UseCase.Requests.{Sender}
use planning_poker.UseCase.Administration.{remove_with, remove_with-IsCoherent}
use planning_poker.UseCase.Membership.{
  increments_active_rooms, execute_leave_room, execute_create_room, execute_leave_room-IsCoherent,
  execute_create_room-IsCoherent,
}
use planning_poker.UseCase.Join.{JoinCommand, Joined, execute_join_room, load_or_create_room}
use planning_poker.UseCase.Join.Undone.{IsCleared, execute_join_room-undone}
use planning_poker.UseCase.Join.Coherence.{hub_joined, execute_join_room-IsCoherent}
use planning_poker.UseCase.Join.Rollback.{Settles, execute_join_room-Settles}
use planning_poker.UseCase.Dispatch.{dispatch, reveal_votes_msg}
use planning_poker.UseCase.Coherence.{hub_after, dispatch-IsCoherent}
use planning_poker.Hub.{
  register, new_hub, InMemoryHub, at, load_room, clone_room, saved_version, expects,
}
use planning_poker.Hub.Tests.{one_room}
use planning_poker.Dto.{kicked, ServerMessage}
use planning_poker.UseCase.{ended, World, Done, on_room, save_if}
use planning_poker.UseCase.Stale.{on_room-Tells, Tells}

abbrev one_hub : InMemoryHub ℕ
one_hub = (register table new_hub).1

abbrev quiet : World
quiet = record { send = λ bus. none; sort = λ cs. cs }

-- A method that renames the story in hand.
abbrev retitle : Room ℕ → Outcome (Reply ℕ)
retitle r = returns (record r { current_story = "x" }, none)

abbrev retitled : Room ℕ
retitled = record table { current_story = "x" }

on_room-Tells_example :
    let next = next_version (saved_version "r" one_room) in
    (d : Done ℕ) × (on_room quiet (save_if (some 0)) "r" retitle one_room ≡ ended d)
    × All (λ (m : ℕ × ServerMessage ℕ). Tells next m.1) d.sent
    × (lookup "r" d.hub.saved ≡ some (record (clone_room retitled) { room_version = next }))
on_room-Tells_example =
    on_room-Tells quiet (some 0) retitle one_room 0 table retitled "x"
      (unfold load_room lookup in refl) (unfold at in refl) refl
      (unfold effective_current_story in refl) (unfold expects saved_version lookup in refl)

abbrev sender : Sender
sender = record { room_id = "r"; sender_id = "a"; expected_room_version = some 0 }

dispatch-IsCoherent_example :
    let h = (register table new_hub).1 in
    IsCoherent (hub_after (dispatch quiet clock sender reveal_votes_msg h))
dispatch-IsCoherent_example =
    dispatch-IsCoherent quiet clock sender reveal_votes_msg (register table new_hub).1
      (register-IsCoherent table new_hub new_hub-IsCoherent)

execute_leave_room-IsCoherent_example :
    let h = (register table new_hub).1 in
    IsCoherent (hub_after (execute_leave_room quiet clock "r" "a" h).0)
execute_leave_room-IsCoherent_example =
    execute_leave_room-IsCoherent quiet clock "r" "a" (register table new_hub).1
      (register-IsCoherent table new_hub new_hub-IsCoherent)

execute_create_room-IsCoherent_example :
    let (e, k, counts) = execute_create_room "s" "t-shirt" midnight one_hub in
    IsCoherent k
    × (((e ≡ none)
          × (load_room "s" k ≡ some (length one_hub.heap))
          × (counts ≡ increments_active_rooms ∷ []))
        ⊎ ((k ≡ one_hub) × (counts ≡ [])))
execute_create_room-IsCoherent_example =
    execute_create_room-IsCoherent "s" "t-shirt" midnight one_hub
      (register-IsCoherent table new_hub new_hub-IsCoherent)

remove_with-IsCoherent_example :
    IsCoherent (hub_after (remove_with quiet clock "r" "b" (kicked ∷ []) one_hub).outcome)
remove_with-IsCoherent_example =
    remove_with-IsCoherent quiet clock "r" "b" (kicked ∷ []) one_hub
      (register-IsCoherent table new_hub new_hub-IsCoherent)

-- A join of a new client, and one whose first message is not taken.
abbrev dan : JoinCommand
dan = record { room_id = "r"; sender_id = "d"; bus = 7; now = midnight }

abbrev deaf : World
deaf = record quiet { send = λ bus. some stale_room_version }

execute_join_room-IsCoherent_example :
    IsCoherent (hub_joined (execute_join_room deaf clock dan one_hub))
execute_join_room-IsCoherent_example =
    execute_join_room-IsCoherent deaf clock dan one_hub
      (register-IsCoherent table new_hub new_hub-IsCoherent)

execute_join_room-Settles_example :
    (r : Room ℕ) × (let (p, made, k) = load_or_create_room "r" midnight one_hub in at p k ≡ some r)
    × Settles dan r (execute_join_room deaf clock dan one_hub)
execute_join_room-Settles_example =
    execute_join_room-Settles deaf clock dan one_hub
      (register-IsCoherent table new_hub new_hub-IsCoherent)

abbrev eve : JoinCommand
eve = record dan { room_id = "q" }

execute_join_room-undone_example :
    (j : Joined ℕ) × (execute_join_room deaf clock eve one_hub ≡ ended j)
    × (j.error ≡ some (wrap "failed to send update client ID command: %w" [] stale_room_version))
    × IsCleared "d" one_hub j.hub
    × (j.counts ≡ [])
execute_join_room-undone_example =
    execute_join_room-undone deaf clock eve one_hub stale_room_version
      (register-IsCoherent table new_hub new_hub-IsCoherent)
      (unfold load_room register new_hub insert lookup in refl) refl
