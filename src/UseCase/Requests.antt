-- ===== src/UseCase/Requests.antt =====
-- The use cases that a client's message, or an administrator, starts on one room.
use planning_poker.Base.{ℕ, String, Option, none, some, []}
use planning_poker.Base.Int.{ℤ}
use planning_poker.DomainError.{wrap, room_not_found}
use planning_poker.Float32.{Float32}
use planning_poker.Room.{Clock}
use planning_poker.Room.Presence.{
  update_client_name, toggle_owner, admin_toggle_owner, toggle_spectator,
}
use planning_poker.Room.Voting.{vote, toggle_reveal, reset_voting}
use planning_poker.Room.Backlog.{returns, add_story, set_current_story}
use planning_poker.Room.BacklogMoves.{
  toggle_backlog_mode, reorder_story, remove_story, select_story, advance_to_next_story, prev_story,
}
use planning_poker.Hub.{InMemoryHub, load_room}
use planning_poker.UseCase.{World, Done, Ran, failed, on_room, save_always, save_if}

-- What every command of a client carries.
pub record Sender : Type 0 where
  pub room_id : String
  pub sender_id : String
  pub expected_room_version : Option ℕ

module _ {F : Type 0} ⦃fl : Float32 F⦄ (world : World) (t : Clock) (c : Sender) where
  unfoldable pub execute_vote : Option String → InMemoryHub F → Ran F (Done F)
  unfolding on_room
  execute_vote v h = on_room world save_always c.room_id (λ r. returns (vote t c.sender_id v r)) h

  -- The one use case that takes no lock.
  unfoldable pub execute_update_name : String → InMemoryHub F → Ran F (Done F)
  unfolding on_room
  execute_update_name username h =
      on_room world save_always c.room_id (λ r. returns (update_client_name c.sender_id username r))
        h

  unfoldable pub execute_add_story : String → String → InMemoryHub F → Ran F (Done F)
  unfolding on_room
  execute_add_story new_id name h =
      on_room world save_always c.room_id (λ r. returns (add_story new_id c.sender_id name r)) h

  unfoldable pub execute_reveal : InMemoryHub F → Ran F (Done F)
  unfolding on_room
  execute_reveal h =
      on_room world (save_if c.expected_room_version) c.room_id
        (λ r. returns (toggle_reveal t c.sender_id r)) h

  unfoldable pub execute_reset : InMemoryHub F → Ran F (Done F)
  unfolding on_room
  execute_reset h =
      on_room world (save_if c.expected_room_version) c.room_id
        (λ r. returns (reset_voting t c.sender_id r)) h

  unfoldable pub execute_vote_again : InMemoryHub F → Ran F (Done F)
  unfolding on_room
  execute_vote_again h =
      on_room world (save_if c.expected_room_version) c.room_id
        (λ r. returns (reset_voting t c.sender_id r)) h

  unfoldable pub execute_toggle_owner : String → InMemoryHub F → Ran F (Done F)
  unfolding on_room
  execute_toggle_owner target h =
      on_room world (save_if c.expected_room_version) c.room_id
        (λ r. returns (toggle_owner c.sender_id target r)) h

  unfoldable pub execute_toggle_spectator : String → InMemoryHub F → Ran F (Done F)
  unfolding on_room
  execute_toggle_spectator target h =
      on_room world (save_if c.expected_room_version) c.room_id
        (λ r. returns (toggle_spectator t c.sender_id target r)) h

  unfoldable pub execute_select_story : String → InMemoryHub F → Ran F (Done F)
  unfolding on_room
  execute_select_story story_id h =
      on_room world (save_if c.expected_room_version) c.room_id
        (λ r. select_story t c.sender_id story_id r) h

  unfoldable pub execute_remove_story : String → InMemoryHub F → Ran F (Done F)
  unfolding on_room
  execute_remove_story story_id h =
      on_room world (save_if c.expected_room_version) c.room_id
        (λ r. returns (remove_story t c.sender_id story_id r)) h

  unfoldable pub execute_reorder_story : String → ℤ → InMemoryHub F → Ran F (Done F)
  unfolding on_room
  execute_reorder_story story_id target h =
      on_room world (save_if c.expected_room_version) c.room_id
        (λ r. returns (reorder_story c.sender_id story_id target r)) h

  unfoldable pub execute_advance_story : InMemoryHub F → Ran F (Done F)
  unfolding on_room
  execute_advance_story h =
      on_room world (save_if c.expected_room_version) c.room_id
        (λ r. returns (advance_to_next_story t c.sender_id r)) h

  unfoldable pub execute_prev_story : InMemoryHub F → Ran F (Done F)
  unfolding on_room
  execute_prev_story h =
      on_room world (save_if c.expected_room_version) c.room_id
        (λ r. returns (prev_story t c.sender_id r)) h

  unfoldable pub execute_update_story : String → InMemoryHub F → Ran F (Done F)
  unfolding on_room
  execute_update_story story h =
      on_room world (save_if c.expected_room_version) c.room_id
        (λ r. returns (set_current_story c.sender_id story r)) h

  unfoldable pub execute_toggle_backlog_mode : String → InMemoryHub F → Ran F (Done F)
  unfolding on_room
  execute_toggle_backlog_mode new_id h =
      on_room world (save_if c.expected_room_version) c.room_id
        (λ r. toggle_backlog_mode new_id c.sender_id r) h

module _ {F : Type 0} (world : World) where
  -- The administrator's use case, whose error says that the room could not be loaded.
  unfoldable pub execute_admin_toggle_owner : String → String → InMemoryHub F → Ran F (Done F)
  unfolding on_room
  execute_admin_toggle_owner room_id target h = elim (load_room room_id h) [
    | none ↦ failed h (wrap "load room: %w" [] room_not_found)
    | some _ ↦ on_room world save_always room_id (λ r. returns (admin_toggle_owner target r)) h
  ]
