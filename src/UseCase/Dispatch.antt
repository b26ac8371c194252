-- ===== src/UseCase/Dispatch.antt =====
-- `mapUsecases` of internal/infra/bus/websocketbus.go: which use case a client's message runs. The
-- decoding of the payloads is left out, so a message is its type with the decoded payload.
use planning_poker.Base.{String, some}
use planning_poker.Base.Int.{ℤ}
use planning_poker.Float32.{Float32}
use planning_poker.Room.{Clock}
use planning_poker.Hub.{InMemoryHub}
use planning_poker.UseCase.{World, Done, Ran}
use planning_poker.UseCase.Requests.{
  Sender, execute_vote, execute_update_name, execute_add_story, execute_reveal, execute_reset,
  execute_vote_again, execute_toggle_owner, execute_toggle_spectator, execute_select_story,
  execute_remove_story, execute_reorder_story, execute_advance_story, execute_prev_story,
  execute_update_story, execute_toggle_backlog_mode,
}

-- The messages of a client, in the order of the map. The two that make a story carry the identifier
-- that `uuid.NewString` gives it.
pub data Message : Type 0 where
  update_name_msg vote_msg : String → Message
  reset_msg reveal_votes_msg : Message
  toggle_spectator_msg toggle_owner_msg update_story_msg : String → Message
  vote_again_msg : Message
  toggle_backlog_mode_msg : String → Message
  add_story_msg : String → String → Message
  remove_story_msg : String → Message
  advance_story_msg prev_story_msg : Message
  select_story_msg : String → Message
  reorder_story_msg : String → ℤ → Message

module _ {F : Type 0} ⦃fl : Float32 F⦄ (world : World) (t : Clock) (c : Sender) where
  unfoldable pub dispatch : Message → InMemoryHub F → Ran F (Done F)
  unfolding execute_vote execute_update_name execute_add_story execute_reveal execute_reset
      execute_vote_again execute_toggle_owner execute_toggle_spectator execute_select_story
      execute_remove_story execute_reorder_story execute_advance_story execute_prev_story
      execute_update_story execute_toggle_backlog_mode
  dispatch (update_name_msg username) h = execute_update_name world t c username h
  dispatch (vote_msg v) h = execute_vote world t c (some v) h
  dispatch reset_msg h = execute_reset world t c h
  dispatch reveal_votes_msg h = execute_reveal world t c h
  dispatch (toggle_spectator_msg target) h = execute_toggle_spectator world t c target h
  dispatch (toggle_owner_msg target) h = execute_toggle_owner world t c target h
  dispatch (update_story_msg story) h = execute_update_story world t c story h
  dispatch vote_again_msg h = execute_vote_again world t c h
  dispatch (toggle_backlog_mode_msg new_id) h = execute_toggle_backlog_mode world t c new_id h
  dispatch (add_story_msg new_id name) h = execute_add_story world t c new_id name h
  dispatch (remove_story_msg story_id) h = execute_remove_story world t c story_id h
  dispatch advance_story_msg h = execute_advance_story world t c h
  dispatch prev_story_msg h = execute_prev_story world t c h
  dispatch (select_story_msg story_id) h = execute_select_story world t c story_id h
  dispatch (reorder_story_msg story_id target) h = execute_reorder_story world t c story_id target h
