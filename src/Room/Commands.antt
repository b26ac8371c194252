-- ===== src/Room/Commands.antt =====
-- The methods of the aggregate that change a room, as data: one constructor for each, with the
-- arguments that vary. The sort of the clients by `NewRoomStateCommand` is in Dto.
use planning_poker.Base.{String, Option, none, List, [], ◌∷◌}
use planning_poker.Base.Int.{ℤ}
use planning_poker.Float32.{Float32}
use planning_poker.Room.{Clock, Room, pull_events}
use planning_poker.Room.Guards.{Reply}
use planning_poker.Room.Presence.{
  new_client_in, remove_client, update_client_name, toggle_owner, admin_toggle_owner,
  toggle_spectator,
}
use planning_poker.Room.Voting.{vote, toggle_reveal, reset_voting}
use planning_poker.Room.Backlog.{Outcome, returns, panics, add_story, set_current_story}
use planning_poker.Room.BacklogMoves.{
  toggle_backlog_mode, reorder_story, remove_story, select_story, advance_to_next_story, prev_story,
}

-- What a client asks for; its own identifier is an argument of `perform`.
pub data Request : Type 0 where
  votes : Option String → Request
  renames_self : String → Request
  toggles_spectator toggles_owner : String → Request
  toggles_reveal resets advances goes_back : Request
  toggles_backlog : String → Request
  adds_story : String → String → Request
  removes_story selects_story sets_story : String → Request
  reorders_story : String → ℤ → Request

pub data Command : Type 0 where
  asks : String → Request → Command
  joins leaves administers : String → Command
  pulls : Command

module _ {F : Type 0} where
  -- The room that stands after a call; a panic leaves it alone.
  abbrev pub after : Room F → Outcome (Reply F) → Room F
  after r panics = r
  after r (returns (s, _)) = s

module _ {F : Type 0} ⦃fl : Float32 F⦄ where
  unfoldable pub perform : Clock → String → Request → Room F → Outcome (Reply F)
  perform t id (votes v) r = returns (vote t id v r)
  perform t id (renames_self name) r = returns (update_client_name id name r)
  perform t id (toggles_spectator target) r = returns (toggle_spectator t id target r)
  perform t id (toggles_owner target) r = returns (toggle_owner id target r)
  perform t id toggles_reveal r = returns (toggle_reveal t id r)
  perform t id resets r = returns (reset_voting t id r)
  perform t id advances r = returns (advance_to_next_story t id r)
  perform t id goes_back r = returns (prev_story t id r)
  perform t id (toggles_backlog new_id) r = toggle_backlog_mode new_id id r
  perform t id (adds_story new_id name) r = returns (add_story new_id id name r)
  perform t id (removes_story story_id) r = returns (remove_story t id story_id r)
  perform t id (selects_story story_id) r = select_story t id story_id r
  perform t id (sets_story story) r = returns (set_current_story id story r)
  perform t id (reorders_story story_id target) r = returns (reorder_story id story_id target r)

  unfoldable pub execute : Clock → Command → Room F → Outcome (Reply F)
  unfolding perform
  execute t (asks id request) r = perform t id request r
  execute t (joins id) r = returns (new_client_in id r, none)
  execute t (leaves id) r = returns (remove_client t id r, none)
  execute t (administers target) r = returns (admin_toggle_owner target r)
  execute t pulls r = returns ((pull_events r).1, none)

  unfoldable pub run : Room F → List (Clock × Command) → Room F
  run r [] = r
  run r ((t, c) ∷ cs) = run (after r (execute t c r)) cs
