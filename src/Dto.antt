-- ===== src/Dto.antt =====
-- internal/application/planningpoker/usecase/dto/commands.go: the messages that the use cases send.
-- `slices.SortFunc`, which sorts in place, is the argument `sort`.
use planning_poker.Base.{
  ℕ, String, Bool, Option, none, some, List, map, str_eq, ◌==◌, if◌then◌else◌,
}
use planning_poker.Base.Int.{ℤ}
use planning_poker.Deck.{Deck}
use planning_poker.Room.{Client, Room, Story, Time, deck, optional_utc_time}
use planning_poker.Room.Backlog.{Outcome, returns, panics, effective_current_story}

pub record Participant : Type 0 where
  pub id : String
  pub name : String
  pub vote : Option String
  pub has_voted : Bool
  pub voted_at : Option Time
  pub is_spectator : Bool
  pub is_owner : Bool

pub record RoomState (F : Type 0) : Type 0 where
  pub started_at : Option Time
  pub deck : Deck
  pub current_story : String
  pub reveal : Bool
  pub participants : List Participant
  pub result : Option F
  pub most_appearing_votes : List String
  pub consensus : Option String
  pub lowest_vote : Option String
  pub highest_vote : Option String
  pub vote_range : Option ℤ
  pub vote_spread : Option ℤ
  pub special_vote_count : Option ℕ
  pub backlog_mode : Bool
  pub stories : List (Story F)
  pub current_story_index : ℤ
  pub room_version : ℕ

pub data ServerMessage (F : Type 0) : Type 0 where
  room_state : RoomState F → ServerMessage F
  update_client_id : String → ServerMessage F
  kicked : ServerMessage F

unfoldable pub optional_consensus : String → Option String
optional_consensus consensus = if str_eq consensus "" then none else some consensus

unfoldable pub optional_int : ℕ → Option ℕ
optional_int value = if value == 0 then none else some value

unfoldable pub to_participant : Client → Participant
to_participant c = record {
  id = c.id;
  name = c.name;
  vote = c.current_vote;
  has_voted = c.has_voted;
  voted_at = optional_utc_time c.voted_at;
  is_spectator = c.is_spectator;
  is_owner = c.is_owner;
}

unfoldable pub map_to_participants : List Client → List Participant
map_to_participants clients = map to_participant clients

module _ {F : Type 0} where
  -- The message for a room whose clients are sorted, with the current story that was read.
  unfoldable pub state_of : Room F → String → RoomState F
  state_of r story = record {
    started_at = optional_utc_time (some r.started_at);
    deck = deck r;
    current_story = story;
    reveal = r.reveal;
    participants = map_to_participants r.clients;
    result = r.result;
    most_appearing_votes = r.most_appearing_votes;
    consensus = optional_consensus r.consensus;
    lowest_vote = r.lowest_vote;
    highest_vote = r.highest_vote;
    vote_range = r.vote_range;
    vote_spread = r.vote_spread;
    special_vote_count = optional_int r.special_vote_count;
    backlog_mode = r.backlog_mode;
    stories = r.stories;
    current_story_index = r.current_story_index;
    room_version = r.room_version;
  }

  -- `MapToParticipants` sorts the slice of the room's own collection, so the room changes too.
  unfoldable pub new_room_state_command :
      (List Client → List Client) → Room F → Outcome (Room F × RoomState F)
  new_room_state_command sort r =
      let sorted = record r { clients = sort r.clients } in
      elim (effective_current_story r) [
        | panics ↦ panics
        | returns story ↦ returns (sorted, state_of sorted story)
      ]
