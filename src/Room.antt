-- ===== src/Room.antt =====
-- The room aggregate of internal/domain/entity: room.go, client.go, story.go, event.go, vote.go,
-- ids.go, roomversion.go and time.go. The collection of clients (clientcollection.go) is the list
-- of them in the order of its slice. The room's methods are in the modules below.
pub mod Clients
pub mod Votes
pub mod Consensus
pub mod Reveal
pub mod Guards
pub mod Presence
pub mod Voting
pub mod Backlog
pub mod BacklogMoves
pub mod Commands
pub mod Frame
pub mod Places
pub mod Invariant
pub mod Permissions
pub mod Rounds
pub mod Events
pub mod Identity
pub mod Leaving
pub mod Tally
pub mod Winners
pub mod Span
pub mod Tests
use planning_poker.Base.{
  ℕ, ◌+◌, ◌%◌, ◌^◌, String, Bool, true, false, not, Option, none, some, List, [], ◌∷◌, ◌++◌, str_eq,
  ◌==◌, if◌then◌else◌,
}
use planning_poker.Base.Int.{ℤ, pos}
use planning_poker.Deck.{Deck, deck_for_type}

-- An instant, in nanoseconds from the zero time, and the zone in which it is shown (0 is UTC).
pub record Time : Type 0 where
  pub instant : ℕ
  pub zone : ℕ

abbrev pub utc : Time → Time
utc t = record t { zone = 0 }

unfoldable pub optional_utc_time : Option Time → Option Time
optional_utc_time none = none
optional_utc_time (some t) = if t.instant == 0 then none else some (utc t)

unfoldable pub utc_time_or_zero : Option Time → Time
utc_time_or_zero none = record { instant = 0; zone = 0 }
utc_time_or_zero (some t) = if t.instant == 0 then record { instant = 0; zone = 0 } else utc t

-- What `time.Now()` returns at each place of a method that reads it.
pub record Clock : Type 0 where
  pub voted_at : Time
  pub cast_at : Time
  pub revealed_at : Time
  pub estimated_at : Time
  pub selected_at : Time

pub record Client : Type 0 where
  pub id : String
  pub name : String
  pub current_vote : Option String
  pub has_voted : Bool
  pub voted_at : Option Time
  pub is_spectator : Bool
  pub is_owner : Bool

unfoldable pub new_client : String → Client
new_client id = record {
  id = id;
  name = "";
  current_vote = none;
  has_voted = false;
  voted_at = none;
  is_spectator = false;
  is_owner = false;
}

-- `vote != nil && !vote.IsEmpty()`
unfoldable pub is_cast : Option String → Bool
is_cast none = false
is_cast (some v) = not (str_eq v "")

-- `(*Client).applyVote`
unfoldable pub mark_vote : Clock → Option String → Client → Client
mark_vote t vote c =
    if is_cast vote
    then record c { current_vote = vote; has_voted = true; voted_at = some (utc t.voted_at) }
    else record c { current_vote = vote; has_voted = false; voted_at = none }

unfoldable pub update_name : String → Client → Client
update_name name c = record c { name = name }

pub record Story (F : Type 0) : Type 0 where
  pub id : String
  pub name : String
  pub result : Option F
  pub most_appearing_votes : List String
  pub voted : Bool

unfoldable pub new_story : {F : Type 0} → String → String → Story F
new_story id name = record {
  id = id;
  name = name;
  result = none;
  most_appearing_votes = [];
  voted = false;
}

-- The domain events, with the fields that their struct has.
pub data Event (F : Type 0) : Type 0 where
  vote_cast : String → String → String → Time → Event F
  votes_revealed : String → Option F → String → Time → Event F
  story_selected : String → String → Time → Event F
  story_estimated : String → String → Option F → Time → Event F

unfoldable pub event_name : {F : Type 0} → Event F → String
event_name (vote_cast _ _ _ _) = "vote-cast"
event_name (votes_revealed _ _ _ _) = "votes-revealed"
event_name (story_selected _ _ _) = "story-selected"
event_name (story_estimated _ _ _ _) = "story-estimated"

-- A nil slice and an empty one are one list.
pub record Room (F : Type 0) : Type 0 where
  pub id : String
  pub started_at : Time
  pub clients : List Client
  pub deck_type : String
  pub current_story : String
  pub reveal : Bool
  pub result : Option F
  pub most_appearing_votes : List String
  pub consensus : String
  pub lowest_vote : Option String
  pub highest_vote : Option String
  pub vote_range : Option ℤ
  pub vote_spread : Option ℤ
  pub special_vote_count : ℕ
  pub backlog_mode : Bool
  pub stories : List (Story F)
  pub current_story_index : ℤ
  pub room_version : ℕ
  pub events : List (Event F)

module _ {F : Type 0} where
  unfoldable pub new_room_with_id_and_started_at : String → List Client → Time → Room F
  new_room_with_id_and_started_at id clients started_at = record {
    id = id;
    started_at = utc started_at;
    clients = clients;
    deck_type = "fibonacci";
    current_story = "";
    reveal = false;
    result = none;
    most_appearing_votes = [];
    consensus = "";
    lowest_vote = none;
    highest_vote = none;
    vote_range = none;
    vote_spread = none;
    special_vote_count = 0;
    backlog_mode = true;
    stories = [];
    current_story_index = pos 0;
    room_version = 0;
    events = [];
  }

  unfoldable pub new_room_with_id_and_deck : String → List Client → String → Time → Room F
  unfolding new_room_with_id_and_started_at
  new_room_with_id_and_deck id clients deck_type now =
      record (new_room_with_id_and_started_at id clients (utc now)) { deck_type = deck_type }

  unfoldable pub deck : Room F → Deck
  deck r = deck_for_type r.deck_type

  unfoldable pub record_event : Event F → Room F → Room F
  record_event e r = record r { events = r.events ++ e ∷ [] }

  -- The drained events, and the room without them.
  unfoldable pub pull_events : Room F → List (Event F) × Room F
  pull_events r = (r.events, record r { events = [] })

-- `RoomVersion.Next`, on 64 bits.
unfoldable pub next_version : ℕ → ℕ
next_version v = (v + 1) % 2 ^ 64
