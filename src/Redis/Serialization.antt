-- ===== src/Redis/Serialization.antt =====
-- internal/infra/boundaries/hub/redis/serialization.go: a room as the struct that is marshalled, and
-- back. `encoding/json` is the interface `Json`.
pub mod Laws
use planning_poker.Base.{
  ℕ, String, Bool, Option, none, some, List, [], ◌∷◌, ◌++◌, map, str_eq, if◌then◌else◌, ◌+◌, ◌≡◌,
}
use planning_poker.Base.Int.{ℤ, pos}
pub use planning_poker.DomainError.{Result, ok, err}
use planning_poker.DomainError.{Error, plain, int}
use planning_poker.Room.{
  Client, Room, Story, Time, new_room_with_id_and_started_at, optional_utc_time, utc_time_or_zero,
}
use planning_poker.Room.Clients.{add}

pub record SerializedStory (F : Type 0) : Type 0 where
  pub id : String
  pub name : String
  pub result : Option F
  pub most_appearing_votes : List String
  pub voted : Bool

pub record SerializedClient : Type 0 where
  pub id : String
  pub name : String
  pub current_vote : Option String
  pub has_voted : Bool
  pub voted_at : Option Time
  pub is_spectator : Bool
  pub is_owner : Bool

pub record SerializedRoom (F : Type 0) : Type 0 where
  pub id : String
  pub started_at : Option Time
  pub clients : List SerializedClient
  pub deck_type : String
  pub current_story : String
  pub reveal : Bool
  pub result : Option F
  pub most_appearing_votes : List String
  pub consensus : String
  pub lowest_vote : Option String
  pub highest_vote : Option String
  pub vote_range : Option ℤ
  pub vote_spread : Option ℤ
  pub special_vote_count : ℕ
  pub backlog_mode : Bool
  pub stories : List (SerializedStory F)
  pub current_story_index : ℤ
  pub room_version : ℕ

-- `json.Marshal` and `json.Unmarshal` at the type of the struct. A number that JSON does not have
-- makes the first fail.
pub record Json (F D : Type 0) : Type 0 where
  pub marshal : SerializedRoom F → Option D
  pub unmarshal : D → Option (SerializedRoom F)

-- What is marshalled is read again.
pub record IsFaithful {F D : Type 0} (js : Json F D) : Type 0 where
  pub reads : (s : SerializedRoom F) (d : D) → js.marshal s ≡ some d → js.unmarshal d ≡ some s

-- `SerializedClient.Client`
unfoldable pub to_client : SerializedClient → Client
to_client sc = record {
  id = sc.id;
  name = sc.name;
  current_vote = sc.current_vote;
  has_voted = sc.has_voted;
  voted_at = optional_utc_time sc.voted_at;
  is_spectator = sc.is_spectator;
  is_owner = sc.is_owner;
}

unfoldable pub serialize_client : Client → SerializedClient
serialize_client c = record {
  id = c.id;
  name = c.name;
  current_vote = c.current_vote;
  has_voted = c.has_voted;
  voted_at = optional_utc_time c.voted_at;
  is_spectator = c.is_spectator;
  is_owner = c.is_owner;
}

-- The loop that adds the clients to the collection of the new room.
unfoldable pub add_clients : List SerializedClient → List Client → List Client
add_clients [] cs = cs
add_clients (sc ∷ scs) cs = add_clients scs (add (to_client sc) cs)

unfoldable pub missing_id : ℕ → Error
missing_id i = plain "story at index %d is missing an ID" (int (pos i) ∷ [])

module _ {F : Type 0} where
  unfoldable pub serialize_story : Story F → SerializedStory F
  serialize_story s = record {
    id = s.id;
    name = s.name;
    result = s.result;
    most_appearing_votes = s.most_appearing_votes;
    voted = s.voted;
  }

  unfoldable pub to_story : SerializedStory F → Story F
  to_story s = record {
    id = s.id;
    name = s.name;
    result = s.result;
    most_appearing_votes = s.most_appearing_votes;
    voted = s.voted;
  }

  -- The struct that `SerializeRoom` marshals.
  unfoldable pub serialized : Room F → SerializedRoom F
  serialized r = record {
    id = r.id;
    started_at = optional_utc_time (some r.started_at);
    clients = map serialize_client r.clients;
    deck_type = r.deck_type;
    current_story = r.current_story;
    reveal = r.reveal;
    result = r.result;
    most_appearing_votes = r.most_appearing_votes;
    consensus = r.consensus;
    lowest_vote = r.lowest_vote;
    highest_vote = r.highest_vote;
    vote_range = r.vote_range;
    vote_spread = r.vote_spread;
    special_vote_count = r.special_vote_count;
    backlog_mode = r.backlog_mode;
    stories = map serialize_story r.stories;
    current_story_index = r.current_story_index;
    room_version = r.room_version;
  }

  -- The loop of `deserializeStories`, from the index `i`.
  unfoldable pub stories_from : ℕ → List (SerializedStory F) → Result (List (Story F))
  stories_from i [] = ok []
  stories_from i (s ∷ ss) =
      let rest = stories_from (i + 1) ss in
      if str_eq s.id ""
      then err (missing_id i)
      else elim rest [ ok stories ↦ ok (to_story s ∷ stories) | err e ↦ err e ]

  -- `DeserializeRoom` after the text is read, with the stories that were checked.
  unfoldable pub rebuilt : SerializedRoom F → List (Story F) → Room F
  rebuilt s stories =
      let fresh : Room F =
        new_room_with_id_and_started_at s.id [] (utc_time_or_zero s.started_at) in
      record fresh {
        deck_type = s.deck_type;
        current_story = s.current_story;
        reveal = s.reveal;
        result = s.result;
        most_appearing_votes = s.most_appearing_votes;
        consensus = s.consensus;
        lowest_vote = s.lowest_vote;
        highest_vote = s.highest_vote;
        vote_range = s.vote_range;
        vote_spread = s.vote_spread;
        special_vote_count = s.special_vote_count;
        backlog_mode = s.backlog_mode;
        stories = stories;
        current_story_index = s.current_story_index;
        room_version = s.room_version;
        clients = add_clients s.clients fresh.clients;
      }

  unfoldable pub deserialize : SerializedRoom F → Result (Room F)
  deserialize s = elim (stories_from 0 s.stories) [
    | ok stories ↦ ok (rebuilt s stories)
    | err e ↦ err e
  ]

module _ {F D : Type 0} (js : Json F D) where
  unfoldable pub serialize_room : Room F → Option D
  serialize_room r = js.marshal (serialized r)

  -- A text that is no room of the type is an error of `json.Unmarshal`.
  unfoldable pub deserialize_room : D → Result (Room F)
  deserialize_room d = elim (js.unmarshal d) [
    | none ↦ err (plain "unmarshal" [])
    | some s ↦ deserialize s
  ]
