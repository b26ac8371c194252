-- ===== src/Room/Invariant.antt =====
-- What holds of a room between two calls.
pub mod People
pub mod Steps
pub mod Methods
pub mod Places
pub mod Moves
pub mod Choices
pub mod Runs
use planning_poker.Base.{
  ℕ, ◌-◌, ◌≤◌, ◌<◌, ◌≡◌, Bool, true, false, Option, none, some, List, [], length, All,
}
use planning_poker.Base.Int.{ℤ, pos, negsuc}
use planning_poker.Deck.{Deck}
use planning_poker.Room.{Client, Room, deck, is_cast}
use planning_poker.Room.Clients.{owners}
use planning_poker.Room.Voting.{is_allowed}

-- The index of the current story: 0 if there is none, and otherwise a place of the backlog.
abbrev pub InBounds : ℤ → ℕ → Type 0
InBounds (pos i) n = i ≤ n - 1
InBounds (negsuc i) n = ⊥

abbrev pub is_some {ℓ} : {A : Type ℓ} → Option A → Bool
is_some none = false
is_some (some _) = true

-- A client's flags say whether its vote is cast, and a vote that is cast is a card.
pub record IsHonest (d : Deck) (c : Client) : Type 0 where
  pub voted : c.has_voted ≡ is_cast c.current_vote
  pub stamped : is_some c.voted_at ≡ c.has_voted
  pub card : is_allowed c.current_vote d ≡ true

abbrev pub IsOwned : List Client → Type 0
IsOwned cs = 0 < length cs → 0 < length (owners cs)

-- No part of a summary shows.
pub record IsCleared {F : Type 0} (r : Room F) : Type 0 where
  pub result : r.result ≡ none
  pub most_appearing_votes : r.most_appearing_votes ≡ []
  pub consensus : r.consensus ≡ ""
  pub lowest_vote : r.lowest_vote ≡ none
  pub highest_vote : r.highest_vote ≡ none
  pub vote_range : r.vote_range ≡ none
  pub vote_spread : r.vote_spread ≡ none
  pub special_vote_count : r.special_vote_count ≡ 0

pub record IsValid {F : Type 0} (r : Room F) : Type 0 where
  pub in_bounds : InBounds r.current_story_index (length r.stories)
  pub plain : r.backlog_mode ≡ false → r.stories ≡ []
  pub owned : IsOwned r.clients
  pub honest : All (IsHonest (deck r)) r.clients
  pub hidden : r.reveal ≡ false → IsCleared r
