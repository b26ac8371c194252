-- ===== src/Room/Consensus.antt =====
-- `calculateConsensus` of room_voting.go: the lowest and the highest vote, their distance, and how
-- far the votes agree.
use planning_poker.Base.{
  ℕ, ◌+◌, ◌*◌, ◌/◌, String, Bool, ◌&&◌, ◌||◌, Option, none, some, List, [], ◌∷◌, str_eq, leb,
  if◌then◌else◌, length,
}
use planning_poker.Base.Int.{ℤ, pos, negsuc, ◌-ℤ◌, ltb_ℤ, leb_ℤ, eqb_ℤ}
use planning_poker.Base.Maps.{StringMap}
use planning_poker.Base.Text.{atoi}
use planning_poker.Deck.{Deck, position}
use planning_poker.Room.Votes.{bump, get_most_vote_count}

pub record VoteSummary : Type 0 where
  pub consensus : String
  pub lowest_vote : Option String
  pub highest_vote : Option String
  pub vote_range : Option ℤ
  pub vote_spread : Option ℤ

unfoldable pub count_votes : List String → StringMap ℕ → StringMap ℕ
unfolding bump
count_votes [] m = m
count_votes (v ∷ vs) m = count_votes vs (bump v m)

-- The variables of the loop of `calculateConsensus`; -1 says that no vote was seen.
pub record Extremes : Type 0 where
  pub min_position : ℤ
  pub max_position : ℤ
  pub min_label : String
  pub max_label : String

unfoldable pub lower_min : ℕ → String → Extremes → Extremes
lower_min p vote e =
    if eqb_ℤ e.min_position (negsuc 0) || ltb_ℤ (pos p) e.min_position
    then record e { min_position = pos p; min_label = vote }
    else e

unfoldable pub raise_max : ℕ → String → Extremes → Extremes
raise_max p vote e =
    if ltb_ℤ e.max_position (pos p) then record e { max_position = pos p; max_label = vote } else e

unfoldable pub widen : Deck → String → Extremes → Extremes
unfolding lower_min raise_max
widen d vote e = elim (position d vote) [
  | none ↦ e
  | some p ↦ raise_max p vote (lower_min p vote e)
]

unfoldable pub extremes_from : Deck → Extremes → List String → Extremes
extremes_from d e [] = e
extremes_from d e (v ∷ vs) = extremes_from d (widen d v e) vs

unfoldable pub extremes : Deck → List String → Extremes
unfolding extremes_from
extremes d votes =
    extremes_from d
      (record { min_position = negsuc 0; max_position = negsuc 0; min_label = ""; max_label = "" })
      votes

unfoldable pub strong_majority : ℕ → ℕ → Bool
strong_majority most n = leb ((2 * n + 2) / 3) most

-- The `switch` of `calculateConsensus`.
unfoldable pub consensus_level : String → String → Bool → ℤ → String
consensus_level min_label max_label strong spread =
    if str_eq min_label max_label
    then "High"
    else if strong && leb_ℤ spread (pos 1)
    then "High"
    else if leb_ℤ spread (pos 2)
    then "Medium"
    else "Low"

unfoldable pub range_of : Option ℤ → Option ℤ → Option ℤ
range_of none _ = none
range_of (some a) none = none
range_of (some a) (some b) = some (b -ℤ a)

unfoldable pub summarize : List String → Extremes → VoteSummary
unfolding range_of
summarize votes e =
    let spread = e.max_position -ℤ e.min_position in
    record {
      consensus =
          consensus_level e.min_label e.max_label
            (strong_majority (get_most_vote_count (count_votes votes [])) (length votes)) spread;
      lowest_vote = some e.min_label;
      highest_vote = some e.max_label;
      vote_range = range_of (atoi e.min_label) (atoi e.max_label);
      vote_spread = some spread;
    }

abbrev pub unavailable : VoteSummary
unavailable = record {
  consensus = "Unavailable";
  lowest_vote = none;
  highest_vote = none;
  vote_range = none;
  vote_spread = none;
}

unfoldable pub calculate_consensus : Deck → List String → VoteSummary
calculate_consensus d [] = unavailable
calculate_consensus d (v ∷ vs) =
    let e = extremes d (v ∷ vs) in
    if eqb_ℤ e.min_position (negsuc 0) then unavailable else summarize (v ∷ vs) e
