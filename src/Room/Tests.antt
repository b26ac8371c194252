-- ===== src/Room/Tests.antt =====
-- Runs of the room's methods at fixed inputs, and the theorems at inputs where they apply.
use planning_poker.Base.{
  All, Any, ◌⊎◌, ℕ, ◌+◌, ◌*◌, ◌/◌, ◌≤◌, ◌<◌, String, ◌≡◌, ◌↔◌, refl, true, false, none, some, List,
  [], ◌∷◌, ◌++◌, ltb,
}
use planning_poker.Base.Int.{ℤ, pos}
use planning_poker.Deck.{
  fibonacci_deck, has_card, contains, position, index_of, deck_for_type, deck_by_type, decks,
  find_deck, estimate_cards, until_special, is_special,
}
use planning_poker.DomainError.{Error}
use planning_poker.Float32.{Float32}
use planning_poker.Room.{
  Client, Clock, Event, Room, Time, new_room_with_id_and_deck, deck, is_cast, utc, vote_cast,
}
use planning_poker.Room.Clients.{find_client, find}
use planning_poker.Room.Reveal.{reveal, show_summary}
use planning_poker.Room.Presence.{remove_client}
use planning_poker.Room.Voting.{vote}
use planning_poker.Room.Backlog.{returns, effective_current_story}
use planning_poker.Room.Consensus.{strong_majority, calculate_consensus}
use planning_poker.Room.Commands.{
  Command, asks, joins, leaves, adds_story, votes, toggles_reveal, perform, execute, run,
}
use planning_poker.Room.Invariant.{IsValid}
use planning_poker.Room.Invariant.Runs.{IsReturned, run_new_room-IsSafe}
use planning_poker.Room.Permissions.{IsRefusal, perform-refused}
use planning_poker.Room.Rounds.{vote-hidden, ShowsIfAll}
use planning_poker.Room.Events.{reveal-hidden, Estimates, OnlyShows}
use planning_poker.Room.Leaving.{remove_client-owners, IsRest, IsOwned}
use planning_poker.Room.Places.{Found, IsFinished, IsWaiting}
use planning_poker.Room.Tally.{placed_votes, occurs}
use planning_poker.Room.Winners.{show_summary-winners}
use planning_poker.Room.Span.{IsSummary, calculate_consensus-IsSummary, strong_majority_iff}

-- A number type that serves for runs: whole numbers, with the quotient rounded down.
abbrev pub int_part : ℤ → ℕ
int_part (pos n) = n
int_part _ = 0

abbrev pub midnight : Time
midnight = record { instant = 1000; zone = 0 }

abbrev pub clock : Clock
clock = record {
  voted_at = midnight;
  cast_at = midnight;
  revealed_at = midnight;
  estimated_at = midnight;
  selected_at = midnight;
}

instance abbrev pub whole : Float32 ℕ
whole = record {
  zero = 0;
  one = 1;
  of_int = int_part;
  add = λ a b. a + b;
  div = λ a b. a / b;
  lt = ltb;
}

abbrev fresh : Room ℕ
fresh = new_room_with_id_and_deck "r" [] "fibonacci" midnight

abbrev script : List (Clock × Command)
script =
    (clock, joins "a")
    ∷ (clock, joins "b")
    ∷ (clock, asks "a" (adds_story "s1" "login"))
    ∷ (clock, asks "a" (votes (some "3")))
    ∷ (clock, asks "b" (votes (some "8")))
    ∷ []

run_new_room-IsSafe_example :
    IsValid (run fresh script)
    × IsReturned (execute clock (leaves "a") (run fresh script))
    × IsReturned (effective_current_story (run fresh script))
run_new_room-IsSafe_example = run_new_room-IsSafe "r" "fibonacci" midnight script clock (leaves "a")

abbrev pub ann : Client
ann = record {
  id = "a";
  name = "Ann";
  current_vote = none;
  has_voted = false;
  voted_at = none;
  is_spectator = false;
  is_owner = true;
}

abbrev pub bob : Client
bob = record {
  id = "b";
  name = "Bob";
  current_vote = some "8";
  has_voted = true;
  voted_at = some midnight;
  is_spectator = false;
  is_owner = false;
}

abbrev pub table : Room ℕ
table = record {
  id = "r";
  started_at = midnight;
  clients = ann ∷ bob ∷ [];
  deck_type = "fibonacci";
  current_story = "";
  reveal = false;
  result = none;
  most_appearing_votes = [];
  consensus = "";
  lowest_vote = none;
  highest_vote = none;
  vote_range = none;
  vote_spread = none;
  special_vote_count = 0;
  backlog_mode = true;
  stories = [];
  current_story_index = pos 0;
  room_version = 0;
  events = [];
}

abbrev shown_table : Room ℕ
shown_table = record table { reveal = true }

perform-refused_example :
    (e : Error) × (perform clock "b" toggles_reveal table ≡ returns (table, some e)) × IsRefusal e
perform-refused_example =
    perform-refused clock "b" toggles_reveal table refl (unfold find_client find in refl)

vote-hidden_example :
    let (s, error) = vote clock "a" (some "3") table in
    (error ≡ none)
    × ((f : Found "a" table.clients) × (f.client ≡ ann)
        × (s.clients
            ≡ f.before
              ++ record ann {
                current_vote = some "3";
                has_voted = true;
                voted_at = some (utc clock.voted_at);
              }
                ∷ f.after))
    × ((more : List (Event ℕ)) × (s.events
          ≡ (table.events ++ vote_cast table.id "a" "3" (utc clock.cast_at) ∷ []) ++ more)
        × ShowsIfAll clock table s more)
vote-hidden_example =
    vote-hidden clock "a" "3" table ann refl (unfold find_client find in refl)
      (unfold is_cast in refl)
      (unfold has_card contains deck deck_for_type deck_by_type find_deck decks fibonacci_deck in
        refl)

reveal-hidden_example :
    let s = reveal clock true table in
    (s.reveal ≡ true) × (Estimates clock table s ⊎ OnlyShows clock table s)
reveal-hidden_example = reveal-hidden clock table refl

remove_client-owners_example :
    let s = remove_client clock "a" table in
    (rest : List Client) × IsRest "a" table.clients rest
    × IsOwned rest s.clients
    × (((s.reveal ≡ true) × All IsFinished s.clients)
        ⊎ ((s.reveal ≡ table.reveal) × Any IsWaiting s.clients))
remove_client-owners_example = remove_client-owners clock "a" table

show_summary-winners_example :
    let vs = placed_votes (deck shown_table) shown_table.clients in
    (0 < occurs "8" (show_summary shown_table).most_appearing_votes)
    ↔ ((0 < occurs "8" vs) × ((w : String) → occurs w vs ≤ occurs "8" vs))
show_summary-winners_example = show_summary-winners ℕ shown_table "8"

calculate_consensus-IsSummary_example :
    IsSummary fibonacci_deck ("3" ∷ "8" ∷ []) (calculate_consensus fibonacci_deck ("3" ∷ "8" ∷ []))
calculate_consensus-IsSummary_example =
    calculate_consensus-IsSummary fibonacci_deck "3" ("8" ∷ []) (
      (
        3,
        unfold position index_of estimate_cards until_special is_special contains fibonacci_deck in
            refl,
      ),
      (
        (
          5,
          unfold position index_of estimate_cards until_special is_special contains
                fibonacci_deck in
              refl,
        ),
        tt,
      ),
    )

strong_majority_iff_example : (strong_majority 2 3 ≡ true) ↔ (2 * 3 ≤ 3 * 2)
strong_majority_iff_example = strong_majority_iff 2 3
