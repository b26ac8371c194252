-- ===== src/Deck.antt =====
-- internal/domain/entity/deck.go. A deck is a value, so `clone` is the value itself.
pub mod Laws
use planning_poker.Base.{
  ℕ, suc, String, ◌≡◌, refl, Bool, true, false, Option, none, some, List, [], ◌∷◌, str_eq,
  if◌then◌else◌,
}

pub record Deck : Type 0 where
  pub id : String
  pub name : String
  pub kind : String
  pub cards : List String

abbrev pub special_vote_unknown : String
special_vote_unknown = "?"

abbrev pub special_vote_coffee : String
special_vote_coffee = "☕"

abbrev pub special_deck_cards : List String
special_deck_cards = special_vote_unknown ∷ special_vote_coffee ∷ []

unfoldable pub fibonacci_deck : Deck
fibonacci_deck = record {
  id = "fibonacci";
  name = "Fibonacci";
  kind = "numeric";
  cards = "0" ∷ "1" ∷ "2" ∷ "3" ∷ "5" ∷ "8" ∷ "13" ∷ "21" ∷ "34" ∷ "55" ∷ "89" ∷ special_deck_cards;
}

unfoldable pub t_shirt_deck : Deck
t_shirt_deck = record {
  id = "t-shirt";
  name = "T-shirt";
  kind = "categorical";
  cards = "XS" ∷ "S" ∷ "M" ∷ "L" ∷ "XL" ∷ "XXL" ∷ special_deck_cards;
}

unfoldable pub decks : List Deck
unfolding fibonacci_deck t_shirt_deck
decks = fibonacci_deck ∷ t_shirt_deck ∷ []

unfoldable pub find_deck : String → List Deck → Option Deck
find_deck deck_type [] = none
find_deck deck_type (d ∷ ds) = if str_eq d.id deck_type then some d else find_deck deck_type ds

unfoldable pub deck_by_type : String → Option Deck
unfolding find_deck decks
deck_by_type deck_type = find_deck deck_type decks

abbrev or_default : Option Deck → Deck
or_default none = fibonacci_deck
or_default (some d) = d

unfoldable pub deck_for_type : String → Deck
unfolding deck_by_type
deck_for_type deck_type = or_default (deck_by_type deck_type)

-- `slices.Contains`
unfoldable pub contains : List String → String → Bool
contains [] v = false
contains (c ∷ cs) v = if str_eq c v then true else contains cs v

unfoldable pub has_card : Deck → String → Bool
unfolding contains
has_card d vote = contains d.cards vote

unfoldable pub is_special : String → Bool
unfolding contains
is_special vote = contains special_deck_cards vote

-- The loop of `EstimateCards`, which breaks at the first special card.
unfoldable pub until_special : List String → List String
unfolding is_special
until_special [] = []
until_special (c ∷ cs) = let rest = until_special cs in if is_special c then [] else c ∷ rest

unfoldable pub estimate_cards : Deck → List String
unfolding until_special
estimate_cards d = until_special d.cards

-- The loop of `Position`.
unfoldable pub index_of : String → List String → Option ℕ
index_of vote [] = none
index_of vote (c ∷ cs) =
    let later = index_of vote cs in
    if str_eq c vote then some 0 else elim later [ none ↦ none | some i ↦ some (suc i) ]

unfoldable pub position : Deck → String → Option ℕ
unfolding estimate_cards index_of
position d vote = index_of vote (estimate_cards d)

decks_run :
    (position fibonacci_deck "13" ≡ some 6)
    × (position fibonacci_deck "☕" ≡ none)
    × (has_card t_shirt_deck "?" ≡ true)
    × (deck_by_type "other" ≡ none)
unfolding position fibonacci_deck t_shirt_deck has_card deck_by_type
decks_run = (refl, refl, refl, refl)
