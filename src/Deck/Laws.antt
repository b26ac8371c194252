-- ===== src/Deck/Laws.antt =====
-- Membership in a list of cards, and the places of the cards of a deck.
use planning_poker.Base.{
  ℕ, zero, suc, String, ◌≡◌, refl, true, some, List, [], ◌∷◌, ◌++◌, arith, eq_iff, if◌then◌else◌,
}
use planning_poker.Deck.{
  Deck, contains, has_card, index_of, position, estimate_cards, until_special,
}

index_of-injective :
    (v w : String) (cs : List String) (i : ℕ)
    → index_of v cs ≡ some i
    → index_of w cs ≡ some i
    → v ≡ w
unfolding index_of
index_of-injective v w [] i p q = cc
index_of-injective v w (c ∷ cs) zero p q = ground (arith, eq_iff c v, eq_iff c w)
index_of-injective v w (c ∷ cs) (suc i) p q = ground (arith, index_of-injective v w cs i)

-- Two labels of one place are one.
pub position-injective :
    (d : Deck) (v w : String) (i : ℕ) → position d v ≡ some i → position d w ≡ some i → v ≡ w
unfolding position
position-injective d v w i p q = index_of-injective v w (estimate_cards d) i p q

contains-index_of :
    (v : String) (cs : List String) (i : ℕ)
    → index_of v (until_special cs) ≡ some i
    → contains cs v ≡ true
unfolding index_of until_special contains
contains-index_of v [] i p = cc
contains-index_of v (c ∷ cs) zero p = ground (arith, eq_iff c v)
contains-index_of v (c ∷ cs) (suc i) p = ground (arith, contains-index_of v cs i)

-- A label with a place is a card of the deck.
pub has_card_of_position :
    (d : Deck) (v : String) (i : ℕ) → position d v ≡ some i → has_card d v ≡ true
unfolding position estimate_cards has_card
has_card_of_position d v i p = contains-index_of v d.cards i p

pub contains-append :
    (xs ys : List String) (v : String)
    → contains (xs ++ ys) v ≡ (if contains xs v then true else contains ys v)
unfolding contains
contains-append [] ys v = refl
contains-append (x ∷ xs) ys v = ground (arith, contains-append xs ys v)
