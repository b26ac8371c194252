-- ===== src/Room/Votes.antt =====
-- The votes of a room as room_voting.go counts them: `collectVotes`, `getMostVoteCount` and
-- `mostAppearingVotes`. Go's maps are association lists, iterated in the order of the list.
use planning_poker.Base.{
  ℕ, ◌+◌, String, Option, none, some, List, [], ◌∷◌, ◌++◌, str_eq, ◌==◌, ltb, if◌then◌else◌,
}
use planning_poker.Base.Int.{ℤ}
use planning_poker.Base.Maps.{StringMap, lookup, insert}
use planning_poker.Base.Sorting.{sort_by}
use planning_poker.Base.Text.{atoi}
use planning_poker.Deck.{Deck, position}
use planning_poker.Float32.{Float32}
use planning_poker.Room.{Client}

pub record VoteMetrics (F : Type 0) : Type 0 where
  pub sum : F
  pub count : F
  pub counts : StringMap ℕ
  pub ordered : List String
  pub special_count : ℕ

abbrev pub or_zero : Option ℕ → ℕ
or_zero none = 0
or_zero (some n) = n

-- `counts[vote]++`
unfoldable pub bump : String → StringMap ℕ → StringMap ℕ
bump vote m = insert vote (or_zero (lookup vote m) + 1) m

module _ {F : Type 0} ⦃fl : Float32 F⦄ where
  unfoldable pub add_value : Option ℤ → VoteMetrics F → VoteMetrics F
  add_value none m = m
  add_value (some v) m = record m {
    sum = fl.add m.sum (fl.of_int v);
    count = fl.add m.count fl.one;
  }

  unfoldable pub tally : String → VoteMetrics F → VoteMetrics F
  tally vote m = record (add_value (atoi vote) m) {
    counts = bump vote m.counts;
    ordered = m.ordered ++ vote ∷ [];
  }

  unfoldable pub collect_label : Deck → String → VoteMetrics F → VoteMetrics F
  collect_label d vote m = if str_eq vote "" then m else elim (position d vote) [
    | none ↦ record m { special_count = m.special_count + 1 }
    | some _ ↦ tally vote m
  ]

  -- One round of the loop of `collectVotes`.
  unfoldable pub collect_client : Deck → Client → VoteMetrics F → VoteMetrics F
  collect_client d c m =
      if c.is_spectator
      then m
      else elim c.current_vote [ none ↦ m | some vote ↦ collect_label d vote m ]

  unfoldable pub collect_from : Deck → VoteMetrics F → List Client → VoteMetrics F
  collect_from d m [] = m
  collect_from d m (c ∷ cs) = collect_from d (collect_client d c m) cs

  unfoldable pub collect_votes : Deck → List Client → VoteMetrics F
  collect_votes d cs =
      collect_from d
        (record { sum = fl.zero; count = fl.zero; counts = []; ordered = []; special_count = 0 }) cs

-- The loop of `getMostVoteCount`.
unfoldable pub most_count_from : ℕ → StringMap ℕ → ℕ
most_count_from best [] = best
most_count_from best ((_, n) ∷ m) = most_count_from (if ltb best n then n else best) m

unfoldable pub get_most_vote_count : StringMap ℕ → ℕ
unfolding most_count_from
get_most_vote_count m = most_count_from 0 m

-- The loop of `mostAppearingVotes`.
unfoldable pub labels_with_count : ℕ → StringMap ℕ → List String
labels_with_count n [] = []
labels_with_count n ((vote, k) ∷ m) =
    let rest = labels_with_count n m in if k == n then vote ∷ rest else rest

-- `position, _ := deck.Position(vote)`
unfoldable pub position_or_zero : Deck → String → ℕ
position_or_zero d vote = or_zero (position d vote)

unfoldable pub most_appearing_votes : StringMap ℕ → ℕ → Deck → List String
unfolding labels_with_count sort_by position_or_zero
most_appearing_votes votes n d = sort_by (position_or_zero d) (labels_with_count n votes)
