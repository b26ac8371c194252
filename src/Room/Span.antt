-- ===== src/Room/Span.antt =====
-- What the consensus says of the votes: the lowest and the highest of them, and the level.
use planning_poker.Base.{
  ℕ, ◌*◌, ◌-◌, ◌≤◌, String, ◌≡◌, refl, ◌↔◌, ◌⊎◌, inl, true, ◌&&◌, some, List, [], ◌∷◌, arith,
  eq_iff, if◌then◌else◌, length, All, ap, ◌==◌, leb,
}
use planning_poker.Base.Int.{pos, negsuc, ◌-ℤ◌}
use planning_poker.Deck.{Deck, position, contains}
use planning_poker.Deck.Laws.{position-injective}
use planning_poker.Room.Votes.{get_most_vote_count}
use planning_poker.Room.Consensus.{
  Extremes, VoteSummary, lower_min, raise_max, widen, extremes_from, extremes, strong_majority,
  consensus_level, summarize, calculate_consensus, count_votes,
}

-- The strong majority is two thirds of the votes, with no rounding.
pub strong_majority_iff : (most n : ℕ) → (strong_majority most n ≡ true) ↔ (2 * n ≤ 3 * most)
unfolding strong_majority
strong_majority_iff most n = ground arith

abbrev pub HasPlace : Deck → String → Type 0
HasPlace d v = (k : ℕ) × (position d v ≡ some k)

-- A vote whose place lies between two places.
abbrev pub Within : Deck → ℕ → ℕ → String → Type 0
Within d lo hi v = (k : ℕ) × (position d v ≡ some k) × (lo ≤ k) × (k ≤ hi)

-- The variables of the loop once a vote was seen.
pub record Spans (d : Deck) (e : Extremes) (lo hi : ℕ) : Type 0 where
  pub min_at : e.min_position ≡ pos lo
  pub max_at : e.max_position ≡ pos hi
  pub min_label : position d e.min_label ≡ some lo
  pub max_label : position d e.max_label ≡ some hi
  pub ordered : lo ≤ hi

abbrev smaller : ℕ → ℕ → ℕ
smaller a b = if leb a b then a else b

abbrev larger : ℕ → ℕ → ℕ
larger a b = if leb a b then b else a

widen-Spans :
    (d : Deck) (v : String) (e : Extremes) (lo hi k : ℕ)
    → Spans d e lo hi
    → position d v ≡ some k
    → Spans d (widen d v e) (smaller lo k) (larger hi k)
unfolding widen lower_min raise_max
widen-Spans d v e lo hi k s p = ground arith

widen-labels :
    (d : Deck) (v : String) (e : Extremes)
    → (((widen d v e).min_label ≡ e.min_label) ⊎ ((widen d v e).min_label ≡ v))
      × (((widen d v e).max_label ≡ e.max_label) ⊎ ((widen d v e).max_label ≡ v))
unfolding widen lower_min raise_max
widen-labels d v e = ground arith

-- The loop from variables that span `lo` to `hi`.
record Covers (d : Deck) (vs : List String) (lo hi : ℕ) (e f : Extremes) : Type 0 where
  low : ℕ
  high : ℕ
  spans : Spans d f low high
  below : low ≤ lo
  above : hi ≤ high
  within : All (Within d low high) vs
  min_of : (f.min_label ≡ e.min_label) ⊎ (contains vs f.min_label ≡ true)
  max_of : (f.max_label ≡ e.max_label) ⊎ (contains vs f.max_label ≡ true)

extremes_from-Covers :
    (d : Deck) (vs : List String) (lo hi : ℕ) (e : Extremes)
    → Spans d e lo hi
    → All (HasPlace d) vs
    → Covers d vs lo hi e (extremes_from d e vs)
unfolding extremes_from contains
extremes_from-Covers d [] lo hi e s h = record {
  low = lo;
  high = hi;
  spans = s;
  below = omega arith;
  above = omega arith;
  within = tt;
  min_of = inl refl;
  max_of = inl refl;
}
extremes_from-Covers d (v ∷ vs) lo hi e s ((k, p), h) =
    let c =
      extremes_from-Covers d vs (smaller lo k) (larger hi k) (widen d v e)
        (widen-Spans d v e lo hi k s p) h in
    record {
      low = c.low;
      high = c.high;
      spans = c.spans;
      below = ground (arith, c.below);
      above = ground (arith, c.above);
      within = ((k, p, ground (arith, c.below), ground (arith, c.above)), c.within);
      min_of = ground (
        arith,
        c.min_of,
        (widen-labels d v e).0,
        eq_iff v (extremes_from d (widen d v e) vs).min_label,
      );
      max_of = ground (
        arith,
        c.max_of,
        (widen-labels d v e).1,
        eq_iff v (extremes_from d (widen d v e) vs).max_label,
      );
    }

-- The consensus of votes that all have a place, and are at least one.
pub record IsSummary (d : Deck) (votes : List String) (s : VoteSummary) : Type 0 where
  pub lowest : String
  pub highest : String
  pub low : ℕ
  pub high : ℕ
  pub lowest_vote : s.lowest_vote ≡ some lowest
  pub highest_vote : s.highest_vote ≡ some highest
  pub lowest_cast : contains votes lowest ≡ true
  pub highest_cast : contains votes highest ≡ true
  pub lowest_place : position d lowest ≡ some low
  pub highest_place : position d highest ≡ some high
  pub within : All (Within d low high) votes
  pub spread : s.vote_spread ≡ some (pos (high - low))
  pub level : s.consensus ≡ (
      if high == low
      then "High"
      else if leb (2 * length votes) (3 * get_most_vote_count (count_votes votes []))
          && leb (high - low) 1
      then "High"
      else if leb (high - low) 2
      then "Medium"
      else "Low")

abbrev unseen : Extremes
unseen = record { min_position = negsuc 0; max_position = negsuc 0; min_label = ""; max_label = "" }

first_vote :
    (d : Deck) (v : String) (k : ℕ) → position d v ≡ some k → Spans d (widen d v unseen) k k
unfolding widen lower_min raise_max
first_vote d v k p = ground arith

first_label :
    (d : Deck) (v : String) (k : ℕ)
    → position d v ≡ some k
    → ((widen d v unseen).min_label ≡ v) × ((widen d v unseen).max_label ≡ v)
unfolding widen lower_min raise_max
first_label d v k p = ground arith

consensus_level-eq :
    (d : Deck) (e : Extremes) (low high most n : ℕ)
    → Spans d e low high
    → consensus_level e.min_label e.max_label
        (strong_majority most n)
        (e.max_position -ℤ e.min_position)
      ≡ (if high == low
          then "High"
          else if leb (2 * n) (3 * most) && leb (high - low) 1
          then "High"
          else if leb (high - low) 2
          then "Medium"
          else "Low")
unfolding consensus_level
consensus_level-eq d e low high most n s = ground (
  arith,
  eq_iff e.min_label e.max_label,
  position-injective d e.min_label e.max_label low,
  strong_majority_iff most n,
)

spread-eq :
    (d : Deck) (e : Extremes) (low high : ℕ)
    → Spans d e low high
    → e.max_position -ℤ e.min_position ≡ pos (high - low)
spread-eq d e low high s = ground arith

calculate_consensus-summarize :
    (d : Deck) (v : String) (vs : List String) (low high : ℕ)
    → Spans d (extremes d (v ∷ vs)) low high
    → calculate_consensus d (v ∷ vs) ≡ summarize (v ∷ vs) (extremes d (v ∷ vs))
unfolding calculate_consensus
calculate_consensus-summarize d v vs low high s = ground arith

-- The summary of votes that all have a place in the deck: the lowest and the highest vote are votes
-- that were cast, every vote's place lies between theirs, the spread is the distance of their
-- places, and the level of the consensus is High for a spread of 0, or with a majority of two thirds
-- for a spread of 1; else Medium for a spread of at most 2, and otherwise Low.
pub calculate_consensus-IsSummary :
    (d : Deck) (v : String) (vs : List String)
    → All (HasPlace d) (v ∷ vs)
    → IsSummary d (v ∷ vs) (calculate_consensus d (v ∷ vs))
unfolding extremes extremes_from contains
calculate_consensus-IsSummary d v vs ((k, p), h) =
    let e = extremes d (v ∷ vs) in
    let c = extremes_from-Covers d vs k k (widen d v unseen) (first_vote d v k p) h in
    let (l0, l1) = first_label d v k p in
    rw (calculate_consensus-summarize d v vs c.low c.high c.spans) (
      unfold summarize in
      record {
        lowest = e.min_label;
        highest = e.max_label;
        low = c.low;
        high = c.high;
        lowest_vote = refl;
        highest_vote = refl;
        lowest_cast = ground (arith, c.min_of, eq_iff v e.min_label);
        highest_cast = ground (arith, c.max_of, eq_iff v e.max_label);
        lowest_place = c.spans.min_label;
        highest_place = c.spans.max_label;
        within = ((k, p, c.below, c.above), c.within);
        spread = ap some (spread-eq d e c.low c.high c.spans);
        level = consensus_level-eq d e c.low c.high _ _ c.spans;
      })
