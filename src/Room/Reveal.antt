-- ===== src/Room/Reveal.antt =====
-- `reveal`, `checkReveal` and `clearConsensus` of room_voting.go and room_presence.go: the votes are
-- summarised, the current story of the backlog is stamped, and the events are recorded.
use planning_poker.Base.{
  ℕ, zero, suc, String, Bool, true, false, ◌&&◌, not, Option, none, some, List, [], ◌∷◌, str_eq,
  ltb, if◌then◌else◌, length, get_elem?, every, keep,
}
use planning_poker.Base.Int.{ℤ, pos, negsuc}
use planning_poker.Float32.{Float32}
use planning_poker.Room.{
  Clock, Client, Story, Room, votes_revealed, story_estimated, deck, record_event, utc,
}
use planning_poker.Room.Votes.{
  VoteMetrics, collect_votes, get_most_vote_count, most_appearing_votes,
}
use planning_poker.Room.Consensus.{calculate_consensus}

-- `index >= 0 && index < len`
abbrev pub in_range : ℤ → ℕ → Option ℕ
in_range (pos i) n = if ltb i n then some i else none
in_range (negsuc _) n = none

-- The test of `checkReveal`: spectators do not vote.
unfoldable pub all_voted : List Client → Bool
all_voted cs = every (λ c. c.has_voted) (keep (λ c. not c.is_spectator) cs)

module _ {F : Type 0} where
  unfoldable pub clear_consensus : Room F → Room F
  clear_consensus r = record r {
    result = none;
    most_appearing_votes = [];
    consensus = "";
    lowest_vote = none;
    highest_vote = none;
    vote_range = none;
    vote_spread = none;
    special_vote_count = 0;
  }

  unfoldable pub stamp : Option F → List String → Story F → Story F
  stamp result most s = record s { result = result; most_appearing_votes = most; voted = true }

  -- The place of the story that a reveal stamps.
  unfoldable pub estimated_index : Room F → Option ℕ
  estimated_index r =
      if r.backlog_mode then in_range r.current_story_index (length r.stories) else none

  unfoldable pub stamp_at : Option ℕ → Option F → List String → List (Story F) → List (Story F)
  stamp_at none result most stories = stories
  stamp_at (some i) result most [] = []
  stamp_at (some zero) result most (s ∷ ss) = stamp result most s ∷ ss
  stamp_at (some (suc i)) result most (s ∷ ss) = s ∷ stamp_at (some i) result most ss

  -- `estimatedStoryID`, empty if no story is stamped.
  unfoldable pub story_id_at : Option ℕ → List (Story F) → String
  story_id_at none stories = ""
  story_id_at (some i) stories = elim (get_elem? stories i) [ none ↦ "" | some s ↦ s.id ]

  unfoldable pub estimated_event : Clock → String → Room F → Room F
  estimated_event t story_id r =
      if str_eq story_id ""
      then r
      else record_event (story_estimated r.id story_id r.result (utc t.estimated_at)) r

module _ {F : Type 0} ⦃fl : Float32 F⦄ where
  -- `r.Result`
  unfoldable pub mean : VoteMetrics F → Option F
  mean m = if fl.lt fl.zero m.count then some (fl.div m.sum m.count) else none

  -- The fields that a reveal writes, before the stamp and the events.
  unfoldable pub show_summary : Room F → Room F
  show_summary r =
      let m = collect_votes (deck r) r.clients in
      let s = calculate_consensus (deck r) m.ordered in
      record r {
        result = mean m;
        most_appearing_votes =
            most_appearing_votes m.counts (get_most_vote_count m.counts) (deck r);
        consensus = s.consensus;
        lowest_vote = s.lowest_vote;
        highest_vote = s.highest_vote;
        vote_range = s.vote_range;
        vote_spread = s.vote_spread;
        special_vote_count = m.special_count;
      }

  unfoldable pub stamp_current : Room F → Room F
  stamp_current r = record r {
    stories = stamp_at (estimated_index r) r.result r.most_appearing_votes r.stories;
  }

  unfoldable pub record_reveal : Clock → String → Room F → Room F
  record_reveal t story_id r =
      estimated_event t story_id
        (record_event (votes_revealed r.id r.result r.consensus (utc t.revealed_at)) r)

  unfoldable pub show_votes : Clock → Room F → Room F
  show_votes t r =
      let shown = show_summary (record r { reveal = true }) in
      record_reveal t (story_id_at (estimated_index shown) shown.stories) (stamp_current shown)

  -- `(*Room).reveal`
  unfoldable pub reveal : Clock → Bool → Room F → Room F
  reveal t on r =
      if on && r.reveal
      then r
      else if on
      then show_votes t r
      else clear_consensus (record r { reveal = false })

  unfoldable pub check_reveal : Clock → Room F → Room F
  check_reveal t r = if all_voted r.clients then reveal t true r else r
