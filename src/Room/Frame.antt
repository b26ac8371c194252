-- ===== src/Room/Frame.antt =====
-- What a reveal and a fresh round leave alone.
use planning_poker.Base.{
  ℕ, zero, suc, String, ◌≡◌, refl, ap, Bool, true, false, Option, none, some, List, [], ◌∷◌, arith,
  length, map, ◌∙◌, if◌then◌else◌,
}
use planning_poker.Float32.{Float32}
use planning_poker.Room.{Clock, Story, Room, mark_vote, record_event, votes_revealed, utc}
use planning_poker.Room.Reveal.{
  reveal, check_reveal, stamp, stamp_at, all_voted, show_votes, estimated_event, stamp_current,
  show_summary, record_reveal, estimated_index, story_id_at, clear_consensus,
}
use planning_poker.Room.Voting.{clear_votes, restart}

module _ {F : Type 0} where
  pub length-stamp_at :
      (o : Option ℕ) (v : Option F) (m : List _) (ss : List (Story F))
      → length (stamp_at o v m ss) ≡ length ss
  unfolding stamp_at
  length-stamp_at none v m ss = refl
  length-stamp_at (some i) v m [] = refl
  length-stamp_at (some zero) v m (s ∷ ss) = refl
  length-stamp_at (some (suc i)) v m (s ∷ ss) = ap suc (length-stamp_at (some i) v m ss)

  abbrev pub ids : List (Story F) → List String
  ids [] = []
  ids (s ∷ ss) = s.id ∷ ids ss

  ids-stamp_at :
      (o : Option ℕ) (v : Option F) (m : List _) (ss : List (Story F))
      → ids (stamp_at o v m ss) ≡ ids ss
  unfolding stamp_at stamp
  ids-stamp_at none v m ss = refl
  ids-stamp_at (some i) v m [] = refl
  ids-stamp_at (some zero) v m (s ∷ ss) = refl
  ids-stamp_at (some (suc i)) v m (s ∷ ss) = ap (λ l. s.id ∷ l) (ids-stamp_at (some i) v m ss)

  -- The fields that no reveal writes.
  pub record SameFrame (r s : Room F) : Type 0 where
    pub id : s.id ≡ r.id
    pub room_version : s.room_version ≡ r.room_version
    pub clients : s.clients ≡ r.clients
    pub deck_type : s.deck_type ≡ r.deck_type
    pub backlog_mode : s.backlog_mode ≡ r.backlog_mode
    pub current_story : s.current_story ≡ r.current_story
    pub current_story_index : s.current_story_index ≡ r.current_story_index
    pub stories : length s.stories ≡ length r.stories
    pub story_ids : ids s.stories ≡ ids r.stories

  estimated_event-SameFrame :
      (t : Clock) (id : String) (r : Room F) → SameFrame r (estimated_event t id r)
  unfolding estimated_event record_event
  estimated_event-SameFrame t id r = ground arith

  opened-SameFrame : (r : Room F) → SameFrame r (record r { reveal = true })
  opened-SameFrame r = ground arith

  pub SameFrame-trans : {r s u : Room F} → SameFrame r s → SameFrame s u → SameFrame r u
  SameFrame-trans a b = ground arith

  reveal-estimated_event :
      (t : Clock) (id : String) (r : Room F) → (estimated_event t id r).reveal ≡ r.reveal
  unfolding estimated_event record_event
  reveal-estimated_event t id r = ground arith

module _ {F : Type 0} ⦃fl : Float32 F⦄ where
  stamp_current-SameFrame : (r : Room F) → SameFrame r (stamp_current r)
  unfolding stamp_current
  stamp_current-SameFrame r = ground (
    arith,
    length-stamp_at (estimated_index r) r.result r.most_appearing_votes r.stories,
    ids-stamp_at (estimated_index r) r.result r.most_appearing_votes r.stories,
  )

  show_summary-SameFrame : (r : Room F) → SameFrame r (show_summary r)
  unfolding show_summary
  show_summary-SameFrame r = ground arith

  record_reveal-SameFrame :
      (t : Clock) (id : String) (r : Room F) → SameFrame r (record_reveal t id r)
  unfolding record_reveal
  record_reveal-SameFrame t id r =
      unfold record_event in
      ground (
        arith,
        estimated_event-SameFrame t id
            (record_event (votes_revealed r.id r.result r.consensus (utc t.revealed_at)) r),
      )

  show_votes-SameFrame : (t : Clock) (r : Room F) → SameFrame r (show_votes t r)
  unfolding show_votes
  show_votes-SameFrame t r =
      let shown = show_summary (record r { reveal = true }) in
      let id = story_id_at (estimated_index shown) shown.stories in
      SameFrame-trans (opened-SameFrame r) (
        SameFrame-trans (show_summary-SameFrame (record r { reveal = true })) (
          SameFrame-trans (stamp_current-SameFrame shown)
            (record_reveal-SameFrame t id (stamp_current shown))))

  pub reveal-SameFrame : (t : Clock) (on : Bool) (r : Room F) → SameFrame r (reveal t on r)
  unfolding reveal clear_consensus
  reveal-SameFrame t on r = ground (arith, show_votes-SameFrame t r)

  pub check_reveal-SameFrame : (t : Clock) (r : Room F) → SameFrame r (check_reveal t r)
  unfolding check_reveal
  check_reveal-SameFrame t r = ground (arith, reveal-SameFrame t true r)

  -- A fresh round clears the votes of a room whose votes are hidden by then.
  pub clients-restart :
      (t : Clock) (r : Room F) → (restart t r).clients ≡ map (mark_vote t none) r.clients
  unfolding restart clear_votes reveal clear_consensus
  clients-restart t r = ground arith

  reveal-record_reveal :
      (t : Clock) (id : String) (r : Room F) → (record_reveal t id r).reveal ≡ r.reveal
  unfolding record_reveal
  reveal-record_reveal t id r =
      unfold record_event in
      reveal-estimated_event t id
        (record_event (votes_revealed r.id r.result r.consensus (utc t.revealed_at)) r)

  reveal-show_votes : (t : Clock) (r : Room F) → (show_votes t r).reveal ≡ true
  unfolding show_votes
  reveal-show_votes t r =
      let shown = show_summary (record r { reveal = true }) in
      let id = story_id_at (estimated_index shown) shown.stories in
      reveal-record_reveal t id (stamp_current shown) ∙ (unfold stamp_current show_summary in refl)

  pub reveal-reveal : (t : Clock) (on : Bool) (r : Room F) → (reveal t on r).reveal ≡ on
  unfolding reveal clear_consensus
  reveal-reveal t on r = ground (arith, reveal-show_votes t r)

  -- `checkReveal` shows the votes exactly when every client that is no spectator has voted.
  pub reveal-check_reveal :
      (t : Clock) (r : Room F)
      → (check_reveal t r).reveal ≡ (if all_voted r.clients then true else r.reveal)
  unfolding check_reveal
  reveal-check_reveal t r = ground (arith, reveal-reveal t true r)

  pub restart-frame :
      (t : Clock) (r : Room F)
      → ((restart t r).reveal ≡ false)
        × ((restart t r).id ≡ r.id)
        × ((restart t r).deck_type ≡ r.deck_type)
        × ((restart t r).backlog_mode ≡ r.backlog_mode)
        × ((restart t r).current_story_index ≡ r.current_story_index)
        × ((restart t r).stories ≡ r.stories)
        × ((restart t r).events ≡ r.events)
  unfolding restart clear_votes reveal clear_consensus
  restart-frame t r = ground arith
