-- ===== src/Room/Voting.antt =====
-- The methods of room_voting.go that a client calls.
use planning_poker.Base.{
  String, Bool, true, false, ◌&&◌, not, Option, none, some, [], ◌∷◌, if◌then◌else◌, map,
}
use planning_poker.DomainError.{domain, validation, text}
use planning_poker.Deck.{Deck, has_card}
use planning_poker.Float32.{Float32}
use planning_poker.Room.{Clock, Room, vote_cast, deck, record_event, mark_vote, is_cast, utc}
use planning_poker.Room.Reveal.{reveal, check_reveal}
use planning_poker.Room.Guards.{Reply, with_client, as_owner}
use planning_poker.Room.Presence.{apply_vote}

unfoldable pub label : Option String → String
label none = ""
label (some v) = v

-- A vote that is not empty has to be a card.
unfoldable pub is_allowed : Option String → Deck → Bool
is_allowed vote d = if is_cast vote then has_card d (label vote) else true

module _ {F : Type 0} where
  -- `r.Clients.ForEach(func(c *Client) { r.applyVote(c, nil) })`
  unfoldable pub clear_votes : Clock → Room F → Room F
  clear_votes t r = if r.reveal then r else record r { clients = map (mark_vote t none) r.clients }

  -- The event of a vote that was applied and is not empty.
  unfoldable pub cast_event : Clock → String → Option String → Bool → Room F → Room F
  cast_event t id vote applied r =
      if applied && is_cast vote
      then record_event (vote_cast r.id id (label vote) (utc t.cast_at)) r
      else r

module _ {F : Type 0} ⦃fl : Float32 F⦄ where
  unfoldable pub vote : Clock → String → Option String → Room F → Reply F
  unfolding with_client
  vote t id v r = with_client id r λ _.
      if is_allowed v (deck r)
      then (check_reveal t (cast_event t id v (not r.reveal) (apply_vote t id v r)), none)
      else (
        r,
        some (
            domain validation "vote %q is not part of deck %s"
              (text (label v) ∷ text (deck r).id ∷ [])),
      )

  unfoldable pub toggle_reveal : Clock → String → Room F → Reply F
  unfolding as_owner
  toggle_reveal t id r =
      as_owner id "only the room owner can toggle reveal" r (reveal t (not r.reveal) r, none)

  -- A fresh round: the summary is cleared, then every vote.
  unfoldable pub restart : Clock → Room F → Room F
  restart t r = clear_votes t (reveal t false r)

  unfoldable pub reset_voting : Clock → String → Room F → Reply F
  unfolding as_owner
  reset_voting t id r = as_owner id "only the room owner can reset voting" r (restart t r, none)
