-- ===== src/Hub/Copies.antt =====
-- `cloneRoom` of internal/infra/boundaries/hub/inmemory/hub.go: the copy of a room that a snapshot is.
use planning_poker.Base.{List, [], ◌∷◌}
use planning_poker.Room.{Client, Room, new_room_with_id_and_started_at, optional_utc_time}
use planning_poker.Room.Presence.{new_client_in}

-- What `cloneRoom` writes to a copied client.
unfoldable pub copy_fields : Client → Client → Client
copy_fields c copied = record copied {
  name = c.name;
  current_vote = c.current_vote;
  has_voted = c.has_voted;
  voted_at = optional_utc_time c.voted_at;
  is_spectator = c.is_spectator;
  is_owner = c.is_owner;
}

-- A write to the client that was added last.
unfoldable pub update_last : (Client → Client) → List Client → List Client
update_last f [] = []
update_last f (c ∷ []) = f c ∷ []
update_last f (c ∷ d ∷ cs) = c ∷ update_last f (d ∷ cs)

module _ {F : Type 0} where
  -- One round of the loop of `cloneRoom`.
  unfoldable pub add_copy : Client → Room F → Room F
  add_copy c r =
      let joined = new_client_in c.id r in
      record joined { clients = update_last (copy_fields c) joined.clients }

  unfoldable pub add_copies : List Client → Room F → Room F
  add_copies [] r = r
  add_copies (c ∷ cs) r = add_copies cs (add_copy c r)

  unfoldable pub clone_room : Room F → Room F
  clone_room r =
      let fresh : Room F = new_room_with_id_and_started_at r.id [] r.started_at in
      add_copies r.clients (record fresh {
        deck_type = r.deck_type;
        current_story = r.current_story;
        reveal = r.reveal;
        result = r.result;
        most_appearing_votes = r.most_appearing_votes;
        consensus = r.consensus;
        lowest_vote = r.lowest_vote;
        highest_vote = r.highest_vote;
        vote_range = r.vote_range;
        vote_spread = r.vote_spread;
        special_vote_count = r.special_vote_count;
        backlog_mode = r.backlog_mode;
        stories = r.stories;
        current_story_index = r.current_story_index;
        room_version = r.room_version;
      })
