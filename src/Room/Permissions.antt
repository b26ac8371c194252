-- ===== src/Room/Permissions.antt =====
-- Who may do what: the requests that only an owner of the room may make.
use planning_poker.Base.{
  String, ◌≡◌, refl, Bool, true, false, Option, none, some, arith, ◌⊎◌, inl, inr, Option-cases, ap,
}
use planning_poker.DomainError.{Error, code_of, forbidden, not_found}
use planning_poker.Float32.{Float32}
use planning_poker.Room.{Clock, Client, Room}
use planning_poker.Room.Clients.{find_client}
use planning_poker.Room.Guards.{Reply, as_owner, with_client, missing_client, refused}
use planning_poker.Room.Presence.{toggle_owner, toggle_spectator}
use planning_poker.Room.Voting.{toggle_reveal, reset_voting}
use planning_poker.Room.Backlog.{Outcome, returns, add_story, set_current_story}
use planning_poker.Room.BacklogMoves.{
  as_owner_or_panic, toggle_backlog_mode, reorder_story, remove_story, select_story,
  advance_to_next_story, prev_story,
}
use planning_poker.Room.Commands.{
  Request, votes, renames_self, toggles_backlog, selects_story, perform,
}

-- Everyone may vote and choose a name; the rest is the owners'.
abbrev pub needs_owner : Request → Bool
needs_owner (votes _) = false
needs_owner (renames_self _) = false
needs_owner _ = true

abbrev owns : Option Client → Bool
owns none = false
owns (some c) = c.is_owner

abbrev pub IsRefusal : Error → Type 0
IsRefusal e = (code_of e ≡ some forbidden) ⊎ (code_of e ≡ some not_found)

module _ {F : Type 0} where
  -- Whether the room has a client of the identifier who owns it.
  abbrev pub owns_room : String → Room F → Bool
  owns_room id r = owns (find_client id r)

  as_owner-refused :
      (id message : String) (r : Room F) (body : Reply F)
      → owns_room id r ≡ false
      → (e : Error) × (as_owner id message r body ≡ (r, some e)) × IsRefusal e
  unfolding as_owner missing_client refused code_of
  as_owner-refused id message r body h = elim (Option-cases (find_client id r)) [
    | inl e ↦ (missing_client id r.id, rw (e, as_owner, with_client), inr refl)
    | inr (c, e) ↦ (refused message, ground arith, inl refl)
  ]

  as_owner_or_panic-refused :
      (id message : String) (r : Room F) (body : Outcome (Reply F))
      → owns_room id r ≡ false
      → (e : Error) × (as_owner_or_panic id message r body ≡ returns (r, some e)) × IsRefusal e
  unfolding as_owner_or_panic missing_client refused code_of
  as_owner_or_panic-refused id message r body h = elim (Option-cases (find_client id r)) [
    | inl e ↦ (missing_client id r.id, rw (e, as_owner_or_panic), inr refl)
    | inr (c, e) ↦ (refused message, ground arith, inl refl)
  ]

  abbrev IsRefused : Room F → Reply F → Type 0
  IsRefused r p = (e : Error) × (p ≡ (r, some e)) × IsRefusal e

  returned :
      {r : Room F} {p : Reply F}
      → IsRefused r p
      → (e : Error) × (returns p ≡ returns (r, some e)) × IsRefusal e
  returned (e, h, k) = (e, ap returns h, k)

module _ {F : Type 0} ⦃fl : Float32 F⦄ where
  -- A request that needs an owner, from somebody who is none or is not in the room, is refused as
  -- forbidden or not found, and leaves the room as it was.
  pub perform-refused :
      (t : Clock) (id : String) (q : Request) (r : Room F)
      → needs_owner q ≡ true
      → owns_room id r ≡ false
      → (e : Error) × (perform t id q r ≡ returns (r, some e)) × IsRefusal e
  unfolding perform toggle_owner toggle_spectator toggle_reveal reset_voting add_story
      set_current_story toggle_backlog_mode reorder_story remove_story select_story
      advance_to_next_story prev_story
  perform-refused t id (votes v) r n h = cc
  perform-refused t id (renames_self name) r n h = cc
  perform-refused t id (toggles_backlog new_id) r n h = as_owner_or_panic-refused id _ r _ h
  perform-refused t id (selects_story story_id) r n h = as_owner_or_panic-refused id _ r _ h
  perform-refused t id _ r n h = returned (as_owner-refused id _ r _ h)
