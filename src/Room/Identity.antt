-- ===== src/Room/Identity.antt =====
-- The identifier and the version of a room, over the methods of internal/domain/entity.
use planning_poker.Base.{
  ℕ, String, ◌≡◌, ◌∙◌, refl, Bool, Option, none, [], arith, Option-cases, inl, inr, if_both, not,
  ◌==◌, ltb, length, get_elem?, str_eq,
}
use planning_poker.Base.Int.{ℤ, pos, negsuc, ◌-ℤ◌, ltb_ℤ, eqb_ℤ}
use planning_poker.DomainError.{Error}
use planning_poker.Float32.{Float32}
use planning_poker.Room.{Clock, Room, record_event}
use planning_poker.Room.Clients.{find_client, update_first}
use planning_poker.Room.Guards.{Reply, with_client, as_owner}
use planning_poker.Room.Reveal.{reveal, check_reveal, clear_consensus}
use planning_poker.Room.Frame.{reveal-SameFrame, check_reveal-SameFrame}
use planning_poker.Room.Presence.{
  apply_vote, is_last_owner, toggle_owner_of, toggle_owner, admin_toggle_owner, toggle_spectator_of,
  toggle_spectator, update_client_name, flip_spectator,
}
use planning_poker.Room.Voting.{vote, cast_event, toggle_reveal, restart, clear_votes, reset_voting}
use planning_poker.Room.Backlog.{
  Outcome, returns, panics, add_story, set_current_story, get_current_story_name, enter_backlog,
  leave_backlog, story_at, story_index_by_id,
}
use planning_poker.Room.BacklogMoves.{
  as_owner_or_panic, toggle_backlog_mode, update_current_story_index, move_story, reorder_found,
  reorder_checked, reorder_story, remove_at_index, step_index, remove_found, remove_story,
  select_found, select_open, select_checked, select_story, advance_to_next_story, prev_story,
}
use planning_poker.Room.Commands.{
  Request, votes, renames_self, toggles_spectator, toggles_owner, toggles_reveal, resets, advances,
  goes_back, toggles_backlog, adds_story, removes_story, selects_story, sets_story, reorders_story,
  perform,
}

module _ {F : Type 0} where
  abbrev pub Same : Room F → Room F → Type 0
  Same r s = (s.id ≡ r.id) × (s.room_version ≡ r.room_version)

  abbrev SameReply : Room F → Reply F → Type 0
  SameReply r p = Same r p.0

  -- The room that a method leaves, if it comes back.
  abbrev pub Keeps : Room F → Outcome (Reply F) → Type 0
  Keeps r panics = Unit
  Keeps r (returns (s, _)) = Same r s

  as_owner-Same :
      (id message : String) (r : Room F) (body : Reply F)
      → Same r body.0
      → Same r (as_owner id message r body).0
  unfolding as_owner
  as_owner-Same id message r body h = ground arith

  as_owner_or_panic-Keeps :
      (id message : String) (r : Room F) (body : Outcome (Reply F))
      → Keeps r body
      → Keeps r (as_owner_or_panic id message r body)
  unfolding as_owner_or_panic
  as_owner_or_panic-Keeps id message r body h = elim (Option-cases (find_client id r)) [
    | inl e ↦ rw (e, as_owner_or_panic) (refl, refl)
    | inr (c, e) ↦ rw (e, as_owner_or_panic) (if_both (Keeps r) c.is_owner h (refl, refl))
  ]

  toggle_owner_of-Same :
      (target : String) (e : Error) (r : Room F) → Same r (toggle_owner_of target e r).0
  unfolding toggle_owner_of
  toggle_owner_of-Same target e r = ground arith

  pub admin_toggle_owner-Same :
      (target : String) (r : Room F) → Same r (admin_toggle_owner target r).0
  unfolding admin_toggle_owner
  admin_toggle_owner-Same target r =
      if_both (SameReply r) (is_last_owner target r.clients) (refl, refl)
        (toggle_owner_of-Same target _ r)

  move_story-Same : (i target : ℕ) (story : _) (r : Room F) → Same r (move_story i target story r)
  unfolding move_story update_current_story_index
  move_story-Same i target story r = ground arith

  reorder_found-Same : (i : ℤ) (target : ℕ) (r : Room F) → Same r (reorder_found i target r)
  unfolding reorder_found
  reorder_found-Same (negsuc i) target r = (refl, refl)
  reorder_found-Same (pos i) target r =
      if_both (Same r) (i == target) (refl, refl)
        (elim (Option-cases (get_elem? r.stories i)) [
          | inl e ↦ rw e (refl, refl)
          | inr (s, e) ↦ rw e (move_story-Same i target s r)
        ])

  reorder_checked-Same :
      (story_id : String) (target : ℤ) (r : Room F) → Same r (reorder_checked story_id target r).0
  unfolding reorder_checked
  reorder_checked-Same story_id (negsuc n) r = (refl, refl)
  reorder_checked-Same story_id (pos n) r =
      if_both (SameReply r) (ltb n (length r.stories))
        (if_both (SameReply r) (eqb_ℤ (story_index_by_id story_id r) (negsuc 0)) (refl, refl)
          (reorder_found-Same (story_index_by_id story_id r) n r))
        (refl, refl)

  remove_at_index-Same : (i : ℤ) (r : Room F) → Same r (remove_at_index i r)
  unfolding remove_at_index
  remove_at_index-Same (pos i) r = (refl, refl)
  remove_at_index-Same (negsuc i) r = (refl, refl)

  left-Keeps :
      (r : Room F) (o : Outcome String)
      → let call : Outcome (Reply F) = elim o [
        | panics ↦ panics
        | returns name ↦ returns (leave_backlog name r, none)
      ] in
        Keeps r call
  unfolding leave_backlog
  left-Keeps r panics = tt
  left-Keeps r (returns name) = (refl, refl)

module _ {F : Type 0} ⦃fl : Float32 F⦄ where
  check_reveal-Same : (t : Clock) (r : Room F) → Same r (check_reveal t r)
  check_reveal-Same t r = let s = check_reveal-SameFrame t r in (s.id, s.room_version)

  restart-Same : (t : Clock) (r : Room F) → Same r (restart t r)
  unfolding restart clear_votes reveal clear_consensus
  restart-Same t r = ground arith

  removed-Same :
      (t : Clock) (i : ℤ) (r s : Room F) → Same r s → Same r (remove_at_index i (restart t s))
  removed-Same t i r s (a, b) =
      let (c, d) = restart-Same t s in
      let (e, f) = remove_at_index-Same i (restart t s) in (e ∙ c ∙ a, f ∙ d ∙ b)

  remove_found-Same : (t : Clock) (i : ℤ) (r : Room F) → Same r (remove_found t i r)
  unfolding remove_found step_index
  remove_found-Same t i r =
      if_both (Same r) (eqb_ℤ i r.current_story_index)
        (if_both (Same r) (length r.stories == 1)
          (restart-Same t (record r { current_story_index = pos 0; stories = [] }))
          (if_both (Same r) (eqb_ℤ i (pos (length r.stories) -ℤ pos 1))
            (removed-Same t i r (step_index (negsuc 0) r) (refl, refl))
            (removed-Same t i r r (refl, refl))))
        (if_both (Same r) (ltb_ℤ i r.current_story_index)
          (remove_at_index-Same i (step_index (negsuc 0) r)) (remove_at_index-Same i r))

  stepped-Same : (t : Clock) (by : ℤ) (r : Room F) → Same r (restart t (step_index by r))
  unfolding step_index
  stepped-Same t by r = restart-Same t (step_index by r)

  select_checked-Keeps :
      (t : Clock) (story_id : String) (i : ℤ) (r : Room F) → Keeps r (select_checked t story_id i r)
  unfolding select_checked select_open select_found record_event
  select_checked-Keeps t story_id i r =
      if_both (Keeps r) (eqb_ℤ i (negsuc 0)) (refl, refl)
        (if_both (Keeps r) (eqb_ℤ i r.current_story_index) (refl, refl)
          (elim (Option-cases (story_at i r.stories)) [
            | inl e ↦ rw e tt
            | inr (s, e) ↦ rw e (
                if_both (Keeps r) s.voted (refl, refl)
                  (restart-Same t (record r { current_story_index = i })))
          ]))

  vote-Same : (t : Clock) (id : String) (v : Option String) (r : Room F) → Same r (vote t id v r).0
  unfolding vote with_client cast_event apply_vote record_event
  vote-Same t id v r =
      ground (arith, check_reveal-Same t (cast_event t id v (not r.reveal) (apply_vote t id v r)))

  toggle_spectator_of-Same :
      (t : Clock) (target : String) (r : Room F) → Same r (toggle_spectator_of t target r).0
  unfolding toggle_spectator_of apply_vote
  toggle_spectator_of-Same t target r = ground (
    arith,
    check_reveal-Same t (
        apply_vote t target none
          (record r { clients = update_first target flip_spectator r.clients })),
  )

  reveal-Same : (t : Clock) (on : Bool) (r : Room F) → Same r (reveal t on r)
  reveal-Same t on r = let s = reveal-SameFrame t on r in (s.id, s.room_version)

  -- Whoever asks for whatever: the room that is left has the identifier and the version that it had.
  pub perform-Keeps :
      (t : Clock) (id : String) (q : Request) (r : Room F) → Keeps r (perform t id q r)
  unfolding perform toggle_owner toggle_spectator toggle_reveal reset_voting add_story
      set_current_story toggle_backlog_mode reorder_story remove_story select_story
      advance_to_next_story prev_story update_client_name with_client enter_backlog
  perform-Keeps t id (votes v) r = vote-Same t id v r
  perform-Keeps t id (renames_self name) r = ground arith
  perform-Keeps t id (toggles_spectator target) r =
      as_owner-Same id _ r _ (toggle_spectator_of-Same t target r)
  perform-Keeps t id (toggles_owner target) r = as_owner-Same id _ r _ (
      if_both (SameReply r) (is_last_owner target r.clients) (refl, refl)
        (toggle_owner_of-Same target _ r))
  perform-Keeps t id toggles_reveal r = as_owner-Same id _ r _ (reveal-Same t (not r.reveal) r)
  perform-Keeps t id resets r = as_owner-Same id _ r _ (restart-Same t r)
  perform-Keeps t id advances r = as_owner-Same id _ r _ (
      if_both (SameReply r) (ltb_ℤ r.current_story_index (pos (length r.stories) -ℤ pos 1))
        (stepped-Same t (pos 1) r) (refl, refl))
  perform-Keeps t id goes_back r = as_owner-Same id _ r _ (
      if_both (SameReply r) (ltb_ℤ (pos 0) r.current_story_index) (stepped-Same t (negsuc 0) r)
        (refl, refl))
  perform-Keeps t id (toggles_backlog new_id) r =
      as_owner_or_panic-Keeps id _ r _
        (if_both (Keeps r) r.backlog_mode (left-Keeps r (get_current_story_name r)) (ground arith))
  perform-Keeps t id (adds_story new_id name) r = as_owner-Same id _ r _ (refl, refl)
  perform-Keeps t id (removes_story story_id) r = as_owner-Same id _ r _ (
      if_both (SameReply r) (str_eq story_id "") (refl, refl)
        (if_both (SameReply r) (eqb_ℤ (story_index_by_id story_id r) (negsuc 0)) (refl, refl)
          (remove_found-Same t (story_index_by_id story_id r) r)))
  perform-Keeps t id (selects_story story_id) r = as_owner_or_panic-Keeps id _ r _ (
      if_both (Keeps r) (str_eq story_id "") (refl, refl)
        (select_checked-Keeps t story_id (story_index_by_id story_id r) r))
  perform-Keeps t id (sets_story story) r = as_owner-Same id _ r _ (ground arith)
  perform-Keeps t id (reorders_story story_id target) r = as_owner-Same id _ r _ (
      if_both (SameReply r) (str_eq story_id "") (refl, refl)
        (reorder_checked-Same story_id target r))
