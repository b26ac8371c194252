-- ===== src/Room/Invariant/Runs.antt =====
-- The invariant and the panics, over commands and sequences of commands.
use planning_poker.Base.{
  String, ◌≡◌, refl, Bool, true, false, none, some, List, [], ◌∷◌, arith, length, inl, inr,
  Option-cases, ltb, str_eq, if_both, if◌then◌else◌, get_elem?-total,
}
use planning_poker.Base.Int.{ℤ, pos, negsuc, eqb_ℤ}
use native.Mathlib.Nat.{zero-add}
use planning_poker.Float32.{Float32}
use planning_poker.Room.{
  Clock, Room, Story, Time, new_room_with_id_and_started_at, new_room_with_id_and_deck,
}
use planning_poker.Room.Clients.{find_client}
use planning_poker.Room.Guards.{Reply}
use planning_poker.Room.Backlog.{
  Outcome, returns, panics, story_at, story_index_by_id, effective_current_story,
  get_current_story_name, name_of, leave_backlog,
}
use planning_poker.Room.BacklogMoves.{
  as_owner_or_panic, toggle_backlog_mode, select_story, select_checked, select_open,
}
use planning_poker.Room.Commands.{
  Request, votes, renames_self, toggles_spectator, toggles_owner, toggles_reveal, resets, advances,
  goes_back, toggles_backlog, adds_story, removes_story, selects_story, sets_story, reorders_story,
  Command, asks, joins, leaves, administers, pulls, after, perform, execute, run,
}
use planning_poker.Room.Invariant.{InBounds, IsValid}
use planning_poker.Room.Invariant.Places.{index_from-cases}
use planning_poker.Room.Invariant.Methods.{
  new_client_in-IsValid, update_client_name-IsValid, pull_events-IsValid, toggle_owner-IsValid,
  admin_toggle_owner-IsValid, remove_client-IsValid, toggle_spectator-IsValid, vote-IsValid,
  toggle_reveal-IsValid, reset_voting-IsValid,
}
use planning_poker.Room.Invariant.Moves.{
  toggle_backlog_mode-IsValid, add_story-IsValid, set_current_story-IsValid, reorder_story-IsValid,
}
use planning_poker.Room.Invariant.Choices.{
  remove_story-IsValid, select_story-IsValid, advance_to_next_story-IsValid, prev_story-IsValid,
}

-- A call that comes back.
abbrev pub IsReturned {ℓ} : {A : Type ℓ} → Outcome A → Type 0
IsReturned panics = ⊥
IsReturned (returns _) = Unit

module _ {F : Type 0} where
  -- A new room, of whatever deck, is valid.
  pub new_room-IsValid :
      (id deck_type : String) (now : Time)
      → IsValid (new_room_with_id_and_deck {F = F} id [] deck_type now)
  unfolding new_room_with_id_and_deck new_room_with_id_and_started_at
  new_room-IsValid id deck_type now = ground arith

  pub story_at-total :
      (i : ℤ) (ss : List (Story F))
      → InBounds i (length ss)
      → ltb 0 (length ss) ≡ true
      → (s : Story F) × (story_at i ss ≡ some s)
  unfolding story_at
  story_at-total (pos i) ss b h = get_elem?-total ss i (ground arith)
  story_at-total (negsuc i) ss b h = absurd b

module _ {F : Type 0} where
  name_of_current :
      (r : Room F) (b : Bool) (other : String)
      → IsValid r
      → (b ≡ true → ltb 0 (length r.stories) ≡ true)
      → IsReturned (if b then name_of (story_at r.current_story_index r.stories) else returns other)
  name_of_current r true other v h =
      let (s, e) = story_at-total r.current_story_index r.stories v.in_bounds (h refl) in rw e tt
  name_of_current r false other v h = tt

  effective_current_story-IsReturned :
      (r : Room F) → IsValid r → IsReturned (effective_current_story r)
  unfolding effective_current_story
  effective_current_story-IsReturned r v = name_of_current r _ r.current_story v (λ e. ground arith)

  get_current_story_name-IsReturned :
      (r : Room F) → IsValid r → IsReturned (get_current_story_name r)
  unfolding get_current_story_name
  get_current_story_name-IsReturned r v = name_of_current r _ "" v (λ e. ground arith)

  as_owner_or_panic-IsReturned :
      (id message : String) (r : Room F) (body : Outcome (Reply F))
      → IsReturned body
      → IsReturned (as_owner_or_panic id message r body)
  unfolding as_owner_or_panic
  as_owner_or_panic-IsReturned id message r body h = elim (Option-cases (find_client id r)) [
    | inl e ↦ rw (e, as_owner_or_panic) tt
    | inr (c, e) ↦ rw (e, as_owner_or_panic) (if_both IsReturned c.is_owner h tt)
  ]

  toggle_backlog_mode-IsReturned :
      (new_id id : String) (r : Room F) → IsValid r → IsReturned (toggle_backlog_mode new_id id r)
  unfolding toggle_backlog_mode
  toggle_backlog_mode-IsReturned new_id id r v = as_owner_or_panic-IsReturned id _ r _ (
      if_both IsReturned r.backlog_mode
        (left (get_current_story_name r) (get_current_story_name-IsReturned r v)) tt)
    where
      left :
          (o : Outcome String)
          → IsReturned o
          → IsReturned (
              let call : Outcome (Reply F) = elim o [
                | panics ↦ panics
                | returns name ↦ returns (leave_backlog name r, none)
              ] in
              call)
      left panics h = h
      left (returns name) h = tt

module _ {F : Type 0} ⦃fl : Float32 F⦄ where
  select_checked-IsReturned :
      (t : Clock) (story_id : String) (r : Room F)
      → IsReturned (select_checked t story_id (story_index_by_id story_id r) r)
  unfolding select_checked story_index_by_id
  select_checked-IsReturned t story_id r = elim (index_from-cases 0 story_id r.stories) [
    | inl e ↦ rw e tt
    | inr (i, s, p, q, w) ↦
        if_both IsReturned (eqb_ℤ (story_index_by_id story_id r) (negsuc 0)) tt (
          if_both IsReturned (eqb_ℤ (story_index_by_id story_id r) r.current_story_index) tt
            (unfold select_open story_at in rw (p, zero-add, q) (if_both IsReturned s.voted tt tt)))
  ]

  select_story-IsReturned :
      (t : Clock) (id story_id : String) (r : Room F) → IsReturned (select_story t id story_id r)
  unfolding select_story
  select_story-IsReturned t id story_id r =
      as_owner_or_panic-IsReturned id _ r _
        (if_both IsReturned (str_eq story_id "") tt (select_checked-IsReturned t story_id r))

  perform-IsValid :
      (t : Clock) (id : String) (q : Request) (r : Room F)
      → IsValid r
      → IsValid (after r (perform t id q r))
  unfolding perform
  perform-IsValid t id (votes o) r v = vote-IsValid t id o r v
  perform-IsValid t id (renames_self name) r v = update_client_name-IsValid id name r v
  perform-IsValid t id (toggles_spectator target) r v = toggle_spectator-IsValid t id target r v
  perform-IsValid t id (toggles_owner target) r v = toggle_owner-IsValid id target r v
  perform-IsValid t id toggles_reveal r v = toggle_reveal-IsValid t id r v
  perform-IsValid t id resets r v = reset_voting-IsValid t id r v
  perform-IsValid t id advances r v = advance_to_next_story-IsValid t id r v
  perform-IsValid t id goes_back r v = prev_story-IsValid t id r v
  perform-IsValid t id (toggles_backlog new_id) r v = toggle_backlog_mode-IsValid new_id id r v
  perform-IsValid t id (adds_story new_id name) r v = add_story-IsValid new_id id name r v
  perform-IsValid t id (removes_story story_id) r v = remove_story-IsValid t id story_id r v
  perform-IsValid t id (selects_story story_id) r v = select_story-IsValid t id story_id r v
  perform-IsValid t id (sets_story story) r v = set_current_story-IsValid id story r v
  perform-IsValid t id (reorders_story story_id target) r v =
      reorder_story-IsValid id story_id target r v

  -- Every command, whether it succeeds, fails or is refused, leaves a valid room valid.
  pub execute-IsValid :
      (t : Clock) (c : Command) (r : Room F) → IsValid r → IsValid (after r (execute t c r))
  unfolding execute
  execute-IsValid t (asks id q) r v = perform-IsValid t id q r v
  execute-IsValid t (joins id) r v = new_client_in-IsValid id r v
  execute-IsValid t (leaves id) r v = remove_client-IsValid t id r v
  execute-IsValid t (administers target) r v = admin_toggle_owner-IsValid target r v
  execute-IsValid t pulls r v = pull_events-IsValid r v

  pub run-IsValid : (cs : List (Clock × Command)) (r : Room F) → IsValid r → IsValid (run r cs)
  unfolding run
  run-IsValid [] r v = v
  run-IsValid ((t, c) ∷ cs) r v = run-IsValid cs (after r (execute t c r)) (execute-IsValid t c r v)

  -- On a valid room no command panics.
  pub execute-IsReturned :
      (t : Clock) (c : Command) (r : Room F) → IsValid r → IsReturned (execute t c r)
  unfolding execute perform
  execute-IsReturned t (asks id (toggles_backlog new_id)) r v =
      toggle_backlog_mode-IsReturned new_id id r v
  execute-IsReturned t (asks id (selects_story story_id)) r v =
      select_story-IsReturned t id story_id r
  execute-IsReturned t _ r v = tt

  -- Whatever is asked of a new room, in whatever order: the room that stands is valid, and neither
  -- the next command nor the reading of the current story panics.
  pub run_new_room-IsSafe :
      (id deck_type : String) (now : Time) (cs : List (Clock × Command)) (t : Clock) (c : Command)
      → let r = run (new_room_with_id_and_deck {F = F} id [] deck_type now) cs in
        IsValid r × IsReturned (execute t c r) × IsReturned (effective_current_story r)
  run_new_room-IsSafe id deck_type now cs t c =
      let v = run-IsValid cs _ (new_room-IsValid id deck_type now) in
      (v, execute-IsReturned t c _ v, effective_current_story-IsReturned _ v)
