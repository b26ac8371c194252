-- ===== src/Room/BacklogMoves.antt =====
-- The methods of room_backlog.go that change which story is the current one.
use planning_poker.Base.{
  ℕ, String, not, Option, none, some, [], ◌∷◌, str_eq, ◌==◌, ltb, if◌then◌else◌, length, get_elem?,
}
use planning_poker.Base.Int.{ℤ, pos, negsuc, ◌+ℤ◌, ◌-ℤ◌, ltb_ℤ, leb_ℤ, eqb_ℤ}
use planning_poker.DomainError.{Error, domain, validation, conflict, text, int}
use planning_poker.Float32.{Float32}
use planning_poker.Room.{Clock, Story, Room, record_event, story_selected, utc}
use planning_poker.Room.Clients.{find_client}
use planning_poker.Room.Guards.{Reply, missing_client, refused, as_owner}
use planning_poker.Room.Voting.{restart}
use planning_poker.Room.Backlog.{
  Outcome, returns, panics, empty_story_id, missing_story, remove_at, insert_at, story_index_by_id,
  story_at, current_story_id, get_current_story_name, enter_backlog, leave_backlog,
}

unfoldable pub out_of_range : ℤ → Error
out_of_range target = domain validation "target story index %d out of range" (int target ∷ [])

unfoldable pub already_current : String → Error
already_current story_id =
    domain conflict "story %s is already the current story" (text story_id ∷ [])

unfoldable pub already_estimated : String → Error
already_estimated story_id =
    domain conflict "estimated story %s cannot be selected" (text story_id ∷ [])

-- The last two tests of `updateCurrentStoryIndex`.
unfoldable pub shift_index : ℤ → ℤ → ℤ → ℤ
shift_index story_index target at =
    let left = if ltb_ℤ story_index at then at -ℤ pos 1 else at in
    if leb_ℤ target left then left +ℤ pos 1 else left

module _ {F : Type 0} where
  -- `as_owner` for a method that may panic.
  unfoldable pub as_owner_or_panic :
      String → String → Room F → Outcome (Reply F) → Outcome (Reply F)
  as_owner_or_panic id message r body = elim (find_client id r) [
    | none ↦ returns (r, some (missing_client id r.id))
    | some c ↦ if c.is_owner then body else returns (r, some (refused message))
  ]

  unfoldable pub toggle_backlog_mode : String → String → Room F → Outcome (Reply F)
  unfolding as_owner_or_panic
  toggle_backlog_mode new_id id r =
      as_owner_or_panic id "only the room owner can toggle backlog mode" r (
        if r.backlog_mode
        then (elim (get_current_story_name r) [
          | panics ↦ panics
          | returns name ↦ returns (leave_backlog name r, none)
        ])
        else returns (enter_backlog new_id r, none))

  -- The last part of `ReorderStory`. With the identifier of the current story known, its place is
  -- searched again; without one, the index is shifted.
  unfoldable pub update_current_story_index : ℤ → ℤ → String → Room F → Room F
  update_current_story_index story_index target current_id r =
      if not (str_eq current_id "")
      then record r { current_story_index = story_index_by_id current_id r }
      else if eqb_ℤ r.current_story_index story_index
      then record r { current_story_index = target }
      else record r { current_story_index = shift_index story_index target r.current_story_index }

  -- The move itself, of the story at place `i`.
  unfoldable pub move_story : ℕ → ℕ → Story F → Room F → Room F
  move_story i target story r =
      update_current_story_index (pos i) (pos target) (current_story_id r)
        (record r { stories = insert_at target story (remove_at i r.stories) })

  unfoldable pub reorder_found : ℤ → ℕ → Room F → Room F
  reorder_found (negsuc _) target r = r
  reorder_found (pos i) target r =
      if i == target
      then r
      else elim (get_elem? r.stories i) [ none ↦ r | some story ↦ move_story i target story r ]

  unfoldable pub reorder_checked : String → ℤ → Room F → Reply F
  reorder_checked story_id (negsuc n) r = (r, some (out_of_range (negsuc n)))
  reorder_checked story_id (pos target) r =
      if ltb target (length r.stories)
      then (if eqb_ℤ (story_index_by_id story_id r) (negsuc 0)
          then (r, some (missing_story story_id r.id))
          else (reorder_found (story_index_by_id story_id r) target r, none))
      else (r, some (out_of_range (pos target)))

  unfoldable pub reorder_story : String → String → ℤ → Room F → Reply F
  unfolding as_owner
  reorder_story id story_id target r =
      as_owner id "only the room owner can reorder stories" r
        (if str_eq story_id "" then (r, some empty_story_id) else reorder_checked story_id target r)

  unfoldable pub remove_at_index : ℤ → Room F → Room F
  remove_at_index (negsuc _) r = r
  remove_at_index (pos i) r = record r { stories = remove_at i r.stories }

  unfoldable pub step_index : ℤ → Room F → Room F
  step_index by r = record r { current_story_index = r.current_story_index +ℤ by }

module _ {F : Type 0} ⦃fl : Float32 F⦄ where
  -- The end of `RemoveStory`, for the index of a story that was found.
  unfoldable pub remove_found : Clock → ℤ → Room F → Room F
  remove_found t index r =
      if eqb_ℤ index r.current_story_index
      then (if length r.stories == 1
          then restart t (record r { current_story_index = pos 0; stories = [] })
          else if eqb_ℤ index (pos (length r.stories) -ℤ pos 1)
          then remove_at_index index (restart t (step_index (negsuc 0) r))
          else remove_at_index index (restart t r))
      else if ltb_ℤ index r.current_story_index
      then remove_at_index index (step_index (negsuc 0) r)
      else remove_at_index index r

  unfoldable pub remove_story : Clock → String → String → Room F → Reply F
  unfolding as_owner
  remove_story t id story_id r = as_owner id "only the room owner can remove a story" r (
      if str_eq story_id ""
      then (r, some empty_story_id)
      else if eqb_ℤ (story_index_by_id story_id r) (negsuc 0)
      then (r, some (missing_story story_id r.id))
      else (remove_found t (story_index_by_id story_id r) r, none))

  unfoldable pub select_found : Clock → String → ℤ → Room F → Room F
  select_found t story_id index r =
      record_event (story_selected r.id story_id (utc t.selected_at))
        (restart t (record r { current_story_index = index }))

  -- The test of the story that stands at the index; there is one.
  unfoldable pub select_open : Clock → String → ℤ → Option (Story F) → Room F → Outcome (Reply F)
  select_open t story_id index none r = panics
  select_open t story_id index (some s) r =
      if s.voted
      then returns (r, some (already_estimated story_id))
      else returns (select_found t story_id index r, none)

  unfoldable pub select_checked : Clock → String → ℤ → Room F → Outcome (Reply F)
  select_checked t story_id index r =
      if eqb_ℤ index (negsuc 0)
      then returns (r, some (missing_story story_id r.id))
      else if eqb_ℤ index r.current_story_index
      then returns (r, some (already_current story_id))
      else select_open t story_id index (story_at index r.stories) r

  unfoldable pub select_story : Clock → String → String → Room F → Outcome (Reply F)
  unfolding as_owner_or_panic
  select_story t id story_id r = as_owner_or_panic id "only the room owner can select a story" r (
      if str_eq story_id ""
      then returns (r, some empty_story_id)
      else select_checked t story_id (story_index_by_id story_id r) r)

  unfoldable pub advance_to_next_story : Clock → String → Room F → Reply F
  unfolding as_owner
  advance_to_next_story t id r = as_owner id "only the room owner can advance to the next story" r (
      if ltb_ℤ r.current_story_index (pos (length r.stories) -ℤ pos 1)
      then (restart t (step_index (pos 1) r), none)
      else (r, none))

  unfoldable pub prev_story : Clock → String → Room F → Reply F
  unfolding as_owner
  prev_story t id r = as_owner id "only the room owner can go to the previous story" r (
      if ltb_ℤ (pos 0) r.current_story_index
      then (restart t (step_index (negsuc 0) r), none)
      else (r, none))
