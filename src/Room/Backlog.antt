-- ===== src/Room/Backlog.antt =====
-- The methods of room_backlog.go. A read past the end of a slice is a panic.
use planning_poker.Base.{
  ℕ, zero, suc, ◌+◌, String, true, false, ◌&&◌, Option, none, some, List, [], ◌∷◌, ◌++◌, str_eq,
  ◌==◌, ltb, if◌then◌else◌, length, get_elem?, take, drop,
}
use planning_poker.Base.Int.{ℤ, pos, negsuc, ltb_ℤ}
use planning_poker.DomainError.{Error, domain, validation, not_found, text}
use planning_poker.Room.{Story, Room, new_story}
use planning_poker.Room.Reveal.{in_range, story_id_at}
use planning_poker.Room.Guards.{Reply, as_owner}

pub data Outcome {ℓ} (A : Type ℓ) : Type ℓ where
  returns : A → Outcome A
  panics : Outcome A

unfoldable pub empty_story_id : Error
empty_story_id = domain validation "story ID cannot be empty" []

unfoldable pub missing_story : String → String → Error
missing_story story_id room_id =
    domain not_found "story %s not found in room %s" (text story_id ∷ text room_id ∷ [])

-- `append(stories[:i], stories[i+1:]...)`
unfoldable pub remove_at {ℓ} : {A : Type ℓ} → ℕ → List A → List A
remove_at i xs = take i xs ++ drop (i + 1) xs

-- `slices.Insert`
unfoldable pub insert_at {ℓ} : {A : Type ℓ} → ℕ → A → List A → List A
insert_at i x xs = take i xs ++ (x ∷ drop i xs)

module _ {F : Type 0} where
  -- The loop of `storyIndexByID`, which counts from `i`.
  unfoldable pub index_from : ℕ → String → List (Story F) → ℤ
  index_from i story_id [] = negsuc 0
  index_from i story_id (s ∷ ss) =
      let rest = index_from (i + 1) story_id ss in if str_eq s.id story_id then pos i else rest

  unfoldable pub story_index_by_id : String → Room F → ℤ
  story_index_by_id story_id r = index_from 0 story_id r.stories

  unfoldable pub story_at : ℤ → List (Story F) → Option (Story F)
  story_at (pos i) ss = get_elem? ss i
  story_at (negsuc i) ss = none

  unfoldable pub current_story_id : Room F → String
  current_story_id r = story_id_at (in_range r.current_story_index (length r.stories)) r.stories

  abbrev pub name_of : Option (Story F) → Outcome String
  name_of none = panics
  name_of (some s) = returns s.name

  unfoldable pub effective_current_story : Room F → Outcome String
  effective_current_story r =
      if r.backlog_mode
        && (ltb 0 (length r.stories) && ltb_ℤ r.current_story_index (pos (length r.stories)))
      then name_of (story_at r.current_story_index r.stories)
      else returns r.current_story

  unfoldable pub get_current_story_name : Room F → Outcome String
  get_current_story_name r =
      if ltb 0 (length r.stories) && ltb_ℤ r.current_story_index (pos (length r.stories))
      then name_of (story_at r.current_story_index r.stories)
      else returns ""

  unfoldable pub enter_backlog : String → Room F → Room F
  enter_backlog new_id r =
      let on = record r { backlog_mode = true } in
      if str_eq r.current_story "" then on else record on {
        stories = new_story new_id r.current_story ∷ [];
        current_story_index = pos 0;
      }

  unfoldable pub leave_backlog : String → Room F → Room F
  leave_backlog name r = record r {
    backlog_mode = false;
    current_story = if str_eq name "" then r.current_story else name;
    stories = [];
    current_story_index = pos 0;
  }

  unfoldable pub add_story : String → String → String → Room F → Reply F
  unfolding as_owner
  add_story new_id id name r = as_owner id "only the room owner can add a story" r (
    record r {
      backlog_mode = true;
      stories = r.stories ++ new_story new_id name ∷ [];
      current_story_index =
          if length (r.stories ++ new_story {F = F} new_id name ∷ []) == 1
          then pos 0
          else r.current_story_index;
    },
    none,
  )

  unfoldable pub rename : String → Story F → Story F
  rename name s = record s { name = name }

  unfoldable pub rename_at : ℕ → String → List (Story F) → List (Story F)
  rename_at i name [] = []
  rename_at zero name (s ∷ ss) = rename name s ∷ ss
  rename_at (suc i) name (s ∷ ss) = s ∷ rename_at i name ss

  unfoldable pub set_current_story : String → String → Room F → Reply F
  unfolding as_owner
  set_current_story id story r =
      as_owner id "only the room owner can set the current story" r
        (elim (if r.backlog_mode then in_range r.current_story_index (length r.stories) else none) [
          | none ↦ (record r { current_story = story }, none)
          | some i ↦ (record r { stories = rename_at i story r.stories }, none)
        ])
