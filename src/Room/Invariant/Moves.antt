-- ===== src/Room/Invariant/Moves.antt =====
-- The modes of room_backlog.go, the order of its stories, and the invariant.
use planning_poker.Base.{
  ℕ, ◌+◌, ◌<◌, String, ◌≡◌, refl, Bool, true, false, Option, none, some, List, [], arith, length,
  get_elem?, Bool-cases, inl, inr, Option-cases, ◌==◌, ltb, str_eq, length-append, if_both,
  if◌then◌else◌, get_elem?-lt, ◌∙◌, ap,
}
use planning_poker.Base.Int.{ℤ, pos, negsuc, eqb_ℤ}
use planning_poker.Room.{Story, Room, deck}
use planning_poker.Room.Reveal.{in_range}
use planning_poker.Room.Guards.{Reply}
use planning_poker.Room.Backlog.{
  Outcome, returns, panics, index_from, story_index_by_id, current_story_id, remove_at, insert_at,
  rename_at, get_current_story_name, enter_backlog, leave_backlog, add_story, set_current_story,
}
use planning_poker.Room.BacklogMoves.{
  toggle_backlog_mode, update_current_story_index, move_story, reorder_found, reorder_checked,
  reorder_story,
}
use planning_poker.Room.Commands.{after}
use planning_poker.Room.Invariant.{InBounds, IsValid}
use planning_poker.Room.Invariant.Places.{
  length-move, length-rename_at, Found, index_from-has_id, has_id, has_id-story_id_at, has_id-move,
  InBounds-shift_index,
}
use planning_poker.Room.Invariant.Steps.{as_owner-keeps, as_owner_or_panic-keeps}

module _ {F : Type 0} where
  -- Another backlog, as good as the old one.
  pub backlog-IsValid :
      (r : Room F) (mode : Bool) (story : String) (ss : List (Story F)) (i : ℤ)
      → IsValid r
      → InBounds i (length ss)
      → (mode ≡ false → ss ≡ [])
      → IsValid (record r {
        backlog_mode = mode;
        current_story = story;
        stories = ss;
        current_story_index = i;
      })
  unfolding deck
  backlog-IsValid r mode story ss i v b p = record {
    in_bounds = b;
    plain = p;
    owned = v.owned;
    honest = v.honest;
    hidden = λ e. let k = v.hidden e in ground arith;
  }

  -- A room with a story is in backlog mode.
  pub stories-plain :
      (r : Room F) {i : ℕ} (ss : List (Story F))
      → IsValid r
      → i < length r.stories
      → r.backlog_mode ≡ false
      → ss ≡ []
  stories-plain r ss v h e = absurd (omega (arith, ap length (v.plain e)))

  leave_backlog-IsValid : (name : String) (r : Room F) → IsValid r → IsValid (leave_backlog name r)
  unfolding leave_backlog
  leave_backlog-IsValid name r v = backlog-IsValid r false _ [] (pos 0) v (omega arith) (λ _. refl)

  enter_backlog-IsValid :
      (new_id : String) (r : Room F) → IsValid r → IsValid (enter_backlog new_id r)
  unfolding enter_backlog
  enter_backlog-IsValid new_id r v =
      if_both IsValid (str_eq r.current_story "")
        (backlog-IsValid r true r.current_story r.stories r.current_story_index v v.in_bounds
          (λ e. cc))
        (backlog-IsValid r true r.current_story _ (pos 0) v (omega arith) (λ e. cc))

  pub toggle_backlog_mode-IsValid :
      (new_id id : String) (r : Room F)
      → IsValid r
      → IsValid (after r (toggle_backlog_mode new_id id r))
  unfolding toggle_backlog_mode
  toggle_backlog_mode-IsValid new_id id r v = as_owner_or_panic-keeps IsValid id _ r _ v (
      if_both (λ o. IsValid (after r o)) r.backlog_mode (named (get_current_story_name r))
        (enter_backlog-IsValid new_id r v))
    where
      named :
          (o : Outcome String)
          → IsValid (
              after r
                (elim o [ panics ↦ panics | returns name ↦ returns (leave_backlog name r, none) ]))
      named panics = v
      named (returns name) = leave_backlog-IsValid name r v

  pub add_story-IsValid :
      (new_id id name : String) (r : Room F) → IsValid r → IsValid (add_story new_id id name r).0
  unfolding add_story
  add_story-IsValid new_id id name r v = as_owner-keeps IsValid id _ r _ v (
      backlog-IsValid r true r.current_story _ _ v
        (added r.current_story_index (length r.stories) _ (length-append r.stories _) v.in_bounds)
        (λ e. cc))
    where
      added :
          (i : ℤ) (n m : ℕ) → m ≡ n + 1 → InBounds i n → InBounds (if m == 1 then pos 0 else i) m
      added (pos i) n m e h = ground arith
      added (negsuc i) n m e h = absurd h

  pub set_current_story-IsValid :
      (id story : String) (r : Room F) → IsValid r → IsValid (set_current_story id story r).0
  unfolding set_current_story
  set_current_story-IsValid id story r v =
      as_owner-keeps IsValid id _ r _ v (
        set_to (if r.backlog_mode then in_range r.current_story_index (length r.stories) else none))
    where
      set_to :
          (o : Option ℕ)
          → IsValid (
              let reply : Reply F = elim o [
                | none ↦ (record r { current_story = story }, none)
                | some i ↦ (record r { stories = rename_at i story r.stories }, none)
              ] in
              reply.0)
      set_to none =
          backlog-IsValid r r.backlog_mode story r.stories r.current_story_index v v.in_bounds
            v.plain
      set_to (some i) =
          backlog-IsValid r r.backlog_mode r.current_story _ r.current_story_index v
            (rw length-rename_at v.in_bounds) (λ e. rw (v.plain e) (unfold rename_at in refl))

  current-has_id :
      (r : Room F)
      → str_eq (current_story_id r) "" ≡ false
      → has_id (current_story_id r) r.stories ≡ true
  unfolding current_story_id
  current-has_id r e = has_id-story_id_at _ r.stories e

  -- The index of a story that is found stands in the backlog.
  pub Found-InBounds :
      (id : String) (ss : List (Story F))
      → Found 0 id ss
      → InBounds (index_from 0 id ss) (length ss)
  Found-InBounds id ss (i, s, p, q, w) = rw p (omega (arith, get_elem?-lt ss i q))

  pub move_story-IsValid :
      (i target : ℕ) (s : Story F) (r : Room F)
      → get_elem? r.stories i ≡ some s
      → target < length r.stories
      → IsValid r
      → IsValid (move_story i target s r)
  unfolding move_story update_current_story_index story_index_by_id
  move_story-IsValid i target s r h k v = elim (Bool-cases (str_eq (current_story_id r) "")) [
    | inl e ↦ rw e (elim (Bool-cases (eqb_ℤ r.current_story_index (pos i))) [
      | inl q ↦ rw q (at (pos target) (rw same_length (omega arith)))
      | inr q ↦ rw q (
          at _ (
            rw same_length
              (InBounds-shift_index i target r.current_story_index _ v.in_bounds placed k q)))
    ])
    | inr e ↦ rw e (
        at _ (
          Found-InBounds (current_story_id r) moved (
            index_from-has_id 0 _ moved
              (has_id-move _ r.stories i target s h ∙ current-has_id r e))))
  ]
    where
      moved : List (Story F)
      moved = insert_at target s (remove_at i r.stories)

      placed : i < length r.stories
      placed = get_elem?-lt r.stories i h

      same_length : length moved ≡ length r.stories
      same_length = length-move r.stories i target s placed k

      at :
          (j : ℤ)
          → InBounds j (length moved)
          → IsValid (record r { stories = moved; current_story_index = j })
      at j b =
          backlog-IsValid r r.backlog_mode r.current_story moved j v b
            (stories-plain r moved v placed)

  reorder_found-IsValid :
      (index : ℤ) (target : ℕ) (r : Room F)
      → target < length r.stories
      → IsValid r
      → IsValid (reorder_found index target r)
  unfolding reorder_found
  reorder_found-IsValid (negsuc n) target r k v = v
  reorder_found-IsValid (pos i) target r k v =
      if_both IsValid (i == target) v (elim (Option-cases (get_elem? r.stories i)) [
        | inl e ↦ rw e v
        | inr (s, e) ↦ rw e (move_story-IsValid i target s r e k v)
      ])

  reorder_checked-IsValid :
      (story_id : String) (target : ℤ) (r : Room F)
      → IsValid r
      → IsValid (reorder_checked story_id target r).0
  unfolding reorder_checked
  reorder_checked-IsValid story_id (negsuc n) r v = v
  reorder_checked-IsValid story_id (pos target) r v =
      elim (Bool-cases (ltb target (length r.stories))) [
        | inl e ↦ rw e (
            if_both (λ (p : Reply F). IsValid p.0) (eqb_ℤ (story_index_by_id story_id r) (negsuc 0))
              v (reorder_found-IsValid _ target r (ground arith) v))
        | inr e ↦ rw e v
      ]

  pub reorder_story-IsValid :
      (id story_id : String) (target : ℤ) (r : Room F)
      → IsValid r
      → IsValid (reorder_story id story_id target r).0
  unfolding reorder_story
  reorder_story-IsValid id story_id target r v = as_owner-keeps IsValid id _ r _ v (
      if_both (λ (p : Reply F). IsValid p.0) (str_eq story_id "") v
        (reorder_checked-IsValid story_id target r v))
