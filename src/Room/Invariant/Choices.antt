-- ===== src/Room/Invariant/Choices.antt =====
-- The removal and the choice of a story in room_backlog.go, and the invariant.
use planning_poker.Base.{
  ℕ, ◌+◌, ◌-◌, ◌<◌, String, ◌≡◌, refl, false, Option, none, some, [], arith, length, Bool-cases,
  inl, inr, ◌==◌, str_eq, if_both, get_elem?-lt,
}
use planning_poker.Base.Int.{ℤ, pos, negsuc, ◌-ℤ◌, ltb_ℤ, eqb_ℤ}
use planning_poker.Float32.{Float32}
use planning_poker.Room.{Clock, Story, Room}
use planning_poker.Room.Guards.{Reply}
use planning_poker.Room.Voting.{restart}
use planning_poker.Room.Backlog.{story_index_by_id, story_at}
use planning_poker.Room.BacklogMoves.{
  remove_at_index, step_index, remove_found, remove_story, select_found, select_open,
  select_checked, select_story, advance_to_next_story, prev_story,
}
use planning_poker.Room.Commands.{after}
use planning_poker.Room.Frame.{restart-frame}
use planning_poker.Room.Invariant.{InBounds, IsOwned, IsValid}
use planning_poker.Room.Invariant.Places.{
  length-remove_at, index_from-cases, InBounds-next, InBounds-prev, InBounds-more,
  InBounds-removed_last, InBounds-removed_same, InBounds-removed_before, InBounds-removed_after,
}
use planning_poker.Room.Invariant.Steps.{restart-IsValid, as_owner-keeps, as_owner_or_panic-keeps}
use planning_poker.Room.Invariant.Methods.{record_event-IsValid}
use planning_poker.Room.Invariant.Moves.{Found-InBounds, backlog-IsValid, stories-plain}

module _ {F : Type 0} ⦃fl : Float32 F⦄ where
  -- One story less behind a fresh round, or no round.
  drop_story-IsValid :
      (i : ℕ) (r : Room F)
      → IsValid r
      → i < length r.stories
      → InBounds r.current_story_index (length r.stories - 1)
      → IsValid (remove_at_index (pos i) r)
  unfolding remove_at_index
  drop_story-IsValid i r v h b =
      backlog-IsValid r r.backlog_mode r.current_story _ r.current_story_index v
        (rw (length-remove_at i r.stories h) b) (stories-plain r _ v h)

  -- A fresh round, and then a story less.
  restart_drop-IsValid :
      (t : Clock) (i : ℕ) (r : Room F)
      → (r.backlog_mode ≡ false → r.stories ≡ [])
      → IsOwned r.clients
      → i < length r.stories
      → InBounds r.current_story_index (length r.stories - 1)
      → IsValid (remove_at_index (pos i) (restart t r))
  restart_drop-IsValid t i r p o h b =
      let frame = restart-frame t r in
      drop_story-IsValid i (restart t r)
        (restart-IsValid t r (InBounds-more r.current_story_index _ b) p o) (rw frame.5 h)
        (rw (frame.4, frame.5) b)

  remove_found-IsValid :
      (t : Clock) (i : ℕ) (r : Room F)
      → i < length r.stories
      → IsValid r
      → IsValid (remove_found t (pos i) r)
  unfolding remove_found step_index
  remove_found-IsValid t i r h v = elim (Bool-cases (eqb_ℤ (pos i) r.current_story_index)) [
    | inl e ↦ rw e (elim (Bool-cases (length r.stories == 1)) [
      | inl one ↦ rw one (
          restart-IsValid t (record r { current_story_index = pos 0; stories = [] }) (omega arith)
            (λ _. refl) v.owned)
      | inr more ↦ rw more (elim (Bool-cases (eqb_ℤ (pos i) (pos (length r.stories) -ℤ pos 1))) [
        | inl q ↦ rw q (
            restart_drop-IsValid t i (step_index (negsuc 0) r) v.plain v.owned h
              (InBounds-removed_last i r.current_story_index _ h more e q))
        | inr q ↦ rw q (
            restart_drop-IsValid t i r v.plain v.owned h
              (InBounds-removed_same i r.current_story_index _ h e q))
      ])
    ])
    | inr e ↦ rw e (elim (Bool-cases (ltb_ℤ (pos i) r.current_story_index)) [
      | inl q ↦ rw q (
          drop_story-IsValid i (step_index (negsuc 0) r)
            (backlog-IsValid r r.backlog_mode r.current_story r.stories _ v
              (InBounds-prev i r.current_story_index _ v.in_bounds q) v.plain)
            h (InBounds-removed_before i r.current_story_index _ v.in_bounds q))
      | inr q ↦ rw q (
          drop_story-IsValid i r v h
            (InBounds-removed_after i r.current_story_index _ v.in_bounds h e q))
    ])
  ]

  pub remove_story-IsValid :
      (t : Clock) (id story_id : String) (r : Room F)
      → IsValid r
      → IsValid (remove_story t id story_id r).0
  unfolding remove_story story_index_by_id
  remove_story-IsValid t id story_id r v = as_owner-keeps IsValid id _ r _ v (
      if_both (λ (p : Reply F). IsValid p.0) (str_eq story_id "") v
        (elim (index_from-cases 0 story_id r.stories) [
          | inl e ↦ rw e v
          | inr (i, s, p, q, w) ↦ rw p (
              if_both (λ (p : Reply F). IsValid p.0) (eqb_ℤ (pos (0 + i)) (negsuc 0)) v
                (remove_found-IsValid t (0 + i) r (omega (arith, get_elem?-lt r.stories i q)) v))
        ]))

  select_open-IsValid :
      (t : Clock) (story_id : String) (index : ℤ) (o : Option (Story F)) (r : Room F)
      → InBounds index (length r.stories)
      → IsValid r
      → IsValid (after r (select_open t story_id index o r))
  unfolding select_open select_found
  select_open-IsValid t story_id index none r b v = v
  select_open-IsValid t story_id index (some s) r b v =
      if_both (λ o. IsValid (after r o)) s.voted v
        (record_event-IsValid _ _
          (restart-IsValid t (record r { current_story_index = index }) b v.plain v.owned))

  select_checked-IsValid :
      (t : Clock) (story_id : String) (r : Room F)
      → IsValid r
      → IsValid (after r (select_checked t story_id (story_index_by_id story_id r) r))
  unfolding select_checked story_index_by_id
  select_checked-IsValid t story_id r v = elim (index_from-cases 0 story_id r.stories) [
    | inl e ↦ rw e v
    | inr f ↦
        let index : ℤ = story_index_by_id story_id r in
        if_both (λ o. IsValid (after r o)) (eqb_ℤ index (negsuc 0)) v
          (if_both (λ o. IsValid (after r o)) (eqb_ℤ index r.current_story_index) v
            (select_open-IsValid t story_id index (story_at index r.stories) r
              (Found-InBounds story_id r.stories f) v))
  ]

  pub select_story-IsValid :
      (t : Clock) (id story_id : String) (r : Room F)
      → IsValid r
      → IsValid (after r (select_story t id story_id r))
  unfolding select_story
  select_story-IsValid t id story_id r v = as_owner_or_panic-keeps IsValid id _ r _ v (
      if_both (λ o. IsValid (after r o)) (str_eq story_id "") v
        (select_checked-IsValid t story_id r v))

  pub advance_to_next_story-IsValid :
      (t : Clock) (id : String) (r : Room F) → IsValid r → IsValid (advance_to_next_story t id r).0
  unfolding advance_to_next_story step_index
  advance_to_next_story-IsValid t id r v =
      as_owner-keeps IsValid id _ r _ v
        (elim (Bool-cases (ltb_ℤ r.current_story_index (pos (length r.stories) -ℤ pos 1))) [
          | inl e ↦ rw e (
              restart-IsValid t (step_index (pos 1) r)
                (InBounds-next r.current_story_index _ v.in_bounds e) v.plain v.owned)
          | inr e ↦ rw e v
        ])

  pub prev_story-IsValid :
      (t : Clock) (id : String) (r : Room F) → IsValid r → IsValid (prev_story t id r).0
  unfolding prev_story step_index
  prev_story-IsValid t id r v =
      as_owner-keeps IsValid id _ r _ v (elim (Bool-cases (ltb_ℤ (pos 0) r.current_story_index)) [
        | inl e ↦ rw e (
            restart-IsValid t (step_index (negsuc 0) r)
              (InBounds-prev 0 r.current_story_index _ v.in_bounds e) v.plain v.owned)
        | inr e ↦ rw e v
      ])
