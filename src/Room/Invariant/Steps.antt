-- ===== src/Room/Invariant/Steps.antt =====
-- The building blocks of the methods and the invariant: reveals, fresh rounds, guards.
use planning_poker.Base.{
  String, ◌≡◌, refl, sym, Bool, true, false, none, List, [], ◌∷◌, arith, length, Bool-cases, inl,
  inr, ◌∙◌, ap, Option-cases, length-map,
}
use planning_poker.Float32.{Float32}
use planning_poker.Room.{Clock, Client, Room, mark_vote, deck}
use planning_poker.Room.Clients.{find_client}
use planning_poker.Room.Reveal.{reveal, check_reveal, all_voted, clear_consensus}
use planning_poker.Room.Voting.{restart, clear_votes}
use planning_poker.Room.Guards.{Reply, with_client, as_owner}
use planning_poker.Room.Backlog.{Outcome}
use planning_poker.Room.BacklogMoves.{as_owner_or_panic}
use planning_poker.Room.Commands.{after}
use planning_poker.Room.Frame.{
  SameFrame, reveal-SameFrame, reveal-reveal, restart-frame, clients-restart,
}
use planning_poker.Room.Invariant.{InBounds, IsOwned, IsCleared, IsValid}
use planning_poker.Room.Invariant.People.{
  All-map, mark_none-IsHonest, owners-map, is_owner-mark_vote,
}

length_zero {ℓ} : {A : Type ℓ} (xs : List A) → length xs ≡ 0 → xs ≡ []
length_zero [] h = refl
length_zero (x ∷ xs) h = absurd (omega arith)

module _ {F : Type 0} where
  pub deck-eq : (r s : Room F) → s.deck_type ≡ r.deck_type → deck s ≡ deck r
  unfolding deck
  deck-eq r s e = rw e

  -- A room that agrees with a valid one on the frame is valid if it hides what it should.
  pub SameFrame-IsValid :
      {r s : Room F} → SameFrame r s → IsValid r → (s.reveal ≡ false → IsCleared s) → IsValid s
  SameFrame-IsValid {r} {s} f v h = record {
    in_bounds = rw (f.current_story_index, f.stories) v.in_bounds;
    plain = λ e. length_zero s.stories (f.stories ∙ ap length (v.plain (sym f.backlog_mode ∙ e)));
    owned = rw f.clients v.owned;
    honest = rw (deck-eq r s f.deck_type, f.clients) v.honest;
    hidden = h;
  }

module _ {F : Type 0} ⦃fl : Float32 F⦄ where
  pub IsCleared-reveal :
      (t : Clock) (on : Bool) (r : Room F)
      → (reveal t on r).reveal ≡ false
      → IsCleared (reveal t on r)
  IsCleared-reveal t true r h = cc (reveal-reveal t true r)
  IsCleared-reveal t false r h = unfold reveal clear_consensus in ground arith

  pub reveal-IsValid : (t : Clock) (on : Bool) (r : Room F) → IsValid r → IsValid (reveal t on r)
  reveal-IsValid t on r v = SameFrame-IsValid (reveal-SameFrame t on r) v (IsCleared-reveal t on r)

  pub check_reveal-IsValid : (t : Clock) (r : Room F) → IsValid r → IsValid (check_reveal t r)
  unfolding check_reveal
  check_reveal-IsValid t r v = elim (Bool-cases (all_voted r.clients)) [
    | inl e ↦ rw e (reveal-IsValid t true r v)
    | inr e ↦ rw e v
  ]

  IsCleared-restart : (t : Clock) (r : Room F) → IsCleared (restart t r)
  unfolding restart clear_votes reveal clear_consensus
  IsCleared-restart t r = ground arith

  -- A fresh round makes a valid room of one whose backlog and owners are in order.
  pub restart-IsValid :
      (t : Clock) (r : Room F)
      → InBounds r.current_story_index (length r.stories)
      → (r.backlog_mode ≡ false → r.stories ≡ [])
      → IsOwned r.clients
      → IsValid (restart t r)
  restart-IsValid t r b p o =
      let frame = restart-frame t r in
      record {
        in_bounds = rw (frame.4, frame.5) b;
        plain = λ e. frame.5 ∙ p (sym frame.3 ∙ e);
        owned =
            rw
              (
                clients-restart,
                length-map,
                owners-map (mark_vote t none) (is_owner-mark_vote t none),
              )
              o;
        honest = rw clients-restart (All-map _ _ r.clients (mark_none-IsHonest _ t));
        hidden = λ _. IsCleared-restart t r;
      }

module _ {F : Type 0} (P : Room F → Type 0) where
  pub with_client-keeps :
      (id : String) (r : Room F) (body : Client → Reply F)
      → P r
      → ((c : Client) → P (body c).0)
      → P (with_client id r body).0
  unfolding with_client
  with_client-keeps id r body h k = elim (Option-cases (find_client id r)) [
    | inl e ↦ rw (e, with_client) h
    | inr (c, e) ↦ rw (e, with_client) (k c)
  ]

  pub as_owner-keeps :
      (id message : String) (r : Room F) (body : Reply F)
      → P r
      → P body.0
      → P (as_owner id message r body).0
  unfolding as_owner
  as_owner-keeps id message r body h k = elim (Option-cases (find_client id r)) [
    | inl e ↦ rw (e, as_owner, with_client) h
    | inr (c, e) ↦
        rw (e, as_owner, with_client)
          (elim (Bool-cases c.is_owner) [ inl o ↦ rw o k | inr o ↦ rw o h ])
  ]

  pub as_owner_or_panic-keeps :
      (id message : String) (r : Room F) (body : Outcome (Reply F))
      → P r
      → P (after r body)
      → P (after r (as_owner_or_panic id message r body))
  unfolding as_owner_or_panic
  as_owner_or_panic-keeps id message r body h k = elim (Option-cases (find_client id r)) [
    | inl e ↦ rw (e, as_owner_or_panic, after) h
    | inr (c, e) ↦
        rw (e, as_owner_or_panic, after)
          (elim (Bool-cases c.is_owner) [ inl o ↦ rw o k | inr o ↦ rw o h ])
  ]
