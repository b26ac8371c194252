-- ===== src/Room/Invariant/Methods.antt =====
-- The methods of room_presence.go and room_voting.go and the invariant.
use planning_poker.Base.{
  String, ◌≡◌, refl, Bool, true, false, ◌&&◌, not, Option, none, List, [], ◌∷◌, arith, length, All,
  Bool-cases, inl, inr, Option-cases, ◌==◌, ltb, length-append, if_both,
}
use planning_poker.Deck.{Deck}
use planning_poker.DomainError.{Error}
use planning_poker.Float32.{Float32}
use planning_poker.Room.{
  Clock, Client, Room, mark_vote, deck, new_client, update_name, record_event, pull_events, Event,
  is_cast,
}
use planning_poker.Room.Clients.{
  add, remove, update_first, owners, promote_first, make_owner, find_client, count_owners,
}
use planning_poker.Room.Presence.{
  new_client_in, ensure_owner, remove_client, update_client_name, apply_vote, flip_owner,
  flip_spectator, is_last_owner, toggle_owner_of, toggle_owner, admin_toggle_owner,
  toggle_spectator_of, toggle_spectator,
}
use planning_poker.Room.Voting.{vote, toggle_reveal, reset_voting, cast_event, is_allowed}
use planning_poker.Room.Invariant.{IsHonest, IsOwned, IsValid}
use planning_poker.Room.Invariant.People.{
  All-update_first, All-remove, All-add, All-promote_first, mark_vote-IsHonest, make_owner-IsHonest,
  flip_owner-IsHonest, flip_spectator-IsHonest, update_name-IsHonest, new_client-IsHonest,
  owners-update_first, length-update_first, owners-add_le, flip_owner-owned, is_owner-mark_vote,
}
use planning_poker.Room.Invariant.Steps.{
  reveal-IsValid, check_reveal-IsValid, restart-IsValid, with_client-keeps, as_owner-keeps,
}

promote_first-IsOwned : (cs : List Client) → IsOwned (promote_first cs)
unfolding promote_first make_owner owners
promote_first-IsOwned [] = λ h. h
promote_first-IsOwned (c ∷ cs) = λ h. omega arith

same_owners :
    (id : String) (f : Client → Client)
    → ((c : Client) → (f c).is_owner ≡ c.is_owner)
    → (cs : List Client) → IsOwned cs
    → IsOwned (update_first id f cs)
same_owners id f same cs h = rw (length-update_first, owners-update_first f same) h

none-is_allowed : (d : Deck) → is_allowed none d ≡ true
unfolding is_allowed is_cast
none-is_allowed d = refl

-- A newcomer to a room that has somebody leaves it its owners.
add-IsOwned :
    (c : Client) (cs : List Client)
    → (length (add c cs) == 1) ≡ false
    → IsOwned cs
    → IsOwned (add c cs)
unfolding add
add-IsOwned c cs e h l = ground (arith, length-append cs (c ∷ []), owners-add_le c cs)

module _ {F : Type 0} where
  -- Another list of clients, as good as the old one.
  pub clients-IsValid :
      (r : Room F) (cs : List Client)
      → IsValid r
      → IsOwned cs
      → All (IsHonest (deck r)) cs
      → IsValid (record r { clients = cs })
  unfolding deck
  clients-IsValid r cs v o h = record {
    in_bounds = v.in_bounds;
    plain = v.plain;
    owned = o;
    honest = h;
    hidden = λ e. let k = v.hidden e in ground arith;
  }

  pub new_client_in-IsValid : (id : String) (r : Room F) → IsValid r → IsValid (new_client_in id r)
  unfolding new_client_in
  new_client_in-IsValid id r v = elim (Bool-cases (length (add (new_client id) r.clients) == 1)) [
    | inl e ↦ rw e (
        clients-IsValid r _ v (promote_first-IsOwned _)
          (All-promote_first _ _ (make_owner-IsHonest _) joined))
    | inr e ↦ rw e (clients-IsValid r _ v (add-IsOwned _ r.clients e v.owned) joined)
  ]
    where
      joined : All (IsHonest (deck r)) (add (new_client id) r.clients)
      joined = All-add _ (new_client id) r.clients (new_client-IsHonest _ id) v.honest

  pub ensure_owner-IsValid :
      (r : Room F) (cs : List Client)
      → IsValid r
      → All (IsHonest (deck r)) cs
      → IsValid (ensure_owner (record r { clients = cs }))
  unfolding ensure_owner count_owners
  ensure_owner-IsValid r cs v h =
      elim (Bool-cases ((length (owners cs) == 0) && ltb 0 (length cs))) [
        | inl e ↦
            rw (e, count_owners)
              (clients-IsValid r _ v (promote_first-IsOwned cs)
                (All-promote_first _ cs (make_owner-IsHonest _) h))
        | inr e ↦ rw (e, count_owners) (clients-IsValid r cs v (ground arith) h)
      ]

  pub update_client_name-IsValid :
      (id name : String) (r : Room F) → IsValid r → IsValid (update_client_name id name r).0
  unfolding update_client_name
  update_client_name-IsValid id name r v = with_client-keeps IsValid id r _ v λ _.
      clients-IsValid r _ v (same_owners id (update_name name) named r.clients v.owned)
        (All-update_first _ id (update_name name) r.clients (update_name-IsHonest _ name) v.honest)
    where
      named : (c : Client) → (update_name name c).is_owner ≡ c.is_owner
      named c = unfold update_name in refl

  pub apply_vote-IsValid :
      (t : Clock) (id : String) (o : Option String) (r : Room F)
      → is_allowed o (deck r) ≡ true
      → IsValid r
      → IsValid (apply_vote t id o r)
  unfolding apply_vote
  apply_vote-IsValid t id o r a v = if_both IsValid r.reveal v (
      clients-IsValid r _ v
        (same_owners id (mark_vote t o) (is_owner-mark_vote t o) r.clients v.owned)
        (All-update_first _ id (mark_vote t o) r.clients (λ c _. mark_vote-IsHonest _ t o c a)
          v.honest))

  toggle_owner_of-IsValid :
      (target : String) (missing : Error) (r : Room F)
      → is_last_owner target r.clients ≡ false
      → IsValid r
      → IsValid (toggle_owner_of target missing r).0
  unfolding toggle_owner_of
  toggle_owner_of-IsValid target missing r g v = elim (Option-cases (find_client target r)) [
    | inl e ↦ rw (e, toggle_owner_of) v
    | inr (c, e) ↦
        rw (e, toggle_owner_of)
          (clients-IsValid r _ v
            (λ l.
              flip_owner-owned target r.clients g
                (v.owned (rw (← length-update_first target flip_owner) l)))
            (All-update_first _ target flip_owner r.clients (flip_owner-IsHonest _) v.honest))
  ]

  pub pull_events-IsValid : (r : Room F) → IsValid r → IsValid (pull_events r).1
  unfolding pull_events deck
  pull_events-IsValid r v = record {
    in_bounds = v.in_bounds;
    plain = v.plain;
    owned = v.owned;
    honest = v.honest;
    hidden = λ e. let k = v.hidden e in ground arith;
  }

  pub record_event-IsValid : (e : Event F) (r : Room F) → IsValid r → IsValid (record_event e r)
  unfolding record_event deck
  record_event-IsValid e r v = record {
    in_bounds = v.in_bounds;
    plain = v.plain;
    owned = v.owned;
    honest = v.honest;
    hidden = λ h. let k = v.hidden h in ground arith;
  }

  pub toggle_owner-IsValid :
      (id target : String) (r : Room F) → IsValid r → IsValid (toggle_owner id target r).0
  unfolding toggle_owner
  toggle_owner-IsValid id target r v =
      as_owner-keeps IsValid id _ r _ v (elim (Bool-cases (is_last_owner target r.clients)) [
        | inl e ↦ rw e v
        | inr e ↦ rw e (toggle_owner_of-IsValid target _ r e v)
      ])

  pub admin_toggle_owner-IsValid :
      (target : String) (r : Room F) → IsValid r → IsValid (admin_toggle_owner target r).0
  unfolding admin_toggle_owner
  admin_toggle_owner-IsValid target r v = elim (Bool-cases (is_last_owner target r.clients)) [
    | inl e ↦ rw e v
    | inr e ↦ rw e (toggle_owner_of-IsValid target _ r e v)
  ]

module _ {F : Type 0} ⦃fl : Float32 F⦄ where
  pub remove_client-IsValid :
      (t : Clock) (id : String) (r : Room F) → IsValid r → IsValid (remove_client t id r)
  unfolding remove_client
  remove_client-IsValid t id r v =
      check_reveal-IsValid t _
        (ensure_owner-IsValid r (remove id r.clients) v (All-remove _ id r.clients v.honest))

  toggle_spectator_of-IsValid :
      (t : Clock) (target : String) (r : Room F)
      → IsValid r
      → IsValid (toggle_spectator_of t target r).0
  unfolding toggle_spectator_of
  toggle_spectator_of-IsValid t target r v = elim (Option-cases (find_client target r)) [
    | inl e ↦ rw (e, toggle_spectator_of) v
    | inr (c, e) ↦
        rw (e, toggle_spectator_of)
          (check_reveal-IsValid t _ (
            apply_vote-IsValid t target none _ (none-is_allowed _) (
              clients-IsValid r _ v (same_owners target flip_spectator flipped r.clients v.owned) (
                All-update_first _ target flip_spectator r.clients (flip_spectator-IsHonest _)
                  v.honest))))
  ]
    where
      flipped : (c : Client) → (flip_spectator c).is_owner ≡ c.is_owner
      flipped c = unfold flip_spectator in refl

  pub toggle_spectator-IsValid :
      (t : Clock) (id target : String) (r : Room F)
      → IsValid r
      → IsValid (toggle_spectator t id target r).0
  unfolding toggle_spectator
  toggle_spectator-IsValid t id target r v =
      as_owner-keeps IsValid id _ r _ v (toggle_spectator_of-IsValid t target r v)

  cast_event-IsValid :
      (t : Clock) (id : String) (o : Option String) (b : Bool) (r : Room F)
      → IsValid r
      → IsValid (cast_event t id o b r)
  unfolding cast_event
  cast_event-IsValid t id o b r v = elim (Bool-cases (b && is_cast o)) [
    | inl e ↦ rw e (record_event-IsValid _ r v)
    | inr e ↦ rw e v
  ]

  pub vote-IsValid :
      (t : Clock) (id : String) (o : Option String) (r : Room F)
      → IsValid r
      → IsValid (vote t id o r).0
  unfolding vote
  vote-IsValid t id o r v = with_client-keeps IsValid id r _ v λ _.
      elim (Bool-cases (is_allowed o (deck r))) [
        | inl e ↦ rw e (
            check_reveal-IsValid t _
              (cast_event-IsValid t id o (not r.reveal) _ (apply_vote-IsValid t id o r e v)))
        | inr e ↦ rw e v
      ]

  pub toggle_reveal-IsValid :
      (t : Clock) (id : String) (r : Room F) → IsValid r → IsValid (toggle_reveal t id r).0
  unfolding toggle_reveal
  toggle_reveal-IsValid t id r v =
      as_owner-keeps IsValid id _ r _ v (reveal-IsValid t (not r.reveal) r v)

  pub reset_voting-IsValid :
      (t : Clock) (id : String) (r : Room F) → IsValid r → IsValid (reset_voting t id r).0
  unfolding reset_voting
  reset_voting-IsValid t id r v =
      as_owner-keeps IsValid id _ r _ v (restart-IsValid t r v.in_bounds v.plain v.owned)
