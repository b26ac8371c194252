-- ===== src/Room/Invariant/People.antt =====
-- The clients' part of the invariant, at each change of the list of clients.
use planning_poker.Base.{
  ◌<◌, ◌≤◌, String, ◌≡◌, refl, true, false, Option, none, List, [], ◌∷◌, arith, length, map, All,
}
use planning_poker.Deck.{Deck}
use planning_poker.Room.{Clock, Client, new_client, mark_vote, update_name, is_cast}
use planning_poker.Room.Clients.{add, remove, update_first, owners, promote_first, make_owner}
use planning_poker.Room.Presence.{flip_owner, flip_spectator, is_last_owner}
use planning_poker.Room.Voting.{is_allowed}
use planning_poker.Room.Invariant.{IsHonest}

module _ (P : Client → Type 0) where
  pub All-update_first :
      (id : String) (f : Client → Client) (cs : List Client)
      → ((c : Client) → P c → P (f c))
      → All P cs
      → All P (update_first id f cs)
  unfolding update_first
  All-update_first id f [] k h = tt
  All-update_first id f (c ∷ cs) k h = ground (arith, k c, All-update_first id f cs k h.1)

  pub All-remove : (id : String) (cs : List Client) → All P cs → All P (remove id cs)
  unfolding remove
  All-remove id [] h = tt
  All-remove id (c ∷ cs) h = ground (arith, All-remove id cs h.1)

  pub All-map :
      (f : Client → Client) (cs : List Client) → ((c : Client) → P (f c)) → All P (map f cs)
  All-map f [] k = tt
  All-map f (c ∷ cs) k = (k c, All-map f cs k)

  pub All-add : (c : Client) (cs : List Client) → P c → All P cs → All P (add c cs)
  unfolding add
  All-add c [] p h = (p, tt)
  All-add c (d ∷ cs) p h = (h.0, All-add c cs p h.1)

  pub All-promote_first :
      (cs : List Client)
      → ((c : Client) → P c → P (make_owner c))
      → All P cs
      → All P (promote_first cs)
  unfolding promote_first
  All-promote_first [] k h = tt
  All-promote_first (c ∷ cs) k h = (k c h.0, h.1)

module _ (d : Deck) where
  pub mark_vote-IsHonest :
      (t : Clock) (v : Option String) (c : Client)
      → is_allowed v d ≡ true
      → IsHonest d (mark_vote t v c)
  unfolding mark_vote
  mark_vote-IsHonest t v c h = ground arith

  pub mark_none-IsHonest : (t : Clock) (c : Client) → IsHonest d (mark_vote t none c)
  unfolding is_allowed is_cast
  mark_none-IsHonest t c = mark_vote-IsHonest t none c refl

  pub make_owner-IsHonest : (c : Client) → IsHonest d c → IsHonest d (make_owner c)
  unfolding make_owner
  make_owner-IsHonest c h = record { voted = h.voted; stamped = h.stamped; card = h.card }

  pub flip_owner-IsHonest : (c : Client) → IsHonest d c → IsHonest d (flip_owner c)
  unfolding flip_owner
  flip_owner-IsHonest c h = record { voted = h.voted; stamped = h.stamped; card = h.card }

  pub flip_spectator-IsHonest : (c : Client) → IsHonest d c → IsHonest d (flip_spectator c)
  unfolding flip_spectator
  flip_spectator-IsHonest c h = record { voted = h.voted; stamped = h.stamped; card = h.card }

  pub update_name-IsHonest : (n : String) (c : Client) → IsHonest d c → IsHonest d (update_name n c)
  unfolding update_name
  update_name-IsHonest n c h = record { voted = h.voted; stamped = h.stamped; card = h.card }

  pub new_client-IsHonest : (id : String) → IsHonest d (new_client id)
  unfolding new_client is_cast is_allowed
  new_client-IsHonest id = ground arith

pub is_owner-mark_vote :
    (t : Clock) (v : Option String) (c : Client) → (mark_vote t v c).is_owner ≡ c.is_owner
unfolding mark_vote
is_owner-mark_vote t v c = ground arith

-- Owners, through a change that keeps who owns.
module _ (f : Client → Client) (same : (c : Client) → (f c).is_owner ≡ c.is_owner) where
  pub owners-update_first :
      (id : String) (cs : List Client) → length (owners (update_first id f cs)) ≡ length (owners cs)
  unfolding update_first owners
  owners-update_first id [] = refl
  owners-update_first id (c ∷ cs) = ground (arith, same c, owners-update_first id cs)

  pub owners-map : (cs : List Client) → length (owners (map f cs)) ≡ length (owners cs)
  unfolding owners
  owners-map [] = refl
  owners-map (c ∷ cs) = ground (arith, same c, owners-map cs)

pub length-update_first :
    (id : String) (f : Client → Client) (cs : List Client)
    → length (update_first id f cs) ≡ length cs
unfolding update_first
length-update_first id f [] = refl
length-update_first id f (c ∷ cs) = ground (arith, length-update_first id f cs)

pub owners-add_le :
    (c : Client) (cs : List Client) → length (owners cs) ≤ length (owners (add c cs))
unfolding add owners
owners-add_le c [] = omega arith
owners-add_le c (d ∷ cs) = ground (arith, owners-add_le c cs)

-- The guard on the last owner is enough: the flip of another client leaves an owner.
pub flip_owner-owned :
    (target : String) (cs : List Client)
    → is_last_owner target cs ≡ false
    → 0 < length (owners cs)
    → 0 < length (owners (update_first target flip_owner cs))
unfolding is_last_owner update_first owners flip_owner
flip_owner-owned target [] g l = absurd (omega arith)
flip_owner-owned target (c ∷ cs) g l = ground (arith, flip_owner-owned target cs)
