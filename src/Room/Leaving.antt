-- ===== src/Room/Leaving.antt =====
-- What happens when a client leaves.
use planning_poker.Base.{
  String, ◌≡◌, ◌≢◌, refl, ◌∙◌, ◌⊎◌, inl, inr, true, false, List, [], ◌∷◌, ◌++◌, arith, length,
  if◌then◌else◌, ◌==◌, Bool-cases, All, Any,
}
use planning_poker.Float32.{Float32}
use planning_poker.Room.{Clock, Client, Room}
use planning_poker.Room.Clients.{remove, owners, promote_first, count_owners, make_owner}
use planning_poker.Room.Presence.{remove_client, ensure_owner}
use planning_poker.Room.Frame.{check_reveal-SameFrame, reveal-check_reveal}
use planning_poker.Room.Places.{Found, found_cases, IsFinished, IsWaiting, voted_cases}

-- Those who stay: all but the first client of the identifier, in their order.
abbrev pub IsRest : String → List Client → List Client → Type 0
IsRest id cs rest =
    ((f : Found id cs) × (rest ≡ f.before ++ f.after)) ⊎ (All (λ c. c.id ≢ id) cs × (rest ≡ cs))

-- The clients of the room from those who stay: nobody, the same if one of them is an owner, and
-- otherwise the same but that the first is made an owner.
abbrev pub IsOwned : List Client → List Client → Type 0
IsOwned rest cs =
    ((rest ≡ []) × (cs ≡ []))
    ⊎ (Any (λ c. c.is_owner ≡ true) rest × (cs ≡ rest))
    ⊎ ((c : Client) × (more : List Client) × (rest ≡ c ∷ more)
        × All (λ x. x.is_owner ≡ false) rest
        × (cs ≡ record c { is_owner = true } ∷ more))

remove-IsRest : (id : String) (cs : List Client) → IsRest id cs (remove id cs)
remove-IsRest id cs = elim (found_cases id cs) [
  | inl (f, found, gone, written) ↦ inl (f, gone)
  | inr (others, missing, kept) ↦ inr (others, kept)
]

owners_cases :
    (cs : List Client)
    → (((length (owners cs) == 0) ≡ true) × All (λ c. c.is_owner ≡ false) cs)
      ⊎ (((length (owners cs) == 0) ≡ false) × Any (λ c. c.is_owner ≡ true) cs)
unfolding owners
owners_cases [] = inl (refl, tt)
owners_cases (c ∷ cs) = elim (Bool-cases c.is_owner) [
  | inl e ↦ inr (ground arith, inl e)
  | inr e ↦ elim (owners_cases cs) [
    | inl (n, all) ↦ inl (ground arith, (e, all))
    | inr (n, any) ↦ inr (ground arith, inr any)
  ]
]

promote_first-IsOwned :
    (rest cs : List Client)
    → All (λ c. c.is_owner ≡ false) rest
    → cs ≡ promote_first rest
    → IsOwned rest cs
unfolding promote_first make_owner
promote_first-IsOwned [] cs all e = inl (refl, e)
promote_first-IsOwned (c ∷ more) cs all e = inr (inr (c, more, refl, all, e))

module _ {F : Type 0} where
  ensure_owner-clients :
      (r : Room F)
      → (ensure_owner r).clients
        ≡ (if length (owners r.clients) == 0 then promote_first r.clients else r.clients)
  unfolding ensure_owner count_owners promote_first
  ensure_owner-clients r = ground arith

  ensure_owner-IsOwned : (r : Room F) → IsOwned r.clients (ensure_owner r).clients
  ensure_owner-IsOwned r = elim (owners_cases r.clients) [
    | inl (e, none_owns) ↦
        let chosen : (ensure_owner r).clients ≡ promote_first r.clients =
          ensure_owner-clients r ∙ ground arith in
        promote_first-IsOwned r.clients (ensure_owner r).clients none_owns chosen
    | inr (e, one_owns) ↦ inr (inl (one_owns, ensure_owner-clients r ∙ ground arith))
  ]

  reveal-ensure_owner : (r : Room F) → (ensure_owner r).reveal ≡ r.reveal
  unfolding ensure_owner
  reveal-ensure_owner r = ground arith

module _ {F : Type 0} ⦃fl : Float32 F⦄ where
  -- After a client has left, the clients are those who stay: all but the first of the identifier,
  -- everybody if there is none. If one of those who stay owns the room they are left as they are, and
  -- otherwise the first of them is made owner. The votes are shown if every client by then is a
  -- spectator or has voted, and if one is yet to vote they are shown only if they were before.
  pub remove_client-owners :
      (t : Clock) (id : String) (r : Room F)
      → let s = remove_client t id r in
        (rest : List Client) × IsRest id r.clients rest
        × IsOwned rest s.clients
        × (((s.reveal ≡ true) × All IsFinished s.clients)
            ⊎ ((s.reveal ≡ r.reveal) × Any IsWaiting s.clients))
  unfolding remove_client
  remove_client-owners t id r =
      let rest = remove id r.clients in
      let left = record r { clients = rest } in
      let stay = ensure_owner left in
      let kept = (check_reveal-SameFrame t stay).clients in
      let shown = reveal-check_reveal t stay in
      let hidden = reveal-ensure_owner left in
      rw kept (
        rest,
        remove-IsRest id r.clients,
        ensure_owner-IsOwned left,
        elim (voted_cases stay.clients) [
          | inl (e, all) ↦ inl (ground arith, all)
          | inr (e, any) ↦ inr (ground arith, any)
        ],
      )
