-- ===== src/Room/Places.antt =====
-- Which client of a room an identifier names, and who of the clients is yet to vote, said of the
-- clients in their order and without the searches of room_presence.go.
use planning_poker.Base.{
  String, ◌≡◌, ◌≢◌, refl, ap, ◌⊎◌, inl, inr, true, false, none, some, List, [], ◌∷◌, ◌++◌, arith,
  str_eq, eq_iff, Bool-cases, All, Any,
}
use planning_poker.Room.{Client}
use planning_poker.Room.Clients.{find, remove, update_first}
use planning_poker.Room.Reveal.{all_voted}

-- The first client of the identifier, with the clients before it and after it.
pub record Found (id : String) (cs : List Client) : Type 0 where
  pub before : List Client
  pub client : Client
  pub after : List Client
  pub whole : cs ≡ before ++ client ∷ after
  pub named : client.id ≡ id
  pub others : All (λ x. x.id ≢ id) before

-- What the searches and writes by an identifier do, if it names a client and if it names none.
abbrev Reaches : String → List Client → Type 0
Reaches id cs =
    ((f : Found id cs) × (find id cs ≡ some f.client)
      × (remove id cs ≡ f.before ++ f.after)
      × ((g : Client → Client) → update_first id g cs ≡ f.before ++ g f.client ∷ f.after))
    ⊎ (All (λ x. x.id ≢ id) cs × (find id cs ≡ none) × (remove id cs ≡ cs))

Reaches-cons :
    (id : String) (c : Client) (cs : List Client) → c.id ≢ id → Reaches id cs → Reaches id (c ∷ cs)
unfolding find remove update_first
Reaches-cons id c cs n (inl (f, found, gone, written)) = inl (
  record {
    before = c ∷ f.before;
    client = f.client;
    after = f.after;
    whole = ap (λ l. c ∷ l) f.whole;
    named = f.named;
    others = (n, f.others);
  },
  ground (arith, eq_iff c.id id, found),
  ground (arith, eq_iff c.id id, gone),
  λ g. ground (arith, eq_iff c.id id, written g),
)
Reaches-cons id c cs n (inr (others, missing, kept)) =
    inr ((n, others), ground (arith, eq_iff c.id id, missing), ground (arith, eq_iff c.id id, kept))

pub found_cases : (id : String) (cs : List Client) → Reaches id cs
unfolding find remove update_first
found_cases id [] = inr (tt, refl, refl)
found_cases id (c ∷ cs) = elim (Bool-cases (str_eq c.id id)) [
  | inl e ↦ inl (
    record {
      before = [];
      client = c;
      after = cs;
      whole = refl;
      named = ground (arith, eq_iff c.id id);
      others = tt;
    },
    ground arith,
    ground arith,
    λ g. ground arith,
  )
  | inr e ↦ Reaches-cons id c cs (ground (arith, eq_iff c.id id)) (found_cases id cs)
]

-- A client that has voted, or does not vote; and one that is yet to vote.
abbrev pub IsFinished : Client → Type 0
IsFinished c = (c.is_spectator ≡ true) ⊎ (c.has_voted ≡ true)

abbrev pub IsWaiting : Client → Type 0
IsWaiting c = (c.is_spectator ≡ false) × (c.has_voted ≡ false)

IsFinished-cases : (c : Client) → IsFinished c ⊎ IsWaiting c
IsFinished-cases c = elim (Bool-cases c.is_spectator) [
  | inl e ↦ inl (inl e)
  | inr e ↦ elim (Bool-cases c.has_voted) [ inl v ↦ inl (inr v) | inr v ↦ inr (e, v) ]
]

-- The test of `checkReveal` is true if every client is finished, and false if one is waiting.
pub voted_cases :
    (cs : List Client)
    → ((all_voted cs ≡ true) × All IsFinished cs) ⊎ ((all_voted cs ≡ false) × Any IsWaiting cs)
unfolding all_voted
voted_cases [] = inl (refl, tt)
voted_cases (c ∷ cs) = elim (IsFinished-cases c) [
  | inr (e, v) ↦ inr (ground arith, inl (e, v))
  | inl done ↦ elim (voted_cases cs) [
    | inl (e, all) ↦ inl (ground arith, (done, all))
    | inr (e, any) ↦ inr (ground arith, inr any)
  ]
]
