-- ===== src/Room/Tally.antt =====
-- What the counts of the votes say: how often each label was cast, and which labels are collected.
use mathlib.Core.List.{append_assoc, append-nil}
use planning_poker.Base.{
  ℕ, suc, ◌+◌, ◌<◌, String, ◌≡◌, refl, sym, ap, ◌∙◌, Option, none, some, List, [], ◌∷◌, ◌++◌, arith,
  str_eq, eq_iff, if◌then◌else◌, Option-cases, inl, inr,
}
use planning_poker.Base.Maps.{StringMap, lookup, insert, lookup-insert, Distinct, insert-Distinct}
use planning_poker.Deck.{Deck, position}
use planning_poker.Float32.{Float32}
use planning_poker.Room.{Client}
use planning_poker.Room.Votes.{
  VoteMetrics, or_zero, bump, tally, collect_label, collect_client, collect_from, collect_votes,
}
use planning_poker.Room.Consensus.{count_votes}

-- How often a label was cast.
unfoldable pub occurs : String → List String → ℕ
occurs v [] = 0
occurs v (w ∷ vs) = let rest = occurs v vs in if str_eq w v then suc rest else rest

pub or_zero-bump :
    (v w : String) (m : StringMap ℕ)
    → or_zero (lookup v (bump w m))
      ≡ (if str_eq w v then or_zero (lookup v m) + 1 else or_zero (lookup v m))
unfolding bump
or_zero-bump v w m = ground (arith, lookup-insert w v (or_zero (lookup w m) + 1) m, eq_iff w v)

-- The count of a label is the number of times it occurs.
pub or_zero-count_votes :
    (v : String) (vs : List String) (m : StringMap ℕ)
    → or_zero (lookup v (count_votes vs m)) ≡ or_zero (lookup v m) + occurs v vs
unfolding count_votes occurs
or_zero-count_votes v [] m = omega arith
or_zero-count_votes v (w ∷ vs) m =
    ground (arith, or_zero-count_votes v vs (bump w m), or_zero-bump v w m)

pub count_votes-Distinct :
    (vs : List String) (m : StringMap ℕ) → Distinct m → Distinct (count_votes vs m)
unfolding count_votes
count_votes-Distinct [] m h = h
count_votes-Distinct (v ∷ vs) m h =
    count_votes-Distinct vs (bump v m) (unfold bump in insert-Distinct v _ m h)

-- Every count is at least 1.
abbrev pub NoZero : StringMap ℕ → Type 0
NoZero [] = Unit
NoZero ((k, n) ∷ m) = (0 < n) × NoZero m

bump-NoZero : (v : String) (n : ℕ) (m : StringMap ℕ) → 0 < n → NoZero m → NoZero (insert v n m)
unfolding insert
bump-NoZero v n [] p h = (p, tt)
bump-NoZero v n ((i, k) ∷ m) p h = ground (arith, bump-NoZero v n m p h.1)

pub count_votes-NoZero : (vs : List String) (m : StringMap ℕ) → NoZero m → NoZero (count_votes vs m)
unfolding count_votes
count_votes-NoZero [] m h = h
count_votes-NoZero (v ∷ vs) m h =
    count_votes-NoZero vs (bump v m) (unfold bump in bump-NoZero v _ m (omega arith) h)

count_votes-append :
    (xs ys : List String) (m : StringMap ℕ)
    → count_votes (xs ++ ys) m ≡ count_votes ys (count_votes xs m)
unfolding count_votes
count_votes-append [] ys m = refl
count_votes-append (x ∷ xs) ys m = count_votes-append xs ys (bump x m)

-- The vote of a client that counts: no spectator's, not empty, with a place in the deck.
unfoldable pub placed_vote : Deck → Client → Option String
placed_vote d c = if c.is_spectator then none else elim c.current_vote [
  | none ↦ none
  | some v ↦ if str_eq v "" then none else elim (position d v) [ none ↦ none | some _ ↦ some v ]
]

abbrev pub cons_some : Option String → List String → List String
cons_some none vs = vs
cons_some (some v) vs = v ∷ vs

unfoldable pub placed_votes : Deck → List Client → List String
placed_votes d [] = []
placed_votes d (c ∷ cs) = cons_some (placed_vote d c) (placed_votes d cs)

module _ {F : Type 0} ⦃fl : Float32 F⦄ where
  tally-fields :
      (v : String) (m : VoteMetrics F)
      → ((tally v m).counts ≡ bump v m.counts) × ((tally v m).ordered ≡ m.ordered ++ v ∷ [])
  unfolding tally
  tally-fields v m = (refl, refl)

  collect_client-none :
      (d : Deck) (c : Client) (m : VoteMetrics F)
      → placed_vote d c ≡ none
      → let n = collect_client d c m in
        (n.counts ≡ m.counts) × (n.ordered ≡ m.ordered) × (n.count ≡ m.count) × (n.sum ≡ m.sum)
  unfolding collect_client collect_label placed_vote
  collect_client-none d c m h = ground arith

  collect_client-some :
      (d : Deck) (c : Client) (m : VoteMetrics F) (v : String)
      → placed_vote d c ≡ some v
      → collect_client d c m ≡ tally v m
  unfolding collect_client collect_label placed_vote
  collect_client-some d c m v h = ground arith

  -- The counts go with the labels, as the loop collects both.
  abbrev IsTallied : VoteMetrics F → Type 0
  IsTallied m = m.counts ≡ count_votes m.ordered []

  tally-IsTallied : (v : String) (m : VoteMetrics F) → IsTallied m → IsTallied (tally v m)
  tally-IsTallied v m h =
      let (a, b) = tally-fields v m in
      rw (a, b, count_votes-append m.ordered (v ∷ []) [], ← h) (unfold count_votes in refl)

  collect_from-ordered :
      (d : Deck) (cs : List Client) (m : VoteMetrics F)
      → IsTallied m
      → IsTallied (collect_from d m cs)
        × ((collect_from d m cs).ordered ≡ m.ordered ++ placed_votes d cs)
  unfolding collect_from placed_votes
  collect_from-ordered d [] m h = (h, sym (append-nil m.ordered))
  collect_from-ordered d (c ∷ cs) m h = elim (Option-cases (placed_vote d c)) [
    | inl e ↦
        let (a, b, _, _) = collect_client-none d c m e in
        let (x, y) =
          collect_from-ordered d cs (collect_client d c m)
            (a ∙ h ∙ ap (λ l. count_votes l []) (sym b)) in
        (x, rw e (y ∙ ap (λ l. l ++ placed_votes d cs) b))
    | inr (v, e) ↦
        let same = collect_client-some d c m v e in
        let (x, y) =
          collect_from-ordered d cs (collect_client d c m) (rw same (tally-IsTallied v m h)) in
        (
          x,
          rw e (
              y
              ∙ ap (λ n. n.ordered ++ placed_votes d cs) same
              ∙ ap (λ l. l ++ placed_votes d cs) ((tally-fields v m).1)
              ∙ append_assoc m.ordered (v ∷ []) (placed_votes d cs)),
        )
  ]

-- The collected labels are those of the votes that count, in the order of the clients, and the
-- counts are the counts of those labels.
pub collect_votes-placed_votes :
    (F : Type 0) ⦃fl : Float32 F⦄ (d : Deck) (cs : List Client)
    → let m = collect_votes {F = F} d cs in
      (m.ordered ≡ placed_votes d cs) × (m.counts ≡ count_votes (placed_votes d cs) [])
unfolding collect_votes count_votes
collect_votes-placed_votes F ⦃fl = fl⦄ d cs =
    let (x, y) =
      collect_from-ordered d cs
        (record { sum = fl.zero; count = fl.zero; counts = []; ordered = []; special_count = 0 })
        refl in
    (y, x ∙ ap (λ l. count_votes l []) y)
