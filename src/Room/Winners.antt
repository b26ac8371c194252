-- ===== src/Room/Winners.antt =====
-- Which labels `mostAppearingVotes` returns.
use planning_poker.Base.{
  ℕ, suc, ◌≤◌, ◌<◌, String, ◌≡◌, ◌↔◌, ◌⊎◌, refl, ap, ◌∙◌, some, List, [], ◌∷◌, arith, str_eq,
  eq_iff, if◌then◌else◌, Option-cases, inl, inr, Bool-cases, ltb, ==_iff,
}
use planning_poker.Base.Maps.{StringMap, lookup, Distinct}
use planning_poker.Base.Sorting.{insert_by, sort_by}
use planning_poker.Deck.{Deck}
use planning_poker.Room.Votes.{
  or_zero, most_count_from, get_most_vote_count, labels_with_count, most_appearing_votes,
  position_or_zero,
}
use planning_poker.Room.Consensus.{count_votes}
use planning_poker.Float32.{Float32}
use planning_poker.Room.{Room, deck}
use planning_poker.Room.Reveal.{show_summary}
use planning_poker.Room.Tally.{
  placed_votes, collect_votes-placed_votes, occurs, or_zero-count_votes, count_votes-Distinct,
  NoZero, count_votes-NoZero,
}

occurs-insert_by :
    (key : String → ℕ) (v x : String) (l : List String)
    → occurs v (insert_by key x l) ≡ occurs v (x ∷ l)
unfolding insert_by occurs
occurs-insert_by key v x [] = refl
occurs-insert_by key v x (y ∷ l) = ground (arith, occurs-insert_by key v x l)

occurs-sort_by :
    (key : String → ℕ) (v : String) (l : List String) → occurs v (sort_by key l) ≡ occurs v l
unfolding sort_by occurs
occurs-sort_by key v [] = refl
occurs-sort_by key v (x ∷ l) =
    occurs-insert_by key v x (sort_by key l)
    ∙ ap (λ n. if str_eq x v then suc n else n) (occurs-sort_by key v l)

-- A label is listed for a count if and only if that is its count.
labels_iff :
    (n : ℕ) (v : String) (m : StringMap ℕ)
    → Distinct m
    → (0 < occurs v (labels_with_count n m)) ↔ (lookup v m ≡ some n)
unfolding occurs labels_with_count lookup
labels_iff n v [] h = ground arith
labels_iff n v ((w, k) ∷ m) (h, hs) = ground (arith, labels_iff n v m hs, eq_iff w v, ==_iff k n)

best_le : (b : ℕ) (m : StringMap ℕ) → b ≤ most_count_from b m
unfolding most_count_from
best_le b [] = omega arith
best_le b ((w, n) ∷ m) = ground (arith, best_le n m, best_le b m)

count_le :
    (b : ℕ) (m : StringMap ℕ) (w : String) (k : ℕ) → lookup w m ≡ some k → k ≤ most_count_from b m
unfolding most_count_from lookup
count_le b [] w k h = cc
count_le b ((i, n) ∷ m) w k h =
    ground (arith, best_le n m, best_le b m, count_le b m w k, count_le n m w k)

NoZero-lookup : (m : StringMap ℕ) (w : String) (k : ℕ) → NoZero m → lookup w m ≡ some k → 0 < k
unfolding lookup
NoZero-lookup [] w k h e = cc
NoZero-lookup ((i, n) ∷ m) w k (h, hs) e = ground (arith, NoZero-lookup m w k hs)

-- The greatest count is that of a label, or the count that the loop starts from.
attained :
    (b : ℕ) (m : StringMap ℕ)
    → Distinct m
    → (most_count_from b m ≡ b) ⊎ ((w : String) × (lookup w m ≡ some (most_count_from b m)))
unfolding most_count_from
attained b [] h = inl refl
attained b ((i, n) ∷ m) (h, hs) = elim (Bool-cases (ltb b n)) [
  | inl e ↦ rw e (elim (attained n m hs) [
    | inl q ↦ inr (i, unfold lookup in ground (arith, eq_iff i i))
    | inr (w, q) ↦ inr (w, unfold lookup in ground (arith, eq_iff i w))
  ])
  | inr e ↦ rw e (elim (attained b m hs) [
    | inl q ↦ inl q
    | inr (w, q) ↦ inr (w, unfold lookup in ground (arith, eq_iff i w))
  ])
]

occurs-lookup :
    (v : String) (vs : List String) → or_zero (lookup v (count_votes vs [])) ≡ occurs v vs
unfolding lookup
occurs-lookup v vs = omega (arith, or_zero-count_votes v vs [])

-- A label is among those that appear most if and only if it was cast and no label was cast more
-- often.
pub most_appearing_votes_iff :
    (d : Deck) (vs : List String) (v : String)
    → let m = count_votes vs [] in
      (0 < occurs v (most_appearing_votes m (get_most_vote_count m) d))
      ↔ ((0 < occurs v vs) × ((w : String) → occurs w vs ≤ occurs v vs))
unfolding most_appearing_votes get_most_vote_count
most_appearing_votes_iff d vs v =
    let m = count_votes vs [] in
    let most = most_count_from 0 m in
    let single = count_votes-Distinct vs [] tt in
    let listed = labels_iff most v m single in
    rw (occurs-sort_by (position_or_zero d) v (labels_with_count most m)) (
      λ p.
          let e = listed.0 p in
          (
            ground
                (arith, occurs-lookup v vs, NoZero-lookup m v most (count_votes-NoZero vs [] tt) e),
            λ w. ground (
              arith,
              occurs-lookup v vs,
              occurs-lookup w vs,
              count_le 0 m w (occurs w vs),
              Option-cases (lookup w m),
            ),
          ),
      λ (p, q). listed.1 (elim (Option-cases (lookup v m)) [
        | inl e ↦ absurd (ground (arith, occurs-lookup v vs))
        | inr (k, e) ↦ elim (attained 0 m single) [
          | inl z ↦ ground (arith, occurs-lookup v vs, count_le 0 m v k e)
          | inr (w, z) ↦
              ground (arith, occurs-lookup v vs, occurs-lookup w vs, count_le 0 m v k e, q w)
        ]
      ]),
    )

-- After a reveal, `MostAppearingVotes` lists a label if and only if a client that votes cast it and
-- no label of the deck was cast by more of them.
pub show_summary-winners :
    (F : Type 0) ⦃fl : Float32 F⦄ (r : Room F) (v : String)
    → let vs = placed_votes (deck r) r.clients in
      (0 < occurs v (show_summary r).most_appearing_votes)
      ↔ ((0 < occurs v vs) × ((w : String) → occurs w vs ≤ occurs v vs))
unfolding show_summary
show_summary-winners F r v =
    rw ((collect_votes-placed_votes F (deck r) r.clients).1)
      (most_appearing_votes_iff (deck r) (placed_votes (deck r) r.clients) v)
