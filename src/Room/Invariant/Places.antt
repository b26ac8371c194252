-- ===== src/Room/Invariant/Places.antt =====
-- Places in the backlog: what a search finds, and the lists with a story taken out or put in.
use planning_poker.Base.{
  ℕ, zero, suc, ◌+◌, ◌-◌, ◌<◌, ◌≤◌, String, ◌≡◌, refl, Bool, true, false, ◌||◌, Option, none, some,
  List, [], ◌∷◌, ◌++◌, arith, length, get_elem?, take, drop, ◌⊎◌, inl, inr, str_eq, eq_iff, ◌==◌,
  length-append, length-take, length-drop, take-append-drop, if◌then◌else◌, Bool-cases,
  Option-cases, ap, sym, ◌∙◌,
}
use planning_poker.Base.Int.{ℤ, pos, negsuc, ◌+ℤ◌, ◌-ℤ◌, ltb_ℤ, eqb_ℤ}
use planning_poker.Room.{Story}
use planning_poker.Room.Reveal.{story_id_at}
use planning_poker.Room.Backlog.{index_from, remove_at, insert_at, rename_at}
use planning_poker.Room.BacklogMoves.{shift_index}
use planning_poker.Room.Invariant.{InBounds}

module _ {ℓ} {A : Type ℓ} where
  pub length-remove_at :
      (i : ℕ) (xs : List A) → i < length xs → length (remove_at i xs) ≡ length xs - 1
  unfolding remove_at
  length-remove_at i xs h = omega (
    arith,
    length-append (take i xs) (drop (i + 1) xs),
    length-take i xs (omega arith),
    length-drop (i + 1) xs,
  )

  pub length-insert_at :
      (i : ℕ) (x : A) (xs : List A) → i ≤ length xs → length (insert_at i x xs) ≡ length xs + 1
  unfolding insert_at
  length-insert_at i x xs h =
      omega (arith, length-append (take i xs) (x ∷ drop i xs), length-take i xs h, length-drop i xs)

module _ {F : Type 0} where
  -- A search that starts to count at `k` fails, or finds a story of the identifier.
  abbrev pub Found : ℕ → String → List (Story F) → Type 0
  Found k id ss =
      (i : ℕ) × (s : Story F) × (index_from k id ss ≡ pos (k + i))
      × (get_elem? ss i ≡ some s)
      × (s.id ≡ id)

  Found-later :
      (k : ℕ) (id : String) (s : Story F) (ss : List (Story F))
      → str_eq s.id id ≡ false
      → Found (k + 1) id ss
      → Found k id (s ∷ ss)
  unfolding index_from
  Found-later k id s ss e (i, t, p, q, w) = (suc i, t, rw e (ground arith), q, w)

  pub index_from-cases :
      (k : ℕ) (id : String) (ss : List (Story F)) → (index_from k id ss ≡ negsuc 0) ⊎ Found k id ss
  unfolding index_from
  index_from-cases k id [] = inl refl
  index_from-cases k id (s ∷ ss) = elim (Bool-cases (str_eq s.id id)) [
    | inl e ↦ inr (0, s, rw e (ground arith), refl, (eq_iff s.id id).0 e)
    | inr e ↦ elim (index_from-cases (k + 1) id ss) [
      | inl h ↦ inl (rw e h)
      | inr f ↦ inr (Found-later k id s ss e f)
    ]
  ]

  pub has_id : String → List (Story F) → Bool
  has_id id [] = false
  has_id id (s ∷ ss) = let rest = has_id id ss in if str_eq s.id id then true else rest

  has_id-append :
      (id : String) (xs ys : List (Story F)) → has_id id (xs ++ ys) ≡ has_id id xs || has_id id ys
  unfolding has_id
  has_id-append id [] ys = refl
  has_id-append id (x ∷ xs) ys = ground (arith, has_id-append id xs ys)

  pub has_id-get_elem? :
      (id : String) (ss : List (Story F)) (i : ℕ) (s : Story F)
      → get_elem? ss i ≡ some s
      → s.id ≡ id
      → has_id id ss ≡ true
  unfolding has_id
  has_id-get_elem? id [] i s h e = cc
  has_id-get_elem? id (x ∷ xs) zero s h e = ground (arith, eq_iff x.id id)
  has_id-get_elem? id (x ∷ xs) (suc i) s h e = ground (arith, has_id-get_elem? id xs i s h e)

  pub has_id-story_id_at :
      (o : Option ℕ) (ss : List (Story F))
      → str_eq (story_id_at o ss) "" ≡ false
      → has_id (story_id_at o ss) ss ≡ true
  unfolding story_id_at
  has_id-story_id_at none ss h = cc
  has_id-story_id_at (some i) ss h = elim (Option-cases (get_elem? ss i)) [
    | inl e ↦ cc (rw (e, story_id_at) at h)
    | inr (s, e) ↦ rw (e, story_id_at) (has_id-get_elem? s.id ss i s e refl)
  ]

  pub index_from-has_id :
      (k : ℕ) (id : String) (ss : List (Story F)) → has_id id ss ≡ true → Found k id ss
  unfolding index_from has_id
  index_from-has_id k id [] h = cc
  index_from-has_id k id (s ∷ ss) h = elim (Bool-cases (str_eq s.id id)) [
    | inl e ↦ (0, s, rw e (ground arith), refl, (eq_iff s.id id).0 e)
    | inr e ↦ Found-later k id s ss e (index_from-has_id (k + 1) id ss (rw e at h))
  ]

  has_id-insert_at :
      (id : String) (t : ℕ) (s : Story F) (ss : List (Story F))
      → has_id id (insert_at t s ss) ≡ (if str_eq s.id id then true else has_id id ss)
  unfolding insert_at has_id
  has_id-insert_at id t s ss = ground (
    arith,
    has_id-append id (take t ss) (s ∷ drop t ss),
    has_id-append id (take t ss) (drop t ss),
    ap (has_id id) (take-append-drop t ss),
  )

  has_id-remove_at :
      (id : String) (ss : List (Story F)) (i : ℕ) (s : Story F)
      → get_elem? ss i ≡ some s
      → has_id id ss ≡ (if str_eq s.id id then true else has_id id (remove_at i ss))
  unfolding remove_at has_id
  has_id-remove_at id [] i s h = cc
  has_id-remove_at id (x ∷ ss) zero s h = ground arith
  has_id-remove_at id (x ∷ ss) (suc i) s h = ground (arith, has_id-remove_at id ss i s h)

  -- A move keeps the identifiers.
  pub has_id-move :
      (id : String) (ss : List (Story F)) (i target : ℕ) (s : Story F)
      → get_elem? ss i ≡ some s
      → has_id id (insert_at target s (remove_at i ss)) ≡ has_id id ss
  has_id-move id ss i target s h =
      has_id-insert_at id target s (remove_at i ss) ∙ sym (has_id-remove_at id ss i s h)

  pub length-move :
      (ss : List (Story F)) (i target : ℕ) (s : Story F)
      → i < length ss
      → target < length ss
      → length (insert_at target s (remove_at i ss)) ≡ length ss
  length-move ss i target s h k = omega (
    arith,
    length-remove_at i ss h,
    length-insert_at target s (remove_at i ss) (omega (arith, length-remove_at i ss h)),
  )

  pub length-rename_at :
      (i : ℕ) (name : String) (ss : List (Story F)) → length (rename_at i name ss) ≡ length ss
  unfolding rename_at
  length-rename_at i name [] = refl
  length-rename_at zero name (s ∷ ss) = refl
  length-rename_at (suc i) name (s ∷ ss) = ap suc (length-rename_at i name ss)

-- Steps of the index that stay in bounds.
pub InBounds-next :
    (i : ℤ) (n : ℕ) → InBounds i n → ltb_ℤ i (pos n -ℤ pos 1) ≡ true → InBounds (i +ℤ pos 1) n
InBounds-next (pos i) n h k = ground arith
InBounds-next (negsuc i) n h k = absurd h

pub InBounds-prev :
    (k : ℕ) (i : ℤ) (n : ℕ) → InBounds i n → ltb_ℤ (pos k) i ≡ true → InBounds (i +ℤ negsuc 0) n
InBounds-prev k (pos i) n h l = ground arith
InBounds-prev k (negsuc i) n h l = absurd h

pub InBounds-more : (i : ℤ) (n : ℕ) → InBounds i (n - 1) → InBounds i n
InBounds-more (pos i) n h = omega arith
InBounds-more (negsuc i) n h = h

-- The index once the place `i` is removed: at the end of the backlog, at `i`, after it, before it.
pub InBounds-removed_last :
    (i : ℕ) (at : ℤ) (n : ℕ)
    → i < n
    → (n == 1) ≡ false
    → eqb_ℤ (pos i) at ≡ true
    → eqb_ℤ (pos i) (pos n -ℤ pos 1) ≡ true
    → InBounds (at +ℤ negsuc 0) (n - 1)
InBounds-removed_last i (pos j) n h k w e = ground arith
InBounds-removed_last i (negsuc j) n h k w e = ground arith

pub InBounds-removed_same :
    (i : ℕ) (at : ℤ) (n : ℕ)
    → i < n
    → eqb_ℤ (pos i) at ≡ true
    → eqb_ℤ (pos i) (pos n -ℤ pos 1) ≡ false
    → InBounds at (n - 1)
InBounds-removed_same i (pos j) n h w e = ground arith
InBounds-removed_same i (negsuc j) n h w e = ground arith

pub InBounds-removed_before :
    (i : ℕ) (at : ℤ) (n : ℕ)
    → InBounds at n
    → ltb_ℤ (pos i) at ≡ true
    → InBounds (at +ℤ negsuc 0) (n - 1)
InBounds-removed_before i (pos j) n h k = ground arith
InBounds-removed_before i (negsuc j) n h k = absurd h

pub InBounds-removed_after :
    (i : ℕ) (at : ℤ) (n : ℕ)
    → InBounds at n
    → i < n
    → eqb_ℤ (pos i) at ≡ false
    → ltb_ℤ (pos i) at ≡ false
    → InBounds at (n - 1)
InBounds-removed_after i (pos j) n h l e k = ground arith
InBounds-removed_after i (negsuc j) n h l e k = absurd h

-- The index of a story that is not the one moved.
pub InBounds-shift_index :
    (i target : ℕ) (at : ℤ) (n : ℕ)
    → InBounds at n
    → i < n
    → target < n
    → eqb_ℤ at (pos i) ≡ false
    → InBounds (shift_index (pos i) (pos target) at) n
unfolding shift_index
InBounds-shift_index i target (pos j) n h l k e = ground arith
InBounds-shift_index i target (negsuc j) n h l k e = absurd h
