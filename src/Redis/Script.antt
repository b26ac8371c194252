-- ===== src/Redis/Script.antt =====
-- The `string.gsub` of `saveRoomScript` in internal/infra/boundaries/hub/redis/hub.go, which writes
-- the version into the text of a room. A text is a list of symbols.
use Prim.Native.Char.{Char}
use mathlib.Core.List.{append-nil, append_assoc}
use planning_poker.Base.{
  ℕ, zero, suc, ◌+◌, ◌-◌, String, ◌≡◌, refl, ap, ◌∙◌, Bool, true, Option, none, some, List, [], ◌∷◌,
  ◌++◌, arith, ◌==◌, if◌then◌else◌, length, All, ◌<◌, false, subst, sym, length-append,
}

-- The symbols: the symbol of a character, the tests of a symbol for a character and for `%d`, and the
-- digits of a version, which Lua's `..` and JSON write alike below 10^14.
pub record Symbols (A : Type 0) : Type 0 where
  pub letter : Char → A
  pub is_letter : Char → A → Bool
  pub is_digit : A → Bool
  pub numeral : ℕ → List A

pub record IsSymbols {A : Type 0} (sy : Symbols A) : Type 0 where
  pub letters : (c : Char) → sy.is_letter c (sy.letter c) ≡ true
  pub digit : ℕ → A
  pub digits : ℕ → List A
  pub written : (n : ℕ) → sy.numeral n ≡ digit n ∷ digits n
  pub all_digits : (n : ℕ) → All (λ a. sy.is_digit a ≡ true) (digit n ∷ digits n)

-- `"roomVersion":`
abbrev pub version_key : String
version_key = "\"roomVersion\":"

module _ {A : Type 0} (sy : Symbols A) where
  unfoldable pub spell : String → List A
  spell String.[] = []
  spell (String.◌∷◌ c k) = sy.letter c ∷ spell k

  -- The key with a version.
  abbrev pub version_member : ℕ → List A
  version_member n = spell version_key ++ sy.numeral n

  -- What follows the characters at the start of a text.
  unfoldable pub strip : String → List A → Option (List A)
  strip String.[] t = some t
  strip (String.◌∷◌ c k) [] = none
  strip (String.◌∷◌ c k) (a ∷ t) = let rest = strip k t in if sy.is_letter c a then rest else none

  unfoldable pub leading_digits : List A → ℕ
  leading_digits [] = 0
  leading_digits (a ∷ t) = let n = leading_digits t in if sy.is_digit a then suc n else 0

  -- The length of the match of the pattern at the start of a text.
  unfoldable pub matched : List A → Option ℕ
  matched t = elim (strip version_key t) [
    | none ↦ none
    | some rest ↦
        let n = leading_digits rest in
        if n == 0 then none else some (length (spell version_key) + n)
  ]

  -- Every match is replaced by `new`, from the left; the first symbols, as many as the number says,
  -- belong to the match before.
  unfoldable pub gsub : List A → ℕ → List A → List A
  gsub new n [] = []
  gsub new (suc n) (a ∷ t) = gsub new n t
  gsub new zero (a ∷ t) = elim (matched (a ∷ t)) [
    | none ↦ a ∷ gsub new 0 t
    | some n ↦ new ++ gsub new (n - 1) t
  ]

  -- No match starts in the first text, with the second behind it.
  abbrev pub Silent : List A → List A → Type 0
  Silent [] rest = Unit
  Silent (a ∷ t) rest = (matched (a ∷ t ++ rest) ≡ none) × Silent t rest

  gsub-none :
      (new : List A) (a : A) (t : List A)
      → matched (a ∷ t) ≡ none
      → gsub new 0 (a ∷ t) ≡ a ∷ gsub new 0 t
  unfolding gsub
  gsub-none new a t e = rw (gsub, e) refl

  gsub-some :
      (new : List A) (a : A) (t : List A) (n : ℕ)
      → matched (a ∷ t) ≡ some n
      → gsub new 0 (a ∷ t) ≡ new ++ gsub new (n - 1) t
  unfolding gsub
  gsub-some new a t n e = rw (gsub, e) refl

  gsub-Silent :
      (new t rest : List A) → Silent t rest → gsub new 0 (t ++ rest) ≡ t ++ gsub new 0 rest
  gsub-Silent new [] rest h = refl
  gsub-Silent new (a ∷ t) rest (n, h) =
      gsub-none new a (t ++ rest) n ∙ ap (λ l. a ∷ l) (gsub-Silent new t rest h)

  gsub-skipped : (new t rest : List A) → gsub new (length t) (t ++ rest) ≡ gsub new 0 rest
  unfolding gsub
  gsub-skipped new [] rest = refl
  gsub-skipped new (a ∷ t) rest = gsub-skipped new t rest

  opened :
      (d : A) (t : List A) → sy.is_digit d ≡ true → leading_digits (d ∷ t) ≡ suc (leading_digits t)
  unfolding leading_digits
  opened d t h = rw (leading_digits, h) refl

  gsub-found :
      (new w rest : List A)
      → 0 < length w
      → matched (w ++ rest) ≡ some (length w)
      → gsub new 0 (w ++ rest) ≡ new ++ gsub new 0 rest
  gsub-found new [] rest l e = absurd (omega arith)
  gsub-found new (a ∷ w) rest l e =
      let one : suc (length w) - 1 ≡ length w = omega arith in
      gsub-some new a (w ++ rest) (length (a ∷ w)) e
      ∙ ap (λ n. new ++ gsub new n (w ++ rest)) one
      ∙ ap (λ t. new ++ t) (gsub-skipped new w rest)

  leading_digits-append :
      (ds rest : List A)
      → All (λ a. sy.is_digit a ≡ true) ds
      → leading_digits (ds ++ rest) ≡ length ds + leading_digits rest
  unfolding leading_digits
  leading_digits-append [] rest h = omega arith
  leading_digits-append (d ∷ ds) rest (h, hs) =
      omega (arith, opened d (ds ++ rest) h, leading_digits-append ds rest hs)

module _ {A : Type 0} (sy : Symbols A) (law : IsSymbols sy) where
  strip-spell : (k : String) (t : List A) → strip sy k (spell sy k ++ t) ≡ some t
  unfolding strip spell
  strip-spell String.[] t = refl
  strip-spell (String.◌∷◌ c k) t = rw (law.letters c) (strip-spell k t)

  matched-key :
      (m : ℕ) (after : List A)
      → leading_digits sy after ≡ 0
      → matched sy (version_member sy m ++ after) ≡ some (length (version_member sy m))
  unfolding matched
  matched-key m after e =
      let all : All (λ a. sy.is_digit a ≡ true) (sy.numeral m) =
        subst (λ ds. All (λ a. sy.is_digit a ≡ true) ds) (sym (law.written m)) (law.all_digits m) in
      let many = leading_digits-append sy (sy.numeral m) after all in
      let some_digits : length (sy.numeral m) ≡ suc (length (law.digits m)) =
        ap length (law.written m) in
      let whole = length-append (spell sy version_key) (sy.numeral m) in
      let found : strip sy version_key (version_member sy m ++ after)
          ≡ some (sy.numeral m ++ after) =
        ap (strip sy version_key) (append_assoc (spell sy version_key) (sy.numeral m) after)
        ∙ strip-spell version_key (sy.numeral m ++ after) in
      let counted : leading_digits sy (sy.numeral m ++ after) ≡ suc (length (law.digits m)) =
        omega (arith, many, e, some_digits) in
      let length_of : length (spell sy version_key) + suc (length (law.digits m))
          ≡ length (version_member sy m) =
        omega (arith, whole, some_digits) in
      let there : (suc (length (law.digits m)) == 0) ≡ false = ground arith in
      rw (matched, found, counted, there) (ap some length_of)

  -- The one match of a text with the pattern is replaced by the key and another version.
  pub gsub-version_member :
      (m n : ℕ) (before after : List A)
      → Silent sy before (version_member sy m ++ after)
      → Silent sy after []
      → leading_digits sy after ≡ 0
      → gsub sy (version_member sy n) 0 (before ++ (version_member sy m ++ after))
        ≡ before ++ (version_member sy n ++ after)
  unfolding gsub
  gsub-version_member m n before after s u e =
      let new = version_member sy n in
      let long : 0 < length (version_member sy m) =
        omega
          (arith, ap length (law.written m), length-append (spell sy version_key) (sy.numeral m)) in
      let rest : gsub sy new 0 after ≡ after =
        ap (gsub sy new 0) (sym (append-nil after))
        ∙ gsub-Silent sy new after [] u
        ∙ append-nil after in
      gsub-Silent sy new before (version_member sy m ++ after) s
      ∙ ap (λ l. before ++ l)
          (gsub-found sy new (version_member sy m) after long (matched-key m after e)
            ∙ ap (λ l. new ++ l) rest)
