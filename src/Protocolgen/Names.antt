-- ===== src/Protocolgen/Names.antt =====
-- `splitIdentifier`, `goName` and the other helpers at the end of spec.go.
use Prim.Native.Char.{Char}
use Prim.Native.String.{[] as nil_text, ◌∷◌ as cons_text}
use planning_poker.Base.{
  String, Bool, false, not, ◌&&◌, ◌||◌, Option, none, some, List, [], ◌∷◌, map, str_eq,
  if◌then◌else◌,
}
use planning_poker.Protocolgen.Text.{snoc_char, concat_all}

-- `unicode`, `strings.ToLower` and `strconv.Quote`.
pub record Unicode : Type 0 where
  pub is_letter : Char → Bool
  pub is_digit : Char → Bool
  pub is_upper : Char → Bool
  pub is_lower : Char → Bool
  pub to_upper : Char → Char
  pub to_lower : String → String
  pub quote : String → String

module _ (u : Unicode) where
  -- `flush`, in front of the words that come later.
  unfoldable pub flush : String → List String → List String
  flush current words = if str_eq current "" then words else current ∷ words

  unfoldable pub next_is_lower : String → Bool
  next_is_lower String.[] = false
  next_is_lower (String.◌∷◌ c rest) = u.is_lower c

  -- A new word begins at an upper-case letter behind a lower-case one or a digit, and at the last of
  -- several upper-case letters. The last letter of the current word is `previous`.
  unfoldable pub begins_word : Option Char → Char → String → Bool
  begins_word none c rest = false
  begins_word (some previous) c rest =
      u.is_upper c
      && (u.is_lower previous
          || (u.is_digit previous || (u.is_upper previous && next_is_lower rest)))

  unfoldable pub split_runes : String → Option Char → String → List String
  split_runes current previous String.[] = flush current []
  split_runes current previous (String.◌∷◌ c rest) =
      let skipped = split_runes "" none rest in
      let begun = split_runes (cons_text c nil_text) (some c) rest in
      let grown = split_runes (snoc_char current c) (some c) rest in
      if not (u.is_letter c) && not (u.is_digit c)
      then flush current skipped
      else if begins_word previous c rest
      then flush current begun
      else grown

  unfoldable pub split_identifier : String → List String
  split_identifier value = split_runes "" none value

  unfoldable pub capital : String → String
  capital String.[] = nil_text
  capital (String.◌∷◌ c rest) = cons_text (u.to_upper c) rest

  unfoldable pub go_word : String → String
  go_word word =
      let lower = u.to_lower word in
      if str_eq lower "id" then "ID" else if str_eq lower "uuid" then "UUID" else capital word

  unfoldable pub go_name : String → String
  go_name value = concat_all (map go_word (split_identifier value))

  unfoldable pub go_constant_suffix : String → String
  go_constant_suffix value = go_name value
