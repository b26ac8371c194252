-- ===== src/Protocolgen/Text.antt =====
-- The functions of Go's `strings` package that the tool uses, on native texts.
use Prim.Native.Char.{Char, code}
use Prim.Native.String.{[] as nil_text, ◌∷◌ as cons_text, ◌++◌ as concat}
use planning_poker.Base.{
  str_eq, ◌||◌, String, Bool, true, false, Option, none, some, List, [], ◌∷◌, ℕ, ◌==◌,
  if◌then◌else◌, ◌≡◌, refl,
}

-- `strings.Cut` at a character.
unfoldable pub cut : ℕ → String → Option (String × String)
cut c String.[] = none
cut c (String.◌∷◌ ch rest) =
    let later = cut c rest in
    if code ch == c
    then some (nil_text, rest)
    else elim later [ none ↦ none | some (before, after) ↦ some (cons_text ch before, after) ]

-- A character in front of the first part.
unfoldable pub grow : String → List String → List String
grow s [] = s ∷ []
grow s (part ∷ parts) = concat s part ∷ parts

-- `strings.Split` at a character: a text without it is one part.
unfoldable pub split_at : ℕ → String → List String
split_at c String.[] = nil_text ∷ []
split_at c (String.◌∷◌ ch rest) =
    let parts = split_at c rest in
    if code ch == c then nil_text ∷ parts else grow (cons_text ch nil_text) parts

-- `strings.ReplaceAll` of two characters by a text.
unfoldable pub replace_pair : ℕ → ℕ → String → String → String
replace_pair a b new String.[] = nil_text
replace_pair a b new (String.◌∷◌ x String.[]) = cons_text x nil_text
replace_pair a b new (String.◌∷◌ x (String.◌∷◌ y rest)) =
    let after = replace_pair a b new rest in
    let next = replace_pair a b new (String.◌∷◌ y rest) in
    if code x == a
    then (if code y == b then concat new after else cons_text x next)
    else cons_text x next

-- `strings.ReplaceAll` of one character by a text.
unfoldable pub replace_char : ℕ → String → String → String
replace_char c new String.[] = nil_text
replace_char c new (String.◌∷◌ x rest) =
    let after = replace_char c new rest in
    if code x == c then concat new after else cons_text x after

-- `strings.CutPrefix`, which holds `strings.HasPrefix` and `strings.TrimPrefix`.
unfoldable pub cut_prefix : String → String → Option String
cut_prefix String.[] s = some s
cut_prefix (String.◌∷◌ p ps) String.[] = none
cut_prefix (String.◌∷◌ p ps) (String.◌∷◌ x xs) =
    let rest = cut_prefix ps xs in if code p == code x then rest else none

-- `strings.HasSuffix`
unfoldable pub has_suffix : String → String → Bool
has_suffix suffix String.[] = str_eq suffix nil_text
has_suffix suffix (String.◌∷◌ x xs) =
    let later = has_suffix suffix xs in str_eq suffix (String.◌∷◌ x xs) || later

-- `strings.Contains` of a text.
unfoldable pub has_text : String → String → Bool
has_text part String.[] = elim (cut_prefix part nil_text) [ none ↦ false | some rest ↦ true ]
has_text part (String.◌∷◌ x xs) =
    let later = has_text part xs in
    elim (cut_prefix part (String.◌∷◌ x xs)) [ none ↦ later | some rest ↦ true ]

unfoldable pub last_of : String → List String → String
last_of s [] = s
last_of s (part ∷ parts) = last_of part parts

-- `strings.Join` with a separator.
unfoldable pub join : String → List String → String
join separator [] = ""
join separator (s ∷ []) = s
join separator (s ∷ t ∷ rest) = concat s (concat separator (join separator (t ∷ rest)))

texts_run :
    (split_at 47 "/$defs/A" ≡ "" ∷ "$defs" ∷ "A" ∷ [])
    × (replace_pair 126 49 "/" "a~1b~~1" ≡ "a/b~/")
    × (cut 35 "f#/x" ≡ some ("f", "/x"))
    × (has_text " | " "a | b" ≡ true)
unfolding split_at grow replace_pair cut has_text cut_prefix
texts_run = (refl, refl, refl, refl)

-- The texts one behind the other, as a `strings.Builder` is filled.
unfoldable pub concat_all : List String → String
concat_all [] = ""
concat_all (s ∷ rest) = concat s (concat_all rest)

unfoldable pub snoc_char : String → Char → String
snoc_char s c = concat s (cons_text c nil_text)
