-- ===== src/Protocolgen/Value.antt =====
-- The values that `json.Unmarshal` and `yaml.Unmarshal` make of a document. A `map[string]any` is the
-- list of its entries by key, in the order in which `sortedKeys` gives the keys; a `float64` is the
-- text that `strconv.FormatFloat(v, 'g', -1, 64)` writes for it.
use planning_poker.Base.{
  ℕ, suc, ◌+◌, ◌≤◌, String, ◌≡◌, Bool, Option, none, some, List, [], ◌∷◌, str_eq, arith,
  if◌then◌else◌,
}

mutual
  pub data Value : Type 0 where
    null : Value
    bool : Bool → Value
    number : String → Value
    text : String → Value
    array : Elements → Value
    object : Entries → Value

  pub data Elements : Type 0 where
    nil : Elements
    cons : Value → Elements → Elements

  pub data Entries : Type 0 where
    end : Entries
    entry : String → Value → Entries → Entries

-- The number of objects and arrays.
unfoldable mutual
  pub size : Value → ℕ
  size null = 0
  size (bool b) = 0
  size (number n) = 0
  size (text s) = 0
  size (array xs) = suc (size_elements xs)
  size (object es) = suc (size_entries es)

  pub size_elements : Elements → ℕ
  size_elements nil = 0
  size_elements (cons v xs) = size v + size_elements xs

  pub size_entries : Entries → ℕ
  size_entries end = 0
  size_entries (entry k v es) = size v + size_entries es

-- `raw[key]`
unfoldable pub get : String → Entries → Option Value
get key end = none
get key (entry k v es) = let rest = get key es in if str_eq k key then some v else rest

unfoldable pub as_map : Value → Option Entries
as_map (object es) = some es
as_map _ = none

unfoldable pub as_text : Value → Option String
as_text (text s) = some s
as_text _ = none

-- `text, _ := value.(string)` of an entry, which is empty for anything else.
unfoldable pub string_value : Option Value → String
string_value (some (text s)) = s
string_value _ = ""

-- `asMap` of an entry that may be absent.
unfoldable pub map_at : String → Entries → Option Entries
map_at key es = elim (get key es) [ none ↦ none | some v ↦ as_map v ]

-- `sortedKeys`
unfoldable pub sorted_keys : Entries → List String
sorted_keys end = []
sorted_keys (entry k v es) = k ∷ sorted_keys es

pub size-get :
    (key : String) (es : Entries) (v : Value) → get key es ≡ some v → size v ≤ size_entries es
unfolding get size
size-get key end v e = absurd (ground arith)
size-get key (entry k w es) v e = ground (arith, size-get key es v)
