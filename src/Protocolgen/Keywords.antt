-- ===== src/Protocolgen/Keywords.antt =====
-- The keywords of a schema that stand on their own: its kind, enum, const, format, x-go-type and
-- bounds, and those that are refused.
pub mod Laws
use planning_poker.Base.{
  ℕ, String, Bool, true, false, not, ◌&&◌, ◌||◌, Option, none, some, List, [], ◌∷◌, ◌++◌, str_eq,
  if◌then◌else◌,
}
use planning_poker.DomainError.{Error, plain, text, Result, ok, err, ◌>>=◌, ◌>>◌}
use planning_poker.Protocolgen.Value.{Value, null, array, Elements, nil, cons, Entries, get}
use planning_poker.Protocolgen.Schema.{
  SchemaKind, ref_kind, object_kind, string_kind, integer_kind, number_kind, boolean_kind,
  array_kind, Info,
}

-- The text of a kind, which is its value in the source.
unfoldable pub kind_text : SchemaKind → String
kind_text ref_kind = "ref"
kind_text object_kind = "object"
kind_text string_kind = "string"
kind_text integer_kind = "integer"
kind_text number_kind = "number"
kind_text boolean_kind = "boolean"
kind_text array_kind = "array"

unfoldable pub is_string_kind : SchemaKind → Bool
is_string_kind string_kind = true
is_string_kind _ = false

unfoldable pub is_integer_kind : SchemaKind → Bool
is_integer_kind integer_kind = true
is_integer_kind _ = false

unfoldable pub schema_kind_name : String → Result SchemaKind
schema_kind_name name =
    if str_eq name "object"
    then ok object_kind
    else if str_eq name "string"
    then ok string_kind
    else if str_eq name "integer"
    then ok integer_kind
    else if str_eq name "number"
    then ok number_kind
    else if str_eq name "boolean"
    then ok boolean_kind
    else if str_eq name "array"
    then ok array_kind
    else err (plain "unsupported type %q" (text name ∷ []))

-- The loop of `schemaKindFromList`, with the kind that was found and whether null was.
unfoldable pub kind_from : Option SchemaKind → Bool → Elements → Result (SchemaKind × Bool)
kind_from none nullable nil = err (plain "type must contain a non-null entry" [])
kind_from (some k) nullable nil = ok (k, nullable)
kind_from kind nullable (cons (Value.text name) rest) =
    let skipped = kind_from kind true rest in
    let taken : SchemaKind → Result (SchemaKind × Bool) = λ k. kind_from (some k) nullable rest in
    if str_eq name "null" then skipped else elim kind [
      | some k ↦ err (plain "only one non-null type is supported" [])
      | none ↦ schema_kind_name name >>= taken
    ]
kind_from kind nullable (cons _ rest) = err (plain "type entries must be strings" [])

-- `raw[key] != nil`
unfoldable pub is_set : Option Value → Bool
is_set none = false
is_set (some null) = false
is_set (some _) = true

unfoldable pub schema_kind_without_type : Entries → Result (SchemaKind × Bool)
schema_kind_without_type raw =
    if is_set (get "enum" raw) || is_set (get "const" raw)
    then ok (string_kind, false)
    else err (plain "missing type" [])

unfoldable pub kind_of_type : Value → Result (SchemaKind × Bool)
kind_of_type (Value.text name) = schema_kind_name name >>= λ k. ok (k, false)
kind_of_type (array values) = kind_from none false values
kind_of_type _ = err (plain "type must be a string or an array of strings" [])

unfoldable pub schema_kind : Entries → Result (SchemaKind × Bool)
schema_kind raw = elim (get "type" raw) [
  | none ↦ schema_kind_without_type raw
  | some value ↦ kind_of_type value
]

unfoldable pub is_among : String → List String → Bool
is_among s [] = false
is_among s (x ∷ xs) = str_eq x s || is_among s xs

-- The loop of `applyEnum`, behind the values that were taken.
unfoldable pub enum_values : List String → Elements → Result (List String)
enum_values taken nil = ok taken
enum_values taken (cons (Value.text value) rest) =
    let more = enum_values (taken ++ value ∷ []) rest in
    if is_among value taken then err (plain "duplicate enum value %q" (text value ∷ [])) else more
enum_values taken (cons _ rest) = err (plain "enum values must be strings" [])

unfoldable pub some_values : List String → Result (List String)
some_values [] = err (plain "enum must not be empty" [])
some_values (x ∷ xs) = ok (x ∷ xs)

unfoldable pub apply_enum : Value → Info → Result Info
apply_enum (array values) i =
    if not (is_string_kind i.kind)
    then err (plain "enum requires a string type, got %q" (text (kind_text i.kind) ∷ []))
    else do taken ← enum_values [] values; enum ← some_values taken; ok (record i { enum = enum })
apply_enum _ i = err (plain "enum must be an array" [])

unfoldable pub apply_const : Value → Info → Result Info
apply_const (Value.text value) i =
    if not (is_string_kind i.kind)
    then err (plain "const requires a string type, got %q" (text (kind_text i.kind) ∷ []))
    else ok (record i { const = value })
apply_const _ i = err (plain "const must be a string" [])

-- A step that an absent key leaves out.
unfoldable pub at_key : Option Value → (Value → Info → Result Info) → Info → Result Info
at_key none apply i = ok i
at_key (some value) apply i = apply value i

unfoldable pub apply_format : Value → Info → Result Info
apply_format (Value.text value) i = ok (record i { format = value })
apply_format _ i = err (plain "format must be a string" [])

unfoldable pub apply_go_type : Value → Info → Result Info
apply_go_type (Value.text value) i = ok (record i { go_type = value })
apply_go_type _ i = err (plain "x-go-type must be a string" [])

unfoldable pub apply_minimum : Value → Info → Result Info
apply_minimum (Value.number n) i = ok (record i { minimum = some n })
apply_minimum _ i = err (plain "%s must be a number" (text "minimum" ∷ []))

unfoldable pub apply_maximum : Value → Info → Result Info
apply_maximum (Value.number n) i = ok (record i { maximum = some n })
apply_maximum _ i = err (plain "%s must be a number" (text "maximum" ∷ []))

unfoldable pub apply_schema_metadata : Entries → Info → Result Info
apply_schema_metadata raw start = do
  a ← at_key (get "enum" raw) apply_enum start
  b ← at_key (get "const" raw) apply_const a
  c ← at_key (get "format" raw) apply_format b
  d ← at_key (get "x-go-type" raw) apply_go_type c
  e ← at_key (get "minimum" raw) apply_minimum d
  at_key (get "maximum" raw) apply_maximum e

abbrev pub unsupported_keywords : List String
unsupported_keywords =
    "minLength" ∷ "maxLength" ∷ "pattern" ∷ "minItems" ∷ "maxItems" ∷ "uniqueItems" ∷ "multipleOf"
    ∷ "exclusiveMinimum" ∷ "exclusiveMaximum" ∷ "minProperties" ∷ "maxProperties"
    ∷ "additionalProperties" ∷ "patternProperties" ∷ "allOf" ∷ "anyOf" ∷ "oneOf" ∷ "not" ∷ "if"
    ∷ "then" ∷ "else" ∷ "contains" ∷ "propertyNames" ∷ "dependentRequired" ∷ "dependentSchemas" ∷ []

unfoldable pub reject_keywords : List String → Entries → Result (Unit {0})
reject_keywords [] raw = ok tt
reject_keywords (k ∷ ks) raw =
    let rest = reject_keywords ks raw in
    elim (get k raw) [
      | some v ↦ err (plain "unsupported JSON Schema keyword %q" (text k ∷ []))
      | none ↦ rest
    ]

unfoldable pub reject_unsupported_keywords : Entries → Result (Unit {0})
reject_unsupported_keywords raw = reject_keywords unsupported_keywords raw

unfoldable pub validate_minimum : String → Info → Result (Unit {0})
validate_minimum n i =
    if not (is_integer_kind i.kind)
    then err (
        plain "minimum is only supported on integer fields, got type %q"
          (text (kind_text i.kind) ∷ []))
    else if not (str_eq i.go_type "uint64")
    then err (plain "minimum requires x-go-type uint64, got %q" (text i.go_type ∷ []))
    else if str_eq n "0" || str_eq n "-0"
    then ok tt
    else err
        (plain "minimum %s is not supported: uint64 only enforces a zero lower bound" (text n ∷ []))

unfoldable pub validate_numeric_constraints : Info → Result (Unit {0})
validate_numeric_constraints i = elim i.maximum [
  | some n ↦ err (plain "maximum is not supported: no Go type enforces an upper bound" [])
  | none ↦ elim i.minimum [ none ↦ ok tt | some n ↦ validate_minimum n i ]
]

-- The start of `parseSchema` for a schema that is no reference.
unfoldable pub parse_info : Entries → Result Info
parse_info raw = do
  reject_unsupported_keywords raw
  (kind, nullable) ← schema_kind raw
  i ← apply_schema_metadata raw (record {
    kind = kind;
    nullable = nullable;
    enum = [];
    const = "";
    format = "";
    go_type = "";
    minimum = none;
    maximum = none;
    ref_name = "";
  })
  validate_numeric_constraints i
  ok i
