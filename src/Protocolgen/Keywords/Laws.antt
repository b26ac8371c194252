-- ===== src/Protocolgen/Keywords/Laws.antt =====
-- What the keywords of a schema that is accepted are.
use planning_poker.Protocolgen.Results.{Gives, bind-Gives, weaken-Gives, anything}
use planning_poker.Base.{
  String, ◌≡◌, ◌≢◌, refl, subst, Bool, true, false, ◌||◌, Option, none, some, Option-cases,
  Bool-cases, List, [], ◌∷◌, ◌++◌, str_eq, eq_iff, arith, inl, inr, ◌⊎◌,
}
use planning_poker.DomainError.{Result}
use planning_poker.Protocolgen.Value.{
  Value, null, bool, number, array, object, Elements, nil, cons, Entries, get,
}
use planning_poker.Protocolgen.Schema.{SchemaKind, ref_kind, integer_kind, Info}
use planning_poker.Protocolgen.Keywords.{
  is_string_kind, is_integer_kind, schema_kind_name, kind_from, schema_kind_without_type,
  kind_of_type, schema_kind, is_among, enum_values, some_values, apply_enum, apply_const, at_key,
  apply_format, apply_go_type, apply_minimum, apply_maximum, apply_schema_metadata,
  reject_unsupported_keywords, validate_minimum, validate_numeric_constraints, parse_info,
}

-- A kind that a `type` can name.
abbrev pub Named : SchemaKind × Bool → Type 0
Named (k, nullable) = k ≢ ref_kind

schema_kind_name-Named : (name : String) → Gives (λ k. k ≢ ref_kind) (schema_kind_name name)
unfolding schema_kind_name
schema_kind_name-Named name = ground arith

kind_from-Named :
    (kind : Option SchemaKind) (nullable : Bool) (vs : Elements)
    → ((k : SchemaKind) → kind ≡ some k → k ≢ ref_kind)
    → Gives Named (kind_from kind nullable vs)
unfolding kind_from
kind_from-Named none nullable nil h = tt
kind_from-Named (some k) nullable nil h = h k refl
kind_from-Named kind nullable (cons null rest) h = tt
kind_from-Named kind nullable (cons (bool b) rest) h = tt
kind_from-Named kind nullable (cons (number n) rest) h = tt
kind_from-Named kind nullable (cons (array vs) rest) h = tt
kind_from-Named kind nullable (cons (object es) rest) h = tt
kind_from-Named kind nullable (cons (Value.text name) rest) h =
    elim (Bool-cases (str_eq name "null")) [
      | inl is_null ↦ rw (Gives, kind_from, is_null) (kind_from-Named kind true rest h)
      | inr other ↦ elim (Option-cases kind) [
        | inr (k, taken) ↦ rw (Gives, kind_from, other, taken) tt
        | inl first ↦
            rw (Gives, kind_from, other, first)
              (bind-Gives (λ k. k ≢ ref_kind) Named (schema_kind_name name) _
                (schema_kind_name-Named name)
                λ k plain_kind.
                  kind_from-Named (some k) nullable rest
                    λ j e. subst (λ x. x ≢ ref_kind) (ground arith) plain_kind)
      ]
    ]

kind_of_type-Named : (v : Value) → Gives Named (kind_of_type v)
unfolding kind_of_type
kind_of_type-Named (Value.text name) =
    bind-Gives (λ k. k ≢ ref_kind) Named (schema_kind_name name) _ (schema_kind_name-Named name)
      λ k h. h
kind_of_type-Named (array vs) = kind_from-Named none false vs λ k e. absurd (ground arith)
kind_of_type-Named null = tt
kind_of_type-Named (bool b) = tt
kind_of_type-Named (number n) = tt
kind_of_type-Named (object es) = tt

schema_kind-Named : (raw : Entries) → Gives Named (schema_kind raw)
unfolding schema_kind schema_kind_without_type
schema_kind-Named raw = elim (Option-cases (get "type" raw)) [
  | inr (v, there) ↦ rw (Gives, schema_kind, there) (kind_of_type-Named v)
  | inl none_there ↦ rw (Gives, schema_kind, none_there) (ground arith)
]

-- No text stands twice.
abbrev pub Apart : List String → Type 0
Apart [] = Unit
Apart (s ∷ l) = (is_among s l ≡ false) × Apart l

is_among-snoc :
    (s v : String) (l : List String) → is_among s (l ++ v ∷ []) ≡ (is_among s l || str_eq v s)
unfolding is_among
is_among-snoc s v [] = ground arith
is_among-snoc s v (x ∷ l) = ground (arith, is_among-snoc s v l)

snoc-Apart : (v : String) (l : List String) → is_among v l ≡ false → Apart l → Apart (l ++ v ∷ [])
unfolding is_among
snoc-Apart v [] new h = (refl, tt)
snoc-Apart v (x ∷ l) new h = (
  ground (arith, is_among-snoc x v l, eq_iff x v, eq_iff v x, h.0),
  snoc-Apart v l (ground arith) h.1,
)

enum_values-Apart :
    (taken : List String) (vs : Elements) → Apart taken → Gives Apart (enum_values taken vs)
unfolding enum_values
enum_values-Apart taken nil h = h
enum_values-Apart taken (cons null rest) h = tt
enum_values-Apart taken (cons (bool b) rest) h = tt
enum_values-Apart taken (cons (number n) rest) h = tt
enum_values-Apart taken (cons (array vs) rest) h = tt
enum_values-Apart taken (cons (object es) rest) h = tt
enum_values-Apart taken (cons (Value.text v) rest) h = elim (Bool-cases (is_among v taken)) [
  | inl twice ↦ rw (Gives, enum_values, twice) tt
  | inr new ↦
      rw (Gives, enum_values, new)
        (enum_values-Apart (taken ++ v ∷ []) rest (snoc-Apart v taken new h))
]

some_values-Apart : (l : List String) → Apart l → Gives Apart (some_values l)
unfolding some_values
some_values-Apart [] h = tt
some_values-Apart (s ∷ l) h = h

-- Only a string has an enum, without repetitions, or a const.
abbrev pub IsTextual : Info → Type 0
IsTextual i =
    (i.kind ≢ ref_kind)
    × ((is_string_kind i.kind ≡ true) ⊎ ((i.enum ≡ []) × (i.const ≡ "")))
    × Apart i.enum

module _ (i : Info) (h : IsTextual i) where
  apply_enum-IsTextual : (v : Value) → Gives IsTextual (apply_enum v i)
  unfolding apply_enum some_values
  apply_enum-IsTextual null = tt
  apply_enum-IsTextual (bool b) = tt
  apply_enum-IsTextual (number n) = tt
  apply_enum-IsTextual (Value.text t) = tt
  apply_enum-IsTextual (object es) = tt
  apply_enum-IsTextual (array vs) = elim (Bool-cases (is_string_kind i.kind)) [
    | inr other ↦ rw (Gives, apply_enum, other) tt
    | inl texts ↦
        rw (Gives, apply_enum, texts)
          (bind-Gives Apart IsTextual (enum_values [] vs) _ (enum_values-Apart [] vs tt)
            λ taken apart.
              bind-Gives Apart IsTextual (some_values taken) _ (some_values-Apart taken apart)
                λ enum once. (h.0, inl texts, once))
  ]

  apply_const-IsTextual : (v : Value) → Gives IsTextual (apply_const v i)
  unfolding apply_const
  apply_const-IsTextual null = tt
  apply_const-IsTextual (bool b) = tt
  apply_const-IsTextual (number n) = tt
  apply_const-IsTextual (array vs) = tt
  apply_const-IsTextual (object es) = tt
  apply_const-IsTextual (Value.text t) = elim (Bool-cases (is_string_kind i.kind)) [
    | inr other ↦ rw (Gives, apply_const, other) tt
    | inl texts ↦ rw (Gives, apply_const, texts) (h.0, inl texts, h.2)
  ]

  at_key-IsTextual :
      (o : Option Value) (apply : Value → Info → Result Info)
      → ((v : Value) → Gives IsTextual (apply v i))
      → Gives IsTextual (at_key o apply i)
  unfolding at_key
  at_key-IsTextual none apply hs = h
  at_key-IsTextual (some v) apply hs = hs v

  apply_format-IsTextual : (v : Value) → Gives IsTextual (apply_format v i)
  unfolding apply_format
  apply_format-IsTextual v = elim v as (λ w. Gives IsTextual (apply_format w i)) [
    | Value.text t ↦ h
    | _ ↦ tt
  ]

  apply_go_type-IsTextual : (v : Value) → Gives IsTextual (apply_go_type v i)
  unfolding apply_go_type
  apply_go_type-IsTextual v = elim v as (λ w. Gives IsTextual (apply_go_type w i)) [
    | Value.text t ↦ h
    | _ ↦ tt
  ]

  apply_minimum-IsTextual : (v : Value) → Gives IsTextual (apply_minimum v i)
  unfolding apply_minimum
  apply_minimum-IsTextual v = elim v as (λ w. Gives IsTextual (apply_minimum w i)) [
    | number n ↦ h
    | _ ↦ tt
  ]

  apply_maximum-IsTextual : (v : Value) → Gives IsTextual (apply_maximum v i)
  unfolding apply_maximum
  apply_maximum-IsTextual v = elim v as (λ w. Gives IsTextual (apply_maximum w i)) [
    | number n ↦ h
    | _ ↦ tt
  ]

apply_schema_metadata-IsTextual :
    (raw : Entries) (start : Info)
    → IsTextual start
    → Gives IsTextual (apply_schema_metadata raw start)
unfolding apply_schema_metadata
apply_schema_metadata-IsTextual raw start h =
    let step = bind-Gives IsTextual IsTextual in
    step _ _ (at_key-IsTextual start h _ apply_enum (apply_enum-IsTextual start h)) λ a ha.
      step _ _ (at_key-IsTextual a ha _ apply_const (apply_const-IsTextual a ha)) λ b hb.
        step _ _ (at_key-IsTextual b hb _ apply_format (apply_format-IsTextual b hb)) λ c hc.
          step _ _ (at_key-IsTextual c hc _ apply_go_type (apply_go_type-IsTextual c hc)) λ d hd.
            step _ _ (at_key-IsTextual d hd _ apply_minimum (apply_minimum-IsTextual d hd))
              λ e he. at_key-IsTextual e he _ apply_maximum (apply_maximum-IsTextual e he)

-- A lower bound that `uint64` enforces.
abbrev pub Bounds : Option String → Info → Type 0
Bounds none i = Unit
Bounds (some n) i = (i.kind ≡ integer_kind) × (i.go_type ≡ "uint64") × ((n ≡ "0") ⊎ (n ≡ "-0"))

abbrev pub IsBounded : Info → Type 0
IsBounded i = (i.maximum ≡ none) × Bounds i.minimum i

validate_minimum-Bounds :
    (n : String) (i : Info) → Gives (λ u. Bounds (some n) i) (validate_minimum n i)
unfolding validate_minimum is_integer_kind
validate_minimum-Bounds n i = ground (arith, eq_iff i.go_type "uint64", eq_iff n "0", eq_iff n "-0")

validate_numeric_constraints-IsBounded :
    (i : Info) → Gives (λ u. IsBounded i) (validate_numeric_constraints i)
unfolding validate_numeric_constraints
validate_numeric_constraints-IsBounded i = elim (Option-cases i.maximum) [
  | inr (n, upper) ↦ rw (Gives, validate_numeric_constraints, upper) tt
  | inl no_upper ↦ elim (Option-cases i.minimum) [
    | inl no_lower ↦
        rw (Gives, validate_numeric_constraints, no_upper, no_lower) (no_upper, rw no_lower tt)
    | inr (n, lower) ↦
        rw (Gives, validate_numeric_constraints, no_upper, lower)
          (weaken-Gives (λ u. Bounds (some n) i) (λ u. IsBounded i) (validate_minimum n i)
            (λ u bounds. (no_upper, rw lower bounds)) (validate_minimum-Bounds n i))
  ]
]

abbrev pub IsSound : Info → Type 0
IsSound i = IsTextual i × IsBounded i

-- A schema that is accepted and is no reference has a kind that a `type` names, an enum or a const
-- only if it is a string, no enum value twice, no maximum, and a minimum only of zero for an integer
-- that becomes a `uint64`.
pub parse_info-IsSound : (raw : Entries) → Gives IsSound (parse_info raw)
unfolding parse_info
parse_info-IsSound raw =
    bind-Gives (λ u. Unit {0}) IsSound (reject_unsupported_keywords raw) _ (anything _)
      λ u hu.
        bind-Gives Named IsSound (schema_kind raw) _ (schema_kind-Named raw)
          λ (kind, nullable) named.
            bind-Gives IsTextual IsSound _ _
              (apply_schema_metadata-IsTextual raw _ (named, inr (refl, refl), tt))
              λ i texts.
                bind-Gives (λ u. IsBounded i) IsSound _ _ (validate_numeric_constraints-IsBounded i)
                  λ v bounded. (texts, bounded)
