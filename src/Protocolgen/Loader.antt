-- ===== src/Protocolgen/Loader.antt =====
-- `schemaLoader`: the schemas of the registered definitions, each parsed once, its references first.
-- `parsed` is the state that the functions pass on; `parsing`, from which a deferred `delete` takes
-- the name of a definition out again, is the argument that grows on the way down.
pub mod Ends
pub mod Termination
pub mod Resolved
pub mod Growth
pub mod Whole
use planning_poker.Base.{
  ℕ, zero, suc, String, Bool, true, false, Option, none, some, List, [], ◌∷◌, ◌++◌, str_eq,
  if◌then◌else◌,
}
use planning_poker.Base.Maps.{StringMap, lookup, insert}
use planning_poker.DomainError.{Error, plain, wrap, text, Result, ok, err}
use planning_poker.Protocolgen.Value.{
  Value, array, Elements, nil, cons, Entries, end, entry, get, as_map, size_entries,
}
use planning_poker.Protocolgen.Schema.{
  SchemaKind, ref_kind, object_kind, array_kind, Info, Schema, schema, Properties, no_more,
  property, Items, no_items, items,
}
use planning_poker.Protocolgen.Keywords.{parse_info, is_among}
use planning_poker.Protocolgen.Pointers.{pointer_name}
use planning_poker.Protocolgen.Documents.{FileSystem, RawDefinition, rel_path, resolve_ref}

-- What a run gives. An error ends the load, so it leaves no state behind.
pub data Loaded {ℓ} (A : Type ℓ) : Type ℓ where
  done : A → Loaded A
  failed : Error → Loaded A
  out_of_fuel : Loaded A

module _ {ℓ κ} {A : Type ℓ} {B : Type κ} where
  infixl 5 ◌then_with◌
  abbrev pub ◌then_with◌ : Loaded A → (A → Loaded B) → Loaded B
  (done a) then_with f = f a
  (failed e) then_with f = failed e
  out_of_fuel then_with f = out_of_fuel

unfoldable pub wrap_failure {ℓ} : {A : Type ℓ} → (Error → Error) → Loaded A → Loaded A
wrap_failure around (done a) = done a
wrap_failure around (failed e) = failed (around e)
wrap_failure around out_of_fuel = out_of_fuel

unfoldable pub lift {ℓ} : {A : Type ℓ} → Result A → Loaded A
lift (ok a) = done a
lift (err e) = failed e

-- `l.parsed`
abbrev pub Parsed : Type 0
Parsed = StringMap Schema

-- What is left of a parse: the schema, and what is parsed by then.
abbrev pub Parse {ℓ} : Type ℓ → Type ℓ
Parse A = Parsed → Loaded (A × Parsed)

unfoldable pub string_values : List String → Elements → Result (List String)
string_values taken nil = ok taken
string_values taken (cons (Value.text name) rest) = string_values (taken ++ name ∷ []) rest
string_values taken (cons _ rest) = err (plain "required entries must be strings" [])

unfoldable pub names_of : Value → Result (List String)
names_of (array values) = string_values [] values
names_of _ = err (plain "required must be an array" [])

unfoldable pub required_names : Entries → Result (List String)
required_names raw = elim (get "required" raw) [ none ↦ ok [] | some v ↦ names_of v ]

-- The check of the names against the properties, in the order of the list.
unfoldable pub all_declared : List String → Entries → Result (Unit {0})
all_declared [] es = ok tt
all_declared (name ∷ names) es =
    let rest = all_declared names es in
    elim (get name es) [
      | none ↦ err (plain "required property %q is not declared" (text name ∷ []))
      | some v ↦ rest
    ]

-- The parser of the schemas inside is an argument of what parses their surroundings.
unfoldable pub parse_object_property : (Entries → Parse Schema) → String → Value → Parse Schema
parse_object_property parse name value parsed = elim (as_map value) [
  | none ↦ failed (plain "property %q must be an object" (text name ∷ []))
  | some es ↦ wrap_failure (wrap "property %q: %w" (text name ∷ [])) (parse es parsed)
]

unfoldable pub parse_property_list :
    (Entries → Parse Schema) → List String → Entries → Parse Properties
parse_property_list parse required end parsed = done (no_more, parsed)
parse_property_list parse required (entry name value es) parsed =
    parse_object_property parse name value parsed then_with λ (s, after).
    parse_property_list parse required es after then_with λ (ps, last).
    done (property name s (is_among name required) ps, last)

unfoldable pub parse_object_properties : (Entries → Parse Schema) → Entries → Parse Properties
parse_object_properties parse raw parsed =
    let declared : Entries → Loaded (Properties × Parsed) = λ es.
      lift (required_names raw) then_with λ required.
      lift (all_declared required es) then_with λ u. parse_property_list parse required es parsed in
    let given : Value → Loaded (Properties × Parsed) = λ value. elim (as_map value) [
      | none ↦ failed (plain "properties must be an object" [])
      | some es ↦ declared es
    ] in
    elim (get "properties" raw) [ none ↦ done (no_more, parsed) | some value ↦ given value ]

unfoldable pub parse_array_items : (Entries → Parse Schema) → Entries → Parse Items
parse_array_items parse raw parsed =
    let given : Value → Loaded (Items × Parsed) = λ value. elim (as_map value) [
      | none ↦ failed (plain "array items must be an object" [])
      | some es ↦ wrap_failure (wrap "array items: %w" []) (parse es parsed) then_with λ (s, after).
          done (items s, after)
    ] in
    elim (get "items" raw) [
      | none ↦ failed (plain "array items are required" [])
      | some value ↦ given value
    ]

-- The switch over the kind.
unfoldable pub parse_children :
    (Entries → Parse Schema) → SchemaKind → Info → Entries → Parse Schema
parse_children parse object_kind i raw parsed =
    parse_object_properties parse raw parsed then_with λ (ps, after).
    done (schema i ps no_items, after)
parse_children parse array_kind i raw parsed =
    parse_array_items parse raw parsed then_with λ (it, after). done (schema i no_more it, after)
parse_children parse _ i raw parsed = done (schema i no_more no_items, parsed)

-- `&Schema{Kind: KindRef, RefName: refName}`
unfoldable pub ref_schema : String → Schema
ref_schema name =
    schema
      (record {
        kind = ref_kind;
        nullable = false;
        enum = [];
        const = "";
        format = "";
        go_type = "";
        minimum = none;
        maximum = none;
        ref_name = name;
      })
      no_more no_items

module _ (fs : FileSystem) (root : String) (defs : StringMap RawDefinition) where
  -- The parser of a definition is an argument of what refers to it.
  unfoldable pub parse_ref_schema : (String → Parse Schema) → Value → String → Parse Schema
  parse_ref_schema define (Value.text ref) file parsed =
      let refer : String → Loaded (Schema × Parsed) =
        λ name. define name parsed then_with λ (s, after). done (ref_schema name, after) in
      let located : String → String → RawDefinition → Loaded (Schema × Parsed) = λ target name d.
        if str_eq (fs.clean target) (fs.clean d.file)
        then refer name
        else failed (
            plain "$ref %q resolves to %s but $defs.%s lives in %s"
              (text ref ∷ text (rel_path fs root target) ∷ text name ∷ text d.rel_file ∷ [])) in
      lift (resolve_ref fs root file ref) then_with λ (target, fragment).
      elim (lookup (pointer_name fragment) defs) [
        | none ↦ failed (plain "$ref %q does not point at a known $defs entry" (text ref ∷ []))
        | some d ↦ located target (pointer_name fragment) d
      ]
  parse_ref_schema define _ file parsed = failed (plain "$ref must be a string" [])

  -- The fuel is for the depth of the schema.
  unfoldable pub parse_schema : (String → Parse Schema) → ℕ → String → Entries → Parse Schema
  parse_schema define zero file raw parsed = out_of_fuel
  parse_schema define (suc m) file raw parsed =
      let inner : Entries → Parse Schema = λ es p. parse_schema define m file es p in
      elim (get "$ref" raw) [
        | some ref ↦ parse_ref_schema define ref file parsed
        | none ↦ lift (parse_info raw) then_with λ i. parse_children inner i.kind i raw parsed
      ]

  -- The fuel is for the definitions that are open at once.
  unfoldable pub parse_definition : ℕ → List String → String → Parse Schema
  parse_definition zero parsing name parsed = out_of_fuel
  parse_definition (suc n) parsing name parsed =
      let open_one : RawDefinition → Loaded (Schema × Parsed) = λ d.
        wrap_failure (wrap "%s: $defs.%s: %w" (text d.rel_file ∷ text name ∷ [])) (
          parse_schema (λ other p. parse_definition n (name ∷ parsing) other p)
            (suc (size_entries d.raw)) d.file d.raw parsed)
        then_with λ (s, after). done (s, insert name s after) in
      let known : Loaded (Schema × Parsed) = elim (lookup name defs) [
        | none ↦ failed (plain "unknown $defs %q" (text name ∷ []))
        | some d ↦
            if is_among name parsing
            then failed (plain "circular $ref at %q" (text name ∷ []))
            else open_one d
      ] in
      elim (lookup name parsed) [ some s ↦ done (s, parsed) | none ↦ known ]

  unfoldable pub parse_definitions : ℕ → List String → Parsed → Loaded Parsed
  parse_definitions n [] parsed = done parsed
  parse_definitions n (name ∷ names) parsed =
      parse_definition n [] name parsed then_with λ (s, after). parse_definitions n names after
