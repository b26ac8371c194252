-- ===== src/Protocolgen/Go.antt =====
-- tools/protocolgen/golang.go: the Go types of the messages.
use planning_poker.Base.{
  ℕ, zero, suc, String, Bool, true, false, not, ◌||◌, none, some, List, [], ◌∷◌, str_eq,
  if◌then◌else◌,
}
use planning_poker.DomainError.{plain, wrap, text, Result, ok, err, ◌>>=◌}
use planning_poker.Protocolgen.Text.{concat_all}
use planning_poker.Protocolgen.Names.{Unicode, go_name, go_constant_suffix}
use planning_poker.Protocolgen.Schema.{
  SchemaKind, ref_kind, object_kind, string_kind, integer_kind, number_kind, boolean_kind,
  array_kind, Info, Schema, schema, info, properties, Properties, no_more, property, Items,
  no_items, items, Definition, Spec, definition,
}
use planning_poker.Protocolgen.Keywords.{kind_text}
use planning_poker.Protocolgen.Asyncapi.{wrapped}
use planning_poker.Protocolgen.Loader.{Loaded, done, out_of_fuel, ◌then_with◌, lift}

abbrev pub generated_header : String
generated_header =
    "// Code generated by tools/protocolgen from protocol/asyncapi.yaml; DO NOT EDIT."

unfoldable pub go_integer_type : String → Result String
go_integer_type go_type =
    if str_eq go_type ""
    then ok "int"
    else if str_eq go_type "uint64"
    then ok "uint64"
    else err (plain "unsupported x-go-type %q for integer" (text go_type ∷ []))

unfoldable pub go_number_type : String → Result String
go_number_type go_type =
    if str_eq go_type ""
    then ok "float64"
    else if str_eq go_type "float32"
    then ok "float32"
    else err (plain "unsupported x-go-type %q for number" (text go_type ∷ []))

-- The name of a definition that a reference means.
unfoldable pub go_ref_type : Spec → String → Result String
go_ref_type spec name = elim (definition name spec) [
  | none ↦ err (plain "unknown $ref %q" (text name ∷ []))
  | some d ↦ ok name
]

unfoldable pub star_if : Bool → String → String
star_if b name = if b then concat_all ("*" ∷ name ∷ []) else name

-- The switch over the kind, with what the items give.
unfoldable pub go_kind_type : Spec → SchemaKind → Info → Result String → Result String
go_kind_type spec ref_kind i array_type = go_ref_type spec i.ref_name
go_kind_type spec string_kind i array_type =
    ok (if str_eq i.format "date-time" then "time.Time" else "string")
go_kind_type spec integer_kind i array_type = go_integer_type i.go_type
go_kind_type spec number_kind i array_type = go_number_type i.go_type
go_kind_type spec boolean_kind i array_type = ok "bool"
go_kind_type spec array_kind i array_type = array_type
go_kind_type spec object_kind i array_type =
    err (plain "unsupported type %q" (text (kind_text object_kind) ∷ []))

unfoldable mutual
  pub go_type_name : Spec → Schema → Result String
  go_type_name spec (schema i ps it) = go_kind_type spec i.kind i (go_array_type spec it)

  pub go_array_type : Spec → Items → Result String
  go_array_type spec no_items = err (plain "array without items" [])
  go_array_type spec (items s) =
      go_type_name spec s >>= λ item. ok (concat_all ("[]" ∷ star_if ((info s).nullable) item ∷ []))

unfoldable pub is_array : Schema → Bool
is_array s = elim ((info s).kind) [ array_kind ↦ true | _ ↦ false ]

-- The type, and whether the tag has `omitempty`.
unfoldable pub go_property_type : Spec → Schema → Bool → Result (String × Bool)
go_property_type spec s required = go_type_name spec s >>= λ base.
    if is_array s
    then ok (base, false)
    else if (info s).nullable || not required
    then ok (concat_all ("*" ∷ base ∷ []), not required)
    else ok (base, false)

module _ (u : Unicode) where
  -- The loop of `emitGoStruct`.
  unfoldable pub go_fields : Spec → String → Properties → Result (List String)
  go_fields spec owner no_more = ok []
  go_fields spec owner (property name s required ps) =
      let line : String × Bool → String = λ (type_name, omitempty).
        let tag = if omitempty then concat_all (name ∷ ",omitempty" ∷ []) else name in
        concat_all
          ("\t" ∷ go_name u name ∷ " " ∷ type_name ∷ " `json:" ∷ u.quote tag ∷ "`\n" ∷ []) in
      wrapped (wrap "$defs.%s.%s: %w" (text owner ∷ text name ∷ []))
        (go_property_type spec s required)
      >>= λ field. go_fields spec owner ps >>= λ fields. ok (line field ∷ fields)

  unfoldable pub emit_go_struct : Spec → Definition → Result String
  emit_go_struct spec d = go_fields spec d.name (properties d.body) >>= λ fields.
      ok (concat_all ("\ntype " ∷ d.name ∷ " struct {\n" ∷ concat_all fields ∷ "}\n" ∷ []))

  unfoldable pub go_constants : String → List String → List String
  go_constants name [] = []
  go_constants name (value ∷ values) =
      concat_all
        ("\t" ∷ name ∷ go_constant_suffix u value ∷ " " ∷ name ∷ " = " ∷ u.quote value ∷ "\n" ∷ [])
      ∷ go_constants name values

  unfoldable pub emit_go_enum : Definition → String
  emit_go_enum d = concat_all (
      "\ntype "
      ∷ d.name
      ∷ " string\n"
      ∷ "\nconst (\n"
      ∷ concat_all (go_constants d.name ((info d.body).enum))
      ∷ ")\n"
      ∷ [])

  -- The cases of the loop of `emitGoTypes`. A string counts only with its enum.
  unfoldable pub go_definition_of : Spec → Definition → SchemaKind → List String → Result String
  go_definition_of spec d object_kind enum = emit_go_struct spec d
  go_definition_of spec d string_kind (value ∷ values) = ok (emit_go_enum d)
  go_definition_of spec d kind enum =
      err (
        plain "$defs.%s: unsupported definition kind %q" (text d.name ∷ text (kind_text kind) ∷ []))

  unfoldable pub emit_go_definition : Spec → Definition → Result String
  emit_go_definition spec d = go_definition_of spec d ((info d.body).kind) ((info d.body).enum)

  unfoldable pub go_definitions : Spec → List Definition → Result (List String)
  go_definitions spec [] = ok []
  go_definitions spec (d ∷ ds) =
      emit_go_definition spec d >>= λ out. go_definitions spec ds >>= λ rest. ok (out ∷ rest)

unfoldable pub either : Loaded Bool → Loaded Bool → Loaded Bool
either first second = first then_with λ b. if b then done true else second

-- The switch of `schemaUsesTime`, with what the properties and the items give.
unfoldable pub time_of_kind :
    (String → Loaded Bool) → SchemaKind → Info → Loaded Bool → Loaded Bool → Loaded Bool
time_of_kind refer object_kind i of_properties of_items = of_properties
time_of_kind refer string_kind i of_properties of_items = done (str_eq i.format "date-time")
time_of_kind refer array_kind i of_properties of_items = of_items
time_of_kind refer ref_kind i of_properties of_items = refer i.ref_name
time_of_kind refer _ i of_properties of_items = done false

-- What a reference gives is an argument.
unfoldable mutual
  pub time_in : (String → Loaded Bool) → Schema → Loaded Bool
  time_in refer (schema i ps it) =
      time_of_kind refer i.kind i (time_in_properties refer ps) (time_in_items refer it)

  pub time_in_properties : (String → Loaded Bool) → Properties → Loaded Bool
  time_in_properties refer no_more = done false
  time_in_properties refer (property name s required ps) =
      either (time_in refer s) (time_in_properties refer ps)

  pub time_in_items : (String → Loaded Bool) → Items → Loaded Bool
  time_in_items refer no_items = done false
  time_in_items refer (items s) = time_in refer s

-- The fuel is for the references that are followed one behind the other: the code has no bound there.
unfoldable pub schema_uses_time : ℕ → Spec → Schema → Loaded Bool
schema_uses_time zero spec s = out_of_fuel
schema_uses_time (suc n) spec s =
    let refer : String → Loaded Bool = λ name. elim (definition name spec) [
      | none ↦ done false
      | some d ↦ schema_uses_time n spec d.body
    ] in
    time_in refer s

unfoldable pub definitions_use_time : ℕ → Spec → List Definition → Loaded Bool
definitions_use_time n spec [] = done false
definitions_use_time n spec (d ∷ ds) =
    either (schema_uses_time n spec d.body) (definitions_use_time n spec ds)

unfoldable pub spec_uses_time : ℕ → Spec → Loaded Bool
spec_uses_time n spec = definitions_use_time n spec spec.definitions

-- `format_source` is `format.Source`.
module _ (u : Unicode) (format_source : String → Result String) where
  unfoldable pub emit_go_types : ℕ → Spec → Loaded String
  emit_go_types n spec = lift (go_definitions u spec spec.definitions) then_with λ body.
      spec_uses_time n spec then_with λ used. lift (
        format_source (
          concat_all (
            generated_header
            ∷ "\n\npackage protocol\n"
            ∷ (if used then "\nimport \"time\"\n" else "")
            ∷ body)))
