-- ===== src/Protocolgen/TypeScript/Checks.antt =====
-- The functions that test whether a value is of a type of the contract.
use planning_poker.Base.{
  String, Bool, true, false, none, some, List, [], ◌∷◌, ◌++◌, map, str_eq, if◌then◌else◌,
}
use planning_poker.DomainError.{plain, wrap, text, Result, ok, err, ◌>>=◌}
use planning_poker.Protocolgen.Text.{concat_all, join}
use planning_poker.Protocolgen.Schema.{
  SchemaKind, ref_kind, object_kind, string_kind, integer_kind, number_kind, boolean_kind,
  array_kind, Info, Schema, schema, info, properties, Properties, no_more, property, Items,
  no_items, items, Message, Definition, Spec, definition, command_messages, event_messages,
}
use planning_poker.Protocolgen.Keywords.{kind_text}
use planning_poker.Protocolgen.Asyncapi.{wrapped}
use planning_poker.Protocolgen.TypeScript.Unions.{single_quote}

unfoldable pub ts_numeric_check : Info → String → String → String
ts_numeric_check i check accessor = elim i.minimum [
  | none ↦ check
  | some bound ↦ concat_all (check ∷ " && " ∷ accessor ∷ " >= " ∷ bound ∷ [])
]

-- An object, or a string with an enum.
unfoldable pub validatable_kind : SchemaKind → List String → Bool
validatable_kind object_kind enum = true
validatable_kind string_kind (value ∷ values) = true
validatable_kind _ enum = false

unfoldable pub ts_ref_is_validatable : Schema → Bool
ts_ref_is_validatable s = validatable_kind ((info s).kind) ((info s).enum)

unfoldable pub ts_ref_check : Spec → String → String → Result String
ts_ref_check spec ref_name accessor = elim (definition ref_name spec) [
  | none ↦ err (plain "unknown $ref %q" (text ref_name ∷ []))
  | some d ↦
      if ts_ref_is_validatable d.body
      then ok (concat_all ("is" ∷ d.name ∷ "(" ∷ accessor ∷ ")" ∷ []))
      else err (plain "$ref %q cannot be validated" (text ref_name ∷ []))
]

unfoldable pub ts_string_check : Info → String → String
ts_string_check i accessor =
    if str_eq i.const ""
    then (if str_eq i.format "date-time"
        then concat_all ("isRFC3339Timestamp(" ∷ accessor ∷ ")" ∷ [])
        else if str_eq i.format "uuid"
        then concat_all ("isUUID(" ∷ accessor ∷ ")" ∷ [])
        else concat_all ("typeof " ∷ accessor ∷ " === 'string'" ∷ []))
    else concat_all (accessor ∷ " === " ∷ single_quote i.const ∷ [])

-- The switch over the kind, with the check of the items.
unfoldable pub ts_kind_check : Spec → SchemaKind → Info → String → Result String → Result String
ts_kind_check spec ref_kind i accessor item_check = ts_ref_check spec i.ref_name accessor
ts_kind_check spec string_kind i accessor item_check = ok (ts_string_check i accessor)
ts_kind_check spec integer_kind i accessor item_check =
    ok (ts_numeric_check i (concat_all ("isInteger(" ∷ accessor ∷ ")" ∷ [])) accessor)
ts_kind_check spec number_kind i accessor item_check =
    ok (ts_numeric_check i (concat_all ("typeof " ∷ accessor ∷ " === 'number'" ∷ [])) accessor)
ts_kind_check spec boolean_kind i accessor item_check =
    ok (concat_all ("typeof " ∷ accessor ∷ " === 'boolean'" ∷ []))
ts_kind_check spec array_kind i accessor item_check = item_check >>= λ check. ok (
    concat_all
      ("Array.isArray(" ∷ accessor ∷ ") && " ∷ accessor ∷ ".every((item) => " ∷ check ∷ ")" ∷ []))
ts_kind_check spec object_kind i accessor item_check =
    err (plain "unsupported type %q" (text (kind_text object_kind) ∷ []))

unfoldable pub or_null : Bool → String → String → String
or_null nullable accessor check =
    if nullable then concat_all ("(" ∷ accessor ∷ " === null || (" ∷ check ∷ "))" ∷ []) else check

unfoldable mutual
  -- `tsCheck` of what `tsNonNullCheck` gives.
  pub ts_check : Spec → Schema → String → Result String
  ts_check spec (schema i ps it) accessor =
      ts_kind_check spec i.kind i accessor (ts_item_check spec it) >>= λ check.
      ok (or_null i.nullable accessor check)

  pub ts_item_check : Spec → Items → Result String
  ts_item_check spec no_items = err (plain "array without items" [])
  ts_item_check spec (items s) = ts_check spec s "item"

unfoldable pub optional_check : Bool → String → String → String
optional_check required name check =
    if required then check else concat_all ("(!('" ∷ name ∷ "' in value) || " ∷ check ∷ ")" ∷ [])

-- The loop of `emitTypeScriptObjectGuard`.
unfoldable pub ts_checks : Spec → String → Properties → Result (List String)
ts_checks spec owner no_more = ok []
ts_checks spec owner (property name s required ps) =
    wrapped (wrap "$defs.%s.%s: %w" (text owner ∷ text name ∷ []))
      (ts_check spec s (concat_all ("value." ∷ name ∷ [])))
    >>= λ check.
        ts_checks spec owner ps >>= λ checks. ok (optional_check required name check ∷ checks)

-- The lines of the conjunction.
unfoldable pub check_lines : List String → String
check_lines [] = ""
check_lines (check ∷ []) = concat_all ("    " ∷ check ∷ "\n" ∷ [])
check_lines (check ∷ next ∷ checks) =
    concat_all ("    " ∷ check ∷ " &&\n" ∷ check_lines (next ∷ checks) ∷ [])

unfoldable pub guard_return : List String → String
guard_return [] = "  return true;\n}\n"
guard_return (check ∷ checks) =
    concat_all ("  return (\n" ∷ check_lines (check ∷ checks) ∷ "  );\n}\n" ∷ [])

unfoldable pub guard_start : String → String → String
guard_start guard type_name =
    concat_all
      ("\nexport function " ∷ guard ∷ "(value: unknown): value is " ∷ type_name ∷ " {\n" ∷ [])

abbrev pub record_test : String
record_test = "  if (!isRecord(value)) {\n    return false;\n  }\n\n"

unfoldable pub emit_type_script_object_guard : Spec → Definition → Result String
emit_type_script_object_guard spec d = ts_checks spec d.name (properties d.body) >>= λ checks. ok (
    concat_all (
      guard_start (concat_all ("is" ∷ d.name ∷ [])) d.name
      ∷ record_test
      ∷ guard_return checks
      ∷ []))

unfoldable pub enum_test : String → String
enum_test value = concat_all ("value === " ∷ single_quote value ∷ [])

unfoldable pub emit_type_script_enum_guard : Definition → String
emit_type_script_enum_guard d = concat_all (
    guard_start (concat_all ("is" ∷ d.name ∷ [])) d.name
    ∷ "  return "
    ∷ join " || " (map enum_test ((info d.body).enum))
    ∷ ";\n}\n"
    ∷ [])

-- The cases of the loop of `emitTypeScriptGuards`, of which nothing else is printed.
unfoldable pub ts_guard_of : Spec → Definition → SchemaKind → List String → Result String
ts_guard_of spec d object_kind enum = emit_type_script_object_guard spec d
ts_guard_of spec d string_kind (value ∷ values) = ok (emit_type_script_enum_guard d)
ts_guard_of spec d kind enum = ok ""

unfoldable pub ts_guards : Spec → List Definition → Result (List String)
ts_guards spec [] = ok []
ts_guards spec (d ∷ ds) = ts_guard_of spec d ((info d.body).kind) ((info d.body).enum) >>= λ out.
    ts_guards spec ds >>= λ rest. ok (out ∷ rest)

unfoldable pub dispatcher_case : Message → String
dispatcher_case m =
    concat_all (
      "    case "
      ∷ single_quote m.wire_type
      ∷ ":\n      return is"
      ∷ m.def_name
      ∷ "(value);\n"
      ∷ [])

unfoldable pub emit_type_script_dispatcher : String → String → List Message → String
emit_type_script_dispatcher guard type_name messages = concat_all (
    guard_start guard type_name
    ∷ record_test
    ∷ "  switch (value.type) {\n"
    ∷ concat_all (map dispatcher_case messages)
    ∷ "    default:\n      return false;\n  }\n}\n"
    ∷ [])

unfoldable pub emit_type_script_guards : Spec → Result (List String)
emit_type_script_guards spec = ts_guards spec spec.definitions >>= λ guards. ok (
    guards
    ++ emit_type_script_dispatcher "isServerEvent" "ServerEvent" (event_messages spec)
      ∷ emit_type_script_dispatcher "isClientCommand" "ClientCommand" (command_messages spec)
      ∷ [])
