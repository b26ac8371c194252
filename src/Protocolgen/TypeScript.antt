-- ===== src/Protocolgen/TypeScript.antt =====
-- tools/protocolgen/typescript.go: the TypeScript types of the messages and the functions that test
-- for them. The checks are in TypeScript/Checks, the unions in TypeScript/Unions, the imports in
-- TypeScript/Usage.
pub mod Usage
pub mod Unions
pub mod Checks
use planning_poker.Base.{
  ℕ, String, Bool, true, false, ◌||◌, Option, none, some, List, [], ◌∷◌, ◌++◌, str_eq,
  if◌then◌else◌,
}
use planning_poker.DomainError.{Error, plain, wrap, text, Result, ok, err, ◌>>=◌}
use planning_poker.Protocolgen.Text.{concat_all, has_text, join}
use planning_poker.Protocolgen.Schema.{
  SchemaKind, ref_kind, object_kind, string_kind, integer_kind, number_kind, boolean_kind,
  array_kind, Info, Schema, schema, info, properties, Properties, no_more, property, Items,
  no_items, items, Definition, Spec,
}
use planning_poker.Protocolgen.Keywords.{kind_text}
use planning_poker.Protocolgen.Asyncapi.{wrapped}
use planning_poker.Protocolgen.Loader.{Loaded, done, ◌then_with◌, lift}
use planning_poker.Protocolgen.Go.{generated_header, go_ref_type}
use Usage.{TypeScriptUsage, collect_type_script_usage}
use Unions.{single_quote, emit_type_script_unions}
use Checks.{emit_type_script_guards}

unfoldable pub ts_string_type : Info → String
ts_string_type i = if str_eq i.const "" then "string" else single_quote i.const

-- A type that is a union is put in brackets.
unfoldable pub array_of : String → String
array_of item =
    if has_text " | " item
    then concat_all ("(" ∷ item ∷ ")[]" ∷ [])
    else concat_all (item ∷ "[]" ∷ [])

-- The switch over the kind, with what the items give. The reference is looked up as for Go.
unfoldable pub ts_kind_type : Spec → SchemaKind → Info → Result String → Result String
ts_kind_type spec ref_kind i array_type = go_ref_type spec i.ref_name
ts_kind_type spec string_kind i array_type = ok (ts_string_type i)
ts_kind_type spec integer_kind i array_type = ok "number"
ts_kind_type spec number_kind i array_type = ok "number"
ts_kind_type spec boolean_kind i array_type = ok "boolean"
ts_kind_type spec array_kind i array_type = array_type
ts_kind_type spec object_kind i array_type =
    err (plain "unsupported type %q" (text (kind_text object_kind) ∷ []))

unfoldable mutual
  pub ts_type_name : Spec → Schema → Result String
  ts_type_name spec (schema i ps it) = ts_kind_type spec i.kind i (ts_array_type spec it)

  pub ts_array_type : Spec → Items → Result String
  ts_array_type spec no_items = err (plain "array without items" [])
  ts_array_type spec (items s) = ts_type_name spec s >>= λ item. ok (array_of item)

unfoldable pub ts_field : String → Schema → Bool → String → String
ts_field name s required type_name = concat_all (
    "  "
    ∷ name
    ∷ (if required then "" else "?")
    ∷ ": "
    ∷ type_name
    ∷ (if (info s).nullable then " | null" else "")
    ∷ ";\n"
    ∷ [])

unfoldable pub ts_fields : Spec → String → Properties → Result (List String)
ts_fields spec owner no_more = ok []
ts_fields spec owner (property name s required ps) =
    wrapped (wrap "$defs.%s.%s: %w" (text owner ∷ text name ∷ [])) (ts_type_name spec s)
    >>= λ type_name.
        ts_fields spec owner ps >>= λ fields. ok (ts_field name s required type_name ∷ fields)

unfoldable pub emit_type_script_interface : Spec → Definition → Result String
emit_type_script_interface spec d = ts_fields spec d.name (properties d.body) >>= λ fields.
    ok (concat_all ("\nexport interface " ∷ d.name ∷ " {\n" ∷ concat_all fields ∷ "}\n" ∷ []))

-- The values, with a bar behind each but the last.
unfoldable pub enum_union : List String → String
enum_union [] = ""
enum_union (value ∷ []) = concat_all (" " ∷ single_quote value ∷ [])
enum_union (value ∷ next ∷ values) =
    concat_all (" " ∷ single_quote value ∷ " |" ∷ enum_union (next ∷ values) ∷ [])

unfoldable pub emit_type_script_enum : Definition → String
emit_type_script_enum d =
    concat_all ("\nexport type " ∷ d.name ∷ " =" ∷ enum_union ((info d.body).enum) ∷ ";\n" ∷ [])

unfoldable pub ts_definition_of : Spec → Definition → SchemaKind → List String → Result String
ts_definition_of spec d object_kind enum = emit_type_script_interface spec d
ts_definition_of spec d string_kind (value ∷ values) = ok (emit_type_script_enum d)
ts_definition_of spec d kind enum = err (
    plain "$defs.%s: unsupported TypeScript definition kind %q"
      (text d.name ∷ text (kind_text kind) ∷ []))

unfoldable pub emit_type_script_definition : Spec → Definition → Result String
emit_type_script_definition spec d =
    ts_definition_of spec d ((info d.body).kind) ((info d.body).enum)

unfoldable pub ts_definitions : Spec → List Definition → Result (List String)
ts_definitions spec [] = ok []
ts_definitions spec (d ∷ ds) =
    emit_type_script_definition spec d >>= λ out. ts_definitions spec ds >>= λ rest. ok (out ∷ rest)

unfoldable pub helper_names : TypeScriptUsage → List String
helper_names usage =
    (if usage.integer then "isInteger" ∷ [] else [])
    ++ "isRecord"
      ∷ ((if usage.timestamp then "isRFC3339Timestamp" ∷ [] else [])
          ++ (if usage.uuid then "isUUID" ∷ [] else []))

unfoldable pub import_line : TypeScriptUsage → String
import_line usage =
    concat_all
      ("import { " ∷ join ", " (helper_names usage) ∷ " } from './protocol.runtime';\n" ∷ [])

-- What is printed below the imports.
unfoldable pub type_script_body : Spec → Result (List String)
type_script_body spec = ts_definitions spec spec.definitions >>= λ types.
    emit_type_script_guards spec >>= λ guards. ok (types ++ emit_type_script_unions spec ∷ guards)

unfoldable pub emit_type_script : ℕ → Spec → Loaded String
emit_type_script n spec = collect_type_script_usage n spec then_with λ usage.
    lift (type_script_body spec) then_with λ body.
    done (concat_all (generated_header ∷ "\n\n" ∷ import_line usage ∷ body))
