-- ===== src/Protocolgen/Spec.antt =====
-- `loadSpec`: the schemas, the AsyncAPI document and the messages put together.
use planning_poker.Base.{String, Option, none, some, List, [], ◌∷◌}
use planning_poker.Base.Maps.{lookup}
use planning_poker.DomainError.{plain, wrap, text, Result, ok, err, ◌>>=◌, ◌>>◌}
use planning_poker.Protocolgen.Text.{cut_prefix}
use planning_poker.Protocolgen.Value.{Value, Entries, get, as_map, string_value}
use planning_poker.Protocolgen.Yaml.{string_map, normalize_value}
use planning_poker.Protocolgen.Schema.{Message, Definition, Spec, new_spec}
use planning_poker.Protocolgen.Documents.{FileSystem}
use planning_poker.Protocolgen.Loader.{Loaded, ◌then_with◌, lift}
use planning_poker.Protocolgen.Loading.{SchemaLoader, definition_names, new_schema_loader}
use planning_poker.Protocolgen.Asyncapi.{
  asyncapi_messages, validate_message_exposure, operation_directions, wrapped,
}
use planning_poker.Protocolgen.Contract.{build_messages}

abbrev asyncapi_yaml_path : String
asyncapi_yaml_path = "protocol/asyncapi.yaml"

unfoldable pub check_version : Entries → Result Entries
check_version document =
    let version = string_value (get "asyncapi" document) in
    elim (cut_prefix "3." version) [
      | none ↦ err (
          plain "%s: asyncapi version %q must start with 3"
            (text asyncapi_yaml_path ∷ text version ∷ []))
      | some rest ↦ ok document
    ]

unfoldable pub as_document : Value → Result Entries
as_document v = elim (as_map v) [
  | none ↦ err (plain "%s: document must be an object" (text asyncapi_yaml_path ∷ []))
  | some document ↦ ok document
]

module _ (fs : FileSystem) (sort_strings : List String → List String) (root : String) where
  unfoldable pub asyncapi_file : String
  asyncapi_file = fs.join_paths root (fs.from_slash asyncapi_yaml_path)

  unfoldable pub read_asyncapi_document : Result Entries
  read_asyncapi_document = do
    raw ← wrapped (wrap "read %s: %w" (text asyncapi_yaml_path ∷ [])) (fs.read_file asyncapi_file)
    document ← wrapped (wrap "parse %s: %w" (text asyncapi_yaml_path ∷ [])) (fs.unmarshal_yaml raw)
    normalized ←
        wrapped (wrap "parse %s: %w" (text asyncapi_yaml_path ∷ []))
          (normalize_value (string_map document))
    object ← as_document normalized
    check_version object

  -- A definition that was not parsed has no schema to point at: `none` is that nil pointer.
  unfoldable pub build_definition : SchemaLoader → String → Option Definition
  build_definition loader name = elim (lookup name loader.defs) [
    | none ↦ none
    | some raw ↦ elim (lookup name loader.parsed) [
      | none ↦ none
      | some s ↦ some (record { name = name; file = raw.rel_file; body = s })
    ]
  ]

  unfoldable pub build_all : SchemaLoader → List String → Option (List Definition)
  build_all loader [] = some []
  build_all loader (name ∷ names) =
      let rest = build_all loader names in
      elim (build_definition loader name) [
        | none ↦ none
        | some d ↦ elim rest [ none ↦ none | some ds ↦ some (d ∷ ds) ]
      ]

  unfoldable pub build_definitions : SchemaLoader → Option (List Definition)
  build_definitions loader = build_all loader (definition_names fs sort_strings loader.defs)

  -- The messages, from a loader that has its schemas.
  unfoldable pub load_messages : SchemaLoader → Result (List Message)
  load_messages loader = do
    document ← read_asyncapi_document
    (messages_raw, channel_messages) ← asyncapi_messages document
    validate_message_exposure messages_raw channel_messages
    directions ← operation_directions document
    build_messages fs root loader asyncapi_file messages_raw channel_messages directions

  unfoldable pub spec_of : SchemaLoader → Result (Option Spec)
  spec_of loader = load_messages loader >>= λ messages. elim (build_definitions loader) [
    | none ↦ ok none
    | some definitions ↦ new_spec messages definitions >>= λ spec. ok (some spec)
  ]

  unfoldable pub load_spec : Loaded (Option Spec)
  load_spec = new_schema_loader fs sort_strings root then_with λ loader. lift (spec_of loader)
