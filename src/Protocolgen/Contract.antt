-- ===== src/Protocolgen/Contract.antt =====
-- `loadSpec`: the messages of the contract, with the schemas that they carry.
use Prim.Native.String.{◌++◌ as concat}
use planning_poker.Base.{
  String, not, ◌||◌, Option, none, some, List, [], ◌∷◌, str_eq, if◌then◌else◌,
}
use planning_poker.Base.Maps.{lookup}
use planning_poker.DomainError.{Error, plain, wrap, text, Result, ok, err, ◌>>=◌, ◌>>◌}
use planning_poker.Protocolgen.Value.{Entries, end, entry, get, string_value, map_at}
use planning_poker.Protocolgen.Schema.{
  Schema, info, properties, find_property, is_object, ref_kind, Direction, send, receive, Message,
}
use planning_poker.Protocolgen.Documents.{FileSystem, RawDefinition, resolve_ref}
use planning_poker.Protocolgen.Pointers.{split_ref, pointer_name}
use planning_poker.Protocolgen.Loading.{SchemaLoader}
use planning_poker.Protocolgen.Asyncapi.{Directions, wrapped}

-- A message that its wire type is not described as it should be.
abbrev about : String → String → Error
about message wire_type = plain message (text wire_type ∷ [])

unfoldable pub require_message_type_const : Schema → String → String → Result (Unit {0})
require_message_type_const payload def_name wire_type =
    let refused : Result (Unit {0}) =
      err (
        plain "asyncapi: $defs.%s.type.const must equal %q"
          (text def_name ∷ text wire_type ∷ [])) in
    elim (find_property "type" (properties payload)) [
      | none ↦ refused
      | some s ↦ if str_eq ((info s).const) wire_type then ok tt else refused
    ]

-- The name in the reference of a schema, if it is one.
unfoldable pub ref_of : Schema → Option String
ref_of s = elim ((info s).kind) [ ref_kind ↦ some (info s).ref_name | _ ↦ none ]

unfoldable pub payload_type_for :
    SchemaLoader → Schema → String → String → Direction → Result String
payload_type_for loader payload def_name wire_type receive = ok def_name
payload_type_for loader payload def_name wire_type send =
    let undeclared : Result String =
      err (about "asyncapi: command %q must declare a payload $ref" wire_type) in
    let no_object : String → Result String = λ name. err (
      plain "asyncapi: command %q payload %q must be an object"
        (text wire_type ∷ text name ∷ [])) in
    let parsed : String → Result String = λ name. elim (lookup name loader.parsed) [
      | none ↦ no_object name
      | some s ↦ if is_object s then ok name else no_object name
    ] in
    let known : String → Result String = λ name. elim (lookup name loader.defs) [
      | none ↦
          err (plain "asyncapi: command %q payload %q is unknown" (text wire_type ∷ text name ∷ []))
      | some d ↦ parsed name
    ] in
    elim (find_property "payload" (properties payload)) [
      | none ↦ undeclared
      | some s ↦ elim (ref_of s) [ none ↦ undeclared | some name ↦ known name ]
    ]

-- The name of the definition, its file, its schema and the fragment.
abbrev pub MessagePayload : Type 0
MessagePayload = String × RawDefinition × Schema × String

-- The definition that a resolved reference names.
unfoldable pub located_payload : SchemaLoader → String → String → String → Result MessagePayload
located_payload loader wire_type ref fragment =
    let def_name = pointer_name fragment in
    let parsed : RawDefinition → Result MessagePayload = λ d. elim (lookup def_name loader.parsed) [
      | none ↦ err (about "asyncapi: $defs.%s was not parsed" def_name)
      | some s ↦
          if is_object s
          then ok (def_name, d, s, fragment)
          else err (about "asyncapi: $defs.%s must be an object" def_name)
    ] in
    elim (lookup def_name loader.defs) [
      | none ↦ err (
          plain "asyncapi: components.messages.%s.payload %q does not resolve to a $defs entry"
            (text wire_type ∷ text ref ∷ []))
      | some d ↦ parsed d
    ]

-- The checks of the name, the title and the summary.
unfoldable pub message_texts : String → Entries → Result (String × String)
message_texts wire_type message =
    let title = string_value (get "title" message) in
    let summary = string_value (get "summary" message) in
    if not (str_eq (string_value (get "name" message)) wire_type)
    then err (
        plain "asyncapi: components.messages.%s.name must be %q"
          (text wire_type ∷ text wire_type ∷ []))
    else if str_eq title "" || str_eq summary ""
    then err (about "asyncapi: components.messages.%s requires title and summary" wire_type)
    else ok (title, summary)

unfoldable pub direction_at : String → Directions → Result Direction
direction_at wire_type directions = elim (lookup wire_type directions) [
  | none ↦ err (about "asyncapi: message %q is not listed by any operation" wire_type)
  | some direction ↦ ok direction
]

-- The second loop, in the order of the list.
unfoldable pub all_exposed : Directions → Entries → Result (Unit {0})
all_exposed [] channel_messages = ok tt
all_exposed ((wire_type, direction) ∷ directions) channel_messages =
    let rest = all_exposed directions channel_messages in
    elim (get wire_type channel_messages) [
      | none ↦
          err
            (about "asyncapi: operation message %q is not exposed by channels.roomSocket" wire_type)
      | some v ↦ rest
    ]

module _ (fs : FileSystem) (root : String) where
  unfoldable pub resolve_message_payload :
      SchemaLoader → String → String → Entries → Result MessagePayload
  resolve_message_payload loader asyncapi_file wire_type message =
      let resolved : String → Result MessagePayload = λ ref.
        wrapped (wrap "asyncapi: components.messages.%s.payload: %w" (text wire_type ∷ []))
          (resolve_ref fs root asyncapi_file ref)
        >>= λ target. located_payload loader wire_type ref (split_ref ref).1 in
      let given : Entries → Result MessagePayload = λ payload.
        let ref = string_value (get "$ref" payload) in
        if str_eq ref ""
        then err (about "asyncapi: components.messages.%s.payload.$ref is required" wire_type)
        else resolved ref in
      elim (map_at "payload" message) [
        | none ↦ err (about "asyncapi: components.messages.%s.payload must be an object" wire_type)
        | some payload ↦ given payload
      ]

  unfoldable pub described_message :
      SchemaLoader → String → String → Directions → Entries → Result Message
  described_message loader asyncapi_file wire_type directions message = do
    (title, summary) ← message_texts wire_type message
    (def_name, d, payload, fragment) ←
        resolve_message_payload loader asyncapi_file wire_type message
    require_message_type_const payload def_name wire_type
    direction ← direction_at wire_type directions
    payload_type ← payload_type_for loader payload def_name wire_type direction
    ok (record {
      wire_type = wire_type;
      title = title;
      summary = summary;
      direction = direction;
      schema_file = d.rel_file;
      schema_pointer = concat "#" fragment;
      def_name = def_name;
      payload_type = payload_type;
    })

  unfoldable pub build_message :
      SchemaLoader → String → String → Option Entries → Directions → Result Message
  build_message loader asyncapi_file wire_type raw directions = elim raw [
    | none ↦ err (about "asyncapi: components.messages.%s must be an object" wire_type)
    | some message ↦ described_message loader asyncapi_file wire_type directions message
  ]

  -- The first loop of `buildMessages`.
  unfoldable pub build_each :
      SchemaLoader → String → Entries → Entries → Directions → Result (List Message)
  build_each loader asyncapi_file messages_raw end directions = ok []
  build_each loader asyncapi_file messages_raw (entry wire_type v es) directions =
      build_message loader asyncapi_file wire_type (map_at wire_type messages_raw) directions
      >>= λ m. build_each loader asyncapi_file messages_raw es directions >>= λ ms. ok (m ∷ ms)

  unfoldable pub build_messages :
      SchemaLoader → String → Entries → Entries → Directions → Result (List Message)
  build_messages loader asyncapi_file messages_raw channel_messages directions = do
    messages ← build_each loader asyncapi_file messages_raw channel_messages directions
    all_exposed directions channel_messages
    ok messages
