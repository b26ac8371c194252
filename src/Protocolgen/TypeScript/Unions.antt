-- ===== src/Protocolgen/TypeScript/Unions.antt =====
-- The unions of the wire types and of the message types, and the lists of the guarded commands.
use planning_poker.Base.{
  String, Bool, false, not, ◌||◌, none, some, List, [], ◌∷◌, map, if◌then◌else◌,
}
use planning_poker.Protocolgen.Text.{concat_all, replace_char}
use planning_poker.Protocolgen.Schema.{
  Properties, no_more, property, properties, is_object, Message, Spec, definition, keep_if,
  command_messages, event_messages, guarded_messages,
}

unfoldable pub single_quote : String → String
single_quote value =
    concat_all ("'" ∷ replace_char 39 "\\'" (replace_char 92 "\\\\" value) ∷ "'" ∷ [])

unfoldable pub wire_types : List Message → List String
wire_types messages = map (λ m. m.wire_type) messages

unfoldable pub message_definitions : List Message → List String
message_definitions messages = map (λ m. m.def_name) messages

unfoldable pub has_required_property : Properties → Bool
has_required_property no_more = false
has_required_property (property name s required ps) = required || has_required_property ps

-- The test of `emptyGuardedMessages`.
unfoldable pub is_empty_payload : Spec → Message → Bool
is_empty_payload spec m = elim (definition m.payload_type spec) [
  | none ↦ false
  | some d ↦
      if not (is_object d.body) then false else not (has_required_property (properties d.body))
]

unfoldable pub empty_guarded_messages : Spec → List Message
empty_guarded_messages spec = keep_if (is_empty_payload spec) (guarded_messages spec)

-- The members, of which the last ends the type.
unfoldable pub union_members : List String → String
union_members [] = "  never;\n"
union_members (value ∷ []) = concat_all ("  | " ∷ value ∷ ";\n" ∷ [])
union_members (value ∷ next ∷ values) =
    concat_all ("  | " ∷ value ∷ "\n" ∷ union_members (next ∷ values) ∷ [])

unfoldable pub emit_type_union : String → List String → String
emit_type_union name values =
    concat_all ("\nexport type " ∷ name ∷ " =\n" ∷ union_members values ∷ [])

unfoldable pub emit_string_union : String → List String → String
emit_string_union name values = emit_type_union name (map single_quote values)

unfoldable pub empty_command : String → String
empty_command wire_type = concat_all (
    "  "
    ∷ single_quote wire_type
    ∷ ": { type: "
    ∷ single_quote wire_type
    ∷ ", payload: {} },\n"
    ∷ [])

unfoldable pub list_line : String → String
list_line wire_type = concat_all ("  " ∷ single_quote wire_type ∷ ",\n" ∷ [])

unfoldable pub emit_type_script_unions : Spec → String
emit_type_script_unions spec =
    let empty_guarded = empty_guarded_messages spec in
    concat_all (
      emit_string_union "ClientCommandType" (wire_types (command_messages spec))
      ∷ emit_string_union "ServerEventType" (wire_types (event_messages spec))
      ∷ emit_string_union "GuardedCommandType" (wire_types (guarded_messages spec))
      ∷ emit_type_union "ClientCommand" (message_definitions (command_messages spec))
      ∷ emit_string_union "EmptyGuardedCommandType" (wire_types empty_guarded)
      ∷ "\nexport const EMPTY_GUARDED_COMMANDS: { readonly [K in EmptyGuardedCommandType]: "
      ∷ "Extract<ClientCommand, { type: K }> } = {\n"
      ∷ concat_all (map empty_command (wire_types empty_guarded))
      ∷ "};\n"
      ∷ emit_type_union "ServerEvent" (message_definitions (event_messages spec))
      ∷ "\nexport const GUARDED_COMMAND_TYPES: readonly GuardedCommandType[] = [\n"
      ∷ concat_all (map list_line (wire_types (guarded_messages spec)))
      ∷ "];\n\nexport const SERVER_EVENT_TYPES: readonly ServerEventType[] = [\n"
      ∷ concat_all (map list_line (wire_types (event_messages spec)))
      ∷ "];\n\nexport function isGuardedCommand(type: string): type is GuardedCommandType {\n"
      ∷ "  return GUARDED_COMMAND_TYPES.some((commandType) => commandType === type);\n}\n"
      ∷ [])
