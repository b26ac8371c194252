-- ===== src/Protocolgen/GoMessages.antt =====
-- `emitGoMessages`: the Go constants and lists of the wire types.
use planning_poker.Base.{String, [], ◌∷◌, map}
use planning_poker.DomainError.{Result}
use planning_poker.Protocolgen.Text.{concat_all}
use planning_poker.Protocolgen.Names.{Unicode, go_name}
use planning_poker.Protocolgen.Schema.{Message, Spec, command_messages, event_messages}
use planning_poker.Protocolgen.Go.{generated_header}

module _ (u : Unicode) where
  unfoldable pub go_message_constant : Message → String
  go_message_constant m =
      concat_all ("\tMessageType" ∷ go_name u m.wire_type ∷ " = " ∷ u.quote m.wire_type ∷ "\n" ∷ [])

  unfoldable pub go_list_item : Message → String
  go_list_item m = concat_all ("\t\t" ∷ u.quote m.wire_type ∷ ",\n" ∷ [])

  unfoldable pub go_type_test : Message → String
  go_type_test m = concat_all (
      "\tif messageType == MessageType" ∷ go_name u m.wire_type ∷ " {\n\t\treturn true\n\t}\n" ∷ [])

  unfoldable pub go_payload_case : Message → String
  go_payload_case m = concat_all (
      "\tcase MessageType"
      ∷ go_name u m.wire_type
      ∷ ":\n\t\treturn &"
      ∷ m.payload_type
      ∷ "{}, true\n"
      ∷ [])

  unfoldable pub go_messages_source : Spec → String
  go_messages_source spec = concat_all (
      generated_header
      ∷ "\n\npackage protocol\n\nconst (\n"
      ∷ concat_all (map go_message_constant spec.messages)
      ∷ ")\n\nvar (\n\tClientCommandTypes = []string{\n"
      ∷ concat_all (map go_list_item (command_messages spec))
      ∷ "\t}\n\n\tServerEventTypes = []string{\n"
      ∷ concat_all (map go_list_item (event_messages spec))
      ∷ "\t}\n)\n\n// IsClientCommandType reports whether the wire type is a client command.\n"
      ∷ "func IsClientCommandType(messageType string) bool {\n"
      ∷ concat_all (map go_type_test (command_messages spec))
      ∷ "\treturn false\n}\n\n// IsServerEventType reports whether the wire type is a server event.\n"
      ∷ "func IsServerEventType(messageType string) bool {\n"
      ∷ concat_all (map go_type_test (event_messages spec))
      ∷ "\treturn false\n}\n"
      ∷ "\n// NewClientCommandPayload returns a pointer to the zero payload struct for a command.\n"
      ∷ "func NewClientCommandPayload(messageType string) (any, bool) {\n\tswitch messageType {\n"
      ∷ concat_all (map go_payload_case (command_messages spec))
      ∷ "\t}\n\treturn nil, false\n}\n"
      ∷ [])

  unfoldable pub emit_go_messages : (String → Result String) → Spec → Result String
  emit_go_messages format_source spec = format_source (go_messages_source spec)
