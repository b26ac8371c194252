-- ===== src/Protocolgen/Docs.antt =====
-- tools/protocolgen/docs.go: the description of the protocol in Markdown.
use planning_poker.Base.{String, none, some, List, [], ◌∷◌, map, if◌then◌else◌}
use planning_poker.Protocolgen.Text.{concat_all, cut_prefix}
use planning_poker.Protocolgen.Schema.{Message, Spec, is_command, guarded_messages}
use planning_poker.Protocolgen.Go.{generated_header}

-- `strings.TrimPrefix`
unfoldable pub trim_prefix : String → String → String
trim_prefix prefix s = elim (cut_prefix prefix s) [ none ↦ s | some rest ↦ rest ]

unfoldable pub message_row : Message → String
message_row m = concat_all (
    "| `"
    ∷ m.wire_type
    ∷ "` | "
    ∷ (if is_command m then "client -> server" else "server -> client")
    ∷ " | [`"
    ∷ m.def_name
    ∷ "`]("
    ∷ trim_prefix "protocol/" m.schema_file
    ∷ m.schema_pointer
    ∷ ") | "
    ∷ m.summary
    ∷ " |\n"
    ∷ [])

unfoldable pub guarded_line : Message → String
guarded_line m = concat_all ("- `" ∷ m.wire_type ∷ "`\n" ∷ [])

abbrev pub docs_start : List String
docs_start =
    "\n\n# Planning Poker WebSocket protocol\n\n"
    ∷ "This directory is the single source of truth for the realtime room WebSocket contract.\n"
    ∷ "The AsyncAPI document describes the channel, operations, and messages; the JSON Schema\n"
    ∷ "files describe every payload. Go and TypeScript types and validators are generated from\n"
    ∷ "these files and must not be edited by hand.\n\n"
    ∷ "- AsyncAPI document: [asyncapi.yaml](asyncapi.yaml)\n"
    ∷ "- Payload schemas: [schemas/](schemas/)\n\n" ∷ "## Messages\n\n"
    ∷ "| Wire type | Direction | Schema | Summary |\n" ∷ "| --- | --- | --- | --- |\n" ∷ []

abbrev pub docs_guarded : List String
docs_guarded =
    "\n## Guarded commands\n\n"
    ∷ "Commands whose payload carries `expectedRoomVersion` are guarded: the client refuses to\n"
    ∷ "send them until the room version is known, and the server rejects stale versions.\n\n" ∷ []

abbrev pub docs_end : List String
docs_end =
    "\n## Changing the protocol\n\n"
    ∷ "1. Edit `protocol/asyncapi.yaml` and/or the JSON Schema files under `protocol/schemas/`.\n"
    ∷ "2. Run `make protocol` to regenerate the committed artifacts.\n"
    ∷ "3. Run `make protocol-check` to confirm the generated files match the spec.\n"
    ∷ "4. Commit the spec change together with every regenerated file.\n\n"
    ∷ "Generated artifacts:\n\n" ∷ "- `internal/protocol/types.generated.go`\n"
    ∷ "- `internal/protocol/messages.generated.go`\n"
    ∷ "- `frontend/planning-poker-front/src/components/messages/protocol.generated.ts`\n"
    ∷ "- `protocol/README.md`\n\n"
    ∷ "Never hand-edit a generated file: the next `make protocol` run overwrites it.\n" ∷ []

unfoldable pub emit_docs : Spec → String
emit_docs spec = concat_all (
    generated_header
    ∷ concat_all docs_start
    ∷ concat_all (map message_row spec.messages)
    ∷ concat_all docs_guarded
    ∷ concat_all (map guarded_line (guarded_messages spec))
    ∷ concat_all docs_end
    ∷ [])
