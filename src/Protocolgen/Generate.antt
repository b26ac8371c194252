-- ===== src/Protocolgen/Generate.antt =====
-- tools/protocolgen/main.go: `generateArtifacts`, and what `runIn` does with the artifacts.
use planning_poker.Base.{ℕ, suc, String, Option, none, some, List, [], ◌∷◌, length}
use planning_poker.DomainError.{Error, wrap, text, Result}
use planning_poker.Protocolgen.Schema.{Spec}
use planning_poker.Protocolgen.Documents.{FileSystem}
use planning_poker.Protocolgen.Loader.{Loaded, done, ◌then_with◌, lift, wrap_failure}
use planning_poker.Protocolgen.Loading.{SchemaLoader, new_schema_loader}
use planning_poker.Protocolgen.Spec.{spec_of}
use planning_poker.Protocolgen.Names.{Unicode}
use planning_poker.Protocolgen.Go.{emit_go_types}
use planning_poker.Protocolgen.GoMessages.{emit_go_messages}
use planning_poker.Protocolgen.TypeScript.{emit_type_script}
use planning_poker.Protocolgen.Docs.{emit_docs}

pub record Artifact : Type 0 where
  pub path : String
  pub content : String

abbrev pub types_go_path : String
types_go_path = "internal/protocol/types.generated.go"

abbrev pub messages_go_path : String
messages_go_path = "internal/protocol/messages.generated.go"

abbrev pub typescript_output_path : String
typescript_output_path =
    "frontend/planning-poker-front/src/components/messages/protocol.generated.ts"

abbrev pub protocol_readme_path : String
protocol_readme_path = "protocol/README.md"

abbrev pub generating : String → Error → Error
generating path e = wrap "generate %s: %w" (text path ∷ []) e

module _ (u : Unicode) (format_source : String → Result String) where
  -- The printers, on the contract.
  unfoldable pub emit_artifacts : ℕ → Spec → Loaded (List Artifact)
  emit_artifacts n spec =
      wrap_failure (generating types_go_path) (emit_go_types u format_source n spec)
      then_with λ types.
          wrap_failure (generating messages_go_path) (lift (emit_go_messages u format_source spec))
          then_with λ messages.
              wrap_failure (generating typescript_output_path) (emit_type_script n spec)
              then_with λ typescript. done (
                  record { path = types_go_path; content = types }
                  ∷ record { path = messages_go_path; content = messages }
                  ∷ record { path = typescript_output_path; content = typescript }
                  ∷ record { path = protocol_readme_path; content = emit_docs spec }
                  ∷ [])

  module _ (fs : FileSystem) (sort_strings : List String → List String) (root : String) where
    -- `none` stands for the panic at a schema that is missing. A chain of references is no longer than
    -- the list of the schemas.
    unfoldable pub emit_loaded : SchemaLoader → Option Spec → Loaded (Option (List Artifact))
    emit_loaded loader none = done none
    emit_loaded loader (some spec) =
        emit_artifacts (suc (length loader.parsed)) spec then_with λ artifacts.
        done (some artifacts)

    unfoldable pub generate_artifacts : Loaded (Option (List Artifact))
    generate_artifacts = new_schema_loader fs sort_strings root then_with λ loader.
        lift (spec_of fs sort_strings root loader) then_with λ spec. emit_loaded loader spec
