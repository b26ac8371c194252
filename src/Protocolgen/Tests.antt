-- ===== src/Protocolgen/Tests.antt =====
-- The theorems of the generator at a small contract.
use planning_poker.Protocolgen.Results.{Gives, Succeeds}
use planning_poker.Base.{List, String, ◌≡◌, refl, [], ◌∷◌}
use planning_poker.Base.Maps.{lookup, insert}
use planning_poker.DomainError.{Result, err, plain, wrap, text, ok}
use planning_poker.Protocolgen.Text.{
  cut, grow, split_at, replace_pair, cut_prefix, has_suffix, last_of, snoc_char,
}
use planning_poker.Protocolgen.Value.{string_value, get, as_map, map_at, size}
use planning_poker.Protocolgen.Schema.{
  Message, find_property, is_object, receive, new_spec, index_definitions, info, properties,
  definition,
}
use planning_poker.Protocolgen.Pointers.{
  split_ref, pointer_name, pointer_value, pointer_walk, pointer_step, found, unescape,
  check_pointer,
}
use planning_poker.Protocolgen.Documents.{
  rel_path, load_doc, target_file, resolve_ref, register_definition, register_all,
  load_definitions_from, load_definitions,
}
use planning_poker.Protocolgen.Names.{
  split_identifier, split_runes, flush, begins_word, next_is_lower,
}
use planning_poker.Protocolgen.Keywords.{
  parse_info, reject_unsupported_keywords, reject_keywords, schema_kind, kind_of_type,
  schema_kind_name, schema_kind_without_type, is_set, apply_schema_metadata, at_key, apply_enum,
  enum_values, some_values, apply_const, apply_minimum, apply_go_type, is_string_kind,
  is_integer_kind, validate_numeric_constraints, validate_minimum, is_among,
}
use planning_poker.Protocolgen.Keywords.Laws.{IsSound, parse_info-IsSound}
use planning_poker.Protocolgen.Loader.{
  done, failed, lift, wrap_failure, Loaded, parse_definitions, parse_definition, parse_schema,
  parse_ref_schema, ref_schema, parse_children, parse_object_properties, required_names, names_of,
  string_values, all_declared, parse_property_list, parse_object_property,
}
use planning_poker.Protocolgen.Loader.Whole.{Resolves, new_schema_loader-Resolves}
use planning_poker.Protocolgen.Loading.{
  SchemaLoader, new_schema_loader, schema_files, kept_files, some_files, definition_names, keys,
}
use planning_poker.Protocolgen.Asyncapi.{wrapped}
use planning_poker.Protocolgen.Contract.{
  build_each, build_message, described_message, message_texts, resolve_message_payload,
  located_payload, require_message_type_const, direction_at, payload_type_for, all_exposed,
  build_messages,
}
use planning_poker.Protocolgen.Messages.{AllFit, build_messages-AllFit}
use planning_poker.Protocolgen.Go.{
  go_definitions, emit_go_definition, go_definition_of, emit_go_struct, go_fields, go_property_type,
  go_type_name, go_ref_type, go_kind_type, is_array,
}
use planning_poker.Protocolgen.TypeScript.{type_script_body}
use planning_poker.Protocolgen.Agreement.{type_script_body-Succeeds}
use planning_poker.Protocolgen.Generate.{generate_artifacts}
use planning_poker.Protocolgen.Complete.{Settles, generate_artifacts-Settles}
use planning_poker.Protocolgen.TypeScript.Unions.{wire_types}
use planning_poker.Protocolgen.Samples.{
  version_entries, contract, circle, one_file, ascii, same_list, pong_loader, messages_raw,
  channel_messages, pong, card_definition, pong_spec,
}

words_run : split_identifier ascii "roomID-v2" ≡ "room" ∷ "ID" ∷ "v2" ∷ []
unfolding split_identifier split_runes flush begins_word next_is_lower snoc_char
words_run = refl

circle_run :
    new_schema_loader (one_file circle) same_list "root"
    ≡ failed (
        wrap "%s: $defs.%s: %w" (text "all.schema.json" ∷ text "A" ∷ []) (
          wrap "%s: $defs.%s: %w"
            (text "all.schema.json" ∷ text "B" ∷ [])
            (plain "circular $ref at %q" (text "A" ∷ []))))
unfolding new_schema_loader schema_files kept_files some_files has_suffix lift definition_names keys
    load_definitions load_definitions_from load_doc register_all register_definition rel_path map_at
    as_map get insert lookup parse_definitions parse_definition wrap_failure parse_schema
    parse_ref_schema resolve_ref split_ref cut check_pointer pointer_value pointer_walk pointer_step
    found unescape replace_pair split_at grow cut_prefix pointer_name last_of target_file is_among
    size
circle_run = refl

-- The names of the schemas that were parsed, in their order.
abbrev parsed_names : Loaded SchemaLoader → List String
parsed_names (done l) = keys l.parsed
parsed_names _ = []

contract_run :
    parsed_names (new_schema_loader (one_file contract) same_list "root")
    ≡ "Card" ∷ "Payload" ∷ "Ping" ∷ "Pong" ∷ []
unfolding new_schema_loader schema_files kept_files some_files has_suffix lift definition_names keys
    load_definitions load_definitions_from load_doc register_all register_definition rel_path map_at
    as_map get insert lookup parse_definitions parse_definition wrap_failure parse_schema
    parse_ref_schema resolve_ref split_ref cut check_pointer pointer_value pointer_walk pointer_step
    found unescape replace_pair split_at grow cut_prefix pointer_name last_of target_file is_among
    size parse_info reject_unsupported_keywords reject_keywords schema_kind kind_of_type
    schema_kind_name schema_kind_without_type is_set apply_schema_metadata at_key apply_enum
    enum_values some_values apply_const apply_minimum apply_go_type is_string_kind is_integer_kind
    validate_numeric_constraints validate_minimum parse_children parse_object_properties
    required_names names_of string_values all_declared parse_property_list parse_object_property
    ref_schema
contract_run = refl

new_schema_loader-Resolves_example :
    Resolves (one_file contract) same_list (new_schema_loader (one_file contract) same_list "root")
new_schema_loader-Resolves_example = new_schema_loader-Resolves (one_file contract) same_list "root"

generate_artifacts-Settles_example :
    Settles (generate_artifacts ascii (λ source. ok source) (one_file contract) same_list "root")
generate_artifacts-Settles_example =
    generate_artifacts-Settles ascii (λ source. ok source) (one_file contract) same_list "root"
      (λ name names among. among)

parse_info-IsSound_example : Gives IsSound (parse_info version_entries)
parse_info-IsSound_example = parse_info-IsSound version_entries

abbrev wire_types_of : Result (List Message) → List String
wire_types_of (ok messages) = wire_types messages
wire_types_of (err e) = []

messages_run :
    wire_types_of (
      build_messages
        (one_file contract)
        "root"
        pong_loader
        "asyncapi.yaml"
        messages_raw
        channel_messages
        (("pong", receive) ∷ []))
    ≡ "pong" ∷ []
unfolding build_messages build_each build_message described_message message_texts
    resolve_message_payload located_payload require_message_type_const direction_at payload_type_for
    all_exposed wrapped wire_types find_property properties info is_object resolve_ref load_doc
    target_file rel_path map_at as_map get string_value lookup split_ref cut check_pointer
    pointer_value pointer_walk pointer_step found unescape replace_pair split_at grow cut_prefix
    pointer_name last_of
messages_run = refl

build_messages-AllFit_example :
    Gives
      (AllFit pong_loader (one_file contract) "root" (("pong", receive) ∷ []) channel_messages)
      (build_messages
        (one_file contract)
        "root"
        pong_loader
        "asyncapi.yaml"
        messages_raw
        channel_messages
        (("pong", receive) ∷ []))
build_messages-AllFit_example =
    build_messages-AllFit pong_loader (one_file contract) "root" "asyncapi.yaml" messages_raw
      channel_messages (("pong", receive) ∷ [])

type_script_body-Succeeds_example : Succeeds (type_script_body pong_spec)
type_script_body-Succeeds_example =
    type_script_body-Succeeds ascii [] (card_definition ∷ pong ∷ []) pong_spec
      (unfold new_spec index_definitions insert lookup in refl)
      (unfold go_definitions emit_go_definition go_definition_of emit_go_struct go_fields
          go_property_type go_type_name go_ref_type go_kind_type is_array wrapped info properties
          definition lookup in
        tt)
