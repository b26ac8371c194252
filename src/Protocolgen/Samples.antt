-- ===== src/Protocolgen/Samples.antt =====
-- A small contract for the tests.
use Prim.Native.Char.{code}
use planning_poker.Base.{
  String, true, false, none, some, List, [], ◌∷◌, str_eq, leb, ◌&&◌, if◌then◌else◌,
}
use planning_poker.DomainError.{ok}
use planning_poker.Protocolgen.Value.{
  Value, number, array, object, Elements, nil, cons, Entries, end, entry,
}
use planning_poker.Protocolgen.Yaml.{YamlEntries, blank, pair, Yaml, scalar, item, stop}
use planning_poker.Protocolgen.Schema.{
  object_kind, string_kind, ref_kind, Info, Schema, schema, no_more, property, no_items, Definition,
  Spec, properties,
}
use planning_poker.Protocolgen.Documents.{FileSystem, RawDefinition}
use planning_poker.Protocolgen.Names.{Unicode}
use planning_poker.Protocolgen.Loading.{SchemaLoader}

abbrev pub key : String → Value → Entries → Entries
key k v es = entry k v es

abbrev pub reference : String → Value
reference target = object (key "$ref" (Value.text target) end)

abbrev pub strings : List String → Value
strings l = array (go l)
  where
    go : List String → Elements
    go [] = nil
    go (s ∷ rest) = cons (Value.text s) (go rest)

-- A command `ping`, its payload with a card of an enum and a number, and the event `pong`.
abbrev pub card : Value
card = object (key "enum" (strings ("S" ∷ "M" ∷ [])) (key "type" (Value.text "string") end))

abbrev pub version_entries : Entries
version_entries =
    key "minimum" (number "0")
      (key "type" (Value.text "integer") (key "x-go-type" (Value.text "uint64") end))

abbrev pub version : Value
version = object version_entries

abbrev pub object_of : Entries → List String → Value
object_of properties names = object (
    key "properties" (object properties)
      (key "required" (strings names) (key "type" (Value.text "object") end)))

abbrev pub constant : String → Value
constant s = object (key "const" (Value.text s) end)

abbrev pub definitions : Entries
definitions = key "Card" card (
    key "Payload"
      (object_of (key "card" (reference "#/$defs/Card") (key "version" version end)) ("card" ∷ []))
      (key "Ping"
        (object_of (key "payload" (reference "#/$defs/Payload") (key "type" (constant "ping") end))
          ("type" ∷ []))
        (key "Pong" (object_of (key "type" (constant "pong") end) ("type" ∷ [])) end)))

abbrev pub contract : Entries
contract = key "$defs" (object definitions) end

-- A contract whose two definitions refer to each other.
abbrev pub circle : Entries
circle =
    key "$defs" (object (key "A" (reference "#/$defs/B") (key "B" (reference "#/$defs/A") end))) end

abbrev pub y : String → Yaml → YamlEntries → YamlEntries
y k v es = pair k v es

abbrev pub ytext : String → Yaml
ytext s = scalar (Value.text s)

abbrev pub yref : String → Yaml
yref s = Yaml.string_map (y "$ref" (ytext s) blank)

abbrev pub ymessage : String → String → Yaml
ymessage name target = Yaml.string_map (
    y "name" (ytext name)
      (y "payload" (yref target) (y "summary" (ytext "what it is") (y "title" (ytext name) blank))))

abbrev pub yoperation : String → String → Yaml
yoperation action name =
    Yaml.string_map
      (y "action" (ytext action) (y "messages" (Yaml.sequence (item (yref name) stop)) blank))

abbrev pub asyncapi : YamlEntries
asyncapi = y "asyncapi" (ytext "3.0.0") (
    y "channels"
      (Yaml.string_map (
        y "roomSocket"
          (Yaml.string_map (
            y "messages"
              (Yaml.string_map (
                y "ping" (yref "#/components/messages/ping")
                  (y "pong" (yref "#/components/messages/pong") blank)))
              blank))
          blank))
      (y "components"
        (Yaml.string_map (
          y "messages"
            (Yaml.string_map (
              y "ping" (ymessage "ping" "schemas/all.schema.json#/$defs/Ping")
                (y "pong" (ymessage "pong" "schemas/all.schema.json#/$defs/Pong") blank)))
            blank))
        (y "operations"
          (Yaml.string_map (
            y "hear" (yoperation "receive" "#/channels/roomSocket/messages/pong")
              (y "say" (yoperation "send" "#/channels/roomSocket/messages/ping") blank)))
          blank)))

-- One file of schemas. Paths stand as they are written, and every join is of a directory with a file.
abbrev pub one_file : Entries → FileSystem
one_file document = record {
  clean = λ path. path;
  dir = λ path. "protocol";
  join_paths =
      λ directory file. if str_eq file "schemas/all.schema.json" then "all.schema.json" else file;
  from_slash = λ path. path;
  to_slash = λ path. path;
  is_abs = λ path. false;
  rel = λ root path. some path;
  read_dir = λ directory. ok (("all.schema.json", false) ∷ ("README.md", false) ∷ []);
  read_file = λ path. ok path;
  unmarshal = λ content. ok document;
  unmarshal_yaml = λ content. ok asyncapi;
}

-- The letters of English.
abbrev pub ascii : Unicode
ascii = record {
  is_letter = λ c. leb 65 (code c);
  is_digit = λ c. leb 48 (code c) && leb (code c) 57;
  is_upper = λ c. leb 65 (code c) && leb (code c) 90;
  is_lower = λ c. leb 97 (code c);
  to_upper = λ c. c;
  to_lower = λ s. s;
  quote = λ s. s;
}

abbrev pub same_list : List String → List String
same_list l = l

abbrev pub no_keywords : Info
no_keywords = record {
  kind = object_kind;
  nullable = false;
  enum = [];
  const = "";
  format = "";
  go_type = "";
  minimum = none;
  maximum = none;
  ref_name = "";
}

abbrev pub pong_schema : Schema
pong_schema =
    schema no_keywords
      (property "type"
        (schema (record no_keywords { kind = string_kind; const = "pong" }) no_more no_items) true
        (property "card"
          (schema (record no_keywords { kind = ref_kind; ref_name = "Card" }) no_more no_items)
          false no_more))
      no_items

abbrev pub card_schema : Schema
card_schema =
    schema (record no_keywords { kind = string_kind; enum = "S" ∷ "M" ∷ [] }) no_more no_items

abbrev pub raw_definition : String → Entries → RawDefinition
raw_definition name raw = record {
  name = name;
  file = "all.schema.json";
  rel_file = "all.schema.json";
  raw = raw;
}

abbrev pub pong_loader : SchemaLoader
pong_loader = record {
  defs = ("Pong", raw_definition "Pong" end) ∷ [];
  parsed = ("Pong", pong_schema) ∷ [];
}

abbrev pub pong_message : Entries
pong_message = key "name" (Value.text "pong") (
    key "payload" (reference "all.schema.json#/$defs/Pong")
      (key "summary" (Value.text "an answer") (key "title" (Value.text "Pong") end)))

abbrev pub messages_raw : Entries
messages_raw = key "pong" (object pong_message) end

abbrev pub channel_messages : Entries
channel_messages = key "pong" (reference "#/components/messages/pong") end

abbrev pub pong : Definition
pong = record { name = "Pong"; file = "all.schema.json"; body = pong_schema }

abbrev pub card_definition : Definition
card_definition = record { name = "Card"; file = "all.schema.json"; body = card_schema }

abbrev pub pong_spec : Spec
pong_spec = record {
  messages = [];
  definitions = card_definition ∷ pong ∷ [];
  by_name = ("Card", card_definition) ∷ ("Pong", pong) ∷ [];
}
