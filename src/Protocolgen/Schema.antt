-- ===== src/Protocolgen/Schema.antt =====
-- The parsed contract: `Schema`, `Property`, `Definition`, `Message` and `Spec` of spec.go.
use planning_poker.Base.{
  String, Bool, true, false, Option, none, some, List, [], ◌∷◌, str_eq, if◌then◌else◌, not,
}
use planning_poker.Base.Maps.{StringMap, lookup, insert}
use planning_poker.DomainError.{plain, text, Result, ok, err, ◌>>=◌}

pub data SchemaKind : Type 0 where
  ref_kind object_kind string_kind integer_kind number_kind boolean_kind array_kind : SchemaKind

-- The fields of `Schema` but for its properties and its items. An empty text is an absent one.
pub record Info : Type 0 where
  pub kind : SchemaKind
  pub nullable : Bool
  pub enum : List String
  pub const : String
  pub format : String
  pub go_type : String
  pub minimum : Option String
  pub maximum : Option String
  pub ref_name : String

mutual
  pub data Schema : Type 0 where
    schema : Info → Properties → Items → Schema

  pub data Properties : Type 0 where
    no_more : Properties
    property : String → Schema → Bool → Properties → Properties

  pub data Items : Type 0 where
    no_items : Items
    items : Schema → Items

unfoldable pub info : Schema → Info
info (schema i ps it) = i

unfoldable pub properties : Schema → Properties
properties (schema i ps it) = ps

-- `(*Schema).Property`: the schema of the property.
unfoldable pub find_property : String → Properties → Option Schema
find_property name no_more = none
find_property name (property n s required ps) =
    let rest = find_property name ps in if str_eq n name then some s else rest

unfoldable pub is_object : Schema → Bool
is_object s = elim ((info s).kind) [ object_kind ↦ true | _ ↦ false ]

pub data Direction : Type 0 where
  send receive : Direction

pub record Message : Type 0 where
  pub wire_type : String
  pub title : String
  pub summary : String
  pub direction : Direction
  pub schema_file : String
  pub schema_pointer : String
  pub def_name : String
  pub payload_type : String

pub record Definition : Type 0 where
  pub name : String
  pub file : String
  pub body : Schema

pub record Spec : Type 0 where
  pub messages : List Message
  pub definitions : List Definition
  pub by_name : StringMap Definition

unfoldable pub is_command : Message → Bool
is_command m = elim m.direction [ send ↦ true | receive ↦ false ]

-- The loop of `newSpec`.
unfoldable pub index_definitions :
    List Definition → StringMap Definition → Result (StringMap Definition)
index_definitions [] m = ok m
index_definitions (d ∷ ds) m =
    let rest = index_definitions ds (insert d.name d m) in
    elim (lookup d.name m) [
      | some old ↦ err (plain "duplicate $defs %q" (text d.name ∷ []))
      | none ↦ rest
    ]

unfoldable pub new_spec : List Message → List Definition → Result Spec
new_spec messages definitions = index_definitions definitions [] >>= λ m.
    ok (record { messages = messages; definitions = definitions; by_name = m })

unfoldable pub definition : String → Spec → Option Definition
definition name spec = lookup name spec.by_name

unfoldable pub keep_if : (Message → Bool) → List Message → List Message
keep_if test [] = []
keep_if test (m ∷ ms) = let rest = keep_if test ms in if test m then m ∷ rest else rest

unfoldable pub command_messages : Spec → List Message
command_messages spec = keep_if is_command spec.messages

unfoldable pub event_messages : Spec → List Message
event_messages spec = keep_if (λ m. not (is_command m)) spec.messages

-- The test of `GuardedMessages`.
unfoldable pub is_guarded : Spec → Message → Bool
is_guarded spec m = if not (is_command m) then false else elim (definition m.payload_type spec) [
  | none ↦ false
  | some d ↦
      if not (is_object d.body)
      then false
      else elim (find_property "expectedRoomVersion" (properties d.body)) [
        | none ↦ false
        | some s ↦ true
      ]
]

unfoldable pub guarded_messages : Spec → List Message
guarded_messages spec = keep_if (is_guarded spec) spec.messages
