-- ===== src/Protocolgen/Messages.antt =====
-- The messages that `loadSpec` accepts: their wire types, directions and payloads.
use planning_poker.Protocolgen.Results.{Gives, bind-Gives, anything}
use planning_poker.Base.{
  String, ◌≡◌, refl, true, Option, none, some, Option-cases, Bool-cases, List, [], ◌∷◌, All, map,
  str_eq, eq_iff, arith, inl, inr,
}
use planning_poker.Base.Maps.{lookup}
use planning_poker.DomainError.{wrap, text}
use planning_poker.Protocolgen.Value.{Entries, end, entry, get, map_at, string_value, sorted_keys}
use planning_poker.Protocolgen.Schema.{
  Schema, info, properties, find_property, is_object, Direction, send, receive, Message,
}
use planning_poker.Protocolgen.Pointers.{split_ref, pointer_name}
use planning_poker.Protocolgen.Documents.{FileSystem, resolve_ref}
use planning_poker.Protocolgen.Loading.{SchemaLoader}
use planning_poker.Protocolgen.Asyncapi.{Directions, wrapped}
use planning_poker.Protocolgen.Contract.{
  MessagePayload, located_payload, ref_of, require_message_type_const, payload_type_for,
  resolve_message_payload, message_texts, direction_at, described_message, build_message,
  build_each, all_exposed, build_messages,
}

-- The name has been parsed as the schema, which is an object.
abbrev pub IsObjectOf : SchemaLoader → String → Schema → Type 0
IsObjectOf loader name s = (lookup name loader.parsed ≡ some s) × (is_object s ≡ true)

-- The `type` of the object is the constant.
abbrev pub HasType : Schema → String → Type 0
HasType s wire_type =
    (t : Schema) × (find_property "type" (properties s) ≡ some t) × ((info t).const ≡ wire_type)

-- A command carries an object that its schema refers to, an event is its own payload.
abbrev pub Carries : SchemaLoader → String → Direction → String → Type 0
Carries loader def_name send payload_type = (s : Schema) × IsObjectOf loader payload_type s
Carries loader def_name receive payload_type = payload_type ≡ def_name

abbrev pub Fits : SchemaLoader → Directions → Message → Type 0
Fits loader directions m =
    (lookup m.wire_type directions ≡ some m.direction)
    × ((s : Schema) × IsObjectOf loader m.def_name s × HasType s m.wire_type)
    × Carries loader m.def_name m.direction m.payload_type

require_message_type_const-HasType :
    (s : Schema) (def_name wire_type : String)
    → Gives (λ u. HasType s wire_type) (require_message_type_const s def_name wire_type)
unfolding require_message_type_const
require_message_type_const-HasType s def_name wire_type =
    elim (Option-cases (find_property "type" (properties s))) [
      | inl missing ↦ rw (Gives, require_message_type_const, missing) tt
      | inr (t, there) ↦ elim (Bool-cases (str_eq ((info t).const) wire_type)) [
        | inr other ↦ rw (Gives, require_message_type_const, there, other) tt
        | inl same ↦
            rw (Gives, require_message_type_const, there, same)
              (t, there, ground (arith, eq_iff ((info t).const) wire_type))
      ]
    ]

payload_type_for-Carries :
    (loader : SchemaLoader) (s : Schema) (def_name wire_type : String) (direction : Direction)
    → Gives
        (Carries loader def_name direction)
        (payload_type_for loader s def_name wire_type direction)
unfolding payload_type_for
payload_type_for-Carries loader s def_name wire_type receive = refl
payload_type_for-Carries loader s def_name wire_type send =
    elim (Option-cases (find_property "payload" (properties s))) [
      | inl missing ↦ rw (Gives, payload_type_for, missing) tt
      | inr (t, there) ↦ elim (Option-cases (ref_of t)) [
        | inl no_ref ↦ rw (Gives, payload_type_for, there, no_ref) tt
        | inr (name, refers) ↦ elim (Option-cases (lookup name loader.defs)) [
          | inl unknown ↦ rw (Gives, payload_type_for, there, refers, unknown) tt
          | inr (d, known) ↦ elim (Option-cases (lookup name loader.parsed)) [
            | inl unparsed ↦ rw (Gives, payload_type_for, there, refers, known, unparsed) tt
            | inr (o, parsed) ↦ elim (Bool-cases (is_object o)) [
              | inr other ↦ rw (Gives, payload_type_for, there, refers, known, parsed, other) tt
              | inl object ↦
                  rw (Gives, payload_type_for, there, refers, known, parsed, object)
                    (o, (parsed, object))
            ]
          ]
        ]
      ]
    ]

direction_at-found :
    (wire_type : String) (directions : Directions)
    → Gives
        (λ direction. lookup wire_type directions ≡ some direction)
        (direction_at wire_type directions)
unfolding direction_at
direction_at-found wire_type directions = elim (Option-cases (lookup wire_type directions)) [
  | inl missing ↦ rw (Gives, direction_at, missing) tt
  | inr (direction, there) ↦ rw (Gives, direction_at, there) there
]

module _ (loader : SchemaLoader) where
  abbrev Resolved : MessagePayload → Type 0
  Resolved (def_name, d, s, fragment) = IsObjectOf loader def_name s

  located_payload-Resolved :
      (wire_type ref fragment : String)
      → Gives Resolved (located_payload loader wire_type ref fragment)
  unfolding located_payload
  located_payload-Resolved wire_type ref fragment =
      elim (Option-cases (lookup (pointer_name fragment) loader.defs)) [
        | inl unknown ↦ rw (Gives, located_payload, unknown) tt
        | inr (d, known) ↦ elim (Option-cases (lookup (pointer_name fragment) loader.parsed)) [
          | inl unparsed ↦ rw (Gives, located_payload, known, unparsed) tt
          | inr (s, parsed) ↦ elim (Bool-cases (is_object s)) [
            | inr other ↦ rw (Gives, located_payload, known, parsed, other) tt
            | inl object ↦ rw (Gives, located_payload, known, parsed, object) (parsed, object)
          ]
        ]
      ]

  module _ (fs : FileSystem) (root : String) where
    resolve_message_payload-Resolved :
        (asyncapi_file wire_type : String) (message : Entries)
        → Gives Resolved (resolve_message_payload fs root loader asyncapi_file wire_type message)
    unfolding resolve_message_payload
    resolve_message_payload-Resolved asyncapi_file wire_type message =
        elim (Option-cases (map_at "payload" message)) [
          | inl missing ↦ rw (Gives, resolve_message_payload, missing) tt
          | inr (payload, there) ↦
              elim (Bool-cases (str_eq (string_value (get "$ref" payload)) "")) [
                | inl empty ↦ rw (Gives, resolve_message_payload, there, empty) tt
                | inr given ↦
                    rw (Gives, resolve_message_payload, there, given)
                      (bind-Gives (λ target. Unit {0}) Resolved
                        (wrapped
                          (wrap "asyncapi: components.messages.%s.payload: %w"
                            (text wire_type ∷ []))
                          (resolve_ref fs root asyncapi_file (string_value (get "$ref" payload))))
                        _ (anything _)
                        λ target u.
                          located_payload-Resolved wire_type (string_value (get "$ref" payload))
                            (split_ref (string_value (get "$ref" payload))).1)
              ]
        ]

    described_message-Fits :
        (asyncapi_file wire_type : String) (directions : Directions) (message : Entries)
        → Gives
            (λ m. Fits loader directions m × (m.wire_type ≡ wire_type))
            (described_message fs root loader asyncapi_file wire_type directions message)
    unfolding described_message
    described_message-Fits asyncapi_file wire_type directions message =
        let Goal : Message → Type 0 = λ m. Fits loader directions m × (m.wire_type ≡ wire_type) in
        bind-Gives (λ texts. Unit {0}) Goal (message_texts wire_type message) _ (anything _)
          λ (title, summary) u.
            bind-Gives Resolved Goal
              (resolve_message_payload fs root loader asyncapi_file wire_type message) _
              (resolve_message_payload-Resolved asyncapi_file wire_type message)
              λ (def_name, d, payload, fragment) is_object_of.
                bind-Gives (λ v. HasType payload wire_type) Goal
                  (require_message_type_const payload def_name wire_type) _
                  (require_message_type_const-HasType payload def_name wire_type)
                  λ v has_type.
                    bind-Gives (λ direction. lookup wire_type directions ≡ some direction) Goal
                      (direction_at wire_type directions) _
                      (direction_at-found wire_type directions)
                      λ direction listed.
                        bind-Gives (Carries loader def_name direction) Goal
                          (payload_type_for loader payload def_name wire_type direction) _
                          (payload_type_for-Carries loader payload def_name wire_type direction)
                          λ payload_type carries.
                            ((listed, (payload, is_object_of, has_type), carries), refl)

    -- All messages fit, and their wire types are the keys of the map.
    abbrev pub AllFit : Directions → Entries → List Message → Type 0
    AllFit directions es ms =
        All (Fits loader directions) ms × (map (λ m. m.wire_type) ms ≡ sorted_keys es)

    build_message-Fits :
        (asyncapi_file wire_type : String) (raw : Option Entries) (directions : Directions)
        → Gives
            (λ m. Fits loader directions m × (m.wire_type ≡ wire_type))
            (build_message fs root loader asyncapi_file wire_type raw directions)
    unfolding build_message
    build_message-Fits asyncapi_file wire_type none directions = tt
    build_message-Fits asyncapi_file wire_type (some message) directions =
        described_message-Fits asyncapi_file wire_type directions message

    build_each-AllFit :
        (asyncapi_file : String) (messages_raw es : Entries) (directions : Directions)
        → Gives
            (AllFit directions es)
            (build_each fs root loader asyncapi_file messages_raw es directions)
    unfolding build_each sorted_keys
    build_each-AllFit asyncapi_file messages_raw end directions = (tt, refl)
    build_each-AllFit asyncapi_file messages_raw (entry wire_type v es) directions =
        bind-Gives (λ m. Fits loader directions m × (m.wire_type ≡ wire_type))
          (AllFit directions (entry wire_type v es))
          (build_message fs root loader asyncapi_file wire_type (map_at wire_type messages_raw)
            directions)
          _ (build_message-Fits asyncapi_file wire_type (map_at wire_type messages_raw) directions)
          λ m fits.
            bind-Gives (AllFit directions es) (AllFit directions (entry wire_type v es))
              (build_each fs root loader asyncapi_file messages_raw es directions) _
              (build_each-AllFit asyncapi_file messages_raw es directions)
              λ ms rest. ((fits.0, rest.0), ground (arith, fits.1, rest.1))

    -- The messages that are accepted are those of the channel, one for each of its keys and in their
    -- order. Each has the direction that the operations give it; its schema is a parsed object whose
    -- `type` is the constant of its wire type; a command carries a parsed object, an event itself.
    pub build_messages-AllFit :
        (asyncapi_file : String) (messages_raw channel_messages : Entries) (directions : Directions)
        → Gives
            (AllFit directions channel_messages)
            (build_messages fs root loader asyncapi_file messages_raw channel_messages directions)
    unfolding build_messages
    build_messages-AllFit asyncapi_file messages_raw channel_messages directions =
        bind-Gives (AllFit directions channel_messages) (AllFit directions channel_messages)
          (build_each fs root loader asyncapi_file messages_raw channel_messages directions) _
          (build_each-AllFit asyncapi_file messages_raw channel_messages directions)
          λ messages all.
            bind-Gives (λ u. Unit {0}) (AllFit directions channel_messages)
              (all_exposed directions channel_messages) _ (anything _) λ u v. all
