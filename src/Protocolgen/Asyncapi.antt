-- ===== src/Protocolgen/Asyncapi.antt =====
-- The AsyncAPI document: the messages of the channel and of the components, and the direction that
-- the operations give to each message.
use planning_poker.Base.{ℕ, suc, String, Option, none, some, [], ◌∷◌, str_eq, if◌then◌else◌}
use planning_poker.Base.Int.{pos}
use planning_poker.Base.Maps.{StringMap, lookup, insert}
use planning_poker.DomainError.{Error, plain, wrap, text, int, Result, ok, err, ◌>>=◌, ◌>>◌}
use planning_poker.Protocolgen.Text.{cut_prefix}
use planning_poker.Protocolgen.Value.{
  Value, array, Elements, nil, cons, Entries, end, entry, get, as_map, string_value, map_at,
}
use planning_poker.Protocolgen.Schema.{Direction, send, receive}
use planning_poker.Protocolgen.Pointers.{split_ref, pointer_name}

abbrev pub required {ℓ} : {A : Type ℓ} → String → Option A → Result A
required message none = err (plain message [])
required message (some a) = ok a

-- A map that is there and not empty.
unfoldable pub filled : String → Option Entries → Result Entries
filled message none = err (plain message [])
filled message (some end) = err (plain message [])
filled message (some (entry key v es)) = ok (entry key v es)

unfoldable pub room_channel_messages : Entries → Result Entries
room_channel_messages document = do
  channels ← required "asyncapi: missing channels object" (map_at "channels" document)
  room ← required "asyncapi: missing channels.roomSocket" (map_at "roomSocket" channels)
  filled "asyncapi: missing channels.roomSocket.messages" (map_at "messages" room)

-- `components.messages` and `channels.roomSocket.messages`.
unfoldable pub asyncapi_messages : Entries → Result (Entries × Entries)
asyncapi_messages document = do
  components ← required "asyncapi: missing components object" (map_at "components" document)
  messages_raw ← filled "asyncapi: missing components.messages" (map_at "messages" components)
  channel_messages ← room_channel_messages document
  ok (messages_raw, channel_messages)

unfoldable pub entry_raw_ref : Value → Result String
entry_raw_ref value =
    let given : Entries → Result String = λ es.
      let ref = string_value (get "$ref" es) in
      if str_eq ref "" then err (plain "entry requires a $ref" []) else ok ref in
    elim (as_map value) [ none ↦ err (plain "entry must be an object" []) | some es ↦ given es ]

unfoldable pub entry_ref : Value → Result String
entry_ref value = entry_raw_ref value >>= λ ref. ok (pointer_name (split_ref ref).1)

unfoldable pub wrapped {ℓ} : {A : Type ℓ} → (Error → Error) → Result A → Result A
wrapped around (ok a) = ok a
wrapped around (err e) = err (around e)

-- The body of the first loop of `validateMessageExposure`.
unfoldable pub validate_channel_message : Entries → String → Value → Result (Unit {0})
validate_channel_message messages_raw wire_type value =
    let named : String → Result (Unit {0}) = λ ref.
      if str_eq ref wire_type
      then ok tt
      else err
          (plain "asyncapi: channel message %q references %q" (text wire_type ∷ text ref ∷ [])) in
    elim (get wire_type messages_raw) [
      | none ↦ err (
          plain "asyncapi: channel message %q is missing from components.messages"
            (text wire_type ∷ []))
      | some raw ↦
          wrapped (wrap "asyncapi: channels.roomSocket.messages.%s: %w" (text wire_type ∷ []))
            (entry_ref value)
          >>= named
    ]

unfoldable pub validate_channel_messages : Entries → Entries → Result (Unit {0})
validate_channel_messages messages_raw end = ok tt
validate_channel_messages messages_raw (entry wire_type value es) =
    validate_channel_message messages_raw wire_type value
    >> validate_channel_messages messages_raw es

-- The second loop.
unfoldable pub validate_exposed : Entries → Entries → Result (Unit {0})
validate_exposed channel_messages end = ok tt
validate_exposed channel_messages (entry wire_type value es) =
    let rest = validate_exposed channel_messages es in
    elim (get wire_type channel_messages) [
      | none ↦ err (
          plain "asyncapi: components.messages.%s is not exposed by channels.roomSocket"
            (text wire_type ∷ []))
      | some v ↦ rest
    ]

unfoldable pub validate_message_exposure : Entries → Entries → Result (Unit {0})
validate_message_exposure messages_raw channel_messages =
    validate_channel_messages messages_raw channel_messages
    >> validate_exposed channel_messages messages_raw

abbrev pub Directions : Type 0
Directions = StringMap Direction

unfoldable pub direction_of : String → Option Direction
direction_of action =
    if str_eq action "send"
    then some send
    else if str_eq action "receive"
    then some receive
    else none

unfoldable pub direction_text : Direction → String
direction_text send = "send"
direction_text receive = "receive"

abbrev pub channel_messages_ref_prefix : String
channel_messages_ref_prefix = "#/channels/roomSocket/messages/"

-- The body of the loop over the messages of an operation.
unfoldable pub add_message_direction :
    String → Direction → ℕ → Value → Directions → Result Directions
add_message_direction operation direction index value directions =
    let around : Error → Error = λ e.
      wrap "asyncapi: operations.%s.messages[%d]: %w" (text operation ∷ int (pos index) ∷ []) e in
    let added : String → Result Directions = λ ref. elim (lookup ref directions) [
      | some existing ↦ err (
          plain "asyncapi: message %q is listed by multiple operations (%s and %s)"
            (text ref ∷ text (direction_text existing) ∷ text (direction_text direction) ∷ []))
      | none ↦ ok (insert ref direction directions)
    ] in
    let prefixed : String → Result Directions = λ raw_ref.
      elim (cut_prefix channel_messages_ref_prefix raw_ref) [
        | none ↦ err (
            plain "asyncapi: operations.%s.messages[%d]: message $ref %q must start with %q" (
              text operation
              ∷ int (pos index)
              ∷ text raw_ref
              ∷ text channel_messages_ref_prefix
              ∷ []))
        | some rest ↦ wrapped around (entry_ref value) >>= added
      ] in
    wrapped around (entry_raw_ref value) >>= prefixed

unfoldable pub add_message_directions :
    String → Direction → ℕ → Elements → Directions → Result Directions
add_message_directions operation direction index nil directions = ok directions
add_message_directions operation direction index (cons value rest) directions =
    add_message_direction operation direction index value directions >>= λ more.
    add_message_directions operation direction (suc index) rest more

-- `operation["messages"].([]any)` that is not empty.
unfoldable pub message_list : Option Value → Option Elements
message_list (some (array (cons v vs))) = some (cons v vs)
message_list _ = none

unfoldable pub add_operation_directions : String → Value → Directions → Result Directions
add_operation_directions operation raw directions =
    let listed : Direction → Option Elements → Result Directions = λ direction messages.
      elim messages [
        | none ↦ err (
            plain "asyncapi: operations.%s.messages must be a non-empty array"
              (text operation ∷ []))
        | some vs ↦ add_message_directions operation direction 0 vs directions
      ] in
    let given : Entries → Result Directions = λ es.
      elim (direction_of (string_value (get "action" es))) [
        | none ↦
            err
              (plain "asyncapi: operations.%s.action must be send or receive" (text operation ∷ []))
        | some direction ↦ listed direction (message_list (get "messages" es))
      ] in
    elim (as_map raw) [
      | none ↦ err (plain "asyncapi: operations.%s must be an object" (text operation ∷ []))
      | some es ↦ given es
    ]

unfoldable pub add_all_directions : Entries → Directions → Result Directions
add_all_directions end directions = ok directions
add_all_directions (entry operation raw es) directions =
    add_operation_directions operation raw directions >>= λ more. add_all_directions es more

unfoldable pub operation_directions : Entries → Result Directions
operation_directions document = do
  operations ← filled "asyncapi: missing operations object" (map_at "operations" document)
  add_all_directions operations []
