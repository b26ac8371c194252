-- ===== src/Bus.antt =====
-- internal/infra/bus: what a websocket bus does with a message (websocketbus.go), its answers
-- (command.go), and the ledger it asks (ledger.go). The socket is the list of the frames that are
-- written, in order; `uuid.Parse`, `json.Marshal` of a frame and the use cases are interfaces.
pub mod Answers
pub mod Repeats
pub mod Wiring
pub mod Tests
use planning_poker.Base.{
  ℕ, String, Bool, true, false, Option, none, some, List, [], ◌∷◌, ◌≡◌, ◌+◌, ◌<◌, str_eq,
  if◌then◌else◌,
}
use planning_poker.Base.Maps.{or_zero}
use planning_poker.DomainError.{
  Error, Code, validation, forbidden, not_found, conflict, stale_version, Arg, code_of, message_of,
  is_invalid_payload, is_stale,
}
use planning_poker.Room.Backlog.{Outcome, returns, panics}
use planning_poker.Ledger.{Answer, acquired, completed, in_progress}

-- `protocol.CommandErrorCode`
pub data CommandErrorCode : Type 0 where
  validation_code forbidden_code not_found_code conflict_code stale_version_code : CommandErrorCode
  invalid_payload_code unknown_command_code invalid_command_id_code : CommandErrorCode
  command_in_progress_code internal_code : CommandErrorCode

-- `protocol.CommandAck` and `protocol.CommandError`; a message is a format with its arguments.
pub data Frame : Type 0 where
  ack : String → Option ℕ → Frame
  command_error : String → CommandErrorCode → String × List Arg → Option ℕ → Frame

-- What is written to the socket: `Send` of a frame, `sendRaw`, and `Send` of a `StaleCommand`.
pub data Output : Type 0 where
  sends : Frame → Output
  sends_raw : String → Output
  sends_stale : ℕ → Output

pub record WebSocketMessage (P : Type 0) : Type 0 where
  pub kind : String
  pub command_id : String
  pub payload : P

-- `CommandLedger`: a claim is answered or fails, at the time of the call.
pub data Claim : Type 0 where
  answers : Answer → Claim
  fails : Error → Claim

pub record CommandLedger (L : Type 0) : Type 0 where
  pub claim : ℕ → String → String → String → L → L × Claim
  pub complete : ℕ → String → String → String → String → L → L × Option Error

-- Its contract for a command that is done: the stored outcome is the answer to a claim, for the time
-- `kept` that the ledger keeps an outcome.
pub record IsLedger {L : Type 0} (lg : CommandLedger L) (kept : L → ℕ) : Type 0 where
  pub replays :
      (done now : ℕ) (room client id outcome : String) (l : L)
      → (lg.complete done room client id outcome l).1 ≡ none
      → now < done + kept (lg.complete done room client id outcome l).0
      → let after = (lg.complete done room client id outcome l).0 in
        lg.claim now room client id after ≡ (after, answers (completed outcome))

-- What the bus is made with: the use case of each type of message, and the version of the room.
pub record Backend (H P : Type 0) : Type 0 where
  pub call : String → Option (P → H → Outcome (H × Option Error))
  pub room_version : H → Option ℕ

-- The two functions of other packages.
pub record Codec : Type 0 where
  pub parse_uuid : String → Option String
  pub encode : Frame → Option String

-- `domainCodeToWireCode`
unfoldable pub wire_code : Code → CommandErrorCode
wire_code validation = validation_code
wire_code forbidden = forbidden_code
wire_code not_found = not_found_code
wire_code conflict = conflict_code
wire_code stale_version = stale_version_code

unfoldable pub internal_error : String → Frame
internal_error id = command_error id internal_code ("internal error", []) none

unfoldable pub command_error_for : String → Error → Frame
command_error_for id e =
    if is_invalid_payload e
    then command_error id invalid_payload_code ("invalid payload", []) none
    else elim (code_of e) [
      | none ↦ internal_error id
      | some c ↦ elim (message_of e) [
        | none ↦ internal_error id
        | some m ↦ command_error id (wire_code c) m none
      ]
    ]

-- What a stale frame is given before it is sent.
unfoldable pub with_version : Option ℕ → Frame → Frame
with_version v (command_error id stale_version_code m old) = elim v [
  | none ↦ command_error id stale_version_code m old
  | some n ↦ command_error id stale_version_code m (some n)
]
with_version v f = f

-- The state that a message acts on.
pub record State (L H : Type 0) : Type 0 where
  pub ledger : L
  pub hub : H

unfoldable pub process_unknown : {P : Type 0} → WebSocketMessage P → List Output
process_unknown msg =
    if str_eq msg.command_id ""
    then []
    else sends (command_error msg.command_id unknown_command_code ("unknown command type", []) none)
      ∷ []

-- None is `ErrCommandInProgress`.
unfoldable pub handle_claim_error : String → Option Error → List Output
handle_claim_error id none =
    sends
      (command_error id command_in_progress_code ("command is already being processed", []) none)
    ∷ []
handle_claim_error id (some e) = sends (internal_error id) ∷ []

module _ {L H P : Type 0} (be : Backend H P) (co : Codec) (room_id client_id : String) where
  -- A failure to store the outcome is only logged.
  unfoldable pub finish_command :
      CommandLedger L → ℕ → String → Frame → State L H → State L H × List Output
  finish_command lg done id frame s = elim (co.encode frame) [
    | none ↦ (s, sends frame ∷ [])
    | some payload ↦ (
      record s { ledger = (lg.complete done room_id client_id id payload s.ledger).0 },
      sends_raw payload ∷ [],
    )
  ]

  unfoldable pub finish_error :
      CommandLedger L → ℕ → String → Error → State L H → State L H × List Output
  finish_error lg done id e s =
      finish_command lg done id (with_version (be.room_version s.hub) (command_error_for id e)) s

  unfoldable pub finish_ack : CommandLedger L → ℕ → String → State L H → State L H × List Output
  finish_ack lg done id s = finish_command lg done id (ack id (be.room_version s.hub)) s

  -- The use case, once the command is reserved.
  unfoldable pub run_command :
      CommandLedger L
      → ℕ
      → String
      → Outcome (H × Option Error)
      → State L H
      → Outcome (State L H × List Output)
  run_command lg done id panics s = panics
  run_command lg done id (returns (h, e)) s = elim e [
    | some x ↦ returns (finish_error lg done id x (record s { hub = h }))
    | none ↦ returns (finish_ack lg done id (record s { hub = h }))
  ]

  -- What follows the answer of the ledger.
  unfoldable pub after_claim :
      CommandLedger L
      → ℕ
      → String
      → (P → H → Outcome (H × Option Error))
      → P
      → L × Claim
      → State L H
      → Outcome (State L H × List Output)
  after_claim lg done id call payload (l, claimed) s =
      let t = record s { ledger = l } in
      elim claimed [
        | fails e ↦ returns (t, handle_claim_error id (some e))
        | answers a ↦ elim a [
          | in_progress ↦ returns (t, handle_claim_error id none)
          | completed outcome ↦ returns (t, sends_raw outcome ∷ [])
          | acquired ↦ run_command lg done id (call payload t.hub) t
        ]
      ]

  -- `now` is the time of the claim, `done` that of the completion.
  unfoldable pub process_command :
      Option (CommandLedger L)
      → ℕ
      → ℕ
      → (P → H → Outcome (H × Option Error))
      → WebSocketMessage P
      → State L H
      → Outcome (State L H × List Output)
  process_command ledger now done call msg s = elim (co.parse_uuid msg.command_id) [
    | none ↦ returns (
      s,
      sends (
            command_error msg.command_id invalid_command_id_code ("commandId must be a UUID", [])
              none)
          ∷ [],
    )
    | some id ↦ elim ledger [
      | none ↦ returns (s, sends (internal_error id) ∷ [])
      | some lg ↦
          after_claim lg done id call msg.payload (lg.claim now room_id client_id id s.ledger) s
    ]
  ]

  -- The version that is told of a stale message is 0 when the room cannot be loaded.
  unfoldable pub after_legacy :
      Outcome (H × Option Error) → State L H → Outcome (State L H × List Output)
  after_legacy panics s = panics
  after_legacy (returns (h, e)) s =
      let t = record s { hub = h } in
      elim e [
        | none ↦ returns (t, [])
        | some x ↦
            returns (t, (if is_stale x then sends_stale (or_zero (be.room_version h)) ∷ [] else []))
      ]

  unfoldable pub process_legacy :
      (P → H → Outcome (H × Option Error))
      → WebSocketMessage P
      → State L H
      → Outcome (State L H × List Output)
  process_legacy call msg s = after_legacy (call msg.payload s.hub) s

  unfoldable pub process :
      Option (CommandLedger L)
      → ℕ
      → ℕ
      → WebSocketMessage P
      → State L H
      → Outcome (State L H × List Output)
  process ledger now done msg s = elim (be.call msg.kind) [
    | none ↦ returns (s, process_unknown msg)
    | some call ↦
        if str_eq msg.command_id ""
        then process_legacy call msg s
        else process_command ledger now done call msg s
  ]
