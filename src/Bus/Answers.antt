-- ===== src/Bus/Answers.antt =====
-- How many frames a message is answered with.
use planning_poker.Base.{
  ℕ, String, ◌≡◌, inl, inr, refl, false, Option, none, some, List, str_eq, Option-cases, length,
}
use planning_poker.Room.Backlog.{Outcome, returns, panics}
use planning_poker.Ledger.{acquired, completed, in_progress}
use planning_poker.DomainError.{Error}
use planning_poker.Bus.{
  Frame, Output, WebSocketMessage, CommandLedger, Claim, answers, fails, Backend, Codec, State,
  finish_command, finish_error, finish_ack, handle_claim_error, run_command, after_claim,
  process_unknown, process_command, process,
}

module _ {L H P : Type 0} (be : Backend H P) (co : Codec) (room_id client_id : String) where
  -- One frame, or the panic of the use case that the message runs.
  abbrev pub IsAnswered : WebSocketMessage P → Outcome (State L H × List Output) → Type 0
  IsAnswered msg panics =
      (call : P → H → Outcome (H × Option Error)) × (h : H) × (be.call msg.kind ≡ some call)
      × (call msg.payload h ≡ panics)
  IsAnswered msg (returns (s, out)) = length out ≡ 1

  length-finish_command :
      (lg : CommandLedger L) (done : ℕ) (id : String) (f : Frame) (s : State L H)
      → length (finish_command be co room_id client_id lg done id f s).1 ≡ 1
  unfolding finish_command
  length-finish_command lg done id f s = elim (Option-cases (co.encode f)) [
    | inl e ↦ rw (finish_command, e) refl
    | inr (payload, e) ↦ rw (finish_command, e) refl
  ]

  run_command-IsAnswered :
      (lg : CommandLedger L) (done : ℕ) (id : String) (msg : WebSocketMessage P)
      (call : P → H → Outcome (H × Option Error)) (h : H) (o : Outcome (H × Option Error))
      (s : State L H)
      → be.call msg.kind ≡ some call
      → call msg.payload h ≡ o
      → IsAnswered msg (run_command be co room_id client_id lg done id o s)
  unfolding run_command finish_error finish_ack
  run_command-IsAnswered lg done id msg call h panics s c e = (call, h, c, e)
  run_command-IsAnswered lg done id msg call h (returns (k, none)) s c e =
      length-finish_command lg done id _ _
  run_command-IsAnswered lg done id msg call h (returns (k, some x)) s c e =
      length-finish_command lg done id _ _

  after_claim-IsAnswered :
      (lg : CommandLedger L) (done : ℕ) (id : String) (msg : WebSocketMessage P)
      (call : P → H → Outcome (H × Option Error)) (l : L) (claimed : Claim) (s : State L H)
      → be.call msg.kind ≡ some call
      → IsAnswered msg
          (after_claim be co room_id client_id lg done id call msg.payload (l, claimed) s)
  unfolding after_claim handle_claim_error
  after_claim-IsAnswered lg done id msg call l (fails e) s c = refl
  after_claim-IsAnswered lg done id msg call l (answers in_progress) s c = refl
  after_claim-IsAnswered lg done id msg call l (answers (completed outcome)) s c = refl
  after_claim-IsAnswered lg done id msg call l (answers acquired) s c =
      run_command-IsAnswered lg done id msg call s.hub (call msg.payload s.hub)
        (record s { ledger = l }) c refl

  -- Every message that carries a command identifier is answered with one frame, whatever its type,
  -- its identifier, the ledger and its answer, and the outcome of the use case; unless the use case panics.
  pub process-IsAnswered :
      (ledger : Option (CommandLedger L)) (now done : ℕ) (msg : WebSocketMessage P) (s : State L H)
      → str_eq msg.command_id "" ≡ false
      → IsAnswered msg (process be co room_id client_id ledger now done msg s)
  unfolding process process_command process_unknown
  process-IsAnswered ledger now done msg s n = elim (Option-cases (be.call msg.kind)) [
    | inl e ↦ rw (process, e, process_unknown, n) refl
    | inr (call, e) ↦ elim (Option-cases (co.parse_uuid msg.command_id)) [
      | inl u ↦ rw (process, e, n, process_command, u) refl
      | inr (id, u) ↦ elim (Option-cases ledger) [
        | inl g ↦ rw (process, e, n, process_command, u, g) refl
        | inr (lg, g) ↦
            let (l, claimed) = lg.claim now room_id client_id id s.ledger in
            rw (process, e, n, process_command, u, g)
              (after_claim-IsAnswered lg done id msg call l claimed s e)
      ]
    ]
  ]
