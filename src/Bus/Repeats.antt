-- ===== src/Bus/Repeats.antt =====
-- A command that comes again.
use planning_poker.Base.{
  ℕ, String, ◌≡◌, ◌<◌, ◌+◌, refl, ap, sym, subst, false, Option, none, some, List, [], ◌∷◌, str_eq,
}
use mathlib.Core.Path.{ap₂}
use planning_poker.Room.Backlog.{Outcome, returns, panics}
use planning_poker.Ledger.{acquired, completed}
use planning_poker.DomainError.{Error}
use planning_poker.Bus.{
  Frame, Output, sends_raw, ack, WebSocketMessage, CommandLedger, answers, IsLedger, Backend, Codec,
  State, finish_command, finish_error, finish_ack, run_command, after_claim, process_command,
  process, command_error_for, with_version,
}

module _ {L H P : Type 0} (be : Backend H P) (co : Codec) (room_id client_id : String)
    (lg : CommandLedger L) (kept : L → ℕ) (law : IsLedger lg kept) (id : String) (done : ℕ) where
  -- The state holds an outcome of the command, and the output is that outcome.
  abbrev IsStored : State L H × List Output → Type 0
  IsStored (s, out) =
      (outcome : String) × (out ≡ sends_raw outcome ∷ [])
      × ((now : ℕ)
          → now < done + kept s.ledger
          → lg.claim now room_id client_id id s.ledger ≡ (s.ledger, answers (completed outcome)))

  -- Every outcome can be encoded and stored.
  abbrev Stores : Type 0
  Stores =
      ((f : Frame) → (payload : String) × (co.encode f ≡ some payload))
      × ((payload : String) (l : L) → (lg.complete done room_id client_id id payload l).1 ≡ none)

  finish_command-IsStored :
      (f : Frame) (s : State L H)
      → Stores
      → IsStored (finish_command be co room_id client_id lg done id f s)
  unfolding finish_command
  finish_command-IsStored f s (enc, sto) =
      let (payload, e) = enc f in
      rw (finish_command, e)
        (
          payload,
          refl,
          λ now n.
              law.replays done now room_id client_id id payload s.ledger (sto payload s.ledger) n,
        )

  abbrev StoredAfter : Outcome (State L H × List Output) → Type 0
  StoredAfter panics = Unit
  StoredAfter (returns x) = IsStored x

  run_command-Stored :
      (o : Outcome (H × Option Error)) (s : State L H)
      → Stores
      → StoredAfter (run_command be co room_id client_id lg done id o s)
  unfolding run_command finish_error finish_ack
  run_command-Stored panics s w = tt
  run_command-Stored (returns (h, none)) s w =
      finish_command-IsStored (ack id (be.room_version h)) (record s { hub = h }) w
  run_command-Stored (returns (h, some e)) s w =
      finish_command-IsStored (with_version (be.room_version h) (command_error_for id e))
        (record s { hub = h }) w

  process-Stored :
      (now : ℕ) (msg : WebSocketMessage P) (s : State L H)
      (call : P → H → Outcome (H × Option Error))
      → Stores
      → be.call msg.kind ≡ some call
      → str_eq msg.command_id "" ≡ false
      → co.parse_uuid msg.command_id ≡ some id
      → (lg.claim now room_id client_id id s.ledger).1 ≡ answers acquired
      → StoredAfter (process be co room_id client_id (some lg) now done msg s)
  unfolding process process_command after_claim
  process-Stored now msg s call w c n u a =
      rw (process, c, n, process_command, u, after_claim, a)
        (run_command-Stored (call msg.payload s.hub)
          (record s { ledger = (lg.claim now room_id client_id id s.ledger).0 }) w)

  -- A command whose identifier is granted once and whose use case ends, with an error or without one: when it comes again while its
  -- outcome is kept, it changes nothing, neither room nor ledger, and the client is sent the bytes
  -- that it was sent the first time. Frames can be encoded and the ledger stores the outcome.
  pub process-repeated :
      (now again later : ℕ) (msg : WebSocketMessage P) (s t : State L H) (out : List Output)
      (call : P → H → Outcome (H × Option Error))
      → Stores
      → be.call msg.kind ≡ some call
      → str_eq msg.command_id "" ≡ false
      → co.parse_uuid msg.command_id ≡ some id
      → (lg.claim now room_id client_id id s.ledger).1 ≡ answers acquired
      → process be co room_id client_id (some lg) now done msg s ≡ returns (t, out)
      → again < done + kept t.ledger
      → process be co room_id client_id (some lg) again later msg t ≡ returns (t, out)
  unfolding process process_command after_claim
  process-repeated now again later msg s t out call w c n u a e l =
      let stored : IsStored (t, out) =
        subst StoredAfter e (process-Stored now msg s call w c n u a) in
      let (outcome, same, replay) = stored in
      rw (process, c, n, process_command, u, after_claim, replay again l)
        (ap₂ (λ m o. returns (record t { ledger = m }, o)) (ap (λ x. x.0) (replay again l))
          (sym same))
