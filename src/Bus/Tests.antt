-- ===== src/Bus/Tests.antt =====
-- The theorems of the bus at fixed inputs.
use planning_poker.Base.{ℕ, ◌+◌, String, ◌≡◌, refl, Option, none, some, [], ◌∷◌, arith}
use planning_poker.Room.Backlog.{returns}
use planning_poker.Room.Tests.{table, clock, whole}
use planning_poker.Hub.{InMemoryHub, register, new_hub}
use planning_poker.UseCase.{World}
use planning_poker.UseCase.Dispatch.{Message, reveal_votes_msg}
use planning_poker.Ledger.{Ledger, new_ledger, claim, complete, reserve}
use planning_poker.Base.Maps.{lookup}
use planning_poker.Bus.{
  sends_raw, WebSocketMessage, Backend, Codec, State, process, process_command, after_claim,
  run_command, finish_ack, finish_command,
}
use planning_poker.Bus.Repeats.{process-repeated}
use planning_poker.Bus.Answers.{IsAnswered, process-IsAnswered}
use planning_poker.Bus.Wiring.{in_memory_ledger, kept_in_memory, in_memory_ledger-IsLedger, backend}

-- Every text is an identifier, and all frames are written alike.
abbrev plain_codec : Codec
plain_codec = record { parse_uuid = λ id. some id; encode = λ f. some "frame" }

-- A backend that counts its calls.
abbrev counter : Backend ℕ ℕ
counter = record { call = λ kind. some (λ p n. returns (n + p, none)); room_version = λ n. some n }

abbrev message : WebSocketMessage ℕ
message = record { kind = "vote"; command_id = "c1"; payload = 3 }

abbrev start : State Ledger ℕ
start = record { ledger = new_ledger 30 300; hub = 4 }

abbrev first : State Ledger ℕ
first = record {
  ledger =
      (in_memory_ledger.complete 12 "r" "a" "c1" "frame"
        (in_memory_ledger.claim 10 "r" "a" "c1" (new_ledger 30 300)).0).0;
  hub = 7;
}

runs_first :
    process counter plain_codec "r" "a" (some in_memory_ledger) 10 12 message start
    ≡ returns (first, sends_raw "frame" ∷ [])
unfolding process process_command after_claim run_command finish_ack finish_command in_memory_ledger
    claim reserve new_ledger lookup
runs_first = refl

process-repeated_example :
    process counter plain_codec "r" "a" (some in_memory_ledger) 200 201 message first
    ≡ returns (first, sends_raw "frame" ∷ [])
process-repeated_example =
    process-repeated counter plain_codec "r" "a" in_memory_ledger kept_in_memory
      in_memory_ledger-IsLedger "c1" 12 10 200 201 message start first (sends_raw "frame" ∷ [])
      (λ p n. returns (n + p, none))
      (λ f. ("frame", refl), λ payload l. unfold in_memory_ledger in refl) refl refl refl
      (unfold in_memory_ledger claim reserve new_ledger lookup in refl) runs_first
      (unfold in_memory_ledger complete claim reserve new_ledger lookup in omega arith)

-- A click on the reveal, through the use case, and a ledger that is not there.
abbrev quiet_world : World
quiet_world = record { send = λ bus. none; sort = λ cs. cs }

abbrev reveals : String → Option (ℕ → Option (Option ℕ × Message))
reveals kind = some (λ p. some (some p, reveal_votes_msg))

abbrev hub_state : State Ledger (InMemoryHub ℕ)
hub_state = record { ledger = new_ledger 30 300; hub = (register table new_hub).1 }

process-IsAnswered_example :
    let be : Backend (InMemoryHub ℕ) ℕ = backend quiet_world clock "r" "a" reveals in
    IsAnswered be plain_codec "r" "a" message
      (process be plain_codec "r" "a" (some in_memory_ledger) 10 12 message hub_state)
process-IsAnswered_example =
    process-IsAnswered (backend quiet_world clock "r" "a" reveals) plain_codec "r" "a"
      (some in_memory_ledger) 10 12 message hub_state refl
