-- ===== src/Bus/Wiring.antt =====
-- What the bus is given: the ledger in memory, and the use cases over the hub in memory
-- (`mapUsecases`). `decode` is the JSON of each type of message: none for a type that is not in the
-- map, and then none for a payload that cannot be decoded.
use planning_poker.Base.{ℕ, String, ap, Option, none, some}
use planning_poker.DomainError.{Error, invalid_payload}
use planning_poker.Float32.{Float32}
use planning_poker.Room.{Clock}
use planning_poker.Room.Backlog.{Outcome, returns, panics}
use planning_poker.Hub.{InMemoryHub, at, load_room}
use planning_poker.UseCase.{World, Done, Ran, stopped, ended}
use planning_poker.UseCase.Requests.{Sender}
use planning_poker.UseCase.Dispatch.{Message, dispatch}
use planning_poker.Ledger.{Ledger, claim, complete, entry_key}
use planning_poker.Ledger.Exclusion.{claim-complete}
use planning_poker.Bus.{CommandLedger, answers, IsLedger, Backend}

unfoldable pub in_memory_ledger : CommandLedger Ledger
in_memory_ledger = record {
  claim =
      λ now room client id l. let (k, a) = claim now (entry_key room client id) l in (k, answers a);
  complete =
      λ now room client id outcome l. (complete now (entry_key room client id) outcome l, none);
}

abbrev pub kept_in_memory : Ledger → ℕ
kept_in_memory l = l.result_ttl

pub in_memory_ledger-IsLedger : IsLedger in_memory_ledger kept_in_memory
unfolding in_memory_ledger
in_memory_ledger-IsLedger = record {
  replays = λ done now room client id outcome l e n.
      ap (λ x. (x.0, answers x.1))
        (claim-complete done now (entry_key room client id) outcome l (unfold complete in n));
}

module _ {F P : Type 0} ⦃fl : Float32 F⦄ (world : World) (t : Clock) (room_id client_id : String)
    (decode : String → Option (P → Option (Option ℕ × Message))) where
  unfoldable pub called : Ran F (Done F) → Outcome (InMemoryHub F × Option Error)
  called (stopped h) = panics
  called (ended d) = returns (d.hub, d.error)

  unfoldable pub call_with :
      Option (Option ℕ × Message) → InMemoryHub F → Outcome (InMemoryHub F × Option Error)
  call_with none h = returns (h, some invalid_payload)
  call_with (some (expected, m)) h =
      let sender : Sender = record {
        room_id = room_id;
        sender_id = client_id;
        expected_room_version = expected;
      } in
      called (dispatch world t sender m h)

  -- `mapUsecases`, and the `roomVersion` of the bus.
  unfoldable pub backend : Backend (InMemoryHub F) P
  backend = record {
    call = λ kind. elim (decode kind) [
      | none ↦ none
      | some payload_of ↦ some (λ p h. call_with (payload_of p) h)
    ];
    room_version = λ h. elim (load_room room_id h) [
      | none ↦ none
      | some p ↦ elim (at p h) [ none ↦ none | some r ↦ some r.room_version ]
    ];
  }
