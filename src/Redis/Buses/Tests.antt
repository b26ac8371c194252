-- ===== src/Redis/Buses/Tests.antt =====
-- The theorems on the buses at fixed inputs.
use planning_poker.Base.{◌≢◌, refl, none, some, [], ◌∷◌, arith, eq_iff}
use planning_poker.Base.Maps.{lookup, insert, delete, or_zero}
use planning_poker.DomainError.{stale_room_version}
use planning_poker.Redis.Buses.{Bus, new_redis_hub, get_bus, lowered, add_bus, get_clients_of_room}
use planning_poker.Redis.Buses.Reconnection.{adds, run_calls, run_calls-served}

abbrev first : Bus
first = record { number = 1; room_id = "r" }

abbrev second : Bus
second = record { number = 2; room_id = "r" }

run_calls-served_example :
    lookup "r"
      (run_calls new_redis_hub
        (adds (some stale_room_version) "a" first ∷ adds none "b" second ∷ [])).room_subs
    ≢ none
run_calls-served_example =
    run_calls-served (adds (some stale_room_version) "a" first ∷ adds none "b" second ∷ []) "b"
      second
      (unfold run_calls add_bus get_bus lookup insert new_redis_hub delete lowered
          get_clients_of_room or_zero in
        refl)
      (ground (arith, eq_iff "r" ""))
