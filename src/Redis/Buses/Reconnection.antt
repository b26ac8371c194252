-- ===== src/Redis/Buses/Reconnection.antt =====
-- Sequences of calls, and a client that comes back: joinroom.go adds its new bus without a removal of
-- the old one.
use planning_poker.Base.{String, ◌≡◌, ◌≢◌, Option, none, some, List, [], ◌∷◌, arith}
use planning_poker.Base.Maps.{lookup}
use planning_poker.DomainError.{Error}
use planning_poker.Redis.Buses.{Bus, RedisHub, get_bus, add_bus, remove_bus, new_redis_hub}
use planning_poker.Redis.Buses.Counting.{in_room-lookup}
use planning_poker.Redis.Buses.Served.{
  IsCounted, new_redis_hub-IsCounted, add_bus-IsCounted, remove_bus-IsCounted,
}

-- A call of this instance; the server answers the subscription of an `adds`, if it makes one.
pub data Call : Type 0 where
  adds : Option Error → String → Bus → Call
  removes : String → Call

unfoldable pub run_calls : RedisHub → List Call → RedisHub
run_calls h [] = h
run_calls h (adds receive id bus ∷ cs) = run_calls (add_bus receive id bus h).0 cs
run_calls h (removes id ∷ cs) = run_calls (remove_bus id h) cs

run_calls-IsCounted : (h : RedisHub) (cs : List Call) → IsCounted h → IsCounted (run_calls h cs)
unfolding run_calls
run_calls-IsCounted h [] c = c
run_calls-IsCounted h (adds receive id bus ∷ cs) c =
    run_calls-IsCounted (add_bus receive id bus h).0 cs (add_bus-IsCounted receive id bus h c)
run_calls-IsCounted h (removes id ∷ cs) c =
    run_calls-IsCounted (remove_bus id h) cs (remove_bus-IsCounted id h c)

-- After any sequence of additions and removals, whatever the server answers to them, the room of a bus that the hub
-- has is subscribed to, if the bus has a room.
pub run_calls-served :
    (cs : List Call) (id : String) (bus : Bus)
    → get_bus id (run_calls new_redis_hub cs) ≡ some bus
    → bus.room_id ≢ ""
    → lookup bus.room_id (run_calls new_redis_hub cs).room_subs ≢ none
unfolding get_bus
run_calls-served cs id bus e n =
    let h = run_calls new_redis_hub cs in
    let c = run_calls-IsCounted new_redis_hub cs new_redis_hub-IsCounted in
    c.served bus.room_id (omega (arith, in_room-lookup id bus h.buses e, c.counted bus.room_id n))
