-- ===== src/Redis/Buses.antt =====
-- The buses of internal/infra/boundaries/hub/redis/hub.go that this instance of the program serves,
-- with the number of them in each room and the subscription that each such room has. The mutex makes
-- each call one step; subscriptions are numbers.
pub mod Counting
pub mod Served
pub mod Reconnection
pub mod Tests
use planning_poker.Base.{
  ℕ, suc, ◌+◌, ◌-◌, String, Bool, true, false, Option, none, some, List, [], ◌∷◌, ◌==◌, str_eq, ltb,
  if◌then◌else◌,
}
use planning_poker.Base.Maps.{StringMap, lookup, insert, delete, or_zero}
use planning_poker.DomainError.{Error, wrap, text}

pub record Bus : Type 0 where
  pub number : ℕ
  pub room_id : String

pub record RedisHub : Type 0 where
  pub buses : StringMap Bus
  pub room_client_counts : StringMap ℕ
  pub room_subs : StringMap ℕ
  pub opened : ℕ
  pub closed : List ℕ

unfoldable pub new_redis_hub : RedisHub
new_redis_hub = record {
  buses = [];
  room_client_counts = [];
  room_subs = [];
  opened = 0;
  closed = [];
}

unfoldable pub get_clients_of_room : String → RedisHub → ℕ
get_clients_of_room room_id h = or_zero (lookup room_id h.room_client_counts)

unfoldable pub get_bus : String → RedisHub → Option Bus
get_bus id h = lookup id h.buses

-- The count of a room that is lowered by one, and goes from the map at 0.
unfoldable pub lowered : String → StringMap ℕ → StringMap ℕ
lowered room_id counts =
    let n = or_zero (lookup room_id counts) - 1 in
    if n == 0 then delete room_id counts else insert room_id n counts

-- `receive` is the answer of the server to the subscription, if there is to be one.
unfoldable pub add_bus : Option Error → String → Bus → RedisHub → RedisHub × Option Error
add_bus receive id bus h =
    let held = record h { buses = insert id bus h.buses } in
    let counted = record held {
      room_client_counts =
          insert bus.room_id (suc (get_clients_of_room bus.room_id h)) h.room_client_counts;
    } in
    if str_eq bus.room_id "" then (held, none) else elim (lookup bus.room_id h.room_subs) [
      | some sub ↦ (counted, none)
      | none ↦ elim receive [
        | none ↦ (
          record counted {
            room_subs = insert bus.room_id h.opened h.room_subs;
            opened = suc h.opened;
          },
          none,
        )
        | some e ↦ (
          record counted {
            buses = delete id counted.buses;
            room_client_counts = lowered bus.room_id counted.room_client_counts;
          },
          some (wrap "confirm pub/sub subscription for room %s: %w" (text bus.room_id ∷ []) e),
        )
      ]
    ]

-- The subscription of a room that no bus counts for any more.
unfoldable pub unsubscribe : String → RedisHub → RedisHub
unsubscribe room_id h = elim (lookup room_id h.room_subs) [
  | none ↦ h
  | some sub ↦ record h { room_subs = delete room_id h.room_subs; closed = sub ∷ h.closed }
]

unfoldable pub leave_room : String → RedisHub → RedisHub
leave_room room_id h =
    let left = record h { room_client_counts = lowered room_id h.room_client_counts } in
    if get_clients_of_room room_id h - 1 == 0 then unsubscribe room_id left else left

unfoldable pub remove_bus : String → RedisHub → RedisHub
remove_bus id h =
    let gone = record h { buses = delete id h.buses } in
    elim (lookup id h.buses) [
      | none ↦ gone
      | some bus ↦ if str_eq bus.room_id "" then gone else leave_room bus.room_id gone
    ]
