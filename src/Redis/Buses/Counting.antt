-- ===== src/Redis/Buses/Counting.antt =====
-- The buses of a room among those of a map, and the counts of a map.
use planning_poker.Base.{
  ℕ, suc, ◌+◌, ◌-◌, ◌≤◌, ◌<◌, String, ◌≡◌, some, [], ◌∷◌, str_eq, eq_iff, arith, if◌then◌else◌,
}
use planning_poker.Base.Maps.{
  StringMap, lookup, insert, delete, lookup-insert, lookup-delete, or_zero,
}
use planning_poker.Redis.Buses.{Bus, lowered}

-- The buses of a room.
unfoldable pub in_room : String → StringMap Bus → ℕ
in_room room [] = 0
in_room room ((id, bus) ∷ m) =
    let rest = in_room room m in if str_eq bus.room_id room then suc rest else rest

unfoldable pub one_in : String → Bus → ℕ
one_in room bus = if str_eq bus.room_id room then 1 else 0

pub in_room-delete :
    (room id : String) (m : StringMap Bus) → in_room room (delete id m) ≤ in_room room m
unfolding in_room delete
in_room-delete room id [] = omega arith
in_room-delete room id ((j, bus) ∷ m) = ground (arith, in_room-delete room id m)

pub in_room-delete_found :
    (room id : String) (bus : Bus) (m : StringMap Bus)
    → lookup id m ≡ some bus
    → in_room room (delete id m) + one_in room bus ≤ in_room room m
unfolding in_room delete lookup one_in
in_room-delete_found room id bus [] e = absurd (ground arith)
in_room-delete_found room id bus ((j, b) ∷ m) e =
    ground (arith, in_room-delete_found room id bus m, in_room-delete room id m)

pub in_room-insert :
    (room id : String) (bus : Bus) (m : StringMap Bus)
    → in_room room (insert id bus m) ≤ in_room room m + one_in room bus
unfolding in_room insert one_in
in_room-insert room id bus [] = ground arith
in_room-insert room id bus ((j, b) ∷ m) = ground (arith, in_room-insert room id bus m)

pub in_room-delete-insert :
    (room id : String) (bus : Bus) (m : StringMap Bus)
    → in_room room (delete id (insert id bus m)) ≤ in_room room m
unfolding in_room insert delete
in_room-delete-insert room id bus [] = ground (arith, eq_iff id id)
in_room-delete-insert room id bus ((j, b) ∷ m) =
    ground (arith, eq_iff id id, in_room-delete room id m, in_room-delete-insert room id bus m)

-- The count of a room, in the map of the counts.
abbrev pub count : String → StringMap ℕ → ℕ
count room counts = or_zero (lookup room counts)

pub count-insert :
    (room : String) (bus : Bus) (counts : StringMap ℕ)
    → count room (insert bus.room_id (suc (count bus.room_id counts)) counts)
      ≡ count room counts + one_in room bus
unfolding one_in or_zero
count-insert room bus counts =
    let n = suc (or_zero (lookup bus.room_id counts)) in
    ground (arith, lookup-insert bus.room_id room n counts, eq_iff bus.room_id room)

pub count-lowered :
    (room : String) (bus : Bus) (counts : StringMap ℕ)
    → count room (lowered bus.room_id counts) ≡ count room counts - one_in room bus
unfolding lowered one_in or_zero
count-lowered room bus counts =
    let n = or_zero (lookup bus.room_id counts) - 1 in
    ground (
      arith,
      lookup-delete bus.room_id room counts,
      lookup-insert bus.room_id room n counts,
      eq_iff bus.room_id room,
    )

-- A bus that is there is counted.
pub in_room-lookup :
    (id : String) (bus : Bus) (m : StringMap Bus)
    → lookup id m ≡ some bus
    → 0 < in_room bus.room_id m
unfolding in_room lookup
in_room-lookup id bus [] e = absurd (ground arith)
in_room-lookup id bus ((j, b) ∷ m) e =
    ground (arith, in_room-lookup id bus m, eq_iff b.room_id bus.room_id)
