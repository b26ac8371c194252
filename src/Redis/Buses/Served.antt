-- ===== src/Redis/Buses/Served.antt =====
-- The count of a room is at least that of its buses, and a room that counts is subscribed to.
use planning_poker.Base.{
  suc, ◌+◌, ◌-◌, ◌≤◌, ◌<◌, String, ◌≡◌, ◌≢◌, inl, inr, Option, none, ◌==◌, str_eq, eq_iff, arith,
  Option-cases, Bool-cases,
}
use planning_poker.Base.Maps.{lookup, insert, delete, lookup-insert, lookup-delete, or_zero}
use planning_poker.DomainError.{Error}
use planning_poker.Redis.Buses.{
  Bus, RedisHub, get_clients_of_room, lowered, add_bus, unsubscribe, leave_room, remove_bus,
  new_redis_hub,
}
use planning_poker.Redis.Buses.Counting.{
  in_room, one_in, count, in_room-delete, in_room-delete_found, in_room-insert,
  in_room-delete-insert, count-insert, count-lowered,
}

-- The count of a room is at least that of its buses, and a room that counts is subscribed to.
pub record IsCounted (h : RedisHub) : Type 0 where
  pub counted : (room : String) → room ≢ "" → in_room room h.buses ≤ count room h.room_client_counts
  pub served :
      (room : String) → 0 < count room h.room_client_counts → lookup room h.room_subs ≢ none

pub new_redis_hub-IsCounted : IsCounted new_redis_hub
unfolding new_redis_hub in_room or_zero lookup
new_redis_hub-IsCounted = record {
  counted = λ room n. omega arith;
  served = λ room n. absurd (omega arith);
}

unsubscribe-IsCounted :
    (room : String) (h : RedisHub)
    → IsCounted h
    → count room h.room_client_counts ≡ 0
    → IsCounted (unsubscribe room h)
unfolding unsubscribe
unsubscribe-IsCounted room h c z = elim (Option-cases (lookup room h.room_subs)) [
  | inl e ↦ rw (unsubscribe, e) c
  | inr (sub, e) ↦
      rw (unsubscribe, e)
        (record {
          counted = c.counted;
          served =
              λ r n. ground (arith, z, c.served r, lookup-delete room r h.room_subs, eq_iff room r);
        })
]

leave_room-IsCounted :
    (bus : Bus) (h : RedisHub)
    → ((room : String)
        → room ≢ ""
        → in_room room h.buses + one_in room bus ≤ count room h.room_client_counts)
    → ((room : String) → 0 < count room h.room_client_counts → lookup room h.room_subs ≢ none)
    → IsCounted (leave_room bus.room_id h)
unfolding leave_room get_clients_of_room
leave_room-IsCounted bus h enough served =
    let left = record h { room_client_counts = lowered bus.room_id h.room_client_counts } in
    let c : IsCounted left = record {
      counted = λ room n. omega (arith, enough room n, count-lowered room bus h.room_client_counts);
      served =
          λ room n. served room (omega (arith, n, count-lowered room bus h.room_client_counts));
    } in
    elim (Bool-cases (count bus.room_id h.room_client_counts - 1 == 0)) [
      | inl e ↦
          rw (leave_room, e)
            (unsubscribe-IsCounted bus.room_id left c (
              unfold one_in in
              ground (
                arith,
                count-lowered bus.room_id bus h.room_client_counts,
                eq_iff bus.room_id bus.room_id,
              )))
      | inr e ↦ rw (leave_room, e) c
    ]

pub remove_bus-IsCounted : (id : String) (h : RedisHub) → IsCounted h → IsCounted (remove_bus id h)
unfolding remove_bus
remove_bus-IsCounted id h c =
    let gone = record h { buses = delete id h.buses } in
    let fewer : IsCounted gone = record {
      counted = λ room n. omega (arith, in_room-delete room id h.buses, c.counted room n);
      served = c.served;
    } in
    elim (Option-cases (lookup id h.buses)) [
      | inl e ↦ rw (remove_bus, e) fewer
      | inr (bus, e) ↦ elim (Bool-cases (str_eq bus.room_id "")) [
        | inl x ↦ rw (remove_bus, e, x) fewer
        | inr x ↦
            rw (remove_bus, e, x)
              (leave_room-IsCounted bus gone
                (λ room n.
                  omega (arith, in_room-delete_found room id bus h.buses e, c.counted room n))
                c.served)
      ]
    ]

pub add_bus-IsCounted :
    (receive : Option Error) (id : String) (bus : Bus) (h : RedisHub)
    → IsCounted h
    → IsCounted (add_bus receive id bus h).0
unfolding add_bus get_clients_of_room
add_bus-IsCounted receive id bus h c =
    let counts = h.room_client_counts in
    let more = insert bus.room_id (suc (count bus.room_id counts)) counts in
    let fits : (room : String)
        → room ≢ ""
        → in_room room (insert id bus h.buses) ≤ count room more =
      λ room n. omega (
        arith,
        in_room-insert room id bus h.buses,
        c.counted room n,
        count-insert room bus counts,
      ) in
    elim (Bool-cases (str_eq bus.room_id "")) [
      | inl e ↦
          rw (add_bus, e)
            (record {
              counted = λ room n.
                  unfold one_in in
                  ground (
                    arith,
                    in_room-insert room id bus h.buses,
                    c.counted room n,
                    eq_iff bus.room_id room,
                    eq_iff bus.room_id "",
                  );
              served = c.served;
            })
      | inr e ↦ elim (Option-cases (lookup bus.room_id h.room_subs)) [
        | inr (sub, l) ↦
            rw (add_bus, e, l)
              (record {
                counted = fits;
                served = λ room n.
                    unfold one_in in
                    ground (
                      arith,
                      n,
                      l,
                      c.served room,
                      count-insert room bus counts,
                      eq_iff bus.room_id room,
                    );
              })
        | inl l ↦ elim (Option-cases receive) [
          | inl x ↦
              rw (add_bus, e, l, x)
                (record {
                  counted = fits;
                  served = λ room n.
                      unfold one_in in
                      ground (
                        arith,
                        n,
                        c.served room,
                        count-insert room bus counts,
                        eq_iff bus.room_id room,
                        lookup-insert bus.room_id room h.opened h.room_subs,
                      );
                })
          | inr (y, x) ↦
              rw (add_bus, e, l, x)
                (record {
                  counted = λ room n. omega (
                    arith,
                    in_room-delete-insert room id bus h.buses,
                    c.counted room n,
                    count-insert room bus counts,
                    count-lowered room bus more,
                  );
                  served = λ room n.
                      c.served room (
                        omega
                          (arith, n, count-insert room bus counts, count-lowered room bus more));
                })
        ]
      ]
    ]
