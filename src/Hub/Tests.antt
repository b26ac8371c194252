-- ===== src/Hub/Tests.antt =====
-- The hub's theorems at fixed inputs.
use planning_poker.Base.{ℕ, ◌≡◌, refl, some, [], ◌∷◌, arith, map}
use planning_poker.Base.Maps.{lookup}
use planning_poker.DomainError.{stale_room_version}
use planning_poker.Room.{utc}
use planning_poker.Room.Tests.{table, clock, whole}
use planning_poker.Hub.{
  InMemoryHub, at, clone_room, register, new_hub, save_room_if_version, saved_version, is_current,
  expects, remove_client_from_hub,
}
use planning_poker.Hub.Clone.{copied, clone_room-eq}
use planning_poker.Hub.Versions.{save_room_if_version-saved, save_room_if_version-twice}
use planning_poker.Hub.Coherence.{IsCoherent, new_hub-IsCoherent, register-IsCoherent}
use planning_poker.Hub.Coherence.Saves.{save_room_if_version-IsCoherent}
use planning_poker.Hub.Removal.{remove_client_from_hub-IsCoherent}

-- A hub with one room, whose snapshot has version 0.
abbrev pub one_room : InMemoryHub ℕ
one_room = record {
  heap = table ∷ [];
  rooms = ("r", 0) ∷ [];
  clients = [];
  buses = ("a", 1) ∷ ("b", 2) ∷ [];
  saved = ("r", table) ∷ [];
  removed = [];
  removed_clients = [];
  channels = 0;
  closed = [];
}

clone_room-eq_example : clone_room table ≡ record table {
  started_at = utc table.started_at;
  clients = map copied table.clients;
  events = [];
}
clone_room-eq_example = clone_room-eq table

save_room_if_version-twice_example :
    (save_room_if_version 0 table (some 0) (save_room_if_version 0 table (some 0) one_room).0).1
    ≡ some stale_room_version
save_room_if_version-twice_example =
    save_room_if_version-twice 0 0 table table (some 0) one_room refl
      (save_room_if_version-saved 0 table (some 0) one_room (omega arith)
        (unfold is_current lookup in refl) (unfold expects saved_version lookup in refl)).0

save_room_if_version-IsCoherent_example :
    IsCoherent (save_room_if_version 0 table (some 5) (register table new_hub).1).0
save_room_if_version-IsCoherent_example =
    save_room_if_version-IsCoherent (register table new_hub).1 0 table (some 5)
      (register-IsCoherent table new_hub new_hub-IsCoherent) (unfold at register new_hub in refl)

remove_client_from_hub-IsCoherent_example :
    IsCoherent (remove_client_from_hub clock "a" "r" (register table new_hub).1)
remove_client_from_hub-IsCoherent_example =
    remove_client_from_hub-IsCoherent clock "a" "r" (register table new_hub).1
      (register-IsCoherent table new_hub new_hub-IsCoherent)
