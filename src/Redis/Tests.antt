-- ===== src/Redis/Tests.antt =====
-- The theorems of this part at a server that is a map, whose texts are lists of symbols.
use planning_poker.Base.{
  List, ℕ, String, ◌≡◌, refl, ap, true, false, Option-cases, inl, inr, none, some, [], ◌∷◌, arith,
  ◌∙◌, eq_iff,
}
use planning_poker.Base.Maps.{StringMap, lookup, insert, delete, lookup-insert, lookup-delete}
use planning_poker.DomainError.{Error}
use planning_poker.Room.{Room, Story}
use planning_poker.Room.Tests.{table}
use planning_poker.Hub.{clone_room, register, new_hub, save_room_if_version}
use planning_poker.Hub.Coherence.{new_hub-IsCoherent, register-IsCoherent}
use planning_poker.Redis.Serialization.{serialized, ok, serialize_room, deserialize_room}
use planning_poker.Redis.Serialization.Laws.{HasId, deserialize_room-serialize_room}
use planning_poker.Redis.Ledger.{
  CommandStore, IsCommandStore, claim_command, IsTrue, claim_command-IsTrue,
}
use planning_poker.Redis.Lock.{
  LockStore, IsLockStore, lock_key, acquire_lock, execute_with_lock, execute_with_lock-excluded,
}
use planning_poker.Redis.Client.{room_key}
use planning_poker.Redis.Samples.{
  Token, written_tokens, token_json, token_json-IsFaithful, token_lua, token_lua-IsLua, Server,
  map_redis, map_redis-IsStore,
}
use planning_poker.Redis.Rooms.{
  save_room, save_initial_room, save_room_conditionally, load_room, remove_room,
}
use planning_poker.Redis.Rooms.Texts.{IsReadable, view, rooms-IsReadable}
use planning_poker.Redis.Rooms.Loads.{load_room-save_room}
use planning_poker.Redis.Refinement.{
  conditional_save, outcome, save_room_if_version-refines, save_room_conditionally-refines,
}

-- A room with two stories, one without a story's identifier, and a server that keeps the first.
abbrev login : Story ℕ
login = record {
  id = "s1";
  name = "login";
  result = none;
  most_appearing_votes = [];
  voted = false;
}

abbrev nameless : Story ℕ
nameless = record login { id = "" }

abbrev pub planned : Room ℕ
planned = record table { stories = login ∷ [] }

abbrev unreadable : Room ℕ
unreadable = record table { stories = login ∷ nameless ∷ login ∷ [] }

abbrev pub planned_text : List Token
planned_text = written_tokens (serialized planned)

abbrev pub server : Server
server = (none, (room_key "r", planned_text) ∷ [])

pub login-HasId : HasId login
login-HasId = ground (arith, eq_iff "s1" "")

serialize_planned : serialize_room token_json planned ≡ some planned_text
unfolding serialize_room
serialize_planned = refl

pub server-IsReadable : IsReadable map_redis token_json server
unfolding lookup
server-IsReadable id d e = record {
  room = planned;
  text = serialize_planned ∙ ground arith;
  ids = (login-HasId, tt);
}

deserialize_room-serialize_room_example :
    deserialize_room token_json planned_text ≡ ok (clone_room planned)
deserialize_room-serialize_room_example =
    deserialize_room-serialize_room token_json token_json-IsFaithful planned planned_text
      (login-HasId, tt) serialize_planned

rooms-IsReadable_example :
    IsReadable map_redis token_json (save_room map_redis token_json token_lua planned server).store
    × IsReadable map_redis token_json
        (save_initial_room map_redis token_json token_lua planned server).0
    × IsReadable map_redis token_json
        (save_room_conditionally map_redis token_json token_lua planned (some 4) server).store
    × IsReadable map_redis token_json (remove_room map_redis token_json token_lua "q" server)
rooms-IsReadable_example =
    rooms-IsReadable map_redis token_json token_lua map_redis-IsStore token_json-IsFaithful
      token_lua-IsLua planned (some 4) "q" server (login-HasId, tt) server-IsReadable

load_room-save_room_example :
    let s = (save_room map_redis token_json token_lua planned server) in
    load_room map_redis token_json token_lua "r" s.store ≡ ok (clone_room s.room)
load_room-save_room_example =
    load_room-save_room map_redis token_json token_lua map_redis-IsStore token_json-IsFaithful
      token_lua-IsLua planned planned_text server (login-HasId, tt) serialize_planned refl
      (unfold save_room serialize_room in refl)

save_room_conditionally-refines_example :
    outcome map_redis token_json "r"
      (save_room_conditionally map_redis token_json token_lua planned (some 0) server)
    ≡ conditional_save (some 0) planned (view map_redis token_json "r" server)
save_room_conditionally-refines_example =
    save_room_conditionally-refines map_redis token_json token_lua map_redis-IsStore
      token_json-IsFaithful token_lua-IsLua server planned planned_text (some 0) server-IsReadable
      refl (login-HasId, tt) serialize_planned

save_room_if_version-refines_example :
    let h = (register table new_hub).1 in
    let out = save_room_if_version 0 table (some 0) h in
    (lookup "r" out.0.saved, out.1) ≡ conditional_save (some 0) table (lookup "r" h.saved)
save_room_if_version-refines_example =
    save_room_if_version-refines (register table new_hub).1 0 table (some 0)
      (register-IsCoherent table new_hub new_hub-IsCoherent)
      (unfold register new_hub insert lookup in refl)

-- A server of commands whose reservations run out as soon as it can: each retry is granted.
abbrev forgetful : CommandStore (StringMap String)
forgetful = record {
  set_nx =
      λ k v ttl s. elim (lookup k s) [ none ↦ (insert k v s, ok true) | some old ↦ (s, ok false) ];
  get = λ k s. ok (lookup k s);
  set = λ k v ttl s. (insert k v s, none);
  pause = λ s. [];
}

forgetful-IsCommandStore : IsCommandStore forgetful
forgetful-IsCommandStore = record {
  nx_sets = λ k v ttl s e. elim (Option-cases (lookup k s)) [
    | inl n ↦ rw (forgetful, n) (refl, ap ok (lookup-insert k k v s ∙ ground (arith, eq_iff k k)))
    | inr (old, n) ↦ absurd (ground arith)
  ];
}

claim_command-IsTrue_example :
    IsTrue forgetful forgetful-IsCommandStore 30 "c"
      (("c", "pending") ∷ [])
      (claim_command forgetful 30 "c" (("c", "pending") ∷ []))
claim_command-IsTrue_example =
    claim_command-IsTrue forgetful forgetful-IsCommandStore 30 "c" (("c", "pending") ∷ [])

-- A server whose locks do not run out.
abbrev lasting : LockStore (StringMap String)
lasting = record {
  set_nx = λ k v s. elim (lookup k s) [ none ↦ (insert k v s, ok true) | some old ↦ (s, ok false) ];
  get = λ k s. lookup k s;
  del = λ k s. delete k s;
  fails = λ s. none;
  cancelled = λ s. none;
  pause = λ s. s;
}

lasting-IsLockStore : IsLockStore lasting
lasting-IsLockStore = record {
  nx_free = λ k v s e. rw (lasting, e) (refl, lookup-insert k k v s ∙ ground (arith, eq_iff k k));
  nx_held = λ k v w s e. rw (lasting, e) refl;
  get_del = λ k s. lookup-delete k k s ∙ ground (arith, eq_iff k k);
}

abbrev busy : StringMap String
busy = (lock_key "r", "other") ∷ []

execute_with_lock-excluded_example :
    (e : Error) × (execute_with_lock lasting 100 "r" "mine" (λ s. (s, none)) busy
      ≡ ((acquire_lock lasting 100 "r" "mine" busy).0, some e))
    × (lookup (lock_key "r") (execute_with_lock lasting 100 "r" "mine" (λ s. (s, none)) busy).0
        ≡ some "other")
execute_with_lock-excluded_example =
    execute_with_lock-excluded lasting lasting-IsLockStore "r" "mine" 100 (λ s. (s, none)) busy
      "other" (λ u e. e) (unfold lookup in ground (arith, eq_iff (lock_key "r") (lock_key "r")))
