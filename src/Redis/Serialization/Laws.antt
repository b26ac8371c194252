-- ===== src/Redis/Serialization/Laws.antt =====
-- The round trip of `SerializeRoom` and `DeserializeRoom`, and the rooms that are refused.
use planning_poker.Base.{
  ℕ, zero, suc, ◌+◌, ◌≡◌, ◌≢◌, refl, ap, ◌∙◌, sym, Option, none, some, List, [], ◌∷◌, ◌++◌, map,
  arith, eq_iff, All, get_elem?, take,
}
use native.Mathlib.Nat.{zero-add}
use mathlib.Core.Path.{ap₂}
use mathlib.Core.List.{append_assoc, append-nil}
use planning_poker.Room.{
  Client, Room, Story, Time, utc, optional_utc_time, utc_time_or_zero,
  new_room_with_id_and_started_at,
}
use planning_poker.Room.Clients.{add}
use planning_poker.Hub.{clone_room}
use planning_poker.Hub.Clone.{copied, clone_room-eq}
use planning_poker.Redis.Serialization.{
  SerializedClient, Json, IsFaithful, to_client, serialize_client, add_clients, missing_id, ok, err,
  serialize_story, to_story, serialized, stories_from, rebuilt, deserialize, serialize_room,
  deserialize_room,
}

-- A story that can be stored.
abbrev pub HasId : {F : Type 0} → Story F → Type 0
HasId s = s.id ≢ ""

optional_utc_time_twice :
    (o : Option Time) → optional_utc_time (optional_utc_time o) ≡ optional_utc_time o
unfolding optional_utc_time
optional_utc_time_twice none = refl
optional_utc_time_twice (some t) = ground arith

to_client-serialize_client : (c : Client) → to_client (serialize_client c) ≡ copied c
unfolding to_client serialize_client copied
to_client-serialize_client c = ground (arith, optional_utc_time_twice c.voted_at)

add_clients-eq :
    (scs : List SerializedClient) (cs : List Client) → add_clients scs cs ≡ cs ++ map to_client scs
unfolding add_clients add
add_clients-eq [] cs = sym (append-nil cs)
add_clients-eq (sc ∷ scs) cs =
    add_clients-eq scs (cs ++ to_client sc ∷ [])
    ∙ append_assoc cs (to_client sc ∷ []) (map to_client scs)

clients_back : (cs : List Client) → map to_client (map serialize_client cs) ≡ map copied cs
clients_back [] = refl
clients_back (c ∷ cs) = ap₂ (λ x xs. x ∷ xs) (to_client-serialize_client c) (clients_back cs)

-- The start of the room, which a zero time would lose the zone of.
started_back : (t : Time) → utc (utc_time_or_zero (optional_utc_time (some t))) ≡ utc t
unfolding utc_time_or_zero optional_utc_time
started_back t = ground arith

shifted : (i k : ℕ) → missing_id (i + 1 + k) ≡ missing_id (i + suc k)
shifted i k = ap missing_id (omega arith)

module _ {F : Type 0} where
  stories_back :
      (i : ℕ) (ss : List (Story F)) → All HasId ss → stories_from i (map serialize_story ss) ≡ ok ss
  unfolding stories_from serialize_story to_story
  stories_back i [] h = refl
  stories_back i (s ∷ ss) (n, h) = ground (arith, stories_back (i + 1) ss h, eq_iff s.id "")

  -- The first story without an identifier makes the reading fail, with its index.
  stories_refused :
      (i k : ℕ) (ss : List (Story F)) (s : Story F)
      → All HasId (take k ss)
      → get_elem? ss k ≡ some s
      → s.id ≡ ""
      → stories_from i (map serialize_story ss) ≡ err (missing_id (i + k))
  unfolding stories_from serialize_story
  stories_refused i k [] s h g e = cc
  stories_refused i zero (x ∷ ss) s h g e = ground (arith, eq_iff x.id "")
  stories_refused i (suc k) (x ∷ ss) s (n, h) g e =
      ground (arith, stories_refused (i + 1) k ss s h g e, eq_iff x.id "", shifted i k)

  rebuilt-eq :
      (r : Room F)
      → rebuilt (serialized r) r.stories
        ≡ record r { started_at = utc r.started_at; clients = map copied r.clients; events = [] }
  unfolding rebuilt serialized new_room_with_id_and_started_at
  rebuilt-eq r = rw (
    started_back r.started_at,
    add_clients-eq (map serialize_client r.clients) [],
    clients_back r.clients,
  )

  deserialize-serialized :
      (r : Room F)
      → All HasId r.stories
      → deserialize (serialized r) ≡ ok (rebuilt (serialized r) r.stories)
  unfolding deserialize serialized
  deserialize-serialized r h = rw (deserialize, stories_back 0 r.stories h) refl

  deserialize_refused :
      (r : Room F) (k : ℕ) (s : Story F)
      → All HasId (take k r.stories)
      → get_elem? r.stories k ≡ some s
      → s.id ≡ ""
      → deserialize (serialized r) ≡ err (missing_id k)
  unfolding deserialize serialized
  deserialize_refused r k s h g m =
      rw (deserialize, stories_refused 0 k r.stories s h g m)
        (ap (λ n. err (missing_id n)) (zero-add k))

module _ {F D : Type 0} (js : Json F D) (f : IsFaithful js) where
  -- A room whose stories have identifiers comes back from the stored text as the copy that the hub
  -- in memory keeps: without its pending events, with its times in UTC.
  pub deserialize_room-serialize_room :
      (r : Room F) (d : D)
      → All HasId r.stories
      → serialize_room js r ≡ some d
      → deserialize_room js d ≡ ok (clone_room r)
  unfolding serialize_room deserialize_room
  deserialize_room-serialize_room r d h e =
      rw (deserialize_room, f.reads (serialized r) d e)
        (deserialize-serialized r h ∙ ap ok (rebuilt-eq r ∙ sym (clone_room-eq r)))

  -- A stored room with a story that has no identifier cannot be read: the error names the first of
  -- them by its index.
  pub deserialize_room-refused :
      (r : Room F) (d : D) (k : ℕ) (s : Story F)
      → All HasId (take k r.stories)
      → get_elem? r.stories k ≡ some s
      → s.id ≡ ""
      → serialize_room js r ≡ some d
      → deserialize_room js d ≡ err (missing_id k)
  unfolding serialize_room deserialize_room
  deserialize_room-refused r d k s h g m e =
      rw (deserialize_room, f.reads (serialized r) d e) (deserialize_refused r k s h g m)
