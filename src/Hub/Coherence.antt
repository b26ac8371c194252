-- ===== src/Hub/Coherence.antt =====
-- What holds of the hub between two calls: the room that is loaded under an identifier has that
-- identifier, and its snapshot has its version.
pub mod Saves
pub mod Removals
use planning_poker.Base.{
  ℕ, String, ◌≡◌, inl, inr, refl, ap, ◌∙◌, sym, true, false, Option, none, some, [], ◌∷◌, ◌++◌,
  arith, length, if◌then◌else◌, ◌==◌, str_eq, eq_iff, get_elem?, set, get_elem?-lt, get_elem?-set,
  get_elem?-append, Option-cases, Bool-cases,
}
use planning_poker.Base.Maps.{lookup, delete, lookup-insert, lookup-delete}
use planning_poker.Room.{Room, next_version}
use planning_poker.Hub.{
  InMemoryHub, new_hub, at, store, register, clone_room, commit, roll_back, is_current, expects,
  saved_version, close_removed, remove_room, refresh_saved_room, add_client, save_room,
  save_room_if_version, close_removed_client,
}
use planning_poker.Hub.Clone.{clone_room-eq}

module _ {F : Type 0} where
  -- The room and the snapshot of an identifier whose address is in the map.
  pub record Stands (h : InMemoryHub F) (id : String) (p : ℕ) : Type 0 where
    pub room : Room F
    pub snapshot : Room F
    pub here : at p h ≡ some room
    pub saved : lookup id h.saved ≡ some snapshot
    pub room_id : room.id ≡ id
    pub snapshot_id : snapshot.id ≡ id
    pub version : snapshot.room_version ≡ room.room_version

  pub record IsCoherent (h : InMemoryHub F) : Type 0 where
    pub stands : (id : String) (p : ℕ) → lookup id h.rooms ≡ some p → Stands h id p
    pub absent : (id : String) → lookup id h.rooms ≡ none → lookup id h.saved ≡ none

  -- The hub `k` is `h` with a room and its snapshot written, at an address that serves no other
  -- identifier.
  record Written (h k : InMemoryHub F) (id : String) (p : ℕ) (r s : Room F) : Type 0 where
    room_id : r.id ≡ id
    snapshot_id : s.id ≡ id
    version : s.room_version ≡ r.room_version
    alone : (j : String) → lookup j h.rooms ≡ some p → j ≡ id
    heap : (q : ℕ) (u : Room F) → at q h ≡ some u → at q k ≡ (if p == q then some r else some u)
    here : at p k ≡ some r
    rooms : (j : String) → lookup j k.rooms ≡ (if str_eq id j then some p else lookup j h.rooms)
    saved : (j : String) → lookup j k.saved ≡ (if str_eq id j then some s else lookup j h.saved)

  Written-IsCoherent :
      {h k : InMemoryHub F} {id : String} {p : ℕ} {r s : Room F}
      → Written h k id p r s
      → IsCoherent h
      → IsCoherent k
  Written-IsCoherent {h = h} {k = k} {id = id} {p = p} {r = r} {s = s} w c = record {
    stands = stand;
    absent = λ j e. ground (arith, w.rooms j, w.saved j, c.absent j);
  }
    where
      other : (j : String) (q : ℕ) → str_eq id j ≡ false → lookup j h.rooms ≡ some q → Stands k j q
      other j q n e =
          let old = c.stands j q e in
          record {
            room = old.room;
            snapshot = old.snapshot;
            here = ground (arith, w.heap q old.room old.here, w.alone j, eq_iff id j);
            saved = ground (arith, w.saved j, old.saved);
            room_id = old.room_id;
            snapshot_id = old.snapshot_id;
            version = old.version;
          }

      stand : (j : String) (q : ℕ) → lookup j k.rooms ≡ some q → Stands k j q
      stand j q e = elim (Bool-cases (str_eq id j)) [
        | inl y ↦ record {
          room = r;
          snapshot = s;
          here = ground (arith, w.rooms j, w.here);
          saved = ground (arith, w.saved j);
          room_id = ground (arith, w.room_id, eq_iff id j);
          snapshot_id = ground (arith, w.snapshot_id, eq_iff id j);
          version = w.version;
        }
        | inr n ↦ other j q n (ground (arith, w.rooms j))
      ]

  pub new_hub-IsCoherent : IsCoherent new_hub
  unfolding new_hub lookup
  new_hub-IsCoherent = record { stands = λ id p e. absurd (ground arith); absent = λ id e. refl }

  -- An address of the map serves one identifier.
  stands-alone :
      (h : InMemoryHub F) (p : ℕ) (r : Room F)
      → IsCoherent h
      → at p h ≡ some r
      → (j : String) → lookup j h.rooms ≡ some p
      → j ≡ r.id
  stands-alone h p r c a j e = let old = c.stands j p e in ground (arith, old.here, old.room_id)

  -- A new address serves none.
  new-alone :
      (h : InMemoryHub F) (id : String)
      → IsCoherent h
      → (j : String) → lookup j h.rooms ≡ some (length h.heap)
      → j ≡ id
  unfolding at
  new-alone h id c j e =
      let old = c.stands j (length h.heap) e in
      absurd (omega (arith, get_elem?-lt h.heap (length h.heap) old.here))

  at-append :
      (h : InMemoryHub F) (r : Room F) (q : ℕ) (u : Room F)
      → at q h ≡ some u
      → get_elem? (h.heap ++ r ∷ []) q ≡ (if length h.heap == q then some r else some u)
  unfolding at
  at-append h r q u e = ground (arith, get_elem?-append h.heap q r)

  at-set :
      (h : InMemoryHub F) (p : ℕ) (r old : Room F) (q : ℕ) (u : Room F)
      → at p h ≡ some old
      → at q h ≡ some u
      → get_elem? (set h.heap p r) q ≡ (if p == q then some r else some u)
  unfolding at
  at-set h p r old q u o e = ground (arith, get_elem?-set h.heap p q r, get_elem?-lt h.heap p o)

  pub register-IsCoherent :
      (r : Room F) (h : InMemoryHub F) → IsCoherent h → IsCoherent (register r h).1
  unfolding register at
  register-IsCoherent r h c =
      Written-IsCoherent {r = r} {s = clone_room r}
        (record {
          room_id = refl;
          snapshot_id = ap (λ x. x.id) (clone_room-eq r);
          version = ap (λ x. x.room_version) (clone_room-eq r);
          alone = new-alone h r.id c;
          heap = λ q u e. at-append h r q u e;
          here = get_elem?-append h.heap (length h.heap) r ∙ ground arith;
          rooms = λ j. lookup-insert r.id j (length h.heap) h.rooms;
          saved = λ j. lookup-insert r.id j (clone_room r) h.saved;
        })
        c

  -- A write of the room at an address of the map, and of its snapshot.
  rewritten-IsCoherent :
      (h k : InMemoryHub F) (p : ℕ) (old r s : Room F)
      → IsCoherent h
      → at p h ≡ some old
      → old.id ≡ r.id
      → (s.id ≡ r.id) × (s.room_version ≡ r.room_version)
      → k.heap ≡ set h.heap p r
      → ((j : String) → lookup j k.rooms ≡ (if str_eq r.id j then some p else lookup j h.rooms))
      → ((j : String) → lookup j k.saved ≡ (if str_eq r.id j then some s else lookup j h.saved))
      → IsCoherent k
  unfolding at
  rewritten-IsCoherent h k p old r s c o i (si, sv) kh kr ks =
      Written-IsCoherent {r = r} {s = s}
        (record {
          room_id = refl;
          snapshot_id = si;
          version = sv;
          alone = λ j e. stands-alone h p old c o j e ∙ i;
          heap = λ q u e. rw kh (at-set h p r old q u o e);
          here = rw kh (at-set h p r old p old o o ∙ ground arith);
          rooms = kr;
          saved = ks;
        })
        c

  same_rooms :
      (h : InMemoryHub F) (id : String) (p : ℕ)
      → lookup id h.rooms ≡ some p
      → (j : String) → lookup j h.rooms ≡ (if str_eq id j then some p else lookup j h.rooms)
  same_rooms h id p e j = ground (arith, eq_iff id j)

  same_saved :
      (h : InMemoryHub F) (id : String) (s : Room F)
      → lookup id h.saved ≡ some s
      → (j : String) → lookup j h.saved ≡ (if str_eq id j then some s else lookup j h.saved)
  same_saved h id s e j = ground (arith, eq_iff id j)

  -- A method that keeps the identifier and the version of the room may change the rest in place.
  pub store-IsCoherent :
      (h : InMemoryHub F) (p : ℕ) (old r : Room F)
      → IsCoherent h
      → at p h ≡ some old
      → lookup r.id h.rooms ≡ some p
      → (r.id ≡ old.id) × (r.room_version ≡ old.room_version)
      → IsCoherent (store p r h)
  unfolding store
  store-IsCoherent h p old r c o l (i, v) =
      let st = c.stands r.id p l in
      rewritten-IsCoherent h (record h { heap = set h.heap p r }) p old r st.snapshot c o (sym i)
        (st.snapshot_id, ground (arith, st.version, st.here)) refl (same_rooms h r.id p l)
        (same_saved h r.id st.snapshot st.saved)
