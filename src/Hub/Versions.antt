-- ===== src/Hub/Versions.antt =====
-- Optimistic concurrency: what a save with an expected version does.
use planning_poker.Base.{
  ℕ, ◌<◌, ◌≡◌, ◌≢◌, ◌⊎◌, inr, refl, ap, ◌∙◌, true, false, Option, none, some, arith, length, eq_iff,
  get_elem?-set, get_elem?-append,
}
use planning_poker.Base.Maps.{lookup, lookup-insert}
use planning_poker.DomainError.{stale_room_version}
use planning_poker.Room.{Room, next_version}
use planning_poker.Hub.{
  InMemoryHub, at, store, load_room, clone_room, commit, roll_back, is_current, expects,
  saved_version, save_room_if_version,
}

pub next_version-ne : (v : ℕ) → next_version v ≢ v
unfolding next_version
next_version-ne v = omega arith

expects-next_version :
    (e : Option ℕ) (v : ℕ) → expects e v ≡ true → expects e (next_version v) ≡ false
unfolding expects
expects-next_version e v x = ground (arith, next_version-ne v)

module _ {F : Type 0} where
  saved_version-commit :
      (p : ℕ) (r : Room F) (n : ℕ) (h : InMemoryHub F) → saved_version r.id (commit p r n h) ≡ n
  unfolding commit saved_version store
  saved_version-commit p r n h =
      rw
        (
          saved_version,
          lookup-insert r.id r.id (record (clone_room r) { room_version = n }) h.saved,
        )
        (ground (arith, eq_iff r.id r.id))

  -- What a save that is not refused leaves: the room stands under its identifier at the address of
  -- the save, with the version behind the saved one, and so does the snapshot.
  pub save_room_if_version-saved :
      (p : ℕ) (r : Room F) (e : Option ℕ) (h : InMemoryHub F)
      → p < length h.heap
      → is_current p r.id h ≡ true
      → expects e (saved_version r.id h) ≡ true
      → let next = next_version (saved_version r.id h) in
        let s = (save_room_if_version p r e h).0 in
        ((save_room_if_version p r e h).1 ≡ none)
        × (load_room r.id s ≡ some p)
        × (at p s ≡ some (record r { room_version = next }))
        × (lookup r.id s.saved ≡ some (record (clone_room r) { room_version = next }))
  unfolding save_room_if_version
  save_room_if_version-saved p r e h b c x =
      let n = next_version (saved_version r.id h) in
      rw (c, x)
        (unfold commit load_room at store in
          (
            refl,
            lookup-insert r.id r.id p h.rooms ∙ ground (arith, eq_iff r.id r.id),
            get_elem?-set h.heap p p (record r { room_version = n }) ∙ ground arith,
            lookup-insert r.id r.id (record (clone_room r) { room_version = n }) h.saved
                ∙ ground (arith, eq_iff r.id r.id),
          ))

  -- A save that is refused reports the stale version, and touches no snapshot, no client, no bus and
  -- no channel.
  pub save_room_if_version-stale :
      (p : ℕ) (r : Room F) (e : Option ℕ) (h : InMemoryHub F)
      → (is_current p r.id h ≡ false) ⊎ (expects e (saved_version r.id h) ≡ false)
      → let s = (save_room_if_version p r e h).0 in
        ((save_room_if_version p r e h).1 ≡ some stale_room_version)
        × (s.saved ≡ h.saved)
        × (s.clients ≡ h.clients)
        × (s.buses ≡ h.buses)
        × (s.closed ≡ h.closed)
  unfolding save_room_if_version roll_back is_current
  save_room_if_version-stale p r e h x = ground arith

  -- When the version is not the one that is expected, a copy of the snapshot takes the place of the
  -- room, at an address that no pointer has; the changed room is not the current one any more.
  pub save_room_if_version-rolled_back :
      (p : ℕ) (r old : Room F) (e : Option ℕ) (h : InMemoryHub F)
      → p < length h.heap
      → is_current p r.id h ≡ true
      → expects e (saved_version r.id h) ≡ false
      → lookup r.id h.saved ≡ some old
      → let s = (save_room_if_version p r e h).0 in
        (load_room r.id s ≡ some (length h.heap))
        × (at (length h.heap) s ≡ some (clone_room old))
        × (is_current p r.id s ≡ false)
  unfolding save_room_if_version roll_back is_current
  save_room_if_version-rolled_back p r old e h b c x l =
      let named = lookup-insert r.id r.id (length h.heap) h.rooms in
      rw (c, x, roll_back, l, is_current)
        (unfold load_room at in
          (
            named ∙ ground (arith, eq_iff r.id r.id),
            get_elem?-append h.heap (length h.heap) (clone_room old) ∙ ground arith,
            rw named (ground (arith, eq_iff r.id r.id)),
          ))

  pub save_room_if_version-accepted :
      (p : ℕ) (r : Room F) (e : Option ℕ) (h : InMemoryHub F)
      → (save_room_if_version p r e h).1 ≡ none
      → let v = saved_version r.id h in
        (expects e v ≡ true) × ((save_room_if_version p r e h).0 ≡ commit p r (next_version v) h)
  unfolding save_room_if_version
  save_room_if_version-accepted p r e h ok = ground arith

  -- Of two saves of one room that expect the same version, the second is refused, from whatever
  -- pointer and with whatever content it comes.
  pub save_room_if_version-twice :
      (p q : ℕ) (r s : Room F) (e : Option ℕ) (h : InMemoryHub F)
      → s.id ≡ r.id
      → (save_room_if_version p r e h).1 ≡ none
      → (save_room_if_version q s e (save_room_if_version p r e h).0).1 ≡ some stale_room_version
  save_room_if_version-twice p q r s e h i ok =
      let v = saved_version r.id h in
      let (x, same) = save_room_if_version-accepted p r e h ok in
      let next =
        ap (λ k. saved_version k (commit p r (next_version v) h)) i
        ∙ saved_version-commit p r (next_version v) h in
      rw same
        (save_room_if_version-stale q s e (commit p r (next_version v) h)
          (inr (rw next (expects-next_version e v x)))).0
