-- ===== src/Redis/Refinement.antt =====
-- The save with an expected version as both hubs promise it: on the snapshot of the room that is
-- kept, whatever keeps it.
use planning_poker.Base.{
  ℕ, String, ◌≡◌, inl, inr, refl, ap, ◌∙◌, sym, true, false, Option, none, some, arith, eq_iff,
  if◌then◌else◌, All, ◌==◌, Option-cases, Bool-cases,
}
use planning_poker.Base.Maps.{lookup, lookup-insert}
use planning_poker.DomainError.{Error, stale_room_version}
use planning_poker.Room.{Room, next_version}
use planning_poker.Hub.{
  InMemoryHub, store, clone_room, commit, roll_back, is_current, expects, saved_version,
  save_room_if_version,
}
use planning_poker.Hub.Clone.{clone_room-eq}
use planning_poker.Hub.Coherence.{IsCoherent}
use planning_poker.Redis.Serialization.{Json, IsFaithful, serialize_room}
use planning_poker.Redis.Serialization.Laws.{HasId}
use planning_poker.Redis.Client.{put_version, Redis, IsStore, Lua, IsLua, room_key}
use planning_poker.Redis.Rooms.{Saved, unsaved, matches, compare_and_save, save_room_conditionally}
use planning_poker.Redis.Rooms.Texts.{
  IsReadable, view, view_of, view_of-text, version_of-text, marshalled, written,
}

module _ {F : Type 0} where
  unfoldable pub replace_if : Option ℕ → Room F → Room F → Option (Room F) × Option Error
  replace_if expected r old =
      if expects expected old.room_version
      then (some (record (clone_room r) { room_version = next_version old.room_version }), none)
      else (some old, some stale_room_version)

  -- The snapshot after the save and the answer, from the snapshot before.
  unfoldable pub conditional_save :
      Option ℕ → Room F → Option (Room F) → Option (Room F) × Option Error
  conditional_save expected r none = (none, some stale_room_version)
  conditional_save expected r (some old) = replace_if expected r old

  conditional_save-none :
      (r : Room F) (o : Option (Room F)) → conditional_save none r o ≡ (o, some stale_room_version)
  unfolding conditional_save replace_if expects
  conditional_save-none r none = refl
  conditional_save-none r (some old) = refl

  conditional_save-matched :
      (r old : Room F) (v : ℕ)
      → (old.room_version == v) ≡ true
      → conditional_save (some v) r (some (clone_room old))
        ≡ (some (record (clone_room r) { room_version = next_version v }), none)
  unfolding conditional_save replace_if expects
  conditional_save-matched r old v x =
      let e : old.room_version ≡ v = ground (arith, x) in
      rw (ap (λ x. x.room_version) (clone_room-eq old), x, e) refl

  conditional_save-other :
      (r old : Room F) (v : ℕ)
      → (old.room_version == v) ≡ false
      → conditional_save (some v) r (some (clone_room old))
        ≡ (some (clone_room old), some stale_room_version)
  unfolding conditional_save replace_if expects
  conditional_save-other r old v x = rw (ap (λ x. x.room_version) (clone_room-eq old), x) refl

  -- In memory: for a room that is loaded, at the address it was loaded from.
  pub save_room_if_version-refines :
      (h : InMemoryHub F) (p : ℕ) (r : Room F) (e : Option ℕ)
      → IsCoherent h
      → lookup r.id h.rooms ≡ some p
      → (lookup r.id (save_room_if_version p r e h).0.saved, (save_room_if_version p r e h).1)
        ≡ conditional_save e r (lookup r.id h.saved)
  unfolding save_room_if_version conditional_save replace_if commit store roll_back is_current
      saved_version
  save_room_if_version-refines h p r e c l =
      let old = c.stands r.id p l in
      let n = next_version old.snapshot.room_version in
      let written = lookup-insert r.id r.id (record (clone_room r) { room_version = n }) h.saved in
      let same : (p == p) ≡ true = ground arith in
      elim (Bool-cases (expects e old.snapshot.room_version)) [
        | inl x ↦
            rw (is_current, l, same, saved_version, old.saved, x)
              (ap (λ o. (o, none)) (written ∙ ground (arith, eq_iff r.id r.id)))
        | inr x ↦ rw (is_current, l, same, saved_version, old.saved, x, roll_back, old.saved) refl
      ]

-- The room that a load sees after a save, with the save's answer.
abbrev pub outcome :
    {F S D : Type 0} → Redis S D → Json F D → String → Saved F S → Option (Room F) × Option Error
outcome rd js id out = (view rd js id out.store, out.error)

module _ {F S D A : Type 0} (rd : Redis S D) (js : Json F D) (lua : Lua D A) (st : IsStore rd)
    (fa : IsFaithful js) (lu : IsLua js lua) where
  matches-text :
      (v : ℕ) (r : Room F) (d : D)
      → serialize_room js r ≡ some d
      → matches rd js lua v (some d) ≡ (r.room_version == v)
  unfolding matches
  matches-text v r d e = ap (λ n. n == v) (version_of-text rd js lua st fa lu r d e)

  -- A save that writes nothing: `old` is what a load sees before and after.
  script-refused :
      (s : S) (r : Room F) (d : D) (v : ℕ)
      → matches rd js lua v (rd.read (room_key r.id) s) ≡ false
      → outcome rd js r.id (compare_and_save rd js lua v r d s)
        ≡ (view rd js r.id s, some stale_room_version)
  unfolding compare_and_save unsaved
  script-refused s r d v m = rw (compare_and_save, m) refl

  script-written :
      (s : S) (r : Room F) (d : D) (v : ℕ)
      → All HasId r.stories
      → serialize_room js (record r { room_version = next_version v }) ≡ some d
      → matches rd js lua v (rd.read (room_key r.id) s) ≡ true
      → outcome rd js r.id (compare_and_save rd js lua v r d s)
        ≡ (some (record (clone_room r) { room_version = next_version v }), none)
  unfolding compare_and_save view
  script-written s r d v ids t m =
      let next = record r { room_version = next_version v } in
      rw
        (
          compare_and_save,
          m,
          written rd js lua st fa lu r d s,
          view_of-text rd js lua st fa lu next d ids t,
          clone_room-eq next,
          clone_room-eq r,
        )
        refl

  script-refines :
      (s : S) (r : Room F) (d : D) (v : ℕ)
      → IsReadable rd js s
      → All HasId r.stories
      → serialize_room js (record r { room_version = next_version v }) ≡ some d
      → outcome rd js r.id (compare_and_save rd js lua v r d s)
        ≡ conditional_save (some v) r (view rd js r.id s)
  unfolding conditional_save view view_of
  script-refines s r d v g ids t = elim (Option-cases (rd.read (room_key r.id) s)) [
    | inl n ↦
        script-refused s r d v (ap (matches rd js lua v) n ∙ (unfold matches in refl))
        ∙ rw (view, n) refl
    | inr (d', n) ↦
        let old = g r.id d' n in
        let seen =
          ap (view_of rd js) n ∙ view_of-text rd js lua st fa lu old.room d' old.ids old.text in
        let m = ap (matches rd js lua v) n ∙ matches-text v old.room d' old.text in
        elim (Bool-cases (old.room.room_version == v)) [
          | inl x ↦
              script-written s r d v ids t (m ∙ x)
              ∙ sym
                  (ap (conditional_save (some v) r) seen ∙ conditional_save-matched r old.room v x)
          | inr x ↦
              script-refused s r d v (m ∙ x)
              ∙ ap (λ o. (o, some stale_room_version)) seen
              ∙ sym (ap (conditional_save (some v) r) seen ∙ conditional_save-other r old.room v x)
        ]
  ]

  -- While the server answers, and what it keeps under the keys of the rooms can be read: the
  -- conditional save of a room that can be written, and whose stories have identifiers, does to the
  -- stored room, as a load would give it, what the abstract save does, and gives its answer.
  pub save_room_conditionally-refines :
      (s : S) (r : Room F) (d : D) (e : Option ℕ)
      → IsReadable rd js s
      → rd.down s ≡ none
      → All HasId r.stories
      → serialize_room js r ≡ some d
      → outcome rd js r.id (save_room_conditionally rd js lua r e s)
        ≡ conditional_save e r (view rd js r.id s)
  unfolding save_room_conditionally unsaved
  save_room_conditionally-refines s r d none g u ids t =
      sym (conditional_save-none r (view rd js r.id s))
  save_room_conditionally-refines s r d (some v) g u ids t =
      let n = next_version v in
      let e = marshalled rd js lua st fa lu r d n t in
      rw (save_room_conditionally, e, u) (script-refines s r (put_version lua n d) v g ids e)
