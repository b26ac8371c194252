-- ===== src/UseCase/Coherence.antt =====
-- The use cases on one room and the coherence of the hub.
use planning_poker.Base.{
  ℕ, String, ◌≡◌, ◌∙◌, ap, refl, Option, none, some, arith, Option-cases, inl, inr, ◌⊎◌, eq_iff,
  String,
}
use planning_poker.Base.Maps.{lookup, insert, lookup-insert}
use planning_poker.DomainError.{Error}
use planning_poker.Float32.{Float32}
use planning_poker.Room.{Clock, Room, next_version}
use planning_poker.Room.Guards.{Reply}
use planning_poker.Room.Backlog.{Outcome, returns, panics, effective_current_story}
use planning_poker.Room.Commands.{
  Request, votes, renames_self, toggles_spectator, toggles_owner, toggles_reveal, resets, advances,
  goes_back, toggles_backlog, adds_story, removes_story, selects_story, sets_story, reorders_story,
  perform,
}
use planning_poker.Room.Identity.{Keeps, perform-Keeps}
use planning_poker.Hub.{InMemoryHub, at, store, load_room, save_room, saved_version, commit}
use planning_poker.Hub.Versions.{save_room_if_version-accepted}
use planning_poker.Hub.Coherence.{IsCoherent, store-IsCoherent}
use planning_poker.Hub.Coherence.Saves.{save_room-IsCoherent, save_room_if_version-IsCoherent}
use planning_poker.Hub.Removal.{at-store}
use planning_poker.Dto.{new_room_state_command}
use planning_poker.UseCase.{
  World, Done, Ran, stopped, ended, failed, broadcast_state, after_save, at_panic, after_method,
  on_room, save_if, save_always,
}
use planning_poker.UseCase.Requests.{
  Sender, execute_vote, execute_update_name, execute_add_story, execute_reveal, execute_reset,
  execute_vote_again, execute_toggle_owner, execute_toggle_spectator, execute_select_story,
  execute_remove_story, execute_reorder_story, execute_advance_story, execute_prev_story,
  execute_update_story, execute_toggle_backlog_mode,
}
use planning_poker.UseCase.Dispatch.{
  Message, update_name_msg, vote_msg, reset_msg, reveal_votes_msg, toggle_spectator_msg,
  toggle_owner_msg, update_story_msg, vote_again_msg, toggle_backlog_mode_msg, add_story_msg,
  remove_story_msg, advance_story_msg, prev_story_msg, select_story_msg, reorder_story_msg,
  dispatch,
}

pub Outcome-cases : {A : Type 0} (o : Outcome A) → (o ≡ panics) ⊎ ((a : A) × (o ≡ returns a))
Outcome-cases panics = inl refl
Outcome-cases (returns a) = inr (a, refl)

pub Ran-cases :
    {F A : Type 0} (o : Ran F A)
    → ((h : InMemoryHub F) × (o ≡ stopped h)) ⊎ ((a : A) × (o ≡ ended a))
Ran-cases (stopped h) = inl (h, refl)
Ran-cases (ended a) = inr (a, refl)

module _ {F : Type 0} where
  -- The hub that stands after a use case, whether or not it panics.
  abbrev pub hub_after : Ran F (Done F) → InMemoryHub F
  hub_after (stopped h) = h
  hub_after (ended d) = d.hub

  -- A room at the address of its identifier.
  abbrev pub Placed : ℕ → Room F → InMemoryHub F → Type 0
  Placed p r h = (at p h ≡ some r) × (lookup r.id h.rooms ≡ some p)

  pub broadcast_state-IsCoherent :
      (world : World) (p : ℕ) (r : Room F) (h : InMemoryHub F)
      → IsCoherent h
      → Placed p r h
      → IsCoherent (hub_after (broadcast_state world p r h))
  unfolding broadcast_state new_room_state_command
  broadcast_state-IsCoherent world p r h c (o, l) =
      elim (Outcome-cases (effective_current_story r)) [
        | inl e ↦ rw (broadcast_state, new_room_state_command, e) c
        | inr (story, e) ↦
            rw (broadcast_state, new_room_state_command, e)
              (store-IsCoherent h p r (record r { clients = world.sort r.clients }) c o l
                (refl, refl))
      ]

  -- What a save has to do for the hub: it stays coherent, and a save that succeeds leaves the room
  -- where it was.
  abbrev SavesWell : (ℕ → Room F → InMemoryHub F → InMemoryHub F × Option Error) → Type 0
  SavesWell save =
      (p : ℕ) (r : Room F) (h : InMemoryHub F)
      → IsCoherent h
      → Placed p r h
      → IsCoherent (save p r h).0
        × ((save p r h).1 ≡ none → (s : Room F) × Placed p s (save p r h).0)

  after_save-IsCoherent :
      (world : World) (save : ℕ → Room F → InMemoryHub F → InMemoryHub F × Option Error) (p : ℕ)
      (r : Room F) (h : InMemoryHub F)
      → SavesWell save
      → IsCoherent h
      → Placed p r h
      → IsCoherent (hub_after (after_save world p (save p r h)))
  unfolding after_save failed
  after_save-IsCoherent world save p r h w c pl = elim (Option-cases (save p r h).1) [
    | inl e ↦
        let (s, (o, l)) = (w p r h c pl).1 e in
        rw (e, after_save, o)
          (broadcast_state-IsCoherent world p s (save p r h).0 (w p r h c pl).0 (o, l))
    | inr (x, e) ↦ rw e (w p r h c pl).0
  ]

  after_method-IsCoherent :
      (world : World) (save : ℕ → Room F → InMemoryHub F → InMemoryHub F × Option Error) (p : ℕ)
      (r : Room F) (h : InMemoryHub F) (o : Outcome (Reply F))
      → SavesWell save
      → IsCoherent h
      → Placed p r h
      → Keeps r o
      → IsCoherent (hub_after (after_method world save p r h o))
  unfolding after_method failed at_panic
  after_method-IsCoherent world save p r h panics w c (o, l) k =
      store-IsCoherent h p r (at_panic r) c o l (refl, refl)
  after_method-IsCoherent world save p r h (returns (s, some x)) w c (o, l) (i, v) =
      store-IsCoherent h p r s c o (ap (λ id. lookup id h.rooms) i ∙ l) (i, v)
  after_method-IsCoherent world save p r h (returns (s, none)) w c (o, l) (i, v) =
      let named = ap (λ id. lookup id h.rooms) i ∙ l in
      let kept = store-IsCoherent h p r s c o named (i, v) in
      after_save-IsCoherent world save p s (store p s h) w kept
        (at-store p r s h o, unfold store in named)

  -- The use cases of one room, for a method that keeps its identifier and version.
  on_room-IsCoherent :
      (world : World) (save : ℕ → Room F → InMemoryHub F → InMemoryHub F × Option Error)
      (room_id : String) (method : Room F → Outcome (Reply F)) (h : InMemoryHub F)
      → SavesWell save
      → ((r : Room F) → Keeps r (method r))
      → IsCoherent h
      → IsCoherent (hub_after (on_room world save room_id method h))
  unfolding on_room load_room failed
  on_room-IsCoherent world save room_id method h w k c =
      elim (Option-cases (lookup room_id h.rooms)) [
        | inl e ↦ rw (on_room, load_room, e) c
        | inr (p, e) ↦
            let st = c.stands room_id p e in
            let named = ap (λ id. lookup id h.rooms) st.room_id ∙ e in
            rw (on_room, load_room, e, st.here)
              (after_method-IsCoherent world save p st.room h (method st.room) w c (st.here, named)
                (k st.room))
      ]

  save_always-SavesWell : SavesWell save_always
  unfolding save_always save_room store insert at
  save_always-SavesWell p r h c (o, l) =
      let next : ℕ = elim (lookup r.id h.saved) [
        | none ↦ next_version r.room_version
        | some old ↦ next_version old.room_version
      ] in
      (
        save_room-IsCoherent h p r c o l,
        λ e. (
          record r { room_version = next },
          (at-store p r (record r { room_version = next }) h o, unfold store in l),
        ),
      )

  save_if-SavesWell : (e : Option ℕ) → SavesWell (save_if e)
  unfolding save_if
  save_if-SavesWell e p r h c (o, l) =
      let next = next_version (saved_version r.id h) in
      (
        save_room_if_version-IsCoherent h p r e c o,
        λ ok.
            let (x, same) = save_room_if_version-accepted p r e h ok in
            (
              record r { room_version = next },
              rw same (
                unfold commit at store in at-store p r (record r { room_version = next }) h o,
                unfold commit store in
                    lookup-insert r.id r.id p h.rooms ∙ ground (arith, eq_iff r.id r.id),
              ),
            ),
      )

module _ {F : Type 0} ⦃fl : Float32 F⦄ where
  always :
      (world : World) (t : Clock) (c : Sender) (q : Request) (h : InMemoryHub F)
      → IsCoherent h
      → IsCoherent (hub_after (on_room world save_always c.room_id (perform t c.sender_id q) h))
  always world t c q h k =
      on_room-IsCoherent world save_always c.room_id (perform t c.sender_id q) h
        save_always-SavesWell (λ r. perform-Keeps t c.sender_id q r) k

  versioned :
      (world : World) (t : Clock) (c : Sender) (q : Request) (h : InMemoryHub F)
      → IsCoherent h
      → let save = save_if c.expected_room_version in
        IsCoherent (hub_after (on_room world save c.room_id (perform t c.sender_id q) h))
  versioned world t c q h k =
      on_room-IsCoherent world (save_if c.expected_room_version) c.room_id (perform t c.sender_id q)
        h (save_if-SavesWell c.expected_room_version) (λ r. perform-Keeps t c.sender_id q r) k

  -- Whatever message a client sends: the hub is as coherent after the use case as it was before it,
  -- also when the use case panics, with what it has changed and saved by then.
  pub dispatch-IsCoherent :
      (world : World) (t : Clock) (c : Sender) (m : Message) (h : InMemoryHub F)
      → IsCoherent h
      → IsCoherent (hub_after (dispatch world t c m h))
  unfolding perform dispatch execute_vote execute_update_name execute_add_story execute_reveal
      execute_reset execute_vote_again execute_toggle_owner execute_toggle_spectator
      execute_select_story execute_remove_story execute_reorder_story execute_advance_story
      execute_prev_story execute_update_story execute_toggle_backlog_mode
  dispatch-IsCoherent world t c (update_name_msg username) h k =
      always world t c (renames_self username) h k
  dispatch-IsCoherent world t c (vote_msg v) h k = always world t c (votes (some v)) h k
  dispatch-IsCoherent world t c reset_msg h k = versioned world t c resets h k
  dispatch-IsCoherent world t c reveal_votes_msg h k = versioned world t c toggles_reveal h k
  dispatch-IsCoherent world t c (toggle_spectator_msg target) h k =
      versioned world t c (toggles_spectator target) h k
  dispatch-IsCoherent world t c (toggle_owner_msg target) h k =
      versioned world t c (toggles_owner target) h k
  dispatch-IsCoherent world t c (update_story_msg story) h k =
      versioned world t c (sets_story story) h k
  dispatch-IsCoherent world t c vote_again_msg h k = versioned world t c resets h k
  dispatch-IsCoherent world t c (toggle_backlog_mode_msg new_id) h k =
      versioned world t c (toggles_backlog new_id) h k
  dispatch-IsCoherent world t c (add_story_msg new_id name) h k =
      always world t c (adds_story new_id name) h k
  dispatch-IsCoherent world t c (remove_story_msg story_id) h k =
      versioned world t c (removes_story story_id) h k
  dispatch-IsCoherent world t c advance_story_msg h k = versioned world t c advances h k
  dispatch-IsCoherent world t c prev_story_msg h k = versioned world t c goes_back h k
  dispatch-IsCoherent world t c (select_story_msg story_id) h k =
      versioned world t c (selects_story story_id) h k
  dispatch-IsCoherent world t c (reorder_story_msg story_id target) h k =
      versioned world t c (reorders_story story_id target) h k
