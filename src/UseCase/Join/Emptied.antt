-- ===== src/UseCase/Join/Emptied.antt =====
-- What the removal of the last client of a room does to each part of the hub, and what the join of a
-- new client does to them before.
use planning_poker.Base.{
  ℕ, String, ◌≡◌, refl, ap, ◌∙◌, inl, inr, true, none, List, [], ◌∷◌, ◌++◌, arith, length, set,
  str_eq, if◌then◌else◌, Option-cases,
}
use planning_poker.Base.Maps.{StringMap, lookup, insert, delete, lookup-insert, lookup-delete}
use planning_poker.Float32.{Float32}
use planning_poker.Room.{Clock, Room}
use planning_poker.Room.Clients.{is_empty}
use planning_poker.Room.Presence.{new_client_in, remove_client}
use planning_poker.Hub.{
  InMemoryHub, at, store, load_room, add_client, add_bus, remove_bus, remove_room, close_removed,
  close_removed_client, refresh_saved_room, client_key, remove_from, remove_client_from_hub,
}
use planning_poker.Hub.Removal.{remove_client-frame}
use planning_poker.UseCase.Coherence.{Placed}
use planning_poker.UseCase.Join.{create_new_client}

pub set-length :
    {A : Type 0} (xs : List A) (x y : A) → set (xs ++ x ∷ []) (length xs) y ≡ xs ++ y ∷ []
set-length [] x y = refl
set-length (a ∷ xs) x y = ap (λ l. a ∷ l) (set-length xs x y)

pub lookup-insert_elsewhere :
    {V : Type 0} (key asked : String) (v : V) (m : StringMap V)
    → (if str_eq key asked then none else lookup asked (insert key v m))
      ≡ (if str_eq key asked then none else lookup asked m)
lookup-insert_elsewhere key asked v m = ground (arith, lookup-insert key asked v m)

pub lookup-delete-insert :
    {V : Type 0} (key asked : String) (v : V) (m : StringMap V)
    → lookup asked (delete key (insert key v m))
      ≡ (if str_eq key asked then none else lookup asked m)
lookup-delete-insert key asked v m =
    ground (arith, lookup-delete key asked (insert key v m), lookup-insert key asked v m)

module _ {F : Type 0} where
  -- The hub `k` has, of `h`, the rooms without one identifier, another room at an address, and the
  -- clients and buses without a client.
  pub record Emptied (room_id id : String) (p : ℕ) (left : Room F) (h k : InMemoryHub F)
      : Type 0 where
    pub rooms : k.rooms ≡ delete room_id h.rooms
    pub saved : k.saved ≡ delete room_id h.saved
    pub heap : k.heap ≡ set h.heap p left
    pub clients : k.clients ≡ delete id h.clients
    pub buses : k.buses ≡ delete id h.buses

  remove_room-parts :
      (id : String) (h : InMemoryHub F)
      → let k = remove_room id h in
        (k.rooms ≡ delete id h.rooms)
        × (k.saved ≡ delete id h.saved)
        × (k.heap ≡ h.heap)
        × (k.clients ≡ h.clients)
        × (k.buses ≡ h.buses)
  unfolding remove_room close_removed
  remove_room-parts id h = ground arith

  close_removed_client-parts :
      (key : String) (h : InMemoryHub F)
      → let k = close_removed_client key h in
        (k.rooms ≡ h.rooms)
        × (k.saved ≡ h.saved)
        × (k.heap ≡ h.heap)
        × (k.clients ≡ h.clients)
        × (k.buses ≡ h.buses)
  unfolding close_removed_client
  close_removed_client-parts key h = ground arith

  refresh_saved_room-parts :
      (asked : String) (r : Room F) (h : InMemoryHub F)
      → let k = refresh_saved_room r h in
        (k.heap ≡ h.heap)
        × (k.clients ≡ h.clients)
        × (k.buses ≡ h.buses)
        × ((if str_eq r.id asked then none else lookup asked k.saved)
            ≡ (if str_eq r.id asked then none else lookup asked h.saved))
  unfolding refresh_saved_room
  refresh_saved_room-parts asked r h = elim (Option-cases (lookup r.id h.saved)) [
    | inl e ↦ rw (refresh_saved_room, e) (refl, refl, refl, refl)
    | inr (old, e) ↦
        rw (refresh_saved_room, e) (refl, refl, refl, lookup-insert_elsewhere r.id asked _ h.saved)
  ]

  -- The parts after the join of a new client, its room's own snapshot aside.
  pub create_new_client-parts :
      (asked : String) (p : ℕ) (r : Room F) (id : String) (bus : ℕ) (h : InMemoryHub F)
      → let k = create_new_client p r id bus h in
        (k.heap ≡ set h.heap p (new_client_in id r))
        × (k.clients ≡ insert id (p, id) h.clients)
        × (k.buses ≡ insert id bus h.buses)
        × ((if str_eq r.id asked then none else lookup asked k.saved)
            ≡ (if str_eq r.id asked then none else lookup asked h.saved))
  unfolding create_new_client add_bus add_client store new_client_in
  create_new_client-parts asked p r id bus h =
      let joined = new_client_in id r in
      let (heap, clients, buses, saved) = refresh_saved_room-parts asked joined _ in
      (heap, clients, ap (λ m. insert id bus m) buses, saved)

module _ {F : Type 0} ⦃fl : Float32 F⦄ where
  remove_from-Emptied :
      (t : Clock) (id room_id : String) (p : ℕ) (r : Room F) (h g : InMemoryHub F)
      → is_empty (remove_client t id r) ≡ true
      → g ≡ remove_bus id (record h { clients = delete id h.clients })
      → Emptied r.id id p (remove_client t id r) h (remove_from t id room_id p r g)
  unfolding remove_from store remove_bus
  remove_from-Emptied t id room_id p r h g e same =
      let left = remove_client t id r in
      let kept = store p left g in
      let a = remove_room-parts left.id kept in
      let b = close_removed_client-parts (client_key room_id id) (remove_room left.id kept) in
      let named : left.id ≡ r.id = (remove_client-frame t id r).0 in
      rw (remove_from, e)
        record {
          rooms = b.0 ∙ a.0 ∙ ap (λ i. delete i g.rooms) named ∙ ap (λ k. delete r.id k.rooms) same;
          saved = b.1 ∙ a.1 ∙ ap (λ i. delete i g.saved) named ∙ ap (λ k. delete r.id k.saved) same;
          heap = b.2 ∙ a.2 ∙ ap (λ k. set k.heap p left) same;
          clients = b.3 ∙ a.3 ∙ ap (λ k. k.clients) same;
          buses = b.4 ∙ a.4 ∙ ap (λ k. k.buses) same;
        }

  -- The client who leaves a room empty takes the room, its snapshot and its own bus along.
  pub emptied :
      (t : Clock) (id : String) (p : ℕ) (r : Room F) (h : InMemoryHub F)
      → Placed p r h
      → is_empty (remove_client t id r) ≡ true
      → Emptied r.id id p (remove_client t id r) h (remove_client_from_hub t id r.id h)
  unfolding remove_client_from_hub remove_bus at load_room
  emptied t id p r h (o, l) e =
      rw (remove_client_from_hub, load_room, l, o)
        (remove_from-Emptied t id r.id p r h _ e (unfold remove_bus in refl))
