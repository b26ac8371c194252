-- ===== src/Hub/Buses.antt =====
-- The buses of the hub in memory, which only `AddBus`, `RemoveBus` and `RemoveClient` write.
use planning_poker.Base.{
  ℕ, String, ◌≡◌, ◌∙◌, none, some, arith, eq_iff, Option-cases, Bool-cases, inl, inr,
}
use planning_poker.Base.Maps.{lookup, delete, lookup-delete, lookup-insert}
use planning_poker.Float32.{Float32}
use planning_poker.Room.{Clock, Room}
use planning_poker.Room.Clients.{is_empty}
use planning_poker.Room.Presence.{remove_client}
use planning_poker.Hub.{
  InMemoryHub, at, store, load_room, remove_bus, add_bus, get_bus, add_client, close_removed,
  close_removed_client, remove_room, remove_from, remove_client_from_hub, refresh_saved_room,
  client_key,
}

module _ {F : Type 0} where
  buses-refresh_saved_room :
      (r : Room F) (h : InMemoryHub F) → (refresh_saved_room r h).buses ≡ h.buses
  unfolding refresh_saved_room
  buses-refresh_saved_room r h = ground arith

  buses-remove_room : (id : String) (h : InMemoryHub F) → (remove_room id h).buses ≡ h.buses
  unfolding remove_room close_removed
  buses-remove_room id h = ground arith

  buses-close_removed_client :
      (key : String) (h : InMemoryHub F) → (close_removed_client key h).buses ≡ h.buses
  unfolding close_removed_client
  buses-close_removed_client key h = ground arith

  pub buses-add_client :
      (p : ℕ) (r : Room F) (id : String) (h : InMemoryHub F) → (add_client p r id h).buses ≡ h.buses
  unfolding add_client
  buses-add_client p r id h = buses-refresh_saved_room r _

  pub get_bus-add_bus :
      (id : String) (bus : ℕ) (h : InMemoryHub F) → get_bus id (add_bus id bus h) ≡ some bus
  unfolding get_bus add_bus
  get_bus-add_bus id bus h = lookup-insert id id bus h.buses ∙ ground (arith, eq_iff id id)

  pub get_bus-remove_bus : (id : String) (h : InMemoryHub F) → get_bus id (remove_bus id h) ≡ none
  unfolding get_bus remove_bus
  get_bus-remove_bus id h = lookup-delete id id h.buses ∙ ground (arith, eq_iff id id)

module _ {F : Type 0} ⦃fl : Float32 F⦄ where
  buses-remove_from :
      (t : Clock) (id room_id : String) (p : ℕ) (r : Room F) (h : InMemoryHub F)
      → (remove_from t id room_id p r h).buses ≡ h.buses
  unfolding remove_from store
  buses-remove_from t id room_id p r h =
      let left = remove_client t id r in
      let kept = store p left h in
      buses-close_removed_client (client_key room_id id) _ ∙ elim (Bool-cases (is_empty left)) [
        | inl e ↦ rw e (buses-remove_room left.id kept)
        | inr e ↦ rw e (buses-refresh_saved_room left kept)
      ]

  pub get_bus-remove_client_from_hub :
      (t : Clock) (id room_id : String) (h : InMemoryHub F)
      → get_bus id (remove_client_from_hub t id room_id h) ≡ none
  unfolding remove_client_from_hub get_bus
  get_bus-remove_client_from_hub t id room_id h =
      let gone = remove_bus id (record h { clients = delete id h.clients }) in
      let cut : lookup id gone.buses ≡ none =
        unfold get_bus in get_bus-remove_bus id (record h { clients = delete id h.clients }) in
      elim (Option-cases (load_room room_id gone)) [
        | inl e ↦ rw (remove_client_from_hub, e) cut
        | inr (p, e) ↦ elim (Option-cases (at p gone)) [
          | inl n ↦ rw (remove_client_from_hub, e, n) cut
          | inr (r, n) ↦
              rw (remove_client_from_hub, e, n, buses-remove_from t id room_id p r gone) cut
        ]
      ]
