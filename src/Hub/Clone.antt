-- ===== src/Hub/Clone.antt =====
-- What `cloneRoom` keeps of a room.
use planning_poker.Base.{
  ◌≡◌, refl, ap, ◌∙◌, sym, false, List, [], ◌∷◌, ◌++◌, map, arith, length, if◌then◌else◌, ◌==◌,
  length-append,
}
use mathlib.Core.List.{append_assoc, append-nil}
use planning_poker.Room.{
  Client, Room, utc, optional_utc_time, new_client, new_room_with_id_and_started_at,
}
use planning_poker.Room.Clients.{add, promote_first, make_owner}
use planning_poker.Room.Presence.{new_client_in}
use planning_poker.Hub.{copy_fields, update_last, add_copy, add_copies, clone_room}

-- A copy of a client, which is the client but for the zone of its vote's time.
unfoldable pub copied : Client → Client
copied c = record c { voted_at = optional_utc_time c.voted_at }

update_last-append :
    (f : Client → Client) (cs : List Client) (c : Client)
    → update_last f (cs ++ c ∷ []) ≡ cs ++ f c ∷ []
unfolding update_last
update_last-append f [] c = refl
update_last-append f (d ∷ []) c = refl
update_last-append f (d ∷ e ∷ cs) c = ap (λ l. d ∷ l) (update_last-append f (e ∷ cs) c)

not_single :
    (d : Client) (cs : List Client) (c : Client) → (length (d ∷ (cs ++ c ∷ [])) == 1) ≡ false
not_single d cs c = ground (arith, length-append cs (c ∷ []))

joined-first :
    (f : Client → Client) (cs : List Client) (c : Client)
    → ((d : Client) → f (make_owner d) ≡ f d)
    → update_last f
        (if length (cs ++ c ∷ []) == 1 then promote_first (cs ++ c ∷ []) else cs ++ c ∷ [])
      ≡ cs ++ f c ∷ []
unfolding update_last promote_first
joined-first f [] c h = ap (λ d. d ∷ []) (h c)
joined-first f (d ∷ cs) c h = rw (not_single d cs c) (update_last-append f (d ∷ cs) c)

module _ {F : Type 0} where
  add_copy-eq :
      (c : Client) (r : Room F) → add_copy c r ≡ record r { clients = r.clients ++ copied c ∷ [] }
  unfolding add_copy new_client_in add
  add_copy-eq c r =
      ap (λ l. record r { clients = l })
        (joined-first (copy_fields c) r.clients (new_client c.id)
          (unfold copy_fields make_owner in λ d. refl))
      ∙ (unfold copy_fields new_client copied in refl)

  add_copies-eq :
      (cs : List Client) (r : Room F)
      → add_copies cs r ≡ record r { clients = r.clients ++ map copied cs }
  unfolding add_copies
  add_copies-eq [] r = ap (λ l. record r { clients = l }) (sym (append-nil r.clients))
  add_copies-eq (c ∷ cs) r =
      add_copies-eq cs (add_copy c r)
      ∙ ap {A = Room F} (λ s. record s { clients = s.clients ++ map copied cs }) (add_copy-eq c r)
      ∙ ap (λ l. record r { clients = l }) (append_assoc r.clients (copied c ∷ []) (map copied cs))

  -- A copy is the room without its pending events, with the times in UTC.
  pub clone_room-eq :
      (r : Room F)
      → clone_room r
        ≡ record r { started_at = utc r.started_at; clients = map copied r.clients; events = [] }
  unfolding clone_room new_room_with_id_and_started_at
  clone_room-eq r = add_copies-eq r.clients _
