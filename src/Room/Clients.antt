-- ===== src/Room/Clients.antt =====
-- The collection of clients, and the searches of room_presence.go over it. The code holds clients
-- by pointer, so a write through the pointer of a search changes that one place of the list.
use planning_poker.Base.{
  ℕ, String, Bool, true, Option, List, [], ◌∷◌, ◌++◌, str_eq, ◌==◌, if◌then◌else◌, length, keep,
  first,
}
use planning_poker.Room.{Client, Room}

-- `InMemoryClientCollection.Add`
unfoldable pub add : Client → List Client → List Client
add c cs = cs ++ c ∷ []

-- `InMemoryClientCollection.Remove`: the first client of the identifier, if there is one.
unfoldable pub remove : String → List Client → List Client
remove id [] = []
remove id (c ∷ cs) = if str_eq c.id id then cs else c ∷ remove id cs

-- A write to the first client of the identifier.
unfoldable pub update_first : String → (Client → Client) → List Client → List Client
update_first id f [] = []
update_first id f (c ∷ cs) = if str_eq c.id id then f c ∷ cs else c ∷ update_first id f cs

-- The client that `Filter(ID == id).First()` returns.
unfoldable pub find : String → List Client → Option Client
find id cs = first (keep (λ c. str_eq c.id id) cs)

unfoldable pub owners : List Client → List Client
owners cs = keep (λ c. c.is_owner) cs

unfoldable pub make_owner : Client → Client
make_owner c = record c { is_owner = true }

unfoldable pub promote_first : List Client → List Client
unfolding make_owner
promote_first [] = []
promote_first (c ∷ cs) = make_owner c ∷ cs

module _ {F : Type 0} where
  unfoldable pub find_client : String → Room F → Option Client
  unfolding find
  find_client id r = find id r.clients

  unfoldable pub count_owners : Room F → ℕ
  unfolding owners
  count_owners r = length (owners r.clients)

  unfoldable pub is_empty : Room F → Bool
  is_empty r = length r.clients == 0
