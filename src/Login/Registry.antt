-- ===== src/Login/Registry.antt =====
-- The client maps of bmloginsvrapp/handle_eventfromclient.go: clientUserMap holds, under the uid of a
-- verified user, the list of the pointers of their clients.
use bmservers.Prelude.{
  ℕ, Bool, true, false, Option, none, some, List, [], ◌∷◌, ◌++◌, ◌==◌, if◌then◌else◌,
}
use bmservers.Prelude.Int.{ℤ}
use bmservers.Prelude.Assoc.{int_eq, nat_key, lookup, insert}
use bmservers.Login.State.{ClientNode}

abbrev pub ClientHeap : Type 0
ClientHeap = List (ℕ × ClientNode)

abbrev pub UserMap : Type 0
UserMap = List (ℕ × List ℕ)

-- clients.PushBack(client), in a new list if the uid has none.
abbrev pub push_back : ℕ → Option (List ℕ) → List ℕ
push_back p none = p ∷ []
push_back p (some clients) = clients ++ p ∷ []

unfoldable pub add_client_to_client_user_map : ℕ → ClientNode → UserMap → UserMap
add_client_to_client_user_map p client users =
    insert client.uid (push_back p (lookup client.uid users)) users

-- The loop of removeClientFromClientUserMap: the first element that is this pointer goes.
unfoldable pub remove_pointer : ℕ → List ℕ → Bool × List ℕ
remove_pointer p [] = (false, [])
remove_pointer p (q ∷ qs) =
    let (found, rest) = remove_pointer p qs in if q == p then (true, qs) else (found, q ∷ rest)

-- The list of the uid is changed in place; an empty list stays in the map.
abbrev pub replace_list : ℕ → UserMap → Bool × List ℕ → Bool × UserMap
replace_list uid users (found, clients) = (found, insert uid clients users)

unfoldable pub remove_client_from_client_user_map : ℕ → ClientNode → UserMap → Bool × UserMap
unfolding remove_pointer
remove_client_from_client_user_map p client users = elim (lookup client.uid users) [
  | none ↦ (false, users)
  | some clients ↦ replace_list client.uid users (remove_pointer p clients)
]

-- `cn.clientConnId == lid` for a pointer in a list.
abbrev pub has_lid : ClientHeap → ℤ → ℕ → Bool
has_lid heap lid p = elim (lookup p heap) [ none ↦ false | some cn ↦ int_eq cn.client_conn_id lid ]

unfoldable pub remove_lid : ClientHeap → ℤ → List ℕ → Bool × List ℕ
remove_lid heap lid [] = (false, [])
remove_lid heap lid (q ∷ qs) =
    let (found, rest) = remove_lid heap lid qs in
    if has_lid heap lid q then (true, qs) else (found, q ∷ rest)

unfoldable pub remove_client_from_client_user_map_raw :
    ClientHeap → ℕ → ℤ → UserMap → Bool × UserMap
unfolding remove_lid
remove_client_from_client_user_map_raw heap uid lid users = elim (lookup uid users) [
  | none ↦ (false, users)
  | some clients ↦ replace_list uid users (remove_lid heap lid clients)
]

unfoldable pub get_clients_from_client_user_map : ℕ → UserMap → Option (List ℕ)
get_clients_from_client_user_map uid users = lookup uid users

unfoldable pub find_lid : ClientHeap → ℤ → List ℕ → Option ℕ
find_lid heap lid [] = none
find_lid heap lid (q ∷ qs) = if has_lid heap lid q then some q else find_lid heap lid qs

unfoldable pub get_client_from_client_user_map : ClientHeap → ℕ → ℤ → UserMap → Option ℕ
unfolding find_lid
get_client_from_client_user_map heap uid lid users = elim (lookup uid users) [
  | none ↦ none
  | some clients ↦ find_lid heap lid clients
]
