-- ===== src/Login/ClientMap.antt =====
-- clientUserMap of bmloginsvrapp/handle_eventfromclient.go: what it should hold, and what adding and
-- removing a client does to it.
pub mod Events
pub mod Kept
pub mod FromServers
use bmservers.Prelude.{
  ℕ, zero, suc, ◌+◌, ◌-◌, ◌≤◌, ◌<◌, ◌≡◌, ◌≢◌, refl, inl, inr, Bool, true, false, Option, none, some,
  List, [], ◌∷◌, ◌++◌, arith, ◌==◌, ==_iff, ==_refl, if◌then◌else◌, Bool-cases, Option-cases,
}
use bmservers.Prelude.Int.{ℤ}
use bmservers.Prelude.Assoc.{nat_key, lookup, insert, erase, lookup-insert, lookup-erase}
use bmservers.Login.State.{ClientNode, Peers}
use bmservers.Login.Registry.{
  UserMap, push_back, add_client_to_client_user_map, remove_pointer,
  remove_client_from_client_user_map,
}

-- How often a pointer stands in a list.
abbrev pub times : ℕ → List ℕ → ℕ
times p [] = 0
times p (q ∷ qs) = let rest = times p qs in if q == p then suc rest else rest

abbrev pub listed : ℕ → ℕ → UserMap → ℕ
listed uid p users = elim (lookup uid users) [ none ↦ 0 | some ps ↦ times p ps ]

abbrev pub is_here : ℕ → Option ℕ → Bool
is_here p none = false
is_here p (some q) = q == p

-- The uid of a client that is connected, 0 for a pointer to no such client.
abbrev pub owner_of : Option ClientNode → ℕ → List (ℕ × ℕ) → ℕ
owner_of none p data_of = 0
owner_of (some cn) p data_of = if is_here p (lookup cn.conn data_of) then cn.uid else 0

abbrev pub owner : ℕ → List (ℕ × ClientNode) → List (ℕ × ℕ) → ℕ
owner p heap data_of = owner_of (lookup p heap) p data_of

-- 1 for the uid of a verified client.
abbrev pub once : ℕ → ℕ → ℕ
once uid own = if uid == 0 then 0 else if own == uid then 1 else 0

pub record IsClientMap (heap : List (ℕ × ClientNode)) (data_of : List (ℕ × ℕ)) (users : UserMap)
    (next : ℕ) : Type 0 where
  -- A client stands in the list of a uid once if it is connected and verified as that user, and
  -- not at all otherwise.
  pub in_lists : (uid p : ℕ) → listed uid p users ≡ once uid (owner p heap data_of)
  -- A connection's user data points to the node of that connection.
  pub data_node :
      (conn p : ℕ)
      → lookup conn data_of ≡ some p
      → (cn : ClientNode) × (lookup p heap ≡ some cn) × (cn.conn ≡ conn)
  pub below : (p : ℕ) (cn : ClientNode) → lookup p heap ≡ some cn → p < next

abbrev pub HasClientMap : Peers → Type 0
HasClientMap s = IsClientMap s.client_heap s.client_data s.client_user_map s.client_next

times-push :
    (p q : ℕ) (qs : List ℕ) → times p (qs ++ q ∷ []) ≡ times p qs + (if q == p then 1 else 0)
times-push p q [] = ground arith
times-push p q (r ∷ qs) = ground (arith, times-push p q qs)

-- Adding a client lists it once more, under its uid.
listed-add :
    (uid p q : ℕ) (cn : ClientNode) (users : UserMap)
    → listed uid p (add_client_to_client_user_map q cn users)
      ≡ listed uid p users + (if cn.uid == uid then if q == p then 1 else 0 else 0)
unfolding add_client_to_client_user_map
listed-add uid p q cn users = elim (Option-cases (lookup cn.uid users)) [
  | inl e ↦ ground (arith, lookup-insert cn.uid uid (q ∷ []) users)
  | inr (ps, e) ↦ ground (arith, lookup-insert cn.uid uid (ps ++ q ∷ []) users, times-push p q ps)
]

times-remove :
    (p q : ℕ) (qs : List ℕ)
    → times p (remove_pointer q qs).1 ≡ times p qs - (if q == p then 1 else 0)
unfolding remove_pointer
times-remove p q [] = ground arith
times-remove p q (r ∷ qs) = ground (arith, times-remove p q qs)

-- Removing a client lists it once less, under its uid.
listed-remove :
    (uid p q : ℕ) (cn : ClientNode) (users : UserMap)
    → listed uid p (remove_client_from_client_user_map q cn users).1
      ≡ listed uid p users - (if cn.uid == uid then if q == p then 1 else 0 else 0)
unfolding remove_client_from_client_user_map
listed-remove uid p q cn users = elim (Option-cases (lookup cn.uid users)) [
  | inl e ↦ ground arith
  | inr (ps, e) ↦
      ground (arith, lookup-insert cn.uid uid (remove_pointer q ps).1 users, times-remove p q ps)
]
