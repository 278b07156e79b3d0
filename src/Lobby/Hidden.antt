-- ===== src/Lobby/Hidden.antt =====
-- What clients learn of a game server with a password: the messages GetGsList and GetGsAddr of
-- bmloginsvrapp/main_thread_process.go.
use bmservers.Prelude.{
  ◌≡◌, ◌≢◌, ◌⊎◌, inl, inr, refl, sym, ap, ap₂, Bool, true, false, Option, none, some, List, [], ◌∷◌,
  arith, GoString, length, ◌==◌, str_eq_iff, Bool-cases,
}
use bmservers.Prelude.Int.{ℤ}
use bmservers.Prelude.Assoc.{int_eq, int_eq_iff}
use bmservers.Sql.Engine.{Engine}
use bmservers.Sql.Laws.{IsRow}
use bmservers.Lobby.{
  UserGameServer, get_gs_list, get_gs_addr, exposed, exposed_list, server_of_id, accepts,
  MThreadMsg, Main,
}
use bmservers.Lobby.Messages.{tell_address, process_m_thread_msg}
use bmservers.Lobby.Servers.{Entries}

-- Two servers that a client without a password cannot tell apart: both are open and the same, or
-- both have a password and differ in that and the port only.
abbrev pub IsAlike : UserGameServer → UserGameServer → Type 0
IsAlike a b =
    (a ≡ b)
    ⊎ ((a.password ≢ [])
        × (b.password ≢ [])
        × (b ≡ record a { password = b.password; port = b.port }))

abbrev pub AreAlike : Entries → Entries → Type 0
AreAlike [] [] = Unit
AreAlike [] (e ∷ m) = ⊥
AreAlike (e ∷ m) [] = ⊥
AreAlike (a ∷ m) (b ∷ n) = IsAlike a.1 b.1 × AreAlike m n

-- The address of a server goes out, to a client that is asked for no password or has sent the right
-- one.
abbrev pub IsTold : MThreadMsg → MThreadMsg → Entries → List Bool → Type 0
IsTold m m' servers sent =
    (sent ≡ true ∷ [])
    × (k : GoString) × (ug : UserGameServer) × IsRow (k, ug) servers
    × (ug.id ≡ m.w_param)
    × ((ug.password ≡ []) ⊎ (ug.password ≡ m.msg))
    × (m'.msg ≡ ug.address)
    × (m'.l_param ≡ ug.port)

not_empty : (s : GoString) → s ≢ [] → (length s == 0) ≡ false
not_empty [] h = absurd (h refl)
not_empty (c ∷ s) h = ground arith

alike-exposed : (a b : UserGameServer) → IsAlike a b → exposed a ≡ exposed b
alike-exposed a b (inl e) = ap exposed e
alike-exposed a b (inr (h, k, e)) = ground (arith, not_empty a.password h, not_empty b.password k)

alike-exposed_list : (m n : Entries) → AreAlike m n → exposed_list m ≡ exposed_list n
alike-exposed_list [] [] h = refl
alike-exposed_list [] (e ∷ n) h = absurd h
alike-exposed_list (e ∷ m) [] h = absurd h
alike-exposed_list (a ∷ m) (b ∷ n) h =
    ap₂ ◌∷◌ (alike-exposed a.1 b.1 h.0) (alike-exposed_list m n h.1)

-- The server that the loop finds.
found_server :
    (id : ℤ) (m : Entries) (ug : UserGameServer)
    → server_of_id id m ≡ some ug
    → (k : GoString) × IsRow (k, ug) m × (ug.id ≡ id)
found_server id [] ug e = absurd (ground arith)
found_server id ((k, x) ∷ m) ug e = elim (Bool-cases (int_eq x.id id)) [
  | inl here ↦
      let same : x ≡ ug = ground arith in
      (k, inl (ap (λ u. (k, u)) (sym same)), rw (← same) ((int_eq_iff x.id id).0 here))
  | inr other ↦ let (k', there, its) = found_server id m ug (ground arith) in (k', inr there, its)
]

open_to :
    (ug : UserGameServer) (password : GoString)
    → accepts ug password ≡ true
    → (ug.password ≡ []) ⊎ (ug.password ≡ password)
open_to ug password e = elim (Bool-cases (length ug.password == 0)) [
  | inl empty ↦ inl (no_bytes ug.password empty)
  | inr some_bytes ↦ inr ((str_eq_iff ug.password password).0 (ground arith))
]
  where
    no_bytes : (s : GoString) → (length s == 0) ≡ true → s ≡ []
    no_bytes [] h = refl
    no_bytes (c ∷ s) h = absurd (ground arith)

module _ {Db : Type 0} (sql : Engine Db) (decode : GoString → Option UserGameServer) where
  -- The list of servers that ProcessMThreadMsg gives out is the same for two lobbies whose servers
  -- differ only in the passwords and the ports of servers with a password.
  pub get_gs_list-same :
      (now : ℤ) (m : MThreadMsg) (s t : Main Db)
      → AreAlike s.lobby.servers t.lobby.servers
      → (process_m_thread_msg sql decode get_gs_list now m s).0
        ≡ (process_m_thread_msg sql decode get_gs_list now m t).0
  unfolding process_m_thread_msg
  get_gs_list-same now m s t h =
      ap (λ l. record m { data_list = some l })
        (alike-exposed_list s.lobby.servers t.lobby.servers h)

  told :
      (m m' : MThreadMsg) (s s' : Main Db) (sent : List Bool) (o : Option UserGameServer)
      → server_of_id m.w_param s.lobby.servers ≡ o
      → tell_address o m s ≡ (m', (sent, s'))
      → (s' ≡ s) × ((sent ≡ false ∷ []) ⊎ IsTold m m' s.lobby.servers sent)
  told m m' s s' sent none found e = (ap (λ r. r.1.1) (sym e), inl (ap (λ r. r.1.0) (sym e)))
  told m m' s s' sent (some ug) found e = elim (Bool-cases (accepts ug m.msg)) [
    | inr shut ↦ (ground arith, inl (ground arith))
    | inl allowed ↦
        let (k, there, its_id) = found_server m.w_param s.lobby.servers ug found in
        (
          ground arith,
          inr (
            ground arith,
            k,
            ug,
            there,
            its_id,
            open_to ug m.msg allowed,
            ground arith,
            ground arith,
          ),
        )
  ]

  -- If ProcessMThreadMsg answers a request for an address with true, then there is a server with the
  -- id of the request, which has no password or the one of the request, and the address and port
  -- that go out are its own; and no request for an address changes the state or sends more or less
  -- than one answer.
  pub get_gs_addr-accepts :
      (now : ℤ) (m m' : MThreadMsg) (s s' : Main Db) (sent : List Bool)
      → process_m_thread_msg sql decode get_gs_addr now m s ≡ (m', (sent, s'))
      → (s' ≡ s)
        × ((sent ≡ false ∷ [])
            ⊎ ((sent ≡ true ∷ [])
                × (k : GoString) × (ug : UserGameServer) × IsRow (k, ug) s.lobby.servers
                × (ug.id ≡ m.w_param)
                × ((ug.password ≡ []) ⊎ (ug.password ≡ m.msg))
                × (m'.msg ≡ ug.address)
                × (m'.l_param ≡ ug.port)))
  unfolding process_m_thread_msg
  get_gs_addr-accepts now m m' s s' sent e =
      told m m' s s' sent (server_of_id m.w_param s.lobby.servers) refl e
