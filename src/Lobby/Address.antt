-- ===== src/Lobby/Address.antt =====
-- From a registration to the address of the server: the messages RegisterGs and GetGsAddr of
-- bmloginsvrapp/main_thread_process.go, with UpdateMThreadMsg between them.
use bmservers.Prelude.{
  ◌≡◌, ◌≢◌, inl, inr, refl, sym, ap, ◌^◌, ◌-◌, Bool, true, false, Option, none, some, List, [], ◌∷◌,
  arith, GoString, str_eq, str_eq_iff, All, Bool-cases,
}
use bmservers.Prelude.Int.{ℤ, pos, ◌+ℤ◌, ◌<ℤ◌, to_int64}
use bmservers.Prelude.Assoc.{int_eq, int_eq_iff, int_key, str_key, lookup, lookup-insert_self}
use bmservers.Prelude.Entries.{mem, IsDistinct}
use bmservers.Sql.Engine.{Engine}
use bmservers.Lobby.{
  UserGameServer, Lobby, server_key, add_user_game_server, server_of_id, accepts, register_gs,
  get_gs_addr, MThreadMsg, Main,
}
use bmservers.Lobby.Messages.{register_decoded, tell_address, process_m_thread_msg}
use bmservers.Lobby.Servers.{
  Entries, ids, IsLobby, add_user_game_server-IsLobby, check_offline_user_game_server-IsLobby,
}
use bmservers.Lobby.Offline.{checked, IsSoon, stays}

lookup-mem :
    (k : GoString) (ug : UserGameServer) (m : Entries)
    → lookup k m ≡ some ug
    → mem ug.id (ids m) ≡ true
unfolding lookup
lookup-mem k ug [] h = absurd (ground arith)
lookup-mem k ug ((j, w) ∷ m) h = ground (arith, int_eq_iff ug.id ug.id, lookup-mem k ug m)

-- The loop finds the only server with the id.
server_of_id-lookup :
    (k : GoString) (ug : UserGameServer) (m : Entries)
    → IsDistinct (ids m)
    → lookup k m ≡ some ug
    → server_of_id ug.id m ≡ some ug
unfolding lookup
server_of_id-lookup k ug [] one h = absurd (ground arith)
server_of_id-lookup k ug ((j, w) ∷ m) one h = elim (Bool-cases (str_eq j k)) [
  | inl here ↦ let same : w ≡ ug = ground arith in rw (same, (int_eq_iff ug.id ug.id).1 refl) refl
  | inr later ↦
      let found : lookup k m ≡ some ug = ground arith in
      elim (Bool-cases (int_eq w.id ug.id)) [
        | inr other ↦ rw other (server_of_id-lookup k ug m one.1 found)
        | inl twice ↦
            let same : w.id ≡ ug.id = (int_eq_iff w.id ug.id).0 twice in
            let gone : mem ug.id (ids m) ≡ false = rw (← same) one.0 in
            absurd (ground (arith, lookup-mem k ug m found))
      ]
]

checked-IsLobby : (times : List ℤ) (l : Lobby) → IsLobby l → IsLobby (checked times l)
checked-IsLobby [] l h = h
checked-IsLobby (now ∷ times) l h =
    checked-IsLobby times _ (check_offline_user_game_server-IsLobby now l h)

-- The record of a server that was not in the lobby.
abbrev pub entry : ℤ → UserGameServer → Lobby → UserGameServer
entry now gs l = record gs { last_live_time = now; id = to_int64 (l.seed +ℤ pos 1) }

new_server :
    (now : ℤ) (gs : UserGameServer) (l : Lobby)
    → lookup (server_key gs) l.servers ≡ none
    → ((add_user_game_server now gs l).0 ≡ (entry now gs l).id)
      × (lookup (server_key gs) (add_user_game_server now gs l).1.servers ≡ some (entry now gs l))
unfolding add_user_game_server
new_server now gs l absent =
    rw absent (refl, lookup-insert_self (server_key gs) (entry now gs l) l.servers)

own_password : (ug : UserGameServer) → accepts ug ug.password ≡ true
own_password ug = ground (arith, (str_eq_iff ug.password ug.password).1 refl)

-- After a registration the server is found under its id, as long as it is checked soon.
found_later :
    (now : ℤ) (gs : UserGameServer) (times : List ℤ) (l : Lobby)
    → IsLobby l
    → l.seed <ℤ pos (2 ^ 63 - 1)
    → lookup (server_key gs) l.servers ≡ none
    → All (IsSoon now) times
    → let r = add_user_game_server now gs l in
      server_of_id r.0 (checked times r.1).servers ≡ some (entry now gs l)
found_later now gs times l h room absent soon =
    let (its_id, found) = new_server now gs l absent in
    let after = add_user_game_server-IsLobby now gs l h room in
    let still = stays (server_key gs) (entry now gs l) times _ after found soon in
    let one = (checked-IsLobby times _ after).servers.one_id in
    rw its_id (server_of_id-lookup (server_key gs) (entry now gs l) _ one still)

-- A message that is not empty is decoded.
decoded :
    (decode : GoString → Option UserGameServer) (text : GoString) (gs : UserGameServer)
    → text ≢ []
    → decode text ≡ some gs
    → elim text as (λ _. Option UserGameServer) [ [] ↦ none | c ∷ rest ↦ decode text ] ≡ some gs
decoded decode [] gs some_text h = absurd (some_text refl)
decoded decode (c ∷ text) gs some_text h = h

module _ {Db : Type 0} (sql : Engine Db) (decode : GoString → Option UserGameServer) where
  -- The lobby after calls of UpdateMThreadMsg, beside the same database.
  abbrev pub later_state : List ℤ → Main Db → Main Db
  later_state times s = record s { lobby = checked times s.lobby }

  registered :
      (now : ℤ) (gs : UserGameServer) (m m' : MThreadMsg) (s s' : Main Db) (sent : List Bool)
      → m.msg ≢ []
      → decode m.msg ≡ some gs
      → process_m_thread_msg sql decode register_gs now m s ≡ (m', (sent, s'))
      → (sent ≡ true ∷ [])
        × (m'.w_param ≡ (add_user_game_server now gs s.lobby).0)
        × (s'.lobby ≡ (add_user_game_server now gs s.lobby).1)
        × (s'.db ≡ s.db)
  unfolding process_m_thread_msg
  registered now gs m m' s s' sent text parsed e =
      let e' : register_decoded now (some gs) m s ≡ (m', (sent, s')) =
        rw (decoded decode m.msg gs text parsed) at e in
      (
        ap (λ r. r.1.0) (sym e'),
        ap (λ r. r.0.w_param) (sym e'),
        ap (λ r. r.1.1.lobby) (sym e'),
        ap (λ r. r.1.1.db) (sym e'),
      )

  told_address :
      (now : ℤ) (gs : UserGameServer) (q : MThreadMsg) (s : Main Db) (l : Lobby)
      → q.msg ≡ gs.password
      → server_of_id q.w_param s.lobby.servers ≡ some (entry now gs l)
      → tell_address (server_of_id q.w_param s.lobby.servers) q s
        ≡ (record q { l_param = gs.port; msg = gs.address }, (true ∷ [], s))
  told_address now gs q s l password found =
      rw (found, password, own_password (entry now gs l)) refl

  -- A game server whose address and port are not in the lobby registers with a message that can be
  -- decoded, in a lobby as ProcessMThreadMsg keeps it whose counter of ids is below 2 ^ 63 - 1. Then
  -- the only answer is true and the database is as it was. A request for the address with the id
  -- that comes back and the server's password, after any number of calls of UpdateMThreadMsg in the
  -- next 90 seconds, is answered with true and with the address and the port registered, and changes
  -- nothing.
  pub register_gs-get_gs_addr :
      (now later : ℤ) (gs : UserGameServer) (times : List ℤ) (m m' q : MThreadMsg) (s s' : Main Db)
      (sent : List Bool)
      → IsLobby s.lobby
      → s.lobby.seed <ℤ pos (2 ^ 63 - 1)
      → m.msg ≢ []
      → decode m.msg ≡ some gs
      → lookup (server_key gs) s.lobby.servers ≡ none
      → All (IsSoon now) times
      → process_m_thread_msg sql decode register_gs now m s ≡ (m', (sent, s'))
      → q.w_param ≡ m'.w_param
      → q.msg ≡ gs.password
      → (sent ≡ true ∷ [])
        × (s'.db ≡ s.db)
        × (process_m_thread_msg sql decode get_gs_addr later q (later_state times s')
            ≡ (record q { l_param = gs.port; msg = gs.address }, (true ∷ [], later_state times s')))
  unfolding process_m_thread_msg
  register_gs-get_gs_addr now later gs times m m' q s s' sent h room text parsed absent soon e id
        password =
      let (once, given, lobby, db) = registered now gs m m' s s' sent text parsed e in
      let found = found_later now gs times s.lobby h room absent soon in
      let there : server_of_id q.w_param (checked times s'.lobby).servers
          ≡ some (entry now gs s.lobby) =
        rw (id, given, lobby) found in
      (once, db, told_address now gs q (later_state times s') s.lobby password there)
