-- ===== src/Lobby/Steps.antt =====
-- Messages and the map of servers: ProcessMThreadMsg of bmloginsvrapp/main_thread_process.go.
use bmservers.Prelude.{
  ◌≡◌, refl, sym, ◌^◌, ◌-◌, Option, none, some, List, [], ◌∷◌, arith, GoString, subst,
}
use bmservers.Prelude.Int.{ℤ, pos, ◌<ℤ◌}
use bmservers.Prelude.Split.{split}
use bmservers.Sql.Engine.{Engine}
use bmservers.Lobby.{
  UserGameServer, Lobby, MThreadEvent, register_gs, get_gs_list, get_gs_addr, remove_gs_addr,
  verify_admin, add_admin, del_admin, enable_ol_room, ls_register_account, ls_modify_password,
  other_event, MThreadMsg, Main, Answer, server_of_id,
}
use bmservers.Lobby.Messages.{
  register_decoded, tell_address, on_verify_admin, register_account, modify_password,
  with_two_parts, process_m_thread_msg,
}
use bmservers.Lobby.Servers.{IsLobby, add_user_game_server-IsLobby, remove_user_game_server-IsLobby}

-- The lobby after a message.
abbrev pub lobby_after : {Db : Type 0} → Answer Db → Lobby
lobby_after r = r.1.1.lobby

module _ {Db : Type 0} (sql : Engine Db) (decode : GoString → Option UserGameServer) where
  two_parts-lobby :
      (act : GoString → GoString → MThreadMsg → Main Db → Answer Db)
      → ((a p : GoString) (m : MThreadMsg) (s : Main Db) → lobby_after (act a p m s) ≡ s.lobby)
      → (parts : List GoString) (m : MThreadMsg) (s : Main Db)
      → lobby_after (with_two_parts sql decode act parts m s) ≡ s.lobby
  two_parts-lobby act h [] m s = refl
  two_parts-lobby act h (a ∷ []) m s = refl
  two_parts-lobby act h (a ∷ p ∷ q ∷ rest) m s = refl
  two_parts-lobby act h (a ∷ p ∷ []) m s = ground (arith, h a p m s)

  register_account-lobby :
      (a p : GoString) (m : MThreadMsg) (s : Main Db)
      → lobby_after (register_account sql decode a p m s) ≡ s.lobby
  register_account-lobby a p m s = ground arith

  modify_password-lobby :
      (a p : GoString) (m : MThreadMsg) (s : Main Db)
      → lobby_after (modify_password sql decode a p m s) ≡ s.lobby
  modify_password-lobby a p m s = ground arith

  verify-lobby :
      (parts : List GoString) (m : MThreadMsg) (s : Main Db)
      → lobby_after (on_verify_admin sql decode parts m s) ≡ s.lobby
  verify-lobby [] m s = refl
  verify-lobby (a ∷ []) m s = refl
  verify-lobby (a ∷ p ∷ q ∷ rest) m s = refl
  verify-lobby (a ∷ p ∷ []) m s = refl

  address-lobby :
      (o : Option UserGameServer) (m : MThreadMsg) (s : Main Db)
      → lobby_after (tell_address o m s) ≡ s.lobby
  address-lobby none m s = refl
  address-lobby (some ug) m s = ground arith

  register-IsLobby :
      (now : ℤ) (o : Option UserGameServer) (m : MThreadMsg) (s : Main Db)
      → IsLobby s.lobby
      → s.lobby.seed <ℤ pos (2 ^ 63 - 1)
      → IsLobby (lobby_after (register_decoded now o m s))
  register-IsLobby now none m s h room = h
  register-IsLobby now (some ug) m s h room = add_user_game_server-IsLobby now ug s.lobby h room

  -- In a lobby in which every server stands under its address and port, the ids are those given out,
  -- and no two servers have the same id or the same address and port, that is still so after any
  -- message, unless the counter of ids is at its end.
  pub process_m_thread_msg-IsLobby :
      (event : MThreadEvent) (now : ℤ) (m : MThreadMsg) (s : Main Db)
      → IsLobby s.lobby
      → s.lobby.seed <ℤ pos (2 ^ 63 - 1)
      → IsLobby (lobby_after (process_m_thread_msg sql decode event now m s))
  unfolding process_m_thread_msg
  process_m_thread_msg-IsLobby register_gs now m s h room =
      register-IsLobby now (elim m.msg [ [] ↦ none | c ∷ rest ↦ decode m.msg ]) m s h room
  process_m_thread_msg-IsLobby get_gs_list now m s h room = h
  process_m_thread_msg-IsLobby get_gs_addr now m s h room =
      rw (address-lobby (server_of_id m.w_param s.lobby.servers) m s) h
  process_m_thread_msg-IsLobby remove_gs_addr now m s h room =
      remove_user_game_server-IsLobby m.w_param s.lobby h
  process_m_thread_msg-IsLobby verify_admin now m s h room =
      subst IsLobby (sym (verify-lobby (split 32 m.msg) m s)) h
  process_m_thread_msg-IsLobby add_admin now m s h room = h
  process_m_thread_msg-IsLobby del_admin now m s h room = h
  process_m_thread_msg-IsLobby enable_ol_room now m s h room = record {
    servers = h.servers;
    positive = h.positive;
  }
  process_m_thread_msg-IsLobby ls_register_account now m s h room =
      subst IsLobby
        (sym (
          two_parts-lobby (register_account sql decode) register_account-lobby (split 32 m.msg) m
            s))
        h
  process_m_thread_msg-IsLobby ls_modify_password now m s h room =
      subst IsLobby
        (sym
          (two_parts-lobby (modify_password sql decode) modify_password-lobby (split 32 m.msg) m s))
        h
  process_m_thread_msg-IsLobby other_event now m s h room = h
