-- ===== src/Lobby/Messages.antt =====
-- ProcessMThreadMsg of bmloginsvrapp/main_thread_process.go, a function for each event. What the
-- code sends on a channel that is nil is not modelled: the first four events do not send then, and
-- the other events always come with a channel.
use bmservers.Prelude.{
  Bool, true, false, not, Option, none, some, List, [], ◌∷◌, if◌then◌else◌, GoString, codes,
}
use bmservers.Prelude.Int.{ℤ, pos}
use bmservers.Prelude.Assoc.{int_eq}
use bmservers.Prelude.Split.{split}
use bmservers.Sql.Engine.{Engine}
use bmservers.Account.{
  db_user_account_exist, db_insert_user_account_info, db_update_user_account_password,
}
use bmservers.Admins.{db_admin_account_verify, db_insert_admin_account, db_remove_admin_account}
use bmservers.Lobby.{
  UserGameServer, add_user_game_server, remove_user_game_server, exposed_list, server_of_id,
  accepts, MThreadEvent, register_gs, get_gs_list, get_gs_addr, remove_gs_addr, verify_admin,
  add_admin, del_admin, enable_ol_room, ls_register_account, ls_modify_password, other_event,
  MThreadMsg, Main, Answer, both_match, one_is_long, lobby_user,
}

abbrev pub answer : {Db : Type 0} → MThreadMsg → Bool → Main Db → Answer Db
answer m b s = (m, (b ∷ [], s))

-- The server that a message describes is added to the lobby.
abbrev pub register_decoded :
    {Db : Type 0} → ℤ → Option UserGameServer → MThreadMsg → Main Db → Answer Db
register_decoded now none m s = answer m false s
register_decoded now (some ugs) m s =
    let (id, lobby) = add_user_game_server now ugs s.lobby in
    answer (record m { w_param = id }) true (record s { lobby = lobby })

-- The address of a server goes out if the password is accepted.
abbrev pub tell_address : {Db : Type 0} → Option UserGameServer → MThreadMsg → Main Db → Answer Db
tell_address none m s = answer m false s
tell_address (some ug) m s =
    if accepts ug m.msg
    then answer (record m { l_param = ug.port; msg = ug.address }) true s
    else answer m false s

module _ {Db : Type 0} (sql : Engine Db) (decode : GoString → Option UserGameServer) where
  abbrev pub on_verify_admin : List GoString → MThreadMsg → Main Db → Answer Db
  on_verify_admin (account ∷ password ∷ []) m s =
      let (ok, level) = db_admin_account_verify sql account password s.db in
      answer (record m { w_param = level }) ok s
  on_verify_admin _ m s = answer m false s

  -- The tail of the registration, with an account and a password that pass the tests.
  abbrev pub register_account : GoString → GoString → MThreadMsg → Main Db → Answer Db
  register_account account password m s =
      if db_user_account_exist sql account s.db
      then answer (record m { msg = codes "Account already exists" }) false s
      else let (ok, db) = db_insert_user_account_info sql (lobby_user account password ∷ []) s.db in
        if ok
        then answer m true (record s { db = db })
        else answer (record m { msg = codes "Register account failed" }) false
            (record s { db = db })

  -- The tail of the change of a password: a failed update sends twice.
  abbrev pub modify_password : GoString → GoString → MThreadMsg → Main Db → Answer Db
  modify_password account password m s =
      let (ok, db) = db_update_user_account_password sql account password s.db in
      if ok then (m, (true ∷ [], record s { db = db })) else (
        record m { msg = codes "Modify password error" },
        (false ∷ true ∷ [], record s { db = db }),
      )

  -- The tests that both events make on the two parts of their message.
  abbrev pub with_two_parts :
      (GoString → GoString → MThreadMsg → Main Db → Answer Db)
      → List GoString
      → MThreadMsg
      → Main Db
      → Answer Db
  with_two_parts act (account ∷ password ∷ []) m s =
      if not (both_match account password)
      then answer m false s
      else if one_is_long account password
      then answer (record m { msg = codes "Account or password format error" }) false s
      else act account password m s
  with_two_parts act _ m s = answer m false s

  -- `now` is the reading of the clock. A schedule's activation does nothing but log.
  unfoldable pub process_m_thread_msg : MThreadEvent → ℤ → MThreadMsg → Main Db → Answer Db
  process_m_thread_msg register_gs now m s =
      register_decoded now (elim m.msg [ [] ↦ none | c ∷ rest ↦ decode m.msg ]) m s
  process_m_thread_msg get_gs_list now m s =
      answer (record m { data_list = some (exposed_list s.lobby.servers) }) true s
  process_m_thread_msg get_gs_addr now m s =
      tell_address (server_of_id m.w_param s.lobby.servers) m s
  process_m_thread_msg remove_gs_addr now m s =
      answer m true (record s { lobby = remove_user_game_server m.w_param s.lobby })
  process_m_thread_msg verify_admin now m s = on_verify_admin (split 32 m.msg) m s
  process_m_thread_msg add_admin now m s =
      let (ok, db) = db_insert_admin_account sql m.msg m.w_param s.db in
      answer m ok (record s { db = db })
  process_m_thread_msg del_admin now m s =
      let (ok, db) = db_remove_admin_account sql m.msg s.db in answer m ok (record s { db = db })
  process_m_thread_msg enable_ol_room now m s =
      answer m true
        (record s { lobby = record s.lobby { list_enabled = not (int_eq m.w_param (pos 0)) } })
  process_m_thread_msg ls_register_account now m s =
      with_two_parts register_account (split 32 m.msg) m s
  process_m_thread_msg ls_modify_password now m s =
      with_two_parts modify_password (split 32 m.msg) m s
  process_m_thread_msg other_event now m s = (m, ([], s))
