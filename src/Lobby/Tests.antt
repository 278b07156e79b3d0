-- ===== src/Lobby/Tests.antt =====
-- A lobby with a server that has a password, and accounts over messages, in a database in memory.
use bmservers.Prelude.{
  ◌≡◌, ◌⊎◌, refl, inr, true, false, Bool, Option, none, some, List, [], ◌∷◌, GoString, codes, arith,
  str_eq,
}
use bmservers.Prelude.Int.{pos, ◌+ℤ◌, to_int64, ◌-ℤ◌}
use bmservers.Prelude.Assoc.{lookup, insert, erase, str_key}
use bmservers.Prelude.Decimal.{digits}
use bmservers.Prelude.Regex.{matches}
use bmservers.Sql.Rows.{Snapshot, AccountRow}
use bmservers.Sql.Memory.{memory, memory-Laws}
use bmservers.Account.{
  db_user_account_exist, db_insert_user_account_info, insert_unmarked,
  db_update_user_account_password,
}
use bmservers.Account.Inserts.{IsUnique, with_accounts}
use bmservers.Account.Passwords.{with_password}
use bmservers.Lobby.{
  UserGameServer, Lobby, server_key, add_user_game_server, check_offline_user_game_server,
  MThreadMsg, Main, get_gs_list, get_gs_addr, register_gs, ls_register_account, ls_modify_password,
  lobby_user,
}
use bmservers.Lobby.Messages.{process_m_thread_msg}
use bmservers.Lobby.Servers.{IsLobby}
use bmservers.Lobby.Steps.{lobby_after, process_m_thread_msg-IsLobby}
use bmservers.Lobby.Hidden.{IsTold, get_gs_list-same, get_gs_addr-accepts}
use bmservers.Lobby.Offline.{
  live, checked, check_offline_user_game_server-live, add_user_game_server-stays,
}
use bmservers.Lobby.Address.{later_state, register_gs-get_gs_addr}
use bmservers.Lobby.Accounts.{
  IsRegistered, IsCredentials, ls_register_account-IsUnique, ls_modify_password-cases,
}

abbrev server : UserGameServer
server = record {
  id = pos 1;
  address = codes "1.2.3.4";
  port = pos 7000;
  note = codes "fun";
  online = pos 3;
  password = codes "pw";
  version = codes "1.0";
  last_live_time = pos 1000;
}

abbrev lobby : Lobby
lobby = record { servers = (codes "1.2.3.4:7000", server) ∷ []; seed = pos 1; list_enabled = true }

lobby-IsLobby : IsLobby lobby
unfolding digits str_eq
lobby-IsLobby = record {
  servers = record {
    entries = ((refl, (omega arith, omega arith)), tt);
    one_key = (refl, tt);
    one_id = (refl, tt);
  };
  positive = omega arith;
}

abbrev no_accounts : Snapshot
no_accounts = record {
  accounts = [];
  donates = [];
  histories = [];
  consumes = [];
  gifts = [];
  ranks = [];
  admins = [];
  requests = [];
  onlines = [];
  web_users = [];
}

abbrev main : Main Snapshot
main = record { lobby = lobby; db = no_accounts }

abbrev message : GoString → MThreadMsg
message text = record { w_param = pos 1; l_param = pos 0; msg = text; data_list = none }

-- Every text describes the same new server.
abbrev decode : GoString → Option UserGameServer
decode text = some (record server { port = pos 7001 })

process_m_thread_msg-IsLobby_example : IsLobby (
    lobby_after
      (process_m_thread_msg memory decode register_gs (pos 1010) (message (codes "{}")) main))
process_m_thread_msg-IsLobby_example =
    process_m_thread_msg-IsLobby memory decode register_gs (pos 1010) (message (codes "{}")) main
      lobby-IsLobby (omega arith)

-- The same lobby with another password and port.
abbrev other_main : Main Snapshot
other_main = record main {
  lobby = record lobby {
    servers = (codes "1.2.3.4:7000", record server { password = codes "other"; port = pos 9 }) ∷ [];
  };
}

get_gs_list-same_example :
    (process_m_thread_msg memory decode get_gs_list (pos 1010) (message []) main).0
    ≡ (process_m_thread_msg memory decode get_gs_list (pos 1010) (message []) other_main).0
get_gs_list-same_example =
    get_gs_list-same memory decode (pos 1010) (message []) main other_main
      (inr ((λ e. cc), (λ e. cc), refl), tt)

abbrev told_message : MThreadMsg
told_message = record (message (codes "1.2.3.4")) { l_param = pos 7000 }

tells :
    process_m_thread_msg memory decode get_gs_addr (pos 1010) (message (codes "pw")) main
    ≡ (told_message, (true ∷ [], main))
unfolding process_m_thread_msg str_eq
tells = refl

get_gs_addr-accepts_example :
    (main ≡ main)
    × (((true ∷ []) ≡ false ∷ [])
        ⊎ IsTold (message (codes "pw")) told_message lobby.servers (true ∷ []))
get_gs_addr-accepts_example =
    get_gs_addr-accepts memory decode (pos 1010) (message (codes "pw")) told_message main main
      (true ∷ []) tells

check_offline_user_game_server-live_example :
    check_offline_user_game_server (pos 2000) lobby
    ≡ record lobby { servers = live (pos 2000) lobby.servers }
check_offline_user_game_server-live_example =
    check_offline_user_game_server-live (pos 2000) lobby lobby-IsLobby

goes_offline : check_offline_user_game_server (pos 1091) lobby ≡ record lobby { servers = [] }
unfolding check_offline_user_game_server str_eq ◌-ℤ◌ to_int64 erase
goes_offline = refl

add_user_game_server-stays_example :
    (ug : UserGameServer) × (lookup
        (server_key server)
        (checked
          (pos 1030 ∷ pos 1090 ∷ [])
          (add_user_game_server (pos 1000) server lobby).1).servers
      ≡ some ug)
    × (ug.id ≡ (add_user_game_server (pos 1000) server lobby).0)
unfolding ◌+ℤ◌
add_user_game_server-stays_example =
    add_user_game_server-stays (pos 1000) server lobby (pos 1030 ∷ pos 1090 ∷ []) lobby-IsLobby
      (omega arith) ((omega arith, omega arith), ((omega arith, omega arith), tt))

abbrev with_hero : Snapshot
with_hero = record no_accounts {
  accounts = (record (lobby_user (codes "hero") (codes "pass")) { uid = 1 }) ∷ [];
}

registers :
    process_m_thread_msg memory decode ls_register_account
      (pos 1010)
      (message (codes "hero pass"))
      main
    ≡ (message (codes "hero pass"), (true ∷ [], record main { db = with_hero }))
unfolding process_m_thread_msg str_eq matches db_user_account_exist db_insert_user_account_info
    insert_unmarked
registers = refl

ls_register_account-IsUnique_example :
    (◌≡◌ {A = List Bool} [] [])
    × (lobby ≡ lobby)
    × IsUnique with_hero
    × (account : GoString) × (password : GoString) × IsCredentials
        (codes "hero pass")
        account
        password
    × (rows : List AccountRow) × IsRegistered memory-Laws decode account password no_accounts rows
    × (with_hero ≡ with_accounts rows no_accounts)
ls_register_account-IsUnique_example =
    ls_register_account-IsUnique memory-Laws decode (pos 1010) (message (codes "hero pass"))
      (message (codes "hero pass")) main (record main { db = with_hero }) [] no_accounts-IsUnique
      registers
  where
    no_accounts-IsUnique : IsUnique no_accounts
    no_accounts-IsUnique = record {
      named = record { one_uid = λ uid. omega arith; one_name = λ name long. omega arith };
      one_account = λ account. omega arith;
    }

abbrev hero_main : Main Snapshot
hero_main = record main { db = with_hero }

abbrev changed_main : Main Snapshot
changed_main = record main {
  db = record no_accounts {
    accounts = with_password (codes "hero") (codes "new") with_hero.accounts;
  };
}

changes :
    process_m_thread_msg memory decode ls_modify_password
      (pos 1010)
      (message (codes "hero new"))
      hero_main
    ≡ (message (codes "hero new"), (true ∷ [], changed_main))
unfolding process_m_thread_msg str_eq matches db_update_user_account_password
changes = refl

ls_modify_password-cases_example :
    (((true ∷ []) ≡ false ∷ []) × (changed_main ≡ hero_main))
    ⊎ ((((true ∷ []) ≡ true ∷ [])
          × (lobby ≡ lobby)
          × (account : GoString) × (password : GoString) × IsCredentials
              (codes "hero new")
              account
              password
          × (changed_main.db
              ≡ record with_hero { accounts = with_password account password with_hero.accounts }))
        ⊎ (((true ∷ []) ≡ false ∷ true ∷ []) × (changed_main ≡ hero_main)))
ls_modify_password-cases_example =
    ls_modify_password-cases memory-Laws decode (pos 1010) (message (codes "hero new"))
      (message (codes "hero new")) hero_main changed_main (true ∷ []) changes

abbrev newcomer : UserGameServer
newcomer = record server { port = pos 7001; last_live_time = pos 1010; id = pos 2 }

abbrev joined : Main Snapshot
joined = record main {
  lobby = record lobby {
    servers = (codes "1.2.3.4:7000", server) ∷ (codes "1.2.3.4:7001", newcomer) ∷ [];
    seed = pos 2;
  };
}

joins :
    process_m_thread_msg memory decode register_gs (pos 1010) (message (codes "{}")) main
    ≡ (record (message (codes "{}")) { w_param = pos 2 }, (true ∷ [], joined))
unfolding process_m_thread_msg add_user_game_server lookup insert str_eq digits to_int64 ◌+ℤ◌
joins = refl

new_port : lookup (codes "1.2.3.4:7001") lobby.servers ≡ none
unfolding lookup str_eq
new_port = refl

-- A request for the address of the second server, with its password.
abbrev question : MThreadMsg
question = record (message (codes "pw")) { w_param = pos 2 }

register_gs-get_gs_addr_example :
    (◌≡◌ {A = List Bool} (true ∷ []) (true ∷ []))
    × (joined.db ≡ main.db)
    × (process_m_thread_msg memory decode get_gs_addr
          (pos 1095)
          question
          (later_state memory decode (pos 1040 ∷ pos 1090 ∷ []) joined)
        ≡ (
          record question { l_param = pos 7001; msg = codes "1.2.3.4" },
          (true ∷ [], later_state memory decode (pos 1040 ∷ pos 1090 ∷ []) joined),
        ))
unfolding ◌+ℤ◌ digits
register_gs-get_gs_addr_example =
    register_gs-get_gs_addr memory decode (pos 1010) (pos 1095) (record server { port = pos 7001 })
      (pos 1040 ∷ pos 1090 ∷ []) (message (codes "{}"))
      (record (message (codes "{}")) { w_param = pos 2 }) question main joined (true ∷ [])
      lobby-IsLobby (omega arith) (λ e. cc) refl new_port
      ((omega arith, omega arith), ((omega arith, omega arith), tt)) joins refl refl
