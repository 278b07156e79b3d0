-- ===== src/Login/Tests.antt =====
-- A client connects and verifies its account, and a game server registers and asks for the client.
use bmservers.Prelude.{
  Gives, ◌≡◌, ◌≢◌, ◌⊎◌, refl, subst, true, ◌==◌, if◌then◌else◌, Option, none, some, List, [], ◌∷◌,
  arith, GoString, codes, keep, str_eq,
}
use bmservers.Prelude.Int.{pos}
use bmservers.Prelude.Assoc.{lookup}
use bmservers.Sql.Rows.{Snapshot, AccountRow}
use bmservers.Sql.Engine.{Engine}
use bmservers.Sql.Memory.{memory, memory-Laws}
use bmservers.Sql.Laws.{IsPlain}
use bmservers.Account.{db_get_user_account_info}
use bmservers.Login.State.{
  Message, ClientNode, ServerNode, Login, Saves, Proto, VerifyAccountReq, RegisterServerReq,
  UserInternalVerifyReq,
}
use bmservers.Online.{db_remove_online_player_by_server_id}
use bmservers.Login.Departure.{IsGone, on_event_from_server_disconnected-IsGone}
use bmservers.Login.HandOver.{IsLogin, on_login_game-IsLogin}
use bmservers.Login.Roles.{sends}
use bmservers.Login.LoginGame.{on_login_game, LoginExtendInfo}
use bmservers.Login.Clients.{ClientEvent, on_event_from_client_connected, process_event_from_client}
use bmservers.Login.Servers.{
  server_of, on_event_from_server_disconnected, ServerEvent, on_event_from_server_connected,
  process_event_from_server,
}
use bmservers.Login.Verify.{IsVerified, uid_at, process_event_from_client-IsVerified}
use bmservers.Login.Tie.{IsTied, gs_at, process_event_from_server-IsTied}
use bmservers.Login.ServerMap.{HasServerMap, process_event_from_server-HasServerMap}
use bmservers.Login.ClientMap.{HasClientMap}
use bmservers.Login.ClientMap.Kept.{HasUids, process_event_from_client-HasClientMap}
use bmservers.Login.ClientMap.FromServers.{process_event_from_server-HasClientMap}
use bmservers.Login.Runs.{from_client, from_server, process_event, Runs, done, next, Runs-HasMaps}

abbrev credentials : VerifyAccountReq
credentials = record { account = codes "anna"; password = codes "secret" }

abbrev registration : RegisterServerReq
registration = record {
  server_id = pos 1;
  server_name = codes "east";
  expose_address = codes "10.0.0.1:7000";
}

abbrev wanted : UserInternalVerifyReq
wanted = record { gid = pos 3; lid = pos 1; access_token = codes "t0"; conn_code = pos 8 }

-- Every body is that of the messages above.
abbrev proto : Proto
proto = record {
  verify_account_req = λ body. some credentials;
  create_hum_req = λ body. none;
  del_hum_req = λ body. none;
  login_game_req = λ body. none;
  register_server_req = λ body. some registration;
  user_internal_verify_req = λ body. some wanted;
  update_player_rank_req = λ body. none;
  save_player_data_req = λ body. none;
  save_player_ext_data_req = λ body. none;
  player_disconnected_ntf = λ body. none;
}

-- A save file that opens and has no role data.
abbrev saves : Saves Unit
saves = record {
  mkdir_all = λ uid f. (true, f);
  create_hum_save = λ uid f. f;
  open_hum_save = λ uid f. (1, f);
  close_hum_save = λ h f. f;
  add_game_role = λ h name job sex f. (1, f);
  del_game_role = λ h name f. (1, f);
  read_game_role_size = λ h name f. 0;
  get_game_role_index = λ h name f. 0;
  get_game_role_info = λ h i f. (0, 0, 0);
  read_game_role_data = λ h name size f. (0, []);
  read_extend_data_size = λ h name i f. 0;
  read_extend_data = λ h name i size f. (0, []);
  read_game_role_head_info = λ h i f. (0, []);
  update_game_role_info = λ h name level f. (1, f);
  write_game_role_data = λ h name bytes f. (1, f);
  write_extend_data = λ h name i bytes f. (1, f);
}

abbrev json : LoginExtendInfo → GoString
json info = []

abbrev tables : Snapshot
tables = record {
  accounts =
      (record {
        uid = 5;
        account = codes "anna";
        password = codes "secret";
        name0 = [];
        name1 = [];
        name2 = [];
        online = 0;
        mail = [];
      })
      ∷ [];
  donates = [];
  histories = [];
  consumes = [];
  gifts = [];
  ranks = [];
  admins = [];
  requests = [];
  onlines = [];
  web_users = [];
}

abbrev idle : Login Snapshot Unit
idle = record {
  peers = record {
    client_heap = [];
    client_next = 0;
    client_node_map = [];
    client_user_map = [];
    client_node_seed = pos 1;
    client_data = [];
    server_heap = [];
    server_next = 0;
    server_node_map = [];
    server_node_seed = pos 1;
    server_data = [];
  };
  rank_cache = record { list = []; time = pos 0 };
  db = tables;
  files = tt;
  outputs = [];
}

abbrev token : GoString
token = codes "t0"

abbrev client_there : Login Snapshot Unit
client_there = on_event_from_client_connected 4 token idle

abbrev both_there : Login Snapshot Unit
both_there = on_event_from_server_connected 9 client_there

abbrev if_uid : AccountRow → Option AccountRow → Option AccountRow
if_uid r other = if r.uid == 0 then other else some r

abbrev first_row : List AccountRow → Option AccountRow
first_row [] = none
first_row (r ∷ rows) = if_uid r (first_row rows)

-- An engine that gives out no account with the uid 0.
abbrev numbered : Engine Snapshot
numbered = record memory {
  accounts = record memory.accounts { first = λ c s. some (first_row (keep c.holds s.accounts)) };
}

first_row-uid : (rows : List AccountRow) (r : AccountRow) → first_row rows ≡ some r → r.uid ≢ 0
first_row-uid [] r e = cc
first_row-uid (x ∷ rows) r e = ground (arith, first_row-uid rows r)

numbered-HasUids : (db : Snapshot) → HasUids numbered db
unfolding db_get_user_account_info
numbered-HasUids db account row e =
    first_row-uid (keep (λ r. str_eq r.account account) db.accounts) row (ground arith)

idle-HasServerMap : HasServerMap idle.peers
unfolding lookup
idle-HasServerMap = record { entry = λ id p e. cc; below = λ p sn e. cc }

idle-HasClientMap : HasClientMap idle.peers
unfolding lookup
idle-HasClientMap = record {
  in_lists = λ uid p. ground arith;
  data_node = λ conn p e. cc;
  below = λ p cn e. cc;
}

run : Runs numbered saves proto json idle both_there
unfolding process_event process_event_from_client process_event_from_server lookup
run =
    next (from_client (ClientEvent.connected 4 token)) refl refl
      (next (from_server (ServerEvent.connected 9)) tt refl done)

Runs-HasMaps_example : HasServerMap both_there.peers × HasClientMap both_there.peers
Runs-HasMaps_example =
    Runs-HasMaps numbered saves proto json run numbered-HasUids
      (idle-HasServerMap, idle-HasClientMap)

there : HasServerMap both_there.peers × HasClientMap both_there.peers
there =
    Runs-HasMaps numbered saves proto json run numbered-HasUids
      (idle-HasServerMap, idle-HasClientMap)

-- The packets with the operation codes 11101, 11000 and 11002.
abbrev verify_packet : GoString
verify_packet = 93 ∷ 43 ∷ 0 ∷ 0 ∷ []

abbrev register_packet : GoString
register_packet = 248 ∷ 42 ∷ 0 ∷ 0 ∷ []

abbrev wanted_packet : GoString
wanted_packet = 250 ∷ 42 ∷ 0 ∷ 0 ∷ []

abbrev verifies : ClientEvent
verifies = ClientEvent.received 4 verify_packet

abbrev registers : ServerEvent
registers = ServerEvent.received 9 register_packet (pos 100) (pos 101) none

abbrev asks : ServerEvent
asks = ServerEvent.received 9 wanted_packet (pos 100) (pos 101) none

unquoted :
    (body : GoString) (pb : VerifyAccountReq)
    → proto.verify_account_req body ≡ some pb
    → IsPlain pb.account
unquoted body pb e = subst (Gives (λ r. IsPlain r.account)) e refl

process_event_from_client-IsVerified_example :
    Gives
      (λ t.
        (uid_at 0 t.peers ≡ uid_at 0 both_there.peers)
        ⊎ (uid_at 0 t.peers ≡ 0)
        ⊎ IsVerified proto both_there.db.accounts verifies (uid_at 0 t.peers))
      (process_event_from_client memory saves proto json verifies both_there)
process_event_from_client-IsVerified_example =
    process_event_from_client-IsVerified saves proto json memory-Laws unquoted verifies both_there 0

process_event_from_client-HasClientMap_example :
    Gives
      (λ t. HasClientMap t.peers)
      (process_event_from_client numbered saves proto json verifies both_there)
process_event_from_client-HasClientMap_example =
    process_event_from_client-HasClientMap numbered saves proto json verifies both_there tt
      (numbered-HasUids both_there.db) there.1

process_event_from_server-HasServerMap_example :
    Gives
      (λ t. HasServerMap t.peers)
      (process_event_from_server numbered saves proto registers both_there)
process_event_from_server-HasServerMap_example =
    process_event_from_server-HasServerMap numbered saves proto registers both_there there.0

process_event_from_server-HasClientMap_example :
    Gives
      (λ t. HasClientMap t.peers)
      (process_event_from_server numbered saves proto asks both_there)
process_event_from_server-HasClientMap_example =
    process_event_from_server-HasClientMap numbered saves proto asks both_there there.1

process_event_from_server-IsTied_example :
    Gives
      (λ t.
        (gs_at 0 t.peers ≡ gs_at 0 both_there.peers)
        ⊎ IsTied memory saves proto both_there t asks 0)
      (process_event_from_server memory saves proto asks both_there)
process_event_from_server-IsTied_example =
    process_event_from_server-IsTied memory saves proto asks both_there 0

abbrev east : ServerNode
east = record {
  server_conn_id = pos 1;
  server_id = pos 1;
  server_name = codes "east";
  expose_address = codes "10.0.0.1:7000";
  conn = 9;
}

-- The server is registered, and two players are online, one of them on it.
abbrev serving : Login Snapshot Unit
serving = record idle {
  peers = record idle.peers {
    server_heap = (0, east) ∷ [];
    server_next = 1;
    server_data = (9, 0) ∷ [];
    server_node_map = (pos 1, 0) ∷ [];
  };
  db = record tables {
    onlines =
        (record { uid = 5; server_id = pos 1; lid = pos 1 })
        ∷ (record { uid = 6; server_id = pos 2; lid = pos 2 })
        ∷ [];
  };
}

is_registered : server_of 9 serving ≡ some (0, east)
unfolding lookup
is_registered = refl

deletes : (db_remove_online_player_by_server_id memory (pos 1) serving.db).0 ≡ true
unfolding db_remove_online_player_by_server_id
deletes = refl

on_event_from_server_disconnected-IsGone_example :
    IsGone
      (λ db. db)
      9
      (pos 1)
      serving
      (on_event_from_server_disconnected memory saves proto 9 serving)
on_event_from_server_disconnected-IsGone_example =
    on_event_from_server_disconnected-IsGone saves proto memory-Laws 9 0 east serving is_registered
      (λ e. cc) deletes

abbrev tied_client : ClientNode
tied_client = record {
  client_conn_id = pos 1;
  gs_server_id = pos 1;
  gs_conn_id = pos 3;
  conn_code = pos 8;
  access_token = token;
  uid = 5;
  conn = 4;
}

on_login_game-IsLogin_example :
    Gives
      (λ t.
        ((m : Message) × (t ≡ sends 4 m serving)) ⊎ IsLogin memory saves json tied_client serving t)
      (on_login_game memory saves json 4 tied_client (codes "hero") serving)
on_login_game-IsLogin_example =
    on_login_game-IsLogin memory saves json 4 tied_client (codes "hero") serving
