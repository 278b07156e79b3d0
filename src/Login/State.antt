-- ===== src/Login/State.antt =====
-- The global variables of handle_eventfromclient.go, handle_eventfromserver.go and player_rank.go,
-- the messages of protocol/loginsvr.proto that the handlers send, and the external parts.
-- A Go pointer to a node is a number; the nodes stand in a heap, since the maps, the lists and the
-- connections share them. A connection is a number too.
use bmservers.Prelude.{ℕ, Bool, Option, List, GoString}
use bmservers.Prelude.Int.{ℤ}
use bmservers.Ranks.{RankCache}

pub record ClientNode : Type 0 where
  pub client_conn_id : ℤ
  pub gs_server_id : ℤ
  pub gs_conn_id : ℤ
  pub conn_code : ℤ
  pub access_token : GoString
  pub uid : ℕ
  pub conn : ℕ

pub record ServerNode : Type 0 where
  pub server_conn_id : ℤ
  pub server_id : ℤ
  pub server_name : GoString
  pub expose_address : GoString
  pub conn : ℕ

pub record ServerItem : Type 0 where
  pub address : GoString
  pub name : GoString
  pub id : ℤ

-- MPlayerLoginHumDataNtf; `data` is absent for a new role.
pub record HumData : Type 0 where
  pub gid : ℤ
  pub conn_id : ℤ
  pub lid : ℤ
  pub uid : ℕ
  pub name : GoString
  pub sex : ℕ
  pub job : ℕ
  pub level : ℕ
  pub role_data : Option GoString
  pub json_data : Option GoString

pub record ExtHumData : Type 0 where
  pub gid : ℤ
  pub conn_id : ℤ
  pub uid : ℕ
  pub ext_index : ℕ
  pub role_data : Option GoString

pub data Message : Type 0 where
  ls_access_ntf : GoString → ℤ → Message
  verify_account_rsp : ℤ → Message
  quick_message_ntf : ℤ → ℤ → Message
  server_list_ntf : List ServerItem → Message
  player_hum_base_data_ntf : List (ℕ × GoString) → Message
  create_hum_rsp : GoString → ℤ → ℤ → ℤ → Message
  del_hum_rsp : GoString → Message
  player_login_hum_data_ntf : HumData → Message
  player_login_ext_hum_data_ntf : ExtHumData → Message
  proto_type_ntf : Message
  sync_player_rank_ntf : GoString → Message

-- What a handler does to a connection.
pub data Output : Type 0 where
  send : ℕ → Message → Output
  close : ℕ → Output
  free : ℕ → Output
  set_conn_id : ℕ → ℤ → Output

-- Who is connected: the maps and seeds, the heaps, and the connections' user data.
pub record Peers : Type 0 where
  pub client_heap : List (ℕ × ClientNode)
  pub client_next : ℕ
  pub client_node_map : List (ℤ × ℕ)
  pub client_user_map : List (ℕ × List ℕ)
  pub client_node_seed : ℤ
  pub client_data : List (ℕ × ℕ)
  pub server_heap : List (ℕ × ServerNode)
  pub server_next : ℕ
  pub server_node_map : List (ℤ × ℕ)
  pub server_node_seed : ℤ
  pub server_data : List (ℕ × ℕ)

-- The state: the peers, the rank cache, the database, the save files, and what was done to
-- connections, in order.
pub record Login (Db Files : Type 0) : Type 0 where
  pub peers : Peers
  pub open peers use *
  pub rank_cache : RankCache
  pub db : Db
  pub files : Files
  pub outputs : List Output

-- The procedures of BMHumSaveControl.dll and the directory of a user's save file. A handle is a
-- `uintptr`, 0 if the file cannot be opened; a result is the procedure's return value.
pub record Saves (Files : Type 0) : Type 0 where
  pub mkdir_all : ℕ → Files → Bool × Files
  pub create_hum_save : ℕ → Files → Files
  pub open_hum_save : ℕ → Files → ℕ × Files
  pub close_hum_save : ℕ → Files → Files
  pub add_game_role : ℕ → GoString → ℤ → ℤ → Files → ℕ × Files
  pub del_game_role : ℕ → GoString → Files → ℕ × Files
  pub read_game_role_size : ℕ → GoString → Files → ℕ
  pub get_game_role_index : ℕ → GoString → Files → ℕ
  -- the job, the sex and the level of a role
  pub get_game_role_info : ℕ → ℕ → Files → ℕ × ℕ × ℕ
  pub read_game_role_data : ℕ → GoString → ℕ → Files → ℕ × GoString
  pub read_extend_data_size : ℕ → GoString → ℕ → Files → ℕ
  pub read_extend_data : ℕ → GoString → ℕ → ℕ → Files → ℕ × GoString
  -- the length that is returned, and the buffer of 100 bytes
  pub read_game_role_head_info : ℕ → ℕ → Files → ℕ × GoString
  pub update_game_role_info : ℕ → GoString → ℤ → Files → ℕ × Files
  pub write_game_role_data : ℕ → GoString → GoString → Files → ℕ × Files
  pub write_extend_data : ℕ → GoString → ℤ → GoString → Files → ℕ × Files

pub record VerifyAccountReq : Type 0 where
  pub account : GoString
  pub password : GoString

pub record CreateHumReq : Type 0 where
  pub name : GoString
  pub job : ℤ
  pub sex : ℤ

pub record RegisterServerReq : Type 0 where
  pub server_id : ℤ
  pub server_name : GoString
  pub expose_address : GoString

pub record UserInternalVerifyReq : Type 0 where
  pub gid : ℤ
  pub lid : ℤ
  pub access_token : GoString
  pub conn_code : ℤ

pub record UpdatePlayerRankReq : Type 0 where
  pub uid : ℕ
  pub job : ℤ
  pub level : ℤ
  pub name : GoString
  pub power : ℤ
  pub server_id : ℤ

pub record SavePlayerDataReq : Type 0 where
  pub uid : ℕ
  pub name : GoString
  pub level : ℤ
  pub role_data : GoString

pub record SavePlayerExtDataReq : Type 0 where
  pub uid : ℕ
  pub name : GoString
  pub ext_index : ℤ
  pub role_data : GoString

pub record PlayerDisconnectedNtf : Type 0 where
  pub uid : ℤ
  pub lid : ℤ

-- `proto.Unmarshal` into each message; `none` is its error.
pub record Proto : Type 0 where
  pub verify_account_req : GoString → Option VerifyAccountReq
  pub create_hum_req : GoString → Option CreateHumReq
  pub del_hum_req : GoString → Option GoString
  pub login_game_req : GoString → Option GoString
  pub register_server_req : GoString → Option RegisterServerReq
  pub user_internal_verify_req : GoString → Option UserInternalVerifyReq
  pub update_player_rank_req : GoString → Option UpdatePlayerRankReq
  pub save_player_data_req : GoString → Option SavePlayerDataReq
  pub save_player_ext_data_req : GoString → Option SavePlayerExtDataReq
  pub player_disconnected_ntf : GoString → Option PlayerDisconnectedNtf
