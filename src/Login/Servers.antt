-- ===== src/Login/Servers.antt =====
-- The events of game servers: processEventFromServer and the handlers that it calls, of
-- bmloginsvrapp/handle_eventfromserver.go. `none` is a panic, which ends the main loop.
use bmservers.Prelude.{
  ℕ, suc, Option, none, some, List, [], map, ◌==◌, if◌then◌else◌, GoString, str_eq,
}
use bmservers.Prelude.Int.{ℤ, pos, ◌+ℤ◌, to_int64, to_uint32}
use bmservers.Prelude.Assoc.{int_eq, int_key, nat_key, lookup, insert, erase}
use bmservers.Sql.Engine.{Engine}
use bmservers.Online.{db_remove_online_player_by_server_id, db_remove_online_player_by_uid}
use bmservers.Ranks.{db_update_user_rank_info_v2, get_player_rank_list}
use bmservers.Login.State.{
  ClientNode, ServerNode, Login, Saves, Proto, RegisterServerReq, UserInternalVerifyReq,
  UpdatePlayerRankReq, proto_type_ntf, sync_player_rank_ntf, close, free, set_conn_id,
}
use bmservers.Login.Roles.{
  sends, emits, sync_player_hum_base_data, save_player_data, save_player_ext_data,
}
use bmservers.Login.Clients.{opcode_and_body, server_items}

abbrev pub op_old_register : ℕ
op_old_register = 10001

abbrev pub op_register_server_req : ℕ
op_register_server_req = 11000

abbrev pub op_save_player_data_req : ℕ
op_save_player_data_req = 11001

abbrev pub op_user_internal_verify_req : ℕ
op_user_internal_verify_req = 11002

abbrev pub op_update_player_rank_req : ℕ
op_update_player_rank_req = 11003

abbrev pub op_save_player_ext_data_req : ℕ
op_save_player_ext_data_req = 11006

abbrev pub op_player_disconnected_ntf : ℕ
op_player_disconnected_ntf = 11012

pub data ServerEvent : Type 0 where
  connected : ℕ → ServerEvent
  disconnected : ℕ → ServerEvent
  -- a packet, the two readings of the clock that the rank list makes, and a fresh rank list
  received : ℕ → GoString → ℤ → ℤ → Option GoString → ServerEvent

module _ {Db Files : Type 0} where
  unfoldable pub on_event_from_server_connected : ℕ → Login Db Files → Login Db Files
  on_event_from_server_connected conn s =
      let sn : ServerNode = record {
        server_conn_id = s.server_node_seed;
        server_id = pos 0;
        server_name = [];
        expose_address = [];
        conn = conn;
      } in
      let t = emits (set_conn_id conn s.server_node_seed) s in
      record t {
        peers = record s.peers {
          server_node_seed = to_int64 (s.server_node_seed +ℤ pos 1);
          server_heap = insert s.server_next sn s.server_heap;
          server_next = suc s.server_next;
          server_data = insert conn s.server_next s.server_data;
        };
      }

  abbrev pub server_of : ℕ → Login Db Files → Option (ℕ × ServerNode)
  server_of conn s = elim (lookup conn s.server_data) [
    | none ↦ none
    | some p ↦ elim (lookup p s.server_heap) [ none ↦ none | some sn ↦ some (p, sn) ]
  ]

  -- onInternalEventFetchServerList: the addresses and names of all servers.
  unfoldable pub on_internal_event_fetch_server_list : Login Db Files → List (GoString × GoString)
  on_internal_event_fetch_server_list s =
      map (λ i. (i.address, i.name)) (server_items s.server_node_map s.server_heap)

module _ {Db Files : Type 0} (sql : Engine Db) (saves : Saves Files) (proto : Proto) where
  -- `Free` is called before the user data is read; it is taken to leave the user data alone.
  unfoldable pub on_event_from_server_disconnected : ℕ → Login Db Files → Login Db Files
  on_event_from_server_disconnected conn s =
      let rest = record s.peers { server_data = erase conn s.server_data } in
      elim (server_of conn s) [
        | none ↦ emits (free conn) (record s { peers = rest })
        | some (p, sn) ↦
            let t = emits (free conn) (record s {
              peers = record rest { server_node_map = erase sn.server_id s.server_node_map };
            }) in
            let (_, db) = db_remove_online_player_by_server_id sql sn.server_id t.db in
            if int_eq sn.server_id (pos 0) then t else record t { db = db }
      ]

  -- A server that registers: its id must not be 0, and no other server may have it.
  unfoldable pub register_server :
      ℕ
      → ℕ
      → ServerNode
      → RegisterServerReq
      → ℤ
      → ℤ
      → Option GoString
      → Login Db Files
      → Login Db Files
  register_server conn p sn pb now later fresh s =
      let sn' : ServerNode = record sn {
        expose_address = pb.expose_address;
        server_id = pb.server_id;
        server_name = pb.server_name;
        conn = conn;
      } in
      let (list, cache) = get_player_rank_list now later fresh s.rank_cache in
      if int_eq pb.server_id (pos 0)
      then emits (close conn) s
      else elim (lookup pb.server_id s.server_node_map) [
        | some q ↦ emits (close conn) s
        | none ↦ sends conn (sync_player_rank_ntf list) (record s {
          peers = record s.peers {
            server_heap = insert p sn' s.server_heap;
            server_node_map = insert pb.server_id p s.server_node_map;
          };
          rank_cache = cache;
        })
      ]

  -- A server that is not registered.
  unfoldable pub on_unregistered_data :
      ℕ → ℕ → ServerNode → ℕ → GoString → ℤ → ℤ → Option GoString → Login Db Files → Login Db Files
  on_unregistered_data conn p sn op body now later fresh s =
      if op == op_old_register
      then sends conn proto_type_ntf s
      else if op == op_register_server_req
      then elim (proto.register_server_req body) [
        | none ↦ emits (close conn) s
        | some pb ↦ register_server conn p sn pb now later fresh s
      ]
      else emits (close conn) s

  -- The token is right: the client is tied to the server, unless it is tied already.
  unfoldable pub tie_client :
      ℕ → ServerNode → ℕ → ClientNode → UserInternalVerifyReq → Login Db Files → Login Db Files
  tie_client conn sn p cn pb s =
      let cn' : ClientNode = record cn {
        gs_conn_id = pb.gid;
        conn_code = pb.conn_code;
        gs_server_id = sn.server_id;
      } in
      if int_eq cn.gs_server_id (pos 0)
      then sync_player_hum_base_data sql saves conn cn'
          (record s { peers = record s.peers { client_heap = insert p cn' s.client_heap } })
      else s

  abbrev pub client_at : ℤ → Login Db Files → Option (ℕ × ClientNode)
  client_at lid s = elim (lookup lid s.client_node_map) [
    | none ↦ none
    | some p ↦ elim (lookup p s.client_heap) [ none ↦ none | some cn ↦ some (p, cn) ]
  ]

  -- LSOp_UserInternalVerifyReq: with a wrong token the head data is sent all the same.
  unfoldable pub on_user_internal_verify :
      ℕ → ServerNode → UserInternalVerifyReq → Login Db Files → Login Db Files
  on_user_internal_verify conn sn pb s = elim (client_at pb.lid s) [
    | none ↦ s
    | some (p, cn) ↦
        if cn.uid == 0
        then s
        else if str_eq pb.access_token cn.access_token
        then tie_client conn sn p cn pb s
        else sync_player_hum_base_data sql saves conn cn s
  ]

  unfoldable pub on_update_player_rank : UpdatePlayerRankReq → Login Db Files → Login Db Files
  on_update_player_rank pb s =
      let (_, db) =
        db_update_user_rank_info_v2 sql
          (record {
            uid = pb.uid;
            name = pb.name;
            job = pb.job;
            level = pb.level;
            expr = pos 0;
            power = pb.power;
          })
          s.db in
      record s { db = db }

  unfoldable pub on_player_disconnected : ServerNode → ℕ → ℤ → Login Db Files → Login Db Files
  on_player_disconnected sn uid lid s =
      let (_, db) = db_remove_online_player_by_uid sql uid sn.server_id lid s.db in
      record s { db = db }

  unfoldable pub on_registered_data :
      ℕ → ServerNode → ℕ → GoString → Login Db Files → Option (Login Db Files)
  on_registered_data conn sn op body s =
      if op == op_user_internal_verify_req
      then elim (proto.user_internal_verify_req body) [
        | none ↦ some (emits (close conn) s)
        | some pb ↦ some (on_user_internal_verify conn sn pb s)
      ]
      else if op == op_update_player_rank_req
      then elim (proto.update_player_rank_req body) [
        | none ↦ some (emits (close conn) s)
        | some pb ↦ some (on_update_player_rank pb s)
      ]
      else if op == op_save_player_data_req
      then elim (proto.save_player_data_req body) [
        | none ↦ some (emits (close conn) s)
        | some pb ↦ save_player_data sql saves pb s
      ]
      else if op == op_save_player_ext_data_req
      then elim (proto.save_player_ext_data_req body) [
        | none ↦ some (emits (close conn) s)
        | some pb ↦ save_player_ext_data sql saves pb s
      ]
      else if op == op_player_disconnected_ntf
      then elim (proto.player_disconnected_ntf body) [
        | none ↦ some (emits (close conn) s)
        | some pb ↦ some (on_player_disconnected sn (to_uint32 pb.uid) pb.lid s)
      ]
      else some s

  unfoldable pub on_event_from_server_data :
      ℕ → GoString → ℤ → ℤ → Option GoString → Login Db Files → Option (Login Db Files)
  on_event_from_server_data conn bytes now later fresh s = elim (opcode_and_body bytes) [
    | none ↦ none
    | some (op, body) ↦ elim (server_of conn s) [
      | none ↦ some (emits (close conn) s)
      | some (p, sn) ↦
          if int_eq sn.server_id (pos 0)
          then some (on_unregistered_data conn p sn op body now later fresh s)
          else on_registered_data conn sn op body s
    ]
  ]

  unfoldable pub process_event_from_server : ServerEvent → Login Db Files → Option (Login Db Files)
  process_event_from_server (connected conn) s = some (on_event_from_server_connected conn s)
  process_event_from_server (disconnected conn) s = some (on_event_from_server_disconnected conn s)
  process_event_from_server (received conn bytes now later fresh) s =
      on_event_from_server_data conn bytes now later fresh s
