-- ===== src/Login/Clients.antt =====
-- The events of clients: processEventFromClient and the handlers that it calls, of
-- bmloginsvrapp/handle_eventfromclient.go. `none` is a panic, which ends the main loop.
use bmservers.Prelude.{
  ℕ, suc, ◌+◌, ◌*◌, Bool, Option, none, some, List, [], ◌∷◌, ◌==◌, if◌then◌else◌, GoString, str_eq,
}
use bmservers.Prelude.Int.{ℤ, pos, ◌+ℤ◌, to_int32, to_int64}
use bmservers.Prelude.Assoc.{int_eq, int_key, nat_key, lookup, insert, erase}
use bmservers.Sql.Engine.{Engine}
use bmservers.Account.{db_user_account_exist, db_get_user_account_info}
use bmservers.Login.State.{
  ClientNode, ServerNode, ServerItem, Login, Saves, Proto, VerifyAccountReq, ls_access_ntf,
  verify_account_rsp, quick_message_ntf, server_list_ntf, close, free, set_conn_id,
}
use bmservers.Login.Registry.{add_client_to_client_user_map, remove_client_from_client_user_map}
use bmservers.Login.Roles.{
  sends, emits, sync_player_hum_base_data, on_create_hum_req, on_del_hum_req,
}
use bmservers.Login.LoginGame.{LoginExtendInfo, on_login_game}

-- binary.LittleEndian.Uint32(evt.Data) and evt.Data[4:]; fewer than four bytes panic.
unfoldable pub opcode_and_body : GoString → Option (ℕ × GoString)
opcode_and_body (a ∷ b ∷ c ∷ d ∷ body) = some (a + 256 * b + 65536 * c + 16777216 * d, body)
opcode_and_body _ = none

abbrev pub op_verify_account_req : ℕ
op_verify_account_req = 11101

abbrev pub op_create_hum_req : ℕ
op_create_hum_req = 11106

abbrev pub op_del_hum_req : ℕ
op_del_hum_req = 11107

abbrev pub op_login_game_req : ℕ
op_login_game_req = 11108

pub data ClientEvent : Type 0 where
  -- a new connection, and the UUID that is drawn for it
  connected : ℕ → GoString → ClientEvent
  disconnected : ℕ → ClientEvent
  received : ℕ → GoString → ClientEvent

module _ {Db Files : Type 0} where
  abbrev pub new_client : ℕ → GoString → Login Db Files → ClientNode
  new_client conn token s = record {
    client_conn_id = to_int32 s.client_node_seed;
    gs_server_id = pos 0;
    gs_conn_id = pos 0;
    conn_code = pos 0;
    access_token = token;
    uid = 0;
    conn = conn;
  }

  unfoldable pub on_event_from_client_connected : ℕ → GoString → Login Db Files → Login Db Files
  on_event_from_client_connected conn token s =
      let id = to_int32 s.client_node_seed in
      let t = emits (set_conn_id conn s.client_node_seed) s in
      sends conn (ls_access_ntf token id) (record t {
        peers = record s.peers {
          client_node_seed = to_int64 (s.client_node_seed +ℤ pos 1);
          client_heap = insert s.client_next (new_client conn token s) s.client_heap;
          client_next = suc s.client_next;
          client_data = insert conn s.client_next s.client_data;
          client_node_map = insert id s.client_next s.client_node_map;
        };
      })

  -- The node that a connection's user data points to.
  abbrev pub client_of : ℕ → Login Db Files → Option (ℕ × ClientNode)
  client_of conn s = elim (lookup conn s.client_data) [
    | none ↦ none
    | some p ↦ elim (lookup p s.client_heap) [ none ↦ none | some cn ↦ some (p, cn) ]
  ]

  unfoldable pub on_event_from_client_disconnected : ℕ → Login Db Files → Login Db Files
  on_event_from_client_disconnected conn s =
      let rest = record s.peers { client_data = erase conn s.client_data } in
      emits (free conn) (record s {
        peers = elim (client_of conn s) [
          | none ↦ rest
          | some (p, cn) ↦ record rest {
            client_node_map = erase cn.client_conn_id s.client_node_map;
            client_user_map = (remove_client_from_client_user_map p cn s.client_user_map).1;
          }
        ];
      })

-- The entries of the server list, in the order in which the map is visited.
abbrev pub server_items : List (ℤ × ℕ) → List (ℕ × ServerNode) → List ServerItem
server_items [] heap = []
server_items ((id, p) ∷ servers) heap =
    let rest = server_items servers heap in
    elim (lookup p heap) [
      | none ↦ rest
      | some sn ↦
          record { address = sn.expose_address; name = sn.server_name; id = sn.server_id } ∷ rest
    ]

-- The code of verifyAccount where a row of the account is read.
abbrev pub verdict : Bool → GoString → GoString → ℤ
verdict found password given =
    if str_eq given password then (if found then pos 0 else pos 1) else pos 2

module _ {Db Files : Type 0} (sql : Engine Db) (saves : Saves Files) where
  abbrev pub set_uid : ℕ → ClientNode → ℕ → Login Db Files → Login Db Files
  set_uid p cn uid s = record s {
    peers = record s.peers { client_heap = insert p (record cn { uid = uid }) s.client_heap };
  }

  -- The messages after an account is verified, or is not.
  unfoldable pub answer_verified : ℕ → ClientNode → ℤ → Login Db Files → Login Db Files
  answer_verified conn cn ret s =
      let t = sync_player_hum_base_data sql saves conn cn s in
      if int_eq ret (pos 0)
      then elim t.server_node_map [
        | [] ↦ sends conn (quick_message_ntf (pos 7) (pos 0)) t
        | e ∷ servers ↦ sends conn (server_list_ntf (server_items (e ∷ servers) t.server_heap)) t
      ]
      else sends conn (quick_message_ntf (pos 8) (pos 0)) s

  unfoldable pub verify_account :
      ℕ → ℕ → ClientNode → VerifyAccountReq → Login Db Files → ℤ × ClientNode × Login Db Files
  verify_account conn p cn pb s =
      let found = db_user_account_exist sql pb.account s.db in
      elim (db_get_user_account_info sql pb.account s.db) [
        | none ↦ (pos 1, cn, answer_verified conn cn (pos 1) s)
        | some info ↦
            let ret = verdict found info.password pb.password in
            let cn' =
              if str_eq pb.password info.password then record cn { uid = info.uid } else cn in
            let t = if str_eq pb.password info.password then set_uid p cn info.uid s else s in
            (ret, cn', answer_verified conn cn' ret t)
      ]

  -- A client that is not verified: any packet but the request to verify is dropped.
  unfoldable pub on_unverified_data :
      Proto → ℕ → ℕ → ClientNode → ℕ → GoString → Login Db Files → Login Db Files
  on_unverified_data proto conn p cn op body s =
      if op == op_verify_account_req
      then elim (proto.verify_account_req body) [
        | none ↦ emits (close conn) s
        | some pb ↦
            let (ret, cn', t) = verify_account conn p cn pb s in
            let u = sends conn (verify_account_rsp ret) t in
            if int_eq ret (pos 0)
            then record u {
              peers = record u.peers {
                client_user_map = add_client_to_client_user_map p cn' u.client_user_map;
              };
            }
            else u
      ]
      else s

  unfoldable pub on_verified_data :
      Proto
      → (LoginExtendInfo → GoString)
      → ℕ
      → ClientNode
      → ℕ
      → GoString
      → Login Db Files
      → Option (Login Db Files)
  on_verified_data proto json conn cn op body s =
      if op == op_create_hum_req
      then elim (proto.create_hum_req body) [
        | none ↦ some (emits (close conn) s)
        | some pb ↦ some (on_create_hum_req sql saves conn cn pb s)
      ]
      else if op == op_del_hum_req
      then elim (proto.del_hum_req body) [
        | none ↦ some (emits (close conn) s)
        | some name ↦ some (on_del_hum_req sql saves conn cn name s)
      ]
      else if op == op_login_game_req
      then elim (proto.login_game_req body) [
        | none ↦ some (emits (close conn) s)
        | some name ↦ on_login_game sql saves json conn cn name s
      ]
      else some s

  unfoldable pub on_event_from_client_data :
      Proto → (LoginExtendInfo → GoString) → ℕ → GoString → Login Db Files → Option (Login Db Files)
  on_event_from_client_data proto json conn bytes s = elim (client_of conn s) [
    | none ↦ some (emits (close conn) s)
    | some (p, cn) ↦ elim (opcode_and_body bytes) [
      | none ↦ none
      | some (op, body) ↦
          if cn.uid == 0
          then some (on_unverified_data proto conn p cn op body s)
          else on_verified_data proto json conn cn op body s
    ]
  ]

  unfoldable pub process_event_from_client :
      Proto → (LoginExtendInfo → GoString) → ClientEvent → Login Db Files → Option (Login Db Files)
  process_event_from_client proto json (connected conn token) s =
      some (on_event_from_client_connected conn token s)
  process_event_from_client proto json (disconnected conn) s =
      some (on_event_from_client_disconnected conn s)
  process_event_from_client proto json (received conn bytes) s =
      on_event_from_client_data proto json conn bytes s
