-- ===== src/Login/ClientMap/FromServers.antt =====
-- clientUserMap under the events of game servers, as processEventFromServer of
-- bmloginsvrapp/handle_eventfromserver.go handles them.
use bmservers.Prelude.{
  Gives, Gives-map, decoded_cases, ℕ, ◌≡◌, refl, inl, inr, ap, Option, some, arith, GoString, ◌==◌,
  Bool-cases, Option-cases,
}
use bmservers.Prelude.Int.{ℤ, pos}
use bmservers.Prelude.Assoc.{int_eq, nat_key, int_key, lookup}
use bmservers.Sql.Engine.{Engine}
use bmservers.Login.State.{
  ClientNode, ServerNode, Peers, Login, Saves, Proto, UserInternalVerifyReq,
}
use bmservers.Login.Clients.{opcode_and_body}
use bmservers.Login.Servers.{
  ServerEvent, op_user_internal_verify_req, on_user_internal_verify, on_registered_data,
  on_update_player_rank, on_player_disconnected, on_event_from_server_data,
  on_event_from_server_connected, server_of, on_event_from_server_disconnected,
  on_unregistered_data, register_server, client_at, process_event_from_server,
}
use bmservers.Login.Frame.{peers-save_player_data, peers-save_player_ext_data}
use bmservers.Login.Tie.{peers-on_user_internal_verify}
use bmservers.Login.ClientMap.{HasClientMap}
use bmservers.Login.ClientMap.Events.{tied-IsClientMap}

module _ {Db Files : Type 0} (sql : Engine Db) (saves : Saves Files) (proto : Proto) where
  client_at-node :
      (lid : ℤ) (s : Login Db Files) (p : ℕ) (cn : ClientNode)
      → client_at sql saves proto lid s ≡ some (p, cn)
      → lookup p s.client_heap ≡ some cn
  client_at-node lid s p cn h = elim (Option-cases (lookup lid s.client_node_map)) [
    | inl e ↦ absurd (ground arith)
    | inr (q, e) ↦ elim (Option-cases (lookup q s.client_heap)) [
      | inl e' ↦ absurd (ground arith)
      | inr (n, e') ↦ ground arith
    ]
  ]

  -- The clients' side of the peers.
  abbrev SameClients : Peers → Peers → Type 0
  SameClients s t =
      (t.client_heap ≡ s.client_heap)
      × (t.client_data ≡ s.client_data)
      × (t.client_user_map ≡ s.client_user_map)
      × (t.client_next ≡ s.client_next)

  same-HasClientMap : (s t : Peers) → SameClients s t → HasClientMap s → HasClientMap t
  same-HasClientMap s t (a, b, c, d) h = rw (a, b, c, d) h

  saved :
      (s : Login Db Files) (o : Option (Login Db Files))
      → Gives (λ t. t.peers ≡ s.peers) o
      → Gives (λ t. SameClients s.peers t.peers) o
  saved s o h =
      Gives-map o
        (λ t e. (
          ap (λ p. p.client_heap) e,
          ap (λ p. p.client_data) e,
          ap (λ p. p.client_user_map) e,
          ap (λ p. p.client_next) e,
        ))
        h

  on_user_internal_verify-HasClientMap :
      (conn : ℕ) (sn : ServerNode) (pb : UserInternalVerifyReq) (s : Login Db Files)
      → HasClientMap s.peers
      → HasClientMap (on_user_internal_verify sql saves proto conn sn pb s).peers
  on_user_internal_verify-HasClientMap conn sn pb s h =
      elim (peers-on_user_internal_verify sql saves proto conn sn pb s) [
        | inl e ↦ rw e h
        | inr (p, cn, at, _, _, _, e) ↦ rw e (
            tied-IsClientMap s.client_heap s.client_data s.client_user_map s.client_next h p cn
              (record cn {
                gs_conn_id = pb.gid;
                conn_code = pb.conn_code;
                gs_server_id = sn.server_id;
              })
              (client_at-node pb.lid s p cn at) refl refl)
      ]

  clients-unregistered :
      (conn p : ℕ) (sn : ServerNode) (op : ℕ) (body : GoString) (now later : ℤ)
      (fresh : Option GoString) (s : Login Db Files)
      → SameClients s.peers
          (on_unregistered_data sql saves proto conn p sn op body now later fresh s).peers
  unfolding on_unregistered_data register_server
  clients-unregistered conn p sn op body now later fresh s =
      (ground arith, ground arith, ground arith, ground arith)

  on_registered_data-HasClientMap :
      (conn : ℕ) (sn : ServerNode) (op : ℕ) (body : GoString) (s : Login Db Files)
      → HasClientMap s.peers
      → Gives (λ t. HasClientMap t.peers) (on_registered_data sql saves proto conn sn op body s)
  unfolding on_registered_data on_update_player_rank on_player_disconnected
  on_registered_data-HasClientMap conn sn op body s h =
      elim (Bool-cases (op == op_user_internal_verify_req)) [
        | inl e ↦ elim (Option-cases (proto.user_internal_verify_req body)) [
          | inl e' ↦ rw (on_registered_data, e, e') h
          | inr (pb, e') ↦
              rw (on_registered_data, e, e') (on_user_internal_verify-HasClientMap conn sn pb s h)
        ]
        | inr e ↦
            Gives-map (on_registered_data sql saves proto conn sn op body s)
              (λ t same. same-HasClientMap s.peers t.peers same h)
              (ground (
                arith,
                decoded_cases (proto.save_player_data_req body)
                    (λ pb. saved s _ (peers-save_player_data sql saves pb s)),
                decoded_cases (proto.save_player_ext_data_req body)
                    (λ pb. saved s _ (peers-save_player_ext_data sql saves pb s)),
              ))
      ]

  -- Whatever a game server does, clientUserMap goes on to hold exactly the clients that are
  -- connected and verified.
  pub process_event_from_server-HasClientMap :
      (e : ServerEvent) (s : Login Db Files)
      → HasClientMap s.peers
      → Gives (λ t. HasClientMap t.peers) (process_event_from_server sql saves proto e s)
  unfolding process_event_from_server on_event_from_server_connected
      on_event_from_server_disconnected on_event_from_server_data
  process_event_from_server-HasClientMap (ServerEvent.connected conn) s h = h
  process_event_from_server-HasClientMap (ServerEvent.disconnected conn) s h =
      elim (Option-cases (server_of conn s)) [
        | inl e ↦ rw (on_event_from_server_disconnected, e) h
        | inr ((p, sn), e) ↦ elim (Bool-cases (int_eq sn.server_id (pos 0))) [
          | inl z ↦ rw (on_event_from_server_disconnected, e, z) h
          | inr z ↦ rw (on_event_from_server_disconnected, e, z) h
        ]
      ]
  process_event_from_server-HasClientMap (ServerEvent.received conn bytes now later fresh) s h =
      elim (Option-cases (opcode_and_body bytes)) [
        | inl short ↦ rw (on_event_from_server_data, short) tt
        | inr ((op, body), e) ↦ elim (Option-cases (server_of conn s)) [
          | inl gone ↦ rw (on_event_from_server_data, e, gone) h
          | inr ((p, sn), of) ↦ elim (Bool-cases (int_eq sn.server_id (pos 0))) [
            | inl new ↦
                rw (on_event_from_server_data, e, of, new)
                  (same-HasClientMap s.peers
                    (on_unregistered_data sql saves proto conn p sn op body now later fresh s).peers
                    (clients-unregistered conn p sn op body now later fresh s) h)
            | inr old ↦
                rw (on_event_from_server_data, e, of, old)
                  (on_registered_data-HasClientMap conn sn op body s h)
          ]
        ]
      ]
