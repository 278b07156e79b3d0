-- ===== src/Login/Tie.antt =====
-- Which client is on which game server: the ways in which an event of a server can tie a client to it.
use bmservers.Prelude.{
  Gives, decoded_cases, Gives-map, ℕ, ◌≡◌, ◌≢◌, ◌⊎◌, inl, inr, refl, ap, ◌∙◌, true, false, Option,
  none, some, arith, GoString, str_eq, str_eq_iff, ◌==◌, Bool-cases, Option-cases,
}
use bmservers.Prelude.Int.{ℤ, pos}
use bmservers.Prelude.Assoc.{nat_key, int_eq, int_eq_iff, lookup, insert, lookup-insert}
use bmservers.Sql.Engine.{Engine}
use bmservers.Login.State.{
  ClientNode, ServerNode, Peers, Login, Saves, Proto, UserInternalVerifyReq,
}
use bmservers.Login.Clients.{opcode_and_body}
use bmservers.Login.Servers.{
  ServerEvent, connected, disconnected, received, op_user_internal_verify_req, server_of, client_at,
  tie_client, on_user_internal_verify, on_update_player_rank, on_player_disconnected,
  on_unregistered_data, register_server, on_registered_data, on_event_from_server_data,
  on_event_from_server_connected, on_event_from_server_disconnected, process_event_from_server,
}
use bmservers.Login.Frame.{peers-sync, peers-save_player_data, peers-save_player_ext_data}

-- The game server of the node at a pointer, 0 if there is none.
abbrev pub gs_at : ℕ → Peers → ℤ
gs_at p s = elim (lookup p s.client_heap) [ none ↦ pos 0 | some cn ↦ cn.gs_server_id ]

module _ {Db Files : Type 0} (sql : Engine Db) (saves : Saves Files) (proto : Proto) where
  -- The request is from a registered server, names the client by its connection id, and has the
  -- client's token; the client is verified, was on no server, and is on this one now.
  pub record IsTied (s t : Login Db Files) (e : ServerEvent) (q : ℕ) : Type 0 where
    pub conn : ℕ
    pub bytes : GoString
    pub now : ℤ
    pub later : ℤ
    pub fresh : Option GoString
    pub body : GoString
    pub request : UserInternalVerifyReq
    pub at : ℕ
    pub server : ServerNode
    pub client : ClientNode
    pub packet : e ≡ received conn bytes now later fresh
    pub opcode : opcode_and_body bytes ≡ some (op_user_internal_verify_req, body)
    pub decoded : proto.user_internal_verify_req body ≡ some request
    pub sender : server_of conn s ≡ some (at, server)
    pub registered : server.server_id ≢ pos 0
    pub named : client_at sql saves proto request.lid s ≡ some (q, client)
    pub verified : client.uid ≢ 0
    pub token : request.access_token ≡ client.access_token
    pub free : client.gs_server_id ≡ pos 0
    pub tied : gs_at q t.peers ≡ server.server_id

  -- What the request does to the peers.
  pub peers-on_user_internal_verify :
      (conn : ℕ) (sn : ServerNode) (pb : UserInternalVerifyReq) (s : Login Db Files)
      → ((on_user_internal_verify sql saves proto conn sn pb s).peers ≡ s.peers)
        ⊎ ((p : ℕ) × (cn : ClientNode) × (client_at sql saves proto pb.lid s ≡ some (p, cn))
            × (cn.uid ≢ 0)
            × (pb.access_token ≡ cn.access_token)
            × (cn.gs_server_id ≡ pos 0)
            × ((on_user_internal_verify sql saves proto conn sn pb s).peers ≡ record s.peers {
              client_heap =
                  insert p
                    (record cn {
                      gs_conn_id = pb.gid;
                      conn_code = pb.conn_code;
                      gs_server_id = sn.server_id;
                    })
                    s.client_heap;
            }))
  unfolding on_user_internal_verify tie_client
  peers-on_user_internal_verify conn sn pb s =
      elim (Option-cases (client_at sql saves proto pb.lid s)) [
        | inl e ↦ inl (rw (e, on_user_internal_verify) refl)
        | inr ((p, cn), e) ↦ elim (Bool-cases (cn.uid == 0)) [
          | inl z ↦ inl (rw (e, on_user_internal_verify, z) refl)
          | inr nz ↦ elim (Bool-cases (str_eq pb.access_token cn.access_token)) [
            | inr bad ↦
                inl (rw (e, on_user_internal_verify, nz, bad) (peers-sync sql saves conn cn s))
            | inl good ↦ elim (Bool-cases (int_eq cn.gs_server_id (pos 0))) [
              | inr busy ↦ inl (rw (e, on_user_internal_verify, nz, good, busy) refl)
              | inl idle ↦ inr (
                p,
                cn,
                e,
                ground arith,
                (str_eq_iff pb.access_token cn.access_token).0 good,
                (int_eq_iff cn.gs_server_id (pos 0)).0 idle,
                rw (e, on_user_internal_verify, nz, good, idle) (peers-sync sql saves conn _ _),
              )
            ]
          ]
        ]
      ]

  heap-unregistered :
      (conn p : ℕ) (sn : ServerNode) (op : ℕ) (body : GoString) (now later : ℤ)
      (fresh : Option GoString) (s : Login Db Files)
      → (on_unregistered_data sql saves proto conn p sn op body now later fresh s).client_heap
        ≡ s.client_heap
  unfolding on_unregistered_data register_server
  heap-unregistered conn p sn op body now later fresh s = ground arith

  gs_at-insert :
      (p q : ℕ) (cn : ClientNode) (s : Peers)
      → (gs_at q (record s { client_heap = insert p cn s.client_heap }) ≡ gs_at q s)
        ⊎ ((p ≡ q)
            × (gs_at q (record s { client_heap = insert p cn s.client_heap }) ≡ cn.gs_server_id))
  gs_at-insert p q cn s = ground (arith, lookup-insert p q cn s.client_heap)

  on_user_internal_verify-cases :
      (conn : ℕ) (bytes : GoString) (now later : ℤ) (fresh : Option GoString) (op : ℕ)
      (body : GoString) (at : ℕ) (sn : ServerNode) (pb : UserInternalVerifyReq) (s : Login Db Files)
      (q : ℕ)
      → opcode_and_body bytes ≡ some (op, body)
      → (op == op_user_internal_verify_req) ≡ true
      → proto.user_internal_verify_req body ≡ some pb
      → server_of conn s ≡ some (at, sn)
      → sn.server_id ≢ pos 0
      → let t = on_user_internal_verify sql saves proto conn sn pb s in
        (gs_at q t.peers ≡ gs_at q s.peers) ⊎ IsTied s t (received conn bytes now later fresh) q
  on_user_internal_verify-cases conn bytes now later fresh op body at sn pb s q e is dec of reg =
      elim (peers-on_user_internal_verify conn sn pb s) [
        | inl same ↦ inl (ap (gs_at q) same)
        | inr (p, cn, named, verified, token, free, peers) ↦
            elim (gs_at-insert p q
              (record cn {
                gs_conn_id = pb.gid;
                conn_code = pb.conn_code;
                gs_server_id = sn.server_id;
              })
              s.peers) [
                | inl same ↦ inl (ap (gs_at q) peers ∙ same)
                | inr (here, new) ↦ inr (record {
                  conn = conn;
                  bytes = bytes;
                  now = now;
                  later = later;
                  fresh = fresh;
                  body = body;
                  request = pb;
                  at = at;
                  server = sn;
                  client = cn;
                  packet = refl;
                  opcode = ground arith;
                  decoded = dec;
                  sender = of;
                  registered = reg;
                  named = ground arith;
                  verified = verified;
                  token = token;
                  free = free;
                  tied = ap (gs_at q) peers ∙ new;
                })
              ]
      ]

  heap-on_registered_data :
      (conn : ℕ) (sn : ServerNode) (op : ℕ) (body : GoString) (s : Login Db Files)
      → (op == op_user_internal_verify_req) ≡ false
      → Gives
          (λ t. t.client_heap ≡ s.client_heap)
          (on_registered_data sql saves proto conn sn op body s)
  unfolding on_registered_data on_update_player_rank on_player_disconnected
  heap-on_registered_data conn sn op body s e = ground (
    arith,
    decoded_cases (proto.save_player_data_req body) (λ pb. peers-save_player_data sql saves pb s),
    decoded_cases (proto.save_player_ext_data_req body)
        (λ pb. peers-save_player_ext_data sql saves pb s),
  )

  on_registered_data-cases :
      (conn : ℕ) (bytes : GoString) (now later : ℤ) (fresh : Option GoString) (op : ℕ)
      (body : GoString) (at : ℕ) (sn : ServerNode) (s : Login Db Files) (q : ℕ)
      → opcode_and_body bytes ≡ some (op, body)
      → server_of conn s ≡ some (at, sn)
      → sn.server_id ≢ pos 0
      → Gives
          (λ t.
            (gs_at q t.peers ≡ gs_at q s.peers)
            ⊎ IsTied s t (received conn bytes now later fresh) q)
          (on_registered_data sql saves proto conn sn op body s)
  unfolding on_registered_data
  on_registered_data-cases conn bytes now later fresh op body at sn s q e of reg =
      elim (Bool-cases (op == op_user_internal_verify_req)) [
        | inr other ↦
            Gives-map (on_registered_data sql saves proto conn sn op body s)
              (λ t h. inl (ground arith)) (heap-on_registered_data conn sn op body s other)
        | inl is ↦ elim (Option-cases (proto.user_internal_verify_req body)) [
          | inl bad ↦ rw (on_registered_data, is, bad) (inl refl)
          | inr (pb, dec) ↦
              rw (on_registered_data, is, dec)
                (on_user_internal_verify-cases conn bytes now later fresh op body at sn pb s q e is
                  dec of reg)
        ]
      ]

  -- Whatever a game server does, the server that a client in the heap is on stays the same, or the
  -- event is the request of a registered server that names the client and has its access token, the
  -- client is verified and was on no server, and it is on the one that asks now.
  pub process_event_from_server-IsTied :
      (e : ServerEvent) (s : Login Db Files) (q : ℕ)
      → Gives
          (λ t. (gs_at q t.peers ≡ gs_at q s.peers) ⊎ IsTied s t e q)
          (process_event_from_server sql saves proto e s)
  unfolding process_event_from_server on_event_from_server_connected
      on_event_from_server_disconnected on_event_from_server_data
  process_event_from_server-IsTied (connected conn) s q = inl refl
  process_event_from_server-IsTied (disconnected conn) s q = inl (ground arith)
  process_event_from_server-IsTied (received conn bytes now later fresh) s q =
      elim (Option-cases (opcode_and_body bytes)) [
        | inl short ↦ rw (on_event_from_server_data, short) tt
        | inr ((op, body), e) ↦ elim (Option-cases (server_of conn s)) [
          | inl gone ↦ rw (on_event_from_server_data, e, gone) (inl refl)
          | inr ((at, sn), of) ↦ elim (Bool-cases (int_eq sn.server_id (pos 0))) [
            | inl new ↦
                rw (on_event_from_server_data, e, of, new)
                  (inl (
                    ap (λ h. elim (lookup q h) [ none ↦ pos 0 | some cn ↦ cn.gs_server_id ])
                      (heap-unregistered conn at sn op body now later fresh s)))
            | inr old ↦
                rw (on_event_from_server_data, e, of, old)
                  (on_registered_data-cases conn bytes now later fresh op body at sn s q e of
                    (λ z. ground (arith, (int_eq_iff sn.server_id (pos 0)).1 z)))
          ]
        ]
      ]
