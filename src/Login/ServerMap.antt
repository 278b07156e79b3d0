-- ===== src/Login/ServerMap.antt =====
-- serverNodeMap of bmloginsvrapp/handle_eventfromserver.go under the events of game servers.
use bmservers.Prelude.{
  Gives, decoded_cases, Gives-map, ℕ, suc, ◌<◌, ◌≡◌, ◌≢◌, inl, inr, ap, ◌∙◌, false, Option, some,
  List, arith, GoString, ◌==◌, ==_iff, Bool-cases, Option-cases,
}
use bmservers.Prelude.Int.{ℤ, pos}
use bmservers.Prelude.Assoc.{
  nat_key, int_key, int_eq, int_eq_iff, lookup, insert, erase, lookup-insert, lookup-erase,
}
use bmservers.Sql.Engine.{Engine}
use bmservers.Login.State.{
  ServerNode, Peers, Login, Saves, Proto, RegisterServerReq, UserInternalVerifyReq,
}
use bmservers.Login.Servers.{
  ServerEvent, on_user_internal_verify, connected, disconnected, received, server_of,
  on_unregistered_data, register_server, on_registered_data, on_update_player_rank,
  on_player_disconnected, on_event_from_server_data, on_event_from_server_connected,
  on_event_from_server_disconnected, process_event_from_server, op_old_register,
  op_register_server_req,
}
use bmservers.Login.Clients.{opcode_and_body}
use bmservers.Login.Frame.{peers-save_player_data, peers-save_player_ext_data}
use bmservers.Login.Tie.{peers-on_user_internal_verify}

-- An id in the map is not 0 and is that of the node that the map points to; nodes stand below the
-- next free pointer.
pub record IsServerMap (heap : List (ℕ × ServerNode)) (map : List (ℤ × ℕ)) (next : ℕ) : Type 0 where
  pub entry :
      (id : ℤ) (p : ℕ)
      → lookup id map ≡ some p
      → (sn : ServerNode) × (lookup p heap ≡ some sn) × (sn.server_id ≡ id) × (id ≢ pos 0)
  pub below : (p : ℕ) (sn : ServerNode) → lookup p heap ≡ some sn → p < next

abbrev pub HasServerMap : Peers → Type 0
HasServerMap s = IsServerMap s.server_heap s.server_node_map s.server_next

-- Two servers never share an id in the map, and one server has one id.
pub ids-agree :
    (heap : List (ℕ × ServerNode)) (map : List (ℤ × ℕ)) (next : ℕ) (i j : ℤ) (p : ℕ)
    → IsServerMap heap map next
    → lookup i map ≡ some p
    → lookup j map ≡ some p
    → i ≡ j
ids-agree heap map next i j p h e e' =
    let (sn, at, is, _) = h.entry i p e in let (sn', at', is', _) = h.entry j p e' in ground arith

-- A new node.
connected-IsServerMap :
    (heap : List (ℕ × ServerNode)) (map : List (ℤ × ℕ)) (next : ℕ) (new : ServerNode)
    → IsServerMap heap map next
    → IsServerMap (insert next new heap) map (suc next)
connected-IsServerMap heap map next new h = record {
  entry = λ id p e.
      let (sn, at, is, not0) = h.entry id p e in
      let old = h.below p sn at in (sn, ground (arith, lookup-insert next p new heap), is, not0);
  below = λ p sn at. ground (arith, lookup-insert next p new heap, h.below p sn);
}

-- A server that goes away.
erased-IsServerMap :
    (heap : List (ℕ × ServerNode)) (map : List (ℤ × ℕ)) (next : ℕ) (gone : ℤ)
    → IsServerMap heap map next
    → IsServerMap heap (erase gone map) next
erased-IsServerMap heap map next gone h = record {
  entry = λ id p e. h.entry id p (ground (arith, lookup-erase gone id map));
  below = h.below;
}

-- A node without an id, which is in no entry, gets one.
registered-IsServerMap :
    (heap : List (ℕ × ServerNode)) (map : List (ℤ × ℕ)) (next p : ℕ) (old new : ServerNode)
    → lookup p heap ≡ some old
    → old.server_id ≡ pos 0
    → new.server_id ≢ pos 0
    → IsServerMap heap map next
    → IsServerMap (insert p new heap) (insert new.server_id p map) next
registered-IsServerMap heap map next p old new at zero not0 h = record {
  entry = λ id q e. elim (Bool-cases (int_eq new.server_id id)) [
    | inl here ↦
        let same = (int_eq_iff new.server_id id).0 here in
        let ptr : p ≡ q = ground (arith, lookup-insert new.server_id id p map) in
        (
          new,
          ground (arith, lookup-insert p q new heap, (==_iff p q).1 ptr),
          same,
          λ z. not0 (same ∙ z),
        )
    | inr other ↦
        let (sn, at', is, not0') =
          h.entry id q (ground (arith, lookup-insert new.server_id id p map)) in
        let apart : (p == q) ≡ false = elim (Bool-cases (p == q)) [
          | inl e' ↦ absurd (not0' (ground arith))
          | inr e' ↦ e'
        ] in
        (sn, ground (arith, lookup-insert p q new heap), is, not0')
  ];
  below = λ q sn at'. ground (arith, lookup-insert p q new heap, h.below q sn, h.below p old at);
}

-- The server's side of the peers.
abbrev pub SameServers : Peers → Peers → Type 0
SameServers s t =
    (t.server_heap ≡ s.server_heap)
    × (t.server_node_map ≡ s.server_node_map)
    × (t.server_next ≡ s.server_next)

pub same_peers : (s t : Peers) → t ≡ s → SameServers s t
same_peers s t e =
    (ap (λ p. p.server_heap) e, ap (λ p. p.server_node_map) e, ap (λ p. p.server_next) e)

pub same-HasServerMap : (s t : Peers) → SameServers s t → HasServerMap s → HasServerMap t
same-HasServerMap s t (a, b, c) h = rw (a, b, c) h

module _ {Db Files : Type 0} (sql : Engine Db) (saves : Saves Files) (proto : Proto) where
  saved :
      (s : Login Db Files) (o : Option (Login Db Files))
      → Gives (λ t. t.peers ≡ s.peers) o
      → Gives (λ t. SameServers s.peers t.peers) o
  saved s o h = Gives-map o (λ t e. same_peers s.peers t.peers e) h

  server_of-heap :
      (conn : ℕ) (s : Login Db Files) (p : ℕ) (sn : ServerNode)
      → server_of conn s ≡ some (p, sn)
      → lookup p s.server_heap ≡ some sn
  server_of-heap conn s p sn h = elim (Option-cases (lookup conn s.server_data)) [
    | inl e ↦ absurd (ground arith)
    | inr (q, e) ↦ elim (Option-cases (lookup q s.server_heap)) [
      | inl e' ↦ absurd (ground arith)
      | inr (n, e') ↦ ground arith
    ]
  ]

  servers-on_user_internal_verify :
      (conn : ℕ) (sn : ServerNode) (pb : UserInternalVerifyReq) (s : Login Db Files)
      → SameServers s.peers (on_user_internal_verify sql saves proto conn sn pb s).peers
  servers-on_user_internal_verify conn sn pb s =
      elim (peers-on_user_internal_verify sql saves proto conn sn pb s) [
        | inl e ↦ same_peers _ _ e
        | inr (p, cn, _, _, _, _, e) ↦
            (ap (λ p. p.server_heap) e, ap (λ p. p.server_node_map) e, ap (λ p. p.server_next) e)
      ]

  servers-on_registered_data :
      (conn : ℕ) (sn : ServerNode) (op : ℕ) (body : GoString) (s : Login Db Files)
      → Gives
          (λ t. SameServers s.peers t.peers)
          (on_registered_data sql saves proto conn sn op body s)
  unfolding on_registered_data on_update_player_rank on_player_disconnected
  servers-on_registered_data conn sn op body s = ground (
    arith,
    decoded_cases (proto.user_internal_verify_req body)
        (λ pb. servers-on_user_internal_verify conn sn pb s),
    decoded_cases (proto.save_player_data_req body)
        (λ pb. saved s _ (peers-save_player_data sql saves pb s)),
    decoded_cases (proto.save_player_ext_data_req body)
        (λ pb. saved s _ (peers-save_player_ext_data sql saves pb s)),
  )

  register_server-HasServerMap :
      (conn p : ℕ) (sn : ServerNode) (pb : RegisterServerReq) (now later : ℤ)
      (fresh : Option GoString) (s : Login Db Files)
      → lookup p s.server_heap ≡ some sn
      → sn.server_id ≡ pos 0
      → HasServerMap s.peers
      → HasServerMap (register_server sql saves proto conn p sn pb now later fresh s).peers
  unfolding register_server
  register_server-HasServerMap conn p sn pb now later fresh s at zero h =
      let sn' : ServerNode = record sn {
        expose_address = pb.expose_address;
        server_id = pb.server_id;
        server_name = pb.server_name;
        conn = conn;
      } in
      elim (Bool-cases (int_eq pb.server_id (pos 0))) [
        | inl e ↦ rw (register_server, e) h
        | inr e ↦ elim (Option-cases (lookup pb.server_id s.server_node_map)) [
          | inr (q, taken) ↦ rw (register_server, e, taken) h
          | inl new ↦
              rw (register_server, e, new)
                (registered-IsServerMap s.server_heap s.server_node_map s.server_next p sn sn' at
                  zero (λ z. ground (arith, (int_eq_iff pb.server_id (pos 0)).1 z)) h)
        ]
      ]

  on_unregistered_data-HasServerMap :
      (conn p : ℕ) (sn : ServerNode) (op : ℕ) (body : GoString) (now later : ℤ)
      (fresh : Option GoString) (s : Login Db Files)
      → lookup p s.server_heap ≡ some sn
      → sn.server_id ≡ pos 0
      → HasServerMap s.peers
      → HasServerMap
          (on_unregistered_data sql saves proto conn p sn op body now later fresh s).peers
  unfolding on_unregistered_data
  on_unregistered_data-HasServerMap conn p sn op body now later fresh s at zero h =
      elim (Bool-cases (op == op_old_register)) [
        | inl e ↦ rw (on_unregistered_data, e) h
        | inr e ↦ elim (Bool-cases (op == op_register_server_req)) [
          | inr e' ↦ rw (on_unregistered_data, e, e') h
          | inl e' ↦ elim (Option-cases (proto.register_server_req body)) [
            | inl bad ↦ rw (on_unregistered_data, e, e', bad) h
            | inr (pb, dec) ↦
                rw (on_unregistered_data, e, e', dec)
                  (register_server-HasServerMap conn p sn pb now later fresh s at zero h)
          ]
        ]
      ]

  -- Whatever a game server sends and whenever it comes and goes, the map of the registered servers
  -- keeps naming each by its own id, which is not 0.
  pub process_event_from_server-HasServerMap :
      (e : ServerEvent) (s : Login Db Files)
      → HasServerMap s.peers
      → Gives (λ t. HasServerMap t.peers) (process_event_from_server sql saves proto e s)
  unfolding process_event_from_server on_event_from_server_connected
      on_event_from_server_disconnected on_event_from_server_data
  process_event_from_server-HasServerMap (connected conn) s h =
      connected-IsServerMap s.server_heap s.server_node_map s.server_next _ h
  process_event_from_server-HasServerMap (disconnected conn) s h =
      elim (Option-cases (server_of conn s)) [
        | inl e ↦ rw (on_event_from_server_disconnected, e) h
        | inr ((p, sn), e) ↦
            let gone =
              erased-IsServerMap s.server_heap s.server_node_map s.server_next sn.server_id h in
            elim (Bool-cases (int_eq sn.server_id (pos 0))) [
              | inl z ↦ rw (on_event_from_server_disconnected, e, z) gone
              | inr z ↦ rw (on_event_from_server_disconnected, e, z) gone
            ]
      ]
  process_event_from_server-HasServerMap (received conn bytes now later fresh) s h =
      elim (Option-cases (opcode_and_body bytes)) [
        | inl short ↦ rw (on_event_from_server_data, short) tt
        | inr ((op, body), e) ↦ elim (Option-cases (server_of conn s)) [
          | inl gone ↦ rw (on_event_from_server_data, e, gone) h
          | inr ((p, sn), of) ↦ elim (Bool-cases (int_eq sn.server_id (pos 0))) [
            | inl new ↦
                rw (on_event_from_server_data, e, of, new)
                  (on_unregistered_data-HasServerMap conn p sn op body now later fresh s
                    (server_of-heap conn s p sn of) ((int_eq_iff sn.server_id (pos 0)).0 new) h)
            | inr old ↦
                rw (on_event_from_server_data, e, of, old)
                  (Gives-map (on_registered_data sql saves proto conn sn op body s)
                    (λ t same. same-HasServerMap s.peers t.peers same h)
                    (servers-on_registered_data conn sn op body s))
          ]
        ]
      ]
