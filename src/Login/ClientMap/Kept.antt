-- ===== src/Login/ClientMap/Kept.antt =====
-- clientUserMap under the events of clients, as processEventFromClient of
-- bmloginsvrapp/handle_eventfromclient.go handles them.
use bmservers.Prelude.{
  Gives, Gives-map, ℕ, ◌≡◌, ◌≢◌, refl, inl, inr, ◌⊎◌, true, false, none, some, arith, GoString,
  ◌==◌, ==_iff, Bool-cases, Option-cases, str_eq,
}
use bmservers.Prelude.Int.{pos}
use bmservers.Prelude.Assoc.{nat_key, lookup, insert, int_eq}
use bmservers.Sql.Engine.{Engine}
use bmservers.Sql.Rows.{AccountRow}
use bmservers.Account.{db_get_user_account_info}
use bmservers.Account.Reads.{read_exists}
use bmservers.Login.State.{ClientNode, Peers, Login, Saves, Proto, VerifyAccountReq}
use bmservers.Login.LoginGame.{LoginExtendInfo}
use bmservers.Login.Clients.{
  ClientEvent, connected, disconnected, received, opcode_and_body, op_verify_account_req,
  new_client, client_of, verify_account, on_unverified_data, on_verified_data,
  on_event_from_client_data, on_event_from_client_connected, on_event_from_client_disconnected,
  process_event_from_client,
}
use bmservers.Login.Verify.{peers-on_verified_data, peers-answer_verified}
use bmservers.Login.ClientMap.{HasClientMap}
use bmservers.Login.ClientMap.Events.{
  connected-IsClientMap, disconnected-IsClientMap, verified-IsClientMap, erased_none,
}

-- A new connection is not one of those that are open.
abbrev pub IsFresh : ClientEvent → Peers → Type 0
IsFresh (connected conn token) s = lookup conn s.client_data ≡ none
IsFresh e s = Unit

-- The uids of the table useraccount are not 0.
abbrev pub HasUids : {Db : Type 0} → Engine Db → Db → Type 0
HasUids sql db =
    (account : GoString) (row : AccountRow)
    → db_get_user_account_info sql account db ≡ some row
    → row.uid ≢ 0

module _ {Db Files : Type 0} where
  client_of-node :
      (conn : ℕ) (s : Login Db Files) (p : ℕ) (cn : ClientNode)
      → client_of conn s ≡ some (p, cn)
      → (lookup conn s.client_data ≡ some p) × (lookup p s.client_heap ≡ some cn)
  client_of-node conn s p cn h = elim (Option-cases (lookup conn s.client_data)) [
    | inl e ↦ absurd (ground arith)
    | inr (q, e) ↦ elim (Option-cases (lookup q s.client_heap)) [
      | inl e' ↦ absurd (ground arith)
      | inr (n, e') ↦ (ground arith, ground arith)
    ]
  ]

  client_of-none :
      (conn : ℕ) (s : Login Db Files)
      → HasClientMap s.peers
      → client_of conn s ≡ none
      → lookup conn s.client_data ≡ none
  client_of-none conn s h e = elim (Option-cases (lookup conn s.client_data)) [
    | inl e' ↦ e'
    | inr (p, e') ↦ let (cn, at, _) = h.data_node conn p e' in absurd (ground arith)
  ]

module _ {Db Files : Type 0} (sql : Engine Db) (saves : Saves Files) where
  -- What verifyAccount does: the client is verified and the answer is 0, or neither.
  verify_account-cases :
      (conn p : ℕ) (cn : ClientNode) (pb : VerifyAccountReq) (s : Login Db Files)
      → let (ret, cn', t) = verify_account sql saves conn p cn pb s in
        ((int_eq ret (pos 0) ≡ false) × (t.peers ≡ s.peers))
        ⊎ ((row : AccountRow) × (db_get_user_account_info sql pb.account s.db ≡ some row)
            × (int_eq ret (pos 0) ≡ true)
            × (cn' ≡ record cn { uid = row.uid })
            × (t.peers ≡ record s.peers {
              client_heap = insert p (record cn { uid = row.uid }) s.client_heap;
            }))
  unfolding verify_account
  verify_account-cases conn p cn pb s =
      elim (Option-cases (db_get_user_account_info sql pb.account s.db)) [
        | inl e ↦
            inl (rw (e, verify_account) (refl, peers-answer_verified sql saves conn cn (pos 1) s))
        | inr (row, e) ↦ elim (Bool-cases (str_eq pb.password row.password)) [
          | inr other ↦
              inl (rw (e, verify_account, other) (refl, peers-answer_verified sql saves conn _ _ _))
          | inl same ↦ inr (
            row,
            e,
            rw (e, verify_account, same) (rw (read_exists sql pb.account s.db row e) refl),
            rw (e, verify_account, same) refl,
            rw (e, verify_account, same) (peers-answer_verified sql saves conn _ _ _),
          )
        ]
      ]

module _ {Db Files : Type 0} (sql : Engine Db) (saves : Saves Files) (proto : Proto)
    (json : LoginExtendInfo → GoString) where
  on_unverified_data-HasClientMap :
      (conn p : ℕ) (cn : ClientNode) (op : ℕ) (body : GoString) (s : Login Db Files)
      → HasUids sql s.db
      → client_of conn s ≡ some (p, cn)
      → cn.uid ≡ 0
      → HasClientMap s.peers
      → HasClientMap (on_unverified_data sql saves proto conn p cn op body s).peers
  unfolding on_unverified_data
  on_unverified_data-HasClientMap conn p cn op body s uids of none_yet h =
      elim (Bool-cases (op == op_verify_account_req)) [
        | inr e ↦ rw (on_unverified_data, e) h
        | inl e ↦ elim (Option-cases (proto.verify_account_req body)) [
          | inl bad ↦ rw (on_unverified_data, e, bad) h
          | inr (pb, dec) ↦ elim (verify_account-cases sql saves conn p cn pb s) [
            | inl (bad, same) ↦ rw (on_unverified_data, e, dec, bad, same) h
            | inr (row, read, good, node, set) ↦
                let (at, here) = client_of-node conn s p cn of in
                rw (on_unverified_data, e, dec, good, set, node)
                  (verified-IsClientMap s.client_heap s.client_data s.client_user_map s.client_next
                    h conn p row.uid cn at here none_yet (uids pb.account row read))
          ]
        ]
      ]

  received-HasClientMap :
      (conn : ℕ) (bytes : GoString) (s : Login Db Files)
      → HasUids sql s.db
      → HasClientMap s.peers
      → Gives
          (λ t. HasClientMap t.peers)
          (on_event_from_client_data sql saves proto json conn bytes s)
  unfolding on_event_from_client_data
  received-HasClientMap conn bytes s uids h = elim (Option-cases (client_of conn s)) [
    | inl e ↦ rw (e, on_event_from_client_data) h
    | inr ((p, cn), e) ↦ elim (Option-cases (opcode_and_body bytes)) [
      | inl e' ↦ rw (e, on_event_from_client_data, e') tt
      | inr ((op, body), e') ↦ elim (Bool-cases (cn.uid == 0)) [
        | inl z ↦
            rw (e, on_event_from_client_data, e', z)
              (on_unverified_data-HasClientMap conn p cn op body s uids e ((==_iff cn.uid 0).0 z) h)
        | inr z ↦
            rw (e, on_event_from_client_data, e', z)
              (Gives-map (on_verified_data sql saves proto json conn cn op body s)
                (λ t same. rw same h)
                (peers-on_verified_data sql saves proto json conn cn op body s))
      ]
    ]
  ]

  -- Whatever a client does, clientUserMap goes on to hold exactly the clients that are connected
  -- and verified, each once and under its uid. It is assumed that a new connection is not one of
  -- the open ones, and that no account has the uid 0.
  pub process_event_from_client-HasClientMap :
      (e : ClientEvent) (s : Login Db Files)
      → IsFresh e s.peers
      → HasUids sql s.db
      → HasClientMap s.peers
      → Gives (λ t. HasClientMap t.peers) (process_event_from_client sql saves proto json e s)
  unfolding process_event_from_client on_event_from_client_connected
      on_event_from_client_disconnected
  process_event_from_client-HasClientMap (connected conn token) s fresh uids h =
      connected-IsClientMap s.client_heap s.client_data s.client_user_map s.client_next h
        (new_client conn token s) refl fresh
  process_event_from_client-HasClientMap (disconnected conn) s fresh uids h =
      elim (Option-cases (client_of conn s)) [
        | inl e ↦
            rw (on_event_from_client_disconnected, e)
              (erased_none s.client_heap s.client_data s.client_user_map s.client_next h conn
                (client_of-none conn s h e))
        | inr ((p, cn), e) ↦
            let (at, here) = client_of-node conn s p cn e in
            rw (on_event_from_client_disconnected, e)
              (disconnected-IsClientMap s.client_heap s.client_data s.client_user_map s.client_next
                h conn p cn at here)
      ]
  process_event_from_client-HasClientMap (received conn bytes) s fresh uids h =
      received-HasClientMap conn bytes s uids h
