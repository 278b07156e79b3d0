-- ===== src/Login/Verify.antt =====
-- Who is verified: the ways in which an event of a client can change a client's uid.
use bmservers.Prelude.{
  Gives, decoded_cases, Gives-map, ℕ, ◌≡◌, ◌⊎◌, inl, inr, refl, ap, true, none, some, List, arith,
  GoString, str_eq, str_eq_iff, keep, ◌==◌, Bool-cases, Option-cases,
}
use bmservers.Prelude.Int.{ℤ, pos}
use bmservers.Prelude.Assoc.{nat_key, lookup, insert, lookup-insert}
use bmservers.Sql.Rows.{Snapshot, AccountRow}
use bmservers.Sql.Engine.{Engine}
use bmservers.Sql.Laws.{Laws, IsPlain, IsRow}
use bmservers.Account.{db_get_user_account_info}
use bmservers.Account.Reads.{account-IsRow}
use bmservers.Login.State.{ClientNode, Peers, Login, Saves, Proto, VerifyAccountReq}
use bmservers.Login.LoginGame.{LoginExtendInfo}
use bmservers.Login.Clients.{
  ClientEvent, connected, disconnected, received, opcode_and_body, op_verify_account_req,
  new_client, client_of, answer_verified, verify_account, on_unverified_data, on_verified_data,
  on_event_from_client_data, on_event_from_client_connected, on_event_from_client_disconnected,
  process_event_from_client,
}
use bmservers.Login.Frame.{
  peers-sync, peers-on_create_hum_req, peers-on_del_hum_req, peers-on_login_game,
}

-- The uid of the node at a pointer, 0 if it is not verified.
abbrev pub uid_at : ℕ → Peers → ℕ
uid_at p s = elim (lookup p s.client_heap) [ none ↦ 0 | some cn ↦ cn.uid ]

module _ {Db Files : Type 0} (sql : Engine Db) (saves : Saves Files) where
  pub peers-answer_verified :
      (conn : ℕ) (cn : ClientNode) (ret : ℤ) (s : Login Db Files)
      → (answer_verified sql saves conn cn ret s).peers ≡ s.peers
  unfolding answer_verified
  peers-answer_verified conn cn ret s = ground (arith, peers-sync sql saves conn cn s)

  -- What verifyAccount does to the peers: nothing, or the client gets the uid of a row that is read
  -- and has the password.
  pub peers-verify_account :
      (conn p : ℕ) (cn : ClientNode) (pb : VerifyAccountReq) (s : Login Db Files)
      → ((verify_account sql saves conn p cn pb s).2.peers ≡ s.peers)
        ⊎ ((row : AccountRow) × (db_get_user_account_info sql pb.account s.db ≡ some row)
            × (pb.password ≡ row.password)
            × ((verify_account sql saves conn p cn pb s).2.peers ≡ record s.peers {
              client_heap = insert p (record cn { uid = row.uid }) s.client_heap;
            }))
  unfolding verify_account
  peers-verify_account conn p cn pb s =
      elim (Option-cases (db_get_user_account_info sql pb.account s.db)) [
        | inl e ↦ inl (rw (e, verify_account) (peers-answer_verified conn cn (pos 1) s))
        | inr (row, e) ↦ elim (Bool-cases (str_eq pb.password row.password)) [
          | inl same ↦ inr (
            row,
            e,
            (str_eq_iff pb.password row.password).0 same,
            rw (e, verify_account, same) (peers-answer_verified conn _ _ _),
          )
          | inr other ↦ inl (rw (e, verify_account, other) (peers-answer_verified conn _ _ _))
        ]
      ]

module _ {Db Files : Type 0} (sql : Engine Db) (saves : Saves Files) (proto : Proto)
    (json : LoginExtendInfo → GoString) where
  pub peers-on_verified_data :
      (conn : ℕ) (cn : ClientNode) (op : ℕ) (body : GoString) (s : Login Db Files)
      → Gives (λ t. t.peers ≡ s.peers) (on_verified_data sql saves proto json conn cn op body s)
  unfolding on_verified_data
  peers-on_verified_data conn cn op body s = ground (
    arith,
    decoded_cases (proto.create_hum_req body)
        (λ pb. peers-on_create_hum_req sql saves conn cn pb s),
    decoded_cases (proto.del_hum_req body) (λ name. peers-on_del_hum_req sql saves conn cn name s),
    decoded_cases (proto.login_game_req body)
        (λ name. peers-on_login_game sql saves json conn cn name s),
  )

-- The event is a request to verify an account, and the uid is that of a row of the account which
-- has the password that is given.
pub record IsVerified (proto : Proto) (accounts : List AccountRow) (e : ClientEvent) (uid : ℕ)
    : Type 0 where
  pub conn : ℕ
  pub bytes : GoString
  pub body : GoString
  pub request : VerifyAccountReq
  pub row : AccountRow
  pub packet : e ≡ received conn bytes
  pub opcode : opcode_and_body bytes ≡ some (op_verify_account_req, body)
  pub decoded : proto.verify_account_req body ≡ some request
  pub stored : IsRow row (keep (λ r. str_eq r.account request.account) accounts)
  pub password : request.password ≡ row.password
  pub uid_of : uid ≡ row.uid

module _ {Db Files : Type 0} {sql : Engine Db} (saves : Saves Files) (proto : Proto)
    (json : LoginExtendInfo → GoString) {view : Db → Snapshot} (laws : Laws sql view) where
  -- The account of every request that can be decoded has no quote.
  abbrev IsUnquoted : Type 0
  IsUnquoted =
      (body : GoString) (pb : VerifyAccountReq)
      → proto.verify_account_req body ≡ some pb
      → IsPlain pb.account

  uid_at-insert :
      (p q : ℕ) (cn : ClientNode) (s : Peers)
      → (uid_at q (record s { client_heap = insert p cn s.client_heap }) ≡ uid_at q s)
        ⊎ (uid_at q (record s { client_heap = insert p cn s.client_heap }) ≡ cn.uid)
  uid_at-insert p q cn s = ground (arith, lookup-insert p q cn s.client_heap)

  heap-unverified :
      (conn p : ℕ) (cn : ClientNode) (op : ℕ) (body : GoString) (pb : VerifyAccountReq)
      (s : Login Db Files)
      → (op == op_verify_account_req) ≡ true
      → proto.verify_account_req body ≡ some pb
      → (on_unverified_data sql saves proto conn p cn op body s).client_heap
        ≡ (verify_account sql saves conn p cn pb s).2.client_heap
  unfolding on_unverified_data
  heap-unverified conn p cn op body pb s e e' = ground arith

  uid_at-unverified :
      IsUnquoted
      → (conn p : ℕ) (cn : ClientNode) (bytes : GoString) (op : ℕ) (body : GoString)
        (s : Login Db Files) (q : ℕ)
      → opcode_and_body bytes ≡ some (op, body)
      → let t = on_unverified_data sql saves proto conn p cn op body s in
        (uid_at q t.peers ≡ uid_at q s.peers)
        ⊎ IsVerified proto (view s.db).accounts (received conn bytes) (uid_at q t.peers)
  unfolding on_unverified_data
  uid_at-unverified plain conn p cn bytes op body s q at =
      elim (Bool-cases (op == op_verify_account_req)) [
        | inr e ↦ inl (ground arith)
        | inl e ↦ elim (Option-cases (proto.verify_account_req body)) [
          | inl e' ↦ inl (ground arith)
          | inr (pb, e') ↦
              let heap = heap-unverified conn p cn op body pb s e e' in
              elim (peers-verify_account sql saves conn p cn pb s) [
                | inl same ↦ inl (ground arith)
                | inr (row, read, password, peers) ↦
                    elim (uid_at-insert p q (record cn { uid = row.uid }) s.peers) [
                      | inl same ↦ inl (ground arith)
                      | inr new ↦ inr (record {
                        conn = conn;
                        bytes = bytes;
                        body = body;
                        request = pb;
                        row = row;
                        packet = refl;
                        opcode = ground arith;
                        decoded = e';
                        stored = account-IsRow laws pb.account s.db row (plain body pb e') read;
                        password = password;
                        uid_of = ground arith;
                      })
                    ]
              ]
        ]
      ]

  uid_at-received :
      IsUnquoted
      → (conn : ℕ) (bytes : GoString) (s : Login Db Files) (q : ℕ)
      → Gives
          (λ t.
            (uid_at q t.peers ≡ uid_at q s.peers)
            ⊎ IsVerified proto (view s.db).accounts (received conn bytes) (uid_at q t.peers))
          (on_event_from_client_data sql saves proto json conn bytes s)
  unfolding on_event_from_client_data
  uid_at-received plain conn bytes s q = elim (Option-cases (client_of conn s)) [
    | inl e ↦ rw (e, on_event_from_client_data) (inl refl)
    | inr ((p, cn), e) ↦ elim (Option-cases (opcode_and_body bytes)) [
      | inl e' ↦ rw (e, on_event_from_client_data, e') tt
      | inr ((op, body), e') ↦ elim (Bool-cases (cn.uid == 0)) [
        | inl z ↦
            rw (e, on_event_from_client_data, e', z)
              (uid_at-unverified plain conn p cn bytes op body s q e')
        | inr z ↦
            rw (e, on_event_from_client_data, e', z)
              (Gives-map (on_verified_data sql saves proto json conn cn op body s)
                (λ t h. inl (ap (uid_at q) h))
                (peers-on_verified_data sql saves proto json conn cn op body s))
      ]
    ]
  ]

  -- Whatever a client does, a uid in the heap stays, is that of a new node, 0, or becomes that of an
  -- account row whose password the same packet gave. It is assumed that no decoded account has a
  -- quote.
  pub process_event_from_client-IsVerified :
      IsUnquoted
      → (e : ClientEvent) (s : Login Db Files) (q : ℕ)
      → Gives
          (λ t.
            (uid_at q t.peers ≡ uid_at q s.peers)
            ⊎ (uid_at q t.peers ≡ 0)
            ⊎ IsVerified proto (view s.db).accounts e (uid_at q t.peers))
          (process_event_from_client sql saves proto json e s)
  unfolding process_event_from_client on_event_from_client_connected
      on_event_from_client_disconnected
  process_event_from_client-IsVerified plain (connected conn token) s q =
      let cn = new_client conn token s in
      ground (arith, lookup-insert s.client_next q cn s.client_heap)
  process_event_from_client-IsVerified plain (disconnected conn) s q = inl (ground arith)
  process_event_from_client-IsVerified plain (received conn bytes) s q =
      Gives-map (on_event_from_client_data sql saves proto json conn bytes s)
        (λ t h. elim h [ inl same ↦ inl same | inr new ↦ inr (inr new) ])
        (uid_at-received plain conn bytes s q)
