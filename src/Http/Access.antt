-- ===== src/Http/Access.antt =====
-- What administrators may do: adminHandler of bmloginsvrapp/http_admin_handler.go.
use bmservers.Prelude.{
  ◌≡◌, ◌≢◌, ◌⊎◌, inl, inr, refl, ap, Bool, true, false, Option, none, some, List, [], ◌∷◌, arith,
  GoString, codes, length, ◌==◌, str_eq, str_eq_iff, Bool-cases, Option-cases,
}
use bmservers.Prelude.Int.{ℤ, pos, ◌-ℤ◌, ◌≤ℤ◌, to_int64}
use bmservers.Prelude.Assoc.{str_key, lookup}
use bmservers.Prelude.Split.{split}
use bmservers.Sql.Engine.{Engine}
use bmservers.Lobby.{UserGameServer, Main}
use bmservers.Lobby.Messages.{process_m_thread_msg}
use bmservers.Admins.{db_admin_account_verify}
use bmservers.Http.Admin.{
  AdminHandlerSessionInfo, Sessions, access_super_admin, is_timeout, CheckAdminError, check_ok,
  not_exists, timeout, address_error, check_ip, ip_of, check_admin_handler_session, AdminRequest,
  Reply, unverified, verified, with_session, admin_handler, add_admin_action, del_admin_action,
  enable_ol_room_action, open_session,
}

-- The cookie of the request names a session of a super administrator, whose level is 2 or more; it
-- was made 1800 seconds ago at most for the IP that the request comes from.
pub record IsAuthorised (now : ℤ) (r : AdminRequest) (st : Sessions) : Type 0 where
  pub guid : GoString
  pub cookie : r.cookie ≡ some guid
  pub session : AdminHandlerSessionInfo
  pub known : lookup guid st.table ≡ some session
  pub recent : to_int64 (now -ℤ session.verify_time) ≤ℤ pos 1800
  pub port : GoString
  pub address : split 58 r.remote_addr ≡ session.ip ∷ port ∷ []
  pub super : pos 2 ≤ℤ session.level
  pub action : (r.action ≡ codes "add_admin") ⊎ (r.action ≡ codes "del_admin")

-- A session that passes the check.
ip_parts :
    (parts : List GoString) (ip : GoString)
    → check_ip (ip_of parts) ip ≡ check_ok
    → (port : GoString) × (parts ≡ ip ∷ port ∷ [])
ip_parts [] ip e = absurd (ground arith)
ip_parts (a ∷ []) ip e = absurd (ground arith)
ip_parts (a ∷ b ∷ c ∷ rest) ip e = absurd (ground arith)
ip_parts (a ∷ b ∷ []) ip e = elim (Bool-cases (str_eq a ip)) [
  | inl same ↦ (b, ap (λ a. a ∷ b ∷ []) ((str_eq_iff a ip).0 same))
  | inr other ↦ absurd (ground arith)
]

not_late :
    (now : ℤ) (session : AdminHandlerSessionInfo)
    → is_timeout now session ≡ false
    → to_int64 (now -ℤ session.verify_time) ≤ℤ pos 1800
not_late now session e = ground arith

checked_session :
    (now : ℤ) (address : GoString) (session : AdminHandlerSessionInfo)
    → check_admin_handler_session now address (some session) ≡ check_ok
    → (to_int64 (now -ℤ session.verify_time) ≤ℤ pos 1800)
      × (port : GoString) × (split 58 address ≡ session.ip ∷ port ∷ [])
unfolding check_admin_handler_session
checked_session now address session e = elim (Bool-cases (is_timeout now session)) [
  | inl late ↦ absurd (ground arith)
  | inr soon ↦
      let (port, parts) = ip_parts (split 58 address) session.ip (ground arith) in
      (not_late now session soon, port, parts)
]

module _ {Db : Type 0} (sql : Engine Db) (decode : GoString → Option UserGameServer)
    (encode : UserGameServer → Option GoString) where
  -- The database after a request.
  abbrev pub db_after : Reply × (Sessions × Main Db) → Db
  db_after (reply, (st, s)) = s.db

  open_session-db :
      (now : ℤ) (guid : GoString) (r : AdminRequest) (v : Bool × ℤ) (st : Sessions) (s : Main Db)
      → db_after (open_session sql decode encode now guid r v st s) ≡ s.db
  open_session-db now guid r (false, level) st s = refl
  open_session-db now guid r (true, level) st s = ground arith

  unverified-db :
      (now : ℤ) (guid : GoString) (r : AdminRequest) (st : Sessions) (s : Main Db)
      → db_after (unverified sql decode encode now guid r st s) ≡ s.db
  unverified-db now guid r st s = ground (
    arith,
    open_session-db now guid r (db_admin_account_verify sql r.account r.password s.db) st s,
  )

  enable-db :
      (now : ℤ) (late : Bool) (r : AdminRequest) (st : Sessions) (s : Main Db)
      → db_after (enable_ol_room_action sql decode encode now late r st s) ≡ s.db
  unfolding process_m_thread_msg
  enable-db now late r st s = refl

  add_admin-db :
      (r : AdminRequest) (session : AdminHandlerSessionInfo) (st : Sessions) (s : Main Db)
      → (db_after (add_admin_action sql decode encode r session st s) ≡ s.db)
        ⊎ (access_super_admin ≤ℤ session.level)
  add_admin-db r session st s = ground arith

  del_admin-db :
      (r : AdminRequest) (session : AdminHandlerSessionInfo) (st : Sessions) (s : Main Db)
      → (db_after (del_admin_action sql decode encode r session st s) ≡ s.db)
        ⊎ (access_super_admin ≤ℤ session.level)
  del_admin-db r session st s = ground arith

  verified-db :
      (now : ℤ) (late : Bool) (r : AdminRequest) (session : AdminHandlerSessionInfo) (st : Sessions)
      (s : Main Db)
      → (db_after (verified sql decode encode now late r session st s) ≡ s.db)
        ⊎ ((access_super_admin ≤ℤ session.level)
            × ((r.action ≡ codes "add_admin") ⊎ (r.action ≡ codes "del_admin")))
  verified-db now late r session st s = elim (Bool-cases (str_eq r.action (codes "add_admin"))) [
    | inl add ↦ elim (add_admin-db r session st s) [
      | inl same ↦ inl (rw add same)
      | inr super ↦ inr (super, inl ((str_eq_iff r.action (codes "add_admin")).0 add))
    ]
    | inr e ↦ elim (Bool-cases (str_eq r.action (codes "del_admin"))) [
      | inl del ↦ elim (del_admin-db r session st s) [
        | inl same ↦ inl (rw (e, del) same)
        | inr super ↦ inr (super, inr ((str_eq_iff r.action (codes "del_admin")).0 del))
      ]
      | inr e' ↦ elim (Bool-cases (str_eq r.action (codes "enableolroom"))) [
        | inl enable ↦ inl (rw (e, e', enable) (enable-db now late r st s))
        | inr e'' ↦ inl (rw (e, e', e'') refl)
      ]
    ]
  ]

  checked-db :
      (now : ℤ) (late : Bool) (guid : GoString) (r : AdminRequest)
      (session : AdminHandlerSessionInfo) (c : CheckAdminError) (st : Sessions) (s : Main Db)
      → r.cookie ≡ some guid
      → lookup guid st.table ≡ some session
      → check_admin_handler_session now r.remote_addr (some session) ≡ c
      → (db_after (with_session sql decode encode now late r (some session) c st s) ≡ s.db)
        ⊎ IsAuthorised now r st
  checked-db now late guid r session not_exists st s cookie found e = inl refl
  checked-db now late guid r session timeout st s cookie found e = inl refl
  checked-db now late guid r session address_error st s cookie found e = inl refl
  checked-db now late guid r session check_ok st s cookie found e =
      elim (verified-db now late r session st s) [
        | inl same ↦ inl same
        | inr (super, action) ↦
            let (soon, port, parts) = checked_session now r.remote_addr session e in
            inr (record {
              guid = guid;
              cookie = cookie;
              session = session;
              known = found;
              recent = soon;
              port = port;
              address = parts;
              super = super;
              action = action;
            })
      ]

  with_session-db :
      (now : ℤ) (late : Bool) (guid : GoString) (r : AdminRequest)
      (o : Option AdminHandlerSessionInfo) (st : Sessions) (s : Main Db)
      → r.cookie ≡ some guid
      → lookup guid st.table ≡ o
      → (db_after (
            with_session sql decode encode now late r o
              (check_admin_handler_session now r.remote_addr o)
              st
              s)
          ≡ s.db)
        ⊎ IsAuthorised now r st
  unfolding check_admin_handler_session
  with_session-db now late guid r none st s cookie found = inl refl
  with_session-db now late guid r (some session) st s cookie found =
      checked-db now late guid r session
        (check_admin_handler_session now r.remote_addr (some session)) st s cookie found refl

  -- If a request to adminHandler changes the database, then its cookie names a session that is known,
  -- was made 1800 seconds ago at most and belongs to the IP that the request comes from; the session
  -- has level 2, a super administrator's, or more; and the action is add_admin or del_admin.
  pub admin_handler-IsAuthorised :
      (now : ℤ) (late : Bool) (guid : GoString) (r : AdminRequest) (st : Sessions) (s : Main Db)
      → db_after (admin_handler sql decode encode now late guid r st s) ≢ s.db
      → IsAuthorised now r st
  unfolding admin_handler
  admin_handler-IsAuthorised now late guid r st s changed =
      elim (Bool-cases (length r.action == 0)) [
        | inl empty ↦ absurd (changed (rw empty refl))
        | inr action ↦ elim (Option-cases r.cookie) [
          | inl missing ↦ absurd (changed (rw (action, missing) (unverified-db now guid r st s)))
          | inr (value, cookie) ↦ elim (Bool-cases (length value == 0)) [
            | inl blank ↦
                absurd (changed (rw (action, cookie, blank) (unverified-db now guid r st s)))
            | inr text ↦
                elim (with_session-db now late value r (lookup value st.table) st s cookie refl) [
                  | inl same ↦ absurd (changed (rw (action, cookie, text) same))
                  | inr authorised ↦ authorised
                ]
          ]
        ]
      ]
