-- ===== src/Web/Access.antt =====
-- Who is served: wrapHandler and checkPermission of bmloginsvrapp/router.go.
use bmservers.Prelude.{
  ℕ, ◌≤◌, ◌≡◌, ◌⊎◌, inl, inr, refl, true, none, some, List, [], ◌∷◌, arith, GoString, str_eq,
  str_eq_iff, ◌==◌, ==_iff, Bool-cases, Option-cases, Gives-some, keep,
}
use bmservers.Prelude.Assoc.{int_eq}
use bmservers.Prelude.Int.{ℤ, pos, to_uint32}
use bmservers.Prelude.Split.{split}
use bmservers.Prelude.Decimal.{atoi}
use bmservers.Sql.Rows.{Snapshot, WebUserRow}
use bmservers.Sql.Engine.{Engine}
use bmservers.Sql.Laws.{Laws, IsRow, IsFirst}
use bmservers.Sql.Filters.{IsRow-keep, IsRow-of_keep}
use bmservers.Web.{
  WebUser, permission_user, permission_super_admin, check_permission, web_uid_is, user_of_parts,
  user_of_uid, Session, get_web_user, db_web_user_get_by_uid, RouterItem, handled_by, wrap_handler,
  Page, router_management_items,
}

-- The user is a row of web_user that the cookie names by uid and name.
pub record IsSignedIn (session : Session) (user : WebUser) (rows : List WebUserRow) : Type 0 where
  pub row : WebUserRow
  pub there : IsRow row rows
  pub same : user ≡ row
  pub uid_text : GoString
  pub uid : ℤ
  pub key : GoString
  pub cookie : session ≡ some (some key)
  pub parts : split 58 key ≡ uid_text ∷ user.user_name ∷ []
  pub number : atoi uid_text ≡ some uid
  pub same_uid : to_uint32 uid ≡ user.uid

-- Permissions are compared within their range.
pub check_permission_lem :
    (per_checked want : ℕ)
    → check_permission per_checked want ≡ true
    → (want ≤ per_checked) × (per_checked ≤ permission_super_admin) × (1 ≤ want)
unfolding check_permission
check_permission_lem per_checked want h = (ground arith, ground arith, ground arith)

-- Every management page asks for a super administrator.
management_asks :
    (item : RouterItem Page)
    → IsRow item router_management_items
    → item.permission ≡ permission_super_admin
management_asks item listed = ground arith

module _ {Db : Type 0} {sql : Engine Db} {view : Db → Snapshot} (laws : Laws sql view) where
  by_uid-IsRow :
      (uid : ℕ) (db : Db) (user : WebUser)
      → db_web_user_get_by_uid sql uid db ≡ some user
      → (user.permission ≡ 1) ⊎ (IsRow user (view db).web_users × (user.uid ≡ uid))
  unfolding db_web_user_get_by_uid
  by_uid-IsRow uid db user e = elim (Option-cases (sql.web_users.first (web_uid_is uid) db)) [
    | inl failed ↦ absurd (ground arith)
    | inr (none, read) ↦ inl (ground arith)
    | inr (some r, read) ↦
        let p = λ (r : WebUserRow). r.uid == uid in
        let kept =
          Gives-some (IsFirst (keep p (view db).web_users))
            (sql.web_users.first (web_uid_is uid) db) read
            (laws.web_users.first_law (web_uid_is uid) db tt) in
        let same_uid : r.uid ≡ uid =
          (==_iff r.uid uid).0 (IsRow-keep p r (view db).web_users kept) in
        let same : user ≡ r = ground arith in
        inr (rw same (IsRow-of_keep p r (view db).web_users kept), rw same same_uid)
  ]

  -- The user of a cookie with two parts.
  user_of_uid-cases :
      (key text name : GoString) (db : Db) (user : WebUser)
      → split 58 key ≡ text ∷ name ∷ []
      → user_of_uid sql (atoi text) name db ≡ user
      → (user.permission ≡ 1) ⊎ IsSignedIn (some (some key)) user (view db).web_users
  user_of_uid-cases key text name db user parts e = elim (Option-cases (atoi text)) [
    | inl failed ↦ inl (ground arith)
    | inr (uid, number) ↦ elim (Option-cases (db_web_user_get_by_uid sql (to_uint32 uid) db)) [
      | inl failed ↦ inl (ground arith)
      | inr (dbuser, read) ↦ elim (Bool-cases (str_eq dbuser.user_name name)) [
        | inr other ↦ inl (ground arith)
        | inl named ↦ elim (Bool-cases (int_eq uid (pos 0))) [
          | inl nobody ↦ inl (ground arith)
          | inr somebody ↦
              let same : user ≡ dbuser = ground arith in
              let same_name : dbuser.user_name ≡ name =
                (str_eq_iff dbuser.user_name name).0 named in
              elim (by_uid-IsRow (to_uint32 uid) db dbuser read) [
                | inl visitor ↦ inl (rw same visitor)
                | inr (there, its_uid) ↦ inr (record {
                  row = dbuser;
                  there = there;
                  same = same;
                  uid_text = text;
                  uid = uid;
                  key = key;
                  cookie = refl;
                  parts = rw (same, same_name) parts;
                  number = number;
                  same_uid = rw (same, its_uid) refl;
                })
              ]
        ]
      ]
    ]
  ]

  -- The user of the parts of a cookie.
  user_of_parts-cases :
      (key : GoString) (parts : List GoString) (db : Db) (user : WebUser)
      → split 58 key ≡ parts
      → user_of_parts sql parts db ≡ user
      → (user.permission ≡ 1) ⊎ IsSignedIn (some (some key)) user (view db).web_users
  user_of_parts-cases key [] db user parts e = inl (ground arith)
  user_of_parts-cases key (uid ∷ []) db user parts e = inl (ground arith)
  user_of_parts-cases key (uid ∷ name ∷ []) db user parts e =
      user_of_uid-cases key uid name db user parts e
  user_of_parts-cases key (uid ∷ name ∷ more ∷ rest) db user parts e = inl (ground arith)

  get_web_user-cases :
      (session : Session) (db : Db) (user : WebUser)
      → get_web_user sql session db ≡ user
      → (user.permission ≡ 1) ⊎ IsSignedIn session user (view db).web_users
  unfolding get_web_user
  get_web_user-cases none db user e = inl (ground arith)
  get_web_user-cases (some none) db user e = inl (ground arith)
  get_web_user-cases (some (some key)) db user e =
      user_of_parts-cases key (split 58 key) db user refl e

  -- If wrapHandler runs the handler of a route that asks for more than a guest, then it runs that
  -- route's handler for a user who is a row of web_user; the session's cookie has two parts, the
  -- number and the name of that row; and the permission of the row is at least the one that the
  -- route asks for, and at most that of a super administrator.
  pub wrap_handler-IsSignedIn :
      {H : Type 0} (item : RouterItem H) (session : Session) (db : Db) (handler : H)
      (user : WebUser)
      → permission_user ≤ item.permission
      → wrap_handler sql item session db ≡ handled_by handler user
      → (handler ≡ item.handler)
        × IsSignedIn session user (view db).web_users
        × (item.permission ≤ user.permission)
        × (user.permission ≤ permission_super_admin)
  unfolding wrap_handler
  wrap_handler-IsSignedIn item session db handler user asks e =
      let who = get_web_user sql session db in
      elim (Bool-cases (check_permission who.permission item.permission)) [
        | inr denied ↦ absurd (ground arith)
        | inl allowed ↦
            let same : who ≡ user = ground arith in
            let (enough, known, _) = check_permission_lem who.permission item.permission allowed in
            elim (get_web_user-cases session db user same) [
              | inl visitor ↦ absurd (ground arith)
              | inr signed_in ↦ (ground arith, signed_in, rw same at enough, rw same at known)
            ]
      ]

  -- If InitRouters' handler of a management page runs it, then it runs it for a user who is a row of
  -- web_user, named by the cookie of the session, with the permission of a super administrator.
  pub management_page-IsSignedIn :
      (item : RouterItem Page) (session : Session) (db : Db) (page : Page) (user : WebUser)
      → IsRow item router_management_items
      → wrap_handler sql item session db ≡ handled_by page user
      → IsSignedIn session user (view db).web_users × (user.permission ≡ permission_super_admin)
  management_page-IsSignedIn item session db page user listed e =
      let asks : item.permission ≡ permission_super_admin = management_asks item listed in
      let (_, signed_in, enough, known) =
        wrap_handler-IsSignedIn item session db page user (omega arith) e in
      (signed_in, omega arith)
