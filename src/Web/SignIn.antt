-- ===== src/Web/SignIn.antt =====
-- Signing in: webSigninHandler of bmloginsvrapp/web_handler.go. crypto/md5 with its print in hex is
-- a parameter, and the captcha package is external, as for the other forms.
use bmservers.Prelude.{
  ℕ, ◌<◌, ◌^◌, ◌≢◌, ◌≡◌, ◌⊎◌, inl, inr, sym, Bool, true, false, not, Option, none, some, List, [],
  arith, GoString, codes, str_eq, str_eq_iff, length, ltb, ◌==◌, ==_iff, ==_refl, if◌then◌else◌,
  Bool-cases, Option-cases, Gives-some, keep,
}
use bmservers.Prelude.Split.{has_byte}
use bmservers.Web.Cookie.{read_back}
use bmservers.Prelude.Int.{ℤ, negsuc}
use bmservers.Sql.Rows.{Snapshot, WebUserRow}
use bmservers.Sql.Engine.{Engine}
use bmservers.Sql.Laws.{Laws, IsRow, IsFirst}
use bmservers.Sql.Filters.{IsRow-keep, IsRow-of_keep, IsRow-to_keep, some_row}
use bmservers.Web.{
  WebUser, guest, user_name_is, web_uid_is, db_web_user_get, db_web_user_get_by_uid, get_web_user,
  Saved, save_web_user,
}

-- The values of the posted form.
pub record SignInForm : Type 0 where
  pub captcha_solved : Bool
  pub login : GoString
  pub password : GoString
  pub url : GoString

-- Why signing in is refused; `db_error` is the text of an error of the query.
pub data SignInFailure : Type 0 where
  wrong_captcha empty_name empty_password long_password db_error wrong_password : SignInFailure

-- A success comes with the page to go to, and with what is written to the session.
pub data SignInAnswer : Type 0 where
  failed : SignInFailure → SignInAnswer
  signed_in : GoString → Option Saved → SignInAnswer

module _ {Db : Type 0} (sql : Engine Db) (md5_hex : GoString → GoString) where
  -- The password of the user that the query gives is compared.
  abbrev pub check_password : SignInForm → Bool → Option WebUser → SignInAnswer
  check_password form store_failed none = failed db_error
  check_password form store_failed (some user) =
      if not (str_eq (md5_hex form.password) user.password)
      then failed wrong_password
      else signed_in (if length form.url == 0 then codes "/" else form.url)
          (save_web_user store_failed user 0)

  -- The POST branch; `store_failed` is whether the session cannot be opened.
  unfoldable pub web_signin_handler : SignInForm → Bool → Db → SignInAnswer
  web_signin_handler form store_failed db =
      if not form.captcha_solved
      then failed wrong_captcha
      else if length form.login == 0
      then failed empty_name
      else if length form.password == 0
      then failed empty_password
      else if ltb 20 (length form.password)
      then failed long_password
      else check_password form store_failed (db_web_user_get sql form.login db)

-- webSignOutHandler: the MaxAge that ClearWebUser writes to the session, if it is opened, and the
-- page to go to.
abbrev pub clear_web_user : Bool → Option ℤ
clear_web_user store_failed = if store_failed then none else some (negsuc 0)

pub web_sign_out_handler : Bool → WebUser → Option ℤ × GoString
web_sign_out_handler store_failed user =
    if user.uid == 0 then (none, codes "/") else (clear_web_user store_failed, codes "/signin")

-- Rows with the same uid are the same: uid is the primary key.
abbrev pub HasUidKey : List WebUserRow → Type 0
HasUidKey rows = (a b : WebUserRow) → IsRow a rows → IsRow b rows → a.uid ≡ b.uid → a ≡ b

module _ {Db : Type 0} {sql : Engine Db} {view : Db → Snapshot} (laws : Laws sql view)
    (md5_hex : GoString → GoString) (md5_some : (s : GoString) → md5_hex s ≢ []) where
  -- A row that a query finds by name.
  by_name-IsRow :
      (name : GoString) (db : Db) (user : WebUser)
      → db_web_user_get sql name db ≡ some user
      → (user ≡ guest)
        ⊎ (IsRow user (view db).web_users
            × (user.user_name ≡ name)
            × (user.uid < 2 ^ 32)
            × (user.permission < 2 ^ 32))
  unfolding db_web_user_get
  by_name-IsRow name db user e = elim (Option-cases (sql.web_users.first (user_name_is name) db)) [
    | inl nothing ↦ absurd (ground arith)
    | inr (none, read) ↦ inl (ground arith)
    | inr (some r, read) ↦
        let p = λ (r : WebUserRow). str_eq r.user_name name in
        let kept =
          Gives-some (IsFirst (keep p (view db).web_users))
            (sql.web_users.first (user_name_is name) db) read
            (laws.web_users.first_law (user_name_is name) db tt) in
        let same_name : r.user_name ≡ name =
          (str_eq_iff r.user_name name).0 (IsRow-keep p r (view db).web_users kept) in
        let same : user ≡ r = ground arith in
        inr (
          rw same (IsRow-of_keep p r (view db).web_users kept),
          rw same same_name,
          ground arith,
          ground arith,
        )
  ]

  -- The user with a uid is the row with it, if the query does not fail.
  by_uid-same :
      (row : WebUserRow) (db : Db)
      → HasUidKey (view db).web_users
      → IsRow row (view db).web_users
      → row.uid < 2 ^ 32
      → row.permission < 2 ^ 32
      → sql.web_users.first (web_uid_is row.uid) db ≢ none
      → db_web_user_get_by_uid sql row.uid db ≡ some row
  unfolding db_web_user_get_by_uid
  by_uid-same row db key there fits fits' answers =
      elim (Option-cases (sql.web_users.first (web_uid_is row.uid) db)) [
        | inl nothing ↦ absurd (answers nothing)
        | inr (o, read) ↦
            let p = λ (r : WebUserRow). r.uid == row.uid in
            let mine = IsRow-to_keep p row (view db).web_users there (==_refl row.uid) in
            let kept =
              Gives-some (IsFirst (keep p (view db).web_users))
                (sql.web_users.first (web_uid_is row.uid) db) read
                (laws.web_users.first_law (web_uid_is row.uid) db tt) in
            elim (Option-cases o) [
              | inl no_row ↦
                  let empty : keep p (view db).web_users ≡ [] = rw no_row at kept in
                  absurd (some_row (keep p (view db).web_users) row mine empty)
              | inr (r, found) ↦
                  let kept' : IsRow r (keep p (view db).web_users) = rw found at kept in
                  let same : r ≡ row =
                    key r row (IsRow-of_keep p r (view db).web_users kept') there
                      ((==_iff r.uid row.uid).0 (IsRow-keep p r (view db).web_users kept')) in
                  rw (read, found, same) (ground arith)
            ]
      ]

  signed_in-cases :
      (form : SignInForm) (db : Db) (url : GoString) (saved : Saved)
      → web_signin_handler sql md5_hex form false db ≡ signed_in url (some saved)
      → (form.captcha_solved ≡ true)
        × (user : WebUser) × (db_web_user_get sql form.login db ≡ some user)
        × (user.password ≡ md5_hex form.password)
        × (save_web_user false user 0 ≡ some saved)
  unfolding web_signin_handler
  signed_in-cases form db url saved e = elim (Option-cases (db_web_user_get sql form.login db)) [
    | inl nothing ↦ absurd (ground arith)
    | inr (user, read) ↦ elim (Bool-cases (str_eq (md5_hex form.password) user.password)) [
      | inr other ↦ absurd (ground arith)
      | inl same ↦ (
        ground arith,
        user,
        read,
        sym ((str_eq_iff (md5_hex form.password) user.password).0 same),
        ground arith,
      )
    ]
  ]

  -- If webSigninHandler accepts a form and saves a session, then the captcha was solved and there is
  -- a row of web_user with the login of the form, whose password is the MD5 sum of the form's, and
  -- GetWebUser reads that row back from the saved session. It is assumed that the login has no colon,
  -- that uid is a key of the table, that the second query does not fail, and that no MD5 sum is
  -- printed as the empty text.
  pub web_signin_handler-get_web_user :
      (form : SignInForm) (db : Db) (url : GoString) (saved : Saved)
      → has_byte 58 form.login ≡ false
      → HasUidKey (view db).web_users
      → ((uid : ℕ) → sql.web_users.first (web_uid_is uid) db ≢ none)
      → web_signin_handler sql md5_hex form false db ≡ signed_in url (some saved)
      → (form.captcha_solved ≡ true)
        × (row : WebUserRow) × IsRow row (view db).web_users
        × (row.user_name ≡ form.login)
        × (row.password ≡ md5_hex form.password)
        × (get_web_user sql (some (some saved.login_key)) db ≡ row)
  web_signin_handler-get_web_user form db url saved plain key answers e =
      let (solved, user, read, password, stored) = signed_in-cases form db url saved e in
      elim (by_name-IsRow form.login db user read) [
        | inl visitor ↦ absurd (md5_some form.password (ground arith))
        | inr (there, name, fits, fits') ↦ (
          solved,
          user,
          there,
          name,
          password,
          read_back sql user 0 db saved fits (rw name plain) stored
              (by_uid-same user db key there fits fits' (answers user.uid)),
        )
      ]
