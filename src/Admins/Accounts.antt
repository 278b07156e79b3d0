-- ===== src/Admins/Accounts.antt =====
-- Who is an administrator: dbAdminAccountVerify, dbInsertAdminAccount and dbRemoveAdminAccount of
-- bmloginsvrapp/sql.go.
use bmservers.Prelude.{
  ◌≡◌, inl, inr, true, none, some, arith, GoString, str_eq, str_eq_iff, keep, Bool-cases,
  Option-cases, Gives-some,
}
use bmservers.Prelude.Int.{ℤ}
use bmservers.Sql.Rows.{Snapshot, AdminRow, AccountRow}
use bmservers.Sql.Engine.{Engine}
use bmservers.Sql.Laws.{Laws, IsPlain, IsRow, IsFirst}
use bmservers.Sql.Filters.{IsRow-keep, IsRow-of_keep}
use bmservers.Account.{db_get_user_account_info}
use bmservers.Account.Reads.{account-IsRow}
use bmservers.Admins.{
  AdminAccountInfo, admin_is, db_get_admin_account_info, db_admin_account_verify,
}

module _ {Db : Type 0} {sql : Engine Db} {view : Db → Snapshot} (laws : Laws sql view) where
  admin-IsRow :
      (account : GoString) (db : Db) (admin : AdminAccountInfo)
      → IsPlain account
      → db_get_admin_account_info sql account db ≡ some admin
      → IsRow admin (view db).admins × (admin.account ≡ account)
  unfolding db_get_admin_account_info
  admin-IsRow account db admin plain e =
      elim (Option-cases (sql.admins.first (admin_is account) db)) [
        | inl failed ↦ absurd (ground arith)
        | inr (none, read) ↦ absurd (ground arith)
        | inr (some r, read) ↦
            let p = λ (r : AdminRow). str_eq r.account account in
            let kept =
              Gives-some (IsFirst (keep p (view db).admins))
                (sql.admins.first (admin_is account) db) read
                (laws.admins.first_law (admin_is account) db (plain, tt)) in
            let same_account : r.account ≡ account =
              (str_eq_iff r.account account).0 (IsRow-keep p r (view db).admins kept) in
            let same : admin ≡ r = ground arith in
            (rw same (IsRow-of_keep p r (view db).admins kept), rw same same_account)
      ]

  -- If dbAdminAccountVerify accepts an account without a quote, then admin_account has a row with
  -- the account and the level that it returns, and useraccount has a row with the account and the
  -- password.
  pub db_admin_account_verify-IsRow :
      (account password : GoString) (db : Db) (level : ℤ)
      → IsPlain account
      → db_admin_account_verify sql account password db ≡ (true, level)
      → IsRow (record { account = account; level = level }) (view db).admins
        × (row : AccountRow) × IsRow row (keep (λ r. str_eq r.account account) (view db).accounts)
        × (row.password ≡ password)
  unfolding db_admin_account_verify
  db_admin_account_verify-IsRow account password db level plain e =
      elim (Option-cases (db_get_admin_account_info sql account db)) [
        | inl failed ↦ absurd (ground arith)
        | inr (admin, read) ↦ elim (Option-cases (db_get_user_account_info sql account db)) [
          | inl failed ↦ absurd (ground arith)
          | inr (info, found) ↦ elim (Bool-cases (str_eq info.password password)) [
            | inr other ↦ absurd (ground arith)
            | inl same ↦
                let (there, its_account) = admin-IsRow account db admin plain read in
                let row : admin ≡ record { account = account; level = level } = ground arith in
                (
                  rw row at there,
                  info,
                  account-IsRow laws account db info plain found,
                  (str_eq_iff info.password password).0 same,
                )
          ]
        ]
      ]
