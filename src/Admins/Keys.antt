-- ===== src/Admins/Keys.antt =====
-- One row for each administrator and for each order: dbInsertAdminAccount, dbRemoveAdminAccount and
-- dbInsertDonateRequest of bmloginsvrapp/sql.go.
use bmservers.Prelude.{
  ◌≡◌, ◌⊎◌, inl, inr, true, false, List, [], ◌∷◌, ◌++◌, arith, GoString, str_eq, keep, Bool-cases,
  Option-cases,
}
use bmservers.Prelude.Int.{ℤ, pos, ◌<ℤ◌}
use bmservers.Sql.Rows.{Snapshot, AdminRow, AccountRow, RequestRow}
use bmservers.Sql.Engine.{Engine}
use bmservers.Sql.Laws.{Laws, IsPlain, IsRow, without}
use bmservers.Sql.Filters.{keep-without_self}
use bmservers.Sql.Calls.{executed-Gives, exists_or_error}
use bmservers.Sql.Keys.{rows_with, IsKey, append-IsKey, not_there}
use bmservers.Account.{db_get_user_account_info}
use bmservers.Account.Reads.{account-IsRow}
use bmservers.Admins.{
  DonateRequest, admin_is, order_is, db_admin_account_exists, db_insert_admin_account,
  db_remove_admin_account, db_donate_request_exists, db_insert_donate_request,
}

abbrev pub admin_rows : GoString → Snapshot → List AdminRow
admin_rows account s = rows_with (λ r. r.account) account s.admins

abbrev pub request_rows : GoString → Snapshot → List RequestRow
request_rows order s = rows_with (λ r. r.orderid) order s.requests

-- What an insert of an administrator that returns true has done.
abbrev pub IsAdminAdded : GoString → ℤ → Snapshot → Snapshot → Type 0
IsAdminAdded account level s t =
    (t ≡ record s { admins = s.admins ++ (record { account = account; level = level }) ∷ [] })
    × (pos 0 <ℤ level)
    × ((row : AccountRow) × IsRow row (keep (λ r. str_eq r.account account) s.accounts))

module _ {Db : Type 0} {sql : Engine Db} {view : Db → Snapshot} (laws : Laws sql view) where
  new_admin :
      (account : GoString) (db : Db)
      → IsPlain account
      → db_admin_account_exists sql account db ≡ false
      → admin_rows account (view db) ≡ []
  unfolding db_admin_account_exists
  new_admin account db plain e =
      not_there (λ r. r.account) account (view db).admins (sql.admins.count (admin_is account) db)
        (laws.admins.count_law (admin_is account) db (plain, tt)) e

  insert_admin-cases :
      (account : GoString) (level : ℤ) (db db' : Db)
      → IsPlain account
      → db_insert_admin_account sql account level db ≡ (true, db')
      → (db' ≡ db)
        ⊎ ((admin_rows account (view db) ≡ []) × IsAdminAdded account level (view db) (view db'))
  unfolding db_insert_admin_account
  insert_admin-cases account level db db' plain e =
      elim (Bool-cases (db_admin_account_exists sql account db)) [
        | inl there ↦ inl (ground arith)
        | inr new ↦ elim (Option-cases (db_get_user_account_info sql account db)) [
          | inl unknown ↦ absurd (ground arith)
          | inr (info, found) ↦
              let row : AdminRow = record { account = account; level = level } in
              let added =
                executed-Gives
                  (λ d. view d ≡ record (view db) { admins = (view db).admins ++ row ∷ [] })
                  (sql.admins.insert (account ∷ []) row db) db db'
                  (laws.admin_insert (account ∷ []) row db (plain, tt)) (ground arith) in
              inr (
                new_admin account db plain new,
                (added, ground arith, (info, account-IsRow laws account db info plain found)),
              )
        ]
      ]

  -- In a database where each administrator has one row at most: if dbInsertAdminAccount returns true
  -- for an account without a quote, then that is still so, and either nothing is changed, or the
  -- account had no row yet, the level is positive, useraccount has the account, and the row with
  -- the account and the level is added after the others.
  pub db_insert_admin_account-IsKey :
      (account : GoString) (level : ℤ) (db db' : Db)
      → IsPlain account
      → IsKey (λ r. r.account) (view db).admins
      → db_insert_admin_account sql account level db ≡ (true, db')
      → IsKey (λ r. r.account) (view db').admins
        × ((db' ≡ db)
            ⊎ ((admin_rows account (view db) ≡ [])
                × IsAdminAdded account level (view db) (view db')))
  db_insert_admin_account-IsKey account level db db' plain h e =
      elim (insert_admin-cases account level db db' plain e) [
        | inl same ↦ (rw same h, inl same)
        | inr (new, added) ↦ (
          rw added.0 (
              append-IsKey (λ r. r.account) (view db).admins
                (record { account = account; level = level }) h new),
          inr (new, added),
        )
      ]

  -- After dbRemoveAdminAccount has returned true for an account without a quote, the account is no
  -- administrator, and nothing but its rows in admin_account is removed.
  pub db_remove_admin_account-IsGone :
      (account : GoString) (db db' : Db)
      → IsPlain account
      → db_remove_admin_account sql account db ≡ (true, db')
      → (admin_rows account (view db') ≡ [])
        × ((db' ≡ db)
            ⊎ (view db' ≡ record (view db) {
              admins = without (λ r. str_eq r.account account) (view db).admins;
            }))
  unfolding db_remove_admin_account
  db_remove_admin_account-IsGone account db db' plain e =
      elim (Bool-cases (db_admin_account_exists sql account db)) [
        | inr new ↦
            let same : db' ≡ db = ground arith in
            (rw same (new_admin account db plain new), inl same)
        | inl there ↦
            let p = λ (r : AdminRow). str_eq r.account account in
            let gone =
              executed-Gives
                (λ d. view d ≡ record (view db) { admins = without p (view db).admins })
                (sql.admins.delete (admin_is account) db) db db'
                (laws.admins.delete_law (admin_is account) db (plain, tt)) (ground arith) in
            (rw gone (keep-without_self p (view db).admins), inr gone)
      ]

  -- In a table donate_request where each order has one row at most: if dbInsertDonateRequest returns
  -- true for a request whose texts have no quote, then that is still so, and either nothing is
  -- changed, or the order had no row yet and the request is added after the others.
  pub db_insert_donate_request-IsKey :
      (dr : DonateRequest) (db db' : Db)
      → IsPlain dr.name
      → IsPlain dr.orderid
      → IsPlain dr.note
      → IsKey (λ r. r.orderid) (view db).requests
      → db_insert_donate_request sql dr db ≡ (true, db')
      → IsKey (λ r. r.orderid) (view db').requests
        × ((db' ≡ db)
            ⊎ ((request_rows dr.orderid (view db) ≡ [])
                × (view db' ≡ record (view db) { requests = (view db).requests ++ dr ∷ [] })))
  unfolding db_insert_donate_request db_donate_request_exists
  db_insert_donate_request-IsKey dr db db' plain plain' plain'' h e =
      elim (Bool-cases (exists_or_error (sql.requests.count (order_is dr.orderid) db))) [
        | inl there ↦ let same : db' ≡ db = ground arith in (rw same h, inl same)
        | inr new ↦
            let none_yet =
              not_there (λ r. r.orderid) dr.orderid (view db).requests
                (sql.requests.count (order_is dr.orderid) db)
                (laws.requests.count_law (order_is dr.orderid) db (plain', tt)) new in
            let added =
              executed-Gives
                (λ d. view d ≡ record (view db) { requests = (view db).requests ++ dr ∷ [] })
                (sql.requests.insert (dr.name ∷ dr.orderid ∷ dr.note ∷ []) dr db) db db'
                (laws.request_insert (dr.name ∷ dr.orderid ∷ dr.note ∷ []) dr db
                  (plain, (plain', (plain'', tt))))
                (ground arith) in
            (
              rw added (append-IsKey (λ r. r.orderid) (view db).requests dr h none_yet),
              inr (none_yet, added),
            )
      ]
