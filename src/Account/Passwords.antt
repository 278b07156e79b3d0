-- ===== src/Account/Passwords.antt =====
-- dbUpdateUserAccountPassword of bmloginsvrapp/sql.go: what it makes of useraccount.
use bmservers.Prelude.{◌≡◌, true, false, List, [], ◌∷◌, GoString, str_eq}
use bmservers.Sql.Rows.{Snapshot, AccountRow}
use bmservers.Sql.Engine.{Engine}
use bmservers.Sql.Laws.{Laws, IsPlain, changed}
use bmservers.Sql.Calls.{executed-Gives, executed-failed}
use bmservers.Account.{account_is, db_update_user_account_password}

-- The accounts with a new password for one of them.
abbrev pub with_password : GoString → GoString → List AccountRow → List AccountRow
with_password account password rows =
    changed (λ r. record r { password = password }) (λ r. str_eq r.account account) rows

pub password_kept :
    {Db : Type 0} (sql : Engine Db) (account password : GoString) (db db' : Db)
    → db_update_user_account_password sql account password db ≡ (false, db')
    → db' ≡ db
unfolding db_update_user_account_password
password_kept sql account password db db' e =
    executed-failed
      (sql.accounts.update (λ r. record r { password = password })
        (record (account_is account) { spliced = password ∷ account ∷ [] }) db)
      db db' e

module _ {Db : Type 0} {sql : Engine Db} {view : Db → Snapshot} (laws : Laws sql view) where
  pub password_updated :
      (account password : GoString) (db db' : Db)
      → IsPlain account
      → IsPlain password
      → db_update_user_account_password sql account password db ≡ (true, db')
      → view db' ≡ record (view db) { accounts = with_password account password (view db).accounts }
  unfolding db_update_user_account_password
  password_updated account password db db' plain plain' e =
      let c = record (account_is account) { spliced = password ∷ account ∷ [] } in
      let f = λ (r : AccountRow). record r { password = password } in
      executed-Gives
        (λ d.
          view d
          ≡ record (view db) { accounts = with_password account password (view db).accounts })
        (sql.accounts.update f c db) db db' (laws.accounts.update_law f c db (plain', (plain, tt)))
        e
