-- ===== src/Account/Reads.antt =====
-- What the queries on useraccount read.
use bmservers.Prelude.{
  Gives, ℕ, ◌≡◌, true, Option, none, some, List, arith, GoString, keep, str_eq, ◌==◌,
}
use bmservers.Sql.Rows.{Snapshot, AccountRow}
use bmservers.Sql.Engine.{Engine}
use bmservers.Sql.Laws.{Laws, IsPlain, IsFirst, IsRow}
use bmservers.Account.{
  fetched, account_is, uid_is, db_user_account_exist, db_get_user_account_info,
  db_get_user_account_info_by_uid,
}

fetched-IsRow :
    (rows : List AccountRow) (o : Option (Option AccountRow)) (info : AccountRow)
    → Gives (IsFirst rows) o
    → fetched o ≡ some info
    → IsRow info rows
fetched-IsRow rows none info g h = cc
fetched-IsRow rows (some none) info g h = cc
fetched-IsRow rows (some (some r)) info g h = ground arith

-- An account of which a row is read exists for the query that looks for it again.
pub read_exists :
    {Db : Type 0} (sql : Engine Db) (account : GoString) (db : Db) (row : AccountRow)
    → db_get_user_account_info sql account db ≡ some row
    → db_user_account_exist sql account db ≡ true
unfolding db_get_user_account_info db_user_account_exist
read_exists sql account db row e = ground arith

module _ {Db : Type 0} {sql : Engine Db} {view : Db → Snapshot} (laws : Laws sql view) where
  -- A row that is read for an account is a row of that account.
  pub account-IsRow :
      (account : GoString) (db : Db) (info : AccountRow)
      → IsPlain account
      → db_get_user_account_info sql account db ≡ some info
      → IsRow info (keep (λ r. str_eq r.account account) (view db).accounts)
  unfolding db_get_user_account_info
  account-IsRow account db info plain h =
      fetched-IsRow _ _ info (laws.accounts.first_law (account_is account) db (plain, tt))
        (ground arith)

  pub uid-IsRow :
      (uid : ℕ) (db : Db) (info : AccountRow)
      → db_get_user_account_info_by_uid sql uid db ≡ some info
      → IsRow info (keep (λ r. r.uid == uid) (view db).accounts)
  unfolding db_get_user_account_info_by_uid
  uid-IsRow uid db info h = fetched-IsRow _ _ info (laws.accounts.first_law (uid_is uid) db tt) h
