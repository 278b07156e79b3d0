-- ===== src/Account.antt =====
-- The table useraccount in bmloginsvrapp/sql.go: accounts, their passwords, and the three role names
-- of each account.
pub mod Reads
pub mod Names
pub mod Inserts
pub mod Register
pub mod Passwords
mod Tests
use bmservers.Prelude.{
  ℕ, Bool, true, false, not, ◌&&◌, ◌||◌, ◌<◌, Option, none, some, List, [], ◌∷◌, ltb, ◌==◌,
  if◌then◌else◌, length, GoString, codes, str_eq, map,
}
use bmservers.Sql.Rows.{AccountRow}
use bmservers.Sql.Engine.{Cond, Engine}
use bmservers.Sql.Calls.{executed}

-- UserAccountInfo has the columns of the row, but for the column online, which stays false.
abbrev pub UserAccountInfo : Type 0
UserAccountInfo = AccountRow

-- where account = '…'
abbrev pub account_is : GoString → Cond AccountRow
account_is account = record { spliced = account ∷ []; holds = λ r. str_eq r.account account }

-- where uid = …
abbrev pub uid_is : ℕ → Cond AccountRow
uid_is uid = record { spliced = []; holds = λ r. r.uid == uid }

-- where name0 = '…' or name1 = '…' or name2 = '…'
abbrev pub has_name : GoString → AccountRow → Bool
has_name name r = str_eq r.name0 name || (str_eq r.name1 name || str_eq r.name2 name)

abbrev pub name_is : GoString → Cond AccountRow
name_is name = record { spliced = name ∷ []; holds = has_name name }

-- The three columns for role names.
pub data Slot : Type 0 where
  slot0 slot1 slot2 : Slot

-- The columns are tested in order; `none` if all are taken.
abbrev pub free_slot : AccountRow → Option Slot
free_slot r =
    if length r.name0 == 0
    then some slot0
    else if length r.name1 == 0
    then some slot1
    else if length r.name2 == 0
    then some slot2
    else none

abbrev pub slot_of : AccountRow → GoString → Option Slot
slot_of r name =
    if str_eq r.name0 name
    then some slot0
    else if str_eq r.name1 name
    then some slot1
    else if str_eq r.name2 name
    then some slot2
    else none

abbrev pub set_slot : Slot → GoString → AccountRow → AccountRow
set_slot slot0 name r = record r { name0 = name }
set_slot slot1 name r = record r { name1 = name }
set_slot slot2 name r = record r { name2 = name }

-- The result of a query of which the first row is read; an error and no row give false.
abbrev pub fetched : Option (Option AccountRow) → Option UserAccountInfo
fetched (some (some r)) = some r
fetched _ = none

-- `rows.Next()` of a query, where an error of Query counts as a row.
abbrev pub some_row_or_error : Option (Option AccountRow) → Bool
some_row_or_error none = true
some_row_or_error (some none) = false
some_row_or_error (some (some r)) = true

-- The uid of the first row, 0 on an error or if there is none.
abbrev pub fetched_uid : Option (Option AccountRow) → ℕ
fetched_uid (some (some r)) = r.uid
fetched_uid _ = 0

module _ {Db : Type 0} (sql : Engine Db) where
  unfoldable pub db_get_user_account_info : GoString → Db → Option UserAccountInfo
  db_get_user_account_info account db =
      if ltb 20 (length account) then none else fetched (sql.accounts.first (account_is account) db)

  unfoldable pub db_get_user_account_info_by_uid : ℕ → Db → Option UserAccountInfo
  db_get_user_account_info_by_uid uid db = fetched (sql.accounts.first (uid_is uid) db)

  unfoldable pub db_user_account_exist : GoString → Db → Bool
  db_user_account_exist account db = some_row_or_error (sql.accounts.first (account_is account) db)

  -- insert into useraccount values(null, account, password, '', '', '', 0, mail)
  abbrev pub new_row : UserAccountInfo → AccountRow
  new_row v = record v { uid = 0; name0 = []; name1 = []; name2 = []; online = 0 }

  -- The second loop of dbInsertUserAccountInfo; each user comes with its mark in `uniquequeue`.
  unfoldable pub insert_unmarked : List (Bool × UserAccountInfo) → Db → Bool × Db
  insert_unmarked [] db = (true, db)
  insert_unmarked ((marked, v) ∷ users) db =
      elim (marked || (ltb 19 (length v.account) || ltb 19 (length v.password))) [
        | true ↦ insert_unmarked users db
        | false ↦ elim (sql.accounts.insert (v.account ∷ v.password ∷ v.mail ∷ []) (new_row v) db) [
          | none ↦ (false, db)
          | some db' ↦ insert_unmarked users db'
        ]
      ]

  -- The call of dbUserAccountExist in the first loop of dbInsertUserAccountInfo.
  abbrev pub exists_again : GoString → Db → Bool
  exists_again account db = some_row_or_error (sql.account_again (account_is account) db)

  unfoldable pub db_insert_user_account_info : List UserAccountInfo → Db → Bool × Db
  unfolding insert_unmarked
  db_insert_user_account_info users db =
      insert_unmarked (map (λ v. (exists_again v.account db, v)) users) db

  pub db_remove_user_account_info : GoString → Db → Bool × Db
  db_remove_user_account_info account db = executed (sql.accounts.delete (account_is account) db) db

  pub db_update_user_account_state : GoString → Bool → Db → Bool × Db
  db_update_user_account_state account online db =
      executed
        (sql.accounts.update (λ r. record r { online = if online then 1 else 0 })
          (account_is account) db)
        db

  unfoldable pub db_update_user_account_password : GoString → GoString → Db → Bool × Db
  db_update_user_account_password account password db =
      executed
        (sql.accounts.update (λ r. record r { password = password })
          (record (account_is account) { spliced = password ∷ account ∷ [] }) db)
        db

  pub db_reset_user_account_online_state : Db → Bool × Db
  db_reset_user_account_online_state db =
      executed
        (sql.accounts.update (λ r. record r { online = 0 })
          (record { spliced = []; holds = λ r. true }) db)
        db

  pub db_user_name_exist : GoString → Db → Bool
  db_user_name_exist name db = some_row_or_error (sql.accounts.first (name_is name) db)

  -- The last step of dbAddUserName and dbAddUserNameByUid: with all slots taken nothing is done.
  pub write_slot : Option Slot → GoString → Cond AccountRow → Db → Bool × Db
  write_slot none name c db = (true, db)
  write_slot (some slot) name c db =
      executed
        (sql.accounts.update (set_slot slot name) (record c { spliced = name ∷ c.spliced }) db) db

  pub db_add_user_name : GoString → GoString → Db → Bool × Db
  unfolding db_get_user_account_info db_user_name_exist write_slot
  db_add_user_name account name db = elim (db_get_user_account_info account db) [
    | none ↦ (false, db)
    | some info ↦
        if db_user_name_exist name db
        then (false, db)
        else write_slot (free_slot info) name (account_is account) db
  ]

  pub db_add_user_name_by_uid : ℕ → GoString → Db → Bool × Db
  unfolding db_get_user_account_info_by_uid db_user_name_exist write_slot
  db_add_user_name_by_uid uid name db = elim (db_get_user_account_info_by_uid uid db) [
    | none ↦ (false, db)
    | some info ↦
        if db_user_name_exist name db
        then (false, db)
        else write_slot (free_slot info) name (uid_is uid) db
  ]

  -- The last step of dbRemoveUserName and dbRemoveUserNameByUid.
  pub clear_slot : Option Slot → Cond AccountRow → Db → Bool × Db
  clear_slot none c db = (false, db)
  clear_slot (some slot) c db = executed (sql.accounts.update (set_slot slot []) c db) db

  pub db_remove_user_name : GoString → GoString → Db → Bool × Db
  unfolding db_get_user_account_info clear_slot
  db_remove_user_name account name db = elim (db_get_user_account_info account db) [
    | none ↦ (false, db)
    | some info ↦ clear_slot (slot_of info name) (account_is account) db
  ]

  -- The function returns an error; true stands for nil.
  pub db_remove_user_name_by_uid : ℕ → GoString → Db → Bool × Db
  unfolding db_get_user_account_info_by_uid clear_slot
  db_remove_user_name_by_uid uid name db = elim (db_get_user_account_info_by_uid uid db) [
    | none ↦ (false, db)
    | some info ↦ clear_slot (slot_of info name) (uid_is uid) db
  ]

  pub db_get_user_uid_by_name : GoString → Db → ℕ
  db_get_user_uid_by_name name db = fetched_uid (sql.accounts.first (name_is name) db)

  pub db_get_user_uid_by_account : GoString → Db → ℕ
  db_get_user_uid_by_account account db = fetched_uid (sql.accounts.first (account_is account) db)
