-- ===== src/Account/Register.antt =====
-- Registration: for whom dbInsertUserAccountInfo of bmloginsvrapp/sql.go adds a row to useraccount.

use bmservers.Prelude.{
  ◌⊎◌, Gives, Option, leb, not, none, some, ◌&&◌, ◌≢◌, ◌≡◌, inl, inr, refl, ◌∙◌, Bool, true, false,
  List, [], ◌∷◌, map, arith, GoString, All, keep, length, str_eq, ◌==◌, if◌then◌else◌, Option-cases,
}
use bmservers.Sql.Rows.{Snapshot, AccountRow}
use bmservers.Sql.Engine.{Engine}
use bmservers.Sql.Laws.{Laws, IsFirst, IsPlain}
use bmservers.Account.{
  UserAccountInfo, db_user_account_exist, some_row_or_error, account_is, new_row, exists_again,
  db_insert_user_account_info,
}
use bmservers.Account.Inserts.{
  IsUnique, admitted, forget_uid, IsPlainUser, with_accounts, marked_users, marked-IsUnique,
}

-- No row has the account.
abbrev pub is_new_account : GoString → List AccountRow → Bool
is_new_account account rows = length (keep (λ r. str_eq r.account account) rows) == 0

-- The row of a user, before the engine has chosen its uid.
abbrev pub row_of : UserAccountInfo → AccountRow
row_of v = record {
  uid = 0;
  account = v.account;
  password = v.password;
  name0 = [];
  name1 = [];
  name2 = [];
  online = 0;
  mail = v.mail;
}

-- The rows of the users whose account is new and whose account and password have 19 bytes at most.
abbrev pub newcomers : List AccountRow → List UserAccountInfo → List AccountRow
newcomers rows [] = []
newcomers rows (v ∷ users) =
    let rest = newcomers rows users in
    if is_new_account v.account rows && (leb (length v.account) 19 && leb (length v.password) 19)
    then row_of v ∷ rest
    else rest

pub no_image : (rows : List AccountRow) → map forget_uid rows ≡ [] → rows ≡ []
no_image [] e = refl
no_image (r ∷ rows) e = absurd (ground arith)

-- A query that succeeds finds a row exactly if there is one.
found_mark :
    (rows : List AccountRow) (o : Option (Option AccountRow))
    → o ≢ none
    → Gives (IsFirst rows) o
    → some_row_or_error o ≡ not (length rows == 0)
found_mark rows none reads h = absurd (reads refl)
found_mark rows (some none) reads h = rw h refl
found_mark [] (some (some r)) reads h = elim h [ ]
found_mark (x ∷ rows) (some (some r)) reads h = ground arith

module _ {Db : Type 0} {sql : Engine Db} {view : Db → Snapshot} (laws : Laws sql view) where
  -- The mark says whether there is a row with the account, if the query succeeds.
  exist-rows :
      (account : GoString) (db : Db)
      → IsPlain account
      → sql.account_again (account_is account) db ≢ none
      → exists_again sql account db ≡ not (is_new_account account (view db).accounts)
  exist-rows account db plain reads =
      found_mark (keep (λ r. str_eq r.account account) (view db).accounts)
        (sql.account_again (account_is account) db) reads
        (laws.account_again_law (account_is account) db (plain, tt))

  admitted-newcomers :
      (users : List UserAccountInfo) (db : Db)
      → All IsPlainUser users
      → All (λ v. sql.account_again (account_is v.account) db ≢ none) users
      → map (new_row sql) (admitted (marked_users laws db users))
        ≡ newcomers (view db).accounts users
  admitted-newcomers [] db plain reads = refl
  admitted-newcomers (v ∷ users) db plain reads =
      let rest = admitted-newcomers users db plain.1 reads.1 in
      let mark = exist-rows v.account db plain.0.0 reads.0 in ground (arith, rest, mark)

  -- In a database in which every uid, account and role name is that of one row at most: if
  -- dbInsertUserAccountInfo returns true, then that is still so, and it has added one row for each
  -- user whose account no row had and whose account and password have 19 bytes at most, in order,
  -- with the account, password and mail given and no role names, after the rows that were there. It
  -- is assumed that no text of a user has a quote, and that the queries for their accounts succeed.
  pub db_insert_user_account_info-IsUnique :
      (users : List UserAccountInfo) (db db' : Db)
      → All IsPlainUser users
      → All (λ v. sql.account_again (account_is v.account) db ≢ none) users
      → IsUnique (view db)
      → db_insert_user_account_info sql users db ≡ (true, db')
      → IsUnique (view db')
        × (rows : List AccountRow) × (map forget_uid rows ≡ newcomers (view db).accounts users)
        × (view db' ≡ with_accounts rows (view db))
  db_insert_user_account_info-IsUnique users db db' plain reads h e =
      let (unique, rows, same, total) = marked-IsUnique laws users db db' plain h e in
      (unique, rows, same ∙ admitted-newcomers users db plain reads, total)

  -- The first query has found no row with the account.
  not_there-new :
      (account : GoString) (db : Db)
      → IsPlain account
      → db_user_account_exist sql account db ≡ false
      → is_new_account account (view db).accounts ≡ true
  unfolding db_user_account_exist
  not_there-new account db plain gone =
      let reads : sql.accounts.first (account_is account) db ≢ none = λ e. ground arith in
      let mark =
        found_mark (keep (λ r. str_eq r.account account) (view db).accounts)
          (sql.accounts.first (account_is account) db) reads
          (laws.accounts.first_law (account_is account) db (plain, tt)) in
      ground arith

  -- The rows that dbInsertUserAccountInfo adds for one user after a query has found no row with the
  -- account: its own, if it is short enough, or none, if the query fails when it is issued again.
  abbrev pub IsRowAdded : UserAccountInfo → Db → List AccountRow → Type 0
  IsRowAdded v db rows =
      (map forget_uid rows
        ≡ (if leb (length v.account) 19 && leb (length v.password) 19 then row_of v ∷ [] else []))
      ⊎ ((rows ≡ []) × (sql.account_again (account_is v.account) db ≡ none))

  row_added :
      (v : UserAccountInfo) (db : Db) (rows : List AccountRow)
      → IsPlain v.account
      → is_new_account v.account (view db).accounts ≡ true
      → map forget_uid rows ≡ map (new_row sql) (admitted (marked_users laws db (v ∷ [])))
      → IsRowAdded v db rows
  row_added v db rows plain new same =
      elim (Option-cases (sql.account_again (account_is v.account) db)) [
        | inl failed ↦
            let mark : exists_again sql v.account db ≡ true = rw failed refl in
            inr (no_image rows (rw mark at same), failed)
        | inr (o, read) ↦
            let mark = exist-rows v.account db plain (λ e. ground arith) in
            inl (same ∙ ground arith)
      ]

  pub one_user-IsUnique :
      (v : UserAccountInfo) (db db' : Db)
      → IsPlainUser v
      → IsUnique (view db)
      → db_user_account_exist sql v.account db ≡ false
      → db_insert_user_account_info sql (v ∷ []) db ≡ (true, db')
      → IsUnique (view db')
        × (rows : List AccountRow) × IsRowAdded v db rows
        × (view db' ≡ with_accounts rows (view db))
  one_user-IsUnique v db db' plain h gone e =
      let (unique, rows, same, total) = marked-IsUnique laws (v ∷ []) db db' (plain, tt) h e in
      let new = not_there-new v.account db plain.0 gone in
      (unique, rows, row_added v db rows plain.0 new same, total)
