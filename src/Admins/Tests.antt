-- ===== src/Admins/Tests.antt =====
-- An account becomes an administrator, in a database in memory.
use bmservers.Prelude.{◌≡◌, ◌⊎◌, refl, true, [], ◌∷◌, codes, arith, str_eq, keep}
use bmservers.Prelude.Int.{pos}
use bmservers.Sql.Rows.{Snapshot, AccountRow}
use bmservers.Sql.Laws.{IsRow}
use bmservers.Sql.Memory.{memory, memory-Laws}
use bmservers.Sql.Keys.{IsKey}
use bmservers.Account.{db_get_user_account_info}
use bmservers.Admins.{
  db_admin_account_exists, db_get_admin_account_info, db_admin_account_verify,
  db_insert_admin_account,
}
use bmservers.Admins.Accounts.{db_admin_account_verify-IsRow}
use bmservers.Admins.Keys.{admin_rows, IsAdminAdded, db_insert_admin_account-IsKey}

abbrev user : AccountRow
user = record {
  uid = 1;
  account = codes "chief";
  password = codes "secret";
  name0 = [];
  name1 = [];
  name2 = [];
  online = 0;
  mail = [];
}

abbrev before : Snapshot
before = record {
  accounts = user ∷ [];
  donates = [];
  histories = [];
  consumes = [];
  gifts = [];
  ranks = [];
  admins = [];
  requests = [];
  onlines = [];
  web_users = [];
}

abbrev after : Snapshot
after = record before { admins = (record { account = codes "chief"; level = pos 2 }) ∷ [] }

appoints : db_insert_admin_account memory (codes "chief") (pos 2) before ≡ (true, after)
unfolding db_insert_admin_account db_admin_account_exists db_get_user_account_info str_eq
appoints = refl

db_insert_admin_account-IsKey_example :
    IsKey (λ r. r.account) after.admins
    × ((after ≡ before)
        ⊎ ((admin_rows (codes "chief") before ≡ [])
            × IsAdminAdded (codes "chief") (pos 2) before after))
db_insert_admin_account-IsKey_example =
    db_insert_admin_account-IsKey memory-Laws (codes "chief") (pos 2) before after refl
      (λ k. omega arith) appoints

verifies : db_admin_account_verify memory (codes "chief") (codes "secret") after ≡ (true, pos 2)
unfolding db_admin_account_verify db_admin_account_exists db_get_admin_account_info
    db_get_user_account_info str_eq
verifies = refl

db_admin_account_verify-IsRow_example :
    IsRow (record { account = codes "chief"; level = pos 2 }) after.admins
    × (row : AccountRow) × IsRow row (keep (λ r. str_eq r.account (codes "chief")) after.accounts)
    × (row.password ≡ codes "secret")
db_admin_account_verify-IsRow_example =
    db_admin_account_verify-IsRow memory-Laws (codes "chief") (codes "secret") after (pos 2) refl
      verifies
