-- ===== src/Account/Tests.antt =====
-- A user registers and gives a name to a role, in a database in memory.
use bmservers.Prelude.{
  ◌≢◌, ◌≡◌, ◌⊎◌, refl, true, false, none, List, [], ◌∷◌, map, arith, GoString, codes, keep, str_eq,
  ◌==◌,
}
use bmservers.Sql.Rows.{Snapshot, AccountRow}
use bmservers.Sql.Memory.{memory, memory-Laws}
use bmservers.Account.{
  Slot, account_is, db_user_account_exist, insert_unmarked, db_insert_user_account_info,
  db_get_user_account_info_by_uid, db_user_name_exist, write_slot, clear_slot,
  db_add_user_name_by_uid, db_remove_user_name_by_uid,
}
use bmservers.Account.Names.{
  IsNamed, IsAdded, IsFull, IsFirstSlot, bears, row_after, db_add_user_name_by_uid-IsAdded,
  db_remove_user_name_by_uid-IsRemoved,
}
use bmservers.Account.Inserts.{IsUnique, forget_uid, with_accounts}
use bmservers.Account.Register.{newcomers, db_insert_user_account_info-IsUnique}
use bmservers.Sql.Laws.{changed}

abbrev nobody : Snapshot
nobody = record {
  accounts = [];
  donates = [];
  histories = [];
  consumes = [];
  gifts = [];
  ranks = [];
  admins = [];
  requests = [];
  onlines = [];
  web_users = [];
}

abbrev user : AccountRow
user = record {
  uid = 0;
  account = codes "anna";
  password = codes "secret";
  name0 = [];
  name1 = [];
  name2 = [];
  online = 0;
  mail = codes "a@b.c";
}

abbrev hero : GoString
hero = codes "hero"

abbrev registered : Snapshot
registered = record nobody { accounts = (record user { uid = 1 }) ∷ [] }

abbrev named : Snapshot
named = record nobody { accounts = (record user { uid = 1; name0 = hero }) ∷ [] }

nobody-IsUnique : IsUnique nobody
nobody-IsUnique = record {
  named = record { one_uid = λ uid. omega arith; one_name = λ name long. omega arith };
  one_account = λ account. omega arith;
}

registers : db_insert_user_account_info memory (user ∷ user ∷ []) nobody ≡ (false, registered)
unfolding db_insert_user_account_info insert_unmarked db_user_account_exist str_eq
registers = refl

registers_one : db_insert_user_account_info memory (user ∷ []) nobody ≡ (true, registered)
unfolding db_insert_user_account_info insert_unmarked db_user_account_exist str_eq
registers_one = refl

found_none : memory.account_again (account_is (codes "anna")) nobody ≢ none
found_none = λ e. cc

db_insert_user_account_info-IsUnique_example :
    IsUnique registered
    × (rows : List AccountRow) × (map forget_uid rows ≡ newcomers [] (user ∷ []))
    × (registered ≡ with_accounts rows nobody)
db_insert_user_account_info-IsUnique_example =
    db_insert_user_account_info-IsUnique memory-Laws (user ∷ []) nobody registered
      ((refl, refl, refl), tt) (found_none, tt) nobody-IsUnique registers_one

registered-IsNamed : IsNamed registered
registered-IsNamed =
    (db_insert_user_account_info-IsUnique memory-Laws (user ∷ []) nobody registered
      ((refl, refl, refl), tt) (found_none, tt) nobody-IsUnique registers_one).0.named

adds : db_add_user_name_by_uid memory 1 hero registered ≡ (true, named)
unfolding db_add_user_name_by_uid db_get_user_account_info_by_uid db_user_name_exist write_slot
    str_eq
adds = refl

db_add_user_name_by_uid-IsAdded_example :
    IsNamed named
    × (keep (bears hero) registered.accounts ≡ [])
    × (((info : AccountRow) × (keep (λ r. r.uid == 1) registered.accounts ≡ info ∷ [])
          × IsFull info
          × (registered ≡ named))
        ⊎ IsAdded 1 hero registered named)
db_add_user_name_by_uid-IsAdded_example =
    db_add_user_name_by_uid-IsAdded memory-Laws 1 hero registered named refl registered-IsNamed adds

named-IsNamed : IsNamed named
named-IsNamed =
    (db_add_user_name_by_uid-IsAdded memory-Laws 1 hero registered named refl registered-IsNamed
      adds).0

removes : db_remove_user_name_by_uid memory 1 hero named ≡ (true, registered)
unfolding db_remove_user_name_by_uid db_get_user_account_info_by_uid clear_slot str_eq
removes = refl

db_remove_user_name_by_uid-IsRemoved_example :
    IsNamed registered
    × (info : AccountRow) × (slot : Slot) × IsFirstSlot hero slot info
    × (keep (λ r. r.uid == 1) named.accounts ≡ info ∷ [])
    × (registered
        ≡ record named { accounts = changed (row_after slot []) (λ r. r.uid == 1) named.accounts })
db_remove_user_name_by_uid-IsRemoved_example =
    db_remove_user_name_by_uid-IsRemoved memory-Laws 1 hero named registered named-IsNamed removes
