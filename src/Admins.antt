-- ===== src/Admins.antt =====
-- Three tables of bmloginsvrapp/sql.go that administrators use: donate_request, admin_account and
-- systemgift.
pub mod Accounts
pub mod Keys
mod Tests
use bmservers.Prelude.{
  ℕ, Bool, true, false, not, ◌&&◌, ◌||◌, Option, none, some, List, [], ◌∷◌, ltb, ◌==◌,
  if◌then◌else◌, length, GoString, str_eq,
}
use bmservers.Prelude.Int.{ℤ, pos, ltb_ℤ, to_uint64}
use bmservers.Prelude.Assoc.{int_eq}
use bmservers.Sql.Rows.{RequestRow, AdminRow, GiftRow}
use bmservers.Sql.Engine.{Cond, Engine}
use bmservers.Sql.Calls.{exists_or_error, executed}
use bmservers.Account.{db_get_user_account_info}

-- DonateRequest has the columns of the row; its id is the engine's.
abbrev pub DonateRequest : Type 0
DonateRequest = RequestRow

-- where orderid = '…'
abbrev pub order_is : GoString → Cond RequestRow
order_is order = record { spliced = order ∷ []; holds = λ r. str_eq r.orderid order }

abbrev pub AdminAccountInfo : Type 0
AdminAccountInfo = AdminRow

-- where account = '…'
abbrev pub admin_is : GoString → Cond AdminRow
admin_is account = record { spliced = account ∷ []; holds = λ r. str_eq r.account account }

-- The first row of a result, in which `account` is the one asked for.
abbrev pub fetched_admin : GoString → Option (Option AdminRow) → Option AdminAccountInfo
fetched_admin account (some (some r)) = some (record r { account = account })
fetched_admin account _ = none

abbrev pub SystemGift : Type 0
SystemGift = GiftRow

-- where uid = … and giftid = …, in which the gift's id is printed as a uint64
abbrev pub gift_is : ℕ → ℤ → Cond GiftRow
gift_is uid giftid = record {
  spliced = [];
  holds = λ r. r.uid == uid && int_eq r.giftid (pos (to_uint64 giftid));
}

-- where uid = …
abbrev pub gift_uid_is : ℕ → Cond GiftRow
gift_uid_is uid = record { spliced = []; holds = λ r. r.uid == uid }

-- A count; an error counts as 0.
abbrev pub count_or_zero : Option ℕ → ℕ
count_or_zero none = 0
count_or_zero (some n) = n

-- The columns as the insert prints them.
abbrev pub gift_row : SystemGift → GiftRow
gift_row gift = record {
  uid = gift.uid;
  giftid = pos (to_uint64 gift.giftid);
  giftsum = pos (to_uint64 gift.giftsum);
  givetime = pos (to_uint64 gift.givetime);
  expiretime = pos (to_uint64 gift.expiretime);
}

-- Each of the four calls of Scan names one column of four, which is an error that writes nothing.
abbrev pub scan_gift : ℕ → SystemGift → Option (Option GiftRow) → Bool × SystemGift
scan_gift uid gift none = (false, gift)
scan_gift uid gift (some none) = (true, gift)
scan_gift uid gift (some (some r)) = (true, record gift { uid = uid })

module _ {Db : Type 0} (sql : Engine Db) where
  pub db_donate_request_exists : GoString → Db → Bool
  db_donate_request_exists order db = exists_or_error (sql.requests.count (order_is order) db)

  pub db_insert_donate_request : DonateRequest → Db → Bool × Db
  unfolding db_donate_request_exists
  db_insert_donate_request dr db =
      if length dr.name == 0 || (length dr.orderid == 0 || int_eq dr.uid (pos 0))
      then (false, db)
      else if db_donate_request_exists dr.orderid db
      then (true, db)
      else executed (sql.requests.insert (dr.name ∷ dr.orderid ∷ dr.note ∷ []) dr db) db

  pub db_update_donate_request_result : GoString → ℤ → Db → Bool × Db
  db_update_donate_request_result order result db =
      executed (sql.requests.update (λ r. record r { result = result }) (order_is order) db) db

  pub db_update_donate_request_money : GoString → ℤ → Db → Bool × Db
  db_update_donate_request_money order money db =
      executed (sql.requests.update (λ r. record r { money = money }) (order_is order) db) db

  pub db_remove_donate_request : GoString → Db → Bool × Db
  unfolding db_donate_request_exists
  db_remove_donate_request order db =
      if db_donate_request_exists order db
      then executed (sql.requests.delete (order_is order) db) db
      else (true, db)

  pub db_get_admin_account_info : GoString → Db → Option AdminAccountInfo
  db_get_admin_account_info account db =
      if ltb 20 (length account)
      then none
      else fetched_admin account (sql.admins.first (admin_is account) db)

  unfoldable pub db_admin_account_exists : GoString → Db → Bool
  db_admin_account_exists account db = exists_or_error (sql.admins.count (admin_is account) db)

  unfoldable pub db_admin_account_verify : GoString → GoString → Db → Bool × ℤ
  unfolding db_admin_account_exists db_get_admin_account_info
  db_admin_account_verify account password db =
      if not (db_admin_account_exists account db)
      then (false, pos 0)
      else elim (db_get_admin_account_info account db) [
        | none ↦ (false, pos 0)
        | some admin ↦ elim (db_get_user_account_info sql account db) [
          | none ↦ (false, pos 0)
          | some info ↦
              if str_eq info.password password then (true, admin.level) else (false, pos 0)
        ]
      ]

  unfoldable pub db_insert_admin_account : GoString → ℤ → Db → Bool × Db
  unfolding db_admin_account_exists
  db_insert_admin_account account level db =
      if not (ltb_ℤ (pos 0) level)
      then (false, db)
      else if db_admin_account_exists account db
      then (true, db)
      else elim (db_get_user_account_info sql account db) [
        | none ↦ (false, db)
        | some info ↦
            executed
              (sql.admins.insert (account ∷ []) (record { account = account; level = level }) db) db
      ]

  pub db_update_admin_account : GoString → ℤ → Db → Bool × Db
  db_update_admin_account account level db =
      executed (sql.admins.update (λ r. record r { level = level }) (admin_is account) db) db

  pub db_remove_admin_account : GoString → Db → Bool × Db
  unfolding db_admin_account_exists
  db_remove_admin_account account db =
      if db_admin_account_exists account db
      then executed (sql.admins.delete (admin_is account) db) db
      else (true, db)

  pub db_get_system_gift_count_by_uid : ℕ → ℤ → Db → ℕ
  db_get_system_gift_count_by_uid uid itemid db =
      count_or_zero (sql.gifts.count (gift_is uid itemid) db)

  pub db_insert_system_gift : SystemGift → Db → Bool × Db
  unfolding db_get_system_gift_count_by_uid
  db_insert_system_gift gift db =
      if not (db_get_system_gift_count_by_uid gift.uid gift.giftid db == 0)
      then (false, db)
      else executed (sql.gifts.insert [] (gift_row gift) db) db

  pub db_get_system_gift_by_uid : ℕ → SystemGift → Db → Bool × SystemGift
  db_get_system_gift_by_uid uid gift db = scan_gift uid gift (sql.gifts.first (gift_uid_is uid) db)
