-- ===== src/Donate.antt =====
-- The donations of users in bmloginsvrapp/sql.go: what each user has donated (userdonate), the orders
-- that it came by (userdonatehistory), and what has been spent of it (userdonateconsume). A time
-- is what `time.Now().Unix()` returns; each call of it is an argument.
mod Reads
pub mod Consume
pub mod Refusals
pub mod Orders
pub mod Ledger
mod Tests
use bmservers.Prelude.{
  ℕ, Bool, true, false, not, ◌&&◌, Option, none, some, List, [], ◌∷◌, map, ◌==◌, if◌then◌else◌,
  GoString, str_eq, leb, any, ◌^◌, ◌-◌,
}
use bmservers.Prelude.Int.{ℤ, pos, negsuc, ltb_ℤ, ◌-ℤ◌, to_int32, to_int64, to_uint64}
use bmservers.Sql.Rows.{DonateRow, HistoryRow, ConsumeRow}
use bmservers.Sql.Engine.{Cond, Engine}
use bmservers.Sql.Calls.{exists_or_error, executed, scan_sum, fits32, fits64}

pub record UserDonateInfo : Type 0 where
  pub uid : ℕ
  pub donate : ℤ
  pub lastdonatetime : ℤ
  pub expiretime : ℤ

-- Scan stores the columns in order and stops at one that does not fit; the others stay 0.
abbrev pub scan_info : ℕ → DonateRow → UserDonateInfo
scan_info uid r =
    let a = fits32 r.donate in
    let b = a && fits64 r.lastdonatetime in
    let c = b && fits64 r.expiretime in
    record {
      uid = uid;
      donate = if a then r.donate else pos 0;
      lastdonatetime = if b then r.lastdonatetime else pos 0;
      expiretime = if c then r.expiretime else pos 0;
    }

-- The result of the query of dbGetUserDonateInfo; `none` where the function returns false and
-- leaves `info` as it was.
abbrev pub fetched : ℕ → Option (Option DonateRow) → Option UserDonateInfo
fetched uid (some (some r)) = some (scan_info uid r)
fetched uid _ = none

-- What dbGetUserDonateHistoryList ends with.
pub data HistoryList : Type 0 where
  listed : List HistoryRow → HistoryList
  list_failed list_panicked : HistoryList

-- Whether Scan can store the row in a UserDonateHistoryExpose.
abbrev pub scans : HistoryRow → Bool
scans r = leb r.uid (2 ^ 32 - 1) && (fits64 r.donate && fits64 r.donatetime)

-- The row that the statements write for it. SQLite keeps a literal of 2 ^ 63 or more as a REAL; here
-- it stays the integer that is written, which Scan refuses as well.
abbrev pub info_row : UserDonateInfo → DonateRow
info_row info = record {
  uid = info.uid;
  donate = pos (to_uint64 info.donate);
  lastdonatetime = pos (to_uint64 info.lastdonatetime);
  expiretime = pos (to_uint64 info.expiretime);
}

pub data DonateError : Type 0 where
  order_used history_failed no_info exec_failed : DonateError

-- where uid = …
abbrev pub donate_of : ℕ → Cond DonateRow
donate_of uid = record { spliced = []; holds = λ r. r.uid == uid }

abbrev pub history_of : ℕ → Cond HistoryRow
history_of uid = record { spliced = []; holds = λ r. r.uid == uid }

abbrev pub consume_of : ℕ → Cond ConsumeRow
consume_of uid = record { spliced = []; holds = λ r. r.uid == uid }

-- where donateorderid = '…'
abbrev pub order_is : GoString → Cond HistoryRow
order_is order = record { spliced = order ∷ []; holds = λ r. str_eq r.donateorderid order }

module _ {Db : Type 0} (sql : Engine Db) where
  unfoldable pub db_insert_user_donate_consume : ℕ → GoString → ℤ → ℤ → ℤ → Db → Bool × Db
  db_insert_user_donate_consume uid name itemid cost now db =
      executed
        (sql.consumes.insert (name ∷ [])
          (record {
            uid = uid;
            name = name;
            itemid = pos (to_uint64 itemid);
            cost = pos (to_uint64 cost);
            buytime = pos (to_uint64 now);
          })
          db)
        db

  unfoldable pub db_get_user_donate_consume_sum : ℕ → Db → ℤ
  db_get_user_donate_consume_sum uid db =
      scan_sum (sql.consumes.sum (λ r. r.cost) (consume_of uid) db)

  unfoldable pub db_is_user_donate_exists : ℕ → Db → Bool
  db_is_user_donate_exists uid db = exists_or_error (sql.donates.count (donate_of uid) db)

  pub db_insert_user_donate_info : UserDonateInfo → Db → Bool × Db
  db_insert_user_donate_info info db = executed (sql.donates.insert [] (info_row info) db) db

  unfoldable pub db_get_user_donate_info : ℕ → Db → Option UserDonateInfo
  db_get_user_donate_info uid db = fetched uid (sql.donates.first (donate_of uid) db)

  pub db_get_user_donate_left : ℕ → Db → ℤ
  unfolding db_get_user_donate_info db_get_user_donate_consume_sum
  db_get_user_donate_left uid db = elim (db_get_user_donate_info uid db) [
    | none ↦ pos 0
    | some info ↦
        let left = to_int64 (info.donate -ℤ db_get_user_donate_consume_sum uid db) in
        if ltb_ℤ left (pos 0) then pos 0 else left
  ]

  pub db_check_consume_donate : ℕ → ℤ → Db → Bool
  unfolding db_get_user_donate_info db_get_user_donate_consume_sum
  db_check_consume_donate uid cost db =
      if ltb_ℤ cost (pos 0) then false else elim (db_get_user_donate_info uid db) [
        | none ↦ false
        | some info ↦
            let left = to_int64 (info.donate -ℤ db_get_user_donate_consume_sum uid db) in
            if ltb_ℤ left cost then false else true
      ]

  -- The part of dbOnConsumeDonate after the donation is read.
  unfoldable pub consume_from : UserDonateInfo → ℕ → GoString → ℤ → ℤ → ℤ → Db → (Bool × ℤ) × Db
  unfolding db_get_user_donate_consume_sum db_insert_user_donate_consume
  consume_from info uid name itemid cost now db =
      let left = to_int64 (info.donate -ℤ db_get_user_donate_consume_sum uid db) in
      if ltb_ℤ left cost
      then ((false, negsuc 2), db)
      else let (ok, db') = db_insert_user_donate_consume uid name itemid cost now db in
        if ok then ((true, to_int64 (left -ℤ cost)), db') else ((false, negsuc 3), db')

  unfoldable pub db_on_consume_donate : ℕ → GoString → ℤ → ℤ → ℤ → Db → (Bool × ℤ) × Db
  unfolding db_get_user_donate_info consume_from
  db_on_consume_donate uid name itemid cost now db =
      if ltb_ℤ cost (pos 0)
      then ((false, negsuc 0), db)
      else elim (db_get_user_donate_info uid db) [
        | none ↦ ((false, negsuc 1), db)
        | some info ↦ consume_from info uid name itemid cost now db
      ]

  unfoldable pub db_is_user_donate_history_exists : GoString → Db → Bool
  db_is_user_donate_history_exists order db =
      exists_or_error (sql.histories.count (order_is order) db)

  unfoldable pub db_insert_user_donate_history : HistoryRow → Db → Bool × Db
  db_insert_user_donate_history h db =
      executed (sql.histories.insert (h.donateorderid ∷ []) h db) db

  unfoldable pub db_get_user_donate_history_sum : ℕ → Db → ℤ
  db_get_user_donate_history_sum uid db =
      scan_sum (sql.histories.sum (λ r. r.donate) (history_of uid) db)

  -- The rows are returned as they are read; an error of Query is returned, one of Scan panics.
  pub db_get_user_donate_history_list : ℕ → Db → HistoryList
  db_get_user_donate_history_list uid db = elim (sql.histories.all (history_of uid) db) [
    | none ↦ list_failed
    | some rows ↦ if any (λ r. not (scans r)) rows then list_panicked else listed rows
  ]

  -- update userdonate set donate=…, lastdonatetime=…, expiretime=… where uid=…
  pub write_info : ℕ → UserDonateInfo → Db → Bool × Db
  write_info uid info db =
      executed (sql.donates.update (λ r. record (info_row info) { uid = r.uid }) (donate_of uid) db)
        db

  -- The tail that dbIncUserDonateInfo and dbUpdateUserDonateInfo share: `fresh` is what a new
  -- record takes, `total` what an old one is set to.
  pub store_donate : ℕ → ℤ → ℤ → ℤ → Db → Bool × Db
  unfolding db_is_user_donate_exists db_insert_user_donate_info db_get_user_donate_info write_info
  store_donate uid fresh total now db =
      if db_is_user_donate_exists uid db
      then elim (db_get_user_donate_info uid db) [
        | none ↦ (false, db)
        | some info ↦ write_info uid (record info { donate = total; lastdonatetime = now }) db
      ]
      else db_insert_user_donate_info
          (record { uid = uid; donate = fresh; lastdonatetime = now; expiretime = pos 0 }) db

  pub db_inc_user_donate_info : ℕ → ℤ → GoString → ℤ → ℤ → Db → Bool × Db
  unfolding db_is_user_donate_history_exists db_insert_user_donate_history
      db_get_user_donate_history_sum
  db_inc_user_donate_info uid money order now later db =
      if db_is_user_donate_history_exists order db
      then (false, db)
      else let (ok, db') =
          db_insert_user_donate_history
            (record { uid = uid; donate = money; donatetime = now; donateorderid = order }) db in
        if ok
        then store_donate uid (to_int32 money) (to_int32 (db_get_user_donate_history_sum uid db'))
            later db'
        else (false, db')

  pub db_update_user_donate_info : ℕ → ℤ → ℤ → Db → Bool × Db
  unfolding store_donate
  db_update_user_donate_info uid money now db =
      store_donate uid (to_int32 money) (to_int32 money) now db

  pub db_remove_user_donate_info : ℕ → Db → Bool × Db
  unfolding db_is_user_donate_exists
  db_remove_user_donate_info uid db =
      let (ok, db') = executed (sql.donates.delete (donate_of uid) db) db in
      if not (db_is_user_donate_exists uid db)
      then (true, db)
      else if ok
      then executed (sql.histories.delete (history_of uid) db') db'
      else (false, db')

  -- dbInsertUserDonateInfoEx: the error itself is returned.
  unfoldable pub db_insert_user_donate_info_ex : UserDonateInfo → Db → Option DonateError × Db
  db_insert_user_donate_info_ex info db = elim (sql.donates.insert [] (info_row info) db) [
    | none ↦ (some exec_failed, db)
    | some db' ↦ (none, db')
  ]

  -- The update at the end of dbIncUserDonateInfoEx.
  pub write_info_ex : ℕ → UserDonateInfo → Db → Option DonateError × Db
  write_info_ex uid info db =
      elim (sql.donates.update (λ r. record (info_row info) { uid = r.uid }) (donate_of uid) db) [
        | none ↦ (some exec_failed, db)
        | some db' ↦ (none, db')
      ]

  -- The second half of dbIncUserDonateInfoEx, after the history is written.
  unfoldable pub store_donate_ex : ℕ → ℤ → ℤ → ℤ → Db → Option DonateError × Db
  unfolding db_is_user_donate_exists db_insert_user_donate_info_ex db_get_user_donate_info
      write_info_ex
  store_donate_ex uid fresh total now db =
      if db_is_user_donate_exists uid db
      then elim (db_get_user_donate_info uid db) [
        | none ↦ (some no_info, db)
        | some info ↦ write_info_ex uid (record info { donate = total; lastdonatetime = now }) db
      ]
      else db_insert_user_donate_info_ex
          (record { uid = uid; donate = fresh; lastdonatetime = now; expiretime = pos 0 }) db

  unfoldable pub db_inc_user_donate_info_ex :
      ℕ → ℤ → GoString → ℤ → ℤ → Db → Option DonateError × Db
  unfolding db_is_user_donate_history_exists db_insert_user_donate_history
      db_get_user_donate_history_sum
  db_inc_user_donate_info_ex uid money order now later db =
      if db_is_user_donate_history_exists order db
      then (some order_used, db)
      else let (ok, db') =
          db_insert_user_donate_history
            (record { uid = uid; donate = money; donatetime = now; donateorderid = order }) db in
        if ok
        then store_donate_ex uid (to_int32 money)
            (to_int32 (db_get_user_donate_history_sum uid db')) later db'
        else (some history_failed, db')
