-- ===== src/Sql/Rows.antt =====
-- The tables that initDatabaseUserV2 of bmloginsvrapp/sqlv2.go creates, a record for each.
-- A column `id integer primary key` that no statement reads is left out.
use bmservers.Prelude.{ℕ, List}
use bmservers.Prelude.{GoString}
use bmservers.Prelude.Int.{ℤ}

pub record AccountRow : Type 0 where
  pub uid : ℕ
  pub account : GoString
  pub password : GoString
  pub name0 : GoString
  pub name1 : GoString
  pub name2 : GoString
  pub online : ℕ
  pub mail : GoString

pub record DonateRow : Type 0 where
  pub uid : ℕ
  pub donate : ℤ
  pub lastdonatetime : ℤ
  pub expiretime : ℤ

pub record HistoryRow : Type 0 where
  pub uid : ℕ
  pub donate : ℤ
  pub donatetime : ℤ
  pub donateorderid : GoString

pub record ConsumeRow : Type 0 where
  pub uid : ℕ
  pub name : GoString
  pub itemid : ℤ
  pub cost : ℤ
  pub buytime : ℤ

pub record GiftRow : Type 0 where
  pub uid : ℕ
  pub giftid : ℤ
  pub giftsum : ℤ
  pub givetime : ℤ
  pub expiretime : ℤ

pub record RankRow : Type 0 where
  pub uid : ℕ
  pub name : GoString
  pub job : ℤ
  pub level : ℤ
  pub expr : ℤ
  pub power : ℤ

pub record AdminRow : Type 0 where
  pub account : GoString
  pub level : ℤ

pub record RequestRow : Type 0 where
  pub name : GoString
  pub uid : ℤ
  pub orderid : GoString
  pub money : ℤ
  pub note : GoString
  pub result : ℤ

pub record OnlineRow : Type 0 where
  pub uid : ℕ
  pub server_id : ℤ
  pub lid : ℤ

pub record WebUserRow : Type 0 where
  pub uid : ℕ
  pub user_name : GoString
  pub password : GoString
  pub permission : ℕ

-- The contents of all tables.
pub record Snapshot : Type 0 where
  pub accounts : List AccountRow
  pub donates : List DonateRow
  pub histories : List HistoryRow
  pub consumes : List ConsumeRow
  pub gifts : List GiftRow
  pub ranks : List RankRow
  pub admins : List AdminRow
  pub requests : List RequestRow
  pub onlines : List OnlineRow
  pub web_users : List WebUserRow
