-- ===== src/Sql/Engine.antt =====
-- The interface of database/sql and go-sqlite3, as bmloginsvrapp uses it: for each table the
-- statements that the program issues. Neither package is in the repository, so an engine is a
-- parameter of all definitions over a database.
use bmservers.Prelude.{ℕ, Bool, Option, List, GoString}
use bmservers.Prelude.Int.{ℤ}
use bmservers.Sql.Rows.{
  AccountRow, DonateRow, HistoryRow, ConsumeRow, GiftRow, RankRow, AdminRow, RequestRow, OnlineRow,
  WebUserRow,
}

-- A WHERE clause. `spliced` are the texts that the program puts between quotes into the statement
-- by concatenation; it is empty where it passes `?` arguments.
pub record Cond (Row : Type 0) : Type 0 where
  pub spliced : List GoString
  pub holds : Row → Bool

-- The statements on one table. `none` is an error of Query or Exec. An error while the rows are
-- stepped through ends them as `rows.Next()` does: the result is then empty or shorter, or a count
-- of 0. What is read depends on the database only.
pub record Table (Db Row : Type 0) : Type 0 where
  -- select count(*) … where c
  pub count : Cond Row → Db → Option ℕ
  -- select … where c, of which the program reads the first row only
  pub first : Cond Row → Db → Option (Option Row)
  -- select … where c, read to the end
  pub all : Cond Row → Db → Option (List Row)
  -- select sum(column) … where c; the sum over no row is NULL, the inner `none`
  pub sum : (Row → ℤ) → Cond Row → Db → Option (Option ℤ)
  -- insert into … values(…), with the texts spliced into it
  pub insert : List GoString → Row → Db → Option Db
  -- update … set … where c
  pub update : (Row → Row) → Cond Row → Db → Option Db
  -- delete from … where c
  pub delete : Cond Row → Db → Option Db

pub record Engine (Db : Type 0) : Type 0 where
  pub accounts : Table Db AccountRow
  -- select uid from useraccount where c, as dbInsertUserAccountInfo issues it; its callers have just
  -- issued the same query, and each of the two can fail where the other does not
  pub account_again : Cond AccountRow → Db → Option (Option AccountRow)
  pub donates : Table Db DonateRow
  pub histories : Table Db HistoryRow
  pub consumes : Table Db ConsumeRow
  pub gifts : Table Db GiftRow
  pub ranks : Table Db RankRow
  pub admins : Table Db AdminRow
  pub requests : Table Db RequestRow
  pub onlines : Table Db OnlineRow
  pub web_users : Table Db WebUserRow
