-- ===== src/Ranks.antt =====
-- The table player_rank in bmloginsvrapp/sql.go and sqlv2.go, and the cached rank list of
-- bmloginsvrapp/player_rank.go.
pub mod Rows
mod Tests
use bmservers.Prelude.{
  ℕ, Bool, true, false, not, ◌&&◌, Option, none, some, List, [], ◌∷◌, if◌then◌else◌, GoString,
  str_eq,
}
use bmservers.Prelude.Int.{ℤ, pos, ltb_ℤ, ◌-ℤ◌, to_int64, to_uint64}
use bmservers.Prelude.Assoc.{int_eq}
use bmservers.Sql.Rows.{RankRow}
use bmservers.Sql.Engine.{Cond, Engine}
use bmservers.Sql.Calls.{exists_or_error, executed}

-- UserRankInfo; its server id is in no statement.
abbrev pub UserRankInfo : Type 0
UserRankInfo = RankRow

-- where name = '…'
abbrev pub rank_is : GoString → Cond RankRow
rank_is name = record { spliced = name ∷ []; holds = λ r. str_eq r.name name }

-- WHERE name = ?
abbrev pub rank_is_v2 : GoString → Cond RankRow
rank_is_v2 name = record { spliced = []; holds = λ r. str_eq r.name name }

-- A field that is 0 is not written.
abbrev pub if_set : ℤ → ℤ → ℤ
if_set new old = if int_eq new (pos 0) then old else new

abbrev pub set_rank : UserRankInfo → RankRow → RankRow
set_rank info r = record r {
  level = if_set info.level r.level;
  expr = if_set info.expr r.expr;
  power = if_set info.power r.power;
}

abbrev pub nothing_set : UserRankInfo → Bool
nothing_set info =
    int_eq info.level (pos 0) && (int_eq info.expr (pos 0) && int_eq info.power (pos 0))

module _ {Db : Type 0} (sql : Engine Db) where
  pub db_is_user_rank_exists : GoString → Db → Bool
  db_is_user_rank_exists name db = exists_or_error (sql.ranks.count (rank_is name) db)

  pub db_remove_user_rank_info : GoString → Db → Bool × Db
  unfolding db_is_user_rank_exists
  db_remove_user_rank_info name db =
      if db_is_user_rank_exists name db
      then executed (sql.ranks.delete (rank_is name) db) db
      else (true, db)

  -- A new row stores expr and power as `uint64`.
  pub db_update_user_rank_info : UserRankInfo → Db → Bool × Db
  unfolding db_is_user_rank_exists
  db_update_user_rank_info info db =
      if not (db_is_user_rank_exists info.name db)
      then executed
          (sql.ranks.insert (info.name ∷ [])
            (record info { expr = pos (to_uint64 info.expr); power = pos (to_uint64 info.power) })
            db)
          db
      else if nothing_set info
      then (true, db)
      else executed (sql.ranks.update (set_rank info) (rank_is info.name) db) db

  pub db_is_user_rank_exists_v2 : GoString → Db → Bool
  db_is_user_rank_exists_v2 name db = exists_or_error (sql.ranks.count (rank_is_v2 name) db)

  pub db_remove_user_rank_info_v2 : GoString → Db → Bool × Db
  unfolding db_is_user_rank_exists_v2
  db_remove_user_rank_info_v2 name db =
      if db_is_user_rank_exists_v2 name db
      then executed (sql.ranks.delete (rank_is_v2 name) db) db
      else (true, db)

  -- The update splices the name into its statement, the insert does not.
  pub db_update_user_rank_info_v2 : UserRankInfo → Db → Bool × Db
  unfolding db_is_user_rank_exists_v2
  db_update_user_rank_info_v2 info db =
      if not (db_is_user_rank_exists_v2 info.name db)
      then executed (sql.ranks.insert [] info db) db
      else if nothing_set info
      then (true, db)
      else executed (sql.ranks.update (set_rank info) (rank_is info.name) db) db

-- g_RankListCache and g_LastRankListCacheTime.
pub record RankCache : Type 0 where
  pub list : GoString
  pub time : ℤ

-- getPlayerRankList; `now` and `later` are its two readings of the clock, and `fresh` the list that
-- is read from the database and encoded, `none` if it cannot be encoded.
pub get_player_rank_list : ℤ → ℤ → Option GoString → RankCache → GoString × RankCache
get_player_rank_list now later fresh c =
    if ltb_ℤ (to_int64 (now -ℤ c.time)) (pos 30) then (c.list, c) else elim fresh [
      | none ↦ ([], record c { time = later })
      | some list ↦ (list, record { list = list; time = later })
    ]
