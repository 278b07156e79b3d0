-- ===== src/Online.antt =====
-- The table online_player in bmloginsvrapp/sqlv2.go: which player is on which game server.
pub mod Departure
use bmservers.Prelude.{ℕ, Bool, true, ◌&&◌, Option, some, [], ◌==◌}
use bmservers.Prelude.Int.{ℤ, pos}
use bmservers.Prelude.Assoc.{int_eq}
use bmservers.Sql.Rows.{OnlineRow}
use bmservers.Sql.Engine.{Cond, Engine}
use bmservers.Sql.Calls.{executed}

abbrev pub online_uid : ℕ → Cond OnlineRow
online_uid uid = record { spliced = []; holds = λ r. r.uid == uid }

abbrev pub online_server : ℤ → Cond OnlineRow
online_server server_id = record { spliced = []; holds = λ r. int_eq r.server_id server_id }

abbrev pub online_exactly : ℕ → ℤ → ℤ → Cond OnlineRow
online_exactly uid server_id lid = record {
  spliced = [];
  holds = λ r. r.uid == uid && (int_eq r.server_id server_id && int_eq r.lid lid);
}

-- The scanned server id, 0 on an error or if there is no row.
abbrev pub fetched_server : Option (Option OnlineRow) → ℤ
fetched_server (some (some r)) = r.server_id
fetched_server _ = pos 0

-- An error is returned to the caller; true stands for nil.
module _ {Db : Type 0} (sql : Engine Db) where
  pub db_remove_all_online_player : Db → Bool × Db
  db_remove_all_online_player db =
      executed (sql.onlines.delete (record { spliced = []; holds = λ r. true }) db) db

  unfoldable pub db_remove_online_player_by_server_id : ℤ → Db → Bool × Db
  db_remove_online_player_by_server_id server_id db =
      executed (sql.onlines.delete (online_server server_id) db) db

  pub db_remove_online_player_by_uid : ℕ → ℤ → ℤ → Db → Bool × Db
  db_remove_online_player_by_uid uid server_id lid db =
      executed (sql.onlines.delete (online_exactly uid server_id lid) db) db

  pub db_add_online_player : ℕ → ℤ → ℤ → Db → Bool × Db
  db_add_online_player uid server_id lid db =
      executed (sql.onlines.insert [] (record { uid = uid; server_id = server_id; lid = lid }) db)
        db

  pub db_get_player_online_server_id : ℕ → Db → ℤ
  db_get_player_online_server_id uid db = fetched_server (sql.onlines.first (online_uid uid) db)
