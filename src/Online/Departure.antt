-- ===== src/Online/Departure.antt =====
-- dbRemoveOnlinePlayerByServerId of bmloginsvrapp/sqlv2.go: what it makes of the table online_player.
use bmservers.Prelude.{◌≡◌, ◌≢◌, inl, inr, true, List, [], arith, keep, Option-cases, ◌∙◌, ap}
use bmservers.Prelude.Int.{ℤ}
use bmservers.Prelude.Assoc.{int_eq, int_eq_iff}
use bmservers.Sql.Rows.{Snapshot, OnlineRow}
use bmservers.Sql.Engine.{Engine}
use bmservers.Sql.Laws.{Laws, without}
use bmservers.Sql.Filters.{keep-without_disjoint, keep-without_self}
use bmservers.Online.{online_server, db_remove_online_player_by_server_id}

-- The players of a server.
abbrev pub players : ℤ → Snapshot → List OnlineRow
players id s = keep (λ r. int_eq r.server_id id) s.onlines

module _ {Db : Type 0} {sql : Engine Db} {view : Db → Snapshot} (laws : Laws sql view) where
  onlines-removed :
      (id : ℤ) (db : Db)
      → (db_remove_online_player_by_server_id sql id db).0 ≡ true
      → (view (db_remove_online_player_by_server_id sql id db).1).onlines
        ≡ without (λ r. int_eq r.server_id id) (view db).onlines
  unfolding db_remove_online_player_by_server_id
  onlines-removed id db h =
      let deleted = laws.onlines.delete_law (online_server id) db tt in
      elim (Option-cases (sql.onlines.delete (online_server id) db)) [
        | inl e ↦ absurd (ground arith)
        | inr (db', e) ↦ ground arith
      ]

  pub no_players :
      (id : ℤ) (db : Db)
      → (db_remove_online_player_by_server_id sql id db).0 ≡ true
      → players id (view (db_remove_online_player_by_server_id sql id db).1) ≡ []
  no_players id db h =
      ap (keep (λ r. int_eq r.server_id id)) (onlines-removed id db h)
      ∙ keep-without_self (λ r. int_eq r.server_id id) (view db).onlines

  pub other_players :
      (id other : ℤ) (db : Db)
      → other ≢ id
      → (db_remove_online_player_by_server_id sql id db).0 ≡ true
      → players other (view (db_remove_online_player_by_server_id sql id db).1)
        ≡ players other (view db)
  other_players id other db apart h =
      ap (keep (λ r. int_eq r.server_id other)) (onlines-removed id db h)
      ∙ keep-without_disjoint (λ r. int_eq r.server_id id) (λ r. int_eq r.server_id other)
          (view db).onlines
          (λ r e. ground (arith, (int_eq_iff r.server_id other).0 e, (int_eq_iff r.server_id id).0))
