-- ===== src/Login/Departure.antt =====
-- onEventFromServerDisconnected of bmloginsvrapp/handle_eventfromserver.go: what goes with a server.
use bmservers.Prelude.{ℕ, ◌≡◌, ◌≢◌, true, false, none, some, [], arith}
use bmservers.Prelude.Int.{ℤ, pos}
use bmservers.Prelude.Assoc.{nat_key, int_key, int_eq, int_eq_iff, lookup, lookup-erase}
use bmservers.Sql.Rows.{Snapshot}
use bmservers.Sql.Engine.{Engine}
use bmservers.Sql.Laws.{Laws}
use bmservers.Online.{db_remove_online_player_by_server_id}
use bmservers.Online.Departure.{players, no_players, other_players}
use bmservers.Login.State.{ServerNode, Login, Saves, Proto}
use bmservers.Login.Servers.{server_of, on_event_from_server_disconnected}

-- From `s` to `t` the server with the id has gone: it is in the map no more, its connection has no
-- data, and no player is online on it; the other servers and their players stay.
pub record IsGone {Db Files : Type 0} (view : Db → Snapshot) (conn : ℕ) (id : ℤ)
    (s t : Login Db Files) : Type 0 where
  pub unmapped : lookup id t.server_node_map ≡ none
  pub unbound : lookup conn t.server_data ≡ none
  pub empty : players id (view t.db) ≡ []
  pub others :
      (other : ℤ)
      → other ≢ id
      → (lookup other t.server_node_map ≡ lookup other s.server_node_map)
        × (players other (view t.db) ≡ players other (view s.db))

module _ {Db Files : Type 0} {sql : Engine Db} (saves : Saves Files) (proto : Proto)
    {view : Db → Snapshot} (laws : Laws sql view) where
  -- When a registered server disconnects, its id is free again and no player is online on it, and
  -- the other servers and their players stay. It is assumed that the rows of its players can be
  -- deleted.
  pub on_event_from_server_disconnected-IsGone :
      (conn p : ℕ) (sn : ServerNode) (s : Login Db Files)
      → server_of conn s ≡ some (p, sn)
      → sn.server_id ≢ pos 0
      → (db_remove_online_player_by_server_id sql sn.server_id s.db).0 ≡ true
      → IsGone view conn sn.server_id s (on_event_from_server_disconnected sql saves proto conn s)
  unfolding on_event_from_server_disconnected
  on_event_from_server_disconnected-IsGone conn p sn s of registered deletes =
      let not0 : int_eq sn.server_id (pos 0) ≡ false =
        ground (arith, (int_eq_iff sn.server_id (pos 0)).0) in
      rw (on_event_from_server_disconnected, of, not0)
        (record {
          unmapped = ground (
            arith,
            lookup-erase sn.server_id sn.server_id s.server_node_map,
            (int_eq_iff sn.server_id sn.server_id).1,
          );
          unbound = ground (arith, lookup-erase conn conn s.server_data);
          empty = no_players laws sn.server_id s.db deletes;
          others = λ other apart. (
            ground (
              arith,
              lookup-erase sn.server_id other s.server_node_map,
              (int_eq_iff sn.server_id other).0,
            ),
            other_players laws sn.server_id other s.db apart deletes,
          );
        })
