-- ===== src/Login/Runs.antt =====
-- The select loop of main in bmloginsvrapp/main.go, as far as it hands on the events of clients and
-- game servers, and any sequence of such events.
use bmservers.Prelude.{
  Gives, Gives-map, Gives-some, Gives-both, decoded_cases, ℕ, ◌≡◌, inl, inr, ap, Option, some,
  arith, GoString, ◌==◌, Bool-cases, Option-cases,
}
use bmservers.Prelude.Assoc.{nat_key, int_key}
use bmservers.Sql.Engine.{Engine}
use bmservers.Login.State.{ClientNode, Peers, Login, Saves, Proto, VerifyAccountReq}
use bmservers.Login.Clients.{
  ClientEvent, connected, disconnected, received, on_unverified_data, on_event_from_client_data,
  on_event_from_client_connected, on_event_from_client_disconnected, opcode_and_body, client_of,
  verify_account, on_verified_data, process_event_from_client,
}
use bmservers.Login.LoginGame.{LoginExtendInfo}
use bmservers.Login.Servers.{ServerEvent, process_event_from_server}
use bmservers.Login.ServerMap.{
  HasServerMap, SameServers, same_peers, same-HasServerMap, process_event_from_server-HasServerMap,
}
use bmservers.Login.Verify.{peers-verify_account, peers-on_verified_data}
use bmservers.Login.ClientMap.{HasClientMap}
use bmservers.Login.ClientMap.Kept.{IsFresh, HasUids, process_event_from_client-HasClientMap}
use bmservers.Login.ClientMap.FromServers.{process_event_from_server-HasClientMap}

-- An event that the main loop takes from one of its queues.
pub data Event : Type 0 where
  from_client : ClientEvent → Event
  from_server : ServerEvent → Event

module _ {Db Files : Type 0} (sql : Engine Db) (saves : Saves Files) (proto : Proto)
    (json : LoginExtendInfo → GoString) where
  unfoldable pub process_event : Event → Login Db Files → Option (Login Db Files)
  process_event (from_client e) s = process_event_from_client sql saves proto json e s
  process_event (from_server e) s = process_event_from_server sql saves proto e s

  -- A connection of a client that is reported is not open yet.
  abbrev pub IsFreshEvent : Event → Peers → Type 0
  IsFreshEvent (from_client e) s = IsFresh e s
  IsFreshEvent (from_server e) s = Unit

  -- The states that follow one another in the main loop, none of whose events panics.
  pub data Runs : Login Db Files → Login Db Files → Type 0 where
    done : {s : Login Db Files} → Runs s s
    next :
        {s t u : Login Db Files} (e : Event)
        → IsFreshEvent e s.peers
        → process_event e s ≡ some t
        → Runs t u
        → Runs s u

  servers-verify_account :
      (conn p : ℕ) (cn : ClientNode) (pb : VerifyAccountReq) (s : Login Db Files)
      → SameServers s.peers (verify_account sql saves conn p cn pb s).2.peers
  servers-verify_account conn p cn pb s = elim (peers-verify_account sql saves conn p cn pb s) [
    | inl same ↦ same_peers s.peers _ same
    | inr (_, _, _, e) ↦
        (ap (λ p. p.server_heap) e, ap (λ p. p.server_node_map) e, ap (λ p. p.server_next) e)
  ]

  servers-unverified :
      (conn p : ℕ) (cn : ClientNode) (op : ℕ) (body : GoString) (s : Login Db Files)
      → SameServers s.peers (on_unverified_data sql saves proto conn p cn op body s).peers
  unfolding on_unverified_data
  servers-unverified conn p cn op body s =
      let verified =
        decoded_cases (proto.verify_account_req body)
          (λ pb. servers-verify_account conn p cn pb s) in
      (ground (arith, verified), ground (arith, verified), ground (arith, verified))

  servers-on_client_event :
      (e : ClientEvent) (s : Login Db Files)
      → HasServerMap s.peers
      → Gives (λ t. HasServerMap t.peers) (process_event_from_client sql saves proto json e s)
  unfolding process_event_from_client on_event_from_client_connected
      on_event_from_client_disconnected on_event_from_client_data
  servers-on_client_event (connected conn token) s h = h
  servers-on_client_event (disconnected conn) s h = elim (Option-cases (client_of conn s)) [
    | inl e ↦ rw (on_event_from_client_disconnected, e) h
    | inr ((p, cn), e) ↦ rw (on_event_from_client_disconnected, e) h
  ]
  servers-on_client_event (received conn bytes) s h = elim (Option-cases (client_of conn s)) [
    | inl e ↦ rw (e, on_event_from_client_data) h
    | inr ((p, cn), e) ↦ elim (Option-cases (opcode_and_body bytes)) [
      | inl e' ↦ rw (e, on_event_from_client_data, e') tt
      | inr ((op, body), e') ↦ elim (Bool-cases (cn.uid == 0)) [
        | inl z ↦
            rw (e, on_event_from_client_data, e', z)
              (same-HasServerMap s.peers
                (on_unverified_data sql saves proto conn p cn op body s).peers
                (servers-unverified conn p cn op body s) h)
        | inr z ↦
            rw (e, on_event_from_client_data, e', z)
              (Gives-map (on_verified_data sql saves proto json conn cn op body s)
                (λ t same. rw same h)
                (peers-on_verified_data sql saves proto json conn cn op body s))
      ]
    ]
  ]

  step-HasMaps :
      (e : Event) (s : Login Db Files)
      → IsFreshEvent e s.peers
      → HasUids sql s.db
      → HasServerMap s.peers × HasClientMap s.peers
      → Gives (λ t. HasServerMap t.peers × HasClientMap t.peers) (process_event e s)
  unfolding process_event
  step-HasMaps (from_client e) s fresh uids (h, k) =
      Gives-both (λ t. HasServerMap t.peers) (λ t. HasClientMap t.peers) _
        (servers-on_client_event e s h)
        (process_event_from_client-HasClientMap sql saves proto json e s fresh uids k)
  step-HasMaps (from_server e) s fresh uids (h, k) =
      Gives-both (λ t. HasServerMap t.peers) (λ t. HasClientMap t.peers) _
        (process_event_from_server-HasServerMap sql saves proto e s h)
        (process_event_from_server-HasClientMap sql saves proto e s k)

  -- After any sequence of events of clients and game servers, the map of the servers names each by
  -- its own id, and the map of the users holds exactly the clients that are connected and verified,
  -- if that was so at the start. It is assumed that a connection that is reported is not open, and
  -- that no account has the uid 0.
  pub Runs-HasMaps :
      {s t : Login Db Files}
      → Runs s t
      → ((db : Db) → HasUids sql db)
      → HasServerMap s.peers × HasClientMap s.peers
      → HasServerMap t.peers × HasClientMap t.peers
  Runs-HasMaps done uids h = h
  Runs-HasMaps {s} (next {t} e fresh step rest) uids h = Runs-HasMaps rest uids (
      Gives-some (λ u. HasServerMap u.peers × HasClientMap u.peers) (process_event e s) step
        (step-HasMaps e s fresh (uids s.db) h))
