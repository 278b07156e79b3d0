-- ===== src/Lib.antt =====
-- The login server of bmservers.
--
-- bmloginsvrapp is a Go program that keeps the accounts, roles, donations and ranks of a game in an
-- SQLite database, lets clients verify their accounts over one listener, lets game servers register
-- over another, and hands a verified client on to a game server. One loop handles the events of
-- both listeners one after the other, so the state is passed through the handlers explicitly. Beside
-- it run an HTTP interface, which posts messages to that loop, and a web server for accounts.
--
-- Files, and the code they model (paths from the root of the repository):
-- - Sql: the tables that bmloginsvrapp/sqlv2.go creates (Sql/Rows), the statements that the program
--   issues (Sql/Engine), and what it relies on of SQLite (Sql/Laws). database/sql and go-sqlite3
--   are external: an engine is a parameter of every definition over a database. Each statement may
--   fail in Query or Exec; what a query returns depends on the database only, so that the same
--   query issued twice fails twice, except for the one that dbInsertUserAccountInfo repeats after
--   its callers, which fails by itself. It is assumed that no error comes up while rows are stepped
--   through. A statement with a text spliced into it is only relied on if the text has no quote.
--   Sql/Memory is an engine that satisfies the assumptions; it runs the tests.
-- - Donate: the functions of bmloginsvrapp/sql.go on donations, orders and purchases
--   (dbIncUserDonateInfo, dbOnConsumeDonate and the others, under the same names in lower case with
--   underscores; so in all files).
-- - Account: the functions of bmloginsvrapp/sql.go on accounts and role names; Account/Inserts,
--   Account/Register, Account/Names and Account/Passwords: theorems on these.
-- - Online: the functions of bmloginsvrapp/sqlv2.go on the players that are online.
-- - Ranks: the functions of bmloginsvrapp/sql.go and bmloginsvrapp/sqlv2.go on ranks, and the cache
--   of bmloginsvrapp/player_rank.go.
-- - Login/State, Login/Registry, Login/Roles, Login/LoginGame, Login/Clients: the state and the
--   handlers of bmloginsvrapp/handle_eventfromclient.go, with the helpers of bmloginsvrapp/utils.go.
-- - Login/Servers: the handlers of bmloginsvrapp/handle_eventfromserver.go.
-- - Login/Runs: the two network queues in the loop of bmloginsvrapp/main.go.
-- - Admins: the functions of bmloginsvrapp/sql.go on donate requests, administrators and system
--   gifts.
-- - Lobby, Lobby/Messages: the lobby of game servers and the messages of the main thread in
--   bmloginsvrapp/main_thread_process.go. A message comes back with what was sent on its channel.
-- - Http: the handlers of bmloginsvrapp/http_handler.go, bmloginsvrapp/http_rs_handler.go and
--   bmloginsvrapp/rpc_handler.go; Http/Admin: bmloginsvrapp/http_admin_handler.go. A handler posts
--   one message, and the main thread is taken to process it while the handler waits.
-- - Web: the cookie, the permissions and the routes of bmloginsvrapp/router.go and
--   bmloginsvrapp/manage_handler.go, with the table of bmloginsvrapp/sqlweb.go; Web/SignIn and
--   Web/Forms: the forms of bmloginsvrapp/web_handler.go; Web/Manage: those of
--   bmloginsvrapp/manage_handler.go.
-- - Log, Log/Lines: the log helper of shareutils/LogHelper.go.
-- - Admins/Accounts, Admins/Keys, Lobby/Servers, Lobby/Steps, Lobby/Hidden, Lobby/Offline,
--   Lobby/Address, Lobby/Accounts, Http/Access, Http/Sessions, Http/Shop, Web/Cookie, Web/Access, Web/Register,
--   Web/Refusals, Log/Settings and Log/Dates: theorems on these.
-- - Login/Frame, Login/Verify, Login/Tie, Login/HandOver, Login/Departure, Login/ServerMap and
--   Login/ClientMap: theorems on the handlers.
-- - Prelude: numbers, integers with the wrap-around of Go's int32, int and uint64, Go strings as
--   lists of bytes, Go maps as association lists; strings.Split (Prelude/Split), strconv.Itoa and
--   Atoi (Prelude/Decimal), and regular expressions by derivatives (Prelude/Regex).
--
-- A Go pointer is a number that names a node in a heap, since maps, lists and connections share the
-- nodes; a server of the lobby and a session are values, since nothing else holds them. Decoding of
-- packets (protobuf), the procedures of BMHumSaveControl.dll, JSON, MD5 and the rank list that is
-- read afresh are parameters; the clock's readings, random ids, captchas and the results of
-- runtime.Caller come as arguments. A panic is `none` or a value of its own. The loops run over lists
-- or up to a constant; only the digits of a number are counted by fuel, 20 of them, which is enough
-- for 64 bits.
--
-- Not modelled: start-up, flags, the timers of the main loop, the scheduler, the redis queue, crash
-- reports, the pages that are only rendered, the ordered rank queries, the unused second versions of
-- the role name functions, and the generated code of the protocols.
pub mod Prelude
pub mod Sql
pub mod Donate
pub mod Account
pub mod Online
pub mod Ranks
pub mod Admins
pub mod Lobby
pub mod Http
pub mod Log
pub mod Web
pub mod Login
