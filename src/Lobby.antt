-- ===== src/Lobby.antt =====
-- The messages of the main thread in bmloginsvrapp/main_thread_process.go: the lobby of user game
-- servers, and the administrators' and accounts' messages. encoding/json is a parameter; a message
-- comes back with its answers, which are what the code sends on RetChan.

pub mod Messages
pub mod Servers
pub mod Steps
pub mod Hidden
pub mod Offline
pub mod Address
pub mod Accounts
mod Tests
use bmservers.Prelude.{
  ℕ, ◌+◌, ◌^◌, Bool, true, false, not, ◌&&◌, ◌||◌, Option, none, some, List, [], ◌∷◌, ◌++◌, ltb,
  ◌==◌, if◌then◌else◌, length, GoString, codes, str_eq, map,
}
use bmservers.Prelude.Int.{ℤ, pos, ◌+ℤ◌, ◌-ℤ◌, ltb_ℤ, to_int64}
use bmservers.Prelude.Assoc.{int_eq, lookup, insert, erase, str_key}
use bmservers.Prelude.Split.{split}
use bmservers.Prelude.Decimal.{itoa}
use bmservers.Prelude.Regex.{Regex, one_of, plus, matches, is_alnum}
use bmservers.Sql.Engine.{Engine}
use bmservers.Account.{
  UserAccountInfo, db_user_account_exist, db_insert_user_account_info,
  db_update_user_account_password,
}
use bmservers.Admins.{db_admin_account_verify, db_insert_admin_account, db_remove_admin_account}

pub record UserGameServer : Type 0 where
  pub id : ℤ
  pub address : GoString
  pub port : ℤ
  pub note : GoString
  pub online : ℤ
  pub password : GoString
  pub version : GoString
  pub last_live_time : ℤ

-- g_UserGameServerMap, g_UserGameServerSeed and g_enableGsListRequest.
pub record Lobby : Type 0 where
  pub servers : List (GoString × UserGameServer)
  pub seed : ℤ
  pub list_enabled : Bool

abbrev pub server_key : UserGameServer → GoString
server_key gs = gs.address ++ 58 ∷ itoa gs.port

-- A new record, or the update of the one that is there.
abbrev pub add_or_update : ℤ → UserGameServer → Lobby → Option UserGameServer → ℤ × Lobby
add_or_update now gs l none =
    let id = to_int64 (l.seed +ℤ pos 1) in
    let rd = record gs { last_live_time = now; id = id } in
    (id, record l { servers = insert (server_key gs) rd l.servers; seed = id })
add_or_update now gs l (some rd) = (
  rd.id,
  record l {
    servers =
        insert (server_key gs)
          (record rd { last_live_time = now; note = gs.note; online = gs.online }) l.servers;
  },
)

-- `now` is the reading of the clock.
unfoldable pub add_user_game_server : ℤ → UserGameServer → Lobby → ℤ × Lobby
add_user_game_server now gs l = add_or_update now gs l (lookup (server_key gs) l.servers)

-- The key of the first server with the id.
abbrev pub key_of_id : ℤ → List (GoString × UserGameServer) → Option GoString
key_of_id id [] = none
key_of_id id ((k, ug) ∷ rest) = if int_eq ug.id id then some k else key_of_id id rest

abbrev pub erase_key :
    Option GoString → List (GoString × UserGameServer) → List (GoString × UserGameServer)
erase_key none m = m
erase_key (some k) m = erase k m

unfoldable pub remove_user_game_server : ℤ → Lobby → Lobby
remove_user_game_server id l = record l { servers = erase_key (key_of_id id l.servers) l.servers }

-- `nowTime-v.LastLiveTime > 90`
abbrev pub is_offline : ℤ → UserGameServer → Bool
is_offline now ug = ltb_ℤ (pos 90) (to_int64 (now -ℤ ug.last_live_time))

-- The loop over the map, which deletes from it.
abbrev pub erase_offline :
    ℤ
    → List (GoString × UserGameServer)
    → List (GoString × UserGameServer)
    → List (GoString × UserGameServer)
erase_offline now [] m = m
erase_offline now ((k, ug) ∷ rest) m =
    erase_offline now rest (if is_offline now ug then erase k m else m)

unfoldable pub check_offline_user_game_server : ℤ → Lobby → Lobby
check_offline_user_game_server now l = record l { servers = erase_offline now l.servers l.servers }

-- What the list tells of a server.
abbrev pub exposed : UserGameServer → UserGameServer
exposed ug =
    if length ug.password == 0 then ug else record ug { password = codes "1"; port = pos 0 }

abbrev pub exposed_list : List (GoString × UserGameServer) → List UserGameServer
exposed_list servers = map (λ entry. exposed entry.1) servers

-- The first server with the id.
abbrev pub server_of_id : ℤ → List (GoString × UserGameServer) → Option UserGameServer
server_of_id id [] = none
server_of_id id ((k, ug) ∷ rest) = if int_eq ug.id id then some ug else server_of_id id rest

-- Whether the password that a client sends is accepted.
abbrev pub accepts : UserGameServer → GoString → Bool
accepts ug password =
    length ug.password == 0 || (not (length ug.password == 0) && str_eq ug.password password)

-- The events; kMThreadMsg_None and numbers without a name are `other_event`.
pub data MThreadEvent : Type 0 where
  register_gs get_gs_list get_gs_addr remove_gs_addr verify_admin add_admin : MThreadEvent
  del_admin enable_ol_room ls_register_account ls_modify_password other_event : MThreadEvent

pub record MThreadMsg : Type 0 where
  pub w_param : ℤ
  pub l_param : ℤ
  pub msg : GoString
  pub data_list : Option (List UserGameServer)

-- The state of the main thread: the lobby and the database.
pub record Main (Db : Type 0) : Type 0 where
  pub lobby : Lobby
  pub db : Db

-- The message afterwards, what was sent on its channel in order, and the state.
abbrev pub Answer : Type 0 → Type 0
Answer Db = MThreadMsg × (List Bool × Main Db)

-- ^[A-Za-z0-9]+$
abbrev pub alnum_regex : Regex
alnum_regex = plus (one_of is_alnum)

-- Both parts of a message are letters and digits, 15 at most.
abbrev pub both_match : GoString → GoString → Bool
both_match account password = matches alnum_regex account && matches alnum_regex password

abbrev pub one_is_long : GoString → GoString → Bool
one_is_long account password = ltb 15 (length account) || ltb 15 (length password)

abbrev pub lobby_user : GoString → GoString → UserAccountInfo
lobby_user account password = record {
  uid = 0;
  account = account;
  password = password;
  name0 = [];
  name1 = [];
  name2 = [];
  online = 0;
  mail = [];
}
