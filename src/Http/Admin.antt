-- ===== src/Http/Admin.antt =====
-- The administrators' interface: sessions and requests of bmloginsvrapp/http_admin_handler.go. The
-- package uuid is external: a new session comes with its guid.
use bmservers.Prelude.{
  ℕ, ◌+◌, ◌*◌, Bool, true, false, not, ◌||◌, Option, none, some, List, [], ◌∷◌, if◌then◌else◌,
  GoString, codes, length, ltb, ◌==◌, str_eq,
}
use bmservers.Prelude.Int.{ℤ, pos, ltb_ℤ, ◌-ℤ◌, to_int64}
use bmservers.Prelude.Assoc.{int_eq, str_key, lookup, insert, erase}
use bmservers.Prelude.Split.{split}
use bmservers.Prelude.Decimal.{atoi}
use bmservers.Sql.Engine.{Engine}
use bmservers.Admins.{db_admin_account_verify, db_insert_admin_account, db_remove_admin_account}
use bmservers.Lobby.{UserGameServer, enable_ol_room, Main}
use bmservers.Http.{no_message, get_form_value_int, ask}

-- kAccess_SuperAdmin
abbrev pub access_super_admin : ℤ
access_super_admin = pos 2

pub record AdminHandlerSessionInfo : Type 0 where
  pub guid : GoString
  pub ip : GoString
  pub account : GoString
  pub level : ℤ
  pub verify_time : ℤ

-- g_adminHandlerSessions and g_adminHandlerSessionOperateTimes.
pub record Sessions : Type 0 where
  pub table : List (GoString × AdminHandlerSessionInfo)
  pub operate_times : ℕ

-- g_adminHandlerSessionTimeoutSec
abbrev pub timeout_sec : ℤ
timeout_sec = pos (30 * 60)

abbrev pub is_timeout : ℤ → AdminHandlerSessionInfo → Bool
is_timeout now session = ltb_ℤ timeout_sec (to_int64 (now -ℤ session.verify_time))

-- The loop that deletes the sessions that have timed out.
abbrev pub erase_timeout :
    ℤ
    → List (GoString × AdminHandlerSessionInfo)
    → List (GoString × AdminHandlerSessionInfo)
    → List (GoString × AdminHandlerSessionInfo)
erase_timeout now [] m = m
erase_timeout now ((k, v) ∷ rest) m =
    erase_timeout now rest (if is_timeout now v then erase k m else m)

-- The session is stored; every eleventh time the old ones are deleted.
abbrev pub store_session : ℤ → AdminHandlerSessionInfo → Sessions → Sessions
store_session now session st =
    let table = insert session.guid session st.table in
    let times = st.operate_times + 1 in
    if ltb 10 times
    then record { table = erase_timeout now table table; operate_times = 0 }
    else record { table = table; operate_times = times }

-- The address has two parts, an IP and a port.
abbrev pub ip_of : List GoString → Option GoString
ip_of (ip ∷ port ∷ []) = some ip
ip_of _ = none

unfoldable pub new_admin_handler_session :
    ℤ → GoString → GoString → GoString → ℤ → Sessions → Option AdminHandlerSessionInfo × Sessions
new_admin_handler_session now guid address account level st =
    if length address == 0 || length account == 0
    then (none, st)
    else elim (ip_of (split 58 address)) [
      | none ↦ (none, st)
      | some ip ↦
          let session : AdminHandlerSessionInfo = record {
            guid = guid;
            ip = ip;
            account = account;
            level = level;
            verify_time = now;
          } in
          (some session, store_session now session st)
    ]

pub del_admin_handler_session : GoString → Sessions → Sessions
del_admin_handler_session guid st = record st { table = erase guid st.table }

pub data CheckAdminError : Type 0 where
  check_ok not_exists timeout address_error : CheckAdminError

-- The address of the request is compared with that of the session.
abbrev pub check_ip : Option GoString → GoString → CheckAdminError
check_ip none ip = address_error
check_ip (some part) ip = if str_eq part ip then check_ok else address_error

unfoldable pub check_admin_handler_session :
    ℤ → GoString → Option AdminHandlerSessionInfo → CheckAdminError
check_admin_handler_session now address none = not_exists
check_admin_handler_session now address (some session) =
    if is_timeout now session then timeout else check_ip (ip_of (split 58 address)) session.ip

-- The values of a request. The cookie is `none` if there is no cookie "verifycode".
pub record AdminRequest : Type 0 where
  pub action : GoString
  pub cookie : Option GoString
  pub account : GoString
  pub password : GoString
  pub level : GoString
  pub enable : GoString
  pub remote_addr : GoString

-- What the handler does: it answers, with a cookie that it sets or not, or it panics, because it
-- reads the text of an error that is nil.
pub data Reply : Type 0 where
  replied : GoString → Option GoString → Reply
  panicked : Reply

abbrev pub say : {Db : Type 0} → GoString → Sessions → Main Db → Reply × (Sessions × Main Db)
say text st s = (replied text none, (st, s))

abbrev pub check_message : CheckAdminError → GoString
check_message check_ok = []
check_message not_exists = codes "Invalid request session"
check_message timeout = codes "Authority timeout"
check_message address_error = codes "Invalid request address"

-- `enable := Atoi`, or 1 on an error.
abbrev pub enable_value : GoString → ℤ
enable_value s = elim (atoi s) [ none ↦ pos 1 | some n ↦ n ]

-- A level of 0 is 1.
abbrev pub level_value : GoString → ℤ
level_value s =
    let level = get_form_value_int s (pos 0) in if int_eq level (pos 0) then pos 1 else level

module _ {Db : Type 0} (sql : Engine Db) (decode : GoString → Option UserGameServer)
    (encode : UserGameServer → Option GoString) where
  -- A session is made for an administrator who has given the password.
  abbrev pub open_session :
      ℤ → GoString → AdminRequest → Bool × ℤ → Sessions → Main Db → Reply × (Sessions × Main Db)
  open_session now guid r (false, level) st s =
      say (codes "Verify administrator account failed") st s
  open_session now guid r (true, level) st s =
      let (made, st') = new_admin_handler_session now guid r.remote_addr r.account level st in
      elim made [
        | none ↦ say (codes "Cannot generate new session") st' s
        | some session ↦ (replied (codes "Verify success") (some session.guid), (st', s))
      ]

  -- A request without a cookie.
  abbrev pub unverified :
      ℤ → GoString → AdminRequest → Sessions → Main Db → Reply × (Sessions × Main Db)
  unverified now guid r st s =
      if not (str_eq r.action (codes "verify"))
      then elim r.cookie [
        | none ↦ say (codes "Access denied,not verified, error:http: named cookie not present") st s
        | some empty ↦ (panicked, (st, s))
      ]
      else if length r.account == 0 || length r.password == 0
      then say (codes "Invalid input parameters") st s
      else open_session now guid r (db_admin_account_verify sql r.account r.password s.db) st s

  abbrev pub add_admin_action :
      AdminRequest → AdminHandlerSessionInfo → Sessions → Main Db → Reply × (Sessions × Main Db)
  add_admin_action r session st s =
      if length r.account == 0
      then say (codes "Invalid input parameters") st s
      else if ltb_ℤ session.level access_super_admin
      then say (codes "Access denied") st s
      else let (ret, db) = db_insert_admin_account sql r.account (level_value r.level) s.db in
        say (if ret then codes "Add admin account success" else codes "Add admin account failed") st
          (record s { db = db })

  abbrev pub del_admin_action :
      AdminRequest → AdminHandlerSessionInfo → Sessions → Main Db → Reply × (Sessions × Main Db)
  del_admin_action r session st s =
      if length r.account == 0
      then say (codes "Invalid input parameters") st s
      else if ltb_ℤ session.level access_super_admin
      then say (codes "Access denied") st s
      else let (ret, db) = db_remove_admin_account sql r.account s.db in
        say (if ret then codes "Del admin account success" else codes "Del admin account failed") st
          (record s { db = db })

  -- `late` is whether the main thread answers after half a second only.
  abbrev pub enable_ol_room_action :
      ℤ → Bool → AdminRequest → Sessions → Main Db → Reply × (Sessions × Main Db)
  enable_ol_room_action now late r st s =
      let (ret, (m, s')) =
        ask sql decode encode enable_ol_room now
          (record no_message { w_param = enable_value r.enable }) s in
      say (if late then codes "Request timeout" else codes "enable olroom success") st s'

  -- The request of a session that is valid.
  abbrev pub verified :
      ℤ
      → Bool
      → AdminRequest
      → AdminHandlerSessionInfo
      → Sessions
      → Main Db
      → Reply × (Sessions × Main Db)
  verified now late r session st s =
      if str_eq r.action (codes "add_admin")
      then add_admin_action r session st s
      else if str_eq r.action (codes "del_admin")
      then del_admin_action r session st s
      else if str_eq r.action (codes "enableolroom")
      then enable_ol_room_action now late r st s
      else say (codes "Invalid action type") st s

  -- The cookie names a session, which is checked.
  abbrev pub with_session :
      ℤ
      → Bool
      → AdminRequest
      → Option AdminHandlerSessionInfo
      → CheckAdminError
      → Sessions
      → Main Db
      → Reply × (Sessions × Main Db)
  with_session now late r (some session) check_ok st s = verified now late r session st s
  with_session now late r o error st s = say (check_message error) st s

  unfoldable pub admin_handler :
      ℤ → Bool → GoString → AdminRequest → Sessions → Main Db → Reply × (Sessions × Main Db)
  admin_handler now late guid r st s =
      if length r.action == 0 then say (codes "Invalid action type") st s else elim r.cookie [
        | none ↦ unverified now guid r st s
        | some value ↦
            if length value == 0
            then unverified now guid r st s
            else let session = lookup value st.table in
              with_session now late r session
                (check_admin_handler_session now r.remote_addr session) st s
      ]
