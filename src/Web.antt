-- ===== src/Web.antt =====
-- The web server of bmloginsvrapp: permissions, the user behind a request and the routes (router.go,
-- manage_handler.go), and the table web_user (sqlweb.go). gorilla/sessions is external: what a
-- request's session holds is an input, and what a handler saves is an output.

pub mod Cookie
pub mod Access
pub mod Forms
pub mod Register
pub mod Refusals
pub mod SignIn
pub mod Manage
mod Tests
use bmservers.Prelude.{
  ℕ, zero, suc, ◌+◌, ◌*◌, ◌^◌, Bool, true, false, ◌&&◌, ◌||◌, Option, none, some, List, [], ◌∷◌,
  ◌++◌, ltb, leb, ◌==◌, if◌then◌else◌, GoString, codes, str_eq, map,
}
use bmservers.Prelude.Int.{ℤ, pos, to_uint32, to_int64}
use bmservers.Prelude.Assoc.{int_eq}
use bmservers.Prelude.Split.{split}
use bmservers.Prelude.Decimal.{itoa, atoi}
use bmservers.Sql.Rows.{WebUserRow}
use bmservers.Sql.Engine.{Cond, Engine}

-- kPermission_None to kPermission_SuperAdmin
abbrev pub permission_none : ℕ
permission_none = 0

abbrev pub permission_guest : ℕ
permission_guest = 1

abbrev pub permission_user : ℕ
permission_user = 2

abbrev pub permission_super_admin : ℕ
permission_super_admin = 4

unfoldable pub check_permission : ℕ → ℕ → Bool
check_permission per_checked want =
    if ltb permission_super_admin per_checked || ltb permission_super_admin want
    then false
    else if per_checked == permission_none || want == permission_none
    then false
    else leb want per_checked

-- WebUser has the columns of the row.
abbrev pub WebUser : Type 0
WebUser = WebUserRow

-- The zero value of WebUser with the permission of a guest.
abbrev pub guest : WebUser
guest = record { uid = 0; user_name = []; password = []; permission = permission_guest }

-- The result of a query of which the first row is scanned: an error of the query, or a number that
-- is no uint32, is an error, and without a row the user is the one given.
abbrev pub scanned : WebUser → (WebUserRow → WebUser) → Option (Option WebUserRow) → Option WebUser
scanned fallback fill none = none
scanned fallback fill (some none) = some fallback
scanned fallback fill (some (some r)) =
    let user = fill r in
    if ltb user.uid (2 ^ 32) && ltb user.permission (2 ^ 32) then some user else none

-- where user_name = ?
abbrev pub user_name_is : GoString → Cond WebUserRow
user_name_is name = record { spliced = []; holds = λ r. str_eq r.user_name name }

-- where uid = ?
abbrev pub web_uid_is : ℕ → Cond WebUserRow
web_uid_is uid = record { spliced = []; holds = λ r. r.uid == uid }

-- The user of the database, if it is the one that the cookie names.
abbrev pub named_user : GoString → Option WebUser → WebUser
named_user name none = guest
named_user name (some dbuser) = if str_eq dbuser.user_name name then dbuser else guest

-- The session of a request: an error of the store, or the value of "login-key", if there is one.
abbrev pub Session : Type 0
Session = Option (Option GoString)

module _ {Db : Type 0} (sql : Engine Db) where
  unfoldable pub db_web_user_get : GoString → Db → Option WebUser
  db_web_user_get username db =
      scanned guest (λ r. record r { user_name = username })
        (sql.web_users.first (user_name_is username) db)

  unfoldable pub db_web_user_get_by_uid : ℕ → Db → Option WebUser
  db_web_user_get_by_uid uid db =
      scanned (record guest { uid = uid }) (λ r. record r { uid = uid })
        (sql.web_users.first (web_uid_is uid) db)

  -- The user whose uid the first part of the cookie is.
  abbrev pub user_of_uid : Option ℤ → GoString → Db → WebUser
  user_of_uid none name db = guest
  user_of_uid (some uid) name db =
      if int_eq uid (pos 0)
      then guest
      else named_user name (db_web_user_get_by_uid (to_uint32 uid) db)

  -- A cookie must have two parts.
  abbrev pub user_of_parts : List GoString → Db → WebUser
  user_of_parts (uid ∷ name ∷ []) db = user_of_uid (atoi uid) name db
  user_of_parts (uid ∷ name ∷ more ∷ rest) db = guest
  user_of_parts (uid ∷ []) db = guest
  user_of_parts [] db = guest

  unfoldable pub get_web_user : Session → Db → WebUser
  get_web_user none db = guest
  get_web_user (some none) db = guest
  get_web_user (some (some key)) db = user_of_parts (split 58 key) db

-- What is written to the session: the value of "login-key", and MaxAge where it is set.
pub record Saved : Type 0 where
  pub login_key : GoString
  pub max_age : Option ℤ

abbrev pub max_age_of : ℕ → Option ℤ
max_age_of zero = none
max_age_of (suc days) = some (to_int64 (pos (suc days * 24 * 60 * 60)))

-- `none`: nothing is saved. The number of days is never negative.
unfoldable pub save_web_user : Bool → WebUser → ℕ → Option Saved
save_web_user store_failed user save_days =
    if store_failed
    then none
    else if user.uid == 0
    then none
    else some (record {
      login_key = itoa (pos user.uid) ++ 58 ∷ user.user_name;
      max_age = max_age_of save_days;
    })

-- A route with its handler.
pub record RouterItem (Handler : Type 0) : Type 0 where
  pub url : GoString
  pub permission : ℕ
  pub handler : Handler

-- What the wrapped handler does: it answers with 403, or runs the handler for a user.
pub data Served (Handler : Type 0) : Type 0 where
  access_denied : Served Handler
  handled_by : Handler → WebUser → Served Handler

-- The handlers that the routes name.
pub data Page : Type 0 where
  web_index_handler web_reg_account_handler web_signin_handler : Page
  web_sign_out_handler signup_success_handler web_modify_password_handler : Page
  web_modify_password_success_handler web_about_handler web_servers_handler : Page
  web_management_index_handler web_management_user_handler ajax_management_find_user : Page
  web_management_add_donate_handler ajax_management_add_donate : Page
  web_management_view_donate_handler : Page

abbrev pub route : GoString → ℕ → Page → RouterItem Page
route url permission page = record { url = url; permission = permission; handler = page }

abbrev pub router_items : List (RouterItem Page)
router_items =
    route (codes "/") permission_guest web_index_handler
    ∷ route (codes "/account/regaccount") permission_guest web_reg_account_handler
    ∷ route (codes "/signin") permission_guest web_signin_handler
    ∷ route (codes "/signout") permission_user web_sign_out_handler
    ∷ route (codes "/account/signupsuccess") permission_guest signup_success_handler
    ∷ route (codes "/account/modifypassword") permission_guest web_modify_password_handler
    ∷ route (codes "/account/modifypasswordsuccess") permission_guest
        web_modify_password_success_handler
    ∷ route (codes "/about") permission_guest web_about_handler
    ∷ route (codes "/servers") permission_guest web_servers_handler
    ∷ []

abbrev pub router_management_items : List (RouterItem Page)
router_management_items =
    route (codes "/management/index") permission_super_admin web_management_index_handler
    ∷ route (codes "/management/user") permission_super_admin web_management_user_handler
    ∷ route (codes "/management/finduser") permission_super_admin ajax_management_find_user
    ∷ route (codes "/management/adddonate") permission_super_admin web_management_add_donate_handler
    ∷ route (codes "/management/doadddonate") permission_super_admin ajax_management_add_donate
    ∷ route (codes "/management/viewdonate") permission_super_admin
        web_management_view_donate_handler
    ∷ []

module _ {Db : Type 0} (sql : Engine Db) where
  unfoldable pub wrap_handler : {H : Type 0} → RouterItem H → Session → Db → Served H
  wrap_handler item session db =
      let user = get_web_user sql session db in
      if check_permission user.permission item.permission
      then handled_by item.handler user
      else access_denied

  -- The routes that InitRouters gives to gorilla/mux, in order.
  abbrev pub init_routers : List (GoString × (Session → Db → Served Page))
  init_routers =
      map (λ item. (item.url, wrap_handler item)) (router_items ++ router_management_items)
