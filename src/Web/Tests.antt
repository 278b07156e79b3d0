-- ===== src/Web/Tests.antt =====
-- A database in memory with one user of the web server, who signs in, and visitors who register.
use bmservers.Prelude.{
  ◌≡◌, ◌≤◌, refl, inl, inr, true, false, Option, none, some, List, [], ◌∷◌, GoString, codes, arith,
  str_eq, keep, ◌++◌, ◌==◌,
}
use bmservers.Prelude.Decimal.{digits, atoi}
use bmservers.Prelude.Int.{pos, ◌+ℤ◌, ◌-ℤ◌, to_int32, to_int64, to_uint32, to_uint64}
use bmservers.Prelude.Regex.{matches}
use bmservers.Sql.Rows.{Snapshot, WebUserRow, AccountRow, HistoryRow}
use bmservers.Sql.Laws.{IsRow}
use bmservers.Sql.Memory.{memory, memory-Laws}
use bmservers.Account.{
  db_insert_user_account_info, insert_unmarked, db_user_account_exist, db_get_user_account_info,
  db_get_user_account_info_by_uid, db_update_user_account_password,
}
use bmservers.Account.Inserts.{IsUnique, with_accounts}
use bmservers.Account.Passwords.{with_password}
use bmservers.Web.{
  WebUser, guest, Saved, save_web_user, get_web_user, db_web_user_get, db_web_user_get_by_uid,
  check_permission, RouterItem, Page, handled_by, wrap_handler, route, web_management_index_handler,
  permission_super_admin,
}
use bmservers.Web.Access.{IsSignedIn, wrap_handler-IsSignedIn, management_page-IsSignedIn}
use bmservers.Web.Cookie.{get_web_user-colon}
use bmservers.Web.SignIn.{
  SignInForm, signed_in, web_signin_handler, HasUidKey, web_signin_handler-get_web_user,
}
use bmservers.Web.Forms.{
  SignUpForm, redirect, refused, bad_password, post, validate, post_reg_account,
  post_modify_password, web_reg_account_handler, web_modify_password_handler, signup_success_url,
  modify_success_url,
}
use bmservers.Web.Register.{
  IsValid, IsRegistered, web_reg_account_handler-IsUnique, web_modify_password_handler-IsChanged,
}
use bmservers.Donate.{
  db_inc_user_donate_info_ex, db_is_user_donate_history_exists, db_insert_user_donate_history,
  db_get_user_donate_history_sum, store_donate_ex, db_is_user_donate_exists,
  db_insert_user_donate_info_ex,
}
use bmservers.Donate.Ledger.{IsLedger}
use bmservers.Web.Manage.{
  DonateForm, donate_added, donor, donated_count, ajax_management_add_donate,
  ajax_management_add_donate-IsLedger,
}
use bmservers.Web.Refusals.{web_forms-refused}

abbrev admin : WebUserRow
admin = record { uid = 7; user_name = codes "root"; password = codes "sum"; permission = 4 }

abbrev web_db : Snapshot
web_db = record {
  accounts = [];
  donates = [];
  histories = [];
  consumes = [];
  gifts = [];
  ranks = [];
  admins = [];
  requests = [];
  onlines = [];
  web_users = admin ∷ [];
}

abbrev index_route : RouterItem Page
index_route = route (codes "/management/index") permission_super_admin web_management_index_handler

abbrev admin_session : Option (Option GoString)
admin_session = some (some (codes "7:root"))

serves :
    wrap_handler memory index_route admin_session web_db
    ≡ handled_by web_management_index_handler admin
unfolding wrap_handler get_web_user db_web_user_get_by_uid check_permission atoi str_eq to_uint32
serves = refl

wrap_handler-IsSignedIn_example :
    (web_management_index_handler ≡ index_route.handler)
    × IsSignedIn admin_session admin web_db.web_users
    × (index_route.permission ≤ admin.permission)
    × (admin.permission ≤ permission_super_admin)
wrap_handler-IsSignedIn_example =
    wrap_handler-IsSignedIn memory-Laws index_route admin_session web_db
      web_management_index_handler admin (omega arith) serves

management_page-IsSignedIn_example :
    IsSignedIn admin_session admin web_db.web_users × (admin.permission ≡ permission_super_admin)
management_page-IsSignedIn_example =
    management_page-IsSignedIn memory-Laws index_route admin_session web_db
      web_management_index_handler admin (inl refl) serves

-- A user whose name has a colon.
abbrev colon_user : WebUser
colon_user = record { uid = 8; user_name = codes "a:b"; password = []; permission = 2 }

abbrev colon_saved : Saved
colon_saved = record { login_key = codes "8:a:b"; max_age = none }

saves_colon : save_web_user false colon_user 0 ≡ some colon_saved
unfolding save_web_user digits
saves_colon = refl

get_web_user-colon_example : get_web_user memory (some (some (codes "8:a:b"))) web_db ≡ guest
get_web_user-colon_example =
    get_web_user-colon memory colon_user 0 web_db colon_saved refl saves_colon

-- A sum that is the same for all texts.
abbrev sum_of_text : GoString → GoString
sum_of_text s = codes "sum"

abbrev sign_in : SignInForm
sign_in = record {
  captcha_solved = true;
  login = codes "root";
  password = codes "secret";
  url = [];
}

abbrev root_saved : Saved
root_saved = record { login_key = codes "7:root"; max_age = none }

signs_in :
    web_signin_handler memory sum_of_text sign_in false web_db
    ≡ signed_in (codes "/") (some root_saved)
unfolding web_signin_handler db_web_user_get save_web_user digits str_eq
signs_in = refl

admin_key : HasUidKey web_db.web_users
admin_key a b (inl e) (inl e') same = cc
admin_key a b (inl e) (inr h) same = elim h [ ]
admin_key a b (inr h) k same = elim h [ ]

web_signin_handler-get_web_user_example :
    (sign_in.captcha_solved ≡ true)
    × (row : WebUserRow) × IsRow row web_db.web_users
    × (row.user_name ≡ sign_in.login)
    × (row.password ≡ sum_of_text sign_in.password)
    × (get_web_user memory (some (some root_saved.login_key)) web_db ≡ row)
web_signin_handler-get_web_user_example =
    web_signin_handler-get_web_user memory-Laws sum_of_text (λ s e. cc) sign_in web_db (codes "/")
      root_saved refl admin_key (λ uid e. cc) signs_in

abbrev form : SignUpForm
form = record {
  captcha_solved = true;
  user_name = codes "hero1";
  password = codes "pass1";
  password_confirm = codes "pass1";
  email = codes "a@b.cc";
}

passes : validate form ≡ none
unfolding validate matches str_eq
passes = refl

-- The database with the user of the form.
abbrev with_hero : Snapshot
with_hero = record web_db {
  accounts =
      record {
        uid = 1;
        account = codes "hero1";
        password = codes "pass1";
        name0 = [];
        name1 = [];
        name2 = [];
        online = 0;
        mail = codes "a@b.cc";
      }
      ∷ [];
}

signs_up :
    web_reg_account_handler memory post form web_db
    ≡ (redirect (signup_success_url (codes "hero1")), with_hero)
unfolding web_reg_account_handler post_reg_account validate matches str_eq db_user_account_exist
    db_insert_user_account_info insert_unmarked
signs_up = refl

web_db-IsUnique : IsUnique web_db
web_db-IsUnique = record {
  named = record { one_uid = λ uid. omega arith; one_name = λ name long. omega arith };
  one_account = λ account. omega arith;
}

web_reg_account_handler-IsUnique_example :
    IsValid form
    × (signup_success_url (codes "hero1")
        ≡ codes "/account/signupsuccess?account=" ++ form.user_name)
    × IsUnique with_hero
    × (rows : List AccountRow) × IsRegistered memory-Laws form web_db rows
    × (with_hero ≡ with_accounts rows web_db)
web_reg_account_handler-IsUnique_example =
    web_reg_account_handler-IsUnique memory-Laws post form web_db with_hero
      (signup_success_url (codes "hero1")) web_db-IsUnique signs_up

abbrev new_form : SignUpForm
new_form = record form { password = codes "pass2"; password_confirm = codes "pass2" }

abbrev with_new_password : Snapshot
with_new_password = record web_db {
  accounts = with_password (codes "hero1") (codes "pass2") with_hero.accounts;
}

changes_password :
    web_modify_password_handler memory post new_form with_hero
    ≡ (redirect (modify_success_url (codes "hero1")), with_new_password)
unfolding web_modify_password_handler post_modify_password validate matches str_eq
    db_get_user_account_info db_update_user_account_password
changes_password = refl

web_modify_password_handler-IsChanged_example :
    IsValid new_form
    × ((row : AccountRow) × IsRow row
          (keep (λ r. str_eq r.account new_form.user_name) with_hero.accounts)
        × (row.mail ≡ new_form.email))
    × (with_new_password ≡ record with_hero {
      accounts = with_password new_form.user_name new_form.password with_hero.accounts;
    })
web_modify_password_handler-IsChanged_example =
    web_modify_password_handler-IsChanged memory-Laws post new_form with_hero with_new_password
      (modify_success_url (codes "hero1")) changes_password

abbrev short_form : SignUpForm
short_form = record form { password = [] }

refuses : web_reg_account_handler memory post short_form web_db ≡ (refused bad_password, web_db)
unfolding web_reg_account_handler validate matches str_eq
refuses = refl

web_forms-refused_example : web_db ≡ web_db
web_forms-refused_example =
    web_forms-refused memory post short_form web_db web_db bad_password (inl refuses)

abbrev donate_form : DonateForm
donate_form = record { uid = codes "1"; orderid = codes "A1"; donate = codes "30" }

abbrev order : HistoryRow
order = record { uid = 1; donate = pos 30; donatetime = pos 5; donateorderid = codes "A1" }

abbrev donated_db : Snapshot
donated_db = record with_hero {
  donates = record { uid = 1; donate = pos 30; lastdonatetime = pos 6; expiretime = pos 0 } ∷ [];
  histories = order ∷ [];
}

adds_donate :
    ajax_management_add_donate memory post donate_form (pos 5) (pos 6) with_hero
    ≡ (donate_added, donated_db)
unfolding ajax_management_add_donate atoi to_uint32 db_get_user_account_info_by_uid
    db_inc_user_donate_info_ex db_is_user_donate_history_exists db_insert_user_donate_history
    db_get_user_donate_history_sum store_donate_ex db_is_user_donate_exists
    db_insert_user_donate_info_ex to_int32 to_int64 to_uint64 str_eq ◌+ℤ◌ ◌-ℤ◌
adds_donate = refl

with_hero-IsLedger : IsLedger with_hero
with_hero-IsLedger = record { users = λ uid. inl (refl, refl); one_order = λ order. omega arith }

ajax_management_add_donate-IsLedger_example :
    IsLedger donated_db
    × ((row : AccountRow) × IsRow row
          (keep (λ r. r.uid == to_uint32 (donor donate_form)) with_hero.accounts))
    × (keep (λ r. str_eq r.donateorderid (codes "A1")) with_hero.histories ≡ [])
    × (donated_db.histories
        ≡ with_hero.histories
          ++ (record {
            uid = to_uint32 (donor donate_form);
            donate = donated_count donate_form;
            donatetime = pos 5;
            donateorderid = codes "A1";
          })
            ∷ [])
ajax_management_add_donate-IsLedger_example =
    ajax_management_add_donate-IsLedger memory-Laws post donate_form (pos 5) (pos 6) with_hero
      donated_db refl (λ d e. cc) with_hero-IsLedger adds_donate
