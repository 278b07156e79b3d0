-- ===== src/Web/Forms.antt =====
-- Forms of the web server in bmloginsvrapp/web_handler.go: registration and the change of a
-- password. The captcha package and http.Request.ParseForm are external: a form comes with its
-- values, and with whether the captcha was solved. Templates are output only.
use bmservers.Prelude.{
  to_lower, ℕ, Bool, not, ◌||◌, Option, none, some, [], ◌∷◌, ◌++◌, ◌==◌, if◌then◌else◌, GoString,
  codes, str_eq,
}
use bmservers.Prelude.Regex.{
  Regex, seq, star, one_of, plus, opt, between, matches, is_alnum, is_word, is_space, is_letter,
  byte,
}
use bmservers.Sql.Engine.{Engine}
use bmservers.Account.{
  UserAccountInfo, db_user_account_exist, db_insert_user_account_info, db_get_user_account_info,
  db_update_user_account_password,
}

-- The values of a posted form.
pub record SignUpForm : Type 0 where
  pub captcha_solved : Bool
  pub user_name : GoString
  pub password : GoString
  pub password_confirm : GoString
  pub email : GoString

-- Why a form is refused.
pub data FailedMsg : Type 0 where
  wrong_captcha bad_user_name bad_email passwords_differ bad_password : FailedMsg
  user_exists unknown_user wrong_email internal_error : FailedMsg

-- What a handler answers. A refusal comes with a new captcha; `redirect` is the target that a
-- success names in its Msg.
pub data Response : Type 0 where
  rendered_page to_home : Response
  refused : FailedMsg → Response
  redirect : GoString → Response

pub data Method : Type 0 where
  get post other_method : Method

-- ^[a-zA-Z0-9_]{5,20}$
abbrev pub user_name_regex : Regex
user_name_regex = between 5 20 (one_of is_word)

-- ^[0-9a-zA-Z~!@$#%^]{5,20}$
abbrev pub is_password_byte : ℕ → Bool
is_password_byte c =
    is_alnum c || (c == 126 || c == 33 || c == 64 || c == 36 || c == 35 || c == 37 || c == 94)

abbrev pub password_regex : Regex
password_regex = between 5 20 (one_of is_password_byte)

-- ^\s*\w+(?:\.{0,1}[\w-]+)*@[a-zA-Z0-9]+(?:[-.][a-zA-Z0-9]+)*\.[a-zA-Z]+\s*$
abbrev pub email_regex : Regex
email_regex =
    let spaces = star (one_of is_space) in
    let alnums = plus (one_of is_alnum) in
    seq spaces (
      seq (plus (one_of is_word)) (
        seq (star (seq (opt (byte 46)) (plus (one_of (λ c. is_word c || c == 45))))) (
          seq (byte 64) (
            seq alnums (
              seq (star (seq (one_of (λ c. c == 45 || c == 46)) alnums))
                (seq (byte 46) (seq (plus (one_of is_letter)) spaces)))))))

-- The tests on the form that both handlers make, in order.
unfoldable pub validate : SignUpForm → Option FailedMsg
validate form =
    if not form.captcha_solved
    then some wrong_captcha
    else if not (matches user_name_regex form.user_name)
    then some bad_user_name
    else if str_eq (to_lower form.user_name) (codes "guest")
    then some bad_user_name
    else if not (matches email_regex form.email)
    then some bad_email
    else if matches password_regex form.password
    then if str_eq form.password_confirm form.password then none else some passwords_differ
    else some bad_password

abbrev pub new_user : SignUpForm → UserAccountInfo
new_user form = record {
  uid = 0;
  account = form.user_name;
  password = form.password;
  name0 = [];
  name1 = [];
  name2 = [];
  online = 0;
  mail = form.email;
}

abbrev pub signup_success_url : GoString → GoString
signup_success_url name = codes "/account/signupsuccess?account=" ++ name

abbrev pub modify_success_url : GoString → GoString
modify_success_url name = codes "/account/modifypasswordsuccess?account=" ++ name

module _ {Db : Type 0} (sql : Engine Db) where
  -- The POST branch of webRegAccountHandler.
  unfoldable pub post_reg_account : SignUpForm → Db → Response × Db
  post_reg_account form db = elim (validate form) [
    | some failed ↦ (refused failed, db)
    | none ↦
        if db_user_account_exist sql form.user_name db
        then (refused user_exists, db)
        else let (ok, db') = db_insert_user_account_info sql (new_user form ∷ []) db in
          if ok
          then (redirect (signup_success_url form.user_name), db')
          else (refused internal_error, db')
  ]

  unfoldable pub web_reg_account_handler : Method → SignUpForm → Db → Response × Db
  unfolding post_reg_account
  web_reg_account_handler get form db = (rendered_page, db)
  web_reg_account_handler post form db = post_reg_account form db
  web_reg_account_handler other_method form db = (to_home, db)

  -- The POST branch of webModifyPasswordHandler; a query that fails answers with its error text,
  -- which is not told apart from an account that is not found.
  unfoldable pub post_modify_password : SignUpForm → Db → Response × Db
  post_modify_password form db = elim (validate form) [
    | some failed ↦ (refused failed, db)
    | none ↦ elim (db_get_user_account_info sql form.user_name db) [
      | none ↦ (refused unknown_user, db)
      | some account ↦
          if not (str_eq account.mail form.email)
          then (refused wrong_email, db)
          else let (ok, db') =
              db_update_user_account_password sql form.user_name form.password db in
            if ok
            then (redirect (modify_success_url form.user_name), db')
            else (refused internal_error, db')
    ]
  ]

  unfoldable pub web_modify_password_handler : Method → SignUpForm → Db → Response × Db
  unfolding post_modify_password
  web_modify_password_handler get form db = (rendered_page, db)
  web_modify_password_handler post form db = post_modify_password form db
  web_modify_password_handler other_method form db = (to_home, db)
