-- ===== src/Web/Register.antt =====
-- Accounts over the web: the two forms of bmloginsvrapp/web_handler.go that change useraccount.
use bmservers.Prelude.{
  ◌||◌, Bool, any, fun_ext, ◌==◌, ℕ, leb, ◌⊎◌, ◌≤◌, ◌<◌, ◌++◌, to_lower, codes, ◌≢◌, ◌≡◌, inl, inr,
  refl, true, false, none, some, List, [], ◌∷◌, arith, GoString, str_eq, str_eq_iff, length, map,
  Bool-cases, Option-cases, keep,
}
use bmservers.Prelude.Regex.{matches, matches-excluded, between, one_of, is_word, is_alnum}
use bmservers.Sql.Rows.{Snapshot, AccountRow}
use bmservers.Sql.Engine.{Engine}
use bmservers.Sql.Laws.{Laws, IsPlain, IsRow}
use bmservers.Account.{
  account_is, db_user_account_exist, db_insert_user_account_info, db_get_user_account_info,
  db_update_user_account_password,
}
use bmservers.Account.Inserts.{IsUnique, forget_uid, with_accounts}
use bmservers.Account.Register.{IsRowAdded, no_image, one_user-IsUnique}
use bmservers.Account.Reads.{account-IsRow}
use bmservers.Account.Passwords.{with_password, password_updated}
use bmservers.Sql.Calls.{returned}
use bmservers.Web.Forms.{
  is_password_byte, SignUpForm, redirect, Method, get, post, other_method, validate, new_user,
  email_regex, post_reg_account, post_modify_password, web_reg_account_handler,
  web_modify_password_handler, signup_success_url,
}

-- A letter, a digit or one of ~!@$#%^
abbrev pub in_passwords : ℕ → Bool
in_passwords c = is_alnum c || any (λ b. c == b) (codes "~!@$#%^")

-- What a form that passes the tests is known to be: its name has 5 to 20 letters, digits and
-- underscores and is not "guest" in any case of letters; its mail has the handler's pattern; its
-- password has 5 to 20 of the bytes above.
pub record IsValid (form : SignUpForm) : Type 0 where
  pub name_fits : matches (between 5 20 (one_of is_word)) form.user_name ≡ true
  pub not_guest : to_lower form.user_name ≢ codes "guest"
  pub email_fits : matches email_regex form.email ≡ true
  pub password_fits : matches (between 5 20 (one_of in_passwords)) form.password ≡ true
  pub confirmed : form.password_confirm ≡ form.password
  pub solved : form.captcha_solved ≡ true

in_passwords-same : in_passwords ≡ is_password_byte
in_passwords-same = fun_ext (λ c. ground arith)

pub validate-IsValid : (form : SignUpForm) → validate form ≡ none → IsValid form
unfolding validate
validate-IsValid form e = record {
  name_fits = ground arith;
  not_guest = λ same. ground (arith, (str_eq_iff (to_lower form.user_name) (codes "guest")).1 same);
  email_fits = ground arith;
  password_fits = rw in_passwords-same (ground arith);
  confirmed = ground (arith, (str_eq_iff form.password_confirm form.password).0);
  solved = ground arith;
}

-- The patterns allow no quote.
quoteless_texts :
    (form : SignUpForm)
    → IsValid form
    → IsPlain form.user_name × IsPlain form.password × IsPlain form.email
quoteless_texts form valid = (
  matches-excluded 39 form.user_name (between 5 20 (one_of is_word)) refl valid.name_fits,
  matches-excluded 39 form.password (between 5 20 (one_of in_passwords)) refl valid.password_fits,
  matches-excluded 39 form.email email_regex refl valid.email_fits,
)

-- The row of a registration, before the engine has chosen its uid.
abbrev pub new_account : SignUpForm → AccountRow
new_account form = record {
  uid = 0;
  account = form.user_name;
  password = form.password;
  name0 = [];
  name1 = [];
  name2 = [];
  online = 0;
  mail = form.email;
}

module _ {Db : Type 0} (sql : Engine Db) where
  redirect-cases :
      (m : Method) (form : SignUpForm) (db db' : Db) (url : GoString)
      → web_reg_account_handler sql m form db ≡ (redirect url, db')
      → (validate form ≡ none)
        × (db_user_account_exist sql form.user_name db ≡ false)
        × (db_insert_user_account_info sql (new_user form ∷ []) db ≡ (true, db'))
        × (url ≡ signup_success_url form.user_name)
  unfolding web_reg_account_handler post_reg_account
  redirect-cases get form db db' url e = absurd (ground arith)
  redirect-cases other_method form db db' url e = absurd (ground arith)
  redirect-cases post form db db' url e = elim (Option-cases (validate form)) [
    | inr (m, failed) ↦ absurd (ground arith)
    | inl valid ↦ elim (Bool-cases (db_user_account_exist sql form.user_name db)) [
      | inl there ↦ absurd (ground arith)
      | inr new ↦
          let stored = db_insert_user_account_info sql (new_user form ∷ []) db in
          elim (Bool-cases stored.0) [
            | inr failed ↦ absurd (ground arith)
            | inl ok ↦ (valid, new, returned stored ok (ground arith), ground arith)
          ]
    ]
  ]

le_or_gt : (n : ℕ) → (n ≤ 19) ⊎ (19 < n)
le_or_gt n = elim (Bool-cases (leb n 19)) [
  | inl e ↦ inl (ground arith)
  | inr e ↦ inr (ground arith)
]

module _ {Db : Type 0} {sql : Engine Db} {view : Db → Snapshot} (laws : Laws sql view) where
  -- The row that a registration adds: the form's, unless its account or its password has more than
  -- 19 bytes, or the query for the account fails when it is issued for the second time.
  abbrev pub IsRegistered : SignUpForm → Db → List AccountRow → Type 0
  IsRegistered form db rows =
      ((length form.user_name ≤ 19)
        × (length form.password ≤ 19)
        × (map forget_uid rows ≡ new_account form ∷ []))
      ⊎ ((rows ≡ [])
          × ((19 < length form.user_name)
              ⊎ ((19 < length form.password)
                  ⊎ (sql.account_again (account_is form.user_name) db ≡ none))))

  added-IsRegistered :
      (form : SignUpForm) (db : Db) (rows : List AccountRow)
      → IsRowAdded laws (new_user form) db rows
      → IsRegistered form db rows
  added-IsRegistered form db rows (inr (none_there, failed)) = inr (none_there, inr (inr failed))
  added-IsRegistered form db rows (inl same) = elim (le_or_gt (length form.user_name)) [
    | inr long ↦ inr (no_image rows (ground arith), inl long)
    | inl short ↦ elim (le_or_gt (length form.password)) [
      | inr long ↦ inr (no_image rows (ground arith), inr (inl long))
      | inl both ↦ inl (short, both, ground arith)
    ]
  ]

  -- In a database in which every uid, account and role name is that of one row at most: if
  -- webRegAccountHandler answers with a success, then the form's captcha was solved and its values
  -- pass the tests of the handler, the answer names the form's account, and that is still so of the
  -- database. One row is added, with the account, password and mail of the form and no role names;
  -- but nothing is added if the account or the password has more than 19 bytes, or if the second of
  -- the two queries for the account fails. No assumption is made on the texts of the form.
  pub web_reg_account_handler-IsUnique :
      (m : Method) (form : SignUpForm) (db db' : Db) (url : GoString)
      → IsUnique (view db)
      → web_reg_account_handler sql m form db ≡ (redirect url, db')
      → IsValid form
        × (url ≡ codes "/account/signupsuccess?account=" ++ form.user_name)
        × IsUnique (view db')
        × (rows : List AccountRow) × IsRegistered form db rows
        × (view db' ≡ with_accounts rows (view db))
  web_reg_account_handler-IsUnique m form db db' url h e =
      let (passed, new, inserted, target) = redirect-cases sql m form db db' url e in
      let valid = validate-IsValid form passed in
      let (unique, rows, added, total) =
        one_user-IsUnique laws (new_user form) db db' (quoteless_texts form valid) h new inserted in
      (valid, target, unique, rows, added-IsRegistered form db rows added, total)

  modify-cases :
      (m : Method) (form : SignUpForm) (db db' : Db) (url : GoString)
      → web_modify_password_handler sql m form db ≡ (redirect url, db')
      → (validate form ≡ none)
        × (row : AccountRow) × (db_get_user_account_info sql form.user_name db ≡ some row)
        × (row.mail ≡ form.email)
        × (db_update_user_account_password sql form.user_name form.password db ≡ (true, db'))
  unfolding web_modify_password_handler post_modify_password
  modify-cases get form db db' url e = absurd (ground arith)
  modify-cases other_method form db db' url e = absurd (ground arith)
  modify-cases post form db db' url e = elim (Option-cases (validate form)) [
    | inr (m, failed) ↦ absurd (ground arith)
    | inl valid ↦ elim (Option-cases (db_get_user_account_info sql form.user_name db)) [
      | inl unknown ↦ absurd (ground arith)
      | inr (row, read) ↦ elim (Bool-cases (str_eq row.mail form.email)) [
        | inr other ↦ absurd (ground arith)
        | inl same ↦
            let stored = db_update_user_account_password sql form.user_name form.password db in
            elim (Bool-cases stored.0) [
              | inr failed ↦ absurd (ground arith)
              | inl ok ↦ (
                valid,
                row,
                read,
                (str_eq_iff row.mail form.email).0 same,
                returned stored ok (ground arith),
              )
            ]
      ]
    ]
  ]

  -- If webModifyPasswordHandler answers with a success, then the form's captcha was solved, its
  -- values pass the tests of the handler, and there was a row with its account and its mail; the
  -- rows with that account then have the form's password, and nothing else in the database is
  -- changed. No assumption is made on the texts of the form.
  pub web_modify_password_handler-IsChanged :
      (m : Method) (form : SignUpForm) (db db' : Db) (url : GoString)
      → web_modify_password_handler sql m form db ≡ (redirect url, db')
      → IsValid form
        × ((row : AccountRow) × IsRow row
              (keep (λ r. str_eq r.account form.user_name) (view db).accounts)
            × (row.mail ≡ form.email))
        × (view db' ≡ record (view db) {
          accounts = with_password form.user_name form.password (view db).accounts;
        })
  web_modify_password_handler-IsChanged m form db db' url e =
      let (passed, row, read, mail, updated) = modify-cases m form db db' url e in
      let valid = validate-IsValid form passed in
      let (plain_name, plain_password, _) = quoteless_texts form valid in
      (
        valid,
        (row, account-IsRow laws form.user_name db row plain_name read, mail),
        password_updated laws form.user_name form.password db db' plain_name plain_password updated,
      )
