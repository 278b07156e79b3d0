-- ===== src/Web/Refusals.antt =====
-- Forms that are not accepted by the handlers of bmloginsvrapp/web_handler.go.
use bmservers.Prelude.{◌≡◌, ◌⊎◌, inl, inr, [], ◌∷◌, arith, str_eq, Bool-cases, Option-cases}
use bmservers.Sql.Engine.{Engine}
use bmservers.Sql.Calls.{returned}
use bmservers.Account.{
  db_user_account_exist, db_insert_user_account_info, db_get_user_account_info,
  db_update_user_account_password,
}
use bmservers.Account.Inserts.{one_failed}
use bmservers.Account.Passwords.{password_kept}
use bmservers.Web.Forms.{
  SignUpForm, FailedMsg, refused, Method, get, post, other_method, validate, new_user,
  post_reg_account, post_modify_password, web_reg_account_handler, web_modify_password_handler,
}

module _ {Db : Type 0} (sql : Engine Db) where
  reg_account-refused :
      (m : Method) (form : SignUpForm) (db db' : Db) (why : FailedMsg)
      → web_reg_account_handler sql m form db ≡ (refused why, db')
      → db' ≡ db
  unfolding web_reg_account_handler post_reg_account
  reg_account-refused get form db db' why e = absurd (ground arith)
  reg_account-refused other_method form db db' why e = absurd (ground arith)
  reg_account-refused post form db db' why e = elim (Option-cases (validate form)) [
    | inr (m, failed) ↦ ground arith
    | inl valid ↦ elim (Bool-cases (db_user_account_exist sql form.user_name db)) [
      | inl there ↦ ground arith
      | inr new ↦
          let stored = db_insert_user_account_info sql (new_user form ∷ []) db in
          elim (Bool-cases stored.0) [
            | inl ok ↦ absurd (ground arith)
            | inr failed ↦
                one_failed sql (new_user form) db db' (returned stored failed (ground arith))
          ]
    ]
  ]

  modify_password-refused :
      (m : Method) (form : SignUpForm) (db db' : Db) (why : FailedMsg)
      → web_modify_password_handler sql m form db ≡ (refused why, db')
      → db' ≡ db
  unfolding web_modify_password_handler post_modify_password
  modify_password-refused get form db db' why e = absurd (ground arith)
  modify_password-refused other_method form db db' why e = absurd (ground arith)
  modify_password-refused post form db db' why e = elim (Option-cases (validate form)) [
    | inr (m, failed) ↦ ground arith
    | inl valid ↦ elim (Option-cases (db_get_user_account_info sql form.user_name db)) [
      | inl unknown ↦ ground arith
      | inr (row, read) ↦ elim (Bool-cases (str_eq row.mail form.email)) [
        | inr other ↦ ground arith
        | inl same ↦
            let stored = db_update_user_account_password sql form.user_name form.password db in
            elim (Bool-cases stored.0) [
              | inl ok ↦ absurd (ground arith)
              | inr failed ↦
                  password_kept sql form.user_name form.password db db'
                    (returned stored failed (ground arith))
            ]
      ]
    ]
  ]

  -- If webRegAccountHandler or webModifyPasswordHandler refuses a form, then it has changed nothing
  -- in the database.
  pub web_forms-refused :
      (m : Method) (form : SignUpForm) (db db' : Db) (why : FailedMsg)
      → (web_reg_account_handler sql m form db ≡ (refused why, db'))
        ⊎ (web_modify_password_handler sql m form db ≡ (refused why, db'))
      → db' ≡ db
  web_forms-refused m form db db' why (inl e) = reg_account-refused m form db db' why e
  web_forms-refused m form db db' why (inr e) = modify_password-refused m form db db' why e
