-- ===== src/Web/Manage.antt =====
-- The forms of the management in bmloginsvrapp/manage_handler.go: adding a donation by hand, and
-- finding a user. The values of a form are given without the spaces around them.
use bmservers.Prelude.{
  ℕ, ◌≡◌, ◌≢◌, inl, inr, refl, sym, ◌∙◌, ap, Bool, true, false, not, Option, none, some, [], ◌∷◌,
  ◌++◌, arith, if◌then◌else◌, GoString, str_eq, length, keep, ◌==◌, Option-cases,
}
use bmservers.Prelude.Int.{ℤ, pos, to_uint32}
use bmservers.Prelude.Assoc.{int_eq}
use bmservers.Sql.Rows.{Snapshot, AccountRow}
use bmservers.Sql.Engine.{Engine}
use bmservers.Sql.Laws.{Laws, IsPlain, IsRow}
use bmservers.Sql.Calls.{returned}
use bmservers.Account.{has_name, db_get_user_account_info, db_get_user_account_info_by_uid}
use bmservers.Account.Reads.{uid-IsRow}
use bmservers.Donate.{DonateError, history_of, db_inc_user_donate_info, db_inc_user_donate_info_ex}
use bmservers.Donate.Ledger.{IsLedger, db_inc_user_donate_info-IsLedger}
use bmservers.Donate.Orders.{is_ok, inc_ex-agrees}
use bmservers.Http.{get_form_value_int}
use bmservers.Web.Forms.{Method, get, post, other_method}

pub record ExportUserAccountInfo : Type 0 where
  pub account : GoString
  pub uid : ℕ
  pub mail : GoString
  pub password : GoString

-- Why a request is refused; an error of a query is not told apart from a user that is not found.
pub data ManageFailure : Type 0 where
  no_operation invalid_method invalid_uid invalid_orderid invalid_donate no_such_user :
      ManageFailure
  store_failed : DonateError → ManageFailure

pub data ManageAnswer : Type 0 where
  manage_failed : ManageFailure → ManageAnswer
  donate_added : ManageAnswer
  user_found : ExportUserAccountInfo → ManageAnswer

pub record DonateForm : Type 0 where
  pub uid : GoString
  pub orderid : GoString
  pub donate : GoString

pub record FindForm : Type 0 where
  pub uid : GoString
  pub name : GoString
  pub account : GoString

abbrev pub exported : AccountRow → ExportUserAccountInfo
exported r = record { account = r.account; uid = r.uid; mail = r.mail; password = r.password }

-- The first row of a result, if there is one.
abbrev pub scan_exported : Option (Option AccountRow) → Option ExportUserAccountInfo
scan_exported (some (some r)) = some (exported r)
scan_exported _ = none

-- The values that ajaxManagementAddDonate reads as numbers.
abbrev pub donor : DonateForm → ℤ
donor form = get_form_value_int form.uid (pos 0)

abbrev pub donated_count : DonateForm → ℤ
donated_count form = get_form_value_int form.donate (pos 0)

abbrev pub added_answer : Option DonateError → ManageAnswer
added_answer none = donate_added
added_answer (some error) = manage_failed (store_failed error)

module _ {Db : Type 0} (sql : Engine Db) where
  -- `none`: an error, which includes that there is no row
  pub db_get_user_account_info_by_name : GoString → Db → Option ExportUserAccountInfo
  db_get_user_account_info_by_name name db =
      scan_exported (sql.accounts.first (record { spliced = []; holds = has_name name }) db)

  -- The user is looked up, and the order is recorded.
  abbrev pub add_for : ℕ → ℤ → GoString → ℤ → ℤ → Db → ManageAnswer × Db
  add_for uid money order now later db = elim (db_get_user_account_info_by_uid sql uid db) [
    | none ↦ (manage_failed no_such_user, db)
    | some donate_user ↦
        let (error, db') = db_inc_user_donate_info_ex sql uid money order now later db in
        (added_answer error, db')
  ]

  -- `now` and `later` are the two readings of the clock.
  unfoldable pub ajax_management_add_donate : Method → DonateForm → ℤ → ℤ → Db → ManageAnswer × Db
  ajax_management_add_donate get form now later db = (manage_failed invalid_method, db)
  ajax_management_add_donate other_method form now later db = (manage_failed invalid_method, db)
  ajax_management_add_donate post form now later db =
      if int_eq (donor form) (pos 0)
      then (manage_failed invalid_uid, db)
      else if length form.orderid == 0
      then (manage_failed invalid_orderid, db)
      else if int_eq (donated_count form) (pos 0)
      then (manage_failed invalid_donate, db)
      else add_for (to_uint32 (donor form)) (donated_count form) form.orderid now later db

  abbrev pub found_answer : Option ExportUserAccountInfo → ManageAnswer
  found_answer none = manage_failed no_such_user
  found_answer (some info) = user_found info

  abbrev pub export_found : Option AccountRow → ManageAnswer
  export_found none = manage_failed no_such_user
  export_found (some r) = user_found (exported r)

  pub ajax_management_find_user : Method → FindForm → Db → ManageAnswer
  unfolding db_get_user_account_info_by_name
  ajax_management_find_user get form db = manage_failed invalid_method
  ajax_management_find_user other_method form db = manage_failed invalid_method
  ajax_management_find_user post form db =
      let uid = get_form_value_int form.uid (pos 0) in
      if not (int_eq uid (pos 0))
      then export_found (db_get_user_account_info_by_uid sql (to_uint32 uid) db)
      else if not (length form.name == 0)
      then found_answer (db_get_user_account_info_by_name form.name db)
      else if not (length form.account == 0)
      then export_found (db_get_user_account_info sql form.account db)
      else manage_failed no_operation

  -- A success has passed the three tests.
  passed :
      (a b c : Bool) (x y z : ManageFailure) (r : ManageAnswer × Db) (db db' : Db)
      → (if a
          then (manage_failed x, db)
          else if b
          then (manage_failed y, db)
          else if c
          then (manage_failed z, db)
          else r)
        ≡ (donate_added, db')
      → r ≡ (donate_added, db')
  passed true b c x y z r db db' e = absurd (ground arith)
  passed false true c x y z r db db' e = absurd (ground arith)
  passed false false true x y z r db db' e = absurd (ground arith)
  passed false false false x y z r db db' e = e

  -- An answer without an error is that of the other form of the function, returning true.
  stored-cases :
      (uid : ℕ) (money : ℤ) (order : GoString) (now later : ℤ) (db db' : Db)
      (r : Option DonateError × Db)
      → db_inc_user_donate_info_ex sql uid money order now later db ≡ r
      → ◌≡◌ {A = ManageAnswer × Db} (added_answer r.0, r.1) (donate_added, db')
      → db_inc_user_donate_info sql uid money order now later db ≡ (true, db')
  stored-cases uid money order now later db db' (some error, d) same e = absurd (ground arith)
  stored-cases uid money order now later db db' (none, d) same e =
      let (ok, state) = inc_ex-agrees sql uid money order now later db in
      let here : d ≡ db' = ap (λ x. x.1) e in
      returned (db_inc_user_donate_info sql uid money order now later db)
        (sym ok ∙ ap (λ x. is_ok x.0) same) (sym state ∙ ap (λ x. x.1) same ∙ here)

  added-cases :
      (uid : ℕ) (money : ℤ) (order : GoString) (now later : ℤ) (db db' : Db)
      → add_for uid money order now later db ≡ (donate_added, db')
      → (row : AccountRow) × (db_get_user_account_info_by_uid sql uid db ≡ some row)
        × (db_inc_user_donate_info sql uid money order now later db ≡ (true, db'))
  added-cases uid money order now later db db' e =
      let r = db_inc_user_donate_info_ex sql uid money order now later db in
      elim (Option-cases (db_get_user_account_info_by_uid sql uid db)) [
        | inl unknown ↦ absurd (ground arith)
        | inr (row, read) ↦
            let answer : ◌≡◌ {A = ManageAnswer × Db} (added_answer r.0, r.1) (donate_added, db') =
              ground arith in
            (row, read, stored-cases uid money order now later db db' r refl answer)
      ]

  form-cases :
      (m : Method) (form : DonateForm) (now later : ℤ) (db db' : Db)
      → ajax_management_add_donate m form now later db ≡ (donate_added, db')
      → add_for (to_uint32 (donor form)) (donated_count form) form.orderid now later db
        ≡ (donate_added, db')
  unfolding ajax_management_add_donate
  form-cases get form now later db db' e = absurd (ground arith)
  form-cases other_method form now later db db' e = absurd (ground arith)
  form-cases post form now later db db' e =
      passed (int_eq (donor form) (pos 0)) (length form.orderid == 0)
        (int_eq (donated_count form) (pos 0)) invalid_uid invalid_orderid invalid_donate
        (add_for (to_uint32 (donor form)) (donated_count form) form.orderid now later db) db db' e

module _ {Db : Type 0} {sql : Engine Db} {view : Db → Snapshot} (laws : Laws sql view) where
  -- In a database in which each order id stands once, and each user has neither row nor order or one
  -- row that holds the sum of their orders, as an int32 written as a uint64: if
  -- ajaxManagementAddDonate answers with a success, then there is an account with the uid of the
  -- form, the order was new, and it is added to the history with the number of the form, which leaves
  -- the database so. It is assumed that the sum of the user's orders can be read, and that the order
  -- id has no quote.
  pub ajax_management_add_donate-IsLedger :
      (m : Method) (form : DonateForm) (now later : ℤ) (db db' : Db)
      → IsPlain form.orderid
      → ((d : Db)
          → sql.histories.sum (λ r. r.donate) (history_of (to_uint32 (donor form))) d ≢ none)
      → IsLedger (view db)
      → ajax_management_add_donate sql m form now later db ≡ (donate_added, db')
      → IsLedger (view db')
        × ((row : AccountRow) × IsRow row
              (keep (λ r. r.uid == to_uint32 (donor form)) (view db).accounts))
        × (keep (λ r. str_eq r.donateorderid form.orderid) (view db).histories ≡ [])
        × ((view db').histories
            ≡ (view db).histories
              ++ (record {
                uid = to_uint32 (donor form);
                donate = donated_count form;
                donatetime = now;
                donateorderid = form.orderid;
              })
                ∷ [])
  ajax_management_add_donate-IsLedger m form now later db db' plain reads h e =
      let (row, read, stored) =
        added-cases sql (to_uint32 (donor form)) (donated_count form) form.orderid now later db db'
          (form-cases sql m form now later db db' e) in
      let (ledger, fresh, written) =
        db_inc_user_donate_info-IsLedger laws (to_uint32 (donor form)) (donated_count form)
          form.orderid now later db db' plain reads h stored in
      (ledger, (row, uid-IsRow laws (to_uint32 (donor form)) db row read), fresh, written)
