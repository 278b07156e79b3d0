-- ===== src/Lobby/Accounts.antt =====
-- Accounts over messages: the events LsRegisterAccount and LsModifyPassword of
-- bmloginsvrapp/main_thread_process.go.
use bmservers.Prelude.{
  none, ◌≤◌, ◌≡◌, ◌⊎◌, inl, inr, refl, Bool, true, false, Option, List, [], ◌∷◌, arith, GoString,
  length, map, Bool-cases,
}
use bmservers.Prelude.Int.{ℤ}
use bmservers.Prelude.Split.{split}
use bmservers.Prelude.Regex.{matches, matches-excluded}
use bmservers.Sql.Rows.{Snapshot, AccountRow}
use bmservers.Sql.Engine.{Engine}
use bmservers.Sql.Laws.{Laws, IsPlain}
use bmservers.Sql.Calls.{returned}
use bmservers.Account.{
  account_is, db_user_account_exist, db_insert_user_account_info, db_update_user_account_password,
}
use bmservers.Account.Inserts.{IsUnique, forget_uid, with_accounts}
use bmservers.Account.Register.{IsRowAdded, one_user-IsUnique}
use bmservers.Account.Passwords.{with_password, password_updated, password_kept}
use bmservers.Lobby.{
  UserGameServer, ls_register_account, ls_modify_password, MThreadMsg, Main, Answer, alnum_regex,
  both_match, one_is_long, lobby_user,
}
use bmservers.Lobby.Messages.{
  register_account, modify_password, with_two_parts, process_m_thread_msg,
}

-- A message has two parts, each of letters and digits, 15 at most.
pub record IsCredentials (msg account password : GoString) : Type 0 where
  pub parts : split 32 msg ≡ account ∷ password ∷ []
  pub account_fits : matches alnum_regex account ≡ true
  pub password_fits : matches alnum_regex password ≡ true
  pub short_account : length account ≤ 15
  pub short_password : length password ≤ 15

-- The row of a user who registers, before the engine has chosen its uid.
abbrev pub new_player : GoString → GoString → AccountRow
new_player account password = record {
  uid = 0;
  account = account;
  password = password;
  name0 = [];
  name1 = [];
  name2 = [];
  online = 0;
  mail = [];
}

quoteless_account : (a : GoString) → matches alnum_regex a ≡ true → IsPlain a
quoteless_account a h = matches-excluded 39 a alnum_regex refl h

module _ {Db : Type 0} (sql : Engine Db) (decode : GoString → Option UserGameServer) where
  -- A message is refused with one answer, or it is acted on.
  two_parts-cases :
      (act : GoString → GoString → MThreadMsg → Main Db → Answer Db) (parts : List GoString)
      (m m' : MThreadMsg) (s s' : Main Db) (sent : List Bool)
      → split 32 m.msg ≡ parts
      → with_two_parts sql decode act parts m s ≡ (m', (sent, s'))
      → ((sent ≡ false ∷ []) × (s' ≡ s))
        ⊎ ((account : GoString) × (password : GoString) × IsCredentials m.msg account password
            × (act account password m s ≡ (m', (sent, s'))))
  two_parts-cases act [] m m' s s' sent p e = inl (ground arith)
  two_parts-cases act (a ∷ []) m m' s s' sent p e = inl (ground arith)
  two_parts-cases act (a ∷ b ∷ c ∷ more) m m' s s' sent p e = inl (ground arith)
  two_parts-cases act (a ∷ b ∷ []) m m' s s' sent p e = elim (Bool-cases (both_match a b)) [
    | inr bad ↦ inl (ground arith)
    | inl good ↦ elim (Bool-cases (one_is_long a b)) [
      | inl long ↦ inl (ground arith)
      | inr short ↦ inr (
        a,
        b,
        record {
          parts = p;
          account_fits = ground arith;
          password_fits = ground arith;
          short_account = ground arith;
          short_password = ground arith;
        },
        ground arith,
      )
    ]
  ]

  modify-cases :
      (account password : GoString) (m m' : MThreadMsg) (s s' : Main Db) (sent : List Bool)
      → modify_password sql decode account password m s ≡ (m', (sent, s'))
      → ((sent ≡ true ∷ [])
          × (s'.lobby ≡ s.lobby)
          × (db_update_user_account_password sql account password s.db ≡ (true, s'.db)))
        ⊎ ((sent ≡ false ∷ true ∷ []) × (s' ≡ s))
  modify-cases account password m m' s s' sent e =
      let stored = db_update_user_account_password sql account password s.db in
      elim (Bool-cases stored.0) [
        | inl ok ↦ inl (ground arith, ground arith, returned stored ok (ground arith))
        | inr refused ↦
            let same_db : stored.1 ≡ s.db =
              password_kept sql account password s.db stored.1 (returned stored refused refl) in
            inr (ground arith, ground arith)
      ]

  register-cases :
      (account password : GoString) (m m' : MThreadMsg) (s s' : Main Db) (rest : List Bool)
      → register_account sql decode account password m s ≡ (m', (true ∷ rest, s'))
      → (db_user_account_exist sql account s.db ≡ false)
        × (db_insert_user_account_info sql (lobby_user account password ∷ []) s.db ≡ (true, s'.db))
        × (s'.lobby ≡ s.lobby)
        × (rest ≡ [])
  register-cases account password m m' s s' rest e =
      let stored = db_insert_user_account_info sql (lobby_user account password ∷ []) s.db in
      elim (Bool-cases (db_user_account_exist sql account s.db)) [
        | inl there ↦ absurd (ground arith)
        | inr new ↦ elim (Bool-cases stored.0) [
          | inr refused ↦ absurd (ground arith)
          | inl ok ↦ (new, returned stored ok (ground arith), ground arith, ground arith)
        ]
      ]

module _ {Db : Type 0} {sql : Engine Db} {view : Db → Snapshot} (laws : Laws sql view)
    (decode : GoString → Option UserGameServer) where
  -- The row that a registration adds, unless the query for the account fails when it is issued for
  -- the second time.
  abbrev pub IsRegistered : GoString → GoString → Db → List AccountRow → Type 0
  IsRegistered account password db rows =
      (map forget_uid rows ≡ new_player account password ∷ [])
      ⊎ ((rows ≡ []) × (sql.account_again (account_is account) db ≡ none))

  added-IsRegistered :
      (account password : GoString) (db : Db) (rows : List AccountRow)
      → length account ≤ 15
      → length password ≤ 15
      → IsRowAdded laws (lobby_user account password) db rows
      → IsRegistered account password db rows
  added-IsRegistered account password db rows a p (inl same) = inl (ground arith)
  added-IsRegistered account password db rows a p (inr failed) = inr failed

  -- In a database in which every uid, account and role name is that of one row at most: if
  -- ProcessMThreadMsg answers an account's registration with true, then the message has two parts,
  -- letters and digits, 15 of each at most; true is its only answer; the lobby is as it was; that is
  -- still so of the database; and one row is added to useraccount, with the account and the password
  -- and without role names or mail, or, if the second of the two queries for the account fails, no
  -- row. No assumption is made on the text of the message.
  pub ls_register_account-IsUnique :
      (now : ℤ) (m m' : MThreadMsg) (s s' : Main Db) (rest : List Bool)
      → IsUnique (view s.db)
      → process_m_thread_msg sql decode ls_register_account now m s ≡ (m', (true ∷ rest, s'))
      → (rest ≡ [])
        × (s'.lobby ≡ s.lobby)
        × IsUnique (view s'.db)
        × (account : GoString) × (password : GoString) × IsCredentials m.msg account password
        × (rows : List AccountRow) × IsRegistered account password s.db rows
        × (view s'.db ≡ with_accounts rows (view s.db))
  unfolding process_m_thread_msg
  ls_register_account-IsUnique now m m' s s' rest h e =
      elim (two_parts-cases sql decode (register_account sql decode) (split 32 m.msg) m m' s s'
        (true ∷ rest) refl e) [
          | inl (refused, same) ↦ absurd (ground arith)
          | inr (account, password, valid, acted) ↦
              let (new, inserted, lobby, once) =
                register-cases sql decode account password m m' s s' rest acted in
              let (unique, rows, added, total) =
                one_user-IsUnique laws (lobby_user account password) s.db s'.db
                  (
                    quoteless_account account valid.account_fits,
                    quoteless_account password valid.password_fits,
                    refl,
                  )
                  h new inserted in
              (
                once,
                lobby,
                unique,
                account,
                password,
                valid,
                rows,
                added-IsRegistered account password s.db rows valid.short_account
                    valid.short_password added,
                total,
              )
        ]

  -- ProcessMThreadMsg answers a change of a password in one of three ways: with one false, which
  -- changes nothing; with one true, after which the account that the message names has the password
  -- that it names and nothing else is changed; or, if the update fails, with false and then true,
  -- which changes nothing.
  pub ls_modify_password-cases :
      (now : ℤ) (m m' : MThreadMsg) (s s' : Main Db) (sent : List Bool)
      → process_m_thread_msg sql decode ls_modify_password now m s ≡ (m', (sent, s'))
      → ((sent ≡ false ∷ []) × (s' ≡ s))
        ⊎ (((sent ≡ true ∷ [])
              × (s'.lobby ≡ s.lobby)
              × (account : GoString) × (password : GoString) × IsCredentials m.msg account password
              × (view s'.db ≡ record (view s.db) {
                accounts = with_password account password (view s.db).accounts;
              }))
            ⊎ ((sent ≡ false ∷ true ∷ []) × (s' ≡ s)))
  unfolding process_m_thread_msg
  ls_modify_password-cases now m m' s s' sent e =
      elim (two_parts-cases sql decode (modify_password sql decode) (split 32 m.msg) m m' s s' sent
        refl e) [
          | inl refused ↦ inl refused
          | inr (account, password, valid, acted) ↦
              elim (modify-cases sql decode account password m m' s s' sent acted) [
                | inr twice ↦ inr (inr twice)
                | inl (once, lobby, stored) ↦
                    let changed_row =
                      password_updated laws account password s.db s'.db
                        (quoteless_account account valid.account_fits)
                        (quoteless_account password valid.password_fits) stored in
                    inr (inl (once, lobby, account, password, valid, changed_row))
              ]
        ]
