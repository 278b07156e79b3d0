-- ===== src/Account/Inserts.antt =====
-- The rows that the loops of dbInsertUserAccountInfo in bmloginsvrapp/sql.go add to useraccount, and
-- the keys of that table.
use mathlib.Core.List.{append_assoc, append-nil}
use bmservers.Prelude.{
  ℕ, ◌≤◌, ◌<◌, ◌≡◌, inl, inr, refl, ap, ◌∙◌, Bool, true, false, ◌||◌, ltb, List, [], ◌∷◌, ◌++◌, map,
  arith, GoString, All, keep, length, str_eq, str_eq_iff, ◌==◌, if◌then◌else◌, Bool-cases,
  Option-cases, Gives-some,
}
use bmservers.Sql.Rows.{Snapshot, AccountRow}
use bmservers.Sql.Engine.{Engine}
use bmservers.Sql.Laws.{Laws, IsPlain, IsAccountAdded}
use bmservers.Sql.Filters.{keep-append_one}
use bmservers.Account.{
  UserAccountInfo, new_row, exists_again, insert_unmarked, db_insert_user_account_info,
}
use bmservers.Account.Names.{IsNamed, bears}

-- Uids, role names and accounts are those of one row at most.
pub record IsUnique (s : Snapshot) : Type 0 where
  pub named : IsNamed s
  pub one_account :
      (account : GoString) → length (keep (λ r. str_eq r.account account) s.accounts) ≤ 1

-- The users who are inserted: those without a mark whose account and password are short enough.
abbrev pub admitted : List (Bool × UserAccountInfo) → List UserAccountInfo
admitted [] = []
admitted ((marked, v) ∷ users) =
    let rest = admitted users in
    if marked || (ltb 19 (length v.account) || ltb 19 (length v.password)) then rest else v ∷ rest

-- A row without the uid that the engine chose.
abbrev pub forget_uid : AccountRow → AccountRow
forget_uid r = record r { uid = 0 }

abbrev pub IsPlainUser : UserAccountInfo → Type 0
IsPlainUser v = IsPlain v.account × IsPlain v.password × IsPlain v.mail

abbrev pub with_accounts : List AccountRow → Snapshot → Snapshot
with_accounts rows s = record s { accounts = s.accounts ++ rows }

-- One row more, with a property that no row had, is one row with it.
one_more :
    (p : AccountRow → Bool) (xs : List AccountRow) (r : AccountRow)
    → length (keep p xs) ≤ 1
    → (p r ≡ true → keep p xs ≡ [])
    → length (keep p (xs ++ r ∷ [])) ≤ 1
one_more p xs r h fresh = rw (keep-append_one p xs r) (elim (Bool-cases (p r)) [
  | inl e ↦ rw (e, fresh e) (omega arith)
  | inr e ↦ rw (e, append-nil (keep p xs)) h
])

-- A row without role names has none.
no_name :
    (name : GoString) (v : AccountRow) (u : ℕ)
    → v.name0 ≡ []
    → v.name1 ≡ []
    → v.name2 ≡ []
    → 0 < length name
    → bears name (record v { uid = u }) ≡ true
    → ⊥
no_name [] v u e0 e1 e2 long h = absurd (omega arith)
no_name (c ∷ cs) v u e0 e1 e2 long h = ground (
  arith,
  (str_eq_iff v.name0 (c ∷ cs)).0,
  (str_eq_iff v.name1 (c ∷ cs)).0,
  (str_eq_iff v.name2 (c ∷ cs)).0,
)

added-IsUnique :
    (v : AccountRow) (s t : Snapshot)
    → v.name0 ≡ []
    → v.name1 ≡ []
    → v.name2 ≡ []
    → IsUnique s
    → IsAccountAdded v s t
    → IsUnique t
added-IsUnique v s t e0 e1 e2 h (u, e, _, new_uid, new_account) = rw e (record {
  named = record {
    one_uid = λ uid.
        one_more (λ r. r.uid == uid) s.accounts (record v { uid = u }) (h.named.one_uid uid)
          (λ here. let same : u ≡ uid = ground arith in rw same at new_uid);
    one_name = λ name long.
        one_more (bears name) s.accounts (record v { uid = u }) (h.named.one_name name long)
          (λ here. absurd (no_name name v u e0 e1 e2 long here));
  };
  one_account = λ account.
      one_more (λ r. str_eq r.account account) s.accounts (record v { uid = u })
        (h.one_account account)
        (λ here.
          let same : v.account ≡ account = (str_eq_iff v.account account).0 here in
          rw same at new_account);
})

-- The row of one insert, before those of the later ones.
with_more :
    (v : AccountRow) (s m t : Snapshot) (added : IsAccountAdded v s m) (rows : List AccountRow)
    → t ≡ with_accounts rows m
    → t ≡ with_accounts ((record v { uid = added.0 }) ∷ rows) s
with_more v s m t (u, e, _, _, _) rows h =
    h
    ∙ ap (with_accounts rows) e
    ∙ ap (λ xs. record s { accounts = xs })
        (append_assoc s.accounts ((record v { uid = u }) ∷ []) rows)

-- The insert of one user changes nothing if it reports a failure.
pub one_failed :
    {Db : Type 0} (sql : Engine Db) (v : UserAccountInfo) (db db' : Db)
    → db_insert_user_account_info sql (v ∷ []) db ≡ (false, db')
    → db' ≡ db
unfolding db_insert_user_account_info insert_unmarked
one_failed sql v db db' e =
    elim (Bool-cases (
      exists_again sql v.account db || (ltb 19 (length v.account) || ltb 19 (length v.password)))) [
        | inl skip ↦ absurd (ground arith)
        | inr take ↦
            elim (Option-cases
              (sql.accounts.insert (v.account ∷ v.password ∷ v.mail ∷ []) (new_row sql v) db)) [
                | inl failed ↦ ground arith
                | inr (mid, stored) ↦ absurd (ground arith)
              ]
      ]

module _ {Db : Type 0} {sql : Engine Db} {view : Db → Snapshot} (laws : Laws sql view) where
  insert_unmarked-IsUnique :
      (users : List (Bool × UserAccountInfo)) (db db' : Db)
      → All (λ u. IsPlainUser u.1) users
      → IsUnique (view db)
      → insert_unmarked sql users db ≡ (true, db')
      → IsUnique (view db')
        × (rows : List AccountRow) × (map forget_uid rows ≡ map (new_row sql) (admitted users))
        × (view db' ≡ with_accounts rows (view db))
  unfolding insert_unmarked
  insert_unmarked-IsUnique [] db db' plain h e = (
    rw (← ap (λ r. r.1) e) h,
    [],
    refl,
    rw (← ap (λ r. r.1) e) (rw (append-nil (view db).accounts) refl),
  )
  insert_unmarked-IsUnique ((marked, v) ∷ users) db db' plain h e =
      elim (Bool-cases (marked || (ltb 19 (length v.account) || ltb 19 (length v.password)))) [
        | inl skip ↦ rw skip (insert_unmarked-IsUnique users db db' plain.1 h (ground arith))
        | inr take ↦
            let texts = v.account ∷ v.password ∷ v.mail ∷ [] in
            elim (Option-cases (sql.accounts.insert texts (new_row sql v) db)) [
              | inl failed ↦ absurd (ground arith)
              | inr (mid, stored) ↦
                  let (a, b, c) = plain.0 in
                  let added =
                    Gives-some (λ d. IsAccountAdded (new_row sql v) (view db) (view d))
                      (sql.accounts.insert texts (new_row sql v) db) stored
                      (laws.account_insert texts (new_row sql v) db (a, (b, (c, tt)))) in
                  let (unique, rows, same, total) =
                    insert_unmarked-IsUnique users mid db' plain.1
                      (added-IsUnique (new_row sql v) (view db) (view mid) refl refl refl h added)
                      (ground arith) in
                  (
                    unique,
                    (record (new_row sql v) { uid = added.0 }) ∷ rows,
                    rw take (ap (λ xs. new_row sql v ∷ xs) same),
                    with_more (new_row sql v) (view db) (view mid) (view db') added rows total,
                  )
            ]
      ]

  -- The users with the mark that the first loop of dbInsertUserAccountInfo gives them.
  abbrev pub marked_users : Db → List UserAccountInfo → List (Bool × UserAccountInfo)
  marked_users db users = map (λ v. (exists_again sql v.account db, v)) users

  IsPlain-marked :
      (db : Db) (users : List UserAccountInfo)
      → All IsPlainUser users
      → All (λ u. IsPlainUser u.1) (marked_users db users)
  IsPlain-marked db [] h = tt
  IsPlain-marked db (v ∷ users) h = (h.0, IsPlain-marked db users h.1)

  -- The same for a call of dbInsertUserAccountInfo, with the users as its first loop has marked them.
  pub marked-IsUnique :
      (users : List UserAccountInfo) (db db' : Db)
      → All IsPlainUser users
      → IsUnique (view db)
      → db_insert_user_account_info sql users db ≡ (true, db')
      → IsUnique (view db')
        × (rows : List AccountRow) × (map forget_uid rows
            ≡ map (new_row sql) (admitted (marked_users db users)))
        × (view db' ≡ with_accounts rows (view db))
  unfolding db_insert_user_account_info
  marked-IsUnique users db db' plain h e =
      insert_unmarked-IsUnique (marked_users db users) db db' (IsPlain-marked db users plain) h e
