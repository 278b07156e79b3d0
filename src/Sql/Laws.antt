-- ===== src/Sql/Laws.antt =====
-- What the program relies on of an engine, as SQLite documents it: a statement that succeeds reads
-- or changes the rows that its WHERE clause names, in its own table only; no error comes up while
-- the rows of a query are stepped through. A statement with a spliced text promises this only if the
-- text has no quote.
use bmservers.Prelude.{
  ℕ, ◌<◌, ◌≡◌, ◌⊎◌, Bool, false, Option, none, some, List, [], ◌∷◌, ◌++◌, GoString, str_eq, All,
  any, keep, length, ◌==◌, if◌then◌else◌, Gives,
}
use bmservers.Prelude.Int.{ℤ, sum_of}
use bmservers.Sql.Rows.{Snapshot, AccountRow}
use bmservers.Sql.Engine.{Cond, Table, Engine}

-- No byte of the text is a single quote.
abbrev pub IsPlain : GoString → Type 0
IsPlain s = any (λ c. c == 39) s ≡ false

module _ {A : Type 0} where
  -- The row stands in the list.
  abbrev pub IsRow : A → List A → Type 0
  IsRow x [] = ⊥
  IsRow x (y ∷ ys) = (x ≡ y) ⊎ IsRow x ys

  -- The first row of a result is one of the rows asked for; there is none only if none is there.
  abbrev pub IsFirst : List A → Option A → Type 0
  IsFirst xs none = xs ≡ []
  IsFirst xs (some x) = IsRow x xs

  abbrev pub IsSum : (A → ℤ) → List A → Option ℤ → Type 0
  IsSum f xs none = xs ≡ []
  IsSum f xs (some n) = n ≡ sum_of f xs

  -- The rows after an update.
  abbrev pub changed : (A → A) → (A → Bool) → List A → List A
  changed f p [] = []
  changed f p (x ∷ xs) = (if p x then f x else x) ∷ changed f p xs

  -- The rows after a delete.
  abbrev pub without : (A → Bool) → List A → List A
  without p [] = []
  without p (x ∷ xs) = let rest = without p xs in if p x then rest else x ∷ rest

module _ {Db Row : Type 0} (view : Db → Snapshot) (read : Snapshot → List Row)
    (write : List Row → Snapshot → Snapshot) where
  -- The statements that change nothing, or change rows that are there.
  pub record Reads (t : Table Db Row) : Type 0 where
    pub count_law :
        (c : Cond Row) (db : Db)
        → All IsPlain c.spliced
        → Gives (λ n. n ≡ length (keep c.holds (read (view db)))) (t.count c db)
    pub first_law :
        (c : Cond Row) (db : Db)
        → All IsPlain c.spliced
        → Gives (IsFirst (keep c.holds (read (view db)))) (t.first c db)
    pub all_law :
        (c : Cond Row) (db : Db)
        → All IsPlain c.spliced
        → Gives (λ rows. rows ≡ keep c.holds (read (view db))) (t.all c db)
    pub sum_law :
        (f : Row → ℤ) (c : Cond Row) (db : Db)
        → All IsPlain c.spliced
        → Gives (IsSum f (keep c.holds (read (view db)))) (t.sum f c db)
    pub update_law :
        (f : Row → Row) (c : Cond Row) (db : Db)
        → All IsPlain c.spliced
        → Gives
            (λ db'. view db' ≡ write (changed f c.holds (read (view db))) (view db))
            (t.update f c db)
    pub delete_law :
        (c : Cond Row) (db : Db)
        → All IsPlain c.spliced
        → Gives
            (λ db'. view db' ≡ write (without c.holds (read (view db))) (view db))
            (t.delete c db)

  -- A table without a key: a new row goes to the end, and the others stay.
  abbrev pub Inserts : Table Db Row → Type 0
  Inserts t =
      (texts : List GoString) (r : Row) (db : Db)
      → All IsPlain texts
      → Gives (λ db'. view db' ≡ write (read (view db) ++ r ∷ []) (view db)) (t.insert texts r db)

  -- A table whose key the statement gives: an insert of a key that is there fails.
  abbrev pub InsertsKey : (Row → ℕ) → Table Db Row → Type 0
  InsertsKey key t =
      (texts : List GoString) (r : Row) (db : Db)
      → All IsPlain texts
      → Gives
          (λ db'.
            (view db' ≡ write (read (view db) ++ r ∷ []) (view db))
            × (keep (λ s. key s == key r) (read (view db)) ≡ []))
          (t.insert texts r db)

-- useraccount: the engine chooses the uid, which is positive and new, and refuses an account that
-- is there (UNIQUE).
abbrev pub IsAccountAdded : AccountRow → Snapshot → Snapshot → Type 0
IsAccountAdded r s t =
    (u : ℕ) × (t ≡ record s { accounts = s.accounts ++ (record r { uid = u }) ∷ [] })
    × (0 < u)
    × (keep (λ a. a.uid == u) s.accounts ≡ [])
    × (keep (λ a. str_eq a.account r.account) s.accounts ≡ [])

abbrev pub InsertsAccount : {Db : Type 0} → (Db → Snapshot) → Table Db AccountRow → Type 0
InsertsAccount {Db} view t =
    (texts : List GoString) (r : AccountRow) (db : Db)
    → All IsPlain texts
    → Gives (λ db'. IsAccountAdded r (view db) (view db')) (t.insert texts r db)

-- The assumptions on an engine, with `view` the contents of a database.
pub record Laws {Db : Type 0} (sql : Engine Db) (view : Db → Snapshot) : Type 0 where
  pub accounts : Reads view (λ s. s.accounts) (λ rows s. record s { accounts = rows }) sql.accounts
  pub account_insert : InsertsAccount view sql.accounts
  pub account_again_law :
      (c : Cond AccountRow) (db : Db)
      → All IsPlain c.spliced
      → Gives (IsFirst (keep c.holds (view db).accounts)) (sql.account_again c db)
  pub donates : Reads view (λ s. s.donates) (λ rows s. record s { donates = rows }) sql.donates
  pub donate_insert :
      InsertsKey view
        (λ s. s.donates)
        (λ rows s. record s { donates = rows })
        (λ r. r.uid)
        sql.donates
  pub histories :
      Reads view (λ s. s.histories) (λ rows s. record s { histories = rows }) sql.histories
  pub history_insert :
      Inserts view (λ s. s.histories) (λ rows s. record s { histories = rows }) sql.histories
  pub consumes : Reads view (λ s. s.consumes) (λ rows s. record s { consumes = rows }) sql.consumes
  pub consume_insert :
      Inserts view (λ s. s.consumes) (λ rows s. record s { consumes = rows }) sql.consumes
  pub gifts : Reads view (λ s. s.gifts) (λ rows s. record s { gifts = rows }) sql.gifts
  pub gift_insert : Inserts view (λ s. s.gifts) (λ rows s. record s { gifts = rows }) sql.gifts
  pub ranks : Reads view (λ s. s.ranks) (λ rows s. record s { ranks = rows }) sql.ranks
  pub rank_insert : Inserts view (λ s. s.ranks) (λ rows s. record s { ranks = rows }) sql.ranks
  pub admins : Reads view (λ s. s.admins) (λ rows s. record s { admins = rows }) sql.admins
  pub admin_insert : Inserts view (λ s. s.admins) (λ rows s. record s { admins = rows }) sql.admins
  pub requests : Reads view (λ s. s.requests) (λ rows s. record s { requests = rows }) sql.requests
  pub request_insert :
      Inserts view (λ s. s.requests) (λ rows s. record s { requests = rows }) sql.requests
  pub onlines : Reads view (λ s. s.onlines) (λ rows s. record s { onlines = rows }) sql.onlines
  pub online_insert :
      Inserts view (λ s. s.onlines) (λ rows s. record s { onlines = rows }) sql.onlines
  pub web_users :
      Reads view (λ s. s.web_users) (λ rows s. record s { web_users = rows }) sql.web_users
