-- ===== src/Sql/Memory.antt =====
-- An engine whose database is the contents of its tables: it shows that the assumptions of
-- `Sql.Laws` can hold, and runs the tests.

use Prim.Native.Nat.{max}
use bmservers.Prelude.{
  Gives, ℕ, suc, ◌<◌, ◌≡◌, refl, sym, inl, Option, none, some, List, [], ◌∷◌, ◌++◌, arith, str_eq,
  keep, length, ◌==◌,
}
use bmservers.Prelude.Int.{ℤ, sum_of}
use bmservers.Sql.Rows.{Snapshot, AccountRow, DonateRow}
use bmservers.Sql.Engine.{Table, Engine}
use bmservers.Sql.Laws.{
  IsFirst, IsSum, changed, without, Reads, InsertsKey, InsertsAccount, IsAccountAdded, Laws,
}

abbrev head? : {A : Type 0} → List A → Option A
head? [] = none
head? (x ∷ xs) = some x

abbrev sum? : {A : Type 0} → (A → ℤ) → List A → Option ℤ
sum? f [] = none
sum? f (x ∷ xs) = some (sum_of f (x ∷ xs))

module _ {Row : Type 0} (read : Snapshot → List Row) (write : List Row → Snapshot → Snapshot) where
  -- The statements on one table; `admits` is the table's constraint on an insert.
  abbrev table : (Row → List Row → Option Row) → Table Snapshot Row
  table admits = record {
    count = λ c s. some (length (keep c.holds (read s)));
    first = λ c s. some (head? (keep c.holds (read s)));
    all = λ c s. some (keep c.holds (read s));
    sum = λ f c s. some (sum? f (keep c.holds (read s)));
    insert = λ texts r s. elim (admits r (read s)) [
      | none ↦ none
      | some r' ↦ some (write (read s ++ r' ∷ []) s)
    ];
    update = λ f c s. some (write (changed f c.holds (read s)) s);
    delete = λ c s. some (write (without c.holds (read s)) s);
  }

IsFirst-head? : {A : Type 0} (xs : List A) → IsFirst xs (head? xs)
IsFirst-head? [] = refl
IsFirst-head? (x ∷ xs) = inl refl

IsSum-sum? : {A : Type 0} (f : A → ℤ) (xs : List A) → IsSum f xs (sum? f xs)
IsSum-sum? f [] = refl
IsSum-sum? f (x ∷ xs) = refl

table-Reads :
    {Row : Type 0} (read : Snapshot → List Row) (write : List Row → Snapshot → Snapshot)
    (admits : Row → List Row → Option Row)
    → Reads (λ s. s) read write (table read write admits)
table-Reads read write admits = record {
  count_law = λ c s _. refl;
  first_law = λ c s _. IsFirst-head? (keep c.holds (read s));
  all_law = λ c s _. refl;
  sum_law = λ f c s _. IsSum-sum? f (keep c.holds (read s));
  update_law = λ f c s _. refl;
  delete_law = λ c s _. refl;
}

abbrev anything : {Row : Type 0} → Row → List Row → Option Row
anything r rows = some r

-- A row whose key is new.
abbrev if_none : {Row : Type 0} → List Row → Row → Option Row
if_none [] r = some r
if_none (x ∷ xs) r = none

abbrev new_donate : DonateRow → List DonateRow → Option DonateRow
new_donate r rows = if_none (keep (λ s. s.uid == r.uid) rows) r

abbrev max_uid : List AccountRow → ℕ
max_uid [] = 0
max_uid (r ∷ rows) = max r.uid (max_uid rows)

above-max_uid :
    (u : ℕ) (rows : List AccountRow) → max_uid rows < u → keep (λ s. s.uid == u) rows ≡ []
above-max_uid u [] h = refl
above-max_uid u (r ∷ rows) h = ground (arith, above-max_uid u rows)

-- The row with the next free uid, if its account is new.
abbrev new_account : AccountRow → List AccountRow → Option AccountRow
new_account r rows =
    if_none (keep (λ s. str_eq s.account r.account) rows) (record r { uid = suc (max_uid rows) })

abbrev pub memory : Engine Snapshot
memory = record {
  account_again = λ c s. some (head? (keep c.holds s.accounts));
  accounts = table (λ s. s.accounts) (λ rows s. record s { accounts = rows }) new_account;
  donates = table (λ s. s.donates) (λ rows s. record s { donates = rows }) new_donate;
  histories = table (λ s. s.histories) (λ rows s. record s { histories = rows }) anything;
  consumes = table (λ s. s.consumes) (λ rows s. record s { consumes = rows }) anything;
  gifts = table (λ s. s.gifts) (λ rows s. record s { gifts = rows }) anything;
  ranks = table (λ s. s.ranks) (λ rows s. record s { ranks = rows }) anything;
  admins = table (λ s. s.admins) (λ rows s. record s { admins = rows }) anything;
  requests = table (λ s. s.requests) (λ rows s. record s { requests = rows }) anything;
  onlines = table (λ s. s.onlines) (λ rows s. record s { onlines = rows }) anything;
  web_users = table (λ s. s.web_users) (λ rows s. record s { web_users = rows }) anything;
}

donate_insert :
    InsertsKey
      (λ s. s)
      (λ s. s.donates)
      (λ rows s. record s { donates = rows })
      (λ r. r.uid)
      memory.donates
donate_insert texts r s _ = ground arith

account_added :
    (u : ℕ) (r : AccountRow) (s : Snapshot) (same : List AccountRow)
    → same ≡ keep (λ a. str_eq a.account r.account) s.accounts
    → 0 < u
    → keep (λ a. a.uid == u) s.accounts ≡ []
    → Gives (IsAccountAdded r s) (elim (if_none same (record r { uid = u })) [
      | none ↦ none
      | some r' ↦ some (record s { accounts = s.accounts ++ r' ∷ [] })
    ])
account_added u r s [] e h fresh = (u, refl, h, fresh, sym e)
account_added u r s (x ∷ xs) e h fresh = tt

account_insert : InsertsAccount (λ s. s) memory.accounts
account_insert texts r s _ =
    account_added _ r s _ refl (omega arith) (above-max_uid _ s.accounts (omega arith))

pub memory-Laws : Laws memory (λ s. s)
memory-Laws = record {
  accounts = table-Reads _ _ new_account;
  account_insert = account_insert;
  account_again_law = λ c s _. IsFirst-head? (keep c.holds s.accounts);
  donates = table-Reads _ _ new_donate;
  donate_insert = donate_insert;
  histories = table-Reads _ _ anything;
  history_insert = λ texts r s _. refl;
  consumes = table-Reads _ _ anything;
  consume_insert = λ texts r s _. refl;
  gifts = table-Reads _ _ anything;
  gift_insert = λ texts r s _. refl;
  ranks = table-Reads _ _ anything;
  rank_insert = λ texts r s _. refl;
  admins = table-Reads _ _ anything;
  admin_insert = λ texts r s _. refl;
  requests = table-Reads _ _ anything;
  request_insert = λ texts r s _. refl;
  onlines = table-Reads _ _ anything;
  online_insert = λ texts r s _. refl;
  web_users = table-Reads _ _ anything;
}
