-- ===== src/Sql/Keys.antt =====
-- Tables in which a text column names one row at most, where the program and not the engine sees to
-- it: it counts the rows with the text before it inserts one.
use mathlib.Core.List.{append-nil}
use bmservers.Prelude.{
  ℕ, ◌≤◌, ◌≡◌, inl, inr, Bool, true, false, Option, none, some, List, [], ◌∷◌, ◌++◌, arith,
  GoString, str_eq, str_eq_iff, length, keep, if◌then◌else◌, Bool-cases, Gives,
}
use bmservers.Sql.Filters.{keep-append_one, no_rows}
use bmservers.Sql.Calls.{exists_or_error}

module _ {A : Type 0} (key : A → GoString) where
  -- The rows with a key.
  abbrev pub rows_with : GoString → List A → List A
  rows_with k xs = keep (λ r. str_eq (key r) k) xs

  -- Each key is that of one row at most.
  abbrev pub IsKey : List A → Type 0
  IsKey xs = (k : GoString) → length (rows_with k xs) ≤ 1

  -- The rows of one key after one row more.
  rows_with-one :
      (k : GoString) (xs : List A) (r : A) (b : Bool)
      → str_eq (key r) k ≡ b
      → rows_with k (xs ++ r ∷ []) ≡ rows_with k xs ++ (if b then r ∷ [] else [])
  rows_with-one k xs r b e = rw (← e) (keep-append_one (λ r. str_eq (key r) k) xs r)

  pub append-IsKey :
      (xs : List A) (r : A) → IsKey xs → rows_with (key r) xs ≡ [] → IsKey (xs ++ r ∷ [])
  append-IsKey xs r h new k = elim (Bool-cases (str_eq (key r) k)) [
    | inr other ↦ rw (rows_with-one k xs r false other, append-nil (rows_with k xs)) (h k)
    | inl here ↦
        let same : key r ≡ k = (str_eq_iff (key r) k).0 here in
        let none_yet : rows_with k xs ≡ [] = rw (← same) new in
        rw (rows_with-one k xs r true here, none_yet) (omega arith)
  ]

  -- A test that finds nothing says that there is no row with the key.
  pub not_there :
      (k : GoString) (xs : List A) (o : Option ℕ)
      → Gives (λ n. n ≡ length (rows_with k xs)) o
      → exists_or_error o ≡ false
      → rows_with k xs ≡ []
  not_there k xs none h e = absurd (ground arith)
  not_there k xs (some n) h e = no_rows (rows_with k xs) (ground arith)
