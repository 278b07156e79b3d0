-- ===== src/Sql/Calls.antt =====
-- How the functions of bmloginsvrapp/sql.go read the result of a statement.
use bmservers.Prelude.{
  ℕ, Bool, true, false, not, ◌&&◌, Option, none, some, ◌==◌, leb, ◌^◌, ◌-◌, ◌≡◌, ap, ap₂, subst,
  arith, Gives,
}
use bmservers.Prelude.Int.{ℤ, pos, pos_part, neg_part}

-- `select count(*)`, then `count != 0`; an error of Query counts as existing.
abbrev pub exists_or_error : Option ℕ → Bool
exists_or_error none = true
exists_or_error (some n) = not (n == 0)

-- `_, err := db.Exec(…)`, then false on an error; a statement that fails changes nothing.
abbrev pub executed : {Db : Type 0} → Option Db → Db → Bool × Db
executed none db = (false, db)
executed (some db') db = (true, db')

-- `select sum(…)` scanned into `sum := 0`: neither an error nor NULL writes it.
abbrev pub scan_sum : Option (Option ℤ) → ℤ
scan_sum (some (some n)) = n
scan_sum _ = pos 0

-- Whether Scan can store the value in an `int32`, or in an `int`.
abbrev pub fits32 : ℤ → Bool
fits32 d = leb (pos_part d) (2 ^ 31 - 1) && leb (neg_part d) (2 ^ 31)

abbrev pub fits64 : ℤ → Bool
fits64 d = leb (pos_part d) (2 ^ 63 - 1) && leb (neg_part d) (2 ^ 63)

-- What a statement that succeeds promises holds after a call that reports success.
pub executed-Gives {κ} :
    {Db : Type 0} (P : Db → Type κ) (o : Option Db) (db db' : Db)
    → Gives P o
    → executed o db ≡ (true, db')
    → P db'
executed-Gives P none db db' h e = absurd (ground arith)
executed-Gives P (some d) db db' h e = subst P (ap (λ r. r.1) e) h

-- A call that reports failure has changed nothing.
pub executed-failed :
    {Db : Type 0} (o : Option Db) (db db' : Db) → executed o db ≡ (false, db') → db' ≡ db
executed-failed none db db' e = ground arith
executed-failed (some d) db db' e = absurd (ground arith)

-- The parts of what a call returns.
pub returned :
    {Db : Type 0} (r : Bool × Db) {ok : Bool} {db : Db} → r.0 ≡ ok → r.1 ≡ db → r ≡ (ok, db)
returned r e e' = ap₂ (λ a b. (a, b)) e e'
