-- ===== src/Donate/Refusals.antt =====
-- The purchases that dbOnConsumeDonate refuses, and the check that dbCheckConsumeDonate makes ahead.
use bmservers.Prelude.{ℕ, ◌≡◌, ◌⊎◌, true, false, arith, GoString}
use bmservers.Prelude.Int.{ℤ, negsuc}
use bmservers.Sql.Engine.{Engine}
use bmservers.Donate.{
  db_insert_user_donate_consume, consume_from, db_check_consume_donate, db_on_consume_donate,
}

module _ {Db : Type 0} (sql : Engine Db) (uid : ℕ) (name : GoString) (itemid cost now : ℤ)
    (db : Db) where
  -- A purchase that is refused changes nothing, and its code is one of -1, -2, -3 and -4.
  pub db_on_consume_donate-refused :
      {code : ℤ} {db' : Db}
      → db_on_consume_donate sql uid name itemid cost now db ≡ ((false, code), db')
      → (db' ≡ db) × ((code ≡ negsuc 0) ⊎ (code ≡ negsuc 1) ⊎ (code ≡ negsuc 2) ⊎ (code ≡ negsuc 3))
  unfolding db_on_consume_donate consume_from db_insert_user_donate_consume
  db_on_consume_donate-refused h = ground arith

  -- Where the check passes, the purchase goes through or fails in its insert only; where it does
  -- not, the purchase is refused and nothing changes.
  pub db_check_consume_donate-agrees :
      ((db_check_consume_donate sql uid cost db ≡ true)
        × (((db_on_consume_donate sql uid name itemid cost now db).0.0 ≡ true)
            ⊎ (db_on_consume_donate sql uid name itemid cost now db ≡ ((false, negsuc 3), db))))
      ⊎ ((db_check_consume_donate sql uid cost db ≡ false)
          × ((db_on_consume_donate sql uid name itemid cost now db).0.0 ≡ false)
          × ((db_on_consume_donate sql uid name itemid cost now db).1 ≡ db))
  unfolding db_on_consume_donate consume_from db_insert_user_donate_consume db_check_consume_donate
  db_check_consume_donate-agrees = ground arith
