-- ===== src/Donate/Tests.antt =====
-- Two orders and a purchase of a user, in a database in memory.
use bmservers.Prelude.{
  ℕ, ◌≡◌, ◌⊎◌, refl, inl, true, false, [], ◌∷◌, ◌++◌, arith, GoString, codes, keep, str_eq,
}
use bmservers.Prelude.Int.{ℤ, pos, negsuc, ◌+ℤ◌, ◌-ℤ◌, to_int32, to_int64, to_uint64}
use bmservers.Sql.Rows.{Snapshot, HistoryRow}
use bmservers.Sql.Memory.{memory, memory-Laws}
use bmservers.Donate.{
  db_insert_user_donate_consume, db_get_user_donate_consume_sum, db_is_user_donate_exists,
  db_insert_user_donate_info, db_get_user_donate_info, consume_from, db_on_consume_donate,
  db_check_consume_donate, db_is_user_donate_history_exists, db_insert_user_donate_history,
  db_get_user_donate_history_sum, write_info, store_donate, db_inc_user_donate_info,
}
use bmservers.Donate.Consume.{IsPurchase, purchase, db_on_consume_donate-IsPurchase}
use bmservers.Donate.Refusals.{db_on_consume_donate-refused, db_check_consume_donate-agrees}
use bmservers.Donate.Orders.{db_inc_user_donate_info-once}
use bmservers.Donate.Ledger.{IsLedger, db_inc_user_donate_info-IsLedger}

abbrev blank : Snapshot
blank = record {
  accounts = [];
  donates = [];
  histories = [];
  consumes = [];
  gifts = [];
  ranks = [];
  admins = [];
  requests = [];
  onlines = [];
  web_users = [];
}

abbrev order_a : GoString
order_a = codes "A1"

abbrev order_b : GoString
order_b = codes "B2"

abbrev sword : GoString
sword = codes "sword"

abbrev history_a : HistoryRow
history_a = record { uid = 7; donate = pos 30; donatetime = pos 100; donateorderid = order_a }

abbrev history_b : HistoryRow
history_b = record { uid = 7; donate = pos 20; donatetime = pos 200; donateorderid = order_b }

abbrev one_order : Snapshot
one_order = record blank {
  donates =
      (record { uid = 7; donate = pos 30; lastdonatetime = pos 101; expiretime = pos 0 }) ∷ [];
  histories = history_a ∷ [];
}

abbrev two_orders : Snapshot
two_orders = record blank {
  donates =
      (record { uid = 7; donate = pos 50; lastdonatetime = pos 201; expiretime = pos 0 }) ∷ [];
  histories = history_a ∷ history_b ∷ [];
}

abbrev bought : Snapshot
bought = record two_orders { consumes = purchase 7 sword (pos 5) (pos 20) (pos 300) ∷ [] }

first_order :
    db_inc_user_donate_info memory 7 (pos 30) order_a (pos 100) (pos 101) blank ≡ (true, one_order)
unfolding db_inc_user_donate_info db_is_user_donate_history_exists db_insert_user_donate_history
    db_get_user_donate_history_sum store_donate db_is_user_donate_exists db_insert_user_donate_info
    to_int32 to_int64 to_uint64 str_eq ◌+ℤ◌ ◌-ℤ◌
first_order = refl

second_order :
    db_inc_user_donate_info memory 7 (pos 20) order_b (pos 200) (pos 201) one_order
    ≡ (true, two_orders)
unfolding db_inc_user_donate_info db_is_user_donate_history_exists db_insert_user_donate_history
    db_get_user_donate_history_sum store_donate db_is_user_donate_exists db_get_user_donate_info
    write_info to_int32 to_int64 to_uint64 str_eq ◌+ℤ◌ ◌-ℤ◌
second_order = refl

blank-IsLedger : IsLedger blank
blank-IsLedger = record { users = λ uid. inl (refl, refl); one_order = λ order. omega arith }

one_order-IsLedger : IsLedger one_order
one_order-IsLedger =
    (db_inc_user_donate_info-IsLedger memory-Laws 7 (pos 30) order_a (pos 100) (pos 101) blank
      one_order refl (λ d e. cc) blank-IsLedger first_order).0

db_inc_user_donate_info-IsLedger_example :
    IsLedger two_orders
    × (keep (λ r. str_eq r.donateorderid order_b) one_order.histories ≡ [])
    × (two_orders.histories ≡ one_order.histories ++ history_b ∷ [])
db_inc_user_donate_info-IsLedger_example =
    db_inc_user_donate_info-IsLedger memory-Laws 7 (pos 20) order_b (pos 200) (pos 201) one_order
      two_orders refl (λ d e. cc) one_order-IsLedger second_order

buys :
    db_on_consume_donate memory 7 sword (pos 5) (pos 20) (pos 300) two_orders
    ≡ ((true, pos 30), bought)
unfolding db_on_consume_donate db_get_user_donate_info consume_from db_get_user_donate_consume_sum
    db_insert_user_donate_consume to_int32 to_int64 to_uint64 str_eq ◌+ℤ◌ ◌-ℤ◌
buys = refl

db_on_consume_donate-IsPurchase_example :
    IsPurchase 7 (purchase 7 sword (pos 5) (pos 20) (pos 300)) (pos 30) two_orders bought
db_on_consume_donate-IsPurchase_example =
    db_on_consume_donate-IsPurchase memory-Laws 7 sword (pos 5) (pos 20) (pos 300) (pos 30)
      two_orders bought refl (omega arith) (omega arith) (omega arith) (λ e. cc) buys

too_dear :
    db_on_consume_donate memory 7 sword (pos 5) (pos 40) (pos 400) bought
    ≡ ((false, negsuc 2), bought)
unfolding db_on_consume_donate db_get_user_donate_info consume_from db_get_user_donate_consume_sum
    to_int32 to_int64 to_uint64 str_eq ◌+ℤ◌ ◌-ℤ◌
too_dear = refl

db_on_consume_donate-refused_example :
    (bought ≡ bought)
    × ((negsuc 2 ≡ negsuc 0)
        ⊎ (negsuc 2 ≡ negsuc 1)
        ⊎ (negsuc 2 ≡ negsuc 2)
        ⊎ (negsuc 2 ≡ negsuc 3))
db_on_consume_donate-refused_example =
    db_on_consume_donate-refused memory 7 sword (pos 5) (pos 40) (pos 400) bought too_dear

db_check_consume_donate-agrees_example :
    ((db_check_consume_donate memory 7 (pos 40) bought ≡ true)
      × (((db_on_consume_donate memory 7 sword (pos 5) (pos 40) (pos 400) bought).0.0 ≡ true)
          ⊎ (db_on_consume_donate memory 7 sword (pos 5) (pos 40) (pos 400) bought
              ≡ ((false, negsuc 3), bought))))
    ⊎ ((db_check_consume_donate memory 7 (pos 40) bought ≡ false)
        × ((db_on_consume_donate memory 7 sword (pos 5) (pos 40) (pos 400) bought).0.0 ≡ false)
        × ((db_on_consume_donate memory 7 sword (pos 5) (pos 40) (pos 400) bought).1 ≡ bought))
db_check_consume_donate-agrees_example =
    db_check_consume_donate-agrees memory 7 sword (pos 5) (pos 40) (pos 400) bought

db_inc_user_donate_info-once_example :
    ((db_inc_user_donate_info memory 7 (pos 30) order_a (pos 100) (pos 101) blank).1 ≡ blank)
    ⊎ ((uid' : ℕ) (money' now' later' : ℤ)
        → db_inc_user_donate_info memory uid' money' order_a now' later'
            (db_inc_user_donate_info memory 7 (pos 30) order_a (pos 100) (pos 101) blank).1
          ≡ (
            false,
            (db_inc_user_donate_info memory 7 (pos 30) order_a (pos 100) (pos 101) blank).1,
          ))
db_inc_user_donate_info-once_example =
    db_inc_user_donate_info-once memory-Laws 7 (pos 30) order_a (pos 100) (pos 101) blank refl
