-- ===== src/Http/Shop.antt =====
-- Buying over HTTP: buyOlshopItemHandler of bmloginsvrapp/rpc_handler.go.
use bmservers.Prelude.{
  ◌<◌, ◌≤◌, ℕ, zero, suc, ◌∷◌, [], ◌≡◌, ◌⊎◌, ◌≢◌, ◌^◌, ◌-◌, inl, inr, Bool, true, false, Option,
  none, some, arith, GoString, length, ◌==◌, if◌then◌else◌, Bool-cases, Option-cases,
}
use bmservers.Prelude.Int.{ℤ, pos, negsuc, ◌<ℤ◌, ◌≤ℤ◌, to_uint32}
use bmservers.Prelude.Decimal.{atoi, in_range, read_some}
use bmservers.Sql.Rows.{Snapshot}
use bmservers.Sql.Engine.{Engine}
use bmservers.Sql.Laws.{Laws, IsPlain}
use bmservers.Donate.{consume_of, db_on_consume_donate}
use bmservers.Donate.Consume.{IsPurchase, spent, purchase, db_on_consume_donate-IsPurchase}
use bmservers.Donate.Refusals.{db_on_consume_donate-refused}
use bmservers.Http.{ShopForm, get_form_value_int, is_order, shop_result, buy_olshop_item_handler}

-- The values that the handler reads from the form.
abbrev pub uid_of : ShopForm → ℤ
uid_of form = get_form_value_int form.uid (pos 0)

abbrev pub cost_of : ShopForm → ℤ
cost_of form = get_form_value_int form.cost (negsuc 0)

abbrev pub item_of : ShopForm → ℤ
item_of form = get_form_value_int form.item_id (pos 0)

-- A uid and an item that are positive, a cost that is not negative, a name of 1 to 19 bytes.
pub record IsOrder (uid cost item : ℤ) (name : GoString) : Type 0 where
  pub some_uid : pos 0 <ℤ uid
  pub no_credit : pos 0 ≤ℤ cost
  pub some_item : pos 0 <ℤ item
  pub named : 0 < length name
  pub short_name : length name ≤ 19

is_order-IsOrder :
    (uid cost item : ℤ) (name : GoString)
    → is_order uid cost item name ≡ true
    → IsOrder uid cost item name
is_order-IsOrder uid cost item name e = ground arith

in_range-bound : (b : Bool) (o : Option ℕ) (x : ℤ) → in_range b o ≡ some x → x ≤ℤ pos (2 ^ 63 - 1)
in_range-bound b none x e = absurd (ground arith)
in_range-bound true (some zero) x e = ground arith
in_range-bound true (some (suc n)) x e = ground arith
in_range-bound false (some n) x e = ground arith

atoi-bound : (s : GoString) (x : ℤ) → atoi s ≡ some x → x ≤ℤ pos (2 ^ 63 - 1)
unfolding atoi
atoi-bound [] x e = absurd (ground arith)
atoi-bound (c ∷ s) x e = elim (Bool-cases (c == 45)) [
  | inl minus ↦ in_range-bound true (read_some s) x (ground arith)
  | inr other ↦ elim (Bool-cases (c == 43)) [
    | inl plus ↦ in_range-bound false (read_some s) x (ground arith)
    | inr digit ↦ in_range-bound false (read_some (c ∷ s)) x (ground arith)
  ]
]

value-bound : (s : GoString) (d : ℤ) → d ≤ℤ pos 0 → get_form_value_int s d ≤ℤ pos (2 ^ 63 - 1)
value-bound s d h = elim (Bool-cases (length s == 0)) [
  | inl empty ↦ rw empty (omega (arith, h))
  | inr text ↦ elim (Option-cases (atoi s)) [
    | inl failed ↦ rw (text, failed) (omega (arith, h))
    | inr (x, read) ↦ rw (text, read) (atoi-bound s x read)
  ]
]

module _ {Db : Type 0} (sql : Engine Db) where
  refused_form :
      (uid cost item : ℤ) (name : GoString) (r : (Bool × ℤ) × Db) (left : ℤ) (db db' : Db)
      → is_order uid cost item name ≡ false
      → (if is_order uid cost item name
          then shop_result sql r
          else (record { result = pos 1; left = pos 0 }, db))
        ≡ (record { result = pos 0; left = left }, db')
      → ⊥
  refused_form uid cost item name r left db db' bad e =
      let answer : (record { result = pos 1; left = pos 0 }, db)
          ≡ (record { result = pos 0; left = left }, db') =
        rw bad at e in
      absurd (ground arith)

  -- The answer with result 0 is that of a purchase, unless 0 is the code of a refusal.
  result-cases :
      (r : (Bool × ℤ) × Db) (left : ℤ) (db' : Db)
      → shop_result sql r ≡ (record { result = pos 0; left = left }, db')
      → (r ≡ ((true, left), db')) ⊎ (r ≡ ((false, pos 0), db'))
  result-cases ((true, l), d) left db' e = inl (ground arith)
  result-cases ((false, code), d) left db' e = inr (ground arith)

  bought-cases :
      (now : ℤ) (form : ShopForm) (left : ℤ) (db db' : Db)
      → buy_olshop_item_handler sql now form db ≡ (record { result = pos 0; left = left }, db')
      → (is_order (uid_of form) (cost_of form) (item_of form) form.name ≡ true)
        × (db_on_consume_donate sql
              (to_uint32 (uid_of form))
              form.name
              (item_of form)
              (cost_of form)
              now
              db
            ≡ ((true, left), db'))
  unfolding buy_olshop_item_handler
  bought-cases now form left db db' e =
      let uid = uid_of form in
      let cost = cost_of form in
      let item = item_of form in
      let r = db_on_consume_donate sql (to_uint32 uid) form.name item cost now db in
      elim (Bool-cases (is_order uid cost item form.name)) [
        | inr bad ↦ absurd (refused_form uid cost item form.name r left db db' bad e)
        | inl good ↦
            let answer : shop_result sql r ≡ (record { result = pos 0; left = left }, db') =
              rw good at e in
            elim (result-cases r left db' answer) [
              | inl bought ↦ (good, bought)
              | inr code ↦ absurd (
                  ground (
                    arith,
                    db_on_consume_donate-refused sql (to_uint32 uid) form.name item cost now db
                        code,
                  ))
            ]
      ]

module _ {Db : Type 0} {sql : Engine Db} {view : Db → Snapshot} (laws : Laws sql view) where
  -- If buyOlshopItemHandler answers with result 0, then the uid and the item of the form are
  -- positive numbers, its cost is not negative and its name has 1 to 19 bytes; what the user has
  -- spent grows by the row of that cost, and nothing else in the database is changed; and the answer
  -- is what is left of a donation that stands in the database and covers the cost. It is assumed
  -- that what the user has spent before is between 0 and 2 ^ 62 and can be read, and that the name
  -- has no quote.
  pub buy_olshop_item_handler-IsPurchase :
      (now : ℤ) (form : ShopForm) (left : ℤ) (db db' : Db)
      → IsPlain form.name
      → pos 0 ≤ℤ spent (to_uint32 (uid_of form)) (view db)
      → spent (to_uint32 (uid_of form)) (view db) ≤ℤ pos (2 ^ 62)
      → sql.consumes.sum (λ r. r.cost) (consume_of (to_uint32 (uid_of form))) db ≢ none
      → buy_olshop_item_handler sql now form db ≡ (record { result = pos 0; left = left }, db')
      → IsOrder (uid_of form) (cost_of form) (item_of form) form.name
        × IsPurchase
            (to_uint32 (uid_of form))
            (purchase (to_uint32 (uid_of form)) form.name (item_of form) (cost_of form) now)
            left
            (view db)
            (view db')
  buy_olshop_item_handler-IsPurchase now form left db db' plain low high reads e =
      let (good, bought) = bought-cases sql now form left db db' e in
      (
        is_order-IsOrder (uid_of form) (cost_of form) (item_of form) form.name good,
        db_on_consume_donate-IsPurchase laws (to_uint32 (uid_of form)) form.name (item_of form)
            (cost_of form) now left db db' plain (value-bound form.cost (negsuc 0) (omega arith))
            low high reads bought,
      )
