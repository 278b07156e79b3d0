-- ===== src/Donate/Orders.antt =====
-- Donation orders: what dbIncUserDonateInfo does to the tables, and its twin that returns the error.
use bmservers.Prelude.{
  ℕ, ◌≡◌, ◌≢◌, ◌⊎◌, inl, inr, ap, ◌∙◌, Bool, true, false, Option, none, some, List, [], ◌∷◌, ◌++◌,
  arith, GoString, refl, keep, length-append, Bool-cases, Option-cases, str_eq, str_eq_iff, ◌==◌,
  if◌then◌else◌,
}
use bmservers.Prelude.Int.{ℤ, pos, to_int32, sum_of}
use bmservers.Sql.Rows.{Snapshot, HistoryRow, DonateRow}
use bmservers.Sql.Engine.{Engine}
use bmservers.Sql.Laws.{Laws, IsPlain, changed}
use bmservers.Sql.Filters.{keep-append_one, no_rows, some_row}
use bmservers.Donate.Reads.{info-IsRow}
use bmservers.Donate.{
  DonateError, UserDonateInfo, info_row, donate_of, order_is, db_is_user_donate_exists,
  db_is_user_donate_history_exists, db_insert_user_donate_history, db_insert_user_donate_info,
  write_info, store_donate, store_donate_ex, db_get_user_donate_info,
  db_get_user_donate_history_sum, db_inc_user_donate_info, db_inc_user_donate_info_ex,
}

-- Whether a call that returns an error reports none.
abbrev pub is_ok : Option DonateError → Bool
is_ok none = true
is_ok (some e) = false

module _ {Db : Type 0} (sql : Engine Db) (uid : ℕ) (money : ℤ) (order : GoString) (now later : ℤ)
    (db : Db) where
  -- dbIncUserDonateInfoEx reports no error exactly when dbIncUserDonateInfo returns true, and both
  -- leave the same database, also where they fail.
  pub inc_ex-agrees :
      (is_ok (db_inc_user_donate_info_ex sql uid money order now later db).0
        ≡ (db_inc_user_donate_info sql uid money order now later db).0)
      × ((db_inc_user_donate_info_ex sql uid money order now later db).1
          ≡ (db_inc_user_donate_info sql uid money order now later db).1)
  unfolding db_inc_user_donate_info_ex db_inc_user_donate_info store_donate store_donate_ex
      db_insert_user_donate_info write_info
  inc_ex-agrees = ground arith

-- The total of a user's orders.
abbrev pub donated : ℕ → Snapshot → ℤ
donated uid s = sum_of (λ r. r.donate) (keep (λ r. r.uid == uid) s.histories)

-- The row that is stored for a new donor, and for an old one.
abbrev pub new_donor : ℕ → ℤ → ℤ → DonateRow
new_donor uid fresh now =
    info_row (record { uid = uid; donate = fresh; lastdonatetime = now; expiretime = pos 0 })

-- What storing a donation does to the table userdonate: the user's row is added or updated.
abbrev pub IsStored : ℕ → ℤ → ℤ → ℤ → Snapshot → Snapshot → Type 0
IsStored uid fresh total now s t =
    ((keep (λ r. r.uid == uid) s.donates ≡ [])
      × (t ≡ record s { donates = s.donates ++ new_donor uid fresh now ∷ [] }))
    ⊎ ((info : UserDonateInfo) × (keep (λ r. r.uid == uid) s.donates ≢ [])
        × (t ≡ record s {
          donates =
              changed
                (λ r. record (info_row (record info { donate = total; lastdonatetime = now })) {
                  uid = r.uid;
                })
                (λ r. r.uid == uid) s.donates;
        }))

module _ {Db : Type 0} {sql : Engine Db} {view : Db → Snapshot} (laws : Laws sql view) where
  pub store_donate-IsStored :
      (uid : ℕ) (fresh total now : ℤ) (db db' : Db)
      → store_donate sql uid fresh total now db ≡ (true, db')
      → IsStored uid fresh total now (view db) (view db')
  unfolding store_donate db_is_user_donate_exists db_insert_user_donate_info write_info
  store_donate-IsStored uid fresh total now db db' h =
      let counted = laws.donates.count_law (donate_of uid) db tt in
      elim (Bool-cases (db_is_user_donate_exists sql uid db)) [
        | inr e ↦
            let inserted = laws.donate_insert [] (new_donor uid fresh now) db tt in
            inl (no_rows _ (ground arith), ground arith)
        | inl e ↦ elim (Option-cases (db_get_user_donate_info sql uid db)) [
          | inl e' ↦ absurd (ground arith)
          | inr (info, e') ↦
              let (row, _, there) = info-IsRow laws uid db info e' in
              let written =
                laws.donates.update_law
                  (λ r. record (info_row (record info { donate = total; lastdonatetime = now })) {
                    uid = r.uid;
                  })
                  (donate_of uid) db tt in
              inr (info, λ empty. some_row _ row there empty, ground arith)
        ]
      ]

  -- The first half of an order: it is new, and is written to the history.
  pub order_written :
      (uid : ℕ) (money : ℤ) (order : GoString) (now later : ℤ) (db db' : Db)
      → IsPlain order
      → db_inc_user_donate_info sql uid money order now later db ≡ (true, db')
      → (keep (λ r. str_eq r.donateorderid order) (view db).histories ≡ [])
        × (mid : Db) × (view mid ≡ record (view db) {
          histories =
              (view db).histories
              ++ (record { uid = uid; donate = money; donatetime = now; donateorderid = order })
                ∷ [];
        })
        × (store_donate sql uid
              (to_int32 money)
              (to_int32 (db_get_user_donate_history_sum sql uid mid))
              later
              mid
            ≡ (true, db'))
  unfolding db_inc_user_donate_info db_is_user_donate_history_exists db_insert_user_donate_history
  order_written uid money order now later db db' plain h =
      let row : HistoryRow = record {
        uid = uid;
        donate = money;
        donatetime = now;
        donateorderid = order;
      } in
      let counted = laws.histories.count_law (order_is order) db (plain, tt) in
      let inserted = laws.history_insert (order ∷ []) row db (plain, tt) in
      elim (Option-cases (sql.histories.insert (order ∷ []) row db)) [
        | inl e ↦ absurd (ground arith)
        | inr (mid, e) ↦ (no_rows _ (ground arith), mid, ground arith, ground arith)
      ]

  store_donate-histories :
      (uid : ℕ) (fresh total now : ℤ) (db : Db)
      → (view (store_donate sql uid fresh total now db).1).histories ≡ (view db).histories
  unfolding store_donate db_is_user_donate_exists db_insert_user_donate_info write_info
  store_donate-histories uid fresh total now db =
      elim (Bool-cases (db_is_user_donate_exists sql uid db)) [
        | inr e ↦ ground (arith, laws.donate_insert [] (new_donor uid fresh now) db tt)
        | inl e ↦ elim (Option-cases (db_get_user_donate_info sql uid db)) [
          | inl e' ↦ ground arith
          | inr (info, e') ↦ ground (
            arith,
            laws.donates.update_law
                (λ r. record (info_row (record info { donate = total; lastdonatetime = now })) {
                  uid = r.uid;
                })
                (donate_of uid) db tt,
          )
        ]
      ]

  -- An order whose row is in the history is refused.
  used_order :
      (uid : ℕ) (money : ℤ) (order : GoString) (now later : ℤ) (db : Db) (row : HistoryRow)
      (rows : List HistoryRow)
      → IsPlain order
      → (view db).histories ≡ rows ++ row ∷ []
      → row.donateorderid ≡ order
      → db_inc_user_donate_info sql uid money order now later db ≡ (false, db)
  unfolding db_inc_user_donate_info db_is_user_donate_history_exists
  used_order uid money order now later db row rows plain at is =
      let counted = laws.histories.count_law (order_is order) db (plain, tt) in
      let mine = (str_eq_iff row.donateorderid order).1 is in
      let kept = keep-append_one (λ r. str_eq r.donateorderid order) rows row in
      let size =
        length-append (keep (λ r. str_eq r.donateorderid order) rows)
          (if str_eq row.donateorderid order then row ∷ [] else []) in
      ground (arith, counted, mine, kept, size)

  -- Whatever the outcome of an order, either the database is as it was, or every call on the
  -- database that it leaves with the same order id, for any user and sum, is refused and changes
  -- nothing; this includes an order that is answered with false because its sum could not be
  -- stored. It is assumed that the order id has no quote.
  pub db_inc_user_donate_info-once :
      (uid : ℕ) (money : ℤ) (order : GoString) (now later : ℤ) (db : Db)
      → IsPlain order
      → let db' = (db_inc_user_donate_info sql uid money order now later db).1 in
        (db' ≡ db)
        ⊎ ((uid' : ℕ) (money' now' later' : ℤ)
            → db_inc_user_donate_info sql uid' money' order now' later' db' ≡ (false, db'))
  unfolding db_inc_user_donate_info db_insert_user_donate_history
  db_inc_user_donate_info-once uid money order now later db plain =
      let row : HistoryRow = record {
        uid = uid;
        donate = money;
        donatetime = now;
        donateorderid = order;
      } in
      let inserted = laws.history_insert (order ∷ []) row db (plain, tt) in
      elim (Bool-cases (db_is_user_donate_history_exists sql order db)) [
        | inl e ↦ inl (ground arith)
        | inr e ↦ elim (Option-cases (sql.histories.insert (order ∷ []) row db)) [
          | inl e' ↦ inl (ground arith)
          | inr (mid, e') ↦
              let total = to_int32 (db_get_user_donate_history_sum sql uid mid) in
              let same = store_donate-histories uid (to_int32 money) total later mid in
              let run : (db_inc_user_donate_info sql uid money order now later db).1
                  ≡ (store_donate sql uid (to_int32 money) total later mid).1 =
                ground arith in
              let at : (view mid).histories ≡ (view db).histories ++ row ∷ [] = ground arith in
              inr (λ uid' money' now' later'.
                used_order uid' money' order now' later' _ row (view db).histories plain
                  (ap (λ d. (view d).histories) run ∙ same ∙ at) refl)
        ]
      ]
