-- ===== src/Donate/Ledger.antt =====
-- Orders and donations together: userdonate and userdonatehistory of bmloginsvrapp/sql.go.
use mathlib.Core.List.{append-nil}
use bmservers.Prelude.{
  ℕ, ◌≤◌, ◌≡◌, ◌≢◌, ◌⊎◌, inl, inr, refl, ap, ◌∙◌, Bool, true, none, List, [], ◌∷◌, ◌++◌, arith,
  GoString, keep, length, Bool-cases, str_eq, str_eq_iff, ◌==◌, if◌then◌else◌,
}
use bmservers.Prelude.Int.{ℤ, pos, to_int32, to_uint64, sum_of, int_laws}
use bmservers.Sql.Rows.{Snapshot, HistoryRow, DonateRow}
use bmservers.Sql.Engine.{Engine}
use bmservers.Sql.Laws.{Laws, IsPlain, changed}
use bmservers.Sql.Filters.{keep-changed, changed-keep_disjoint, IsRow-keep, keep-append_one}
use bmservers.Donate.{
  UserDonateInfo, info_row, history_of, db_get_user_donate_history_sum, db_inc_user_donate_info,
}
use bmservers.Donate.Orders.{donated, new_donor, IsStored, store_donate-IsStored, order_written}

-- A user's rows in userdonate, and their orders: either none of both, or one row that holds the
-- sum of the orders, in the form in which the statements write it.
abbrev pub IsBalanced : List DonateRow → List HistoryRow → Type 0
IsBalanced rows orders =
    ((rows ≡ []) × (orders ≡ []))
    ⊎ ((r : DonateRow) × (rows ≡ r ∷ [])
        × (r.donate ≡ pos (to_uint64 (to_int32 (sum_of (λ o. o.donate) orders)))))

pub record IsLedger (s : Snapshot) : Type 0 where
  pub users :
      (uid : ℕ)
      → IsBalanced (keep (λ r. r.uid == uid) s.donates) (keep (λ r. r.uid == uid) s.histories)
  -- An order is recorded once.
  pub one_order :
      (order : GoString) → length (keep (λ r. str_eq r.donateorderid order) s.histories) ≤ 1

-- The first order of a user.
IsBalanced-first :
    (rows : List DonateRow) (orders : List HistoryRow) (h : HistoryRow) (d : DonateRow)
    → IsBalanced rows orders
    → rows ≡ []
    → d.donate ≡ pos (to_uint64 (to_int32 h.donate))
    → IsBalanced (rows ++ d ∷ []) (orders ++ h ∷ [])
IsBalanced-first rows orders h d (inl (e, e')) _ q =
    rw (e, e') (inr (d, refl, q ∙ ap (λ x. pos (to_uint64 (to_int32 x))) (omega int_laws)))
IsBalanced-first rows orders h d (inr (r, e, _)) gone q = cc

-- A later order.
IsBalanced-later :
    (f : DonateRow → DonateRow) (p : DonateRow → Bool) (rows : List DonateRow)
    (orders orders' : List HistoryRow)
    → IsBalanced rows orders
    → rows ≢ []
    → ((r : DonateRow) → rows ≡ r ∷ [] → p r ≡ true)
    → ((r : DonateRow) → (f r).donate ≡ pos (to_uint64 (to_int32 (sum_of (λ o. o.donate) orders'))))
    → IsBalanced (changed f p rows) orders'
IsBalanced-later f p rows orders orders' (inl (e, _)) some_row all q = absurd (some_row e)
IsBalanced-later f p rows orders orders' (inr (r, e, _)) some_row all q =
    rw (e, all r e) (inr (f r, refl, q r))

module _ (s : Snapshot) (h : HistoryRow) (ledger : IsLedger s) where
  -- The snapshot after the order is written to the history.
  abbrev written : Snapshot
  written = record s { histories = s.histories ++ h ∷ [] }

  orders_split :
      (uid : ℕ)
      → keep (λ r. r.uid == uid) written.histories
        ≡ keep (λ r. r.uid == uid) s.histories ++ (if h.uid == uid then h ∷ [] else [])
  orders_split uid = keep-append_one (λ r. r.uid == uid) s.histories h

  written-one_order :
      keep (λ r. str_eq r.donateorderid h.donateorderid) s.histories ≡ []
      → (order : GoString) → length (keep (λ r. str_eq r.donateorderid order) written.histories) ≤ 1
  written-one_order fresh order =
      rw (keep-append_one (λ r. str_eq r.donateorderid order) s.histories h)
        (elim (Bool-cases (str_eq h.donateorderid order)) [
          | inl e ↦
              let same = (str_eq_iff h.donateorderid order).0 e in
              let gone : keep (λ r. str_eq r.donateorderid order) s.histories ≡ [] =
                rw (← same) fresh in
              rw (e, gone) (omega arith)
          | inr e ↦ rw (e, append-nil _) (ledger.one_order order)
        ])

  new_donor-IsBalanced :
      (now : ℤ) (uid : ℕ)
      → keep (λ r. r.uid == h.uid) s.donates ≡ []
      → IsBalanced
          (keep (λ r. r.uid == uid) (s.donates ++ new_donor h.uid (to_int32 h.donate) now ∷ []))
          (keep (λ r. r.uid == uid) written.histories)
  new_donor-IsBalanced now uid gone =
      rw
        (
          keep-append_one (λ r. r.uid == uid) s.donates (new_donor h.uid (to_int32 h.donate) now),
          orders_split uid,
        )
        (elim (Bool-cases (h.uid == uid)) [
          | inl e ↦
              let same : h.uid ≡ uid = ground arith in
              rw e (
                IsBalanced-first _ _ h (new_donor h.uid (to_int32 h.donate) now) (ledger.users uid)
                  (rw same at gone) refl)
          | inr e ↦ rw (e, append-nil _, append-nil _) (ledger.users uid)
        ])

  old_donor-IsBalanced :
      (info : UserDonateInfo) (uid : ℕ)
      → keep (λ r. r.uid == h.uid) s.donates ≢ []
      → info.donate ≡ to_int32 (donated h.uid written)
      → IsBalanced
          (keep
            (λ r. r.uid == uid)
            (changed (λ r. record (info_row info) { uid = r.uid }) (λ r. r.uid == h.uid) s.donates))
          (keep (λ r. r.uid == uid) written.histories)
  old_donor-IsBalanced info uid there e =
      rw
        (keep-changed (λ (r : DonateRow). record (info_row info) { uid = r.uid })
          (λ r. r.uid == h.uid) (λ r. r.uid == uid) s.donates (λ r. refl))
        (elim (Bool-cases (h.uid == uid)) [
          | inl e' ↦
              let same : uid ≡ h.uid = ground arith in
              rw same (
                IsBalanced-later (λ r. record (info_row info) { uid = r.uid }) (λ r. r.uid == h.uid)
                  _ _ _ (ledger.users h.uid) there
                  (λ r er. IsRow-keep (λ r. r.uid == h.uid) r s.donates (rw er (inl refl)))
                  (λ r. ap (λ x. pos (to_uint64 x)) e))
          | inr e' ↦
              rw
                (
                  changed-keep_disjoint (λ r. record (info_row info) { uid = r.uid })
                      (λ r. r.uid == h.uid) (λ r. r.uid == uid) s.donates (λ x hx. ground arith),
                  orders_split uid,
                  e',
                  append-nil _,
                )
                (ledger.users uid)
        ])

  -- Storing the donation restores the invariant.
  stored-IsLedger :
      (now : ℤ) (t : Snapshot)
      → keep (λ r. str_eq r.donateorderid h.donateorderid) s.histories ≡ []
      → IsStored h.uid (to_int32 h.donate) (to_int32 (donated h.uid written)) now written t
      → IsLedger t
  stored-IsLedger now t fresh (inl (gone, e)) = rw e (record {
    users = λ uid. new_donor-IsBalanced now uid gone;
    one_order = written-one_order fresh;
  })
  stored-IsLedger now t fresh (inr (info, there, e)) = rw e (record {
    users = λ uid.
        old_donor-IsBalanced
          (record info { donate = to_int32 (donated h.uid written); lastdonatetime = now }) uid
          there refl;
    one_order = written-one_order fresh;
  })

module _ {Db : Type 0} {sql : Engine Db} {view : Db → Snapshot} (laws : Laws sql view) where
  sum-donated :
      (uid : ℕ) (db : Db)
      → sql.histories.sum (λ r. r.donate) (history_of uid) db ≢ none
      → db_get_user_donate_history_sum sql uid db ≡ donated uid (view db)
  unfolding db_get_user_donate_history_sum
  sum-donated uid db h =
      ground (arith, laws.histories.sum_law (λ r. r.donate) (history_of uid) db tt)

  -- In a database in which each order id stands once, and each user has neither row nor order or one
  -- row that holds the sum of their orders, as an int32 written as a uint64: an order that is
  -- accepted was new, is added to the history, and leaves the database so. It is assumed that the
  -- sum of the user's orders can be read, and that the order id has no quote.
  pub db_inc_user_donate_info-IsLedger :
      (uid : ℕ) (money : ℤ) (order : GoString) (now later : ℤ) (db db' : Db)
      → IsPlain order
      → ((d : Db) → sql.histories.sum (λ r. r.donate) (history_of uid) d ≢ none)
      → IsLedger (view db)
      → db_inc_user_donate_info sql uid money order now later db ≡ (true, db')
      → IsLedger (view db')
        × (keep (λ r. str_eq r.donateorderid order) (view db).histories ≡ [])
        × ((view db').histories
            ≡ (view db).histories
              ++ (record { uid = uid; donate = money; donatetime = now; donateorderid = order })
                ∷ [])
  db_inc_user_donate_info-IsLedger uid money order now later db db' plain reads ledger h =
      let row : HistoryRow = record {
        uid = uid;
        donate = money;
        donatetime = now;
        donateorderid = order;
      } in
      let (fresh, mid, at, rest) = order_written laws uid money order now later db db' plain h in
      let stored =
        store_donate-IsStored laws uid (to_int32 money)
          (to_int32 (db_get_user_donate_history_sum sql uid mid)) later mid db' rest in
      let stored' : IsStored uid (to_int32 money)
          (to_int32 (donated uid (written (view db) row ledger))) later
          (written (view db) row ledger) (view db') =
        rw (sum-donated uid mid (reads mid), at) at stored in
      (stored-IsLedger (view db) row ledger later (view db') fresh stored', fresh, ground arith)
