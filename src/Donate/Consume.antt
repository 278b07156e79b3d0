-- ===== src/Donate/Consume.antt =====
-- dbOnConsumeDonate: what a purchase does to the database and what it answers.
use bmservers.Prelude.{
  ℕ, ◌-◌, ◌^◌, ◌≡◌, refl, ap, ◌∙◌, true, false, ◌≢◌, none, some, [], ◌∷◌, ◌++◌, arith, ◌==◌,
  GoString, keep, keep-append, inl, inr, Option-cases,
}
use bmservers.Prelude.Int.{
  ℤ, ltb_ℤ, pos, negsuc, ◌≤ℤ◌, ltb_ℤ, ◌+ℤ◌, ◌-ℤ◌, to_int64, to_int64-eq, to_uint64, to_uint64-pos,
  sum_of, sum_of-append, int_laws,
}
use bmservers.Sql.Rows.{Snapshot, DonateRow, ConsumeRow}
use bmservers.Sql.Engine.{Engine}
use bmservers.Sql.Laws.{Laws, IsPlain, IsRow}
use bmservers.Donate.Reads.{info-IsRow}
use bmservers.Donate.{
  UserDonateInfo, scan_info, consume_of, db_get_user_donate_info, db_get_user_donate_consume_sum,
  db_insert_user_donate_consume, consume_from, db_on_consume_donate,
}

-- What a user has spent.
abbrev pub spent : ℕ → Snapshot → ℤ
spent uid s = sum_of (λ r. r.cost) (keep (λ r. r.uid == uid) s.consumes)

-- The row of a purchase.
abbrev pub purchase : ℕ → GoString → ℤ → ℤ → ℤ → ConsumeRow
purchase uid name itemid cost now = record {
  uid = uid;
  name = name;
  itemid = pos (to_uint64 itemid);
  cost = cost;
  buytime = pos (to_uint64 now);
}

-- From `s` to `t` the user buys for `cost` and `left` remains of a donation that stands in `s`.
pub record IsPurchase (uid : ℕ) (bought : ConsumeRow) (left : ℤ) (s t : Snapshot) : Type 0 where
  pub donation : DonateRow
  pub donated : IsRow donation (keep (λ r. r.uid == uid) s.donates)
  pub balance : left +ℤ spent uid t ≡ (scan_info uid donation).donate
  pub covered : pos 0 ≤ℤ left
  pub added : t ≡ record s { consumes = s.consumes ++ bought ∷ [] }

-- The sum of a user's costs grows by the cost of a new row of theirs.
spent-append :
    (uid : ℕ) (r : ConsumeRow) (s : Snapshot)
    → r.uid ≡ uid
    → spent uid (record s { consumes = s.consumes ++ r ∷ [] }) ≡ spent uid s +ℤ r.cost
spent-append uid r s e =
    let mine : (r.uid == uid) ≡ true = ground arith in
    rw (keep-append (λ r. r.uid == uid) s.consumes (r ∷ []), mine)
      (rw
        (sum_of-append (λ (r : ConsumeRow). r.cost) (keep (λ r. r.uid == uid) s.consumes) (r ∷ []))
        (omega int_laws))

-- A donation that Scan reads is an `int32`.
scan_info-bounds :
    (uid : ℕ) (r : DonateRow)
    → ((scan_info uid r).donate ≤ℤ pos (2 ^ 31)) × (negsuc (2 ^ 31) ≤ℤ (scan_info uid r).donate)
scan_info-bounds uid r = ground arith

-- The cost of a purchase is stored as it is.
stored_cost : (c : ℤ) → pos 0 ≤ℤ c → c ≤ℤ pos (2 ^ 63 - 1) → pos (to_uint64 c) ≡ c
stored_cost (pos n) h k = ap pos (to_uint64-pos n (omega arith))
stored_cost (negsuc n) h k = absurd (omega arith)

-- Within these bounds no operation of a purchase wraps.
exact_balance :
    (d s c : ℤ)
    → d ≤ℤ pos (2 ^ 31)
    → negsuc (2 ^ 31) ≤ℤ d
    → pos 0 ≤ℤ s
    → s ≤ℤ pos (2 ^ 62)
    → pos 0 ≤ℤ c
    → ltb_ℤ (to_int64 (d -ℤ s)) c ≡ false
    → (to_int64 (to_int64 (d -ℤ s) -ℤ c) +ℤ (s +ℤ c) ≡ d)
      × (pos 0 ≤ℤ to_int64 (to_int64 (d -ℤ s) -ℤ c))
exact_balance d s c h₁ h₂ h₃ h₄ h₅ h₆ =
    let first : to_int64 (d -ℤ s) ≡ d -ℤ s =
      to_int64-eq (d -ℤ s) (omega int_laws) (omega int_laws) in
    let enough : c ≤ℤ d -ℤ s = ground (arith, first) in
    let second : to_int64 (d -ℤ s -ℤ c) ≡ d -ℤ s -ℤ c =
      to_int64-eq (d -ℤ s -ℤ c) (omega int_laws) (omega int_laws) in
    rw (first, second) (omega int_laws, omega int_laws)

module _ {Db : Type 0} {sql : Engine Db} {view : Db → Snapshot} (laws : Laws sql view) where
  sum-spent :
      (uid : ℕ) (db : Db)
      → sql.consumes.sum (λ r. r.cost) (consume_of uid) db ≢ none
      → db_get_user_donate_consume_sum sql uid db ≡ spent uid (view db)
  unfolding db_get_user_donate_consume_sum
  sum-spent uid db h = ground (arith, laws.consumes.sum_law (λ r. r.cost) (consume_of uid) db tt)

  consume_from-ok :
      (info : UserDonateInfo) (uid : ℕ) (name : GoString) (itemid cost now left : ℤ) (db db' : Db)
      → IsPlain name
      → consume_from sql info uid name itemid cost now db ≡ ((true, left), db')
      → let before = to_int64 (info.donate -ℤ db_get_user_donate_consume_sum sql uid db) in
        (ltb_ℤ before cost ≡ false)
        × (left ≡ to_int64 (before -ℤ cost))
        × (view db' ≡ record (view db) {
          consumes =
              (view db).consumes ++ (purchase uid name itemid (pos (to_uint64 cost)) now) ∷ [];
        })
  unfolding consume_from db_insert_user_donate_consume
  consume_from-ok info uid name itemid cost now left db db' plain h = ground (
    arith,
    laws.consume_insert (name ∷ []) (purchase uid name itemid (pos (to_uint64 cost)) now) db
        (plain, tt),
  )

  on_consume-info :
      (uid : ℕ) (name : GoString) (itemid cost now left : ℤ) (db db' : Db)
      → db_on_consume_donate sql uid name itemid cost now db ≡ ((true, left), db')
      → (pos 0 ≤ℤ cost)
        × (info : UserDonateInfo) × (db_get_user_donate_info sql uid db ≡ some info)
        × (consume_from sql info uid name itemid cost now db ≡ ((true, left), db'))
  unfolding db_on_consume_donate
  on_consume-info uid name itemid cost now left db db' h =
      elim (Option-cases (db_get_user_donate_info sql uid db)) [
        | inl e ↦ absurd (ground arith)
        | inr (info, e) ↦ (ground arith, info, e, ground arith)
      ]

  -- A purchase that succeeds adds exactly the row of its cost to what the user has spent, changes
  -- nothing else, was covered by a donation that stands in the database, and answers what is left
  -- of it. It is assumed that the cost is an int, that what the user has spent before is between 0
  -- and 2 ^ 62 and can be read, and that the name has no quote.
  pub db_on_consume_donate-IsPurchase :
      (uid : ℕ) (name : GoString) (itemid cost now left : ℤ) (db db' : Db)
      → IsPlain name
      → cost ≤ℤ pos (2 ^ 63 - 1)
      → pos 0 ≤ℤ spent uid (view db)
      → spent uid (view db) ≤ℤ pos (2 ^ 62)
      → sql.consumes.sum (λ r. r.cost) (consume_of uid) db ≢ none
      → db_on_consume_donate sql uid name itemid cost now db ≡ ((true, left), db')
      → IsPurchase uid (purchase uid name itemid cost now) left (view db) (view db')
  db_on_consume_donate-IsPurchase uid name itemid cost now left db db' plain c64 low high reads h =
      let (c0, info, e, run) = on_consume-info uid name itemid cost now left db db' h in
      let (d, e', there) = info-IsRow laws uid db info e in
      let (room, e'', stored) =
        consume_from-ok info uid name itemid cost now left db db' plain run in
      let (below, above) = scan_info-bounds uid d in
      let reading = sum-spent uid db reads in
      let exact =
        exact_balance (scan_info uid d).donate (spent uid (view db)) cost below above low high c0
          (rw (e', reading) at room) in
      let left' : left
          ≡ to_int64 (to_int64 ((scan_info uid d).donate -ℤ spent uid (view db)) -ℤ cost) =
        cc (e'', e', reading) in
      let bought =
        stored
        ∙ ap
            (λ c. record (view db) {
              consumes = (view db).consumes ++ (purchase uid name itemid c now) ∷ [];
            })
            (stored_cost cost c0 c64) in
      record {
        donation = d;
        donated = there;
        balance =
            rw (bought, spent-append uid (purchase uid name itemid cost now) (view db) refl, left')
              exact.0;
        covered = rw left' exact.1;
        added = bought;
      }
