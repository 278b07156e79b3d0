-- ===== src/Account/Names.antt =====
-- Role names: dbAddUserNameByUid and dbRemoveUserNameByUid of bmloginsvrapp/sql.go.
use bmservers.Prelude.{
  fun_ext, ◌≢◌, ◌||◌, ℕ, suc, ◌≤◌, ◌<◌, ◌≡◌, ◌⊎◌, inl, inr, refl, sym, ap, ◌∙◌, Bool, true, false,
  none, some, List, [], ◌∷◌, map, arith, GoString, keep, length, str_eq, str_eq_iff, ◌==◌,
  Bool-cases, Option-cases,
}
use bmservers.Sql.Rows.{Snapshot, AccountRow}
use bmservers.Sql.Engine.{Engine}
use bmservers.Sql.Laws.{Laws, IsPlain, IsRow, changed}
use bmservers.Account.{
  Slot, slot0, slot1, slot2, free_slot, slot_of, set_slot, name_is, uid_is, write_slot, clear_slot,
  db_user_name_exist, db_get_user_account_info_by_uid, db_add_user_name_by_uid,
  db_remove_user_name_by_uid,
}
use bmservers.Account.Reads.{uid-IsRow}

-- The row has the role name in one of its three columns.
abbrev pub bears : GoString → AccountRow → Bool
bears name r = str_eq r.name0 name || (str_eq r.name1 name || str_eq r.name2 name)

-- The row with a name in one of its columns.
abbrev pub row_after : Slot → GoString → AccountRow → AccountRow
row_after slot name r = record {
  uid = r.uid;
  account = r.account;
  password = r.password;
  name0 = elim slot [ slot0 ↦ name | slot1 ↦ r.name0 | slot2 ↦ r.name0 ];
  name1 = elim slot [ slot0 ↦ r.name1 | slot1 ↦ name | slot2 ↦ r.name1 ];
  name2 = elim slot [ slot0 ↦ r.name2 | slot1 ↦ r.name2 | slot2 ↦ name ];
  online = r.online;
  mail = r.mail;
}

-- The column is the first one that holds the text.
abbrev pub IsFirstSlot : GoString → Slot → AccountRow → Type 0
IsFirstSlot text slot0 r = r.name0 ≡ text
IsFirstSlot text slot1 r = (r.name0 ≢ text) × (r.name1 ≡ text)
IsFirstSlot text slot2 r = (r.name0 ≢ text) × (r.name1 ≢ text) × (r.name2 ≡ text)

-- All three columns hold a name.
abbrev pub IsFull : AccountRow → Type 0
IsFull r = (r.name0 ≢ []) × (r.name1 ≢ []) × (r.name2 ≢ [])

-- Every uid and every role name is that of one row at most.
pub record IsNamed (s : Snapshot) : Type 0 where
  pub one_uid : (uid : ℕ) → length (keep (λ r. r.uid == uid) s.accounts) ≤ 1
  pub one_name : (name : GoString) → 0 < length name → length (keep (bears name) s.accounts) ≤ 1

-- From `s` to `t` the name goes into the first empty slot of the account, which is now the only one
-- with the name.
pub record IsAdded (uid : ℕ) (name : GoString) (s t : Snapshot) : Type 0 where
  pub info : AccountRow
  pub slot : Slot
  pub free : IsFirstSlot [] slot info
  pub before : keep (λ r. r.uid == uid) s.accounts ≡ info ∷ []
  pub owner : keep (bears name) t.accounts ≡ row_after slot name info ∷ []
  pub added :
      t ≡ record s { accounts = changed (row_after slot name) (λ r. r.uid == uid) s.accounts }

set_slot-row_after :
    (slot : Slot) (name : GoString) (r : AccountRow) → set_slot slot name r ≡ row_after slot name r
set_slot-row_after slot0 name r = refl
set_slot-row_after slot1 name r = refl
set_slot-row_after slot2 name r = refl

set_slot-same : (slot : Slot) (name : GoString) → set_slot slot name ≡ row_after slot name
set_slot-same slot name = fun_ext (set_slot-row_after slot name)

empty_text : (s : GoString) → (length s == 0) ≡ true → s ≡ []
empty_text [] e = refl
empty_text (c ∷ s) e = absurd (ground arith)

some_text : (s : GoString) → (length s == 0) ≡ false → s ≢ []
some_text s e same = ground (arith, ap length same)

other_text : (s t : GoString) → str_eq s t ≡ false → s ≢ t
other_text s t e same = ground (arith, (str_eq_iff s t).1 same)

-- What the tests of the columns find.
free_slot-IsFirstSlot :
    (r : AccountRow) (slot : Slot) → free_slot r ≡ some slot → IsFirstSlot [] slot r
free_slot-IsFirstSlot r slot0 e = empty_text r.name0 (ground arith)
free_slot-IsFirstSlot r slot1 e =
    (some_text r.name0 (ground arith), empty_text r.name1 (ground arith))
free_slot-IsFirstSlot r slot2 e = (
  some_text r.name0 (ground arith),
  some_text r.name1 (ground arith),
  empty_text r.name2 (ground arith),
)

free_slot-IsFull : (r : AccountRow) → free_slot r ≡ none → IsFull r
free_slot-IsFull r e = (
  some_text r.name0 (ground arith),
  some_text r.name1 (ground arith),
  some_text r.name2 (ground arith),
)

slot_of-IsFirstSlot :
    (r : AccountRow) (name : GoString) (slot : Slot)
    → slot_of r name ≡ some slot
    → IsFirstSlot name slot r
slot_of-IsFirstSlot r name slot0 e = (str_eq_iff r.name0 name).0 (ground arith)
slot_of-IsFirstSlot r name slot1 e =
    (other_text r.name0 name (ground arith), (str_eq_iff r.name1 name).0 (ground arith))
slot_of-IsFirstSlot r name slot2 e = (
  other_text r.name0 name (ground arith),
  other_text r.name1 name (ground arith),
  (str_eq_iff r.name2 name).0 (ground arith),
)

bears-set_slot :
    (slot : Slot) (name : GoString) (r : AccountRow) → bears name (set_slot slot name r) ≡ true
bears-set_slot slot0 name r = ground (arith, (str_eq_iff name name).1 refl)
bears-set_slot slot1 name r = ground (arith, (str_eq_iff name name).1 refl)
bears-set_slot slot2 name r = ground (arith, (str_eq_iff name name).1 refl)

-- Writing a name gives no row another name.
set_slot-other :
    (slot : Slot) (name n : GoString) (r : AccountRow)
    → str_eq name n ≡ false
    → bears n r ≡ false
    → bears n (set_slot slot name r) ≡ false
set_slot-other slot0 name n r h k = ground arith
set_slot-other slot1 name n r h k = ground arith
set_slot-other slot2 name n r h k = ground arith

-- An update that gives no row the property does not raise the number of rows that have it.
length-keep-changed :
    (f : AccountRow → AccountRow) (p q : AccountRow → Bool) (xs : List AccountRow)
    → ((x : AccountRow) → q x ≡ false → q (f x) ≡ false)
    → length (keep q (changed f p xs)) ≤ length (keep q xs)
length-keep-changed f p q [] h = omega arith
length-keep-changed f p q (x ∷ xs) h = ground (arith, h x, length-keep-changed f p q xs h)

length-map : (f : AccountRow → AccountRow) (xs : List AccountRow) → length (map f xs) ≡ length xs
length-map f [] = refl
length-map f (x ∷ xs) = ap suc (length-map f xs)

-- If the update gives its rows a property that no row had, exactly they have it.
keep-changed_new :
    (f : AccountRow → AccountRow) (p q : AccountRow → Bool) (xs : List AccountRow)
    → ((x : AccountRow) → q (f x) ≡ true)
    → keep q xs ≡ []
    → keep q (changed f p xs) ≡ map f (keep p xs)
keep-changed_new f p q [] h e = refl
keep-changed_new f p q (x ∷ xs) h e = elim (Bool-cases (q x)) [
  | inl bad ↦ absurd (ground arith)
  | inr good ↦
      let rest = keep-changed_new f p q xs h (ground arith) in
      elim (Bool-cases (p x)) [
        | inl here ↦ rw (here, h x, rest) refl
        | inr other ↦ rw (other, good, rest) refl
      ]
]

set_slot-uid : (slot : Slot) (name : GoString) (r : AccountRow) → (set_slot slot name r).uid ≡ r.uid
set_slot-uid slot0 name r = refl
set_slot-uid slot1 name r = refl
set_slot-uid slot2 name r = refl

only_row : (x : AccountRow) (xs : List AccountRow) → IsRow x xs → length xs ≤ 1 → xs ≡ x ∷ []
only_row x [] h k = elim h [ ]
only_row x (y ∷ []) (inl e) k = ap (λ z. z ∷ []) (sym e)
only_row x (y ∷ []) (inr h) k = elim h [ ]
only_row x (y ∷ z ∷ xs) h k = absurd (omega arith)

-- Writing a name that no row has, or clearing a slot, keeps names and uids unique.
changed-IsNamed :
    (slot : Slot) (uid : ℕ) (name : GoString) (s : Snapshot)
    → ((0 < length name) → keep (bears name) s.accounts ≡ [])
    → IsNamed s
    → IsNamed (record s { accounts = changed (set_slot slot name) (λ r. r.uid == uid) s.accounts })
changed-IsNamed slot uid name s fresh named = record {
  one_uid = λ u.
      let same =
        length-keep-changed (set_slot slot name) (λ r. r.uid == uid) (λ r. r.uid == u) s.accounts
          (λ x h. rw (set_slot-uid slot name x) h) in
      omega (arith, same, named.one_uid u);
  one_name = λ n long. elim (Bool-cases (str_eq name n)) [
    | inr other ↦ omega (
      arith,
      length-keep-changed (set_slot slot name) (λ r. r.uid == uid) (bears n) s.accounts
          (λ x h. set_slot-other slot name n x other h),
      named.one_name n long,
    )
    | inl here ↦
        let same = (str_eq_iff name n).0 here in
        let new =
          keep-changed_new (set_slot slot name) (λ r. r.uid == uid) (bears name) s.accounts
            (bears-set_slot slot name) (fresh (rw same long)) in
        rw (← same, new, length-map (set_slot slot name) _) (named.one_uid uid)
  ];
}

module _ {Db : Type 0} {sql : Engine Db} {view : Db → Snapshot} (laws : Laws sql view) where
  -- What a successful call has found and done.
  add-steps :
      (uid : ℕ) (name : GoString) (db db' : Db)
      → IsPlain name
      → db_add_user_name_by_uid sql uid name db ≡ (true, db')
      → (info : AccountRow) × (db_get_user_account_info_by_uid sql uid db ≡ some info)
        × (keep (bears name) (view db).accounts ≡ [])
        × (write_slot sql (free_slot info) name (uid_is uid) db ≡ (true, db'))
  unfolding db_add_user_name_by_uid db_user_name_exist
  add-steps uid name db db' plain h =
      let first = laws.accounts.first_law (name_is name) db (plain, tt) in
      elim (Option-cases (db_get_user_account_info_by_uid sql uid db)) [
        | inl e ↦ absurd (ground arith)
        | inr (info, e) ↦ (info, e, ground arith, ground arith)
      ]

  write_slot-changed :
      (slot : Slot) (uid : ℕ) (name : GoString) (db db' : Db)
      → IsPlain name
      → write_slot sql (some slot) name (uid_is uid) db ≡ (true, db')
      → view db' ≡ record (view db) {
        accounts = changed (set_slot slot name) (λ r. r.uid == uid) (view db).accounts;
      }
  unfolding write_slot
  write_slot-changed slot uid name db db' plain h =
      let written =
        laws.accounts.update_law (set_slot slot name) (record (uid_is uid) { spliced = name ∷ [] })
          db (plain, tt) in
      ground arith

  write_slot-full :
      (uid : ℕ) (name : GoString) (db db' : Db)
      → write_slot sql none name (uid_is uid) db ≡ (true, db')
      → db ≡ db'
  unfolding write_slot
  write_slot-full uid name db db' h = ap (λ r. r.1) h

  -- In a database in which every role name and every uid is that of one row at most: if
  -- dbAddUserNameByUid returns true, then that is still so; the name was no row's before; and either
  -- all three slots of the account were taken and nothing has changed, or the first empty slot of
  -- the account has it now, no other row has it, and nothing else has changed. It is assumed that
  -- the name has no quote.
  pub db_add_user_name_by_uid-IsAdded :
      (uid : ℕ) (name : GoString) (db db' : Db)
      → IsPlain name
      → IsNamed (view db)
      → db_add_user_name_by_uid sql uid name db ≡ (true, db')
      → IsNamed (view db')
        × (keep (bears name) (view db).accounts ≡ [])
        × (((info : AccountRow) × (keep (λ r. r.uid == uid) (view db).accounts ≡ info ∷ [])
              × IsFull info
              × (db ≡ db'))
            ⊎ IsAdded uid name (view db) (view db'))
  db_add_user_name_by_uid-IsAdded uid name db db' plain named h =
      let (info, read, fresh, wrote) = add-steps uid name db db' plain h in
      let only = only_row info _ (uid-IsRow laws uid db info read) (named.one_uid uid) in
      elim (Option-cases (free_slot info)) [
        | inl full ↦
            let same = write_slot-full uid name db db' (rw full at wrote) in
            (rw (← same) named, fresh, inl (info, only, free_slot-IsFull info full, same))
        | inr (slot, free) ↦
            let changes = write_slot-changed slot uid name db db' plain (rw free at wrote) in
            (
              rw changes (changed-IsNamed slot uid name (view db) (λ _. fresh) named),
              fresh,
              inr (record {
                info = info;
                slot = slot;
                free = free_slot-IsFirstSlot info slot free;
                before = only;
                owner = rw changes (
                    keep-changed_new (set_slot slot name) (λ r. r.uid == uid) (bears name)
                      (view db).accounts (bears-set_slot slot name) fresh
                    ∙ ap (map (set_slot slot name)) only
                    ∙ ap (λ r. r ∷ []) (set_slot-row_after slot name info));
                added = rw (← set_slot-same slot name) changes;
              }),
            )
      ]

  -- In a database in which every role name and every uid is that of one row at most: if
  -- dbRemoveUserNameByUid returns true, then that is still so, the account had the name, and the
  -- first slot that it stood in is emptied and nothing else has changed.
  pub db_remove_user_name_by_uid-IsRemoved :
      (uid : ℕ) (name : GoString) (db db' : Db)
      → IsNamed (view db)
      → db_remove_user_name_by_uid sql uid name db ≡ (true, db')
      → IsNamed (view db')
        × (info : AccountRow) × (slot : Slot) × IsFirstSlot name slot info
        × (keep (λ r. r.uid == uid) (view db).accounts ≡ info ∷ [])
        × (view db' ≡ record (view db) {
          accounts = changed (row_after slot []) (λ r. r.uid == uid) (view db).accounts;
        })
  unfolding db_remove_user_name_by_uid clear_slot
  db_remove_user_name_by_uid-IsRemoved uid name db db' named h =
      elim (Option-cases (db_get_user_account_info_by_uid sql uid db)) [
        | inl e ↦ absurd (ground arith)
        | inr (info, read) ↦ elim (Option-cases (slot_of info name)) [
          | inl gone ↦ absurd (ground arith)
          | inr (slot, at) ↦
              let cleared = laws.accounts.update_law (set_slot slot []) (uid_is uid) db tt in
              let changes : view db' ≡ record (view db) {
                accounts = changed (set_slot slot []) (λ r. r.uid == uid) (view db).accounts;
              } =
                ground arith in
              (
                rw changes
                    (changed-IsNamed slot uid [] (view db) (λ z. absurd (omega arith)) named),
                info,
                slot,
                slot_of-IsFirstSlot info name slot at,
                only_row info _ (uid-IsRow laws uid db info read) (named.one_uid uid),
                rw (← set_slot-same slot []) changes,
              )
        ]
      ]
