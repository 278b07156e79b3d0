-- ===== src/Web/Cookie.antt =====
-- The cookie of the web server in bmloginsvrapp/router.go: SaveWebUser and GetWebUser.
use bmservers.Prelude.{
  ℕ, ◌<◌, ◌^◌, ◌%◌, ◌≡◌, ◌≢◌, inl, inr, refl, true, false, some, List, [], ◌∷◌, ◌++◌, arith,
  GoString, str_eq_iff, ◌==◌, Bool-cases,
}
use bmservers.Prelude.Int.{pos, to_uint32}
use bmservers.Prelude.Split.{split, has_byte, split-cons, split-append, split-absent}
use bmservers.Prelude.Decimal.{itoa, digits, digits-absent, atoi-digits}
use bmservers.Sql.Engine.{Engine}
use bmservers.Web.{
  WebUser, guest, user_of_uid, get_web_user, db_web_user_get_by_uid, Saved, save_web_user,
  max_age_of, named_user,
}

-- The parts of the cookie of a user.
cookie_parts :
    (uid : ℕ) (name : GoString) → split 58 (digits uid ++ 58 ∷ name) ≡ digits uid ∷ split 58 name
cookie_parts uid name = split-append 58 (digits uid) name (digits-absent 58 uid refl)

-- A text with a separator has two parts at least.
parts_of :
    (sep : ℕ) (s : GoString)
    → has_byte sep s ≡ true
    → (a : GoString) × (b : GoString) × (rest : List GoString) × (split sep s ≡ a ∷ b ∷ rest)
parts_of sep [] h = absurd (ground arith)
parts_of sep (c ∷ s) h = elim (Bool-cases (c == sep)) [
  | inl e ↦ let (p, ps, more) = split-cons sep s in ([], p, ps, rw (e, more) refl)
  | inr e ↦
      let (a, b, rest, more) = parts_of sep s (ground arith) in (c ∷ a, b, rest, rw (e, more) refl)
]

module _ {Db : Type 0} (sql : Engine Db) where
  user_of_uid-pos :
      (uid : ℕ) (name : GoString) (db : Db)
      → uid ≢ 0
      → uid < 2 ^ 32
      → user_of_uid sql (some (pos uid)) name db
        ≡ named_user name (db_web_user_get_by_uid sql uid db)
  unfolding to_uint32
  user_of_uid-pos uid name db h fits =
      let same : uid % 2 ^ 32 ≡ uid = omega arith in
      let positive : (uid == 0) ≡ false = ground arith in rw (positive, same) refl

  -- A user whose name has no colon and whose uid is a positive uint32: if the database has the user
  -- under that uid, then the cookie that SaveWebUser writes is written, and GetWebUser reads the
  -- user back from it.
  pub get_web_user-save_web_user :
      (user : WebUser) (save_days : ℕ) (db : Db)
      → user.uid ≢ 0
      → user.uid < 2 ^ 32
      → has_byte 58 user.user_name ≡ false
      → db_web_user_get_by_uid sql user.uid db ≡ some user
      → (saved : Saved) × (save_web_user false user save_days ≡ some saved)
        × (get_web_user sql (some (some saved.login_key)) db ≡ user)
  unfolding save_web_user get_web_user
  get_web_user-save_web_user user save_days db h fits plain stored = (
    record {
      login_key = itoa (pos user.uid) ++ 58 ∷ user.user_name;
      max_age = max_age_of save_days;
    },
    ground arith,
    rw
        (
          cookie_parts user.uid user.user_name,
          split-absent 58 user.user_name plain,
          atoi-digits user.uid (omega arith),
          user_of_uid-pos user.uid user.user_name db h fits,
          stored,
          (str_eq_iff user.user_name user.user_name).1 refl,
        )
        refl,
  )

  -- Only a user with a uid is saved.
  save_web_user-uid :
      (user : WebUser) (save_days : ℕ) (saved : Saved)
      → save_web_user false user save_days ≡ some saved
      → user.uid ≢ 0
  unfolding save_web_user
  save_web_user-uid user save_days saved e zero_uid = absurd (ground arith)

  -- A saved session is read back.
  pub read_back :
      (user : WebUser) (save_days : ℕ) (db : Db) (saved : Saved)
      → user.uid < 2 ^ 32
      → has_byte 58 user.user_name ≡ false
      → save_web_user false user save_days ≡ some saved
      → db_web_user_get_by_uid sql user.uid db ≡ some user
      → get_web_user sql (some (some saved.login_key)) db ≡ user
  read_back user save_days db saved fits plain e stored =
      let (saved', e', back) =
        get_web_user-save_web_user user save_days db (save_web_user-uid user save_days saved e) fits
          plain stored in
      let same : saved ≡ saved' = ground arith in rw same back

  -- A user whose name has a colon is a guest again at the next request: the cookie that SaveWebUser
  -- writes is not read back, whatever the database holds.
  pub get_web_user-colon :
      (user : WebUser) (save_days : ℕ) (db : Db) (saved : Saved)
      → has_byte 58 user.user_name ≡ true
      → save_web_user false user save_days ≡ some saved
      → get_web_user sql (some (some saved.login_key)) db ≡ guest
  unfolding save_web_user get_web_user
  get_web_user-colon user save_days db saved h e =
      let (a, b, rest, parts) = parts_of 58 user.user_name h in
      let key : saved.login_key ≡ digits user.uid ++ 58 ∷ user.user_name = ground arith in
      rw (key, cookie_parts user.uid user.user_name, parts) refl
