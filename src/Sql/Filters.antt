-- ===== src/Sql/Filters.antt =====
-- How filters and updates of rows go together.
use bmservers.Prelude.{
  Bool-cases, suc, ◌≡◌, refl, inl, inr, Bool, true, false, List, [], ◌∷◌, ◌++◌, arith, keep, length,
  if◌then◌else◌, ap, ap₂, map, ◌≢◌,
}
use bmservers.Sql.Laws.{IsRow, changed, without}

module _ {A : Type 0} where
  -- A filter that an update does not disturb commutes with it.
  pub keep-changed :
      (f : A → A) (p q : A → Bool) (xs : List A)
      → ((x : A) → q (f x) ≡ q x)
      → keep q (changed f p xs) ≡ changed f p (keep q xs)
  keep-changed f p q [] h = refl
  keep-changed f p q (x ∷ xs) h = ground (arith, h x, keep-changed f p q xs h)

  -- Rows that the update does not name stay.
  pub changed-keep_disjoint :
      (f : A → A) (p q : A → Bool) (xs : List A)
      → ((x : A) → q x ≡ true → p x ≡ false)
      → changed f p (keep q xs) ≡ keep q xs
  changed-keep_disjoint f p q [] h = refl
  changed-keep_disjoint f p q (x ∷ xs) h = ground (arith, h x, changed-keep_disjoint f p q xs h)

  pub length-changed :
      (f : A → A) (p : A → Bool) (xs : List A) → length (changed f p xs) ≡ length xs
  length-changed f p [] = refl
  length-changed f p (x ∷ xs) = ap suc (length-changed f p xs)

  -- A row that the filter keeps passes it.
  pub IsRow-keep : (p : A → Bool) (x : A) (xs : List A) → IsRow x (keep p xs) → p x ≡ true
  IsRow-keep p x [] h = elim h [ ]
  IsRow-keep p x (y ∷ xs) h = ground (arith, IsRow-keep p x xs)

  pub IsRow-to_keep :
      (p : A → Bool) (x : A) (xs : List A) → IsRow x xs → p x ≡ true → IsRow x (keep p xs)
  IsRow-to_keep p x [] h e = elim h [ ]
  IsRow-to_keep p x (y ∷ xs) (inl same) e =
      let here : p y ≡ true = rw (← same) e in rw here (inl same)
  IsRow-to_keep p x (y ∷ xs) (inr h) e = elim (Bool-cases (p y)) [
    | inl here ↦ rw here (inr (IsRow-to_keep p x xs h e))
    | inr skip ↦ rw skip (IsRow-to_keep p x xs h e)
  ]

  -- After an update each row is what the update made of one that was there.
  pub IsRow-of_keep : (p : A → Bool) (x : A) (xs : List A) → IsRow x (keep p xs) → IsRow x xs
  IsRow-of_keep p x [] h = elim h [ ]
  IsRow-of_keep p x (y ∷ xs) h = ground (arith, IsRow-of_keep p x xs)

  pub IsRow-changed :
      (f : A → A) (p : A → Bool) (y : A) (xs : List A)
      → IsRow y (changed f p xs)
      → (x : A) × IsRow x xs × (y ≡ (if p x then f x else x))
  IsRow-changed f p y [] h = elim h [ ]
  IsRow-changed f p y (x ∷ xs) (inl e) = (x, inl refl, e)
  IsRow-changed f p y (x ∷ xs) (inr h) =
      let (z, there, e) = IsRow-changed f p y xs h in (z, inr there, e)

  -- A new row that the filter does not keep is not there for it.
  pub keep-append_one :
      (p : A → Bool) (xs : List A) (x : A)
      → keep p (xs ++ x ∷ []) ≡ keep p xs ++ (if p x then x ∷ [] else [])
  keep-append_one p [] x = refl
  keep-append_one p (y ∷ xs) x = ground (arith, keep-append_one p xs x)

  pub keep-without_disjoint :
      (p q : A → Bool) (xs : List A)
      → ((x : A) → q x ≡ true → p x ≡ false)
      → keep q (without p xs) ≡ keep q xs
  keep-without_disjoint p q [] h = refl
  keep-without_disjoint p q (x ∷ xs) h = ground (arith, h x, keep-without_disjoint p q xs h)

  pub keep-without_self : (p : A → Bool) (xs : List A) → keep p (without p xs) ≡ []
  keep-without_self p [] = refl
  keep-without_self p (x ∷ xs) = ground (arith, keep-without_self p xs)

  pub no_rows : (xs : List A) → 0 ≡ length xs → xs ≡ []
  no_rows [] h = refl
  no_rows (x ∷ xs) h = absurd (omega arith)

  pub some_row : (xs : List A) (x : A) → IsRow x xs → xs ≢ []
  some_row [] x h = elim h [ ]
  some_row (y ∷ xs) x h = λ e. cc

  -- An update of all the rows of a filter.
  pub changed-keep_all :
      (f : A → A) (p : A → Bool) (xs : List A) → changed f p (keep p xs) ≡ map f (keep p xs)
  changed-keep_all f p [] = refl
  changed-keep_all f p (x ∷ xs) = ground (arith, changed-keep_all f p xs)

  pub map-same : (f : A → A) (xs : List A) → ((x : A) → f x ≡ x) → map f xs ≡ xs
  map-same f [] h = refl
  map-same f (x ∷ xs) h = ap₂ (λ y ys. y ∷ ys) (h x) (map-same f xs h)
