-- ===== src/Prelude/Entries.antt =====
-- The entries of a Go map: lists without repetition, and what inserting and deleting keep.

use mathlib.Core.Path.{◌≡◌, refl, ap}
use mathlib.Core.Logic.{inl, inr}
use mathlib.Core.Bool.{Bool, true, false, ◌||◌}
use mathlib.Core.Option.{none, some}
use mathlib.Core.List.{List, [], ◌∷◌, ◌++◌, map}
use native.Mathlib.Omega.{arith}
use bmservers.Prelude.Tests.{Bool-cases}
use bmservers.Prelude.Lists.{any, keep, All}
use bmservers.Prelude.Assoc.{Eq, lookup, insert, erase}

module _ {K : Type 0} ⦃e : Eq K⦄ where
  -- The value is in the list.
  abbrev pub mem : K → List K → Bool
  mem x xs = any (λ y. e.beq y x) xs

  -- No value stands twice in the list.
  abbrev pub IsDistinct : List K → Type 0
  IsDistinct [] = Unit
  IsDistinct (x ∷ xs) = (mem x xs ≡ false) × IsDistinct xs

  pub mem-append : (x : K) (xs : List K) (y : K) → mem x (xs ++ y ∷ []) ≡ mem x xs || e.beq y x
  mem-append x [] y = ground arith
  mem-append x (z ∷ xs) y = ground (arith, mem-append x xs y)

  pub IsDistinct-append :
      (xs : List K) (y : K) → IsDistinct xs → mem y xs ≡ false → IsDistinct (xs ++ y ∷ [])
  IsDistinct-append [] y h new = (refl, tt)
  IsDistinct-append (x ∷ xs) y h new = (
    ground (arith, mem-append x xs y, e.beq_iff x y, e.beq_iff y x),
    IsDistinct-append xs y h.1 (ground arith),
  )

  pub mem-concat : (x : K) (xs ys : List K) → mem x (xs ++ ys) ≡ mem x xs || mem x ys
  mem-concat x [] ys = refl
  mem-concat x (z ∷ xs) ys = ground (arith, mem-concat x xs ys)

  -- A value in the middle of a list stands nowhere else.
  pub IsDistinct-middle :
      (xs : List K) (k : K) (ys : List K)
      → IsDistinct (xs ++ k ∷ ys)
      → (mem k xs ≡ false) × (mem k ys ≡ false) × IsDistinct (xs ++ ys)
  IsDistinct-middle [] k ys h = (refl, h.0, h.1)
  IsDistinct-middle (x ∷ xs) k ys h =
      let (before, behind, others) = IsDistinct-middle xs k ys h.1 in
      (
        ground (arith, mem-concat x xs (k ∷ ys), e.beq_iff x k, e.beq_iff k x),
        behind,
        (ground (arith, mem-concat x xs (k ∷ ys), mem-concat x xs ys), others),
      )

module _ {K V : Type 0} ⦃e : Eq K⦄ where
  pub insert-absent :
      (k : K) (v : V) (m : List (K × V)) → lookup k m ≡ none → insert k v m ≡ m ++ (k, v) ∷ []
  unfolding lookup insert
  insert-absent k v [] h = refl
  insert-absent k v ((j, w) ∷ m) h = ground (arith, insert-absent k v m)

  pub lookup-absent :
      (k : K) (m : List (K × V)) → lookup k m ≡ none → mem k (map (λ x. x.0) m) ≡ false
  unfolding lookup
  lookup-absent k [] h = refl
  lookup-absent k ((j, w) ∷ m) h = ground (arith, lookup-absent k m)

  -- An entry that is overwritten with the same value of `f` leaves all values of `f`.
  pub map-insert :
      {B : Type 0} (f : K × V → B) (k : K) (v w : V) (m : List (K × V))
      → lookup k m ≡ some w
      → f (k, v) ≡ f (k, w)
      → map f (insert k v m) ≡ map f m
  unfolding lookup insert
  map-insert f k v w [] h same = absurd (ground arith)
  map-insert f k v w ((j, u) ∷ m) h same = elim (Bool-cases (e.beq j k)) [
    | inl here ↦
        let key : j ≡ k = (e.beq_iff j k).0 here in
        let value : u ≡ w = ground arith in rw (here, key, value) (ap (λ b. b ∷ map f m) same)
    | inr other ↦ rw other (ap (λ bs. f (j, u) ∷ bs) (map-insert f k v w m (ground arith) same))
  ]

  pub erase-absent : (k : K) (m : List (K × V)) → mem k (map (λ x. x.0) m) ≡ false → erase k m ≡ m
  unfolding erase
  erase-absent k [] h = refl
  erase-absent k ((j, u) ∷ m) h = ground (arith, erase-absent k m)

  pub erase-concat : (k : K) (m n : List (K × V)) → erase k (m ++ n) ≡ erase k m ++ erase k n
  unfolding erase
  erase-concat k [] n = refl
  erase-concat k ((j, u) ∷ m) n = ground (arith, erase-concat k m n)

  -- The entry in the middle is the one that is deleted.
  pub erase-middle :
      (k : K) (v : V) (m n : List (K × V))
      → mem k (map (λ x. x.0) m) ≡ false
      → mem k (map (λ x. x.0) n) ≡ false
      → erase k (m ++ (k, v) ∷ n) ≡ m ++ n
  unfolding erase
  erase-middle k v m n h h' =
      let here : e.beq k k ≡ true = (e.beq_iff k k).1 refl in
      rw (erase-concat k m ((k, v) ∷ n), erase-absent k m h, here, erase-absent k n h') refl

  -- A filter that passes the value of a key leaves it there.
  pub lookup-keep :
      (p : K × V → Bool) (k : K) (v : V) (m : List (K × V))
      → lookup k m ≡ some v
      → ((j : K) → p (j, v) ≡ true)
      → lookup k (keep p m) ≡ some v
  unfolding lookup
  lookup-keep p k v [] found h = absurd (ground arith)
  lookup-keep p k v ((j, w) ∷ m) found h = elim (Bool-cases (e.beq j k)) [
    | inl here ↦
        let value : w ≡ v = ground arith in
        let passes : p (j, w) ≡ true = rw value (h j) in rw (passes, here, value) refl
    | inr other ↦ elim (Bool-cases (p (j, w))) [
      | inl passes ↦ rw (passes, other) (lookup-keep p k v m (ground arith) h)
      | inr drops ↦ rw drops (lookup-keep p k v m (ground arith) h)
    ]
  ]

  pub All-insert :
      (P : K × V → Type 0) (k : K) (v w : V) (m : List (K × V))
      → lookup k m ≡ some w
      → (P (k, w) → P (k, v))
      → All P m
      → All P (insert k v m)
  unfolding lookup insert
  All-insert P k v w [] h step all = absurd (ground arith)
  All-insert P k v w ((j, u) ∷ m) h step all = elim (Bool-cases (e.beq j k)) [
    | inl here ↦
        let key : j ≡ k = (e.beq_iff j k).0 here in
        let value : u ≡ w = ground arith in
        let old : P (k, w) = rw (key, value) at all.0 in rw here (step old, all.1)
    | inr other ↦ rw other (all.0, All-insert P k v w m (ground arith) step all.1)
  ]

  pub All-erase : (P : K × V → Type 0) (k : K) (m : List (K × V)) → All P m → All P (erase k m)
  unfolding erase
  All-erase P k [] h = tt
  All-erase P k ((j, u) ∷ m) h = elim (Bool-cases (e.beq j k)) [
    | inl here ↦ rw here (All-erase P k m h.1)
    | inr other ↦ rw other (h.0, All-erase P k m h.1)
  ]

module _ {K V L : Type 0} ⦃e : Eq K⦄ ⦃d : Eq L⦄ (f : K × V → L) where
  mem-erase :
      (x : L) (k : K) (m : List (K × V))
      → mem x (map f m) ≡ false
      → mem x (map f (erase k m)) ≡ false
  unfolding erase
  mem-erase x k [] h = refl
  mem-erase x k ((j, u) ∷ m) h = elim (Bool-cases (e.beq j k)) [
    | inl here ↦ rw here (mem-erase x k m (ground arith))
    | inr other ↦ rw other (ground (arith, mem-erase x k m))
  ]

  pub IsDistinct-erase :
      (k : K) (m : List (K × V)) → IsDistinct (map f m) → IsDistinct (map f (erase k m))
  unfolding erase
  IsDistinct-erase k [] h = tt
  IsDistinct-erase k ((j, u) ∷ m) h = elim (Bool-cases (e.beq j k)) [
    | inl here ↦ rw here (IsDistinct-erase k m h.1)
    | inr other ↦ rw other (mem-erase (f (j, u)) k m h.0, IsDistinct-erase k m h.1)
  ]
