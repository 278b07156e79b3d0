-- ===== src/Prelude/Tests.antt =====
-- Boolean tests on the native numbers, the conditional, and case lemmas that keep an equation.
use Prim.Native.Nat.{ℕ, compare, Ordering}
use mathlib.Core.List.{List, [], ◌∷◌}
use mathlib.Core.Path.{◌≡◌, refl, subst}
use mathlib.Core.Logic.{◌↔◌, ◌⊎◌, inl, inr}
use mathlib.Core.Bool.{Bool, true, false}
use mathlib.Core.Option.{Option, none, some}
use native.Mathlib.Omega.{arith}

abbrev pub ltb : ℕ → ℕ → Bool
ltb a b = elim (compare a b) [ Ordering.lt ↦ true | _ ↦ false ]

abbrev pub leb : ℕ → ℕ → Bool
leb a b = elim (compare a b) [ Ordering.gt ↦ false | _ ↦ true ]

infix 50 ◌==◌
abbrev pub ◌==◌ : ℕ → ℕ → Bool
a == b = elim (compare a b) [ Ordering.eq ↦ true | _ ↦ false ]

infix 1 if◌then◌else◌
abbrev pub if◌then◌else◌ {ℓ} : {A : Type ℓ} → Bool → A → A → A
if true then x else y = x
if false then x else y = y

pub ==_iff : (a b : ℕ) → ((a == b) ≡ true) ↔ (a ≡ b)
==_iff a b = ground arith

pub ==_refl : (a : ℕ) → (a == a) ≡ true
==_refl a = ground arith

pub Bool-cases : (b : Bool) → (b ≡ true) ⊎ (b ≡ false)
Bool-cases true = inl refl
Bool-cases false = inr refl

pub Option-cases {ℓ} : {A : Type ℓ} (o : Option A) → (o ≡ none) ⊎ ((a : A) × (o ≡ some a))
Option-cases none = inl refl
Option-cases (some a) = inr (a, refl)

pub List-cases {ℓ} :
    {A : Type ℓ} (xs : List A) → (xs ≡ []) ⊎ ((x : A) × (rest : List A) × (xs ≡ x ∷ rest))
List-cases [] = inl refl
List-cases (x ∷ xs) = inr (x, xs, refl)

-- What a call that can fail returns has the property, if it succeeds.
abbrev pub Gives {ℓ κ} : {A : Type ℓ} → (A → Type κ) → Option A → Type κ
Gives P none = Unit
Gives P (some a) = P a

-- The cases of a value that is decoded, with what holds of it.
pub decoded_cases {ℓ κ} :
    {A : Type ℓ} {Q : A → Type κ} (o : Option A)
    → ((a : A) → Q a)
    → (o ≡ none) ⊎ ((a : A) × (o ≡ some a) × Q a)
decoded_cases none h = inl refl
decoded_cases (some a) h = inr (a, refl, h a)

pub Gives-map {ℓ κ μ} :
    {A : Type ℓ} {P : A → Type κ} {Q : A → Type μ} (o : Option A)
    → ((a : A) → P a → Q a)
    → Gives P o
    → Gives Q o
Gives-map none f h = tt
Gives-map (some a) f h = f a h

pub Gives-some {ℓ κ} :
    {A : Type ℓ} (P : A → Type κ) (o : Option A) {a : A} → o ≡ some a → Gives P o → P a
Gives-some P none e h = cc
Gives-some P (some b) e h = subst P (ground arith) h

pub Gives-both {ℓ κ μ} :
    {A : Type ℓ} (P : A → Type κ) (Q : A → Type μ) (o : Option A)
    → Gives P o
    → Gives Q o
    → Gives (λ a. P a × Q a) o
Gives-both P Q none h k = tt
Gives-both P Q (some a) h k = (h, k)
