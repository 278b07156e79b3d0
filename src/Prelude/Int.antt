-- ===== src/Prelude/Int.antt =====
-- Signed integers over the native numbers, under the library's names, for Go's `int` and `int32`.
use Prim.Native.Nat.{ℕ, suc, ◌+◌, ◌-◌, ◌%◌, ◌^◌, ◌≤◌, ◌<◌}
use mathlib.Core.Path.{◌≡◌, sym}
use mathlib.Core.Bool.{Bool}
use mathlib.Core.List.{List, [], ◌∷◌, ◌++◌}
use native.Mathlib.Omega.{arith}
use bmservers.Prelude.Tests.{ltb, leb, if◌then◌else◌}

-- `negsuc n` is -(n + 1).
pub data ℤ : Type 0 where
  pos : ℕ → ℤ
  negsuc : ℕ → ℤ

abbrev pub pos_part : ℤ → ℕ
pos_part (pos n) = n
pos_part (negsuc n) = 0

abbrev pub neg_part : ℤ → ℕ
neg_part (pos n) = 0
neg_part (negsuc n) = suc n

-- a - b, as an integer.
abbrev pub sub_ℕ : ℕ → ℕ → ℤ
sub_ℕ a b = if leb b a then pos (a - b) else negsuc (b - a - 1)

infixl 65 ◌+ℤ◌ ◌-ℤ◌
infix 50 ◌≤ℤ◌ ◌<ℤ◌
unfoldable pub ◌+ℤ◌ : ℤ → ℤ → ℤ
a +ℤ b = sub_ℕ (pos_part a + pos_part b) (neg_part a + neg_part b)

unfoldable pub ◌-ℤ◌ : ℤ → ℤ → ℤ
a -ℤ b = sub_ℕ (pos_part a + neg_part b) (neg_part a + pos_part b)

abbrev pub ◌≤ℤ◌ : ℤ → ℤ → Type 0
a ≤ℤ b = pos_part a + neg_part b ≤ pos_part b + neg_part a

abbrev pub ◌<ℤ◌ : ℤ → ℤ → Type 0
a <ℤ b = pos_part a + neg_part b < pos_part b + neg_part a

-- `a < b` on signed integers.
abbrev pub ltb_ℤ : ℤ → ℤ → Bool
ltb_ℤ a b = ltb (pos_part a + neg_part b) (pos_part b + neg_part a)

pub +ℤ_parts :
    (a b : ℤ)
    → pos_part (a +ℤ b) + neg_part a + neg_part b ≡ neg_part (a +ℤ b) + pos_part a + pos_part b
unfolding ◌+ℤ◌
+ℤ_parts a b = ground arith

pub -ℤ_parts :
    (a b : ℤ)
    → pos_part (a -ℤ b) + neg_part a + pos_part b ≡ neg_part (a -ℤ b) + pos_part a + neg_part b
unfolding ◌-ℤ◌
-ℤ_parts a b = ground arith

pub eq_of_parts : (a b : ℤ) → pos_part a + neg_part b ≡ pos_part b + neg_part a → a ≡ b
eq_of_parts a b h = ground arith

pub ruleset int_laws = (arith, +ℤ_parts, -ℤ_parts, eq_of_parts)

-- The signed value of a bit pattern of 32 bits.
abbrev pub signed32 : ℕ → ℤ
signed32 n = if ltb n (2 ^ 31) then pos n else negsuc (2 ^ 32 - 1 - n)

-- Go's conversion `int32(x)`.
unfoldable pub to_int32 : ℤ → ℤ
to_int32 (pos n) = signed32 (n % 2 ^ 32)
to_int32 (negsuc n) = signed32 (2 ^ 32 - 1 - n % 2 ^ 32)

-- A value that fits is unchanged by the conversion.
pub to_int32-pos : (n : ℕ) → n < 2 ^ 31 → to_int32 (pos n) ≡ pos n
unfolding to_int32
to_int32-pos n h = ground arith

pub to_int32-bounds :
    (x : ℤ) → (to_int32 x ≤ℤ pos (2 ^ 31 - 1)) × (negsuc (2 ^ 31 - 1) ≤ℤ to_int32 x)
unfolding to_int32
to_int32-bounds (pos n) = ground arith
to_int32-bounds (negsuc n) = ground arith

-- Go's conversion `uint64(x)` of a 64-bit integer.
unfoldable pub to_uint64 : ℤ → ℕ
to_uint64 (pos n) = n % 2 ^ 64
to_uint64 (negsuc n) = 2 ^ 64 - 1 - n % 2 ^ 64

-- The value of a 64-bit `int` after an operation whose exact result is `x`.
unfoldable pub to_int64 : ℤ → ℤ
to_int64 (pos n) = let m = n % 2 ^ 64 in if ltb m (2 ^ 63) then pos m else negsuc (2 ^ 64 - 1 - m)
to_int64 (negsuc n) =
    let m = n % 2 ^ 64 in if ltb m (2 ^ 63) then negsuc m else pos (2 ^ 64 - 1 - m)

pub to_int64-eq : (x : ℤ) → x ≤ℤ pos (2 ^ 63 - 1) → negsuc (2 ^ 63 - 1) ≤ℤ x → to_int64 x ≡ x
unfolding to_int64
to_int64-eq (pos n) h k = ground arith
to_int64-eq (negsuc n) h k = ground arith

pub to_uint64-pos : (n : ℕ) → n < 2 ^ 64 → to_uint64 (pos n) ≡ n
unfolding to_uint64
to_uint64-pos n h = omega arith

-- The sum of a column.
abbrev pub sum_of {ℓ} : {A : Type ℓ} → (A → ℤ) → List A → ℤ
sum_of f [] = pos 0
sum_of f (x ∷ xs) = f x +ℤ sum_of f xs

pub +ℤ_assoc : (a b c : ℤ) → a +ℤ b +ℤ c ≡ a +ℤ (b +ℤ c)
+ℤ_assoc a b c = omega int_laws

pub sum_of-append {ℓ} :
    {A : Type ℓ} (f : A → ℤ) (xs ys : List A) → sum_of f (xs ++ ys) ≡ sum_of f xs +ℤ sum_of f ys
sum_of-append f [] ys = omega int_laws
sum_of-append f (x ∷ xs) ys =
    rw (sum_of-append f xs ys) (sym (+ℤ_assoc (f x) (sum_of f xs) (sum_of f ys)))

-- Go's conversion `uint32(x)`.
unfoldable pub to_uint32 : ℤ → ℕ
to_uint32 (pos n) = n % 2 ^ 32
to_uint32 (negsuc n) = 2 ^ 32 - 1 - n % 2 ^ 32
