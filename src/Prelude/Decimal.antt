-- ===== src/Prelude/Decimal.antt =====
-- Decimal numbers in strings: strconv.Itoa and strconv.Atoi.
use Prim.Native.Nat.{ℕ, zero, suc, ◌+◌, ◌-◌, ◌*◌, ◌/◌, ◌%◌, ◌^◌, ◌<◌}
use mathlib.Core.Path.{◌≡◌, refl}
use mathlib.Core.Logic.{◌≢◌}
use mathlib.Core.Bool.{Bool, true, false, ◌&&◌}
use mathlib.Core.Option.{Option, none, some}
use mathlib.Core.List.{[], ◌∷◌}
use native.Mathlib.Omega.{arith}
use bmservers.Prelude.Tests.{ltb, leb, ◌==◌, if◌then◌else◌}
use bmservers.Prelude.Text.{GoString}
use bmservers.Prelude.Int.{ℤ, pos, negsuc}
use bmservers.Prelude.Split.{has_byte}

-- The decimal digits of `n` before `out`, with at most as many as the first argument says.
abbrev pub digits_before : ℕ → ℕ → GoString → GoString
digits_before zero n out = out
digits_before (suc k) n out =
    if ltb n 10 then (48 + n) ∷ out else digits_before k (n / 10) ((48 + n % 10) ∷ out)

-- A number of 64 bits has at most 20 digits.
unfoldable pub digits : ℕ → GoString
digits n = digits_before 20 n []

-- strconv.Itoa(x)
abbrev pub itoa : ℤ → GoString
itoa (pos n) = digits n
itoa (negsuc n) = 45 ∷ digits (suc n)

-- The number whose digits are `n`'s and then those of the text.
abbrev pub read_digits : GoString → ℕ → Option ℕ
read_digits [] n = some n
read_digits (c ∷ s) n = if leb 48 c && leb c 57 then read_digits s (n * 10 + (c - 48)) else none

-- A number with its sign, unless it is out of the range of `int`.
abbrev pub in_range : Bool → Option ℕ → Option ℤ
in_range minus none = none
in_range true (some zero) = some (pos 0)
in_range true (some (suc n)) = if ltb n (2 ^ 63) then some (negsuc n) else none
in_range false (some n) = if ltb n (2 ^ 63) then some (pos n) else none

-- One digit at least.
abbrev pub read_some : GoString → Option ℕ
read_some [] = none
read_some (c ∷ s) = read_digits (c ∷ s) 0

-- strconv.Atoi(s), without the kind of the error
unfoldable pub atoi : GoString → Option ℤ
atoi [] = none
atoi (c ∷ s) =
    if c == 45
    then in_range true (read_some s)
    else if c == 43
    then in_range false (read_some s)
    else in_range false (read_some (c ∷ s))

-- The number that strconv.Atoi returns beside an error: 0, or the end of the range that is passed.
abbrev pub clamped : Bool → Option ℕ → ℤ
clamped minus none = pos 0
clamped true (some zero) = pos 0
clamped true (some (suc n)) = if ltb n (2 ^ 63) then negsuc n else negsuc (2 ^ 63 - 1)
clamped false (some n) = if ltb n (2 ^ 63) then pos n else pos (2 ^ 63 - 1)

-- `v, _ = strconv.Atoi(s)`
abbrev pub atoi_value : GoString → ℤ
atoi_value [] = pos 0
atoi_value (c ∷ s) =
    if c == 45
    then clamped true (read_some s)
    else if c == 43
    then clamped false (read_some s)
    else clamped false (read_some (c ∷ s))

-- 10 to the power of k
abbrev pub ten_to : ℕ → ℕ
ten_to zero = 1
ten_to (suc k) = 10 * ten_to k

read_digits-digits_before :
    (k n : ℕ) (out : GoString)
    → n < ten_to k
    → 0 < k
    → read_digits (digits_before k n out) 0 ≡ read_digits out n
read_digits-digits_before zero n out h p = absurd (omega arith)
read_digits-digits_before (suc zero) n out h p = ground arith
read_digits-digits_before (suc (suc k)) n out h p =
    ground (arith, read_digits-digits_before (suc k) (n / 10) ((48 + n % 10) ∷ out))

digits_before-absent :
    (sep k n : ℕ) (out : GoString)
    → (leb 48 sep && leb sep 57) ≡ false
    → has_byte sep out ≡ false
    → has_byte sep (digits_before k n out) ≡ false
digits_before-absent sep zero n out h e = e
digits_before-absent sep (suc k) n out h e =
    ground (arith, digits_before-absent sep k (n / 10) ((48 + n % 10) ∷ out) h)

-- No other byte than a digit stands in a decimal number.
pub digits-absent :
    (sep n : ℕ) → (leb 48 sep && leb sep 57) ≡ false → has_byte sep (digits n) ≡ false
unfolding digits
digits-absent sep n h = digits_before-absent sep 20 n [] h refl

read_digits-digits : (n : ℕ) → n < 2 ^ 64 → read_digits (digits n) 0 ≡ some n
unfolding digits
read_digits-digits n h = read_digits-digits_before 20 n [] (omega arith) (omega arith)

digits_before-ne-nil : (k n c : ℕ) (out : GoString) → digits_before k n (c ∷ out) ≢ []
digits_before-ne-nil zero n c out = λ e. cc
digits_before-ne-nil (suc k) n c out =
    ground (arith, digits_before-ne-nil k (n / 10) (48 + n % 10) (c ∷ out))

digits-ne-nil : (n : ℕ) → digits n ≢ []
unfolding digits
digits-ne-nil n = ground (arith, digits_before-ne-nil 19 (n / 10) (48 + n % 10) [])

read_some-ne-nil : (s : GoString) → s ≢ [] → read_some s ≡ read_digits s 0
read_some-ne-nil [] h = absurd (h refl)
read_some-ne-nil (c ∷ s) h = refl

atoi-unsigned :
    (s : GoString)
    → s ≢ []
    → has_byte 45 s ≡ false
    → has_byte 43 s ≡ false
    → atoi s ≡ in_range false (read_some s)
unfolding atoi
atoi-unsigned [] h minus plus = absurd (h refl)
atoi-unsigned (c ∷ s) h minus plus = ground arith

-- A number that fits is read back from its print.
pub atoi-digits : (n : ℕ) → n < 2 ^ 63 → atoi (digits n) ≡ some (pos n)
atoi-digits n h =
    rw
      (
        atoi-unsigned (digits n) (digits-ne-nil n) (digits-absent 45 n refl)
            (digits-absent 43 n refl),
        read_some-ne-nil (digits n) (digits-ne-nil n),
        read_digits-digits n (omega arith),
      )
      (ground arith)

-- A leading zero changes nothing.
pub atoi-zero : (n : ℕ) → n < 2 ^ 63 → atoi (48 ∷ digits n) ≡ some (pos n)
atoi-zero n h =
    rw
      (
        atoi-unsigned (48 ∷ digits n) (λ e. cc) (ground (arith, digits-absent 45 n refl))
            (ground (arith, digits-absent 43 n refl)),
        read_digits-digits n (omega arith),
      )
      (ground arith)
