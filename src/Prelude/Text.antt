-- ===== src/Prelude/Text.antt =====
-- Go strings as lists of bytes, with the operations of the package strings that the program calls.
use Prim.Native.Nat.{ℕ, ◌+◌}
use Prim.Native.Char.{code}
use Prim.Native.String.{String}
use mathlib.Core.Path.{◌≡◌, refl}
use mathlib.Core.Logic.{◌↔◌}
use mathlib.Core.Bool.{Bool, true, false, ◌&&◌}
use mathlib.Core.List.{List, [], ◌∷◌, map}
use native.Mathlib.Omega.{arith}
use bmservers.Prelude.Tests.{◌==◌, leb, if◌then◌else◌}

-- The bytes of a Go string.
abbrev pub GoString : Type 0
GoString = List ℕ

-- The bytes of an ASCII literal.
abbrev pub codes : String → GoString
codes String.[] = []
codes (String.◌∷◌ c s) = code c ∷ codes s

-- `a == b` on strings.
unfoldable pub str_eq : GoString → GoString → Bool
str_eq [] [] = true
str_eq [] (y ∷ ys) = false
str_eq (x ∷ xs) [] = false
str_eq (x ∷ xs) (y ∷ ys) = x == y && str_eq xs ys

pub str_eq_iff : (a b : GoString) → (str_eq a b ≡ true) ↔ (a ≡ b)
unfolding str_eq
str_eq_iff [] [] = (λ _. refl, λ _. refl)
str_eq_iff [] (y ∷ ys) = (λ h. cc, λ h. cc)
str_eq_iff (x ∷ xs) [] = (λ h. cc, λ h. cc)
str_eq_iff (x ∷ xs) (y ∷ ys) =
    (λ h. ground (arith, str_eq_iff xs ys), λ h. ground (arith, str_eq_iff xs ys))

-- strings.ToLower on ASCII texts; the letters of Unicode beyond ASCII are left as they are.
abbrev pub to_lower : GoString → GoString
to_lower s = map (λ c. if leb 65 c && leb c 90 then c + 32 else c) s
