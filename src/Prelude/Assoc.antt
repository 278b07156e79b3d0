-- ===== src/Prelude/Assoc.antt =====
-- Go maps as association lists. The order of the entries is the order in which `range` visits them.
use Prim.Native.Nat.{ℕ}
use mathlib.Core.Path.{◌≡◌, refl}
use mathlib.Core.Logic.{◌↔◌}
use mathlib.Core.Bool.{Bool, true, false}
use mathlib.Core.Option.{Option, none, some}
use mathlib.Core.List.{List, [], ◌∷◌}
use native.Mathlib.Omega.{arith}
use bmservers.Prelude.Tests.{◌==◌ as nat_beq, ==_iff, if◌then◌else◌}
use bmservers.Prelude.Int.{ℤ, pos, negsuc}
use bmservers.Prelude.Text.{GoString, str_eq, str_eq_iff}

-- Equality of keys.
pub record Eq (K : Type 0) : Type 0 where
  pub beq : K → K → Bool
  pub beq_iff : (a b : K) → (beq a b ≡ true) ↔ (a ≡ b)

instance abbrev pub nat_key : Eq ℕ
nat_key = record { beq = nat_beq; beq_iff = ==_iff }

instance abbrev pub str_key : Eq GoString
str_key = record { beq = str_eq; beq_iff = str_eq_iff }

-- `a == b` on signed integers.
abbrev pub int_eq : ℤ → ℤ → Bool
int_eq (pos a) (pos b) = nat_beq a b
int_eq (pos a) (negsuc b) = false
int_eq (negsuc a) (pos b) = false
int_eq (negsuc a) (negsuc b) = nat_beq a b

pub int_eq_iff : (a b : ℤ) → (int_eq a b ≡ true) ↔ (a ≡ b)
int_eq_iff a b = ground arith

instance abbrev pub int_key : Eq ℤ
int_key = record { beq = int_eq; beq_iff = int_eq_iff }

module _ {K V : Type 0} ⦃e : Eq K⦄ where
  -- `v, ok := m[k]`
  unfoldable pub lookup : K → List (K × V) → Option V
  lookup k [] = none
  lookup k ((j, v) ∷ m) = if e.beq j k then some v else lookup k m

  -- `m[k] = v`
  unfoldable pub insert : K → V → List (K × V) → List (K × V)
  insert k v [] = (k, v) ∷ []
  insert k v ((j, w) ∷ m) = if e.beq j k then (k, v) ∷ m else (j, w) ∷ insert k v m

  -- `delete(m, k)`
  unfoldable pub erase : K → List (K × V) → List (K × V)
  erase k [] = []
  erase k ((j, w) ∷ m) = let rest = erase k m in if e.beq j k then rest else (j, w) ∷ rest

  pub lookup-insert :
      (k j : K) (v : V) (m : List (K × V))
      → lookup j (insert k v m) ≡ (if e.beq k j then some v else lookup j m)
  unfolding lookup insert
  lookup-insert k j v [] = refl
  lookup-insert k j v ((i, w) ∷ m) =
      ground (arith, e.beq_iff k j, e.beq_iff i k, e.beq_iff i j, lookup-insert k j v m)

  pub lookup-erase :
      (k j : K) (m : List (K × V)) → lookup j (erase k m) ≡ (if e.beq k j then none else lookup j m)
  unfolding lookup erase
  lookup-erase k j [] = ground arith
  lookup-erase k j ((i, w) ∷ m) =
      ground (arith, e.beq_iff k j, e.beq_iff i k, e.beq_iff i j, lookup-erase k j m)

  pub lookup-insert_self : (k : K) (v : V) (m : List (K × V)) → lookup k (insert k v m) ≡ some v
  lookup-insert_self k v m = ground (arith, lookup-insert k k v m, e.beq_iff k k)
