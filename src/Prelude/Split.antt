-- ===== src/Prelude/Split.antt =====
-- strings.Split with a separator of one byte.
use Prim.Native.Nat.{ℕ}
use mathlib.Core.Path.{◌≡◌, refl}
use mathlib.Core.Logic.{inl, inr}
use mathlib.Core.Bool.{Bool, false}
use mathlib.Core.List.{List, [], ◌∷◌, ◌++◌}
use native.Mathlib.Omega.{arith}
use bmservers.Prelude.Tests.{Bool-cases, ◌==◌, if◌then◌else◌}
use bmservers.Prelude.Lists.{any}
use bmservers.Prelude.Text.{GoString}

-- One more byte before the first of the parts.
abbrev pub onto_first : ℕ → List GoString → List GoString
onto_first c [] = (c ∷ []) ∷ []
onto_first c (part ∷ parts) = (c ∷ part) ∷ parts

-- strings.Split(s, sep)
abbrev pub split : ℕ → GoString → List GoString
split sep [] = [] ∷ []
split sep (c ∷ s) = let parts = split sep s in if c == sep then [] ∷ parts else onto_first c parts

-- Whether the byte occurs in the text.
abbrev pub has_byte : ℕ → GoString → Bool
has_byte sep s = any (λ c. c == sep) s

pub split-absent : (sep : ℕ) (s : GoString) → has_byte sep s ≡ false → split sep s ≡ s ∷ []
split-absent sep [] h = refl
split-absent sep (c ∷ s) h = ground (arith, split-absent sep s)

pub split-append :
    (sep : ℕ) (a b : GoString) → has_byte sep a ≡ false → split sep (a ++ sep ∷ b) ≡ a ∷ split sep b
split-append sep [] b h = ground arith
split-append sep (c ∷ a) b h = ground (arith, split-append sep a b)

-- There is always a part.
pub split-cons :
    (sep : ℕ) (s : GoString) → (p : GoString) × (ps : List GoString) × (split sep s ≡ p ∷ ps)
split-cons sep [] = ([], [], refl)
split-cons sep (c ∷ s) =
    let (p, ps, parts) = split-cons sep s in
    elim (Bool-cases (c == sep)) [
      | inl e ↦ ([], p ∷ ps, rw (e, parts) refl)
      | inr e ↦ (c ∷ p, ps, rw (e, parts) refl)
    ]
