-- ===== src/Prelude/Regex.antt =====
-- Regular expressions on bytes, for regexp.Match with an anchored pattern.
use Prim.Native.Nat.{ℕ, zero, suc}
use mathlib.Core.Path.{◌≡◌, refl}
use mathlib.Core.Logic.{inl, inr}
use mathlib.Core.Bool.{Bool, true, false, not, ◌&&◌, ◌||◌}
use mathlib.Core.List.{[], ◌∷◌}
use native.Mathlib.Omega.{arith}
use bmservers.Prelude.Tests.{leb, ◌==◌, if◌then◌else◌, Bool-cases}
use bmservers.Prelude.Text.{GoString}
use bmservers.Prelude.Split.{has_byte}

pub data Regex : Type 0 where
  empty_set empty_word : Regex
  one_of : (ℕ → Bool) → Regex
  seq alt : Regex → Regex → Regex
  star : Regex → Regex

-- x+
abbrev pub plus : Regex → Regex
plus r = seq r (star r)

-- x?
abbrev pub opt : Regex → Regex
opt r = alt empty_word r

-- x{lo,hi}, for lo ≤ hi
abbrev pub between : ℕ → ℕ → Regex → Regex
between lo zero r = empty_word
between zero (suc hi) r = opt (seq r (between zero hi r))
between (suc lo) (suc hi) r = seq r (between lo hi r)

-- Whether the empty text matches.
abbrev pub nullable : Regex → Bool
nullable empty_set = false
nullable empty_word = true
nullable (one_of p) = false
nullable (seq a b) = nullable a && nullable b
nullable (alt a b) = nullable a || nullable b
nullable (star a) = true

-- The expression matches no text, as its form shows.
abbrev pub is_dead : Regex → Bool
is_dead empty_set = true
is_dead empty_word = false
is_dead (one_of p) = false
is_dead (seq a b) = is_dead a || is_dead b
is_dead (alt a b) = is_dead a && is_dead b
is_dead (star a) = false

-- `seq` and `alt` without the parts that match nothing.
abbrev pub join_seq : Regex → Regex → Regex
join_seq a b = if is_dead a then empty_set else seq a b

abbrev pub join_alt : Regex → Regex → Regex
join_alt a b = if is_dead a then b else if is_dead b then a else alt a b

-- What remains to be matched after a byte (Brzozowski's derivative).
abbrev pub after : ℕ → Regex → Regex
after c empty_set = empty_set
after c empty_word = empty_set
after c (one_of p) = if p c then empty_word else empty_set
after c (seq a b) =
    let first = join_seq (after c a) b in
    let second = after c b in if nullable a then join_alt first second else first
after c (alt a b) = join_alt (after c a) (after c b)
after c (star a) = join_seq (after c a) (star a)

-- Whether the whole text matches.
unfoldable pub matches : Regex → GoString → Bool
matches r [] = nullable r
matches r (c ∷ s) = matches (after c r) s

-- No class of the expression has the byte.
abbrev pub excludes : ℕ → Regex → Bool
excludes c empty_set = true
excludes c empty_word = true
excludes c (one_of p) = not (p c)
excludes c (seq a b) = excludes c a && excludes c b
excludes c (alt a b) = excludes c a && excludes c b
excludes c (star a) = excludes c a

nullable-dead : (r : Regex) → is_dead r ≡ true → nullable r ≡ false
nullable-dead empty_set h = refl
nullable-dead empty_word h = cc
nullable-dead (one_of p) h = refl
nullable-dead (seq a b) h = ground (arith, nullable-dead a, nullable-dead b)
nullable-dead (alt a b) h = ground (arith, nullable-dead a, nullable-dead b)
nullable-dead (star a) h = cc

after-dead : (c : ℕ) (r : Regex) → is_dead r ≡ true → is_dead (after c r) ≡ true
after-dead c empty_set h = refl
after-dead c empty_word h = cc
after-dead c (one_of p) h = cc
after-dead c (seq a b) h = ground (arith, after-dead c a, after-dead c b, nullable-dead a)
after-dead c (alt a b) h = ground (arith, after-dead c a, after-dead c b)
after-dead c (star a) h = cc

matches-dead : (s : GoString) (r : Regex) → is_dead r ≡ true → matches r s ≡ false
unfolding matches
matches-dead [] r h = nullable-dead r h
matches-dead (c ∷ s) r h = matches-dead s (after c r) (after-dead c r h)

after-excluded : (c : ℕ) (r : Regex) → excludes c r ≡ true → is_dead (after c r) ≡ true
after-excluded c empty_set h = refl
after-excluded c empty_word h = refl
after-excluded c (one_of p) h = ground arith
after-excluded c (seq a b) h = ground (arith, after-excluded c a, after-excluded c b)
after-excluded c (alt a b) h = ground (arith, after-excluded c a, after-excluded c b)
after-excluded c (star a) h = ground (arith, after-excluded c a)

excludes-after : (c d : ℕ) (r : Regex) → excludes c r ≡ true → excludes c (after d r) ≡ true
excludes-after c d empty_set h = refl
excludes-after c d empty_word h = refl
excludes-after c d (one_of p) h = ground arith
excludes-after c d (seq a b) h = ground (arith, excludes-after c d a, excludes-after c d b)
excludes-after c d (alt a b) h = ground (arith, excludes-after c d a, excludes-after c d b)
excludes-after c d (star a) h = ground (arith, excludes-after c d a)

-- A text that matches has no byte that the expression excludes.
pub matches-excluded :
    (c : ℕ) (s : GoString) (r : Regex)
    → excludes c r ≡ true
    → matches r s ≡ true
    → has_byte c s ≡ false
unfolding matches
matches-excluded c [] r h m = refl
matches-excluded c (d ∷ s) r h m = elim (Bool-cases (d == c)) [
  | inl e ↦
      let same : d ≡ c = ground arith in
      let dead : is_dead (after d r) ≡ true = rw same (after-excluded c r h) in
      absurd (ground (arith, matches-dead s (after d r) dead))
  | inr e ↦ rw e (matches-excluded c s (after d r) (excludes-after c d r h) m)
]

-- The classes that patterns name.
abbrev pub is_digit : ℕ → Bool
is_digit c = leb 48 c && leb c 57

abbrev pub is_letter : ℕ → Bool
is_letter c = (leb 65 c && leb c 90) || (leb 97 c && leb c 122)

abbrev pub is_alnum : ℕ → Bool
is_alnum c = is_digit c || is_letter c

-- \w
abbrev pub is_word : ℕ → Bool
is_word c = is_alnum c || c == 95

-- \s
abbrev pub is_space : ℕ → Bool
is_space c = (c == 9 || c == 10) || (c == 12 || c == 13) || c == 32

-- A pattern of one literal byte.
abbrev pub byte : ℕ → Regex
byte b = one_of (λ c. c == b)
