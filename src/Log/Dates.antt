-- ===== src/Log/Dates.antt =====
-- The dates in the names of log files: GetDateString of shareutils/LogHelper.go.
use bmservers.Prelude.{
  ℕ, ◌<◌, ◌^◌, ◌≡◌, inl, inr, refl, ap, ◌∙◌, false, some, [], ◌∷◌, ◌++◌, arith, GoString, codes,
  leb, Bool-cases,
}
use bmservers.Prelude.Int.{pos}
use bmservers.Prelude.Split.{split, has_byte, split-append, split-absent}
use bmservers.Prelude.Decimal.{digits, digits-absent, atoi, atoi-digits, atoi-zero}
use bmservers.Log.Lines.{two_digits, get_date_string}

-- The number that two digits print is read back, and there is no dot in them.
two_digits-read : (n : ℕ) → n < 2 ^ 63 → atoi (two_digits n) ≡ some (pos n)
two_digits-read n h = elim (Bool-cases (leb 10 n)) [
  | inl e ↦ rw e (atoi-digits n h)
  | inr e ↦ rw e (atoi-zero n h)
]

two_digits-plain : (n : ℕ) → has_byte 46 (two_digits n) ≡ false
two_digits-plain n = ground (arith, digits-absent 46 n refl)

-- A date of the common era, printed by GetDateString with dots and split at them, has three parts,
-- and Atoi reads the year, the month and the day back from them.
pub get_date_string-parts :
    (year month day : ℕ)
    → year < 2 ^ 63
    → month < 2 ^ 63
    → day < 2 ^ 63
    → (y : GoString) × (m : GoString) × (d : GoString) × (split 46
          (get_date_string (pos year) month day (codes "."))
        ≡ y ∷ m ∷ d ∷ [])
      × (atoi y ≡ some (pos year))
      × (atoi m ≡ some (pos month))
      × (atoi d ≡ some (pos day))
unfolding get_date_string
get_date_string-parts year month day hy hm hd = (
  digits year,
  two_digits month,
  two_digits day,
  split-append 46 (digits year) (two_digits month ++ 46 ∷ two_digits day)
        (digits-absent 46 year refl)
      ∙ ap (λ parts. digits year ∷ parts)
          (split-append 46 (two_digits month) (two_digits day) (two_digits-plain month)
            ∙ ap (λ parts. two_digits month ∷ parts)
                (split-absent 46 (two_digits day) (two_digits-plain day))),
  atoi-digits year hy,
  two_digits-read month hm,
  two_digits-read day hd,
)
