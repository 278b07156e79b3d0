-- ===== src/Log/Settings.antt =====
-- What the settings of shareutils/LogHelper.go can be, whatever text they are read from.
use bmservers.Prelude.{ℕ, ◌≤◌, ◌≡◌, ◌≢◌, ◌⊎◌, true}
use bmservers.Prelude.Int.{pos}
use bmservers.Log.{LogHelper}

-- LEVEL, FILELINE or both.
abbrev pub IsFlags : ℕ → Type 0
IsFlags n = (n ≡ 1) ⊎ ((n ≡ 8) ⊎ (n ≡ 9))

-- The priority is one of the five levels, and neither the flags nor the time are zero.
pub record IsSettled (h : LogHelper) : Type 0 where
  pub priority : h.logpriority ≤ 4
  pub flags : IsFlags h.logprefix
  pub lasts : h.loglasttime ≢ pos 0
  pub ready : h.initialized ≡ true

abbrev MayBeFlags : ℕ → Type 0
MayBeFlags n = (n ≡ 0) ⊎ IsFlags n
