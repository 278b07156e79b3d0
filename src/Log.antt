-- ===== src/Log.antt =====
-- The log helper of shareutils/LogHelper.go: its settings, the prefixes of its lines, and which calls
-- write one. Formatting of the values, the files, the clock and runtime.Caller are external: their
-- results are arguments.
pub mod Lines
pub mod Settings
pub mod Dates
mod Tests
use Prim.Native.Nat.{bit_and, bit_or}
use bmservers.Prelude.{
  to_lower, ℕ, ◌+◌, Bool, true, false, not, ◌&&◌, ◌||◌, Option, none, some, List, [], ◌∷◌, ◌++◌,
  if◌then◌else◌, GoString, codes, length, ltb, leb, ◌==◌, str_eq, map,
}
use bmservers.Prelude.Int.{ℤ, pos}
use bmservers.Prelude.Assoc.{int_eq}
use bmservers.Prelude.Split.{split}
use bmservers.Prelude.Decimal.{itoa, digits, atoi}

-- LOGP_LEVEL to LOGP_FILELINE
abbrev pub logp_level : ℕ
logp_level = 1

abbrev pub logp_day : ℕ
logp_day = 2

abbrev pub logp_time : ℕ
logp_time = 4

abbrev pub logp_fileline : ℕ
logp_fileline = 8

-- The fields of LogHelper that the code reads. Levels are LOGL_DEBUG = 0 to LOGL_FATAL = 4.
pub record LogHelper : Type 0 where
  pub has_file : Bool
  pub logtofile : Bool
  pub loglasttime : ℤ
  pub logpriority : ℕ
  pub logprefix : ℕ
  pub loglevelprefix : ℤ
  pub logbasefilename : GoString
  pub initialized : Bool
  pub stack_level : ℕ

abbrev pub has_prefix : GoString → GoString → Bool
has_prefix s [] = true
has_prefix [] (c ∷ p) = false
has_prefix (d ∷ s) (c ∷ p) = d == c && has_prefix s p

-- strings.Contains(s, sub)
abbrev pub contains : GoString → GoString → Bool
contains [] sub = has_prefix [] sub
contains (c ∷ s) sub = has_prefix (c ∷ s) sub || contains s sub

-- `(p & bit) != 0`
abbrev pub has_bit : ℕ → ℕ → Bool
has_bit p bit = not (bit_and p bit == 0)

abbrev pub cfg_names : List GoString
cfg_names =
    codes "LogToFile"
    ∷ codes "LogLastTime"
    ∷ codes "LogPriority"
    ∷ codes "LogPrefix"
    ∷ codes "LogLevelPrefix"
    ∷ []

-- The value of a section with two parts.
abbrev pub section_value : List GoString → Option GoString
section_value (name ∷ value ∷ []) = some value
section_value _ = none

-- The loop of searchCfgIndex from the name with the number `i`.
abbrev pub search_from : ℕ → List GoString → GoString → Option (ℕ × GoString)
search_from i [] cfg = none
search_from i (name ∷ names) cfg =
    let later = search_from (i + 1) names cfg in
    if contains cfg (to_lower name)
    then elim (section_value (split 58 cfg)) [ none ↦ later | some value ↦ some (i, value) ]
    else later

-- `none`: the index -1
unfoldable pub search_cfg_index : GoString → Option (ℕ × GoString)
search_cfg_index cfg = search_from 0 cfg_names (to_lower cfg)

-- The flag of one part of LogPrefix.
abbrev pub prefix_flag : GoString → ℕ
prefix_flag part =
    if str_eq part (codes "level")
    then logp_level
    else if str_eq part (codes "fileline")
    then logp_fileline
    else 0

-- The loop over the parts.
abbrev pub prefix_flags : List GoString → ℕ → ℕ
prefix_flags [] flags = flags
prefix_flags (part ∷ parts) flags = prefix_flags parts (bit_or flags (prefix_flag part))

abbrev pub priority_of : GoString → ℕ → ℕ
priority_of sel old =
    if str_eq sel (codes "debug")
    then 0
    else if str_eq sel (codes "info")
    then 1
    else if str_eq sel (codes "warn")
    then 2
    else if str_eq sel (codes "error")
    then 3
    else if str_eq sel (codes "fatal")
    then 4
    else old

-- A number that can be read, or the old one.
abbrev pub number_or : GoString → ℤ → ℤ
number_or sel old = elim (atoi sel) [ none ↦ old | some n ↦ n ]

abbrev pub one_if_zero : ℤ → ℤ
one_if_zero n = if int_eq n (pos 0) then pos 1 else n

abbrev pub set_flag : ℕ → LogHelper → LogHelper
set_flag flag h = record h { logprefix = flag }

-- Flags of 0 are not stored.
abbrev pub set_flag_unless_zero : ℕ → LogHelper → LogHelper
set_flag_unless_zero flags h = if flags == 0 then h else set_flag flags h

unfoldable pub update_settings : ℕ → GoString → LogHelper → LogHelper
update_settings cfgidx sel h =
    let sel = to_lower sel in
    if cfgidx == 0
    then record h { logtofile = str_eq (codes "true") sel }
    else if cfgidx == 1
    then record h { loglasttime = one_if_zero (number_or sel h.loglasttime) }
    else if cfgidx == 2
    then record h { logpriority = priority_of sel h.logpriority }
    else if cfgidx == 3
    then set_flag_unless_zero (prefix_flags (split 43 sel) 0) h
    else if cfgidx == 4
    then record h { loglevelprefix = number_or sel h.loglevelprefix }
    else h

-- The loop of Init over the sections; false if one is not supported.
unfoldable pub read_settings : List GoString → LogHelper → Bool × LogHelper
read_settings [] h = (true, h)
read_settings (v ∷ sections) h =
    if length v == 0 then read_settings sections h else elim (search_cfg_index v) [
      | none ↦ (false, h)
      | some (cfgidx, sel) ↦ read_settings sections (update_settings cfgidx sel h)
    ]

-- The file is closed.
abbrev pub release : LogHelper → LogHelper
release h = record h { has_file = false }

-- The fields that Init sets first, and the call of Release.
abbrev pub reset : LogHelper → LogHelper
reset h = release (record h {
  logtofile = true;
  loglasttime = pos 1;
  logpriority = 0;
  initialized = true;
  logprefix = logp_level;
  stack_level = 0;
})

abbrev pub with_basename : GoString → LogHelper → LogHelper
with_basename name h = if ltb 0 (length name) then record h { logbasefilename = name } else h

-- The file is created if logging goes to it.
abbrev pub open_file : Bool → LogHelper → Bool × LogHelper
open_file created h =
    if h.logtofile
    then if created
      then (true, record h { has_file = true })
      else (false, record h { logtofile = false })
    else (true, h)

-- `created` is whether os.Create succeeds; false in the result is an error.
unfoldable pub init : GoString → GoString → Bool → LogHelper → Bool × LogHelper
init logfilename setting created h =
    let (ok, h') = read_settings (split 95 setting) (reset h) in
    if ok then open_file created (with_basename logfilename h') else (false, h')

abbrev pub bool_to_string : Bool → GoString
bool_to_string b = if b then codes "true" else codes "false"

abbrev pub priority_to_string : ℕ → GoString
priority_to_string p =
    if p == 0
    then codes "DEBUG"
    else if p == 1
    then codes "INFO"
    else if p == 2
    then codes "WARN"
    else if p == 3
    then codes "ERROR"
    else if p == 4
    then codes "FATAL"
    else codes "UNKNOWN"

abbrev pub priority_to_sstring : ℕ → GoString
priority_to_sstring p =
    if p == 0
    then codes "D"
    else if p == 1
    then codes "I"
    else if p == 2
    then codes "W"
    else if p == 3
    then codes "E"
    else if p == 4
    then codes "F"
    else codes "U"

-- A name is added behind a plus, if its bit is set.
abbrev pub add_name : Bool → GoString → GoString → GoString
add_name set name prefixes =
    if set then if length prefixes == 0 then name else prefixes ++ 43 ∷ name else prefixes

abbrev pub or_unknown : GoString → GoString
or_unknown prefixes = if length prefixes == 0 then codes "UNKNOWN" else prefixes

pub prefix_to_string : ℕ → GoString
prefix_to_string p =
    if p == 0
    then codes "NONE"
    else or_unknown (
        add_name (has_bit p logp_fileline) (codes "FILELINE") (
          add_name (has_bit p logp_time) (codes "TIME") (
            add_name (has_bit p logp_day) (codes "DATE")
              (add_name (has_bit p logp_level) (codes "LEVEL") []))))
