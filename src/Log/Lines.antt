-- ===== src/Log/Lines.antt =====
-- The lines that shareutils/LogHelper.go writes: prefixes, levels and dates.
use bmservers.Prelude.{
  ℕ, not, Option, none, some, List, [], ◌∷◌, ◌++◌, if◌then◌else◌, GoString, codes, length, ltb, leb,
  ◌==◌,
}
use bmservers.Prelude.Int.{ℤ, pos}
use bmservers.Prelude.Assoc.{int_eq}
use bmservers.Prelude.Split.{split}
use bmservers.Prelude.Decimal.{itoa}
use bmservers.Log.{LogHelper, logp_level, logp_fileline, has_bit, priority_to_sstring}

-- LOGL_FATAL
abbrev pub logl_fatal : ℕ
logl_fatal = 4

abbrev pub get_log_level_prefix : ℕ → LogHelper → GoString
get_log_level_prefix level h =
    if int_eq h.loglevelprefix (pos 0)
    then []
    else if level == 0
    then codes "[D]"
    else if level == 2
    then codes "[W]"
    else if level == 3
    then codes "[E]"
    else if level == 1
    then codes "[I]"
    else if level == 4
    then codes "[F]"
    else codes "[U]"

-- The last part of a path.
abbrev pub last_part : List GoString → GoString → GoString
last_part [] file = file
last_part (part ∷ parts) file = last_part parts part

-- What runtime.Caller says, or that it fails.
abbrev pub caller_text : Option (GoString × ℤ) → GoString
caller_text none = codes "???:0"
caller_text (some (file, line)) = last_part (split 47 file) file ++ 58 ∷ itoa line

-- `caller` is the result of runtime.Caller for each number of stack frames.
abbrev pub caller_level : LogHelper → ℕ
caller_level h = if h.stack_level == 0 then 3 else h.stack_level

abbrev pub level_part : ℕ → ℕ → GoString
level_part logprefix level = if has_bit logprefix logp_level then priority_to_sstring level else []

abbrev pub fileline_part : ℕ → GoString → GoString
fileline_part logprefix text = if has_bit logprefix logp_fileline then 32 ∷ text else []

-- The prefix is empty if nothing stands behind its two first bytes.
unfoldable pub get_prefix : (ℕ → Option (GoString × ℤ)) → ℕ → LogHelper → GoString
get_prefix caller level h =
    let parts =
      level_part h.logprefix level
      ++ fileline_part h.logprefix (caller_text (caller (caller_level h))) in
    if h.logprefix == 0 then [] else if length parts == 0 then [] else 91 ∷ 35 ∷ (parts ++ 93 ∷ [])

-- What a call does: it writes nothing, it writes a line, or it writes one and panics.
pub data Written : Type 0 where
  nothing : Written
  line then_panic : GoString → Written

-- After the line, a fatal call panics.
abbrev pub finish : ℕ → GoString → Written
finish level text = if level == logl_fatal then then_panic text else line text

-- logln, with `content` the values as fmt prints them, after a blank if there is a prefix.
unfoldable pub logln : (ℕ → Option (GoString × ℤ)) → ℕ → GoString → LogHelper → Written
logln caller level content h =
    if not h.initialized
    then line content
    else if ltb level h.logpriority
    then nothing
    else let prefix = get_prefix caller level h in
      finish level (if length prefix == 0 then content else prefix ++ 32 ∷ content)

-- logf; log.Println puts a blank before and after the one of the code.
unfoldable pub logf : (ℕ → Option (GoString × ℤ)) → ℕ → GoString → LogHelper → Written
logf caller level content h =
    if not h.initialized
    then line content
    else if ltb level h.logpriority
    then nothing
    else let prefix = get_prefix caller level h in
      finish level (if length prefix == 0 then content else prefix ++ 32 ∷ 32 ∷ 32 ∷ content)

-- The calls by level, as methods and as functions on the default helper.
pub data LogCall : Type 0 where
  debug info warn error fatal : LogCall

abbrev pub level_of : LogCall → ℕ
level_of debug = 0
level_of info = 1
level_of warn = 2
level_of error = 3
level_of fatal = 4

abbrev pub set_stack_level : ℕ → LogHelper → LogHelper
set_stack_level n h = record h { stack_level = n }

-- Debugln to Fatalln, then Debugf to Fatalf.
abbrev pub method_ln : LogCall → (ℕ → Option (GoString × ℤ)) → GoString → LogHelper → Written
method_ln call caller content h = logln caller (level_of call) content h

abbrev pub method_f : LogCall → (ℕ → Option (GoString × ℤ)) → GoString → LogHelper → Written
method_f call caller content h = logf caller (level_of call) content h

-- LogDebugln to LogPrintf: the line, and the helper afterwards; a panic leaves the level at 4.
abbrev pub after_call : Written → LogHelper → Written × LogHelper
after_call nothing h = (nothing, set_stack_level 0 h)
after_call (line text) h = (line text, set_stack_level 0 h)
after_call (then_panic text) h = (then_panic text, h)

unfoldable pub log_ln :
    LogCall → (ℕ → Option (GoString × ℤ)) → GoString → LogHelper → Written × LogHelper
log_ln call caller content h =
    let h' = set_stack_level 4 h in after_call (method_ln call caller content h') h'

pub log_f : LogCall → (ℕ → Option (GoString × ℤ)) → GoString → LogHelper → Written × LogHelper
log_f call caller content h =
    let h' = set_stack_level 4 h in after_call (method_f call caller content h') h'

-- Two digits at least.
abbrev pub two_digits : ℕ → GoString
two_digits n = if leb 10 n then itoa (pos n) else 48 ∷ itoa (pos n)

unfoldable pub get_time_string : ℕ → ℕ → ℕ → GoString → GoString
get_time_string hour minute second spliter =
    two_digits hour ++ (spliter ++ (two_digits minute ++ (spliter ++ two_digits second)))

unfoldable pub get_date_string : ℤ → ℕ → ℕ → GoString → GoString
get_date_string year month day spliter =
    itoa year ++ (spliter ++ (two_digits month ++ (spliter ++ two_digits day)))

-- `basename`, a dash, the date and the extension.
abbrev pub get_log_file_name : GoString → ℤ → ℕ → ℕ → GoString
get_log_file_name basename year month day =
    basename ++ 45 ∷ (get_date_string year month day (codes ".") ++ codes ".log")
