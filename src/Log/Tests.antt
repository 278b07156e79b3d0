-- ===== src/Log/Tests.antt =====
-- Settings, and the date of a log file.
use bmservers.Prelude.{◌≡◌, refl, true, some, [], ◌∷◌, GoString, codes, arith, str_eq}
use bmservers.Prelude.Int.{pos}
use bmservers.Prelude.Split.{split}
use bmservers.Prelude.Decimal.{atoi}
use bmservers.Log.{LogHelper, search_cfg_index, update_settings, read_settings, init}
use bmservers.Log.Lines.{get_date_string}
use bmservers.Log.Dates.{get_date_string-parts}

abbrev helper : LogHelper
helper = record {
  has_file = true;
  logtofile = true;
  loglasttime = pos 0;
  logpriority = 0;
  logprefix = 0;
  loglevelprefix = pos 0;
  logbasefilename = [];
  initialized = true;
  stack_level = 0;
}

abbrev setting : GoString
setting = codes "LogPrefix:LEVEL+FILELINE_LogPriority:WARN_LogLastTime:0"

settles : (init (codes "gs") setting true helper).1 ≡ record helper {
  loglasttime = pos 1;
  logpriority = 2;
  logprefix = 9;
  logbasefilename = codes "gs";
}
unfolding init read_settings search_cfg_index update_settings str_eq atoi
settles = refl

get_date_string-parts_example :
    (y : GoString) × (m : GoString) × (d : GoString) × (split 46
        (get_date_string (pos 2016) 3 21 (codes "."))
      ≡ y ∷ m ∷ d ∷ [])
    × (atoi y ≡ some (pos 2016))
    × (atoi m ≡ some (pos 3))
    × (atoi d ≡ some (pos 21))
get_date_string-parts_example =
    get_date_string-parts 2016 3 21 (omega arith) (omega arith) (omega arith)
