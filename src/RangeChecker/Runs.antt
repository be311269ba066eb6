-- ===== src/RangeChecker/Runs.antt =====
-- Runs of src/util/data_range_checker.hpp.
use clientplugin.Base.{◌≡◌, true, false, arith, ok, if◌then◌else◌}
use clientplugin.RangeChecker.{DataRange, DataRangeChecker, add_range, is_position_in_range}
use clientplugin.RangeChecker.Laws.{within, is_position_in_range-add_range}

abbrev checker : DataRangeChecker
checker = record { base = 4096; range = λ _. false }

abbrev function_range : DataRange
function_range = record { begin = 5000; length = 16 }

abbrev last_range : DataRange
last_range = record { begin = 0xFFFF_FFF0; length = 16 }

is_position_in_range-add_range_example :
    (c' : DataRangeChecker) × (add_range checker function_range ≡ ok c')
    × (c'.base ≡ 4096)
    × (is_position_in_range c' 5015
        ≡ (if within 5000 5016 5015 then ok true else is_position_in_range checker 5015))
is_position_in_range-add_range_example =
    is_position_in_range-add_range checker function_range 5015 (omega arith) (omega arith)
      (omega arith) (omega arith)
