-- ===== src/Breaker/Examples.antt =====
-- labelkit/common/observability/obslog.py: the breaker's theorem at concrete values.
use label_kit.Prelude.{◌≡◌, true, false, ◌||◌, List, [], ◌∷◌, arith, leb}
use label_kit.Breaker.{Result, new, record_all}
use label_kit.Breaker.Laws.{any_hard, longest_streak, circuit_broken-record_all}

abbrev fatal_result : Result
fatal_result = record { fatal = true; hard = false }

abbrev good_result : Result
good_result = record { fatal = false; hard = false }

abbrev results : List Result
results = fatal_result ∷ good_result ∷ fatal_result ∷ fatal_result ∷ good_result ∷ []

circuit_broken-record_all_example :
    (record_all (new 2) results).circuit_broken
    ≡ (any_hard results || leb 2 (longest_streak 0 results))
circuit_broken-record_all_example = circuit_broken-record_all 2 results (omega arith)
