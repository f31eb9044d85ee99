-- ===== src/Breaker.antt =====
-- labelkit/common/observability/obslog.py, MetricsSink: the circuit breaker over provider results.
mod Examples
pub mod Laws
use label_kit.Prelude.{ℕ, ◌+◌, Bool, true, false, ◌||◌, List, [], ◌∷◌, leb, if◌then◌else◌}

-- The fields of the metrics sink that the breaker reads and writes.
pub record Breaker : Type 0 where
  pub fatal_error_threshold : ℕ
  pub fatal_streak : ℕ
  pub circuit_broken : Bool

unfoldable pub new : ℕ → Breaker
new threshold = record {
  fatal_error_threshold = threshold;
  fatal_streak = 0;
  circuit_broken = false;
}

pub record Result : Type 0 where
  pub fatal : Bool
  pub hard : Bool

unfoldable pub record_provider_result : Breaker → Result → Breaker
record_provider_result b r =
    if r.fatal
    then (let streak = b.fatal_streak + 1 in
        record b {
          fatal_streak = streak;
          circuit_broken =
              if r.hard || leb b.fatal_error_threshold streak then true else b.circuit_broken;
        })
    else record b { fatal_streak = 0 }

unfoldable pub record_all : Breaker → List Result → Breaker
record_all b [] = b
record_all b (r ∷ rs) = record_all (record_provider_result b r) rs
