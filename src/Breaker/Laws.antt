-- ===== src/Breaker/Laws.antt =====
-- obslog.py: theorems on the circuit breaker over a run of provider results.
use label_kit.Prelude.{
  ℕ, ◌+◌, ◌<◌, ◌≡◌, Bool, true, false, ◌&&◌, ◌||◌, List, [], ◌∷◌, arith, leb, max, if◌then◌else◌,
  Bool-cases, inl, inr,
}
use label_kit.Breaker.{Breaker, new, Result, record_provider_result, record_all}

-- The longest run of fatal results, where `streak` fatal results stand before the list.
pub longest_streak : ℕ → List Result → ℕ
longest_streak streak [] = 0
longest_streak streak (r ∷ rs) =
    if r.fatal then max (streak + 1) (longest_streak (streak + 1) rs) else longest_streak 0 rs

-- Some fatal result is a hard one.
pub any_hard : List Result → Bool
any_hard [] = false
any_hard (r ∷ rs) = r.fatal && r.hard || any_hard rs

record_all_lem :
    (b : Breaker) (rs : List Result)
    → 0 < b.fatal_error_threshold
    → (record_all b rs).circuit_broken ≡ (
        b.circuit_broken
        || (any_hard rs || leb b.fatal_error_threshold (longest_streak b.fatal_streak rs)))
unfolding record_all longest_streak any_hard record_provider_result
record_all_lem b [] h = ground arith
record_all_lem b (r ∷ rs) h = elim (Bool-cases r.fatal) [
  | inl e ↦
      let streak = b.fatal_streak + 1 in
      let rest =
        record_all_lem
          (record b {
            fatal_streak = streak;
            circuit_broken =
                if r.hard || leb b.fatal_error_threshold streak then true else b.circuit_broken;
          })
          rs h in
      ground (arith, rest, e)
  | inr e ↦
      let rest = record_all_lem (record b { fatal_streak = 0 }) rs h in ground (arith, rest, e)
]

-- With a threshold of at least 1, the circuit is broken after some results exactly if one of them was
-- a hard fatal error, or as many fatal errors as the threshold says came in a row.
pub circuit_broken-record_all :
    (threshold : ℕ) (rs : List Result)
    → 0 < threshold
    → (record_all (new threshold) rs).circuit_broken
      ≡ (any_hard rs || leb threshold (longest_streak 0 rs))
unfolding new
circuit_broken-record_all threshold rs h = record_all_lem (new threshold) rs h
