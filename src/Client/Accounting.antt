-- ===== src/Client/Accounting.antt =====
-- llm_client.py, LLMClient._post_with_retries: what a call tells the metrics sink.
pub mod Told
pub mod Run
use label_kit.Prelude.{
  ℕ, zero, suc, ◌+◌, ◌-◌, ◌≤◌, ◌<◌, ◌≡◌, refl, sym, ap, ◌∙◌, Bool, true, false, ◌||◌, ◌&&◌, Option,
  none, some, List, [], ◌∷◌, ◌++◌, arith, is_nil, is_some, nat_beq, leb, ltb, if◌then◌else◌,
  Bool-cases, Option-cases, inl, inr, String, subst, ltb→lt,
}
use label_kit.Prelude.Dict.{or_default}
use label_kit.Breaker.{Breaker, Result, record_provider_result}
use label_kit.Client.Pool.{KeyState, live, select, key_at, earliest_wake, backoff_delay}
use label_kit.Client.Call.{
  Spec, Call, Entry, provider_result, llm_call, key_disabled, key_cooldown, pool_parked, Status,
  status_ok, status_fatal, retryable_exhausted, breaker_aborted, Raised, tripped, fatal_status,
  fatal_response, no_live_key, exhausted, context_overflow, internal_error, overflow_error, Phase,
  ready, parked, sent, returned, raised, Reply, transport, pool_timeout, response, Other, send,
  answer, disable, clear_429, cool, result, account, Event, resume, wake, replied, other,
  ProfileUsage, AttemptFailure, Decoded, bad_json, fatal, malformed, parsed, finish, ensure_usage,
  update_usage,
}
use label_kit.Client.Call.Overflow.{sniff_overflow_400, has_status}
use label_kit.Client.Call.Settle.{
  has, on_key, disable_key, give_up, cooldown_of, settle_terminal, record_success, record_result,
  is_auth, absorb_auth_failure, settle_non_retryable, apply_429_cooldown, cool_key, one_more_429,
  retry, sleep_for,
}
use label_kit.Client.Call.Steps.{
  goes_on, abort, send_with, begin_park, send_or_park, next_round, look_up, settle_failure,
  after_failure, plain_failure, classify_http_failure, settle_2xx, receive, landed, act, at_phase,
  step, run, start, is_retryable_status,
}

-- The provider results that were reported, and the ends of calls with their numbers of retries.
unfoldable pub results_in : List Entry → List Result
results_in [] = []
results_in (provider_result r ∷ log) = r ∷ results_in log
results_in (llm_call _ _ _ _ ∷ log) = results_in log
results_in (key_disabled _ _ ∷ log) = results_in log
results_in (key_cooldown _ _ _ ∷ log) = results_in log
results_in (pool_parked _ _ ∷ log) = results_in log

unfoldable pub ends_in : List Entry → List (Status × ℕ)
ends_in [] = []
ends_in (provider_result _ ∷ log) = ends_in log
ends_in (llm_call how _ retries _ ∷ log) = (how, retries) ∷ ends_in log
ends_in (key_disabled _ _ ∷ log) = ends_in log
ends_in (key_cooldown _ _ _ ∷ log) = ends_in log
ends_in (pool_parked _ _ ∷ log) = ends_in log

abbrev pub one_fatal : Bool → List Result
one_fatal hard = record { fatal = true; hard = hard } ∷ []

module _ {R : Type 0} where
  -- What is told of a call in a phase, after a number of retries.
  abbrev pub told_results : Phase R → List Result
  told_results (ready _) = []
  told_results (parked _ _) = []
  told_results (sent _ _) = []
  told_results (returned _) = record { fatal = false; hard = false } ∷ []
  told_results (raised tripped) = []
  told_results (raised (fatal_status status _)) = one_fatal (is_auth (some status))
  told_results (raised fatal_response) = one_fatal false
  told_results (raised (no_live_key _)) = one_fatal false
  told_results (raised (exhausted _ _)) = one_fatal false
  told_results (raised context_overflow) = []
  told_results (raised internal_error) = []
  told_results (raised overflow_error) = []

  abbrev pub told_ends : Phase R → ℕ → List (Status × ℕ)
  told_ends (ready _) n = []
  told_ends (parked _ _) n = []
  told_ends (sent _ _) n = []
  told_ends (returned _) n = (status_ok, n) ∷ []
  told_ends (raised tripped) n = if nat_beq n 0 then [] else (breaker_aborted, n) ∷ []
  told_ends (raised (fatal_status _ _)) n = (status_fatal, n) ∷ []
  told_ends (raised fatal_response) n = (status_fatal, n) ∷ []
  told_ends (raised (no_live_key _)) n = (status_fatal, n) ∷ []
  told_ends (raised (exhausted _ _)) n = (retryable_exhausted, n) ∷ []
  told_ends (raised context_overflow) n = (status_fatal, n) ∷ []
  told_ends (raised internal_error) n = []
  told_ends (raised overflow_error) n = []

  pub record IsAccounted (spec : Spec) (c : Call R) : Type 0 where
    pub results : results_in c.log ≡ told_results c.phase
    pub ends : ends_in c.log ≡ told_ends c.phase c.retries_used
    pub counted : c.retries_used ≡ c.attempt
    pub bounded : c.attempt ≤ spec.max_retries
