-- ===== src/Client/Progress.antt =====
-- llm_client.py, LLMClient._post_with_retries: how far a call is from its end.
pub mod Failures
pub mod Ends
use label_kit.Prelude.{
  ℕ, zero, suc, ◌+◌, ◌-◌, ◌*◌, ◌≤◌, ◌<◌, ◌≡◌, refl, ◌∙◌, ap, sym, ◌⊎◌, Bool, true, false, ◌||◌,
  Option, none, some, List, [], ◌∷◌, arith, length, is_nil, max, nat_beq, leb, ltb, if◌then◌else◌,
  Bool-cases, Option-cases, inl, inr, String,
}
use label_kit.Breaker.{Breaker, Result, record_provider_result}
use label_kit.Client.Pool.{KeyState, live, select, update_key, key_at, earliest_wake, new_pool}
use label_kit.Client.Pool.Count.{
  live_count, live_except, IsNumbered, Keeps, update_key-IsNumbered, live_count-update_key,
  live_except-update_key, disabled_key, live_count-disable, live_except-disable, live_except-le,
  live_count-key_at, select-live, earliest_wake-pos, live_count-length, new_pool-IsNumbered,
  length-new_pool,
}
use label_kit.Client.Call.{
  Spec, Call, Phase, ready, parked, sent, returned, raised, Reply, transport, pool_timeout,
  response, Other, send, answer, disable, clear_429, cool, result, account, Event, resume, wake,
  replied, other, ProfileUsage, AttemptFailure, Decoded, bad_json, malformed, parsed, finish,
  ensure_usage, update_usage,
}
use label_kit.Client.Call.Settle.{
  has, on_key, settle_terminal, record_success, record_result, is_auth, absorb_auth_failure,
  settle_non_retryable, apply_429_cooldown, cool_key, one_more_429, retry, sleep_for,
}
use label_kit.Client.Call.Steps.{
  abort, send_with, begin_park, send_or_park, next_round, look_up, settle_failure, after_failure,
  settle_2xx, receive, landed, act, at_phase, step, run, start,
}

-- The retries left, the keys counted and the time that may still be spent parking.
abbrev pub rounds_left : Spec → (attempt keys spent : ℕ) → ℕ
rounds_left spec attempt keys spent = spec.max_retries - attempt + keys + (spec.park_budget - spent)

module _ {R : Type 0} where
  abbrev pub left_at : Spec → Phase R → Call R → ℕ
  left_at spec (ready d) c =
      if c.breaker.circuit_broken
      then 1
      else 2 * rounds_left spec c.attempt (live_count c.pool) c.park_spent + 2
  left_at spec (parked s w) c = 2 * rounds_left spec c.attempt (live_count c.pool) c.park_spent + 1
  left_at spec (sent i env) c =
      2
        * rounds_left spec c.attempt (max (live_count c.pool) (live_except i c.pool + 1))
            c.park_spent
      + 1
  left_at spec (returned v) c = 0
  left_at spec (raised e) c = 0

  unfoldable pub measure : Spec → Call R → ℕ
  measure spec c = left_at spec c.phase c

  abbrev pub FitsBudget : Spec → Phase R → ℕ → Type 0
  FitsBudget spec (parked s w) spent = (0 < w) × (spent + w ≤ spec.park_budget)
  FitsBudget spec _ spent = Unit {0}

  pub record IsSound (spec : Spec) (c : Call R) : Type 0 where
    pub numbered : IsNumbered 0 c.pool
    pub budget : FitsBudget spec c.phase c.park_spent

  -- The event fits the phase and the coroutine goes on.
  abbrev pub moves_at : Phase R → Event R → Call R → Bool
  moves_at (ready d) (resume now) c = true
  moves_at (parked started wait) (wake now) c = c.breaker.circuit_broken || leb (started + wait) now
  moves_at (sent i env) (replied latency now draw r) c = true
  moves_at p e c = false

  unfoldable pub moves_on : Event R → Call R → Bool
  moves_on e c = moves_at c.phase e c

  -- The number of events with which the coroutine goes on.
  unfoldable pub moves : Spec → List (Event R) → Call R → ℕ
  unfolding moves_on
  moves spec [] c = 0
  moves spec (e ∷ es) c = (if moves_on e c then 1 else 0) + moves spec es (step spec e c)

  abbrev pub is_over : Phase R → Bool
  is_over (returned v) = true
  is_over (raised e) = true
  is_over _ = false

  -- Some event makes the coroutine go on.
  abbrev pub CanMove : Call R → Type 0
  CanMove c = (e : Event R) × (moves_on e c ≡ true)
