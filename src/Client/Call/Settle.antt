-- ===== src/Client/Call/Settle.antt =====
-- llm_client.py: how one attempt is settled: a success, the failures that end the call, and those
-- after which it goes on.
use label_kit.Prelude.{
  ℕ, ◌+◌, Bool, true, false, ◌||◌, List, Option, none, some, String, ltb, if◌then◌else◌, length,
  is_nil, is_some,
}
use label_kit.Prelude.Dict.{or_default}
use label_kit.Breaker.{Result, record_provider_result}
use label_kit.Client.Pool.{
  KeyState, live, update_key, key_at, drawn, key_cooldown_upper, backoff_delay,
}
use label_kit.Client.Call.{
  Spec, Call, Status, status_ok, status_fatal, retryable_exhausted, fatal_status, exhausted,
  context_overflow, overflow_error, ready, returned, raised, AttemptFailure, provider_result,
  llm_call, key_disabled, key_cooldown, note, finish, update_usage, push_latency,
}
use label_kit.Client.Call.Overflow.{sniff_overflow_400, has_status}

abbrev pub has : {A : Type 0} → (A → Bool) → Option A → Bool
has p none = false
has p (some a) = p a

abbrev pub is_auth : Option ℕ → Bool
is_auth status = has_status status 401 || has_status status 403

abbrev consec_at : ℕ → List KeyState → ℕ
consec_at i pool = elim (key_at i pool) [ none ↦ 0 | some s ↦ s.consec_429 ]

module _ {R : Type 0} where
  abbrev pub on_key : Call R → ℕ → (KeyState → KeyState) → Call R
  on_key c i f = record c { pool = update_key i f c.pool }

  -- self._record_provider_result(fatal=..., hard=...)
  unfoldable pub record_result : Call R → Result → Call R
  record_result c r =
      note (record c { breaker = record_provider_result c.breaker r }) (provider_result r)

  -- The name of the last key is given where the pool has several.
  abbrev pub key_extra : Call R → Option String
  key_extra c = if ltb 1 (length c.pool) then c.last_env else none

  abbrev pub emit_llm_call : Call R → Status → Call R
  emit_llm_call c status = note c (llm_call status c.latency_ms c.retries_used (key_extra c))

  abbrev pub add_retries : Call R → Call R
  add_retries c = record c { acc = record c.acc { retries = c.acc.retries + c.retries_used } }

  unfoldable pub settle_terminal : Status → (feed_breaker hard : Bool) → Call R → Call R
  unfolding record_result
  settle_terminal status feed_breaker hard c =
      let fed =
        if feed_breaker then record_result c (record { fatal = true; hard = hard }) else c in
      emit_llm_call (add_retries fed) status

  unfoldable pub record_success : ℕ → String → R → Call R → Call R
  unfolding record_result
  record_success i env result c =
      let cleared = on_key c i (λ s. record s { consec_429 = 0 }) in
      let used = update_usage cleared env (λ u. record u { calls = u.calls + 1 }) in
      let fed = record_result used (record { fatal = false; hard = false }) in
      let told = emit_llm_call fed status_ok in
      finish (record told { latencies = push_latency told.latencies told.latency_ms })
        (returned result)

  abbrev pub disable_key : ℕ → String → ℕ → Call R → Call R
  disable_key i env status c =
      let off = on_key c i (λ s. record s { disabled = true }) in
      note (update_usage off env (λ u. record u { disabled = true })) (key_disabled env status)

  -- `_absorb_auth_failure`, for a status that is_auth.
  unfoldable pub absorb_auth_failure : ℕ → String → ℕ → Call R → Call R
  unfolding settle_terminal
  absorb_auth_failure i env status c =
      let off = if has (λ s. s.disabled) (key_at i c.pool) then c else disable_key i env status c in
      if is_nil (live off.pool)
      then finish (settle_terminal status_fatal true true off) (raised (fatal_status status env))
      else finish off (ready 0)

  -- `_settle_non_retryable`, for a failure that is not retryable.
  unfoldable pub settle_non_retryable : Spec → String → AttemptFailure → Call R → Call R
  unfolding settle_terminal sniff_overflow_400
  settle_non_retryable spec env f c =
      if sniff_overflow_400 spec.lower spec.context_window f.status_code f.body_text
      then finish (settle_terminal status_fatal false false c) (raised context_overflow)
      else finish (settle_terminal status_fatal true false c)
          (raised (fatal_status (or_default f.status_code 0) env))

  abbrev pub one_more_429 : ℕ → String → Call R → Call R
  one_more_429 i env c =
      update_usage (on_key c i (λ s. record s { consec_429 = s.consec_429 + 1 })) env
        (λ u. record u { rate_limited = u.rate_limited + 1 })

  abbrev pub cooldown_of : Spec → ℕ → (ℕ → ℕ) → AttemptFailure → Call R → Option ℕ
  cooldown_of spec i draw f c = elim f.retry_after [
    | some r ↦ some r
    | none ↦ drawn draw (key_cooldown_upper spec.retry_base_delay (consec_at i c.pool))
  ]

  -- The second half of `_apply_429_cooldown`; no cooldown stands for an OverflowError.
  abbrev pub cool_key : ℕ → ℕ → String → Bool → Option ℕ → Call R → Call R
  cool_key now i env given none c = finish c (raised overflow_error)
  cool_key now i env given (some cooldown) c =
      note (on_key c i (λ s. record s { cooldown_until = now + cooldown }))
        (key_cooldown env cooldown given)

  unfoldable pub apply_429_cooldown :
      Spec → (now : ℕ) → (draw : ℕ → ℕ) → ℕ → String → AttemptFailure → Call R → Call R
  apply_429_cooldown spec now draw i env f c =
      let counted = one_more_429 i env c in
      cool_key now i env (is_some f.retry_after) (cooldown_of spec i draw f counted) counted

  -- `_guard_retry_budget`
  unfoldable pub give_up : String → Call R → Call R
  unfolding settle_terminal
  give_up env c =
      finish (settle_terminal retryable_exhausted true false c)
        (raised (exhausted c.retries_used (some env)))

  abbrev pub sleep_for : Option ℕ → Call R → Call R
  sleep_for none c = finish c (raised overflow_error)
  sleep_for (some delay) c = finish c (ready delay)

  -- From the check of the retry budget to the next attempt.
  unfoldable pub retry : Spec → (draw : ℕ → ℕ) → String → AttemptFailure → Call R → Call R
  unfolding give_up settle_terminal
  retry spec draw env f c =
      if ltb c.attempt spec.max_retries
      then (let next = record c { attempt = c.attempt + 1; retries_used = c.retries_used + 1 } in
          if has_status f.status_code 429
          then finish next (ready 0)
          else sleep_for (backoff_delay next.attempt spec.retry_base_delay draw) next)
      else give_up env c
