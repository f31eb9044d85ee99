-- ===== src/Client/Call/Steps.antt =====
-- llm_client.py, LLMClient._post_with_retries: the loop over attempts as a machine whose events are
-- the points where the coroutine waits.
use label_kit.Prelude.{
  ℕ, ◌+◌, ◌-◌, ◌/◌, Bool, true, false, ◌&&◌, ◌||◌, List, [], ◌∷◌, Option, none, some, String,
  nat_beq, ltb, leb, if◌then◌else◌, length, is_nil,
}
use label_kit.Prelude.Dict.{or_default}
use label_kit.Breaker.{Breaker, record_provider_result}
use label_kit.Client.Pool.{KeyState, live, select, earliest_wake}
use label_kit.Client.Call.{
  Spec, Call, breaker_aborted, status_fatal, retryable_exhausted, tripped, fatal_response,
  no_live_key, exhausted, internal_error, Phase, ready, parked, sent, raised, AttemptFailure,
  Response, Decoded, bad_json, fatal, malformed, parsed, Reply, transport, pool_timeout, response,
  Other, send, answer, disable, clear_429, cool, result, account, Event, resume, wake, replied,
  other, ProfileUsage, pool_parked, note, finish, ensure_usage,
}
use label_kit.Client.Call.Settle.{
  on_key, emit_llm_call, add_retries, settle_terminal, record_success, is_auth, absorb_auth_failure,
  settle_non_retryable, apply_429_cooldown, retry,
}
use label_kit.Client.Call.Overflow.{has_status}

-- `_is_retryable_status`
unfoldable pub is_retryable_status : ℕ → Bool
is_retryable_status status =
    nat_beq status 408
    || (nat_beq status 409 || (nat_beq status 429 || (leb 500 status && leb status 599)))

-- A failure with no status.
abbrev pub plain_failure : AttemptFailure
plain_failure = record { status_code = none; body_text = []; retry_after = none; retryable = true }

module _ {R : Type 0} where
  -- `_guard_breaker`, where the circuit is broken.
  abbrev pub abort : Call R → Call R
  abort c =
      let told =
        if nat_beq c.retries_used 0 then c else emit_llm_call (add_retries c) breaker_aborted in
      finish told (raised tripped)

  -- An attempt goes out with the key.
  unfoldable pub send_with : KeyState → Call R → Call R
  unfolding ensure_usage
  send_with key c =
      let named = ensure_usage (record c { last_env = some key.env }) key.env in
      finish (on_key named key.index (λ s. record s { in_flight = s.in_flight + 1 }))
        (sent key.index key.env)

  unfoldable pub begin_park : ℕ → ℕ → Call R → Call R
  begin_park now wait c =
      let counted = if c.has_parked then c else record c {
        has_parked = true;
        acc = record c.acc { parked_calls = c.acc.parked_calls + 1 };
      } in
      finish (note counted (pool_parked wait (length (live c.pool)))) (parked now wait)

  -- `_select_key`, with what is done with the key.
  unfoldable pub send_or_park : Spec → ℕ → Option KeyState → Call R → Call R
  unfolding settle_terminal
  send_or_park spec now (some key) c = send_with key c
  send_or_park spec now none c =
      if is_nil (live c.pool)
      then finish (settle_terminal status_fatal true false c) (raised (no_live_key c.last_env))
      else (let wait = earliest_wake now c.pool in
          if nat_beq spec.park_budget 0 || ltb spec.park_budget (c.park_spent + wait)
          then finish (settle_terminal retryable_exhausted true false c)
              (raised (exhausted c.retries_used c.last_env))
          else begin_park now wait c)

  -- The top of the loop.
  unfoldable pub next_round : Spec → ℕ → Call R → Call R
  unfolding send_or_park
  next_round spec now c =
      if c.breaker.circuit_broken then abort c else send_or_park spec now (select now c.pool) c

  -- One look of `_park` at the breaker and at the clock; after it the coroutine sleeps on, or it has
  -- parked for `now - started`, in microseconds.
  unfoldable pub look_up : ℕ → ℕ → ℕ → Call R → Call R
  look_up started wait now c =
      if c.breaker.circuit_broken || leb (started + wait) now
      then (let elapsed = now - started in
          finish
            (record c {
              park_spent = c.park_spent + elapsed;
              acc = record c.acc { parked_ms = c.acc.parked_ms + elapsed / 1000 };
            })
            (ready 0))
      else c

  abbrev pub goes_on : Phase R → Call R → Call R → Call R
  goes_on (raised e) c next = c
  goes_on _ c next = next

  -- The loop's body after `_dispatch_attempt` returned a failure that is no 401 or 403.
  unfoldable pub settle_failure : Spec → ℕ → (ℕ → ℕ) → ℕ → String → AttemptFailure → Call R → Call R
  unfolding settle_non_retryable apply_429_cooldown retry
  settle_failure spec now draw i env f c =
      if f.retryable
      then (let cooled =
            if has_status f.status_code 429
            then apply_429_cooldown spec now draw i env f c
            else c in
          goes_on cooled.phase cooled (retry spec draw env f cooled))
      else settle_non_retryable spec env f c

  unfoldable pub after_failure : Spec → ℕ → (ℕ → ℕ) → ℕ → String → AttemptFailure → Call R → Call R
  unfolding settle_failure absorb_auth_failure
  after_failure spec now draw i env f c =
      if is_auth f.status_code
      then absorb_auth_failure i env (or_default f.status_code 0) c
      else settle_failure spec now draw i env f c

  -- `_classify_http_failure`
  unfoldable pub classify_http_failure : Response R → AttemptFailure
  unfolding is_retryable_status
  classify_http_failure r = record {
    status_code = some r.status_code;
    body_text = r.body;
    retry_after = if nat_beq r.status_code 429 then r.retry_after else none;
    retryable = is_retryable_status r.status_code;
  }

  -- `_settle_2xx`
  unfoldable pub settle_2xx : Spec → ℕ → (ℕ → ℕ) → ℕ → String → Decoded R → Call R → Call R
  unfolding settle_terminal record_success after_failure
  settle_2xx spec now draw i env fatal c =
      finish (settle_terminal status_fatal true false c) (raised fatal_response)
  settle_2xx spec now draw i env (parsed v) c = record_success i env v c
  settle_2xx spec now draw i env bad_json c = after_failure spec now draw i env plain_failure c
  settle_2xx spec now draw i env malformed c = after_failure spec now draw i env plain_failure c

  -- The reply is there: the request is no longer in flight.
  abbrev pub landed : ℕ → ℕ → Call R → Call R
  landed latency i c =
      on_key (record c { latency_ms = latency }) i (λ s. record s { in_flight = s.in_flight - 1 })

  unfoldable pub receive : Spec → ℕ → ℕ → (ℕ → ℕ) → ℕ → String → Reply R → Call R → Call R
  unfolding after_failure settle_2xx classify_http_failure
  receive spec latency now draw i env transport c =
      after_failure spec now draw i env plain_failure (landed latency i c)
  receive spec latency now draw i env pool_timeout c =
      finish (landed c.latency_ms i c) (raised internal_error)
  receive spec latency now draw i env (response r) c =
      if leb 200 r.status_code && ltb r.status_code 300
      then settle_2xx spec now draw i env r.decoded (landed latency i c)
      else after_failure spec now draw i env (classify_http_failure r) (landed latency i c)

  unfoldable pub act : Other → Call R → Call R
  act (send i) c = on_key c i (λ s. record s { in_flight = s.in_flight + 1 })
  act (answer i) c = on_key c i (λ s. record s { in_flight = s.in_flight - 1 })
  act (disable i) c = on_key c i (λ s. record s { disabled = true })
  act (clear_429 i) c = on_key c i (λ s. record s { consec_429 = 0 })
  act (cool i until) c =
      on_key c i (λ s. record s { consec_429 = s.consec_429 + 1; cooldown_until = until })
  act (result r) c = record c { breaker = record_provider_result c.breaker r }
  act (account f) c = record c { acc = f c.acc }

  -- An event that does not fit the phase changes nothing.
  unfoldable pub at_phase : Spec → Phase R → Event R → Call R → Call R
  unfolding next_round look_up receive act
  at_phase spec p (other o) c = act o c
  at_phase spec (ready delay) (resume now) c = next_round spec now c
  at_phase spec (parked started wait) (wake now) c = look_up started wait now c
  at_phase spec (sent i env) (replied latency now draw r) c =
      receive spec latency now draw i env r c
  at_phase spec p e c = c

  unfoldable pub step : Spec → Event R → Call R → Call R
  unfolding at_phase
  step spec e c = at_phase spec c.phase e c

  unfoldable pub run : Spec → List (Event R) → Call R → Call R
  unfolding step
  run spec [] c = c
  run spec (e ∷ es) c = run spec es (step spec e c)

  -- A call as it begins, on the pool, the breaker and the usage that it finds.
  unfoldable pub start : List KeyState → Breaker → ProfileUsage → Call R
  start pool breaker acc = record {
    pool = pool;
    breaker = breaker;
    acc = acc;
    latencies = [];
    log = [];
    retries_used = 0;
    latency_ms = 0;
    park_spent = 0;
    has_parked = false;
    last_env = none;
    attempt = 0;
    phase = ready 0;
  }
