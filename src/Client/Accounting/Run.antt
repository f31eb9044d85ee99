-- ===== src/Client/Accounting/Run.antt =====
-- llm_client.py, LLMClient._post_with_retries: the accounts of a call over its whole run.
use label_kit.Prelude.{
  ℕ, ◌+◌, ◌≡◌, refl, ap, ◌∙◌, Bool, true, false, ◌||◌, ◌&&◌, Option, none, some, List, [], ◌∷◌,
  arith, is_nil, length, nat_beq, leb, ltb, if◌then◌else◌, Bool-cases, inl, inr, String,
}
use label_kit.Breaker.{Breaker}
use label_kit.Client.Pool.{KeyState, live, select, earliest_wake}
use label_kit.Client.Call.{
  Spec, Call, pool_parked, status_fatal, retryable_exhausted, breaker_aborted, tripped,
  fatal_response, no_live_key, exhausted, internal_error, Phase, ready, parked, sent, returned,
  raised, Reply, transport, pool_timeout, response, Other, send, answer, disable, clear_429, cool,
  result, account, Event, resume, wake, replied, other, ProfileUsage, Decoded, bad_json, fatal,
  malformed, parsed, note, finish, ensure_usage, update_usage,
}
use label_kit.Client.Call.Settle.{emit_llm_call, add_retries, record_success, record_result}
use label_kit.Client.Call.Steps.{
  abort, send_with, begin_park, send_or_park, next_round, look_up, plain_failure,
  classify_http_failure, settle_2xx, receive, landed, act, at_phase, step, run, start,
}
use label_kit.Client.Accounting.{results_in, ends_in, told_results, told_ends, IsAccounted}
use label_kit.Client.Accounting.Told.{
  Quiet, IsQuiet-note, Quiet-end, settled_end, results_in-snoc, ends_in-snoc,
  after_failure-IsAccounted,
}

module _ {R : Type 0} (spec : Spec) where
  success-IsAccounted :
      (i : ℕ) (env : String) (v : R) (c : Call R)
      → Quiet spec c
      → IsAccounted spec (record_success i env v c)
  unfolding record_success record_result update_usage results_in ends_in
  success-IsAccounted i env v c q = record {
    results = simp (results_in-snoc, q.results);
    ends = simp (ends_in-snoc, q.ends);
    counted = q.counted;
    bounded = q.bounded;
  }

  settle_2xx-IsAccounted :
      (now i : ℕ) (draw : ℕ → ℕ) (env : String) (d : Decoded R) (c : Call R)
      → c.phase ≡ sent i env
      → Quiet spec c
      → IsAccounted spec (settle_2xx spec now draw i env d c)
  unfolding settle_2xx
  settle_2xx-IsAccounted now i draw env fatal c p q =
      settled_end spec (raised fatal_response) status_fatal true false c refl (λ n. refl) q
  settle_2xx-IsAccounted now i draw env (parsed v) c p q = success-IsAccounted i env v c q
  settle_2xx-IsAccounted now i draw env bad_json c p q =
      after_failure-IsAccounted spec now i draw env plain_failure c p q
  settle_2xx-IsAccounted now i draw env malformed c p q =
      after_failure-IsAccounted spec now i draw env plain_failure c p q

  receive-IsAccounted :
      (latency now i : ℕ) (draw : ℕ → ℕ) (env : String) (r : Reply R) (c : Call R)
      → c.phase ≡ sent i env
      → Quiet spec c
      → IsAccounted spec (receive spec latency now draw i env r c)
  unfolding receive
  receive-IsAccounted latency now i draw env transport c p q =
      after_failure-IsAccounted spec now i draw env plain_failure (landed latency i c) p q
  receive-IsAccounted latency now i draw env pool_timeout c p q =
      Quiet-end spec (raised internal_error) (landed c.latency_ms i c) refl refl q
  receive-IsAccounted latency now i draw env (response r) c p q =
      elim (Bool-cases (leb 200 r.status_code && ltb r.status_code 300)) [
        | inl e ↦ rw e (settle_2xx-IsAccounted now i draw env r.decoded (landed latency i c) p q)
        | inr e ↦ rw e (
            after_failure-IsAccounted spec now i draw env (classify_http_failure r)
              (landed latency i c) p q)
      ]

  aborted :
      (untried : Bool) (c : Call R)
      → nat_beq c.retries_used 0 ≡ untried
      → Quiet spec c
      → IsAccounted spec (
          finish
            (if untried then c else emit_llm_call (add_retries c) breaker_aborted)
            (raised tripped))
  unfolding results_in ends_in
  aborted true c e q = Quiet-end spec (raised tripped) c refl (rw e) q
  aborted false c e q = record {
    results = simp (results_in-snoc, q.results);
    ends = simp (ends_in-snoc, q.ends, e);
    counted = q.counted;
    bounded = q.bounded;
  }

  parked_note :
      (had : Bool) (now wait keys : ℕ) (c : Call R)
      → Quiet spec c
      → (let counted = if had then c else record c {
        has_parked = true;
        acc = record c.acc { parked_calls = c.acc.parked_calls + 1 };
      } in
          IsAccounted spec (finish (note counted (pool_parked wait keys)) (parked now wait)))
  parked_note true now wait keys c q =
      Quiet-end spec (parked now wait) (note c (pool_parked wait keys)) refl refl (
        IsQuiet-note spec c.log c.retries_used c.attempt (pool_parked wait keys)
          (unfold results_in in refl) (unfold ends_in in refl) q)
  parked_note false now wait keys c q =
      let counted = record c {
        has_parked = true;
        acc = record c.acc { parked_calls = c.acc.parked_calls + 1 };
      } in
      Quiet-end spec (parked now wait) (note counted (pool_parked wait keys)) refl refl (
        IsQuiet-note spec c.log c.retries_used c.attempt (pool_parked wait keys)
          (unfold results_in in refl) (unfold ends_in in refl) q)

  begin_park-IsAccounted :
      (now wait : ℕ) (c : Call R) → Quiet spec c → IsAccounted spec (begin_park now wait c)
  unfolding begin_park
  begin_park-IsAccounted now wait c q = parked_note c.has_parked now wait (length (live c.pool)) c q

  select-IsAccounted :
      (now : ℕ) (found : Option KeyState) (c : Call R)
      → Quiet spec c
      → IsAccounted spec (send_or_park spec now found c)
  unfolding send_or_park send_with ensure_usage
  select-IsAccounted now (some key) c q = record {
    results = q.results;
    ends = q.ends;
    counted = q.counted;
    bounded = q.bounded;
  }
  select-IsAccounted now none c q = elim (Bool-cases (is_nil (live c.pool))) [
    | inl n ↦ rw n (
        settled_end spec (raised (no_live_key c.last_env)) status_fatal true false c refl
          (λ n. refl) q)
    | inr n ↦
        let wait = earliest_wake now c.pool in
        elim (Bool-cases
          (nat_beq spec.park_budget 0 || ltb spec.park_budget (c.park_spent + wait))) [
            | inl over ↦
                rw (n, over)
                  (settled_end spec (raised (exhausted c.retries_used c.last_env))
                    retryable_exhausted true false c refl (λ n. refl) q)
            | inr within ↦ rw (n, within) (begin_park-IsAccounted now wait c q)
          ]
  ]

  guarded-IsAccounted :
      (broken : Bool) (now : ℕ) (c : Call R)
      → Quiet spec c
      → IsAccounted spec (if broken then abort c else send_or_park spec now (select now c.pool) c)
  guarded-IsAccounted true now c q = aborted (nat_beq c.retries_used 0) c refl q
  guarded-IsAccounted false now c q = select-IsAccounted now (select now c.pool) c q

  look_up-IsAccounted :
      (over : Bool) (started wait now : ℕ) (c : Call R)
      → c.phase ≡ parked started wait
      → Quiet spec c
      → IsAccounted spec c
      → c.breaker.circuit_broken || leb (started + wait) now ≡ over
      → IsAccounted spec (look_up started wait now c)
  unfolding look_up
  look_up-IsAccounted true started wait now c p q s e =
      rw e (record { results = q.results; ends = q.ends; counted = q.counted; bounded = q.bounded })
  look_up-IsAccounted false started wait now c p q s e = rw e s

  act-IsAccounted : (o : Other) (c : Call R) → IsAccounted spec c → IsAccounted spec (act o c)
  unfolding act
  act-IsAccounted (send i) c s = record {
    results = s.results;
    ends = s.ends;
    counted = s.counted;
    bounded = s.bounded;
  }
  act-IsAccounted (answer i) c s = record {
    results = s.results;
    ends = s.ends;
    counted = s.counted;
    bounded = s.bounded;
  }
  act-IsAccounted (clear_429 i) c s = record {
    results = s.results;
    ends = s.ends;
    counted = s.counted;
    bounded = s.bounded;
  }
  act-IsAccounted (cool i until) c s = record {
    results = s.results;
    ends = s.ends;
    counted = s.counted;
    bounded = s.bounded;
  }
  act-IsAccounted (disable i) c s = record {
    results = s.results;
    ends = s.ends;
    counted = s.counted;
    bounded = s.bounded;
  }
  act-IsAccounted (result r) c s = record {
    results = s.results;
    ends = s.ends;
    counted = s.counted;
    bounded = s.bounded;
  }
  act-IsAccounted (account f) c s = record {
    results = s.results;
    ends = s.ends;
    counted = s.counted;
    bounded = s.bounded;
  }

  Quiet-of :
      (p : Phase R) (c : Call R)
      → c.phase ≡ p
      → told_results p ≡ []
      → told_ends p c.retries_used ≡ []
      → IsAccounted spec c
      → Quiet spec c
  Quiet-of p c e r d s = record {
    results = s.results ∙ ap told_results e ∙ r;
    ends = s.ends ∙ ap (λ (q : Phase R). told_ends q c.retries_used) e ∙ d;
    counted = s.counted;
    bounded = s.bounded;
  }

  phase-IsAccounted :
      (p : Phase R) (e : Event R) (c : Call R)
      → c.phase ≡ p
      → IsAccounted spec c
      → IsAccounted spec (at_phase spec p e c)
  unfolding at_phase next_round
  phase-IsAccounted (ready d) (resume now) c p s =
      guarded-IsAccounted c.breaker.circuit_broken now c (Quiet-of (ready d) c p refl refl s)
  phase-IsAccounted (ready d) (wake now) c p s = s
  phase-IsAccounted (ready d) (replied latency now draw r) c p s = s
  phase-IsAccounted (ready d) (other o) c p s = act-IsAccounted o c s
  phase-IsAccounted (parked started wait) (resume now) c p s = s
  phase-IsAccounted (parked started wait) (wake now) c p s =
      look_up-IsAccounted (c.breaker.circuit_broken || leb (started + wait) now) started wait now c
        p (Quiet-of (parked started wait) c p refl refl s) s refl
  phase-IsAccounted (parked started wait) (replied latency now draw r) c p s = s
  phase-IsAccounted (parked started wait) (other o) c p s = act-IsAccounted o c s
  phase-IsAccounted (sent i env) (resume now) c p s = s
  phase-IsAccounted (sent i env) (wake now) c p s = s
  phase-IsAccounted (sent i env) (replied latency now draw r) c p s =
      receive-IsAccounted latency now i draw env r c p (Quiet-of (sent i env) c p refl refl s)
  phase-IsAccounted (sent i env) (other o) c p s = act-IsAccounted o c s
  phase-IsAccounted (returned v) (resume now) c p s = s
  phase-IsAccounted (returned v) (wake now) c p s = s
  phase-IsAccounted (returned v) (replied latency now draw r) c p s = s
  phase-IsAccounted (returned v) (other o) c p s = act-IsAccounted o c s
  phase-IsAccounted (raised x) (resume now) c p s = s
  phase-IsAccounted (raised x) (wake now) c p s = s
  phase-IsAccounted (raised x) (replied latency now draw r) c p s = s
  phase-IsAccounted (raised x) (other o) c p s = act-IsAccounted o c s

  run_from-IsAccounted :
      (es : List (Event R)) (c : Call R) → IsAccounted spec c → IsAccounted spec (run spec es c)
  unfolding run step
  run_from-IsAccounted [] c s = s
  run_from-IsAccounted (e ∷ es) c s =
      run_from-IsAccounted es (at_phase spec c.phase e c) (phase-IsAccounted c.phase e c refl s)

  -- After any events from the start of a call: as long as it is not over, no provider result and no
  -- end of the call was told to the sink. A call that returned told one success, and its end once with
  -- the number of its retries. One that raised ProviderFatalError or ProviderRetryableError told one
  -- fatal result, a hard one exactly if the status is 401 or 403, and its end once. A context overflow
  -- told its end and no result; a broken circuit told an end only after a retry; InternalError and
  -- OverflowError told neither. The retries are no more than the profile's.
  pub run-IsAccounted :
      (pool : List KeyState) (breaker : Breaker) (acc : ProfileUsage) (es : List (Event R))
      → IsAccounted spec (run spec es (start pool breaker acc))
  unfolding start results_in ends_in
  run-IsAccounted pool breaker acc es =
      run_from-IsAccounted es (start pool breaker acc)
        (record { results = refl; ends = refl; counted = refl; bounded = omega arith })
