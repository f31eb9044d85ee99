-- ===== src/Client/Progress/Failures.antt =====
-- llm_client.py: a failed attempt brings a call nearer to its end.
use label_kit.Prelude.{
  ℕ, ◌+◌, ◌*◌, ◌≤◌, ◌<◌, ◌≡◌, refl, ◌∙◌, sym, Bool, true, false, Option, none, some, arith, is_nil,
  max, ltb, if◌then◌else◌, Bool-cases, Option-cases, is_some, ltb→lt, subst, inl, inr, String,
}
use label_kit.Prelude.Dict.{or_default}
use label_kit.Client.Pool.{backoff_delay, KeyState, live, key_at}
use label_kit.Client.Pool.Count.{
  live_count, live_except, IsNumbered, Keeps, update_key-IsNumbered, live_count-update_key,
  live_except-update_key, disabled_key, live_count-disable, live_count-key_at,
}
use label_kit.Client.Call.{
  Spec, Call, Raised, fatal_status, overflow_error, retryable_exhausted, Status, status_fatal,
  Phase, ready, sent, raised, AttemptFailure, finish, update_usage,
}
use label_kit.Client.Call.Settle.{
  has, on_key, disable_key, cooldown_of, settle_terminal, record_result, is_auth,
  absorb_auth_failure, settle_non_retryable, apply_429_cooldown, cool_key, one_more_429, retry,
  sleep_for,
}
use label_kit.Client.Call.Steps.{goes_on, settle_failure, after_failure}
use label_kit.Client.Call.Overflow.{sniff_overflow_400, has_status}
use label_kit.Client.Progress.{rounds_left, measure, IsSound}

module _ {R : Type 0} (spec : Spec) where
  -- The state is sound and nearer to the end than `n`.
  abbrev pub Below : ℕ → Call R → Type 0
  Below n c = IsSound spec c × (measure spec c < n)

  pub raised-Below :
      (n : ℕ) (e : Raised) (c : Call R)
      → 0 < n
      → IsNumbered 0 c.pool
      → Below n (finish c (raised e))
  unfolding measure
  raised-Below n e c h k = (record { numbered = k; budget = tt }, h)

  pub settle_terminal-pool :
      (outcome : Status) (feed hard : Bool) (c : Call R)
      → (settle_terminal outcome feed hard c).pool ≡ c.pool
  unfolding settle_terminal record_result
  settle_terminal-pool outcome feed hard c = ground arith

  pub settled-Below :
      (n : ℕ) (e : Raised) (outcome : Status) (feed hard : Bool) (c : Call R)
      → 0 < n
      → IsNumbered 0 c.pool
      → Below n (finish (settle_terminal outcome feed hard c) (raised e))
  settled-Below n e outcome feed hard c h k =
      raised-Below n e (settle_terminal outcome feed hard c) h
        (rw (settle_terminal-pool outcome feed hard c) k)

  -- After the reply of a request sent with the key of index `i`: what is left of the call.
  abbrev pub sent_left : ℕ → Call R → ℕ
  sent_left i c =
      2
        * rounds_left spec c.attempt (max (live_count c.pool) (live_except i c.pool + 1))
            c.park_spent
      + 1

  pub ready-Below :
      (n d : ℕ) (c : Call R)
      → IsNumbered 0 c.pool
      → 2 * rounds_left spec c.attempt (live_count c.pool) c.park_spent + 2 < n
      → Below n (finish c (ready d))
  unfolding measure
  ready-Below n d c k h = (record { numbered = k; budget = tt }, ground arith)

  keep_absorbed :
      (i : ℕ) (env : String) (status : ℕ) (c off : Call R)
      → IsNumbered 0 off.pool
      → live_count off.pool ≤ live_except i c.pool
      → off.attempt ≡ c.attempt
      → off.park_spent ≡ c.park_spent
      → Below (sent_left i c) (
          if is_nil (live off.pool)
          then finish
              (settle_terminal status_fatal true true off)
              (raised (fatal_status status env))
          else finish off (ready 0))
  keep_absorbed i env status c off k h a p = elim (Bool-cases (is_nil (live off.pool))) [
    | inl e ↦ rw e (settled-Below (sent_left i c) _ status_fatal true true off (omega arith) k)
    | inr e ↦ rw e (ready-Below (sent_left i c) 0 off k (rw (a, p) (omega arith)))
  ]

  disabled-Below :
      (i : ℕ) (env : String) (status : ℕ) (c : Call R)
      → IsNumbered 0 c.pool
      → has (λ s. s.disabled) (key_at i c.pool) ≡ true
      → Below (sent_left i c) (absorb_auth_failure i env status c)
  unfolding absorb_auth_failure
  disabled-Below i env status c k e = elim (Option-cases (key_at i c.pool)) [
    | inl absent ↦ absurd (let e' = rw absent at e in cc)
    | inr (s, there) ↦ rw e (
        keep_absorbed i env status c c k
          (omega (arith, live_count-key_at i 0 c.pool s k there (rw there at e))) refl refl)
  ]

  pub absorb-Below :
      (i : ℕ) (env : String) (status : ℕ) (c : Call R)
      → IsNumbered 0 c.pool
      → Below (sent_left i c) (absorb_auth_failure i env status c)
  absorb-Below i env status c k = elim (Bool-cases (has (λ s. s.disabled) (key_at i c.pool))) [
    | inl e ↦ disabled-Below i env status c k e
    | inr e ↦
        unfold absorb_auth_failure update_usage in
        rw e (
          keep_absorbed i env status c (disable_key i env status c)
            (update_key-IsNumbered i disabled_key 0 c.pool (λ s. refl) k)
            (omega (arith, live_count-disable i c.pool)) refl refl)
  ]

  pub non_retryable-Below :
      (n : ℕ) (env : String) (f : AttemptFailure) (c : Call R)
      → 0 < n
      → IsNumbered 0 c.pool
      → Below n (settle_non_retryable spec env f c)
  unfolding settle_non_retryable
  non_retryable-Below n env f c h k =
      elim (Bool-cases
        (sniff_overflow_400 spec.lower spec.context_window f.status_code f.body_text)) [
          | inl e ↦ rw e (settled-Below n _ status_fatal false false c h k)
          | inr e ↦ rw e (settled-Below n _ status_fatal true false c h k)
        ]

  sleep-Below :
      (n : ℕ) (delay : Option ℕ) (c : Call R)
      → IsNumbered 0 c.pool
      → 2 * rounds_left spec c.attempt (live_count c.pool) c.park_spent + 2 < n
      → Below n (sleep_for delay c)
  sleep-Below n none c k h = raised-Below n overflow_error c (omega arith) k
  sleep-Below n (some d) c k h = ready-Below n d c k h

  next_attempt-Below :
      (i : ℕ) (delay : Option ℕ) (at_once : Bool) (c : Call R)
      → IsNumbered 0 c.pool
      → c.attempt < spec.max_retries
      → (let next = record c { attempt = c.attempt + 1; retries_used = c.retries_used + 1 } in
          Below (sent_left i c) (if at_once then finish next (ready 0) else sleep_for delay next))
  next_attempt-Below i delay true c k h =
      ready-Below (sent_left i c) 0
        (record c { attempt = c.attempt + 1; retries_used = c.retries_used + 1 }) k (omega arith)
  next_attempt-Below i delay false c k h =
      sleep-Below (sent_left i c) delay
        (record c { attempt = c.attempt + 1; retries_used = c.retries_used + 1 }) k (omega arith)

  pub retry-Below :
      (i : ℕ) (draw : ℕ → ℕ) (env : String) (f : AttemptFailure) (c : Call R)
      → IsNumbered 0 c.pool
      → Below (sent_left i c) (retry spec draw env f c)
  unfolding retry
  retry-Below i draw env f c k = elim (Bool-cases (ltb c.attempt spec.max_retries)) [
    | inl e ↦ rw e (
        next_attempt-Below i (backoff_delay (c.attempt + 1) spec.retry_base_delay draw)
          (has_status f.status_code 429) c k (ltb→lt _ _ e))
    | inr e ↦
        rw e (settled-Below (sent_left i c) _ retryable_exhausted true false c (omega arith) k)
  ]

  goes_on-Below :
      (n : ℕ) (p : Phase R) (i : ℕ) (env : String) (c next : Call R)
      → p ≡ sent i env
      → Below n next
      → Below n (goes_on p c next)
  goes_on-Below n p i env c next e h = subst (λ q. Below n (goes_on q c next)) (sym e) h

  same_left :
      (j i : ℕ) (f : KeyState → KeyState) (c : Call R)
      → Keeps f
      → sent_left j (on_key c i f) ≡ sent_left j c
  same_left j i f c k =
      omega (arith, live_count-update_key i f c.pool k, live_except-update_key j i f c.pool k)

  -- The cooldown of a key changes nothing that counts.
  cooled-Below :
      (n now i : ℕ) (draw : ℕ → ℕ) (env : String) (given : Bool) (cooldown : Option ℕ)
      (f : AttemptFailure) (c : Call R)
      → sent_left i c ≡ n
      → c.phase ≡ sent i env
      → IsNumbered 0 c.pool
      → (let cooled = cool_key now i env given cooldown c in
          Below n (goes_on cooled.phase cooled (retry spec draw env f cooled)))
  cooled-Below n now i draw env given none f c e p k =
      raised-Below n overflow_error c (omega arith) k
  cooled-Below n now i draw env given (some d) f c e p k =
      let change = λ (s : KeyState). record s { cooldown_until = now + d } in
      let keeps : Keeps change = record { index = λ s. refl; disabled = λ s. refl } in
      let cooled = cool_key now i env given (some d) c in
      goes_on-Below n c.phase i env cooled (retry spec draw env f cooled) p (
        subst (λ (m : ℕ). Below m (retry spec draw env f cooled)) (same_left i i change c keeps ∙ e)
          (retry-Below i draw env f cooled (update_key-IsNumbered i change 0 c.pool (λ s. refl) k)))

  apply_429-Below :
      (now i : ℕ) (draw : ℕ → ℕ) (env : String) (f : AttemptFailure) (c : Call R)
      → c.phase ≡ sent i env
      → IsNumbered 0 c.pool
      → (let cooled = apply_429_cooldown spec now draw i env f c in
          Below (sent_left i c) (goes_on cooled.phase cooled (retry spec draw env f cooled)))
  unfolding apply_429_cooldown update_usage
  apply_429-Below now i draw env f c p k =
      let change = λ (s : KeyState). record s { consec_429 = s.consec_429 + 1 } in
      let keeps : Keeps change = record { index = λ s. refl; disabled = λ s. refl } in
      let counted = one_more_429 i env c in
      cooled-Below (sent_left i c) now i draw env (is_some f.retry_after)
        (cooldown_of spec i draw f counted) f counted (same_left i i change c keeps) p
        (update_key-IsNumbered i change 0 c.pool (λ s. refl) k)

  -- A failure that is no 401 or 403, by the two tests on it.
  tested-Below :
      (retryable limited : Bool) (now i : ℕ) (draw : ℕ → ℕ) (env : String) (f : AttemptFailure)
      (c : Call R)
      → c.phase ≡ sent i env
      → IsNumbered 0 c.pool
      → Below (sent_left i c) (
          if retryable
          then (let cooled = if limited then apply_429_cooldown spec now draw i env f c else c in
              goes_on cooled.phase cooled (retry spec draw env f cooled))
          else settle_non_retryable spec env f c)
  tested-Below true true now i draw env f c p k = apply_429-Below now i draw env f c p k
  tested-Below true false now i draw env f c p k =
      goes_on-Below (sent_left i c) c.phase i env c (retry spec draw env f c) p
        (retry-Below i draw env f c k)
  tested-Below false limited now i draw env f c p k =
      non_retryable-Below (sent_left i c) env f c (omega arith) k

  pub after_failure-Below :
      (now i : ℕ) (draw : ℕ → ℕ) (env : String) (f : AttemptFailure) (c : Call R)
      → c.phase ≡ sent i env
      → IsNumbered 0 c.pool
      → Below (sent_left i c) (after_failure spec now draw i env f c)
  unfolding after_failure settle_failure
  after_failure-Below now i draw env f c p k = elim (Bool-cases (is_auth f.status_code)) [
    | inl e ↦ rw e (absorb-Below i env (or_default f.status_code 0) c k)
    | inr e ↦ rw e (tested-Below f.retryable (has_status f.status_code 429) now i draw env f c p k)
  ]
