-- ===== src/Client/Progress/Ends.antt =====
-- llm_client.py, LLMClient._post_with_retries: every call ends, after as many attempts as it may make.
use label_kit.Prelude.{
  ℕ, ◌+◌, ◌-◌, ◌*◌, ◌≤◌, ◌<◌, ◌≡◌, refl, sym, ◌⊎◌, Bool, true, false, ◌||◌, ◌&&◌, subst, Option,
  none, some, List, [], ◌∷◌, arith, is_nil, nat_beq, leb, ltb, if◌then◌else◌, Bool-cases, inl, inr,
  String,
}
use label_kit.Breaker.{Breaker, Result, record_provider_result}
use label_kit.Client.Pool.{KeyState, live, select, earliest_wake}
use label_kit.Client.Pool.Count.{
  live_count, live_except, IsNumbered, Keeps, update_key-IsNumbered, live_count-update_key,
  live_except-update_key, disabled_key, live_count-disable, live_except-disable, live_except-le,
  select-live, earliest_wake-pos,
}
use label_kit.Client.Call.{
  Spec, Call, Phase, ready, parked, sent, returned, raised, Reply, transport, pool_timeout,
  response, Other, send, answer, disable, clear_429, cool, result, account, Event, resume, wake,
  replied, other, ProfileUsage, status_fatal, retryable_exhausted, internal_error, tripped, fatal,
  Decoded, bad_json, malformed, parsed, finish, ensure_usage, update_usage,
}
use label_kit.Client.Call.Settle.{on_key, record_success}
use label_kit.Client.Call.Steps.{
  abort, send_with, begin_park, send_or_park, next_round, look_up, after_failure, plain_failure,
  classify_http_failure, settle_2xx, receive, landed, act, at_phase, step, run, start,
}
use label_kit.Client.Progress.{
  rounds_left, left_at, measure, IsSound, FitsBudget, moves_at, moves_on, moves, is_over, CanMove,
}
use label_kit.Client.Progress.Failures.{
  Below, raised-Below, settled-Below, after_failure-Below, sent_left,
}

module _ {R : Type 0} (spec : Spec) where
  keep_left :
      (j i : ℕ) (f : KeyState → KeyState) (c : Call R)
      → Keeps f
      → sent_left spec j (on_key c i f) ≡ sent_left spec j c
  keep_left j i f c k =
      omega (arith, live_count-update_key i f c.pool k, live_except-update_key j i f c.pool k)

  settle_2xx-Below :
      (now i : ℕ) (draw : ℕ → ℕ) (env : String) (d : Decoded R) (c : Call R)
      → c.phase ≡ sent i env
      → IsNumbered 0 c.pool
      → Below spec (sent_left spec i c) (settle_2xx spec now draw i env d c)
  unfolding settle_2xx record_success update_usage measure
  settle_2xx-Below now i draw env fatal c p k =
      settled-Below spec (sent_left spec i c) _ status_fatal true false c (omega arith) k
  settle_2xx-Below now i draw env (parsed v) c p k = (
    record {
      numbered = update_key-IsNumbered i (λ s. record s { consec_429 = 0 }) 0 c.pool (λ s. refl) k;
      budget = tt;
    },
    omega arith,
  )
  settle_2xx-Below now i draw env bad_json c p k =
      after_failure-Below spec now i draw env plain_failure c p k
  settle_2xx-Below now i draw env malformed c p k =
      after_failure-Below spec now i draw env plain_failure c p k

  -- The same where the request has just left the flight.
  landed-Below :
      (latency i : ℕ) (next : Call R → Call R) (c : Call R)
      → IsNumbered 0 c.pool
      → (IsNumbered 0 (landed latency i c).pool
          → Below spec (sent_left spec i (landed latency i c)) (next (landed latency i c)))
      → Below spec (sent_left spec i c) (next (landed latency i c))
  landed-Below latency i next c k h =
      let change = λ (s : KeyState). record s { in_flight = s.in_flight - 1 } in
      let keeps : Keeps change = record { index = λ s. refl; disabled = λ s. refl } in
      subst (λ (n : ℕ). Below spec n (next (landed latency i c)))
        (keep_left i i change (record c { latency_ms = latency }) keeps)
        (h (update_key-IsNumbered i change 0 c.pool (λ s. refl) k))

  receive-Below :
      (latency now i : ℕ) (draw : ℕ → ℕ) (env : String) (r : Reply R) (c : Call R)
      → c.phase ≡ sent i env
      → IsNumbered 0 c.pool
      → Below spec (sent_left spec i c) (receive spec latency now draw i env r c)
  unfolding receive
  receive-Below latency now i draw env transport c p k =
      landed-Below latency i (after_failure spec now draw i env plain_failure) c k
        (after_failure-Below spec now i draw env plain_failure (landed latency i c) p)
  receive-Below latency now i draw env pool_timeout c p k =
      landed-Below c.latency_ms i (λ l. finish l (raised internal_error)) c k
        (raised-Below spec _ internal_error (landed c.latency_ms i c) (omega arith))
  receive-Below latency now i draw env (response r) c p k =
      elim (Bool-cases (leb 200 r.status_code && ltb r.status_code 300)) [
        | inl e ↦ rw e (
            landed-Below latency i (settle_2xx spec now draw i env r.decoded) c k
              (settle_2xx-Below now i draw env r.decoded (landed latency i c) p))
        | inr e ↦ rw e (
            landed-Below latency i (after_failure spec now draw i env (classify_http_failure r)) c k
              (after_failure-Below spec now i draw env (classify_http_failure r)
                (landed latency i c) p))
      ]

  -- An attempt goes out, where the breaker lets it.
  send-Below :
      (key : KeyState) (c : Call R)
      → IsNumbered 0 c.pool
      → live_except key.index c.pool + 1 ≤ live_count c.pool
      → Below spec
          (2 * rounds_left spec c.attempt (live_count c.pool) c.park_spent + 2)
          (send_with key c)
  unfolding send_with ensure_usage measure
  send-Below key c k h =
      let change = λ (s : KeyState). record s { in_flight = s.in_flight + 1 } in
      let keeps : Keeps change = record { index = λ s. refl; disabled = λ s. refl } in
      (
        record {
          numbered = update_key-IsNumbered key.index change 0 c.pool (λ s. refl) k;
          budget = tt;
        },
        omega (arith, keep_left key.index key.index change c keeps, h),
      )

  park-Below :
      (now wait : ℕ) (c : Call R)
      → IsNumbered 0 c.pool
      → 0 < wait
      → c.park_spent + wait ≤ spec.park_budget
      → Below spec
          (2 * rounds_left spec c.attempt (live_count c.pool) c.park_spent + 2)
          (begin_park now wait c)
  unfolding begin_park measure
  park-Below now wait c k h b = elim (Bool-cases c.has_parked) [
    | inl e ↦ (record { numbered = ground arith; budget = ground arith }, ground arith)
    | inr e ↦ (record { numbered = ground arith; budget = ground arith }, ground arith)
  ]

  select-Below :
      (now : ℕ) (found : Option KeyState) (c : Call R)
      → select now c.pool ≡ found
      → IsNumbered 0 c.pool
      → Below spec
          (2 * rounds_left spec c.attempt (live_count c.pool) c.park_spent + 2)
          (send_or_park spec now found c)
  unfolding send_or_park
  select-Below now (some key) c e k = send-Below key c k (select-live now c.pool key e)
  select-Below now none c e k = elim (Bool-cases (is_nil (live c.pool))) [
    | inl n ↦ rw n (settled-Below spec _ _ status_fatal true false c (omega arith) k)
    | inr n ↦
        let wait = earliest_wake now c.pool in
        elim (Bool-cases
          (nat_beq spec.park_budget 0 || ltb spec.park_budget (c.park_spent + wait))) [
            | inl over ↦
                rw (n, over)
                  (settled-Below spec _ _ retryable_exhausted true false c (omega arith) k)
            | inr within ↦
                rw (n, within)
                  (park-Below now wait c k (earliest_wake-pos now c.pool e n) (ground arith))
          ]
  ]

  abort-Below : (n : ℕ) (c : Call R) → 0 < n → IsNumbered 0 c.pool → Below spec n (abort c)
  unfolding measure
  abort-Below n c h k = elim (Bool-cases (nat_beq c.retries_used 0)) [
    | inl e ↦ rw e (raised-Below spec n tripped c h k)
    | inr e ↦ (record { numbered = ground arith; budget = tt }, h)
  ]

  guarded-Below :
      (broken : Bool) (now : ℕ) (c : Call R)
      → IsNumbered 0 c.pool
      → Below spec
          (if broken
            then 1
            else 2 * rounds_left spec c.attempt (live_count c.pool) c.park_spent + 2)
          (if broken then abort c else send_or_park spec now (select now c.pool) c)
  guarded-Below true now c k = abort-Below 1 c (omega arith) k
  guarded-Below false now c k = select-Below now (select now c.pool) c refl k

  next_round-Below :
      (now d : ℕ) (c : Call R)
      → IsNumbered 0 c.pool
      → Below spec (left_at spec (ready d) c) (next_round spec now c)
  unfolding next_round
  next_round-Below now d c k = guarded-Below c.breaker.circuit_broken now c k

  look_up-Below :
      (started wait now : ℕ) (c : Call R)
      → IsNumbered 0 c.pool
      → (0 < wait) × (c.park_spent + wait ≤ spec.park_budget)
      → c.breaker.circuit_broken || leb (started + wait) now ≡ true
      → Below spec (left_at spec (parked started wait) c) (look_up started wait now c)
  unfolding look_up measure
  look_up-Below started wait now c k b e = rw e (record { numbered = k; budget = tt }, ground arith)

  kept_left :
      (p : Phase R) (i : ℕ) (f : KeyState → KeyState) (c : Call R)
      → Keeps f
      → left_at spec p (on_key c i f) ≡ left_at spec p c
  kept_left (ready d) i f c k = rw (live_count-update_key i f c.pool k)
  kept_left (parked started wait) i f c k = rw (live_count-update_key i f c.pool k)
  kept_left (sent j env) i f c k = keep_left j i f c k
  kept_left (returned v) i f c k = refl
  kept_left (raised e) i f c k = refl

  disabled_left :
      (p : Phase R) (i : ℕ) (c : Call R)
      → left_at spec p (on_key c i disabled_key) ≤ left_at spec p c
  disabled_left (ready d) i c = ground (arith, live_count-disable i c.pool, live_except-le i c.pool)
  disabled_left (parked started wait) i c =
      omega (arith, live_count-disable i c.pool, live_except-le i c.pool)
  disabled_left (sent j env) i c =
      omega (
        arith,
        live_count-disable i c.pool,
        live_except-le i c.pool,
        live_except-disable j i c.pool,
      )
  disabled_left (returned v) i c = omega arith
  disabled_left (raised e) i c = omega arith

  broken_left :
      (p : Phase R) (r : Result) (c : Call R)
      → left_at spec p (record c { breaker = record_provider_result c.breaker r })
        ≤ left_at spec p c
  unfolding record_provider_result
  broken_left (ready d) r c = ground arith
  broken_left (parked started wait) r c = omega arith
  broken_left (sent j env) r c = omega arith
  broken_left (returned v) r c = omega arith
  broken_left (raised e) r c = omega arith

  same_account :
      (p : Phase R) (f : ProfileUsage → ProfileUsage) (c : Call R)
      → left_at spec p (record c { acc = f c.acc }) ≤ left_at spec p c
  same_account (ready d) f c = omega arith
  same_account (parked started wait) f c = omega arith
  same_account (sent j env) f c = omega arith
  same_account (returned v) f c = omega arith
  same_account (raised e) f c = omega arith

  Tames : Call R → Call R → Type 0
  Tames c d = IsSound spec d × (measure spec d ≤ measure spec c)

  key-Tames :
      (i : ℕ) (f : KeyState → KeyState) (c : Call R)
      → Keeps f
      → IsSound spec c
      → Tames c (on_key c i f)
  unfolding Tames measure
  key-Tames i f c k s = (
    record { numbered = update_key-IsNumbered i f 0 c.pool k.index s.numbered; budget = s.budget },
    omega (arith, kept_left c.phase i f c k),
  )

  act-Tames : (o : Other) (c : Call R) → IsSound spec c → Tames c (act o c)
  unfolding act
  act-Tames (send i) c s = key-Tames i _ c (record { index = λ _. refl; disabled = λ _. refl }) s
  act-Tames (answer i) c s = key-Tames i _ c (record { index = λ _. refl; disabled = λ _. refl }) s
  act-Tames (clear_429 i) c s =
      key-Tames i _ c (record { index = λ _. refl; disabled = λ _. refl }) s
  act-Tames (cool i until) c s =
      key-Tames i _ c (record { index = λ _. refl; disabled = λ _. refl }) s
  act-Tames (disable i) c s =
      unfold Tames measure in
      (
        record {
          numbered = update_key-IsNumbered i disabled_key 0 c.pool (λ _. refl) s.numbered;
          budget = s.budget;
        },
        disabled_left c.phase i c,
      )
  act-Tames (result r) c s =
      unfold Tames measure in
      (record { numbered = s.numbered; budget = s.budget }, broken_left c.phase r c)
  act-Tames (account f) c s =
      unfold Tames measure in
      (record { numbered = s.numbered; budget = s.budget }, same_account c.phase f c)

  -- A step with which the coroutine goes on takes 1 at least from what is left; no step adds to it.
  Steps : Bool → ℕ → Call R → Type 0
  Steps moved left d = IsSound spec d × ((if moved then 1 else 0) + measure spec d ≤ left)

  Below-Steps : (left : ℕ) (d : Call R) → Below spec left d → Steps true left d
  unfolding Steps
  Below-Steps left d h = (h.0, omega (arith, h.1))

  Tames-Steps : (c d : Call R) → Tames c d → Steps false (measure spec c) d
  unfolding Steps Tames
  Tames-Steps c d h = (h.0, omega (arith, h.1))

  still-Steps : (c : Call R) → IsSound spec c → Steps false (measure spec c) c
  unfolding Steps
  still-Steps c s = (s, omega arith)

  look_up-Steps :
      (moved : Bool) (started wait now : ℕ) (c : Call R)
      → c.phase ≡ parked started wait
      → c.breaker.circuit_broken || leb (started + wait) now ≡ moved
      → IsSound spec c
      → Steps moved (measure spec c) (look_up started wait now c)
  look_up-Steps true started wait now c p e s =
      let fits : (0 < wait) × (c.park_spent + wait ≤ spec.park_budget) =
        subst (λ (q : Phase R). FitsBudget spec q c.park_spent) p s.budget in
      Below-Steps (measure spec c) _ (
        unfold measure in
        subst (λ q. Below spec (left_at spec q c) (look_up started wait now c)) (sym p)
          (look_up-Below started wait now c s.numbered fits e))
  look_up-Steps false started wait now c p e s = unfold look_up in rw e (still-Steps c s)

  phase-Steps :
      (p : Phase R) (e : Event R) (c : Call R)
      → c.phase ≡ p
      → IsSound spec c
      → Steps (moves_at p e c) (measure spec c) (at_phase spec p e c)
  unfolding at_phase
  phase-Steps (ready d) (resume now) c p s = Below-Steps (measure spec c) _ (
      unfold measure in
      subst (λ (q : Phase R). Below spec (left_at spec q c) (next_round spec now c)) (sym p)
        (next_round-Below now d c s.numbered))
  phase-Steps (ready d) (wake now) c p s = still-Steps c s
  phase-Steps (ready d) (replied latency now draw r) c p s = still-Steps c s
  phase-Steps (ready d) (other o) c p s = Tames-Steps c _ (act-Tames o c s)
  phase-Steps (parked started wait) (resume now) c p s = still-Steps c s
  phase-Steps (parked started wait) (wake now) c p s =
      look_up-Steps (c.breaker.circuit_broken || leb (started + wait) now) started wait now c p refl
        s
  phase-Steps (parked started wait) (replied latency now draw r) c p s = still-Steps c s
  phase-Steps (parked started wait) (other o) c p s = Tames-Steps c _ (act-Tames o c s)
  phase-Steps (sent i env) (resume now) c p s = still-Steps c s
  phase-Steps (sent i env) (wake now) c p s = still-Steps c s
  phase-Steps (sent i env) (replied latency now draw r) c p s = Below-Steps (measure spec c) _ (
      unfold measure in
      subst
        (λ (q : Phase R). Below spec (left_at spec q c) (receive spec latency now draw i env r c))
        (sym p) (receive-Below latency now i draw env r c p s.numbered))
  phase-Steps (sent i env) (other o) c p s = Tames-Steps c _ (act-Tames o c s)
  phase-Steps (returned v) (resume now) c p s = still-Steps c s
  phase-Steps (returned v) (wake now) c p s = still-Steps c s
  phase-Steps (returned v) (replied latency now draw r) c p s = still-Steps c s
  phase-Steps (returned v) (other o) c p s = Tames-Steps c _ (act-Tames o c s)
  phase-Steps (raised x) (resume now) c p s = still-Steps c s
  phase-Steps (raised x) (wake now) c p s = still-Steps c s
  phase-Steps (raised x) (replied latency now draw r) c p s = still-Steps c s
  phase-Steps (raised x) (other o) c p s = Tames-Steps c _ (act-Tames o c s)

  step-Steps :
      (e : Event R) (c : Call R)
      → IsSound spec c
      → Steps (moves_on e c) (measure spec c) (step spec e c)
  unfolding step moves_on
  step-Steps e c s = phase-Steps c.phase e c refl s

  moves-le :
      (es : List (Event R)) (c : Call R)
      → IsSound spec c
      → IsSound spec (run spec es c)
        × (moves spec es c + measure spec (run spec es c) ≤ measure spec c)
  unfolding moves run Steps
  moves-le [] c s = (s, omega arith)
  moves-le (e ∷ es) c s =
      let now = step-Steps e c s in
      let later = moves-le es (step spec e c) now.0 in (later.0, omega (arith, now.1, later.1))

  can_move : (p : Phase R) (c : Call R) → c.phase ≡ p → (is_over p ≡ true) ⊎ CanMove c
  unfolding moves_on
  can_move (ready d) c p = inr (resume 0, rw p refl)
  can_move (parked started wait) c p = inr (wake (started + wait), rw p (ground arith))
  can_move (sent i env) c p = inr (replied 0 0 (λ u. u) transport, rw p refl)
  can_move (returned v) c p = inl refl
  can_move (raised x) c p = inl refl

  -- From the start of a call, whatever the replies, the times and the other calls of the client do:
  -- the call goes on at most 2 * (retries + keys that are not disabled + microseconds of parking) + 2
  -- times, and as long as it has neither returned nor raised, some event makes it go on.
  pub call_ends :
      (pool : List KeyState) (breaker : Breaker) (acc : ProfileUsage) (es : List (Event R))
      → IsNumbered 0 pool
      → (let begin = start pool breaker acc in
          let now = run spec es begin in
          (moves spec es begin ≤ 2 * (spec.max_retries + live_count pool + spec.park_budget) + 2)
          × ((is_over now.phase ≡ true) ⊎ CanMove now))
  unfolding start measure
  call_ends pool breaker acc es k =
      let begin : Call R = start pool breaker acc in
      let bound = moves-le es begin (record { numbered = k; budget = tt }) in
      (ground (arith, bound.1), can_move (run spec es begin).phase (run spec es begin) refl)
