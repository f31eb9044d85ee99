-- ===== src/Client/Accounting/Told.antt =====
-- llm_client.py, LLMClient._post_with_retries: each end of a call is told to the metrics sink once.
use label_kit.Prelude.{
  ℕ, ◌+◌, ◌≤◌, ◌<◌, ◌≡◌, refl, sym, ap, ◌∙◌, Bool, true, false, Option, none, some, List, [], ◌∷◌,
  ◌++◌, arith, is_nil, is_some, ltb, if◌then◌else◌, Bool-cases, inl, inr, String, subst, ltb→lt,
}
use label_kit.Prelude.Dict.{or_default}
use label_kit.Client.Pool.{live, key_at, backoff_delay}
use label_kit.Client.Call.{
  Spec, Call, Entry, provider_result, llm_call, key_disabled, key_cooldown, pool_parked, Status,
  status_fatal, retryable_exhausted, fatal_status, exhausted, context_overflow, overflow_error,
  Phase, ready, sent, raised, AttemptFailure, finish, update_usage,
}
use label_kit.Client.Call.Overflow.{sniff_overflow_400, has_status}
use label_kit.Client.Call.Settle.{
  has, disable_key, give_up, cooldown_of, settle_terminal, record_result, is_auth,
  absorb_auth_failure, settle_non_retryable, apply_429_cooldown, cool_key, one_more_429, retry,
  sleep_for,
}
use label_kit.Client.Call.Steps.{goes_on, settle_failure, after_failure}
use label_kit.Client.Accounting.{
  results_in, ends_in, one_fatal, told_results, told_ends, IsAccounted,
}

pub results_in-snoc :
    (log : List Entry) (e : Entry)
    → results_in (log ++ (e ∷ [])) ≡ results_in log ++ results_in (e ∷ [])
unfolding results_in
results_in-snoc [] e = refl
results_in-snoc (provider_result r ∷ log) e = ap (λ l. r ∷ l) (results_in-snoc log e)
results_in-snoc (llm_call _ _ _ _ ∷ log) e = results_in-snoc log e
results_in-snoc (key_disabled _ _ ∷ log) e = results_in-snoc log e
results_in-snoc (key_cooldown _ _ _ ∷ log) e = results_in-snoc log e
results_in-snoc (pool_parked _ _ ∷ log) e = results_in-snoc log e

pub ends_in-snoc :
    (log : List Entry) (e : Entry) → ends_in (log ++ (e ∷ [])) ≡ ends_in log ++ ends_in (e ∷ [])
unfolding ends_in
ends_in-snoc [] e = refl
ends_in-snoc (provider_result _ ∷ log) e = ends_in-snoc log e
ends_in-snoc (llm_call how _ n _ ∷ log) e = ap (λ l. (how, n) ∷ l) (ends_in-snoc log e)
ends_in-snoc (key_disabled _ _ ∷ log) e = ends_in-snoc log e
ends_in-snoc (key_cooldown _ _ _ ∷ log) e = ends_in-snoc log e
ends_in-snoc (pool_parked _ _ ∷ log) e = ends_in-snoc log e

-- A log that tells of no result and no end, in a call with its retries counted.
pub record IsQuiet (spec : Spec) (log : List Entry) (used attempt : ℕ) : Type 0 where
  pub results : results_in log ≡ []
  pub ends : ends_in log ≡ []
  pub counted : used ≡ attempt
  pub bounded : attempt ≤ spec.max_retries

-- Entries that are neither.
pub IsQuiet-note :
    (spec : Spec) (log : List Entry) (used attempt : ℕ) (e : Entry)
    → results_in (e ∷ []) ≡ []
    → ends_in (e ∷ []) ≡ []
    → IsQuiet spec log used attempt
    → IsQuiet spec (log ++ (e ∷ [])) used attempt
IsQuiet-note spec log used attempt e r d q = record {
  results = simp (results_in-snoc, q.results, r);
  ends = simp (ends_in-snoc, q.ends, d);
  counted = q.counted;
  bounded = q.bounded;
}

module _ {R : Type 0} where
  settle_terminal-results :
      (outcome : Status) (feed hard : Bool) (c : Call R)
      → results_in c.log ≡ []
      → results_in (settle_terminal outcome feed hard c).log ≡ (if feed then one_fatal hard else [])
  unfolding settle_terminal record_result results_in
  settle_terminal-results outcome true hard c r = simp (results_in-snoc, r)
  settle_terminal-results outcome false hard c r = simp (results_in-snoc, r)

  settle_terminal-ends :
      (outcome : Status) (feed hard : Bool) (c : Call R)
      → ends_in c.log ≡ []
      → ends_in (settle_terminal outcome feed hard c).log ≡ (outcome, c.retries_used) ∷ []
  unfolding settle_terminal record_result ends_in
  settle_terminal-ends outcome true hard c d = simp (ends_in-snoc, d)
  settle_terminal-ends outcome false hard c d = simp (ends_in-snoc, d)

  settle_terminal-same :
      (outcome : Status) (feed hard : Bool) (c : Call R)
      → (settle_terminal outcome feed hard c).retries_used ≡ c.retries_used
        × (settle_terminal outcome feed hard c).attempt ≡ c.attempt
  unfolding settle_terminal record_result
  settle_terminal-same outcome feed hard c = (ground arith, ground arith)

is_auth-or_default : (s : Option ℕ) → is_auth (some (or_default s 0)) ≡ is_auth s
is_auth-or_default none = refl
is_auth-or_default (some n) = refl

module _ {R : Type 0} (spec : Spec) where
  abbrev pub Quiet : Call R → Type 0
  Quiet c = IsQuiet spec c.log c.retries_used c.attempt

  -- A call that is not over, or that ends with nothing told.
  pub Quiet-end :
      (p : Phase R) (c : Call R)
      → told_results p ≡ []
      → told_ends p c.retries_used ≡ []
      → Quiet c
      → IsAccounted spec (finish c p)
  Quiet-end p c r d q = record {
    results = q.results ∙ sym r;
    ends = q.ends ∙ sym d;
    counted = q.counted;
    bounded = q.bounded;
  }

  pub settled_end :
      (p : Phase R) (outcome : Status) (feed hard : Bool) (c : Call R)
      → told_results p ≡ (if feed then one_fatal hard else [])
      → ((n : ℕ) → told_ends p n ≡ (outcome, n) ∷ [])
      → Quiet c
      → IsAccounted spec (finish (settle_terminal outcome feed hard c) p)
  settled_end p outcome feed hard c r d q =
      let same = settle_terminal-same outcome feed hard c in
      record {
        results = settle_terminal-results outcome feed hard c q.results ∙ sym r;
        ends =
            settle_terminal-ends outcome feed hard c q.ends
            ∙ ap (λ n. (outcome, n) ∷ []) (sym same.0)
            ∙ sym (d (settle_terminal outcome feed hard c).retries_used);
        counted = same.0 ∙ q.counted ∙ sym same.1;
        bounded = omega (arith, same.1, q.bounded);
      }

  absorbed :
      (i : ℕ) (env : String) (code : ℕ) (c off : Call R)
      → is_auth (some code) ≡ true
      → Quiet off
      → IsAccounted spec (
          if is_nil (live off.pool)
          then finish (settle_terminal status_fatal true true off) (raised (fatal_status code env))
          else finish off (ready 0))
  absorbed i env code c off a q = elim (Bool-cases (is_nil (live off.pool))) [
    | inl e ↦ rw e (
        settled_end (raised (fatal_status code env)) status_fatal true true off (ap one_fatal a)
          (λ n. refl) q)
    | inr e ↦ rw e (Quiet-end (ready 0) off refl refl q)
  ]

  absorb-IsAccounted :
      (i : ℕ) (env : String) (code : ℕ) (c : Call R)
      → is_auth (some code) ≡ true
      → Quiet c
      → IsAccounted spec (absorb_auth_failure i env code c)
  unfolding absorb_auth_failure update_usage
  absorb-IsAccounted i env code c a q =
      elim (Bool-cases (has (λ s. s.disabled) (key_at i c.pool))) [
        | inl e ↦ rw e (absorbed i env code c c a q)
        | inr e ↦ rw e (
            absorbed i env code c (disable_key i env code c) a (
              IsQuiet-note spec c.log c.retries_used c.attempt (key_disabled env code)
                (unfold results_in in refl) (unfold ends_in in refl) q))
      ]

  non_retryable-IsAccounted :
      (env : String) (f : AttemptFailure) (c : Call R)
      → is_auth f.status_code ≡ false
      → Quiet c
      → IsAccounted spec (settle_non_retryable spec env f c)
  unfolding settle_non_retryable
  non_retryable-IsAccounted env f c a q =
      elim (Bool-cases
        (sniff_overflow_400 spec.lower spec.context_window f.status_code f.body_text)) [
          | inl e ↦
              rw e (
                settled_end (raised context_overflow) status_fatal false false c refl (λ n. refl) q)
          | inr e ↦ rw e (
              settled_end (raised (fatal_status (or_default f.status_code 0) env)) status_fatal true
                false c (ap one_fatal (is_auth-or_default f.status_code ∙ a)) (λ n. refl) q)
        ]

  next-IsAccounted :
      (delay : Option ℕ) (at_once : Bool) (c : Call R)
      → c.attempt < spec.max_retries
      → Quiet c
      → (let next = record c { attempt = c.attempt + 1; retries_used = c.retries_used + 1 } in
          IsAccounted spec (if at_once then finish next (ready 0) else sleep_for delay next))
  next-IsAccounted delay at_once c h q =
      let next = record c { attempt = c.attempt + 1; retries_used = c.retries_used + 1 } in
      let quiet : Quiet next = record {
        results = q.results;
        ends = q.ends;
        counted = omega (arith, q.counted);
        bounded = omega arith;
      } in
      slept delay at_once next quiet
    where
      slept :
          (delay : Option ℕ) (at_once : Bool) (next : Call R)
          → Quiet next
          → IsAccounted spec (if at_once then finish next (ready 0) else sleep_for delay next)
      slept delay true next q = Quiet-end (ready 0) next refl refl q
      slept none false next q = Quiet-end (raised overflow_error) next refl refl q
      slept (some d) false next q = Quiet-end (ready d) next refl refl q

  retry-IsAccounted :
      (draw : ℕ → ℕ) (env : String) (f : AttemptFailure) (c : Call R)
      → Quiet c
      → IsAccounted spec (retry spec draw env f c)
  unfolding retry give_up
  retry-IsAccounted draw env f c q = elim (Bool-cases (ltb c.attempt spec.max_retries)) [
    | inl e ↦ rw e (
        next-IsAccounted (backoff_delay (c.attempt + 1) spec.retry_base_delay draw)
          (has_status f.status_code 429) c (ltb→lt _ _ e) q)
    | inr e ↦ rw e (
        settled_end (raised (exhausted c.retries_used (some env))) retryable_exhausted true false c
          refl (λ n. refl) q)
  ]

  goes_on-IsAccounted :
      (p : Phase R) (i : ℕ) (env : String) (c next : Call R)
      → p ≡ sent i env
      → IsAccounted spec next
      → IsAccounted spec (goes_on p c next)
  goes_on-IsAccounted p i env c next e h =
      subst (λ (q : Phase R). IsAccounted spec (goes_on q c next)) (sym e) h

  cooled-IsAccounted :
      (now i : ℕ) (draw : ℕ → ℕ) (env : String) (given : Bool) (cooldown : Option ℕ)
      (f : AttemptFailure) (c : Call R)
      → c.phase ≡ sent i env
      → Quiet c
      → (let cooled = cool_key now i env given cooldown c in
          IsAccounted spec (goes_on cooled.phase cooled (retry spec draw env f cooled)))
  cooled-IsAccounted now i draw env given none f c p q =
      Quiet-end (raised overflow_error) c refl refl q
  cooled-IsAccounted now i draw env given (some d) f c p q =
      let cooled = cool_key now i env given (some d) c in
      goes_on-IsAccounted c.phase i env cooled (retry spec draw env f cooled) p (
        retry-IsAccounted draw env f cooled (
          IsQuiet-note spec c.log c.retries_used c.attempt (key_cooldown env d given)
            (unfold results_in in refl) (unfold ends_in in refl) q))

  tested-IsAccounted :
      (retryable limited : Bool) (now i : ℕ) (draw : ℕ → ℕ) (env : String) (f : AttemptFailure)
      (c : Call R)
      → is_auth f.status_code ≡ false
      → c.phase ≡ sent i env
      → Quiet c
      → IsAccounted spec (
          if retryable
          then (let cooled = if limited then apply_429_cooldown spec now draw i env f c else c in
              goes_on cooled.phase cooled (retry spec draw env f cooled))
          else settle_non_retryable spec env f c)
  unfolding apply_429_cooldown update_usage
  tested-IsAccounted true true now i draw env f c a p q =
      let counted = one_more_429 i env c in
      cooled-IsAccounted now i draw env (is_some f.retry_after) (cooldown_of spec i draw f counted)
        f counted p q
  tested-IsAccounted true false now i draw env f c a p q =
      goes_on-IsAccounted c.phase i env c (retry spec draw env f c) p
        (retry-IsAccounted draw env f c q)
  tested-IsAccounted false limited now i draw env f c a p q = non_retryable-IsAccounted env f c a q

  pub after_failure-IsAccounted :
      (now i : ℕ) (draw : ℕ → ℕ) (env : String) (f : AttemptFailure) (c : Call R)
      → c.phase ≡ sent i env
      → Quiet c
      → IsAccounted spec (after_failure spec now draw i env f c)
  unfolding after_failure settle_failure
  after_failure-IsAccounted now i draw env f c p q = elim (Bool-cases (is_auth f.status_code)) [
    | inl e ↦ rw e (
        absorb-IsAccounted i env (or_default f.status_code 0) c
          (is_auth-or_default f.status_code ∙ e) q)
    | inr e ↦
        rw e
          (tested-IsAccounted f.retryable (has_status f.status_code 429) now i draw env f c e p q)
  ]
