-- ===== src/Budget/Failures.antt =====
-- budget.py: the error kinds of budget failures, and the feed of the circuit breaker.
-- labelkit/common/errors.py: the two exceptions that it reads.
use label_kit.Prelude.{
  ℕ, zero, suc, ◌+◌, ◌≡◌, ◌≢◌, ◌⊎◌, ◌∙◌, refl, ap, inl, inr, Bool, true, false, not, ◌&&◌, Option,
  none, some, String, leb, if◌then◌else◌,
}
use label_kit.Breaker.{Breaker, record_provider_result}

pub data Phase : Type 0 where
  precheck reactive : Phase

pub data Origin : Type 0 where
  http_400 finish : Origin

-- `breaker_fed` is the mark that is put on the exception object.
pub record ContextOverflow : Type 0 where
  pub phase : Phase
  pub origin : Origin
  pub breaker_fed : Bool

pub data Exception : Type 0 where
  context_overflow : ContextOverflow → Exception
  output_truncated : Exception
  other : Exception

abbrev is_reactive : Phase → Bool
is_reactive precheck = false
is_reactive reactive = true

abbrev is_http_400 : Origin → Bool
is_http_400 http_400 = true
is_http_400 finish = false

unfoldable pub is_reactive_400 : ContextOverflow → Bool
is_reactive_400 o = is_reactive o.phase && is_http_400 o.origin

unfoldable pub classify_stage_error : Exception → Option String
classify_stage_error (context_overflow o) = some "context_overflow"
classify_stage_error output_truncated = some "output_truncated"
classify_stage_error other = none

-- `none` is a missing metrics sink. The exception comes back with its mark.
unfoldable pub feed_reactive_terminal : Exception → Option Breaker → Exception × Option Breaker
feed_reactive_terminal (context_overflow o) (some metrics) =
    if is_reactive_400 o && not o.breaker_fed
    then (
      context_overflow (record o { breaker_fed = true }),
      some (record_provider_result metrics (record { fatal = true; hard = false })),
    )
    else (context_overflow o, some metrics)
feed_reactive_terminal exc metrics = (exc, metrics)

-- The same exception passes any number of the places that feed.
unfoldable pub feed_times : ℕ → Exception → Option Breaker → Exception × Option Breaker
unfolding feed_reactive_terminal
feed_times zero exc metrics = (exc, metrics)
feed_times (suc n) exc metrics =
    let (exc', metrics') = feed_reactive_terminal exc metrics in feed_times n exc' metrics'

-- A reactive overflow of a 400 response, fed or not.
abbrev pub overflow_400 : Bool → Exception
overflow_400 fed =
    context_overflow (record { phase = reactive; origin = http_400; breaker_fed = fed })

-- One more fatal result, which is not a hard one.
abbrev pub one_more_fatal : Breaker → Breaker
one_more_fatal b = record b {
  fatal_streak = b.fatal_streak + 1;
  circuit_broken =
      if leb b.fatal_error_threshold (b.fatal_streak + 1) then true else b.circuit_broken;
}

-- What any number of feeds comes to.
pub record IsFedOnce (exc : Exception) (metrics : Option Breaker) : Type 0 where
  pub fed :
      (b : Breaker) (n : ℕ)
      → exc ≡ overflow_400 false
      → metrics ≡ some b
      → feed_times (suc n) exc metrics ≡ (overflow_400 true, some (one_more_fatal b))
  pub left :
      (n : ℕ)
      → (exc ≢ overflow_400 false) ⊎ (metrics ≡ none)
      → feed_times n exc metrics ≡ (exc, metrics)

fed_stays :
    (n : ℕ) (m : Option Breaker) → feed_times n (overflow_400 true) m ≡ (overflow_400 true, m)
unfolding feed_times is_reactive_400
fed_stays zero m = refl
fed_stays (suc n) none = fed_stays n none
fed_stays (suc n) (some b) = fed_stays n (some b)

first_feed :
    (b : Breaker)
    → feed_reactive_terminal (overflow_400 false) (some b)
      ≡ (overflow_400 true, some (one_more_fatal b))
unfolding feed_reactive_terminal is_reactive_400 record_provider_result
first_feed b = refl

-- What a feed leaves as it is, any number of feeds does.
stays :
    (n : ℕ) (exc : Exception) (m : Option Breaker)
    → feed_reactive_terminal exc m ≡ (exc, m)
    → feed_times n exc m ≡ (exc, m)
unfolding feed_times
stays zero exc m h = refl
stays (suc n) exc m h = ap (λ s. feed_times n s.0 s.1) h ∙ stays n exc m h

one_overflow :
    (phase : Phase) (origin : Origin) (fed : Bool) (b : Breaker)
    → context_overflow (record { phase = phase; origin = origin; breaker_fed = fed })
      ≢ overflow_400 false
    → feed_reactive_terminal
        (context_overflow (record { phase = phase; origin = origin; breaker_fed = fed }))
        (some b)
      ≡ (context_overflow (record { phase = phase; origin = origin; breaker_fed = fed }), some b)
unfolding feed_reactive_terminal is_reactive_400
one_overflow precheck origin fed b n = refl
one_overflow reactive finish fed b n = refl
one_overflow reactive http_400 true b n = refl
one_overflow reactive http_400 false b n = absurd (n refl)

one_feed-left :
    (exc : Exception) (m : Option Breaker)
    → (exc ≢ overflow_400 false) ⊎ (m ≡ none)
    → feed_reactive_terminal exc m ≡ (exc, m)
unfolding feed_reactive_terminal
one_feed-left output_truncated m h = refl
one_feed-left other m h = refl
one_feed-left (context_overflow o) none h = refl
one_feed-left (context_overflow o) (some b) (inr q) = absurd cc
one_feed-left (context_overflow o) (some b) (inl n) =
    one_overflow o.phase o.origin o.breaker_fed b n

-- However often the same exception is fed: a reactive overflow of a 400 response that was not fed
-- before counts as one fatal result that is not hard, and is marked; any other exception, and any
-- exception without a metrics sink, leaves the breaker and the mark as they are.
pub feed_reactive_terminal_once :
    (exc : Exception) (metrics : Option Breaker) → IsFedOnce exc metrics
unfolding feed_times
feed_reactive_terminal_once exc metrics = record {
  fed = λ b n e m.
      ap (λ s. feed_times n s.0 s.1)
        (ap (λ x. feed_reactive_terminal x metrics) e
          ∙ ap (feed_reactive_terminal (overflow_400 false)) m
          ∙ first_feed b)
      ∙ fed_stays n (some (one_more_fatal b));
  left = λ n h. stays n exc metrics (one_feed-left exc metrics h);
}
