-- ===== src/Client/Call.antt =====
-- labelkit/common/inference/llm_client.py: what a logical call keeps while it retries, _RetryContext
-- with the parts of the client that it changes, and what it meets. The steps are in the children.
pub mod Overflow
pub mod Settle
pub mod Steps
use label_kit.Prelude.{
  ℕ, ◌+◌, ◌-◌, Bool, true, false, Option, none, some, List, [], ◌∷◌, ◌++◌, String,
}
use label_kit.Prelude.{length, drop, string_eq}
use label_kit.Prelude.Dict.{Dict, get, put, set_default, or_default}
use label_kit.Breaker.{Breaker, Result}
use label_kit.Client.Pool.{KeyState}

pub record KeyUsage : Type 0 where
  pub calls : ℕ
  pub rate_limited : ℕ
  pub disabled : Bool

abbrev pub new_usage : KeyUsage
new_usage = record { calls = 0; rate_limited = 0; disabled = false }

-- The part of ProfileUsage that a call changes before it returns.
pub record ProfileUsage : Type 0 where
  pub retries : ℕ
  pub parked_calls : ℕ
  pub parked_ms : ℕ
  pub keys : Dict String KeyUsage

-- The profile's settings with run.max_park_s, and str.lower.
pub record Spec : Type 0 where
  pub max_retries : ℕ
  pub retry_base_delay : ℕ
  pub context_window : ℕ
  pub park_budget : ℕ
  pub lower : List ℕ → List ℕ

pub data Status : Type 0 where
  status_ok status_fatal retryable_exhausted breaker_aborted : Status

-- A call of the metrics sink.
pub data Entry : Type 0 where
  provider_result : Result → Entry
  llm_call : Status → (latency_ms retries : ℕ) → (key_env : Option String) → Entry
  key_disabled : String → (status_code : ℕ) → Entry
  key_cooldown : String → (cooldown : ℕ) → (retry_after : Bool) → Entry
  pool_parked : (wait live_keys : ℕ) → Entry

-- CircuitBreakerTripped, ProviderFatalError from an HTTP status, from parse() and for want of a live
-- key, ProviderRetryableError, ContextOverflowError, InternalError and OverflowError.
pub data Raised : Type 0 where
  tripped : Raised
  fatal_status : ℕ → String → Raised
  fatal_response : Raised
  no_live_key : Option String → Raised
  exhausted : (retries : ℕ) → (key_env : Option String) → Raised
  context_overflow internal_error overflow_error : Raised

-- Before the top of the loop, with the delay that is slept first; parked since `started`, for `wait`;
-- with a request out, sent with the key of an index and a name; or over.
pub data Phase (R : Type 0) : Type 0 where
  ready : (delay : ℕ) → Phase R
  parked : (started wait : ℕ) → Phase R
  sent : (index : ℕ) → (env : String) → Phase R
  returned : R → Phase R
  raised : Raised → Phase R

pub record Call (R : Type 0) : Type 0 where
  pub pool : List KeyState
  pub breaker : Breaker
  pub acc : ProfileUsage
  pub latencies : List ℕ
  pub log : List Entry
  pub retries_used : ℕ
  pub latency_ms : ℕ
  pub park_spent : ℕ
  pub has_parked : Bool
  pub last_env : Option String
  pub attempt : ℕ
  pub phase : Phase R

-- What a 2xx response holds: no JSON, a response that parse() calls fatal, one that it fails on, or a
-- result.
pub data Decoded (R : Type 0) : Type 0 where
  bad_json fatal malformed : Decoded R
  parsed : R → Decoded R

-- `retry_after` is the parsed header.
pub record Response (R : Type 0) : Type 0 where
  pub status_code : ℕ
  pub body : List ℕ
  pub retry_after : Option ℕ
  pub decoded : Decoded R

-- A timeout or a transport error, httpx.PoolTimeout, or a response.
pub data Reply (R : Type 0) : Type 0 where
  transport pool_timeout : Reply R
  response : Response R → Reply R

pub record AttemptFailure : Type 0 where
  pub status_code : Option ℕ
  pub body_text : List ℕ
  pub retry_after : Option ℕ
  pub retryable : Bool

-- What the other calls of the client do to the state that they share with this one.
pub data Other : Type 0 where
  send answer disable clear_429 : ℕ → Other
  cool : (index until : ℕ) → Other
  result : Result → Other
  account : (ProfileUsage → ProfileUsage) → Other

-- The coroutine goes on at the top of the loop, wakes from a slice of its parking, or has the reply,
-- each at a time of the monotonic clock; or another call acts while this one waits.
pub data Event (R : Type 0) : Type 0 where
  resume wake : (now : ℕ) → Event R
  replied : (latency_ms now : ℕ) → (draw : ℕ → ℕ) → Reply R → Event R
  other : Other → Event R

abbrev pub latency_window : ℕ
latency_window = 256

-- deque(maxlen=256).append
unfoldable pub push_latency : List ℕ → ℕ → List ℕ
push_latency xs x = let ys = xs ++ (x ∷ []) in drop (length ys - latency_window) ys

module _ {R : Type 0} where
  abbrev pub note : Call R → Entry → Call R
  note c e = record c { log = c.log ++ (e ∷ []) }

  abbrev pub finish : Call R → Phase R → Call R
  finish c p = record c { phase = p }

  -- acc.keys.setdefault(env, KeyUsage())
  unfoldable pub ensure_usage : Call R → String → Call R
  ensure_usage c env = record c {
    acc = record c.acc { keys = set_default c.acc.keys env new_usage };
  }

  -- The KeyUsage of a key is changed in place.
  unfoldable pub update_usage : Call R → String → (KeyUsage → KeyUsage) → Call R
  update_usage c env f = record c {
    acc = record c.acc {
      keys = put c.acc.keys env (f (or_default (get c.acc.keys env) new_usage));
    };
  }
