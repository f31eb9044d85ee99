-- ===== src/Client/Pool.antt =====
-- labelkit/common/inference/llm_client.py: the keys of a profile, _KeyPool, and the delays after a
-- failed attempt. Times and delays are microseconds.
pub mod Count
pub mod Select
use label_kit.Prelude.{
  ℕ, suc, ◌+◌, ◌-◌, ◌*◌, ◌^◌, min, Bool, true, false, not, ◌&&◌, ◌||◌, Option, none, some, List, [],
  ◌∷◌, String, ltb, leb, nat_beq, if◌then◌else◌,
}

-- `index` is the place of the key in the declaration; `env` is the name of its environment variable.
pub record KeyState : Type 0 where
  pub index : ℕ
  pub env : String
  pub in_flight : ℕ
  pub cooldown_until : ℕ
  pub consec_429 : ℕ
  pub disabled : Bool

unfoldable pub new_key : ℕ → String → KeyState
new_key i env = record {
  index = i;
  env = env;
  in_flight = 0;
  cooldown_until = 0;
  consec_429 = 0;
  disabled = false;
}

-- `_KeyPool(members)`: the keys, counted from `i`.
unfoldable pub new_pool : ℕ → List String → List KeyState
unfolding new_key
new_pool i [] = []
new_pool i (env ∷ envs) = new_key i env ∷ new_pool (suc i) envs

unfoldable pub live : List KeyState → List KeyState
live [] = []
live (s ∷ states) = if s.disabled then live states else s ∷ live states

abbrev pub is_eligible : ℕ → KeyState → Bool
is_eligible now s = not s.disabled && leb s.cooldown_until now

unfoldable pub eligible : ℕ → List KeyState → List KeyState
eligible now [] = []
eligible now (s ∷ states) =
    if is_eligible now s then s ∷ eligible now states else eligible now states

-- `(s.in_flight, s.index) < (t.in_flight, t.index)`
abbrev pub key_lt : KeyState → KeyState → Bool
key_lt s t = ltb s.in_flight t.in_flight || (nat_beq s.in_flight t.in_flight && ltb s.index t.index)

-- `min` keeps the first of the least.
unfoldable pub least : KeyState → List KeyState → KeyState
least s [] = s
least s (t ∷ states) = least (if key_lt t s then t else s) states

unfoldable pub select_from : List KeyState → Option KeyState
select_from [] = none
select_from (s ∷ states) = some (least s states)

unfoldable pub select : ℕ → List KeyState → Option KeyState
unfolding select_from eligible
select now states = select_from (eligible now states)

unfoldable pub min_cooldown : KeyState → List KeyState → ℕ
min_cooldown s [] = s.cooldown_until
min_cooldown s (t ∷ states) = min s.cooldown_until (min_cooldown t states)

abbrev wake_after : ℕ → List KeyState → ℕ
unfolding min_cooldown
wake_after now [] = 0
wake_after now (s ∷ states) = min_cooldown s states - now

-- The caller has a live key. `-` on ℕ stops at 0, as `max(0.0, ...)` does.
unfoldable pub earliest_wake : ℕ → List KeyState → ℕ
unfolding live wake_after
earliest_wake now states = wake_after now (live states)

-- The object of the key with the index is changed in place.
unfoldable pub update_key : ℕ → (KeyState → KeyState) → List KeyState → List KeyState
update_key i f [] = []
update_key i f (s ∷ states) = (if nat_beq s.index i then f s else s) ∷ update_key i f states

unfoldable pub key_at : ℕ → List KeyState → Option KeyState
key_at i [] = none
key_at i (s ∷ states) = if nat_beq s.index i then some s else key_at i states

abbrev second : ℕ
second = 1000000

abbrev pub max_backoff : ℕ
max_backoff = 60 * second

abbrev pub max_key_cooldown : ℕ
max_key_cooldown = 300 * second

-- `min(bound, base * 2.0 ** n)`: the double 2.0 ** n overflows from n = 1024 on, and Python raises
-- OverflowError then.
unfoldable pub delay_upper : ℕ → ℕ → ℕ → Option ℕ
delay_upper bound base n = if ltb n 1024 then some (min bound (base * 2 ^ n)) else none

-- `draw u` is what rng.uniform(0.0, u) gives.
abbrev pub drawn : (ℕ → ℕ) → Option ℕ → Option ℕ
drawn draw none = none
drawn draw (some upper) = some (draw upper)

unfoldable pub key_cooldown_upper : ℕ → ℕ → Option ℕ
unfolding delay_upper
key_cooldown_upper base_delay consec_429 = delay_upper max_key_cooldown base_delay consec_429

unfoldable pub backoff_delay : ℕ → ℕ → (ℕ → ℕ) → Option ℕ
unfolding delay_upper
backoff_delay retry_no base_delay draw = drawn draw (delay_upper max_backoff base_delay retry_no)
