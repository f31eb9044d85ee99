-- ===== src/Runtime/Resources.antt =====
-- labelkit/runtime/resources.py: the capacities of resources and of HTTP origins.
pub mod Totals
use label_kit.Prelude.{
  is_some, ℕ, zero, suc, ◌+◌, Bool, true, false, not, ◌&&◌, ◌||◌, Option, none, some, List, [], ◌∷◌,
  String, leb, ltb, if◌then◌else◌, ◌==◌, Equality, string_eq, nat_eq,
}
use label_kit.Prelude.Dict.{Dict, get, put, or_default}
use label_kit.Runtime.Keys.{
  ResourceKey, HttpOrigin, key_eq, origin_eq, Result, ok, err, different_keys, invalid_resource,
  invalid_origin, unknown_key, unknown_origin,
}

-- Each key of the one mapping is a key of the other.
unfoldable pub has_keys {ℓ κ} :
    {V : Type ℓ} {W : Type κ} → Dict ResourceKey V → Dict ResourceKey W → Bool
has_keys d [] = true
has_keys d ((k, w) ∷ rest) = is_some (get d k) && has_keys d rest

unfoldable pub valid_resource_key : ResourceKey → Bool
valid_resource_key k = (k.kind == "llm" || k.kind == "embedding") && not (k.name == "")

pub record ResourceManager : Type 0 where
  pub capacities : Dict ResourceKey ℕ
  pub origins : Dict ResourceKey HttpOrigin
  pub origin_capacities : Dict HttpOrigin ℕ

-- str.lower
module _ (lower : String → String) where
  unfoldable pub valid_origin : HttpOrigin → Bool
  valid_origin o =
      (o.scheme == "http" || o.scheme == "https")
      && (not (o.host == "") && (o.host == lower o.host && (ltb 0 o.port && leb o.port 65535)))

  abbrev valid_origin_of : Option HttpOrigin → Bool
  valid_origin_of none = false
  valid_origin_of (some o) = valid_origin o

  -- The loop of `_validate`, over capacities that are numbers.
  unfoldable pub validate_each :
      Dict ResourceKey ℕ → Dict ResourceKey HttpOrigin → Result (Unit {0})
  validate_each [] origins = ok tt
  validate_each ((k, capacity) ∷ rest) origins =
      let more = validate_each rest origins in
      if not (valid_resource_key k && ltb 0 capacity)
      then err invalid_resource
      else if not (valid_origin_of (get origins k))
      then err invalid_origin
      else more

  unfoldable pub validate : Dict ResourceKey ℕ → Dict ResourceKey HttpOrigin → Result (Unit {0})
  validate capacities origins =
      if has_keys capacities origins && has_keys origins capacities
      then validate_each capacities origins
      else err different_keys

-- A missing origin would be a KeyError; the validation comes first.
abbrev pub add_capacity : Dict HttpOrigin ℕ → Option HttpOrigin → ℕ → Dict HttpOrigin ℕ
add_capacity result none capacity = result
add_capacity result (some o) capacity = put result o (or_default (get result o) 0 + capacity)

unfoldable pub sum_origin_capacities :
    Dict HttpOrigin ℕ → Dict ResourceKey ℕ → Dict ResourceKey HttpOrigin → Dict HttpOrigin ℕ
sum_origin_capacities result [] origins = result
sum_origin_capacities result ((k, capacity) ∷ rest) origins =
    sum_origin_capacities (add_capacity result (get origins k) capacity) rest origins

-- ResourceManager(...)
unfoldable pub new :
    (String → String) → Dict ResourceKey ℕ → Dict ResourceKey HttpOrigin → Result ResourceManager
new lower capacities origins = elim (validate lower capacities origins) [
  | err e ↦ err e
  | ok _ ↦ ok (record {
    capacities = capacities;
    origins = origins;
    origin_capacities = sum_origin_capacities [] capacities origins;
  })
]

unfoldable pub admission_capacity : ResourceManager → ResourceKey → Result ℕ
admission_capacity m k = elim (get m.capacities k) [ none ↦ err unknown_key | some c ↦ ok c ]

unfoldable pub origin_for : ResourceManager → ResourceKey → Result HttpOrigin
origin_for m k = elim (get m.origins k) [ none ↦ err unknown_key | some o ↦ ok o ]

unfoldable pub sum_values {ℓ} : {K : Type ℓ} → Dict K ℕ → ℕ
sum_values [] = 0
sum_values ((k, v) ∷ d) = v + sum_values d

unfoldable pub http_connection_capacity : ResourceManager → ℕ
http_connection_capacity m = sum_values m.origin_capacities
