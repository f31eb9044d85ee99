-- ===== src/Runtime/Resources/Totals.antt =====
-- resources.py: the capacities of origins against those of resources.
use label_kit.Prelude.{
  is_some, ℕ, ◌+◌, ◌<◌, ◌≡◌, refl, subst, ◌∙◌, true, Option, none, some, [], ◌∷◌, String, arith,
  if◌then◌else◌, Equality, ◌==◌, All,
}
use label_kit.Prelude.Dict.{Dict, get, put, get-put, or_default}
use label_kit.Runtime.Keys.{ResourceKey, HttpOrigin, key_eq, origin_eq, Result, ok, err}
use label_kit.Runtime.Resources.{
  ResourceManager, has_keys, valid_resource_key, valid_origin, valid_origin_of, validate_each,
  validate, add_capacity, sum_origin_capacities, new, sum_values, http_connection_capacity,
}

module _ {ℓ} {K : Type ℓ} ⦃e : Equality K⦄ where
  sum_values-put :
      (d : Dict K ℕ) (k : K) (c : ℕ)
      → sum_values (put d k (or_default (get d k) 0 + c)) ≡ sum_values d + c
  unfolding sum_values put get
  sum_values-put [] k c = omega arith
  sum_values-put ((j, v) ∷ d) k c = let r = sum_values-put d k c in ground (arith, r)

-- The capacities of the resources with the origin `o`.
pub origin_load : HttpOrigin → Dict ResourceKey ℕ → Dict ResourceKey HttpOrigin → ℕ
origin_load o [] origins = 0
origin_load o ((k, c) ∷ rest) origins =
    let more = origin_load o rest origins in
    elim (get origins k) [ none ↦ more | some p ↦ if p == o then c + more else more ]

sum_values-add :
    (r : Dict HttpOrigin ℕ) (q : Option HttpOrigin) (c : ℕ)
    → is_some q ≡ true
    → sum_values (add_capacity r q c) ≡ sum_values r + c
sum_values-add r none c h = absurd (cc)
sum_values-add r (some o) c h = sum_values-put r o c

get-add :
    (o : HttpOrigin) (r : Dict HttpOrigin ℕ) (q : Option HttpOrigin) (c m : ℕ)
    → or_default (get (add_capacity r q c) o) 0 + m
      ≡ or_default (get r o) 0 + (elim q [ none ↦ m | some p ↦ if p == o then c + m else m ])
get-add o r none c m = refl
get-add o r (some p) c m =
    ground (arith, get-put r p o (or_default (get r p) 0 + c), origin_eq.test_iff p o)

sum_values-origins :
    (r : Dict HttpOrigin ℕ) (capacities : Dict ResourceKey ℕ)
    (origins : Dict ResourceKey HttpOrigin)
    → has_keys origins capacities ≡ true
    → sum_values (sum_origin_capacities r capacities origins) ≡ sum_values r + sum_values capacities
unfolding sum_origin_capacities has_keys sum_values
sum_values-origins r [] origins h = omega arith
sum_values-origins r ((k, c) ∷ rest) origins h =
    let more = sum_values-origins (add_capacity r (get origins k) c) rest origins (ground arith) in
    omega (arith, more, sum_values-add r (get origins k) c (ground arith))

get-origins :
    (o : HttpOrigin) (r : Dict HttpOrigin ℕ) (capacities : Dict ResourceKey ℕ)
    (origins : Dict ResourceKey HttpOrigin)
    → or_default (get (sum_origin_capacities r capacities origins) o) 0
      ≡ or_default (get r o) 0 + origin_load o capacities origins
unfolding sum_origin_capacities origin_load
get-origins o r [] origins = omega arith
get-origins o r ((k, c) ∷ rest) origins =
    let more = get-origins o (add_capacity r (get origins k) c) rest origins in
    more ∙ get-add o r (get origins k) c (origin_load o rest origins)

-- A resource that the runtime may use.
pub record IsValid (lower : String → String) (origins : Dict ResourceKey HttpOrigin)
    (k : ResourceKey) (capacity : ℕ) : Type 0 where
  pub named : valid_resource_key k ≡ true
  pub positive : 0 < capacity
  pub origin : HttpOrigin
  pub found : get origins k ≡ some origin
  pub well_formed : valid_origin lower origin ≡ true

valid_origin_of-some :
    (lower : String → String) (q : Option HttpOrigin)
    → valid_origin_of lower q ≡ true
    → (o : HttpOrigin) × (q ≡ some o) × (valid_origin lower o ≡ true)
valid_origin_of-some lower none h = absurd (cc)
valid_origin_of-some lower (some o) h = (o, refl, h)

validate_each-IsValid :
    (lower : String → String) (capacities : Dict ResourceKey ℕ)
    (origins : Dict ResourceKey HttpOrigin)
    → validate_each lower capacities origins ≡ ok tt
    → All (λ (k, c). IsValid lower origins k c) capacities
unfolding validate_each
validate_each-IsValid lower [] origins h = tt
validate_each-IsValid lower ((k, c) ∷ rest) origins h =
    let (o, found, good) = valid_origin_of-some lower (get origins k) (ground arith) in
    (
      record {
        named = ground arith;
        positive = ground arith;
        origin = o;
        found = found;
        well_formed = good;
      },
      validate_each-IsValid lower rest origins (ground arith),
    )

-- Valid resources, origins that sum their resources, and a pool of the sum of all.
pub record IsBalanced (lower : String → String) (m : ResourceManager) : Type 0 where
  pub valid : All (λ (k, c). IsValid lower m.origins k c) m.capacities
  pub loads :
      (o : HttpOrigin)
      → or_default (get m.origin_capacities o) 0 ≡ origin_load o m.capacities m.origins
  pub pool : http_connection_capacity m ≡ sum_values m.capacities

made :
    (r : Result (Unit {0})) (x : ResourceManager) {m : ResourceManager}
    → elim r [ err e ↦ err e | ok _ ↦ ok x ] ≡ ok m
    → (r ≡ ok tt) × (x ≡ m)
made (ok u) x h = (refl, cc)
made (err e) x h = absurd (cc)

validate_parts :
    (lower : String → String) (capacities : Dict ResourceKey ℕ)
    (origins : Dict ResourceKey HttpOrigin)
    → validate lower capacities origins ≡ ok tt
    → (has_keys origins capacities ≡ true) × (validate_each lower capacities origins ≡ ok tt)
unfolding validate
validate_parts lower capacities origins h = (ground arith, ground arith)

-- A resource manager that is made has valid resources only; the capacity of each origin is the sum of
-- the capacities of its resources, and the connection pool has room for all resources together.
pub new-IsBalanced :
    (lower : String → String) (capacities : Dict ResourceKey ℕ)
    (origins : Dict ResourceKey HttpOrigin) (m : ResourceManager)
    → new lower capacities origins ≡ ok m
    → IsBalanced lower m
unfolding new
new-IsBalanced lower capacities origins m h =
    let (checked, same) = made (validate lower capacities origins) _ h in
    let (all_there, each) = validate_parts lower capacities origins checked in
    subst (IsBalanced lower) same (record {
      valid = validate_each-IsValid lower capacities origins each;
      loads = λ o. unfold get in omega (arith, get-origins o [] capacities origins);
      pool =
          unfold http_connection_capacity sum_values in
          omega (arith, sum_values-origins [] capacities origins all_there);
    })
