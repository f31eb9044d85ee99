-- ===== src/Prelude/Dict.antt =====
-- Python's dict: an association list in insertion order, where a write to a key that is there
-- keeps its place.
use mathlib.Core.Path.{◌≡◌, refl}
use mathlib.Core.Logic.{inl, inr}
use mathlib.Core.Bool.{Bool, true, false, ◌||◌, ◌&&◌}
use mathlib.Core.Option.{Option, none, some}
use mathlib.Core.List.{List, [], ◌∷◌}
use native.Mathlib.Omega.{arith}
use label_kit.Prelude.Tests.{Equality, ◌==◌, if◌then◌else◌, Bool-cases, ==_refl}

abbrev pub Dict {ℓ κ} : Type ℓ → Type κ → Type (ℓ ⊔ κ)
Dict K V = List (K × V)

module _ {ℓ κ} {K : Type ℓ} {V : Type κ} ⦃e : Equality K⦄ where
  -- d.get(k)
  unfoldable pub get : Dict K V → K → Option V
  get [] k = none
  get ((j, v) ∷ d) k = if j == k then some v else get d k

  -- d[k] = v
  unfoldable pub put : Dict K V → K → V → Dict K V
  put [] k v = (k, v) ∷ []
  put ((j, w) ∷ d) k v = if j == k then (j, v) ∷ d else (j, w) ∷ put d k v

  pub get-put :
      (d : Dict K V) (k j : K) (v : V) → get (put d k v) j ≡ (if k == j then some v else get d j)
  unfolding get put
  get-put [] k j v = refl
  get-put ((i, w) ∷ d) k j v =
      ground (arith, e.test_iff i k, e.test_iff i j, e.test_iff k j, get-put d k j v)

-- d.get(k, default)
abbrev pub or_default {ℓ} : {V : Type ℓ} → Option V → V → V
or_default none v = v
or_default (some w) v = w

module _ {ℓ κ} {K : Type ℓ} {V : Type κ} ⦃e : Equality K⦄ where
  -- No key stands twice.
  abbrev pub IsDistinct : Dict K V → Type κ
  IsDistinct [] = Unit
  IsDistinct ((k, v) ∷ d) = (get d k ≡ none) × IsDistinct d

  pub put-IsDistinct : (d : Dict K V) (k : K) (v : V) → IsDistinct d → IsDistinct (put d k v)
  unfolding get put
  put-IsDistinct [] k v h = (refl, tt)
  put-IsDistinct ((j, w) ∷ d) k v h = elim (Bool-cases (j == k)) [
    | inl same ↦ rw same h
    | inr other ↦
        let rest = put-IsDistinct d k v h.1 in
        rw other (ground (arith, get-put d k j v, e.test_iff j k, e.test_iff k j, h.0), rest)
  ]

  pub get-head : (k : K) (v : V) (d : Dict K V) → get ((k, v) ∷ d) k ≡ some v
  unfolding get
  get-head k v d = rw (==_refl k)

-- `x in xs`
unfoldable pub is_in {ℓ} : {K : Type ℓ} ⦃e : Equality K⦄ → K → List K → Bool
is_in x [] = false
is_in x (y ∷ ys) = y == x || is_in x ys

module _ {ℓ κ} {K : Type ℓ} {V : Type κ} ⦃e : Equality K⦄ where
  abbrev pub put_missing : Option V → Dict K V → K → V → Dict K V
  put_missing none d k v = put d k v
  put_missing (some w) d k v = d

  -- d.setdefault(k, v)
  abbrev pub set_default : Dict K V → K → V → Dict K V
  set_default d k v = put_missing (get d k) d k v

-- A list that is compared entry by entry, as Python compares tuples.
abbrev pub list_test {ℓ} : {A : Type ℓ} ⦃e : Equality A⦄ → List A → List A → Bool
list_test [] [] = true
list_test [] (y ∷ ys) = false
list_test (x ∷ xs) [] = false
list_test (x ∷ xs) (y ∷ ys) = x == y && list_test xs ys

-- del d[k]
unfoldable pub remove {ℓ κ} : {K : Type ℓ} {V : Type κ} ⦃e : Equality K⦄ → Dict K V → K → Dict K V
remove [] k = []
remove ((j, v) ∷ d) k = if j == k then d else (j, v) ∷ remove d k

pub get-remove {ℓ κ} :
    {K : Type ℓ} {V : Type κ} ⦃e : Equality K⦄ (d : Dict K V) (k j : K)
    → IsDistinct d
    → get (remove d k) j ≡ (if k == j then none else get d j)
unfolding get remove
get-remove ⦃e⦄ [] k j h = ground arith
get-remove ⦃e⦄ ((i, v) ∷ d) k j h =
    ground (arith, e.test_iff i k, e.test_iff i j, e.test_iff k j, get-remove d k j h.1, h.0)

pub remove-IsDistinct {ℓ κ} :
    {K : Type ℓ} {V : Type κ} ⦃e : Equality K⦄ (d : Dict K V) (k : K)
    → IsDistinct d
    → IsDistinct (remove d k)
unfolding remove
remove-IsDistinct [] k h = tt
remove-IsDistinct ⦃e⦄ ((i, v) ∷ d) k h = elim (Bool-cases (i == k)) [
  | inl same ↦ rw same h.1
  | inr other ↦ rw other (ground (arith, get-remove d k i h.1, h.0), remove-IsDistinct d k h.1)
]
