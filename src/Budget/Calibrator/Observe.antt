-- ===== src/Budget/Calibrator/Observe.antt =====
-- budget.py, observe: the open samples and the readings during a batch.
use label_kit.Prelude.{
  ℕ, ◌≡◌, refl, ap, ◌∙◌, String, Option, some, List, [], ◌∷◌, ◌++◌, arith, ltb, string_eq, ◌==◌,
  Bool-cases, inl, inr, if◌then◌else◌,
}
use mathlib.Core.List.{append_assoc}
use label_kit.Prelude.Dict.{get, get-put, or_default, IsDistinct, put-IsDistinct}
use label_kit.Budget.Calibrator.{
  ImageCostCalibrator, Observation, sample_of, observe, observe_all, cost, inflated_prior,
  calibration_min_samples,
}
use mathlib.Core.Option
use label_kit.Budget.Image.{Provider}
use label_kit.Budget.Calibrator.Freeze.{Entry, entry}

-- The samples of a profile in a batch: those of its responses with an image, in order.
unfoldable pub samples_for : String → List Observation → List ℕ
samples_for p [] = []
samples_for p (o ∷ os) =
    let rest = samples_for p os in
    if ltb o.n_images 1 then rest else if o.profile == p then sample_of o ∷ rest else rest

unfoldable pub bucket : Option (List ℕ) → List ℕ → Option (List ℕ)
bucket old [] = old
bucket old (x ∷ xs) = some (or_default old [] ++ (x ∷ xs))

bucket_lem :
    (old : Option (List ℕ)) (x : ℕ) (xs : List ℕ)
    → bucket (some (or_default old [] ++ (x ∷ []))) xs ≡ bucket old (x ∷ xs)
unfolding bucket
bucket_lem old x [] = refl
bucket_lem old x (y ∷ ys) = ap some (append_assoc (or_default old []) (x ∷ []) (y ∷ ys))

current-observe :
    (c : ImageCostCalibrator) (o : Observation) (p : String)
    → get (observe c o).current p ≡ (
        if ltb o.n_images 1
        then get c.current p
        else if o.profile == p
        then some (or_default (get c.current p) [] ++ (sample_of o ∷ []))
        else get c.current p)
unfolding observe
current-observe c o p = ground (
  arith,
  get-put c.current o.profile p (or_default (get c.current o.profile) [] ++ (sample_of o ∷ [])),
  string_eq.test_iff o.profile p,
)

pub current-observe_all :
    (c : ImageCostCalibrator) (os : List Observation) (p : String)
    → get (observe_all c os).current p ≡ bucket (get c.current p) (samples_for p os)
unfolding observe_all samples_for
current-observe_all c [] p = unfold bucket in refl
current-observe_all c (o ∷ os) p =
    current-observe_all (observe c o) os p
    ∙ ap (λ old. bucket old (samples_for p os)) (current-observe c o p)
    ∙ step
  where
    step :
        bucket
          (if ltb o.n_images 1
            then get c.current p
            else if o.profile == p
            then some (or_default (get c.current p) [] ++ (sample_of o ∷ []))
            else get c.current p)
          (samples_for p os)
        ≡ bucket (get c.current p) (samples_for p (o ∷ os))
    step = ground (arith, bucket_lem (get c.current p) (sample_of o) (samples_for p os))

pub observe_all-IsDistinct :
    (c : ImageCostCalibrator) (os : List Observation)
    → IsDistinct c.current
    → IsDistinct (observe_all c os).current
unfolding observe_all observe
observe_all-IsDistinct c [] h = h
observe_all-IsDistinct c (o ∷ os) h =
    observe_all-IsDistinct (observe c o) os (elim (Bool-cases (ltb o.n_images 1)) [
      | inl e ↦ rw e h
      | inr e ↦ rw e (
          put-IsDistinct c.current o.profile
            (or_default (get c.current o.profile) [] ++ (sample_of o ∷ [])) h)
    ])

entry-observe :
    (c : ImageCostCalibrator) (o : Observation) (p : String)
    → (entry (observe c o) p ≡ entry c p) × ((observe c o).profiles ≡ c.profiles)
unfolding observe entry
entry-observe c o p = elim (Bool-cases (ltb o.n_images 1)) [
  | inl e ↦ (rw e, rw e)
  | inr e ↦ (rw e, rw e)
]

pub entry-observe_all :
    (c : ImageCostCalibrator) (os : List Observation) (p : String)
    → (entry (observe_all c os) p ≡ entry c p) × ((observe_all c os).profiles ≡ c.profiles)
unfolding observe_all
entry-observe_all c [] p = (refl, refl)
entry-observe_all c (o ∷ os) p =
    let h = entry-observe_all (observe c o) os p in
    let (e, q) = entry-observe c o p in (h.0 ∙ e, h.1 ∙ q)

-- What `cost` reads of a profile.
unfoldable pub reading : Option (Provider × ℕ) → Entry → Option ℕ
reading declared e =
    if ltb e.total calibration_min_samples then Option.map inflated_prior declared else e.snapshot

pub cost-eq-reading :
    (c : ImageCostCalibrator) (p : String) → cost c p ≡ reading (get c.profiles p) (entry c p)
unfolding cost reading entry
cost-eq-reading c p = refl

-- The responses of a batch do not change any reading before the batch is frozen.
pub cost-observe_all :
    (c : ImageCostCalibrator) (os : List Observation) (p : String)
    → cost (observe_all c os) p ≡ cost c p
cost-observe_all c os p =
    let (e, q) = entry-observe_all c os p in rw (cost-eq-reading, e, q) (rw cost-eq-reading)
