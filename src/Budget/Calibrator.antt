-- ===== src/Budget/Calibrator.antt =====
-- budget.py, ImageCostCalibrator: the cost of an image, learnt from the responses and frozen at
-- batch borders.
pub mod Freeze
pub mod Window
pub mod Observe
pub mod History
pub mod Order
use label_kit.Prelude.{
  ℕ, zero, suc, ◌+◌, ◌-◌, ◌*◌, ◌/◌, String, Option, none, some, List, [], ◌∷◌, ◌++◌, drop, length,
  ltb, max, maximum, if◌then◌else◌, string_eq,
}
use label_kit.Prelude.Dict.{Dict, get, put, or_default}
use label_kit.Budget.Margins.{ceil_div}
use label_kit.Budget.Image.{Provider, image_prior}
use mathlib.Core.Option

abbrev pub calibration_min_samples : ℕ
calibration_min_samples = 8

abbrev pub calibration_window_batches : ℕ
calibration_window_batches = 8

-- `windows` holds the batch maxima of each profile, the oldest first.
pub record ImageCostCalibrator : Type 0 where
  pub profiles : Dict String (Provider × ℕ)
  pub current : Dict String (List ℕ)
  pub windows : Dict String (List ℕ)
  pub frozen_total : Dict String ℕ
  pub snapshot : Dict String ℕ

unfoldable pub new : Dict String (Provider × ℕ) → ImageCostCalibrator
new profiles = record {
  profiles = profiles;
  current = [];
  windows = [];
  frozen_total = [];
  snapshot = [];
}

-- A response that is sampled.
pub record Observation : Type 0 where
  pub profile : String
  pub prompt_tokens : ℕ
  pub text_est : ℕ
  pub n_images : ℕ

-- A negative difference has a ceiling of at most 0, so the truncated one gives the same maximum.
unfoldable pub sample_of : Observation → ℕ
sample_of o = max 1 (ceil_div (o.prompt_tokens - o.text_est) o.n_images)

unfoldable pub observe : ImageCostCalibrator → Observation → ImageCostCalibrator
observe c o = if ltb o.n_images 1 then c else record c {
  current = put c.current o.profile (or_default (get c.current o.profile) [] ++ (sample_of o ∷ []));
}

-- deque(maxlen=8).append
unfoldable pub push_window : List ℕ → ℕ → List ℕ
push_window window x =
    let longer = window ++ (x ∷ []) in drop (length longer - calibration_window_batches) longer

-- math.ceil(n / 0.85)
abbrev pub safe_cost : ℕ → ℕ
safe_cost n = ceil_div (20 * n) 17

unfoldable pub freeze_profile : ImageCostCalibrator → String → List ℕ → ImageCostCalibrator
freeze_profile c profile samples =
    let window = push_window (or_default (get c.windows profile) []) (maximum samples) in
    record c {
      windows = put c.windows profile window;
      frozen_total =
          put c.frozen_total profile (or_default (get c.frozen_total profile) 0 + length samples);
      snapshot = put c.snapshot profile (safe_cost (maximum window));
    }

unfoldable pub freeze_all : ImageCostCalibrator → Dict String (List ℕ) → ImageCostCalibrator
freeze_all c [] = c
freeze_all c ((profile, samples) ∷ rest) = freeze_all (freeze_profile c profile samples) rest

unfoldable pub freeze_batch : ImageCostCalibrator → ImageCostCalibrator
freeze_batch c = let frozen = freeze_all c c.current in record frozen { current = [] }

-- math.ceil(prior * 1.2)
unfoldable pub inflated_prior : Provider × ℕ → ℕ
inflated_prior (provider, px) = ceil_div (6 * image_prior provider px) 5

-- `none` is a KeyError.
unfoldable pub cost : ImageCostCalibrator → String → Option ℕ
cost c profile =
    if ltb (or_default (get c.frozen_total profile) 0) calibration_min_samples
    then Option.map inflated_prior (get c.profiles profile)
    else get c.snapshot profile

unfoldable pub observe_all : ImageCostCalibrator → List Observation → ImageCostCalibrator
observe_all c [] = c
observe_all c (o ∷ os) = observe_all (observe c o) os
