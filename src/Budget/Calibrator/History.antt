-- ===== src/Budget/Calibrator/History.antt =====
-- budget.py, ImageCostCalibrator: the cost as a function of the whole history of batches.
use label_kit.Prelude.{
  ℕ, ◌+◌, ◌≡◌, refl, ap, sym, subst, ◌∙◌, String, Option, none, some, List, [], ◌∷◌, ◌++◌, arith,
  length, maximum, ltb, string_eq, if◌then◌else◌,
}
use mathlib.Core.Path.{ap₂}
use mathlib.Core.Option
use label_kit.Prelude.Dict.{Dict, get, IsDistinct}
use label_kit.Budget.Image.{Provider}
use label_kit.Budget.Calibrator.{
  ImageCostCalibrator, Observation, new, observe_all, freeze_all, freeze_batch, safe_cost, cost,
  inflated_prior, calibration_min_samples, calibration_window_batches,
}
use label_kit.Budget.Calibrator.Window.{last_n, push_window-last}
use label_kit.Budget.Calibrator.Freeze.{
  Entry, entry, freeze_entry, freeze_for, entry-freeze_all, profiles-freeze_all,
}
use label_kit.Budget.Calibrator.Observe.{
  samples_for, bucket, current-observe_all, observe_all-IsDistinct, entry-observe_all, reading,
  cost-eq-reading,
}

-- Batches one after the other, each frozen at its end.
unfoldable pub run : ImageCostCalibrator → List (List Observation) → ImageCostCalibrator
run c [] = c
run c (b ∷ bs) = run (freeze_batch (observe_all c b)) bs

abbrev pub extend : List ℕ → List ℕ → List ℕ
extend h [] = h
extend h (x ∷ xs) = h ++ (maximum (x ∷ xs) ∷ [])

-- The maxima of the batches in which the profile has a sample, behind those of `h`.
unfoldable pub maxima : String → List ℕ → List (List Observation) → List ℕ
maxima p h [] = h
maxima p h (b ∷ bs) = maxima p (extend h (samples_for p b)) bs

-- The samples of the profile in all batches, besides `t`.
unfoldable pub sample_count : String → ℕ → List (List Observation) → ℕ
sample_count p t [] = t
sample_count p t (b ∷ bs) = sample_count p (t + length (samples_for p b)) bs

unfoldable pub cost_of_history : List ℕ → Option ℕ
cost_of_history [] = none
cost_of_history (x ∷ xs) = some (safe_cost (maximum (last_n calibration_window_batches (x ∷ xs))))

-- What `cost` has to give after the batches, by the whole history.
unfoldable pub expected_cost :
    Dict String (Provider × ℕ) → String → List (List Observation) → Option ℕ
expected_cost profiles p bs =
    if ltb (sample_count p 0 bs) calibration_min_samples
    then Option.map inflated_prior (get profiles p)
    else cost_of_history (maxima p [] bs)

entry_of : List ℕ → ℕ → Entry
entry_of h t = record {
  window = last_n calibration_window_batches h;
  total = t;
  snapshot = cost_of_history h;
}

record Represents (c : ImageCostCalibrator) (p : String) (h : List ℕ) (t : ℕ) : Type 0 where
  closed : c.current ≡ []
  known : entry c p ≡ entry_of h t

cost_of_history-append :
    (h : List ℕ) (x : ℕ)
    → cost_of_history (h ++ (x ∷ []))
      ≡ some (safe_cost (maximum (last_n calibration_window_batches (h ++ (x ∷ [])))))
unfolding cost_of_history
cost_of_history-append [] x = refl
cost_of_history-append (y ∷ ys) x = refl

freeze_for-entry_of :
    (h : List ℕ) (t : ℕ) (s : List ℕ)
    → freeze_for (entry_of h t) (bucket none s) ≡ entry_of (extend h s) (t + length s)
unfolding freeze_for bucket freeze_entry entry_of
freeze_for-entry_of h t [] = let e : t + 0 ≡ t = omega arith in rw e
freeze_for-entry_of h t (x ∷ xs) =
    rw (push_window-last, cost_of_history-append h (maximum (x ∷ xs)))

get-nil : (p : String) → get {V = List ℕ} [] p ≡ none
unfolding get
get-nil p = refl

freeze_batch-Represents :
    (c : ImageCostCalibrator) (b : List Observation) (p : String) (h : List ℕ) (t : ℕ)
    → Represents c p h t
    → Represents
        (freeze_batch (observe_all c b))
        p
        (extend h (samples_for p b))
        (t + length (samples_for p b))
freeze_batch-Represents c b p h t r = record {
  closed = unfold freeze_batch in refl;
  known =
      entry-freeze_batch
      ∙ entry-freeze_all open_batch open_batch.current p
          (observe_all-IsDistinct c b (subst IsDistinct (sym r.closed) tt))
      ∙ ap₂ freeze_for ((entry-observe_all c b p).0 ∙ r.known) samples
      ∙ freeze_for-entry_of h t (samples_for p b);
}
  where
    open_batch : ImageCostCalibrator
    open_batch = observe_all c b

    entry-freeze_batch :
        entry (freeze_batch open_batch) p ≡ entry (freeze_all open_batch open_batch.current) p
    entry-freeze_batch = unfold freeze_batch entry in refl

    samples : get open_batch.current p ≡ bucket none (samples_for p b)
    samples =
        current-observe_all c b p
        ∙ ap (λ old. bucket old (samples_for p b)) (ap (λ d. get d p) r.closed ∙ get-nil p)

profiles-freeze_batch :
    (c : ImageCostCalibrator) (b : List Observation)
    → (freeze_batch (observe_all c b)).profiles ≡ c.profiles
unfolding freeze_batch
profiles-freeze_batch c b =
    profiles-freeze_all (observe_all c b) (observe_all c b).current ∙ (entry-observe_all c b "").1

run-Represents :
    (c : ImageCostCalibrator) (bs : List (List Observation)) (p : String) (h : List ℕ) (t : ℕ)
    → Represents c p h t
    → Represents (run c bs) p (maxima p h bs) (sample_count p t bs)
      × ((run c bs).profiles ≡ c.profiles)
unfolding run maxima sample_count
run-Represents c [] p h t r = (r, refl)
run-Represents c (b ∷ bs) p h t r =
    let (r', e) =
      run-Represents (freeze_batch (observe_all c b)) bs p _ _
        (freeze_batch-Represents c b p h t r) in
    (r', e ∙ profiles-freeze_batch c b)

new-Represents :
    (profiles : Dict String (Provider × ℕ)) (p : String) → Represents (new profiles) p [] 0
unfolding new entry entry_of get last_n cost_of_history
new-Represents profiles p = record { closed = refl; known = refl }

profiles-new : (profiles : Dict String (Provider × ℕ)) → (new profiles).profiles ≡ profiles
unfolding new
profiles-new profiles = refl

-- After any batches of responses, the cost that is read for a profile is the inflated prior while
-- fewer than eight samples are frozen, and from then on the safe cost of the largest of the last
-- eight batch maxima of that profile.
pub cost-run :
    (profiles : Dict String (Provider × ℕ)) (bs : List (List Observation)) (p : String)
    → cost (run (new profiles) bs) p ≡ expected_cost profiles p bs
cost-run profiles bs p =
    let (r, e) = run-Represents (new profiles) bs p [] 0 (new-Represents profiles p) in
    let declared : (run (new profiles) bs).profiles ≡ profiles = e ∙ profiles-new profiles in
    cost-eq-reading (run (new profiles) bs) p
    ∙ ap₂ reading (ap (λ d. get d p) declared) r.known
    ∙ unfold reading entry_of expected_cost in refl
