-- ===== src/Budget/Calibrator/Freeze.antt =====
-- budget.py, freeze_batch: lemmas on the entries of one profile.
use label_kit.Prelude.{
  ℕ, ◌+◌, ◌≡◌, refl, ap, ◌∙◌, String, Option, none, some, List, [], ◌∷◌, arith, length, maximum,
  string_eq, ◌==◌, Bool-cases, inl, inr, if◌then◌else◌,
}
use label_kit.Prelude.Dict.{Dict, get, get-put, or_default, IsDistinct}
use label_kit.Budget.Calibrator.{
  ImageCostCalibrator, push_window, safe_cost, freeze_profile, freeze_all,
}

-- What the frozen state knows of a profile.
pub record Entry : Type 0 where
  pub window : List ℕ
  pub total : ℕ
  pub snapshot : Option ℕ

unfoldable pub entry : ImageCostCalibrator → String → Entry
entry c p = record {
  window = or_default (get c.windows p) [];
  total = or_default (get c.frozen_total p) 0;
  snapshot = get c.snapshot p;
}

unfoldable pub freeze_entry : Entry → List ℕ → Entry
freeze_entry e samples =
    let window = push_window e.window (maximum samples) in
    record {
      window = window;
      total = e.total + length samples;
      snapshot = some (safe_cost (maximum window));
    }

entry-freeze_profile :
    (c : ImageCostCalibrator) (q p : String) (s : List ℕ)
    → entry (freeze_profile c q s) p ≡ (if q == p then freeze_entry (entry c p) s else entry c p)
unfolding freeze_profile freeze_entry entry
entry-freeze_profile c q p s =
    let old = or_default (get c.windows q) [] in
    let window = push_window old (maximum s) in
    ground (
      arith,
      get-put c.windows q p window,
      get-put c.frozen_total q p (or_default (get c.frozen_total q) 0 + length s),
      get-put c.snapshot q p (safe_cost (maximum window)),
      string_eq.test_iff q p,
    )

unfoldable pub freeze_for : Entry → Option (List ℕ) → Entry
freeze_for e none = e
freeze_for e (some s) = freeze_entry e s

-- Each profile of the batch is frozen once, and the others keep their entries.
pub entry-freeze_all :
    (c : ImageCostCalibrator) (d : Dict String (List ℕ)) (p : String)
    → IsDistinct d
    → entry (freeze_all c d) p ≡ freeze_for (entry c p) (get d p)
unfolding freeze_all freeze_for get
entry-freeze_all c [] p h = refl
entry-freeze_all c ((q, s) ∷ d) p h = elim (Bool-cases (q == p)) [
  | inl e ↦
      let same = (string_eq.test_iff q p).0 e in
      let absent : get d p ≡ none = rw (← same) (h.0) in
      rw e (
        entry-freeze_all (freeze_profile c q s) d p h.1
        ∙ ap (freeze_for (entry (freeze_profile c q s) p)) absent
        ∙ entry-freeze_profile c q p s
        ∙ rw e)
  | inr e ↦ rw e (
      entry-freeze_all (freeze_profile c q s) d p h.1
      ∙ ap (λ x. freeze_for x (get d p)) (entry-freeze_profile c q p s ∙ rw e))
]

pub profiles-freeze_all :
    (c : ImageCostCalibrator) (d : Dict String (List ℕ)) → (freeze_all c d).profiles ≡ c.profiles
unfolding freeze_all
profiles-freeze_all c [] = refl
profiles-freeze_all c ((q, s) ∷ d) =
    profiles-freeze_all (freeze_profile c q s) d ∙ unfold freeze_profile in refl
