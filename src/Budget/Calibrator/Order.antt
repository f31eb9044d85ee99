-- ===== src/Budget/Calibrator/Order.antt =====
-- budget.py, ImageCostCalibrator: batches whose responses arrive in another order.
use label_kit.Prelude.{
  ℕ, Bool, ◌+◌, ◌≡◌, refl, sym, ◌∙◌, String, List, [], ◌∷◌, arith, length, maximum, ltb, string_eq,
  ◌==◌, if◌then◌else◌,
}
use mathlib.Core.List.{Perm, Permᴰ}
use mathlib.Core.Logic.{∥∥₁_elim}
use native.Mathlib.Nat.{ℕ_set}
use label_kit.Prelude.Dict.{Dict}
use label_kit.Budget.Image.{Provider}
use label_kit.Budget.Calibrator.{Observation, new, sample_of, cost}
use label_kit.Budget.Calibrator.Observe.{samples_for}
use label_kit.Budget.Calibrator.History.{run, extend, maxima, sample_count, expected_cost, cost-run}

-- Two lists with one length and one maximum.
record Alike (l m : List ℕ) : Type 0 where
  sizes : length l ≡ length m
  tops : maximum l ≡ maximum m

abbrev pick : Bool → Bool → ℕ → List ℕ → List ℕ
pick skip mine x l = if skip then l else if mine then x ∷ l else l

pick_swap :
    (s m s' m' : Bool) (x y : ℕ) (l : List ℕ)
    → Alike (pick s m x (pick s' m' y l)) (pick s' m' y (pick s m x l))
pick_swap s m s' m' x y l = record { sizes = ground arith; tops = ground arith }

pick_cons : (s m : Bool) (x : ℕ) (l l' : List ℕ) → Alike l l' → Alike (pick s m x l) (pick s m x l')
pick_cons s m x l l' h = record { sizes = ground (arith, h.sizes); tops = ground (arith, h.tops) }

samples_for-permᴰ :
    (p : String) {b b' : List Observation} → Permᴰ b b' → Alike (samples_for p b) (samples_for p b')
unfolding samples_for
samples_for-permᴰ p Permᴰ.nil = record { sizes = refl; tops = refl }
samples_for-permᴰ p (Permᴰ.cons {a = a} {l₁ = l} {l₂ = m} e d) = rw (← e) (
    pick_cons (ltb a.n_images 1) (a.profile == p) (sample_of a) (samples_for p l) (samples_for p m)
      (samples_for-permᴰ p d))
samples_for-permᴰ p (Permᴰ.swap {a = a} {b = b} {l = l} e f) =
    rw (← e, ← f)
      (pick_swap (ltb a.n_images 1) (a.profile == p) (ltb b.n_images 1) (b.profile == p)
        (sample_of a) (sample_of b) (samples_for p l))
samples_for-permᴰ p (Permᴰ.trans d d') =
    let h = samples_for-permᴰ p d in
    let h' = samples_for-permᴰ p d' in
    record { sizes = h.sizes ∙ h'.sizes; tops = h.tops ∙ h'.tops }

Alike-prop : (l m : List ℕ) → IsProp (Alike l m)
Alike-prop l m a b i = record {
  sizes = ℕ_set _ _ a.sizes b.sizes i;
  tops = ℕ_set _ _ a.tops b.tops i;
}

samples_for-perm :
    (p : String) {b b' : List Observation} → Perm b b' → Alike (samples_for p b) (samples_for p b')
samples_for-perm p d = ∥∥₁_elim d (Alike-prop _ _) (samples_for-permᴰ p)

extend-Alike : (h l m : List ℕ) → Alike l m → extend h l ≡ extend h m
extend-Alike h [] [] a = refl
extend-Alike h [] (x ∷ m) a = absurd (omega (arith, a.sizes))
extend-Alike h (x ∷ l) [] a = absurd (omega (arith, a.sizes))
extend-Alike h (x ∷ l) (y ∷ m) a = rw a.tops

-- The batches of the one list are those of the other, each in some order.
pub data Reordered : List (List Observation) → List (List Observation) → Type 0 where
  done : Reordered [] []
  batch :
      {b b' : List Observation} {bs bs' : List (List Observation)}
      → Perm b b'
      → Reordered bs bs'
      → Reordered (b ∷ bs) (b' ∷ bs')

maxima-Reordered :
    (p : String) (h : List ℕ) (t : ℕ) {bs bs' : List (List Observation)}
    → Reordered bs bs'
    → (maxima p h bs ≡ maxima p h bs') × (sample_count p t bs ≡ sample_count p t bs')
unfolding maxima sample_count
maxima-Reordered p h t done = (refl, refl)
maxima-Reordered p h t (batch {b = b} {b' = b'} d rest) =
    let a = samples_for-perm p d in
    let e = extend-Alike h _ _ a in
    rw (e, a.sizes)
      (maxima-Reordered p (extend h (samples_for p b')) (t + length (samples_for p b')) rest)

-- If the responses within each batch arrive in another order, every reading after the batches is the
-- same.
pub cost-Reordered :
    (profiles : Dict String (Provider × ℕ)) (p : String) {bs bs' : List (List Observation)}
    → Reordered bs bs'
    → cost (run (new profiles) bs) p ≡ cost (run (new profiles) bs') p
unfolding expected_cost
cost-Reordered profiles p {bs} {bs'} r =
    let (e, f) = maxima-Reordered p [] 0 r in
    cost-run profiles bs p ∙ rw (e, f) (sym (cost-run profiles bs' p))
