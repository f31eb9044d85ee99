-- ===== src/Budget/Packing/Cover.antt =====
-- budget.py, pack_windows, and classify.py, _frame_windows: the frames that the windows list.
use label_kit.Prelude.{
  ℕ, zero, suc, ◌+◌, ◌-◌, ◌≤◌, ◌<◌, ◌≡◌, refl, ap, ◌∙◌, List, [], ◌∷◌, ◌++◌, arith, length,
}
use mathlib.Core.List.{append-nil}
use label_kit.Prelude.Int.{ℤ}
use label_kit.Budget.Packing.{Span, pack_from, pack_windows, shift_starts, frame_windows}
use label_kit.Budget.Packing.Windows.{IsPacking, pack_windows-IsPacking}

-- `k` numbers from `start` on.
abbrev pub range_from : ℕ → ℕ → List ℕ
range_from start zero = []
range_from start (suc k) = start ∷ range_from (suc start) k

-- The frames of the windows, one window after the other.
abbrev pub frames : List Span → List ℕ
frames [] = []
frames ((start, end) ∷ rest) = range_from start (end - start) ++ frames rest

range-append :
    (start k m n i : ℕ)
    → i ≡ start + k
    → n ≡ k + m
    → range_from start k ++ range_from i m ≡ range_from start n
range-append start zero m n i e d =
    let a : i ≡ start = omega arith in let b : n ≡ m = omega arith in rw (a, b) refl
range-append start (suc k) m n i e d =
    let b : n ≡ suc (k + m) = omega arith in
    rw b (ap (λ l. start ∷ l) (range-append (suc start) k m (k + m) i (omega arith) refl))

module _ (costs : List ℕ) (budget : ℤ) (cap : ℕ) where
  frames-shift_starts :
      (start : ℕ) (spans : List Span)
      → IsPacking costs budget cap start spans
      → frames (shift_starts spans) ≡ range_from (start + 1) (length costs - (start + 1))
  unfolding shift_starts
  frames-shift_starts start [] p = absurd p
  frames-shift_starts start ((s, e) ∷ []) p = rw (append-nil, p.0, p.2)
  frames-shift_starts start ((s, e) ∷ (next ∷ rest)) p =
      ap (λ l. range_from (s + 1) (e - (s + 1)) ++ l)
        (frames-shift_starts (e - 1) (next ∷ rest) p.4)
      ∙ range-append_at (p.1.nonempty) p.0 p.2 p.3
    where
      range-append_at :
          s < e
          → s ≡ start
          → start + 2 ≤ e
          → e < length costs
          → range_from (s + 1) (e - (s + 1)) ++ range_from (e - 1 + 1) (length costs - (e - 1 + 1))
            ≡ range_from (start + 1) (length costs - (start + 1))
      range-append_at h same two lt =
          range-append (s + 1) (e - (s + 1)) (length costs - (e - 1 + 1)) (length costs - (s + 1))
            (e - 1 + 1) (omega arith) (omega arith)
          ∙ rw same

  frames-first :
      (spans : List Span)
      → IsPacking costs budget cap 0 spans
      → frames (elim spans [ [] ↦ [] | first ∷ rest ↦ first ∷ shift_starts rest ])
        ≡ range_from 0 (length costs)
  unfolding shift_starts
  frames-first [] p = absurd p
  frames-first ((s, e) ∷ []) p =
      let whole : e - s ≡ length costs = omega (arith, p.0, p.2) in rw (append-nil, whole, p.0)
  frames-first ((s, e) ∷ (next ∷ rest)) p =
      ap (λ l. range_from s (e - s) ++ l) (frames-shift_starts (e - 1) (next ∷ rest) p.4)
      ∙ first_and_others p.0 p.2 p.3
    where
      first_and_others :
          s ≡ 0
          → 2 ≤ e
          → e < length costs
          → range_from s (e - s) ++ range_from (e - 1 + 1) (length costs - (e - 1 + 1))
            ≡ range_from 0 (length costs)
      first_and_others zero_start two lt =
          range-append s (e - s) (length costs - (e - 1 + 1)) (length costs) (e - 1 + 1)
            (omega arith) (omega arith)
          ∙ rw zero_start

-- The windows without overlap list each frame exactly once, in order.
pub frames-frame_windows :
    (costs : List ℕ) (budget : ℤ)
    → frames (frame_windows costs budget) ≡ range_from 0 (length costs)
unfolding frame_windows
frames-frame_windows [] budget = unfold pack_windows pack_from in refl
frames-frame_windows (c ∷ cs) budget =
    frames-first (c ∷ cs) budget (length (c ∷ cs)) _
      (pack_windows-IsPacking (c ∷ cs) budget (length (c ∷ cs)) (omega arith))
