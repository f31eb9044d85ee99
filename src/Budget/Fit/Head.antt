-- ===== src/Budget/Fit/Head.antt =====
-- budget.py, fit_text with keep="head": the binary search.
use label_kit.Prelude.{
  ℕ, zero, suc, ◌+◌, ◌-◌, ◌/◌, ◌≤◌, ◌<◌, ◌≡◌, refl, ◌∙◌, ap, true, false, List, [], arith, length,
  Bool-cases, ◌⊎◌, inl, inr, ltb, take-all,
}
use label_kit.Prelude.Int.{ℤ, fits_mono}
use label_kit.Budget.Estimate.{Text, est_text}
use label_kit.Budget.Fit.{
  Keep, split_lines, join_lines, prefix, fits_budget, search_prefix, trim, fit_text,
}
use label_kit.Budget.Fit.Lines.{join-split, split_lines-ne-nil, est-prefix_mono}

-- `k` lines are kept: they fit, or none is kept, and no longer run of the lines fits.
pub record IsLongest (b : ℤ) (lines : List Text) (k : ℕ) : Type 0 where
  pub short : k < length lines
  pub kept : (k ≡ 0) ⊎ (fits_budget b (prefix b lines k) ≡ true)
  pub longest : (j : ℕ) → k < j → j ≤ length lines → fits_budget b (prefix b lines j) ≡ false

module _ (b : ℤ) (lines : List Text) where
  unfit_above :
      (j k : ℕ)
      → j ≤ k
      → fits_budget b (prefix b lines j) ≡ false
      → fits_budget b (prefix b lines k) ≡ false
  unfolding fits_budget
  unfit_above j k h e = ground (
    arith,
    fits_mono (est_text (prefix b lines j)) (est_text (prefix b lines k)) b
        (est-prefix_mono b lines j k h),
  )

  search_prefix_lem :
      (f lo hi : ℕ)
      → lo ≤ hi
      → hi ≤ lo + f
      → hi < length lines
      → (lo ≡ 0) ⊎ (fits_budget b (prefix b lines lo) ≡ true)
      → ((j : ℕ) → hi < j → j ≤ length lines → fits_budget b (prefix b lines j) ≡ false)
      → IsLongest b lines (search_prefix b lines f lo hi)
  unfolding search_prefix
  search_prefix_lem zero lo hi le fuel lt kept above = record {
    short = omega arith;
    kept = kept;
    longest = λ j p q. above j (omega arith) q;
  }
  search_prefix_lem (suc f) lo hi le fuel lt kept above =
      let mid = (lo + hi + 1) / 2 in
      elim (Bool-cases (ltb lo hi)) [
        | inl more ↦ elim (Bool-cases (fits_budget b (prefix b lines mid))) [
          | inl fit ↦
              rw (more, fit)
                (search_prefix_lem f mid hi (ground arith) (ground arith) lt (inr fit) above)
          | inr unfit ↦
              rw (more, unfit)
                (search_prefix_lem f lo (mid - 1) (ground arith) (ground arith) (ground arith) kept
                  (λ j p q. unfit_above mid j (ground arith) unfit))
        ]
        | inr done ↦ rw done (record {
          short = omega arith;
          kept = kept;
          longest = λ j p q. above j (ground arith) q;
        })
      ]

-- The lines of a text that does not fit, all of them, do not fit.
all_lines_unfit :
    (s : Text) (b : ℤ) (j : ℕ)
    → fits_budget b s ≡ false
    → length (split_lines s) ≤ j
    → fits_budget b (prefix b (split_lines s) j) ≡ false
unfolding prefix
all_lines_unfit s b j e h = rw (take-all j (split_lines s) h, join-split s) e

-- A text over the budget is cut to its first `k` lines, where these fit or `k` is 0, and no longer
-- run of its lines fits.
pub fit_text-head :
    (s : Text) (b : ℤ)
    → fits_budget b s ≡ false
    → (k : ℕ) × (fit_text s b Keep.head ≡ prefix b (split_lines s) k)
      × IsLongest b (split_lines s) k
unfolding fit_text trim
fit_text-head s b unfit =
    let n = length (split_lines s) in
    let positive = split_lines-ne-nil s in
    (
      search_prefix b (split_lines s) n 0 (n - 1),
      rw unfit,
      search_prefix_lem b (split_lines s) n 0 (n - 1) (omega arith) (omega arith) (omega arith)
          (inl refl) (λ j p q. all_lines_unfit s b j unfit (omega arith)),
    )

trim_nil : (b : ℤ) → trim b (split_lines []) Keep.head ≡ []
unfolding trim prefix split_lines search_prefix join_lines
trim_nil b = ground arith

fit_nil : (b : ℤ) → fit_text [] b Keep.head ≡ []
unfolding fit_text
fit_nil b = elim (Bool-cases (fits_budget b [])) [ inl e ↦ rw e | inr e ↦ rw (e, trim_nil b) ]

pub fit_text-fitting :
    (s : Text) (b : ℤ) (keep : Keep) → fits_budget b s ≡ true → fit_text s b keep ≡ s
unfolding fit_text
fit_text-fitting s b keep e = rw e

-- Trimming to the head again changes nothing, whatever the budget, a negative one included.
pub fit_text-head_idempotent :
    (s : Text) (b : ℤ) → fit_text (fit_text s b Keep.head) b Keep.head ≡ fit_text s b Keep.head
fit_text-head_idempotent s b = elim (Bool-cases (fits_budget b s)) [
  | inl fit ↦ ap (λ t. fit_text t b Keep.head) (fit_text-fitting s b Keep.head fit)
  | inr unfit ↦
      let (k, e, long) = fit_text-head s b unfit in
      elim long.kept [
        | inl none_kept ↦
            let nil : fit_text s b Keep.head ≡ [] =
              e ∙ ap (prefix b (split_lines s)) none_kept ∙ unfold prefix join_lines in refl in
            rw (nil, fit_nil b)
        | inr fit ↦ rw e (fit_text-fitting _ b Keep.head fit)
      ]
]
