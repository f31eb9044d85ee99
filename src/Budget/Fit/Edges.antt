-- ===== src/Budget/Fit/Edges.antt =====
-- budget.py, fit_text with keep="edges".
use label_kit.Prelude.{
  ℕ, zero, suc, ◌+◌, ◌-◌, ◌/◌, ◌%◌, ◌≤◌, ◌<◌, ◌≡◌, ◌≢◌, refl, ap, true, false, List, [], ◌∷◌, ◌++◌,
  arith, length, Bool-cases, ◌⊎◌, inl, inr, ltb, All,
}
use label_kit.Prelude.Int.{ℤ}
use label_kit.Budget.Estimate.{Text}
use label_kit.Budget.Fit.{
  Keep, newline, decimal_from, decimal, fit_marker, marker_head, marker_tail, split_lines,
  fits_budget, edges_candidate, edges_from, trim, fit_text,
}
use label_kit.Budget.Fit.Head.{fit_text-fitting}

-- `r` is the candidate that keeps `middle` lines of the middle: it fits, and none that keeps more
-- does.
pub record KeepsMost (b : ℤ) (lines : List Text) (n : ℕ) (r : Text) : Type 0 where
  pub middle : ℕ
  pub short : middle < n
  pub kept : r ≡ edges_candidate b lines middle
  pub fit : fits_budget b r ≡ true
  pub most : (j : ℕ) → middle < j → j < n → fits_budget b (edges_candidate b lines j) ≡ false

-- No candidate fits, and `r` is the marker alone.
pub record KeepsNone (b : ℤ) (lines : List Text) (n : ℕ) (r : Text) : Type 0 where
  pub bare : r ≡ fit_marker (length lines)
  pub none_fits : (j : ℕ) → j < n → fits_budget b (edges_candidate b lines j) ≡ false

module _ (b : ℤ) (lines : List Text) where
  abbrev pub IsEdgesTrim : ℕ → Text → Type 0
  IsEdgesTrim n r = KeepsMost b lines n r ⊎ KeepsNone b lines n r

  below_suc :
      (n : ℕ)
      → fits_budget b (edges_candidate b lines n) ≡ false
      → (m : ℕ) → ((j : ℕ) → m ≤ j → j < n → fits_budget b (edges_candidate b lines j) ≡ false)
      → (j : ℕ) → m ≤ j
      → j < suc n
      → fits_budget b (edges_candidate b lines j) ≡ false
  below_suc n e m h j p q = ground (arith, h j)

  step :
      (n : ℕ) (r : Text)
      → fits_budget b (edges_candidate b lines n) ≡ false
      → IsEdgesTrim n r
      → IsEdgesTrim (suc n) r
  step n r e (inl k) = inl (record {
    middle = k.middle;
    short = omega (arith, k.short);
    kept = k.kept;
    fit = k.fit;
    most = λ j p q. below_suc n e (suc k.middle) k.most j p q;
  })
  step n r e (inr k) = inr (record {
    bare = k.bare;
    none_fits = λ j q. below_suc n e 0 (λ i _. k.none_fits i) j (omega arith) q;
  })

  edges_from_lem : (n : ℕ) → IsEdgesTrim n (edges_from b lines n)
  unfolding edges_from
  edges_from_lem zero = inr (record { bare = refl; none_fits = λ j q. absurd (omega arith) })
  edges_from_lem (suc n) = elim (Bool-cases (fits_budget b (edges_candidate b lines n))) [
    | inl e ↦ rw e (
        inl (record {
          middle = n;
          short = omega arith;
          kept = refl;
          fit = e;
          most = λ j p q. absurd (omega arith);
        }))
    | inr e ↦ rw e (step n (edges_from b lines n) e (edges_from_lem n))
  ]

-- A text over the budget is cut to its first line, the longest run of further lines with which the
-- result fits, a marker and its last line; if no such result fits, to the marker alone.
pub fit_text-edges :
    (s : Text) (b : ℤ)
    → fits_budget b s ≡ false
    → IsEdgesTrim b (split_lines s) (length (split_lines s) - 2) (fit_text s b Keep.edges)
unfolding fit_text trim
fit_text-edges s b unfit = rw unfit (edges_from_lem b (split_lines s) (length (split_lines s) - 2))

-- A text with no line break is one line.
one_line : (s : Text) → All (λ c. c ≢ newline) s → split_lines s ≡ s ∷ []
unfolding split_lines
one_line [] h = refl
one_line (c ∷ s) h = let rest = one_line s h.1 in ground (arith, rest, h.0)

All-append_plain :
    (s t : Text)
    → All (λ c. c ≢ newline) s
    → All (λ c. c ≢ newline) t
    → All (λ c. c ≢ newline) (s ++ t)
All-append_plain [] t h k = k
All-append_plain (c ∷ s) t h k = (h.0, All-append_plain s t h.1 k)

decimal_from_plain :
    (f n : ℕ) (acc : Text)
    → All (λ c. c ≢ newline) acc
    → All (λ c. c ≢ newline) (decimal_from f n acc)
unfolding decimal_from
decimal_from_plain zero n acc h = h
decimal_from_plain (suc f) n acc h = elim (Bool-cases (ltb n 10)) [
  | inl e ↦ rw e (omega arith, h)
  | inr e ↦ rw e (decimal_from_plain f (n / 10) ((48 + n % 10) ∷ acc) (omega arith, h))
]

fit_marker_plain : (n : ℕ) → All (λ c. c ≢ newline) (fit_marker n)
unfolding fit_marker decimal
fit_marker_plain n =
    All-append_plain marker_head (decimal n ++ marker_tail) (omega arith)
      (All-append_plain (decimal n) marker_tail (decimal_from_plain (suc n) n [] tt) (omega arith))

marker_again :
    (b : ℤ) (n : ℕ)
    → fits_budget b (fit_marker n) ≡ false
    → fit_text (fit_marker n) b Keep.edges ≡ fit_marker 1
unfolding fit_text trim edges_from
marker_again b n e = rw (e, one_line (fit_marker n) (fit_marker_plain n))

-- If the text cut at both edges fits, cutting it again changes nothing; if it does not fit, cutting
-- it again gives the marker for one line, whatever number of lines was cut before.
pub fit_text-edges_twice :
    (s : Text) (b : ℤ)
    → let r = fit_text s b Keep.edges in
      (fits_budget b r ≡ true → fit_text r b Keep.edges ≡ r)
      × (fits_budget b r ≡ false → fit_text r b Keep.edges ≡ fit_marker 1)
fit_text-edges_twice s b = (λ fit. again_fit _ fit, λ unfit. again_unfit unfit)
  where
    again_fit : (r : Text) → fits_budget b r ≡ true → fit_text r b Keep.edges ≡ r
    again_fit r fit = unfold fit_text in rw fit

    again_unfit :
        fits_budget b (fit_text s b Keep.edges) ≡ false
        → fit_text (fit_text s b Keep.edges) b Keep.edges ≡ fit_marker 1
    again_unfit unfit = elim (Bool-cases (fits_budget b s)) [
      | inl fit ↦ absurd (cc (ap (fits_budget b) (fit_text-fitting s b Keep.edges fit)))
      | inr over ↦ elim (fit_text-edges s b over) [
        | inl k ↦ absurd (cc (k.fit))
        | inr k ↦ rw k.bare (marker_again b (length (split_lines s)) (rw k.bare at unfit))
      ]
    ]
