-- ===== src/Budget/Fit.antt =====
-- budget.py: trimming a text to a budget along line borders.
pub mod Lines
pub mod Head
pub mod Edges
use label_kit.Prelude.{
  ℕ, zero, suc, ◌+◌, ◌-◌, ◌/◌, ◌%◌, Bool, List, [], ◌∷◌, ◌++◌, take, length, ltb, if◌then◌else◌,
  nat_beq,
}
use label_kit.Prelude.Int.{ℤ, fits}
use label_kit.Budget.Estimate.{Text, est_text}

abbrev pub newline : ℕ
newline = 10

-- What `s.split("\n")` puts before the first line.
abbrev pub push : ℕ → List Text → List Text
push c [] = (c ∷ []) ∷ []
push c (l ∷ ls) = (c ∷ l) ∷ ls

unfoldable pub split_lines : Text → List Text
split_lines [] = [] ∷ []
split_lines (c ∷ s) =
    let rest = split_lines s in if nat_beq c newline then [] ∷ rest else push c rest

-- "\n".join(lines)
unfoldable pub join_lines : List Text → Text
join_lines [] = []
join_lines (l ∷ []) = l
join_lines (l ∷ (m ∷ ms)) = l ++ (newline ∷ join_lines (m ∷ ms))

-- lines[-1]
abbrev pub last_line : List Text → Text
last_line [] = []
last_line (l ∷ []) = l
last_line (l ∷ (m ∷ ms)) = last_line (m ∷ ms)

-- str(n): the digits of `n` before `acc`, with fuel.
unfoldable pub decimal_from : ℕ → ℕ → Text → Text
decimal_from zero n acc = acc
decimal_from (suc f) n acc =
    let rest = decimal_from f (n / 10) ((48 + n % 10) ∷ acc) in
    if ltb n 10 then (48 + n) ∷ acc else rest

unfoldable pub decimal : ℕ → Text
unfolding decimal_from
decimal n = decimal_from (suc n) n []

-- "…(truncated {n} lines)"
abbrev pub marker_head : Text
marker_head = 0x2026 ∷ 40 ∷ 116 ∷ 114 ∷ 117 ∷ 110 ∷ 99 ∷ 97 ∷ 116 ∷ 101 ∷ 100 ∷ 32 ∷ []

abbrev pub marker_tail : Text
marker_tail = 32 ∷ 108 ∷ 105 ∷ 110 ∷ 101 ∷ 115 ∷ 41 ∷ []

unfoldable pub fit_marker : ℕ → Text
fit_marker n = marker_head ++ (decimal n ++ marker_tail)

unfoldable pub fits_budget : ℤ → Text → Bool
fits_budget budget_tokens s = fits (est_text s) budget_tokens

module _ (budget_tokens : ℤ) (lines : List Text) where
  -- The first `k` lines.
  unfoldable pub prefix : ℕ → Text
  prefix k = join_lines (take k lines)

  -- The loop `while lo < hi`, with fuel.
  unfoldable pub search_prefix : ℕ → ℕ → ℕ → ℕ
  search_prefix zero lo hi = lo
  search_prefix (suc f) lo hi =
      let mid = (lo + hi + 1) / 2 in
      let above = search_prefix f mid hi in
      let below = search_prefix f lo (mid - 1) in
      if ltb lo hi then (if fits_budget budget_tokens (prefix mid) then above else below) else lo

  -- The first line, `keep_middle` lines after it, the marker for those left out, and the last line.
  unfoldable pub edges_candidate : ℕ → Text
  edges_candidate keep_middle = join_lines (
      take (1 + keep_middle) lines
      ++ (fit_marker (length lines - 2 - keep_middle) ∷ last_line lines ∷ []))

  -- The loop over `keep_middle` from the argument less one down to 0.
  unfoldable pub edges_from : ℕ → Text
  edges_from zero = fit_marker (length lines)
  edges_from (suc keep_middle) =
      let candidate = edges_candidate keep_middle in
      let rest = edges_from keep_middle in
      if fits_budget budget_tokens candidate then candidate else rest

pub data Keep : Type 0 where
  head edges : Keep

unfoldable pub trim : ℤ → List Text → Keep → Text
trim budget_tokens lines head =
    prefix budget_tokens lines
      (search_prefix budget_tokens lines (length lines) 0 (length lines - 1))
trim budget_tokens lines edges = edges_from budget_tokens lines (length lines - 2)

unfoldable pub fit_text : Text → ℤ → Keep → Text
fit_text s budget_tokens keep =
    if fits_budget budget_tokens s then s else trim budget_tokens (split_lines s) keep
