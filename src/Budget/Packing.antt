-- ===== src/Budget/Packing.antt =====
-- budget.py: the greedy packer of windows that overlap by one frame.
pub mod Windows
pub mod Cover
use label_kit.Prelude.{
  ℕ, zero, suc, ◌+◌, ◌-◌, Bool, ◌&&◌, Option, none, some, List, [], ◌∷◌, length, ltb, min, nat_beq,
  if◌then◌else◌,
}
use label_kit.Prelude.Int.{ℤ, fits}

abbrev pub Span : Type 0
Span = ℕ × ℕ

-- costs[i]; the loops read it below the length only.
unfoldable pub cost_at : List ℕ → ℕ → ℕ
cost_at [] i = 0
cost_at (c ∷ cs) zero = c
cost_at (c ∷ cs) (suc i) = cost_at cs i

module _ (costs : List ℕ) (budget : ℤ) (cap : ℕ) where
  -- The inner loop: the end of the window that begins at `start`, with fuel.
  unfoldable pub grow : ℕ → ℕ → ℕ → ℕ → ℕ
  grow zero start end total = end
  grow (suc f) start end total =
      let longer = grow f start (end + 1) (total + cost_at costs end) in
      if ltb end (length costs)
        && (ltb (end - start) cap && fits (total + cost_at costs end) budget)
      then longer
      else end

  -- A window has two frames at least, where the frames last.
  unfoldable pub window_end : ℕ → ℕ
  window_end start =
      let end = grow (length costs) start start 0 in
      if ltb (end - start) 2 then min (start + 2) (length costs) else end

  -- The outer loop, with fuel.
  unfoldable pub pack_from : ℕ → ℕ → List Span
  pack_from zero start = []
  pack_from (suc f) start =
      let end = window_end start in
      let rest = pack_from f (end - 1) in
      if ltb start (length costs)
      then (start, end) ∷ (if nat_beq end (length costs) then [] else rest)
      else []

  unfoldable pub pack_windows : List Span
  pack_windows = pack_from (length costs) 0

-- labelkit/operators/classify.py: from the second window on, the frame that it shares with the window
-- before is left out.
unfoldable pub shift_starts : List Span → List Span
shift_starts [] = []
shift_starts ((start, end) ∷ rest) = (start + 1, end) ∷ shift_starts rest

unfoldable pub frame_windows : List ℕ → ℤ → List Span
frame_windows costs pack_budget = elim (pack_windows costs pack_budget (length costs)) [
  | [] ↦ []
  | first ∷ rest ↦ first ∷ shift_starts rest
]

-- min(2, cfg.segment.window)
unfoldable pub min_window : ℕ → ℕ
min_window window = min 2 window
