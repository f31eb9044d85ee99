-- ===== src/Budget/Examples.antt =====
-- budget.py: the theorems at concrete values, and runs of the code.
use label_kit.Prelude.{
  ℕ, ◌-◌, ◌≡◌, refl, true, false, some, List, [], ◌∷◌, ◌++◌, String, arith, length,
}
use mathlib.Core.List.{perm_middle}
use label_kit.Prelude.Int.{pos, fits}
use label_kit.Prelude.Dict.{Dict}
use label_kit.Budget.Margins.{LlmProfile, margin, input_budget, ceil_div}
use label_kit.Budget.Estimate.{Text, est_text, weigh, count_chars, count_char, is_cjk, in_ranges}
use label_kit.Budget.Estimate.Laws.{est_text_lem, total_sixths}
use label_kit.Budget.Image.{Provider, openai_compatible}
use label_kit.Budget.Prompt.{Message, text, image}
use label_kit.Budget.Fit.{Keep, fits_budget, fit_text, fit_marker, prefix, split_lines}
use label_kit.Budget.Fit.Head.{IsLongest, fit_text-head}
use label_kit.Budget.Fit.Edges.{IsEdgesTrim, fit_text-edges, fit_text-edges_twice}
use label_kit.Budget.Packing.{pack_windows, pack_from, window_end, grow, cost_at, frame_windows}
use label_kit.Budget.Packing.Windows.{IsPacking, pack_windows-IsPacking}
use label_kit.Budget.Packing.Cover.{frames, range_from, frames-frame_windows}
use label_kit.Budget.Calibrator.{Observation, new, cost}
use label_kit.Budget.Calibrator.History.{run, expected_cost, cost-run}
use label_kit.Budget.Calibrator.Order.{Reordered, cost-Reordered}
use label_kit.Breaker as Breaker
use label_kit.Budget.Failures.{
  Exception, context_overflow, reactive, http_400, feed_times, is_reactive_400, overflow_400,
  one_more_fatal, IsFedOnce, feed_reactive_terminal_once,
}

abbrev profile : LlmProfile
profile = record { context_window = 8192; max_output_tokens = 1024 }

profile_fit : fits 6000 (input_budget profile) ≡ true
unfolding input_budget margin
profile_fit = refl

-- "hi", and the two characters of U+6807 and U+6CE8
abbrev hi : Text
hi = 104 ∷ 105 ∷ []

abbrev label : Text
label = 0x6807 ∷ 0x6ce8 ∷ []

est_text_lem_example : est_text label ≡ ceil_div (total_sixths label) 6
est_text_lem_example = est_text_lem label

-- Three lines: "hi", the label and "hi".
abbrev three_lines : Text
three_lines = hi ++ (10 ∷ (label ++ (10 ∷ hi)))

three_lines_unfit : fits_budget (pos 2) three_lines ≡ false
unfolding fits_budget est_text weigh count_chars count_char is_cjk in_ranges
three_lines_unfit = refl

fit_text-head_example :
    (k : ℕ) × (fit_text three_lines (pos 2) Keep.head ≡ prefix (pos 2) (split_lines three_lines) k)
    × IsLongest (pos 2) (split_lines three_lines) k
fit_text-head_example = fit_text-head three_lines (pos 2) three_lines_unfit

fit_text-edges_example :
    IsEdgesTrim
      (pos 2)
      (split_lines three_lines)
      (length (split_lines three_lines) - 2)
      (fit_text three_lines (pos 2) Keep.edges)
fit_text-edges_example = fit_text-edges three_lines (pos 2) three_lines_unfit

fit_text-edges_twice_example :
    let r = fit_text three_lines (pos 2) Keep.edges in
    (fits_budget (pos 2) r ≡ true → fit_text r (pos 2) Keep.edges ≡ r)
    × (fits_budget (pos 2) r ≡ false → fit_text r (pos 2) Keep.edges ≡ fit_marker 1)
fit_text-edges_twice_example = fit_text-edges_twice three_lines (pos 2)

abbrev costs : List ℕ
costs = 3 ∷ 4 ∷ 9 ∷ 2 ∷ 2 ∷ 20 ∷ []

pack_windows-IsPacking_example : IsPacking costs (pos 10) 4 0 (pack_windows costs (pos 10) 4)
pack_windows-IsPacking_example = pack_windows-IsPacking costs (pos 10) 4 (omega arith)

-- The budget forces the pairs (1, 3), (2, 4) and (4, 6).
packed : pack_windows costs (pos 10) 4 ≡ (0, 2) ∷ (1, 3) ∷ (2, 4) ∷ (3, 5) ∷ (4, 6) ∷ []
unfolding pack_windows pack_from window_end grow cost_at
packed = refl

frames-frame_windows_example : frames (frame_windows costs (pos 10)) ≡ range_from 0 (length costs)
frames-frame_windows_example = frames-frame_windows costs (pos 10)

abbrev profiles : Dict String (Provider × ℕ)
profiles = ("vision", (openai_compatible, 1024)) ∷ []

abbrev response : ℕ → Observation
response n = record { profile = "vision"; prompt_tokens = n; text_est = 100; n_images = 2 }

abbrev batch : List Observation
batch = response 500 ∷ response 700 ∷ response 90 ∷ []

abbrev batch_reordered : List Observation
batch_reordered = response 90 ∷ response 500 ∷ response 700 ∷ []

cost-run_example :
    cost (run (new profiles) (batch ∷ batch ∷ batch ∷ [])) "vision"
    ≡ expected_cost profiles "vision" (batch ∷ batch ∷ batch ∷ [])
cost-run_example = cost-run profiles (batch ∷ batch ∷ batch ∷ []) "vision"

cost-Reordered_example :
    cost (run (new profiles) (batch ∷ [])) "vision"
    ≡ cost (run (new profiles) (batch_reordered ∷ [])) "vision"
cost-Reordered_example =
    cost-Reordered profiles "vision"
      (Reordered.batch (perm_middle (response 500 ∷ response 700 ∷ []) []) Reordered.done)

abbrev overflow : Exception
overflow = context_overflow (record { phase = reactive; origin = http_400; breaker_fed = false })

-- The second feed changes nothing.
fed_twice :
    feed_times 2 overflow (some (Breaker.new 3))
    ≡ (overflow_400 true, some (one_more_fatal (Breaker.new 3)))
unfolding feed_times is_reactive_400 Breaker.record_provider_result Breaker.new
fed_twice = refl

feed_reactive_terminal_once_example : IsFedOnce overflow (some (Breaker.new 3))
feed_reactive_terminal_once_example = feed_reactive_terminal_once overflow (some (Breaker.new 3))

-- A schema is its own text.
abbrev dumps : Text → Text
dumps schema = schema

abbrev greeting : Message
greeting = text (some hi) ∷ image ∷ []
