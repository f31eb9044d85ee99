-- ===== src/Budget/Margins.antt =====
-- budget.py: the margin and the input budgets of a profile.
use label_kit.Prelude.{ℕ, ◌+◌, ◌-◌, ◌*◌, ◌/◌, ◌≤◌, ◌<◌, ◌≡◌, true, arith, leb, max, if◌then◌else◌}
use label_kit.Prelude.Int.{ℤ, pos, sub_ℕ, fits}

-- math.ceil(a / b) for a positive divisor.
abbrev pub ceil_div : ℕ → ℕ → ℕ
ceil_div a b = (a + b - 1) / b

abbrev pub margin_floor : ℕ
margin_floor = 256

-- The ratio is 0.10, so the product is a tenth.
unfoldable pub margin : ℕ → ℕ
margin context_window = max margin_floor (ceil_div context_window 10)

pub record LlmProfile : Type 0 where
  pub context_window : ℕ
  pub max_output_tokens : ℕ

unfoldable pub input_budget : LlmProfile → ℤ
input_budget profile =
    if leb profile.context_window 0
    then pos 0
    else sub_ℕ profile.context_window (profile.max_output_tokens + margin profile.context_window)

-- The embedding profile is read for its context window only.
unfoldable pub embed_budget : ℕ → ℤ
embed_budget context_window =
    if leb context_window 0 then pos 0 else sub_ℕ context_window (margin context_window)

-- For a declared context window, a prompt that fits the input budget leaves room in the window for
-- the whole output and for a tenth of the window, and for no less than 256 tokens besides.
pub input_budget-fits :
    (profile : LlmProfile) (prompt : ℕ)
    → 0 < profile.context_window
    → fits prompt (input_budget profile) ≡ true
    → (10 * (prompt + profile.max_output_tokens) + profile.context_window
        ≤ 10 * profile.context_window)
      × (prompt + profile.max_output_tokens + margin_floor ≤ profile.context_window)
unfolding input_budget margin
input_budget-fits profile prompt declared h = ground arith
