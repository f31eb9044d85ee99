-- ===== src/Budget/Image.antt =====
-- budget.py: the prior cost of an image by the provider's formula.
use label_kit.Prelude.{ℕ, ◌+◌, ◌*◌, min}
use label_kit.Budget.Margins.{ceil_div}

pub data Provider : Type 0 where
  anthropic openai_compatible : Provider

abbrev pub anthropic_patch_px : ℕ
anthropic_patch_px = 28

abbrev pub anthropic_token_cap : ℕ
anthropic_token_cap = 1568

abbrev pub openai_fit_square_px : ℕ
openai_fit_square_px = 2048

abbrev pub openai_short_side_px : ℕ
openai_short_side_px = 768

abbrev pub openai_tile_px : ℕ
openai_tile_px = 512

abbrev pub openai_base_tokens : ℕ
openai_base_tokens = 85

abbrev pub openai_tile_tokens : ℕ
openai_tile_tokens = 170

unfoldable pub image_prior : Provider → ℕ → ℕ
image_prior anthropic px =
    let side = ceil_div px anthropic_patch_px in min (side * side) anthropic_token_cap
image_prior openai_compatible px =
    let long_edge = min px openai_fit_square_px in
    let tiles =
      ceil_div (min openai_short_side_px long_edge) openai_tile_px
      * ceil_div long_edge openai_tile_px in
    openai_base_tokens + openai_tile_tokens * tiles

-- The prior reads the provider of the profile only.
unfoldable pub est_image_prior : Provider → ℕ → ℕ
est_image_prior = image_prior
