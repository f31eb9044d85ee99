-- ===== src/Budget/Estimate.antt =====
-- budget.py: the estimate of a text's tokens. A text is the list of its code points.
pub mod Laws
use label_kit.Prelude.{
  ℕ, zero, suc, ◌+◌, ◌*◌, Bool, true, false, ◌&&◌, List, [], ◌∷◌, leb, ltb, if◌then◌else◌,
}
use label_kit.Budget.Margins.{ceil_div}

abbrev pub Text : Type 0
Text = List ℕ

-- The closed intervals that are billed as CJK.
abbrev pub cjk_ranges : List (ℕ × ℕ)
cjk_ranges =
    (0x3000, 0x303f)
    ∷ (0x3400, 0x4dbf)
    ∷ (0x4e00, 0x9fff)
    ∷ (0xff00, 0xff60)
    ∷ (0xffe0, 0xffe6)
    ∷ (0x20000, 0x2a6df)
    ∷ (0x2a700, 0x2b73f)
    ∷ (0x2b740, 0x2b81f)
    ∷ (0x2b820, 0x2ceaf)
    ∷ (0x2ceb0, 0x2ebef)
    ∷ (0x2ebf0, 0x2ee5f)
    ∷ (0x30000, 0x3134f)
    ∷ (0x31350, 0x323af)
    ∷ []

unfoldable pub in_ranges : ℕ → List (ℕ × ℕ) → Bool
in_ranges cp [] = false
in_ranges cp ((lo, hi) ∷ rest) = if leb lo cp && leb cp hi then true else in_ranges cp rest

unfoldable pub is_cjk : ℕ → Bool
unfolding in_ranges
is_cjk cp = in_ranges cp cjk_ranges

pub record Tally : Type 0 where
  pub ascii_n : ℕ
  pub cjk_n : ℕ
  pub other_n : ℕ

unfoldable pub count_char : ℕ → Tally → Tally
count_char cp t =
    if ltb cp 128
    then record t { ascii_n = t.ascii_n + 1 }
    else if is_cjk cp
    then record t { cjk_n = t.cjk_n + 1 }
    else record t { other_n = t.other_n + 1 }

unfoldable pub count_chars : Tally → Text → Tally
count_chars t [] = t
count_chars t (cp ∷ s) = count_chars (count_char cp t) s

-- ceil(ascii / 3 + cjk + other / 2), over the common denominator 6.
unfoldable pub weigh : Tally → ℕ
weigh t = ceil_div (2 * t.ascii_n + 6 * t.cjk_n + 3 * t.other_n) 6

unfoldable pub est_text : Text → ℕ
est_text s = weigh (count_chars (record { ascii_n = 0; cjk_n = 0; other_n = 0 }) s)
