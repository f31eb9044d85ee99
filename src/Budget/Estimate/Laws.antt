-- ===== src/Budget/Estimate/Laws.antt =====
-- budget.py, est_text: the estimate of a text and of its parts.
use label_kit.Prelude.{ℕ, ◌+◌, ◌*◌, ◌≤◌, ◌≡◌, [], ◌∷◌, ◌++◌, arith, sum, map}
use label_kit.Prelude.{if◌then◌else◌, ltb}
use label_kit.Budget.Margins.{ceil_div}
use label_kit.Budget.Estimate.{Text, Tally, is_cjk, count_char, count_chars, weigh, est_text}

-- What one character adds to the estimate, in sixths of a token.
pub sixths : ℕ → ℕ
sixths cp = if ltb cp 128 then 2 else if is_cjk cp then 6 else 3

pub total_sixths : Text → ℕ
total_sixths s = sum (map sixths s)

abbrev tally_sixths : Tally → ℕ
tally_sixths t = 2 * t.ascii_n + 6 * t.cjk_n + 3 * t.other_n

count_char_lem : (cp : ℕ) (t : Tally) → tally_sixths (count_char cp t) ≡ tally_sixths t + sixths cp
unfolding count_char sixths
count_char_lem cp t = ground arith

count_chars_lem :
    (t : Tally) (s : Text) → tally_sixths (count_chars t s) ≡ tally_sixths t + total_sixths s
unfolding count_chars total_sixths
count_chars_lem t [] = omega arith
count_chars_lem t (cp ∷ s) = omega (arith, count_chars_lem (count_char cp t) s, count_char_lem cp t)

-- The estimate is the ceiling of the sum of the characters' weights.
pub est_text_lem : (s : Text) → est_text s ≡ ceil_div (total_sixths s) 6
unfolding est_text weigh
est_text_lem s =
    let h = count_chars_lem (record { ascii_n = 0; cjk_n = 0; other_n = 0 }) s in omega arith

pub total_sixths-append : (s t : Text) → total_sixths (s ++ t) ≡ total_sixths s + total_sixths t
unfolding total_sixths
total_sixths-append [] t = omega arith
total_sixths-append (c ∷ s) t = omega (arith, total_sixths-append s t)

-- The estimate of a prefix is at most that of the text, and the estimate of a concatenation is at
-- most the sum of the estimates, and less than it by at most one token.
pub est_text-append :
    (s t : Text)
    → (est_text s ≤ est_text (s ++ t))
      × (est_text (s ++ t) ≤ est_text s + est_text t)
      × (est_text s + est_text t ≤ est_text (s ++ t) + 1)
est_text-append s t =
    omega (arith, est_text_lem s, est_text_lem t, est_text_lem (s ++ t), total_sixths-append s t)
