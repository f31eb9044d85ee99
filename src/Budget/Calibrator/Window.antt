-- ===== src/Budget/Calibrator/Window.antt =====
-- budget.py, freeze_batch: lemmas on the bounded window of batch maxima.
use label_kit.Prelude.{
  ℕ, zero, suc, ◌+◌, ◌-◌, ◌≤◌, ◌≡◌, refl, sym, ◌∙◌, List, [], ◌∷◌, ◌++◌, arith, drop, length,
  length-append,
}
use label_kit.Budget.Calibrator.{push_window, calibration_window_batches}

-- The last `n` entries.
unfoldable pub last_n : ℕ → List ℕ → List ℕ
last_n n l = drop (length l - n) l

drop-append : (k : ℕ) (l m : List ℕ) → k ≤ length l → drop k (l ++ m) ≡ drop k l ++ m
drop-append zero l m h = refl
drop-append (suc k) [] m h = absurd (omega arith)
drop-append (suc k) (x ∷ l) m h = drop-append k l m (omega arith)

drop-nil : (m : ℕ) → drop {A = ℕ} m [] ≡ []
drop-nil zero = refl
drop-nil (suc m) = refl

drop-drop : (j k : ℕ) (l : List ℕ) (n : ℕ) → k + j ≡ n → drop j (drop k l) ≡ drop n l
drop-drop j zero l n e = let same : n ≡ j = omega arith in rw same
drop-drop j (suc k) [] n e = drop-nil j ∙ sym (drop-nil n)
drop-drop j (suc k) (x ∷ l) zero e = absurd (omega arith)
drop-drop j (suc k) (x ∷ l) (suc n) e = drop-drop j k l n (omega arith)

length-drop : (k : ℕ) (l : List ℕ) → length (drop k l) ≡ length l - k
length-drop zero l = omega arith
length-drop (suc k) [] = omega arith
length-drop (suc k) (x ∷ l) = omega (arith, length-drop k l)

pub push_window-last :
    (l : List ℕ) (x : ℕ)
    → push_window (last_n calibration_window_batches l) x
      ≡ last_n calibration_window_batches (l ++ (x ∷ []))
unfolding push_window last_n
push_window-last l x =
    let k = length l - 8 in
    rw (← drop-append k l (x ∷ []) (omega arith)) (
      drop-drop (length (drop k (l ++ (x ∷ []))) - 8) k (l ++ (x ∷ [])) (length (l ++ (x ∷ [])) - 8)
        (omega (arith, length-drop k (l ++ (x ∷ [])), length-append l (x ∷ []))))
