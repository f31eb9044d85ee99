-- ===== src/Budget/Fit/Lines.antt =====
-- budget.py, fit_text: lemmas on lines and their prefixes.
use label_kit.Prelude.{
  ℕ, zero, suc, ◌≤◌, ◌<◌, ◌≡◌, refl, ap, sym, List, [], ◌∷◌, ◌++◌, arith, take, length,
  if◌then◌else◌, Bool-cases, inl, inr, nat_beq, nat_beq_iff,
}
use mathlib.Core.List.{append_assoc, append-nil}
use label_kit.Budget.Estimate.{Text, est_text}
use label_kit.Budget.Estimate.Laws.{est_text-append}
use label_kit.Budget.Fit.{newline, push, split_lines, join_lines, prefix}
use label_kit.Prelude.Int.{ℤ}

pub split_lines-ne-nil : (s : Text) → 0 < length (split_lines s)
unfolding split_lines
split_lines-ne-nil [] = omega arith
split_lines-ne-nil (c ∷ s) = ground arith

join-push : (c : ℕ) (ls : List Text) → join_lines (push c ls) ≡ c ∷ join_lines ls
unfolding join_lines
join-push c [] = refl
join-push c (l ∷ []) = refl
join-push c (l ∷ (m ∷ ms)) = refl

join-newline : (ls : List Text) → 0 < length ls → join_lines ([] ∷ ls) ≡ newline ∷ join_lines ls
unfolding join_lines
join-newline [] h = absurd (omega arith)
join-newline (l ∷ ls) h = refl

join-split_line :
    (c : ℕ) (s : Text) (ls : List Text)
    → 0 < length ls
    → join_lines ls ≡ s
    → join_lines (if nat_beq c newline then [] ∷ ls else push c ls) ≡ c ∷ s
join-split_line c s ls h e = elim (Bool-cases (nat_beq c newline)) [
  | inl t ↦ rw (t, join-newline ls h, e, (nat_beq_iff c newline).0 t)
  | inr t ↦ rw (t, join-push c ls, e)
]

-- Joining the lines of a text gives the text back.
pub join-split : (s : Text) → join_lines (split_lines s) ≡ s
unfolding split_lines
join-split [] = unfold join_lines in refl
join-split (c ∷ s) = join-split_line c s (split_lines s) (split_lines-ne-nil s) (join-split s)

-- What stands behind the first line.
rest_lines : List Text → Text
rest_lines [] = []
rest_lines (m ∷ ms) = newline ∷ (m ++ rest_lines ms)

join-cons : (l : Text) (ls : List Text) → join_lines (l ∷ ls) ≡ l ++ rest_lines ls
unfolding join_lines rest_lines
join-cons l [] = sym (append-nil l)
join-cons l (m ∷ ms) = ap (λ t. l ++ (newline ∷ t)) (join-cons m ms)

rest-take :
    (j k : ℕ) (ls : List Text)
    → j ≤ k
    → (t : Text) × (rest_lines (take k ls) ≡ rest_lines (take j ls) ++ t)
unfolding rest_lines
rest-take zero k ls h = (rest_lines (take k ls), refl)
rest-take (suc j) zero ls h = absurd (omega arith)
rest-take (suc j) (suc k) [] h = ([], refl)
rest-take (suc j) (suc k) (l ∷ ls) h =
    let (t, e) = rest-take j k ls (omega arith) in (t, rw (e, append_assoc))

-- A longer run of lines begins with the shorter.
join-take :
    (j k : ℕ) (ls : List Text)
    → j ≤ k
    → (t : Text) × (join_lines (take k ls) ≡ join_lines (take j ls) ++ t)
join-take zero k ls h = (join_lines (take k ls), unfold join_lines in refl)
join-take (suc j) zero ls h = absurd (omega arith)
join-take (suc j) (suc k) [] h = ([], unfold join_lines in refl)
join-take (suc j) (suc k) (l ∷ ls) h =
    let (t, e) = rest-take j k ls (omega arith) in (t, rw (join-cons, e, join-cons, append_assoc))

-- The estimate grows with the run of lines.
pub est-prefix_mono :
    (b : ℤ) (ls : List Text) (j k : ℕ) → j ≤ k → est_text (prefix b ls j) ≤ est_text (prefix b ls k)
unfolding prefix
est-prefix_mono b ls j k h =
    let (t, e) = join-take j k ls h in rw e ((est_text-append (join_lines (take j ls)) t).0)
