-- ===== src/Quality/Ranks/Runs.antt =====
-- quality.py, _average_ranks: what the loop over the runs of equal values writes.
use label_kit.Prelude.{
  ℕ, zero, suc, ◌+◌, ◌*◌, ◌≤◌, ◌<◌, ◌≡◌, refl, sym, ◌∙◌, ap, List, [], ◌∷◌, length, set, take, drop,
  ltb, nat_beq, nat_beq_iff, if◌then◌else◌, All, Bool-cases, inl, inr, arith,
}
use label_kit.Quality.Ranks.{Entry, run_length, write_all, assign_ranks}

-- How many values are below `v`, and how many are `v`.
unfoldable pub less : ℕ → List ℕ → ℕ
less v [] = 0
less v (w ∷ ws) = let rest = less v ws in if ltb w v then suc rest else rest

unfoldable pub equal : ℕ → List ℕ → ℕ
equal v [] = 0
equal v (w ∷ ws) = let rest = equal v ws in if nat_beq w v then suc rest else rest

unfoldable pub entry_values : List Entry → List ℕ
entry_values [] = []
entry_values (x ∷ xs) = x.1 ∷ entry_values xs

-- Each index is written with what `g` makes of its value.
unfoldable pub write_each : (ℕ → ℕ) → List Entry → List ℕ → List ℕ
write_each g [] ranks = ranks
write_each g (x ∷ xs) ranks = write_each g xs (set ranks x.0 (g x.1))

-- The doubled average rank of a value, where `pos` values come before.
unfoldable pub rank_from : ℕ → List ℕ → ℕ → ℕ
unfolding less equal
rank_from pos values v = 2 * (pos + less v values) + equal v values + 1

abbrev pub IsAscending : List Entry → Type 0
IsAscending [] = Unit {0}
IsAscending (x ∷ xs) = All (λ y. x.1 ≤ y.1) xs × IsAscending xs

less-beyond :
    (v w : ℕ) (xs : List Entry)
    → v < w
    → less w (entry_values xs) ≡ run_length v xs + less w (entry_values (drop (run_length v xs) xs))
unfolding less entry_values run_length
less-beyond v w [] h = omega arith
less-beyond v w (x ∷ xs) h = elim (Bool-cases (nat_beq x.1 v)) [
  | inl e ↦ rw e (ground (arith, less-beyond v w xs h, e))
  | inr n ↦ rw n omega arith
]

equal-beyond :
    (v w : ℕ) (xs : List Entry)
    → v < w
    → equal w (entry_values xs) ≡ equal w (entry_values (drop (run_length v xs) xs))
unfolding equal entry_values run_length
equal-beyond v w [] h = refl
equal-beyond v w (x ∷ xs) h = elim (Bool-cases (nat_beq x.1 v)) [
  | inl e ↦ rw e (ground (arith, equal-beyond v w xs h, e))
  | inr n ↦ rw n refl
]

less-least : (v : ℕ) (xs : List Entry) → All (λ y. v ≤ y.1) xs → less v (entry_values xs) ≡ 0
unfolding less entry_values
less-least v [] a = refl
less-least v (x ∷ xs) a = ground (arith, a.0, less-least v xs a.1)

equal-none : (v : ℕ) (xs : List Entry) → All (λ y. v < y.1) xs → equal v (entry_values xs) ≡ 0
unfolding equal entry_values
equal-none v [] a = refl
equal-none v (x ∷ xs) a = ground (arith, a.0, equal-none v xs a.1)

all-above : (v w : ℕ) (xs : List Entry) → v < w → All (λ y. w ≤ y.1) xs → All (λ y. v < y.1) xs
all-above v w [] h a = tt
all-above v w (x ∷ xs) h a = (omega (arith, a.0), all-above v w xs h a.1)

-- What is beyond the run of `v` is above it, and no value of the run is beyond.
beyond_run :
    (v : ℕ) (xs : List Entry)
    → All (λ y. v ≤ y.1) xs
    → IsAscending xs
    → All (λ y. v < y.1) (drop (run_length v xs) xs)
      × (IsAscending (drop (run_length v xs) xs))
      × (equal v (entry_values xs) ≡ run_length v xs)
unfolding equal entry_values run_length
beyond_run v [] a s = (tt, tt, refl)
beyond_run v (x ∷ xs) a s = elim (Bool-cases (nat_beq x.1 v)) [
  | inl e ↦
      let (above, ascending, count) = beyond_run v xs a.1 s.1 in
      rw e (above, ascending, ap suc count)
  | inr n ↦
      let h : v < x.1 = ground (arith, n, a.0) in
      rw n ((h, all-above v x.1 xs h s.0), s, equal-none v xs (all-above v x.1 xs h s.0))
]

write_each-run :
    (g : ℕ → ℕ) (v : ℕ) (xs : List Entry) (ranks : List ℕ)
    → write_each g xs ranks
      ≡ write_each g (drop (run_length v xs) xs) (write_all (take (run_length v xs) xs) (g v) ranks)
unfolding write_each write_all run_length
write_each-run g v [] ranks = refl
write_each-run g v (x ∷ xs) ranks = elim (Bool-cases (nat_beq x.1 v)) [
  | inl e ↦ rw e (
      ap (λ w. write_each g xs (set ranks x.0 (g w))) ((nat_beq_iff x.1 v).0 e)
      ∙ write_each-run g v xs (set ranks x.0 (g v)))
  | inr n ↦ rw n refl
]

write_each-same :
    (f g : ℕ → ℕ) (xs : List Entry) (ranks : List ℕ)
    → All (λ y. f y.1 ≡ g y.1) xs
    → write_each f xs ranks ≡ write_each g xs ranks
unfolding write_each
write_each-same f g [] ranks a = refl
write_each-same f g (x ∷ xs) ranks a =
    ap (λ r. write_each f xs (set ranks x.0 r)) a.0 ∙ write_each-same f g xs _ a.1

all-map :
    (P Q : ℕ → Type 0) (xs : List Entry)
    → ((v : ℕ) → P v → Q v)
    → All (λ y. P y.1) xs
    → All (λ y. Q y.1) xs
all-map P Q [] f a = tt
all-map P Q (x ∷ xs) f a = (f x.1 a.0, all-map P Q xs f a.1)

drop-length : (n : ℕ) (xs : List Entry) → length (drop n xs) ≤ length xs
drop-length zero xs = omega arith
drop-length (suc n) [] = omega arith
drop-length (suc n) (x ∷ xs) = omega (arith, drop-length n xs)

first_rank :
    (pos : ℕ) (x : Entry) (order : List Entry)
    → All (λ y. x.1 ≤ y.1) order
    → equal x.1 (entry_values order) ≡ run_length x.1 order
    → pos + (pos + run_length x.1 order) + 2 ≡ rank_from pos (entry_values (x ∷ order)) x.1
unfolding rank_from entry_values less equal
first_rank pos x order a e = ground (arith, e, less-least x.1 order a)

later_rank :
    (pos : ℕ) (x : Entry) (order : List Entry) (w : ℕ)
    → x.1 < w
    → rank_from
        (pos + run_length x.1 order + 1)
        (entry_values (drop (run_length x.1 order) order))
        w
      ≡ rank_from pos (entry_values (x ∷ order)) w
unfolding rank_from entry_values less equal
later_rank pos x order w h =
    ground (arith, less-beyond x.1 w order h, equal-beyond x.1 w order h, h)

-- The loop gives each index the average rank of its value.
pub assign_ranks-each :
    (fuel pos : ℕ) (order : List Entry) (ranks : List ℕ)
    → length order ≤ fuel
    → IsAscending order
    → assign_ranks fuel pos order ranks
      ≡ write_each (rank_from pos (entry_values order)) order ranks
unfolding assign_ranks write_each write_all
assign_ranks-each fuel pos [] ranks h s = refl
assign_ranks-each zero pos (x ∷ order) ranks h s = absurd (omega arith)
assign_ranks-each (suc fuel) pos (x ∷ order) ranks h s =
    let v = x.1 in
    let e = run_length v order in
    let back = drop e order in
    let f = rank_from pos (entry_values (x ∷ order)) in
    let (above, ascending, count) = beyond_run v order s.0 s.1 in
    let written = λ (avg : ℕ). write_all (take e order) avg (set ranks x.0 avg) in
    assign_ranks-each fuel (pos + e + 1) back _ (omega (arith, drop-length e order, h)) ascending
    ∙ write_each-same _ f back _ (all-map (λ w. v < w) _ back (later_rank pos x order) above)
    ∙ ap (λ avg. write_each f back (written avg)) (first_rank pos x order s.0 count)
    ∙ sym (write_each-run f v order (set ranks x.0 (f v)))
