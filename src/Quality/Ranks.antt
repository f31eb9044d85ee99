-- ===== src/Quality/Ranks.antt =====
-- quality.py, _average_ranks and _percentile_scores: the ranks of a list of scores. Only the order of
-- the scores counts, so they are natural numbers; a rank is doubled, so 1.5 is 3.
pub mod Runs
pub mod Sorting
pub mod Average
use label_kit.Prelude.{
  ℕ, zero, suc, ◌+◌, ◌-◌, Bool, Option, none, some, List, [], ◌∷◌, length, set, take, drop, leb,
  nat_beq, if◌then◌else◌, is_nil, nat_eq,
}
use label_kit.Prelude.Dict.{is_in}
use label_kit.Quality.Tally.{zeros}

-- An index with its value.
abbrev pub Entry : Type 0
Entry = ℕ × ℕ

unfoldable pub indexed : ℕ → List ℕ → List Entry
indexed k [] = []
indexed k (v ∷ vs) = (k, v) ∷ indexed (suc k) vs

unfoldable pub insert_by_value : Entry → List Entry → List Entry
insert_by_value x [] = x ∷ []
insert_by_value x (y ∷ ys) =
    let rest = insert_by_value x ys in if leb x.1 y.1 then x ∷ y ∷ ys else y ∷ rest

-- sorted(range(n), key=lambda i: values[i]), with the values.
unfoldable pub sort_by_value : List Entry → List Entry
unfolding insert_by_value
sort_by_value [] = []
sort_by_value (x ∷ xs) = insert_by_value x (sort_by_value xs)

-- How far `end` goes beyond an entry of value `v`.
unfoldable pub run_length : ℕ → List Entry → ℕ
run_length v [] = 0
run_length v (x ∷ xs) = let rest = run_length v xs in if nat_beq x.1 v then suc rest else 0

-- for k in range(pos, end + 1): ranks[order[k]] = avg
unfoldable pub write_all : List Entry → ℕ → List ℕ → List ℕ
write_all [] avg ranks = ranks
write_all (x ∷ xs) avg ranks = write_all xs avg (set ranks x.0 avg)

-- The loop, from `pos` on, with fuel for each turn.
unfoldable pub assign_ranks : ℕ → ℕ → List Entry → List ℕ → List ℕ
unfolding run_length write_all
assign_ranks fuel pos [] ranks = ranks
assign_ranks zero pos (x ∷ order) ranks = ranks
assign_ranks (suc fuel) pos (x ∷ order) ranks =
    let extra = run_length x.1 order in
    let end = pos + extra in
    assign_ranks fuel (end + 1) (drop extra order)
      (write_all (x ∷ take extra order) (pos + end + 2) ranks)

-- _average_ranks
unfoldable pub average_ranks : List ℕ → List ℕ
unfolding indexed sort_by_value assign_ranks zeros
average_ranks values =
    let n = length values in assign_ranks n 0 (sort_by_value (indexed 0 values)) (zeros n)

-- A score as a fraction.
abbrev pub Fraction : Type 0
Fraction = ℕ × ℕ

unfoldable pub fractions : ℕ → List ℕ → List Fraction
fractions n [] = []
fractions n (rank ∷ ranks) = (rank - 2, (n - 1) + (n - 1)) ∷ fractions n ranks

-- _percentile_scores: (rank - 1) / (n - 1), or 1 / 2 for a single value.
unfoldable pub percentile_scores : List ℕ → List Fraction
unfolding fractions average_ranks
percentile_scores [] = []
percentile_scores (v ∷ []) = (1, 2) ∷ []
percentile_scores (v ∷ w ∷ values) =
    fractions (length (v ∷ w ∷ values)) (average_ranks (v ∷ w ∷ values))

-- _criterion_percentiles: none for an unscored index.
unfoldable pub blank_unscored : ℕ → List ℕ → List Fraction → List (Option Fraction)
unfolding is_in
blank_unscored k unscored [] = []
blank_unscored k unscored (s ∷ scores) =
    (if is_in k unscored then none else some s) ∷ blank_unscored (suc k) unscored scores

unfoldable pub criterion_percentiles : List ℕ → List ℕ → List (Option Fraction)
unfolding percentile_scores blank_unscored
criterion_percentiles log_theta unscored = blank_unscored 0 unscored (percentile_scores log_theta)
