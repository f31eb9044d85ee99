-- ===== src/Quality/Balance/Run.antt =====
-- quality.py, _tally_criterion: the loop over a plan keeps the balance of a tally.
use label_kit.Prelude.{
  ℕ, zero, suc, ◌+◌, ◌<◌, ◌≡◌, ◌≢◌, ◌⊎◌, refl, ◌∙◌, none, some, List, [], ◌∷◌, length, All, arith,
  String,
}
use label_kit.Quality.{wins, tie, Outcome, Pairing}
use label_kit.Quality.Majority.{majority-IsMajority}
use label_kit.Quality.Tally.{
  Results, Judges, Tally, zeros, zeros-length, new_tally, outcome_of, tally_from, tally_criterion,
}
use label_kit.Quality.Balance.{at, won, lost, meetings, bind, IsBalanced, IsPaired, IsBalanced-as}
use label_kit.Quality.Balance.Steps.{Next, after_failure, after_tie, after_win}

after_outcome :
    (n c : ℕ) (met : ℕ → ℕ) (t : Tally) (i j : ℕ)
    → i < n
    → j < n
    → i ≢ j
    → IsBalanced n c met t
    → (o : Outcome) → ((k : ℕ) → o ≡ some (wins k) → (k ≡ i) ⊎ (k ≡ j))
    → Next n c met t i j o
after_outcome n c met t i j hi hj d h none one = after_failure n c met t i j hi hj h
after_outcome n c met t i j hi hj d h (some tie) one = after_tie n c met t i j hi hj h
after_outcome n c met t i j hi hj d h (some (wins w)) one =
    after_win n c met t i j hi hj h w (one w refl) d

outcome_of-one :
    (q : Judges) (crit_key : String) (results : Results) (comp_idx : ℕ) (p : Pairing) (k : ℕ)
    → outcome_of q crit_key results comp_idx p ≡ some (wins k)
    → (k ≡ p.first) ⊎ (k ≡ p.second)
unfolding outcome_of
outcome_of-one q crit_key results comp_idx p k e =
    (majority-IsMajority _ p.first p.second).one_of k e

tally_from-IsBalanced :
    (q : Judges) (crit_key : String) (results : Results) (n c : ℕ) (met : ℕ → ℕ) (t : Tally)
    (plan : List Pairing)
    → All (IsPaired n) plan
    → IsBalanced n c met t
    → (t' : Tally) × (tally_from q crit_key results c t plan ≡ some t')
      × IsBalanced n (c + length plan) (λ k. met k + meetings k plan) t'
unfolding tally_from meetings
tally_from-IsBalanced q crit_key results n c met t [] a h =
    (t, refl, IsBalanced-as h (omega arith) (λ k. omega arith))
tally_from-IsBalanced q crit_key results n c met t (p ∷ plan) ((hi, hj, d), a) h =
    let o = outcome_of q crit_key results c p in
    let (t', e, b) =
      after_outcome n c met t p.first p.second hi hj d h o
        (outcome_of-one q crit_key results c p) in
    let (t'', f, b') = tally_from-IsBalanced q crit_key results n (suc c) _ t' plan a b in
    (t'', bind _ e ∙ f, IsBalanced-as b' (omega arith) (λ k. omega arith))

at-zeros : (n k : ℕ) → at (zeros n) k ≡ 0
unfolding zeros
at-zeros zero k = refl
at-zeros (suc n) zero = refl
at-zeros (suc n) (suc k) = at-zeros n k

new_tally-IsBalanced : (n : ℕ) → IsBalanced n 0 (λ k. 0) (new_tally n)
unfolding new_tally won lost
new_tally-IsBalanced n = record {
  comp_size = zeros-length n;
  wins_size = zeros-length n;
  ties_size = zeros-length n;
  success_size = zeros-length n;
  comparisons = at-zeros n;
  points = λ k. omega (arith, at-zeros n k);
  weights = λ k. omega (arith, at-zeros n k);
  successes = λ k. omega arith;
  rates = (omega arith, omega arith);
}

-- Whatever the judges answered, the tally of a plan of pairs of different items of the pool counts
-- each comparison once: an item's comparisons are those that the plan has of it, its wins count 1
-- and its ties half of the weight that it wins, every comparison of it weighs 1 in all, and no count
-- of judged comparisons is above the count of the comparisons.
pub tally_criterion-IsBalanced :
    (q : Judges) (crit_key : String) (results : Results) (n : ℕ) (plan : List Pairing)
    → All (IsPaired n) plan
    → (t : Tally) × (tally_criterion q crit_key results n plan ≡ some t)
      × IsBalanced n (length plan) (λ k. meetings k plan) t
unfolding tally_criterion
tally_criterion-IsBalanced q crit_key results n plan a =
    let (t, e, b) =
      tally_from-IsBalanced q crit_key results n 0 _ (new_tally n) plan a
        (new_tally-IsBalanced n) in
    (t, e, IsBalanced-as b (omega arith) (λ k. omega arith))
