-- ===== src/Quality/Pool.antt =====
-- quality.py: the plan of a pool is drawn before its calls (_predraw_plans), and each criterion is
-- tallied over that plan after them (_score_criterion).
use label_kit.Prelude.{
  ℕ, zero, suc, ◌+◌, ◌≤◌, ◌≡◌, ◌∙◌, ap, sym, subst, Bool, ◌&&◌, Option, some, List, [], ◌∷◌, ◌++◌,
  length, ltb, nat_beq, All, arith, String,
}
use label_kit.Quality.{Pairing}
use label_kit.Quality.Tally.{◌>>=◌, Results, Judges, Tally, tally_criterion}
use label_kit.Quality.Balance.{at, meetings, IsPaired, IsBalanced}
use label_kit.Quality.Balance.Run.{tally_criterion-IsBalanced}
use label_kit.Quality.Plan.{Rng, IsShuffling, pairing_plan, IsRounds, pairing_plan-IsRounds}

-- A pool of `n` items, one criterion of which is tallied over the answers to the calls.
unfoldable pub tally_pool :
    {S : Type 0} → Rng S → S → Judges → String → ℕ → ℕ → (List Pairing → Results) → Option Tally
tally_pool rng s q crit_key n rounds answers = do
  (plan, s') ← pairing_plan rng s n rounds
  tally_criterion q crit_key (answers plan) n plan

-- The items that get no score: those with comparisons, all of which failed.
abbrev pub is_unscored : Tally → ℕ → Bool
is_unscored t k = ltb 0 (at t.comp_count k) && nat_beq (at t.success k) 0

All-append : (P : Pairing → Type 0) (xs ys : List Pairing) → All P xs → All P ys → All P (xs ++ ys)
All-append P [] ys h k = k
All-append P (x ∷ xs) ys h k = (h.0, All-append P xs ys h.1 k)

meetings-append :
    (k : ℕ) (xs ys : List Pairing) → meetings k (xs ++ ys) ≡ meetings k xs + meetings k ys
unfolding meetings
meetings-append k [] ys = omega arith
meetings-append k (x ∷ xs) ys = omega (arith, meetings-append k xs ys)

rounds-IsPaired :
    (n round_no rounds : ℕ) (plan : List Pairing)
    → IsRounds n round_no rounds plan
    → All (IsPaired n) plan
rounds-IsPaired n round_no zero plan h = subst (All (IsPaired n)) (sym h) tt
rounds-IsPaired n round_no (suc rounds) plan (pairs, rest, e, m, r) =
    subst (All (IsPaired n)) (sym e)
      (All-append (IsPaired n) pairs rest m.paired (rounds-IsPaired n (suc round_no) rounds rest r))

rounds-meetings :
    (n round_no rounds k : ℕ) (plan : List Pairing)
    → IsRounds n round_no rounds plan
    → meetings k plan ≤ rounds
unfolding meetings
rounds-meetings n round_no zero k plan h = subst (λ l. meetings k l ≤ 0) (sym h) (omega arith)
rounds-meetings n round_no (suc rounds) k plan (pairs, rest, e, m, r) =
    subst (λ l. meetings k l ≤ suc rounds) (sym e)
      (omega (
        arith,
        meetings-append k pairs rest,
        m.once k,
        rounds-meetings n (suc round_no) rounds k rest r,
      ))

-- Rounds of matchings, and what they come to once they are tallied.
pub record IsFair (n rounds : ℕ) (t : Tally) : Type 0 where
  pub plan : List Pairing
  pub matchings : IsRounds n 1 rounds plan
  pub balance : IsBalanced n (length plan) (λ k. meetings k plan) t
  pub at_most : (k : ℕ) → at t.comp_count k ≤ rounds

-- Whatever a shuffle does and the judges answer, the plan of a pool is drawn and tallied without an
-- index out of range. The plan is one matching after another, one for each round. Each item has as
-- many comparisons as the plan, at most one in a round, of which no more are judged; a win counts 1
-- and a tie half of the weight that it wins, and every comparison weighs 1 for it in all.
pub tally_pool-IsFair :
    {S : Type 0} (rng : Rng S) (s : S) (q : Judges) (crit_key : String) (n rounds : ℕ)
    (answers : List Pairing → Results)
    → IsShuffling rng
    → (t : Tally) × (tally_pool rng s q crit_key n rounds answers ≡ some t) × IsFair n rounds t
unfolding tally_pool
tally_pool-IsFair rng s q crit_key n rounds answers h =
    let (plan, s', e, r) = pairing_plan-IsRounds rng s n rounds h in
    let (t, f, b) =
      tally_criterion-IsBalanced q crit_key (answers plan) n plan
        (rounds-IsPaired n 1 rounds plan r) in
    (
      t,
      ap (λ x. x >>= λ p. tally_criterion q crit_key (answers p.0) n p.0) e ∙ f,
      record {
        plan = plan;
        matchings = r;
        balance = b;
        at_most = λ k. omega (arith, b.comparisons k, rounds-meetings n 1 rounds k plan r);
      },
    )
