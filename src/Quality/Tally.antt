-- ===== src/Quality/Tally.antt =====
-- quality.py, _index_results and _tally_criterion: the outcomes of one criterion over the comparisons
-- of a pool. A weight is doubled, so 0.5 is 1.
use label_kit.Prelude.{
  ◌≡◌, refl, ap, length, ℕ, zero, suc, ◌+◌, Bool, true, false, Option, none, some, List, [], ◌∷◌,
  ◌++◌, nat_beq, nat_eq, if◌then◌else◌, is_nil, String, string_eq,
}
use label_kit.Prelude.Dict.{Dict, get, put, or_default}
use label_kit.Quality.{
  Verdict, wins, tie, Outcome, Pairing, bool_eq, Orders, one, two, compose_orders, majority,
}

-- What one call answered: of which comparison, by which judge, in which order.
pub record RawResult : Type 0 where
  pub comp_idx : ℕ
  pub judge : String
  pub flipped : Bool
  pub verdicts : Dict String Outcome

abbrev pub ByJudge : Type 0
ByJudge = Dict String (Dict Bool Outcome)

abbrev pub Results : Type 0
Results = Dict ℕ (Dict String ByJudge)

-- comp.setdefault(crit_key, {}).setdefault(judge, {})[flipped] = outcome
unfoldable pub index_outcome :
    Dict String ByJudge → String → Bool → String → Outcome → Dict String ByJudge
unfolding get put
index_outcome comp judge flipped crit_key outcome =
    let by_judge = or_default (get comp crit_key) [] in
    let by_order = or_default (get by_judge judge) [] in
    put comp crit_key (put by_judge judge (put by_order flipped outcome))

unfoldable pub index_outcomes :
    Dict String ByJudge → String → Bool → Dict String Outcome → Dict String ByJudge
unfolding index_outcome
index_outcomes comp judge flipped [] = comp
index_outcomes comp judge flipped ((crit_key, outcome) ∷ verdicts) =
    index_outcomes (index_outcome comp judge flipped crit_key outcome) judge flipped verdicts

unfoldable pub index_from : Results → List RawResult → Results
unfolding get put index_outcomes
index_from results [] = results
index_from results (r ∷ raw_results) =
    let comp = or_default (get results r.comp_idx) [] in
    index_from (put results r.comp_idx (index_outcomes comp r.judge r.flipped r.verdicts))
      raw_results

-- _index_results
unfoldable pub index_results : List RawResult → Results
unfolding index_from
index_results raw_results = index_from [] raw_results

-- _CriterionTally: an entry is a winner, a loser and a weight.
pub record Tally : Type 0 where
  pub entries : List (ℕ × ℕ × ℕ)
  pub comp_count : List ℕ
  pub wins_of : List ℕ
  pub ties : List ℕ
  pub success : List ℕ
  pub n_judged : ℕ
  pub n_tie_judged : ℕ

-- q.judges (or q.llm) and q.both_orders
pub record Judges : Type 0 where
  pub llm : String
  pub judges : List String
  pub both_orders : Bool

-- A pool holds as many items as the lists are long.
unfoldable pub zeros : ℕ → List ℕ
zeros zero = []
zeros (suc n) = 0 ∷ zeros n

pub zeros-length : (n : ℕ) → length (zeros n) ≡ n
unfolding zeros
zeros-length zero = refl
zeros-length (suc n) = ap suc (zeros-length n)

unfoldable pub new_tally : ℕ → Tally
unfolding zeros
new_tally n = record {
  entries = [];
  comp_count = zeros n;
  wins_of = zeros n;
  ties = zeros n;
  success = zeros n;
  n_judged = 0;
  n_tie_judged = 0;
}

infixl 5 ◌>>=◌
abbrev pub ◌>>=◌ {ℓ κ} : {A : Type ℓ} {B : Type κ} → Option A → (A → Option B) → Option B
none >>= f = none
some a >>= f = f a

-- xs[i] += 1, where none is IndexError
unfoldable pub bump : List ℕ → ℕ → Option (List ℕ)
bump [] i = none
bump (x ∷ xs) zero = some (suc x ∷ xs)
bump (x ∷ xs) (suc i) = do ys ← bump xs i; some (x ∷ ys)

unfoldable pub bump_both : List ℕ → ℕ → ℕ → Option (List ℕ)
unfolding bump
bump_both xs i j = do ys ← bump xs i; bump ys j

abbrev pub tie_bit : Verdict → ℕ
tie_bit (wins k) = 0
tie_bit tie = 1

-- if outcome is not None
unfoldable pub note_judged : Tally → ℕ → ℕ → Outcome → Option Tally
unfolding bump_both
note_judged t i j none = some t
note_judged t i j (some v) = do
  success ← bump_both t.success i j
  some (record t {
    success = success;
    n_judged = t.n_judged + 1;
    n_tie_judged = t.n_tie_judged + tie_bit v;
  })

abbrev pub other : ℕ → ℕ → ℕ → ℕ
other winner i j = if nat_beq winner i then j else i

unfoldable pub note_verdict : Tally → ℕ → ℕ → Verdict → Option Tally
unfolding bump bump_both
note_verdict t i j tie = do
  ties ← bump_both t.ties i j
  some (record t { ties = ties; entries = t.entries ++ (i, j, 1) ∷ (j, i, 1) ∷ [] })
note_verdict t i j (wins winner) = do
  won ← bump t.wins_of winner
  some (record t { wins_of = won; entries = t.entries ++ (winner, other winner i j, 2) ∷ [] })

abbrev pub verdict_or_tie : Outcome → Verdict
verdict_or_tie none = tie
verdict_or_tie (some v) = v

-- The body of the loop over the plan, once the outcome is known.
unfoldable pub tally_comparison : Tally → ℕ → ℕ → Outcome → Option Tally
unfolding bump_both note_judged note_verdict
tally_comparison t i j outcome = do
  comp_count ← bump_both t.comp_count i j
  judged ← note_judged (record t { comp_count = comp_count }) i j outcome
  note_verdict judged i j (verdict_or_tie outcome)

abbrev pub outcome_in : Dict Bool Outcome → Bool → Outcome
unfolding get
outcome_in outcomes flipped = or_default (get outcomes flipped) none

abbrev pub orders_of : Bool → Dict Bool Outcome → Orders
unfolding get
orders_of true outcomes = two (outcome_in outcomes false) (outcome_in outcomes true)
orders_of false outcomes = one (outcome_in outcomes false)

abbrev pub panel : Judges → List String
panel q = if is_nil q.judges then q.llm ∷ [] else q.judges

-- The votes of the judges.
unfoldable pub votes_of : Bool → ByJudge → List String → List Outcome
votes_of both_orders per_judge [] = []
votes_of both_orders per_judge (judge ∷ judges) =
    compose_orders (orders_of both_orders (or_default (get per_judge judge) []))
    ∷ votes_of both_orders per_judge judges

unfoldable pub outcome_of : Judges → String → Results → ℕ → Pairing → Outcome
unfolding get
outcome_of q crit_key results comp_idx p =
    let per_judge = or_default (get (or_default (get results comp_idx) []) crit_key) [] in
    majority (votes_of q.both_orders per_judge (panel q)) p.first p.second

-- The loop, from a comparison on.
unfoldable pub tally_from : Judges → String → Results → ℕ → Tally → List Pairing → Option Tally
unfolding tally_comparison outcome_of
tally_from q crit_key results comp_idx t [] = some t
tally_from q crit_key results comp_idx t (p ∷ plan) = do
  let outcome = outcome_of q crit_key results comp_idx p
  t' ← tally_comparison t p.first p.second outcome
  tally_from q crit_key results (suc comp_idx) t' plan

-- _tally_criterion
unfoldable pub tally_criterion : Judges → String → Results → ℕ → List Pairing → Option Tally
unfolding tally_from new_tally
tally_criterion q crit_key results n plan = tally_from q crit_key results 0 (new_tally n) plan
