-- ===== src/Quality/Examples.antt =====
-- quality.py: a pool of five items that two judges compare in both orders, and a gate.
use label_kit.Prelude.{
  ℕ, suc, ◌+◌, ◌/◌, ◌%◌, ◌≡◌, refl, true, false, none, some, List, [], ◌∷◌, length, nat_beq,
  if◌then◌else◌, arith, map, String, string_eq, ◌==◌,
}
use label_kit.Prelude.Dict.{Dict, is_in}
use label_kit.Quality.{wins, Outcome, Pairing, judgments_by_key, judgment_verdicts, majority}
use label_kit.Quality.Majority.{IsMajority, majority-IsMajority}
use label_kit.Quality.Plan.{Rng, IsShuffling, occurrences, pairing_plan}
use label_kit.Quality.Tally.{Results, Judges, Tally, index_results, tally_criterion, votes_of}
use label_kit.Quality.Pool.{tally_pool, IsFair, tally_pool-IsFair}
use label_kit.Quality.Ranks.{average_ranks, criterion_percentiles}
use label_kit.Quality.Ranks.Average.{rank_in, average_ranks_lem}
use label_kit.Quality.Gate.{Item, Gate, active, other_status, apply_gate, scored_items}
use label_kit.Quality.Gate.Selection.{HasDistinctIds}
use label_kit.Quality.Gate.Decisions.{IsBest, apply_gate-IsBest}

-- One judge failed, and two say the first item.
abbrev votes : List Outcome
votes = some (wins 0) ∷ none ∷ some (wins 0) ∷ []

majority_of_votes : majority votes 0 1 ≡ some (wins 0)
unfolding majority
majority_of_votes = refl

majority-IsMajority_example : IsMajority votes 0 1 (majority votes 0 1)
majority-IsMajority_example = majority-IsMajority votes 0 1

-- A generator that counts its draws, and whose shuffles exchange the first two entries.
abbrev exchanged : List ℕ → List ℕ
exchanged [] = []
exchanged (x ∷ []) = x ∷ []
exchanged (x ∷ y ∷ xs) = y ∷ x ∷ xs

abbrev counting : Rng ℕ
counting = record {
  shuffle = λ s xs. (exchanged xs, suc s);
  coin = λ s. (nat_beq (s % 2) 0, suc s);
}

exchanged-length : (xs : List ℕ) → length (exchanged xs) ≡ length xs
exchanged-length [] = refl
exchanged-length (x ∷ []) = refl
exchanged-length (x ∷ y ∷ xs) = refl

exchanged-occurrences : (xs : List ℕ) (k : ℕ) → occurrences k (exchanged xs) ≡ occurrences k xs
unfolding occurrences
exchanged-occurrences [] k = refl
exchanged-occurrences (x ∷ []) k = refl
exchanged-occurrences (x ∷ y ∷ xs) k = omega arith

counting-IsShuffling : IsShuffling counting
counting-IsShuffling = record {
  size = λ s xs. exchanged-length xs;
  same = λ s xs k. exchanged-occurrences xs k;
}

abbrev two_judges : Judges
two_judges = record { llm = "main"; judges = "first" ∷ "second" ∷ []; both_orders = true }

abbrev answer : String → ℕ → ℕ → Dict String Outcome
unfolding judgments_by_key judgment_verdicts
answer winner a_idx b_idx =
    judgment_verdicts (judgments_by_key (record { criterion = "clear"; winner = winner } ∷ []))
      ("clear" ∷ []) a_idx b_idx

-- The first comparison is won by the item that stands first, the second one failed.
abbrev answers : List Pairing → Results
unfolding index_results
answers plan = index_results (
    record { comp_idx = 0; judge = "first"; flipped = false; verdicts = answer "A" 1 0 }
    ∷ record { comp_idx = 0; judge = "first"; flipped = true; verdicts = answer "B" 0 1 }
    ∷ record { comp_idx = 0; judge = "second"; flipped = false; verdicts = answer "A" 1 0 }
    ∷ record { comp_idx = 0; judge = "second"; flipped = true; verdicts = answer "B" 0 1 }
    ∷ record { comp_idx = 1; judge = "first"; flipped = false; verdicts = ("clear", none) ∷ [] }
    ∷ [])

-- The first comparison is between the items 1 and 0, and item 1 wins it.
won_once :
    (t : Tally) × (tally_pool counting 0 two_judges "clear" 2 1 answers ≡ some t)
    × (t.wins_of ≡ 0 ∷ 1 ∷ [])
    × (t.ties ≡ 0 ∷ 0 ∷ [])
    × (t.entries ≡ (1, 0, 2) ∷ [])
unfolding tally_pool pairing_plan tally_criterion answers majority votes_of answer
won_once = (_, refl, refl, refl, refl)

tally_pool-IsFair_example :
    (t : Tally) × (tally_pool counting 0 two_judges "clear" 5 2 answers ≡ some t) × IsFair 5 2 t
tally_pool-IsFair_example =
    tally_pool-IsFair counting 0 two_judges "clear" 5 2 answers counting-IsShuffling

-- Half of the records with a score are kept, and those without one are dropped.
abbrev half_gate : Gate
half_gate = record {
  top_ratio = true;
  quota = λ n. (n + 1) / 2;
  threshold = none;
  on_unscored_keep = false;
  id_place = λ i. if i == "a" then 0 else if i == "b" then 1 else 2;
}

abbrev pool_items : List Item
pool_items =
    record { id = "c"; status = active; aggregate = some 7 }
    ∷ record { id = "a"; status = active; aggregate = none }
    ∷ record { id = "b"; status = active; aggregate = some 7 }
    ∷ record { id = "e"; status = other_status; aggregate = none }
    ∷ record { id = "d"; status = active; aggregate = some 3 }
    ∷ []

gated : scored_items (apply_gate half_gate pool_items).0 ≡ ("c", 7) ∷ ("b", 7) ∷ []
unfolding apply_gate
gated = refl

pool_ids-HasDistinctIds : HasDistinctIds (scored_items pool_items)
unfolding is_in
pool_ids-HasDistinctIds = (refl, (refl, (refl, tt)))

apply_gate-IsBest_example : IsBest half_gate pool_items (apply_gate half_gate pool_items).0
apply_gate-IsBest_example = apply_gate-IsBest half_gate pool_items refl pool_ids-HasDistinctIds

-- Two equal values share the ranks 2 and 3, and the last index has no score.
abbrev thetas : List ℕ
thetas = 5 ∷ 2 ∷ 5 ∷ 9 ∷ []

percentiles :
    criterion_percentiles thetas (3 ∷ []) ≡ some (3, 6) ∷ some (0, 6) ∷ some (3, 6) ∷ none ∷ []
unfolding criterion_percentiles
percentiles = refl

average_ranks_lem_example : average_ranks thetas ≡ map (rank_in thetas) thetas
average_ranks_lem_example = average_ranks_lem thetas
