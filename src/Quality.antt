-- ===== src/Quality.antt =====
-- labelkit/operators/quality.py: the judgments of pairs of records, and how the judgments of several
-- calls become one outcome of a comparison.
pub mod Majority
pub mod Plan
pub mod Tally
pub mod Balance
pub mod Pool
pub mod Ranks
pub mod Gate
mod Examples
use label_kit.Prelude.{
  ℕ, zero, suc, ◌*◌, Bool, true, false, not, ◌&&◌, Option, none, some, List, [], ◌∷◌, length, ltb,
  nat_beq, nat_beq_iff, if◌then◌else◌, ◌≡◌, ◌↔◌, arith, String, string_eq, Equality, ◌==◌,
}
use label_kit.Prelude.Dict.{Dict, get, put, or_default, set_default}

-- The index of the winner, or 'tie'.
pub data Verdict : Type 0 where
  wins : ℕ → Verdict
  tie : Verdict

-- None is a judgment that failed.
abbrev pub Outcome : Type 0
Outcome = Option Verdict

-- An entry of the pairing plan.
pub record Pairing : Type 0 where
  pub round_no : ℕ
  pub first : ℕ
  pub second : ℕ
  pub first_is_a : Bool

-- An entry of the array that a judge answers with.
pub record Judgment : Type 0 where
  pub criterion : String
  pub winner : String

abbrev pub bool_test : Bool → Bool → Bool
bool_test true y = y
bool_test false y = not y

pub bool_test_iff : (x y : Bool) → (bool_test x y ≡ true) ↔ (x ≡ y)
bool_test_iff true y = ground arith
bool_test_iff false y = ground arith

instance abbrev pub bool_eq : Equality Bool
bool_eq = record { test_iff = bool_test_iff; test = bool_test }

-- _judgments_by_key
unfoldable pub judgments_from : Dict String Judgment → List Judgment → Dict String Judgment
judgments_from by_key [] = by_key
judgments_from by_key (e ∷ es) = judgments_from (set_default by_key e.criterion e) es

unfoldable pub judgments_by_key : List Judgment → Dict String Judgment
unfolding judgments_from
judgments_by_key es = judgments_from [] es

abbrev pub winner_of : Option Judgment → String
winner_of none = "tie"
winner_of (some e) = e.winner

abbrev pub verdict_of : String → ℕ → ℕ → Verdict
verdict_of winner a_idx b_idx =
    if winner == "A" then wins a_idx else if winner == "B" then wins b_idx else tie

unfoldable pub verdicts_from :
    Dict String Judgment → ℕ → ℕ → Dict String Outcome → List String → Dict String Outcome
verdicts_from by_key a_idx b_idx verdicts [] = verdicts
verdicts_from by_key a_idx b_idx verdicts (key ∷ keys) =
    let v = verdict_of (winner_of (get by_key key)) a_idx b_idx in
    verdicts_from by_key a_idx b_idx (put verdicts key (some v)) keys

-- _judgment_verdicts
unfoldable pub judgment_verdicts : Dict String Judgment → List String → ℕ → ℕ → Dict String Outcome
unfolding verdicts_from
judgment_verdicts by_key keys a_idx b_idx = verdicts_from by_key a_idx b_idx [] keys

-- What a judge said in the orders (False,), or in (False, True).
pub data Orders : Type 0 where
  one : Outcome → Orders
  two : Outcome → Outcome → Orders

abbrev pub as_tie : Outcome → Verdict
as_tie none = tie
as_tie (some v) = v

abbrev pub same : Verdict → Verdict → Bool
same (wins i) (wins j) = nat_beq i j
same (wins i) tie = false
same tie (wins j) = false
same tie tie = true

abbrev pub agreed : Verdict → Verdict → Verdict
agreed v w = if same v w then v else tie

-- _compose_orders
abbrev pub compose_orders : Orders → Outcome
compose_orders (one o) = o
compose_orders (two none none) = none
compose_orders (two none (some w)) = some (agreed tie w)
compose_orders (two (some v) none) = some (agreed v tie)
compose_orders (two (some v) (some w)) = some (agreed v w)

abbrev pub all_failed : List Outcome → Bool
all_failed [] = true
all_failed (none ∷ votes) = all_failed votes
all_failed (some v ∷ votes) = false

-- counted.count(cls), where a failed vote counts as a tie
unfoldable pub count : Verdict → List Outcome → ℕ
count cls [] = 0
count cls (v ∷ votes) = let rest = count cls votes in if same (as_tie v) cls then suc rest else rest

unfoldable pub has_majority : Verdict → List Outcome → Bool
unfolding count
has_majority cls votes = ltb (length votes) (count cls votes * 2)

-- The loop over the classes i, j and 'tie': to find 'tie' and to find none return the same.
unfoldable pub first_class : List Outcome → ℕ → ℕ → Verdict
unfolding has_majority
first_class votes i j =
    if has_majority (wins i) votes
    then wins i
    else if has_majority (wins j) votes
    then wins j
    else tie

-- _majority
unfoldable pub majority : List Outcome → ℕ → ℕ → Outcome
unfolding first_class
majority votes i j = if all_failed votes then none else some (first_class votes i j)
