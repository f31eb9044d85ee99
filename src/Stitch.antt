-- ===== src/Stitch.antt =====
-- labelkit/operators/stitch.py: votes, eviction, distances and seams of the threads of a session.
mod Examples
pub mod Votes
pub mod Eviction
pub mod Seams
use label_kit.Prelude.{
  ℕ, zero, suc, ◌+◌, ◌-◌, ◌*◌, ◌≡◌, ◌↔◌, Bool, true, false, not, ◌&&◌, ◌||◌, Option, none, some,
  List, [], ◌∷◌, ◌++◌, String, arith, ltb, if◌then◌else◌, Equality, nat_eq, string_eq, ◌==◌, length,
}
use label_kit.Prelude.Dict.{set_default, is_in, Dict, get, put, or_default}

abbrev pub option_test : Option ℕ → Option ℕ → Bool
option_test none none = true
option_test (some a) (some b) = a == b
option_test _ _ = false

-- The answer of one sample: whether the candidate resumes a thread, and which; `content` is the rest.
pub record Sample (R : Type 0) : Type 0 where
  pub verdict : String
  pub thread_ref : Option ℕ
  pub content : R

-- (verdict, thread_ref)
pub record VoteKey : Type 0 where
  pub verdict : String
  pub thread_ref : Option ℕ

abbrev pub vote_key_test : VoteKey → VoteKey → Bool
vote_key_test a b = (a.verdict == b.verdict) && option_test a.thread_ref b.thread_ref

option_test_iff : (a b : Option ℕ) → (option_test a b ≡ true) ↔ (a ≡ b)
option_test_iff none none = ground arith
option_test_iff none (some b) = ground arith
option_test_iff (some a) none = ground arith
option_test_iff (some a) (some b) = ground (arith, nat_eq.test_iff a b)

pub vote_key_test_iff : (a b : VoteKey) → (vote_key_test a b ≡ true) ↔ (a ≡ b)
vote_key_test_iff a b =
    ground
      (arith, string_eq.test_iff a.verdict b.verdict, option_test_iff a.thread_ref b.thread_ref)

instance abbrev pub vote_key_eq : Equality VoteKey
vote_key_eq = record { test = vote_key_test; test_iff = vote_key_test_iff }

abbrev pub vote_key : {R : Type 0} → Sample R → VoteKey
vote_key s = record { verdict = s.verdict; thread_ref = s.thread_ref }

module _ {R : Type 0} where
  -- The two dictionaries that the loop of `aggregate_votes` fills.
  unfoldable pub count_votes : Dict VoteKey ℕ → List (Sample R) → Dict VoteKey ℕ
  count_votes counts [] = counts
  count_votes counts (s ∷ ss) =
      count_votes (put counts (vote_key s) (or_default (get counts (vote_key s)) 0 + 1)) ss

  unfoldable pub first_votes : Dict VoteKey (Sample R) → List (Sample R) → Dict VoteKey (Sample R)
  first_votes first [] = first
  first_votes first (s ∷ ss) = first_votes (set_default first (vote_key s) s) ss

-- max(counts.items(), key=count): the first of the largest, after `best`.
unfoldable pub max_from : VoteKey × ℕ → Dict VoteKey ℕ → VoteKey × ℕ
max_from best [] = best
max_from best (c ∷ rest) = max_from (if ltb best.1 c.1 then c else best) rest

module _ {R : Type 0} where
  unfoldable pub winner : Dict VoteKey ℕ → Dict VoteKey (Sample R) → ℕ → Option (Sample R)
  winner [] first total_votes = none
  winner (c ∷ cs) first total_votes =
      let best = max_from c cs in if ltb total_votes (best.1 * 2) then get first best.0 else none

  -- Without samples there is no count, so the early return is the empty case of `winner`.
  unfoldable pub aggregate_votes : List (Sample R) → ℕ → Option (Sample R)
  aggregate_votes samples total_votes =
      winner (count_votes [] samples) (first_votes [] samples) total_votes

-- The fields of a thread that the pool is managed by.
pub record Thread : Type 0 where
  pub last_active : ℕ
  pub head_pos : ℕ
  pub tail_pos : ℕ

-- min(pool, key=last_active): the first of the least, after `t`.
unfoldable pub oldest_from : Thread → List Thread → Thread
oldest_from t [] = t
oldest_from t (u ∷ us) = oldest_from (if ltb u.last_active t.last_active then u else t) us

-- `none` for an empty pool, where the source raises ValueError.
unfoldable pub oldest : List Thread → Option Thread
oldest [] = none
oldest (t ∷ ts) = some (oldest_from t ts)

abbrev pub is_stale : ℕ → ℕ → Thread → Bool
is_stale candidate_pos stale_gap_steps t = ltb (t.tail_pos + stale_gap_steps) candidate_pos

unfoldable pub stale_threads : ℕ → ℕ → List Thread → List Thread
stale_threads candidate_pos stale_gap_steps [] = []
stale_threads candidate_pos stale_gap_steps (t ∷ ts) =
    let rest = stale_threads candidate_pos stale_gap_steps ts in
    if is_stale candidate_pos stale_gap_steps t then t ∷ rest else rest

abbrev pub or_oldest : List Thread → List Thread → Option Thread
or_oldest [] pool = oldest pool
or_oldest (t ∷ ts) pool = oldest (t ∷ ts)

unfoldable pub select_eviction : List Thread → ℕ → ℕ → Option Thread
select_eviction pool candidate_pos stale_gap_steps =
    if ltb 0 stale_gap_steps
    then or_oldest (stale_threads candidate_pos stale_gap_steps pool) pool
    else oldest pool

unfoldable pub span_distance : ℕ → ℕ → ℕ → ℕ → ℕ
span_distance a_head a_tail b_head b_tail =
    if ltb a_tail b_head then b_head - a_tail else if ltb b_tail a_head then a_head - b_tail else 0

abbrev pub add_name : List String → Option String → List String
add_name names none = names
add_name names (some task) = if is_in task names then names else names ++ (task ∷ [])

-- The inner loop over `count` positions from `pos` on.
unfoldable pub gap_names : List ℕ → (ℕ → Option String) → List String → ℕ → ℕ → List String
gap_names owned owner_task names pos zero = names
gap_names owned owner_task names pos (suc count) =
    gap_names owned owner_task (if is_in pos owned then names else add_name names (owner_task pos))
      (pos + 1) count

-- A seam at index `i`, with the tasks that interrupted it.
abbrev pub add_seam : ℕ → List String → List (ℕ × List String) → List (ℕ × List String)
add_seam i [] rest = rest
add_seam i (n ∷ ns) rest = (i, n ∷ ns) ∷ rest

-- The loop over neighbouring positions, from index `i` on.
unfoldable pub seams_from : List ℕ → (ℕ → Option String) → ℕ → List ℕ → List (ℕ × List String)
seams_from owned owner_task i [] = []
seams_from owned owner_task i (left ∷ []) = []
seams_from owned owner_task i (left ∷ (right ∷ rest)) =
    add_seam i (gap_names owned owner_task [] (left + 1) (right - (left + 1)))
      (seams_from owned owner_task (i + 1) (right ∷ rest))

unfoldable pub compute_seams : List ℕ → (ℕ → Option String) → List (ℕ × List String)
compute_seams positions owner_task = seams_from positions owner_task 0 positions
