-- ===== src/Stitch/Examples.antt =====
-- labelkit/operators/stitch.py: the theorems at concrete values.
use label_kit.Prelude.Dict.{is_in}
use label_kit.Prelude.{
  string_eq, ℕ, zero, suc, ◌≡◌, refl, Option, none, some, List, [], ◌∷◌, String,
}
use label_kit.Stitch.{Sample, Thread, aggregate_votes, select_eviction, compute_seams}
use label_kit.Stitch.Votes.{IsVerdict, aggregate_votes-IsVerdict}
use label_kit.Stitch.Eviction.{Evicts, select_eviction-Evicts}
use label_kit.Stitch.Seams.{seam_names, any_interrupts, IsAscending, compute_seams-names}

-- The rest of an answer is its task name.
abbrev resume : String → Sample String
resume name = record { verdict = "resume"; thread_ref = some 2; content = name }

abbrev samples : List (Sample String)
samples =
    record { verdict = "new"; thread_ref = none; content = "search" }
    ∷ resume "pay"
    ∷ resume "payment"
    ∷ []

aggregate_votes-IsVerdict_example : IsVerdict samples 3 (aggregate_votes samples 3)
aggregate_votes-IsVerdict_example = aggregate_votes-IsVerdict samples 3

abbrev thread : ℕ → ℕ → Thread
thread active tail = record { last_active = active; head_pos = 0; tail_pos = tail }

abbrev pool : List Thread
pool = thread 1 30 ∷ thread 4 5 ∷ thread 3 8 ∷ []

select_eviction-Evicts_example : Evicts 40 20 pool (select_eviction pool 40 20)
select_eviction-Evicts_example = select_eviction-Evicts 40 20 pool

-- Frame 2 belongs to another thread, frame 5 to none.
abbrev owner : ℕ → Option String
owner zero = some "pay"
owner (suc zero) = some "pay"
owner (suc (suc zero)) = some "chat"
owner _ = none

compute_seams-names_example :
    (is_in "chat" (seam_names 1 (compute_seams (0 ∷ 1 ∷ 4 ∷ 6 ∷ []) owner))
      ≡ any_interrupts (0 ∷ 1 ∷ 4 ∷ 6 ∷ []) owner 2 2 "chat")
    × IsAscending 0 3 (compute_seams (0 ∷ 1 ∷ 4 ∷ 6 ∷ []) owner)
compute_seams-names_example = compute_seams-names (0 ∷ 1 ∷ 4 ∷ 6 ∷ []) owner "chat" 1 1 4 refl refl
