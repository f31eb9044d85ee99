-- ===== src/Planner/Sessions.antt =====
-- labelkit/operators/generation/planner.py: primary sessions, their limits, and the blocks that keep
-- them together.
pub mod Blocks
pub mod Limits
use label_kit.Prelude.{
  ℕ, zero, suc, ◌+◌, ◌-◌, Bool, true, false, not, ◌&&◌, Option, none, some, List, [], ◌∷◌, ◌++◌,
  ltb, max, min, length, if◌then◌else◌, nat_beq,
}
use label_kit.Planner.{Timeline, quantum_us}

pub record PlannedEvent : Type 0 where
  pub timestamp_us : ℕ
  pub duration_us : ℕ

-- A placed branch, by its session and events.
pub record PlacedBranch : Type 0 where
  pub session_index : ℕ
  pub events : List PlannedEvent

abbrev pub Group : Type 0
Group = List PlacedBranch

-- The largest tail after `tail`; a point event lasts a quantum.
unfoldable pub tail_from : ℕ → List PlannedEvent → ℕ
tail_from tail [] = tail
tail_from tail (e ∷ es) = tail_from (max tail (e.timestamp_us + max e.duration_us quantum_us)) es

-- Of at least one event, as max() asks.
unfoldable pub events_tail : PlannedEvent → List PlannedEvent → ℕ
events_tail e es = tail_from (e.timestamp_us + max e.duration_us quantum_us) es

unfoldable pub last_end : ℕ → List PlannedEvent → ℕ
last_end end [] = end
last_end end (e ∷ es) = last_end (max end (e.timestamp_us + e.duration_us)) es

unfoldable pub first_start : ℕ → List PlannedEvent → ℕ
first_start start [] = start
first_start start (e ∷ es) = first_start (min start e.timestamp_us) es

-- Whether `_check_session` returns; otherwise the plan is infeasible.
unfoldable pub check_session : Timeline → PlannedEvent → List PlannedEvent → ℕ → Bool
check_session t e es count =
    not (ltb t.session_max_events count)
    && not (
        ltb t.session_max_span_us
          (last_end (e.timestamp_us + e.duration_us) es - first_start e.timestamp_us es))

-- groups[-1][0].session_index == index
abbrev pub group_is : ℕ → Group → Bool
group_is index [] = false
group_is index (p ∷ ps) = nat_beq p.session_index index

-- The branch joins the last group, or begins another.
unfoldable pub add_to_groups : List Group → PlacedBranch → List Group
add_to_groups [] p = (p ∷ []) ∷ []
add_to_groups (g ∷ []) p =
    if group_is p.session_index g then (g ++ (p ∷ [])) ∷ [] else g ∷ (p ∷ []) ∷ []
add_to_groups (g ∷ (h ∷ gs)) p = g ∷ add_to_groups (h ∷ gs) p

unfoldable pub groups_from : List Group → List PlacedBranch → List Group
groups_from groups [] = groups
groups_from groups (p ∷ ps) = groups_from (add_to_groups groups p) ps

unfoldable pub session_groups : List PlacedBranch → List Group
session_groups placed = groups_from [] placed

unfoldable pub group_events : Group → ℕ
group_events [] = 0
group_events (p ∷ ps) = length p.events + group_events ps

abbrev pub block_limit : ℕ
block_limit = 4096

abbrev pub close_block : List Group → List (List Group) → List (List Group)
close_block [] rest = rest
close_block (g ∷ gs) rest = (g ∷ gs) ∷ rest

abbrev pub is_open : List Group → Bool
is_open [] = false
is_open (g ∷ gs) = true

-- The loop of `_allocate_blocks`, where a block is its groups: the blocks from a current one on.
unfoldable pub blocks_from : List Group → ℕ → List Group → List (List Group)
blocks_from current primary_events [] = close_block current []
blocks_from current primary_events (g ∷ gs) =
    let full = blocks_from (g ∷ []) (group_events g) gs in
    let more = blocks_from (current ++ (g ∷ [])) (primary_events + group_events g) gs in
    if is_open current && ltb block_limit (primary_events + group_events g)
    then current ∷ full
    else more

unfoldable pub allocate_blocks : List PlacedBranch → List (List Group)
allocate_blocks placed = blocks_from [] 0 (session_groups placed)
