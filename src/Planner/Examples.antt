-- ===== src/Planner/Examples.antt =====
-- labelkit/operators/generation/planner.py: the theorems at concrete values.
use label_kit.Prelude.{
  ℕ, ◌+◌, ◌%◌, refl, some, true, false, ◌≤◌, ◌≡◌, List, [], ◌∷◌, arith, length, All,
}
use label_kit.Planner.{
  Timeline, Interval, quantum_us, branch_lower_bound, earliest_calendar_start, noise_slots,
}
use label_kit.Planner.Calendar.{IsEarliest, earliest_calendar_start-IsEarliest}
use label_kit.Planner.Sessions.{
  PlannedEvent, PlacedBranch, session_groups, allocate_blocks, events_tail, check_session, last_end,
  first_start,
}
use mathlib.Core.List.{Memᴰ}
use label_kit.Planner.Sessions.Limits.{IsBefore, branch_lower_bound-IsBefore, check_session-limits}
use label_kit.Planner.Sessions.Blocks.{join, AreSessions, IsBlock, allocate_blocks-IsBlock}
use label_kit.Planner.Noise.{session_size, IsNoise, noise_slots-IsNoise}

-- Two roles with a window each.
abbrev windows : List (List Interval)
windows = ((5000, 9000) ∷ (20000, 30000) ∷ []) ∷ ((8500, 21000) ∷ []) ∷ []

earliest_calendar_start-IsEarliest_example :
    IsEarliest 8600 windows (earliest_calendar_start 8600 windows)
earliest_calendar_start-IsEarliest_example = earliest_calendar_start-IsEarliest 8600 windows

abbrev timeline : Timeline
timeline = record {
  timestamp_start_us = 0;
  event_gap_us = 5000;
  session_gap_us = 60000;
  session_max_events = 3;
  session_max_span_us = 20000;
}

noise_slots-IsNoise_example :
    IsNoise timeline 100000 (noise_slots timeline 100000 7)
    × (session_size 1 (noise_slots timeline 100000 7) ≤ 3)
    × (length (noise_slots timeline 100000 7) ≡ 7)
noise_slots-IsNoise_example = noise_slots-IsNoise timeline 100000 7 1 (omega arith)

abbrev event : ℕ → PlannedEvent
event start = record { timestamp_us = start; duration_us = 1000 }

abbrev branch : ℕ → ℕ → PlacedBranch
branch session start = record {
  session_index = session;
  events = event start ∷ event (start + 5000) ∷ [];
}

abbrev placed : List PlacedBranch
placed = branch 0 0 ∷ branch 0 2000 ∷ branch 1 90000 ∷ []

allocate_blocks-IsBlock_example :
    (join (session_groups placed) ≡ placed)
    × AreSessions (session_groups placed)
    × (join (allocate_blocks placed) ≡ session_groups placed)
    × All IsBlock (allocate_blocks placed)
allocate_blocks-IsBlock_example = allocate_blocks-IsBlock placed

branch_lower_bound-IsBefore_example :
    let start =
      branch_lower_bound timeline (some (events_tail (event 0) (event 5000 ∷ []))) false in
    All (IsBefore start 60000) (event 0 ∷ event 5000 ∷ []) × (start % quantum_us ≡ 0)
branch_lower_bound-IsBefore_example =
    branch_lower_bound-IsBefore timeline (event 0) (event 5000 ∷ []) false

session_passes : check_session timeline (event 0) (event 5000 ∷ []) 2 ≡ true
unfolding check_session last_end first_start
session_passes = refl

check_session-limits_example : (2 ≤ 3) × (5000 + 1000 ≤ 0 + 20000)
check_session-limits_example =
    check_session-limits timeline (event 0) (event 5000 ∷ []) 2 (event 0) (event 5000)
      session_passes (Memᴰ.head refl) (Memᴰ.tail (Memᴰ.head refl))
