-- ===== src/Planner.antt =====
-- labelkit/operators/generation/planner.py: the placement of branches and noise on the timeline. Times
-- are microseconds since the epoch.
mod Examples
pub mod Calendar
pub mod Noise
pub mod Sessions
use label_kit.Prelude.{
  ℕ, zero, suc, ◌+◌, ◌-◌, ◌*◌, ◌/◌, Bool, true, false, not, ◌&&◌, ◌||◌, Option, none, some, List,
  [], ◌∷◌, ◌++◌, ltb, leb, max, min, if◌then◌else◌, nat_beq,
}

abbrev pub quantum_us : ℕ
quantum_us = 1000

abbrev pub day_us : ℕ
day_us = 86400000000

-- event_gap_us is the lower bound of the configured range.
pub record Timeline : Type 0 where
  pub timestamp_start_us : ℕ
  pub event_gap_us : ℕ
  pub session_gap_us : ℕ
  pub session_max_events : ℕ
  pub session_max_span_us : ℕ

abbrev pub Interval : Type 0
Interval = ℕ × ℕ

unfoldable pub align_millisecond : ℕ → ℕ
align_millisecond value = (value + quantum_us - 1) / quantum_us * quantum_us

-- Intervals in milliseconds, those that hold none left out.
unfoldable pub millisecond_intervals : List Interval → List Interval
millisecond_intervals [] = []
millisecond_intervals ((start, end) ∷ rest) =
    let more = millisecond_intervals rest in
    if leb ((start + quantum_us - 1) / quantum_us) (end / quantum_us)
    then ((start + quantum_us - 1) / quantum_us, end / quantum_us) ∷ more
    else more

unfoldable pub branch_lower_bound : Timeline → Option ℕ → Bool → ℕ
branch_lower_bound t none shares = align_millisecond t.timestamp_start_us
branch_lower_bound t (some cursor) shares =
    align_millisecond
      (cursor + max (if shares then t.event_gap_us else t.session_gap_us) quantum_us)

-- The inner loop of `_intersect_intervals`.
unfoldable pub intersect_one : Interval → List Interval → List Interval
intersect_one l [] = []
intersect_one l (r ∷ rs) =
    let rest = intersect_one l rs in
    if leb (max l.0 r.0) (min l.1 r.1) then (max l.0 r.0, min l.1 r.1) ∷ rest else rest

unfoldable pub intersect_all : List Interval → List Interval → List Interval
intersect_all [] right = []
intersect_all (l ∷ ls) right = intersect_one l right ++ intersect_all ls right

-- sorted(...) on pairs
abbrev pub interval_lt : Interval → Interval → Bool
interval_lt a b = ltb a.0 b.0 || nat_beq a.0 b.0 && ltb a.1 b.1

unfoldable pub insert_interval : Interval → List Interval → List Interval
insert_interval a [] = a ∷ []
insert_interval a (b ∷ bs) =
    let rest = insert_interval a bs in if interval_lt b a then b ∷ rest else a ∷ b ∷ bs

unfoldable pub sort_intervals : List Interval → List Interval
sort_intervals [] = []
sort_intervals (a ∷ rest) = insert_interval a (sort_intervals rest)

unfoldable pub intersect_intervals : List Interval → List Interval → List Interval
intersect_intervals left right = sort_intervals (intersect_all left right)

-- The loop of `_earliest_calendar_start` over the intervals that the windows allow.
unfoldable pub intersect_windows : List Interval → List (List Interval) → List Interval
intersect_windows intervals [] = intervals
intersect_windows intervals (allowed ∷ more) =
    intersect_windows (intersect_intervals intervals allowed) more

abbrev pub first_start : List Interval → Option ℕ
first_start [] = none
first_start (i ∷ is) = some i.0

-- `windows` are the start intervals of the roles with a calendar; `none` is an infeasible plan.
unfoldable pub earliest_calendar_start : ℕ → List (List Interval) → Option ℕ
earliest_calendar_start lower [] = some (align_millisecond lower)
earliest_calendar_start lower (w ∷ ws) =
    first_start (intersect_windows ((align_millisecond lower, lower + 21 * day_us) ∷ []) (w ∷ ws))

-- The variables of `_noise_slots`; `session_start` is None before the first session.
pub record NoiseState : Type 0 where
  pub cursor : ℕ
  pub session_index : ℕ
  pub session_start : Option ℕ
  pub session_count : ℕ

pub record NoiseSlot : Type 0 where
  pub timestamp_us : ℕ
  pub session_index : ℕ

module _ (t : Timeline) where
  abbrev pub event_gap : ℕ
  event_gap = max t.event_gap_us quantum_us

  abbrev pub session_gap : ℕ
  session_gap = max t.session_gap_us quantum_us

  -- The slot at `timestamp`, in the session of the state from `start` on, or in a new session.
  unfoldable pub place_noise : NoiseState → ℕ → ℕ → NoiseSlot × NoiseState
  place_noise s timestamp start =
      if leb t.session_max_events s.session_count || ltb t.session_max_span_us (timestamp - start)
      then (
        record { timestamp_us = s.cursor + session_gap; session_index = s.session_index + 1 },
        record {
          cursor = s.cursor + session_gap + quantum_us;
          session_index = s.session_index + 1;
          session_start = some (s.cursor + session_gap);
          session_count = 1;
        },
      )
      else (
        record { timestamp_us = timestamp; session_index = s.session_index },
        record {
          cursor = timestamp + quantum_us;
          session_index = s.session_index;
          session_start = some start;
          session_count = s.session_count + 1;
        },
      )

  abbrev pub next_from : NoiseState → Option ℕ → NoiseSlot × NoiseState
  next_from s none = place_noise s (s.cursor + session_gap) (s.cursor + session_gap)
  next_from s (some start) = place_noise s (s.cursor + (event_gap - quantum_us)) start

  unfoldable pub next_noise_time : NoiseState → NoiseSlot × NoiseState
  next_noise_time s = next_from s s.session_start

  -- The slots of `_noise_slots`, of which there are `count`.
  unfoldable pub noise_from : NoiseState → ℕ → List NoiseSlot
  noise_from s zero = []
  noise_from s (suc count) = let (slot, s') = next_noise_time s in slot ∷ noise_from s' count

  unfoldable pub noise_slots : ℕ → ℕ → List NoiseSlot
  noise_slots cursor count =
      noise_from
        (record { cursor = cursor; session_index = 0; session_start = none; session_count = 0 })
        count
