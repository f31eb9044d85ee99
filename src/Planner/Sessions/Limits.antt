-- ===== src/Planner/Sessions/Limits.antt =====
-- planner.py, _check_session and _branch_lower_bound: the limits of a session, and the next start.
use label_kit.Prelude.{
  ℕ, ◌+◌, ◌%◌, ◌≤◌, ◌≡◌, sym, subst, Bool, true, some, List, [], ◌∷◌, arith, max, min,
  if◌then◌else◌, All,
}
use mathlib.Core.List.{Memᴰ}
use label_kit.Planner.{Timeline, quantum_us, align_millisecond, branch_lower_bound}
use label_kit.Planner.Sessions.{
  PlannedEvent, tail_from, events_tail, last_end, first_start, check_session,
}

end_of : PlannedEvent → ℕ
end_of e = e.timestamp_us + e.duration_us

tail_from_mono : (tail : ℕ) (es : List PlannedEvent) → tail ≤ tail_from tail es
unfolding tail_from
tail_from_mono tail [] = omega arith
tail_from_mono tail (e ∷ es) =
    omega (arith, tail_from_mono (max tail (e.timestamp_us + max e.duration_us quantum_us)) es)

tail_from-above :
    (tail : ℕ) (es : List PlannedEvent)
    → All
        (λ (a : PlannedEvent). a.timestamp_us + max a.duration_us quantum_us ≤ tail_from tail es)
        es
unfolding tail_from
tail_from-above tail [] = tt
tail_from-above tail (e ∷ es) =
    let next = max tail (e.timestamp_us + max e.duration_us quantum_us) in
    (omega (arith, tail_from_mono next es), tail_from-above next es)

-- The event is over before `start`, with a gap.
abbrev pub IsBefore : ℕ → ℕ → PlannedEvent → Type 0
IsBefore start gap a = a.timestamp_us + max a.duration_us quantum_us + gap ≤ start

IsBefore-All :
    (start gap tail : ℕ) (es : List PlannedEvent)
    → tail + gap ≤ start
    → All (λ (a : PlannedEvent). a.timestamp_us + max a.duration_us quantum_us ≤ tail) es
    → All (IsBefore start gap) es
IsBefore-All start gap tail [] h k = tt
IsBefore-All start gap tail (e ∷ es) h k =
    (omega (arith, h, k.0), IsBefore-All start gap tail es h k.1)

align-above : (n : ℕ) → (n ≤ align_millisecond n) × (align_millisecond n % quantum_us ≡ 0)
unfolding align_millisecond
align-above n = (omega arith, omega arith)

-- The earliest start of the next branch is a whole millisecond, a session gap or an event gap, and at
-- least one millisecond, after the end of each event of the branch before.
pub branch_lower_bound-IsBefore :
    (t : Timeline) (e : PlannedEvent) (es : List PlannedEvent) (shares : Bool)
    → let start = branch_lower_bound t (some (events_tail e es)) shares in
      All
        (IsBefore start (max (if shares then t.event_gap_us else t.session_gap_us) quantum_us))
        (e ∷ es)
      × (start % quantum_us ≡ 0)
unfolding branch_lower_bound events_tail
branch_lower_bound-IsBefore t e es shares =
    let gap = max (if shares then t.event_gap_us else t.session_gap_us) quantum_us in
    let first = e.timestamp_us + max e.duration_us quantum_us in
    let tail = tail_from first es in
    let (above, whole) = align-above (tail + gap) in
    (
      IsBefore-All (align_millisecond (tail + gap)) gap tail (e ∷ es) above
          (tail_from_mono first es, tail_from-above first es),
      whole,
    )

last_end-above :
    (end : ℕ) (es : List PlannedEvent)
    → (end ≤ last_end end es)
      × All (λ (a : PlannedEvent). a.timestamp_us + a.duration_us ≤ last_end end es) es
unfolding last_end
last_end-above end [] = (omega arith, tt)
last_end-above end (e ∷ es) =
    let (le, rest) = last_end-above (max end (e.timestamp_us + e.duration_us)) es in
    (omega (arith, le), (omega (arith, le), rest))

first_start-below :
    (start : ℕ) (es : List PlannedEvent)
    → (first_start start es ≤ start)
      × All (λ (a : PlannedEvent). first_start start es ≤ a.timestamp_us) es
unfolding first_start
first_start-below start [] = (omega arith, tt)
first_start-below start (e ∷ es) =
    let (le, rest) = first_start-below (min start e.timestamp_us) es in
    (omega (arith, le), (omega (arith, le), rest))

all_lookup :
    (P : PlannedEvent → Type 0) (es : List PlannedEvent) (a : PlannedEvent)
    → All P es
    → Memᴰ a es
    → P a
all_lookup P [] a h m = elim m [ ]
all_lookup P (e ∷ es) a h (Memᴰ.head p) = subst P (sym p) h.0
all_lookup P (e ∷ es) a h (Memᴰ.tail m) = all_lookup P es a h.1 m

-- A session that passes has no more events than it may, and from the start of any of its events to the
-- end of any other is no more time than a session may span.
pub check_session-limits :
    (t : Timeline) (e : PlannedEvent) (es : List PlannedEvent) (count : ℕ) (a b : PlannedEvent)
    → check_session t e es count ≡ true
    → Memᴰ a (e ∷ es)
    → Memᴰ b (e ∷ es)
    → (count ≤ t.session_max_events)
      × (b.timestamp_us + b.duration_us ≤ a.timestamp_us + t.session_max_span_us)
unfolding check_session
check_session-limits t e es count a b h m k =
    let (last, ends) = last_end-above (e.timestamp_us + e.duration_us) es in
    let (first, starts) = first_start-below e.timestamp_us es in
    let end =
      all_lookup
        (λ x. x.timestamp_us + x.duration_us ≤ last_end (e.timestamp_us + e.duration_us) es)
        (e ∷ es) b (last, ends) k in
    let start =
      all_lookup (λ x. first_start e.timestamp_us es ≤ x.timestamp_us) (e ∷ es) a (first, starts)
        m in
    (ground (arith, h), ground (arith, h, end, start))
