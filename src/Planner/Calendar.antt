-- ===== src/Planner/Calendar.antt =====
-- planner.py, _earliest_calendar_start: the times that calendar windows allow.
use label_kit.Prelude.{
  ℕ, ◌+◌, ◌*◌, ◌≤◌, ◌<◌, ◌≡◌, refl, sym, ◌∙◌, inl, inr, Bool, true, false, ◌&&◌, ◌||◌, Option, none,
  some, List, [], ◌∷◌, ◌++◌, arith, leb, max, min, Bool-cases, All,
}
use label_kit.Planner.{
  Interval, align_millisecond, intersect_one, intersect_all, interval_lt, insert_interval,
  sort_intervals, intersect_intervals, intersect_windows, first_start, earliest_calendar_start,
  day_us,
}

abbrev pub holds : ℕ → Interval → Bool
holds x i = leb i.0 x && leb x i.1

-- The time lies in one of the intervals, and in all windows.
unfoldable pub allowed : ℕ → List Interval → Bool
allowed x [] = false
allowed x (i ∷ is) = holds x i || allowed x is

unfoldable pub allowed_by_all : ℕ → List (List Interval) → Bool
allowed_by_all x [] = true
allowed_by_all x (w ∷ ws) = allowed x w && allowed_by_all x ws

allowed-append : (x : ℕ) (l m : List Interval) → allowed x (l ++ m) ≡ (allowed x l || allowed x m)
unfolding allowed
allowed-append x [] m = ground arith
allowed-append x (i ∷ l) m = rw (allowed-append x l m) (ground arith)

allowed-intersect_one :
    (x : ℕ) (l : Interval) (rs : List Interval)
    → allowed x (intersect_one l rs) ≡ (holds x l && allowed x rs)
unfolding allowed intersect_one
allowed-intersect_one x l [] = ground arith
allowed-intersect_one x l (r ∷ rs) =
    let rest = allowed-intersect_one x l rs in
    elim (Bool-cases (leb (max l.0 r.0) (min l.1 r.1))) [
      | inl meet ↦ rw (meet, rest) (ground arith)
      | inr apart ↦ rw (apart, rest) (ground (arith, apart))
    ]

allowed-intersect_all :
    (x : ℕ) (ls rs : List Interval)
    → allowed x (intersect_all ls rs) ≡ (allowed x ls && allowed x rs)
unfolding allowed intersect_all
allowed-intersect_all x [] rs = ground arith
allowed-intersect_all x (l ∷ ls) rs =
    rw
      (
        allowed-append x (intersect_one l rs) (intersect_all ls rs),
        allowed-intersect_one x l rs,
        allowed-intersect_all x ls rs,
      )
      (ground arith)

allowed-insert_interval :
    (x : ℕ) (a : Interval) (l : List Interval)
    → allowed x (insert_interval a l) ≡ (holds x a || allowed x l)
unfolding allowed insert_interval
allowed-insert_interval x a [] = refl
allowed-insert_interval x a (b ∷ bs) = elim (Bool-cases (interval_lt b a)) [
  | inl later ↦ rw (later, allowed-insert_interval x a bs) (ground arith)
  | inr sooner ↦ rw sooner refl
]

allowed-sort_intervals : (x : ℕ) (l : List Interval) → allowed x (sort_intervals l) ≡ allowed x l
unfolding allowed sort_intervals
allowed-sort_intervals x [] = refl
allowed-sort_intervals x (a ∷ l) =
    allowed-insert_interval x a (sort_intervals l) ∙ rw (allowed-sort_intervals x l) refl

allowed-intersect_intervals :
    (x : ℕ) (ls rs : List Interval)
    → allowed x (intersect_intervals ls rs) ≡ (allowed x ls && allowed x rs)
unfolding intersect_intervals
allowed-intersect_intervals x ls rs =
    allowed-sort_intervals x (intersect_all ls rs) ∙ allowed-intersect_all x ls rs

allowed-intersect_windows :
    (x : ℕ) (l : List Interval) (ws : List (List Interval))
    → allowed x (intersect_windows l ws) ≡ (allowed x l && allowed_by_all x ws)
unfolding intersect_windows allowed_by_all
allowed-intersect_windows x l [] = ground arith
allowed-intersect_windows x l (w ∷ ws) =
    allowed-intersect_windows x (intersect_intervals l w) ws
    ∙ rw (allowed-intersect_intervals x l w) (ground arith)

-- The starts ascend from `low` on, and no interval is empty.
abbrev IsSorted : ℕ → List Interval → Type 0
IsSorted low [] = Unit
IsSorted low (i ∷ is) = (low ≤ i.0) × (i.0 ≤ i.1) × IsSorted i.0 is

abbrev IsProper : Interval → Type 0
IsProper i = i.0 ≤ i.1

weaken-IsSorted : (a b : ℕ) (l : List Interval) → a ≤ b → IsSorted b l → IsSorted a l
weaken-IsSorted a b [] h s = tt
weaken-IsSorted a b (i ∷ is) h s = (omega (arith, s.0), s.1, s.2)

insert-IsSorted :
    (low : ℕ) (a : Interval) (l : List Interval)
    → low ≤ a.0
    → IsProper a
    → IsSorted low l
    → IsSorted low (insert_interval a l)
unfolding insert_interval
insert-IsSorted low a [] h p s = (h, p, tt)
insert-IsSorted low a (b ∷ bs) h p s = elim (Bool-cases (interval_lt b a)) [
  | inl later ↦ rw later (s.0, s.1, insert-IsSorted b.0 a bs (ground (arith, later)) p s.2)
  | inr sooner ↦ rw sooner (h, p, (ground (arith, sooner), s.1, s.2))
]

sort-IsSorted : (l : List Interval) → All IsProper l → IsSorted 0 (sort_intervals l)
unfolding sort_intervals
sort-IsSorted [] h = tt
sort-IsSorted (a ∷ l) h =
    insert-IsSorted 0 a (sort_intervals l) (omega arith) h.0 (sort-IsSorted l h.1)

All-append : (l m : List Interval) → All IsProper l → All IsProper m → All IsProper (l ++ m)
All-append [] m h k = k
All-append (i ∷ l) m h k = (h.0, All-append l m h.1 k)

intersect_one-IsProper : (l : Interval) (rs : List Interval) → All IsProper (intersect_one l rs)
unfolding intersect_one
intersect_one-IsProper l [] = tt
intersect_one-IsProper l (r ∷ rs) = elim (Bool-cases (leb (max l.0 r.0) (min l.1 r.1))) [
  | inl meet ↦ rw meet (ground (arith, meet), intersect_one-IsProper l rs)
  | inr apart ↦ rw apart (intersect_one-IsProper l rs)
]

intersect_all-IsProper : (ls rs : List Interval) → All IsProper (intersect_all ls rs)
unfolding intersect_all
intersect_all-IsProper [] rs = tt
intersect_all-IsProper (l ∷ ls) rs =
    All-append (intersect_one l rs) (intersect_all ls rs) (intersect_one-IsProper l rs)
      (intersect_all-IsProper ls rs)

intersect_windows-IsSorted :
    (l : List Interval) (ws : List (List Interval))
    → IsSorted 0 l
    → IsSorted 0 (intersect_windows l ws)
unfolding intersect_windows intersect_intervals
intersect_windows-IsSorted l [] h = h
intersect_windows-IsSorted l (w ∷ ws) h =
    intersect_windows-IsSorted (intersect_intervals l w) ws
      (sort-IsSorted (intersect_all l w) (intersect_all-IsProper l w))

below-IsSorted : (x low : ℕ) (l : List Interval) → IsSorted low l → x < low → allowed x l ≡ false
unfolding allowed
below-IsSorted x low [] s h = refl
below-IsSorted x low (i ∷ is) s h =
    let rest = below-IsSorted x i.0 is s.2 (omega (arith, s.0)) in ground (arith, rest, s.0)

-- The start is allowed, and no earlier time is.
pub record IsFirst (l : List Interval) (start : ℕ) : Type 0 where
  pub is_allowed : allowed start l ≡ true
  pub first : (x : ℕ) → x < start → allowed x l ≡ false

-- The least allowed time, or none at all.
abbrev pub IsFirstStart : List Interval → Option ℕ → Type 0
IsFirstStart l none = (x : ℕ) → allowed x l ≡ false
IsFirstStart l (some start) = IsFirst l start

first_start-IsFirstStart : (l : List Interval) → IsSorted 0 l → IsFirstStart l (first_start l)
unfolding allowed
first_start-IsFirstStart [] s = λ x. refl
first_start-IsFirstStart (i ∷ is) s = record {
  is_allowed = ground (arith, s.1);
  first = λ x h. let rest = below-IsSorted x i.0 is s.2 h in ground (arith, rest, h);
}

-- The time is at or after the lower bound in whole milliseconds, within 21 days, and in all windows.
unfoldable pub may_start : ℕ → List (List Interval) → ℕ → Bool
may_start lower ws x =
    (leb (align_millisecond lower) x && leb x (lower + 21 * day_us)) && allowed_by_all x ws

-- The earliest time that the search may give, or none.
abbrev pub IsEarliest : ℕ → List (List Interval) → Option ℕ → Type 0
IsEarliest lower ws none = (x : ℕ) → may_start lower ws x ≡ false
IsEarliest lower ws (some start) =
    (may_start lower ws start ≡ true) × ((x : ℕ) → x < start → may_start lower ws x ≡ false)

align_near : (n : ℕ) → (n ≤ align_millisecond n) × (align_millisecond n ≤ n + 999)
unfolding align_millisecond
align_near n = (omega arith, omega arith)

IsFirstStart-IsEarliest :
    (lower : ℕ) (ws : List (List Interval)) (l : List Interval)
    → ((x : ℕ) → allowed x l ≡ may_start lower ws x)
    → (o : Option ℕ) → IsFirstStart l o
    → IsEarliest lower ws o
IsFirstStart-IsEarliest lower ws l same none h = λ x. sym (same x) ∙ h x
IsFirstStart-IsEarliest lower ws l same (some start) h =
    (sym (same start) ∙ h.is_allowed, λ x k. sym (same x) ∙ h.first x k)

-- Whatever the windows, the search gives the earliest time at or after the lower bound, in whole
-- milliseconds, that all windows allow within 21 days; and it gives none only if there is none.
pub earliest_calendar_start-IsEarliest :
    (lower : ℕ) (ws : List (List Interval)) → IsEarliest lower ws (earliest_calendar_start lower ws)
unfolding earliest_calendar_start
earliest_calendar_start-IsEarliest lower [] =
    let near = align_near lower in
    (
      unfold may_start allowed_by_all in ground (arith, near),
      λ x h. unfold may_start allowed_by_all in ground (arith, h),
    )
earliest_calendar_start-IsEarliest lower (w ∷ ws) =
    let window : Interval = (align_millisecond lower, lower + 21 * day_us) in
    let l = intersect_windows (window ∷ []) (w ∷ ws) in
    let sorted : IsSorted 0 (window ∷ []) = (omega arith, omega (arith, align_near lower), tt) in
    IsFirstStart-IsEarliest lower (w ∷ ws) l
      (λ x.
        allowed-intersect_windows x (window ∷ []) (w ∷ ws)
        ∙ unfold may_start allowed in ground arith)
      (first_start l)
      (first_start-IsFirstStart l (intersect_windows-IsSorted (window ∷ []) (w ∷ ws) sorted))
