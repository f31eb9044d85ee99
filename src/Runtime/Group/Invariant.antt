-- ===== src/Runtime/Group/Invariant.antt =====
-- scheduler.py, run_group: the permits and the counters against the tasks.
use label_kit.Prelude.{
  ℕ, ◌+◌, ◌≤◌, ◌≡◌, refl, subst, Bool, true, false, not, ◌&&◌, ◌||◌, Option, some, List, [], ◌∷◌,
  arith, get_elem?, set, Equality, ◌==◌,
}
use label_kit.Runtime.Group.{
  Leaf, Phase, pending, admitted, running, settled, released, Outcome, State, Event, submit, admit,
  start, settle, release, cancel_caller, drop_pending, count, is_pending, is_running, is_admitted,
  is_active, by_group, by_itself, fresh_leaves, admit_leaf, start_leaf, end_running, with_phase,
  settle_leaf, release_leaf, submit_group, drop_group, at_leaf, step, run, new,
}
use label_kit.Runtime.Group.Counts.{
  one, unwrap, guarded, guarded_or, chained, count-set, count-append, count-drop, count-fresh,
  count-pending_drop,
}

and_false : (b : Bool) → (b && false) ≡ false
and_false b = ground arith

module _ {T E : Type 0} where
  -- The task was counted as cancelled.
  abbrev pub counts_cancelled : Phase T E → Bool
  counts_cancelled (settled o) = by_itself o
  counts_cancelled (released o) = by_itself o || by_group o
  counts_cancelled _ = false

module _ {K T E : Type 0} ⦃e : Equality K⦄ where
  abbrev pub holds_permit : K → Leaf K T E → Bool
  holds_permit k l = l.resource_key == k && is_active l.phase

  pub record IsConsistent (capacity : K → ℕ) (s : State K T E) : Type 0 where
    pub permits_kept : (k : K) → s.permits k + count (holds_permit k) s.leaves ≡ capacity k
    pub queued_waits : s.queued ≡ count (λ l. is_pending l.phase) s.leaves
    pub running_runs : s.running_count ≡ count (λ l. is_running l.phase) s.leaves
    pub cancelled_counted : s.cancelled_tasks ≡ count (λ l. counts_cancelled l.phase) s.leaves
    pub marks : (s.queued ≤ s.queue_high_water) × (s.running_count ≤ s.running_high_water)

-- What a change of the phase of one task does to the counts.
record Moved {K T E : Type 0} ⦃e : Equality K⦄ (ls : List (Leaf K T E)) (i : ℕ) (leaf : Leaf K T E)
    (p : Phase T E) : Type 0 where
  active :
      (k : K)
      → count (holds_permit k) (set ls i (record leaf { phase = p }))
          + one (leaf.resource_key == k && is_active leaf.phase)
        ≡ count (holds_permit k) ls + one (leaf.resource_key == k && is_active p)
  waits :
      count (λ l. is_pending l.phase) (set ls i (record leaf { phase = p }))
        + one (is_pending leaf.phase)
      ≡ count (λ l. is_pending l.phase) ls + one (is_pending p)
  runs :
      count (λ l. is_running l.phase) (set ls i (record leaf { phase = p }))
        + one (is_running leaf.phase)
      ≡ count (λ l. is_running l.phase) ls + one (is_running p)
  counted :
      count (λ l. counts_cancelled l.phase) (set ls i (record leaf { phase = p }))
        + one (counts_cancelled leaf.phase)
      ≡ count (λ l. counts_cancelled l.phase) ls + one (counts_cancelled p)

module _ {K T E : Type 0} ⦃e : Equality K⦄ (capacity : K → ℕ) (s : State K T E)
    (inv : IsConsistent capacity s) (i : ℕ) (leaf : Leaf K T E)
    (at : get_elem? s.leaves i ≡ some leaf) where
  moved : (p : Phase T E) → Moved s.leaves i leaf p
  moved p =
      let new = record leaf { phase = p } in
      record {
        active = λ k. count-set (holds_permit k) s.leaves i leaf new at;
        waits = count-set (λ l. is_pending l.phase) s.leaves i leaf new at;
        runs = count-set (λ l. is_running l.phase) s.leaves i leaf new at;
        counted = count-set (λ l. counts_cancelled l.phase) s.leaves i leaf new at;
      }

  admit-IsConsistent : {s' : State K T E} → admit_leaf s i leaf ≡ some s' → IsConsistent capacity s'
  unfolding admit_leaf
  admit-IsConsistent h =
      let (g, same) = guarded _ h in
      let m = moved admitted in
      subst (IsConsistent capacity) same (record {
        permits_kept =
            λ k. ground (arith, inv.permits_kept k, m.active k, e.test_iff leaf.resource_key k);
        queued_waits = ground (arith, inv.queued_waits, m.waits);
        running_runs = ground (arith, inv.running_runs, m.runs);
        cancelled_counted = ground (arith, inv.cancelled_counted, m.counted);
        marks = omega (arith, inv.marks);
      })

  start-IsConsistent : {s' : State K T E} → start_leaf s i leaf ≡ some s' → IsConsistent capacity s'
  unfolding start_leaf
  start-IsConsistent h =
      let (g, same) = guarded _ h in
      let m = moved running in
      subst (IsConsistent capacity) same (record {
        permits_kept = λ k. ground (arith, inv.permits_kept k, m.active k);
        queued_waits = ground (arith, inv.queued_waits, m.waits);
        running_runs = ground (arith, inv.running_runs, m.runs);
        cancelled_counted = ground (arith, inv.cancelled_counted, m.counted);
        marks = omega (arith, inv.marks);
      })

  settle-IsConsistent :
      (o : Outcome T E) {s' : State K T E}
      → settle_leaf s i leaf o ≡ some s'
      → IsConsistent capacity s'
  unfolding settle_leaf
  settle-IsConsistent o h =
      let m = moved (settled o) in
      guarded_or (IsConsistent capacity)
        (is_running leaf.phase && (not (by_group o) || s.aborting leaf.group))
        (is_admitted leaf.phase && (by_group o && s.aborting leaf.group))
        {x = end_running s i leaf o} {y = with_phase s i leaf (settled o)}
        (λ g. record {
          permits_kept = λ k. ground (arith, inv.permits_kept k, m.active k);
          queued_waits = ground (arith, inv.queued_waits, m.waits);
          running_runs = ground (arith, inv.running_runs, m.runs);
          cancelled_counted = ground (arith, inv.cancelled_counted, m.counted);
          marks = omega (arith, inv.marks);
        })
        (λ g. record {
          permits_kept = λ k. ground (arith, inv.permits_kept k, m.active k);
          queued_waits = ground (arith, inv.queued_waits, m.waits);
          running_runs = ground (arith, inv.running_runs, m.runs);
          cancelled_counted = ground (arith, inv.cancelled_counted, m.counted);
          marks = omega (arith, inv.marks);
        })
        h

  release-IsConsistent :
      (p : Phase T E) {s' : State K T E}
      → leaf.phase ≡ p
      → release_leaf s i leaf p ≡ some s'
      → IsConsistent capacity s'
  unfolding release_leaf
  release-IsConsistent (settled o) was h =
      let m = moved (released o) in
      subst (IsConsistent capacity) (unwrap h) (record {
        permits_kept = λ k.
            ground (arith, inv.permits_kept k, m.active k, e.test_iff leaf.resource_key k, was);
        queued_waits = ground (arith, inv.queued_waits, m.waits, was);
        running_runs = ground (arith, inv.running_runs, m.runs, was);
        cancelled_counted = ground (arith, inv.cancelled_counted, m.counted, was);
        marks = omega (arith, inv.marks);
      })
  release-IsConsistent pending was h = absurd (cc)
  release-IsConsistent _ was h = absurd (cc)

module _ {K T E : Type 0} ⦃e : Equality K⦄ (capacity : K → ℕ) (s : State K T E)
    (inv : IsConsistent capacity s) where
  submit-IsConsistent : (keys : List K) → IsConsistent capacity (submit_group s keys)
  unfolding submit_group
  submit-IsConsistent keys =
      let fresh : List (Leaf K T E) = fresh_leaves s.groups keys in
      record {
        permits_kept = λ k. ground (
          arith,
          inv.permits_kept k,
          count-append (holds_permit k) s.leaves fresh,
          count-fresh {K = K} {T = T} {E = E} (holds_permit k) s.groups keys false
              (λ j. and_false (j == k)),
        );
        queued_waits = ground (
          arith,
          inv.queued_waits,
          count-append (λ l. is_pending l.phase) s.leaves fresh,
          count-fresh {K = K} {T = T} {E = E} (λ l. is_pending l.phase) s.groups keys true
              (λ j. refl),
        );
        running_runs = ground (
          arith,
          inv.running_runs,
          count-append (λ l. is_running l.phase) s.leaves fresh,
          count-fresh {K = K} {T = T} {E = E} (λ l. is_running l.phase) s.groups keys false
              (λ j. refl),
        );
        cancelled_counted = ground (
          arith,
          inv.cancelled_counted,
          count-append (λ l. counts_cancelled l.phase) s.leaves fresh,
          count-fresh {K = K} {T = T} {E = E} (λ l. counts_cancelled l.phase) s.groups keys false
              (λ j. refl),
        );
        marks = omega (arith, inv.marks);
      }

  drop-IsConsistent :
      (g : ℕ) {s' : State K T E} → drop_group s g ≡ some s' → IsConsistent capacity s'
  unfolding drop_group
  drop-IsConsistent g h =
      let (t, same) = guarded _ h in
      subst (IsConsistent capacity) same (record {
        permits_kept = λ k.
            ground (
              arith,
              inv.permits_kept k,
              count-drop (holds_permit k) g s.leaves (λ l. ground arith),
            );
        queued_waits = ground (arith, inv.queued_waits, count-pending_drop g s.leaves);
        running_runs = ground (
          arith,
          inv.running_runs,
          count-drop (λ l. is_running l.phase) g s.leaves (λ l. ground arith),
        );
        cancelled_counted = ground (
          arith,
          inv.cancelled_counted,
          count-drop (λ l. counts_cancelled l.phase) g s.leaves (λ l. ground arith),
        );
        marks = omega (arith, inv.marks);
      })

  at_leaf-IsConsistent :
      (i : ℕ) (f : Leaf K T E → Option (State K T E)) {s' : State K T E}
      → ((leaf : Leaf K T E)
          → get_elem? s.leaves i ≡ some leaf
          → f leaf ≡ some s'
          → IsConsistent capacity s')
      → at_leaf s i f ≡ some s'
      → IsConsistent capacity s'
  at_leaf-IsConsistent i f keep h = chained (IsConsistent capacity) (get_elem? s.leaves i) f keep h

  step-IsConsistent :
      (ev : Event K T E) {s' : State K T E} → step s ev ≡ some s' → IsConsistent capacity s'
  unfolding step
  step-IsConsistent (submit keys) h =
      subst (IsConsistent capacity) (unwrap h) (submit-IsConsistent keys)
  step-IsConsistent (admit i) h =
      at_leaf-IsConsistent i (admit_leaf s i)
        (λ leaf at. admit-IsConsistent capacity s inv i leaf at) h
  step-IsConsistent (start i) h =
      at_leaf-IsConsistent i (start_leaf s i)
        (λ leaf at. start-IsConsistent capacity s inv i leaf at) h
  step-IsConsistent (settle i o) h =
      at_leaf-IsConsistent i (λ leaf. settle_leaf s i leaf o)
        (λ leaf at. settle-IsConsistent capacity s inv i leaf at o) h
  step-IsConsistent (release i) h =
      at_leaf-IsConsistent i (λ leaf. release_leaf s i leaf leaf.phase)
        (λ leaf at. release-IsConsistent capacity s inv i leaf at leaf.phase refl) h
  step-IsConsistent (cancel_caller g) h = subst (IsConsistent capacity) (unwrap h) (record {
    permits_kept = inv.permits_kept;
    queued_waits = inv.queued_waits;
    running_runs = inv.running_runs;
    cancelled_counted = inv.cancelled_counted;
    marks = inv.marks;
  })
  step-IsConsistent (drop_pending g) h = drop-IsConsistent g h

module _ {K T E : Type 0} ⦃e : Equality K⦄ (capacity : K → ℕ) where
  pub run_from-IsConsistent :
      (evs : List (Event K T E)) (s : State K T E) {s' : State K T E}
      → IsConsistent capacity s
      → run s evs ≡ some s'
      → IsConsistent capacity s'
  unfolding run
  run_from-IsConsistent [] s inv h = subst (IsConsistent capacity) (unwrap h) inv
  run_from-IsConsistent (ev ∷ evs) s inv h =
      chained (IsConsistent capacity) (step s ev) (λ t. run t evs)
        (λ t ok rest. run_from-IsConsistent evs t (step-IsConsistent capacity s inv ev ok) rest) h

  pub new-IsConsistent : IsConsistent {T = T} {E = E} capacity (new capacity)
  unfolding new count
  new-IsConsistent = record {
    permits_kept = λ k. omega arith;
    queued_waits = refl;
    running_runs = refl;
    cancelled_counted = refl;
    marks = omega arith;
  }

  -- After any events from the start of a domain: for each resource the free permits and the tasks
  -- that hold one make up its capacity, the two counters are the numbers of the tasks that wait and
  -- that run, neither is above its high-water mark, and the cancelled tasks are counted once each.
  pub run-IsConsistent :
      (evs : List (Event K T E)) (s : State K T E)
      → run (new capacity) evs ≡ some s
      → IsConsistent capacity s
  run-IsConsistent evs s h = run_from-IsConsistent evs (new capacity) new-IsConsistent h
