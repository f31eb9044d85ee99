-- ===== src/Runtime/Group/Progress.antt =====
-- scheduler.py, run_group: the events that are possible in a reachable state.
use label_kit.Prelude.{
  ℕ, suc, ◌+◌, ◌-◌, ◌≤◌, ◌≡◌, refl, ap, sym, ◌∙◌, ◌⊎◌, inl, inr, Bool, true, false, Option, none,
  some, List, [], ◌∷◌, arith, get_elem?, ltb, Equality, All, Bool-cases,
}
use label_kit.Runtime.Group.{
  Leaf, Phase, pending, admitted, running, dropped, settled, released, Outcome, State, Event, admit,
  start, settle, release, is_pending, is_active, is_over, by_group, count, lane_clear, at_leaf,
  with_phase, with_running, with_permits, with_queued, bump, end_running, admit_leaf, start_leaf,
  settle_leaf, release_leaf, step, run, new,
}
use label_kit.Runtime.Group.Invariant.{holds_permit, IsConsistent, run-IsConsistent}

module _ {K T E : Type 0} ⦃e : Equality K⦄ where
  -- A task with a permit, or none holds one.
  pub record Found (p : Phase T E → Bool) (ls : List (Leaf K T E)) : Type 0 where
    pub place : ℕ
    pub leaf : Leaf K T E
    pub at : get_elem? ls place ≡ some leaf
    pub holds : p leaf.phase ≡ true
    pub first :
        (l : Leaf K T E) → ((q : Phase T E) → p q ≡ is_pending q) → lane_clear l place ls ≡ true

  abbrev None : (Phase T E → Bool) → List (Leaf K T E) → Type 0
  None p ls = All (λ l. p l.phase ≡ false) ls

  clear-cons :
      (m l : Leaf K T E) (i : ℕ) (ls : List (Leaf K T E))
      → is_pending l.phase ≡ false
      → lane_clear m i ls ≡ true
      → lane_clear m (suc i) (l ∷ ls) ≡ true
  unfolding lane_clear
  clear-cons m l i ls h k = ground arith

  search_leaf : (p : Phase T E → Bool) (ls : List (Leaf K T E)) → Found p ls ⊎ None p ls
  search_leaf p [] = inr tt
  search_leaf p (l ∷ ls) = elim (Bool-cases (p l.phase)) [
    | inl h ↦ inl (record {
      place = 0;
      leaf = l;
      at = refl;
      holds = h;
      first = λ _ _. unfold lane_clear in refl;
    })
    | inr absent ↦ elim (search_leaf p ls) [
      | inl f ↦ inl (record {
        place = suc f.place;
        leaf = f.leaf;
        at = f.at;
        holds = f.holds;
        first = λ m same. clear-cons m l f.place ls (sym (same l.phase) ∙ absent) (f.first m same);
      })
      | inr none_there ↦ inr (absent, none_there)
    ]
  ]

  idle_permits :
      (k : K) (ls : List (Leaf K T E)) → None is_active ls → count (holds_permit k) ls ≡ 0
  unfolding count
  idle_permits k [] h = refl
  idle_permits k (l ∷ ls) h = let r = idle_permits k ls h.1 in ground (arith, r, h.0)

  -- An event of a task, not one of a caller.
  abbrev pub moves_task : Event K T E → Bool
  moves_task (admit i) = true
  moves_task (start i) = true
  moves_task (settle i o) = true
  moves_task (release i) = true
  moves_task _ = false

  abbrev pub CanMove : State K T E → Type 0
  CanMove s =
      (ev : Event K T E) × (s' : State K T E) × (moves_task ev ≡ true) × (step s ev ≡ some s')

over_phase :
    {T E : Type 0} (p : Phase T E) → is_active p ≡ false → is_pending p ≡ false → is_over p ≡ true
over_phase (released o) a w = refl
over_phase dropped a w = refl
over_phase pending a w = cc
over_phase _ a w = cc

module _ {K T E : Type 0} ⦃e : Equality K⦄ (s : State K T E) (i : ℕ) (leaf : Leaf K T E)
    (at : get_elem? s.leaves i ≡ some leaf) where
  at_leaf_lem : (f : Leaf K T E → Option (State K T E)) → at_leaf s i f ≡ f leaf
  at_leaf_lem f = ap (λ o. elim o [ none ↦ none | some l ↦ f l ]) at

  -- A task with a permit can go on: the operation of a running one ends in some way by itself.
  active_moves :
      (o : Outcome T E)
      → by_group o ≡ false
      → (p : Phase T E) → leaf.phase ≡ p
      → is_active p ≡ true
      → CanMove s
  unfolding step start_leaf settle_leaf release_leaf
  active_moves o own admitted was h = (
    start i,
    with_phase (with_running s (s.running_count + 1)) i leaf running,
    refl,
    at_leaf_lem (start_leaf s i) ∙ rw was,
  )
  active_moves o own running was h = (
    settle i o,
    end_running s i leaf o,
    refl,
    at_leaf_lem (λ l. settle_leaf s i l o) ∙ rw (was, own),
  )
  active_moves o own (settled r) was h = (
    release i,
    with_phase
        (with_permits (record s { cancelled_tasks = bump (by_group r) s.cancelled_tasks })
          leaf.resource_key (s.permits leaf.resource_key + 1))
        i leaf (released r),
    refl,
    at_leaf_lem (λ l. release_leaf s i l l.phase) ∙ rw was,
  )
  active_moves o own _ was h = absurd (cc)

  waiting_moves :
      leaf.phase ≡ pending
      → 1 ≤ s.permits leaf.resource_key
      → lane_clear leaf i s.leaves ≡ true
      → CanMove s
  unfolding step admit_leaf
  waiting_moves was free clear =
      let k = leaf.resource_key in
      let has : ltb 0 (s.permits k) ≡ true = ground arith in
      (
        admit i,
        with_phase (with_queued (with_permits s k (s.permits k - 1)) (s.queued - 1)) i leaf
            admitted,
        refl,
        at_leaf_lem (admit_leaf s i) ∙ rw (has, clear, was),
      )

module _ {K T E : Type 0} ⦃e : Equality K⦄ (capacity : K → ℕ) (s : State K T E)
    (inv : IsConsistent capacity s) (roomy : (k : K) → 1 ≤ capacity k) where
  consistent_moves :
      (o : Outcome T E)
      → by_group o ≡ false
      → CanMove s ⊎ All (λ l. is_over l.phase ≡ true) s.leaves
  consistent_moves o own = elim (search_leaf is_active s.leaves) [
    | inl f ↦ inl (active_moves s f.place f.leaf f.at o own f.leaf.phase refl f.holds)
    | inr idle ↦ elim (search_leaf is_pending s.leaves) [
      | inl f ↦ inl (
          waiting_moves s f.place f.leaf f.at (ground (arith, f.holds))
            (let k = f.leaf.resource_key in
              omega (arith, inv.permits_kept k, idle_permits k s.leaves idle, roomy k))
            (f.first f.leaf (λ q. refl)))
      | inr none_waits ↦ inr (all_over s.leaves idle none_waits)
    ]
  ]
    where
      all_over :
          (ls : List (Leaf K T E))
          → All (λ l. is_active l.phase ≡ false) ls
          → All (λ l. is_pending l.phase ≡ false) ls
          → All (λ l. is_over l.phase ≡ true) ls
      all_over [] a w = tt
      all_over (l ∷ ls) a w = (over_phase l.phase a.0 w.0, all_over ls a.1 w.1)

-- Every resource has a capacity of at least 1. After any events, either each task is over, with its
-- permit returned, or some task can move on; a running task is taken to end in some way by itself.
pub run-moves :
    {K T E : Type 0} ⦃e : Equality K⦄ (capacity : K → ℕ) (evs : List (Event K T E))
    (s : State K T E) (o : Outcome T E)
    → ((k : K) → 1 ≤ capacity k)
    → by_group o ≡ false
    → run (new capacity) evs ≡ some s
    → CanMove s ⊎ All (λ l. is_over l.phase ≡ true) s.leaves
run-moves capacity evs s o roomy own h =
    consistent_moves capacity s (run-IsConsistent capacity evs s h) roomy o own
