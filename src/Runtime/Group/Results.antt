-- ===== src/Runtime/Group/Results.antt =====
-- scheduler.py, run_group: the places of the results.
use label_kit.Prelude.{
  ℕ, zero, suc, ◌≡◌, refl, ap, sym, ◌∙◌, subst, not, ◌&&◌, ◌||◌, Option, none, some, List, [], ◌∷◌,
  ◌++◌, map, arith, get_elem?, set, Equality,
}
use mathlib.Core.List.{map-append}
use label_kit.Runtime.Group.{
  Leaf, Phase, pending, admitted, running, settled, released, Outcome, returned, State, Event,
  submit, admit, start, settle, release, cancel_caller, drop_pending, is_running, is_admitted,
  by_group, stored, missing, fresh_leaves, drop_leaf, admit_leaf, start_leaf, end_running,
  with_phase, settle_leaf, release_leaf, submit_group, drop_group, step, run, new,
}
use label_kit.Runtime.Group.Counts.{unwrap, guarded, guarded_or, chained}

module _ {T E : Type 0} where
  abbrev pub value_of : Outcome T E → Option T
  value_of (returned v) = some v
  value_of _ = none

  -- The value of a task that has ended with one.
  abbrev pub result_of : Phase T E → Option T
  result_of (settled o) = value_of o
  result_of (released o) = value_of o
  result_of _ = none

module _ {K T E : Type 0} ⦃e : Equality K⦄ where
  abbrev pub task_results : List (Leaf K T E) → List (Option T)
  task_results ls = map (λ l. result_of l.phase) ls

  results-set_same :
      (ls : List (Leaf K T E)) (i : ℕ) (leaf : Leaf K T E) (p : Phase T E)
      → get_elem? ls i ≡ some leaf
      → result_of p ≡ result_of leaf.phase
      → task_results (set ls i (record leaf { phase = p })) ≡ task_results ls
  results-set_same [] i leaf p h same = refl
  results-set_same (l ∷ ls) zero leaf p h same =
      ap (λ r. r ∷ task_results ls)
        (same ∙ ap (λ (x : Leaf K T E). result_of x.phase) (sym (unwrap h)))
  results-set_same (l ∷ ls) (suc i) leaf p h same =
      ap (λ r. result_of l.phase ∷ r) (results-set_same ls i leaf p h same)

  results-set :
      (ls : List (Leaf K T E)) (i : ℕ) (l : Leaf K T E)
      → task_results (set ls i l) ≡ set (task_results ls) i (result_of l.phase)
  results-set [] i l = refl
  results-set (x ∷ ls) zero l = refl
  results-set (x ∷ ls) (suc i) l = ap (λ r. result_of x.phase ∷ r) (results-set ls i l)

  result-drop : (g : ℕ) (l : Leaf K T E) → result_of (drop_leaf g l).phase ≡ result_of l.phase
  result-drop g l = ground arith

  results-drop :
      (g : ℕ) (ls : List (Leaf K T E)) → task_results (map (drop_leaf g) ls) ≡ task_results ls
  results-drop g [] = refl
  results-drop g (l ∷ ls) = rw (result-drop g l, results-drop g ls)

  abbrev pub HoldsResults : State K T E → Type 0
  HoldsResults s = s.results ≡ task_results s.leaves

results-fresh :
    {K T : Type 0} ⦃e : Equality K⦄ (E : Type 0) (g : ℕ) (ks : List K)
    → task_results {K = K} {T = T} {E = E} (fresh_leaves g ks) ≡ missing ks
results-fresh E g [] = refl
results-fresh E g (k ∷ ks) = ap (λ r. none ∷ r) (results-fresh E g ks)

module _ {K T E : Type 0} ⦃e : Equality K⦄ (s : State K T E) (inv : HoldsResults s) where
  module _ (i : ℕ) (leaf : Leaf K T E) (at : get_elem? s.leaves i ≡ some leaf) where
    admit-HoldsResults : {s' : State K T E} → admit_leaf s i leaf ≡ some s' → HoldsResults s'
    unfolding admit_leaf
    admit-HoldsResults h =
        let (g, same) = guarded _ h in
        subst HoldsResults same
          (inv ∙ sym (results-set_same s.leaves i leaf admitted at (ground arith)))

    start-HoldsResults : {s' : State K T E} → start_leaf s i leaf ≡ some s' → HoldsResults s'
    unfolding start_leaf
    start-HoldsResults h =
        let (g, same) = guarded _ h in
        subst HoldsResults same
          (inv ∙ sym (results-set_same s.leaves i leaf running at (ground arith)))

    ended :
        (o : Outcome T E)
        → result_of leaf.phase ≡ none
        → stored s.results i o ≡ task_results (set s.leaves i (record leaf { phase = settled o }))
    ended (returned v) was =
        ap (λ r. set r i (some v)) inv
        ∙ sym (results-set s.leaves i (record leaf { phase = settled (returned v) }))
    ended o was = inv ∙ sym (results-set_same s.leaves i leaf (settled o) at (sym was))

    settle-HoldsResults :
        (o : Outcome T E) {s' : State K T E} → settle_leaf s i leaf o ≡ some s' → HoldsResults s'
    unfolding settle_leaf
    settle-HoldsResults o h =
        guarded_or HoldsResults
          (is_running leaf.phase && (not (by_group o) || s.aborting leaf.group))
          (is_admitted leaf.phase && (by_group o && s.aborting leaf.group))
          {x = end_running s i leaf o} {y = with_phase s i leaf (settled o)}
          (λ g. ended o (ground arith))
          (λ g. inv ∙ sym (results-set_same s.leaves i leaf (settled o) at (ground arith))) h

    release-HoldsResults :
        (p : Phase T E) {s' : State K T E}
        → leaf.phase ≡ p
        → release_leaf s i leaf p ≡ some s'
        → HoldsResults s'
    unfolding release_leaf
    release-HoldsResults (settled o) was h =
        subst HoldsResults (unwrap h)
          (inv ∙ sym (results-set_same s.leaves i leaf (released o) at (ground (arith, was))))
    release-HoldsResults pending was h = absurd (cc)
    release-HoldsResults _ was h = absurd (cc)

  step-HoldsResults : (ev : Event K T E) {s' : State K T E} → step s ev ≡ some s' → HoldsResults s'
  unfolding step submit_group drop_group
  step-HoldsResults (submit keys) h = subst HoldsResults (unwrap h) (
      ap (λ r. r ++ missing keys) inv
      ∙ ap (λ r. task_results s.leaves ++ r) (sym (results-fresh E s.groups keys))
      ∙ sym (
          map-append (λ (l : Leaf K T E). result_of l.phase) s.leaves (fresh_leaves s.groups keys)))
  step-HoldsResults (admit i) h =
      chained HoldsResults (get_elem? s.leaves i) (admit_leaf s i)
        (λ leaf at. admit-HoldsResults i leaf at) h
  step-HoldsResults (start i) h =
      chained HoldsResults (get_elem? s.leaves i) (start_leaf s i)
        (λ leaf at. start-HoldsResults i leaf at) h
  step-HoldsResults (settle i o) h =
      chained HoldsResults (get_elem? s.leaves i) (λ leaf. settle_leaf s i leaf o)
        (λ leaf at. settle-HoldsResults i leaf at o) h
  step-HoldsResults (release i) h =
      chained HoldsResults (get_elem? s.leaves i) (λ leaf. release_leaf s i leaf leaf.phase)
        (λ leaf at. release-HoldsResults i leaf at leaf.phase refl) h
  step-HoldsResults (cancel_caller g) h = subst HoldsResults (unwrap h) inv
  step-HoldsResults (drop_pending g) h =
      let (t, same) = guarded _ h in subst HoldsResults same (inv ∙ sym (results-drop g s.leaves))

module _ {K T E : Type 0} ⦃e : Equality K⦄ where
  run_from-HoldsResults :
      (evs : List (Event K T E)) (s : State K T E) {s' : State K T E}
      → HoldsResults s
      → run s evs ≡ some s'
      → HoldsResults s'
  unfolding run
  run_from-HoldsResults [] s inv h = subst HoldsResults (unwrap h) inv
  run_from-HoldsResults (ev ∷ evs) s inv h =
      chained HoldsResults (step s ev) (λ t. run t evs)
        (λ t ok rest. run_from-HoldsResults evs t (step-HoldsResults s inv ev ok) rest) h

  -- After any events, in whatever order the tasks were admitted and ended: at the place of each task
  -- stands its value if it has ended with one, and no result if it has not.
  pub run-HoldsResults :
      (capacity : K → ℕ) (evs : List (Event K T E)) (s : State K T E)
      → run (new capacity) evs ≡ some s
      → HoldsResults s
  unfolding new
  run-HoldsResults capacity evs s h = run_from-HoldsResults evs (new capacity) refl h
