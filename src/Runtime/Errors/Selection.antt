-- ===== src/Runtime/Errors/Selection.antt =====
-- scheduler.py, _unwrap_group: a specification of the selected exception.
use label_kit.Prelude.{◌≡◌, ◌⊎◌, refl, inl, inr, Option, none, some, List, [], ◌∷◌, ◌++◌}
use mathlib.Core.List.{Permᴰ, append_assoc, append-nil, filter_map}
use mathlib.Core.List.Permᴰ
use label_kit.Runtime.Errors.{
  Entry, GroupError, leaf_failure, leaf_cancellation, leaf_control, cancelled_error, ordinary,
  ErrorForest, flatten_group, Raised, error, cancelled, min_from, min_entry, Sorted, nothing_sorted,
  sort_error, sort_errors, or_raise, first_ordinary, unwrap_group,
}
use label_kit.Runtime.Errors.Least.{IsMin, min_from-IsMin, HasDistinctKeys, min_entry_perm}

snoc_append : {A : Type 0} (l : List A) (x : A) (m : List A) → (l ++ (x ∷ [])) ++ m ≡ l ++ (x ∷ m)
snoc_append l x m = append_assoc l (x ∷ []) m

module _ {E : Type 0} where
  -- The exceptions of each kind.
  unfoldable pub failure_of : GroupError E → Option (Entry E)
  failure_of (leaf_failure e) = some e
  failure_of (leaf_cancellation e) = none
  failure_of (leaf_control e) = none
  failure_of cancelled_error = none
  failure_of (ordinary e) = none

  unfoldable pub cancellation_of : GroupError E → Option (Entry E)
  cancellation_of (leaf_failure e) = none
  cancellation_of (leaf_cancellation e) = some e
  cancellation_of (leaf_control e) = none
  cancellation_of cancelled_error = none
  cancellation_of (ordinary e) = none

  unfoldable pub control_of : GroupError E → Option (Entry E)
  control_of (leaf_failure e) = none
  control_of (leaf_cancellation e) = none
  control_of (leaf_control e) = some e
  control_of cancelled_error = none
  control_of (ordinary e) = none

  unfoldable pub ordinary_of : GroupError E → Option E
  ordinary_of (leaf_failure e) = none
  ordinary_of (leaf_cancellation e) = none
  ordinary_of (leaf_control e) = none
  ordinary_of cancelled_error = none
  ordinary_of (ordinary e) = some e

  -- The lists of `_unwrap_group` after the loop, each extended in the order of arrival.
  extended : Sorted E → List (GroupError E) → Sorted E
  extended s es = record {
    entries = s.entries ++ filter_map failure_of es;
    cancellations = s.cancellations ++ filter_map cancellation_of es;
    controls = s.controls ++ filter_map control_of es;
    ordinaries = s.ordinaries ++ filter_map ordinary_of es;
  }

  sort_errors_lem : (s : Sorted E) (es : List (GroupError E)) → sort_errors s es ≡ extended s es
  unfolding sort_errors sort_error extended failure_of cancellation_of control_of ordinary_of
      filter_map
  sort_errors_lem s [] = cc (
    append-nil s.entries,
    append-nil s.cancellations,
    append-nil s.controls,
    append-nil s.ordinaries,
  )
  sort_errors_lem s (leaf_failure e ∷ es) =
      rw (sort_errors_lem (sort_error s (leaf_failure e)) es, snoc_append s.entries e) refl
  sort_errors_lem s (leaf_cancellation e ∷ es) =
      rw (sort_errors_lem (sort_error s (leaf_cancellation e)) es, snoc_append s.cancellations e)
        refl
  sort_errors_lem s (leaf_control e ∷ es) =
      rw (sort_errors_lem (sort_error s (leaf_control e)) es, snoc_append s.controls e) refl
  sort_errors_lem s (cancelled_error ∷ es) = sort_errors_lem s es
  sort_errors_lem s (ordinary e ∷ es) =
      rw (sort_errors_lem (sort_error s (ordinary e)) es, snoc_append s.ordinaries e) refl

  -- What a group of exceptions raises: the cancellation of the least key; without one the failure of
  -- the least key; without one the control exception of the least key; without one the first
  -- ordinary exception; and without any of them a cancellation.
  pub data IsSelected (es : List (GroupError E)) : Raised E → Type 0 where
    by_cancellation :
        {e : Entry E} → IsMin (filter_map cancellation_of es) e → IsSelected es (error e.error)
    by_failure :
        {e : Entry E}
        → filter_map cancellation_of es ≡ []
        → IsMin (filter_map failure_of es) e
        → IsSelected es (error e.error)
    by_control :
        {e : Entry E}
        → filter_map cancellation_of es ≡ []
        → filter_map failure_of es ≡ []
        → IsMin (filter_map control_of es) e
        → IsSelected es (error e.error)
    by_ordinary :
        {e : E} {later : List E}
        → filter_map cancellation_of es ≡ []
        → filter_map failure_of es ≡ []
        → filter_map control_of es ≡ []
        → filter_map ordinary_of es ≡ e ∷ later
        → IsSelected es (error e)
    by_nothing :
        filter_map cancellation_of es ≡ []
        → filter_map failure_of es ≡ []
        → filter_map control_of es ≡ []
        → filter_map ordinary_of es ≡ []
        → IsSelected es cancelled

  -- The list is empty and has no least entry, or has one.
  pub min_entry_cases :
      (l : List (Entry E))
      → ((l ≡ []) × (min_entry l ≡ none)) ⊎ ((e : Entry E) × IsMin l e × (min_entry l ≡ some e))
  unfolding min_entry
  min_entry_cases [] = inl (refl, refl)
  min_entry_cases (x ∷ xs) = inr (min_from x xs, min_from-IsMin x xs, refl)

  ordinary_cases : (l : List E) → (l ≡ []) ⊎ ((e : E) × (later : List E) × (l ≡ e ∷ later))
  ordinary_cases [] = inl refl
  ordinary_cases (e ∷ es) = inr (e, es, refl)

  unwrap_group_lem :
      (g : ErrorForest E)
      → unwrap_group g
        ≡ or_raise (min_entry (filter_map cancellation_of (flatten_group g))) (
            or_raise (min_entry (filter_map failure_of (flatten_group g))) (
              or_raise
                (min_entry (filter_map control_of (flatten_group g)))
                (first_ordinary (filter_map ordinary_of (flatten_group g)))))
  unfolding unwrap_group extended
  unwrap_group_lem g = rw (sort_errors_lem nothing_sorted (flatten_group g)) refl

  -- Whatever the nesting of the group and the order of its exceptions, what `unwrap_group` raises is
  -- the one that the priorities select: a cancellation before a failure, a failure before a control
  -- exception, all by the least key, and then the first ordinary exception.
  pub unwrap_group-IsSelected : (g : ErrorForest E) → IsSelected (flatten_group g) (unwrap_group g)
  unwrap_group-IsSelected g =
      rw (unwrap_group_lem g)
        (elim (min_entry_cases (filter_map cancellation_of (flatten_group g))) [
          | inr (e, h, q) ↦ rw q (by_cancellation h)
          | inl (no_c, c) ↦ rw c (elim (min_entry_cases (filter_map failure_of (flatten_group g))) [
            | inr (e, h, q) ↦ rw q (by_failure no_c h)
            | inl (no_f, f) ↦
                rw f (elim (min_entry_cases (filter_map control_of (flatten_group g))) [
                  | inr (e, h, q) ↦ rw q (by_control no_c no_f h)
                  | inl (no_d, d) ↦
                      rw d (elim (ordinary_cases (filter_map ordinary_of (flatten_group g))) [
                        | inr (e, later, q) ↦ rw q (by_ordinary no_c no_f no_d q)
                        | inl q ↦ rw q (by_nothing no_c no_f no_d q)
                      ])
                ])
          ])
        ])

  -- Two groups with the same exceptions in any order and nesting, where in each kind two entries of
  -- one key are one entry and the ordinary exceptions come in one order, raise the same.
  pub unwrap_group-Reordered :
      (g h : ErrorForest E)
      → Permᴰ (flatten_group g) (flatten_group h)
      → HasDistinctKeys (filter_map cancellation_of (flatten_group g))
      → HasDistinctKeys (filter_map failure_of (flatten_group g))
      → HasDistinctKeys (filter_map control_of (flatten_group g))
      → filter_map ordinary_of (flatten_group g) ≡ filter_map ordinary_of (flatten_group h)
      → unwrap_group g ≡ unwrap_group h
  unwrap_group-Reordered g h d c f k o =
      rw
        (
          unwrap_group_lem g,
          unwrap_group_lem h,
          min_entry_perm _ _ c (Permᴰ.filter_map cancellation_of d),
          min_entry_perm _ _ f (Permᴰ.filter_map failure_of d),
          min_entry_perm _ _ k (Permᴰ.filter_map control_of d),
          o,
        )
        refl
