-- ===== src/Runtime/Errors/Terminal.antt =====
-- scheduler.py, _raise_terminal and _raise_primary: a specification of how an execution domain ends.
use label_kit.Prelude.{◌≡◌, ◌⊎◌, refl, inl, inr, ap, Option, none, some, List, [], ◌∷◌, ◌++◌, All}
use label_kit.Runtime.Errors.{
  Primary, control, grouped, plain, raise_terminal, raise_primary, first_error, raised, Entry,
  GroupError, leaf_failure, leaf_cancellation, leaf_control, cancelled_error, ordinary, ErrorForest,
  flatten_group, Raised, error, cancelled, min_entry, or_entries,
}
use label_kit.Runtime.Errors.Least.{IsMin}
use label_kit.Runtime.Errors.Selection.{min_entry_cases}

module _ {E : Type 0} where
  -- The first exception of a group that is no cancellation.
  abbrev pub IsFirstError : List (GroupError E) → Raised E → Type 0
  IsFirstError es r =
      (All (λ x. x ≡ cancelled_error) es × (r ≡ cancelled))
      ⊎ ((before : List (GroupError E)) × (x : GroupError E) × (after : List (GroupError E)) × (es
            ≡ before ++ (x ∷ after))
          × All (λ y. y ≡ cancelled_error) before
          × (¬ (x ≡ cancelled_error))
          × (r ≡ raised x))

  -- How a domain ends, by the entries of its tasks and by what the workflow raised.
  pub data IsEnd (cs fs : List (Entry E)) (primary : Option (Primary E))
      : Option (Raised E) → Type 0 where
    by_control : (r : Raised E) → primary ≡ some (control r) → IsEnd cs fs primary (some r)
    by_cancellation :
        (e : Entry E)
        → ((r : Raised E) → ¬ (primary ≡ some (control r)))
        → IsMin cs e
        → IsEnd cs fs primary (some (error e.error))
    by_fatal :
        (e : Entry E)
        → ((r : Raised E) → ¬ (primary ≡ some (control r)))
        → cs ≡ []
        → IsMin fs e
        → IsEnd cs fs primary (some (error e.error))
    by_group :
        (g : ErrorForest E) (r : Raised E)
        → primary ≡ some (grouped g)
        → cs ≡ []
        → fs ≡ []
        → IsFirstError (flatten_group g) r
        → IsEnd cs fs primary (some r)
    by_plain :
        (e : E)
        → primary ≡ some (plain e)
        → cs ≡ []
        → fs ≡ []
        → IsEnd cs fs primary (some (error e))
    in_peace : primary ≡ none → cs ≡ [] → fs ≡ [] → IsEnd cs fs primary none

  one_error :
      (x : GroupError E) (es : List (GroupError E))
      → ¬ (x ≡ cancelled_error)
      → IsFirstError (x ∷ es) (raised x)
  one_error x es n = inr ([], x, es, refl, tt, n, refl)

  first_error-IsFirstError : (es : List (GroupError E)) → IsFirstError es (first_error es)
  unfolding first_error
  first_error-IsFirstError [] = inl (tt, refl)
  first_error-IsFirstError (leaf_failure e ∷ es) = one_error (leaf_failure e) es (λ q. cc)
  first_error-IsFirstError (leaf_cancellation e ∷ es) = one_error (leaf_cancellation e) es (λ q. cc)
  first_error-IsFirstError (leaf_control e ∷ es) = one_error (leaf_control e) es (λ q. cc)
  first_error-IsFirstError (ordinary e ∷ es) = one_error (ordinary e) es (λ q. cc)
  first_error-IsFirstError (cancelled_error ∷ es) = elim (first_error-IsFirstError es) [
    | inl (a, q) ↦ inl ((refl, a), q)
    | inr (before, x, after, q, a, n, r) ↦
        inr (cancelled_error ∷ before, x, after, ap (λ l. cancelled_error ∷ l) q, (refl, a), n, r)
  ]

  -- Without a control exception: the tasks' entries come before what the workflow raised.
  by_entries :
      (cs fs : List (Entry E)) (primary : Option (Primary E))
      → ((r : Raised E) → ¬ (primary ≡ some (control r)))
      → (cs ≡ [] → fs ≡ [] → IsEnd cs fs primary (raise_primary primary))
      → IsEnd cs fs primary
          (or_entries (min_entry cs) (or_entries (min_entry fs) (raise_primary primary)))
  by_entries cs fs primary n rest = elim (min_entry_cases cs) [
    | inr (e, h, q) ↦ rw q (by_cancellation e n h)
    | inl (no_c, q) ↦ rw q (elim (min_entry_cases fs) [
      | inr (e, h, q') ↦ rw q' (by_fatal e n no_c h)
      | inl (no_f, q') ↦ rw q' (rest no_c no_f)
    ])
  ]

  -- A domain ends with the control exception of the workflow, if there is one; else with the error of
  -- the least key among the cancellations; without one, with the one of the least key among the fatal
  -- errors; without one, with what the workflow raised, where a group raises the first of its
  -- exceptions, in its own order, that is no cancellation, or a cancellation; and it returns without
  -- an exception only if there is none of all these.
  pub raise_terminal-IsEnd :
      (cs fs : List (Entry E)) (primary : Option (Primary E))
      → IsEnd cs fs primary (raise_terminal cs fs primary)
  unfolding raise_terminal raise_primary
  raise_terminal-IsEnd cs fs none = by_entries cs fs none (λ r q. cc) (λ c f. in_peace refl c f)
  raise_terminal-IsEnd cs fs (some (control r)) = by_control r refl
  raise_terminal-IsEnd cs fs (some (grouped g)) =
      by_entries cs fs (some (grouped g)) (λ r q. cc)
        (λ c f. by_group g _ refl c f (first_error-IsFirstError (flatten_group g)))
  raise_terminal-IsEnd cs fs (some (plain e)) =
      by_entries cs fs (some (plain e)) (λ r q. cc) (λ c f. by_plain e refl c f)
