-- ===== src/Runtime/Errors.antt =====
-- labelkit/runtime/scheduler.py: which exception leaves a task group and the execution domain.
pub mod Least
pub mod Selection
pub mod Terminal
use label_kit.Prelude.{
  ℕ, Bool, true, false, not, ◌&&◌, ◌||◌, Option, none, some, List, [], ◌∷◌, ◌++◌, ltb,
  if◌then◌else◌,
}
use label_kit.Prelude.Int.{ℤ, pos_part, neg_part}
use Prim.Native.Nat.{◌+◌}

-- a < b on integers, and on tuples of them: lexicographic, a proper prefix first.
abbrev pub ltb_ℤ : ℤ → ℤ → Bool
ltb_ℤ a b = ltb (pos_part a + neg_part b) (pos_part b + neg_part a)

unfoldable pub key_lt : List ℤ → List ℤ → Bool
key_lt [] [] = false
key_lt [] (y ∷ ys) = true
key_lt (x ∷ xs) [] = false
key_lt (x ∷ xs) (y ∷ ys) =
    let rest = key_lt xs ys in if ltb_ℤ x y then true else if ltb_ℤ y x then false else rest

-- The stable identity of a task's exception, with the exception.
pub record Entry (E : Type 0) : Type 0 where
  pub declaration_key : List ℤ
  pub error : E

-- The exceptions that a task group meets: the three internal carriers, a structural cancellation
-- (asyncio.CancelledError) and any other.
pub data GroupError (E : Type 0) : Type 0 where
  leaf_failure leaf_cancellation leaf_control : Entry E → GroupError E
  cancelled_error : GroupError E
  ordinary : E → GroupError E

mutual
  -- BaseExceptionGroup
  pub data ErrorTree (E : Type 0) : Type 0 where
    leaf : GroupError E → ErrorTree E
    group : ErrorForest E → ErrorTree E

  pub data ErrorForest (E : Type 0) : Type 0 where
    nil : ErrorForest E
    cons : ErrorTree E → ErrorForest E → ErrorForest E

unfoldable mutual
  pub flatten_tree : {E : Type 0} → ErrorTree E → List (GroupError E)
  flatten_tree (leaf e) = e ∷ []
  flatten_tree (group es) = flatten_group es

  pub flatten_group : {E : Type 0} → ErrorForest E → List (GroupError E)
  flatten_group nil = []
  flatten_group (cons t ts) = flatten_tree t ++ flatten_group ts

-- What is raised: an exception of the program, an internal carrier of one, or a cancellation.
pub data Raised (E : Type 0) : Type 0 where
  error : E → Raised E
  carrier : Entry E → Raised E
  cancelled : Raised E

-- The four lists of `_unwrap_group`.
pub record Sorted (E : Type 0) : Type 0 where
  pub entries : List (Entry E)
  pub cancellations : List (Entry E)
  pub controls : List (Entry E)
  pub ordinaries : List E

module _ {E : Type 0} where
  -- min(entries, key=declaration_key): the first of the least entries.
  unfoldable pub min_from : Entry E → List (Entry E) → Entry E
  min_from best [] = best
  min_from best (x ∷ xs) =
      min_from (if key_lt x.declaration_key best.declaration_key then x else best) xs

  unfoldable pub min_entry : List (Entry E) → Option (Entry E)
  min_entry [] = none
  min_entry (x ∷ xs) = some (min_from x xs)

  abbrev pub nothing_sorted : Sorted E
  nothing_sorted = record { entries = []; cancellations = []; controls = []; ordinaries = [] }

  -- The loop of `_unwrap_group`, which appends to four lists.
  unfoldable pub sort_error : Sorted E → GroupError E → Sorted E
  sort_error s (leaf_failure e) = record s { entries = s.entries ++ (e ∷ []) }
  sort_error s (leaf_cancellation e) = record s { cancellations = s.cancellations ++ (e ∷ []) }
  sort_error s (leaf_control e) = record s { controls = s.controls ++ (e ∷ []) }
  sort_error s cancelled_error = s
  sort_error s (ordinary e) = record s { ordinaries = s.ordinaries ++ (e ∷ []) }

  unfoldable pub sort_errors : Sorted E → List (GroupError E) → Sorted E
  sort_errors s [] = s
  sort_errors s (e ∷ es) = sort_errors (sort_error s e) es

  abbrev pub or_raise : Option (Entry E) → Raised E → Raised E
  or_raise none r = r
  or_raise (some e) r = error e.error

  abbrev pub first_ordinary : List E → Raised E
  first_ordinary [] = cancelled
  first_ordinary (e ∷ es) = error e

  unfoldable pub unwrap_group : ErrorForest E → Raised E
  unwrap_group g =
      let s = sort_errors nothing_sorted (flatten_group g) in
      or_raise (min_entry s.cancellations) (
        or_raise (min_entry s.entries)
          (or_raise (min_entry s.controls) (first_ordinary s.ordinaries)))

-- What the workflow ended with, if it raised: a cancellation, KeyboardInterrupt or SystemExit; a group
-- of exceptions; or another exception.
pub data Primary (E : Type 0) : Type 0 where
  control : Raised E → Primary E
  grouped : ErrorForest E → Primary E
  plain : E → Primary E

module _ {E : Type 0} where
  abbrev pub raised : GroupError E → Raised E
  raised (leaf_failure e) = carrier e
  raised (leaf_cancellation e) = carrier e
  raised (leaf_control e) = carrier e
  raised cancelled_error = cancelled
  raised (ordinary e) = error e

  -- errors[0] of those that are no cancellation
  unfoldable pub first_error : List (GroupError E) → Raised E
  first_error [] = cancelled
  first_error (cancelled_error ∷ es) = first_error es
  first_error (e ∷ es) = raised e

  unfoldable pub raise_primary : Option (Primary E) → Option (Raised E)
  raise_primary none = none
  raise_primary (some (control r)) = some r
  raise_primary (some (grouped g)) = some (first_error (flatten_group g))
  raise_primary (some (plain e)) = some (error e)

  abbrev pub or_entries : Option (Entry E) → Option (Raised E) → Option (Raised E)
  or_entries none r = r
  or_entries (some e) r = some (error e.error)

  -- `none` is a return without an exception.
  unfoldable pub raise_terminal :
      List (Entry E) → List (Entry E) → Option (Primary E) → Option (Raised E)
  raise_terminal cancellation_entries fatal_entries (some (control r)) = some r
  raise_terminal cancellation_entries fatal_entries primary =
      or_entries (min_entry cancellation_entries)
        (or_entries (min_entry fatal_entries) (raise_primary primary))
