-- ===== src/Runtime/Examples.antt =====
-- labelkit/runtime: the theorems at concrete values.
use label_kit.Prelude.{
  ℕ, ◌≡◌, refl, sym, ◌∙◌, ◌⊎◌, Bool, true, Option, none, some, List, [], ◌∷◌, String, arith, All,
  nat_eq, string_eq,
}
use mathlib.Core.List.{Memᴰ, Permᴰ, filter_map}
use label_kit.Prelude.Int.{pos}
use label_kit.Prelude.Dict.{is_in, Dict, get, put}
use label_kit.Runtime.Keys.{ResourceKey, HttpOrigin, key_eq, origin_eq, TaskSpec, ok}
use label_kit.Runtime.Resources.{
  ResourceManager, validate, validate_each, valid_origin, valid_resource_key, has_keys,
  sum_origin_capacities,
}
use label_kit.Runtime.Resources as Resources
use label_kit.Runtime.Resources.Totals.{IsBalanced, new-IsBalanced}
use label_kit.Runtime.Intake.{
  Registry, validate_and_group, group_from, add_task, validate_spec, well_formed,
}
use label_kit.Runtime.Intake.Lanes.{IsPlanned, validate_and_group-IsPlanned}
use label_kit.Runtime.Group.{
  State, Event, submit, admit, start, settle, release, returned, failed, Outcome, run, step, count,
  lane_clear, is_over, admit_leaf, start_leaf, settle_leaf, release_leaf, submit_group, drop_group,
  by_group,
}
use label_kit.Runtime.Group as Group
use label_kit.Runtime.Group.Invariant.{IsConsistent, run-IsConsistent}
use label_kit.Runtime.Group.Results.{HoldsResults, run-HoldsResults}
use label_kit.Runtime.Group.Progress.{CanMove, run-moves}
use label_kit.Runtime.Errors.{
  plain, raise_terminal, Entry, GroupError, leaf_failure, cancelled_error, ErrorTree, ErrorForest,
  flatten_group, unwrap_group,
}
use label_kit.Runtime.Errors.Least.{HasDistinctKeys}
use label_kit.Runtime.Errors.Selection.{
  IsSelected, failure_of, cancellation_of, control_of, ordinary_of, unwrap_group-IsSelected,
  unwrap_group-Reordered,
}
use label_kit.Runtime.Errors.Terminal.{IsEnd, raise_terminal-IsEnd}

-- str.lower on the lower-case hosts below
abbrev lower : String → String
lower s = s

abbrev judge : ResourceKey
judge = record { kind = "llm"; name = "judge" }

abbrev vectors : ResourceKey
vectors = record { kind = "embedding"; name = "vectors" }

abbrev server : HttpOrigin
server = record { scheme = "https"; host = "models.example.org"; port = 443 }

abbrev capacities : Dict ResourceKey ℕ
capacities = (judge, 2) ∷ (vectors, 3) ∷ []

abbrev origins : Dict ResourceKey HttpOrigin
origins = (vectors, server) ∷ (judge, server) ∷ []

abbrev manager : ResourceManager
manager = record {
  capacities = capacities;
  origins = origins;
  origin_capacities = sum_origin_capacities [] capacities origins;
}

manager_made : Resources.new lower capacities origins ≡ ok manager
unfolding Resources.new validate validate_each valid_origin valid_resource_key has_keys get
manager_made = refl

new-IsBalanced_example : IsBalanced lower manager
new-IsBalanced_example = new-IsBalanced lower capacities origins manager manager_made

-- Operations are numbers, and all of them can be called.
abbrev callable : ℕ → Bool
callable op = true

abbrev task : String → ℕ → ResourceKey → TaskSpec ℕ
task id n key = record {
  task_id = id;
  declaration_key = pos n ∷ [];
  stage = "annotate";
  resource_key = key;
  operation = n;
}

abbrev tasks : List (TaskSpec ℕ)
tasks = task "a" 0 judge ∷ task "b" 1 vectors ∷ task "c" 2 judge ∷ []

abbrev registry : Registry
registry = record { resources = manager; admission = []; task_ids = "z" ∷ [] }

abbrev plan : Dict ResourceKey (List ℕ) × Registry
plan = (
  (judge, 0 ∷ 2 ∷ []) ∷ (vectors, 1 ∷ []) ∷ [],
  record {
    resources = manager;
    admission = (judge, 2) ∷ (vectors, 3) ∷ [];
    task_ids = "c" ∷ "b" ∷ "a" ∷ "z" ∷ [];
  },
)

plan_made : validate_and_group callable registry tasks ≡ ok plan
unfolding validate_and_group group_from add_task validate_spec well_formed is_in get put
    Resources.admission_capacity
plan_made = refl

validate_and_group-IsPlanned_example : IsPlanned callable registry tasks plan
validate_and_group-IsPlanned_example =
    validate_and_group-IsPlanned callable registry tasks plan plan_made

-- Two tasks of one resource with one permit: the second waits for the first.
abbrev one_permit : ℕ → ℕ
one_permit k = 1

abbrev events : List (Event ℕ String String)
events =
    submit (0 ∷ 0 ∷ [])
    ∷ admit 0
    ∷ start 0
    ∷ settle 0 (returned "valid")
    ∷ release 0
    ∷ admit 1
    ∷ start 1
    ∷ []

abbrev initial : State ℕ String String
initial = Group.new one_permit

abbrev or_initial : Option (State ℕ String String) → State ℕ String String
or_initial none = initial
or_initial (some s) = s

abbrev reached : State ℕ String String
reached = or_initial (run initial events)

events_pass : run initial events ≡ some reached
unfolding run step submit_group admit_leaf start_leaf settle_leaf release_leaf lane_clear Group.new
events_pass = refl

run-IsConsistent_example : IsConsistent one_permit reached
run-IsConsistent_example = run-IsConsistent one_permit events reached events_pass

run-HoldsResults_example : HoldsResults reached
run-HoldsResults_example = run-HoldsResults one_permit events reached events_pass

run-moves_example : CanMove reached ⊎ All (λ l. is_over l.phase ≡ true) reached.leaves
run-moves_example =
    run-moves one_permit events reached (failed "timeout") (λ k. omega arith) refl events_pass

abbrev entry : ℕ → String → Entry String
entry n e = record { declaration_key = pos n ∷ []; error = e }

abbrev leaf : GroupError String → ErrorTree String
leaf e = ErrorTree.leaf e

-- Two failures in a nested group, and a cancellation.
abbrev failures : ErrorForest String
failures = ErrorForest.cons (leaf (leaf_failure (entry 2 "timeout"))) (
    ErrorForest.cons
      (ErrorTree.group (ErrorForest.cons (leaf (leaf_failure (entry 1 "schema"))) ErrorForest.nil))
      (ErrorForest.cons (leaf cancelled_error) ErrorForest.nil))

abbrev failures_reordered : ErrorForest String
failures_reordered = ErrorForest.cons (leaf (leaf_failure (entry 1 "schema"))) (
    ErrorForest.cons (leaf (leaf_failure (entry 2 "timeout")))
      (ErrorForest.cons (leaf cancelled_error) ErrorForest.nil))

unwrap_group-IsSelected_example : IsSelected (flatten_group failures) (unwrap_group failures)
unwrap_group-IsSelected_example = unwrap_group-IsSelected failures

reordered : Permᴰ (flatten_group failures) (flatten_group failures_reordered)
unfolding flatten_group
reordered = Permᴰ.swap refl refl

nothing_distinct : HasDistinctKeys {E = String} []
nothing_distinct x y m k e = elim m [ ]

failures_distinct : HasDistinctKeys (entry 2 "timeout" ∷ entry 1 "schema" ∷ [])
failures_distinct x y (Memᴰ.head p) (Memᴰ.head q) e = p ∙ sym q
failures_distinct x y (Memᴰ.head p) (Memᴰ.tail (Memᴰ.head q)) e = absurd (cc (p, q, e))
failures_distinct x y (Memᴰ.tail (Memᴰ.head p)) (Memᴰ.head q) e = absurd (cc (p, q, e))
failures_distinct x y (Memᴰ.tail (Memᴰ.head p)) (Memᴰ.tail (Memᴰ.head q)) e = p ∙ sym q
failures_distinct x y (Memᴰ.head p) (Memᴰ.tail (Memᴰ.tail k)) e = elim k [ ]
failures_distinct x y (Memᴰ.tail (Memᴰ.head p)) (Memᴰ.tail (Memᴰ.tail k)) e = elim k [ ]
failures_distinct x y (Memᴰ.tail (Memᴰ.tail m)) k e = elim m [ ]

unwrap_group-Reordered_example : unwrap_group failures ≡ unwrap_group failures_reordered
unfolding flatten_group filter_map failure_of cancellation_of control_of ordinary_of
unwrap_group-Reordered_example =
    unwrap_group-Reordered failures failures_reordered reordered nothing_distinct failures_distinct
      nothing_distinct refl

abbrev fatal_entries : List (Entry String)
fatal_entries = entry 2 "timeout" ∷ entry 1 "schema" ∷ []

raise_terminal-IsEnd_example :
    IsEnd [] fatal_entries
      (some (plain "aborted"))
      (raise_terminal [] fatal_entries (some (plain "aborted")))
raise_terminal-IsEnd_example = raise_terminal-IsEnd [] fatal_entries (some (plain "aborted"))
