-- ===== src/State/Examples.antt =====
-- labelkit/operators/generation/state.py: the theorems at concrete values. The state is a number, which
-- stands at the pointer "/n"; a patch leaves the number of its last operation.
use label_kit.Prelude.{
  ℕ, ◌≡◌, ◌↔◌, refl, Option, none, some, List, [], ◌∷◌, String, leb, not, if◌then◌else◌, ◌==◌,
  string_eq,
}
use label_kit.Prelude.Dict.{is_in, Dict, put}
use label_kit.State.Data.{
  Operation, Library, RoleSpec, EventPlan, EventExecution, Context, StatePhase, done,
}
use label_kit.State.Validation.{
  is_prefix, any_root, path_covered, validate_operations, validate_patch,
}
use label_kit.State.Transition.{
  validate_plan_identity, normalize_patch, validate_schema, validate_binding_list,
  validate_bindings, project_from, project_paths, execute_transition, binding_values,
}
use label_kit.State.Patches.{IsLegalPatch, validate_patch-IsLegalPatch}
use label_kit.State.Execution.{IsCertified, execute_transition-IsCertified, binding_values-there}

abbrev at_n : String → Option (List String)
at_n p = if p == "/n" then some ("n" ∷ []) else none

abbrev patched : ℕ → List (Operation ℕ) → Option ℕ
patched n [] = some n
patched n (o ∷ os) = patched o.rest os

-- A schema is the largest number that it takes.
abbrev numbers : Library ℕ
numbers = record {
  parts = at_n;
  resolve_pointer = λ n p. if p == "/n" then some n else none;
  apply_patch = patched;
  has_errors = λ schema n. some (not (leb n schema));
  patch_bytes = λ p. 10;
  state_hash = λ n. "hash";
}

abbrev operation : String → ℕ → Operation ℕ
operation op n = record { op = some op; path = some "/n"; rest = n }

abbrev patch : List (Operation ℕ)
patch = operation "test" 3 ∷ operation "replace" 4 ∷ []

abbrev role : RoleSpec ℕ
role = record {
  name = "pay";
  frame_class = "form";
  actor = "user";
  read_roots = "/n" ∷ [];
  write_roots = "/n" ∷ [];
  publish_roots = "/n" ∷ [];
  pre_state_schema = some 3;
  payload_bindings =
      record { payload_path = "/old"; state_phase = StatePhase.before; state_path = "/n" } ∷ [];
}

validate_patch-IsLegalPatch_example :
    (validate_patch numbers patch (some role) ≡ done tt) ↔ IsLegalPatch numbers (some role) patch
validate_patch-IsLegalPatch_example = validate_patch-IsLegalPatch numbers (some role) patch

abbrev context : Context ℕ
context = record {
  current_state = 3;
  frames = [];
  noise_frame_class = none;
  actors = "user" ∷ [];
  event_patch_bytes = 100;
  state_validator = none;
  role = some role;
  state_schema = 9;
  outcome_schema = some 5;
}

abbrev plan : EventPlan ℕ
plan = record { frame_class = "form"; actor = "user"; intent = "pay"; patch = patch }

abbrev execution : EventExecution ℕ
execution = record {
  state_before = 3;
  state_after = 4;
  state_before_hash = "hash";
  state_after_hash = "hash";
  publish_snapshot = ("/n", 4) ∷ [];
  normalized_patch = patch;
}

executed : execute_transition numbers context plan ≡ done execution
unfolding execute_transition validate_plan_identity normalize_patch validate_patch
    validate_operations validate_schema validate_bindings validate_binding_list project_paths
    project_from path_covered any_root is_prefix is_in put
executed = refl

execute_transition-IsCertified_example : IsCertified numbers context plan execution
execute_transition-IsCertified_example =
    execute_transition-IsCertified numbers context plan execution executed

binding_values-there_example :
    (values : Dict String ℕ) × (binding_values numbers (some role) execution ≡ done values)
binding_values-there_example = binding_values-there numbers context plan execution executed
