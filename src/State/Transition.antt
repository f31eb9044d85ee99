-- ===== src/State/Transition.antt =====
-- labelkit/operators/generation/state.py: the execution of an event and its bindings.
use label_kit.Prelude.{
  ℕ, Bool, true, false, not, ◌&&◌, Option, none, some, List, [], ◌∷◌, String, ltb, if◌then◌else◌,
  ◌==◌, string_eq, nat_eq,
}
use label_kit.Prelude.Dict.{is_in, Dict, get, put}
use label_kit.State.Data.{
  Operation, Library, StatePhase, PayloadBinding, RoleSpec, EventPlan, EventExecution,
  StateViolation, Outcome, require, HookResult, Context, ◌>>=◌, ◌>>◌, before, after, event_identity,
  event_patch_size, json_patch, payload_binding, state_projection, hook_violations, done, violated,
  broken, reported, invalid, failed,
}
use label_kit.State.Validation.{validate_patch}

module _ {Json : Type 0} (library : Library Json) where
  abbrev pub noise_is : Option String → String → Bool
  noise_is none frame = false
  noise_is (some n) frame = frame == n

  abbrev pub eligible_frame : Option Bool → Bool
  eligible_frame none = false
  eligible_frame (some eligible) = eligible

  abbrev pub identity_legal : Context Json → Option (RoleSpec Json) → EventPlan Json → Bool
  identity_legal c (some role) plan =
      plan.frame_class == role.frame_class && plan.actor == role.actor
  identity_legal c none plan =
      eligible_frame (get c.frames plan.frame_class)
      && (not (noise_is c.noise_frame_class plan.frame_class) && is_in plan.actor c.actors)

  unfoldable pub validate_plan_identity : Context Json → EventPlan Json → Outcome (Unit {0})
  validate_plan_identity c plan = require (identity_legal c c.role plan) event_identity

  unfoldable pub normalize_patch : List (Operation Json) → ℕ → Outcome (List (Operation Json))
  normalize_patch patch byte_limit =
      if ltb byte_limit (library.patch_bytes patch) then violated event_patch_size else done patch

  abbrev pub from_option : {A : Type 0} → Option A → StateViolation → Outcome A
  from_option none v = violated v
  from_option (some a) v = done a

  abbrev pub from_check : Option Bool → StateViolation → Outcome (Unit {0})
  from_check none kind = broken
  from_check (some true) kind = violated kind
  from_check (some false) kind = done tt

  unfoldable pub validate_schema : Json → Json → StateViolation → Outcome (Unit {0})
  validate_schema value schema kind = from_check (library.has_errors schema value) kind

  abbrev pub validate_optional : Json → Option Json → StateViolation → Outcome (Unit {0})
  validate_optional value none kind = done tt
  validate_optional value (some schema) kind = validate_schema value schema kind

  abbrev pub hook_outcome : HookResult → Outcome (Unit {0})
  hook_outcome (reported []) = done tt
  hook_outcome (reported (t ∷ ts)) = violated (hook_violations (t ∷ ts))
  hook_outcome invalid = broken
  hook_outcome failed = broken

  abbrev pub run_state_hook :
      Context Json → Json → Json → List (Operation Json) → Outcome (Unit {0})
  run_state_hook c old new patch = elim c.state_validator [
    | none ↦ done tt
    | some hook ↦ hook_outcome (hook old new patch)
  ]

  abbrev pub state_at : StatePhase → Json → Json → Json
  state_at before old new = old
  state_at after old new = new

  unfoldable pub validate_binding_list : List PayloadBinding → Json → Json → Outcome (Unit {0})
  validate_binding_list [] old new = done tt
  validate_binding_list (b ∷ bs) old new =
      from_option (library.resolve_pointer (state_at b.state_phase old new) b.state_path)
        payload_binding
      >>= λ _. validate_binding_list bs old new

  abbrev pub role_bindings : Option (RoleSpec Json) → List PayloadBinding
  role_bindings none = []
  role_bindings (some role) = role.payload_bindings

  unfoldable pub validate_bindings : Option (RoleSpec Json) → Json → Json → Outcome (Unit {0})
  validate_bindings role old new = validate_binding_list (role_bindings role) old new

  unfoldable pub project_from : Dict String Json → Json → List String → Outcome (Dict String Json)
  project_from result state [] = done result
  project_from result state (root ∷ roots) =
      from_option (library.resolve_pointer state root) state_projection >>= λ value.
      project_from (put result root value) state roots

  unfoldable pub project_paths : Json → List String → Outcome (Dict String Json)
  project_paths state roots = project_from [] state roots

  abbrev pub pre_schema_of : Option (RoleSpec Json) → Option Json
  pre_schema_of none = none
  pre_schema_of (some role) = role.pre_state_schema

  abbrev pub publish : Option (RoleSpec Json) → Json → Outcome (Dict String Json)
  publish none state = done []
  publish (some role) state = project_paths state role.publish_roots

  unfoldable pub execute_transition : Context Json → EventPlan Json → Outcome (EventExecution Json)
  execute_transition c plan = do
    validate_plan_identity c plan
    patch ← normalize_patch plan.patch c.event_patch_bytes
    validate_patch library patch c.role
    validate_optional c.current_state (pre_schema_of c.role) StateViolation.pre_state_schema
    new ← from_option (library.apply_patch c.current_state patch) json_patch
    validate_schema new c.state_schema StateViolation.state_schema
    run_state_hook c c.current_state new patch
    validate_optional new c.outcome_schema StateViolation.outcome_schema
    validate_bindings c.role c.current_state new
    snapshot ← publish c.role new
    done (record {
      state_before = c.current_state;
      state_after = new;
      state_before_hash = library.state_hash c.current_state;
      state_after_hash = library.state_hash new;
      publish_snapshot = snapshot;
      normalized_patch = patch;
    })

  unfoldable pub binding_values_from :
      Dict String Json → List PayloadBinding → EventExecution Json → Outcome (Dict String Json)
  binding_values_from values [] e = done values
  binding_values_from values (b ∷ bs) e =
      from_option
        (library.resolve_pointer (state_at b.state_phase e.state_before e.state_after) b.state_path)
        payload_binding
      >>= λ value. binding_values_from (put values b.payload_path value) bs e

  unfoldable pub binding_values :
      Option (RoleSpec Json) → EventExecution Json → Outcome (Dict String Json)
  binding_values role e = binding_values_from [] (role_bindings role) e
