-- ===== src/State/Data.antt =====
-- labelkit/operators/generation/state.py: what the execution of an event reads, and its outcomes.
-- labelkit/common/config/generation.py and labelkit/common/contracts/generation.py: roles, plans and
-- executions.
use label_kit.Prelude.{ℕ, Bool, true, false, Option, List, String, string_eq, nat_eq}
use label_kit.Prelude.Dict.{Dict}

-- An operation of a patch; an `op` or a `path` that is no text is `none`.
pub record Operation (Json : Type 0) : Type 0 where
  pub op : Option String
  pub path : Option String
  pub rest : Json

-- What the libraries compute: the decoded tokens of a pointer, the value at a pointer, a patched
-- document, whether a schema has errors (`none` where it cannot be evaluated), the bytes of a patch and
-- the hash of a state.
pub record Library (Json : Type 0) : Type 0 where
  pub parts : String → Option (List String)
  pub resolve_pointer : Json → String → Option Json
  pub apply_patch : Json → List (Operation Json) → Option Json
  pub has_errors : Json → Json → Option Bool
  pub patch_bytes : List (Operation Json) → ℕ
  pub state_hash : Json → String

pub data StatePhase : Type 0 where
  before after : StatePhase

pub record PayloadBinding : Type 0 where
  pub payload_path : String
  pub state_phase : StatePhase
  pub state_path : String

pub record RoleSpec (Json : Type 0) : Type 0 where
  pub name : String
  pub frame_class : String
  pub actor : String
  pub read_roots : List String
  pub write_roots : List String
  pub publish_roots : List String
  pub pre_state_schema : Option Json
  pub payload_bindings : List PayloadBinding

pub record EventPlan (Json : Type 0) : Type 0 where
  pub frame_class : String
  pub actor : String
  pub intent : String
  pub patch : List (Operation Json)

pub record EventExecution (Json : Type 0) : Type 0 where
  pub state_before : Json
  pub state_after : Json
  pub state_before_hash : String
  pub state_after_hash : String
  pub publish_snapshot : Dict String Json
  pub normalized_patch : List (Operation Json)

-- The violations: mechanical ones by their text, a schema's by its kind, a hook's by its texts.
pub data StateViolation : Type 0 where
  event_identity event_patch_size patch_operation patch_test_order patch_permission : StateViolation
  patch_test_prefix json_patch payload_binding state_projection : StateViolation
  pre_state_schema state_schema outcome_schema : StateViolation
  hook_violations : List String → StateViolation

-- A violation can be repaired; `broken` is an exception that ends the run.
pub data Outcome (A : Type 0) : Type 0 where
  done : A → Outcome A
  violated : StateViolation → Outcome A
  broken : Outcome A

infixl 5 ◌>>=◌ ◌>>◌
abbrev pub ◌>>=◌ : {A B : Type 0} → Outcome A → (A → Outcome B) → Outcome B
done a >>= f = f a
violated v >>= f = violated v
broken >>= f = broken

abbrev pub ◌>>◌ : {A B : Type 0} → Outcome A → Outcome B → Outcome B
m >> k = m >>= λ _. k

abbrev pub require : Bool → StateViolation → Outcome (Unit {0})
require true v = done tt
require false v = violated v

-- What a state validator of the user does.
pub data HookResult : Type 0 where
  reported : List String → HookResult
  invalid failed : HookResult

-- What the execution reads of the context. `frames` tells of each frame class whether it is eligible
-- for generation; the schemas are those that `state_schema_for` and `outcome_schema_for` choose.
pub record Context (Json : Type 0) : Type 0 where
  pub current_state : Json
  pub frames : Dict String Bool
  pub noise_frame_class : Option String
  pub actors : List String
  pub event_patch_bytes : ℕ
  pub state_validator : Option (Json → Json → List (Operation Json) → HookResult)
  pub role : Option (RoleSpec Json)
  pub state_schema : Json
  pub outcome_schema : Option Json
