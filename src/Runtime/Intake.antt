-- ===== src/Runtime/Intake.antt =====
-- labelkit/runtime/scheduler.py: the checks of a task group and its division into lanes.
pub mod Lanes
use label_kit.Prelude.{
  is_nil, ℕ, zero, suc, ◌+◌, Bool, true, false, not, ◌&&◌, ◌||◌, Option, none, some, List, [], ◌∷◌,
  ◌++◌, String, if◌then◌else◌, ◌==◌, Equality, string_eq,
}
use label_kit.Prelude.Dict.{set_default, is_in, Dict, get, put, or_default}
use label_kit.Runtime.Keys.{
  ResourceKey, key_eq, TaskSpec, Result, ok, err, InternalError, unknown_key, invalid_specification,
  duplicate_task_id,
}
use label_kit.Runtime.Resources.{ResourceManager, admission_capacity}

-- The part of the runtime that the checks read and write: the admission semaphores, by their initial
-- permits, and the identities of all tasks so far.
pub record Registry : Type 0 where
  pub resources : ResourceManager
  pub admission : Dict ResourceKey ℕ
  pub task_ids : List String

-- The variables of the loop of `_validate_and_group`.
pub record Grouping : Type 0 where
  pub registry : Registry
  pub lanes : Dict ResourceKey (List ℕ)
  pub ids : List String

module _ {Op : Type 0} (callable : Op → Bool) where
  -- A declaration key is a tuple of integers by its type.
  unfoldable pub well_formed : TaskSpec Op → Bool
  well_formed spec =
      not (spec.task_id == "")
      && (not (spec.stage == "") && (not (is_nil spec.declaration_key) && callable spec.operation))

  -- What `_validate_spec` leaves of the admission table, which it extends.
  unfoldable pub validate_spec : Registry → TaskSpec Op → Result Registry
  validate_spec r spec =
      if well_formed spec
      then elim (admission_capacity r.resources spec.resource_key) [
        | err e ↦ err e
        | ok capacity ↦
            ok (record r { admission = set_default r.admission spec.resource_key capacity })
      ]
      else err invalid_specification

  -- One round of the loop, at position `index`.
  unfoldable pub add_task : Grouping → ℕ → TaskSpec Op → Result Grouping
  add_task g index spec = elim (validate_spec g.registry spec) [
    | err e ↦ err e
    | ok registry ↦
        if is_in spec.task_id g.ids || is_in spec.task_id registry.task_ids
        then err duplicate_task_id
        else ok (record {
          registry = registry;
          lanes =
              put g.lanes spec.resource_key
                (or_default (get g.lanes spec.resource_key) [] ++ (index ∷ []));
          ids = spec.task_id ∷ g.ids;
        })
  ]

  unfoldable pub group_from : Grouping → ℕ → List (TaskSpec Op) → Result Grouping
  group_from g index [] = ok g
  group_from g index (spec ∷ specs) = elim (add_task g index spec) [
    | err e ↦ err e
    | ok g' ↦ group_from g' (suc index) specs
  ]

  unfoldable pub validate_and_group :
      Registry → List (TaskSpec Op) → Result (Dict ResourceKey (List ℕ) × Registry)
  validate_and_group r tasks =
      elim (group_from (record { registry = r; lanes = []; ids = [] }) 0 tasks) [
        | err e ↦ err e
        | ok g ↦ ok (g.lanes, record g.registry { task_ids = g.ids ++ r.task_ids })
      ]
