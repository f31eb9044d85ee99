-- ===== src/State/Validation.antt =====
-- labelkit/operators/generation/state.py: the check of a patch against the roots of a role.
use label_kit.Prelude.{
  Bool, true, false, not, ◌&&◌, ◌||◌, Option, none, some, List, [], ◌∷◌, String, if◌then◌else◌,
  ◌==◌, string_eq, nat_eq,
}
use label_kit.Prelude.Dict.{is_in}
use label_kit.State.Data.{
  Operation, Library, RoleSpec, Outcome, require, ◌>>=◌, patch_operation, patch_test_order,
  patch_permission, patch_test_prefix, done, violated,
}

-- len(left) <= len(right) and left == right[:len(left)]
unfoldable pub is_prefix : List String → List String → Bool
is_prefix [] right = true
is_prefix (x ∷ xs) [] = false
is_prefix (x ∷ xs) (y ∷ ys) = x == y && is_prefix xs ys

-- _OPS
abbrev pub ops : List String
ops = "test" ∷ "add" ∷ "remove" ∷ "replace" ∷ []

module _ {Json : Type 0} (library : Library Json) where
  -- A root that is no pointer raises, and then nothing is covered, unless a root before it covers.
  abbrev pub covered_by : Option (List String) → List String → Bool → Bool
  covered_by none path later = false
  covered_by (some root) path later = is_prefix root path || later

  unfoldable pub any_root : List String → List String → Bool
  any_root path [] = false
  any_root path (root ∷ roots) = covered_by (library.parts root) path (any_root path roots)

  abbrev pub covers : Option (List String) → List String → Bool
  covers none roots = false
  covers (some path) roots = any_root path roots

  unfoldable pub path_covered : String → List String → Bool
  path_covered path roots = covers (library.parts path) roots

  abbrev pub roots_for : Bool → RoleSpec Json → List String
  roots_for true role = role.read_roots
  roots_for false role = role.write_roots

  abbrev pub permitted : Option (RoleSpec Json) → Bool → String → Bool
  permitted none is_test path = true
  permitted (some role) is_test path = path_covered path (roots_for is_test role)

  -- One operation, after operations of which one may have been a mutation: the new `seen_mutation`.
  abbrev pub check_op : Option (RoleSpec Json) → Bool → String → String → Outcome Bool
  check_op role seen_mutation op path =
      if not (is_in op ops)
      then violated patch_operation
      else if op == "test" && seen_mutation
      then violated patch_test_order
      else if permitted role (op == "test") path
      then done (not (op == "test"))
      else violated patch_permission

  abbrev pub check_operation :
      Option (RoleSpec Json) → Bool → Option String → Option String → Outcome Bool
  check_operation role seen_mutation (some op) (some path) = check_op role seen_mutation op path
  check_operation role seen_mutation _ _ = violated patch_operation

  -- The loop of `_validate_patch`: whether there was a test, and a mutation.
  unfoldable pub validate_operations :
      Option (RoleSpec Json) → Bool → Bool → List (Operation Json) → Outcome (Unit {0})
  validate_operations role tested seen_mutation [] =
      require (tested && seen_mutation) patch_test_prefix
  validate_operations role tested seen_mutation (o ∷ os) =
      check_operation role seen_mutation o.op o.path >>= λ mutates.
      validate_operations role (tested || not mutates) (seen_mutation || mutates) os

  unfoldable pub validate_patch :
      List (Operation Json) → Option (RoleSpec Json) → Outcome (Unit {0})
  validate_patch patch role = validate_operations role false false patch
