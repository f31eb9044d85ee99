-- ===== src/State/Patches.antt =====
-- state.py, _validate_patch: a specification of legal patches.
use label_kit.Prelude.Dict.{is_in}
use label_kit.Prelude.{
  is_nil, ◌≡◌, ◌↔◌, subst, refl, sym, ap, ◌∙◌, inl, inr, Bool, true, false, not, ◌&&◌, ◌||◌, Option,
  none, some, List, [], ◌∷◌, ◌++◌, String, arith, ◌==◌, string_eq, Bool-cases, All,
}
use label_kit.State.Data.{
  Operation, Library, RoleSpec, Outcome, done, violated, broken, StateViolation, ◌>>=◌, require,
}
use label_kit.State.Roots.{IsPermitted, permitted_iff}
use label_kit.State.Validation.{
  ops, permitted, check_op, check_operation, validate_operations, validate_patch,
}

pub done-injective : {A : Type 0} {a b : A} → done a ≡ done b → a ≡ b
done-injective h = cc h

-- Inversion of two steps that end well.
pub record Both {A B : Type 0} (m : Outcome A) (f : A → Outcome B) (b : B) : Type 0 where
  pub value : A
  pub first : m ≡ done value
  pub second : f value ≡ done b

pub >>=-Both :
    {A B : Type 0} (m : Outcome A) (f : A → Outcome B) (b : B) → (m >>= f) ≡ done b → Both m f b
>>=-Both (done a) f b h = record { value = a; first = refl; second = h }
>>=-Both (violated v) f b h = absurd (cc h)
>>=-Both broken f b h = absurd (cc h)

module _ {Json : Type 0} (library : Library Json) (role : Option (RoleSpec Json)) where
  -- The operation is one of the four, a test or not as told, at a path that its kind may use.
  pub record IsAllowed (is_test : Bool) (o : Operation Json) : Type 0 where
    pub op : String
    pub path : String
    pub has_op : o.op ≡ some op
    pub has_path : o.path ≡ some path
    pub known : is_in op ops ≡ true
    pub kind : (op == "test") ≡ is_test
    pub allowed : IsPermitted library role is_test path

  -- Tests, then changes, of each at least one.
  pub record IsLegalPatch (patch : List (Operation Json)) : Type 0 where
    pub tests : List (Operation Json)
    pub changes : List (Operation Json)
    pub split : patch ≡ tests ++ changes
    pub tested : is_nil tests ≡ false
    pub changed : is_nil changes ≡ false
    pub tests_allowed : All (IsAllowed true) tests
    pub changes_allowed : All (IsAllowed false) changes

  record Passed (seen mutates : Bool) (o : Operation Json) : Type 0 where
    fine : IsAllowed (not mutates) o
    order : mutates ≡ false → seen ≡ false

  check_op-Passed :
      (seen mutates : Bool) (o : Operation Json) (op path : String)
      → o.op ≡ some op
      → o.path ≡ some path
      → check_op library role seen op path ≡ done mutates
      → Passed seen mutates o
  check_op-Passed seen mutates o op path p q h = elim (Bool-cases (is_in op ops)) [
    | inr unknown ↦ absurd (cc (rw unknown at h))
    | inl known ↦ elim (Bool-cases (op == "test" && seen)) [
      | inl late ↦ absurd (cc (rw (known, late) at h))
      | inr early ↦ elim (Bool-cases (permitted library role (op == "test") path)) [
        | inr refused ↦ absurd (cc (rw (known, early, refused) at h))
        | inl good ↦
            let e : not (op == "test") ≡ mutates = done-injective (rw (known, early, good) at h) in
            let k : (op == "test") ≡ not mutates = ground (arith, e) in
            record {
              fine = record {
                op = op;
                path = path;
                has_op = p;
                has_path = q;
                known = known;
                kind = k;
                allowed =
                    (permitted_iff library role (not mutates) path).0
                      (ap (λ b. permitted library role b path) (sym k) ∙ good);
              };
              order = λ n. ground (arith, k, n, early);
            }
      ]
    ]
  ]

  check_operation-Passed :
      (seen mutates : Bool) (o : Operation Json) (op path : Option String)
      → o.op ≡ op
      → o.path ≡ path
      → check_operation library role seen op path ≡ done mutates
      → Passed seen mutates o
  check_operation-Passed seen mutates o (some op) (some path) p q h =
      check_op-Passed seen mutates o op path p q h
  check_operation-Passed seen mutates o (some op) none p q h = absurd (cc h)
  check_operation-Passed seen mutates o none path p q h = absurd (cc h)

  -- Of an operation that is allowed in its place, the check gives the kind.
  check-allowed :
      (seen is_test : Bool) (o : Operation Json)
      → IsAllowed is_test o
      → (is_test && seen) ≡ false
      → check_operation library role seen o.op o.path ≡ done (not is_test)
  check-allowed seen is_test o a early =
      let good = (permitted_iff library role is_test a.path).1 a.allowed in
      rw (a.has_op, a.has_path, a.known, a.kind, early, good) refl

  -- After a change only changes pass.
  changes_only :
      (tested : Bool) (os : List (Operation Json))
      → validate_operations library role tested true os ≡ done tt
      → All (IsAllowed false) os × (tested ≡ true)
  unfolding validate_operations
  changes_only tested [] h = (tt, tested_of tested h)
    where
      tested_of :
          (tested : Bool)
          → require (tested && true) StateViolation.patch_test_prefix ≡ done tt
          → tested ≡ true
      tested_of true h = refl
      tested_of false h = absurd (cc h)
  changes_only tested (o ∷ os) h =
      let b = >>=-Both (check_operation library role true o.op o.path) _ tt h in
      let p = check_operation-Passed true b.value o o.op o.path refl refl b.first in
      elim (Bool-cases b.value) [
        | inr test ↦ absurd (cc (p.order test))
        | inl change ↦
            let (rest, before) = changes_only (tested || false) os (rw change at b.second) in
            ((subst (λ m. IsAllowed (not m) o) change p.fine, rest), ground (arith, before))
      ]

  -- A split of the operations, after tests or not.
  record Split (tested : Bool) (os : List (Operation Json)) : Type 0 where
    tests : List (Operation Json)
    changes : List (Operation Json)
    split : os ≡ tests ++ changes
    has_test : (tested || not (is_nil tests)) ≡ true
    changed : is_nil changes ≡ false
    tests_allowed : All (IsAllowed true) tests
    changes_allowed : All (IsAllowed false) changes

  validate_operations-Split :
      (tested : Bool) (os : List (Operation Json))
      → validate_operations library role tested false os ≡ done tt
      → Split tested os
  unfolding validate_operations
  validate_operations-Split true [] h = absurd (cc h)
  validate_operations-Split false [] h = absurd (cc h)
  validate_operations-Split tested (o ∷ os) h =
      let b = >>=-Both (check_operation library role false o.op o.path) _ tt h in
      let p = check_operation-Passed false b.value o o.op o.path refl refl b.first in
      elim (Bool-cases b.value) [
        | inr test ↦
            let rest = validate_operations-Split (tested || true) os (rw test at b.second) in
            record {
              tests = o ∷ rest.tests;
              changes = rest.changes;
              split = ap (λ l. o ∷ l) rest.split;
              has_test = ground arith;
              changed = rest.changed;
              tests_allowed = (subst (λ m. IsAllowed (not m) o) test p.fine, rest.tests_allowed);
              changes_allowed = rest.changes_allowed;
            }
        | inl change ↦
            let (rest, before) = changes_only (tested || false) os (rw change at b.second) in
            record {
              tests = [];
              changes = o ∷ os;
              split = refl;
              has_test = ground (arith, before);
              changed = refl;
              tests_allowed = tt;
              changes_allowed = (subst (λ m. IsAllowed (not m) o) change p.fine, rest);
            }
      ]

  changes_pass :
      (seen : Bool) (os : List (Operation Json))
      → All (IsAllowed false) os
      → (seen || not (is_nil os)) ≡ true
      → validate_operations library role true seen os ≡ done tt
  unfolding validate_operations
  changes_pass seen [] h k = let e : seen ≡ true = ground (arith, k) in rw e refl
  changes_pass seen (o ∷ os) h k =
      rw (check-allowed seen false o h.0 (ground arith))
        (changes_pass (seen || true) os h.1 (ground arith))

  tests_pass :
      (tested : Bool) (ts cs : List (Operation Json))
      → All (IsAllowed true) ts
      → All (IsAllowed false) cs
      → (tested || not (is_nil ts)) ≡ true
      → is_nil cs ≡ false
      → validate_operations library role tested false (ts ++ cs) ≡ done tt
  unfolding validate_operations
  tests_pass tested [] cs h k has changed =
      let e : tested ≡ true = ground (arith, has) in
      rw e (changes_pass false cs k (ground (arith, changed)))
  tests_pass tested (t ∷ ts) cs h k has changed =
      rw (check-allowed false true t h.0 (ground arith))
        (tests_pass (tested || true) ts cs h.1 k (ground arith) changed)

  -- A patch passes exactly if it is made of tests and then changes, of each at least one, where each
  -- operation is one of the four, a test at or below a root that the role reads and a change at or
  -- below one that it writes; without a role any path will do.
  pub validate_patch-IsLegalPatch :
      (patch : List (Operation Json))
      → (validate_patch library patch role ≡ done tt) ↔ IsLegalPatch patch
  unfolding validate_patch
  validate_patch-IsLegalPatch patch = (legal, passes)
    where
      legal : validate_operations library role false false patch ≡ done tt → IsLegalPatch patch
      legal h =
          let s = validate_operations-Split false patch h in
          record {
            tests = s.tests;
            changes = s.changes;
            split = s.split;
            tested = ground (arith, s.has_test);
            changed = s.changed;
            tests_allowed = s.tests_allowed;
            changes_allowed = s.changes_allowed;
          }

      passes : IsLegalPatch patch → validate_operations library role false false patch ≡ done tt
      passes l =
          subst (λ os. validate_operations library role false false os ≡ done tt) (sym l.split)
            (tests_pass false l.tests l.changes l.tests_allowed l.changes_allowed
              (ground (arith, l.tested)) l.changed)
