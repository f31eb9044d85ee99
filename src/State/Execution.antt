-- ===== src/State/Execution.antt =====
-- state.py, _execute_transition and binding_values: what an execution stands for.
use label_kit.Prelude.{
  ℕ, ◌≤◌, ◌≡◌, refl, sym, ap, ◌∙◌, inl, inr, subst, Bool, true, false, Option, none, some, List, [],
  ◌∷◌, String, arith, ltb, Bool-cases, All, string_eq,
}
use label_kit.Prelude.Dict.{Dict, put}
use label_kit.State.Data.{
  Operation, Library, EventPlan, EventExecution, Context, PayloadBinding, done, StateViolation,
  event_identity, json_patch, payload_binding, require,
}
use label_kit.State.Transition.{
  identity_legal, from_option, from_check, state_at, role_bindings, pre_schema_of, publish,
  validate_plan_identity, normalize_patch, validate_optional, validate_schema, run_state_hook,
  validate_binding_list, validate_bindings, execute_transition, binding_values_from, binding_values,
}
use label_kit.State.Validation.{validate_patch}
use label_kit.State.Patches.{IsLegalPatch, done-injective, >>=-Both, validate_patch-IsLegalPatch}

module _ {Json : Type 0} (library : Library Json) where
  -- The value has no error against the schema, if there is one.
  abbrev pub Conforms : Json → Option Json → Type 0
  Conforms value none = Unit
  Conforms value (some schema) = library.has_errors schema value ≡ some false

  -- The value of the binding is there, before the event or after it.
  abbrev pub IsBound : Json → Json → PayloadBinding → Type 0
  IsBound old new b =
      (value : Json) × (library.resolve_pointer (state_at library b.state_phase old new)
          b.state_path
        ≡ some value)

  -- What an execution stands for.
  pub record IsCertified (c : Context Json) (plan : EventPlan Json) (e : EventExecution Json)
      : Type 0 where
    pub before : e.state_before ≡ c.current_state
    pub identity : identity_legal library c c.role plan ≡ true
    pub same_patch : e.normalized_patch ≡ plan.patch
    pub small : library.patch_bytes plan.patch ≤ c.event_patch_bytes
    pub legal : IsLegalPatch library c.role plan.patch
    pub applied : library.apply_patch c.current_state plan.patch ≡ some e.state_after
    pub pre_schema : Conforms c.current_state (pre_schema_of library c.role)
    pub base_schema : Conforms e.state_after (some c.state_schema)
    pub outcome : Conforms e.state_after c.outcome_schema
    pub accepted : run_state_hook library c c.current_state e.state_after plan.patch ≡ done tt
    pub bound : All (IsBound c.current_state e.state_after) (role_bindings library c.role)
    pub published : publish library c.role e.state_after ≡ done e.publish_snapshot

  require-true : (b : Bool) (v : StateViolation) → require b v ≡ done tt → b ≡ true
  require-true true v h = refl
  require-true false v h = absurd (cc h)

  from_option-done :
      {A : Type 0} (o : Option A) (v : StateViolation) (a : A)
      → from_option library o v ≡ done a
      → o ≡ some a
  from_option-done none v a h = absurd (cc h)
  from_option-done (some b) v a h = cc h

  from_check-done :
      (o : Option Bool) (v : StateViolation) → from_check library o v ≡ done tt → o ≡ some false
  from_check-done none v h = absurd (cc h)
  from_check-done (some true) v h = absurd (cc h)
  from_check-done (some false) v h = refl

  validate_optional-Conforms :
      (value : Json) (o : Option Json) (v : StateViolation)
      → validate_optional library value o v ≡ done tt
      → Conforms value o
  unfolding validate_schema
  validate_optional-Conforms value none v h = tt
  validate_optional-Conforms value (some schema) v h =
      from_check-done (library.has_errors schema value) v h

  normalize_patch-done :
      (patch patch' : List (Operation Json)) (limit : ℕ)
      → normalize_patch library patch limit ≡ done patch'
      → (patch' ≡ patch) × (library.patch_bytes patch ≤ limit)
  unfolding normalize_patch
  normalize_patch-done patch patch' limit h =
      elim (Bool-cases (ltb limit (library.patch_bytes patch))) [
        | inl large ↦ absurd (cc (rw large at h))
        | inr small ↦ (cc (rw small at h), ground (arith, small))
      ]

  validate_binding_list-IsBound :
      (bs : List PayloadBinding) (old new : Json)
      → validate_binding_list library bs old new ≡ done tt
      → All (IsBound old new) bs
  unfolding validate_binding_list
  validate_binding_list-IsBound [] old new h = tt
  validate_binding_list-IsBound (b ∷ bs) old new h =
      let k =
        >>=-Both
          (from_option library
            (library.resolve_pointer (state_at library b.state_phase old new) b.state_path)
            payload_binding)
          _ tt h in
      (
        (k.value, from_option-done _ payload_binding k.value k.first),
        validate_binding_list-IsBound bs old new k.second,
      )

  -- The execution with these parts.
  execution : Context Json → List (Operation Json) → Json → Dict String Json → EventExecution Json
  execution c patch new snapshot = record {
    state_before = c.current_state;
    state_after = new;
    state_before_hash = library.state_hash c.current_state;
    state_after_hash = library.state_hash new;
    publish_snapshot = snapshot;
    normalized_patch = patch;
  }

  -- The checks that an event passed, in their order.
  record Ran (c : Context Json) (plan : EventPlan Json) (e : EventExecution Json) : Type 0 where
    patch : List (Operation Json)
    new : Json
    snapshot : Dict String Json
    identity : validate_plan_identity library c plan ≡ done tt
    normalized : normalize_patch library plan.patch c.event_patch_bytes ≡ done patch
    legal : validate_patch library patch c.role ≡ done tt
    pre :
        validate_optional library c.current_state
          (pre_schema_of library c.role)
          StateViolation.pre_state_schema
        ≡ done tt
    applied : from_option library (library.apply_patch c.current_state patch) json_patch ≡ done new
    base : validate_schema library new c.state_schema StateViolation.state_schema ≡ done tt
    hook : run_state_hook library c c.current_state new patch ≡ done tt
    outcome : validate_optional library new c.outcome_schema StateViolation.outcome_schema ≡ done tt
    bound : validate_bindings library c.role c.current_state new ≡ done tt
    published : publish library c.role new ≡ done snapshot
    result : e ≡ execution c patch new snapshot

  execute_transition-Ran :
      (c : Context Json) (plan : EventPlan Json) (e : EventExecution Json)
      → execute_transition library c plan ≡ done e
      → Ran c plan e
  unfolding execute_transition execution
  execute_transition-Ran c plan e h =
      let old = c.current_state in
      let k1 = >>=-Both (validate_plan_identity library c plan) _ e h in
      let k2 = >>=-Both (normalize_patch library plan.patch c.event_patch_bytes) _ e k1.second in
      let k3 = >>=-Both (validate_patch library k2.value c.role) _ e k2.second in
      let k4 =
        >>=-Both
          (validate_optional library old (pre_schema_of library c.role)
            StateViolation.pre_state_schema)
          _ e k3.second in
      let k5 =
        >>=-Both (from_option library (library.apply_patch old k2.value) json_patch) _ e
          k4.second in
      let k6 =
        >>=-Both (validate_schema library k5.value c.state_schema StateViolation.state_schema) _ e
          k5.second in
      let k7 = >>=-Both (run_state_hook library c old k5.value k2.value) _ e k6.second in
      let k8 =
        >>=-Both (validate_optional library k5.value c.outcome_schema StateViolation.outcome_schema)
          _ e k7.second in
      let k9 = >>=-Both (validate_bindings library c.role old k5.value) _ e k8.second in
      let k10 = >>=-Both (publish library c.role k5.value) _ e k9.second in
      record {
        patch = k2.value;
        new = k5.value;
        snapshot = k10.value;
        identity = k1.first;
        normalized = k2.first;
        legal = k3.first;
        pre = k4.first;
        applied = k5.first;
        base = k6.first;
        hook = k7.first;
        outcome = k8.first;
        bound = k9.first;
        published = k10.first;
        result = sym (done-injective k10.second);
      }

  built-IsCertified :
      (c : Context Json) (plan : EventPlan Json) (e : EventExecution Json) (r : Ran c plan e)
      → r.patch ≡ plan.patch
      → IsCertified c plan (execution c r.patch r.new r.snapshot)
  unfolding execution validate_plan_identity validate_bindings
  built-IsCertified c plan e r same =
      let legal = (validate_patch-IsLegalPatch library c.role r.patch).0 r.legal in
      record {
        before = refl;
        identity = require-true (identity_legal library c c.role plan) event_identity r.identity;
        same_patch = same;
        small = (normalize_patch-done plan.patch r.patch c.event_patch_bytes r.normalized).1;
        legal = subst (λ p. IsLegalPatch library c.role p) same legal;
        applied =
            ap (library.apply_patch c.current_state) (sym same)
            ∙ from_option-done (library.apply_patch c.current_state r.patch) json_patch r.new
                r.applied;
        pre_schema =
            validate_optional-Conforms c.current_state (pre_schema_of library c.role)
              StateViolation.pre_state_schema r.pre;
        base_schema =
            validate_optional-Conforms r.new (some c.state_schema) StateViolation.state_schema
              r.base;
        outcome =
            validate_optional-Conforms r.new c.outcome_schema StateViolation.outcome_schema
              r.outcome;
        accepted = ap (run_state_hook library c c.current_state r.new) (sym same) ∙ r.hook;
        bound =
            validate_binding_list-IsBound (role_bindings library c.role) c.current_state r.new
              r.bound;
        published = r.published;
      }

  -- If an event is executed, then the plan names its role's frame class and actor, its patch is legal
  -- and small enough and gives the new state from the current one, both states conform to their
  -- schemas, the state validator accepts the change, each binding of the role has a value, and the
  -- snapshot is what the role publishes.
  pub execute_transition-IsCertified :
      (c : Context Json) (plan : EventPlan Json) (e : EventExecution Json)
      → execute_transition library c plan ≡ done e
      → IsCertified c plan e
  execute_transition-IsCertified c plan e h =
      let r = execute_transition-Ran c plan e h in
      subst (IsCertified c plan) (sym r.result) (
        built-IsCertified c plan e r
          ((normalize_patch-done plan.patch r.patch c.event_patch_bytes r.normalized).0))

  binding_values_from-there :
      (values : Dict String Json) (bs : List PayloadBinding) (e : EventExecution Json)
      → All (IsBound e.state_before e.state_after) bs
      → (result : Dict String Json) × (binding_values_from library values bs e ≡ done result)
  unfolding binding_values_from
  binding_values_from-there values [] e h = (values, refl)
  binding_values_from-there values (b ∷ bs) e h =
      let (value, found) = h.0 in
      rw found (binding_values_from-there (put values b.payload_path value) bs e h.1)

  -- The bindings of an executed event can always be read.
  pub binding_values-there :
      (c : Context Json) (plan : EventPlan Json) (e : EventExecution Json)
      → execute_transition library c plan ≡ done e
      → (values : Dict String Json) × (binding_values library c.role e ≡ done values)
  unfolding binding_values
  binding_values-there c plan e h =
      let k = execute_transition-IsCertified c plan e h in
      binding_values_from-there [] (role_bindings library c.role) e (
        subst (λ old. All (IsBound old e.state_after) (role_bindings library c.role)) (sym k.before)
          k.bound)
