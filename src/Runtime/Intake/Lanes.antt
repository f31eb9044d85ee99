-- ===== src/Runtime/Intake/Lanes.antt =====
-- scheduler.py, _validate_and_group: a specification of accepted groups and of their lanes.
use label_kit.Prelude.{
  ℕ, suc, ◌≡◌, refl, ap, sym, subst, ◌∙◌, Bool, true, false, ◌||◌, List, [], ◌∷◌, ◌++◌, String,
  arith, if◌then◌else◌, ◌==◌, string_eq, Bool-cases, inl, inr,
}
use mathlib.Core.Path.{ap₂}
use mathlib.Core.List.{append-nil, append_assoc}
use label_kit.Prelude.Dict.{is_in, Dict, get, put, get-put, or_default}
use label_kit.Runtime.Keys.{ResourceKey, key_eq, TaskSpec, Result, ok, err, duplicate_task_id}
use label_kit.Runtime.Resources.{ResourceManager, admission_capacity}
use label_kit.Runtime.Intake.{
  Registry, well_formed, validate_spec, Grouping, add_task, group_from, validate_and_group,
}

abbrev pub is_ok {ℓ} : {A : Type ℓ} → Result A → Bool
is_ok (ok a) = true
is_ok (err e) = false

is_in-append : (x : String) (l m : List String) → is_in x (l ++ m) ≡ (is_in x l || is_in x m)
unfolding is_in
is_in-append x [] m = refl
is_in-append x (y ∷ l) m = let r = is_in-append x l m in ground (arith, r)

result_rule {ℓ κ μ} :
    {A : Type ℓ} {B : Type κ} (P : B → Type μ) (r : Result A) (f : A → Result B) {b : B}
    → ((a : A) → r ≡ ok a → f a ≡ ok b → P b)
    → elim r [ err e ↦ err e | ok a ↦ f a ] ≡ ok b
    → P b
result_rule P (ok a) f keep h = keep a refl h
result_rule P (err e) f keep h = absurd (cc)

ok-injective {ℓ} : {A : Type ℓ} {x y : A} → ok x ≡ ok y → x ≡ y
ok-injective h = cc

lane_step :
    (b : Bool) (old rest : List ℕ) (i : ℕ)
    → (if b then old ++ (i ∷ []) else old) ++ rest ≡ old ++ (if b then i ∷ rest else rest)
lane_step true old rest i = append_assoc old (i ∷ []) rest
lane_step false old rest i = refl

is_in_shuffle :
    (x id : String) (new old : List String)
    → (is_in x new || is_in x (id ∷ old)) ≡ (is_in x (id ∷ new) || is_in x old)
unfolding is_in
is_in_shuffle x id new old = ground arith

module _ {Op : Type 0} (callable : Op → Bool) where
  -- The positions, from `index` on, of the tasks with the resource key `k`.
  pub positions : ResourceKey → ℕ → List (TaskSpec Op) → List ℕ
  positions k index [] = []
  positions k index (spec ∷ specs) =
      let rest = positions k (suc index) specs in
      if spec.resource_key == k then index ∷ rest else rest

  pub task_ids : List (TaskSpec Op) → List String
  task_ids [] = []
  task_ids (spec ∷ specs) = spec.task_id ∷ task_ids specs

  -- Each task is well formed, names a known resource, and has an identity that neither `seen` nor an
  -- earlier task has.
  pub IsAccepted : ResourceManager → List String → List (TaskSpec Op) → Type 0
  IsAccepted m seen [] = Unit
  IsAccepted m seen (spec ∷ specs) =
      (well_formed callable spec ≡ true)
      × (is_ok (admission_capacity m spec.resource_key) ≡ true)
      × (is_in spec.task_id seen ≡ false)
      × IsAccepted m (spec.task_id ∷ seen) specs

  record Added (g : Grouping) (index : ℕ) (spec : TaskSpec Op) (g' : Grouping) : Type 0 where
    checked : well_formed callable spec ≡ true
    known : is_ok (admission_capacity g.registry.resources spec.resource_key) ≡ true
    fresh : is_in spec.task_id (g.ids ++ g.registry.task_ids) ≡ false
    ids : g'.ids ≡ spec.task_id ∷ g.ids
    kept : g'.registry.task_ids ≡ g.registry.task_ids
    same_resources : g'.registry.resources ≡ g.registry.resources
    lane :
        (k : ResourceKey)
        → or_default (get g'.lanes k) [] ≡ (
            if spec.resource_key == k
            then or_default (get g.lanes k) [] ++ (index ∷ [])
            else or_default (get g.lanes k) [])

  record Checked (r : Registry) (spec : TaskSpec Op) (r' : Registry) : Type 0 where
    checked : well_formed callable spec ≡ true
    known : is_ok (admission_capacity r.resources spec.resource_key) ≡ true
    kept : r'.task_ids ≡ r.task_ids
    same_resources : r'.resources ≡ r.resources

  validate_spec-Checked :
      (r : Registry) (spec : TaskSpec Op) (r' : Registry)
      → validate_spec callable r spec ≡ ok r'
      → Checked r spec r'
  unfolding validate_spec
  validate_spec-Checked r spec r' h = elim (Bool-cases (well_formed callable spec)) [
    | inl good ↦
        result_rule (Checked r spec) (admission_capacity r.resources spec.resource_key) _
          (λ c found e.
            subst (Checked r spec) (ok-injective e)
              (record { checked = good; known = rw found; kept = refl; same_resources = refl }))
          (rw good at h)
    | inr bad ↦ absurd (cc (rw bad at h))
  ]

  add_task-Added :
      (g : Grouping) (index : ℕ) (spec : TaskSpec Op) (g' : Grouping)
      → add_task callable g index spec ≡ ok g'
      → Added g index spec g'
  unfolding add_task
  add_task-Added g index spec g' h =
      result_rule (Added g index spec) (validate_spec callable g.registry spec) _
        (λ r checked e. build r (validate_spec-Checked g.registry spec r checked) e) h
    where
      build :
          (r : Registry)
          → Checked g.registry spec r
          → (if is_in spec.task_id g.ids || is_in spec.task_id r.task_ids
              then err duplicate_task_id
              else ok (record {
                registry = r;
                lanes =
                    put g.lanes spec.resource_key
                      (or_default (get g.lanes spec.resource_key) [] ++ (index ∷ []));
                ids = spec.task_id ∷ g.ids;
              }))
            ≡ ok g'
          → Added g index spec g'
      build r c e = elim (Bool-cases (is_in spec.task_id g.ids || is_in spec.task_id r.task_ids)) [
        | inl twice ↦ absurd (cc (rw twice at e))
        | inr once ↦ subst (Added g index spec) (ok-injective (rw once at e)) (record {
          checked = c.checked;
          known = c.known;
          fresh = rw (is_in-append, ← c.kept) once;
          ids = refl;
          kept = c.kept;
          same_resources = c.same_resources;
          lane = λ k. ground (
            arith,
            get-put g.lanes spec.resource_key k
                (or_default (get g.lanes spec.resource_key) [] ++ (index ∷ [])),
            key_eq.test_iff spec.resource_key k,
          );
        })
      ]

  -- What the loop does to its variables.
  record Grouped (g : Grouping) (index : ℕ) (specs : List (TaskSpec Op)) (g' : Grouping)
      : Type 0 where
    accepted : IsAccepted g.registry.resources (g.ids ++ g.registry.task_ids) specs
    lanes :
        (k : ResourceKey)
        → or_default (get g'.lanes k) [] ≡ or_default (get g.lanes k) [] ++ positions k index specs
    ids : (x : String) → is_in x g'.ids ≡ (is_in x (task_ids specs) || is_in x g.ids)

  cons :
      (g : Grouping) (index : ℕ) (spec : TaskSpec Op) (specs : List (TaskSpec Op)) (m g' : Grouping)
      → Added g index spec m
      → Grouped m (suc index) specs g'
      → Grouped g index (spec ∷ specs) g'
  unfolding IsAccepted positions task_ids
  cons g index spec specs m g' a r = record {
    accepted = (
      a.checked,
      a.known,
      a.fresh,
      subst (λ l. IsAccepted g.registry.resources l specs) (ap₂ (λ i t. i ++ t) a.ids a.kept)
          (subst (λ x. IsAccepted x (m.ids ++ m.registry.task_ids) specs) a.same_resources
            r.accepted),
    );
    lanes = λ k.
        r.lanes k
        ∙ ap (λ l. l ++ positions k (suc index) specs) (a.lane k)
        ∙ lane_step (spec.resource_key == k) (or_default (get g.lanes k) [])
            (positions k (suc index) specs) index;
    ids = λ x.
        r.ids x
        ∙ ap (λ l. is_in x (task_ids specs) || is_in x l) a.ids
        ∙ is_in_shuffle x spec.task_id (task_ids specs) g.ids;
  }

  group_from-Grouped :
      (g : Grouping) (index : ℕ) (specs : List (TaskSpec Op)) (g' : Grouping)
      → group_from callable g index specs ≡ ok g'
      → Grouped g index specs g'
  unfolding group_from IsAccepted positions task_ids
  group_from-Grouped g index [] g' h = subst (Grouped g index []) (ok-injective h) (record {
    accepted = tt;
    lanes = λ k. sym (append-nil (or_default (get g.lanes k) []));
    ids = λ x. unfold is_in in refl;
  })
  group_from-Grouped g index (spec ∷ specs) g' h =
      result_rule (Grouped g index (spec ∷ specs)) (add_task callable g index spec) _
        (λ m added rest.
          cons g index spec specs m g' (add_task-Added g index spec m added)
            (group_from-Grouped m (suc index) specs g' rest))
        h

  -- What an accepted request leaves: its lanes and the registry.
  pub record IsPlanned (r : Registry) (tasks : List (TaskSpec Op))
      (plan : Dict ResourceKey (List ℕ) × Registry) : Type 0 where
    pub accepted : IsAccepted r.resources r.task_ids tasks
    pub lanes : (k : ResourceKey) → or_default (get plan.0 k) [] ≡ positions k 0 tasks
    pub known :
        (x : String) → is_in x plan.1.task_ids ≡ (is_in x (task_ids tasks) || is_in x r.task_ids)

  -- If a group of tasks passes the checks, each task is well formed, names a known resource, and has
  -- an identity that no earlier task of the group or of the runtime has; the lane of each resource
  -- lists the positions of its tasks, in order; and the identities of the group are added to those
  -- that the runtime knows, and no others.
  pub validate_and_group-IsPlanned :
      (r : Registry) (tasks : List (TaskSpec Op)) (plan : Dict ResourceKey (List ℕ) × Registry)
      → validate_and_group callable r tasks ≡ ok plan
      → IsPlanned r tasks plan
  unfolding validate_and_group
  validate_and_group-IsPlanned r tasks plan h =
      let start : Grouping = record { registry = r; lanes = []; ids = [] } in
      result_rule (IsPlanned r tasks) (group_from callable start 0 tasks) _
        (λ g grouped e.
          let d = group_from-Grouped start 0 tasks g grouped in
          subst (IsPlanned r tasks) (ok-injective e) (record {
            accepted = d.accepted;
            lanes = λ k. d.lanes k ∙ unfold get in refl;
            known = λ x.
                is_in-append x g.ids r.task_ids
                ∙ ap (λ b. b || is_in x r.task_ids) (d.ids x ∙ or_nothing x (task_ids tasks));
          }))
        h
    where
      or_nothing : (x : String) (l : List String) → (is_in x l || is_in x []) ≡ is_in x l
      or_nothing x l = unfold is_in in ground arith
