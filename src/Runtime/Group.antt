-- ===== src/Runtime/Group.antt =====
-- labelkit/runtime/scheduler.py: the task groups of one execution domain as a machine of events. The
-- tasks run concurrently, so an execution is any sequence of events that the guards let pass.
pub mod Counts
pub mod Invariant
pub mod Results
pub mod Progress
use label_kit.Prelude.{
  ℕ, zero, suc, ◌+◌, ◌-◌, ◌≡◌, Bool, true, false, not, ◌&&◌, ◌||◌, Option, none, some, List, [],
  ◌∷◌, ◌++◌, length, nat_beq, get_elem?, set, ltb, max, if◌then◌else◌, Equality, ◌==◌, map,
}

-- How a leaf task ends: its value; an exception; a circuit breaker's control signal; a cancellation
-- that the operation raised by itself; a cancellation by the task group.
pub data Outcome (T E : Type 0) : Type 0 where
  returned : T → Outcome T E
  failed control self_cancelled : E → Outcome T E
  cancelled : Outcome T E

-- `dropped` is a task that was still waiting when the group ended.
pub data Phase (T E : Type 0) : Type 0 where
  pending admitted running dropped : Phase T E
  settled released : Outcome T E → Phase T E

-- `group` is the call of `run_group` that the task belongs to.
pub record Leaf (K T E : Type 0) : Type 0 where
  pub group : ℕ
  pub resource_key : K
  pub phase : Phase T E

-- The tasks of all groups stand in one list, in the order of submission, with the place of each
-- task's value in `results`. `permits` are the free permits of the admission semaphores; a semaphore
-- is made with the resource's capacity when the resource is first named, so before that its free
-- permits are the capacity. `aborting` holds for a group of which a task ended with an exception, or
-- whose caller was cancelled.
pub record State (K T E : Type 0) : Type 0 where
  pub leaves : List (Leaf K T E)
  pub results : List (Option T)
  pub permits : K → ℕ
  pub groups : ℕ
  pub aborting : ℕ → Bool
  pub domain_abort : Bool
  pub queued : ℕ
  pub queue_high_water : ℕ
  pub running_count : ℕ
  pub running_high_water : ℕ
  pub cancelled_tasks : ℕ

pub data Event (K T E : Type 0) : Type 0 where
  submit : List K → Event K T E
  admit start release : ℕ → Event K T E
  settle : ℕ → Outcome T E → Event K T E
  cancel_caller drop_pending : ℕ → Event K T E

module _ {T E : Type 0} where
  abbrev pub is_admitted : Phase T E → Bool
  is_admitted admitted = true
  is_admitted _ = false

  abbrev pub is_pending : Phase T E → Bool
  is_pending pending = true
  is_pending _ = false

  abbrev pub is_running : Phase T E → Bool
  is_running running = true
  is_running _ = false

  -- The task holds a permit.
  abbrev pub is_active : Phase T E → Bool
  is_active admitted = true
  is_active running = true
  is_active (settled o) = true
  is_active _ = false

  abbrev pub is_over : Phase T E → Bool
  is_over (released o) = true
  is_over dropped = true
  is_over _ = false

  abbrev pub aborts : Outcome T E → Bool
  aborts (returned v) = false
  aborts cancelled = false
  aborts _ = true

  abbrev pub aborts_domain : Outcome T E → Bool
  aborts_domain (failed e) = true
  aborts_domain (self_cancelled e) = true
  aborts_domain _ = false

  abbrev pub by_group : Outcome T E → Bool
  by_group cancelled = true
  by_group _ = false

  abbrev pub by_itself : Outcome T E → Bool
  by_itself (self_cancelled e) = true
  by_itself _ = false

  abbrev pub stored : List (Option T) → ℕ → Outcome T E → List (Option T)
  stored results i (returned v) = set results i (some v)
  stored results i _ = results

abbrev pub abort_if : Bool → ℕ → (ℕ → Bool) → ℕ → Bool
abort_if b g aborting h = if nat_beq g h then b || aborting h else aborting h

-- The change of a counter by one where a test holds.
abbrev pub bump : Bool → ℕ → ℕ
bump b n = if b then n + 1 else n

abbrev pub missing : {K T : Type 0} → List K → List (Option T)
missing [] = []
missing (k ∷ ks) = none ∷ missing ks

module _ {K T E : Type 0} ⦃e : Equality K⦄ where
  abbrev pub with_permits : State K T E → K → ℕ → State K T E
  with_permits s k n = record s { permits = λ j. if k == j then n else s.permits j }

  -- `_change_queue` and `_change_running` record the high-water marks.
  abbrev pub with_queued : State K T E → ℕ → State K T E
  with_queued s n = record s { queued = n; queue_high_water = max s.queue_high_water n }

  abbrev pub with_running : State K T E → ℕ → State K T E
  with_running s n = record s { running_count = n; running_high_water = max s.running_high_water n }

  abbrev pub with_phase : State K T E → ℕ → Leaf K T E → Phase T E → State K T E
  with_phase s i leaf p = record s { leaves = set s.leaves i (record leaf { phase = p }) }

  abbrev pub in_lane : Leaf K T E → Leaf K T E → Bool
  in_lane leaf l = nat_beq l.group leaf.group && l.resource_key == leaf.resource_key

  -- A lane admits its tasks in input order: of the first `i` tasks none of the lane is waiting.
  unfoldable pub lane_clear : Leaf K T E → ℕ → List (Leaf K T E) → Bool
  lane_clear leaf zero leaves = true
  lane_clear leaf (suc i) [] = true
  lane_clear leaf (suc i) (l ∷ ls) =
      not (in_lane leaf l && is_pending l.phase) && lane_clear leaf i ls

  -- `_produce_lane`: a permit is acquired for the next task of the lane.
  unfoldable pub admit_leaf : State K T E → ℕ → Leaf K T E → Option (State K T E)
  admit_leaf s i leaf =
      let k = leaf.resource_key in
      if is_pending leaf.phase && (ltb 0 (s.permits k) && lane_clear leaf i s.leaves)
      then some (
          with_phase (with_queued (with_permits s k (s.permits k - 1)) (s.queued - 1)) i leaf
            admitted)
      else none

  -- The head of `_run_leaf`.
  unfoldable pub start_leaf : State K T E → ℕ → Leaf K T E → Option (State K T E)
  start_leaf s i leaf =
      if is_admitted leaf.phase
      then some (with_phase (with_running s (s.running_count + 1)) i leaf running)
      else none

  -- The rest of `_run_leaf`: the value is stored, or the exception recorded; the count falls.
  abbrev pub end_running : State K T E → ℕ → Leaf K T E → Outcome T E → State K T E
  end_running s i leaf o =
      with_phase
        (with_running
          (record s {
            results = stored s.results i o;
            aborting = abort_if (aborts o) leaf.group s.aborting;
            domain_abort = aborts_domain o || s.domain_abort;
            cancelled_tasks = bump (by_itself o) s.cancelled_tasks;
          })
          (s.running_count - 1))
        i leaf (settled o)

  -- A task that the group cancels before its first step never runs.
  unfoldable pub settle_leaf : State K T E → ℕ → Leaf K T E → Outcome T E → Option (State K T E)
  settle_leaf s i leaf o =
      if is_running leaf.phase && (not (by_group o) || s.aborting leaf.group)
      then some (end_running s i leaf o)
      else if is_admitted leaf.phase && (by_group o && s.aborting leaf.group)
      then some (with_phase s i leaf (settled o))
      else none

  -- `_finish_leaf`, the callback of a task that is done.
  unfoldable pub release_leaf : State K T E → ℕ → Leaf K T E → Phase T E → Option (State K T E)
  release_leaf s i leaf (settled o) =
      let k = leaf.resource_key in
      some (
        with_phase
          (with_permits (record s { cancelled_tasks = bump (by_group o) s.cancelled_tasks }) k
            (s.permits k + 1))
          i leaf (released o))
  release_leaf s i leaf _ = none

  abbrev pub drop_leaf : ℕ → Leaf K T E → Leaf K T E
  drop_leaf g leaf =
      if nat_beq leaf.group g && is_pending leaf.phase
      then record leaf { phase = dropped }
      else leaf

  unfoldable pub count : (Leaf K T E → Bool) → List (Leaf K T E) → ℕ
  count p [] = 0
  count p (l ∷ ls) = bump (p l) (count p ls)

  abbrev pub at_leaf : State K T E → ℕ → (Leaf K T E → Option (State K T E)) → Option (State K T E)
  at_leaf s i f = elim (get_elem? s.leaves i) [ none ↦ none | some leaf ↦ f leaf ]

  abbrev pub fresh_leaves : ℕ → List K → List (Leaf K T E)
  fresh_leaves g [] = []
  fresh_leaves g (k ∷ ks) =
      record { group = g; resource_key = k; phase = pending } ∷ fresh_leaves g ks

  -- `run_group` up to its scope: the tasks wait, with no result.
  unfoldable pub submit_group : State K T E → List K → State K T E
  submit_group s keys = record (with_queued s (s.queued + length keys)) {
    leaves = s.leaves ++ fresh_leaves s.groups keys;
    results = s.results ++ missing keys;
    groups = s.groups + 1;
    aborting = λ g. if nat_beq s.groups g then false else s.aborting g;
  }

  -- The end of `run_group`, when the task group has waited for the tasks that it created.
  unfoldable pub drop_group : State K T E → ℕ → Option (State K T E)
  drop_group s g =
      let waiting = count (λ l. nat_beq l.group g && is_pending l.phase) s.leaves in
      let busy =
        count (λ l. nat_beq l.group g && (is_admitted l.phase || is_running l.phase)) s.leaves in
      if s.aborting g && nat_beq busy 0
      then some
          (record (with_queued s (s.queued - waiting)) { leaves = map (drop_leaf g) s.leaves })
      else none

  unfoldable pub step : State K T E → Event K T E → Option (State K T E)
  step s (submit keys) = some (submit_group s keys)
  step s (admit i) = at_leaf s i (admit_leaf s i)
  step s (start i) = at_leaf s i (start_leaf s i)
  step s (settle i o) = at_leaf s i (λ leaf. settle_leaf s i leaf o)
  step s (release i) = at_leaf s i (λ leaf. release_leaf s i leaf leaf.phase)
  step s (cancel_caller g) = some (record s { aborting = abort_if true g s.aborting })
  step s (drop_pending g) = drop_group s g

  unfoldable pub run : State K T E → List (Event K T E) → Option (State K T E)
  run s [] = some s
  run s (ev ∷ evs) = elim (step s ev) [ none ↦ none | some s' ↦ run s' evs ]

  -- A domain with these capacities, as `ExecutionRuntime` makes it.
  unfoldable pub new : (K → ℕ) → State K T E
  new capacity = record {
    leaves = [];
    results = [];
    permits = capacity;
    groups = 0;
    aborting = λ g. false;
    domain_abort = false;
    queued = 0;
    queue_high_water = 0;
    running_count = 0;
    running_high_water = 0;
    cancelled_tasks = 0;
  }
