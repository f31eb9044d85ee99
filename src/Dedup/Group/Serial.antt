-- ===== src/Dedup/Group/Serial.antt =====
-- dedup.py: the committed groups were committed one after the other, each clear of those before.
use label_kit.Prelude.{
  ℕ, ◌≤◌, ◌≡◌, refl, Bool, true, false, not, Option, none, some, List, [], ◌∷◌, nat_beq,
  nat_beq_iff, is_some, string_eq, ◌==◌, String, arith, Bool-cases, Option-cases, inl, inr, subst,
}
use label_kit.Prelude.Dict.{
  get, put, remove, IsDistinct, get-put, get-remove, put-IsDistinct, remove-IsDistinct,
}
use label_kit.Dedup.Group.{
  contract_error, Outcome, ok, err, ◌>>=◌, ◌>>◌, require, Layers, Features, Core, Entry, Pairs,
  Reservation, Index, Request, empty_core,
}
use label_kit.Dedup.Group.Checks.{check_group, commit_group}
use label_kit.Dedup.Group.Operations.{
  features_of, reserved_entry, reservation_of, bound_entry, group_reserve, group_revalidate,
  group_commit, group_discard, reset, new_index, validated_now, Operation, reserve_group,
  revalidate, commit, discard, clear, change, kept, kept_first, apply, apply_all, right_count,
}

module _ {Sig F : Type 0} (layers : Layers Sig F) where
  -- A history of groups committed in turn, each of which passed the checks at its turn.
  pub data Serial : Core Sig F → Type 0 where
    none_yet : Serial empty_core
    after :
        {core : Core Sig F} (exempt : Pairs) (f : Features Sig F)
        → Serial core
        → check_group layers core exempt f ≡ ok tt
        → Serial (commit_group core f)

  -- A validated group passes the checks as long as no group was committed since.
  abbrev pub StillClear : Core Sig F → Option ℕ → Pairs → Features Sig F → Type 0
  StillClear core none exempt f = Unit {0}
  StillClear core (some g) exempt f =
      (g ≤ core.generation) × (g ≡ core.generation → check_group layers core exempt f ≡ ok tt)

  -- A validation before a commit is of an earlier generation after it.
  stale :
      (core : Core Sig F) (v : Option ℕ) (exempt : Pairs) (f h : Features Sig F)
      → StillClear core v exempt f
      → StillClear (commit_group core h) v exempt f
  unfolding commit_group
  stale core none exempt f h s = tt
  stale core (some g) exempt f h s = (omega (arith, s.0), λ e. absurd (omega (arith, s.0, e)))

  module _ {Rec : Type 0} where
    pub record IsGuarded (x : Index Rec Sig F) : Type 0 where
      pub distinct : IsDistinct x.reservations
      pub serial : Serial x.core
      pub waiting :
          (c : String) (entry : Entry Rec Sig F)
          → get x.reservations c ≡ some entry
          → StillClear x.core entry.validated entry.exempt_pairs entry.features

    pub bound_entry-get :
        (x : Index Rec Sig F) (r : Reservation) (entry : Entry Rec Sig F)
        → bound_entry x r ≡ ok entry
        → get x.reservations r.capability_id ≡ some entry
    unfolding bound_entry
    bound_entry-get x r entry e = elim (Option-cases (get x.reservations r.capability_id)) [
      | inl absent ↦ ground (arith, absent)
      | inr (entry', there) ↦ ground (arith, there)
    ]

    -- One entry is written, for which what is needed holds.
    put-waiting :
        (x : Index Rec Sig F) (k : String) (entry : Entry Rec Sig F)
        → IsGuarded x
        → StillClear x.core entry.validated entry.exempt_pairs entry.features
        → IsGuarded (record x { reservations = put x.reservations k entry })
    put-waiting x k entry g s = record {
      distinct = put-IsDistinct x.reservations k entry g.distinct;
      serial = g.serial;
      waiting = λ c e there. elim (Bool-cases (k == c)) [
        | inl same ↦
            let here : entry ≡ e = ground (arith, there, get-put x.reservations k c entry, same) in
            subst (λ (e : Entry Rec Sig F). StillClear x.core e.validated e.exempt_pairs e.features)
              here s
        | inr other ↦ g.waiting c e (ground (arith, there, get-put x.reservations k c entry, other))
      ];
    }

    -- An entry is taken away, and the core may have grown by a group.
    remove-waiting :
        (x : Index Rec Sig F) (k : String) (core : Core Sig F)
        → IsGuarded x
        → Serial core
        → ((v : Option ℕ) (exempt : Pairs) (f : Features Sig F)
            → StillClear x.core v exempt f
            → StillClear core v exempt f)
        → IsGuarded (record x { core = core; reservations = remove x.reservations k })
    remove-waiting x k core g s keep = record {
      distinct = remove-IsDistinct x.reservations k g.distinct;
      serial = s;
      waiting = λ c e there.
          keep e.validated e.exempt_pairs e.features
            (g.waiting c e (ground (arith, there, get-remove x.reservations k c g.distinct)));
    }

    reserve-IsGuarded :
        (x : Index Rec Sig F) (capability : String) (r : Request Rec Sig F)
        → IsGuarded x
        → IsGuarded (kept_first layers x (group_reserve layers x capability r))
    unfolding group_reserve
    reserve-IsGuarded x capability r g = elim (Bool-cases (right_count r)) [
      | inl e ↦ rw e (reserved (check_group layers x.core r.exempt_pairs (features_of x r)))
      | inr e ↦ rw e g
    ]
      where
        reserved :
            (o : Outcome (Unit {0}))
            → IsGuarded (
                kept_first layers x (
                  o
                  >> ok (
                    record x { reservations = put x.reservations capability (reserved_entry x r) },
                    reservation_of x capability (features_of x r),
                  )))
        reserved (ok u) = put-waiting x capability (reserved_entry x r) g tt
        reserved (err e) = g

    revalidate-IsGuarded :
        (x : Index Rec Sig F) (r : Reservation)
        → IsGuarded x
        → IsGuarded (kept layers x (group_revalidate layers x r))
    unfolding group_revalidate
    revalidate-IsGuarded x r g = of_entry (bound_entry x r)
      where
        mark : Entry Rec Sig F → Index Rec Sig F
        mark entry = record x {
          reservations =
              put x.reservations r.capability_id
                (record entry { validated = some x.core.generation });
        }

        checked :
            (entry : Entry Rec Sig F) (o : Outcome (Unit {0}))
            → check_group layers x.core entry.exempt_pairs entry.features ≡ o
            → IsGuarded (kept layers x (o >> ok (mark entry)))
        checked entry (ok tt) e =
            put-waiting x r.capability_id (record entry { validated = some x.core.generation }) g
              (omega arith, λ _. e)
        checked entry (err f) e = g

        unmarked :
            (entry : Entry Rec Sig F) (b : Bool)
            → IsGuarded (
                kept layers x (
                  require b contract_error
                  >> (check_group layers x.core entry.exempt_pairs entry.features
                      >> ok (mark entry))))
        unmarked entry true = checked entry _ refl
        unmarked entry false = g

        of_entry :
            (o : Outcome (Entry Rec Sig F))
            → IsGuarded (
                kept layers x (
                  o >>= λ entry.
                  require (not (is_some entry.validated)) contract_error
                  >> (check_group layers x.core entry.exempt_pairs entry.features
                      >> ok (mark entry))))
        of_entry (ok entry) = unmarked entry (not (is_some entry.validated))
        of_entry (err f) = g

    commit-IsGuarded :
        (x : Index Rec Sig F) (r : Reservation)
        → IsGuarded x
        → IsGuarded (kept layers x (group_commit x r))
    unfolding group_commit
    commit-IsGuarded x r g = of_entry (bound_entry x r) refl
      where
        written : Entry Rec Sig F → Index Rec Sig F
        written entry = record x {
          core = commit_group x.core entry.features;
          reservations = remove x.reservations r.capability_id;
        }

        current :
            (entry : Entry Rec Sig F) (b : Bool)
            → (b ≡ true → check_group layers x.core entry.exempt_pairs entry.features ≡ ok tt)
            → IsGuarded (kept layers x (require b contract_error >> ok (written entry)))
        current entry true h =
            remove-waiting x r.capability_id (commit_group x.core entry.features) g
              (after entry.exempt_pairs entry.features g.serial (h refl))
              (λ v exempt f. stale x.core v exempt f entry.features)
        current entry false h = g

        validated_at :
            (entry : Entry Rec Sig F) (v : Option ℕ)
            → StillClear x.core v entry.exempt_pairs entry.features
            → IsGuarded (
                kept layers x (
                  require (is_some v) contract_error
                  >> (require (validated_now v x.core.generation) contract_error
                      >> ok (written entry))))
        validated_at entry none s = g
        validated_at entry (some v) s =
            current entry (nat_beq v x.core.generation) (λ b. s.1 ((nat_beq_iff _ _).0 b))

        of_entry :
            (o : Outcome (Entry Rec Sig F))
            → bound_entry x r ≡ o
            → IsGuarded (
                kept layers x (
                  o >>= λ entry.
                  require (is_some entry.validated) contract_error
                  >> (require (validated_now entry.validated x.core.generation) contract_error
                      >> ok (written entry))))
        of_entry (ok entry) e =
            validated_at entry entry.validated
              (g.waiting r.capability_id entry (bound_entry-get x r entry e))
        of_entry (err f) e = g

    discard-IsGuarded :
        (x : Index Rec Sig F) (r : Reservation)
        → IsGuarded x
        → IsGuarded (kept layers x (group_discard x r))
    unfolding group_discard
    discard-IsGuarded x r g = of_entry (bound_entry x r)
      where
        of_entry :
            (o : Outcome (Entry Rec Sig F))
            → IsGuarded (
                kept layers x (
                  o >>= λ entry.
                  ok (record x { reservations = remove x.reservations r.capability_id })))
        of_entry (ok entry) = remove-waiting x r.capability_id x.core g g.serial (λ v exempt f s. s)
        of_entry (err f) = g

    no_entry : (c : String) (entry : Entry Rec Sig F) → get [] c ≡ some entry → ⊥
    unfolding get
    no_entry c entry e = cc

    pub apply-IsGuarded :
        (o : Operation Rec Sig F) (x : Index Rec Sig F) → IsGuarded x → IsGuarded (apply layers o x)
    unfolding apply reset
    apply-IsGuarded (reserve_group capability r) x g = reserve-IsGuarded x capability r g
    apply-IsGuarded (revalidate r) x g = revalidate-IsGuarded x r g
    apply-IsGuarded (commit r) x g = commit-IsGuarded x r g
    apply-IsGuarded (discard r) x g = discard-IsGuarded x r g
    apply-IsGuarded clear x g = record {
      distinct = tt;
      serial = none_yet;
      waiting = λ c entry e. absurd (no_entry c entry e);
    }
    apply-IsGuarded (change f) x g = record {
      distinct = g.distinct;
      serial = g.serial;
      waiting = g.waiting;
    }

    pub apply_all-IsGuarded :
        (os : List (Operation Rec Sig F)) (x : Index Rec Sig F)
        → IsGuarded x
        → IsGuarded (apply_all layers os x)
    unfolding apply_all
    apply_all-IsGuarded [] x g = g
    apply_all-IsGuarded (o ∷ os) x g =
        apply_all-IsGuarded os (apply layers o x) (apply-IsGuarded o x g)

    pub new_index-IsGuarded :
        (digest_of : Rec → String) → IsGuarded (new_index {Sig = Sig} {F = F} digest_of)
    unfolding new_index
    new_index-IsGuarded digest_of = record {
      distinct = tt;
      serial = none_yet;
      waiting = λ c entry e. absurd (no_entry c entry e);
    }

    -- Whatever the turns of the coroutines, and whether or not the records change meanwhile: the index
    -- is the one of some groups that were committed one after the other, each of which, at its turn,
    -- had a sound shape, hit no group before it and held no pair of duplicates that is not exempt.
    pub apply_all-Serial :
        (digest_of : Rec → String) (os : List (Operation Rec Sig F))
        → Serial (apply_all layers os (new_index digest_of)).core
    apply_all-Serial digest_of os =
        let g = apply_all-IsGuarded os (new_index digest_of) (new_index-IsGuarded digest_of) in
        g.serial
