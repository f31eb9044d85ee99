-- ===== src/Dedup/Group/Spent.antt =====
-- dedup.py, DedupIndex: a reservation is used up by its commit or discard.
use label_kit.Prelude.{
  ◌≡◌, refl, ◌⊎◌, Bool, true, false, not, none, some, List, [], ◌∷◌, is_some, string_eq, ◌==◌,
  String, arith, Bool-cases, inl, inr, All, ==_refl, subst,
}
use label_kit.Prelude.Dict.{get, put, remove, IsDistinct, get-put, get-remove}
use label_kit.Dedup.Group.{
  contract_error, Outcome, ok, err, ◌>>=◌, ◌>>◌, require, Layers, Core, Entry, Reservation, Index,
}
use label_kit.Dedup.Group.Checks.{check_group, commit_group}
use label_kit.Dedup.Group.Operations.{
  features_of, reserved_entry, reservation_of, bound_entry, group_reserve, group_revalidate,
  group_commit, group_discard, reset, new_index, validated_now, Operation, reserve_group,
  revalidate, commit, discard, clear, change, kept, kept_first, apply, apply_all, right_count,
}
use label_kit.Dedup.Group.Serial.{
  IsGuarded, apply-IsGuarded, apply_all-IsGuarded, new_index-IsGuarded, bound_entry-get,
}

-- The operation does not reserve under the capability.
abbrev pub Spares : {Rec Sig F : Type 0} → String → Operation Rec Sig F → Type 0
Spares c (reserve_group capability r) = capability == c ≡ false
Spares c _ = Unit {0}

module _ {Rec Sig F : Type 0} where
  Lacks : String → Index Rec Sig F → Type 0
  Lacks c x = get x.reservations c ≡ none

  Lacks-put :
      (x : Index Rec Sig F) (k c : String) (entry : Entry Rec Sig F)
      → k == c ≡ false
      → Lacks c x
      → Lacks c (record x { reservations = put x.reservations k entry })
  unfolding Lacks
  Lacks-put x k c entry h l = ground (arith, get-put x.reservations k c entry)

  Lacks-remove :
      (x : Index Rec Sig F) (core : Core Sig F) (k c : String)
      → IsDistinct x.reservations
      → Lacks c x
      → Lacks c (record x { core = core; reservations = remove x.reservations k })
  unfolding Lacks
  Lacks-remove x core k c d l = ground (arith, get-remove x.reservations k c d)

  -- An entry that is there is under another capability.
  other_key :
      (x : Index Rec Sig F) (k c : String) (entry : Entry Rec Sig F)
      → get x.reservations k ≡ some entry
      → Lacks c x
      → k == c ≡ false
  unfolding Lacks
  other_key x k c entry h l = elim (Bool-cases (k == c)) [
    | inl same ↦ absurd (let e : k ≡ c = (string_eq.test_iff k c).0 same in cc)
    | inr other ↦ other
  ]

  unbound :
      (x : Index Rec Sig F) (r : Reservation)
      → Lacks r.capability_id x
      → bound_entry x r ≡ err contract_error
  unfolding bound_entry Lacks
  unbound x r l = rw l

  module _ (layers : Layers Sig F) where
    Lacks-apply :
        (c : String) (o : Operation Rec Sig F) (x : Index Rec Sig F)
        → Spares c o
        → IsGuarded layers x
        → Lacks c x
        → Lacks c (apply layers o x)
    unfolding apply group_reserve group_revalidate group_commit group_discard reset Lacks
    Lacks-apply c (reserve_group capability r) x s g l = elim (Bool-cases (right_count r)) [
      | inl e ↦ rw e (reserved (check_group layers x.core r.exempt_pairs (features_of x r)))
      | inr e ↦ rw e l
    ]
      where
        reserved :
            (o : Outcome (Unit {0}))
            → Lacks c (
                kept_first layers x (
                  o
                  >> ok (
                    record x { reservations = put x.reservations capability (reserved_entry x r) },
                    reservation_of x capability (features_of x r),
                  )))
        reserved (ok u) = Lacks-put x capability c (reserved_entry x r) s l
        reserved (err f) = l
    Lacks-apply c (revalidate r) x s g l = of_entry (bound_entry x r) refl
      where
        marked :
            (entry : Entry Rec Sig F) (b : Bool) (o : Outcome (Unit {0}))
            → Lacks c (record x {
              reservations =
                  put x.reservations r.capability_id
                    (record entry { validated = some x.core.generation });
            })
            → Lacks c (
                kept layers x (
                  require b contract_error
                  >> (o
                      >> ok (record x {
                        reservations =
                            put x.reservations r.capability_id
                              (record entry { validated = some x.core.generation });
                      }))))
        marked entry true (ok u) h = h
        marked entry true (err f) h = l
        marked entry false o h = l

        of_entry :
            (o : Outcome (Entry Rec Sig F))
            → bound_entry x r ≡ o
            → Lacks c (
                kept layers x (
                  o >>= λ entry.
                  require (not (is_some entry.validated)) contract_error
                  >> (check_group layers x.core entry.exempt_pairs entry.features
                      >> ok (record x {
                        reservations =
                            put x.reservations r.capability_id
                              (record entry { validated = some x.core.generation });
                      }))))
        of_entry (ok entry) e =
            marked entry (not (is_some entry.validated))
              (check_group layers x.core entry.exempt_pairs entry.features)
              (Lacks-put x r.capability_id c (record entry { validated = some x.core.generation })
                (other_key x r.capability_id c entry (bound_entry-get layers x r entry e) l) l)
        of_entry (err f) e = l
    Lacks-apply c (commit r) x s g l = of_entry (bound_entry x r)
      where
        tested :
            (entry : Entry Rec Sig F) (a b : Bool)
            → Lacks c (
                kept layers x (
                  require a contract_error
                  >> (require b contract_error
                      >> ok (record x {
                        core = commit_group x.core entry.features;
                        reservations = remove x.reservations r.capability_id;
                      }))))
        tested entry true true =
            Lacks-remove x (commit_group x.core entry.features) r.capability_id c g.distinct l
        tested entry true false = l
        tested entry false b = l

        of_entry :
            (o : Outcome (Entry Rec Sig F))
            → Lacks c (
                kept layers x (
                  o >>= λ entry.
                  require (is_some entry.validated) contract_error
                  >> (require (validated_now entry.validated x.core.generation) contract_error
                      >> ok (record x {
                        core = commit_group x.core entry.features;
                        reservations = remove x.reservations r.capability_id;
                      }))))
        of_entry (ok entry) =
            tested entry (is_some entry.validated) (validated_now entry.validated x.core.generation)
        of_entry (err f) = l
    Lacks-apply c (discard r) x s g l = of_entry (bound_entry x r)
      where
        of_entry :
            (o : Outcome (Entry Rec Sig F))
            → Lacks c (
                kept layers x (
                  o >>= λ entry.
                  ok (record x { reservations = remove x.reservations r.capability_id })))
        of_entry (ok entry) = Lacks-remove x x.core r.capability_id c g.distinct l
        of_entry (err f) = l
    Lacks-apply c clear x s g l = unfold get in refl
    Lacks-apply c (change f) x s g l = l

    removed :
        (x : Index Rec Sig F) (c : String)
        → IsDistinct x.reservations
        → get (remove x.reservations c) c ≡ none
    removed x c d = ground (arith, get-remove x.reservations c c d, ==_refl c)

    commit-Lacks :
        (x y : Index Rec Sig F) (r : Reservation)
        → IsDistinct x.reservations
        → group_commit x r ≡ ok y
        → Lacks r.capability_id y
    unfolding group_commit Lacks
    commit-Lacks x y r d e = ground (arith, removed x r.capability_id d)

    discard-Lacks :
        (x y : Index Rec Sig F) (r : Reservation)
        → IsDistinct x.reservations
        → group_discard x r ≡ ok y
        → Lacks r.capability_id y
    unfolding group_discard Lacks
    discard-Lacks x y r d e = ground (arith, removed x r.capability_id d)

    Lacks-apply_all :
        (c : String) (os : List (Operation Rec Sig F)) (x : Index Rec Sig F)
        → All (Spares c) os
        → IsGuarded layers x
        → Lacks c x
        → Lacks c (apply_all layers os x)
    unfolding apply_all
    Lacks-apply_all c [] x s g l = l
    Lacks-apply_all c (o ∷ os) x s g l =
        Lacks-apply_all c os (apply layers o x) s.1 (apply-IsGuarded layers o x g)
          (Lacks-apply c o x s.0 g l)

    abbrev pub IsSpent : Reservation → Index Rec Sig F → Type 0
    IsSpent r z =
        (group_revalidate layers z r ≡ err contract_error)
        × (group_commit z r ≡ err contract_error)
        × (group_discard z r ≡ err contract_error)

    Lacks-IsSpent : (r : Reservation) (z : Index Rec Sig F) → Lacks r.capability_id z → IsSpent r z
    unfolding group_revalidate group_commit group_discard
    Lacks-IsSpent r z l = (rw (unbound z r l), rw (unbound z r l), rw (unbound z r l))

    commit_ok-IsGuarded :
        (x y : Index Rec Sig F) (r : Reservation)
        → IsGuarded layers x
        → group_commit x r ≡ ok y
        → IsGuarded layers y
    commit_ok-IsGuarded x y r g e =
        subst (λ (o : Outcome (Index Rec Sig F)). IsGuarded layers (kept layers x o)) e
          (unfold apply in apply-IsGuarded layers (commit r) x g)

    discard_ok-IsGuarded :
        (x y : Index Rec Sig F) (r : Reservation)
        → IsGuarded layers x
        → group_discard x r ≡ ok y
        → IsGuarded layers y
    discard_ok-IsGuarded x y r g e =
        subst (λ (o : Outcome (Index Rec Sig F)). IsGuarded layers (kept layers x o)) e
          (unfold apply in apply-IsGuarded layers (discard r) x g)

    -- From a new index, once a reservation was committed or discarded with success, revalidation, commit
    -- and discard of it raise InternalError, after any operations that do not reserve under its
    -- capability again.
    pub use-IsSpent :
        (digest_of : Rec → String) (os later : List (Operation Rec Sig F)) (r : Reservation)
        (y : Index Rec Sig F)
        → (let x = apply_all layers os (new_index digest_of) in
            (group_commit x r ≡ ok y) ⊎ (group_discard x r ≡ ok y))
        → All (Spares r.capability_id) later
        → IsSpent r (apply_all layers later y)
    use-IsSpent digest_of os later r y (inl e) s =
        let x = apply_all layers os (new_index digest_of) in
        let g =
          apply_all-IsGuarded layers os (new_index digest_of)
            (new_index-IsGuarded layers digest_of) in
        Lacks-IsSpent r (apply_all layers later y) (
          Lacks-apply_all r.capability_id later y s (commit_ok-IsGuarded x y r g e)
            (commit-Lacks x y r g.distinct e))
    use-IsSpent digest_of os later r y (inr e) s =
        let x = apply_all layers os (new_index digest_of) in
        let g =
          apply_all-IsGuarded layers os (new_index digest_of)
            (new_index-IsGuarded layers digest_of) in
        Lacks-IsSpent r (apply_all layers later y) (
          Lacks-apply_all r.capability_id later y s (discard_ok-IsGuarded x y r g e)
            (discard-Lacks x y r g.distinct e))
