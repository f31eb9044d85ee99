-- ===== src/Dedup/Group/Operations.antt =====
-- dedup.py, DedupIndex.group_reserve, group_revalidate, group_commit, group_discard and reset.
use label_kit.Prelude.{
  ℕ, ◌+◌, Bool, true, false, not, ◌&&◌, Option, none, some, List, [], ◌∷◌, map, nat_beq, length,
  is_some, string_eq, String,
}
use label_kit.Prelude.Dict.{get, put, remove, list_test}
use label_kit.Dedup.Group.{
  contract_error, Outcome, ok, err, ◌>>=◌, ◌>>◌, require, Layers, Features, Entry, Reservation,
  Index, Request, empty_core, prefix,
}
use label_kit.Dedup.Group.Checks.{check_group, commit_group}

abbrev pub cluster_keys : List String → List String
cluster_keys exact = map (prefix 16) exact

abbrev pub vectors_of : {F : Type 0} → Option (List (List F)) → List (List F)
vectors_of none = []
vectors_of (some vs) = vs

abbrev pub validated_now : Option ℕ → ℕ → Bool
validated_now none n = false
validated_now (some g) n = nat_beq g n

module _ {Rec Sig F : Type 0} where
  -- `_group_embeddings`: as many vectors as texts, where there is a profile.
  abbrev pub right_count : Request Rec Sig F → Bool
  right_count r = elim r.vectors [ none ↦ true | some vs ↦ nat_beq (length vs) (length r.records) ]

  abbrev pub features_of : Index Rec Sig F → Request Rec Sig F → Features Sig F
  features_of x r = record {
    record_ids = r.ids;
    record_digests = map x.digest_of r.records;
    exact_features = r.exact;
    minhash_features = r.minhash;
    embedding_features = vectors_of r.vectors;
  }

  abbrev pub reserved_entry : Index Rec Sig F → Request Rec Sig F → Entry Rec Sig F
  reserved_entry x r = record {
    records = r.records;
    features = features_of x r;
    exempt_pairs = r.exempt_pairs;
    epoch = x.epoch;
    validated = none;
  }

  abbrev pub reservation_of : Index Rec Sig F → String → Features Sig F → Reservation
  reservation_of x capability f = record {
    capability_id = capability;
    epoch = x.epoch;
    record_digests = f.record_digests;
    exact_cluster_keys = cluster_keys f.exact_features;
  }

  abbrev pub found : Option (Entry Rec Sig F) → Outcome (Entry Rec Sig F)
  found none = err contract_error
  found (some entry) = ok entry

  -- `_reservation_entry`, but for the check of the state.
  unfoldable pub bound_entry : Index Rec Sig F → Reservation → Outcome (Entry Rec Sig F)
  bound_entry x r = do
    entry ← found (get x.reservations r.capability_id)
    require (nat_beq r.epoch x.epoch && nat_beq entry.epoch x.epoch) contract_error
    require (list_test r.record_digests entry.features.record_digests) contract_error
    require (list_test r.exact_cluster_keys (cluster_keys entry.features.exact_features))
        contract_error
    require (list_test (map x.digest_of entry.records) entry.features.record_digests) contract_error
    ok entry

  unfoldable pub group_commit : Index Rec Sig F → Reservation → Outcome (Index Rec Sig F)
  unfolding bound_entry
  group_commit x r = do
    entry ← bound_entry x r
    require (is_some entry.validated) contract_error
    require (validated_now entry.validated x.core.generation) contract_error
    ok (record x {
      core = commit_group x.core entry.features;
      reservations = remove x.reservations r.capability_id;
    })

  unfoldable pub group_discard : Index Rec Sig F → Reservation → Outcome (Index Rec Sig F)
  unfolding bound_entry
  group_discard x r = do
    entry ← bound_entry x r
    ok (record x { reservations = remove x.reservations r.capability_id })

  unfoldable pub reset : Index Rec Sig F → Index Rec Sig F
  reset x = record x { core = empty_core; reservations = []; epoch = x.epoch + 1 }

  unfoldable pub new_index : (Rec → String) → Index Rec Sig F
  new_index digest_of = record {
    core = empty_core;
    reservations = [];
    epoch = 0;
    digest_of = digest_of;
  }

-- One turn of a coroutine, and a change of what hashing the records gives.
pub data Operation (Rec Sig F : Type 0) : Type 0 where
  reserve_group : (capability : String) → Request Rec Sig F → Operation Rec Sig F
  revalidate commit discard : Reservation → Operation Rec Sig F
  clear : Operation Rec Sig F
  change : (Rec → String) → Operation Rec Sig F

module _ {Rec Sig F : Type 0} (layers : Layers Sig F) where
  -- `capability` is what secrets.token_hex gives.
  unfoldable pub group_reserve :
      Index Rec Sig F → String → Request Rec Sig F → Outcome (Index Rec Sig F × Reservation)
  group_reserve x capability r = do
    require (right_count r) contract_error
    let f = features_of x r
    check_group layers x.core r.exempt_pairs f
    ok (
      record x { reservations = put x.reservations capability (reserved_entry x r) },
      reservation_of x capability f,
    )

  unfoldable pub group_revalidate : Index Rec Sig F → Reservation → Outcome (Index Rec Sig F)
  unfolding bound_entry
  group_revalidate x r = do
    entry ← bound_entry x r
    require (not (is_some entry.validated)) contract_error
    check_group layers x.core entry.exempt_pairs entry.features
    ok (record x {
      reservations =
          put x.reservations r.capability_id (record entry { validated = some x.core.generation });
    })

  -- An operation that raises leaves the index as it was.
  abbrev pub kept : Index Rec Sig F → Outcome (Index Rec Sig F) → Index Rec Sig F
  kept x (ok y) = y
  kept x (err e) = x

  abbrev pub kept_first :
      Index Rec Sig F → Outcome (Index Rec Sig F × Reservation) → Index Rec Sig F
  kept_first x (ok (y, r)) = y
  kept_first x (err e) = x

  unfoldable pub apply : Operation Rec Sig F → Index Rec Sig F → Index Rec Sig F
  unfolding group_reserve group_revalidate group_commit group_discard reset
  apply (reserve_group capability r) x = kept_first x (group_reserve x capability r)
  apply (revalidate r) x = kept x (group_revalidate x r)
  apply (commit r) x = kept x (group_commit x r)
  apply (discard r) x = kept x (group_discard x r)
  apply clear x = reset x
  apply (change f) x = record x { digest_of = f }

  unfoldable pub apply_all : List (Operation Rec Sig F) → Index Rec Sig F → Index Rec Sig F
  unfolding apply
  apply_all [] x = x
  apply_all (o ∷ os) x = apply_all os (apply o x)
