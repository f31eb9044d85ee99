-- ===== src/Dedup/Group/Checks.antt =====
-- dedup.py, DedupIndex: what a group of records is checked for, and what its commit writes.
use label_kit.Prelude.{
  ℕ, ◌+◌, Bool, true, false, not, ◌&&◌, ◌||◌, Option, none, some, List, [], ◌∷◌, ◌++◌, ltb, leb,
  nat_beq, if◌then◌else◌, length, is_nil, is_some, string_eq, nat_eq, ◌==◌, String,
}
use label_kit.Prelude.Dict.{Dict, get, put, set_default, is_in}
use label_kit.Dedup.Group.{
  contract_error, rejected, key_error, Outcome, ok, err, ◌>>=◌, ◌>>◌, require, Layers, Features,
  Slot, Core, Pairs, SlotKey, slot_eq, slots_of,
}

unfoldable pub has_repeats : List String → Bool
has_repeats [] = false
has_repeats (x ∷ xs) = is_in x xs || has_repeats xs

-- `pair in exempt_pairs`
unfoldable pub has_pair : String → String → Pairs → Bool
has_pair a b [] = false
has_pair a b ((c, d) ∷ pairs) = (a == c && b == d) || has_pair a b pairs

module _ {Sig F : Type 0} (layers : Layers Sig F) where
  abbrev aligned : Features Sig F → Bool
  aligned f =
      let size = length f.record_ids in
      nat_beq (length f.record_digests) size
      && (nat_beq (length f.exact_features) size
          && (nat_beq (length f.minhash_features) size
              && (is_nil f.embedding_features || nat_beq (length f.embedding_features) size)))

  unfoldable pub same_width : ℕ → List (List F) → Bool
  same_width n [] = true
  same_width n (v ∷ vs) = nat_beq (length v) n && same_width n vs

  unfoldable pub all_finite : List F → Bool
  all_finite [] = true
  all_finite (x ∷ xs) = layers.is_finite x && all_finite xs

  unfoldable pub finite_vectors : List (List F) → Bool
  unfolding all_finite
  finite_vectors [] = true
  finite_vectors (v ∷ vs) = all_finite v && finite_vectors vs

  abbrev fits_buffer : Option ℕ → ℕ → Bool
  fits_buffer none n = true
  fits_buffer (some d) n = nat_beq d n

  -- The checks of the vectors: one width, which is not 0, finite values, and the buffer's width.
  unfoldable pub check_vectors : Option ℕ → List (List F) → Outcome (Unit {0})
  unfolding same_width finite_vectors
  check_vectors dim [] = ok tt
  check_vectors dim (v ∷ vs) = do
    require (same_width (length v) vs && ltb 0 (length v)) contract_error
    require (finite_vectors (v ∷ vs)) contract_error
    require (fits_buffer dim (length v)) contract_error

  unfoldable pub validate_group_commit : Core Sig F → Features Sig F → Outcome (Unit {0})
  unfolding has_repeats check_vectors
  validate_group_commit core f = do
    require (aligned f) contract_error
    require (not (has_repeats f.record_ids)) contract_error
    check_vectors core.vec_dim f.embedding_features

  -- The signatures of the candidates are compared again; a candidate without one is a KeyError.
  unfoldable pub any_near : Sig → List SlotKey → Dict SlotKey Sig → Outcome Bool
  any_near s [] minhashes = ok false
  any_near s (k ∷ ks) minhashes =
      let rest = any_near s ks minhashes in
      elim (get minhashes k) [
        | none ↦ err key_error
        | some t ↦ if leb layers.minhash_threshold (layers.jaccard s t) then ok true else rest
      ]

  unfoldable pub near_committed : Core Sig F → Option Sig → Outcome Bool
  unfolding any_near
  near_committed core none = ok false
  near_committed core (some s) = any_near s (layers.query core.lsh s) core.minhashes

  unfoldable pub any_similar : List F → List (List F) → Bool
  any_similar v [] = false
  any_similar v (w ∷ ws) = leb layers.semantic_threshold (layers.dot w v) || any_similar v ws

  unfoldable pub semantic_hit : Core Sig F → Option (List F) → Outcome Bool
  unfolding any_similar
  semantic_hit core none = ok false
  semantic_hit core (some v) =
      if is_nil core.vecs
      then ok false
      else if fits_buffer core.vec_dim (length v)
      then ok (any_similar v core.vecs)
      else err contract_error

  -- _group_hits_committed
  unfoldable pub hits_committed : Core Sig F → Slot Sig F → Outcome Bool
  unfolding near_committed semantic_hit
  hits_committed core s = if is_some (get core.exact s.exact) then ok true else do
    near ← near_committed core s.minhash
    if near then ok true else semantic_hit core s.embedding

  abbrev near_signatures : Option Sig → Option Sig → Bool
  near_signatures (some s) (some t) = leb layers.minhash_threshold (layers.jaccard s t)
  near_signatures _ _ = false

  abbrev near_vectors : Option (List F) → Option (List F) → Bool
  near_vectors (some v) (some w) = leb layers.semantic_threshold (layers.dot v w)
  near_vectors _ _ = false

  -- _group_duplicate
  unfoldable pub group_duplicate : Slot Sig F → Slot Sig F → Bool
  group_duplicate s t =
      s.exact == t.exact
      || (near_signatures s.minhash t.minhash || near_vectors s.embedding t.embedding)

  unfoldable pub none_committed : Core Sig F → List (Slot Sig F) → Outcome (Unit {0})
  unfolding hits_committed
  none_committed core [] = ok tt
  none_committed core (s ∷ ss) = do
    hit ← hits_committed core s
    require (not hit) rejected
    none_committed core ss

  -- A record against those before it in the group.
  unfoldable pub clear_of : Pairs → Slot Sig F → List (Slot Sig F) → Bool
  unfolding has_pair group_duplicate
  clear_of exempt s [] = true
  clear_of exempt s (t ∷ ts) =
      (has_pair t.id s.id exempt || (has_pair s.id t.id exempt || not (group_duplicate s t)))
      && clear_of exempt s ts

  unfoldable pub none_within : Pairs → List (Slot Sig F) → List (Slot Sig F) → Outcome (Unit {0})
  unfolding clear_of
  none_within exempt before [] = ok tt
  none_within exempt before (s ∷ ss) = do
    require (clear_of exempt s before) rejected
    none_within exempt (before ++ (s ∷ [])) ss

  unfoldable pub reject_group_duplicate : Core Sig F → Pairs → Features Sig F → Outcome (Unit {0})
  unfolding none_committed none_within
  reject_group_duplicate core exempt f = do
    none_committed core (slots_of f)
    none_within exempt [] (slots_of f)

  -- What both the reservation and the validation check.
  unfoldable pub check_group : Core Sig F → Pairs → Features Sig F → Outcome (Unit {0})
  unfolding validate_group_commit reject_group_duplicate
  check_group core exempt f = do validate_group_commit core f; reject_group_duplicate core exempt f

module _ {Sig F : Type 0} where
  abbrev write_signature : Core Sig F → ℕ → Option Sig → Core Sig F
  write_signature core i none = core
  write_signature core i (some s) =
      let key : SlotKey = (core.generation, i) in
      record core { lsh = core.lsh ++ ((key, s) ∷ []); minhashes = put core.minhashes key s }

  abbrev write_vector : Core Sig F → String → Option (List F) → Core Sig F
  write_vector core id none = core
  write_vector core id (some v) = record core {
    vec_dim = if is_some core.vec_dim then core.vec_dim else some (length v);
    vec_ids = core.vec_ids ++ (id ∷ []);
    vecs = core.vecs ++ (v ∷ []);
  }

  unfoldable pub write_slot : Core Sig F → ℕ → Slot Sig F → Core Sig F
  write_slot core i s =
      let named = record core { exact = set_default core.exact s.exact s.id } in
      write_vector (write_signature named i s.minhash) s.id s.embedding

  unfoldable pub write_slots : Core Sig F → ℕ → List (Slot Sig F) → Core Sig F
  unfolding write_slot
  write_slots core i [] = core
  write_slots core i (s ∷ ss) = write_slots (write_slot core i s) (i + 1) ss

  -- _commit_group_features, and the new generation.
  unfoldable pub commit_group : Core Sig F → Features Sig F → Core Sig F
  unfolding write_slots slots_of
  commit_group core f =
      let written = write_slots core 0 (slots_of f) in
      record written { generation = core.generation + 1 }
