-- ===== src/Dedup/Records/Stage.antt =====
-- dedup.py: how the records that are kept enter the index, and DedupStage, which reduces a batch in the
-- order of its input.
use label_kit.Prelude.{
  ℕ, ◌+◌, Bool, true, false, not, ◌&&◌, ◌||◌, Option, none, some, List, [], ◌∷◌, ◌++◌, leb,
  if◌then◌else◌, string_eq, ◌==◌, String,
}
use label_kit.Prelude.Dict.{Dict, get, put, remove}
use label_kit.Dedup.Records.{
  Modality, text, ui, Requires, both, tree, image, Kind, unique, exact, near_text, near_image,
  near_both, near_semantic, DedupInfo, Settings, Detail, Hit, Similarity, jaccard_of, hamming_of,
  Index, Probe, more_similar, hit_info, probe_prepared,
}

module _ {Sig : Type 0} where
  -- An entry is taken out of the LSH; none is there for a record without a signature.
  unfoldable pub without_id : String → List (String × Sig) → List (String × Sig)
  without_id id [] = []
  without_id id ((j, s) ∷ lsh) = if j == id then without_id id lsh else (j, s) ∷ without_id id lsh

unfoldable pub without_image : String → List (ℕ × String × String) → List (ℕ × String × String)
without_image id [] = []
without_image id ((p, j, key) ∷ es) =
    if j == id then without_image id es else (p, j, key) ∷ without_image id es

abbrev pub drop_digest : Dict String String → String → Option String → Dict String String
drop_digest digests id none = digests
drop_digest digests id (some d) = elim (get digests d) [
  | none ↦ digests
  | some j ↦ if j == id then remove digests d else digests
]

module _ {Sig Vec : Type 0} where
  unfoldable pub new_index : Index Sig Vec
  new_index = record {
    exact = [];
    digest_by_id = [];
    lsh = [];
    minhashes = [];
    minhash_seq = [];
    seq = 0;
    phashes = [];
    vectors = [];
    last_similarity = none;
    ordinary_generation = 0;
  }

  abbrev pub add_signature : Index Sig Vec → String → String → Option Sig → Index Sig Vec
  add_signature x id key none = x
  add_signature x id key (some s) = record x {
    lsh = x.lsh ++ ((id, s) ∷ []);
    minhashes = put x.minhashes id (s, key);
    minhash_seq = put x.minhash_seq id x.seq;
    seq = x.seq + 1;
  }

  abbrev pub add_phash : Index Sig Vec → String → String → Option ℕ → Index Sig Vec
  add_phash x id key none = x
  add_phash x id key (some p) = record x { phashes = x.phashes ++ ((p, id, key) ∷ []) }

  -- _add
  unfoldable pub add : Index Sig Vec → String → Detail Sig → Index Sig Vec
  add x id d =
      let named = record x {
        ordinary_generation = x.ordinary_generation + 1;
        exact = put x.exact d.digest id;
        digest_by_id = put x.digest_by_id id d.digest;
      } in
      add_phash (add_signature named id d.own_key d.minhash) id d.own_key d.phash

  unfoldable pub drop_signature : Index Sig Vec → String → Option (Sig × String) → Index Sig Vec
  unfolding without_id
  drop_signature x id none = x
  drop_signature x id (some e) = record x {
    minhashes = remove x.minhashes id;
    minhash_seq = remove x.minhash_seq id;
    lsh = without_id id x.lsh;
  }

  -- _retract
  unfoldable pub retract : Index Sig Vec → String → Index Sig Vec
  unfolding drop_signature without_image
  retract x id =
      let unnamed = record x {
        ordinary_generation = x.ordinary_generation + 1;
        exact = drop_digest x.exact id (get x.digest_by_id id);
        digest_by_id = remove x.digest_by_id id;
      } in
      let bare = drop_signature unnamed id (get x.minhashes id) in
      record bare { phashes = without_image id bare.phashes }

  unfoldable pub add_vector : Index Sig Vec → String → String → Vec → Index Sig Vec
  add_vector x id key v = record x {
    ordinary_generation = x.ordinary_generation + 1;
    vectors = x.vectors ++ ((v, id, key) ∷ []);
  }

-- What an embedding call came to: a unit vector, a failure of the provider, or another exception.
pub data Embedding (Vec : Type 0) : Type 0 where
  vector : Vec → Embedding Vec
  provider_failed other_failed : Embedding Vec

-- The record's id, its features, and whether the semantic layer takes part.
pub record Prepared (Sig : Type 0) : Type 0 where
  pub id : String
  pub detail : Detail Sig
  pub is_semantic : Bool

pub data Metric : Type 0 where
  no_metric : Metric
  jaccard hamming cosine : ℕ → Metric

-- A verdict with its metric, or the record's failure.
pub data Reduced : Type 0 where
  verdict : DedupInfo → Metric → Reduced
  failed : Reduced

abbrev pub hit_kind : Option Hit → Option Kind → Option (Hit × Kind)
hit_kind (some h) (some k) = some (h, k)
hit_kind _ _ = none

-- _metric_for
abbrev pub metric_for : Kind → Option Hit → Option Hit → Metric
metric_for near_text (some t) i = jaccard t.measure
metric_for near_both (some t) i = jaccard t.measure
metric_for near_image t (some i) = hamming i.measure
metric_for kind t i = no_metric

abbrev pub similarity_after : Option Similarity → Kind → Option Hit → Option Hit → Option Similarity
similarity_after old exact t i = none
similarity_after old unique t i = old
similarity_after old near_image t (some h) = some (hamming_of h.measure)
similarity_after old kind (some h) i = some (jaccard_of h.measure)
similarity_after old kind t i = old

abbrev pub is_unique : Kind → Bool
is_unique unique = true
is_unique _ = false

module _ {Sig Vec : Type 0} where
  -- The end of `_reduce_one`, with what the vector hits.
  abbrev pub settle_semantic :
      Index Sig Vec → Prepared Sig → DedupInfo → Vec → Option (Hit × Kind) → Reduced × Index Sig Vec
  settle_semantic x p info v none =
      (verdict info no_metric, add_vector (add x p.id p.detail) p.id p.detail.own_key v)
  settle_semantic x p info v (some (h, kind)) = (verdict (hit_info kind h) (cosine h.measure), x)

  abbrev pub probed : Index Sig Vec → Probe → Index Sig Vec
  probed x p = record x {
    last_similarity = similarity_after x.last_similarity p.info.kind p.tree_hit p.image_hit;
  }

abbrev pub tree_kind : Option Hit → Kind
tree_kind none = near_semantic
tree_kind (some h) = near_both

-- The kind of a semantic hit, where `full` says that a record has an image to compare; `none` is no
-- duplicate.
abbrev pub semantic_kind_of : Modality → Requires → (full : Bool) → Option Hit → Option Kind
semantic_kind_of text r full i = some near_semantic
semantic_kind_of ui both true (some h) = some near_both
semantic_kind_of ui both true none = none
semantic_kind_of ui both false i = some (tree_kind i)
semantic_kind_of ui tree full i = some (tree_kind i)
semantic_kind_of ui image full i = some (tree_kind i)

module _ {Sig Vec : Type 0} (settings : Settings Sig Vec) where
  abbrev pub vector_candidate : Vec → Option Hit → Vec × String × String → Option Hit
  vector_candidate v best (w, id, key) =
      let c = settings.cosine w v in
      if more_similar best c then some (record { id = id; key = key; measure = c }) else best

  -- np.argmax keeps the first of the greatest.
  unfoldable pub best_vector : Vec → Option Hit → List (Vec × String × String) → Option Hit
  best_vector v best [] = best
  best_vector v best (e ∷ es) = best_vector v (vector_candidate v best e) es

  abbrev pub over_threshold : Option Hit → Option Hit
  over_threshold none = none
  over_threshold (some h) = if leb settings.semantic_threshold h.measure then some h else none

  unfoldable pub semantic_probe : Index Sig Vec → Vec → Option Hit
  unfolding best_vector
  semantic_probe x v = over_threshold (best_vector v none x.vectors)

  -- _semantic_verdict_kind
  abbrev pub semantic_kind : Detail Sig → Option Hit → Option Kind
  semantic_kind d i =
      semantic_kind_of settings.modality settings.ui_dup_requires
        (not d.image_decode_failed && not d.is_sequence) i

  -- _semantic_participates
  unfoldable pub semantic_participates : Detail Sig → Bool
  semantic_participates d = not (d.exact_only || d.image_sample) && elim settings.modality [
    | text ↦ true
    | ui ↦ elim settings.ui_dup_requires [
      | image ↦ d.image_decode_failed || d.is_sequence
      | both ↦ true
      | tree ↦ true
    ]
  ]

  -- The branch of a record that the first layers find unique.
  unfoldable pub reduce_unique :
      Index Sig Vec → Prepared Sig → Probe → Bool → Option (Embedding Vec) → Reduced × Index Sig Vec
  unfolding semantic_probe
  reduce_unique x p q false e = (verdict q.info no_metric, add x p.id p.detail)
  reduce_unique x p q true none = (failed, x)
  reduce_unique x p q true (some provider_failed) = (verdict q.info no_metric, add x p.id p.detail)
  reduce_unique x p q true (some other_failed) = (failed, x)
  reduce_unique x p q true (some (vector v)) =
      settle_semantic x p q.info v
        (hit_kind (semantic_probe x v) (semantic_kind p.detail q.image_hit))

  -- _reduce_one
  unfoldable pub reduce_one :
      Index Sig Vec → Prepared Sig → Option (Embedding Vec) → Reduced × Index Sig Vec
  unfolding reduce_unique
  reduce_one x p e =
      let q = probe_prepared settings x p.detail in
      let now = probed x q in
      if is_unique q.info.kind
      then reduce_unique now p q p.is_semantic e
      else (verdict q.info (metric_for q.info.kind q.tree_hit q.image_hit), now)

  -- The loop of `run` over the prepared records of a batch.
  unfoldable pub reduce_all :
      Index Sig Vec → List (Prepared Sig × Option (Embedding Vec)) → List Reduced × Index Sig Vec
  unfolding reduce_one
  reduce_all x [] = ([], x)
  reduce_all x ((p, e) ∷ ps) =
      let (r, y) = reduce_one x p e in let (rs, z) = reduce_all y ps in (r ∷ rs, z)
