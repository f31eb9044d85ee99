-- ===== src/Dedup/Examples.antt =====
-- dedup.py: runs of the two indexes at concrete records, and the theorems at them.
use label_kit.Prelude.{
  ℕ, ◌≡◌, refl, true, false, Option, none, some, List, [], ◌∷◌, String, inl, nat_beq, if◌then◌else◌,
}
use label_kit.Prelude.Dict.{get, put, remove, is_in}
use label_kit.Dedup.Group.{Layers, Index, Reservation, Request, slot_eq, slots_of, prefix}
use label_kit.Dedup.Group.Checks.{check_group, commit_group}
use label_kit.Dedup.Group.Operations.{
  new_index, Operation, reserve_group, revalidate, commit, discard, apply_all, apply, group_commit,
}
use label_kit.Dedup.Group.Serial.{Serial, apply_all-Serial}
use label_kit.Dedup.Group.Spent.{use-IsSpent, IsSpent}
use label_kit.Dedup.Records.{
  Settings, Detail, text, both, DedupInfo, unique, exact, near_text, probe_prepared, best_text,
  sort_by, best_image,
}
use label_kit.Dedup.Records
use label_kit.Dedup.Records.Stage
use label_kit.Dedup.Records.Stage.{
  Prepared, Embedding, vector, Reduced, verdict, no_metric, jaccard, reduce_all, add, retract,
  semantic_probe,
}
use label_kit.Dedup.Records.Right.{AreRight}
use label_kit.Dedup.Records.Verdicts.{reduce_all-AreRight}
use label_kit.Dedup.Records.Retract.{probe-retract}

-- Signatures are numbers: the similarity is 10 for equal ones, and the LSH finds every key.
abbrev likeness : ℕ → ℕ → ℕ
likeness a b = if nat_beq a b then 10 else 0

abbrev keys_of : {K : Type 0} → List (K × ℕ) → List K
keys_of [] = []
keys_of ((k, s) ∷ lsh) = k ∷ keys_of lsh

abbrev layers : Layers ℕ ℕ
layers = record {
  query = λ lsh s. keys_of lsh;
  jaccard = likeness;
  minhash_threshold = 8;
  is_finite = λ x. true;
  dot = λ v w. 0;
  semantic_threshold = 9;
}

abbrev one_record : String → String → ℕ → Request String ℕ ℕ
one_record id digest s = record {
  records = id ∷ [];
  ids = id ∷ [];
  exact = digest ∷ [];
  minhash = some s ∷ [];
  vectors = none;
  exempt_pairs = [];
}

abbrev held : String → String → String → Reservation
held capability id digest = record {
  capability_id = capability;
  epoch = 0;
  record_digests = id ∷ [];
  exact_cluster_keys = digest ∷ [];
}

-- Two groups with the same text are reserved; the first is committed, and the second is rejected when
-- it is validated again.
abbrev race : List (Operation String ℕ ℕ)
race =
    reserve_group "c1" (one_record "r1" "aaaa" 1)
    ∷ reserve_group "c2" (one_record "r2" "aaaa" 1)
    ∷ revalidate (held "c1" "r1" "aaaa")
    ∷ commit (held "c1" "r1" "aaaa")
    ∷ revalidate (held "c2" "r2" "aaaa")
    ∷ commit (held "c2" "r2" "aaaa")
    ∷ []

apply_all-Serial_example : Serial layers (apply_all layers race (new_index (λ id. id))).core
apply_all-Serial_example = apply_all-Serial layers (λ id. id) race

abbrev prepared_first : List (Operation String ℕ ℕ)
prepared_first =
    reserve_group "c1" (one_record "r1" "aaaa" 1) ∷ revalidate (held "c1" "r1" "aaaa") ∷ []

abbrev before_commit : Index String ℕ ℕ
unfolding apply_all new_index get put is_in slots_of check_group commit_group remove group_commit
    prefix
before_commit = apply_all layers prepared_first (new_index (λ id. id))

abbrev committed : Index String ℕ ℕ
unfolding before_commit
committed = apply layers (commit (held "c1" "r1" "aaaa")) before_commit

use-IsSpent_example :
    IsSpent layers
      (held "c1" "r1" "aaaa")
      (apply_all layers (discard (held "c1" "r1" "aaaa") ∷ []) committed)
unfolding committed
use-IsSpent_example =
    use-IsSpent layers (λ id. id) prepared_first (discard (held "c1" "r1" "aaaa") ∷ [])
      (held "c1" "r1" "aaaa") committed (inl refl) (tt, tt)

-- The second group of the race is not committed.
race_run : (apply_all layers race (new_index (λ id. id))).core.exact ≡ ("aaaa", "r1") ∷ []
unfolding before_commit
race_run = refl

-- The settings of a text run.
abbrev settings : Settings ℕ ℕ
settings = record {
  modality = text;
  ui_dup_requires = both;
  query = λ lsh s. keys_of lsh;
  jaccard = likeness;
  minhash_threshold = 8;
  image_phash_max_distance = 4;
  cosine = likeness;
  semantic_threshold = 9;
}

abbrev detail : String → ℕ → Detail ℕ
detail digest s = record {
  digest = digest;
  own_key = digest;
  is_sequence = false;
  exact_only = false;
  minhash = some s;
  phash = none;
  image_decode_failed = false;
  image_sample = false;
}

abbrev plain : String → String → ℕ → Prepared ℕ × Option (Embedding ℕ)
plain id digest s = (record { id = id; detail = detail digest s; is_semantic = false }, none)

abbrev batch : List (Prepared ℕ × Option (Embedding ℕ))
batch = plain "r1" "aaaa" 1 ∷ plain "r2" "bbbb" 1 ∷ plain "r3" "aaaa" 2 ∷ plain "r4" "cccc" 2 ∷ []

abbrev info : Records.Kind → String → Option String → DedupInfo
info kind key kept = record { kind = kind; cluster_key = key; kept_id = kept }

batch_run :
    (reduce_all settings Stage.new_index batch).0
    ≡ verdict (info unique "aaaa" none) no_metric
      ∷ verdict (info near_text "aaaa" (some "r1")) (jaccard 10)
      ∷ verdict (info exact "aaaa" (some "r1")) no_metric
      ∷ verdict (info unique "cccc" none) no_metric
      ∷ []
unfolding reduce_all Stage.new_index probe_prepared get put add
batch_run = refl

reduce_all-AreRight_example :
    AreRight settings [] batch (reduce_all settings Stage.new_index batch).0
reduce_all-AreRight_example = reduce_all-AreRight settings batch

abbrev first : Records.Index ℕ ℕ
unfolding Stage.new_index
first = Stage.new_index

probe-retract_example :
    (probe_prepared settings (retract (add first "r1" (detail "aaaa" 1)) "r1") (detail "aaaa" 1)
      ≡ probe_prepared settings first (detail "aaaa" 1))
    × (semantic_probe settings (retract (add first "r1" (detail "aaaa" 1)) "r1") 3
        ≡ semantic_probe settings first 3)
unfolding first get
probe-retract_example =
    probe-retract settings first "r1" (detail "aaaa" 1)
      (record { text = refl; digest = refl; signature = refl; order = refl; lsh = tt; images = tt })
      (detail "aaaa" 1) 3
