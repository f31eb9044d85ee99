-- ===== src/Dedup/Records.antt =====
-- labelkit/operators/dedup.py, DedupIndex: the index of the records that were kept, over exact digests,
-- MinHash signatures, image hashes and embedding vectors, and what a probe of it answers.
pub mod Stage
pub mod Kept
pub mod Hits
pub mod Holds
pub mod Right
pub mod Cases
pub mod Retract
pub mod Verdicts
use Prim.Native.Nat.{bit_xor}
use label_kit.Prelude.{
  ℕ, zero, suc, ◌+◌, ◌/◌, ◌%◌, Bool, true, false, not, ◌&&◌, ◌||◌, Option, none, some, List, [],
  ◌∷◌, ◌++◌, ltb, leb, nat_beq, if◌then◌else◌, is_nil, is_some, Equality, string_eq, ◌==◌, String,
}
use label_kit.Prelude.Dict.{Dict, get, put, remove, or_default}

pub data Modality : Type 0 where
  text ui : Modality

-- [dedup] ui_dup_requires
pub data Requires : Type 0 where
  both tree image : Requires

pub data Kind : Type 0 where
  unique exact near_text near_image near_both near_semantic : Kind

pub record DedupInfo : Type 0 where
  pub kind : Kind
  pub cluster_key : String
  pub kept_id : Option String

-- The settings, MinHashLSH.query and the similarities of signatures and of unit vectors, of which
-- only the order counts.
pub record Settings (Sig Vec : Type 0) : Type 0 where
  pub modality : Modality
  pub ui_dup_requires : Requires
  pub query : List (String × Sig) → Sig → List String
  pub jaccard : Sig → Sig → ℕ
  pub minhash_threshold : ℕ
  pub image_phash_max_distance : ℕ
  pub cosine : Vec → Vec → ℕ
  pub semantic_threshold : ℕ

-- _ProbeDetail as `prepare` makes it.
pub record Detail (Sig : Type 0) : Type 0 where
  pub digest : String
  pub own_key : String
  pub is_sequence : Bool
  pub exact_only : Bool
  pub minhash : Option Sig
  pub phash : Option ℕ
  pub image_decode_failed : Bool
  pub image_sample : Bool

-- A hit: the kept record's id, its cluster key, and the measure.
pub record Hit : Type 0 where
  pub id : String
  pub key : String
  pub measure : ℕ

pub data Similarity : Type 0 where
  jaccard_of hamming_of : ℕ → Similarity

pub record Index (Sig Vec : Type 0) : Type 0 where
  pub exact : Dict String String
  pub digest_by_id : Dict String String
  pub lsh : List (String × Sig)
  pub minhashes : Dict String (Sig × String)
  pub minhash_seq : Dict String ℕ
  pub seq : ℕ
  pub phashes : List (ℕ × String × String)
  pub vectors : List (Vec × String × String)
  pub last_similarity : Option Similarity
  pub ordinary_generation : ℕ

pub record Probe : Type 0 where
  pub tree_hit : Option Hit
  pub image_hit : Option Hit
  pub info : DedupInfo

-- int.bit_count, of a number below 2 ^ n.
unfoldable pub bit_count : ℕ → ℕ → ℕ
bit_count zero x = 0
bit_count (suc n) x = x % 2 + bit_count n (x / 2)

-- The image hashes have 64 bits.
unfoldable pub hamming : ℕ → ℕ → ℕ
unfolding bit_count
hamming a b = bit_count 64 (bit_xor a b)

abbrev pub unseen : ℕ
unseen = 4611686018427387904

unfoldable pub insert_by : (String → ℕ) → String → List String → List String
insert_by key x [] = x ∷ []
insert_by key x (y ∷ ys) = if leb (key x) (key y) then x ∷ y ∷ ys else y ∷ insert_by key x ys

-- sorted(xs, key=...): entries of one key keep their order.
unfoldable pub sort_by : (String → ℕ) → List String → List String
unfolding insert_by
sort_by key [] = []
sort_by key (x ∷ xs) = insert_by key x (sort_by key xs)

abbrev pub more_similar : Option Hit → ℕ → Bool
more_similar none m = true
more_similar (some h) m = ltb h.measure m

abbrev pub nearer : Option Hit → ℕ → Bool
nearer none m = true
nearer (some h) m = ltb m h.measure

abbrev pub is_dup : Requires → Option Hit → Option Hit → Bool
is_dup both t i = is_some t && is_some i
is_dup tree t i = is_some t
is_dup image t i = is_some i

abbrev pub hit_info : Kind → Hit → DedupInfo
hit_info kind h = record { kind = kind; cluster_key = h.key; kept_id = some h.id }

module _ {Sig : Type 0} where
  abbrev pub unique_info : Detail Sig → DedupInfo
  unique_info d = record { kind = unique; cluster_key = d.own_key; kept_id = none }

  -- The verdict of a record of the ui modality that is a duplicate.
  abbrev pub ui_info : Detail Sig → Option Hit → Option Hit → DedupInfo
  ui_info d (some t) (some i) = hit_info near_both t
  ui_info d (some t) none = hit_info near_text t
  ui_info d none (some i) = hit_info near_image i
  ui_info d none none = unique_info d

  abbrev pub text_info : Detail Sig → Option Hit → DedupInfo
  text_info d none = unique_info d
  text_info d (some t) = hit_info near_text t

module _ {Sig Vec : Type 0} (settings : Settings Sig Vec) where
  abbrev pub text_candidate : Sig → Option Hit → String → Option (Sig × String) → Option Hit
  text_candidate s best id none = best
  text_candidate s best id (some (t, key)) =
      let est = settings.jaccard s t in
      if leb settings.minhash_threshold est && more_similar best est
      then some (record { id = id; key = key; measure = est })
      else best

  unfoldable pub best_text :
      Dict String (Sig × String) → Sig → Option Hit → List String → Option Hit
  best_text minhashes s best [] = best
  best_text minhashes s best (c ∷ cs) =
      best_text minhashes s (text_candidate s best c (get minhashes c)) cs

  -- _query_near_text
  unfoldable pub query_near_text : Index Sig Vec → Option Sig → Option Hit
  unfolding best_text sort_by
  query_near_text x none = none
  query_near_text x (some s) =
      best_text x.minhashes s none
        (sort_by (λ c. or_default (get x.minhash_seq c) unseen) (settings.query x.lsh s))

  abbrev pub image_candidate : ℕ → Option Hit → ℕ × String × String → Option Hit
  image_candidate p best (stored, id, key) =
      let d = hamming stored p in
      if leb d settings.image_phash_max_distance && nearer best d
      then some (record { id = id; key = key; measure = d })
      else best

  unfoldable pub best_image : ℕ → Option Hit → List (ℕ × String × String) → Option Hit
  best_image p best [] = best
  best_image p best (e ∷ es) = best_image p (image_candidate p best e) es

  -- _query_near_image
  unfoldable pub query_near_image : Index Sig Vec → Option ℕ → Option Hit
  unfolding best_image
  query_near_image x none = none
  query_near_image x (some p) = best_image p none x.phashes

  -- What a record of the ui modality must have in common with another.
  abbrev pub requires_of : Detail Sig → Requires
  requires_of d =
      if d.image_decode_failed || d.is_sequence then tree else elim settings.ui_dup_requires [
        | both ↦ if d.image_sample && not (is_some d.minhash) then image else both
        | tree ↦ tree
        | image ↦ image
      ]

  -- _compose
  unfoldable pub compose : Detail Sig → Option Hit → Option Hit → DedupInfo
  compose d t i = elim settings.modality [
    | text ↦ text_info d t
    | ui ↦ if is_dup (requires_of d) t i then ui_info d t i else unique_info d
  ]

  unfoldable pub probe_exact : Index Sig Vec → Detail Sig → Option String → Probe
  unfolding query_near_text query_near_image compose
  probe_exact x d (some kept) = record {
    tree_hit = none;
    image_hit = none;
    info = record { kind = exact; cluster_key = d.own_key; kept_id = some kept };
  }
  probe_exact x d none =
      let t = query_near_text x d.minhash in
      let i = query_near_image x d.phash in
      record { tree_hit = t; image_hit = i; info = compose d t i }

  unfoldable pub probe_prepared : Index Sig Vec → Detail Sig → Probe
  unfolding probe_exact
  probe_prepared x d = probe_exact x d (get x.exact d.digest)
