-- ===== src/Dedup/Records/Right.antt =====
-- dedup.py: what the outcome of a record has to be, by the records that were kept before it. Nothing
-- here reads the index.
use label_kit.Prelude.{
  ℕ, ◌≡◌, ◌⊎◌, Bool, true, false, not, ◌&&◌, ◌||◌, Option, none, some, List, [], ◌∷◌, ltb, leb,
  if◌then◌else◌, is_some, string_eq, String,
}
use label_kit.Dedup.Records.{
  Modality, text, ui, Requires, both, tree, image, Kind, unique, exact, near_text, near_image,
  near_both, near_semantic, DedupInfo, Settings, Detail, Hit, hamming,
}
use label_kit.Dedup.Records.Stage.{
  Embedding, vector, provider_failed, other_failed, Prepared, Metric, no_metric, jaccard,
  hamming as hamming_metric, cosine, Reduced, verdict, failed, is_unique,
}
use label_kit.Dedup.Records.Kept.{
  Kept, IsBest, signatures, images, vectors, text_in, signature_in, kept_of,
}

abbrev pub Hits : Option Hit → Type 0
Hits none = ⊥
Hits (some h) = Unit {0}

-- The layers that must hit for a record of the ui modality to be a duplicate, where it may have no
-- image to compare, or no text.
abbrev pub IsUiDuplicate : Requires → (no_image no_text : Bool) → Option Hit → Option Hit → Type 0
IsUiDuplicate r true no_text t i = Hits t
IsUiDuplicate both false true t i = Hits i
IsUiDuplicate both false false t i = Hits t × Hits i
IsUiDuplicate tree false no_text t i = Hits t
IsUiDuplicate image false no_text t i = Hits i

abbrev pub IsNear :
    Modality → Requires → (no_image no_text : Bool) → Option Hit → Option Hit → Type 0
IsNear text r no_image no_text t i = Hits t
IsNear ui r no_image no_text t i = IsUiDuplicate r no_image no_text t i

abbrev pub names : Kind → Hit → DedupInfo
names kind h = record { kind = kind; cluster_key = h.key; kept_id = some h.id }

-- A near duplicate is one of the text hit if there is one, and of the image hit else.
abbrev pub near_info : Modality → Option Hit → Option Hit → DedupInfo → DedupInfo
near_info text (some t) i else_info = names near_text t
near_info ui (some t) none else_info = names near_text t
near_info ui (some t) (some i) else_info = names near_both t
near_info ui none (some i) else_info = names near_image i
near_info text none i else_info = else_info
near_info ui none none else_info = else_info

abbrev pub near_metric : Option Hit → Option Hit → Metric
near_metric (some t) i = jaccard t.measure
near_metric none (some i) = hamming_metric i.measure
near_metric none none = no_metric

-- Where the ui modality asks for both layers and there is an image, a vector alone is not enough.
abbrev pub IsVectorNear : Modality → Requires → (no_image : Bool) → Option Hit → Type 0
IsVectorNear text r no_image i = Unit {0}
IsVectorNear ui both false i = Hits i
IsVectorNear ui both true i = Unit {0}
IsVectorNear ui tree no_image i = Unit {0}
IsVectorNear ui image no_image i = Unit {0}

abbrev pub vector_kind : Modality → Option Hit → Kind
vector_kind text i = near_semantic
vector_kind ui none = near_semantic
vector_kind ui (some i) = near_both

abbrev pub image_hit : ℕ → ℕ × String × String → Option Hit
image_hit p (stored, id, key) = some (record { id = id; key = key; measure = hamming stored p })

-- A record without an image to compare, and an image without boxes.
abbrev pub lacks_image : {Sig : Type 0} → Detail Sig → Bool
lacks_image d = d.image_decode_failed || d.is_sequence

abbrev pub lacks_text : {Sig : Type 0} → Detail Sig → Bool
lacks_text d = d.image_sample && not (is_some d.minhash)

module _ {Sig Vec : Type 0} (settings : Settings Sig Vec) where
  abbrev pub text_hit : Sig → String → Option (Sig × String) → Option Hit
  text_hit s id none = none
  text_hit s id (some (t, key)) =
      some (record { id = id; key = key; measure = settings.jaccard s t })

  -- The most similar signature among those that the LSH finds.
  abbrev pub IsTextHit : List (Kept Sig Vec) → Option Sig → Option Hit → Type 0
  IsTextHit kept none o = o ≡ none
  IsTextHit kept (some s) o =
      IsBest (λ id. text_hit s id (signature_in kept id)) (leb settings.minhash_threshold)
        (λ m n. ltb n m) (settings.query (signatures kept) s) o

  -- The nearest image hash.
  abbrev pub IsImageHit : List (Kept Sig Vec) → Option ℕ → Option Hit → Type 0
  IsImageHit kept none o = o ≡ none
  IsImageHit kept (some p) o =
      IsBest (image_hit p) (λ m. leb m settings.image_phash_max_distance) ltb (images kept) o

  abbrev pub vector_hit : Vec → Vec × String × String → Option Hit
  vector_hit v (w, id, key) = some (record { id = id; key = key; measure = settings.cosine w v })

  -- The most similar vector.
  abbrev pub IsVectorHit : List (Kept Sig Vec) → Vec → Option Hit → Type 0
  IsVectorHit kept v o =
      IsBest (vector_hit v) (leb settings.semantic_threshold) (λ m n. ltb n m) (vectors kept) o

  -- No kept record has the digest, and these are the hits of the two near layers.
  pub record IsProbe (kept : List (Kept Sig Vec)) (d : Detail Sig) (t i : Option Hit) : Type 0 where
    pub new_text : text_in kept d.digest ≡ none
    pub in_text : IsTextHit kept d.minhash t
    pub in_image : IsImageHit kept d.phash i

  abbrev pub IsNearDuplicate : Detail Sig → Option Hit → Option Hit → Type 0
  IsNearDuplicate d t i =
      IsNear settings.modality settings.ui_dup_requires (lacks_image d) (lacks_text d) t i

  abbrev pub IsVectorDuplicate : Detail Sig → Option Hit → Type 0
  IsVectorDuplicate d i = IsVectorNear settings.modality settings.ui_dup_requires (lacks_image d) i

abbrev pub alone : {Sig : Type 0} → Detail Sig → DedupInfo
alone d = record { kind = unique; cluster_key = d.own_key; kept_id = none }

-- The outcome that a record must have.
pub data IsRight {Sig Vec : Type 0} (settings : Settings Sig Vec) (kept : List (Kept Sig Vec))
    (p : Prepared Sig) (e : Option (Embedding Vec)) : Reduced → Type 0 where
  same_text :
      (id : String)
      → text_in kept p.detail.digest ≡ some id
      → IsRight settings kept p e (
          verdict
            (record { kind = exact; cluster_key = p.detail.own_key; kept_id = some id })
            no_metric)
  near :
      (t i : Option Hit)
      → IsProbe settings kept p.detail t i
      → IsNearDuplicate settings p.detail t i
      → IsRight settings kept p e
          (verdict (near_info settings.modality t i (alone p.detail)) (near_metric t i))
  no_vector :
      (t i : Option Hit)
      → IsProbe settings kept p.detail t i
      → ¬ IsNearDuplicate settings p.detail t i
      → (p.is_semantic ≡ false) ⊎ (e ≡ some provider_failed)
      → IsRight settings kept p e (verdict (alone p.detail) no_metric)
  new_vector :
      (t i o : Option Hit) (v : Vec)
      → IsProbe settings kept p.detail t i
      → ¬ IsNearDuplicate settings p.detail t i
      → p.is_semantic ≡ true
      → e ≡ some (vector v)
      → IsVectorHit settings kept v o
      → ¬ (Hits o × IsVectorDuplicate settings p.detail i)
      → IsRight settings kept p e (verdict (alone p.detail) no_metric)
  near_vector :
      (t i : Option Hit) (h : Hit) (v : Vec)
      → IsProbe settings kept p.detail t i
      → ¬ IsNearDuplicate settings p.detail t i
      → p.is_semantic ≡ true
      → e ≡ some (vector v)
      → IsVectorHit settings kept v (some h)
      → IsVectorDuplicate settings p.detail i
      → IsRight settings kept p e
          (verdict (names (vector_kind settings.modality i) h) (cosine h.measure))
  no_answer :
      (t i : Option Hit)
      → IsProbe settings kept p.detail t i
      → ¬ IsNearDuplicate settings p.detail t i
      → p.is_semantic ≡ true
      → (e ≡ none) ⊎ (e ≡ some other_failed)
      → IsRight settings kept p e failed

abbrev pub vector_of : {Vec : Type 0} → Bool → Option (Embedding Vec) → Option Vec
vector_of true (some (vector v)) = some v
vector_of semantic e = none

module _ {Sig Vec : Type 0} where
  -- The records that are unique are kept.
  abbrev pub kept_after :
      List (Kept Sig Vec) → Prepared Sig → Option (Embedding Vec) → Reduced → List (Kept Sig Vec)
  kept_after kept p e failed = kept
  kept_after kept p e (verdict info m) =
      if is_unique info.kind then kept_of p.id p.detail (vector_of p.is_semantic e) ∷ kept else kept

-- Each outcome of a batch is right by the records that were kept before it.
abbrev pub AreRight :
    {Sig Vec : Type 0}
    → Settings Sig Vec
    → List (Kept Sig Vec)
    → List (Prepared Sig × Option (Embedding Vec))
    → List Reduced
    → Type 0
AreRight settings kept [] [] = Unit {0}
AreRight settings kept [] (r ∷ rs) = ⊥
AreRight settings kept (p ∷ ps) [] = ⊥
AreRight settings kept ((p, e) ∷ ps) (r ∷ rs) =
    IsRight settings kept p e r × AreRight settings (kept_after kept p e r) ps rs
