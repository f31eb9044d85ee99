-- ===== src/Dedup/Records/Verdicts.antt =====
-- dedup.py: every outcome of a batch is right by the records that were kept before.
use label_kit.Prelude.{
  ℕ, ◌≡◌, refl, sym, ◌∙◌, ap, subst, fun_ext, ◌⊎◌, inl, inr, Bool, true, false, Option, none, some,
  List, [], ◌∷◌, if◌then◌else◌, leb, ltb, String, string_eq,
}
use label_kit.Prelude.Dict.{get}
use label_kit.Dedup.Records.{
  Kind, DedupInfo, Settings, Hit, Index, Probe, compose, query_near_text, query_near_image,
  probe_exact, probe_prepared,
}
use label_kit.Dedup.Records.Stage.{
  new_index, Embedding, vector, provider_failed, other_failed, Prepared, Metric, no_metric, Reduced,
  verdict, semantic_probe, semantic_kind, semantic_kind_of, hit_kind, is_unique, probed,
  settle_semantic, reduce_unique, reduce_one, reduce_all, metric_for,
}
use label_kit.Dedup.Records.Kept.{Kept, IsBest, kept_of, signature_in}
use label_kit.Dedup.Records.Right.{
  near_info, vector_kind, IsTextHit, IsImageHit, IsVectorHit, text_hit, image_hit, vector_hit,
  IsProbe, IsNearDuplicate, IsVectorDuplicate, lacks_image, lacks_text, alone, IsRight, same_text,
  near, no_vector, new_vector, near_vector, no_answer, kept_after, vector_of, AreRight,
}
use label_kit.Dedup.Records.Hits.Layers.{
  query_near_text-IsBest, query_near_image-IsBest, semantic_probe-IsBest,
}
use label_kit.Dedup.Records.Holds.{Holds, new_index-Holds, add_with, add_with-Holds, probed-Holds}
use label_kit.Dedup.Records.Cases.{
  decided-cases, vectorless, full_image, vector_kind-cases, vector_kind-unlike, near_info-kind,
}

-- The hits of the layers by the records that the index holds.
module _ {Sig Vec : Type 0} (settings : Settings Sig Vec) where
  text_layer :
      (kept : List (Kept Sig Vec)) (x : Index Sig Vec) (s : Option Sig)
      → Holds kept x
      → IsTextHit settings kept s (query_near_text settings x s)
  unfolding query_near_text
  text_layer kept x none h = refl
  text_layer kept x (some s) h =
      let o = query_near_text settings x (some s) in
      let accept : ℕ → Bool = leb settings.minhash_threshold in
      let better : ℕ → ℕ → Bool = λ m n. ltb n m in
      subst
        (λ l.
          IsBest (λ id. text_hit settings s id (signature_in kept id)) accept better
            (settings.query l s) o)
        h.lsh
        (subst
          (λ (f : String → Option (Sig × String)).
            IsBest (λ id. text_hit settings s id (f id)) accept better (settings.query x.lsh s) o)
          (fun_ext h.entries) (query_near_text-IsBest settings x s))

  image_layer :
      (kept : List (Kept Sig Vec)) (x : Index Sig Vec) (p : Option ℕ)
      → Holds kept x
      → IsImageHit settings kept p (query_near_image settings x p)
  unfolding query_near_image
  image_layer kept x none h = refl
  image_layer kept x (some p) h =
      subst
        (λ es.
          IsBest (image_hit p) (λ m. leb m settings.image_phash_max_distance) ltb es
            (query_near_image settings x (some p)))
        h.phashes (query_near_image-IsBest settings x p)

  vector_layer :
      (kept : List (Kept Sig Vec)) (x : Index Sig Vec) (v : Vec)
      → Holds kept x
      → IsVectorHit settings kept v (semantic_probe settings x v)
  vector_layer kept x v h =
      subst
        (λ es.
          IsBest (vector_hit settings v) (leb settings.semantic_threshold) (λ m n. ltb n m) es
            (semantic_probe settings x v))
        h.vecs (semantic_probe-IsBest settings x v)

module _ {Sig Vec : Type 0} (settings : Settings Sig Vec) (kept : List (Kept Sig Vec)) where
  -- A right outcome, and an index of what is kept after it.
  abbrev IsReduction : Prepared Sig → Option (Embedding Vec) → Reduced × Index Sig Vec → Type 0
  IsReduction p e (r, y) = IsRight settings kept p e r × Holds (kept_after kept p e r) y

  module _ (x : Index Sig Vec) (p : Prepared Sig) (t i : Option Hit)
      (q : IsProbe settings kept p.detail t i) (apart : ¬ IsNearDuplicate settings p.detail t i)
      (h : Holds kept x) where
    -- The record is kept, with its vector if it has one.
    keeps :
        (sem : Bool) (e : Option (Embedding Vec)) (v : Option Vec)
        → p.is_semantic ≡ sem
        → vector_of sem e ≡ v
        → Holds
            (kept_after kept p e (verdict (alone p.detail) no_metric))
            (add_with x p.id p.detail v)
    keeps sem e v s w =
        subst (λ u. Holds (kept_of p.id p.detail u ∷ kept) (add_with x p.id p.detail v))
          (sym (ap (λ b. vector_of b e) s ∙ w)) (add_with-Holds kept x p.id p.detail v h)

    settled :
        (v : Vec) (o : Option Hit) (k : Option Kind)
        → p.is_semantic ≡ true
        → IsVectorHit settings kept v o
        → (IsVectorDuplicate settings p.detail i × (k ≡ some (vector_kind settings.modality i)))
          ⊎ ((¬ IsVectorDuplicate settings p.detail i) × (k ≡ none))
        → IsReduction p (some (vector v)) (settle_semantic x p (alone p.detail) v (hit_kind o k))
    settled v none k s hit c =
        (new_vector t i none v q apart s refl hit (λ n. n.0), keeps true _ (some v) s refl)
    settled v (some g) k s hit (inl (dup, f)) =
        subst
          (λ z.
            IsReduction p (some (vector v))
              (settle_semantic x p (alone p.detail) v (hit_kind (some g) z)))
          (sym f)
          (
            near_vector t i g v q apart s refl hit dup,
            subst
                (λ b.
                  Holds
                    (if b
                      then kept_of p.id p.detail (vector_of p.is_semantic (some (vector v))) ∷ kept
                      else kept)
                    x)
                (sym (vector_kind-unlike settings.modality i)) h,
          )
    settled v (some g) k s hit (inr (far, f)) =
        subst
          (λ z.
            IsReduction p (some (vector v))
              (settle_semantic x p (alone p.detail) v (hit_kind (some g) z)))
          (sym f)
          (
            new_vector t i (some g) v q apart s refl hit (λ n. far n.1),
            keeps true _ (some v) s refl,
          )

    unique_reduction :
        (sem : Bool) (e : Option (Embedding Vec))
        → p.is_semantic ≡ sem
        → IsReduction p e (
            reduce_unique settings x p
              (record { tree_hit = t; image_hit = i; info = alone p.detail })
              sem
              e)
    unfolding reduce_unique
    unique_reduction false e s =
        (no_vector t i q apart (inl s), keeps false e none s (vectorless e))
    unique_reduction true none s = (no_answer t i q apart s (inl refl), h)
    unique_reduction true (some provider_failed) s =
        (no_vector t i q apart (inr refl), keeps true _ none s refl)
    unique_reduction true (some other_failed) s = (no_answer t i q apart s (inr refl), h)
    unique_reduction true (some (vector v)) s =
        settled v (semantic_probe settings x v) (semantic_kind settings p.detail i) s
          (vector_layer settings kept x v h)
          (subst
            (λ full.
              (IsVectorDuplicate settings p.detail i
                × (semantic_kind_of settings.modality settings.ui_dup_requires full i
                    ≡ some (vector_kind settings.modality i)))
              ⊎ ((¬ IsVectorDuplicate settings p.detail i)
                  × (semantic_kind_of settings.modality settings.ui_dup_requires full i ≡ none)))
            (sym (full_image p.detail.image_decode_failed p.detail.is_sequence))
            (vector_kind-cases settings.modality settings.ui_dup_requires (lacks_image p.detail) i))

  -- The first layers and what follows, by their verdict.
  abbrev after_probe :
      Index Sig Vec → Prepared Sig → Option (Embedding Vec) → Probe → Reduced × Index Sig Vec
  after_probe x p e q =
      if is_unique q.info.kind
      then reduce_unique settings (probed x q) p q p.is_semantic e
      else (verdict q.info (metric_for q.info.kind q.tree_hit q.image_hit), probed x q)

  -- A verdict that is a duplicate.
  not_unique :
      (p : Prepared Sig) (e : Option (Embedding Vec)) (info : DedupInfo) (m n : Metric)
      (now : Index Sig Vec) (other : Reduced × Index Sig Vec)
      → is_unique info.kind ≡ false
      → m ≡ n
      → IsRight settings kept p e (verdict info m)
      → Holds kept now
      → IsReduction p e (if is_unique info.kind then other else (verdict info n, now))
  not_unique p e info m n now other u q r h =
      subst (λ b. IsReduction p e (if b then other else (verdict info n, now))) (sym u)
        (
          subst (λ z. IsRight settings kept p e (verdict info z)) q r,
          subst
              (λ b.
                Holds (if b then kept_of p.id p.detail (vector_of p.is_semantic e) ∷ kept else kept)
                  now)
              (sym u) h,
        )

  near_reduction :
      (x : Index Sig Vec) (p : Prepared Sig) (e : Option (Embedding Vec)) (t i : Option Hit)
      → IsProbe settings kept p.detail t i
      → IsNearDuplicate settings p.detail t i
      → Holds kept x
      → let info = near_info settings.modality t i (alone p.detail) in
        IsReduction p e (after_probe x p e (record { tree_hit = t; image_hit = i; info = info }))
  near_reduction x p e t i q dup h =
      let info = near_info settings.modality t i (alone p.detail) in
      let now = probed x (record { tree_hit = t; image_hit = i; info = info }) in
      let held = probed-Holds kept x (record { tree_hit = t; image_hit = i; info = info }) h in
      let (unlike, metric) =
        near_info-kind settings.modality settings.ui_dup_requires (lacks_image p.detail)
          (lacks_text p.detail) p.detail t i dup in
      not_unique p e info _ _ now _ unlike (sym metric) (near t i q dup) held

  reduction_of :
      (x : Index Sig Vec) (p : Prepared Sig) (e : Option (Embedding Vec)) (o : Option String)
      → get x.exact p.detail.digest ≡ o
      → Holds kept x
      → IsReduction p e (after_probe x p e (probe_exact settings x p.detail o))
  unfolding probe_exact compose
  reduction_of x p e (some id) f h = (
    same_text id (sym (h.texts p.detail.digest) ∙ f),
    probed-Holds kept x (probe_exact settings x p.detail (some id)) h,
  )
  reduction_of x p e none f h =
      let d = p.detail in
      let t = query_near_text settings x d.minhash in
      let i = query_near_image settings x d.phash in
      let q : IsProbe settings kept d t i = record {
        new_text = sym (h.texts d.digest) ∙ f;
        in_text = text_layer settings kept x d.minhash h;
        in_image = image_layer settings kept x d.phash h;
      } in
      let made : DedupInfo → Type 0 = λ info.
        IsReduction p e (after_probe x p e (record { tree_hit = t; image_hit = i; info = info })) in
      elim (decided-cases settings.modality settings.ui_dup_requires (lacks_image d) (lacks_text d)
        d t i) [
          | inl (dup, g) ↦ subst made (sym g) (near_reduction x p e t i q dup h)
          | inr (apart, g) ↦ subst made (sym g) (
              unique_reduction (probed x (record { tree_hit = t; image_hit = i; info = alone d })) p
                t i q apart
                (probed-Holds kept x (record { tree_hit = t; image_hit = i; info = alone d }) h)
                p.is_semantic e refl)
        ]

  reduce_one-IsReduction :
      (x : Index Sig Vec) (p : Prepared Sig) (e : Option (Embedding Vec))
      → Holds kept x
      → IsReduction p e (reduce_one settings x p e)
  unfolding reduce_one probe_prepared
  reduce_one-IsReduction x p e h = reduction_of x p e (get x.exact p.detail.digest) refl h

reduce_from-AreRight :
    {Sig Vec : Type 0} (settings : Settings Sig Vec) (kept : List (Kept Sig Vec))
    (x : Index Sig Vec) (ps : List (Prepared Sig × Option (Embedding Vec)))
    → Holds kept x
    → AreRight settings kept ps (reduce_all settings x ps).0
unfolding reduce_all
reduce_from-AreRight settings kept x [] h = tt
reduce_from-AreRight settings kept x ((p, e) ∷ ps) h =
    let one = reduce_one-IsReduction settings kept x p e h in
    let (r, y) = reduce_one settings x p e in
    (one.0, reduce_from-AreRight settings (kept_after kept p e r) y ps one.1)

-- From an empty index, whatever the libraries answer, each outcome of a batch is the one that the
-- records kept before it determine. A record whose digest was kept is an exact duplicate of the record
-- that has it. Else its hits are the most similar signature that the LSH finds and the nearest image
-- hash, where they meet their thresholds, and it is a near duplicate of a hit exactly if the layers
-- hit that the modality and the settings ask for, less those that it lacks. Else, if the semantic
-- layer takes part, its vector makes it a duplicate of the most similar vector that meets the
-- threshold, if the image hits too where both layers are asked for; and a record without an answer
-- of the embedding fails, unless the provider failed. All others are unique, and are kept.
pub reduce_all-AreRight :
    {Sig Vec : Type 0} (settings : Settings Sig Vec)
    (ps : List (Prepared Sig × Option (Embedding Vec)))
    → AreRight settings [] ps (reduce_all settings new_index ps).0
reduce_all-AreRight settings ps = reduce_from-AreRight settings [] new_index ps new_index-Holds
