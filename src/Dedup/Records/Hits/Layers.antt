-- ===== src/Dedup/Records/Hits/Layers.antt =====
-- dedup.py: the loops over the candidates of the three near layers.
use label_kit.Prelude.{
  ℕ, ◌≡◌, refl, ◌∙◌, ap, inl, inr, true, false, Option, none, some, List, [], ◌∷◌, ltb, leb,
  string_eq, String, Bool-cases, arith,
}
use label_kit.Prelude.Dict.{Dict, get, or_default}
use label_kit.Dedup.Records.{
  Settings, Hit, Index, text_candidate, best_text, query_near_text, best_image, query_near_image,
  sort_by, unseen,
}
use label_kit.Dedup.Records.Stage.{best_vector, over_threshold, semantic_probe}
use label_kit.Dedup.Records.Kept.{IsBest}
use label_kit.Dedup.Records.Right.{text_hit, image_hit, vector_hit}
use label_kit.Dedup.Records.Hits.{
  consider, best_of, all-map, both, IsBest-HasAll, IsBest-best_of, sort_by-HasAll,
}

greater_irreflexive : (m : ℕ) → ltb m m ≡ false
greater_irreflexive m = ground arith

more_chain : (a b c : ℕ) → ltb b a ≡ false → ltb b c ≡ true → ltb c a ≡ false
more_chain a b c h k = ground arith

less_chain : (a b c : ℕ) → ltb a b ≡ false → ltb c b ≡ true → ltb a c ≡ false
less_chain a b c h k = ground arith

module _ {Sig Vec : Type 0} (settings : Settings Sig Vec) where
  one_text :
      (s : Sig) (best : Option Hit) (c : String) (o : Option (Sig × String))
      → text_candidate settings s best c o
        ≡ consider
            (λ (e : String). none)
            (leb settings.minhash_threshold)
            (λ m n. ltb n m)
            best
            (text_hit settings s c o)
  one_text s best c none = refl
  one_text s none c (some (t, key)) = refl
  one_text s (some b) c (some (t, key)) = refl

  best_text_lem :
      (minhashes : Dict String (Sig × String)) (s : Sig) (cs : List String) (best : Option Hit)
      → best_text settings minhashes s best cs
        ≡ best_of
            (λ id. text_hit settings s id (get minhashes id))
            (leb settings.minhash_threshold)
            (λ m n. ltb n m)
            best
            cs
  unfolding best_text best_of
  best_text_lem minhashes s [] best = refl
  best_text_lem minhashes s (c ∷ cs) best =
      ap (λ b. best_text settings minhashes s b cs) (one_text s best c (get minhashes c))
      ∙ best_text_lem minhashes s cs _

  pub query_near_text-IsBest :
      (x : Index Sig Vec) (s : Sig)
      → IsBest
          (λ id. text_hit settings s id (get x.minhashes id))
          (leb settings.minhash_threshold)
          (λ m n. ltb n m)
          (settings.query x.lsh s)
          (query_near_text settings x (some s))
  unfolding query_near_text
  query_near_text-IsBest x s =
      let order : String → ℕ = λ c. or_default (get x.minhash_seq c) unseen in
      let hit_of : String → Option Hit = λ id. text_hit settings s id (get x.minhashes id) in
      let cs = settings.query x.lsh s in
      IsBest-HasAll hit_of (leb settings.minhash_threshold) (λ m n. ltb n m) (sort_by order cs) cs
        (best_text settings x.minhashes s none (sort_by order cs)) (sort_by-HasAll order cs)
        (IsBest-best_of hit_of (leb settings.minhash_threshold) (λ m n. ltb n m) greater_irreflexive
          more_chain (sort_by order cs) _ (best_text_lem x.minhashes s (sort_by order cs) none))

  best_image_lem :
      (p : ℕ) (es : List (ℕ × String × String)) (best : Option Hit)
      → best_image settings p best es
        ≡ best_of (image_hit p) (λ m. leb m settings.image_phash_max_distance) ltb best es
  unfolding best_image best_of
  best_image_lem p [] best = refl
  best_image_lem p (e ∷ es) none = best_image_lem p es _
  best_image_lem p (e ∷ es) (some b) = best_image_lem p es _

  pub query_near_image-IsBest :
      (x : Index Sig Vec) (p : ℕ)
      → IsBest
          (image_hit p)
          (λ m. leb m settings.image_phash_max_distance)
          ltb
          x.phashes
          (query_near_image settings x (some p))
  unfolding query_near_image
  query_near_image-IsBest x p =
      IsBest-best_of (image_hit p) (λ m. leb m settings.image_phash_max_distance) ltb
        greater_irreflexive less_chain x.phashes _ (best_image_lem p x.phashes none)

  best_vector_lem :
      (v : Vec) (es : List (Vec × String × String)) (best : Option Hit)
      → best_vector settings v best es
        ≡ best_of (vector_hit settings v) (λ m. true) (λ m n. ltb n m) best es
  unfolding best_vector best_of
  best_vector_lem v [] best = refl
  best_vector_lem v (e ∷ es) none = best_vector_lem v es _
  best_vector_lem v (e ∷ es) (some b) = best_vector_lem v es _

  -- The threshold is asked of the best vector only.
  over-IsBest :
      (v : Vec) (es : List (Vec × String × String)) (o : Option Hit)
      → IsBest (vector_hit settings v) (λ m. true) (λ m n. ltb n m) es o
      → IsBest
          (vector_hit settings v)
          (leb settings.semantic_threshold)
          (λ m n. ltb n m)
          es
          (over_threshold settings o)
  over-IsBest v es none i = all-map _ _ es (λ e f h q. absurd (both (f h q) refl)) i
  over-IsBest v es (some h) (w, a, all) =
      elim (Bool-cases (leb settings.semantic_threshold h.measure)) [
        | inl over ↦ rw over (w, over, all-map _ _ es (λ e f g q _. f g q refl) all)
        | inr under ↦
            rw under (all-map _ _ es (λ e f g q. below g.measure h.measure (f g q refl) under) all)
      ]
    where
      below :
          (m n : ℕ)
          → ltb n m ≡ false
          → leb settings.semantic_threshold n ≡ false
          → leb settings.semantic_threshold m ≡ false
      below m n h k = ground arith

  pub semantic_probe-IsBest :
      (x : Index Sig Vec) (v : Vec)
      → IsBest
          (vector_hit settings v)
          (leb settings.semantic_threshold)
          (λ m n. ltb n m)
          x.vectors
          (semantic_probe settings x v)
  unfolding semantic_probe
  semantic_probe-IsBest x v = over-IsBest v x.vectors _ (
      IsBest-best_of (vector_hit settings v) (λ m. true) (λ m n. ltb n m) greater_irreflexive
        more_chain x.vectors _ (best_vector_lem v x.vectors none))
