-- ===== src/Dedup/Records/Hits.antt =====
-- dedup.py: a loop over candidates finds the best hit, in whatever order they come.
pub mod Layers
use label_kit.Prelude.{
  ℕ, ◌≡◌, refl, sym, ◌∙◌, subst, ap, ◌⊎◌, inl, inr, Bool, true, false, ◌&&◌, Option, none, some,
  List, [], ◌∷◌, All, ltb, leb, if◌then◌else◌, string_eq, ◌==◌, String, Bool-cases, arith,
}
use label_kit.Prelude.Dict.{Dict, get, or_default}
use label_kit.Dedup.Records.{
  Settings, Hit, Index, more_similar, nearer, text_candidate, best_text, query_near_text,
  image_candidate, best_image, query_near_image, hamming, insert_by, sort_by, unseen,
}
use label_kit.Dedup.Records.Stage.{vector_candidate, best_vector, over_threshold, semantic_probe}
use label_kit.Dedup.Records.Kept.{Kept, In, IsBest}
use label_kit.Dedup.Records.Right.{text_hit, image_hit, vector_hit}

-- `m` is better than the best so far.
abbrev pub beats : (ℕ → ℕ → Bool) → ℕ → Option Hit → Bool
beats better m none = true
beats better m (some b) = better m b.measure

absent : {o : Option Hit} {h : Hit} → o ≡ none → o ≡ some h → ⊥
absent q f = cc

same_hit : {o : Option Hit} {h g : Hit} → o ≡ some h → o ≡ some g → h ≡ g
same_hit q f = cc

pub both : {b : Bool} → b ≡ false → b ≡ true → ⊥
both e t = cc

-- A hit that is `h` again.
like :
    (better : ℕ → ℕ → Bool) (g b : Hit) {o : Option Hit} {h : Hit}
    → o ≡ some h
    → o ≡ some g
    → better h.measure b.measure ≡ false
    → better g.measure b.measure ≡ false
like better g b q f n = subst (λ k. better k.measure b.measure ≡ false) (same_hit q f) n

rejected :
    {E : Type 0} (hit_of : E → Option Hit) (acceptable : ℕ → Bool) (better : ℕ → ℕ → Bool) (h : Hit)
    (es : List E)
    → All (λ e. (g : Hit) → hit_of e ≡ some g → acceptable g.measure ≡ false) es
    → All
        (λ e.
          (g : Hit)
          → hit_of e ≡ some g
          → acceptable g.measure ≡ true
          → better g.measure h.measure ≡ false)
        es
rejected hit_of acceptable better h [] a = tt
rejected hit_of acceptable better h (e ∷ es) a =
    ((λ g f t. absurd (both (a.0 g f) t)), rejected hit_of acceptable better h es a.1)

pub all-map :
    {E : Type 0} (P Q : E → Type 0) (es : List E) → ((e : E) → P e → Q e) → All P es → All Q es
all-map P Q [] f a = tt
all-map P Q (e ∷ es) f a = (f e a.0, all-map P Q es f a.1)

module _ {E : Type 0} (hit_of : E → Option Hit) (acceptable : ℕ → Bool)
    (better : ℕ → ℕ → Bool) where
  abbrev pub consider : Option Hit → Option Hit → Option Hit
  consider best none = best
  consider best (some h) =
      if acceptable h.measure && beats better h.measure best then some h else best

  unfoldable pub best_of : Option Hit → List E → Option Hit
  best_of best [] = best
  best_of best (e ∷ es) = best_of (consider best (hit_of e)) es

  pub consider-IsBest :
      ((m : ℕ) → better m m ≡ false)
      → ((a b c : ℕ) → better a b ≡ false → better c b ≡ true → better a c ≡ false)
      → (best : Option Hit) (e : E) (o : Option Hit) (seen : List E) → hit_of e ≡ o
      → IsBest hit_of acceptable better seen best
      → IsBest hit_of acceptable better (e ∷ seen) (consider best o)
  consider-IsBest irreflexive chain none e none seen q i = ((λ h f. absurd (absent q f)), i)
  consider-IsBest irreflexive chain (some b) e none seen q ((w, m, f), acc, all) =
      ((w, inr m, f), acc, ((λ g f. absurd (absent q f)), all))
  consider-IsBest irreflexive chain none e (some h) seen q i =
      elim (Bool-cases (acceptable h.measure)) [
        | inl acc ↦ rw acc (
          (e, inl refl, q),
          acc,
          (
            (λ g f _. like better g h q f (irreflexive h.measure)),
            rejected hit_of acceptable better h seen i,
          ),
        )
        | inr bad ↦
            rw bad ((λ g f. subst (λ k. acceptable k.measure ≡ false) (same_hit q f) bad), i)
      ]
  consider-IsBest irreflexive chain (some b) e (some h) seen q ((w, m, f), acc, all) =
      elim (Bool-cases (acceptable h.measure)) [
        | inl good ↦ elim (Bool-cases (better h.measure b.measure)) [
          | inl wins ↦
              rw (good, wins)
                (
                  (e, inl refl, q),
                  good,
                  (
                    (λ g f' _. like better g h q f' (irreflexive h.measure)),
                    all-map _ _ seen
                        (λ z k g f' t. chain g.measure b.measure h.measure (k g f' t) wins) all,
                  ),
                )
          | inr loses ↦
              rw (good, loses) ((w, inr m, f), acc, ((λ g f' _. like better g b q f' loses), all))
        ]
        | inr bad ↦ rw bad (
          (w, inr m, f),
          acc,
          (
            (λ g f' a.
                absurd
                  (both bad (subst (λ k. acceptable k.measure ≡ true) (sym (same_hit q f')) a))),
            all,
          ),
        )
      ]

-- `ys` has the entries of `xs`, in any order.
pub record HasAll {E : Type 0} (xs ys : List E) : Type 1 where
  pub for_all : (P : E → Type 0) → All P xs → All P ys
  pub back : (e : E) → In e xs → In e ys

pub IsBest-HasAll :
    {E : Type 0} (hit_of : E → Option Hit) (acceptable : ℕ → Bool) (better : ℕ → ℕ → Bool)
    (xs ys : List E) (o : Option Hit)
    → HasAll xs ys
    → IsBest hit_of acceptable better xs o
    → IsBest hit_of acceptable better ys o
IsBest-HasAll hit_of acceptable better xs ys none k i = k.for_all _ i
IsBest-HasAll hit_of acceptable better xs ys (some h) k ((e, m, q), a, all) =
    ((e, k.back e m, q), a, k.for_all _ all)

-- The entries that were seen, the last one first.
abbrev spill : {E : Type 0} → List E → List E → List E
spill [] seen = seen
spill (e ∷ es) seen = spill es (e ∷ seen)

all-spill :
    {E : Type 0} (P : E → Type 0) (es seen : List E) → All P (spill es seen) → All P es × All P seen
all-spill P [] seen a = (tt, a)
all-spill P (e ∷ es) seen a =
    let (rest, first) = all-spill P es (e ∷ seen) a in ((first.0, rest), first.1)

In-spill : {E : Type 0} (x : E) (es seen : List E) → In x (spill es seen) → In x es ⊎ In x seen
In-spill x [] seen m = inr m
In-spill x (e ∷ es) seen m = elim (In-spill x es (e ∷ seen) m) [
  | inl l ↦ inl (inr l)
  | inr (inl q) ↦ inl (inl q)
  | inr (inr l) ↦ inr l
]

spill-HasAll : {E : Type 0} (es : List E) → HasAll (spill es []) es
spill-HasAll es = record {
  for_all = λ P a. (all-spill P es [] a).0;
  back = λ x m. elim (In-spill x es [] m) [ inl l ↦ l | inr l ↦ absurd l ];
}

module _ {E : Type 0} (hit_of : E → Option Hit) (acceptable : ℕ → Bool) (better : ℕ → ℕ → Bool)
    (irreflexive : (m : ℕ) → better m m ≡ false)
    (chain : (a b c : ℕ) → better a b ≡ false → better c b ≡ true → better a c ≡ false) where
  spill-IsBest :
      (best : Option Hit) (es seen : List E)
      → IsBest hit_of acceptable better seen best
      → IsBest hit_of acceptable better (spill es seen) (best_of hit_of acceptable better best es)
  unfolding best_of
  spill-IsBest best [] seen i = i
  spill-IsBest best (e ∷ es) seen i =
      spill-IsBest (consider hit_of acceptable better best (hit_of e)) es (e ∷ seen)
        (consider-IsBest hit_of acceptable better irreflexive chain best e (hit_of e) seen refl i)

  best_of-IsBest :
      (es : List E) → IsBest hit_of acceptable better es (best_of hit_of acceptable better none es)
  best_of-IsBest es =
      IsBest-HasAll hit_of acceptable better (spill es []) es _ (spill-HasAll es)
        (spill-IsBest none es [] tt)

  pub IsBest-best_of :
      (es : List E) (o : Option Hit)
      → o ≡ best_of hit_of acceptable better none es
      → IsBest hit_of acceptable better es o
  IsBest-best_of es o q = subst (IsBest hit_of acceptable better es) (sym q) (best_of-IsBest es)

either_place :
    (b : Bool) (P : String → Type 0) (x y : String) (ys zs : List String)
    → (All P zs → P x × All P ys)
    → All P (if b then x ∷ y ∷ ys else y ∷ zs)
    → P x × All P (y ∷ ys)
either_place true P x y ys zs f a = a
either_place false P x y ys zs f a = ((f a.1).0, (a.0, (f a.1).1))

In-either :
    (b : Bool) (z x y : String) (ys zs : List String)
    → (In z zs → In z (x ∷ ys))
    → In z (if b then x ∷ y ∷ ys else y ∷ zs)
    → In z (x ∷ y ∷ ys)
In-either true z x y ys zs f m = m
In-either false z x y ys zs f (inl q) = inr (inl q)
In-either false z x y ys zs f (inr m) = elim (f m) [ inl q ↦ inl q | inr l ↦ inr (inr l) ]

all-insert_by :
    (key : String → ℕ) (P : String → Type 0) (x : String) (ys : List String)
    → All P (insert_by key x ys)
    → P x × All P ys
unfolding insert_by
all-insert_by key P x [] a = (a.0, tt)
all-insert_by key P x (y ∷ ys) a =
    either_place (leb (key x) (key y)) P x y ys (insert_by key x ys) (all-insert_by key P x ys) a

In-insert_by :
    (key : String → ℕ) (z x : String) (ys : List String) → In z (insert_by key x ys) → In z (x ∷ ys)
unfolding insert_by
In-insert_by key z x [] m = m
In-insert_by key z x (y ∷ ys) m =
    In-either (leb (key x) (key y)) z x y ys (insert_by key x ys) (In-insert_by key z x ys) m

pub sort_by-HasAll : (key : String → ℕ) (xs : List String) → HasAll (sort_by key xs) xs
unfolding sort_by
sort_by-HasAll key [] = record { for_all = λ P a. a; back = λ e m. m }
sort_by-HasAll key (x ∷ xs) =
    let k = sort_by-HasAll key xs in
    record {
      for_all = λ P a.
          let (here, rest) = all-insert_by key P x (sort_by key xs) a in (here, k.for_all P rest);
      back = λ e m. elim (In-insert_by key e x (sort_by key xs) m) [
        | inl q ↦ inl q
        | inr l ↦ inr (k.back e l)
      ];
    }
