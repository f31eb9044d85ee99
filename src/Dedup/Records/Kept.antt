-- ===== src/Dedup/Records/Kept.antt =====
-- dedup.py: the records that were kept, and what the best of their hits is. Nothing here reads the index.
use label_kit.Prelude.{
  ℕ, ◌≡◌, ◌⊎◌, Bool, true, false, Option, none, some, List, [], ◌∷◌, ◌++◌, All, if◌then◌else◌,
  string_eq, ◌==◌, String,
}
use label_kit.Dedup.Records.{Detail, Hit}

-- A record that was kept, with its features and its vector.
pub record Kept (Sig Vec : Type 0) : Type 0 where
  pub id : String
  pub key : String
  pub digest : String
  pub minhash : Option Sig
  pub phash : Option ℕ
  pub vec : Option Vec

abbrev pub In : {A : Type 0} → A → List A → Type 0
In x [] = ⊥
In x (y ∷ ys) = (x ≡ y) ⊎ In x ys

-- The best of the hits that some entries give: none if no entry gives an acceptable one, and else one
-- that is acceptable, and than which no acceptable one is better.
abbrev pub IsBest :
    {E : Type 0} → (E → Option Hit) → (ℕ → Bool) → (ℕ → ℕ → Bool) → List E → Option Hit → Type 0
IsBest {E} hit_of acceptable better es none =
    All (λ e. (h : Hit) → hit_of e ≡ some h → acceptable h.measure ≡ false) es
IsBest {E} hit_of acceptable better es (some h) =
    ((e : E) × In e es × (hit_of e ≡ some h))
    × (acceptable h.measure ≡ true)
    × All
        (λ e.
          (g : Hit)
          → hit_of e ≡ some g
          → acceptable g.measure ≡ true
          → better g.measure h.measure ≡ false)
        es

abbrev pub own_signature : {Sig : Type 0} → String → Option Sig → List (String × Sig)
own_signature id none = []
own_signature id (some s) = (id, s) ∷ []

abbrev pub own_image : String → String → Option ℕ → List (ℕ × String × String)
own_image id key none = []
own_image id key (some p) = (p, id, key) ∷ []

abbrev pub own_vector : {Vec : Type 0} → String → String → Option Vec → List (Vec × String × String)
own_vector id key none = []
own_vector id key (some v) = (v, id, key) ∷ []

abbrev pub own_entry :
    {Sig : Type 0} → Bool → Option Sig → String → Option (Sig × String) → Option (Sig × String)
own_entry same none key rest = rest
own_entry same (some s) key rest = if same then some (s, key) else rest

module _ {Sig Vec : Type 0} where
  -- The features of the kept records, the oldest first.
  unfoldable pub signatures : List (Kept Sig Vec) → List (String × Sig)
  signatures [] = []
  signatures (r ∷ kept) = signatures kept ++ own_signature r.id r.minhash

  unfoldable pub images : List (Kept Sig Vec) → List (ℕ × String × String)
  images [] = []
  images (r ∷ kept) = images kept ++ own_image r.id r.key r.phash

  unfoldable pub vectors : List (Kept Sig Vec) → List (Vec × String × String)
  vectors [] = []
  vectors (r ∷ kept) = vectors kept ++ own_vector r.id r.key r.vec

  -- The id of the kept record that has a digest.
  unfoldable pub text_in : List (Kept Sig Vec) → String → Option String
  text_in [] digest = none
  text_in (r ∷ kept) digest =
      let rest = text_in kept digest in if r.digest == digest then some r.id else rest

  -- The signature and the cluster key that were kept under an id.
  unfoldable pub signature_in : List (Kept Sig Vec) → String → Option (Sig × String)
  signature_in [] id = none
  signature_in (r ∷ kept) id = own_entry (r.id == id) r.minhash r.key (signature_in kept id)

  abbrev pub kept_of : String → Detail Sig → Option Vec → Kept Sig Vec
  kept_of id d v = record {
    id = id;
    key = d.own_key;
    digest = d.digest;
    minhash = d.minhash;
    phash = d.phash;
    vec = v;
  }
