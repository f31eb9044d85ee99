-- ===== src/Dedup/Records/Holds.antt =====
-- dedup.py: the index as a function of the records that were kept.
use label_kit.Prelude.{
  ℕ, ◌+◌, ◌≡◌, refl, sym, ◌∙◌, ap, Option, none, some, List, [], ◌∷◌, ◌++◌, if◌then◌else◌,
  string_eq, ◌==◌, String,
}
use label_kit.Prelude.Dict.{get, put, get-put}
use label_kit.Dedup.Records.{Detail, Index, Probe}
use label_kit.Dedup.Records.Stage.{add, add_signature, add_phash, add_vector, new_index, probed}
use label_kit.Dedup.Records.Kept.{
  Kept, signatures, images, vectors, own_signature, own_image, own_entry, text_in, signature_in,
  kept_of,
}

append_nil : {A : Type 0} (xs : List A) → xs ++ [] ≡ xs
append_nil [] = refl
append_nil (x ∷ xs) = ap (λ l. x ∷ l) (append_nil xs)

module _ {Sig Vec : Type 0} where
  -- The index has the features of the kept records.
  pub record Holds (kept : List (Kept Sig Vec)) (x : Index Sig Vec) : Type 0 where
    pub texts : (d : String) → get x.exact d ≡ text_in kept d
    pub lsh : x.lsh ≡ signatures kept
    pub entries : (id : String) → get x.minhashes id ≡ signature_in kept id
    pub phashes : x.phashes ≡ images kept
    pub vecs : x.vectors ≡ vectors kept

  pub new_index-Holds : Holds [] new_index
  unfolding new_index get text_in signatures signature_in images vectors
  new_index-Holds = record {
    texts = λ d. refl;
    lsh = refl;
    entries = λ id. refl;
    phashes = refl;
    vecs = refl;
  }

  added_text :
      (x : Index Sig Vec) (kept : List (Kept Sig Vec)) (id : String) (d : Detail Sig)
      (v : Option Vec) (digest : String)
      → get x.exact digest ≡ text_in kept digest
      → get (put x.exact d.digest id) digest ≡ text_in (kept_of id d v ∷ kept) digest
  unfolding text_in
  added_text x kept id d v digest h =
      get-put x.exact d.digest digest id ∙ ap (λ o. if d.digest == digest then some id else o) h

  -- The fields after `_add`, by what the record has.
  add_fields :
      (x : Index Sig Vec) (kept : List (Kept Sig Vec)) (id key : String) (s : Option Sig)
      (p : Option ℕ)
      → x.lsh ≡ signatures kept
      → ((j : String) → get x.minhashes j ≡ signature_in kept j)
      → x.phashes ≡ images kept
      → let y = add_phash (add_signature x id key s) id key p in
        (y.exact ≡ x.exact)
        × (y.lsh ≡ signatures kept ++ own_signature id s)
        × ((j : String) → get y.minhashes j ≡ own_entry (id == j) s key (signature_in kept j))
        × (y.phashes ≡ images kept ++ own_image id key p)
        × (y.vectors ≡ x.vectors)
  add_fields x kept id key none none l m i =
      (refl, l ∙ sym (append_nil _), m, i ∙ sym (append_nil _), refl)
  add_fields x kept id key none (some p) l m i =
      (refl, l ∙ sym (append_nil _), m, ap (λ es. es ++ ((p, id, key) ∷ [])) i, refl)
  add_fields x kept id key (some s) none l m i = (
    refl,
    ap (λ es. es ++ ((id, s) ∷ [])) l,
    (λ j. get-put x.minhashes id j (s, key) ∙ ap (λ o. if id == j then some (s, key) else o) (m j)),
    i ∙ sym (append_nil _),
    refl,
  )
  add_fields x kept id key (some s) (some p) l m i = (
    refl,
    ap (λ es. es ++ ((id, s) ∷ [])) l,
    (λ j. get-put x.minhashes id j (s, key) ∙ ap (λ o. if id == j then some (s, key) else o) (m j)),
    ap (λ es. es ++ ((p, id, key) ∷ [])) i,
    refl,
  )

  -- A record enters with its vector, or without one.
  abbrev pub add_with : Index Sig Vec → String → Detail Sig → Option Vec → Index Sig Vec
  add_with x id d none = add x id d
  add_with x id d (some v) = add_vector (add x id d) id d.own_key v

  add_without-Holds :
      (kept : List (Kept Sig Vec)) (x : Index Sig Vec) (id : String) (d : Detail Sig)
      → Holds kept x
      → Holds (kept_of id d none ∷ kept) (add x id d)
  unfolding add text_in signatures signature_in images vectors
  add_without-Holds kept x id d h =
      let named = record x {
        ordinary_generation = x.ordinary_generation + 1;
        exact = put x.exact d.digest id;
        digest_by_id = put x.digest_by_id id d.digest;
      } in
      let (e, l, m, i, w) =
        add_fields named kept id d.own_key d.minhash d.phash h.lsh h.entries h.phashes in
      record {
        texts = λ j. ap (λ z. get z j) e ∙ added_text x kept id d none j (h.texts j);
        lsh = l;
        entries = m;
        phashes = i;
        vecs = w ∙ h.vecs ∙ sym (append_nil _);
      }

  pub add_with-Holds :
      (kept : List (Kept Sig Vec)) (x : Index Sig Vec) (id : String) (d : Detail Sig)
      (v : Option Vec)
      → Holds kept x
      → Holds (kept_of id d v ∷ kept) (add_with x id d v)
  unfolding add_vector text_in signatures signature_in images vectors
  add_with-Holds kept x id d none h = add_without-Holds kept x id d h
  add_with-Holds kept x id d (some v) h =
      let k = add_without-Holds kept x id d h in
      record {
        texts = λ j. k.texts j;
        lsh = k.lsh;
        entries = λ j. k.entries j;
        phashes = k.phashes;
        vecs = ap (λ es. es ++ ((v, id, d.own_key) ∷ [])) (k.vecs ∙ append_nil (vectors kept));
      }

  pub probed-Holds :
      (kept : List (Kept Sig Vec)) (x : Index Sig Vec) (q : Probe)
      → Holds kept x
      → Holds kept (probed x q)
  probed-Holds kept x q h = record {
    texts = h.texts;
    lsh = h.lsh;
    entries = h.entries;
    phashes = h.phashes;
    vecs = h.vecs;
  }
