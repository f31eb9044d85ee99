-- ===== src/Dedup/Records/Retract.antt =====
-- dedup.py, DedupIndex._retract: it takes back what _add wrote.
use label_kit.Prelude.{
  ℕ, ◌+◌, ◌≡◌, refl, ap, false, Option, none, some, List, [], ◌∷◌, ◌++◌, arith, All, string_eq,
  ◌==◌, ==_refl, String,
}
use label_kit.Prelude.Dict.{Dict, get, put, remove, get-put}
use label_kit.Dedup.Records.{
  Settings, Detail, Index, probe_prepared, probe_exact, query_near_text, query_near_image,
}
use label_kit.Dedup.Records.Stage.{
  add, add_signature, add_phash, retract, drop_signature, without_id, without_image, semantic_probe,
}

remove-put :
    {V : Type 0} (d : Dict String V) (k : String) (v : V)
    → get d k ≡ none
    → remove (put d k v) k ≡ d
unfolding get put remove
remove-put [] k v h = ground (arith, ==_refl k)
remove-put ((j, w) ∷ d) k v h = ground (arith, remove-put d k v)

get-put_self : {V : Type 0} (d : Dict String V) (k : String) (v : V) → get (put d k v) k ≡ some v
get-put_self d k v = ground (arith, get-put d k k v, ==_refl k)

without_id-snoc :
    {Sig : Type 0} (id : String) (s : Sig) (lsh : List (String × Sig))
    → All (λ e. e.0 == id ≡ false) lsh
    → without_id id (lsh ++ ((id, s) ∷ [])) ≡ lsh
unfolding without_id
without_id-snoc id s [] h = ground (arith, ==_refl id)
without_id-snoc id s ((j, t) ∷ lsh) h = rw h.0 (ap (λ l. (j, t) ∷ l) (without_id-snoc id s lsh h.1))

without_image-same :
    (id : String) (es : List (ℕ × String × String))
    → All (λ e. e.1 == id ≡ false) es
    → without_image id es ≡ es
unfolding without_image
without_image-same id [] h = refl
without_image-same id ((p, j, key) ∷ es) h =
    rw h.0 (ap (λ l. (p, j, key) ∷ l) (without_image-same id es h.1))

without_image-snoc :
    (id key : String) (p : ℕ) (es : List (ℕ × String × String))
    → All (λ e. e.1 == id ≡ false) es
    → without_image id (es ++ ((p, id, key) ∷ [])) ≡ es
unfolding without_image
without_image-snoc id key p [] h = ground (arith, ==_refl id)
without_image-snoc id key p ((q, j, k) ∷ es) h =
    rw h.0 (ap (λ l. (q, j, k) ∷ l) (without_image-snoc id key p es h.1))

module _ {Sig Vec : Type 0} where
  -- Nothing of a record is in the index.
  pub record IsFresh (x : Index Sig Vec) (id : String) (d : Detail Sig) : Type 0 where
    pub text : get x.exact d.digest ≡ none
    pub digest : get x.digest_by_id id ≡ none
    pub signature : get x.minhashes id ≡ none
    pub order : get x.minhash_seq id ≡ none
    pub lsh : All (λ e. e.0 == id ≡ false) x.lsh
    pub images : All (λ e. e.1 == id ≡ false) x.phashes

  retract-add :
      (x : Index Sig Vec) (id : String) (d : Detail Sig)
      → IsFresh x id d
      → retract (add x id d) id
        ≡ record x { seq = (add x id d).seq; ordinary_generation = x.ordinary_generation + 1 + 1 }
  unfolding add retract drop_signature
  retract-add x id d f = of_parts d.minhash d.phash
    where
      named : Index Sig Vec
      named = record x {
        ordinary_generation = x.ordinary_generation + 1;
        exact = put x.exact d.digest id;
        digest_by_id = put x.digest_by_id id d.digest;
      }

      of_parts :
          (s : Option Sig) (p : Option ℕ)
          → (let y = add_phash (add_signature named id d.own_key s) id d.own_key p in
              retract y id
              ≡ record x { seq = y.seq; ordinary_generation = x.ordinary_generation + 1 + 1 })
      of_parts none none = ground (
        arith,
        get-put_self x.digest_by_id id d.digest,
        get-put_self x.exact d.digest id,
        ==_refl id,
        remove-put x.exact d.digest id f.text,
        remove-put x.digest_by_id id d.digest f.digest,
        f.signature,
        without_image-same id x.phashes f.images,
      )
      of_parts none (some p) = ground (
        arith,
        get-put_self x.digest_by_id id d.digest,
        get-put_self x.exact d.digest id,
        ==_refl id,
        remove-put x.exact d.digest id f.text,
        remove-put x.digest_by_id id d.digest f.digest,
        f.signature,
        without_image-snoc id d.own_key p x.phashes f.images,
      )
      of_parts (some s) none = ground (
        arith,
        get-put_self x.digest_by_id id d.digest,
        get-put_self x.exact d.digest id,
        ==_refl id,
        remove-put x.exact d.digest id f.text,
        remove-put x.digest_by_id id d.digest f.digest,
        f.signature,
        get-put_self x.minhashes id (s, d.own_key),
        remove-put x.minhashes id (s, d.own_key) f.signature,
        remove-put x.minhash_seq id x.seq f.order,
        without_id-snoc id s x.lsh f.lsh,
        without_image-same id x.phashes f.images,
      )
      of_parts (some s) (some p) = ground (
        arith,
        get-put_self x.digest_by_id id d.digest,
        get-put_self x.exact d.digest id,
        ==_refl id,
        remove-put x.exact d.digest id f.text,
        remove-put x.digest_by_id id d.digest f.digest,
        f.signature,
        get-put_self x.minhashes id (s, d.own_key),
        remove-put x.minhashes id (s, d.own_key) f.signature,
        remove-put x.minhash_seq id x.seq f.order,
        without_id-snoc id s x.lsh f.lsh,
        without_image-snoc id d.own_key p x.phashes f.images,
      )

module _ {Sig Vec : Type 0} (settings : Settings Sig Vec) where
  -- Where nothing of a record is in the index: to add the record and to retract it again leaves every
  -- answer of the index as it was, to a probe of any record and to one of any vector.
  pub probe-retract :
      (x : Index Sig Vec) (id : String) (d : Detail Sig)
      → IsFresh x id d
      → (e : Detail Sig) (v : Vec)
      → (probe_prepared settings (retract (add x id d) id) e ≡ probe_prepared settings x e)
        × (semantic_probe settings (retract (add x id d) id) v ≡ semantic_probe settings x v)
  unfolding probe_prepared probe_exact query_near_text query_near_image semantic_probe
  probe-retract x id d f e v = rw (retract-add x id d f) (refl, refl)
