-- ===== src/Dedup/Group.antt =====
-- labelkit/operators/dedup.py, DedupIndex.group_*: the index of the committed groups of generated
-- records. A group is reserved, validated again and committed, or discarded, by coroutines that
-- take turns.
pub mod Checks
pub mod Operations
pub mod Serial
pub mod Spent
use Prim.Native.String.{String}
use label_kit.Prelude.{
  ℕ, zero, suc, ◌+◌, Bool, true, false, not, ◌&&◌, ◌||◌, Option, none, some, List, [], ◌∷◌, ◌++◌,
  map, ltb, leb, nat_beq, if◌then◌else◌, length, is_nil, is_some, get_elem?, Equality, string_eq,
  nat_eq, ◌==◌, ◌↔◌, ◌≡◌, arith,
}
use label_kit.Prelude.Dict.{Dict, get, put, set_default, remove, is_in, list_test}

-- The first characters of a text: s[:n].
unfoldable pub prefix : ℕ → String → String
prefix zero s = String.[]
prefix (suc n) String.[] = String.[]
prefix (suc n) (String.◌∷◌ c s) = String.◌∷◌ c (prefix n s)

-- f"g{generation}:{index}"
abbrev pub SlotKey : Type 0
SlotKey = ℕ × ℕ

pub slot_test : SlotKey → SlotKey → Bool
slot_test (a, b) (c, d) = nat_beq a c && nat_beq b d

pub slot_test_iff : (s t : SlotKey) → (slot_test s t ≡ true) ↔ (s ≡ t)
unfolding slot_test
slot_test_iff s t = ground arith

instance abbrev pub slot_eq : Equality SlotKey
unfolding slot_test
slot_eq = record { test = slot_test; test_iff = slot_test_iff }

-- InternalError from a broken contract, DedupGroupRejected, and KeyError.
pub data Failure : Type 0 where
  contract_error rejected key_error : Failure

pub data Outcome (A : Type 0) : Type 0 where
  ok : A → Outcome A
  err : Failure → Outcome A

infixl 5 ◌>>=◌ ◌>>◌
abbrev pub ◌>>=◌ : {A B : Type 0} → Outcome A → (A → Outcome B) → Outcome B
ok a >>= f = f a
err e >>= f = err e

abbrev pub ◌>>◌ : {B : Type 0} → Outcome (Unit {0}) → Outcome B → Outcome B
m >> k = m >>= λ _. k

abbrev pub require : Bool → Failure → Outcome (Unit {0})
require true e = ok tt
require false e = err e

-- What the libraries give, and the settings: the keys that MinHashLSH.query finds, the similarity of
-- two signatures, np.isfinite and np.dot. Only the order of the similarities counts.
pub record Layers (Sig F : Type 0) : Type 0 where
  pub query : List (SlotKey × Sig) → Sig → List SlotKey
  pub jaccard : Sig → Sig → ℕ
  pub minhash_threshold : ℕ
  pub is_finite : F → Bool
  pub dot : List F → List F → ℕ
  pub semantic_threshold : ℕ

-- _GroupFeatures
pub record Features (Sig F : Type 0) : Type 0 where
  pub record_ids : List String
  pub record_digests : List String
  pub exact_features : List String
  pub minhash_features : List (Option Sig)
  pub embedding_features : List (List F)

-- One record's features: its place in each of the lists.
pub record Slot (Sig F : Type 0) : Type 0 where
  pub id : String
  pub exact : String
  pub minhash : Option Sig
  pub embedding : Option (List F)

-- The part of the index that a commit writes. `vec_dim` is the width of the vector buffer.
pub record Core (Sig F : Type 0) : Type 0 where
  pub exact : Dict String String
  pub lsh : List (SlotKey × Sig)
  pub minhashes : Dict SlotKey Sig
  pub vec_dim : Option ℕ
  pub vec_ids : List String
  pub vecs : List (List F)
  pub generation : ℕ

abbrev pub Pairs : Type 0
Pairs = List (String × String)

-- `none` is the state "reserved"; a validated entry has the generation of its validation.
pub record Entry (Rec Sig F : Type 0) : Type 0 where
  pub records : List Rec
  pub features : Features Sig F
  pub exempt_pairs : Pairs
  pub epoch : ℕ
  pub validated : Option ℕ

pub record Reservation : Type 0 where
  pub capability_id : String
  pub epoch : ℕ
  pub record_digests : List String
  pub exact_cluster_keys : List String

-- `digest_of` is the digest that hashing a record gives now.
pub record Index (Rec Sig F : Type 0) : Type 0 where
  pub core : Core Sig F
  pub reservations : Dict String (Entry Rec Sig F)
  pub epoch : ℕ
  pub digest_of : Rec → String

-- What a reservation starts from: the records, the features of their texts, and the answer of the
-- embedding endpoint, where there is a profile for it.
pub record Request (Rec Sig F : Type 0) : Type 0 where
  pub records : List Rec
  pub ids : List String
  pub exact : List String
  pub minhash : List (Option Sig)
  pub vectors : Option (List (List F))
  pub exempt_pairs : Pairs

module _ {Sig F : Type 0} where
  abbrev pub empty_core : Core Sig F
  empty_core = record {
    exact = [];
    lsh = [];
    minhashes = [];
    vec_dim = none;
    vec_ids = [];
    vecs = [];
    generation = 0;
  }

  -- The slots of features whose lists are of one length.
  unfoldable pub slots :
      List String → List String → List (Option Sig) → List (List F) → List (Slot Sig F)
  slots (id ∷ ids) (e ∷ es) (m ∷ ms) [] =
      record { id = id; exact = e; minhash = m; embedding = none } ∷ slots ids es ms []
  slots (id ∷ ids) (e ∷ es) (m ∷ ms) (v ∷ vs) =
      record { id = id; exact = e; minhash = m; embedding = some v } ∷ slots ids es ms vs
  slots ids es ms vs = []

  unfoldable pub slots_of : Features Sig F → List (Slot Sig F)
  unfolding slots
  slots_of f = slots f.record_ids f.exact_features f.minhash_features f.embedding_features
