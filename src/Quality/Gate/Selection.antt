-- ===== src/Quality/Gate/Selection.antt =====
-- quality.py, _top_ratio_selection: the kept records are the best ones, and as many as the quota.
pub mod Count
use label_kit.Prelude.{
  ℕ, zero, suc, ◌+◌, ◌≤◌, ◌≡◌, ◌≢◌, ◌⊎◌, inl, inr, refl, sym, ◌∙◌, ap, subst, Bool, true, false,
  ◌||◌, List, [], ◌∷◌, length, min, if◌then◌else◌, All, take, Bool-cases, arith, String, string_eq,
  ◌==◌, ==_refl,
}
use label_kit.Prelude.Dict.{is_in}
use label_kit.Quality.Gate.{
  Scored, ranks_before, insert_ranked, sort_ranked, ids, top_ratio_selection,
}

abbrev pub IsOneOf : Scored → List Scored → Type 0
IsOneOf x [] = ⊥
IsOneOf x (y ∷ ys) = (x ≡ y) ⊎ IsOneOf x ys

-- No id stands twice.
abbrev pub HasDistinctIds : List Scored → Type 0
HasDistinctIds [] = Unit {0}
HasDistinctIds (x ∷ xs) = (is_in x.0 (ids xs) ≡ false) × HasDistinctIds xs

-- What `x` is not in, of a list and what follows.
apart :
    (i j : String) (xs : List String)
    → is_in i (j ∷ xs) ≡ false
    → is_in j xs ≡ false
    → is_in j (i ∷ xs) ≡ false
unfolding is_in
apart i j xs h k = ground (arith, string_eq.test_iff i j, string_eq.test_iff j i, h, k)

pub apart_tail : (i j : String) (xs : List String) → is_in i (j ∷ xs) ≡ false → is_in i xs ≡ false
unfolding is_in
apart_tail i j xs h = ground (arith, h)

pub apart_head : (i j : String) (xs : List String) → is_in i (j ∷ xs) ≡ false → (j == i) ≡ false
unfolding is_in
apart_head i j xs h = ground (arith, h)

both : {b : Bool} → b ≡ false → b ≡ true → ⊥
both e t = cc

is_in_head : (i j : String) (xs : List String) → i ≡ j → is_in i (j ∷ xs) ≡ true
unfolding is_in
is_in_head i j xs e = ground (arith, (string_eq.test_iff j i).1 (sym e))

is_in_tail :
    (i j : String) (xs ys : List String)
    → is_in i (j ∷ xs) ≡ true
    → is_in j ys ≡ false
    → is_in i ys ≡ true
    → is_in i xs ≡ true
unfolding is_in
is_in_tail i j xs ys h f t = elim (Bool-cases (j == i)) [
  | inl e ↦ absurd (both f (subst (λ k. is_in k ys ≡ true) (sym ((string_eq.test_iff j i).0 e)) t))
  | inr n ↦ ground (arith, h, n)
]

all-IsOneOf : (P : Scored → Type 0) (x : Scored) (xs : List Scored) → All P xs → IsOneOf x xs → P x
all-IsOneOf P x [] a m = absurd m
all-IsOneOf P x (y ∷ ys) a (inl e) = subst P (sym e) a.0
all-IsOneOf P x (y ∷ ys) a (inr m) = all-IsOneOf P x ys a.1 m

-- What is in a list stands in it under an id.
is_in-IsOneOf : (x : Scored) (xs : List Scored) → IsOneOf x xs → is_in x.0 (ids xs) ≡ true
unfolding is_in
is_in-IsOneOf x [] m = absurd m
is_in-IsOneOf x (y ∷ ys) (inl e) = is_in_head x.0 y.0 (ids ys) (ap (λ p. p.0) e)
is_in-IsOneOf x (y ∷ ys) (inr m) = ground (arith, is_in-IsOneOf x ys m)

module _ (place : String → ℕ) where
  -- Each is ranked before all that follow.
  abbrev pub IsRanked : List Scored → Type 0
  IsRanked [] = Unit {0}
  IsRanked (x ∷ xs) = All (λ y. ranks_before place x y ≡ true) xs × IsRanked xs

  ranks_before_total :
      (x y : Scored) → ranks_before place x y ≡ false → ranks_before place y x ≡ true
  ranks_before_total x y h = ground arith

  ranks_before_trans :
      (x y z : Scored)
      → ranks_before place x y ≡ true
      → ranks_before place y z ≡ true
      → ranks_before place x z ≡ true
  ranks_before_trans x y z h k = ground arith

  all_after :
      (x y : Scored) (zs : List Scored)
      → ranks_before place x y ≡ true
      → All (λ z. ranks_before place y z ≡ true) zs
      → All (λ z. ranks_before place x z ≡ true) zs
  all_after x y [] h k = tt
  all_after x y (z ∷ zs) h k = (ranks_before_trans x y z h k.0, all_after x y zs h k.1)

  all-insert_ranked :
      (P : Scored → Type 0) (x : Scored) (ys : List Scored)
      → P x
      → All P ys
      → All P (insert_ranked place x ys)
  unfolding insert_ranked
  all-insert_ranked P x [] h k = (h, tt)
  all-insert_ranked P x (y ∷ ys) h k = elim (Bool-cases (ranks_before place x y)) [
    | inl b ↦ rw b (h, k)
    | inr b ↦ rw b (k.0, all-insert_ranked P x ys h k.1)
  ]

  insert_ranked-IsRanked :
      (x : Scored) (ys : List Scored) → IsRanked ys → IsRanked (insert_ranked place x ys)
  unfolding insert_ranked
  insert_ranked-IsRanked x [] h = (tt, tt)
  insert_ranked-IsRanked x (y ∷ ys) h = elim (Bool-cases (ranks_before place x y)) [
    | inl b ↦ rw b ((b, all_after x y ys b h.0), h)
    | inr b ↦ rw b (
      all-insert_ranked (λ z. ranks_before place y z ≡ true) x ys (ranks_before_total x y b) h.0,
      insert_ranked-IsRanked x ys h.1,
    )
  ]

  pub sort_ranked-IsRanked : (xs : List Scored) → IsRanked (sort_ranked place xs)
  unfolding sort_ranked
  sort_ranked-IsRanked [] = tt
  sort_ranked-IsRanked (x ∷ xs) = insert_ranked-IsRanked x _ (sort_ranked-IsRanked xs)

  swapped :
      (x y z : Scored) (ys zs : List Scored)
      → (IsOneOf y (x ∷ ys) → IsOneOf y zs)
      → IsOneOf y (x ∷ z ∷ ys)
      → IsOneOf y (z ∷ zs)
  swapped x y z ys zs f (inl e) = inr (f (inl e))
  swapped x y z ys zs f (inr (inl e)) = inl e
  swapped x y z ys zs f (inr (inr m)) = inr (f (inr m))

  IsOneOf-insert_ranked :
      (x y : Scored) (ys : List Scored) → IsOneOf y (x ∷ ys) → IsOneOf y (insert_ranked place x ys)
  unfolding insert_ranked
  IsOneOf-insert_ranked x y [] h = h
  IsOneOf-insert_ranked x y (z ∷ ys) h = elim (Bool-cases (ranks_before place x z)) [
    | inl b ↦ rw b h
    | inr b ↦ rw b (swapped x y z ys _ (IsOneOf-insert_ranked x y ys) h)
  ]

  pub IsOneOf-sort_ranked :
      (y : Scored) (xs : List Scored) → IsOneOf y xs → IsOneOf y (sort_ranked place xs)
  unfolding sort_ranked
  IsOneOf-sort_ranked y [] m = m
  IsOneOf-sort_ranked y (x ∷ xs) (inl e) = IsOneOf-insert_ranked x y _ (inl e)
  IsOneOf-sort_ranked y (x ∷ xs) (inr m) =
      IsOneOf-insert_ranked x y _ (inr (IsOneOf-sort_ranked y xs m))

  is_in-insert_ranked :
      (i : String) (x : Scored) (ys : List Scored)
      → is_in i (ids (insert_ranked place x ys)) ≡ is_in i (x.0 ∷ ids ys)
  unfolding insert_ranked is_in
  is_in-insert_ranked i x [] = refl
  is_in-insert_ranked i x (y ∷ ys) = ground (arith, is_in-insert_ranked i x ys)

  is_in-sort_ranked :
      (i : String) (xs : List Scored) → is_in i (ids (sort_ranked place xs)) ≡ is_in i (ids xs)
  unfolding sort_ranked is_in
  is_in-sort_ranked i [] = refl
  is_in-sort_ranked i (x ∷ xs) =
      ground (arith, is_in-insert_ranked i x (sort_ranked place xs), is_in-sort_ranked i xs)

  distinct-insert_ranked :
      (x : Scored) (ys : List Scored)
      → HasDistinctIds (x ∷ ys)
      → HasDistinctIds (insert_ranked place x ys)
  unfolding insert_ranked is_in
  distinct-insert_ranked x [] h = h
  distinct-insert_ranked x (y ∷ ys) h = elim (Bool-cases (ranks_before place x y)) [
    | inl b ↦ rw b h
    | inr b ↦ rw b (
      is_in-insert_ranked y.0 x ys ∙ apart x.0 y.0 (ids ys) h.0 h.1.0,
      distinct-insert_ranked x ys (apart_tail x.0 y.0 (ids ys) h.0, h.1.1),
    )
  ]

  pub distinct-sort_ranked :
      (xs : List Scored) → HasDistinctIds xs → HasDistinctIds (sort_ranked place xs)
  unfolding sort_ranked
  distinct-sort_ranked [] h = tt
  distinct-sort_ranked (x ∷ xs) h =
      distinct-insert_ranked x _ (is_in-sort_ranked x.0 xs ∙ h.0, distinct-sort_ranked xs h.1)

  pub take_before :
      (q : ℕ) (l : List Scored) (x y : Scored)
      → IsRanked l
      → HasDistinctIds l
      → IsOneOf x l
      → IsOneOf y l
      → is_in x.0 (ids (take q l)) ≡ true
      → is_in y.0 (ids (take q l)) ≡ false
      → ranks_before place x y ≡ true
  unfolding is_in
  take_before zero l x y r d mx my hx hy = absurd cc
  take_before (suc q) [] x y r d mx my hx hy = absurd mx
  take_before (suc q) (z ∷ l) x y r d mx (inl e) hx hy =
      absurd (both hy (is_in_head y.0 z.0 (ids (take q l)) (ap (λ p. p.0) e)))
  take_before (suc q) (z ∷ l) x y r d (inl e) (inr my) hx hy =
      subst (λ w. ranks_before place w y ≡ true) (sym e) (all-IsOneOf _ y l r.0 my)
  take_before (suc q) (z ∷ l) x y r d (inr mx) (inr my) hx hy =
      take_before q l x y r.1 d.1 mx my
        (is_in_tail x.0 z.0 (ids (take q l)) (ids l) hx d.0 (is_in-IsOneOf x l mx))
        (apart_tail y.0 z.0 (ids (take q l)) hy)
