-- ===== src/Runtime/Errors/Least.antt =====
-- scheduler.py, min by declaration key: lemmas on keys and on the entry of the least key.
use label_kit.Prelude.{
  ◌≡◌, ◌⊎◌, refl, ap, sym, ◌∙◌, subst, inl, inr, true, false, some, List, [], ◌∷◌, arith,
  if◌then◌else◌, Bool-cases,
}
use mathlib.Core.List.{Memᴰ, Permᴰ}
use mathlib.Core.List.Permᴰ
use label_kit.Prelude.Int.{ℤ}
use label_kit.Runtime.Errors.{key_lt, Entry, min_from, min_entry}

-- The order of the keys is total.
key_lt_asym : (a b : List ℤ) → key_lt a b ≡ true → key_lt b a ≡ false
unfolding key_lt
key_lt_asym [] [] h = cc
key_lt_asym [] (y ∷ ys) h = refl
key_lt_asym (x ∷ xs) [] h = absurd (cc)
key_lt_asym (x ∷ xs) (y ∷ ys) h = let r = key_lt_asym xs ys in ground (arith, r)

key_lt_irrefl : (a : List ℤ) → key_lt a a ≡ false
unfolding key_lt
key_lt_irrefl [] = refl
key_lt_irrefl (x ∷ xs) = let r = key_lt_irrefl xs in ground (arith, r)

key_le_trans : (a b c : List ℤ) → key_lt b a ≡ false → key_lt c b ≡ false → key_lt c a ≡ false
unfolding key_lt
key_le_trans [] b [] h k = refl
key_le_trans [] b (z ∷ zs) h k = refl
key_le_trans (x ∷ xs) [] [] h k = absurd (cc)
key_le_trans (x ∷ xs) [] (z ∷ zs) h k = absurd (cc)
key_le_trans (x ∷ xs) (y ∷ ys) [] h k = absurd (cc)
key_le_trans (x ∷ xs) (y ∷ ys) (z ∷ zs) h k = let r = key_le_trans xs ys zs in ground (arith, r)

key_le_antisym : (a b : List ℤ) → key_lt a b ≡ false → key_lt b a ≡ false → a ≡ b
unfolding key_lt
key_le_antisym [] [] h k = refl
key_le_antisym [] (y ∷ ys) h k = absurd (cc)
key_le_antisym (x ∷ xs) [] h k = absurd (cc)
key_le_antisym (x ∷ xs) (y ∷ ys) h k = let r = key_le_antisym xs ys in ground (arith, r)

module _ {E : Type 0} where
  -- No key of the list is below that of `e`.
  abbrev pub IsLeast : Entry E → List (Entry E) → Type 0
  IsLeast e l = (x : Entry E) → Memᴰ x l → key_lt x.declaration_key e.declaration_key ≡ false

  -- `e` is the entry of the list with the least key.
  pub record IsMin (l : List (Entry E)) (e : Entry E) : Type 0 where
    pub member : Memᴰ e l
    pub least : IsLeast e l

  smaller : Entry E → Entry E → Entry E
  smaller x best = if key_lt x.declaration_key best.declaration_key then x else best

  smaller_le :
      (x best : Entry E)
      → (key_lt x.declaration_key (smaller x best).declaration_key ≡ false)
        × (key_lt best.declaration_key (smaller x best).declaration_key ≡ false)
  unfolding smaller
  smaller_le x best = elim (Bool-cases (key_lt x.declaration_key best.declaration_key)) [
    | inl h ↦ rw h (key_lt_irrefl x.declaration_key, key_lt_asym _ _ h)
    | inr h ↦ rw h (h, key_lt_irrefl best.declaration_key)
  ]

  smaller_cases : (x best : Entry E) → (smaller x best ≡ x) ⊎ (smaller x best ≡ best)
  unfolding smaller
  smaller_cases x best = elim (Bool-cases (key_lt x.declaration_key best.declaration_key)) [
    | inl h ↦ inl (rw h)
    | inr h ↦ inr (rw h)
  ]

  widen :
      (best x : Entry E) (xs : List (Entry E)) (e : Entry E)
      → IsMin (smaller x best ∷ xs) e
      → IsMin (best ∷ x ∷ xs) e
  widen best x xs e h = record { member = place h.member; least = low }
    where
      place : Memᴰ e (smaller x best ∷ xs) → Memᴰ e (best ∷ x ∷ xs)
      place (Memᴰ.head p) = elim (smaller_cases x best) [
        | inl q ↦ Memᴰ.tail (Memᴰ.head (p ∙ q))
        | inr q ↦ Memᴰ.head (p ∙ q)
      ]
      place (Memᴰ.tail m) = Memᴰ.tail (Memᴰ.tail m)

      top : key_lt (smaller x best).declaration_key e.declaration_key ≡ false
      top = h.least (smaller x best) (Memᴰ.head refl)

      low : IsLeast e (best ∷ x ∷ xs)
      low y (Memᴰ.head p) =
          subst (λ (z : Entry E). key_lt z.declaration_key e.declaration_key ≡ false) (sym p)
            (key_le_trans e.declaration_key (smaller x best).declaration_key best.declaration_key
              top ((smaller_le x best).1))
      low y (Memᴰ.tail (Memᴰ.head p)) =
          subst (λ (z : Entry E). key_lt z.declaration_key e.declaration_key ≡ false) (sym p)
            (key_le_trans e.declaration_key (smaller x best).declaration_key x.declaration_key top
              ((smaller_le x best).0))
      low y (Memᴰ.tail (Memᴰ.tail m)) = h.least y (Memᴰ.tail m)

  pub min_from-IsMin : (best : Entry E) (l : List (Entry E)) → IsMin (best ∷ l) (min_from best l)
  unfolding min_from smaller
  min_from-IsMin best [] = record { member = Memᴰ.head refl; least = only }
    where
      only : IsLeast best (best ∷ [])
      only x (Memᴰ.head p) =
          subst (λ y. key_lt y.declaration_key best.declaration_key ≡ false) (sym p)
            (key_lt_irrefl best.declaration_key)
      only x (Memᴰ.tail m) = elim m [ ]
  min_from-IsMin best (x ∷ xs) =
      widen best x xs (min_from (smaller x best) xs) (min_from-IsMin (smaller x best) xs)

  mem_perm : {x : Entry E} {l m : List (Entry E)} → Permᴰ l m → Memᴰ x l → Memᴰ x m
  mem_perm Permᴰ.nil m = m
  mem_perm (Permᴰ.cons e d) (Memᴰ.head p) = Memᴰ.head (p ∙ e)
  mem_perm (Permᴰ.cons e d) (Memᴰ.tail m) = Memᴰ.tail (mem_perm d m)
  mem_perm (Permᴰ.swap e f) (Memᴰ.head p) = Memᴰ.tail (Memᴰ.head (p ∙ e))
  mem_perm (Permᴰ.swap e f) (Memᴰ.tail (Memᴰ.head p)) = Memᴰ.head (p ∙ f)
  mem_perm (Permᴰ.swap e f) (Memᴰ.tail (Memᴰ.tail m)) = Memᴰ.tail (Memᴰ.tail m)
  mem_perm (Permᴰ.trans d d') m = mem_perm d' (mem_perm d m)

  -- Two entries with one key are one entry.
  abbrev pub HasDistinctKeys : List (Entry E) → Type 0
  HasDistinctKeys l =
      (x y : Entry E) → Memᴰ x l → Memᴰ y l → x.declaration_key ≡ y.declaration_key → x ≡ y

  min_unique :
      {l m : List (Entry E)} {a b : Entry E}
      → HasDistinctKeys l
      → Permᴰ l m
      → IsMin l a
      → IsMin m b
      → a ≡ b
  min_unique {a = a} {b = b} distinct d ha hb =
      let b_in = mem_perm (Permᴰ.symm d) hb.member in
      distinct a b ha.member b_in
        (key_le_antisym _ _ (hb.least a (mem_perm d ha.member)) (ha.least b b_in))

  -- No list is a permutation of a list of another emptiness.
  nonempty_perm : {y : Entry E} {ys : List (Entry E)} → ¬ Permᴰ [] (y ∷ ys)
  nonempty_perm {y = y} {ys = ys} d =
      let m : Memᴰ y (y ∷ ys) = Memᴰ.head refl in
      let k : Memᴰ y [] = mem_perm (Permᴰ.symm d) m in elim k [ ]

  pub min_entry_perm :
      (l m : List (Entry E)) → HasDistinctKeys l → Permᴰ l m → min_entry l ≡ min_entry m
  unfolding min_entry
  min_entry_perm [] [] distinct d = refl
  min_entry_perm [] (y ∷ ys) distinct d = absurd (nonempty_perm d)
  min_entry_perm (x ∷ xs) [] distinct d = absurd (nonempty_perm (Permᴰ.symm d))
  min_entry_perm (x ∷ xs) (y ∷ ys) distinct d =
      ap some (min_unique distinct d (min_from-IsMin x xs) (min_from-IsMin y ys))
