-- ===== src/Quality/Ranks/Sorting.antt =====
-- quality.py, _average_ranks: the order of the values.
use label_kit.Prelude.{
  ℕ, suc, ◌≤◌, ◌≡◌, inl, inr, refl, ◌∙◌, ap, List, [], ◌∷◌, length, leb, nat_eq, All, Bool-cases,
  arith,
}
use label_kit.Prelude.Dict.{is_in}
use label_kit.Quality.Ranks.{Entry, insert_by_value, sort_by_value}
use label_kit.Quality.Ranks.Runs.{less, equal, entry_values, IsAscending}

all-insert_by_value :
    (P : Entry → Type 0) (x : Entry) (ys : List Entry)
    → P x
    → All P ys
    → All P (insert_by_value x ys)
unfolding insert_by_value
all-insert_by_value P x [] h a = (h, tt)
all-insert_by_value P x (y ∷ ys) h a = elim (Bool-cases (leb x.1 y.1)) [
  | inl e ↦ rw e (h, a)
  | inr n ↦ rw n (a.0, all-insert_by_value P x ys h a.1)
]

pub all-sort_by_value : (P : Entry → Type 0) (xs : List Entry) → All P xs → All P (sort_by_value xs)
unfolding sort_by_value
all-sort_by_value P [] a = tt
all-sort_by_value P (x ∷ xs) a = all-insert_by_value P x _ a.0 (all-sort_by_value P xs a.1)

all-from : (v w : ℕ) (ys : List Entry) → v ≤ w → All (λ y. w ≤ y.1) ys → All (λ y. v ≤ y.1) ys
all-from v w [] h a = tt
all-from v w (y ∷ ys) h a = (omega (arith, h, a.0), all-from v w ys h a.1)

insert_by_value-IsAscending :
    (x : Entry) (ys : List Entry) → IsAscending ys → IsAscending (insert_by_value x ys)
unfolding insert_by_value
insert_by_value-IsAscending x [] s = (tt, tt)
insert_by_value-IsAscending x (y ∷ ys) s = elim (Bool-cases (leb x.1 y.1)) [
  | inl e ↦ let h : x.1 ≤ y.1 = ground (arith, e) in rw e ((h, all-from x.1 y.1 ys h s.0), s)
  | inr n ↦
      let h : y.1 ≤ x.1 = ground (arith, n) in
      rw n (all-insert_by_value (λ z. y.1 ≤ z.1) x ys h s.0, insert_by_value-IsAscending x ys s.1)
]

pub sort_by_value-IsAscending : (xs : List Entry) → IsAscending (sort_by_value xs)
unfolding sort_by_value
sort_by_value-IsAscending [] = tt
sort_by_value-IsAscending (x ∷ xs) = insert_by_value-IsAscending x _ (sort_by_value-IsAscending xs)

-- Sorting keeps how many values are below and equal, the length, and the indices.
unfoldable pub indices : List Entry → List ℕ
indices [] = []
indices (x ∷ xs) = x.0 ∷ indices xs

pub record Keeps (xs ys : List Entry) : Type 0 where
  pub size : length ys ≡ length xs
  pub below : (v : ℕ) → less v (entry_values ys) ≡ less v (entry_values xs)
  pub same : (v : ℕ) → equal v (entry_values ys) ≡ equal v (entry_values xs)
  pub index : (i : ℕ) → is_in i (indices ys) ≡ is_in i (indices xs)

insert_by_value-Keeps : (x : Entry) (ys : List Entry) → Keeps (x ∷ ys) (insert_by_value x ys)
unfolding insert_by_value less equal entry_values indices is_in
insert_by_value-Keeps x [] = record {
  size = refl;
  below = λ v. refl;
  same = λ v. refl;
  index = λ i. refl;
}
insert_by_value-Keeps x (y ∷ ys) = elim (Bool-cases (leb x.1 y.1)) [
  | inl e ↦ rw e record { size = refl; below = λ v. refl; same = λ v. refl; index = λ i. refl }
  | inr n ↦
      let k = insert_by_value-Keeps x ys in
      rw n record {
        size = ap suc k.size;
        below = λ v. ground (arith, k.below v);
        same = λ v. ground (arith, k.same v);
        index = λ i. ground (arith, k.index i);
      }
]

pub sort_by_value-Keeps : (xs : List Entry) → Keeps xs (sort_by_value xs)
unfolding sort_by_value less equal entry_values indices is_in
sort_by_value-Keeps [] = record {
  size = refl;
  below = λ v. refl;
  same = λ v. refl;
  index = λ i. refl;
}
sort_by_value-Keeps (x ∷ xs) =
    let k = sort_by_value-Keeps xs in
    let j = insert_by_value-Keeps x (sort_by_value xs) in
    record {
      size = j.size ∙ ap suc k.size;
      below = λ v. j.below v ∙ ground (arith, k.below v);
      same = λ v. j.same v ∙ ground (arith, k.same v);
      index = λ i. j.index i ∙ ground (arith, k.index i);
    }
