-- ===== src/Quality/Ranks/Average.antt =====
-- quality.py, _average_ranks: the ranks are those of the definition by counting.
use label_kit.Prelude.{
  ℕ, zero, suc, ◌+◌, ◌*◌, ◌≤◌, ◌<◌, ◌≡◌, ◌≢◌, ◌⊎◌, inl, inr, refl, sym, ◌∙◌, ap, subst, fun_ext,
  true, false, some, List, [], ◌∷◌, map, length, get_elem?, set, nat_beq, nat_beq_iff, nat_eq, All,
  Bool-cases, arith,
}
use label_kit.Prelude.Dict.{is_in}
use label_kit.Quality.Tally.{zeros, zeros-length}
use label_kit.Quality.Ranks.{Entry, indexed, sort_by_value, average_ranks}
use label_kit.Quality.Ranks.Runs.{
  less, equal, entry_values, write_each, rank_from, assign_ranks-each,
}
use label_kit.Quality.Ranks.Sorting.{
  indices, Keeps, all-sort_by_value, sort_by_value-IsAscending, sort_by_value-Keeps,
}

-- By counting: the values below it, and half of those that equal it, and a half; doubled.
abbrev pub rank_in : List ℕ → ℕ → ℕ
unfolding less equal
rank_in values v = 2 * less v values + equal v values + 1

-- The entries of `indexed`.
indexed-length : (k : ℕ) (vs : List ℕ) → length (indexed k vs) ≡ length vs
unfolding indexed
indexed-length k [] = refl
indexed-length k (v ∷ vs) = ap suc (indexed-length (suc k) vs)

indexed-values : (k : ℕ) (vs : List ℕ) → entry_values (indexed k vs) ≡ vs
unfolding indexed entry_values
indexed-values k [] = refl
indexed-values k (v ∷ vs) = ap (λ l. v ∷ l) (indexed-values (suc k) vs)

later : (i k : ℕ) (ks : List ℕ) → is_in i ks ≡ true → is_in i (k ∷ ks) ≡ true
unfolding is_in
later i k ks h = ground (arith, h)

indexed-index :
    (k : ℕ) (vs : List ℕ) (i v : ℕ)
    → get_elem? vs i ≡ some v
    → is_in (k + i) (indices (indexed k vs)) ≡ true
unfolding indexed indices is_in
indexed-index k [] i v h = absurd cc
indexed-index k (w ∷ vs) zero v h = ground arith
indexed-index k (w ∷ vs) (suc i) v h =
    let e : k + suc i ≡ suc k + i = omega arith in
    subst (λ j. is_in j (k ∷ indices (indexed (suc k) vs)) ≡ true) (sym e)
      (later (suc k + i) k (indices (indexed (suc k) vs)) (indexed-index (suc k) vs i v h))

indexed-member :
    (values : List ℕ) (i v : ℕ)
    → get_elem? values i ≡ some v
    → is_in i (indices (indexed 0 values)) ≡ true
indexed-member values i v h =
    subst (λ j. is_in j (indices (indexed 0 values)) ≡ true) (omega arith)
      (indexed-index 0 values i v h)

indexed-there :
    (values : List ℕ) (k : ℕ) (vs : List ℕ)
    → ((i v : ℕ) → get_elem? vs i ≡ some v → get_elem? values (k + i) ≡ some v)
    → All (λ y. get_elem? values y.0 ≡ some y.1) (indexed k vs)
unfolding indexed
indexed-there values k [] h = tt
indexed-there values k (w ∷ vs) h = (
  subst (λ j. get_elem? values j ≡ some w) (omega arith) (h 0 w refl),
  indexed-there values (suc k) vs
      (λ i v e. subst (λ j. get_elem? values j ≡ some v) (omega arith) (h (suc i) v e)),
)

get_elem?-set : (xs : List ℕ) (i : ℕ) (v : ℕ) → i < length xs → get_elem? (set xs i v) i ≡ some v
get_elem?-set [] i v h = absurd (omega arith)
get_elem?-set (x ∷ xs) zero v h = refl
get_elem?-set (x ∷ xs) (suc i) v h = get_elem?-set xs i v (omega (arith, h))

get_elem?-set-other :
    (xs : List ℕ) (i j : ℕ) (v : ℕ) → i ≢ j → get_elem? (set xs j v) i ≡ get_elem? xs i
get_elem?-set-other [] i j v n = refl
get_elem?-set-other (x ∷ xs) zero zero v n = absurd (n refl)
get_elem?-set-other (x ∷ xs) zero (suc j) v n = refl
get_elem?-set-other (x ∷ xs) (suc i) zero v n = refl
get_elem?-set-other (x ∷ xs) (suc i) (suc j) v n = get_elem?-set-other xs i j v (λ e. n (ap suc e))

set-length : (xs : List ℕ) (i v : ℕ) → length (set xs i v) ≡ length xs
set-length [] i v = refl
set-length (x ∷ xs) zero v = refl
set-length (x ∷ xs) (suc i) v = ap suc (set-length xs i v)

get_elem?-below : (xs : List ℕ) (i v : ℕ) → get_elem? xs i ≡ some v → i < length xs
get_elem?-below [] i v h = absurd cc
get_elem?-below (x ∷ xs) zero v h = omega arith
get_elem?-below (x ∷ xs) (suc i) v h = omega (arith, get_elem?-below xs i v h)

some_inj : {a b : ℕ} → some a ≡ some b → a ≡ b
some_inj e = cc

module _ (g : ℕ → ℕ) (values : List ℕ) where
  written :
      (ranks : List ℕ) (x : Entry) (i v : ℕ)
      → x.0 ≡ i
      → get_elem? values x.0 ≡ some x.1
      → length ranks ≡ length values
      → get_elem? values i ≡ some v
      → get_elem? (set ranks x.0 (g x.1)) i ≡ some (g v)
  written ranks x i v e a n h =
      let same : x.1 ≡ v = some_inj (sym a ∙ ap (get_elem? values) e ∙ h) in
      subst (λ j. get_elem? (set ranks x.0 (g x.1)) j ≡ some (g v)) e
        (get_elem?-set ranks x.0 (g x.1) (omega (arith, n, get_elem?-below values x.0 x.1 a))
          ∙ ap (λ w. some (g w)) same)

  still :
      (ranks : List ℕ) (x : Entry) (i v : ℕ) (order : List Entry)
      → nat_beq x.0 i ≡ false
      → (is_in i (indices (x ∷ order)) ≡ true) ⊎ (get_elem? ranks i ≡ some (g v))
      → (is_in i (indices order) ≡ true) ⊎ (get_elem? (set ranks x.0 (g x.1)) i ≡ some (g v))
  unfolding indices is_in
  still ranks x i v order d (inl m) = inl (ground (arith, d, m))
  still ranks x i v order d (inr w) =
      inr (get_elem?-set-other ranks i x.0 (g x.1) (λ e. absurd (ground (arith, d, e))) ∙ w)

  -- An index that is written, or was, holds what `g` makes of its value.
  write_each-value :
      (order : List Entry) (ranks : List ℕ)
      → All (λ y. get_elem? values y.0 ≡ some y.1) order
      → length ranks ≡ length values
      → (i v : ℕ) → get_elem? values i ≡ some v
      → (is_in i (indices order) ≡ true) ⊎ (get_elem? ranks i ≡ some (g v))
      → get_elem? (write_each g order ranks) i ≡ some (g v)
  unfolding write_each indices is_in
  write_each-value [] ranks a n i v h (inl w) = absurd cc
  write_each-value [] ranks a n i v h (inr w) = w
  write_each-value (x ∷ order) ranks a n i v h c =
      write_each-value order (set ranks x.0 (g x.1)) a.1 (set-length ranks x.0 (g x.1) ∙ n) i v h
        (elim (Bool-cases (nat_beq x.0 i)) [
          | inl e ↦ inr (written ranks x i v ((nat_beq_iff x.0 i).0 e) a.0 n h)
          | inr d ↦ still ranks x i v order d c
        ])

-- A list that holds what `g` makes of each value.
map-ext :
    (g : ℕ → ℕ) (xs vs : List ℕ)
    → length xs ≡ length vs
    → ((i v : ℕ) → get_elem? vs i ≡ some v → get_elem? xs i ≡ some (g v))
    → xs ≡ map g vs
map-ext g [] [] n h = refl
map-ext g [] (v ∷ vs) n h = absurd (omega (arith, n))
map-ext g (x ∷ xs) [] n h = absurd (omega (arith, n))
map-ext g (x ∷ xs) (v ∷ vs) n h =
    ap (λ y. y ∷ xs) (some_inj (h 0 v refl))
    ∙ ap (λ l. g v ∷ l) (map-ext g xs vs (omega (arith, n)) (λ i w e. h (suc i) w e))

write_each-length :
    (g : ℕ → ℕ) (order : List Entry) (ranks : List ℕ)
    → length (write_each g order ranks) ≡ length ranks
unfolding write_each
write_each-length g [] ranks = refl
write_each-length g (x ∷ order) ranks =
    write_each-length g order (set ranks x.0 (g x.1)) ∙ set-length ranks x.0 (g x.1)

same_rank :
    (values : List ℕ) (order : List Entry) (v : ℕ)
    → Keeps (indexed 0 values) order
    → rank_from 0 (entry_values order) v ≡ rank_in values v
unfolding rank_from
same_rank values order v k = omega (
  arith,
  k.below v,
  k.same v,
  ap (less v) (indexed-values 0 values),
  ap (equal v) (indexed-values 0 values),
)

-- The rank of each value is the number of the values below it and half of one more than the number
-- of those equal to it, itself among them.
pub average_ranks_lem : (values : List ℕ) → average_ranks values ≡ map (rank_in values) values
unfolding average_ranks
average_ranks_lem values =
    let entries = indexed 0 values in
    let order = sort_by_value entries in
    let start = zeros (length values) in
    let k = sort_by_value-Keeps entries in
    let g = rank_in values in
    let small : length order ≤ length values = omega (arith, k.size, indexed-length 0 values) in
    let there =
      all-sort_by_value (λ y. get_elem? values y.0 ≡ some y.1) entries
        (indexed-there values 0 values
          (λ i v e. subst (λ j. get_elem? values j ≡ some v) (omega arith) e)) in
    assign_ranks-each (length values) 0 order start small (sort_by_value-IsAscending entries)
    ∙ ap (λ f. write_each f order start) (fun_ext (λ v. same_rank values order v k))
    ∙ map-ext g (write_each g order start) values
        (write_each-length g order start ∙ zeros-length (length values))
        (λ i v e.
          write_each-value g values order start there (zeros-length (length values)) i v e
            (inl (k.index i ∙ indexed-member values i v e)))
