-- ===== src/Quality/Gate/Selection/Count.antt =====
-- quality.py, _top_ratio_selection: how many records are kept.
use label_kit.Prelude.{
  ℕ, zero, suc, ◌≡◌, refl, ◌∙◌, ap, false, List, [], ◌∷◌, length, min, if◌then◌else◌, take, arith,
  String, string_eq, ==_refl,
}
use label_kit.Prelude.Dict.{is_in}
use label_kit.Quality.Gate.{Scored, insert_ranked, sort_ranked, ids}
use label_kit.Quality.Gate.Selection.{HasDistinctIds, apart_tail, apart_head}

unfoldable pub kept_count : List String → List Scored → ℕ
unfolding is_in
kept_count kept [] = 0
kept_count kept (x ∷ xs) =
    let rest = kept_count kept xs in if is_in x.0 kept then suc rest else rest

module _ (place : String → ℕ) where
  kept_count-insert_ranked :
      (kept : List String) (x : Scored) (ys : List Scored)
      → kept_count kept (insert_ranked place x ys) ≡ kept_count kept (x ∷ ys)
  unfolding insert_ranked kept_count
  kept_count-insert_ranked kept x [] = refl
  kept_count-insert_ranked kept x (y ∷ ys) = ground (arith, kept_count-insert_ranked kept x ys)

  pub kept_count-sort_ranked :
      (kept : List String) (xs : List Scored)
      → kept_count kept (sort_ranked place xs) ≡ kept_count kept xs
  unfolding sort_ranked kept_count
  kept_count-sort_ranked kept [] = refl
  kept_count-sort_ranked kept (x ∷ xs) =
      kept_count-insert_ranked kept x (sort_ranked place xs)
      ∙ ground (arith, kept_count-sort_ranked kept xs)

  insert_ranked-length :
      (x : Scored) (ys : List Scored) → length (insert_ranked place x ys) ≡ suc (length ys)
  unfolding insert_ranked
  insert_ranked-length x [] = refl
  insert_ranked-length x (y ∷ ys) = ground (arith, insert_ranked-length x ys)

  pub sort_ranked-length : (xs : List Scored) → length (sort_ranked place xs) ≡ length xs
  unfolding sort_ranked
  sort_ranked-length [] = refl
  sort_ranked-length (x ∷ xs) =
      insert_ranked-length x (sort_ranked place xs) ∙ ap suc (sort_ranked-length xs)

-- A record whose id is not listed counts for nothing.
kept_count-new :
    (i : String) (kept : List String) (xs : List Scored)
    → is_in i (ids xs) ≡ false
    → kept_count (i ∷ kept) xs ≡ kept_count kept xs
unfolding kept_count is_in
kept_count-new i kept [] h = refl
kept_count-new i kept ((j, a) ∷ xs) h = ground (
  arith,
  string_eq.test_iff i j,
  string_eq.test_iff j i,
  kept_count-new i kept xs (apart_tail i j (ids xs) h),
  apart_head i j (ids xs) h,
)

kept_count-nil : (xs : List Scored) → kept_count [] xs ≡ 0
unfolding kept_count is_in
kept_count-nil [] = refl
kept_count-nil (x ∷ xs) = kept_count-nil xs

pub kept_count-take :
    (q : ℕ) (l : List Scored) → HasDistinctIds l → kept_count (ids (take q l)) l ≡ min q (length l)
unfolding kept_count is_in
kept_count-take zero l d = kept_count-nil l ∙ omega arith
kept_count-take (suc q) [] d = omega arith
kept_count-take (suc q) ((i, a) ∷ l) d =
    ground (arith, ==_refl i, kept_count-new i (ids (take q l)) l d.0, kept_count-take q l d.1)
