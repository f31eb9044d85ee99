-- ===== src/Quality/Gate/Decisions.antt =====
-- quality.py, _apply_gate and _gate_top_ratio: what is still active after the gate.
use label_kit.Prelude.{
  ℕ, ◌≡◌, refl, sym, ◌∙◌, ap, subst, Bool, true, false, Option, none, some, List, [], ◌∷◌, ◌++◌,
  map, length, min, if◌then◌else◌, take, String, string_eq,
}
use label_kit.Prelude.Dict.{is_in}
use label_kit.Quality.Gate.{
  Status, active, dropped_lowq, other_status, Item, Gate, Scored, ranks_before, sort_ranked, ids,
  top_ratio_selection, scored_items, unscored_items, keeps_scored, drop_if, gate_item, apply_gate,
}
use label_kit.Quality.Gate.Selection.{
  IsOneOf, HasDistinctIds, take_before, sort_ranked-IsRanked, distinct-sort_ranked,
  IsOneOf-sort_ranked,
}
use label_kit.Quality.Gate.Selection.Count.{
  kept_count-take, kept_count-sort_ranked, sort_ranked-length,
}
use label_kit.Quality.Gate.Kept.{
  kept_scored, kept_nil, kept_scored-append, IsOneOf-kept_scored, kept_scored-length, fails_test,
}

abbrev item : String → Status → Option ℕ → Item
item i s a = record { id = i; status = s; aggregate = a }

one_scored :
    (i : String) (v : ℕ) (b k : Bool)
    → (scored_items (drop_if b (item i active (some v)) ∷ []) ≡ (if b then (i, v) ∷ [] else []))
      × (unscored_items (drop_if b (item i active (some v)) ∷ []) ≡ (if k then [] else []))
one_scored i v true true = (refl, refl)
one_scored i v true false = (refl, refl)
one_scored i v false true = (refl, refl)
one_scored i v false false = (refl, refl)

one_unscored :
    (i : String) (k : Bool)
    → (scored_items (drop_if k (item i active none) ∷ []) ≡ [])
      × (unscored_items (drop_if k (item i active none) ∷ []) ≡ (if k then i ∷ [] else []))
one_unscored i true = (refl, refl)
one_unscored i false = (refl, refl)

nothing_kept : (k : Bool) → let e : List String = [] in e ≡ (if k then e else e)
nothing_kept true = refl
nothing_kept false = refl

append_nil {ℓ} : {A : Type ℓ} (xs : List A) → xs ++ [] ≡ xs
append_nil [] = refl
append_nil (x ∷ xs) = ap (λ l. x ∷ l) (append_nil xs)

ap2 {ℓ} : {A : Type ℓ} (f : A → A → A) {a b c d : A} → a ≡ b → c ≡ d → f a c ≡ f b d
ap2 f {b = b} {c = c} e g = ap (λ x. f x c) e ∙ ap (f b) g

if_append {ℓ} :
    {A : Type ℓ} (b : Bool) (xs ys : List A)
    → (if b then xs else []) ++ (if b then ys else []) ≡ (if b then xs ++ ys else [])
if_append true xs ys = refl
if_append false xs ys = refl

module _ (q : Gate) (scored : List Scored) where
  abbrev IsGatedOne : Item → Type 0
  IsGatedOne x =
      (scored_items (gate_item q scored x ∷ [])
        ≡ kept_scored (keeps_scored q scored) (scored_items (x ∷ [])))
      × (unscored_items (gate_item q scored x ∷ [])
          ≡ (if q.on_unscored_keep then unscored_items (x ∷ []) else []))

  gate_fields : (i : String) (s : Status) (a : Option ℕ) → IsGatedOne (item i s a)
  unfolding gate_item kept_scored
  gate_fields i active (some v) = one_scored i v (keeps_scored q scored (i, v)) q.on_unscored_keep
  gate_fields i active none = one_unscored i q.on_unscored_keep
  gate_fields i dropped_lowq a = (refl, nothing_kept q.on_unscored_keep)
  gate_fields i other_status a = (refl, nothing_kept q.on_unscored_keep)

  append_scored :
      (x : Item) (xs : List Item) → scored_items (x ∷ xs) ≡ scored_items (x ∷ []) ++ scored_items xs
  append_scored x xs = ap (λ l. l ++ scored_items xs) (sym (append_nil _))

  append_unscored :
      (x : Item) (xs : List Item)
      → unscored_items (x ∷ xs) ≡ unscored_items (x ∷ []) ++ unscored_items xs
  append_unscored x xs = ap (λ l. l ++ unscored_items xs) (sym (append_nil _))

  gated_scored :
      (items : List Item)
      → scored_items (map (gate_item q scored) items)
        ≡ kept_scored (keeps_scored q scored) (scored_items items)
  gated_scored [] = kept_nil (keeps_scored q scored)
  gated_scored (x ∷ items) =
      append_scored (gate_item q scored x) (map (gate_item q scored) items)
      ∙ ap2 (λ l m. l ++ m) (gate_fields x.id x.status x.aggregate).0 (gated_scored items)
      ∙ sym (kept_scored-append _ (scored_items (x ∷ [])) (scored_items items))
      ∙ ap (kept_scored (keeps_scored q scored)) (sym (append_scored x items))

  gated_unscored :
      (items : List Item)
      → unscored_items (map (gate_item q scored) items)
        ≡ (if q.on_unscored_keep then unscored_items items else [])
  gated_unscored [] = nothing_kept q.on_unscored_keep
  gated_unscored (x ∷ items) =
      append_unscored (gate_item q scored x) (map (gate_item q scored) items)
      ∙ ap2 (λ l m. l ++ m) (gate_fields x.id x.status x.aggregate).1 (gated_unscored items)
      ∙ if_append q.on_unscored_keep (unscored_items (x ∷ [])) (unscored_items items)
      ∙ ap (λ l. if q.on_unscored_keep then l else []) (sym (append_unscored x items))

-- What is left of a pool by the top ratio.
pub record IsBest (q : Gate) (before after : List Item) : Type 0 where
  pub number :
      length (scored_items after)
      ≡ min (q.quota (length (scored_items before))) (length (scored_items before))
  pub best :
      (x y : Scored)
      → IsOneOf x (scored_items after)
      → IsOneOf y (scored_items before)
      → ¬ IsOneOf y (scored_items after)
      → ranks_before q.id_place x y ≡ true
  pub unscored : unscored_items after ≡ (if q.on_unscored_keep then unscored_items before else [])

if_true {ℓ} : {A : Type ℓ} {b : Bool} (x y : A) → b ≡ true → (if b then x else y) ≡ x
if_true x y e = ap (λ b. if b then x else y) e

keeps_scored-top :
    (q : Gate) (scored : List Scored) (x : Scored)
    → q.top_ratio ≡ true
    → keeps_scored q scored x
      ≡ is_in x.0 (
          ids (
            take
              (q.quota (length (sort_ranked q.id_place scored)))
              (sort_ranked q.id_place scored)))
unfolding keeps_scored top_ratio_selection
keeps_scored-top q scored x t = if_true _ _ t

-- By the top ratio, with ids that are distinct: as many scored records stay active as the quota, or
-- all if there are fewer; each of them is ranked before each that was dropped, by the score and then
-- the id; and the records without a score stay only if the setting keeps them.
pub apply_gate-IsBest :
    (q : Gate) (items : List Item)
    → q.top_ratio ≡ true
    → HasDistinctIds (scored_items items)
    → IsBest q items (apply_gate q items).0
unfolding apply_gate
apply_gate-IsBest q items t d =
    let scored = scored_items items in
    let place = q.id_place in
    let l = sort_ranked place scored in
    let n = q.quota (length l) in
    let sl = sort_ranked-length place scored in
    let left = gated_scored q scored items in
    record {
      number =
          ap length left
          ∙ kept_scored-length (keeps_scored q scored) (ids (take n l)) scored
              (λ x. keeps_scored-top q scored x t)
          ∙ sym (kept_count-sort_ranked place (ids (take n l)) scored)
          ∙ kept_count-take n l (distinct-sort_ranked place scored d)
          ∙ ap (λ k. min (q.quota k) k) sl;
      best = λ x y mx my ny.
          let (ix, kx) = IsOneOf-kept_scored _ x scored (subst (IsOneOf x) left mx) in
          take_before place n l x y (sort_ranked-IsRanked place scored)
            (distinct-sort_ranked place scored d) (IsOneOf-sort_ranked place x scored ix)
            (IsOneOf-sort_ranked place y scored my) (sym (keeps_scored-top q scored x t) ∙ kx)
            (sym (keeps_scored-top q scored y t)
              ∙ fails_test _ y scored my (λ m. ny (subst (IsOneOf y) (sym left) m)));
      unscored = gated_unscored q scored items;
    }
