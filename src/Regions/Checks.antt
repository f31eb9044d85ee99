-- ===== src/Regions/Checks.antt =====
-- segment_geometry.py, validate_regions: the violations against the specification.
use label_kit.Prelude.{
  is_some, is_nil, ℕ, ◌+◌, ◌≡◌, refl, sym, ◌∙◌, inl, inr, Bool, true, false, not, ◌&&◌, Option,
  none, some, List, [], ◌∷◌, ◌++◌, String, if◌then◌else◌, string_eq, arith, Bool-cases,
}
use label_kit.Prelude.Dict.{is_in, Dict, get, or_default}
use label_kit.Regions.Legal.{
  rings_closed, parts_closed, all_known, all_new, name_of, reused_names, sources_legal, parts_valid,
  polygons_legal, shape_legal, region_legal, all_legal,
}
use label_kit.Regions.Data.{
  ReferenceBox, Ring, Polygon, Region, Shapely, Violation, sources_without_boxes, is_closed,
  or_list,
}
use label_kit.Regions.Violations.{
  hole_violations, closure_violations, unknown_sources, source_violations, reference_violation,
  part_violations, overlap_violations, validity_violations, region_violations, all_violations,
  check_shape, after_reference,
}

is_nil-append : {A : Type 0} (xs ys : List A) → is_nil (xs ++ ys) ≡ (is_nil xs && is_nil ys)
is_nil-append [] ys = ground arith
is_nil-append (x ∷ xs) ys = ground arith

is_nil-or_list : {A : Type 0} (xs ys : List A) → is_nil (or_list xs ys) ≡ (is_nil xs && is_nil ys)
is_nil-or_list [] ys = ground arith
is_nil-or_list (x ∷ xs) ys = ground arith

nil-hole_violations :
    (index part hole : ℕ) (rs : List Ring)
    → is_nil (hole_violations index part hole rs) ≡ rings_closed rs
unfolding hole_violations rings_closed
nil-hole_violations index part hole [] = refl
nil-hole_violations index part hole (r ∷ rs) =
    let rest = nil-hole_violations index part (hole + 1) rs in
    elim (Bool-cases (is_closed r)) [
      | inl closed ↦ rw (closed, rest) (ground arith)
      | inr open_ring ↦ rw open_ring (ground arith)
    ]

nil-closure_violations :
    (index part : ℕ) (ps : List Polygon)
    → is_nil (closure_violations index part ps) ≡ parts_closed ps
unfolding closure_violations parts_closed
nil-closure_violations index part [] = refl
nil-closure_violations index part (p ∷ ps) =
    let rest = nil-closure_violations index (part + 1) ps in
    let holes = nil-hole_violations index part 0 p.holes in
    elim (Bool-cases (is_closed p.exterior)) [
      | inl closed ↦
          rw
            (
              closed,
              is_nil-append (hole_violations index part 0 p.holes)
                  (closure_violations index (part + 1) ps),
              holes,
              rest,
            )
            (ground arith)
      | inr open_ring ↦ rw open_ring (ground arith)
    ]

nil-unknown_sources :
    (index source : ℕ) (known : Dict String ReferenceBox) (ss : List String)
    → is_nil (unknown_sources index source known ss) ≡ all_known known ss
unfolding unknown_sources all_known
nil-unknown_sources index source known [] = refl
nil-unknown_sources index source known (s ∷ ss) =
    let rest = nil-unknown_sources index (source + 1) known ss in
    elim (Bool-cases (is_some (get known s))) [
      | inl there ↦ rw (there, rest) (ground arith)
      | inr missing ↦ rw missing (ground arith)
    ]

all_known-nil : (ss : List String) → is_nil ss ≡ false → all_known [] ss ≡ false
unfolding all_known get
all_known-nil [] h = absurd (cc h)
all_known-nil (s ∷ ss) h = ground arith

nil-source_violations :
    (index : ℕ) (r : Region) (known : Dict String ReferenceBox)
    → is_nil (source_violations index r known)
      ≡ sources_legal known r.box_id (or_default r.source_box_ids [])
unfolding source_violations sources_legal
nil-source_violations index r known =
    let sources = or_default r.source_box_ids [] in
    elim (Bool-cases (is_nil sources)) [
      | inl empty ↦ rw empty refl
      | inr named ↦ elim (Bool-cases (is_some r.box_id)) [
        | inl boxed ↦ rw (named, boxed) (ground arith)
        | inr drawn ↦ rw (named, drawn) (of_known known named)
      ]
    ]
  where
    of_known :
        (known : Dict String ReferenceBox)
        → is_nil (or_default r.source_box_ids []) ≡ false
        → is_nil (
            if is_nil known
            then sources_without_boxes index ∷ []
            else unknown_sources index 0 known (or_default r.source_box_ids []))
          ≡ all_known known (or_default r.source_box_ids [])
    of_known [] named = sym (all_known-nil (or_default r.source_box_ids []) named)
    of_known (k ∷ ks) named = nil-unknown_sources index 0 (k ∷ ks) (or_default r.source_box_ids [])

module _ (shapely : Shapely) where
  nil-part_violations :
      (index part : ℕ) (ps : List Polygon)
      → is_nil (part_violations shapely index part ps) ≡ parts_valid shapely ps
  unfolding part_violations parts_valid
  nil-part_violations index part [] = refl
  nil-part_violations index part (p ∷ ps) =
      let rest = nil-part_violations index (part + 1) ps in
      elim (Bool-cases (shapely.is_valid p)) [
        | inl good ↦ rw (good, rest) (ground arith)
        | inr bad ↦ rw bad (ground arith)
      ]

  nil-geometry :
      (index : ℕ) (ps : List Polygon)
      → is_nil (or_list (closure_violations index 0 ps) (validity_violations shapely index ps))
        ≡ polygons_legal shapely ps
  unfolding validity_violations overlap_violations polygons_legal
  nil-geometry index ps =
      rw (is_nil-or_list, is_nil-or_list, nil-closure_violations, nil-part_violations)
        (ground arith)

  -- What the check of one region finds and reuses.
  reference_legal : Dict String ReferenceBox → List String → String → Bool
  reference_legal known reused b = is_some (get known b) && not (is_in b reused)

  nil-reference_violation :
      (index : ℕ) (b : String) (known : Dict String ReferenceBox) (reused : List String)
      → is_some (reference_violation index b known reused) ≡ not (reference_legal known reused b)
  unfolding reference_violation reference_legal get
  nil-reference_violation index b [] reused = ground arith
  nil-reference_violation index b (k ∷ ks) reused = ground arith

  new_name : Option String → List String → Bool
  new_name none reused = true
  new_name (some b) reused = not (is_in b reused)

  abbrev with_name : Option String → List String → List String
  with_name none reused = reused
  with_name (some b) reused = b ∷ reused

  -- The check of one region: it finds nothing exactly if the region is legal and its box is new, and
  -- then the box is reused.
  record Checked (found : List Violation × List String) (good : Bool) (reused : List String)
      : Type 0 where
    agrees : is_nil found.0 ≡ good
    names : good ≡ true → found.1 ≡ reused

  after_reference-Checked :
      (o : Option Violation) (found : List Violation) (b : String) (reused : List String)
      (there fresh sources : Bool)
      → is_some o ≡ not (there && fresh)
      → is_nil found ≡ sources
      → Checked
          (after_reference shapely o found b reused)
          (there && (sources && fresh))
          (b ∷ reused)
  after_reference-Checked none found b reused there fresh sources h k = record {
    agrees = ground arith;
    names = λ e. refl;
  }
  after_reference-Checked (some v) found b reused there fresh sources h k = record {
    agrees = ground arith;
    names = λ e. absurd (ground arith);
  }

  check_shape-Checked :
      (index : ℕ) (r : Region) (box_id : Option String) (ps : Option (List Polygon))
      (known : Dict String ReferenceBox) (reused : List String) (sources : Bool)
      → is_nil (source_violations index r known) ≡ sources
      → Checked
          (check_shape shapely index r box_id ps known reused)
          (shape_legal shapely known box_id ps && (sources && new_name box_id reused))
          (with_name box_id reused)
  unfolding new_name
  check_shape-Checked index r none none known reused sources h = record {
    agrees = ground arith;
    names = λ e. ground arith;
  }
  check_shape-Checked index r (some b) (some ps) known reused sources h = record {
    agrees = ground arith;
    names = λ e. ground arith;
  }
  check_shape-Checked index r (some b) none known reused sources h =
      after_reference-Checked (reference_violation index b known reused)
        (source_violations index r known) b reused (is_some (get known b)) (not (is_in b reused))
        sources (nil-reference_violation index b known reused ∙ unfold reference_legal in refl) h
  check_shape-Checked index r none (some ps) known reused sources h = record {
    agrees =
        is_nil-or_list
          (or_list (closure_violations index 0 ps) (validity_violations shapely index ps))
          (source_violations index r known)
        ∙ ground (arith, nil-geometry index ps);
    names = λ e. refl;
  }

  region_violations-Checked :
      (index : ℕ) (r : Region) (known : Dict String ReferenceBox) (reused : List String)
      → Checked
          (region_violations shapely index r known reused)
          (region_legal shapely known r && new_name r.box_id reused)
          (with_name r.box_id reused)
  unfolding region_violations region_legal
  region_violations-Checked index r known reused =
      let c =
        check_shape-Checked index r r.box_id r.polygons known reused
          (sources_legal known r.box_id (or_default r.source_box_ids []))
          (nil-source_violations index r known) in
      record { agrees = c.agrees ∙ ground arith; names = λ e. c.names (ground (arith, e)) }

  all_new-name :
      (o : Option String) (reused names : List String)
      → all_new reused (name_of o ++ names)
        ≡ (new_name o reused && all_new (with_name o reused) names)
  unfolding all_new new_name
  all_new-name none reused names = ground arith
  all_new-name (some b) reused names = refl

  -- The checks find nothing exactly if each region is legal and no box is reused twice.
  pub nil-all_violations :
      (index : ℕ) (rs : List Region) (known : Dict String ReferenceBox) (reused : List String)
      → is_nil (all_violations shapely index rs known reused)
        ≡ (all_legal shapely known rs && all_new reused (reused_names rs))
  unfolding all_violations all_legal reused_names
  nil-all_violations index [] known reused = unfold all_new in refl
  nil-all_violations index (r ∷ rs) known reused =
      let c = region_violations-Checked index r known reused in
      let found = region_violations shapely index r known reused in
      let rest = nil-all_violations (index + 1) rs known in
      is_nil-append found.0 (all_violations shapely (index + 1) rs known found.1)
      ∙ rw (c.agrees, all_new-name r.box_id reused (reused_names rs))
          (elim (Bool-cases (region_legal shapely known r && new_name r.box_id reused)) [
            | inl good ↦ rw (good, c.names good, rest (with_name r.box_id reused)) (ground arith)
            | inr bad ↦ rw bad (ground arith)
          ])
