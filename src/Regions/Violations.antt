-- ===== src/Regions/Violations.antt =====
-- labelkit/operators/segment_geometry.py: steps 1 to 6, the checks of the regions that a model draws.
use label_kit.Prelude.{
  is_some, is_nil, ℕ, ◌+◌, not, ◌&&◌, Option, none, some, List, [], ◌∷◌, ◌++◌, String, length, ltb,
  if◌then◌else◌, string_eq, nat_eq,
}
use label_kit.Prelude.Dict.{is_in, Dict, get, or_default}
use label_kit.Regions.Data.{
  ReferenceBox, Ring, Polygon, Region, Shapely, Violation, is_closed, or_list, exactly_one,
  no_boxes, unknown_box, reused_box, parts_overlap, sources_with_box, sources_without_boxes,
  open_exterior, unknown_source, open_hole, invalid_geometry,
}

-- Step 3, over the holes and over the parts from an index on.
unfoldable pub hole_violations : ℕ → ℕ → ℕ → List Ring → List Violation
hole_violations index part hole_index [] = []
hole_violations index part hole_index (hole ∷ holes) =
    let rest = hole_violations index part (hole_index + 1) holes in
    if is_closed hole then rest else open_hole index part hole_index ∷ rest

unfoldable pub closure_violations : ℕ → ℕ → List Polygon → List Violation
closure_violations index part [] = []
closure_violations index part (p ∷ ps) =
    let rest = closure_violations index (part + 1) ps in
    (if is_closed p.exterior then [] else open_exterior index part ∷ [])
    ++ (hole_violations index part 0 p.holes ++ rest)

-- Step 6.
unfoldable pub unknown_sources : ℕ → ℕ → Dict String ReferenceBox → List String → List Violation
unknown_sources index source known [] = []
unknown_sources index source known (s ∷ ss) =
    let rest = unknown_sources index (source + 1) known ss in
    if is_some (get known s) then rest else unknown_source index source ∷ rest

unfoldable pub source_violations : ℕ → Region → Dict String ReferenceBox → List Violation
source_violations index region known =
    let sources = or_default region.source_box_ids [] in
    if is_nil sources
    then []
    else if is_some region.box_id
    then sources_with_box index ∷ []
    else if is_nil known
    then sources_without_boxes index ∷ []
    else unknown_sources index 0 known sources

-- Step 2.
unfoldable pub reference_violation :
    ℕ → String → Dict String ReferenceBox → List String → Option Violation
reference_violation index box_id known reused =
    if is_nil known
    then some (no_boxes index)
    else if not (is_some (get known box_id))
    then some (unknown_box index)
    else if is_in box_id reused
    then some (reused_box index)
    else none

module _ (shapely : Shapely) where
  -- Steps 4 and 5.
  unfoldable pub part_violations : ℕ → ℕ → List Polygon → List Violation
  part_violations index part [] = []
  part_violations index part (p ∷ ps) =
      let rest = part_violations index (part + 1) ps in
      if shapely.is_valid p
      then rest
      else invalid_geometry index part (shapely.is_valid_reason p) ∷ rest

  unfoldable pub overlap_violations : ℕ → List Polygon → List Violation
  overlap_violations index ps =
      if ltb 1 (length ps) && not (shapely.multi_is_valid ps) then parts_overlap index ∷ [] else []

  unfoldable pub validity_violations : ℕ → List Polygon → List Violation
  validity_violations index ps = or_list (part_violations index 0 ps) (overlap_violations index ps)

  -- The violations of a region, and the names reused after it.
  abbrev pub after_reference :
      Option Violation → List Violation → String → List String → List Violation × List String
  after_reference (some v) sources box_id reused = (v ∷ [], reused)
  after_reference none sources box_id reused = (sources, box_id ∷ reused)

  abbrev pub check_shape :
      ℕ
      → Region
      → Option String
      → Option (List Polygon)
      → Dict String ReferenceBox
      → List String
      → List Violation × List String
  check_shape index region none none known reused = (exactly_one index ∷ [], reused)
  check_shape index region (some b) (some ps) known reused = (exactly_one index ∷ [], reused)
  check_shape index region (some b) none known reused =
      after_reference (reference_violation index b known reused)
        (source_violations index region known) b reused
  check_shape index region none (some ps) known reused = (
    or_list (or_list (closure_violations index 0 ps) (validity_violations index ps))
        (source_violations index region known),
    reused,
  )

  unfoldable pub region_violations :
      ℕ → Region → Dict String ReferenceBox → List String → List Violation × List String
  region_violations index region known reused =
      check_shape index region region.box_id region.polygons known reused

  -- The loop of `validate_regions`.
  unfoldable pub all_violations :
      ℕ → List Region → Dict String ReferenceBox → List String → List Violation
  all_violations index [] known reused = []
  all_violations index (r ∷ rs) known reused =
      let (here, reused') = region_violations index r known reused in
      here ++ all_violations (index + 1) rs known reused'
