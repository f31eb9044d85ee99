-- ===== src/Regions/Candidates.antt =====
-- labelkit/operators/segment_geometry.py: step 7, the candidates, and the validation as a whole.
use label_kit.Prelude.{
  ℕ, ◌+◌, ◌*◌, Option, none, some, List, [], ◌∷◌, String, if◌then◌else◌, string_eq, nat_eq,
}
use mathlib.Core.Option
use label_kit.Prelude.Dict.{is_in, Dict, get, or_default}
use label_kit.Regions.Data.{
  Ratio, Pixel, ReferenceBox, Point, Ring, Polygon, Region, RegionPolygon, CandidateRegion,
  RegionSet, Shapely, Violation, PostValidation, known_boxes, of_box, drawn_id, rejected, accepted,
  raised,
}
use label_kit.Regions.Violations.{all_violations}

-- `int | float` halves and sums.
unfoldable pub midpoint : Ratio → Ratio → Ratio
midpoint a b = record { num = a.num * b.den + b.num * a.den; den = 2 * (a.den * b.den) }

unfoldable pub box_candidate : ReferenceBox → CandidateRegion
box_candidate b = record {
  region_id = of_box b.box_id;
  polygons =
      record {
        exterior =
            (b.left, b.top)
            ∷ (b.right, b.top)
            ∷ (b.right, b.bottom)
            ∷ (b.left, b.bottom)
            ∷ (b.left, b.top)
            ∷ [];
        holes = [];
      }
      ∷ [];
  box_id = some b.box_id;
  source_box_ids = b.box_id ∷ [];
  label_anchor = (midpoint b.left b.right, midpoint b.top b.bottom);
}

unfoldable pub project_point : ℕ → ℕ → Point → Pixel
project_point width height p =
    (record { num = p.x * width; den = 1000 }, record { num = p.y * height; den = 1000 })

unfoldable pub project_points : ℕ → ℕ → List Point → List Pixel
project_points width height [] = []
project_points width height (p ∷ ps) = project_point width height p ∷ project_points width height ps

unfoldable pub project_ring : ℕ → ℕ → Ring → List Pixel
project_ring width height r = project_points width height (r.first ∷ r.others)

unfoldable pub project_rings : ℕ → ℕ → List Ring → List (List Pixel)
project_rings width height [] = []
project_rings width height (r ∷ rs) = project_ring width height r ∷ project_rings width height rs

unfoldable pub project_polygons : ℕ → ℕ → List Polygon → List RegionPolygon
project_polygons width height [] = []
project_polygons width height (p ∷ ps) =
    record {
      exterior = project_ring width height p.exterior;
      holes = project_rings width height p.holes;
    }
    ∷ project_polygons width height ps

-- tuple(dict.fromkeys(...)), after the names in `seen`.
unfoldable pub unique_from : List String → List String → List String
unique_from seen [] = []
unique_from seen (s ∷ ss) =
    let skipped = unique_from seen ss in
    let taken = unique_from (s ∷ seen) ss in if is_in s seen then skipped else s ∷ taken

abbrev pub next_drawn : Option String → ℕ → ℕ
next_drawn none drawn = drawn + 1
next_drawn (some b) drawn = drawn

abbrev pub cons_candidate :
    Option CandidateRegion → Option (List CandidateRegion) → Option (List CandidateRegion)
cons_candidate (some c) (some cs) = some (c ∷ cs)
cons_candidate _ _ = none

module _ (shapely : Shapely) where
  unfoldable pub drawn_candidate : ℕ → Region → List Polygon → ℕ → ℕ → CandidateRegion
  drawn_candidate n region ps width height =
      let point = shapely.point_on_surface ps in
      record {
        region_id = drawn_id n;
        polygons = project_polygons width height ps;
        box_id = none;
        source_box_ids = unique_from [] (or_default region.source_box_ids []);
        label_anchor = (
          record { num = (point.0).num * width; den = (point.0).den * 1000 },
          record { num = (point.1).num * height; den = (point.1).den * 1000 },
        );
      }

  -- The candidate of a region, with the number of drawn regions before it. A name that is no box
  -- would be a KeyError, and a region without polygons a TypeError; the checks come first.
  abbrev pub candidate_of :
      ℕ
      → Region
      → Option String
      → Option (List Polygon)
      → Dict String ReferenceBox
      → ℕ
      → ℕ
      → Option CandidateRegion
  candidate_of drawn r (some b) ps known width height = Option.map box_candidate (get known b)
  candidate_of drawn r none none known width height = none
  candidate_of drawn r none (some ps) known width height =
      some (drawn_candidate (drawn + 1) r ps width height)

  -- Step 7.
  unfoldable pub candidates :
      ℕ → List Region → Dict String ReferenceBox → ℕ → ℕ → Option (List CandidateRegion)
  candidates drawn [] known width height = some []
  candidates drawn (r ∷ rs) known width height =
      cons_candidate (candidate_of drawn r r.box_id r.polygons known width height)
        (candidates (next_drawn r.box_id drawn) rs known width height)

  abbrev pub proved : List ReferenceBox → ℕ → ℕ → Option (List CandidateRegion) → PostValidation
  proved boxes width height none = raised
  proved boxes width height (some cs) =
      accepted (record { width = width; height = height; boxes = boxes; regions = cs })

  abbrev pub concluded : List Violation → PostValidation → PostValidation
  concluded [] success = success
  concluded (v ∷ vs) success = rejected (v ∷ vs)

  unfoldable pub validate_regions : List Region → List ReferenceBox → ℕ → ℕ → PostValidation
  validate_regions regions boxes width height =
      let known = known_boxes [] boxes in
      concluded (all_violations shapely 0 regions known [])
        (proved boxes width height (candidates 0 regions known width height))

unfoldable pub box_candidates : List ReferenceBox → List CandidateRegion
box_candidates [] = []
box_candidates (b ∷ bs) = box_candidate b ∷ box_candidates bs

unfoldable pub boxes_as_regions : List ReferenceBox → ℕ → ℕ → RegionSet
boxes_as_regions boxes width height = record {
  width = width;
  height = height;
  boxes = boxes;
  regions = box_candidates boxes;
}
