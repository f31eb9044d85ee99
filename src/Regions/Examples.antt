-- ===== src/Regions/Examples.antt =====
-- labelkit/operators/segment_geometry.py: the theorem at concrete values.
use label_kit.Prelude.{ℕ, true, ◌&&◌, none, some, List, [], ◌∷◌}
use label_kit.Regions.Candidates.{validate_regions}
use label_kit.Regions.Data.{Ratio, ReferenceBox, Point, Polygon, Region, Shapely, known_boxes}
use label_kit.Regions.Legal.{all_legal, all_new, reused_names}
use label_kit.Regions.Accepted.{IsConclusion, validate_regions-IsConclusion}

abbrev pixels : ℕ → Ratio
pixels n = record { num = n; den = 1 }

-- All geometries are valid, and the origin is on their surface.
abbrev always_valid : Shapely
always_valid = record {
  is_valid = λ p. true;
  is_valid_reason = λ p. "Valid Geometry";
  multi_is_valid = λ ps. true;
  point_on_surface = λ ps. (pixels 0, pixels 0);
}

abbrev header : ReferenceBox
header = record {
  box_id = "header";
  left = pixels 0;
  top = pixels 0;
  right = pixels 100;
  bottom = pixels 20;
  text = "title";
}

abbrev point : ℕ → ℕ → Point
point a b = record { x = a; y = b }

abbrev triangle : Polygon
triangle = record {
  exterior = record { first = point 0 0; others = point 500 0 ∷ point 500 500 ∷ point 0 0 ∷ [] };
  holes = [];
}

-- One region reuses the box, the other is drawn with it as its source.
abbrev answer : List Region
answer =
    record { box_id = some "header"; polygons = none; source_box_ids = none }
    ∷ record {
      box_id = none;
      polygons = some (triangle ∷ []);
      source_box_ids = some ("header" ∷ []);
    }
    ∷ []

validate_regions-IsConclusion_example :
    IsConclusion answer
      (header ∷ [])
      (all_legal always_valid (known_boxes [] (header ∷ [])) answer
        && all_new [] (reused_names answer))
      (validate_regions always_valid answer (header ∷ []) 640 480)
validate_regions-IsConclusion_example =
    validate_regions-IsConclusion always_valid answer (header ∷ []) 640 480
