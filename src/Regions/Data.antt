-- ===== src/Regions/Data.antt =====
-- labelkit/common/contracts/regions.py: the records of boxes and regions.
-- labelkit/operators/segment_geometry.py: what the validation reads and gives.
-- What Shapely says of a geometry is a parameter.
use label_kit.Prelude.{ℕ, Bool, ◌&&◌, Option, List, [], ◌∷◌, String, last, ◌==◌, string_eq, nat_eq}
use label_kit.Prelude.Dict.{Dict, put}

-- A pixel coordinate: int, float or a quotient of them, as an exact fraction.
pub record Ratio : Type 0 where
  pub num : ℕ
  pub den : ℕ

abbrev pub Pixel : Type 0
Pixel = Ratio × Ratio

pub record ReferenceBox : Type 0 where
  pub box_id : String
  pub left : Ratio
  pub top : Ratio
  pub right : Ratio
  pub bottom : Ratio
  pub text : String

-- A point of the grid.
pub record Point : Type 0 where
  pub x : ℕ
  pub y : ℕ

-- A ring has a point, which the schema of the model's answer asks for.
pub record Ring : Type 0 where
  pub first : Point
  pub others : List Point

pub record Polygon : Type 0 where
  pub exterior : Ring
  pub holes : List Ring

-- A region of the model's answer; `none` is null.
pub record Region : Type 0 where
  pub box_id : Option String
  pub polygons : Option (List Polygon)
  pub source_box_ids : Option (List String)

pub record RegionPolygon : Type 0 where
  pub exterior : List Pixel
  pub holes : List (List Pixel)

-- The name of a box, or r<n> by its number.
pub data RegionId : Type 0 where
  of_box : String → RegionId
  drawn_id : ℕ → RegionId

pub record CandidateRegion : Type 0 where
  pub region_id : RegionId
  pub polygons : List RegionPolygon
  pub box_id : Option String
  pub source_box_ids : List String
  pub label_anchor : Pixel

pub record RegionSet : Type 0 where
  pub width : ℕ
  pub height : ℕ
  pub boxes : List ReferenceBox
  pub regions : List CandidateRegion

-- What Shapely computes: validity of a part and its reason, validity of several parts together, and
-- a point on the surface, in grid coordinates.
pub record Shapely : Type 0 where
  pub is_valid : Polygon → Bool
  pub is_valid_reason : Polygon → String
  pub multi_is_valid : List Polygon → Bool
  pub point_on_surface : List Polygon → Pixel

-- The violations by their texts, with the indices in them; the first is that of the region.
pub data Violation : Type 0 where
  exactly_one no_boxes unknown_box reused_box parts_overlap : ℕ → Violation
  sources_with_box sources_without_boxes : ℕ → Violation
  open_exterior unknown_source : ℕ → ℕ → Violation
  open_hole : ℕ → ℕ → ℕ → Violation
  invalid_geometry : ℕ → ℕ → String → Violation

-- What the validation ends with: violations, the proof of success, or an exception.
pub data PostValidation : Type 0 where
  rejected : List Violation → PostValidation
  accepted : RegionSet → PostValidation
  raised : PostValidation

abbrev pub point_test : Point → Point → Bool
point_test p q = p.x == q.x && p.y == q.y

abbrev pub is_closed : Ring → Bool
is_closed r = point_test r.first (last r.first r.others)

-- xs or ys
abbrev pub or_list {ℓ} : {A : Type ℓ} → List A → List A → List A
or_list [] ys = ys
or_list (x ∷ xs) ys = x ∷ xs

unfoldable pub known_boxes : Dict String ReferenceBox → List ReferenceBox → Dict String ReferenceBox
known_boxes known [] = known
known_boxes known (b ∷ bs) = known_boxes (put known b.box_id b) bs
