-- ===== src/Regions/Legal.antt =====
-- segment_geometry.py, validate_regions: a specification of legal regions by Boolean tests.
use label_kit.Prelude.{
  is_some, is_nil, Bool, true, false, not, ◌&&◌, ◌||◌, Option, none, some, List, [], ◌∷◌, ◌++◌,
  String, length, ltb, string_eq,
}
use label_kit.Prelude.Dict.{is_in, Dict, get, or_default}
use label_kit.Regions.Data.{ReferenceBox, Ring, Polygon, Region, Shapely, is_closed}

unfoldable pub rings_closed : List Ring → Bool
rings_closed [] = true
rings_closed (r ∷ rs) = is_closed r && rings_closed rs

unfoldable pub parts_closed : List Polygon → Bool
parts_closed [] = true
parts_closed (p ∷ ps) = is_closed p.exterior && (rings_closed p.holes && parts_closed ps)

unfoldable pub all_known : Dict String ReferenceBox → List String → Bool
all_known known [] = true
all_known known (s ∷ ss) = is_some (get known s) && all_known known ss

-- Each name is new: it is not in `seen` and stands once in the list.
unfoldable pub all_new : List String → List String → Bool
all_new seen [] = true
all_new seen (b ∷ bs) = not (is_in b seen) && all_new (b ∷ seen) bs

abbrev pub name_of : Option String → List String
name_of none = []
name_of (some b) = b ∷ []

-- The names of the boxes that the regions reuse.
unfoldable pub reused_names : List Region → List String
reused_names [] = []
reused_names (r ∷ rs) = name_of r.box_id ++ reused_names rs

-- A region that reuses a box names no sources; one that is drawn names known boxes only.
unfoldable pub sources_legal : Dict String ReferenceBox → Option String → List String → Bool
sources_legal known box_id sources =
    is_nil sources || (not (is_some box_id) && all_known known sources)

module _ (shapely : Shapely) where
  unfoldable pub parts_valid : List Polygon → Bool
  parts_valid [] = true
  parts_valid (p ∷ ps) = shapely.is_valid p && parts_valid ps

  -- All rings are closed, the parts are valid, and several parts are valid together.
  unfoldable pub polygons_legal : List Polygon → Bool
  polygons_legal ps =
      parts_closed ps && (parts_valid ps && (not (ltb 1 (length ps)) || shapely.multi_is_valid ps))

  -- Exactly one of the box and the polygons is there: a known box, or legal polygons; and the sources
  -- are legal.
  abbrev pub shape_legal : Dict String ReferenceBox → Option String → Option (List Polygon) → Bool
  shape_legal known none none = false
  shape_legal known (some b) (some ps) = false
  shape_legal known (some b) none = is_some (get known b)
  shape_legal known none (some ps) = polygons_legal ps

  unfoldable pub region_legal : Dict String ReferenceBox → Region → Bool
  region_legal known r =
      shape_legal known r.box_id r.polygons
      && sources_legal known r.box_id (or_default r.source_box_ids [])

  unfoldable pub all_legal : Dict String ReferenceBox → List Region → Bool
  all_legal known [] = true
  all_legal known (r ∷ rs) = region_legal known r && all_legal known rs
