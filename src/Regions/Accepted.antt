-- ===== src/Regions/Accepted.antt =====
-- segment_geometry.py, validate_regions: its outcomes, and the candidates of accepted regions.
use label_kit.Prelude.{
  is_nil, ℕ, ◌+◌, ◌≡◌, refl, sym, ap, ◌∙◌, inl, inr, Bool, true, false, ◌&&◌, Option, none, some,
  List, [], ◌∷◌, String, last, ◌==◌, string_eq, nat_eq, arith, Bool-cases, Option-cases, All,
}
use label_kit.Prelude.Dict.{Dict, get, get-put, put}
use label_kit.Regions.Data.{
  ReferenceBox, Point, Pixel, Ring, Polygon, Region, RegionId, of_box, drawn_id, RegionPolygon,
  CandidateRegion, RegionSet, Shapely, Violation, PostValidation, rejected, accepted, is_closed,
  point_test, known_boxes,
}
use label_kit.Regions.Candidates.{
  validate_regions, box_candidate, project_point, project_points, project_ring, project_polygons,
  drawn_candidate, candidate_of, next_drawn, candidates, proved, concluded,
}
use label_kit.Regions.Violations.{all_violations}
use label_kit.Regions.Legal.{
  parts_closed, polygons_legal, shape_legal, region_legal, all_legal, all_new, reused_names,
}
use label_kit.Regions.Checks.{nil-all_violations}

-- The ring ends where it begins.
abbrev pub IsClosedRing : List Pixel → Type 0
IsClosedRing [] = ⊥
IsClosedRing (p ∷ ps) = last p ps ≡ p

abbrev pub id_of : ℕ → Option String → RegionId
id_of drawn none = drawn_id (drawn + 1)
id_of drawn (some b) = of_box b

-- The candidate has the box of the region, or the next number, and closed outer rings.
pub record IsCandidate (drawn : ℕ) (r : Region) (c : CandidateRegion) : Type 0 where
  pub same_box : c.box_id ≡ r.box_id
  pub identity : c.region_id ≡ id_of drawn r.box_id
  pub closed : All (λ (p : RegionPolygon). IsClosedRing p.exterior) c.polygons

-- The candidates are those of the regions, in order.
abbrev pub AreCandidates : ℕ → List Region → List CandidateRegion → Type 0
AreCandidates drawn [] [] = Unit
AreCandidates drawn [] (c ∷ cs) = ⊥
AreCandidates drawn (r ∷ rs) [] = ⊥
AreCandidates drawn (r ∷ rs) (c ∷ cs) =
    IsCandidate drawn r c × AreCandidates (next_drawn r.box_id drawn) rs cs

-- Each box stands under its name.
abbrev IsNamed : Dict String ReferenceBox → Type 0
IsNamed known = (b : String) (box : ReferenceBox) → get known b ≡ some box → box.box_id ≡ b

nothing-IsNamed : IsNamed []
unfolding get
nothing-IsNamed b box e = absurd (cc e)

put-IsNamed :
    (known : Dict String ReferenceBox) (box : ReferenceBox)
    → IsNamed known
    → IsNamed (put known box.box_id box)
put-IsNamed known box h b other e = elim (Bool-cases (box.box_id == b)) [
  | inl same ↦
      let p : box.box_id ≡ b = (string_eq.test_iff box.box_id b).0 same in
      let q : some box ≡ some other = rw (get-put known box.box_id b box, same) at e in cc (p, q)
  | inr apart ↦ h b other (rw (get-put known box.box_id b box, apart) at e)
]

known_boxes-IsNamed :
    (known : Dict String ReferenceBox) (boxes : List ReferenceBox)
    → IsNamed known
    → IsNamed (known_boxes known boxes)
unfolding known_boxes
known_boxes-IsNamed known [] h = h
known_boxes-IsNamed known (b ∷ bs) h =
    known_boxes-IsNamed (put known b.box_id b) bs (put-IsNamed known b h)

last-project_points :
    (width height : ℕ) (p : Point) (ps : List Point)
    → last (project_point width height p) (project_points width height ps)
      ≡ project_point width height (last p ps)
unfolding project_points
last-project_points width height p [] = refl
last-project_points width height p (q ∷ qs) = last-project_points width height q qs

point_test-same : (p q : Point) → point_test p q ≡ true → p ≡ q
point_test-same p q h = ground (arith, h)

project_ring-IsClosedRing :
    (width height : ℕ) (r : Ring) → is_closed r ≡ true → IsClosedRing (project_ring width height r)
unfolding project_ring project_points
project_ring-IsClosedRing width height r h =
    last-project_points width height r.first r.others
    ∙ ap (project_point width height) (sym (point_test-same r.first (last r.first r.others) h))

project_polygons-closed :
    (width height : ℕ) (ps : List Polygon)
    → parts_closed ps ≡ true
    → All (λ (p : RegionPolygon). IsClosedRing p.exterior) (project_polygons width height ps)
unfolding project_polygons parts_closed
project_polygons-closed width height [] h = tt
project_polygons-closed width height (p ∷ ps) h = (
  project_ring-IsClosedRing width height p.exterior (ground (arith, h)),
  project_polygons-closed width height ps (ground (arith, h)),
)

module _ (shapely : Shapely) (known : Dict String ReferenceBox) (width height : ℕ) where
  -- A legal region has a candidate.
  record Made (drawn : ℕ) (r : Region) (o : Option CandidateRegion) : Type 0 where
    candidate : CandidateRegion
    made : o ≡ some candidate
    box : candidate.box_id ≡ r.box_id
    identity : candidate.region_id ≡ id_of drawn r.box_id
    closed : All (λ (p : RegionPolygon). IsClosedRing p.exterior) candidate.polygons

  candidate_of-Made :
      (drawn : ℕ) (r : Region) (b : Option String) (ps : Option (List Polygon))
      → IsNamed known
      → r.box_id ≡ b
      → shape_legal shapely known b ps ≡ true
      → Made drawn r (candidate_of shapely drawn r b ps known width height)
  candidate_of-Made drawn r none none named e h = absurd (cc h)
  candidate_of-Made drawn r (some b) (some ps) named e h = absurd (cc h)
  candidate_of-Made drawn r none (some ps) named e h = record {
    candidate = drawn_candidate shapely (drawn + 1) r ps width height;
    made = refl;
    box = unfold drawn_candidate in sym e;
    identity = unfold drawn_candidate in rw e refl;
    closed =
        unfold drawn_candidate polygons_legal in
        project_polygons-closed width height ps (legal_closed (unfold polygons_legal in h));
  }
    where
      legal_closed : polygons_legal shapely ps ≡ true → parts_closed ps ≡ true
      legal_closed g = unfold polygons_legal in ground (arith, g)
  candidate_of-Made drawn r (some b) none named e h = elim (Option-cases (get known b)) [
    | inl missing ↦ absurd (cc (rw missing at h))
    | inr (box, there) ↦
        let p = named b box there in
        rw there (record {
          candidate = box_candidate box;
          made = refl;
          box = unfold box_candidate in cc (p, e);
          identity = unfold box_candidate in rw e (ap of_box p);
          closed = unfold box_candidate in (refl, tt);
        })
  ]

  candidates-AreCandidates :
      (drawn : ℕ) (rs : List Region)
      → IsNamed known
      → all_legal shapely known rs ≡ true
      → (cs : List CandidateRegion) × (candidates shapely drawn rs known width height ≡ some cs)
        × AreCandidates drawn rs cs
  unfolding candidates all_legal region_legal
  candidates-AreCandidates drawn [] named h = ([], refl, tt)
  candidates-AreCandidates drawn (r ∷ rs) named h =
      let c = candidate_of-Made drawn r r.box_id r.polygons named refl (ground (arith, h)) in
      let (cs, e, good) =
        candidates-AreCandidates (next_drawn r.box_id drawn) rs named (ground (arith, h)) in
      (
        c.candidate ∷ cs,
        rw (c.made, e) refl,
        (record { same_box = c.box; identity = c.identity; closed = c.closed }, good),
      )

-- What the validation may end with, where `good` tells whether the regions are legal: they are
-- accepted with their candidates, or rejected for a violation; it does not raise.
pub data IsConclusion (regions : List Region) (boxes : List ReferenceBox) (good : Bool)
    : PostValidation → Type 0 where
  accepts :
      {rs : RegionSet}
      → good ≡ true
      → rs.boxes ≡ boxes
      → AreCandidates 0 regions rs.regions
      → IsConclusion regions boxes good (accepted rs)
  rejects :
      {v : Violation} {vs : List Violation}
      → good ≡ false
      → IsConclusion regions boxes good (rejected (v ∷ vs))

concluded-IsConclusion :
    (shapely : Shapely) (regions : List Region) (boxes : List ReferenceBox) (width height : ℕ)
    (vs : List Violation) (good : Bool)
    → is_nil vs ≡ good
    → (good ≡ true
        → (cs : List CandidateRegion) × (candidates shapely 0 regions
              (known_boxes [] boxes)
              width
              height
            ≡ some cs)
          × AreCandidates 0 regions cs)
    → IsConclusion regions boxes good (
        concluded shapely vs (
          proved shapely boxes width height
            (candidates shapely 0 regions (known_boxes [] boxes) width height)))
concluded-IsConclusion shapely regions boxes width height [] good h make =
    let (cs, e, fine) = make (sym h) in rw e (IsConclusion.accepts (sym h) refl fine)
concluded-IsConclusion shapely regions boxes width height (v ∷ vs) good h make =
    IsConclusion.rejects (sym h)

-- For each answer of a model and any boxes, whatever Shapely says: the regions are accepted exactly if
-- each is legal and no box is reused twice, and else rejected for at least one violation. The
-- candidates of accepted regions are those of the regions in order, with the names of their boxes or
-- the numbers 1, 2, ... as they are drawn, and with closed outer rings.
pub validate_regions-IsConclusion :
    (shapely : Shapely) (regions : List Region) (boxes : List ReferenceBox) (width height : ℕ)
    → IsConclusion regions boxes
        (all_legal shapely (known_boxes [] boxes) regions && all_new [] (reused_names regions))
        (validate_regions shapely regions boxes width height)
unfolding validate_regions
validate_regions-IsConclusion shapely regions boxes width height =
    let known = known_boxes [] boxes in
    let named : IsNamed known = known_boxes-IsNamed [] boxes nothing-IsNamed in
    concluded-IsConclusion shapely regions boxes width height
      (all_violations shapely 0 regions known [])
      (all_legal shapely known regions && all_new [] (reused_names regions))
      (nil-all_violations shapely 0 regions known [])
      (λ good.
        candidates-AreCandidates shapely known width height 0 regions named (ground (arith, good)))
