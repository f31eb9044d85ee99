-- ===== src/Quality/Gate.antt =====
-- quality.py, _top_ratio_selection and _apply_gate: which records of a pool are kept. Of the scores
-- only the order counts, so they are natural numbers, and of the order of the ids only the place
-- that an id has in it.
pub mod Selection
pub mod Kept
pub mod Decisions
use label_kit.Prelude.{
  ℕ, zero, suc, Bool, true, false, not, ◌&&◌, ◌||◌, Option, none, some, List, [], ◌∷◌, ◌++◌, map,
  length, ltb, leb, nat_beq, if◌then◌else◌, is_some, take, String, string_eq,
}
use label_kit.Prelude.Dict.{Dict, get, put, is_in}

pub data Status : Type 0 where
  active dropped_lowq other_status : Status

-- PipelineItem: its record's id, its status, and the aggregate score.
pub record Item : Type 0 where
  pub id : String
  pub status : Status
  pub aggregate : Option ℕ

-- QualityConfig: `quota` is math.ceil(top_ratio * n).
pub record Gate : Type 0 where
  pub top_ratio : Bool
  pub quota : ℕ → ℕ
  pub threshold : Option ℕ
  pub on_unscored_keep : Bool
  pub id_place : String → ℕ

-- quality.gate, less the settings that it repeats and the name of the pool.
pub record GateEvent : Type 0 where
  pub record_id : String
  pub aggregate : Option ℕ
  pub keep : Bool
  pub rank : Option ℕ

abbrev pub Scored : Type 0
Scored = String × ℕ

-- (-t[1], t[0])
abbrev pub ranks_before : (String → ℕ) → Scored → Scored → Bool
ranks_before place (i, a) (j, b) = ltb b a || (nat_beq a b && leb (place i) (place j))

unfoldable pub insert_ranked : (String → ℕ) → Scored → List Scored → List Scored
insert_ranked place x [] = x ∷ []
insert_ranked place x (y ∷ ys) =
    if ranks_before place x y then x ∷ y ∷ ys else y ∷ insert_ranked place x ys

-- sorted
unfoldable pub sort_ranked : (String → ℕ) → List Scored → List Scored
unfolding insert_ranked
sort_ranked place [] = []
sort_ranked place (x ∷ xs) = insert_ranked place x (sort_ranked place xs)

abbrev pub ids : List Scored → List String
ids [] = []
ids ((i, a) ∷ xs) = i ∷ ids xs

unfoldable pub ranks_from : ℕ → Dict String ℕ → List Scored → Dict String ℕ
unfolding put
ranks_from pos ranks [] = ranks
ranks_from pos ranks ((i, a) ∷ ranked) = ranks_from (suc pos) (put ranks i (suc pos)) ranked

-- _top_ratio_selection
unfoldable pub top_ratio_selection :
    (String → ℕ) → (ℕ → ℕ) → List Scored → List String × Dict String ℕ
unfolding sort_ranked ranks_from
top_ratio_selection place quota scored =
    let ranked = sort_ranked place scored in
    (ids (take (quota (length ranked)) ranked), ranks_from 0 [] ranked)

abbrev pub is_active : Status → Bool
is_active active = true
is_active dropped_lowq = false
is_active other_status = false

abbrev pub scored_of : Item → Bool → Option ℕ → List Scored
scored_of x true (some a) = (x.id, a) ∷ []
scored_of x true none = []
scored_of x false o = []

abbrev pub scored_items : List Item → List Scored
scored_items [] = []
scored_items (x ∷ items) = scored_of x (is_active x.status) x.aggregate ++ scored_items items

abbrev pub unscored_of : Item → Bool → Option ℕ → List String
unscored_of x true none = x.id ∷ []
unscored_of x true (some a) = []
unscored_of x false o = []

abbrev pub unscored_items : List Item → List String
unscored_items [] = []
unscored_items (x ∷ items) = unscored_of x (is_active x.status) x.aggregate ++ unscored_items items

abbrev pub passes : Option ℕ → ℕ → Bool
passes none a = true
passes (some threshold) a = leb threshold a

-- What the gate decides of a scored record: _gate_top_ratio, _gate_threshold, or neither.
unfoldable pub keeps_scored : Gate → List Scored → Scored → Bool
unfolding top_ratio_selection is_in
keeps_scored q scored (i, a) =
    if q.top_ratio
    then is_in i (top_ratio_selection q.id_place q.quota scored).0
    else passes q.threshold a

abbrev pub rank_of : Gate → List Scored → String → Option ℕ
unfolding top_ratio_selection get
rank_of q scored i =
    if q.top_ratio then get (top_ratio_selection q.id_place q.quota scored).1 i else none

-- gating
abbrev pub gating : Gate → Bool
gating q = q.top_ratio || is_some q.threshold

unfoldable pub scored_event : Gate → List Scored → Scored → GateEvent
unfolding keeps_scored rank_of
scored_event q scored (i, a) = record {
  record_id = i;
  aggregate = some a;
  keep = keeps_scored q scored (i, a);
  rank = rank_of q scored i;
}

abbrev pub unscored_event : Gate → String → GateEvent
unscored_event q i = record {
  record_id = i;
  aggregate = none;
  keep = q.on_unscored_keep;
  rank = none;
}

unfoldable pub gate_events : Gate → List Item → List GateEvent
unfolding scored_event
gate_events q items =
    let scored = scored_items items in
    (if gating q then map (scored_event q scored) scored else [])
    ++ (if gating q || not q.on_unscored_keep
        then map (unscored_event q) (unscored_items items)
        else [])

abbrev pub keeps : Gate → List Scored → Item → Option ℕ → Bool
unfolding keeps_scored
keeps q scored x (some a) = keeps_scored q scored (x.id, a)
keeps q scored x none = q.on_unscored_keep

abbrev pub drop_if : Bool → Item → Item
drop_if true x = x
drop_if false x = record x { status = dropped_lowq }

unfoldable pub gate_item : Gate → List Scored → Item → Item
unfolding keeps
gate_item q scored x = if is_active x.status then drop_if (keeps q scored x x.aggregate) x else x

-- _apply_gate: the items, and what is told of them.
unfoldable pub apply_gate : Gate → List Item → List Item × List GateEvent
unfolding gate_item gate_events
apply_gate q items = (map (gate_item q (scored_items items)) items, gate_events q items)
