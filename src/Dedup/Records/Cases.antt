-- ===== src/Dedup/Records/Cases.antt =====
-- dedup.py, _compose and _semantic_verdict_kind: what they decide, case by case.
use label_kit.Prelude.{
  ◌≡◌, refl, ◌⊎◌, inl, inr, Bool, true, false, not, ◌&&◌, ◌||◌, Option, none, some, if◌then◌else◌,
  string_eq,
}
use label_kit.Dedup.Records.{
  Modality, text, ui, Requires, both, tree, image, DedupInfo, Detail, Hit, unique_info, text_info,
  ui_info, is_dup,
}
use label_kit.Dedup.Records.Stage.{
  Embedding, vector, provider_failed, other_failed, semantic_kind_of, is_unique, metric_for,
}
use label_kit.Dedup.Records.Right.{
  IsNear, near_info, near_metric, IsVectorNear, vector_kind, alone, vector_of,
}

-- `_compose`, by the settings and by what the record lacks.
abbrev pub decided :
    {Sig : Type 0}
    → Modality
    → Requires
    → (no_image no_text : Bool) → Detail Sig
    → Option Hit
    → Option Hit
    → DedupInfo
decided m r no_image no_text d t i = elim m [
  | text ↦ text_info d t
  | ui ↦
      let asked =
        if no_image
        then tree
        else elim r [ both ↦ if no_text then image else both | tree ↦ tree | image ↦ image ] in
      if is_dup asked t i then ui_info d t i else unique_info d
]

-- It is a near duplicate of the hits, or it is alone.
pub decided-cases :
    {Sig : Type 0} (m : Modality) (r : Requires) (no_image no_text : Bool) (d : Detail Sig)
    (t i : Option Hit)
    → (IsNear m r no_image no_text t i
        × (decided m r no_image no_text d t i ≡ near_info m t i (alone d)))
      ⊎ ((¬ IsNear m r no_image no_text t i) × (decided m r no_image no_text d t i ≡ alone d))
decided-cases text r a b d (some t) i = inl (tt, refl)
decided-cases text r a b d none i = inr ((λ n. n), refl)
decided-cases ui r true b d (some t) none = inl (tt, refl)
decided-cases ui r true b d (some t) (some i) = inl (tt, refl)
decided-cases ui r true b d none i = inr ((λ n. n), refl)
decided-cases ui both false true d none (some i) = inl (tt, refl)
decided-cases ui both false true d (some t) (some i) = inl (tt, refl)
decided-cases ui both false true d t none = inr ((λ n. n), refl)
decided-cases ui both false false d (some t) (some i) = inl ((tt, tt), refl)
decided-cases ui both false false d (some t) none = inr ((λ n. n.1), refl)
decided-cases ui both false false d none i = inr ((λ n. n.0), refl)
decided-cases ui tree false b d (some t) none = inl (tt, refl)
decided-cases ui tree false b d (some t) (some i) = inl (tt, refl)
decided-cases ui tree false b d none i = inr ((λ n. n), refl)
decided-cases ui image false b d none (some i) = inl (tt, refl)
decided-cases ui image false b d (some t) (some i) = inl (tt, refl)
decided-cases ui image false b d t none = inr ((λ n. n), refl)

pub vectorless : {Vec : Type 0} (e : Option (Embedding Vec)) → vector_of false e ≡ none
vectorless none = refl
vectorless (some (vector v)) = refl
vectorless (some provider_failed) = refl
vectorless (some other_failed) = refl

pub full_image : (a b : Bool) → (not a && not b) ≡ not (a || b)
full_image true b = refl
full_image false b = refl

-- A vector hit makes a duplicate, of a kind, or it does not.
pub vector_kind-cases :
    (m : Modality) (r : Requires) (no_image : Bool) (i : Option Hit)
    → (IsVectorNear m r no_image i
        × (semantic_kind_of m r (not no_image) i ≡ some (vector_kind m i)))
      ⊎ ((¬ IsVectorNear m r no_image i) × (semantic_kind_of m r (not no_image) i ≡ none))
vector_kind-cases text r a i = inl (tt, refl)
vector_kind-cases ui both false (some h) = inl (tt, refl)
vector_kind-cases ui both false none = inr ((λ n. n), refl)
vector_kind-cases ui both true (some h) = inl (tt, refl)
vector_kind-cases ui both true none = inl (tt, refl)
vector_kind-cases ui tree a (some h) = inl (tt, refl)
vector_kind-cases ui tree a none = inl (tt, refl)
vector_kind-cases ui image a (some h) = inl (tt, refl)
vector_kind-cases ui image a none = inl (tt, refl)

pub vector_kind-unlike : (m : Modality) (i : Option Hit) → is_unique (vector_kind m i) ≡ false
vector_kind-unlike text i = refl
vector_kind-unlike ui none = refl
vector_kind-unlike ui (some h) = refl

pub near_info-kind :
    {Sig : Type 0} (m : Modality) (r : Requires) (no_image no_text : Bool) (d : Detail Sig)
    (t i : Option Hit)
    → IsNear m r no_image no_text t i
    → let info = near_info m t i (alone d) in
      (is_unique info.kind ≡ false) × (metric_for info.kind t i ≡ near_metric t i)
near_info-kind text r a b d (some t) i n = (refl, refl)
near_info-kind text r a b d none i n = absurd n
near_info-kind ui r a b d (some t) none n = (refl, refl)
near_info-kind ui r a b d (some t) (some i) n = (refl, refl)
near_info-kind ui r a b d none (some i) n = (refl, refl)
near_info-kind ui r true b d none none n = absurd n
near_info-kind ui both false true d none none n = absurd n
near_info-kind ui both false false d none none n = absurd n.0
near_info-kind ui tree false b d none none n = absurd n
near_info-kind ui image false b d none none n = absurd n
