-- ===== src/Quality/Majority.antt =====
-- quality.py, _majority: the outcome over several judges.
use label_kit.Prelude.{
  ℕ, ◌+◌, ◌≤◌, ◌≡◌, ◌≢◌, ◌↔◌, ◌⊎◌, inl, inr, refl, Bool, true, false, none, some, List, [], ◌∷◌,
  length, nat_beq_iff, if◌then◌else◌, arith, Bool-cases, subst, ◌∙◌, sym, ap,
}
use label_kit.Quality.{
  Verdict, wins, tie, Outcome, as_tie, same, all_failed, count, has_majority, first_class, majority,
}

pub same_iff : (v w : Verdict) → (same v w ≡ true) ↔ (v ≡ w)
same_iff (wins i) (wins j) = ground (arith, nat_beq_iff i j)
same_iff (wins i) tie = ground arith
same_iff tie (wins j) = ground arith
same_iff tie tie = ground arith

-- Two classes have no more votes than there are.
count-disjoint :
    (v w : Verdict) (votes : List Outcome) → v ≢ w → count v votes + count w votes ≤ length votes
unfolding count
count-disjoint v w [] h = omega arith
count-disjoint v w (o ∷ votes) h =
    ground (arith, same_iff (as_tie o) v, same_iff (as_tie o) w, count-disjoint v w votes h)

absurd_of : {b : Bool} → b ≡ false → b ≡ true → ⊥
absurd_of e t = cc

pub majority_unique :
    (v w : Verdict) (votes : List Outcome)
    → has_majority v votes ≡ true
    → has_majority w votes ≡ true
    → v ≡ w
unfolding has_majority
majority_unique v w votes hv hw = elim (Bool-cases (same v w)) [
  | inl e ↦ (same_iff v w).0 e
  | inr e ↦
      absurd (ground (arith, count-disjoint v w votes (λ q. absurd_of e ((same_iff v w).1 q))))
]

-- What the votes of several judges on a comparison of `i` and `j` come to.
pub record IsMajority (votes : List Outcome) (i j : ℕ) (o : Outcome) : Type 0 where
  -- No outcome only if every judge failed.
  pub failed : (o ≡ none) ↔ (all_failed votes ≡ true)
  -- A class with more than half of the votes is the outcome.
  pub chosen :
      (v : Verdict)
      → (v ≡ wins i) ⊎ ((v ≡ wins j) ⊎ (v ≡ tie))
      → all_failed votes ≡ false
      → has_majority v votes ≡ true
      → o ≡ some v
  -- An item wins only with more than half of the votes.
  pub earned : (k : ℕ) → o ≡ some (wins k) → has_majority (wins k) votes ≡ true
  pub one_of : (k : ℕ) → o ≡ some (wins k) → (k ≡ i) ⊎ (k ≡ j)

-- The class that is taken has a majority, or neither item has one.
first_class-cases :
    (votes : List Outcome) (i j : ℕ)
    → ((has_majority (first_class votes i j) votes ≡ true)
        × ((first_class votes i j ≡ wins i) ⊎ (first_class votes i j ≡ wins j)))
      ⊎ ((first_class votes i j ≡ tie)
          × (has_majority (wins i) votes ≡ false)
          × (has_majority (wins j) votes ≡ false))
unfolding first_class
first_class-cases votes i j = class_cases _ _ refl refl
  where
    class_cases :
        (a b : Bool)
        → has_majority (wins i) votes ≡ a
        → has_majority (wins j) votes ≡ b
        → let x = if a then wins i else if b then wins j else tie in
          ((has_majority x votes ≡ true) × ((x ≡ wins i) ⊎ (x ≡ wins j)))
          ⊎ ((x ≡ tie)
              × (has_majority (wins i) votes ≡ false)
              × (has_majority (wins j) votes ≡ false))
    class_cases true b hi hj = inl (hi, inl refl)
    class_cases false true hi hj = inl (hj, inr refl)
    class_cases false false hi hj = inr (refl, hi, hj)

first_class-chosen :
    (votes : List Outcome) (i j : ℕ) (v : Verdict)
    → (v ≡ wins i) ⊎ ((v ≡ wins j) ⊎ (v ≡ tie))
    → has_majority v votes ≡ true
    → first_class votes i j ≡ v
first_class-chosen votes i j v c h = elim (first_class-cases votes i j) [
  | inl (m, _) ↦ majority_unique _ v votes m h
  | inr (t, hi, hj) ↦ elim c [
    | inl e ↦ absurd (absurd_of hi (subst (λ x. has_majority x votes ≡ true) e h))
    | inr (inl e) ↦ absurd (absurd_of hj (subst (λ x. has_majority x votes ≡ true) e h))
    | inr (inr e) ↦ t ∙ sym e
  ]
]

IsMajority-by :
    (votes : List Outcome) (i j : ℕ) (b : Bool)
    → all_failed votes ≡ b
    → IsMajority votes i j (if b then none else some (first_class votes i j))
IsMajority-by votes i j true f = record {
  failed = (λ _. f, λ _. refl);
  chosen = λ v c g m. absurd (absurd_of g f);
  earned = λ k e. absurd cc;
  one_of = λ k e. absurd cc;
}
IsMajority-by votes i j false g = record {
  failed = (λ e. absurd cc, λ f. absurd (absurd_of g f));
  chosen = λ v c _ m. ap some (first_class-chosen votes i j v c m);
  earned = λ k e. elim (first_class-cases votes i j) [
    | inl (m, _) ↦ subst (λ x. has_majority x votes ≡ true) (cc) m
    | inr (t, _, _) ↦ absurd cc
  ];
  one_of = λ k e. elim (first_class-cases votes i j) [
    | inl (m, inl w) ↦ inl cc
    | inl (m, inr w) ↦ inr cc
    | inr (t, _, _) ↦ absurd cc
  ];
}

-- The outcome is that of the majority: it is missing only if every judge failed, a class with more
-- than half of the votes is it, and an item that wins has more than half of them and was compared.
pub majority-IsMajority :
    (votes : List Outcome) (i j : ℕ) → IsMajority votes i j (majority votes i j)
unfolding majority
majority-IsMajority votes i j = IsMajority-by votes i j (all_failed votes) refl
