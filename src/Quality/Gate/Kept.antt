-- ===== src/Quality/Gate/Kept.antt =====
-- quality.py, _apply_gate: the scored records that a decision keeps.
use label_kit.Prelude.{
  ◌≡◌, inl, inr, refl, sym, ◌∙◌, ap, subst, Bool, true, false, List, [], ◌∷◌, ◌++◌, length,
  if◌then◌else◌, Bool-cases, arith, String, string_eq,
}
use label_kit.Prelude.Dict.{is_in}
use label_kit.Quality.Gate.{Scored}
use label_kit.Quality.Gate.Selection.{IsOneOf}
use label_kit.Quality.Gate.Selection.Count.{kept_count}

-- The entries that a test keeps.
unfoldable pub kept_scored : (Scored → Bool) → List Scored → List Scored
kept_scored p [] = []
kept_scored p (x ∷ xs) = let rest = kept_scored p xs in if p x then x ∷ rest else rest

pub kept_nil : (p : Scored → Bool) → [] ≡ kept_scored p []
unfolding kept_scored
kept_nil p = refl

pub kept_scored-append :
    (p : Scored → Bool) (xs ys : List Scored)
    → kept_scored p (xs ++ ys) ≡ kept_scored p xs ++ kept_scored p ys
unfolding kept_scored
kept_scored-append p [] ys = refl
kept_scored-append p (x ∷ xs) ys = ground (arith, kept_scored-append p xs ys)

first_or_later :
    (p : Scored → Bool) (x y : Scored) (ys zs : List Scored)
    → (IsOneOf x zs → IsOneOf x ys × (p x ≡ true))
    → (b : Bool) → p y ≡ b
    → IsOneOf x (if b then y ∷ zs else zs)
    → IsOneOf x (y ∷ ys) × (p x ≡ true)
first_or_later p x y ys zs f true e (inl g) = (inl g, ap p g ∙ e)
first_or_later p x y ys zs f true e (inr m) = let (l, k) = f m in (inr l, k)
first_or_later p x y ys zs f false e m = let (l, k) = f m in (inr l, k)

pub IsOneOf-kept_scored :
    (p : Scored → Bool) (x : Scored) (xs : List Scored)
    → IsOneOf x (kept_scored p xs)
    → IsOneOf x xs × (p x ≡ true)
unfolding kept_scored
IsOneOf-kept_scored p x [] m = absurd m
IsOneOf-kept_scored p x (y ∷ ys) m =
    first_or_later p x y ys (kept_scored p ys) (IsOneOf-kept_scored p x ys) (p y) refl m

pub kept_scored-IsOneOf :
    (p : Scored → Bool) (x : Scored) (xs : List Scored)
    → IsOneOf x xs
    → p x ≡ true
    → IsOneOf x (kept_scored p xs)
unfolding kept_scored
kept_scored-IsOneOf p x [] m k = absurd m
kept_scored-IsOneOf p x (y ∷ ys) (inl e) k =
    subst (λ b. IsOneOf x (if b then y ∷ kept_scored p ys else kept_scored p ys))
      (sym (sym (ap p e) ∙ k)) (inl e)
kept_scored-IsOneOf p x (y ∷ ys) (inr m) k = elim (Bool-cases (p y)) [
  | inl t ↦ rw t (inr (kept_scored-IsOneOf p x ys m k))
  | inr f ↦ rw f (kept_scored-IsOneOf p x ys m k)
]

pub kept_scored-length :
    (p : Scored → Bool) (kept : List String) (xs : List Scored)
    → ((x : Scored) → p x ≡ is_in x.0 kept)
    → length (kept_scored p xs) ≡ kept_count kept xs
unfolding kept_scored kept_count
kept_scored-length p kept [] h = refl
kept_scored-length p kept (x ∷ xs) h = ground (arith, h x, kept_scored-length p kept xs h)

-- An entry that is not kept fails the test.
pub fails_test :
    (p : Scored → Bool) (y : Scored) (xs : List Scored)
    → IsOneOf y xs
    → ¬ IsOneOf y (kept_scored p xs)
    → p y ≡ false
fails_test p y xs m n = elim (Bool-cases (p y)) [
  | inl t ↦ absurd (n (kept_scored-IsOneOf p y xs m t))
  | inr f ↦ f
]
