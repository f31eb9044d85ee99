-- ===== src/Quality/Balance.antt =====
-- quality.py, _tally_criterion: what the counts and the weights of a tally have to do with each other.
pub mod Steps
pub mod Run
use label_kit.Prelude.{
  ℕ, zero, suc, ◌+◌, ◌*◌, ◌≤◌, ◌<◌, ◌≡◌, ◌≢◌, ◌⊎◌, inl, inr, refl, sym, ◌∙◌, ap, Option, none, some,
  List, [], ◌∷◌, ◌++◌, length, nat_beq, if◌then◌else◌, All, arith, String,
}
use label_kit.Quality.{Verdict, wins, tie, Outcome, Pairing, majority}
use label_kit.Quality.Majority.{majority-IsMajority, IsMajority}
use label_kit.Quality.Tally.{
  Results, Judges, Tally, zeros, new_tally, ◌>>=◌, bump, bump_both, note_judged, note_verdict,
  tally_comparison, outcome_of, votes_of, tally_from, tally_criterion, tie_bit, other,
}

-- xs[k]
abbrev pub at : List ℕ → ℕ → ℕ
at [] k = 0
at (x ∷ xs) zero = x
at (x ∷ xs) (suc k) = at xs k

abbrev pub bit : ℕ → ℕ → ℕ
bit i k = if nat_beq i k then 1 else 0

-- The doubled weight of the entries that an item wins, and that it loses.
unfoldable pub won : ℕ → List (ℕ × ℕ × ℕ) → ℕ
won k [] = 0
won k ((winner, loser, weight) ∷ es) = bit winner k * weight + won k es

unfoldable pub lost : ℕ → List (ℕ × ℕ × ℕ) → ℕ
lost k [] = 0
lost k ((winner, loser, weight) ∷ es) = bit loser k * weight + lost k es

-- The comparisons of an item.
unfoldable pub meetings : ℕ → List Pairing → ℕ
meetings k [] = 0
meetings k (p ∷ plan) = bit p.first k + bit p.second k + meetings k plan

pub won-append : (k : ℕ) (es fs : List (ℕ × ℕ × ℕ)) → won k (es ++ fs) ≡ won k es + won k fs
unfolding won
won-append k [] fs = omega arith
won-append k (e ∷ es) fs = omega (arith, won-append k es fs)

pub lost-append : (k : ℕ) (es fs : List (ℕ × ℕ × ℕ)) → lost k (es ++ fs) ≡ lost k es + lost k fs
unfolding lost
lost-append k [] fs = omega arith
lost-append k (e ∷ es) fs = omega (arith, lost-append k es fs)

pub bind {ℓ κ} :
    {A : Type ℓ} {B : Type κ} {m : Option A} {a : A} (f : A → Option B)
    → m ≡ some a
    → (m >>= f) ≡ f a
bind f e = ap (λ x. x >>= f) e

-- `ys` is `xs` with one more where `d` says.
pub record IsRaised (xs ys : List ℕ) (d : ℕ → ℕ) : Type 0 where
  pub size : length ys ≡ length xs
  pub value : (k : ℕ) → at ys k ≡ at xs k + d k

pub bump_lem :
    (xs : List ℕ) (i : ℕ)
    → i < length xs
    → (ys : List ℕ) × (bump xs i ≡ some ys) × IsRaised xs ys (bit i)
unfolding bump
bump_lem [] i h = absurd (omega arith)
bump_lem (x ∷ xs) zero h = (suc x ∷ xs, refl, record { size = refl; value = head_value })
  where
    head_value : (k : ℕ) → at (suc x ∷ xs) k ≡ at (x ∷ xs) k + bit 0 k
    head_value zero = omega arith
    head_value (suc k) = ground arith
bump_lem (x ∷ xs) (suc i) h = raised (bump_lem xs i (omega arith))
  where
    raised :
        (ys : List ℕ) × (bump xs i ≡ some ys) × IsRaised xs ys (bit i)
        → (ys : List ℕ) × (bump (x ∷ xs) (suc i) ≡ some ys) × IsRaised (x ∷ xs) ys (bit (suc i))
    raised (ys, e, r) = (x ∷ ys, bind _ e, record { size = ap suc r.size; value = tail_value ys r })
      where
        tail_value :
            (ys : List ℕ)
            → IsRaised xs ys (bit i)
            → (k : ℕ) → at (x ∷ ys) k ≡ at (x ∷ xs) k + bit (suc i) k
        tail_value ys r zero = ground arith
        tail_value ys r (suc k) = ground (arith, r.value k)

pub bump_both_lem :
    (xs : List ℕ) (i j : ℕ)
    → i < length xs
    → j < length xs
    → (ys : List ℕ) × (bump_both xs i j ≡ some ys) × IsRaised xs ys (λ k. bit i k + bit j k)
unfolding bump_both
bump_both_lem xs i j hi hj =
    let (ys, e, r) = bump_lem xs i hi in
    let (zs, f, q) = bump_lem ys j (omega (arith, r.size)) in
    (
      zs,
      bind _ e ∙ f,
      record { size = q.size ∙ r.size; value = λ k. omega (arith, r.value k, q.value k) },
    )

-- A tally of `c` comparisons of `n` items, of which each item was in as many as `met` says.
pub record IsBalanced (n c : ℕ) (met : ℕ → ℕ) (t : Tally) : Type 0 where
  pub comp_size : length t.comp_count ≡ n
  pub wins_size : length t.wins_of ≡ n
  pub ties_size : length t.ties ≡ n
  pub success_size : length t.success ≡ n
  pub comparisons : (k : ℕ) → at t.comp_count k ≡ met k
  -- A win weighs 1 and a tie 0.5.
  pub points : (k : ℕ) → won k t.entries ≡ 2 * at t.wins_of k + at t.ties k
  -- Every comparison of an item weighs 1.
  pub weights : (k : ℕ) → won k t.entries + lost k t.entries ≡ 2 * at t.comp_count k
  pub successes : (k : ℕ) → at t.success k ≤ at t.comp_count k
  pub rates : (t.n_tie_judged ≤ t.n_judged) × (t.n_judged ≤ c)

abbrev pub IsPaired : ℕ → Pairing → Type 0
IsPaired n p = (p.first < n) × (p.second < n) × (p.first ≢ p.second)

pub IsBalanced-as :
    {n c c' : ℕ} {met met' : ℕ → ℕ} {t : Tally}
    → IsBalanced n c met t
    → c ≤ c'
    → ((k : ℕ) → met k ≡ met' k)
    → IsBalanced n c' met' t
IsBalanced-as h le e = record {
  comp_size = h.comp_size;
  wins_size = h.wins_size;
  ties_size = h.ties_size;
  success_size = h.success_size;
  comparisons = λ k. h.comparisons k ∙ e k;
  points = h.points;
  weights = h.weights;
  successes = h.successes;
  rates = (h.rates.0, omega (arith, h.rates.1, le));
}
