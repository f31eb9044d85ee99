-- ===== src/Quality/Plan.antt =====
-- quality.py, _pairing_plan: rounds of random pairs. The random generator is a parameter.
use label_kit.Prelude.{
  ℕ, zero, suc, ◌+◌, ◌*◌, ◌/◌, ◌≤◌, ◌<◌, ◌≡◌, ◌≢◌, refl, ◌∙◌, ap, Bool, Option, none, some, List,
  [], ◌∷◌, ◌++◌, length, All, arith,
}
use label_kit.Quality.{Pairing}
use label_kit.Quality.Tally.{◌>>=◌}
use label_kit.Quality.Balance.{bind, bit, meetings, IsPaired}

-- range(k, k + n)
unfoldable pub range_from : ℕ → ℕ → List ℕ
range_from k zero = []
range_from k (suc n) = k ∷ range_from (suc k) n

-- random.Random: its state, rng.shuffle, and rng.random() < 0.5
pub record Rng (S : Type 0) : Type 0 where
  pub shuffle : S → List ℕ → List ℕ × S
  pub coin : S → Bool × S

unfoldable pub occurrences : ℕ → List ℕ → ℕ
occurrences k [] = 0
occurrences k (x ∷ xs) = bit x k + occurrences k xs

-- A shuffle leaves the length of a list and how often each entry stands in it.
pub record IsShuffling {S : Type 0} (rng : Rng S) : Type 0 where
  pub size : (s : S) (xs : List ℕ) → length (rng.shuffle s xs).0 ≡ length xs
  pub same : (s : S) (xs : List ℕ) (k : ℕ) → occurrences k (rng.shuffle s xs).0 ≡ occurrences k xs

module _ {S : Type 0} (rng : Rng S) where
  -- The inner loop, whose next round reads the next two entries; none is IndexError.
  unfoldable pub draw_pairs : S → ℕ → ℕ → List ℕ → Option (List Pairing × S)
  draw_pairs s round_no zero order = some ([], s)
  draw_pairs s round_no (suc k) [] = none
  draw_pairs s round_no (suc k) (i ∷ []) = none
  draw_pairs s round_no (suc k) (i ∷ j ∷ order) = do
    let (first_is_a, s') = rng.coin s
    (plan, s'') ← draw_pairs s' round_no k order
    some
        (record { round_no = round_no; first = i; second = j; first_is_a = first_is_a } ∷ plan, s'')

  -- The loop over the rounds from `round_no` on.
  unfoldable pub draw_rounds : S → ℕ → ℕ → ℕ → Option (List Pairing × S)
  unfolding draw_pairs range_from
  draw_rounds s n round_no zero = some ([], s)
  draw_rounds s n round_no (suc rounds) = do
    let (order, s') = rng.shuffle s (range_from 0 n)
    (pairs, s'') ← draw_pairs s' round_no (n / 2) order
    (plan, s''') ← draw_rounds s'' n (suc round_no) rounds
    some (pairs ++ plan, s''')

  -- _pairing_plan
  unfoldable pub pairing_plan : S → ℕ → ℕ → Option (List Pairing × S)
  unfolding draw_rounds
  pairing_plan s n rounds = draw_rounds s n 1 rounds

-- The pairs of one round: half as many as there are items, and none has an item of another.
pub record IsMatching (n round_no : ℕ) (pairs : List Pairing) : Type 0 where
  pub size : length pairs ≡ n / 2
  pub numbered : All (λ p. p.round_no ≡ round_no) pairs
  pub paired : All (IsPaired n) pairs
  pub once : (k : ℕ) → meetings k pairs ≤ 1

-- One matching after another.
abbrev pub IsRounds : ℕ → ℕ → ℕ → List Pairing → Type 0
IsRounds n round_no zero plan = plan ≡ []
IsRounds n round_no (suc rounds) plan =
    (pairs : List Pairing) × (rest : List Pairing) × (plan ≡ pairs ++ rest)
    × IsMatching n round_no pairs
    × IsRounds n (suc round_no) rounds rest

occurrences-range_from-below : (a n k : ℕ) → k < a → occurrences k (range_from a n) ≡ 0
unfolding occurrences range_from
occurrences-range_from-below a zero k h = refl
occurrences-range_from-below a (suc n) k h =
    ground (arith, occurrences-range_from-below (suc a) n k (omega arith))

occurrences-range_from : (a n k : ℕ) → occurrences k (range_from a n) ≤ 1
unfolding occurrences range_from
occurrences-range_from a zero k = omega arith
occurrences-range_from a (suc n) k =
    ground (arith, occurrences-range_from (suc a) n k, occurrences-range_from-below (suc a) n k)

occurrences-range_from-there : (a n k : ℕ) → 1 ≤ occurrences k (range_from a n) → k < a + n
unfolding occurrences range_from
occurrences-range_from-there a zero k h = omega arith
occurrences-range_from-there a (suc n) k h =
    ground (arith, occurrences-range_from-there (suc a) n k)

range_from-length : (a n : ℕ) → length (range_from a n) ≡ n
unfolding range_from
range_from-length a zero = refl
range_from-length a (suc n) = ap suc (range_from-length (suc a) n)

-- A list of different numbers below `n`.
record IsOrder (n : ℕ) (order : List ℕ) : Type 0 where
  once : (k : ℕ) → occurrences k order ≤ 1
  below : (k : ℕ) → 1 ≤ occurrences k order → k < n

bit_self : (i : ℕ) → bit i i ≡ 1
bit_self i = ground arith

first_two : (n i j : ℕ) (order : List ℕ) → IsOrder n (i ∷ j ∷ order) → (i < n) × (j < n) × (i ≢ j)
unfolding occurrences
first_two n i j order o = (
  o.below i (ground (arith, bit_self i)),
  o.below j (ground (arith, bit_self j)),
  λ e. absurd (ground (arith, o.once i, bit_self i, e)),
)

after_two : (n i j : ℕ) (order : List ℕ) → IsOrder n (i ∷ j ∷ order) → IsOrder n order
unfolding occurrences
after_two n i j order o = record {
  once = λ k. omega (arith, o.once k);
  below = λ k h. o.below k (omega (arith, h));
}

module _ {S : Type 0} (rng : Rng S) (n : ℕ) where
  -- What one round draws.
  record IsDrawn (round_no k : ℕ) (order : List ℕ) (pairs : List Pairing) : Type 0 where
    size : length pairs ≡ k
    numbered : All (λ p. p.round_no ≡ round_no) pairs
    paired : All (IsPaired n) pairs
    within : (i : ℕ) → meetings i pairs ≤ occurrences i order

  draw_pairs-IsDrawn :
      (s : S) (round_no k : ℕ) (order : List ℕ)
      → 2 * k ≤ length order
      → IsOrder n order
      → (pairs : List Pairing) × (s' : S) × (draw_pairs rng s round_no k order ≡ some (pairs, s'))
        × IsDrawn round_no k order pairs
  unfolding draw_pairs meetings occurrences
  draw_pairs-IsDrawn s round_no zero order h o =
      ([], s, refl, record { size = refl; numbered = tt; paired = tt; within = λ i. omega arith })
  draw_pairs-IsDrawn s round_no (suc k) [] h o = absurd (omega arith)
  draw_pairs-IsDrawn s round_no (suc k) (i ∷ []) h o = absurd (omega arith)
  draw_pairs-IsDrawn s round_no (suc k) (i ∷ j ∷ order) h o =
      let (pairs, s', e, d) =
        draw_pairs-IsDrawn (rng.coin s).1 round_no k order (omega (arith, h))
          (after_two n i j order o) in
      (
        _,
        _,
        bind _ e,
        record {
          size = ap suc d.size;
          numbered = (refl, d.numbered);
          paired = (first_two n i j order o, d.paired);
          within = λ x. omega (arith, d.within x);
        },
      )

  module _ (h : IsShuffling rng) where
    shuffled : (s : S) → IsOrder n (rng.shuffle s (range_from 0 n)).0
    shuffled s = record {
      once = λ k. omega (arith, h.same s (range_from 0 n) k, occurrences-range_from 0 n k);
      below = λ k g. omega (
        arith,
        occurrences-range_from-there 0 n k (omega (arith, h.same s (range_from 0 n) k, g)),
      );
    }

    half : (s : S) → 2 * (n / 2) ≤ length (rng.shuffle s (range_from 0 n)).0
    half s = omega (arith, h.size s (range_from 0 n), range_from-length 0 n)

    draw_rounds-IsRounds :
        (s : S) (round_no rounds : ℕ)
        → (plan : List Pairing) × (s' : S) × (draw_rounds rng s n round_no rounds ≡ some (plan, s'))
          × IsRounds n round_no rounds plan
    unfolding draw_rounds
    draw_rounds-IsRounds s round_no zero = ([], s, refl, refl)
    draw_rounds-IsRounds s round_no (suc rounds) =
        let o = shuffled s in
        let (pairs, s', e, d) =
          draw_pairs-IsDrawn (rng.shuffle s (range_from 0 n)).1 round_no (n / 2)
            (rng.shuffle s (range_from 0 n)).0 (half s) o in
        let (rest, s'', f, r) = draw_rounds-IsRounds s' (suc round_no) rounds in
        (
          pairs ++ rest,
          s'',
          bind _ e ∙ bind _ f,
          (
            pairs,
            rest,
            refl,
            record {
              size = d.size;
              numbered = d.numbered;
              paired = d.paired;
              once = λ k. omega (arith, d.within k, o.once k);
            },
            r,
          ),
        )

-- Whatever a shuffle does: the plan is drawn, and is one matching after another, one for each round,
-- with half as many pairs as there are items, each of two different items, none of which is in two
-- pairs of the round.
pub pairing_plan-IsRounds :
    {S : Type 0} (rng : Rng S) (s : S) (n rounds : ℕ)
    → IsShuffling rng
    → (plan : List Pairing) × (s' : S) × (pairing_plan rng s n rounds ≡ some (plan, s'))
      × IsRounds n 1 rounds plan
unfolding pairing_plan
pairing_plan-IsRounds rng s n rounds h = draw_rounds-IsRounds rng n h s 1 rounds
