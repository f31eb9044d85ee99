-- ===== src/Stitch/Seams.antt =====
-- stitch.py, compute_seams and span_distance: the tasks between neighbouring members.
use label_kit.Prelude.Dict.{is_in}
use label_kit.Prelude.{
  ℕ, zero, suc, ◌+◌, ◌-◌, ◌≤◌, ◌<◌, ◌≡◌, refl, sym, ◌∙◌, ap, inl, inr, Bool, true, false, ◌||◌, not,
  ◌&&◌, Option, none, some, List, [], ◌∷◌, ◌++◌, String, arith, if◌then◌else◌, Bool-cases, length,
  get_elem?, ◌==◌, string_eq, nat_eq, nat_beq,
}
use mathlib.Core.Option.{some-injective}
use label_kit.Stitch.{add_name, gap_names, add_seam, seams_from, compute_seams, span_distance}

-- The distance of two spans does not depend on their order, and no two positions of the spans are
-- nearer to each other.
pub span_distance_least :
    (a_head a_tail b_head b_tail p q : ℕ)
    → a_head ≤ p
    → p ≤ a_tail
    → b_head ≤ q
    → q ≤ b_tail
    → (span_distance a_head a_tail b_head b_tail ≡ span_distance b_head b_tail a_head a_tail)
      × (span_distance a_head a_tail b_head b_tail ≤ (p - q) + (q - p))
unfolding span_distance
span_distance_least a_head a_tail b_head b_tail p q h i j k = (ground arith, ground arith)

module _ (owned : List ℕ) (owner_task : ℕ → Option String) where
  -- The frame at the position belongs to the task of another thread.
  abbrev pub interrupts : ℕ → String → Bool
  interrupts pos task =
      not (is_in pos owned) && elim (owner_task pos) [ none ↦ false | some t ↦ t == task ]

  -- One of `count` positions from `pos` on is of the task.
  unfoldable pub any_interrupts : ℕ → ℕ → String → Bool
  any_interrupts pos zero task = false
  any_interrupts pos (suc count) task = interrupts pos task || any_interrupts (pos + 1) count task

  is_in-append :
      (x : String) (l : List String) (y : String) → is_in x (l ++ (y ∷ [])) ≡ (is_in x l || y == x)
  unfolding is_in
  is_in-append x [] y = ground arith
  is_in-append x (z ∷ l) y = rw (is_in-append x l y) (ground arith)

  is_in-add_name :
      (x : String) (names : List String) (o : Option String)
      → is_in x (add_name names o) ≡ (is_in x names || elim o [ none ↦ false | some t ↦ t == x ])
  is_in-add_name x names none = ground arith
  is_in-add_name x names (some t) = elim (Bool-cases (is_in t names)) [
    | inl old ↦ rw old (known old)
    | inr new ↦ rw (new, is_in-append x names t) refl
  ]
    where
      known : is_in t names ≡ true → is_in x names ≡ (is_in x names || t == x)
      known old = elim (Bool-cases (t == x)) [
        | inl same ↦
            let p : t ≡ x = (string_eq.test_iff t x).0 same in
            let q : is_in x names ≡ true = ap (λ y. is_in y names) (sym p) ∙ old in rw q refl
        | inr other ↦ rw other (ground arith)
      ]

  is_in-gap_names :
      (x : String) (names : List String) (pos count : ℕ)
      → is_in x (gap_names owned owner_task names pos count)
        ≡ (is_in x names || any_interrupts pos count x)
  unfolding gap_names any_interrupts
  is_in-gap_names x names pos zero = ground arith
  is_in-gap_names x names pos (suc count) = elim (Bool-cases (is_in pos owned)) [
    | inl own ↦ rw (own, is_in-gap_names x names (pos + 1) count) (ground arith)
    | inr foreign ↦
        rw
          (
            foreign,
            is_in-gap_names x (add_name names (owner_task pos)) (pos + 1) count,
            is_in-add_name x names (owner_task pos),
          )
          (ground arith)
  ]

-- The tasks that are listed for the pair of members at index `i`.
unfoldable pub seam_names : ℕ → List (ℕ × List String) → List String
seam_names i [] = []
seam_names i ((j, names) ∷ rest) = if j == i then names else seam_names i rest

-- The seams ascend from index `i` on and stay below `last`, and each lists a task.
abbrev pub IsAscending : ℕ → ℕ → List (ℕ × List String) → Type 0
IsAscending i last [] = Unit
IsAscending i last ((j, names) ∷ rest) =
    (i ≤ j) × (j < last) × (0 < length names) × IsAscending (j + 1) last rest

seam_names-below :
    (k i last : ℕ) (l : List (ℕ × List String)) → k < i → IsAscending i last l → seam_names k l ≡ []
unfolding seam_names
seam_names-below k i last [] h a = refl
seam_names-below k i last ((j, names) ∷ rest) h a =
    let r = seam_names-below k (j + 1) last rest (omega (arith, a.0)) a.3 in
    let other : nat_beq j k ≡ false = ground (arith, a.0) in rw other r

weaken-IsAscending :
    (i j last : ℕ) (l : List (ℕ × List String))
    → i ≤ j
    → IsAscending j last l
    → IsAscending i last l
weaken-IsAscending i j last [] h a = tt
weaken-IsAscending i j last ((k, names) ∷ rest) h a = (omega (arith, a.0), a.1, a.2, a.3)

add_seam-IsAscending :
    (i last : ℕ) (names : List String) (l : List (ℕ × List String))
    → i < last
    → IsAscending (i + 1) last l
    → IsAscending i last (add_seam i names l)
add_seam-IsAscending i last [] l h a = weaken-IsAscending i (i + 1) last l (omega arith) a
add_seam-IsAscending i last (n ∷ ns) l h a = (omega arith, h, omega arith, a)

seam_names-add_seam :
    (i last : ℕ) (names : List String) (l : List (ℕ × List String))
    → IsAscending (i + 1) last l
    → seam_names i (add_seam i names l) ≡ names
unfolding seam_names
seam_names-add_seam i last [] l a = seam_names-below i (i + 1) last l (omega arith) a
seam_names-add_seam i last (n ∷ ns) l a =
    let same : nat_beq i i ≡ true = ground arith in rw same refl

seam_names-add_other :
    (k i : ℕ) (names : List String) (l : List (ℕ × List String))
    → i < k
    → seam_names k (add_seam i names l) ≡ seam_names k l
unfolding seam_names
seam_names-add_other k i [] l h = refl
seam_names-add_other k i (n ∷ ns) l h =
    let other : nat_beq i k ≡ false = ground arith in rw other refl

module _ (owned : List ℕ) (owner_task : ℕ → Option String) where
  seams_from-IsAscending :
      (i last : ℕ) (l : List ℕ)
      → i + length l ≤ last + 1
      → IsAscending i last (seams_from owned owner_task i l)
  unfolding seams_from
  seams_from-IsAscending i last [] h = tt
  seams_from-IsAscending i last (left ∷ []) h = tt
  seams_from-IsAscending i last (left ∷ (right ∷ rest)) h =
      add_seam-IsAscending i last (gap_names owned owner_task [] (left + 1) (right - (left + 1)))
        (seams_from owned owner_task (i + 1) (right ∷ rest)) (omega arith)
        (seams_from-IsAscending (i + 1) last (right ∷ rest) (omega arith))

  seams_from-names :
      (x : String) (last i k m : ℕ) (l : List ℕ) (left right : ℕ)
      → i + length l ≤ last + 1
      → m ≡ i + k
      → get_elem? l k ≡ some left
      → get_elem? l (suc k) ≡ some right
      → is_in x (seam_names m (seams_from owned owner_task i l))
        ≡ any_interrupts owned owner_task (left + 1) (right - (left + 1)) x
  unfolding seams_from
  seams_from-names x last i k m [] left right fits e h j = absurd (cc h)
  seams_from-names x last i zero m (a ∷ []) left right fits e h j = absurd (cc j)
  seams_from-names x last i (suc k) m (a ∷ []) left right fits e h j = absurd (cc h)
  seams_from-names x last i zero m (a ∷ (b ∷ rest)) left right fits e h j =
      let names = gap_names owned owner_task [] (a + 1) (b - (a + 1)) in
      let later = seams_from owned owner_task (i + 1) (b ∷ rest) in
      let top : seam_names m (add_seam i names later) ≡ names =
        ap (λ n. seam_names n (add_seam i names later)) (omega (arith, e))
        ∙ seam_names-add_seam i last names later
            (seams_from-IsAscending (i + 1) last (b ∷ rest) (omega arith)) in
      let p : a ≡ left = some-injective _ _ h in
      let q : b ≡ right = some-injective _ _ j in
      rw (top, ← p, ← q)
        (is_in-gap_names owned owner_task x [] (a + 1) (b - (a + 1)) ∙ unfold is_in in refl)
  seams_from-names x last i (suc k) m (a ∷ (b ∷ rest)) left right fits e h j =
      rw
        (seam_names-add_other m i (gap_names owned owner_task [] (a + 1) (b - (a + 1)))
          (seams_from owned owner_task (i + 1) (b ∷ rest)) (omega (arith, e)))
        (seams_from-names x last (i + 1) k m (b ∷ rest) left right (omega arith) (omega (arith, e))
          h j)

-- For each pair of neighbouring positions: a task is listed for the pair exactly if it absorbed a
-- position between them that is none of the thread's. The seams are listed in ascending order, below
-- the last position, each once and with a task.
pub compute_seams-names :
    (positions : List ℕ) (owner_task : ℕ → Option String) (task : String) (i left right : ℕ)
    → get_elem? positions i ≡ some left
    → get_elem? positions (suc i) ≡ some right
    → (is_in task (seam_names i (compute_seams positions owner_task))
        ≡ any_interrupts positions owner_task (left + 1) (right - (left + 1)) task)
      × IsAscending 0 (length positions - 1) (compute_seams positions owner_task)
unfolding compute_seams
compute_seams-names positions owner_task task i left right h j = (
  seams_from-names positions owner_task task (length positions - 1) 0 i i positions left right
      (omega arith) (omega arith) h j,
  seams_from-IsAscending positions owner_task 0 (length positions - 1) positions (omega arith),
)
