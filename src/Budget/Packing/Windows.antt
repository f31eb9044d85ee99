-- ===== src/Budget/Packing/Windows.antt =====
-- budget.py, pack_windows: a specification of windows and of their chain.
use label_kit.Prelude.{
  ℕ, zero, suc, ◌+◌, ◌-◌, ◌≤◌, ◌<◌, ◌≡◌, refl, ◌⊎◌, inl, inr, subst, true, false, ◌&&◌, List, [],
  ◌∷◌, arith, length, ltb, min, nat_beq, Bool-cases, if◌then◌else◌,
}
use label_kit.Prelude.Int.{ℤ, fits, fits_mono}
use label_kit.Budget.Packing.{Span, cost_at, grow, window_end, pack_from, pack_windows}

-- The cost of `k` frames from `start` on.
pub span_cost : List ℕ → ℕ → ℕ → ℕ
span_cost costs start zero = 0
span_cost costs start (suc k) = span_cost costs start k + cost_at costs (start + k)

pub span_cost-suc :
    (costs : List ℕ) (start k m i : ℕ)
    → m ≡ suc k
    → start + k ≡ i
    → span_cost costs start m ≡ span_cost costs start k + cost_at costs i
unfolding span_cost
span_cost-suc costs start k m i e d = rw (e, ← d) refl

span_cost-zero : (costs : List ℕ) (start k : ℕ) → k ≡ 0 → 0 ≡ span_cost costs start k
unfolding span_cost
span_cost-zero costs start k e = rw e refl

span_cost_mono :
    (costs : List ℕ) (start j k : ℕ) → j ≤ k → span_cost costs start j ≤ span_cost costs start k
unfolding span_cost
span_cost_mono costs start j zero h = let e : j ≡ 0 = omega arith in rw e (omega arith)
span_cost_mono costs start j (suc k) h = elim (Bool-cases (nat_beq j (suc k))) [
  | inl e ↦ let same : j ≡ suc k = ground arith in rw same (omega arith)
  | inr e ↦ let rest = span_cost_mono costs start j k (ground arith) in omega (arith, rest)
]

-- A window of the packing of `costs`.
pub record IsWindow (costs : List ℕ) (budget : ℤ) (cap : ℕ) (start end : ℕ) : Type 0 where
  pub nonempty : start < end
  pub within : end ≤ length costs
  -- two frames at least, where the frames last
  pub least : (start + 2 ≤ end) ⊎ (end ≡ length costs)
  -- at most `cap` frames within the budget, but for the forced pair of frames
  pub bounded :
      (end ≤ start + cap) × (fits (span_cost costs start (end - start)) budget ≡ true)
      ⊎ (end ≤ start + 2)
  -- no frame could be added
  pub greedy :
      (end ≡ length costs)
      ⊎ (start + cap ≤ end)
      ⊎ (fits (span_cost costs start (end + 1 - start)) budget ≡ false)

-- The loop's outcome at `end`.
record Grown (costs : List ℕ) (budget : ℤ) (cap : ℕ) (start end : ℕ) : Type 0 where
  from : start ≤ end
  within : end ≤ length costs
  held :
      (end ≤ start + cap) × (fits (span_cost costs start (end - start)) budget ≡ true)
      ⊎ (end ≡ start)
  stopped :
      (end ≡ length costs)
      ⊎ (start + cap ≤ end)
      ⊎ (fits (span_cost costs start (end + 1 - start)) budget ≡ false)

module _ (costs : List ℕ) (budget : ℤ) (cap : ℕ) where
  next_cost :
      (start end : ℕ)
      → start ≤ end
      → span_cost costs start (end + 1 - start)
        ≡ span_cost costs start (end - start) + cost_at costs end
  next_cost start end h =
      span_cost-suc costs start (end - start) (end + 1 - start) end (omega arith) (omega arith)

  abbrev Held : ℕ → ℕ → ℕ → Type 0
  Held start end total = (end ≤ start + cap) × (fits total budget ≡ true) ⊎ (end ≡ start)

  grow_lem :
      (f start end total : ℕ)
      → length costs ≤ end + f
      → start ≤ end
      → end ≤ length costs
      → total ≡ span_cost costs start (end - start)
      → Held start end total
      → Grown costs budget cap start (grow costs budget cap f start end total)
  unfolding grow
  grow_lem zero start end total fuel le within sum held = record {
    from = le;
    within = within;
    held = subst (Held start end) sum held;
    stopped = inl (omega arith);
  }
  grow_lem (suc f) start end total fuel le within sum held =
      elim (Bool-cases (
        ltb end (length costs)
        && (ltb (end - start) cap && fits (total + cost_at costs end) budget))) [
          | inl more ↦ rw more (
              grow_lem f start (end + 1) (total + cost_at costs end) (omega arith) (omega arith)
                (ground arith) (omega (arith, next_cost start end le)) (ground arith))
          | inr stop ↦ rw stop (record {
            from = le;
            within = within;
            held = subst (Held start end) sum held;
            stopped = ground (arith, next_cost start end le);
          })
        ]

  forced_greedy :
      (start e end : ℕ)
      → e ≤ end
      → fits (span_cost costs start (e + 1 - start)) budget ≡ false
      → fits (span_cost costs start (end + 1 - start)) budget ≡ false
  forced_greedy start e end h unfit = ground (
    arith,
    fits_mono (span_cost costs start (e + 1 - start)) (span_cost costs start (end + 1 - start))
        budget (span_cost_mono costs start (e + 1 - start) (end + 1 - start) (omega arith)),
  )

  abbrev Stopped : ℕ → ℕ → Type 0
  Stopped start end =
      (end ≡ length costs)
      ⊎ (start + cap ≤ end)
      ⊎ (fits (span_cost costs start (end + 1 - start)) budget ≡ false)

  Stopped-later :
      (start e end : ℕ) → e ≤ end → end ≤ length costs → Stopped start e → Stopped start end
  Stopped-later start e end h k (inl full) = inl (omega arith)
  Stopped-later start e end h k (inr (inl capped)) = inr (inl (omega arith))
  Stopped-later start e end h k (inr (inr unfit)) = inr (inr (forced_greedy start e end h unfit))

  close-IsWindow :
      (start e : ℕ)
      → start < length costs
      → Grown costs budget cap start e
      → IsWindow costs budget cap start
          (if ltb (e - start) 2 then min (start + 2) (length costs) else e)
  close-IsWindow start e h g = elim (Bool-cases (ltb (e - start) 2)) [
    | inl short ↦ rw short (record {
      nonempty = omega arith;
      within = omega arith;
      least = ground arith;
      bounded = inr (omega arith);
      greedy =
          Stopped-later start e (min (start + 2) (length costs)) (ground arith) (omega arith)
            g.stopped;
    })
    | inr long ↦ rw long (record {
      nonempty = ground arith;
      within = g.within;
      least = ground arith;
      bounded = ground (arith, g.held);
      greedy = g.stopped;
    })
  ]

  window_end-IsWindow :
      (start : ℕ)
      → start < length costs
      → IsWindow costs budget cap start (window_end costs budget cap start)
  unfolding window_end
  window_end-IsWindow start h =
      let n = length costs in
      close-IsWindow start (grow costs budget cap n start start 0) h (
        grow_lem n start start 0 (omega arith) (omega arith) (omega arith)
          (span_cost-zero costs start (start - start) (omega arith)) (inr refl))

-- The windows of `spans` begin at `start`, each next one at the last frame of the one before, and the
-- last one ends with the frames.
abbrev pub IsPacking : List ℕ → ℤ → ℕ → ℕ → List Span → Type 0
IsPacking costs budget cap start [] = ⊥
IsPacking costs budget cap start ((s, e) ∷ []) =
    (s ≡ start) × IsWindow costs budget cap s e × (e ≡ length costs)
IsPacking costs budget cap start ((s, e) ∷ (next ∷ rest)) =
    (s ≡ start)
    × IsWindow costs budget cap s e
    × (start + 2 ≤ e)
    × (e < length costs)
    × IsPacking costs budget cap (e - 1) (next ∷ rest)

module _ (costs : List ℕ) (budget : ℤ) (cap : ℕ) where
  cons-IsPacking :
      (start e : ℕ) (rest : List Span)
      → IsWindow costs budget cap start e
      → e < length costs
      → IsPacking costs budget cap (e - 1) rest
      → IsPacking costs budget cap start ((start, e) ∷ rest)
  cons-IsPacking start e [] w lt p = absurd p
  cons-IsPacking start e (next ∷ rest) w lt p = (refl, w, ground (arith, w.least), lt, p)

  pack_from-IsPacking :
      (f start : ℕ)
      → length costs ≤ start + f
      → start < length costs
      → IsPacking costs budget cap start (pack_from costs budget cap f start)
  unfolding pack_from
  pack_from-IsPacking zero start fuel lt = absurd (omega arith)
  pack_from-IsPacking (suc f) start fuel lt =
      let e = window_end costs budget cap start in
      let w = window_end-IsWindow costs budget cap start lt in
      let inside : ltb start (length costs) ≡ true = ground arith in
      elim (Bool-cases (nat_beq e (length costs))) [
        | inl done ↦ rw (inside, done) (refl, w, ground arith)
        | inr more ↦
            rw (inside, more)
              (cons-IsPacking start e (pack_from costs budget cap f (e - 1)) w
                (ground (arith, w.within))
                (pack_from-IsPacking f (e - 1) (ground (arith, w.least, w.within))
                  (ground (arith, w.within))))
      ]

-- For any frames at all, whatever the budget and the cap: the windows begin at frame 0, each next one
-- at the last frame of the one before, and the last one ends with the frames. Each window has two
-- frames where the frames last, keeps to the cap and the budget unless it is the least pair of
-- frames, and is as long as the cap and the budget let it be.
pub pack_windows-IsPacking :
    (costs : List ℕ) (budget : ℤ) (cap : ℕ)
    → 0 < length costs
    → IsPacking costs budget cap 0 (pack_windows costs budget cap)
unfolding pack_windows
pack_windows-IsPacking costs budget cap h =
    pack_from-IsPacking costs budget cap (length costs) 0 (omega arith) h
