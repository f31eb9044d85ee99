-- ===== src/Quality/Balance/Steps.antt =====
-- quality.py, _tally_criterion: one comparison keeps the balance of a tally.
use label_kit.Prelude.{ℕ, suc, ◌+◌, ◌<◌, ◌≡◌, ◌≢◌, ◌⊎◌, ◌∙◌, none, some, [], ◌∷◌, arith}
use label_kit.Quality.{wins, tie, Outcome}
use label_kit.Quality.Tally.{Tally, note_judged, note_verdict, tally_comparison, other}
use label_kit.Quality.Balance.{
  bit, won, lost, won-append, lost-append, bind, bump_lem, bump_both_lem, IsBalanced,
}

abbrev pub with_pairing : (ℕ → ℕ) → ℕ → ℕ → ℕ → ℕ
with_pairing met i j k = met k + (bit i k + bit j k)

abbrev pub Next : ℕ → ℕ → (ℕ → ℕ) → Tally → ℕ → ℕ → Outcome → Type 0
Next n c met t i j o =
    (t' : Tally) × (tally_comparison t i j o ≡ some t')
    × IsBalanced n (suc c) (with_pairing met i j) t'

module _ (n c : ℕ) (met : ℕ → ℕ) (t : Tally) (i j : ℕ) (hi : i < n) (hj : j < n)
    (h : IsBalanced n c met t) where
  pub after_failure : Next n c met t i j none
  unfolding tally_comparison note_judged note_verdict won lost
  after_failure =
      let (cs, ce, cr) =
        bump_both_lem t.comp_count i j (omega (arith, h.comp_size)) (omega (arith, h.comp_size)) in
      let (ts, te, tr) =
        bump_both_lem t.ties i j (omega (arith, h.ties_size)) (omega (arith, h.ties_size)) in
      (
        _,
        bind _ ce ∙ bind _ te,
        record {
          comp_size = cr.size ∙ h.comp_size;
          wins_size = h.wins_size;
          ties_size = tr.size ∙ h.ties_size;
          success_size = h.success_size;
          comparisons = λ k. omega (arith, cr.value k, h.comparisons k);
          points = λ k.
              omega (
                arith,
                won-append k t.entries ((i, j, 1) ∷ (j, i, 1) ∷ []),
                tr.value k,
                h.points k,
              );
          weights = λ k. omega (
            arith,
            won-append k t.entries ((i, j, 1) ∷ (j, i, 1) ∷ []),
            lost-append k t.entries ((i, j, 1) ∷ (j, i, 1) ∷ []),
            cr.value k,
            h.weights k,
          );
          successes = λ k. omega (arith, cr.value k, h.successes k);
          rates = (h.rates.0, omega (arith, h.rates.1));
        },
      )

  pub after_tie : Next n c met t i j (some tie)
  unfolding tally_comparison note_judged note_verdict won lost
  after_tie =
      let (cs, ce, cr) =
        bump_both_lem t.comp_count i j (omega (arith, h.comp_size)) (omega (arith, h.comp_size)) in
      let (ss, se, sr) =
        bump_both_lem t.success i j (omega (arith, h.success_size))
          (omega (arith, h.success_size)) in
      let (ts, te, tr) =
        bump_both_lem t.ties i j (omega (arith, h.ties_size)) (omega (arith, h.ties_size)) in
      (
        _,
        bind _ ce ∙ bind _ (bind _ se) ∙ bind _ te,
        record {
          comp_size = cr.size ∙ h.comp_size;
          wins_size = h.wins_size;
          ties_size = tr.size ∙ h.ties_size;
          success_size = sr.size ∙ h.success_size;
          comparisons = λ k. omega (arith, cr.value k, h.comparisons k);
          points = λ k.
              omega (
                arith,
                won-append k t.entries ((i, j, 1) ∷ (j, i, 1) ∷ []),
                tr.value k,
                h.points k,
              );
          weights = λ k. omega (
            arith,
            won-append k t.entries ((i, j, 1) ∷ (j, i, 1) ∷ []),
            lost-append k t.entries ((i, j, 1) ∷ (j, i, 1) ∷ []),
            cr.value k,
            h.weights k,
          );
          successes = λ k. omega (arith, cr.value k, sr.value k, h.successes k);
          rates = (omega (arith, h.rates.0), omega (arith, h.rates.1));
        },
      )

  -- `w` beats `l`.
  pub after_win : (w : ℕ) → (w ≡ i) ⊎ (w ≡ j) → i ≢ j → Next n c met t i j (some (wins w))
  unfolding tally_comparison note_judged note_verdict won lost
  after_win w one distinct =
      let (cs, ce, cr) =
        bump_both_lem t.comp_count i j (omega (arith, h.comp_size)) (omega (arith, h.comp_size)) in
      let (ss, se, sr) =
        bump_both_lem t.success i j (omega (arith, h.success_size))
          (omega (arith, h.success_size)) in
      let (ws, we, wr) = bump_lem t.wins_of w (omega (arith, h.wins_size, one)) in
      (
        _,
        bind _ ce ∙ bind _ (bind _ se) ∙ bind _ we,
        record {
          comp_size = cr.size ∙ h.comp_size;
          wins_size = wr.size ∙ h.wins_size;
          ties_size = h.ties_size;
          success_size = sr.size ∙ h.success_size;
          comparisons = λ k. omega (arith, cr.value k, h.comparisons k);
          points = λ k.
              omega
                (arith, won-append k t.entries ((w, other w i j, 2) ∷ []), wr.value k, h.points k);
          weights = λ k. ground (
            arith,
            won-append k t.entries ((w, other w i j, 2) ∷ []),
            lost-append k t.entries ((w, other w i j, 2) ∷ []),
            cr.value k,
            h.weights k,
            one,
            distinct,
          );
          successes = λ k. omega (arith, cr.value k, sr.value k, h.successes k);
          rates = (omega (arith, h.rates.0), omega (arith, h.rates.1));
        },
      )
