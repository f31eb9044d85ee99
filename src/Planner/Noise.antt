-- ===== src/Planner/Noise.antt =====
-- planner.py, _noise_slots: the sessions of noise.
use label_kit.Prelude.{
  ℕ, zero, suc, ◌+◌, ◌-◌, ◌≤◌, ◌<◌, ◌≡◌, refl, ap, inl, inr, ◌⊎◌, true, false, ◌||◌, none, some,
  List, [], ◌∷◌, arith, ltb, leb, if◌then◌else◌, nat_beq, Bool-cases, length,
}
use label_kit.Planner.{
  Timeline, NoiseState, NoiseSlot, quantum_us, event_gap, session_gap, place_noise, next_noise_time,
  noise_from, noise_slots,
}

-- How many of the slots are in a session.
unfoldable pub session_size : ℕ → List NoiseSlot → ℕ
session_size k [] = 0
session_size k (s ∷ ss) =
    if nat_beq s.session_index k then session_size k ss + 1 else session_size k ss

module _ (t : Timeline) where
  -- The slots follow a slot at `last` in session `index`, which has to end by `limit`: each next one
  -- comes an event gap later in the same session, or more than a session gap later in the next
  -- session, which has its own limit.
  abbrev pub IsSpaced : ℕ → ℕ → ℕ → List NoiseSlot → Type 0
  IsSpaced last index limit [] = Unit
  IsSpaced last index limit (s ∷ ss) =
      (s.session_index ≡ index)
        × (s.timestamp_us ≡ last + event_gap t)
        × (s.timestamp_us ≤ limit)
        × IsSpaced s.timestamp_us index limit ss
      ⊎ (s.session_index ≡ index + 1)
        × (s.timestamp_us ≡ last + quantum_us + session_gap t)
        × IsSpaced s.timestamp_us (index + 1) (s.timestamp_us + t.session_max_span_us) ss

  abbrev pub IsNoise : ℕ → List NoiseSlot → Type 0
  IsNoise cursor [] = Unit
  IsNoise cursor (s ∷ ss) =
      (s.session_index ≡ 0)
      × (s.timestamp_us ≡ cursor + session_gap t)
      × IsSpaced s.timestamp_us 0 (s.timestamp_us + t.session_max_span_us) ss

  earlier_sessions :
      (k last index limit : ℕ) (l : List NoiseSlot)
      → k < index
      → IsSpaced last index limit l
      → session_size k l ≡ 0
  unfolding session_size
  earlier_sessions k last index limit [] h s = refl
  earlier_sessions k last index limit (x ∷ xs) h (inl same) =
      let other : nat_beq x.session_index k ≡ false = ground (arith, same.0, h) in
      rw other (earlier_sessions k x.timestamp_us index limit xs h same.3)
  earlier_sessions k last index limit (x ∷ xs) h (inr next) =
      let other : nat_beq x.session_index k ≡ false = ground (arith, next.0, h) in
      rw other (
        earlier_sessions k x.timestamp_us (index + 1) (x.timestamp_us + t.session_max_span_us) xs
          (omega (arith, h)) next.2)

  -- What the slots from a state on keep to, where the session has had `count` slots.
  record Kept (last index limit count : ℕ) (l : List NoiseSlot) : Type 0 where
    spaced : IsSpaced last index limit l
    current : session_size index l + count ≤ t.session_max_events
    later : (k : ℕ) → index < k → session_size k l ≤ t.session_max_events

  same_session :
      (last index limit count : ℕ) (l : List NoiseSlot)
      → last + event_gap t ≤ limit
      → Kept (last + event_gap t) index limit (count + 1) l
      → Kept last index limit count
          (record { timestamp_us = last + event_gap t; session_index = index } ∷ l)
  unfolding session_size
  same_session last index limit count l h k =
      let here : nat_beq index index ≡ true = ground arith in
      record {
        spaced = inl (refl, refl, h, k.spaced);
        current = rw here (omega (arith, k.current));
        later = λ j lt.
            let other : nat_beq index j ≡ false = ground (arith, lt) in rw other (k.later j lt);
      }

  next_session :
      (last index limit count : ℕ) (l : List NoiseSlot) (ts : ℕ)
      → ts ≡ last + quantum_us + session_gap t
      → count ≤ t.session_max_events
      → Kept ts (index + 1) (ts + t.session_max_span_us) 1 l
      → Kept last index limit count (record { timestamp_us = ts; session_index = index + 1 } ∷ l)
  unfolding session_size
  next_session last index limit count l ts e h k =
      let none_here =
        earlier_sessions index ts (index + 1) (ts + t.session_max_span_us) l (omega arith)
          k.spaced in
      let other : nat_beq (index + 1) index ≡ false = ground arith in
      record {
        spaced = inr (refl, e, k.spaced);
        current = rw other (omega (arith, none_here, h));
        later = λ j lt. elim (Bool-cases (nat_beq (index + 1) j)) [
          | inl here ↦
              let same : index + 1 ≡ j = ground (arith, here) in
              rw here (omega (arith, k.current, ap (λ n. session_size n l) same))
          | inr apart ↦ rw apart (k.later j (ground (arith, apart, lt)))
        ];
      }

  noise_from-Kept :
      (n : ℕ) (s : NoiseState) (start last : ℕ)
      → 1 ≤ t.session_max_events
      → s.session_start ≡ some start
      → s.cursor ≡ last + quantum_us
      → s.session_count ≤ t.session_max_events
      → Kept last s.session_index (start + t.session_max_span_us) s.session_count (noise_from t s n)
  unfolding noise_from next_noise_time place_noise
  noise_from-Kept zero s start last pos b c k = record {
    spaced = tt;
    current = unfold session_size in omega (arith, k);
    later = λ j lt. unfold session_size in omega arith;
  }
  noise_from-Kept (suc n) s start last pos b c k =
      let p : s.cursor + (event_gap t - quantum_us) ≡ last + event_gap t = omega (arith, c) in
      rw (b, p)
        (elim (Bool-cases (
          leb t.session_max_events s.session_count
          || ltb t.session_max_span_us (last + event_gap t - start))) [
            | inl full ↦
                let ts = s.cursor + session_gap t in
                let s' : NoiseState = record {
                  cursor = ts + quantum_us;
                  session_index = s.session_index + 1;
                  session_start = some ts;
                  session_count = 1;
                } in
                rw full (
                  next_session last s.session_index (start + t.session_max_span_us) s.session_count
                    (noise_from t s' n) ts (omega (arith, c)) k
                    (noise_from-Kept n s' ts ts pos refl refl pos))
            | inr room ↦
                let ts = last + event_gap t in
                let s' : NoiseState = record {
                  cursor = ts + quantum_us;
                  session_index = s.session_index;
                  session_start = some start;
                  session_count = s.session_count + 1;
                } in
                rw room (
                  same_session last s.session_index (start + t.session_max_span_us) s.session_count
                    (noise_from t s' n) (ground (arith, room))
                    (noise_from-Kept n s' start ts pos refl refl (ground (arith, room))))
          ])

  length-noise_from : (n : ℕ) (s : NoiseState) → length (noise_from t s n) ≡ n
  unfolding noise_from
  length-noise_from zero s = refl
  length-noise_from (suc n) s = omega (arith, length-noise_from n (next_noise_time t s).1)

  size-first :
      (k ts limit : ℕ) (l : List NoiseSlot)
      → Kept ts 0 limit 1 l
      → session_size k (record { timestamp_us = ts; session_index = 0 } ∷ l) ≤ t.session_max_events
  unfolding session_size
  size-first zero ts limit l h = omega (arith, h.current)
  size-first (suc k) ts limit l h =
      let other : nat_beq 0 (suc k) ≡ false = ground arith in
      rw other (h.later (suc k) (omega arith))

  first-IsNoise :
      (cursor count k : ℕ)
      → 1 ≤ t.session_max_events
      → (let s : NoiseState = record {
        cursor = cursor;
        session_index = 0;
        session_start = none;
        session_count = 0;
      } in
          IsNoise cursor (noise_from t s count)
          × (session_size k (noise_from t s count) ≤ t.session_max_events))
  unfolding noise_from next_noise_time place_noise
  first-IsNoise cursor zero k pos = (tt, unfold session_size in omega arith)
  first-IsNoise cursor (suc n) k pos =
      let ts = cursor + session_gap t in
      let room : (leb t.session_max_events 0 || ltb t.session_max_span_us (ts - ts)) ≡ false =
        ground (arith, pos) in
      let s' : NoiseState = record {
        cursor = ts + quantum_us;
        session_index = 0;
        session_start = some ts;
        session_count = 1;
      } in
      let kept = noise_from-Kept n s' ts ts pos refl refl pos in
      rw room (
        (refl, refl, kept.spaced),
        size-first k ts (ts + t.session_max_span_us) (noise_from t s' n) kept,
      )

  -- With a session of at least one event: the slots begin a session gap after the cursor, each next
  -- one comes an event gap later in its session, within the span from the session's first slot, or a
  -- session gap after the end of the slot before, in a new session; no session has more events than a
  -- session may; and there are as many slots as are asked for.
  pub noise_slots-IsNoise :
      (cursor count k : ℕ)
      → 1 ≤ t.session_max_events
      → IsNoise cursor (noise_slots t cursor count)
        × (session_size k (noise_slots t cursor count) ≤ t.session_max_events)
        × (length (noise_slots t cursor count) ≡ count)
  unfolding noise_slots
  noise_slots-IsNoise cursor count k pos =
      let s : NoiseState = record {
        cursor = cursor;
        session_index = 0;
        session_start = none;
        session_count = 0;
      } in
      let (noise, size) = first-IsNoise cursor count k pos in
      (noise, size, length-noise_from count s)
