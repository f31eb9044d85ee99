-- ===== src/Stitch/Eviction.antt =====
-- stitch.py, select_eviction: a specification of the thread that leaves the pool.
use label_kit.Prelude.{
  ℕ, ◌+◌, ◌≤◌, ◌<◌, ◌≡◌, refl, sym, subst, ◌∙◌, ap, inl, inr, true, Option, none, some, List, [],
  ◌∷◌, arith, ltb, Bool-cases, All,
}
use mathlib.Core.List.{Memᴰ}
use label_kit.Stitch.{
  Thread, oldest_from, oldest, is_stale, stale_threads, or_oldest, select_eviction,
}

-- The thread stands in the list, and none was active less recently.
pub record IsOldest (l : List Thread) (t : Thread) : Type 0 where
  pub member : Memᴰ t l
  pub least : All (λ (u : Thread). t.last_active ≤ u.last_active) l

oldest_from-IsOldest : (t : Thread) (ts : List Thread) → IsOldest (t ∷ ts) (oldest_from t ts)
unfolding oldest_from
oldest_from-IsOldest t [] = record { member = Memᴰ.head refl; least = (omega arith, tt) }
oldest_from-IsOldest t (u ∷ us) = elim (Bool-cases (ltb u.last_active t.last_active)) [
  | inl earlier ↦
      let r = oldest_from-IsOldest u us in
      rw earlier
        (record { member = Memᴰ.tail r.member; least = (ground (arith, r.least.0), r.least) })
  | inr later ↦
      let r = oldest_from-IsOldest t us in
      rw later (record {
        member = insert_second r.member;
        least = (r.least.0, (ground (arith, r.least.0), r.least.1));
      })
]
  where
    insert_second : {v : Thread} → Memᴰ v (t ∷ us) → Memᴰ v (t ∷ u ∷ us)
    insert_second (Memᴰ.head e) = Memᴰ.head e
    insert_second (Memᴰ.tail m) = Memᴰ.tail (Memᴰ.tail m)

-- The threads whose tail is more than the gap before the candidate.
pub record IsStale (candidate_pos stale_gap_steps : ℕ) (t : Thread) : Type 0 where
  pub enabled : 0 < stale_gap_steps
  pub apart : t.tail_pos + stale_gap_steps < candidate_pos

-- The thread leaves for being stale: it stands in the pool, it is stale, and no stale thread of the
-- pool was active less recently. Or no thread is stale, and none of the pool was.
pub data IsEvicted (pool : List Thread) (candidate_pos stale_gap_steps : ℕ) (t : Thread)
    : Type 0 where
  stale :
      Memᴰ t pool
      → IsStale candidate_pos stale_gap_steps t
      → All
          (λ (u : Thread). IsStale candidate_pos stale_gap_steps u → t.last_active ≤ u.last_active)
          pool
      → IsEvicted pool candidate_pos stale_gap_steps t
  unused :
      IsOldest pool t
      → All (λ (u : Thread). ¬ IsStale candidate_pos stale_gap_steps u) pool
      → IsEvicted pool candidate_pos stale_gap_steps t

module _ (candidate_pos stale_gap_steps : ℕ) where
  abbrev stales : List Thread → List Thread
  stales l = stale_threads candidate_pos stale_gap_steps l

  stale_member :
      (l : List Thread) (t : Thread)
      → Memᴰ t (stales l)
      → Memᴰ t l × (is_stale candidate_pos stale_gap_steps t ≡ true)
  unfolding stale_threads
  stale_member [] t m = elim m [ ]
  stale_member (u ∷ us) t m = elim (Bool-cases (is_stale candidate_pos stale_gap_steps u)) [
    | inl behind ↦
        kept behind (λ k. stale_member us t k)
          (subst (λ (l : List Thread). Memᴰ t l) (rw behind refl) m)
    | inr near ↦
        let (k, s) = stale_member us t (subst (λ (l : List Thread). Memᴰ t l) (rw near refl) m) in
        (Memᴰ.tail k, s)
  ]
    where
      kept :
          is_stale candidate_pos stale_gap_steps u ≡ true
          → (Memᴰ t (stales us) → Memᴰ t us × (is_stale candidate_pos stale_gap_steps t ≡ true))
          → Memᴰ t (u ∷ stales us)
          → Memᴰ t (u ∷ us) × (is_stale candidate_pos stale_gap_steps t ≡ true)
      kept behind rest (Memᴰ.head e) =
          (Memᴰ.head e, ap (is_stale candidate_pos stale_gap_steps) e ∙ behind)
      kept behind rest (Memᴰ.tail k) = let (i, s) = rest k in (Memᴰ.tail i, s)

  IsStale-least :
      (l : List Thread) (n : ℕ)
      → All (λ (u : Thread). n ≤ u.last_active) (stales l)
      → All (λ (u : Thread). IsStale candidate_pos stale_gap_steps u → n ≤ u.last_active) l
  unfolding stale_threads
  IsStale-least [] n h = tt
  IsStale-least (u ∷ us) n h = elim (Bool-cases (is_stale candidate_pos stale_gap_steps u)) [
    | inl behind ↦ let k = rw behind at h in (λ s. k.0, IsStale-least us n k.1)
    | inr near ↦ (λ s. absurd (ground (arith, s.apart)), IsStale-least us n (rw near at h))
  ]

  none-IsStale :
      (l : List Thread)
      → stales l ≡ []
      → All (λ (u : Thread). ¬ IsStale candidate_pos stale_gap_steps u) l
  unfolding stale_threads
  none-IsStale [] h = tt
  none-IsStale (u ∷ us) h = elim (Bool-cases (is_stale candidate_pos stale_gap_steps u)) [
    | inl behind ↦ absurd (cc (rw behind at h))
    | inr near ↦ (λ s. ground (arith, s.apart), none-IsStale us (rw near at h))
  ]

  disabled :
      (l : List Thread)
      → stale_gap_steps ≡ 0
      → All (λ (u : Thread). ¬ IsStale candidate_pos stale_gap_steps u) l
  disabled [] h = tt
  disabled (u ∷ us) h = (λ s. omega (arith, s.enabled), disabled us h)

  abbrev pub Evicts : List Thread → Option Thread → Type 0
  Evicts pool none = pool ≡ []
  Evicts pool (some t) = IsEvicted pool candidate_pos stale_gap_steps t

  oldest_unused :
      (pool : List Thread)
      → All (λ (u : Thread). ¬ IsStale candidate_pos stale_gap_steps u) pool
      → Evicts pool (oldest pool)
  unfolding oldest
  oldest_unused [] h = refl
  oldest_unused (t ∷ ts) h = IsEvicted.unused (oldest_from-IsOldest t ts) h

  oldest_stale :
      (pool l : List Thread)
      → 0 < stale_gap_steps
      → stales pool ≡ l
      → Evicts pool (or_oldest l pool)
  unfolding oldest
  oldest_stale pool [] positive e = oldest_unused pool (none-IsStale pool e)
  oldest_stale pool (t ∷ ts) positive e =
      let o = oldest_from-IsOldest t ts in
      let (there, far) =
        stale_member pool (oldest_from t ts)
          (subst (λ (l : List Thread). Memᴰ (oldest_from t ts) l) (sym e) o.member) in
      IsEvicted.stale there (record { enabled = positive; apart = ground (arith, far) })
        (IsStale-least pool (oldest_from t ts).last_active (
          subst
            (λ (l : List Thread).
              All (λ (u : Thread). (oldest_from t ts).last_active ≤ u.last_active) l)
            (sym e) o.least))

  -- A pool with a thread loses one of its threads: where the gap is positive and a thread is further
  -- behind the candidate than it, the least recently active of these; otherwise the least recently
  -- active of all. An empty pool loses none.
  pub select_eviction-Evicts :
      (pool : List Thread) → Evicts pool (select_eviction pool candidate_pos stale_gap_steps)
  unfolding select_eviction
  select_eviction-Evicts pool = elim (Bool-cases (ltb 0 stale_gap_steps)) [
    | inl on ↦ rw on (oldest_stale pool (stales pool) (ground arith) refl)
    | inr off ↦ rw off (oldest_unused pool (disabled pool (ground arith)))
  ]
