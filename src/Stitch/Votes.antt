-- ===== src/Stitch/Votes.antt =====
-- stitch.py, aggregate_votes: a specification of the verdict.
use label_kit.Prelude.{
  ℕ, ◌+◌, ◌*◌, ◌≤◌, ◌<◌, ◌≡◌, refl, sym, ◌∙◌, ap, inl, inr, Bool, true, false, Option, none, some,
  List, [], ◌∷◌, arith, ltb, if◌then◌else◌, Bool-cases, Option-cases, ◌==◌, ==_refl, All,
}
use mathlib.Core.List.{Memᴰ}
use label_kit.Prelude.Dict.{
  put_missing, set_default, Dict, get, put, get-put, or_default, IsDistinct, put-IsDistinct,
}
use label_kit.Stitch.{
  Sample, VoteKey, vote_key_eq, vote_key, count_votes, first_votes, max_from, winner,
  aggregate_votes,
}

module _ {R : Type 0} where
  -- How many samples vote for a key, and the first that does.
  unfoldable pub votes : VoteKey → List (Sample R) → ℕ
  votes k [] = 0
  votes k (s ∷ ss) = if vote_key s == k then votes k ss + 1 else votes k ss

  unfoldable pub first_vote : VoteKey → List (Sample R) → Option (Sample R)
  first_vote k [] = none
  first_vote k (s ∷ ss) = if vote_key s == k then some s else first_vote k ss

  get-count_votes :
      (k : VoteKey) (counts : Dict VoteKey ℕ) (ss : List (Sample R))
      → or_default (get (count_votes counts ss) k) 0 ≡ or_default (get counts k) 0 + votes k ss
  unfolding count_votes votes
  get-count_votes k counts [] = omega arith
  get-count_votes k counts (s ∷ ss) =
      let n = or_default (get counts (vote_key s)) 0 + 1 in
      let rest = get-count_votes k (put counts (vote_key s) n) ss in
      let new = get-put counts (vote_key s) k n in
      elim (Bool-cases (vote_key s == k)) [
        | inl same ↦
            let e : vote_key s ≡ k = (vote_key_eq.test_iff (vote_key s) k).0 same in
            rw (rest, new, same, e) (omega arith)
        | inr other ↦ rw (rest, new, other) refl
      ]

  abbrev or_else : Option (Sample R) → Option (Sample R) → Option (Sample R)
  or_else none o = o
  or_else (some s) o = some s

  or_none : (o : Option (Sample R)) → or_else o none ≡ o
  or_none none = refl
  or_none (some s) = refl

  get-set_default :
      (k : VoteKey) (first : Dict VoteKey (Sample R)) (j : VoteKey) (s : Sample R)
      → get (set_default first j s) k ≡ or_else (get first k) (if j == k then some s else none)
  get-set_default k first j s = go (get first j) refl
    where
      go :
          (o : Option (Sample R))
          → get first j ≡ o
          → get (put_missing o first j s) k
            ≡ or_else (get first k) (if j == k then some s else none)
      go o e = elim (Bool-cases (j == k)) [
        | inl same ↦
            let p : j ≡ k = (vote_key_eq.test_iff j k).0 same in
            present o (ap (get first) (sym p) ∙ e) p
        | inr other ↦ rw other (absent o other)
      ]
        where
          present :
              (o : Option (Sample R))
              → get first k ≡ o
              → j ≡ k
              → get (put_missing o first j s) k
                ≡ or_else (get first k) (if j == k then some s else none)
          present none f p = rw (get-put first j k s, f) refl
          present (some t) f p = rw f refl

          absent :
              (o : Option (Sample R))
              → (j == k) ≡ false
              → get (put_missing o first j s) k ≡ or_else (get first k) none
          absent none other = rw (get-put first j k s, other) (sym (or_none (get first k)))
          absent (some t) other = sym (or_none (get first k))

  or_assoc :
      (o : Option (Sample R)) (b : Bool) (s : Sample R) (later : Option (Sample R))
      → or_else (or_else o (if b then some s else none)) later
        ≡ or_else o (if b then some s else later)
  or_assoc none true s later = refl
  or_assoc none false s later = refl
  or_assoc (some t) b s later = refl

  get-first_votes :
      (k : VoteKey) (first : Dict VoteKey (Sample R)) (ss : List (Sample R))
      → get (first_votes first ss) k ≡ or_else (get first k) (first_vote k ss)
  unfolding first_votes first_vote
  get-first_votes k first [] = elim (Option-cases (get first k)) [
    | inl e ↦ rw e refl
    | inr (t, e) ↦ rw e refl
  ]
  get-first_votes k first (s ∷ ss) =
      rw
        (
          get-first_votes k (set_default first (vote_key s) s) ss,
          get-set_default k first (vote_key s) s,
        )
        (or_assoc (get first k) (vote_key s == k) s (first_vote k ss))

  count_votes-IsDistinct :
      (counts : Dict VoteKey ℕ) (ss : List (Sample R))
      → IsDistinct counts
      → IsDistinct (count_votes counts ss)
  unfolding count_votes
  count_votes-IsDistinct counts [] h = h
  count_votes-IsDistinct counts (s ∷ ss) h =
      let n = or_default (get counts (vote_key s)) 0 + 1 in
      count_votes-IsDistinct (put counts (vote_key s) n) ss (put-IsDistinct counts (vote_key s) n h)

-- The entry with the largest count.
record IsTop (d : Dict VoteKey ℕ) (best : VoteKey × ℕ) : Type 0 where
  member : Memᴰ best d
  largest : All (λ c. c.1 ≤ best.1) d

max_from-IsTop : (c : VoteKey × ℕ) (d : Dict VoteKey ℕ) → IsTop (c ∷ d) (max_from c d)
unfolding max_from
max_from-IsTop c [] = record { member = Memᴰ.head refl; largest = (omega arith, tt) }
max_from-IsTop c (x ∷ rest) = elim (Bool-cases (ltb c.1 x.1)) [
  | inl more ↦
      let r = max_from-IsTop x rest in
      rw more
        (record { member = Memᴰ.tail r.member; largest = (ground (arith, r.largest.0), r.largest) })
  | inr less ↦
      let r = max_from-IsTop c rest in
      rw less (record {
        member = insert_second r.member;
        largest = (r.largest.0, (ground (arith, r.largest.0), r.largest.1));
      })
]
  where
    insert_second : {b : VoteKey × ℕ} → Memᴰ b (c ∷ rest) → Memᴰ b (c ∷ x ∷ rest)
    insert_second (Memᴰ.head e) = Memᴰ.head e
    insert_second (Memᴰ.tail m) = Memᴰ.tail (Memᴰ.tail m)

get-member : (d : Dict VoteKey ℕ) (c : VoteKey × ℕ) → IsDistinct d → Memᴰ c d → get d c.0 ≡ some c.1
unfolding get
get-member [] c h m = elim m [ ]
get-member ((k, n) ∷ d) c h (Memᴰ.head e) = rw (e, ==_refl k) refl
get-member ((k, n) ∷ d) c h (Memᴰ.tail m) = elim (Bool-cases (k == c.0)) [
  | inl same ↦
      let p : k ≡ c.0 = (vote_key_eq.test_iff k c.0).0 same in
      absurd (cc (h.0, p, get-member d c h.1 m))
  | inr other ↦ rw other (get-member d c h.1 m)
]

get_bound :
    (d : Dict VoteKey ℕ) (b : ℕ) (k : VoteKey) → All (λ c. c.1 ≤ b) d → or_default (get d k) 0 ≤ b
unfolding get
get_bound [] b k h = omega arith
get_bound ((j, n) ∷ d) b k h = elim (Bool-cases (j == k)) [
  | inl same ↦ rw same h.0
  | inr other ↦ rw other (get_bound d b k h.1)
]

module _ {R : Type 0} where
  first_vote-key :
      (k : VoteKey) (ss : List (Sample R)) (s : Sample R)
      → first_vote k ss ≡ some s
      → vote_key s ≡ k
  unfolding first_vote
  first_vote-key k [] s h = absurd (cc h)
  first_vote-key k (t ∷ ss) s h = elim (Bool-cases (vote_key t == k)) [
    | inl same ↦
        let e : some t ≡ some s = rw same at h in
        let p : vote_key t ≡ k = (vote_key_eq.test_iff (vote_key t) k).0 same in cc (e, p)
    | inr other ↦ first_vote-key k ss s (rw other at h)
  ]

  first_vote_there :
      (k : VoteKey) (ss : List (Sample R))
      → 0 < votes k ss
      → (s : Sample R) × (first_vote k ss ≡ some s)
  unfolding first_vote votes
  first_vote_there k [] h = absurd (omega arith)
  first_vote_there k (t ∷ ss) h = elim (Bool-cases (vote_key t == k)) [
    | inl same ↦ (t, rw same refl)
    | inr other ↦ rw other (first_vote_there k ss (rw other at h))
  ]

  -- The sample is the first of its key, which has more than half of all votes; or no key has.
  pub data IsVerdict (samples : List (Sample R)) (total_votes : ℕ)
      : Option (Sample R) → Type 0 where
    majority :
        {s : Sample R}
        → total_votes < 2 * votes (vote_key s) samples
        → first_vote (vote_key s) samples ≡ some s
        → IsVerdict samples total_votes (some s)
    split : ((k : VoteKey) → 2 * votes k samples ≤ total_votes) → IsVerdict samples total_votes none

  winner-IsVerdict :
      (samples : List (Sample R)) (total_votes : ℕ) (counts : Dict VoteKey ℕ)
      (first : Dict VoteKey (Sample R))
      → IsDistinct counts
      → ((k : VoteKey) → or_default (get counts k) 0 ≡ votes k samples)
      → ((k : VoteKey) → get first k ≡ first_vote k samples)
      → IsVerdict samples total_votes (winner counts first total_votes)
  unfolding winner
  winner-IsVerdict samples total [] first distinct tally firsts =
      split (λ k. let n = tally k in unfold get in omega (arith, tally k))
  winner-IsVerdict samples total (c ∷ cs) first distinct tally firsts =
      let best = max_from c cs in
      let top = max_from-IsTop c cs in
      let n : votes best.0 samples ≡ best.1 =
        sym (tally best.0)
        ∙ ap (λ o. or_default o 0) (get-member (c ∷ cs) best distinct top.member) in
      elim (Bool-cases (ltb total (best.1 * 2))) [
        | inl more ↦
            let (s, e) = first_vote_there best.0 samples (ground (arith, n)) in
            let p = first_vote-key best.0 samples s e in
            rw (more, firsts best.0, e) (majority (rw p (ground (arith, n))) (rw p e))
        | inr less ↦
            rw less (split (λ k. ground (arith, tally k, get_bound (c ∷ cs) best.1 k top.largest)))
      ]

  -- `aggregate_votes` returns the first sample of the key that more than half of all votes have, and
  -- nothing if no key has as many.
  pub aggregate_votes-IsVerdict :
      (samples : List (Sample R)) (total_votes : ℕ)
      → IsVerdict samples total_votes (aggregate_votes samples total_votes)
  unfolding aggregate_votes
  aggregate_votes-IsVerdict samples total_votes =
      winner-IsVerdict samples total_votes (count_votes [] samples) (first_votes [] samples)
        (count_votes-IsDistinct [] samples tt)
        (λ k. unfold get in omega (arith, get-count_votes k [] samples))
        (λ k. get-first_votes k [] samples ∙ unfold get in refl)
