-- ===== src/Client/Pool/Select.antt =====
-- llm_client.py, _KeyPool.select: which key a request is sent with.
use label_kit.Prelude.{
  ℕ, zero, suc, ◌≡◌, refl, true, false, Option, none, some, List, [], ◌∷◌, arith, get_elem?, All,
  if◌then◌else◌, Bool-cases, inl, inr,
}
use label_kit.Client.Pool.{KeyState, eligible, is_eligible, key_lt, least, select_from, select}

pub record Has (k : KeyState) (states : List KeyState) : Type 0 where
  pub place : ℕ
  pub at : get_elem? states place ≡ some k

-- The key is in the pool, not disabled and past its cooldown, and no other such key has fewer
-- requests in flight, or as few and an earlier place in the declaration.
pub record IsChosen (now : ℕ) (states : List KeyState) (k : KeyState) : Type 0 where
  pub there : Has k states
  pub is_free : is_eligible now k ≡ true
  pub is_least : All (λ s. is_eligible now s ≡ true → key_lt s k ≡ false) states

abbrev pub IsSelection : ℕ → List KeyState → Option KeyState → Type 0
IsSelection now states none = All (λ s. is_eligible now s ≡ false) states
IsSelection now states (some k) = IsChosen now states k

abbrev NoneBefore : KeyState → List KeyState → Type 0
NoneBefore k states = All (λ s. key_lt s k ≡ false) states

key_lt_trans : (s t u : KeyState) → key_lt s t ≡ false → key_lt u t ≡ true → key_lt s u ≡ false
key_lt_trans s t u h k = ground arith

key_lt_trans_false :
    (s t u : KeyState) → key_lt s t ≡ false → key_lt t u ≡ false → key_lt s u ≡ false
key_lt_trans_false s t u h k = ground arith

key_lt_refl : (s : KeyState) → key_lt s s ≡ false
key_lt_refl s = ground arith

least-bound :
    (s : KeyState) (ts : List KeyState) (u : KeyState)
    → key_lt u s ≡ false
    → key_lt u (least s ts) ≡ false
unfolding least
least-bound s [] u h = h
least-bound s (t ∷ ts) u h = elim (Bool-cases (key_lt t s)) [
  | inl e ↦ rw (e, least) (least-bound t ts u (key_lt_trans u s t h e))
  | inr e ↦ rw (e, least) (least-bound s ts u h)
]

pick_bound : (s t : KeyState) → key_lt t (if key_lt t s then t else s) ≡ false
pick_bound s t = ground arith

least-NoneBefore : (s : KeyState) (ts : List KeyState) → NoneBefore (least s ts) ts
unfolding least
least-NoneBefore s [] = tt
least-NoneBefore s (t ∷ ts) =
    let m = if key_lt t s then t else s in
    (least-bound m ts t (pick_bound s t), least-NoneBefore m ts)

Has-cons : (s k : KeyState) (ts : List KeyState) → Has k ts → Has k (s ∷ ts)
Has-cons s k ts h = record { place = suc h.place; at = h.at }

Has-swap : (s t k : KeyState) (ts : List KeyState) → Has k (s ∷ ts) → Has k (s ∷ t ∷ ts)
Has-swap s t k ts h = swap h.place h.at
  where
    swap : (i : ℕ) → get_elem? (s ∷ ts) i ≡ some k → Has k (s ∷ t ∷ ts)
    swap zero e = record { place = 0; at = e }
    swap (suc i) e = record { place = suc (suc i); at = e }

least-Has : (s : KeyState) (ts : List KeyState) → Has (least s ts) (s ∷ ts)
unfolding least
least-Has s [] = record { place = 0; at = refl }
least-Has s (t ∷ ts) = elim (Bool-cases (key_lt t s)) [
  | inl e ↦ rw (e, least) (Has-cons s (least t ts) (t ∷ ts) (least-Has t ts))
  | inr e ↦ rw (e, least) (Has-swap s t (least s ts) ts (least-Has s ts))
]

eligible-Has :
    (now : ℕ) (states : List KeyState) (k : KeyState) (i : ℕ)
    → get_elem? (eligible now states) i ≡ some k
    → Has k states × (is_eligible now k ≡ true)
unfolding eligible
eligible-Has now [] k i e = cc
eligible-Has now (s ∷ states) k i e = elim (Bool-cases (is_eligible now s)) [
  | inl free ↦ at_head (eligible-Has now states k) i free (rw free at e)
  | inr off ↦
      let rest = eligible-Has now states k i (rw off at e) in (Has-cons s k states rest.0, rest.1)
]
  where
    at_head :
        ((j : ℕ)
          → get_elem? (eligible now states) j ≡ some k
          → Has k states × (is_eligible now k ≡ true))
        → (i : ℕ) → is_eligible now s ≡ true
        → get_elem? (s ∷ eligible now states) i ≡ some k
        → Has k (s ∷ states) × (is_eligible now k ≡ true)
    at_head tail zero free e = (record { place = 0; at = e }, ground arith)
    at_head tail (suc i) free e = let rest = tail i e in (Has-cons s k states rest.0, rest.1)

eligible-All :
    (now : ℕ) (states : List KeyState) (k : KeyState)
    → NoneBefore k (eligible now states)
    → All (λ s. is_eligible now s ≡ true → key_lt s k ≡ false) states
unfolding eligible
eligible-All now [] k h = tt
eligible-All now (s ∷ states) k h = elim (Bool-cases (is_eligible now s)) [
  | inl free ↦ let h' = rw free at h in (λ _. h'.0, eligible-All now states k h'.1)
  | inr off ↦ (λ free. cc, eligible-All now states k (rw off at h))
]

eligible-nil :
    (now : ℕ) (states : List KeyState)
    → eligible now states ≡ []
    → All (λ s. is_eligible now s ≡ false) states
unfolding eligible
eligible-nil now [] h = tt
eligible-nil now (s ∷ states) h = elim (Bool-cases (is_eligible now s)) [
  | inl free ↦ let h' = rw free at h in cc
  | inr off ↦ (off, eligible-nil now states (rw off at h))
]

-- The key that is selected is in the pool, is not disabled and its cooldown is over, and no other
-- such key has fewer requests in flight, or as few and an earlier place; no key is selected only if
-- every key is disabled or cooling down.
pub select-IsSelection :
    (now : ℕ) (states : List KeyState) → IsSelection now states (select now states)
unfolding select
select-IsSelection now states = of_eligible (eligible now states) refl
  where
    of_eligible :
        (ks : List KeyState) → eligible now states ≡ ks → IsSelection now states (select_from ks)
    of_eligible [] e = unfold select_from in eligible-nil now states e
    of_eligible (k ∷ ks) e =
        let found = least-Has k ks in
        let back = eligible-Has now states (least k ks) found.place (rw e found.at) in
        let bound : NoneBefore (least k ks) (k ∷ ks) =
          (least-bound k ks k (key_lt_refl k), least-NoneBefore k ks) in
        unfold select_from in
        record {
          there = back.0;
          is_free = back.1;
          is_least = eligible-All now states (least k ks) (rw e bound);
        }
