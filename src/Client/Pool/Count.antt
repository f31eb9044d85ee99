-- ===== src/Client/Pool/Count.antt =====
-- llm_client.py, _KeyPool: the number of keys that are not disabled, as the steps of a call change it.
use label_kit.Prelude.{
  ℕ, zero, suc, ◌+◌, ◌≤◌, ◌<◌, ◌≡◌, refl, true, false, none, some, List, [], ◌∷◌, arith, get_elem?,
  length, is_nil, nat_beq, nat_beq_iff, if◌then◌else◌, Bool-cases, inl, inr, All, subst, ap, String,
}
use label_kit.Client.Pool.{
  KeyState, live, select, is_eligible, min_cooldown, earliest_wake, update_key, key_at, new_pool,
}
use label_kit.Client.Pool.Select.{IsSelection, select-IsSelection, IsChosen}

abbrev pub live_bit : KeyState → ℕ
live_bit s = if s.disabled then 0 else 1

unfoldable pub live_count : List KeyState → ℕ
live_count [] = 0
live_count (s ∷ states) = live_bit s + live_count states

-- Without the keys of an index.
unfoldable pub live_except : ℕ → List KeyState → ℕ
live_except i [] = 0
live_except i (s ∷ states) = (if nat_beq s.index i then 0 else live_bit s) + live_except i states

-- The keys are counted from `n`.
abbrev pub IsNumbered : ℕ → List KeyState → Type 0
IsNumbered n [] = Unit {0}
IsNumbered n (s ∷ states) = (s.index ≡ n) × IsNumbered (suc n) states

-- A change of a key that leaves its index and `disabled`.
pub record Keeps (f : KeyState → KeyState) : Type 0 where
  pub index : (s : KeyState) → (f s).index ≡ s.index
  pub disabled : (s : KeyState) → (f s).disabled ≡ s.disabled

pub update_key-IsNumbered :
    (i : ℕ) (f : KeyState → KeyState) (n : ℕ) (states : List KeyState)
    → ((s : KeyState) → (f s).index ≡ s.index)
    → IsNumbered n states
    → IsNumbered n (update_key i f states)
unfolding update_key
update_key-IsNumbered i f n [] k h = tt
update_key-IsNumbered i f n (s ∷ states) k h =
    (ground (arith, k s, h.0), update_key-IsNumbered i f (suc n) states k h.1)

pub live_count-update_key :
    (i : ℕ) (f : KeyState → KeyState) (states : List KeyState)
    → Keeps f
    → live_count (update_key i f states) ≡ live_count states
unfolding update_key live_count
live_count-update_key i f [] k = refl
live_count-update_key i f (s ∷ states) k =
    ground (arith, k.disabled s, live_count-update_key i f states k)

pub live_except-update_key :
    (j i : ℕ) (f : KeyState → KeyState) (states : List KeyState)
    → Keeps f
    → live_except j (update_key i f states) ≡ live_except j states
unfolding update_key live_except
live_except-update_key j i f [] k = refl
live_except-update_key j i f (s ∷ states) k =
    ground (arith, k.disabled s, k.index s, live_except-update_key j i f states k)

abbrev pub disabled_key : KeyState → KeyState
disabled_key s = record s { disabled = true }

pub live_count-disable :
    (i : ℕ) (states : List KeyState)
    → live_count (update_key i disabled_key states) ≡ live_except i states
unfolding update_key live_count live_except
live_count-disable i [] = refl
live_count-disable i (s ∷ states) = ground (arith, live_count-disable i states)

pub live_except-disable :
    (j i : ℕ) (states : List KeyState)
    → live_except j (update_key i disabled_key states) ≤ live_except j states
unfolding update_key live_except
live_except-disable j i [] = omega arith
live_except-disable j i (s ∷ states) = ground (arith, live_except-disable j i states)

pub live_except-le : (i : ℕ) (states : List KeyState) → live_except i states ≤ live_count states
unfolding live_count live_except
live_except-le i [] = omega arith
live_except-le i (s ∷ states) = ground (arith, live_except-le i states)

live_except-above :
    (i n : ℕ) (states : List KeyState)
    → i < n
    → IsNumbered n states
    → live_except i states ≡ live_count states
unfolding live_count live_except
live_except-above i n [] h k = refl
live_except-above i n (s ∷ states) h k =
    ground (arith, k.0, live_except-above i (suc n) states (omega arith) k.1)

-- Where the key of an index is disabled, it is not counted.
pub live_count-key_at :
    (i n : ℕ) (states : List KeyState) (s : KeyState)
    → IsNumbered n states
    → key_at i states ≡ some s
    → s.disabled ≡ true
    → live_count states ≡ live_except i states
unfolding live_count live_except key_at
live_count-key_at i n [] s h e d = refl
live_count-key_at i n (t ∷ states) s h e d = elim (Bool-cases (nat_beq t.index i)) [
  | inl same ↦
      let here : t ≡ s = ground (arith, rw same at e) in
      ground (
        arith,
        same,
        here,
        h.0,
        live_except-above i (suc n) states (omega (arith, (nat_beq_iff t.index i).0 same)) h.1,
      )
  | inr other ↦ ground (arith, other, live_count-key_at i (suc n) states s h.1 (rw other at e) d)
]

Has-live :
    (k : KeyState) (states : List KeyState) (i : ℕ)
    → get_elem? states i ≡ some k
    → k.disabled ≡ false
    → live_except k.index states + 1 ≤ live_count states
unfolding live_count live_except
Has-live k [] i e d = cc
Has-live k (s ∷ states) zero e d =
    ground (arith, e, (nat_beq_iff k.index k.index).1 refl, live_except-le k.index states)
Has-live k (s ∷ states) (suc i) e d = ground (arith, Has-live k states i e d)

pub select-live :
    (now : ℕ) (states : List KeyState) (k : KeyState)
    → select now states ≡ some k
    → live_except k.index states + 1 ≤ live_count states
select-live now states k e =
    let h : IsChosen now states k =
      subst (IsSelection now states) e (select-IsSelection now states) in
    Has-live k states h.there.place h.there.at (ground (arith, h.is_free))

abbrev AllCooling : ℕ → List KeyState → Type 0
AllCooling now states = All (λ s. now < s.cooldown_until) states

live-AllCooling :
    (now : ℕ) (states : List KeyState)
    → All (λ s. is_eligible now s ≡ false) states
    → AllCooling now (live states)
unfolding live
live-AllCooling now [] h = tt
live-AllCooling now (s ∷ states) h = elim (Bool-cases s.disabled) [
  | inl off ↦ rw off (live-AllCooling now states h.1)
  | inr on ↦ rw on (ground (arith, h.0, on), live-AllCooling now states h.1)
]

min_cooldown-lt :
    (now : ℕ) (s : KeyState) (states : List KeyState)
    → AllCooling now (s ∷ states)
    → now < min_cooldown s states
unfolding min_cooldown
min_cooldown-lt now s [] h = h.0
min_cooldown-lt now s (t ∷ states) h = omega (arith, h.0, min_cooldown-lt now t states h.1)

wait_pos :
    (now : ℕ) (states ks : List KeyState)
    → live states ≡ ks
    → AllCooling now ks
    → is_nil ks ≡ false
    → 0 < earliest_wake now states
unfolding earliest_wake
wait_pos now states [] e h n = cc
wait_pos now states (k ∷ ks) e h n = rw e (omega (arith, min_cooldown-lt now k ks h))

-- Where no key can be selected and one is not disabled, there is a time to wait for.
pub earliest_wake-pos :
    (now : ℕ) (states : List KeyState)
    → select now states ≡ none
    → is_nil (live states) ≡ false
    → 0 < earliest_wake now states
earliest_wake-pos now states e n =
    let none_free = subst (IsSelection now states) e (select-IsSelection now states) in
    wait_pos now states (live states) refl (live-AllCooling now states none_free) n

pub live_count-length : (states : List KeyState) → live_count states ≤ length states
unfolding live_count
live_count-length [] = omega arith
live_count-length (s ∷ states) = ground (arith, live_count-length states)

pub new_pool-IsNumbered : (n : ℕ) (envs : List String) → IsNumbered n (new_pool n envs)
unfolding new_pool
new_pool-IsNumbered n [] = tt
new_pool-IsNumbered n (env ∷ envs) = (refl, new_pool-IsNumbered (suc n) envs)

pub length-new_pool : (n : ℕ) (envs : List String) → length (new_pool n envs) ≡ length envs
unfolding new_pool
length-new_pool n [] = refl
length-new_pool n (env ∷ envs) = ap suc (length-new_pool (suc n) envs)
