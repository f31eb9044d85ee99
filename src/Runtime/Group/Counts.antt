-- ===== src/Runtime/Group/Counts.antt =====
-- Counting tasks by their phase, across a change of one task, a submission and a drop.
use label_kit.Prelude.{
  ℕ, zero, suc, ◌+◌, ◌≤◌, ◌≡◌, subst, refl, Bool, true, false, ◌&&◌, Option, none, some, List, [],
  ◌∷◌, ◌++◌, map, arith, get_elem?, set, length, Equality, nat_beq, if◌then◌else◌,
}
use label_kit.Runtime.Group.{Leaf, pending, count, bump, is_pending, fresh_leaves, drop_leaf}

abbrev pub one : Bool → ℕ
one b = bump b 0

pub unwrap {ℓ} : {A : Type ℓ} {x y : A} → some x ≡ some y → x ≡ y
unwrap h = cc

-- A test that succeeds with a guard has passed the guard.
pub guarded {ℓ} :
    {A : Type ℓ} (b : Bool) {x y : A} → (if b then some x else none) ≡ some y → (b ≡ true) × (x ≡ y)
guarded true h = (refl, cc)
guarded false h = absurd (cc)

pub guarded_or {ℓ κ} :
    {A : Type ℓ} (P : A → Type κ) (b c : Bool) {x y z : A}
    → (b ≡ true → P x)
    → (c ≡ true → P y)
    → (if b then some x else if c then some y else none) ≡ some z
    → P z
guarded_or P true c px py h = subst P (unwrap h) (px refl)
guarded_or P false true px py h = subst P (unwrap h) (py refl)
guarded_or P false false px py h = absurd (cc)

-- A chain of two fallible steps that succeeds.
pub chained {ℓ κ} :
    {A B : Type ℓ} (P : B → Type κ) (o : Option A) (f : A → Option B) {z : B}
    → ((a : A) → o ≡ some a → f a ≡ some z → P z)
    → elim o [ none ↦ none | some a ↦ f a ] ≡ some z
    → P z
chained P none f keep h = absurd (cc)
chained P (some a) f keep h = keep a refl h

module _ {K T E : Type 0} ⦃e : Equality K⦄ (p : Leaf K T E → Bool) where
  pub count-set :
      (ls : List (Leaf K T E)) (i : ℕ) (old new : Leaf K T E)
      → get_elem? ls i ≡ some old
      → count p (set ls i new) + one (p old) ≡ count p ls + one (p new)
  unfolding count
  count-set [] i old new h = absurd (cc)
  count-set (l ∷ ls) zero old new h = ground arith
  count-set (l ∷ ls) (suc i) old new h = let r = count-set ls i old new h in ground (arith, r)

  pub count-append : (ls ms : List (Leaf K T E)) → count p (ls ++ ms) ≡ count p ls + count p ms
  unfolding count
  count-append [] ms = omega arith
  count-append (l ∷ ls) ms = let r = count-append ls ms in ground (arith, r)

  pub count_pos :
      (ls : List (Leaf K T E)) (i : ℕ) (l : Leaf K T E)
      → get_elem? ls i ≡ some l
      → p l ≡ true
      → 1 ≤ count p ls
  unfolding count
  count_pos [] i l h t = absurd (cc)
  count_pos (x ∷ ls) zero l h t = ground arith
  count_pos (x ∷ ls) (suc i) l h t = let r = count_pos ls i l h t in ground (arith, r)

  -- A test that fails on waiting tasks and on dropped ones does not see the drop.
  pub count-drop :
      (g : ℕ) (ls : List (Leaf K T E))
      → ((l : Leaf K T E) → p (drop_leaf g l) ≡ p l)
      → count p (map (drop_leaf g) ls) ≡ count p ls
  unfolding count
  count-drop g [] h = refl
  count-drop g (l ∷ ls) h = let r = count-drop g ls h in ground (arith, r, h l)

  pub count-fresh :
      (g : ℕ) (ks : List K) (b : Bool)
      → ((k : K) → p (record { group = g; resource_key = k; phase = pending }) ≡ b)
      → count p (fresh_leaves g ks) ≡ (if b then length ks else 0)
  unfolding count
  count-fresh g [] b h = ground arith
  count-fresh g (k ∷ ks) b h = let r = count-fresh g ks b h in ground (arith, r, h k)

module _ {K T E : Type 0} ⦃e : Equality K⦄ where
  pub count-pending_drop :
      (g : ℕ) (ls : List (Leaf K T E))
      → count (λ l. is_pending l.phase) (map (drop_leaf g) ls)
          + count (λ l. nat_beq l.group g && is_pending l.phase) ls
        ≡ count (λ l. is_pending l.phase) ls
  unfolding count
  count-pending_drop g [] = omega arith
  count-pending_drop g (l ∷ ls) = let r = count-pending_drop g ls in ground (arith, r)
