-- ===== src/Prelude/Int.antt =====
-- Python's int where a value may be negative: the source's budgets are differences.
use Prim.Native.Nat.{ℕ, suc, ◌+◌, ◌-◌, ◌≤◌}
use mathlib.Core.Path.{◌≡◌}
use mathlib.Core.Logic.{◌↔◌}
use mathlib.Core.Bool.{Bool, true}
use native.Mathlib.Omega.{arith}
use label_kit.Prelude.Tests.{leb, if◌then◌else◌}

-- `negsuc n` is -(n + 1).
pub data ℤ : Type 0 where
  pos : ℕ → ℤ
  negsuc : ℕ → ℤ

abbrev pub pos_part : ℤ → ℕ
pos_part (pos n) = n
pos_part (negsuc n) = 0

abbrev pub neg_part : ℤ → ℕ
neg_part (pos n) = 0
neg_part (negsuc n) = suc n

-- a - b, as an integer.
abbrev pub sub_ℕ : ℕ → ℕ → ℤ
sub_ℕ a b = if leb b a then pos (a - b) else negsuc (b - a - 1)

infix 50 ◌≤ℤ◌
abbrev pub ◌≤ℤ◌ : ℤ → ℤ → Type 0
a ≤ℤ b = pos_part a + neg_part b ≤ pos_part b + neg_part a

abbrev pub leb_ℤ : ℤ → ℤ → Bool
leb_ℤ a b = leb (pos_part a + neg_part b) (pos_part b + neg_part a)

-- The test `n <= b` of a count against an integer.
abbrev pub fits : ℕ → ℤ → Bool
fits n b = leb (n + neg_part b) (pos_part b)

pub fits_iff : (n : ℕ) (b : ℤ) → (fits n b ≡ true) ↔ (pos n ≤ℤ b)
fits_iff n b = ground arith

pub fits_mono : (m n : ℕ) (b : ℤ) → m ≤ n → fits n b ≡ true → fits m b ≡ true
fits_mono m n b h k = ground arith
