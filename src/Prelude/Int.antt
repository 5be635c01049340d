-- ===== src/Prelude/Int.antt =====
-- Python's integers, over the native numbers. `negsuc n` is -(n + 1).
use Prim.Native.Nat.{ℕ, suc, ◌+◌, ◌-◌, ◌≤◌, ◌<◌}
use mathlib.Core.Path.{◌≡◌}
use mathlib.Core.Bool.{Bool, true, false}
use mathlib.Core.Logic.{◌↔◌}
use native.Mathlib.Omega.{arith}
use eth_project.Prelude.Tests.{ltb, leb, ◌==◌, if◌then◌else◌}

pub data ℤ : Type 0 where
  pos : ℕ → ℤ
  negsuc : ℕ → ℤ

abbrev pub pos_part : ℤ → ℕ
pos_part (pos n) = n
pos_part (negsuc n) = 0

abbrev pub neg_part : ℤ → ℕ
neg_part (pos n) = 0
neg_part (negsuc n) = suc n

-- a - b, as an integer.
abbrev pub sub_ℕ : ℕ → ℕ → ℤ
sub_ℕ a b = if leb b a then pos (a - b) else negsuc (b - a - 1)

infixl 65 ◌+ℤ◌ ◌-ℤ◌
unfoldable pub ◌+ℤ◌ : ℤ → ℤ → ℤ
a +ℤ b = sub_ℕ (pos_part a + pos_part b) (neg_part a + neg_part b)

unfoldable pub ◌-ℤ◌ : ℤ → ℤ → ℤ
a -ℤ b = sub_ℕ (pos_part a + neg_part b) (neg_part a + pos_part b)

infix 50 ◌≤ℤ◌ ◌<ℤ◌
abbrev pub ◌≤ℤ◌ : ℤ → ℤ → Type 0
a ≤ℤ b = pos_part a + neg_part b ≤ pos_part b + neg_part a

abbrev pub ◌<ℤ◌ : ℤ → ℤ → Type 0
a <ℤ b = pos_part a + neg_part b < pos_part b + neg_part a

abbrev pub leb_ℤ : ℤ → ℤ → Bool
leb_ℤ a b = leb (pos_part a + neg_part b) (pos_part b + neg_part a)

abbrev pub ltb_ℤ : ℤ → ℤ → Bool
ltb_ℤ a b = ltb (pos_part a + neg_part b) (pos_part b + neg_part a)

abbrev pub eqb_ℤ : ℤ → ℤ → Bool
eqb_ℤ (pos a) (pos b) = a == b
eqb_ℤ (pos a) (negsuc b) = false
eqb_ℤ (negsuc a) (pos b) = false
eqb_ℤ (negsuc a) (negsuc b) = a == b

pub eqb_ℤ_iff : (a b : ℤ) → (eqb_ℤ a b ≡ true) ↔ (a ≡ b)
eqb_ℤ_iff (pos a) (pos b) = ground arith
eqb_ℤ_iff (pos a) (negsuc b) = ground arith
eqb_ℤ_iff (negsuc a) (pos b) = ground arith
eqb_ℤ_iff (negsuc a) (negsuc b) = ground arith
