-- ===== src/Common/Int.antt =====
-- Signed integers over the native numbers: the differences that the slot table reports.
use Prim.Native.Nat.{ℕ, suc, ◌+◌, ◌-◌, ◌≤◌}
use mathlib.Core.Path.{◌≡◌, refl}
use mathlib.Core.Bool.{Bool}
use native.Mathlib.Omega.{arith}
use booking_api_service.Common.Tests.{ltb, leb, if◌then◌else◌}

-- `negsuc n` is -(n + 1).
pub data ℤ : Type 0 where
  pos : ℕ → ℤ
  negsuc : ℕ → ℤ

abbrev pub pos_part : ℤ → ℕ
pos_part (pos n) = n
pos_part (negsuc n) = 0

abbrev pub neg_part : ℤ → ℕ
neg_part (pos n) = 0
neg_part (negsuc n) = suc n

-- a - b, as an integer.
abbrev pub sub_ℕ : ℕ → ℕ → ℤ
sub_ℕ a b = if leb b a then pos (a - b) else negsuc (b - a - 1)

infixl 65 ◌+ℤ◌
infix 50 ◌≤ℤ◌
unfoldable pub ◌+ℤ◌ : ℤ → ℤ → ℤ
a +ℤ b = sub_ℕ (pos_part a + pos_part b) (neg_part a + neg_part b)

abbrev pub ◌≤ℤ◌ : ℤ → ℤ → Type 0
a ≤ℤ b = pos_part a + neg_part b ≤ pos_part b + neg_part a

abbrev pub ltb_ℤ : ℤ → ℤ → Bool
ltb_ℤ a b = ltb (pos_part a + neg_part b) (pos_part b + neg_part a)

pub sub_ℕ-+ℤ : (a b : ℕ) → sub_ℕ a b +ℤ pos b ≡ pos a
unfolding ◌+ℤ◌
sub_ℕ-+ℤ a b = ground arith

-- A difference of numbers of which the second is no larger is a number.
pub pos_of_sum :
    (z : ℤ) (b t : ℕ) → z +ℤ pos b ≡ pos t → b ≤ t → (n : ℕ) × (z ≡ pos n) × (n + b ≡ t)
unfolding ◌+ℤ◌
pos_of_sum (pos n) b t e h = (n, refl, ground arith)
pos_of_sum (negsuc n) b t e h = absurd (ground arith)
