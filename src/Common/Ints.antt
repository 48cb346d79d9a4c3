-- ===== src/Common/Ints.antt =====
-- Signed numbers over the native numbers, each read as a difference of two of them.
use Prim.Native.Nat.{ℕ, suc, ◌+◌, ◌-◌, ◌≤◌}
use mathlib.Core.Path.{◌≡◌}
use mathlib.Core.Bool.{Bool}
use native.Mathlib.Omega.{arith}
use rmqtt.Common.Tests.{if◌then◌else◌, leb}

-- `negsuc n` is -(n + 1).
pub data ℤ : Type 0 where
  pos : ℕ → ℤ
  negsuc : ℕ → ℤ

abbrev pub above : ℤ → ℕ
above (pos n) = n
above (negsuc n) = 0

abbrev pub under : ℤ → ℕ
under (pos n) = 0
under (negsuc n) = suc n

abbrev pub difference : ℕ → ℕ → ℤ
difference a b = if leb b a then pos (a - b) else negsuc (b - a - 1)

infixl 65 ◌+ℤ◌ ◌-ℤ◌
infix 50 ◌≤ℤ◌
unfoldable pub ◌+ℤ◌ : ℤ → ℤ → ℤ
a +ℤ b = difference (above a + above b) (under a + under b)

unfoldable pub ◌-ℤ◌ : ℤ → ℤ → ℤ
a -ℤ b = difference (above a + under b) (under a + above b)

abbrev pub ◌≤ℤ◌ : ℤ → ℤ → Type 0
a ≤ℤ b = above a + under b ≤ above b + under a

abbrev pub leb_ℤ : ℤ → ℤ → Bool
leb_ℤ a b = leb (above a + under b) (above b + under a)

abbrev pub min_ℤ : ℤ → ℤ → ℤ
min_ℤ a b = if leb_ℤ a b then a else b

abbrev pub max_ℤ : ℤ → ℤ → ℤ
max_ℤ a b = if leb_ℤ a b then b else a

pub above_sum : (a b : ℤ) → above (a +ℤ b) + under a + under b ≡ under (a +ℤ b) + above a + above b
unfolding ◌+ℤ◌
above_sum a b = ground arith

pub above_difference :
    (a b : ℤ) → above (a -ℤ b) + under a + above b ≡ under (a -ℤ b) + above a + under b
unfolding ◌-ℤ◌
above_difference a b = ground arith

pub equal_parts : (a b : ℤ) → above a + under b ≡ above b + under a → a ≡ b
equal_parts a b h = ground arith

pub ruleset integers = (arith, above_sum, above_difference, equal_parts)
