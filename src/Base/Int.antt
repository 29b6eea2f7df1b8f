-- ===== src/Base/Int.antt =====
-- Go's signed integers, as ℤ over the native numbers with their wrap-around written out.
use Prim.Native.Nat.{ℕ, suc, ◌+◌, ◌-◌, ◌*◌, ◌/◌, ◌%◌, ◌^◌, ◌≤◌, ◌<◌}
use mathlib.Core.Path.{◌≡◌}
use mathlib.Core.Logic.{◌↔◌}
use mathlib.Core.Bool.{Bool, true}
use native.Mathlib.Omega.{arith}
use pulseha.Base.Tests.{ltb, leb, ◌==◌, if◌then◌else◌}

-- `negsuc n` is -(n + 1).
pub data ℤ : Type 0 where
  pos : ℕ → ℤ
  negsuc : ℕ → ℤ

abbrev pub pos_part : ℤ → ℕ
pos_part (pos n) = n
pos_part (negsuc n) = 0

abbrev pub neg_part : ℤ → ℕ
neg_part (pos n) = 0
neg_part (negsuc n) = suc n

-- a - b, as an integer.
abbrev pub sub_ℕ : ℕ → ℕ → ℤ
sub_ℕ a b = if leb b a then pos (a - b) else negsuc (b - a - 1)

infix 50 ◌<ℤ◌ ◌≤ℤ◌
abbrev pub ◌<ℤ◌ : ℤ → ℤ → Type 0
a <ℤ b = pos_part a + neg_part b < pos_part b + neg_part a

abbrev pub ◌≤ℤ◌ : ℤ → ℤ → Type 0
a ≤ℤ b = pos_part a + neg_part b ≤ pos_part b + neg_part a

abbrev pub ltb_ℤ : ℤ → ℤ → Bool
ltb_ℤ a b = ltb (pos_part a + neg_part b) (pos_part b + neg_part a)

abbrev pub eq_ℤ : ℤ → ℤ → Bool
eq_ℤ a b = (pos_part a + neg_part b) == (pos_part b + neg_part a)

-- The value of the low `w` bits of an integer, read as a two's complement number.
abbrev pub wrap : ℕ → ℤ → ℤ
wrap m (pos n) = let low = n % (2 * m) in if ltb low m then pos low else negsuc (2 * m - 1 - low)
wrap m (negsuc n) = let low = n % (2 * m) in if ltb low m then negsuc low else pos (2 * m - 1 - low)

-- int(x) and int32(x)
abbrev pub to_int64 : ℤ → ℤ
to_int64 = wrap (2 ^ 63)

abbrev pub to_int32 : ℤ → ℤ
to_int32 = wrap (2 ^ 31)

abbrev pub add_int64 : ℤ → ℤ → ℤ
add_int64 a b = to_int64 (sub_ℕ (pos_part a + pos_part b) (neg_part a + neg_part b))

-- a / n for a positive n: Go's division drops the fraction.
abbrev pub div_pos : ℤ → ℕ → ℤ
div_pos (pos n) d = pos (n / d)
div_pos (negsuc n) d = sub_ℕ 0 (suc n / d)

pub eq_ℤ_iff : (a b : ℤ) → (eq_ℤ a b ≡ true) ↔ (a ≡ b)
eq_ℤ_iff a b = ground arith

pub ltb_ℤ_iff : (a b : ℤ) → (ltb_ℤ a b ≡ true) ↔ (a <ℤ b)
ltb_ℤ_iff a b = ground arith
