-- ===== src/Prelude/Int.antt =====
-- Signed integers over the native numbers, as far as the parser's range checks need them.
use mdioprobe.Prelude.{ℕ, zero, suc, ◌+◌, ◌-◌, ◌^◌, ◌<◌, Bool, ltb, bit_and}

-- `negsuc n` is -(n + 1).
pub data ℤ : Type 0 where
  pos : ℕ → ℤ
  negsuc : ℕ → ℤ

abbrev pub pos_part : ℤ → ℕ
pos_part (pos n) = n
pos_part (negsuc n) = 0

abbrev pub neg_part : ℤ → ℕ
neg_part (pos n) = 0
neg_part (negsuc n) = suc n

abbrev pub neg_of : ℕ → ℤ
neg_of zero = pos zero
neg_of (suc n) = negsuc n

abbrev pub neg : ℤ → ℤ
neg (pos n) = neg_of n
neg (negsuc n) = pos (suc n)

infix 50 ◌<ℤ◌
abbrev pub ◌<ℤ◌ : ℤ → ℤ → Type 0
a <ℤ b = pos_part a + neg_part b < pos_part b + neg_part a

abbrev pub ltb_ℤ : ℤ → ℤ → Bool
ltb_ℤ a b = ltb (pos_part a + neg_part b) (pos_part b + neg_part a)

-- `a & (2^k - 1)` of a Python integer, which is two's complement of unbounded width.
abbrev pub mask_low : ℕ → ℤ → ℕ
mask_low k (pos n) = bit_and n (2 ^ k - 1)
mask_low k (negsuc n) = 2 ^ k - 1 - bit_and n (2 ^ k - 1)
