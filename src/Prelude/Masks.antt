-- ===== src/Prelude/Masks.antt =====
-- The bits of a number, one at a time: the bitwise operations act on each bit alone.
use Prim.Native.Nat.{min, max, bit_and-bitwise}
use native.Mathlib.Nat.{pow-suc, one-le-pow}
use mdioprobe.Prelude.Bits.{and_not, and_step, or_step, or_comm, or-zero}
use mdioprobe.Prelude.{
  ℕ, zero, suc, ◌-◌, ◌/◌, ◌%◌, ◌^◌, ◌≤◌, ◌<◌, ◌≡◌, refl, arith, bit_and, bit_or, ◌==◌,
  if◌then◌else◌,
}

-- Bit `k` of a number.
unfoldable pub bit_at : ℕ → ℕ → ℕ
bit_at zero a = a % 2
bit_at (suc k) a = bit_at k (a / 2)

half_or : (a b : ℕ) → bit_or a b / 2 ≡ bit_or (a / 2) (b / 2)
half_or a b = omega (arith, or_step a b)

half_and : (a b : ℕ) → bit_and a b / 2 ≡ bit_and (a / 2) (b / 2)
half_and a b = omega (arith, and_step a b)

pub bit_at-or : (k a b : ℕ) → bit_at k (bit_or a b) ≡ max (bit_at k a) (bit_at k b)
unfolding bit_at
bit_at-or zero a b = omega (arith, or_step a b)
bit_at-or (suc k) a b = rw (half_or a b) (bit_at-or k (a / 2) (b / 2))

pub bit_at-and : (k a b : ℕ) → bit_at k (bit_and a b) ≡ min (bit_at k a) (bit_at k b)
unfolding bit_at
bit_at-and zero a b = omega (arith, and_step a b)
bit_at-and (suc k) a b = rw (half_and a b) (bit_at-and k (a / 2) (b / 2))

half_complement : (n m : ℕ) → m < 2 ^ suc n → (2 ^ suc n - 1 - m) / 2 ≡ 2 ^ n - 1 - m / 2
half_complement n m h = omega (arith, pow-suc 2 n)

pub bit_at-complement : (n k m : ℕ) → m < 2 ^ n → k < n → bit_at k (2 ^ n - 1 - m) ≡ 1 - bit_at k m
unfolding bit_at
bit_at-complement zero k m h g = absurd (omega arith)
bit_at-complement (suc n) zero m h g = omega (arith, pow-suc 2 n, one-le-pow n 2)
bit_at-complement (suc n) (suc k) m h g =
    rw (half_complement n m h)
      (bit_at-complement n k (m / 2) (omega (arith, pow-suc 2 n)) (omega arith))

pub bit_at-below : (k a : ℕ) → bit_at k a < 2
unfolding bit_at
bit_at-below zero a = omega arith
bit_at-below (suc k) a = bit_at-below k (a / 2)

-- The operations stay below a power of two.
pub or-below : (n a b : ℕ) → a < 2 ^ n → b < 2 ^ n → bit_or a b < 2 ^ n
or-below zero zero b p q = omega (arith, or_comm 0 b, or-zero b)
or-below zero (suc a) b p q = absurd (omega arith)
or-below (suc n) a b p q = omega (
  arith,
  pow-suc 2 n,
  or_step a b,
  or-below n (a / 2) (b / 2) (omega (arith, pow-suc 2 n)) (omega (arith, pow-suc 2 n)),
)

pub and-below : (n a b : ℕ) → a < 2 ^ n → bit_and a b < 2 ^ n
and-below zero zero b p = omega (arith, bit_and-bitwise 0 b)
and-below zero (suc a) b p = absurd (omega arith)
and-below (suc n) a b p =
    omega
      (arith, pow-suc 2 n, and_step a b, and-below n (a / 2) (b / 2) (omega (arith, pow-suc 2 n)))

and_le_below : (n a b : ℕ) → a ≤ n → bit_and a b ≤ a
and_le_below n zero b h = omega (arith, bit_and-bitwise 0 b)
and_le_below zero (suc a) b h = absurd (omega arith)
and_le_below (suc n) (suc a) b h =
    omega (arith, and_step (suc a) b, and_le_below n (suc a / 2) (b / 2) (omega arith))

pub and-le : (a b : ℕ) → bit_and a b ≤ a
and-le a b = and_le_below a a b (omega arith)

half_and_not : (a m : ℕ) → and_not a m / 2 ≡ and_not (a / 2) (m / 2)
half_and_not a m = omega (arith, and_step a m, and-le (a / 2) (m / 2))

pub bit_at-and_not : (k a m : ℕ) → bit_at k (and_not a m) ≡ bit_at k a - bit_at k m
unfolding bit_at
bit_at-and_not zero a m = omega (arith, and_step a m, and-le (a / 2) (m / 2))
bit_at-and_not (suc k) a m = rw (half_and_not a m) (bit_at-and_not k (a / 2) (m / 2))

bit_at-zero : (k : ℕ) → bit_at k 0 ≡ 0
unfolding bit_at
bit_at-zero zero = refl
bit_at-zero (suc k) = bit_at-zero k

-- A power of two has one bit.
pub bit_at-pow : (k j : ℕ) → bit_at k (2 ^ j) ≡ (if k == j then 1 else 0)
unfolding bit_at
bit_at-pow zero zero = refl
bit_at-pow (suc k) zero = rw (bit_at-zero k) (ground arith)
bit_at-pow zero (suc j) = rw (pow-suc 2 j) (ground arith)
bit_at-pow (suc k) (suc j) =
    let e : 2 ^ suc j / 2 ≡ 2 ^ j = omega (arith, pow-suc 2 j) in
    rw (e, bit_at-pow k j) (ground arith)
