-- ===== src/Probe/Decode.antt =====
-- `decode` and `_popcount` against the fields and the bits that they stand for.
use mdioprobe.Prelude.Bits.{and_low, or_fields}
use mdioprobe.Prelude.{
  ℕ, zero, suc, ◌+◌, ◌*◌, ◌/◌, ◌%◌, ◌^◌, ◌≤◌, ◌<◌, ◌≡◌, refl, arith, bit_and, bit_or, ◌==◌, ==_iff,
  Bool-cases, inl, inr,
}
use native.Mathlib.Nat.{pow-suc}
use mdioprobe.Probe.{decode, popcount_from, popcount}

-- For two 16-bit registers the identifier is both of them side by side, and OUI, model and revision
-- are its upper 22, middle 6 and lower 4 bits: together they give it back, none of them overlapping.
pub decode_lem :
    (reg2 reg3 : ℕ)
    → reg2 < 2 ^ 16
    → reg3 < 2 ^ 16
    → let d = decode reg2 reg3 in
      (d.ident ≡ reg2 * 2 ^ 16 + reg3)
      × (d.ident ≡ d.oui * 2 ^ 10 + d.model * 2 ^ 4 + d.revision)
      × (d.oui < 2 ^ 22)
      × (d.model < 2 ^ 6)
      × (d.revision < 2 ^ 4)
unfolding decode
decode_lem reg2 reg3 h k = omega (
  arith,
  and_low 32 (bit_or (reg2 * 2 ^ 16) reg3),
  or_fields 16 reg2 reg3 k,
  or_fields 6 reg2 (reg3 / 2 ^ 10) (omega arith),
  and_low 6 (reg3 / 2 ^ 4),
  and_low 4 reg3,
)

-- The number of ones among the lowest `n` bits.
abbrev pub ones : ℕ → ℕ → ℕ
ones zero v = 0
ones (suc n) v = v % 2 + ones n (v / 2)

ones-zero : (n v : ℕ) → v ≡ 0 → ones n v ≡ 0
ones-zero zero v h = refl
ones-zero (suc n) v h = omega (arith, ones-zero n (v / 2) (omega arith))

popcount_from_lem :
    (n fuel v bits : ℕ) → v < 2 ^ n → v ≤ fuel → popcount_from fuel v bits ≡ bits + ones n v
unfolding popcount_from
popcount_from_lem n zero v bits h k = omega (arith, ones-zero n v (omega arith))
popcount_from_lem zero (suc fuel) v bits h k = ground arith
popcount_from_lem (suc n) (suc fuel) v bits h k = elim (Bool-cases (v == 0)) [
  | inl e ↦ rw e (omega (arith, ones-zero (suc n) v ((==_iff v 0).0 e)))
  | inr e ↦ rw e (
      omega (
        arith,
        and_low 1 v,
        popcount_from_lem n fuel (v / 2) (bits + bit_and v 1) (omega (arith, pow-suc 2 n))
            (omega arith),
      ))
]

-- The rounds of the loop of `_popcount` are enough for every value of `n` bits, and count its ones.
pub popcount-ones : (n v : ℕ) → v < 2 ^ n → popcount v ≡ ones n v
unfolding popcount
popcount-ones n v h = omega (arith, popcount_from_lem n v v 0 h)
