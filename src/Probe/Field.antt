-- ===== src/Probe/Field.antt =====
-- The fields of a printed table: eight hexadecimal digits give back the number that was printed.
use mdioprobe.Exec.{ok}
use mdioprobe.Format.{digits_onto, digits, digit_char, hex_padded}
use mdioprobe.Parser.Numbers.{int_of-hex_padded}
use mdioprobe.Prelude.Text.{Text}
use mdioprobe.Prelude.{
  ℕ, zero, suc, ◌+◌, ◌-◌, ◌/◌, ◌%◌, ◌^◌, ◌≤◌, ◌<◌, ◌≡◌, refl, [], ◌∷◌, ◌++◌, arith, length,
  length-append, length-replicate, replicate,
}
use native.Mathlib.Nat.{pow-suc}
use mdioprobe.Probe.Walk.{slice_between}
use mdioprobe.Probe.{field}

length-digits_onto :
    (k fuel n : ℕ) (made : Text)
    → n < 16 ^ suc k
    → length (digits_onto 16 fuel n made) ≤ suc k + length made
unfolding digits_onto
length-digits_onto k zero n made h = omega arith
length-digits_onto zero (suc fuel) n made h = ground (arith, pow-suc 16 0)
length-digits_onto (suc k) (suc fuel) n made h =
    ground
      (arith, pow-suc 16 (suc k), length-digits_onto k fuel (n / 16) (digit_char (n % 16) ∷ made))

pub length-hex_padded : (k n : ℕ) → n < 16 ^ suc k → length (hex_padded (suc k) n) ≡ suc k
unfolding hex_padded digits
length-hex_padded k n h = omega (
  arith,
  length-append {0} (replicate (suc k - length (digits 16 n)) b'0') (digits 16 n),
  length-replicate {0} {A = ℕ} (suc k - length (digits 16 n)) b'0',
  length-digits_onto k (suc n) n [] h,
)

-- A field of eight digits between two other parts of the table.
pub field_lem :
    (a b : Text) (n i j : ℕ)
    → n < 2 ^ 32
    → length a ≡ i
    → i + 8 ≡ j
    → field (a ++ (hex_padded 8 n ++ b)) i j ≡ ok n
unfolding field
field_lem a b n i j h p q =
    let e : length a + length (hex_padded 8 n) ≡ j =
      omega (arith, length-hex_padded 7 n (omega arith)) in
    rw (slice_between a (hex_padded 8 n) b i j p e, int_of-hex_padded 8 n) refl
