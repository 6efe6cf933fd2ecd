-- ===== src/Parser/Numbers.antt =====
-- What the CLI prints it reads back: `integer` after decimal and padded hexadecimal output.
use mathlib.Core.List.{foldl, reverse, reverse-reverse}
use mdioprobe.Exec.{ok}
use mdioprobe.Format.{digit_char, digits_onto, digits, decimal, hex_padded}
use mdioprobe.Parser.{
  digit_value, read_digit, digits_end, digits_of, has_prefix, magnitude, int_of, integer, signed,
}
use mdioprobe.Prelude.Int.{pos}
use mdioprobe.Prelude.Text.{Text, is_space, lstrip, strip, lower_char, starts_with}
use mdioprobe.Prelude.{
  ℕ, zero, suc, ◌+◌, ◌-◌, ◌*◌, ◌/◌, ◌%◌, ◌≤◌, ◌<◌, ◌≡◌, ◌⊎◌, refl, ap, ◌∙◌, Bool, true, false, ◌&&◌,
  String, [], ◌∷◌, ◌++◌, some, arith, ◌==◌, Bool-cases, inl, inr, All, All-append, All-reverse,
  length, replicate, take,
}

-- A digit of the base, as `format` writes it.
pub record IsDigit (base c : ℕ) : Type 0 where
  pub value_lt : digit_value c < base
  pub not_mark : (c == b'_') ≡ false
  pub no_space : is_space c ≡ false
  pub no_sign :
      ((c == b'-') ≡ false)
      × ((c == b'+') ≡ false)
      × ((c == b',') ≡ false)
      × ((lower_char c == b'x') ≡ false)

digit_char-value : (d : ℕ) → d < 16 → digit_value (digit_char d) ≡ d
digit_char-value d h = ground arith

digit_char-IsDigit : (base d : ℕ) → base ≤ 16 → d < base → IsDigit base (digit_char d)
digit_char-IsDigit base d hb h = record {
  value_lt = omega (arith, digit_char-value d (omega arith));
  not_mark = ground arith;
  no_space = ground arith;
  no_sign = (ground arith, ground arith, ground arith, ground arith);
}

read_digit-IsDigit :
    (base n c : ℕ) (b : Bool)
    → IsDigit base c
    → read_digit base (some (n, b)) c ≡ some (n * base + digit_value c, true)
read_digit-IsDigit base n c b h = ground (arith, h.value_lt, h.not_mark)

module _ (base : ℕ) (low : 2 ≤ base) (high : base ≤ 16) where
  mod-lt-base : (n : ℕ) → n % base < base
  mod-lt-base n = omega arith

  digits_onto-All :
      (fuel n : ℕ) (made : Text)
      → All (IsDigit base) made
      → All (IsDigit base) (digits_onto base fuel n made)
  unfolding digits_onto
  digits_onto-All zero n made h = h
  digits_onto-All (suc fuel) n made h = elim (Bool-cases (n / base == 0)) [
    | inl e ↦ rw e (digit_char-IsDigit base (n % base) high (mod-lt-base n), h)
    | inr e ↦ rw e (
        digits_onto-All fuel (n / base) (digit_char (n % base) ∷ made)
          (digit_char-IsDigit base (n % base) high (mod-lt-base n), h))
  ]

  read_char :
      (m n : ℕ) (b : Bool)
      → read_digit base (some (m, b)) (digit_char (n % base)) ≡ some (m * base + n % base, true)
  read_char m n b =
      read_digit-IsDigit base m (digit_char (n % base)) b
        (digit_char-IsDigit base (n % base) high (mod-lt-base n))
      ∙ ap (λ (d : ℕ). some (m * base + d, true))
          (digit_char-value (n % base) (omega (arith, mod-lt-base n)))

  recomposed : (n : ℕ) → n / base * base + n % base ≡ n
  recomposed n = omega arith

  doubled : (q : ℕ) → q * 2 ≤ q * base
  doubled q = grind arith

  quotient-lt : (n fuel : ℕ) → n < suc fuel → (n / base == 0) ≡ false → n / base < fuel
  quotient-lt n fuel h e = ground (arith, doubled (n / base), recomposed n)

  last_digit : (n : ℕ) → (n / base == 0) ≡ true → 0 * base + n % base ≡ n
  last_digit n e = grind arith

  fold_digits :
      (fuel n : ℕ) (made : Text) (b : Bool)
      → n < fuel
      → foldl (read_digit base) (some (0, b)) (digits_onto base fuel n made)
        ≡ foldl (read_digit base) (some (n, true)) made
  unfolding digits_onto
  fold_digits zero n made b h = absurd (omega arith)
  fold_digits (suc fuel) n made b h = elim (Bool-cases (n / base == 0)) [
    | inl e ↦ rw e (
        ap (λ o. foldl (read_digit base) o made)
          (read_char 0 n b ∙ ap (λ (m : ℕ). some (m, true)) (last_digit n e)))
    | inr e ↦ rw e (
        fold_digits fuel (n / base) (digit_char (n % base) ∷ made) b (quotient-lt n fuel h e)
        ∙ ap (λ o. foldl (read_digit base) o made)
            (read_char (n / base) n true ∙ ap (λ (m : ℕ). some (m, true)) (recomposed n)))
  ]

  pub digits-All : (n : ℕ) → All (IsDigit base) (digits base n)
  unfolding digits
  digits-All n = digits_onto-All (suc n) n [] tt

  pub digits_of-digits : (n : ℕ) → digits_of base (digits base n) ≡ some n
  unfolding digits_of digits
  digits_of-digits n = ap digits_end (fold_digits (suc n) n [] false (omega arith))

-- Text without blanks is left alone by `strip`.
lstrip_lem : (s : Text) → All (λ c. is_space c ≡ false) s → lstrip s ≡ s
lstrip_lem [] h = refl
lstrip_lem (c ∷ s) h = rw h.0

pub strip_lem : (s : Text) → All (λ c. is_space c ≡ false) s → strip s ≡ s
unfolding strip
strip_lem s h = rw (lstrip_lem s h, lstrip_lem (reverse s) (All-reverse _ s h)) (reverse-reverse s)

pub IsDigit-no_space :
    (base : ℕ) (s : Text) → All (IsDigit base) s → All (λ c. is_space c ≡ false) s
IsDigit-no_space base [] h = tt
IsDigit-no_space base (c ∷ s) h = (h.0.no_space, IsDigit-no_space base s h.1)

unsigned :
    (base : ℕ) (s : Text) (c : ℕ)
    → All (IsDigit base) s
    → (c == b'-') ≡ true ⊎ (c == b'+') ≡ true
    → starts_with s (c ∷ []) ≡ false
unsigned base [] c h k = refl
unsigned base (d ∷ s) c h (inl k) = ground (arith, h.0.no_sign)
unsigned base (d ∷ s) c h (inr k) = ground (arith, h.0.no_sign)

unprefixed : (base : ℕ) (s : Text) → All (IsDigit base) s → has_prefix s (b'0' ∷ b'x' ∷ []) ≡ false
unprefixed base [] h = refl
unprefixed base (c ∷ []) h = ground arith
unprefixed base (c ∷ d ∷ s) h = ground (arith, h.1.0.no_sign)

and-false : (b : Bool) → (b && false) ≡ false
and-false true = refl
and-false false = refl

-- `int(text, base)` of plain digits.
pub int_of-digits :
    (base n : ℕ) (s : Text)
    → All (IsDigit base) s
    → digits_of base s ≡ some n
    → int_of base s ≡ some (pos n)
unfolding int_of magnitude
int_of-digits base n s h e =
    rw
      (
        strip_lem s (IsDigit-no_space base s h),
        unsigned base s b'-' h (inl refl),
        unsigned base s b'+' h (inr refl),
        unprefixed base s h,
        and-false (base == 16),
      )
      (ap (signed pos) e)

unprefixed_start :
    (base : ℕ) (s : Text)
    → All (IsDigit base) s
    → (has_prefix (take 2 s) (b'0' ∷ b'x' ∷ []) ≡ false)
      × (has_prefix (take 3 s) (b'-' ∷ b'0' ∷ b'x' ∷ []) ≡ false)
unprefixed_start base [] h = (refl, refl)
unprefixed_start base (c ∷ []) h = ground (arith, h.0.no_sign)
unprefixed_start base (c ∷ d ∷ s) h = ground (arith, h.0.no_sign, h.1.0.no_sign)

-- Plain decimal digits.
pub integer-digits :
    (s : Text) (n : ℕ) (what : String)
    → All (IsDigit 10) s
    → digits_of 10 s ≡ some n
    → integer s what ≡ ok (pos n)
unfolding integer
integer-digits s n what h e =
    let start = unprefixed_start 10 s h in
    rw (strip_lem s (IsDigit-no_space 10 s h), start.0, start.1, int_of-digits 10 n s h e)

pub integer-decimal : (n : ℕ) (what : String) → integer (decimal n) what ≡ ok (pos n)
unfolding decimal
integer-decimal n what =
    integer-digits (digits 10 n) n what (digits-All 10 (omega arith) (omega arith) n)
      (digits_of-digits 10 (omega arith) (omega arith) n)

-- `0x` and hexadecimal digits.
pub integer-0x :
    (s : Text) (n : ℕ) (what : String)
    → All (IsDigit 16) s
    → digits_of 16 s ≡ some n
    → integer (b'0' ∷ b'x' ∷ s) what ≡ ok (pos n)
unfolding integer
integer-0x s n what h e =
    rw (
      strip_lem (b'0' ∷ b'x' ∷ s) (refl, (refl, IsDigit-no_space 16 s h)),
      int_of-digits 16 n s h e,
    )

zeros-All : (k : ℕ) → All (IsDigit 16) (replicate k b'0')
zeros-All zero = tt
zeros-All (suc k) = (digit_char-IsDigit 16 0 (omega arith) (omega arith), zeros-All k)

fold_zeros :
    (k : ℕ) (b : Bool) (s : Text)
    → (b' : Bool) × (foldl (read_digit 16) (some (0, b)) (replicate k b'0' ++ s)
        ≡ foldl (read_digit 16) (some (0, b')) s)
fold_zeros zero b s = (b, refl)
fold_zeros (suc k) b s = fold_zeros k true s

digits_of-hex_padded : (width n : ℕ) → digits_of 16 (hex_padded width n) ≡ some n
unfolding digits_of hex_padded digits
digits_of-hex_padded width n =
    let (b, e) = fold_zeros (width - length (digits 16 n)) false (digits 16 n) in
    ap digits_end (e ∙ fold_digits 16 (omega arith) (omega arith) (suc n) n [] b (omega arith))

pub integer-hex_padded :
    (width n : ℕ) (what : String) → integer (b'0' ∷ b'x' ∷ hex_padded width n) what ≡ ok (pos n)
integer-hex_padded width n what =
    integer-0x (hex_padded width n) n what
      (unfold hex_padded in
        All-append _ _ (digits 16 n) (zeros-All _) (digits-All 16 (omega arith) (omega arith) n))
      (digits_of-hex_padded width n)

pub hex_padded-All : (width n : ℕ) → All (IsDigit 16) (hex_padded width n)
unfolding hex_padded
hex_padded-All width n =
    All-append _ _ (digits 16 n) (zeros-All _) (digits-All 16 (omega arith) (omega arith) n)

-- `int(text, 16)` of a padded field.
pub int_of-hex_padded : (width n : ℕ) → int_of 16 (hex_padded width n) ≡ some (pos n)
int_of-hex_padded width n =
    int_of-digits 16 n (hex_padded width n) (hex_padded-All width n) (digits_of-hex_padded width n)

-- A number printed in decimal, or as `0x` with hexadecimal digits padded to any width, is read back
-- by `integer` as that number.
pub integer-printed :
    (width n : ℕ) (what : String)
    → (integer (decimal n) what ≡ ok (pos n))
      × (integer (b'0' ∷ b'x' ∷ hex_padded width n) what ≡ ok (pos n))
integer-printed width n what = (integer-decimal n what, integer-hex_padded width n what)
