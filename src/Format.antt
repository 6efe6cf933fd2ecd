-- ===== src/Format.antt =====
-- Python's `format` as far as the CLI prints numbers: `str(n)` and `{:0{width}x}`.
use mdioprobe.Prelude.Text.{Text}
use mdioprobe.Prelude.{
  ℕ, zero, suc, ◌+◌, ◌-◌, ◌/◌, ◌%◌, [], ◌∷◌, ◌++◌, length, replicate, ltb, ◌==◌, if◌then◌else◌,
}

abbrev pub digit_char : ℕ → ℕ
digit_char d = if ltb d 10 then b'0' + d else b'a' + d - 10

-- The digits of `n` in front of those already made; fuel above `n` is enough.
unfoldable pub digits_onto : ℕ → ℕ → ℕ → Text → Text
digits_onto base zero n made = made
digits_onto base (suc fuel) n made =
    let rest = digits_onto base fuel (n / base) (digit_char (n % base) ∷ made) in
    if n / base == 0 then digit_char (n % base) ∷ made else rest

unfoldable pub digits : ℕ → ℕ → Text
unfolding digits_onto
digits base n = digits_onto base (suc n) n []

-- `str(n)`
unfoldable pub decimal : ℕ → Text
decimal n = digits 10 n

-- `{:0{width}x}`
unfoldable pub hex_padded : ℕ → ℕ → Text
hex_padded width n = let d = digits 16 n in replicate (width - length d) b'0' ++ d

-- `{:02d}` and `{:2d}`
abbrev pub decimal_2 : ℕ → Text
decimal_2 n = replicate (2 - length (decimal n)) b'0' ++ decimal n

abbrev pub decimal_wide : ℕ → Text
decimal_wide n = replicate (2 - length (decimal n)) b' ' ++ decimal n
