-- ===== src/Probe.antt =====
-- src/python/cli/cmd_probe.py: what identifiers say, and the tables they are looked up in. The tables
-- are those of src/python/cli/chipdb.py, a parameter here.
pub mod Walk
pub mod Field
pub mod Switches
pub mod Identify
pub mod Sweep
pub mod Detail
pub mod Command
pub mod Decode
pub mod Lookup
use mathlib.Core.Option
use Prim.Native.Nat.{bit_xor}
use mdioprobe.Exec.Pure.{◌>>=◌}
use mdioprobe.Exec.{Result, ok, err, value_error}
use mdioprobe.Format.{hex_padded}
use mdioprobe.Parser.{int_of}
use mdioprobe.Prelude.Int.{ℤ, pos, negsuc}
use mdioprobe.Prelude.Text.{Text, text_eq, codes, rstrip, contains}
use mdioprobe.Prelude.{
  ℕ, zero, suc, ◌+◌, ◌-◌, ◌*◌, ◌/◌, ◌%◌, ◌^◌, Bool, true, false, not, ◌&&◌, ◌||◌, List, [], ◌∷◌,
  ◌++◌, Option, none, some, bit_and, bit_or, ltb, ◌==◌, length, take, drop, if◌then◌else◌,
}

-- What `decode` returns.
pub record Identity : Type 0 where
  pub ident : ℕ
  pub oui : ℕ
  pub model : ℕ
  pub revision : ℕ

unfoldable pub identifier : ℕ → ℕ → ℕ
identifier reg2 reg3 = bit_and (bit_or (reg2 * 2 ^ 16) reg3) 0xffffffff

unfoldable pub decode : ℕ → ℕ → Identity
unfolding identifier
decode reg2 reg3 = record {
  ident = identifier reg2 reg3;
  oui = bit_or (reg2 * 2 ^ 6) (reg3 / 2 ^ 10);
  model = bit_and (reg3 / 2 ^ 4) 0x3f;
  revision = bit_and reg3 0x0f;
}

-- `s[start:stop]`
unfoldable pub slice : ℕ → ℕ → Text → Text
slice start stop s = take (stop - start) (drop start s)

abbrev pub index_of : ℕ → Text → Option ℕ
index_of c [] = none
index_of c (d ∷ s) = let more = index_of c s in if d == c then some 0 else Option.map suc more

-- `table.find("\n", pos)`; `none` is -1.
abbrev pub find_newline : Text → ℕ → Option ℕ
find_newline table start = Option.map (λ k. start + k) (index_of 10 (drop start table))

abbrev pub or_end : Text → Option ℕ → ℕ
or_end table none = length table
or_end table (some stop) = stop

-- The loop of `_walk`; each round moves on, so fuel above the length of the table is enough.
unfoldable pub walk_from : Text → ℕ → ℕ → List (ℕ × ℕ)
walk_from table zero start = []
walk_from table (suc fuel) start =
    let stop = or_end table (find_newline table start) in
    let rest = walk_from table fuel (stop + 1) in
    if ltb start (length table) then (if ltb start stop then (start, stop) ∷ rest else rest) else []

unfoldable pub walk : Text → List (ℕ × ℕ)
unfolding walk_from
walk table = walk_from table (suc (length table)) 0

-- The loop of `_popcount`; halving ends within as many rounds as the value.
unfoldable pub popcount_from : ℕ → ℕ → ℕ → ℕ
popcount_from zero value bits = bits
popcount_from (suc fuel) value bits =
    let rest = popcount_from fuel (value / 2) (bits + bit_and value 1) in
    if value == 0 then bits else rest

unfoldable pub popcount : ℕ → ℕ
unfolding popcount_from
popcount value = popcount_from value value 0

-- The value of a field of a table. No field of the tables has a sign, so one with a minus is refused
-- here with those that `int` refuses.
abbrev pub unsigned_field : Text → Option ℤ → Result ℕ
unsigned_field text (some (pos n)) = ok n
unsigned_field text _ = err (value_error text)

-- `int(table[start:stop], 16)`
unfoldable pub field : Text → ℕ → ℕ → Result ℕ
unfolding slice
field table start stop =
    unsigned_field (slice start stop table) (int_of 16 (slice start stop table))

-- `best` and `best_bits`; `none` is `None` and -1.
abbrev pub better : Option (Text × ℕ) → Text → ℕ → Option (Text × ℕ)
better none name bits = some (name, bits)
better (some (best, best_bits)) name bits =
    if ltb best_bits bits then some (name, bits) else some (best, best_bits)

-- One round of `lookup_phy`.
unfoldable pub match_phy : Text → ℕ → Option (Text × ℕ) → ℕ × ℕ → Result (Option (Text × ℕ))
match_phy table ident best (start, stop) = do
  entry ← field table start (start + 8)
  mask ← field table (start + 9) (start + 17)
  if bit_and (bit_xor ident entry) mask == 0
      then ok (better best (slice (start + 18) stop table) (popcount mask))
      else ok best

unfoldable pub match_phys : Text → ℕ → Option (Text × ℕ) → List (ℕ × ℕ) → Result (Option (Text × ℕ))
match_phys table ident best [] = ok best
match_phys table ident best (r ∷ rs) = do
  best' ← match_phy table ident best r
  match_phys table ident best' rs

abbrev pub name_of : Option (Text × ℕ) → Option Text
name_of none = none
name_of (some (name, bits)) = some name

unfoldable pub lookup_phy : Text → ℕ → Result (Option Text)
lookup_phy table ident = do best ← match_phys table ident none (walk table); ok (name_of best)
