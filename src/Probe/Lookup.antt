-- ===== src/Probe/Lookup.antt =====
-- A table of PHYs by its entries, and the record of it that a lookup settles on.
pub mod Table
pub mod Best
use mathlib.Core.List.{append_assoc}
use Prim.Native.Nat.{bit_xor}
use mdioprobe.Exec.{ok}
use mdioprobe.Format.{hex_padded}
use mdioprobe.Parser.Numbers.{hex_padded-All, IsDigit-no_space}
use mdioprobe.Parser.{non_empty}
use mdioprobe.Prelude.Text.{Text, contains, is_space}
use mdioprobe.Prelude.{
  ℕ, zero, suc, ◌+◌, ◌≤◌, ◌<◌, ◌^◌, ◌≡◌, refl, List, [], ◌∷◌, ◌++◌, Option, none, some, arith,
  bit_and, length, length-append, All, Bool, true, false, Bool-cases, inl, inr, ltb, ltb→lt, tests,
  ◌==◌, if◌then◌else◌, get_elem?, take,
}
use mdioprobe.Probe.Field.{field_lem, length-hex_padded}
use mdioprobe.Probe.Walk.{slice_between, walk_line, walk_past, next_line}
use mdioprobe.Probe.{
  slice, field, popcount, better, match_phy, match_phys, name_of, walk_from, walk, lookup_phy,
}

pub record Entry : Type 0 where
  pub id : ℕ
  pub mask : ℕ
  pub name : Text

abbrev pub IsEntry : Entry → Type 0
IsEntry e = (e.id < 2 ^ 32) × (e.mask < 2 ^ 32) × (contains 10 e.name ≡ false)

-- A record of the table: identifier, mask and name in their columns.
abbrev pub printed : Entry → Text
printed e = hex_padded 8 e.id ++ (b' ' ∷ (hex_padded 8 e.mask ++ (b' ' ∷ e.name)))

abbrev pub table_of : List Entry → Text
table_of [] = []
table_of (e ∷ es) = printed e ++ (10 ∷ table_of es)

-- What phy_id_compare() of Linux asks.
abbrev pub fits : ℕ → Entry → Bool
fits ident e = bit_and (bit_xor ident e.id) e.mask == 0

abbrev pub chosen : ℕ → Option (Text × ℕ) → List Entry → Option (Text × ℕ)
chosen ident best [] = best
chosen ident best (e ∷ es) =
    chosen ident (if fits ident e then better best e.name (popcount e.mask) else best) es
