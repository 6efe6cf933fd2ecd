-- ===== src/Probe/Switches.antt =====
-- The switch table: where a plain read can name a switch, and which records a value fits.
pub mod Readable
use mdioprobe.Exec.Pure.{◌>>=◌}
use mdioprobe.Exec.{Result, ok}
use mdioprobe.Format.{hex_padded}
use mdioprobe.Prelude.Text.{Text, text_eq, codes, rstrip, contains}
use mdioprobe.Prelude.{
  ℕ, ◌+◌, Bool, true, false, not, ◌&&◌, ◌||◌, List, [], ◌∷◌, ◌++◌, Option, none, some, bit_and,
  ◌==◌, if◌then◌else◌,
}
use mdioprobe.Probe.{slice, field, walk}

-- SW_PROD, SW_REV, SW_ADDR, SW_REG, SW_ACCESS and SW_NAME; SW_ID is 0.
abbrev pub sw_prod : ℕ
sw_prod = 9

abbrev pub sw_rev : ℕ
sw_rev = 18

abbrev pub sw_addr : ℕ
sw_addr = 27

abbrev pub sw_reg : ℕ
sw_reg = 30

abbrev pub sw_access : ℕ
sw_access = 33

abbrev pub sw_name : ℕ
sw_name = 49

-- The record says that a plain read reaches the part.
abbrev pub is_plain : Text → ℕ → Bool
is_plain table start =
    text_eq (rstrip (slice (start + sw_access) (start + sw_access + 4) table)) (codes "c22")

abbrev pub addr_column : Text → ℕ → Text
addr_column table start = slice (start + sw_addr) (start + sw_addr + 2) table

abbrev pub reg_column : Text → ℕ → Text
reg_column table start = slice (start + sw_reg) (start + sw_reg + 2) table

-- `pair in pairs`
abbrev pub has_pair : ℕ × ℕ → List (ℕ × ℕ) → Bool
has_pair pair [] = false
has_pair pair (p ∷ ps) = (p.0 == pair.0 && p.1 == pair.1) || has_pair pair ps

-- One round of `switch_probes`.
unfoldable pub add_probe : Text → List (ℕ × ℕ) → ℕ × ℕ → Result (List (ℕ × ℕ))
add_probe table pairs (start, stop) =
    if not (is_plain table start)
      || (contains b'-' (addr_column table start) || contains b'-' (reg_column table start))
    then ok pairs
    else (do
      addr ← field table (start + sw_addr) (start + sw_addr + 2)
      reg ← field table (start + sw_reg) (start + sw_reg + 2)
      ok (if has_pair (addr, reg) pairs then pairs else pairs ++ ((addr, reg) ∷ [])))

unfoldable pub add_probes : Text → List (ℕ × ℕ) → List (ℕ × ℕ) → Result (List (ℕ × ℕ))
add_probes table pairs [] = ok pairs
add_probes table pairs (r ∷ rs) = do pairs' ← add_probe table pairs r; add_probes table pairs' rs

unfoldable pub switch_probes : Text → Result (List (ℕ × ℕ))
unfolding add_probes
switch_probes table = add_probes table [] (walk table)

-- A name, and the revision if the record has a mask for it.
abbrev pub Candidate : Type 0
Candidate = Text × Option ℕ

module _ (table : Text) (value address register : ℕ) where
  abbrev pub is_elsewhere : ℕ → Bool
  is_elsewhere start =
      not (is_plain table start)
      || (not (text_eq (addr_column table start) (hex_padded 2 address))
          || not (text_eq (reg_column table start) (hex_padded 2 register)))

  -- One round of `lookup_switch`.
  unfoldable pub candidates_at : ℕ × ℕ → Result (List Candidate)
  candidates_at (start, stop) = if is_elsewhere start then ok [] else (do
    entry ← field table start (start + 8)
    prod ← field table (start + sw_prod) (start + sw_prod + 8)
    if not (bit_and value prod == entry) then ok [] else (do
      rev_mask ← field table (start + sw_rev) (start + sw_rev + 8)
      ok (
          (
            slice (start + sw_name) stop table,
            if rev_mask == 0 then none else some (bit_and value rev_mask),
          )
          ∷ [])))

  unfoldable pub candidates_from : List (ℕ × ℕ) → Result (List Candidate)
  candidates_from [] = ok []
  candidates_from (r ∷ rs) = do here ← candidates_at r; more ← candidates_from rs; ok (here ++ more)

  unfoldable pub lookup_switch : Result (List Candidate)
  unfolding candidates_from
  lookup_switch = candidates_from (walk table)
