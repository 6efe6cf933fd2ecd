-- ===== src/Probe/Lookup/Table.antt =====
-- `match_phys` over a printed table is the choice among its entries.
use mathlib.Core.List.{append_assoc}
use mdioprobe.Exec.{ok}
use mdioprobe.Format.{hex_padded}
use mdioprobe.Parser.Numbers.{hex_padded-All, IsDigit-no_space}
use mdioprobe.Parser.{non_empty}
use mdioprobe.Prelude.Text.{Text, contains, is_space}
use mdioprobe.Prelude.{
  ℕ, zero, suc, ◌+◌, ◌<◌, ◌≡◌, refl, List, [], ◌∷◌, ◌++◌, Option, arith, length, length-append, All,
  true, false, Bool-cases, inl, inr, if◌then◌else◌,
}
use mdioprobe.Probe.Field.{field_lem, length-hex_padded}
use mdioprobe.Probe.Walk.{slice_between, walk_line, walk_past, next_line}
use mdioprobe.Probe.{slice, field, popcount, better, match_phy, match_phys, walk_from}
use mdioprobe.Probe.Lookup.{Entry, IsEntry, printed, table_of, fits, chosen}

length-printed : (e : Entry) → IsEntry e → length (printed e) ≡ 18 + length e.name
length-printed e h = omega (
  arith,
  length-append {0} (hex_padded 8 e.id) (b' ' ∷ (hex_padded 8 e.mask ++ (b' ' ∷ e.name))),
  length-append {0} (hex_padded 8 e.mask) (b' ' ∷ e.name),
  length-hex_padded 7 e.id (omega arith),
  length-hex_padded 7 e.mask (omega arith),
)

module _ (before : Text) (e : Entry) (rest : Text) (h : IsEntry e) where
  abbrev around : Text
  around = before ++ (printed e ++ (10 ∷ rest))

  id_field : field around (length before) (length before + 8) ≡ ok e.id
  id_field = simp append_assoc (
      field_lem before (b' ' ∷ (hex_padded 8 e.mask ++ (b' ' ∷ (e.name ++ (10 ∷ rest))))) e.id
        (length before) (length before + 8) h.0 refl refl)

  ahead : Text
  ahead = before ++ (hex_padded 8 e.id ++ (b' ' ∷ []))

  length-ahead : length ahead ≡ length before + 9
  unfolding ahead
  length-ahead = omega (
    arith,
    length-append {0} before (hex_padded 8 e.id ++ (b' ' ∷ [])),
    length-append {0} (hex_padded 8 e.id) (b' ' ∷ []),
    length-hex_padded 7 e.id (omega arith),
  )

  mask_field : field around (length before + 9) (length before + 17) ≡ ok e.mask
  unfolding ahead
  mask_field = rw (split) (
      field_lem ahead (b' ' ∷ (e.name ++ (10 ∷ rest))) e.mask (length before + 9)
        (length before + 17) h.1 length-ahead (omega arith))
    where
      split : around ≡ ahead ++ (hex_padded 8 e.mask ++ (b' ' ∷ (e.name ++ (10 ∷ rest))))
      split = simp append_assoc

  name_field : slice (length before + 18) (length before + length (printed e)) around ≡ e.name
  unfolding ahead
  name_field = rw (split) (
      slice_between (ahead ++ (hex_padded 8 e.mask ++ (b' ' ∷ []))) e.name (10 ∷ rest)
        (length before + 18) (length before + length (printed e)) start
        (omega (arith, start, length-printed e h)))
    where
      split : around ≡ (ahead ++ (hex_padded 8 e.mask ++ (b' ' ∷ []))) ++ (e.name ++ (10 ∷ rest))
      split = simp append_assoc

      start : length (ahead ++ (hex_padded 8 e.mask ++ (b' ' ∷ []))) ≡ length before + 18
      start = omega (
        arith,
        length-ahead,
        length-append {0} ahead (hex_padded 8 e.mask ++ (b' ' ∷ [])),
        length-append {0} (hex_padded 8 e.mask) (b' ' ∷ []),
        length-hex_padded 7 e.mask (omega arith),
      )

  match_one :
      (ident : ℕ) (best : Option (Text × ℕ))
      → match_phy around ident best (length before, length before + length (printed e))
        ≡ ok (if fits ident e then better best e.name (popcount e.mask) else best)
  unfolding match_phy
  match_one ident best = elim (Bool-cases (fits ident e)) [
    | inl y ↦ rw (id_field, mask_field, y, name_field) refl
    | inr n ↦ rw (id_field, mask_field, n) refl
  ]

contains-append :
    (c : ℕ) (s t : Text) → contains c s ≡ false → contains c t ≡ false → contains c (s ++ t) ≡ false
contains-append c [] t h k = k
contains-append c (d ∷ s) t h k = ground (arith, contains-append c s t)

no_newline : (s : Text) → All (λ c. is_space c ≡ false) s → contains 10 s ≡ false
no_newline [] h = refl
no_newline (c ∷ s) h = ground (arith, no_newline s h.1)

digits-no_newline : (n : ℕ) → contains 10 (hex_padded 8 n) ≡ false
digits-no_newline n =
    no_newline (hex_padded 8 n) (IsDigit-no_space 16 (hex_padded 8 n) (hex_padded-All 8 n))

printed-no_newline : (e : Entry) → IsEntry e → contains 10 (printed e) ≡ false
printed-no_newline e h =
    contains-append 10 (hex_padded 8 e.id) _ (digits-no_newline e.id)
      (contains-append 10 (hex_padded 8 e.mask) _ (digits-no_newline e.mask) h.2)

filled : (s : Text) → 0 < length s → non_empty s ≡ true
filled [] h = absurd (omega arith)
filled (c ∷ s) h = refl

pub match_entries :
    (ident : ℕ) (es : List Entry) (before : Text) (fuel : ℕ) (best : Option (Text × ℕ))
    → All IsEntry es
    → length (table_of es) < fuel
    → match_phys
        (before ++ table_of es)
        ident
        best
        (walk_from (before ++ table_of es) fuel (length before))
      ≡ ok (chosen ident best es)
unfolding match_phys
match_entries ident es before zero best h k = absurd (omega arith)
match_entries ident [] before (suc fuel) best h k =
    rw
      (walk_past (before ++ []) (suc fuel) (length before)
        (omega (arith, length-append {0} before [])))
      refl
match_entries ident (e ∷ es) before (suc fuel) best h k =
    let there = next_line before (printed e) (table_of es) in
    let best' : Option (Text × ℕ) =
      if fits ident e then better best e.name (popcount e.mask) else best in
    let short : length (table_of es) < fuel =
      omega (arith, length-append {0} (printed e) (10 ∷ table_of es), length-printed e h.0) in
    let ih =
      rw (there.0, there.1) at
        (match_entries ident es (before ++ (printed e ++ (10 ∷ []))) fuel best' h.1 short) in
    rw
      (
        walk_line before (printed e) (table_of es) fuel (printed-no_newline e h.0),
        filled (printed e) (omega (arith, length-printed e h.0)),
        match_one before e (table_of es) h.0 ident best,
      )
      ih
