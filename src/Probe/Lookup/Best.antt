-- ===== src/Probe/Lookup/Best.antt =====
-- `lookup_phy` over a printed table: the most specific record that fits, and the first among equals.
use mdioprobe.Exec.{ok}
use mdioprobe.Prelude.Text.{Text}
use mdioprobe.Prelude.{
  ℕ, suc, ◌≤◌, ◌<◌, ◌≡◌, refl, List, [], ◌∷◌, Option, none, some, arith, length, All, true, false,
  Bool-cases, inl, inr, ltb, ltb→lt, tests, get_elem?, take,
}
use mdioprobe.Probe.{popcount, name_of, walk, lookup_phy}
use mdioprobe.Probe.Lookup.Table.{match_entries}
use mdioprobe.Probe.Lookup.{Entry, IsEntry, table_of, fits, chosen}

-- An entry that fits, no less specific than any other that does, and the first such.
pub record IsMostSpecific (ident : ℕ) (es : List Entry) (e : Entry) : Type 0 where
  pub place : ℕ
  pub found : get_elem? es place ≡ some e
  pub matches : fits ident e ≡ true
  pub most : All (λ f. fits ident f ≡ true → popcount f.mask ≤ popcount e.mask) es
  pub first : All (λ f. fits ident f ≡ true → popcount f.mask < popcount e.mask) (take place es)

abbrev Beats : Option (Text × ℕ) → Entry → Type 0
Beats none e = Unit
Beats (some (n, bits)) e = bits < popcount e.mask

abbrev Loses : Option (Text × ℕ) → Entry → Type 0
Loses none e = ⊥
Loses (some (n, bits)) e = popcount e.mask ≤ bits

-- How `chosen` ends: with what it began with, or with an entry that beats that.
data Chosen (ident : ℕ) (best : Option (Text × ℕ)) (es : List Entry) (r : Option (Text × ℕ))
    : Type 0 where
  stays : r ≡ best → All (λ f. fits ident f ≡ true → Loses best f) es → Chosen ident best es r
  changes :
      (e : Entry)
      → r ≡ some (e.name, popcount e.mask)
      → Beats best e
      → IsMostSpecific ident es e
      → Chosen ident best es r

module _ (ident : ℕ) (e : Entry) (es : List Entry) where
  -- An entry that does not count.
  skip :
      (best r : Option (Text × ℕ))
      → (fits ident e ≡ true → Loses best e)
      → Chosen ident best es r
      → Chosen ident best (e ∷ es) r
  skip best r h (stays p a) = stays p (h, a)
  skip none r h (changes f p b m) = changes f p b (record {
    place = suc m.place;
    found = m.found;
    matches = m.matches;
    most = ((λ k. absurd (h k)), m.most);
    first = ((λ k. absurd (h k)), m.first);
  })
  skip (some (n, bits)) r h (changes f p b m) = changes f p b (record {
    place = suc m.place;
    found = m.found;
    matches = m.matches;
    most = ((λ k. omega (arith, h k)), m.most);
    first = ((λ k. omega (arith, h k)), m.first);
  })

  -- An entry that beats the best so far.
  take_over :
      (best r : Option (Text × ℕ))
      → fits ident e ≡ true
      → Beats best e
      → ((f : Entry) → popcount e.mask < popcount f.mask → Beats best f)
      → Chosen ident (some (e.name, popcount e.mask)) es r
      → Chosen ident best (e ∷ es) r
  take_over best r h b up (stays p a) =
      changes e p b (record {
        place = 0;
        found = refl;
        matches = h;
        most = ((λ k. omega arith), a);
        first = tt;
      })
  take_over best r h b up (changes f p c m) = changes f p (up f c) (record {
    place = suc m.place;
    found = m.found;
    matches = m.matches;
    most = ((λ k. omega arith), m.most);
    first = ((λ k. c), m.first);
  })

chosen-Chosen :
    (ident : ℕ) (best : Option (Text × ℕ)) (es : List Entry)
    → Chosen ident best es (chosen ident best es)
chosen-Chosen ident best [] = stays refl tt
chosen-Chosen ident none (e ∷ es) = elim (Bool-cases (fits ident e)) [
  | inl y ↦ rw y (
      take_over ident e es none _ y tt (λ f k. tt)
        (chosen-Chosen ident (some (e.name, popcount e.mask)) es))
  | inr n ↦ rw n (skip ident e es none _ (λ y. cc) (chosen-Chosen ident none es))
]
chosen-Chosen ident (some (name, bits)) (e ∷ es) = elim (Bool-cases (fits ident e)) [
  | inl y ↦ elim (Bool-cases (ltb bits (popcount e.mask))) [
    | inl l ↦
        rw (y, l)
          (take_over ident e es (some (name, bits)) _ y (ltb→lt _ _ l) (λ f k. omega (tests))
            (chosen-Chosen ident (some (e.name, popcount e.mask)) es))
    | inr l ↦
        rw (y, l)
          (skip ident e es (some (name, bits)) _ (λ k. ground arith)
            (chosen-Chosen ident (some (name, bits)) es))
  ]
  | inr n ↦
      rw n (
        skip ident e es (some (name, bits)) _ (λ y. cc)
          (chosen-Chosen ident (some (name, bits)) es))
]

-- What a lookup has found.
pub data Named (ident : ℕ) (es : List Entry) : Option Text → Type 0 where
  unknown : All (λ f. fits ident f ≡ false) es → Named ident es none
  known : (e : Entry) → IsMostSpecific ident es e → Named ident es (some e.name)

fits_none :
    (ident : ℕ) (es : List Entry)
    → All (λ f. fits ident f ≡ true → ⊥) es
    → All (λ f. fits ident f ≡ false) es
fits_none ident [] h = tt
fits_none ident (e ∷ es) h = elim (Bool-cases (fits ident e)) [
  | inl y ↦ absurd (h.0 y)
  | inr n ↦ (n, fits_none ident es h.1)
]

Chosen-Named :
    (ident : ℕ) (es : List Entry) (r : Option (Text × ℕ))
    → Chosen ident none es r
    → Named ident es (name_of r)
Chosen-Named ident es r (stays p a) = rw p (unknown (fits_none ident es a))
Chosen-Named ident es r (changes e p b m) = rw p (known e m)

-- Over a table that was printed from entries, whose identifiers and masks have 32 bits and whose
-- names have no line end, `lookup_phy` returns. If an entry fits, it gives the name of one that fits
-- with at least as many mask bits as every other that fits, the first such in the table; it gives
-- `None` only if none fits.
pub lookup_phy-Named :
    (ident : ℕ) (es : List Entry)
    → All IsEntry es
    → (r : Option Text) × (lookup_phy (table_of es) ident ≡ ok r) × Named ident es r
unfolding lookup_phy walk
lookup_phy-Named ident es h =
    let e = match_entries ident es [] (suc (length (table_of es))) none h (omega arith) in
    (
      name_of (chosen ident none es),
      rw e refl,
      Chosen-Named ident es (chosen ident none es) (chosen-Chosen ident none es),
    )
