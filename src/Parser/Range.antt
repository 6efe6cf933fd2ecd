-- ===== src/Parser/Range.antt =====
-- What `ranged` and `spec` let through.
use mdioprobe.Exec.Pure.{Yields, yields, raises, Yields-any, Yields-bind, of_Yields}
use mdioprobe.Exec.{ok}
use mdioprobe.Parser.{integer, ranged, range, spec_range, spec_part, spec_parts, some_found, spec}
use mdioprobe.Prelude.Int.{pos, ltb_ℤ}
use mdioprobe.Prelude.Text.{Text, strip, split}
use mdioprobe.Prelude.{
  ℕ, zero, suc, ◌+◌, ◌≤◌, ◌≡◌, ◌≢◌, ◌||◌, String, List, [], ◌∷◌, ◌++◌, Option, none, some, arith,
  ltb, take, All, All-append, Bool-cases, inl, inr,
}

abbrev pub Within : ℕ → ℕ → ℕ → Type 0
Within low high v = (low ≤ v) × (v ≤ high)

module _ (low high : ℕ) (what : String) where
  pub ranged-Within : (token : Text) → Yields (Within low high) (ranged token low high what)
  unfolding ranged
  ranged-Within token = Yields-bind _ (Yields-any (integer token what)) λ z _.
      elim (Bool-cases (ltb_ℤ z (pos low) || ltb_ℤ (pos high) z)) [
        | inl out ↦ rw out raises
        | inr fits ↦ rw fits (yields (ground arith))
      ]

  pub range-All :
      (first count : ℕ)
      → low ≤ first
      → first + count ≤ suc high
      → All (Within low high) (range first count)
  range-All first zero p q = tt
  range-All first (suc count) p q =
      (omega arith, range-All (suc first) count (omega arith) (omega arith))

  spec_range-All :
      (part : Text) (cut : Option (Text × Text))
      → Yields (All (Within low high)) (spec_range low high what part cut)
  unfolding spec_range
  spec_range-All part none = Yields-bind _ (ranged-Within part) λ v w. yields (w, tt)
  spec_range-All part (some (a, b)) = Yields-bind _ (ranged-Within (take 1 part ++ a)) λ first v.
      Yields-bind _ (ranged-Within b) λ last w. elim (Bool-cases (ltb last first)) [
        | inl back ↦ rw back raises
        | inr fine ↦ rw fine (yields (range-All first _ v.0 (ground arith)))
      ]

  spec_part-All : (part : Text) → Yields (All (Within low high)) (spec_part low high what part)
  unfolding spec_part
  spec_part-All [] = yields tt
  spec_part-All (c ∷ s) = spec_range-All (c ∷ s) _

  spec_parts-All : (ps : List Text) → Yields (All (Within low high)) (spec_parts low high what ps)
  unfolding spec_parts
  spec_parts-All [] = yields tt
  spec_parts-All (p ∷ ps) = Yields-bind _ (spec_part-All (strip p)) λ out v.
      Yields-bind _ (spec_parts-All ps) λ more w. yields (All-append (Within low high) out more v w)

  some_found-All :
      (out : List ℕ)
      → All (Within low high) out
      → Yields (λ l. (l ≢ []) × All (Within low high) l) (some_found low high what out)
  some_found-All [] v = raises
  some_found-All (x ∷ xs) v = yields ((λ e. cc), v)

  -- Whatever token `spec` accepts, it returns at least one number, and each one is within the
  -- bounds.
  pub spec-Within :
      (token : Text) (out : List ℕ)
      → spec token low high what ≡ ok out
      → (out ≢ []) × All (Within low high) out
  unfolding spec
  spec-Within token out =
      of_Yields (Yields-bind _ (spec_parts-All (split b',' token)) some_found-All)
