-- ===== src/Parser/Spec.antt =====
-- `spec` against what it expands: ranges and single numbers, printed and joined by commas.
use mdioprobe.Exec.Pure.{◌>>=◌}
use mdioprobe.Exec.{ok, fails, runs_backwards}
use mdioprobe.Format.{digits, decimal}
use mdioprobe.Parser.Numbers.{
  IsDigit, IsDigit-no_space, digits-All, digits_of-digits, strip_lem, integer-decimal,
}
use mdioprobe.Parser.{
  digits_of, ranged, range, spec_range, spec_part, spec_parts, some_found, spec, non_empty,
}
use mdioprobe.Prelude.Text.{Text, is_space, contains, split-join, cut_at, join}
use mdioprobe.Prelude.{
  ℕ, suc, ◌+◌, ◌-◌, ◌≤◌, ◌≡◌, refl, ◌∙◌, String, true, false, List, [], ◌∷◌, ◌++◌, map, none, some,
  arith, ltb, All, All-append, if◌then◌else◌,
}

-- One part, as an operator writes it.
pub data Part : Type 0 where
  single : ℕ → Part
  between : ℕ → ℕ → Part

abbrev pub typed : Part → Text
typed (single v) = decimal v
typed (between a b) = decimal a ++ (b'-' ∷ decimal b)

abbrev pub expanded : Part → List ℕ
expanded (single v) = v ∷ []
expanded (between a b) = range a (b + 1 - a)

abbrev pub expand_all : List Part → List ℕ
expand_all [] = []
expand_all (p ∷ ps) = expanded p ++ expand_all ps

abbrev pub Fits : ℕ → ℕ → Part → Type 0
Fits low high (single v) = (low ≤ v) × (v ≤ high)
Fits low high (between a b) = (low ≤ a) × (a ≤ b) × (b ≤ high)

digits-filled : (s : Text) (n : ℕ) → digits_of 10 s ≡ some n → non_empty s ≡ true
unfolding digits_of
digits-filled [] n h = cc
digits-filled (c ∷ s) n h = refl

decimal-All : (n : ℕ) → All (IsDigit 10) (decimal n)
unfolding decimal
decimal-All n = digits-All 10 (omega arith) (omega arith) n

decimal-filled : (n : ℕ) → non_empty (decimal n) ≡ true
unfolding decimal
decimal-filled n = digits-filled (digits 10 n) n (digits_of-digits 10 (omega arith) (omega arith) n)

no_comma : (s : Text) → All (IsDigit 10) s → contains b',' s ≡ false
no_comma [] h = refl
no_comma (c ∷ s) h = rw (h.0.no_sign.2, no_comma s h.1)

no_comma_between :
    (s t : Text) → All (IsDigit 10) s → All (IsDigit 10) t → contains b',' (s ++ (b'-' ∷ t)) ≡ false
no_comma_between [] t h k = no_comma t k
no_comma_between (c ∷ s) t h k = rw (h.0.no_sign.2, no_comma_between s t h.1 k)

pub ranged-decimal :
    (v low high : ℕ) (what : String) → low ≤ v → v ≤ high → ranged (decimal v) low high what ≡ ok v
unfolding ranged
ranged-decimal v low high what p q = rw (integer-decimal v what) (ground arith)

cut-none : (s : Text) → All (IsDigit 10) s → cut_at b'-' s ≡ none
cut-none [] h = refl
cut-none (c ∷ s) h = rw (h.0.no_sign.0, cut-none s h.1)

cut-some : (s t : Text) → All (IsDigit 10) s → cut_at b'-' (s ++ (b'-' ∷ t)) ≡ some (s, t)
cut-some [] t h = refl
cut-some (c ∷ s) t h = rw (h.0.no_sign.0, cut-some s t h.1)

module _ (low high : ℕ) (what : String) where
  part_number :
      (s : Text)
      → All (IsDigit 10) s
      → non_empty s ≡ true
      → spec_part low high what s ≡ spec_range low high what s none
  unfolding spec_part
  part_number [] h e = cc
  part_number (c ∷ s) h e = rw (cut-none s h.1)

  part_range :
      (s t : Text)
      → All (IsDigit 10) s
      → non_empty s ≡ true
      → spec_part low high what (s ++ (b'-' ∷ t)) ≡ (do
        first ← ranged s low high what
        last ← ranged t low high what
        if ltb last first
            then fails (runs_backwards what (s ++ (b'-' ∷ t)))
            else ok (range first (last + 1 - first)))
  unfolding spec_part spec_range
  part_range [] t h e = cc
  part_range (c ∷ s) t h e = rw (cut-some s t h.1)

  spec_part-typed :
      (p : Part) → Fits low high p → spec_part low high what (typed p) ≡ ok (expanded p)
  unfolding spec_range
  spec_part-typed (single v) h =
      part_number (decimal v) (decimal-All v) (decimal-filled v)
      ∙ rw (ranged-decimal v low high what h.0 h.1)
  spec_part-typed (between a b) h =
      part_range (decimal a) (decimal b) (decimal-All a) (decimal-filled a)
      ∙ rw
          (
            ranged-decimal a low high what h.0 (omega arith),
            ranged-decimal b low high what (omega arith) h.2,
          )
          (ground arith)

  typed-no_space : (p : Part) → All (λ c. is_space c ≡ false) (typed p)
  typed-no_space (single v) = IsDigit-no_space 10 (decimal v) (decimal-All v)
  typed-no_space (between a b) =
      All-append _ (decimal a) (b'-' ∷ decimal b) (IsDigit-no_space 10 (decimal a) (decimal-All a))
        (refl, IsDigit-no_space 10 (decimal b) (decimal-All b))

  typed-no_comma : (p : Part) → contains b',' (typed p) ≡ false
  typed-no_comma (single v) = no_comma (decimal v) (decimal-All v)
  typed-no_comma (between a b) =
      no_comma_between (decimal a) (decimal b) (decimal-All a) (decimal-All b)

  no_commas : (ps : List Part) → All (λ t. contains b',' t ≡ false) (map typed ps)
  no_commas [] = tt
  no_commas (p ∷ ps) = (typed-no_comma p, no_commas ps)

  spec_parts-typed :
      (ps : List Part)
      → All (Fits low high) ps
      → spec_parts low high what (map typed ps) ≡ ok (expand_all ps)
  unfolding spec_parts
  spec_parts-typed [] h = refl
  spec_parts-typed (p ∷ ps) h =
      rw (strip_lem (typed p) (typed-no_space p), spec_part-typed p h.0, spec_parts-typed ps h.1)

  found-expanded :
      (p : Part) (out : List ℕ)
      → Fits low high p
      → some_found low high what (expanded p ++ out) ≡ ok (expanded p ++ out)
  found-expanded (single v) out h = refl
  found-expanded (between a b) out h = let e : b + 1 - a ≡ suc (b - a) = omega arith in rw e

  -- Numbers and ranges written in decimal and joined by commas, at least one of them, each within
  -- the bounds and no range backwards, are expanded by `spec` to the numbers they stand for, in
  -- the order written.
  pub spec-typed :
      (p : Part) (ps : List Part)
      → All (Fits low high) (p ∷ ps)
      → spec (join (b',' ∷ []) (map typed (p ∷ ps))) low high what ≡ ok (expand_all (p ∷ ps))
  unfolding spec
  spec-typed p ps h =
      rw
        (
          split-join b',' (typed p) (map typed ps) (typed-no_comma p) (no_commas ps),
          spec_parts-typed (p ∷ ps) h,
        )
        (found-expanded p (expand_all ps) h.0)
