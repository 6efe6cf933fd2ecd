-- ===== src/Probe/Walk.antt =====
-- `_walk` against splitting the table at its line ends.

use mathlib.Core.List.{append-nil, append_assoc}
use mdioprobe.Parser.{non_empty}
use mdioprobe.Probe.{slice, index_of, find_newline, or_end, walk_from, walk}
use mdioprobe.Prelude.Text.{Text, split, contains, split-one, split-append}
use mdioprobe.Prelude.{
  ℕ, zero, suc, ◌+◌, ◌-◌, ◌≤◌, ◌<◌, ◌≡◌, refl, ap, ◌∙◌, List, [], ◌∷◌, ◌++◌, map, none, some, arith,
  length, length-append, take, drop, ltb, lt→ltb, Bool-cases, inl, inr, false, if◌then◌else◌, ◌⊎◌,
  ◌==◌, ==_iff,
}

module _ {A : Type 0} where
  pub take-append_self : (xs ys : List A) → take (length xs) (xs ++ ys) ≡ xs
  take-append_self [] ys = refl
  take-append_self (x ∷ xs) ys = rw (take-append_self xs ys)

  pub drop-append_self : (xs ys : List A) → drop (length xs) (xs ++ ys) ≡ ys
  drop-append_self [] ys = refl
  drop-append_self (x ∷ xs) ys = drop-append_self xs ys

-- The part of a text that stands between two others.
pub slice_between :
    (a m b : Text) (i j : ℕ)
    → length a ≡ i
    → length a + length m ≡ j
    → slice i j (a ++ (m ++ b)) ≡ m
unfolding slice
slice_between a m b i j p q =
    let d : j - length a ≡ length m = omega arith in
    rw (← p, drop-append_self a (m ++ b), d, take-append_self m b)

pub index_of-none : (c : ℕ) (s : Text) → contains c s ≡ false → index_of c s ≡ none
index_of-none c [] h = refl
index_of-none c (d ∷ s) h = ground (arith, index_of-none c s)

pub index_of-append :
    (c : ℕ) (p r : Text) → contains c p ≡ false → index_of c (p ++ (c ∷ r)) ≡ some (length p)
index_of-append c [] r h = ground arith
index_of-append c (d ∷ p) r h = ground (arith, index_of-append c p r)

-- A text has no separator, or is a part without one, a separator and the rest.
split_at :
    (c : ℕ) (s : Text)
    → (contains c s ≡ false)
      ⊎ ((p : Text) × (r : Text) × (s ≡ p ++ (c ∷ r)) × (contains c p ≡ false))
split_at c [] = inl refl
split_at c (d ∷ s) = elim (Bool-cases (d == c)) [
  | inl e ↦ inr ([], s, ground (arith, ==_iff d c), refl)
  | inr e ↦ elim (split_at c s) [
    | inl h ↦ inl (ground arith)
    | inr (p, r, h, k) ↦ inr (d ∷ p, r, ap (◌∷◌ d) h, ground arith)
  ]
]

-- What the records are meant to be: the lines that are not empty.
abbrev pub kept : List Text → List Text
kept [] = []
kept (l ∷ ls) = if non_empty l then l ∷ kept ls else kept ls

pub walk_past :
    (table : Text) (fuel start : ℕ) → length table ≤ start → walk_from table fuel start ≡ []
unfolding walk_from
walk_past table zero start h = refl
walk_past table (suc fuel) start h = ground arith

walk_step :
    (table : Text) (fuel start stop : ℕ)
    → or_end table (find_newline table start) ≡ stop
    → start < length table
    → walk_from table (suc fuel) start ≡ (
        if ltb start stop
        then (start, stop) ∷ walk_from table fuel (stop + 1)
        else walk_from table fuel (stop + 1))
unfolding walk_from
walk_step table fuel start stop e h = rw (e, lt→ltb start (length table) h)

stop_at :
    (before p r : Text)
    → contains 10 p ≡ false
    → or_end (before ++ (p ++ (10 ∷ r))) (find_newline (before ++ (p ++ (10 ∷ r))) (length before))
      ≡ length before + length p
stop_at before p r h = rw (drop-append_self before (p ++ (10 ∷ r)), index_of-append 10 p r h) refl

longer : (before p : Text) (c : ℕ) (r : Text) → length before < length (before ++ (p ++ (c ∷ r)))
longer before p c r =
    omega (arith, length-append {0} before (p ++ (c ∷ r)), length-append {0} p (c ∷ r))

-- One round at the start of a line that ends.
pub walk_line :
    (before p r : Text) (fuel : ℕ)
    → contains 10 p ≡ false
    → walk_from (before ++ (p ++ (10 ∷ r))) (suc fuel) (length before) ≡ (
        let rest = walk_from (before ++ (p ++ (10 ∷ r))) fuel (length before + length p + 1) in
        if non_empty p then (length before, length before + length p) ∷ rest else rest)
walk_line before [] r fuel h =
    walk_step _ fuel (length before) (length before + 0) (stop_at before [] r h)
      (longer before [] 10 r)
    ∙ ground arith
walk_line before (c ∷ p) r fuel h =
    walk_step _ fuel (length before) (length before + length (c ∷ p)) (stop_at before (c ∷ p) r h)
      (longer before (c ∷ p) 10 r)
    ∙ ground arith

-- The last line, if the table does not end with a line end.
walk_last :
    (before p : Text) (fuel : ℕ)
    → contains 10 p ≡ false
    → walk_from (before ++ p) (suc fuel) (length before)
      ≡ (if non_empty p then (length before, length before + length p) ∷ [] else [])
walk_last before [] fuel h =
    walk_past (before ++ []) (suc fuel) (length before) (omega (arith, length-append {0} before []))
walk_last before (c ∷ p) fuel h =
    walk_step (before ++ (c ∷ p)) fuel (length before) (length before + length (c ∷ p)) (end h)
      (longer before [] c p)
    ∙ rw
        (walk_past (before ++ (c ∷ p)) fuel (length before + length (c ∷ p) + 1)
          (omega (arith, length-append {0} before (c ∷ p))))
        (ground arith)
  where
    end :
        contains 10 (c ∷ p) ≡ false
        → or_end (before ++ (c ∷ p)) (find_newline (before ++ (c ∷ p)) (length before))
          ≡ length before + length (c ∷ p)
    end h =
        rw (drop-append_self before (c ∷ p), index_of-none 10 (c ∷ p) h)
          (length-append before (c ∷ p))

abbrev pub at_slice : Text → ℕ × ℕ → Text
at_slice table (start, stop) = slice start stop table

lines_last :
    (before p : Text) (fuel : ℕ)
    → contains 10 p ≡ false
    → map (at_slice (before ++ p)) (walk_from (before ++ p) (suc fuel) (length before))
      ≡ kept (split 10 p)
lines_last before [] fuel h = rw (walk_last before [] fuel h) refl
lines_last before (c ∷ p) fuel h =
    rw (walk_last before (c ∷ p) fuel h, split-one 10 (c ∷ p) h)
      (ap (λ l. l ∷ [])
        (rw (append-nil (c ∷ p)) at (
          slice_between before (c ∷ p) [] (length before) (length before + length (c ∷ p)) refl
            refl)))

lines_line :
    (before p r : Text) (fuel : ℕ)
    → contains 10 p ≡ false
    → let table = before ++ (p ++ (10 ∷ r)) in
      map (at_slice table) (walk_from table fuel (length before + length p + 1)) ≡ kept (split 10 r)
      → map (at_slice table) (walk_from table (suc fuel) (length before))
        ≡ kept (split 10 (p ++ (10 ∷ r)))
lines_line before [] r fuel h ih = rw (walk_line before [] r fuel h) ih
lines_line before (c ∷ p) r fuel h ih =
    rw (walk_line before (c ∷ p) r fuel h, split-append 10 (c ∷ p) r h, ih)
      (ap (λ l. l ∷ kept (split 10 r))
        (slice_between before (c ∷ p) (10 ∷ r) (length before) (length before + length (c ∷ p)) refl
          refl))

-- The start of the next line.
pub next_line :
    (before p r : Text)
    → ((before ++ (p ++ (10 ∷ []))) ++ r ≡ before ++ (p ++ (10 ∷ r)))
      × (length (before ++ (p ++ (10 ∷ []))) ≡ length before + length p + 1)
next_line before p r = (
  simp append_assoc,
  omega (arith, length-append {0} before (p ++ (10 ∷ [])), length-append {0} p (10 ∷ [])),
)

lines_from :
    (fuel : ℕ) (before rest : Text)
    → length rest < fuel
    → map (at_slice (before ++ rest)) (walk_from (before ++ rest) fuel (length before))
      ≡ kept (split 10 rest)
lines_from zero before rest h = absurd (omega arith)
lines_from (suc fuel) before rest h = elim (split_at 10 rest) [
  | inl none_left ↦ lines_last before rest fuel none_left
  | inr (p, r, e, k) ↦
      let short : length r < fuel =
        omega (arith, ap (length {0} {A = ℕ}) e, length-append {0} p (10 ∷ r)) in
      let there = next_line before p r in
      let ih = rw (there.0, there.1) at (lines_from fuel (before ++ (p ++ (10 ∷ []))) r short) in
      rw e (lines_line before p r fuel k ih)
]

-- The records that `_walk` yields are the lines of the table that are not empty, in order: what
-- splitting the table at every line end gives, whether or not it ends with one.
pub walk-lines : (table : Text) → map (at_slice table) (walk table) ≡ kept (split 10 table)
unfolding walk
walk-lines table = lines_from (suc (length table)) [] table (omega arith)
