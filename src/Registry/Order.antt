-- ===== src/Registry/Order.antt =====
-- `sorted` puts names in the order of Python's `<` on strings.
use mdioprobe.Prelude.Text.{Text}
use mdioprobe.Prelude.{
  arith, ℕ, Bool, true, false, Bool-cases, inl, inr, ◌&&◌, ◌||◌, List, [], ◌∷◌, ◌≡◌, refl, ltb,
  ◌==◌,
}
use mdioprobe.Registry.{text_lt, insert_text, sorted}

-- No name stands behind a greater one.
abbrev pub IsInOrder : List Text → Type 0
IsInOrder [] = Unit {0}
IsInOrder (x ∷ []) = Unit {0}
IsInOrder (x ∷ y ∷ rest) = (text_lt y x ≡ false) × IsInOrder (y ∷ rest)

behind :
    (c d : ℕ) (a b : Bool)
    → (a ≡ true → b ≡ false)
    → (ltb c d || (c == d && a)) ≡ true
    → (ltb d c || (d == c && b)) ≡ false
behind c d true b h e = rw (h refl) (ground (arith, e))
behind c d false b h e = ground (arith, e)

text_lt_asym : (s t : Text) → text_lt s t ≡ true → text_lt t s ≡ false
text_lt_asym [] [] e = refl
text_lt_asym [] (d ∷ t) e = refl
text_lt_asym (c ∷ s) [] e = cc
text_lt_asym (c ∷ s) (d ∷ t) e = behind c d (text_lt s t) (text_lt t s) (text_lt_asym s t) e

-- A list in order stays so behind a name that is not greater than its first.
insert-IsInOrder : (x : Text) (xs : List Text) → IsInOrder xs → IsInOrder (insert_text x xs)
insert-IsInOrder x [] h = tt
insert-IsInOrder x (y ∷ []) h = elim (Bool-cases (text_lt y x)) [
  | inl e ↦ rw e (text_lt_asym y x e, tt)
  | inr e ↦ rw e (e, tt)
]
insert-IsInOrder x (y ∷ z ∷ rest) h = elim (Bool-cases (text_lt y x)) [
  | inl e ↦
      (let after = insert-IsInOrder x (z ∷ rest) h.1 in
        elim (Bool-cases (text_lt z x)) [
          | inl f ↦ rw (e, f) (h.0, rw f at after)
          | inr f ↦ rw (e, f) (text_lt_asym y x e, rw f at after)
        ])
  | inr e ↦ rw e (e, h)
]

pub sorted-IsInOrder : (xs : List Text) → IsInOrder (sorted xs)
sorted-IsInOrder [] = tt
sorted-IsInOrder (x ∷ xs) = insert-IsInOrder x (sorted xs) (sorted-IsInOrder xs)
