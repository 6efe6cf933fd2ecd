-- ===== src/Prelude/Text.antt =====
-- Python strings as lists of code points, with the methods of `str` that the CLI calls.
use Prim.Native.Char.{code}
use Prim.Native.String.{String}
use mathlib.Core.List.{reverse}
use mdioprobe.Prelude.{
  ℕ, ◌+◌, ◌≡◌, Bool, true, false, ◌&&◌, ◌||◌, List, [], ◌∷◌, ◌++◌, Option, none, some, leb, ◌==◌,
  if◌then◌else◌, arith, ◌↔◌, refl, ◌∙◌, ap, All,
}

abbrev pub Text : Type 0
Text = List ℕ

abbrev pub codes : String → Text
codes String.[] = []
codes (String.◌∷◌ c s) = code c ∷ codes s

abbrev pub text_eq : Text → Text → Bool
text_eq [] [] = true
text_eq [] (d ∷ t) = false
text_eq (c ∷ s) [] = false
text_eq (c ∷ s) (d ∷ t) = c == d && text_eq s t

-- The characters that `strip()` takes off and `int()` skips.
abbrev pub is_space : ℕ → Bool
is_space c = c == b' ' || (leb 9 c && leb c 13)

abbrev pub lstrip : Text → Text
lstrip [] = []
lstrip (c ∷ s) = if is_space c then lstrip s else c ∷ s

abbrev pub rstrip : Text → Text
rstrip s = reverse (lstrip (reverse s))

unfoldable pub strip : Text → Text
strip s = rstrip (lstrip s)

-- `s.lower()` on ASCII.
abbrev pub lower_char : ℕ → ℕ
lower_char c = if leb b'A' c && leb c b'Z' then c + 32 else c

abbrev pub starts_with : Text → Text → Bool
starts_with s [] = true
starts_with [] (d ∷ t) = false
starts_with (c ∷ s) (d ∷ t) = c == d && starts_with s t

abbrev pub contains : ℕ → Text → Bool
contains d [] = false
contains d (c ∷ s) = c == d || contains d s

abbrev pub prepend : ℕ → List Text → List Text
prepend c [] = (c ∷ []) ∷ []
prepend c (p ∷ ps) = (c ∷ p) ∷ ps

-- `s.split(sep)` at one separator character: always at least one piece.
abbrev pub split : ℕ → Text → List Text
split sep [] = [] ∷ []
split sep (c ∷ s) = let rest = split sep s in if c == sep then [] ∷ rest else prepend c rest

-- `sep.join(parts)`.
abbrev pub join : Text → List Text → Text
join sep [] = []
join sep (p ∷ []) = p
join sep (p ∷ q ∷ r) = p ++ (sep ++ join sep (q ∷ r))

-- `"{}{}...".format(...)`: the parts of a line, one behind the other.
abbrev pub concat : List Text → Text
concat [] = []
concat (p ∷ ps) = p ++ concat ps

-- What stands before the first `d`, and what stands behind it.
abbrev pub cut_at : ℕ → Text → Option (Text × Text)
cut_at d [] = none
cut_at d (c ∷ s) =
    if c == d
    then some ([], s)
    else (elim (cut_at d s) [ none ↦ none | some (a, b) ↦ some (c ∷ a, b) ])

pub text_eq_iff : (s t : Text) → (text_eq s t ≡ true) ↔ (s ≡ t)
text_eq_iff [] [] = ground arith
text_eq_iff [] (d ∷ t) = ground arith
text_eq_iff (c ∷ s) [] = ground arith
text_eq_iff (c ∷ s) (d ∷ t) = ground (arith, text_eq_iff s t)

pub split-one : (sep : ℕ) (p : Text) → contains sep p ≡ false → split sep p ≡ p ∷ []
split-one sep [] h = refl
split-one sep (c ∷ p) h = ground (arith, split-one sep p)

pub split-append :
    (sep : ℕ) (p rest : Text)
    → contains sep p ≡ false
    → split sep (p ++ (sep ∷ rest)) ≡ p ∷ split sep rest
split-append sep [] rest h = ground arith
split-append sep (c ∷ p) rest h = ground (arith, split-append sep p rest)

-- Splitting undoes joining, if there are parts and none holds the separator.
pub split-join :
    (sep : ℕ) (p : Text) (ps : List Text)
    → contains sep p ≡ false
    → All (λ t. contains sep t ≡ false) ps
    → split sep (join (sep ∷ []) (p ∷ ps)) ≡ p ∷ ps
split-join sep p [] h hs = split-one sep p h
split-join sep p (q ∷ ps) h hs =
    split-append sep p (join (sep ∷ []) (q ∷ ps)) h ∙ ap (◌∷◌ p) (split-join sep q ps hs.0 hs.1)
