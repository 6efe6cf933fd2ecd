-- ===== src/CmdEdit/Words.antt =====
-- The words of an editor command.
use mdioprobe.Exec.Pure.{◌>>=◌}
use mdioprobe.Exec.{Result, ok, fails, out_of_range}
use mdioprobe.Format.{decimal}
use mdioprobe.Parser.{integer, non_empty}
use mdioprobe.Prelude.Int.{pos, pos_part, ltb_ℤ}
use mdioprobe.Prelude.Text.{Text, is_space, lstrip, starts_with}
use mdioprobe.Prelude.{ℕ, ◌-◌, Bool, ◌||◌, List, [], ◌∷◌, ◌++◌, length, replicate, if◌then◌else◌}

-- The characters up to the first blank, and what is left.
abbrev pub take_word : Text → Text × Text
take_word [] = ([], [])
take_word (c ∷ s) =
    let more = take_word s in if is_space c then ([], c ∷ s) else (c ∷ more.0, more.1)

-- `parts[0]` and `tail` of `s.split(None, 1)`, for a text without blanks around it.
unfoldable pub first_word : Text → Text × Text
first_word s = ((take_word s).0, lstrip (take_word s).1)

-- `s.split()`, with the word begun so far.
abbrev pub words_onto : Text → Text → List Text
words_onto cur [] = if non_empty cur then cur ∷ [] else []
words_onto cur (c ∷ s) =
    let next = words_onto (cur ++ (c ∷ [])) s in
    let fresh = words_onto [] s in
    if is_space c then (if non_empty cur then cur ∷ fresh else fresh) else next

unfoldable pub words : Text → List Text
words s = words_onto [] s

-- `part in s`
abbrev pub has_part : Text → Text → Bool
has_part part [] = starts_with [] part
has_part part (c ∷ s) = starts_with (c ∷ s) part || has_part part s

-- `{:4d}`
abbrev pub decimal_4 : ℕ → Text
decimal_4 n = replicate (4 - length (decimal n)) b' ' ++ decimal n

-- `_number`
unfoldable pub number : Text → List Text → Result ℕ
number token lines = do
  n ← integer token "line"
  if ltb_ℤ n (pos 1) || ltb_ℤ (pos (length lines)) n
      then fails (out_of_range "line" (pos 1) (pos (length lines)) n)
      else ok (pos_part n)
