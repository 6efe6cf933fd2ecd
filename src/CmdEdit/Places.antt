-- ===== src/CmdEdit/Places.antt =====
-- The verbs of `_apply`, the lines that their words name, and what is done to the list of lines.
use mdioprobe.CmdEdit.Words.{decimal_4, number}
use mdioprobe.Exec.Pure
use mdioprobe.Exec.{Result, ok, fails, says, formatted}
use mdioprobe.Format.{decimal}
use mdioprobe.MvPort.Verbs.{is_one_of}
use mdioprobe.Parser.{integer}
use mdioprobe.Prelude.Int.{ℤ, pos, pos_part, ltb_ℤ}
use mdioprobe.Prelude.Text.{Text, text_eq, codes, concat}
use mdioprobe.Prelude.{
  ℕ, String, ◌+◌, ◌-◌, Bool, true, false, ◌||◌, List, [], ◌∷◌, ◌++◌, ltb, length, take, drop,
  if◌then◌else◌,
}

-- The verbs of `_apply`, of which `p` and `n` share a branch and so do `a` and `i`.
pub data Verb : Type 0 where
  help : Verb
  print : Bool → Verb
  find add insert edit replace delete write quit discard unknown : Verb

unfoldable pub verb_of : Text → Verb
verb_of v =
    if is_one_of v (codes "h" ∷ codes "?" ∷ codes "help" ∷ [])
    then help
    else if text_eq v (codes "p")
    then print false
    else if text_eq v (codes "n")
    then print true
    else if text_eq v (codes "g")
    then find
    else if text_eq v (codes "a")
    then add
    else if text_eq v (codes "i")
    then insert
    else if text_eq v (codes "e")
    then edit
    else if text_eq v (codes "r")
    then replace
    else if text_eq v (codes "d")
    then delete
    else if text_eq v (codes "w")
    then write
    else if text_eq v (codes "q")
    then quit
    else if text_eq v (codes "q!")
    then discard
    else unknown

-- The value of `dirty` that `_apply` returns, or `_Done`.
pub data Applied : Type 0 where
  going : Bool → Applied
  done : Applied

abbrev pub page : ℕ
page = 50

abbrev pub numbered_line : ℕ → Text → Text
numbered_line i line = concat (decimal_4 i ∷ codes "  " ∷ line ∷ [])

-- The two ends that `_print` is given.
abbrev pub ends_of : List Text → List Text → Result (ℕ × ℕ)
ends_of lines [] = ok (1, if ltb (length lines) page then length lines else page)
ends_of lines (a ∷ []) = Pure.◌>>=◌ (number a lines) (λ first.
    ok (first, if ltb (length lines) (first + page - 1) then length lines else first + page - 1))
ends_of lines (a ∷ b ∷ rest) =
    Pure.◌>>=◌ (number a lines) (λ first. Pure.◌>>=◌ (number b lines) (λ last. ok (first, last)))

-- `if first > last: first, last = last, first`
abbrev pub in_order : ℕ × ℕ → ℕ × ℕ
in_order (first, last) = if ltb last first then (last, first) else (first, last)

-- Where `a` and `i` put a block.
abbrev pub place_below : List Text → ℤ → Result ℕ
place_below lines at =
    if ltb_ℤ at (pos 0) || ltb_ℤ (pos (length lines)) at
    then fails (formatted (codes "line out of range 0.." ++ decimal (length lines)))
    else ok (pos_part at)

abbrev pub place_of : Bool → List Text → List Text → Result ℕ
place_of true lines [] = ok 0
place_of true lines (a ∷ rest) = Pure.◌>>=◌ (number a lines) (λ n. ok (n - 1))
place_of false lines [] = ok (length lines)
place_of false lines (a ∷ rest) = Pure.◌>>=◌ (integer a "line") (place_below lines)

abbrev pub first_number : String → List Text → List Text → Result ℕ
first_number what lines [] = fails (says what)
first_number what lines (a ∷ rest) = number a lines

-- The lines that `d` deletes.
abbrev pub span_of : List Text → List Text → Result (ℕ × ℕ)
span_of lines [] = fails (says "d needs a line number")
span_of lines (a ∷ []) = Pure.◌>>=◌ (number a lines) (λ first. ok (first, first))
span_of lines (a ∷ b ∷ rest) =
    Pure.◌>>=◌ (number a lines) (λ first. Pure.◌>>=◌ (number b lines) (λ last. ok (first, last)))

-- `lines[at:at] = block`, `lines[n - 1:n] = block` and `del lines[first - 1:last]`
abbrev pub inserted : ℕ → List Text → List Text → List Text
inserted at block lines = take at lines ++ (block ++ drop at lines)

abbrev pub replaced : ℕ → List Text → List Text → List Text
replaced n block lines = take (n - 1) lines ++ (block ++ drop n lines)

abbrev pub deleted : ℕ → ℕ → List Text → List Text
deleted first last lines = take (first - 1) lines ++ drop last lines

abbrev pub unsaved : Text
unsaved = codes "unsaved changes — `w` to write, `q!` to discard"

abbrev pub help_lines : List Text
help_lines =
    codes "  p [a [b]]   print lines a..b        n [a [b]]   same, numbered"
    ∷ codes "  a [line]    append after line       i <line>    insert before line"
    ∷ codes "  e <line>    replace one line        r <line>    replace with a block"
    ∷ codes "  d <a> [b]   delete lines            g <text>    find lines containing text"
    ∷ codes "  w           write                   q / q!      quit / quit discarding"
    ∷ codes "A block of text ends with a line holding only `.`; to enter a literal `.`,"
    ∷ codes "type `..`."
    ∷ []
