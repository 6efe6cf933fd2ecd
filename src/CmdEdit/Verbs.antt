-- ===== src/CmdEdit/Verbs.antt =====
-- `_apply`: the commands of the editor.
use mdioprobe.CmdEdit.Places.{
  Verb, verb_of, Applied, numbered_line, ends_of, in_order, place_of, first_number, span_of,
  inserted, replaced, deleted, unsaved, help_lines, help, print, find, add, insert, edit, replace,
  delete, write, quit, discard, unknown, going, done,
}
use mdioprobe.CmdEdit.Words.{first_word, words, has_part}
use mdioprobe.CmdEdit.{
  Typed, typed, interrupted, ended, Desk, on_desk, get_lines, set_lines, next_input, block_of, save,
}
use mdioprobe.Exec.{Exec, says, formatted, pure, refuse, lift, ◌>>=◌, ◌>>◌}
use mdioprobe.Format.{decimal}
use mdioprobe.Parser.{range}
use mdioprobe.Prelude.Text.{Text, codes, concat}
use mdioprobe.Prelude.{
  ℕ, ◌+◌, ◌-◌, Bool, true, false, List, [], ◌∷◌, Option, none, some, length, set, get_or,
  if◌then◌else◌,
}
use mdioprobe.Volume.{Volume}

module _ {S : Type 0} (say : Text → Exec S (Unit {0})) where
  unfoldable pub say_all : List Text → Exec (Desk S) (Unit {0})
  say_all [] = pure tt
  say_all (t ∷ ts) = do on_desk (say t); say_all ts

  -- The loop of `_print`.
  unfoldable pub print_from : Bool → List Text → List ℕ → Exec (Desk S) (Unit {0})
  print_from numbered lines [] = pure tt
  print_from numbered lines (i ∷ is) = do
    on_desk (
        say
          (if numbered then numbered_line i (get_or lines (i - 1) []) else get_or lines (i - 1) []))
    print_from numbered lines is

  unfoldable pub print_lines : Bool → List Text → List Text → Exec (Desk S) (Unit {0})
  unfolding print_from
  print_lines numbered args [] = on_desk (say (codes "(empty)"))
  print_lines numbered args (l ∷ lines) = do
    ends ← lift (ends_of (l ∷ lines) args)
    let span : ℕ × ℕ = in_order ends
    print_from numbered (l ∷ lines) (range (span.0) (span.1 + 1 - span.0))

  -- The loop of `g`, from line `i` on.
  unfoldable pub find_from : Text → ℕ → ℕ → List Text → Exec (Desk S) ℕ
  find_from text i hits [] = pure hits
  find_from text i hits (line ∷ lines) = do
    if has_part text line then on_desk (say (numbered_line i line)) else pure tt
    find_from text (i + 1) (if has_part text line then hits + 1 else hits) lines

  unfoldable pub find_lines : Text → List Text → Exec (Desk S) (Unit {0})
  unfolding find_from
  find_lines [] lines = refuse (says "g needs some text to look for")
  find_lines (c ∷ s) lines = do
    hits ← find_from (c ∷ s) 1 0 lines
    on_desk (say (concat (decimal hits ∷ codes " line(s) match" ∷ [])))

  abbrev pub block_read : Option (List Text) → Exec (Desk S) (Option (List Text))
  block_read none = do on_desk (say (codes "(cancelled)")); pure none
  block_read (some block) = pure (some block)

  -- `_read_block`
  unfoldable pub read_block : Exec (Desk S) (Option (List Text))
  read_block c =
      let found = block_of c.inputs in block_read (found.0) (record c { inputs = found.1 })

  unfoldable pub add_block : Bool → ℕ → Option (List Text) → Exec (Desk S) Applied
  add_block dirty at none = pure (going dirty)
  add_block dirty at (some []) = pure (going dirty)
  add_block dirty at (some (l ∷ block)) = do
    lines ← get_lines
    set_lines (inserted at (l ∷ block) lines)
    on_desk (say (concat (decimal (length (l ∷ block)) ∷ codes " line(s) added" ∷ [])))
    pure (going true)

  unfoldable pub replace_block : Bool → ℕ → Option (List Text) → Exec (Desk S) Applied
  replace_block dirty n none = pure (going dirty)
  replace_block dirty n (some block) = do
    lines ← get_lines
    set_lines (replaced n block lines)
    on_desk (
        say (
          concat (
            codes "line "
            ∷ decimal n
            ∷ codes " replaced with "
            ∷ decimal (length block)
            ∷ codes " line(s)"
            ∷ [])))
    pure (going true)

  unfoldable pub edit_line : Bool → ℕ → Typed → Exec (Desk S) Applied
  edit_line dirty n (typed []) = pure (going dirty)
  edit_line dirty n (typed (c ∷ s)) = do
    lines ← get_lines
    set_lines (set lines (n - 1) (c ∷ s))
    pure (going true)
  edit_line dirty n interrupted = do on_desk (say (codes "(unchanged)")); pure (going dirty)
  edit_line dirty n ended = do on_desk (say (codes "(unchanged)")); pure (going dirty)

module _ {S : Type 0} (vol : Volume S) (rounds : S → ℕ) (say : Text → Exec S (Unit {0}))
    (path : Text) where
  -- The branches of `_apply`, with the words behind the verb and the text that they stand in.
  unfoldable pub run_verb : Verb → List Text → Text → Text → Bool → Exec (Desk S) Applied
  unfolding say_all print_lines find_lines read_block add_block replace_block edit_line
  run_verb help rest tail verb dirty = do say_all say help_lines; pure (going dirty)
  run_verb (print numbered) rest tail verb dirty = do
    lines ← get_lines
    print_lines say numbered rest lines
    pure (going dirty)
  run_verb find rest tail verb dirty = do
    lines ← get_lines
    find_lines say tail lines
    pure (going dirty)
  run_verb add rest tail verb dirty = do
    lines ← get_lines
    at ← lift (place_of false lines rest)
    block ← read_block say
    add_block say dirty at block
  run_verb insert rest tail verb dirty = do
    lines ← get_lines
    at ← lift (place_of true lines rest)
    block ← read_block say
    add_block say dirty at block
  run_verb edit rest tail verb dirty = do
    lines ← get_lines
    n ← lift (first_number "e needs a line number" lines rest)
    on_desk (say (numbered_line n (get_or lines (n - 1) [])))
    answer ← next_input
    edit_line say dirty n answer
  run_verb replace rest tail verb dirty = do
    lines ← get_lines
    n ← lift (first_number "r needs a line number" lines rest)
    block ← read_block say
    replace_block say dirty n block
  run_verb delete rest tail verb dirty = do
    lines ← get_lines
    ends ← lift (span_of lines rest)
    let span : ℕ × ℕ = in_order ends
    set_lines (deleted (span.0) (span.1) lines)
    on_desk (say (concat (decimal (span.1 + 1 - span.0) ∷ codes " line(s) deleted" ∷ [])))
    pure (going true)
  run_verb write rest tail verb dirty = do
    lines ← get_lines
    on_desk (save vol rounds path lines)
    on_desk
        (say (concat (path ∷ codes ": " ∷ decimal (length lines) ∷ codes " line(s) written" ∷ [])))
    pure (going false)
  run_verb quit rest tail verb true = do on_desk (say unsaved); pure (going true)
  run_verb quit rest tail verb false = pure done
  run_verb discard rest tail verb dirty = pure done
  run_verb unknown rest tail verb dirty =
      refuse
        (formatted (concat (codes "unknown editor command: " ∷ verb ∷ codes " (try `h`)" ∷ [])))

  -- `_apply`
  unfoldable pub apply : Text → Bool → Exec (Desk S) Applied
  unfolding run_verb
  apply command_line dirty =
      let parts = first_word command_line in
      run_verb (verb_of (parts.0)) (words (parts.1)) (parts.1) (parts.0) dirty
