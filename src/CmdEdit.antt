-- ===== src/CmdEdit.antt =====
-- src/python/cli/cmd_edit.py: the line editor. `say` is `ctx.out.line`.
pub mod Words
pub mod Places
pub mod Verbs
pub mod Session
pub mod Save
pub mod Kept
pub mod Steps
pub mod Saved
use mdioprobe.CmdFiles.{copy_file}
use mdioprobe.Exec.{Exec, Result, ok, formatted, pure, refuse, ◌>>=◌, ◌>>◌, except_os_error}
use mdioprobe.Format.{decimal}
use mdioprobe.Prelude.Text.{Text, text_eq, codes, concat, split, join}
use mdioprobe.Prelude.{
  ℕ, Bool, true, false, List, [], ◌∷◌, ◌++◌, Option, none, some, ltb, if◌then◌else◌,
}
use mdioprobe.Volume.{Volume, Stat, read_text, write_text, with_file}

abbrev pub max_bytes : ℕ
max_bytes = 8192

-- What `input()` returns, or the exception that it raises; it raises `EOFError` at the end.
pub data Typed : Type 0 where
  typed : Text → Typed
  interrupted : Typed
  ended : Typed

-- The world, what will be typed, and the list `lines`, which commands change in place.
pub record Desk (S : Type 0) : Type 0 where
  pub world : S
  pub inputs : List Typed
  pub lines : List Text

module _ {S : Type 0} where
  abbrev pub moved : {A : Type 0} → Desk S → Result A × S → Result A × Desk S
  moved c (r, s) = (r, record c { world = s })

  abbrev pub on_desk : {A : Type 0} → Exec S A → Exec (Desk S) A
  on_desk m c = moved c (m c.world)

  abbrev pub get_lines : Exec (Desk S) (List Text)
  get_lines c = pure c.lines c

  abbrev pub set_lines : List Text → Exec (Desk S) (Unit {0})
  set_lines lines c = pure tt (record c { lines = lines })

  -- `input(prompt)`
  abbrev pub next_of : List Typed → Desk S → Result Typed × Desk S
  next_of [] c = (ok ended, c)
  next_of (x ∷ rest) c = (ok x, record c { inputs = rest })

  unfoldable pub next_input : Exec (Desk S) Typed
  next_input c = next_of c.inputs c

-- The lines that `_read_block` collects, and what is typed after them.
unfoldable pub block_of : List Typed → Option (List Text) × List Typed
block_of [] = (none, [])
block_of (interrupted ∷ rest) = (none, rest)
block_of (ended ∷ rest) = (none, rest)
block_of (typed line ∷ rest) =
    let more = block_of rest in
    if text_eq line (codes ".") then (some [], rest) else (elim (more.0) [
      | none ↦ (none, more.1)
      | some block ↦
          (some ((if text_eq line (codes "..") then codes "." else line) ∷ block), more.1)
    ])

abbrev pub backup : Text → Text
backup path = path ++ codes ".bak"

module _ {S : Type 0} (vol : Volume S) (rounds : S → ℕ) where
  abbrev pub load_sized : Text → Option Stat → Exec S (List Text)
  load_sized path none = pure []
  load_sized path (some stat) =
      if ltb max_bytes stat.size
      then refuse (
          formatted (
            concat (
              path
              ∷ codes " is "
              ∷ decimal stat.size
              ∷ codes " bytes; this editor stops at "
              ∷ decimal max_bytes
              ∷ codes ". Use `msd` and edit it from the host."
              ∷ [])))
      else (do text ← with_file vol path read_text vol.read_all; pure (split 10 text))

  abbrev pub stat_of : Text → Exec S (Option Stat)
  stat_of path = except_os_error (do stat ← vol.stat path; pure (some stat)) (λ _. pure none)

  -- `_load`
  unfoldable pub load : Text → Exec S (List Text)
  load path = do stat ← stat_of path; load_sized path stat

  -- Whether `os.stat` finds the file.
  abbrev pub is_there : Text → Exec S Bool
  is_there path = except_os_error (do stat ← vol.stat path; pure true) (λ _. pure false)

  abbrev pub keep_old : Text → Bool → Exec S (Unit {0})
  keep_old path true = copy_file vol rounds path (backup path)
  keep_old path false = pure tt

  -- `_save`
  unfoldable pub save : Text → List Text → Exec S (Unit {0})
  save path lines = do
    old ← is_there path
    keep_old path old
    with_file vol path write_text (λ f. vol.write f (join (10 ∷ []) lines))
