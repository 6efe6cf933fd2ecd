-- ===== src/CmdFiles.antt =====
-- src/python/cli/cmd_files.py: the commands on files. `say` is `ctx.out.line`.
pub mod Copy
use mdioprobe.Exec.{
  Exec, Result, ok, fails, formatted, defect, pure, raise, refuse, lift, ◌>>=◌, ◌>>◌,
  except_os_error, with_finally,
}
use mdioprobe.Prelude.Text.{Text, codes, concat}
use mdioprobe.Prelude.{
  bit_and, ℕ, zero, suc, ◌+◌, ◌*◌, ◌/◌, Bool, true, false, not, List, [], ◌∷◌, ◌++◌, Option, none,
  some, ◌==◌, if◌then◌else◌,
}
use mdioprobe.Volume.{Volume, read_bytes, write_bytes}

abbrev pub chunk_size : ℕ
chunk_size = 256

-- `_one` and `_two`
abbrev pub one_path : List Text → Text → Result Text
one_path (a ∷ []) usage = ok a
one_path _ usage = fails (formatted (codes "usage: " ++ usage))

abbrev pub two_paths : List Text → Text → Result (Text × Text)
two_paths (a ∷ b ∷ []) usage = ok (a, b)
two_paths _ usage = fails (formatted (codes "usage: " ++ usage))

-- `kind & 0x4000`
abbrev pub is_dir : ℕ → Bool
is_dir kind = not (bit_and kind 0x4000 == 0)

-- `try: m` with `except OSError: raise CommandError(...)`
abbrev pub or_refuse : {S A : Type 0} → Exec S A → List Text → Exec S A
or_refuse m parts = except_os_error m (λ _. refuse (formatted (concat parts)))

module _ {S : Type 0} (vol : Volume S) (rounds : S → ℕ) where
  -- The loop of `copy_file`, by the rounds left; the last one reads nothing more.
  unfoldable pub copy_chunks : ℕ → ℕ → ℕ → Exec S (Unit {0})
  copy_chunks zero source sink = raise (defect (codes "rounds"))
  copy_chunks (suc left) source sink = do
    chunk ← vol.read_some source chunk_size
    elim chunk [
      | [] ↦ pure tt
      | c ∷ rest ↦ vol.write sink (c ∷ rest) >> copy_chunks left source sink
    ]

  -- `copy_file`, whose loop has as many rounds as are given.
  unfoldable pub copy_within : ℕ → Text → Text → Exec S (Unit {0})
  unfolding copy_chunks
  copy_within left src dst = do
    source ← or_refuse (vol.open_file src read_bytes) (codes "cannot open " ∷ src ∷ [])
    with_finally
        (do
          sink ← or_refuse (vol.open_file dst write_bytes) (codes "cannot create " ∷ dst ∷ [])
          with_finally (copy_chunks left source sink) (vol.close sink))
        (vol.close source)

  unfoldable pub copy_file : Text → Text → Exec S (Unit {0})
  unfolding copy_within
  copy_file src dst s = copy_within (rounds s) src dst s

  unfoldable pub cmd_copy : List Text → Exec S (Unit {0})
  unfolding copy_file
  cmd_copy args = do
    paths ← lift (two_paths args (codes "copy <src> <dst>"))
    copy_file paths.0 paths.1

  unfoldable pub cmd_move : List Text → Exec S (Unit {0})
  unfolding copy_file
  cmd_move args = do
    paths ← lift (two_paths args (codes "move <src> <dst>"))
    stat ← or_refuse (vol.stat paths.0) (codes "cannot stat " ∷ paths.0 ∷ [])
    if is_dir stat.kind
        then refuse (
            formatted (
              concat (
                paths.0
                ∷ codes
                    " is a directory, and this filesystem cannot rename — copy the files across and remove the old directory"
                ∷ [])))
        else pure tt
    copy_file paths.0 paths.1
    or_refuse (vol.remove paths.0) (
        codes "copied to "
        ∷ paths.1
        ∷ codes " but could not remove "
        ∷ paths.0
        ∷ codes " — both exist now"
        ∷ [])

module _ {S : Type 0} (vol : Volume S) (say : Text → Exec S (Unit {0})) where
  unfoldable pub cmd_cd : List Text → Exec S (Unit {0})
  cmd_cd args = do
    path ← lift (one_path args (codes "cd <path>"))
    or_refuse (vol.chdir path) (codes "no such directory: " ∷ path ∷ [])
    here ← vol.getcwd
    say here

  unfoldable pub cmd_pwd : List Text → Exec S (Unit {0})
  cmd_pwd args = do here ← vol.getcwd; say here

  unfoldable pub cmd_mkdir : List Text → Exec S (Unit {0})
  cmd_mkdir args = do
    path ← lift (one_path args (codes "mkdir <path>"))
    or_refuse (vol.mkdir path) (codes "cannot create " ∷ path ∷ [])

  unfoldable pub cmd_rm : List Text → Exec S (Unit {0})
  cmd_rm args = do
    path ← lift (one_path args (codes "rm <path>"))
    or_refuse
        (do stat ← vol.stat path; if is_dir stat.kind then vol.rmdir path else vol.remove path)
        (codes "cannot remove " ∷ path ∷ [])
