-- ===== src/CmdEdit/Session.antt =====
-- `cmd_edit`: the loop of the editor. `os_error_text` is `str` of an `OSError`.
use mdioprobe.CmdEdit.Places.{Applied, going, done, unsaved}
use mdioprobe.CmdEdit.Verbs.{apply}
use mdioprobe.CmdEdit.{Typed, typed, interrupted, ended, Desk, on_desk, set_lines, next_input, load}
use mdioprobe.Exec.{Exec, Result, err, os_error, command_error, says, pure, refuse, ◌>>=◌, ◌>>◌}
use mdioprobe.Format.{decimal}
use mdioprobe.Prelude.Text.{Text, codes, concat, strip}
use mdioprobe.Prelude.{ℕ, zero, suc, Bool, true, false, List, [], ◌∷◌, ◌++◌, length}
use mdioprobe.Shell.{message_text}
use mdioprobe.Volume.{Volume}

module _ {S : Type 0} (vol : Volume S) (rounds : S → ℕ) (say : Text → Exec S (Unit {0}))
    (os_error_text : ℕ → Text) (path : Text) where
  -- The `except` clauses around `_apply`.
  abbrev pub caught : Bool → Result Applied × Desk S → Result Applied × Desk S
  caught dirty (err (command_error m), c) =
      (do on_desk (say (codes "error: " ++ message_text m)); pure (going dirty)) c
  caught dirty (err (os_error n), c) =
      (do on_desk (say (codes "error: " ++ os_error_text n)); pure (going dirty)) c
  caught dirty (r, c) = (r, c)

  -- A line that is not blank is applied.
  unfoldable pub obey : Bool → Text → Exec (Desk S) Applied
  obey dirty [] c = pure (going dirty) c
  obey dirty (x ∷ s) c = caught dirty (apply vol rounds say path (x ∷ s) dirty c)

  unfoldable pub answer : Bool → Typed → Exec (Desk S) Applied
  unfolding obey
  answer dirty interrupted = do on_desk (say []); pure (going dirty)
  answer true ended = do on_desk (say []); on_desk (say unsaved); pure (going true)
  answer false ended = do on_desk (say []); pure done
  answer dirty (typed s) = obey dirty (strip s)

  -- One round of the loop of `cmd_edit`; `done` is its `return`.
  unfoldable pub round : Bool → Exec (Desk S) Applied
  unfolding answer
  round dirty = do event ← next_input; answer dirty event

  -- The first `n` rounds.
  unfoldable pub follow : ℕ → Applied → Exec (Desk S) Applied
  unfolding round
  follow n done = pure done
  follow zero (going dirty) = pure (going dirty)
  follow (suc n) (going dirty) = do next ← round dirty; follow n next

module _ {S : Type 0} (vol : Volume S) (rounds : S → ℕ) (say : Text → Exec S (Unit {0}))
    (os_error_text : ℕ → Text) where
  unfoldable pub cmd_edit : ℕ → List Text → Exec (Desk S) Applied
  unfolding follow
  cmd_edit n (path ∷ []) = do
    lines ← on_desk (load vol rounds path)
    set_lines lines
    on_desk (
        say (
          concat (
            path
            ∷ codes ": "
            ∷ decimal (length lines)
            ∷ codes " line(s). `h` for help, `q` to leave."
            ∷ [])))
    follow vol rounds say os_error_text path n (going false)
  cmd_edit n _ = refuse (says "usage: edit <file>")
