-- ===== src/Tests/Session.antt =====
-- A shell of two commands over a file system that is a text.
use mdioprobe.Exec.{Exec, Exc, ok, err, os_error, pure}
use mdioprobe.Output.Sink.Redirect.{redirect-Keeps}
use mdioprobe.Output.Sink.{Console, Disk, put_line, redirect}
use mdioprobe.Prelude.Text.{Text, codes}
use mdioprobe.Prelude.{
  ℕ, ◌≡◌, refl, List, [], ◌∷◌, ◌++◌, Option, none, some, Bool, true, false, if◌then◌else◌,
}
use mdioprobe.Registry.{Table, command, lookup}
use mdioprobe.Shell.Lines.{IsTidy, Answers, run_line-IsPrompt}
use mdioprobe.Shell.{Handler, execute, run_line}

-- The world is what has been written to the only file.
abbrev disk : Disk Text (Unit {0})
disk = record {
  open_file = λ path append w. (ok tt, if append then w else []);
  write = λ f text w. (ok tt, w ++ text);
  close = λ f w. (ok tt, w);
  free = λ w. (ok 600000, w);
}

abbrev start : Console Text (Unit {0})
start = record { world = []; file = none; checks = 0; shown = [] }

-- Writes a line, and fails.
abbrev failing : Handler Text (Unit {0})
failing args c = (err (os_error 5), record c { shown = c.shown ++ args })

abbrev table : Table (Handler Text (Unit {0}))
table = command (codes "read") [] [] [] [] failing []

abbrev traceback : Exc → Exec (Console Text (Unit {0})) (Unit {0})
traceback e = pure tt

redirect-Keeps_example :
    (redirect disk (codes "log") false (failing (codes "x" ∷ [])) start).1.file ≡ none
redirect-Keeps_example = redirect-Keeps disk (codes "log") false (failing (codes "x" ∷ [])) start

table-IsTidy : IsTidy (λ c. table)
unfolding command
table-IsTidy c = ((λ args d. refl), tt)

run_line-IsPrompt_example :
    Answers
      (execute disk (λ c. table) traceback (codes " rea 6 > log") start).0
      (run_line disk (λ c. table) traceback (codes " rea 6 > log") start)
run_line-IsPrompt_example =
    run_line-IsPrompt disk (λ c. table) traceback table-IsTidy (λ e c h. (tt, c, refl, tt, h))
      (codes " rea 6 > log") start refl

-- The error is shown on the console, not in the file.
run_error : run_line disk (λ c. table) traceback (codes " rea 6 > log") start ≡ (
  ok false,
  record start { shown = codes "6" ∷ codes "error: the target did not respond" ∷ [] },
)
unfolding run_line mdioprobe.Prelude.Text.strip mdioprobe.Parser.split_redirect
    mdioprobe.Parser.tokenize lookup command redirect put_line mdioprobe.Shell.explain_oserror
run_error = refl
