-- ===== src/Shell.antt =====
-- src/python/cli/shell.py: one line of the shell. The table of commands may change as commands run,
-- so it is read from the state where it is looked up.
pub mod Lines
use mdioprobe.Exec.{
  Exec, Exc, os_error, command_error, interrupt, system_exit, raise, Message, says, unbalanced,
  not_a_number, out_of_range, runs_backwards, empty_spec, stayed_busy, switch_range,
  extra_arguments, ambiguous, unknown_command, formatted, Result, ok, err, pure, refuse, lift,
  ◌>>=◌, ◌>>◌,
}
use mdioprobe.Format.{decimal}
use mdioprobe.Output.Sink.{Console, Disk, put_line, redirect}
use mdioprobe.Parser.{Redirected, split_redirect, tokenize}
use mdioprobe.Prelude.Int.{ℤ, pos, negsuc}
use mdioprobe.Prelude.Text.{Text, codes, concat, join, strip}
use mdioprobe.Prelude.{
  ℕ, suc, ◌+◌, Bool, true, false, List, [], ◌∷◌, ◌++◌, Option, none, some, ◌==◌, if◌then◌else◌,
}
use mdioprobe.Registry.{Command, Table, lookup}

abbrev pub int_text : ℤ → Text
int_text (pos n) = decimal n
int_text (negsuc n) = b'-' ∷ decimal (suc n)

-- `str(exc)` of a `CommandError`.
unfoldable pub message_text : Message → Text
message_text (says s) = codes s
message_text (unbalanced q) = concat (codes "unbalanced " ∷ (q ∷ []) ∷ codes " quote" ∷ [])
message_text (not_a_number what token) =
    concat (codes what ∷ codes " is not a number: " ∷ token ∷ [])
message_text (out_of_range what low high value) = concat (
    codes what
    ∷ codes " out of range "
    ∷ int_text low
    ∷ codes ".."
    ∷ int_text high
    ∷ codes ": "
    ∷ int_text value
    ∷ [])
message_text (runs_backwards what part) =
    concat (codes what ∷ codes " range runs backwards: " ∷ part ∷ [])
message_text (empty_spec what) = concat (codes "empty " ∷ codes what ∷ codes " specification" ∷ [])
message_text (stayed_busy what) =
    concat (codes what ∷ codes " stayed busy — is this a Marvell switch?" ∷ [])
message_text (switch_range addr) = codes "switch address out of range 0..31: " ++ int_text addr
message_text (extra_arguments rest) =
    concat (codes "unexpected extra arguments: " ∷ join (b' ' ∷ []) rest ∷ [])
message_text (ambiguous name names) =
    concat (name ∷ codes " is ambiguous: " ∷ join (codes ", ") names ∷ [])
message_text (unknown_command name) =
    concat (codes "unknown command: " ∷ name ∷ codes " (try `help`)" ∷ [])
message_text (formatted text) = text

-- `_ERRNO_HELP`
abbrev pub errno_help : ℕ → Option Text
errno_help code =
    if code == 5
    then some (codes "the target did not respond")
    else if code == 11
    then some (codes "the bus stayed idle")
    else if code == 16
    then some (codes "the connector is not in MDIO mode")
    else if code == 19
    then some (codes "no target detected — connect one, or declare the rail with `bus force <mv>`")
    else if code == 22
    then some (codes "value out of range")
    else if code == 110
    then some (codes "the translator supply did not reach the bus rail")
    else none

abbrev pub or_failed : ℕ → Option Text → Text
or_failed code none = concat (codes "operation failed (errno " ∷ decimal code ∷ codes ")" ∷ [])
or_failed code (some text) = text

-- `_explain_oserror`
unfoldable pub explain_oserror : ℕ → Text
explain_oserror code = or_failed code (errno_help code)

abbrev pub Handler : Type 0 → Type 0 → Type 0
Handler S F = List Text → Exec (Console S F) (Unit {0})

-- `print_exception` is `sys.print_exception`, which the firmware provides.
module _ {S F : Type 0} (disk : Disk S F) (commands : Console S F → Table (Handler S F))
    (print_exception : Exc → Exec (Console S F) (Unit {0})) where
  -- `lookup(tokens[0])` in the table as it is now.
  abbrev pub look_up : Text → Exec (Console S F) (Command (Handler S F))
  look_up name c = lift (lookup name (commands c)) c

  -- The handler, in a redirection if there is a path.
  abbrev pub sent_to :
      Option Text → Bool → Exec (Console S F) (Unit {0}) → Exec (Console S F) (Unit {0})
  sent_to none append body = body
  sent_to (some path) append body = redirect disk path append body

  unfoldable pub run_tokens : Redirected → List Text → Exec (Console S F) (Unit {0})
  run_tokens r [] = refuse (says "nothing to run before the redirection")
  run_tokens r (name ∷ args) = do cmd ← look_up name; sent_to r.path r.append (cmd.fn args)

  unfoldable pub execute_stripped : Text → Exec (Console S F) (Unit {0})
  unfolding run_tokens
  execute_stripped [] = pure tt
  execute_stripped (c ∷ s) = if c == b'#' then pure tt else (do
    r ← lift (split_redirect (c ∷ s))
    tokens ← lift (tokenize r.line)
    run_tokens r tokens)

  -- `Shell.execute`
  unfoldable pub execute : Text → Exec (Console S F) (Unit {0})
  unfolding execute_stripped
  execute line = execute_stripped (strip line)

  -- The `except` clauses of `run_line`; none of them is for `SystemExit`.
  unfoldable pub report_failure : Exc → Exec (Console S F) (Unit {0})
  report_failure (command_error m) = put_line disk (codes "error: " ++ message_text m)
  report_failure (os_error code) = put_line disk (codes "error: " ++ explain_oserror code)
  report_failure interrupt = put_line disk (codes "interrupted")
  report_failure system_exit = raise system_exit
  report_failure e = do put_line disk (codes "internal error:"); print_exception e

  abbrev pub reported : Result (Unit {0}) × Console S F → Result Bool × Console S F
  reported (ok u, c) = pure true c
  reported (err e, c) = (do report_failure e; pure false) c

  -- `Shell.run_line`
  unfoldable pub run_line : Text → Exec (Console S F) Bool
  unfolding execute report_failure
  run_line line c = reported (execute line c)
