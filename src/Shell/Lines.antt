-- ===== src/Shell/Lines.antt =====
-- A line that fails does not end the shell, and leaves its output where it was.
use mdioprobe.Exec.Pure.{of_Yields}
use mdioprobe.Exec.{
  Exec, Exc, os_error, command_error, value_error, interrupt, system_exit, defect, Result, ok, err,
  pure, continue, ◌>>◌,
}
use mdioprobe.Output.Sink.Redirect.{Keeps, redirect-Keeps}
use mdioprobe.Output.Sink.{Console, Disk, put_line}
use mdioprobe.Parser.{Redirected, split_redirect, tokenize}
use mdioprobe.Prelude.Text.{Text, codes, strip}
use mdioprobe.Prelude.{
  ◌≡◌, refl, ◌∙◌, All, List, [], ◌∷◌, ◌++◌, Option, none, some, Bool, true, false, Bool-cases, inl,
  inr, ◌==◌,
}
use mdioprobe.Registry.Members.{lookup-Yields}
use mdioprobe.Registry.{Table, Command, lookup}
use mdioprobe.Shell.{
  Handler, execute, execute_stripped, run_tokens, sent_to, report_failure, reported, run_line,
}

-- The handler leaves the sink that it finds.
abbrev pub KeepsSink : {S F : Type 0} → Command (Handler S F) → Type 0
KeepsSink cmd = (args : List Text) → Keeps (cmd.fn args)

-- So does every handler that can be looked up.
abbrev pub IsTidy : {S F : Type 0} → (Console S F → Table (Handler S F)) → Type 0
IsTidy {S = S} {F = F} commands =
    (c : Console S F) → All (λ (e : Text × Command (Handler S F)). KeepsSink e.1) (commands c)

-- It returns, to the console.
abbrev pub IsPrompt : {S F A : Type 0} → (A → Type 0) → Result A × Console S F → Type 0
IsPrompt {S = S} {F = F} {A = A} P p =
    (a : A) × (c : Console S F) × (p ≡ (ok a, c)) × P a × (c.file ≡ none)

abbrev pub succeeded : {A : Type 0} → Result A → Bool
succeeded (ok a) = true
succeeded (err e) = false

-- The answer to a line that ended so: a `SystemExit` goes on, anything else is reported.
abbrev pub Answers : {S F : Type 0} → Result (Unit {0}) → Result Bool × Console S F → Type 0
Answers {S = S} {F = F} (err system_exit) q =
    (c : Console S F) × (q ≡ (err system_exit, c)) × (c.file ≡ none)
Answers r q = IsPrompt (λ b. b ≡ succeeded r) q

module _ {S F : Type 0} (disk : Disk S F) (commands : Console S F → Table (Handler S F))
    (print_exception : Exc → Exec (Console S F) (Unit {0})) (tidy : IsTidy commands) where
  sent-Keeps :
      (path : Option Text) (append : Bool) (body : Exec (Console S F) (Unit {0}))
      → Keeps body
      → Keeps (sent_to disk commands print_exception path append body)
  sent-Keeps none append body h = h
  sent-Keeps (some path) append body h = redirect-Keeps disk path append body

  found-Keeps :
      (r : Redirected) (args : List Text) (c : Console S F) (q : Result (Command (Handler S F)))
      → ((cmd : Command (Handler S F)) → q ≡ ok cmd → Keeps (cmd.fn args))
      → (continue
          (λ (cmd : Command (Handler S F)).
            sent_to disk commands print_exception r.path r.append (cmd.fn args))
          (q, c)).1.file
        ≡ c.file
  found-Keeps r args c (ok cmd) h = sent-Keeps r.path r.append (cmd.fn args) (h cmd refl) c
  found-Keeps r args c (err e) h = refl

  tokens-Keeps :
      (r : Redirected) (tokens : List Text)
      → Keeps (run_tokens disk commands print_exception r tokens)
  unfolding run_tokens
  tokens-Keeps r [] c = refl
  tokens-Keeps r (name ∷ args) c =
      found-Keeps r args c (lookup name (commands c))
        (λ cmd e. of_Yields (lookup-Yields KeepsSink name (commands c) (tidy c)) e args)

  lifted-Keeps :
      {A : Type 0} (r : Result A) (f : A → Exec (Console S F) (Unit {0})) (c : Console S F)
      → ((a : A) → Keeps (f a))
      → (continue f (r, c)).1.file ≡ c.file
  lifted-Keeps (ok a) f c h = h a c
  lifted-Keeps (err e) f c h = refl

  stripped-Keeps : (line : Text) → Keeps (execute_stripped disk commands print_exception line)
  unfolding execute_stripped
  stripped-Keeps [] c = refl
  stripped-Keeps (x ∷ s) c = elim (Bool-cases (x == b'#')) [
    | inl e ↦ rw e refl
    | inr e ↦ rw e (
        lifted-Keeps (split_redirect (x ∷ s)) _ c (λ r d.
          lifted-Keeps (tokenize r.line) (run_tokens disk commands print_exception r) d
            (tokens-Keeps r)))
  ]

  -- Whatever is typed, whatever the handler and the file system do: after the line the output goes
  -- where it went before.
  pub execute-Keeps : (line : Text) → Keeps (execute disk commands print_exception line)
  unfolding execute
  execute-Keeps line c = stripped-Keeps (strip line) c

  put_line-console :
      (text : Text) (c : Console S F)
      → c.file ≡ none
      → put_line disk text c ≡ (ok tt, record c { shown = c.shown ++ (text ∷ []) })
  unfolding put_line
  put_line-console text c h = rw h refl

  module _
      (shows : (e : Exc) (c : Console S F)
        → c.file ≡ none
        → IsPrompt (λ _. Unit {0}) (print_exception e c)) where
    internal_lem :
        (e : Exc) (c : Console S F)
        → c.file ≡ none
        → IsPrompt
            (λ b. b ≡ false)
            (((put_line disk (codes "internal error:") >> print_exception e) >> pure false) c)
    internal_lem e c h =
        let (u, d, p, t, k) =
          shows e (record c { shown = c.shown ++ (codes "internal error:" ∷ []) }) h in
        (false, d, rw (put_line-console (codes "internal error:") c h, p) refl, refl, k)

    said :
        (text : Text) (c : Console S F)
        → c.file ≡ none
        → IsPrompt (λ b. b ≡ false) ((put_line disk text >> pure false) c)
    said text c h = (
      false,
      record c { shown = c.shown ++ (text ∷ []) },
      rw (put_line-console text c h) refl,
      refl,
      h,
    )

    reported_lem :
        (p : Result (Unit {0}) × Console S F)
        → p.1.file ≡ none
        → Answers p.0 (reported disk commands print_exception p)
    unfolding report_failure
    reported_lem (ok u, c) h = (true, c, refl, refl, h)
    reported_lem (err (command_error m), c) h = said _ c h
    reported_lem (err (os_error n), c) h = said _ c h
    reported_lem (err interrupt, c) h = said _ c h
    reported_lem (err system_exit, c) h = (c, refl, h)
    reported_lem (err (value_error t), c) h = internal_lem (value_error t) c h
    reported_lem (err (defect t), c) h = internal_lem (defect t) c h

    -- Let no handler leave another sink than it found, and `sys.print_exception` return and leave the
    -- console. Then at the console, for every line, however it is written: if `execute` returns or
    -- raises anything but `SystemExit`, `run_line` returns, true just if nothing was raised; a
    -- `SystemExit` it raises again. In each case output goes to the console again.
    pub run_line-IsPrompt :
        (line : Text) (c : Console S F)
        → c.file ≡ none
        → Answers
            (execute disk commands print_exception line c).0
            (run_line disk commands print_exception line c)
    unfolding run_line
    run_line-IsPrompt line c h =
        reported_lem (execute disk commands print_exception line c) (execute-Keeps line c ∙ h)
