-- ===== src/Extend.antt =====
-- src/python/cli/extend.py: command modules that are loaded from the volume. `F` is the type of
-- handlers and `W` the rest of the world; `imports` is `__import__`.
pub mod Names
pub mod Undo
use mdioprobe.Exec.{Exec, Result, Exc, ok, err, interrupt, system_exit, pure, ◌>>=◌}
use mdioprobe.MvPort.Verbs.{is_one_of}
use mdioprobe.Prelude.Text.{Text, text_eq}
use mdioprobe.Prelude.{Bool, true, false, List, [], ◌∷◌, map, if◌then◌else◌}
use mdioprobe.Registry.{Command, Table, sorted}

-- `COMMANDS`, `LOADED` and the names of `sys.modules`.
pub record Session (F W : Type 0) : Type 0 where
  pub commands : Table F
  pub loaded : List (Text × List Text)
  pub modules : List Text
  pub world : W

-- `d.pop(name, None)`
abbrev pub pop : {A : Type 0} → Text → List (Text × A) → List (Text × A)
pop name [] = []
pop name ((k, a) ∷ rest) =
    let more = pop name rest in if text_eq k name then more else (k, a) ∷ more

-- `d.get(name, [])`
abbrev pub names_of : Text → List (Text × List Text) → List Text
names_of name [] = []
names_of name ((k, names) ∷ rest) =
    let more = names_of name rest in if text_eq k name then names else more

abbrev pub pop_all : {A : Type 0} → List Text → List (Text × A) → List (Text × A)
pop_all [] table = table
pop_all (name ∷ names) table = pop_all names (pop name table)

-- `modules.pop(name, None)`, of which the keys are kept.
abbrev pub forget : Text → List Text → List Text
forget name [] = []
forget name (k ∷ rest) = let more = forget name rest in if text_eq k name then more else k ∷ more

abbrev pub keys : {A : Type 0} → List (Text × A) → List Text
keys [] = []
keys ((k, a) ∷ rest) = k ∷ keys rest

-- `names - before`
abbrev pub fresh : List Text → List Text → List Text
fresh before [] = []
fresh before (k ∷ rest) =
    let more = fresh before rest in if is_one_of k before then more else k ∷ more

module _ {F W : Type 0} where
  unfoldable pub unload : Text → Exec (Session F W) (List Text)
  unload name s =
      let gone = names_of name s.loaded in
      pure gone (record s {
        commands = pop_all gone s.commands;
        loaded = pop name s.loaded;
        modules = forget name s.modules;
      })

  -- What a module that threw had registered is taken back.
  abbrev pub taken_back : Text → List Text → Session F W → Session F W
  taken_back name before s = record s {
    commands = pop_all (fresh before (keys s.commands)) s.commands;
    modules = forget name s.modules;
  }

  abbrev pub noted : Text → List Text → Session F W → Session F W
  noted name added s = record s { loaded = (name, added) ∷ pop name s.loaded }

  -- What follows `__import__`; `except Exception` lets a `KeyboardInterrupt` and
  -- a `SystemExit` pass.
  abbrev pub imported :
      Text → List Text → Result (Unit {0}) × Session F W → Result (List Text) × Session F W
  imported name before (ok u, s) =
      let added = sorted (fresh before (keys s.commands)) in (ok added, noted name added s)
  imported name before (err interrupt, s) = (err interrupt, s)
  imported name before (err system_exit, s) = (err system_exit, s)
  imported name before (err e, s) = (err e, taken_back name before s)

  unfoldable pub load :
      (Text → Exec (Session F W) (Unit {0})) → Text → Exec (Session F W) (List Text)
  load imports name s =
      let t = (unload name s).1 in imported name (keys t.commands) (imports name t)
