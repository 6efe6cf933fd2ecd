-- ===== src/Extend/Undo.antt =====
-- What a load added is taken back, by `unload` and by a load that fails.
use mdioprobe.Extend.Names.{text_eq_refl, one_of-sorted, one_of-fresh, forgotten, popped, get_left}
use mdioprobe.Registry.Order.{IsInOrder, sorted-IsInOrder}
use mdioprobe.Exec.{
  Exec, Exc, ok, err, os_error, command_error, value_error, interrupt, system_exit, defect,
}
use mdioprobe.Extend.{Session, pop, keys, fresh, unload, taken_back, noted, imported, load}
use mdioprobe.MvPort.Verbs.{is_one_of}
use mdioprobe.Prelude.Text.{Text}
use mdioprobe.Prelude.{false, not, ◌&&◌, List, ◌∷◌, ◌≡◌, ◌≢◌, refl, ap, ◌∙◌, if◌then◌else◌, none}
use mdioprobe.Registry.{get, sorted}

module _ {F W : Type 0} (imports : Text → Exec (Session F W) (Unit {0})) (name : Text)
    (s : Session F W) where
  abbrev before_import : Session F W
  before_import = (unload name s).1

  imported_raise :
      (x : Exc) (before : List Text) (t : Session F W)
      → x ≢ interrupt
      → x ≢ system_exit
      → imported name before (err x, t) ≡ (err x, taken_back name before t)
  imported_raise (os_error n) before t h h2 = refl
  imported_raise (command_error m) before t h h2 = refl
  imported_raise (value_error v) before t h h2 = refl
  imported_raise interrupt before t h h2 = absurd (h refl)
  imported_raise system_exit before t h h2 = absurd (h2 refl)
  imported_raise (defect d) before t h h2 = refl

  -- If the module is imported, `load` returns the names that it added, in the order of Python's `<`;
  -- `unload` then returns the same list, and leaves no entry of the module in `LOADED` and in
  -- `sys.modules`. Of the commands it leaves the names that were there before the import, each bound
  -- as the import left it: a command that the module has replaced under its name stays replaced.
  pub unload-load :
      (t : Session F W)
      → imports name before_import ≡ (ok tt, t)
      → (added : List Text) × (u : Session F W) × (load imports name s ≡ (ok added, u))
        × IsInOrder added
        × ((k : Text)
            → is_one_of k added
              ≡ (is_one_of k (keys t.commands) && not (is_one_of k (keys before_import.commands))))
        × ((unload name u).0 ≡ ok added)
        × ((k : Text)
            → get k (unload name u).1.commands
              ≡ (if is_one_of k (keys before_import.commands) then get k t.commands else none))
        × (is_one_of name (keys (unload name u).1.loaded) ≡ false)
        × (is_one_of name (unload name u).1.modules ≡ false)
  unfolding load unload
  unload-load t e =
      let before = keys (before_import.commands) in
      let names = fresh before (keys t.commands) in
      let added = sorted names in
      let members : (k : Text)
          → is_one_of k added ≡ (is_one_of k (keys t.commands) && not (is_one_of k before)) =
        λ k. one_of-sorted k names ∙ one_of-fresh k before (keys t.commands) in
      (
        added,
        noted name added t,
        rw e refl,
        sorted-IsInOrder names,
        members,
        rw (text_eq_refl name) refl,
        λ k. rw (text_eq_refl name) (get_left k before added t.commands (members k)),
        popped name ((name, added) ∷ pop name t.loaded),
        forgotten name t.modules,
      )

  -- If the module raises anything but `KeyboardInterrupt` and `SystemExit`, and has left `LOADED` as it
  -- was, then `load` raises it too; `LOADED` is what it was before less an entry of the module, which
  -- `sys.modules` has not either. Of the commands those names are left that were there before the
  -- import, each bound as it was when the module raised.
  pub load-raises :
      (x : Exc) (t : Session F W)
      → x ≢ interrupt
      → x ≢ system_exit
      → imports name before_import ≡ (err x, t)
      → t.loaded ≡ before_import.loaded
      → (u : Session F W) × (load imports name s ≡ (err x, u))
        × (u.loaded ≡ pop name s.loaded)
        × (is_one_of name (keys u.loaded) ≡ false)
        × (is_one_of name u.modules ≡ false)
        × ((k : Text)
            → get k u.commands
              ≡ (if is_one_of k (keys before_import.commands) then get k t.commands else none))
  unfolding load unload
  load-raises x t h h2 e same =
      let before = keys (before_import.commands) in
      let names = fresh before (keys t.commands) in
      (
        taken_back name before t,
        rw e (imported_raise x before t h h2),
        same,
        ap (λ (l : List (Text × List Text)). is_one_of name (keys l)) same ∙ popped name s.loaded,
        forgotten name t.modules,
        λ k. get_left k before names t.commands (one_of-fresh k before (keys t.commands)),
      )
