-- ===== src/Output/Sink.antt =====
-- Where `line` writes to: the console, or a file for the duration of a redirection.
pub mod Redirect
use mdioprobe.Exec.{
  Exec, Result, ok, err, formatted, pure, refuse, ◌>>=◌, ◌>>◌, except_os_error, with_finally, raise,
  defect,
}
use mdioprobe.Format.{decimal}
use mdioprobe.Prelude.Text.{Text, codes, concat}
use mdioprobe.Prelude.{
  ℕ, zero, suc, ◌+◌, ◌*◌, ◌%◌, Bool, true, false, not, List, [], ◌∷◌, ◌++◌, Option, none, some, ltb,
  ◌==◌, if◌then◌else◌,
}

abbrev pub space_floor : ℕ
space_floor = 32 * 1024

abbrev pub space_every : ℕ
space_every = 128

-- The file system of the firmware: `open(path, "a" or "w")`, `write` and `close` of a file, and
-- `stat[0] * stat[3]` of `os.statvfs(".")`.
pub record Disk (S F : Type 0) : Type 0 where
  pub open_file : Text → Bool → Exec S F
  pub write : F → Text → Exec S (Unit {0})
  pub close : F → Exec S (Unit {0})
  pub free : Exec S ℕ

-- `_file` and `_checks` of `Output`, and what `print` has shown.
pub record Console (S F : Type 0) : Type 0 where
  pub world : S
  pub file : Option F
  pub checks : ℕ
  pub shown : List Text

module _ {S F : Type 0} where
  abbrev pub moved : {A : Type 0} → Console S F → Result A × S → Result A × Console S F
  moved c (r, s) = (r, record c { world = s })

  -- An access to the disk.
  abbrev pub on_disk : {A : Type 0} → Exec S A → Exec (Console S F) A
  on_disk m c = moved c (m c.world)

  abbrev pub set_file : Option F → Exec (Console S F) (Unit {0})
  set_file file c = pure tt (record c { file = file })

module _ {S F : Type 0} (disk : Disk S F) where
  abbrev pub write_to : Option F → Text → Exec (Console S F) (Unit {0})
  write_to none text c = pure tt (record c { shown = c.shown ++ (text ∷ []) })
  write_to (some f) text c = (on_disk (disk.write f text) >> on_disk (disk.write f (10 ∷ []))) c

  -- `Output.line`
  unfoldable pub put_line : Text → Exec (Console S F) (Unit {0})
  put_line text c = write_to c.file text c

  -- With a file in place: every so many calls, the space that is left.
  abbrev pub room_of : Option F → Exec (Console S F) Bool
  room_of none c = pure false c
  room_of (some f) c =
      let counted : Console S F = record c { checks = c.checks + 1 } in
      if not (counted.checks % space_every == 0)
      then pure false counted
      else except_os_error (do free ← on_disk disk.free; pure (ltb free space_floor))
          (λ _. pure false) counted

  -- `Output.out_of_room`
  unfoldable pub out_of_room : Exec (Console S F) Bool
  out_of_room c = room_of c.file c

  abbrev pub refuse_full : Option ℕ → Exec (Console S F) (Unit {0})
  refuse_full none = pure tt
  refuse_full (some free) =
      if ltb free space_floor
      then refuse (
          formatted (
            concat (
              codes "only "
              ∷ decimal free
              ∷ codes
                  " bytes free — redirecting there would write into a full volume, and FatFs does that silently"
              ∷ [])))
      else pure tt

  -- `_Redirect.__enter__`; what it returns is `_prev`.
  unfoldable pub enter : Text → Bool → Exec (Console S F) (Option F)
  enter path append c =
      (do
        free ← except_os_error (do free ← on_disk disk.free; pure (some free)) (λ _. pure none)
        refuse_full free
        file ← on_disk (disk.open_file path append)
        set_file (some file)
        pure c.file)
        c

  -- `self._out._file.close()`
  abbrev pub close_file : Option F → Exec (Console S F) (Unit {0})
  close_file none = raise (defect (codes "AttributeError"))
  close_file (some f) = on_disk (disk.close f)

  -- `_Redirect.__exit__`
  unfoldable pub leave : Option F → Exec (Console S F) (Unit {0})
  leave prev c = with_finally (close_file c.file) (set_file prev) c

  -- `with out.redirect(path, append): body`
  unfoldable pub redirect : {A : Type 0} → Text → Bool → Exec (Console S F) A → Exec (Console S F) A
  unfolding enter leave
  redirect path append body = do prev ← enter path append; with_finally body (leave prev)
