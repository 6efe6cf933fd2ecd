-- ===== src/Output/Sink/Redirect.antt =====
-- A redirection puts the sink back, whatever happens in it.
use mdioprobe.Exec.{
  Exec, Result, ok, err, os_error, command_error, value_error, interrupt, system_exit, defect, pure,
  ◌>>=◌, ◌>>◌, Exec, Result, ok, err, os_error, command_error, value_error, system_exit, defect,
  pure, ◌>>=◌, ◌>>◌, continue, recover, after, with_finally,
}
use mdioprobe.Output.Sink.{
  Console, Disk, moved, on_disk, set_file, redirect, enter, leave, close_file, refuse_full,
  space_floor,
}
use mdioprobe.Prelude.Text.{Text}
use mdioprobe.Prelude.{ℕ, ◌≡◌, refl, ◌∙◌, Bool, Option, none, some, ltb, Bool-cases, inl, inr}

-- The sink is what it was before.
abbrev pub Keeps : {S F A : Type 0} → Exec (Console S F) A → Type 0
Keeps {S = S} {F = F} m = (c : Console S F) → (m c).1.file ≡ c.file

module _ {S F : Type 0} (disk : Disk S F) (path : Text) (append : Bool) (c : Console S F) where
  -- What `enter` returns when it succeeds, and what it leaves when it raises.
  abbrev Enters : Result (Option F) × Console S F → Type 0
  Enters (ok prev, d) = prev ≡ c.file
  Enters (err e, d) = d.file ≡ c.file

  abbrev opening : Exec (Console S F) (Option F)
  opening = do file ← on_disk (disk.open_file path append); set_file (some file); pure c.file

  opened :
      (d : Console S F)
      → d.file ≡ c.file
      → (p : Result F × S)
      → Enters (continue (λ file. set_file (some file) >> pure c.file) (moved d p))
  opened d h (ok f, s) = refl
  opened d h (err e, s) = h

  refused :
      (d : Console S F)
      → d.file ≡ c.file
      → (o : Option ℕ) → Enters ((refuse_full disk o >> opening) d)
  refused d h none = opened d h (disk.open_file path append d.world)
  refused d h (some free) = elim (Bool-cases (ltb free space_floor)) [
    | inl b ↦ rw b h
    | inr b ↦ rw b (opened d h (disk.open_file path append d.world))
  ]

  asked :
      (p : Result ℕ × S)
      → Enters (
          continue
            (λ o. refuse_full disk o >> opening)
            (recover (λ _. pure none) (continue (λ free. pure (some free)) (moved c p))))
  asked (ok free, s) = refused (record c { world = s }) refl (some free)
  asked (err (os_error n), s) = refused (record c { world = s }) refl none
  asked (err (command_error m), s) = refl
  asked (err (value_error t), s) = refl
  asked (err interrupt, s) = refl
  asked (err system_exit, s) = refl
  asked (err (defect t), s) = refl

  enter_lem : Enters (enter disk path append c)
  unfolding enter
  enter_lem = asked (disk.free c.world)

module _ {S F A : Type 0} (disk : Disk S F) where
  close_lem :
      (prev : Option F) (r : Result A) (p : Result (Unit {0}) × Console S F)
      → (continue {S = Console S F} (λ _ c. (r, c)) (after (set_file prev) p)).1.file ≡ prev
  close_lem prev r (ok u, d) = refl
  close_lem prev r (err e, d) = refl

  after_lem :
      (prev : Option F) (p : Result A × Console S F) → (after (leave disk prev) p).1.file ≡ prev
  unfolding leave
  after_lem prev (r, d) = close_lem prev r (close_file disk d.file d)

  left :
      (c : Console S F) (path : Text) (append : Bool) (body : Exec (Console S F) A)
      (p : Result (Option F) × Console S F)
      → Enters disk path append c p
      → (continue (λ prev. with_finally body (leave disk prev)) p).1.file ≡ c.file
  left c path append body (ok prev, d) h = after_lem prev (body d) ∙ h
  left c path append body (err e, d) h = h

  -- Whatever the file system answers and however the body ends, and whatever sink the body leaves
  -- behind: after a redirection output goes where it went before it.
  pub redirect-Keeps :
      (path : Text) (append : Bool) (body : Exec (Console S F) A)
      → Keeps (redirect disk path append body)
  unfolding redirect
  redirect-Keeps path append body c =
      left c path append body (enter disk path append c) (enter_lem disk path append c)
