-- ===== src/Exec.antt =====
-- Python's exceptions and effects: a pure function that may raise returns a `Result`; a function
-- that also changes state is an `Exec S A`. What was written before a raise stays written, so the
-- state comes back beside the error too.
pub mod Pure
pub mod Returns
pub mod Safe
use mdioprobe.Prelude.{ℕ, String, List}
use mdioprobe.Prelude.Int.{ℤ}
use mdioprobe.Prelude.Text.{Text}

-- The texts of the `CommandError`s: a fixed one as it is, one that is formatted by its arguments.
pub data Message : Type 0 where
  says : String → Message
  unbalanced : ℕ → Message
  not_a_number : String → Text → Message
  out_of_range : String → ℤ → ℤ → ℤ → Message
  runs_backwards : String → Text → Message
  empty_spec : String → Message
  stayed_busy : String → Message
  switch_range : ℤ → Message
  extra_arguments : List Text → Message
  ambiguous : Text → List Text → Message
  unknown_command : Text → Message
  formatted : Text → Message

-- `os_error` carries its errno; `value_error` is what `int(text)` raises for `text`, `interrupt` is
-- `KeyboardInterrupt`, `system_exit` is `SystemExit`, which is no `Exception` either, and `defect` any
-- other `Exception`.
pub data Exc : Type 0 where
  os_error : ℕ → Exc
  command_error : Message → Exc
  value_error : Text → Exc
  interrupt : Exc
  system_exit : Exc
  defect : Text → Exc

pub data Result (A : Type 0) : Type 0 where
  ok : A → Result A
  err : Exc → Result A

abbrev pub fails : {A : Type 0} → Message → Result A
fails m = err (command_error m)

abbrev pub Exec : Type 0 → Type 0 → Type 0
Exec S A = S → Result A × S

module _ {S : Type 0} where
  abbrev pub pure : {A : Type 0} → A → Exec S A
  pure a s = (ok a, s)

  abbrev pub raise : {A : Type 0} → Exc → Exec S A
  raise e s = (err e, s)

  abbrev pub refuse : {A : Type 0} → Message → Exec S A
  refuse m s = (err (command_error m), s)

  abbrev pub lift : {A : Type 0} → Result A → Exec S A
  lift r s = (r, s)

  abbrev pub continue : {A B : Type 0} → (A → Exec S B) → Result A × S → Result B × S
  continue f (ok a, s) = f a s
  continue f (err e, s) = (err e, s)

  infixl 5 ◌>>=◌ ◌>>◌
  abbrev pub ◌>>=◌ : {A B : Type 0} → Exec S A → (A → Exec S B) → Exec S B
  ◌>>=◌ m f s = continue f (m s)

  abbrev pub ◌>>◌ : {B : Type 0} → Exec S (Unit {0}) → Exec S B → Exec S B
  ◌>>◌ m k s = continue (λ _. k) (m s)

  -- `try: m` with `except OSError: handler; raise`.
  abbrev pub rethrow : {A : Type 0} → Exec S (Unit {0}) → Result A × S → Result A × S
  rethrow handler (err (os_error n), s) = continue (λ _. raise (os_error n)) (handler s)
  rethrow handler (r, s) = (r, s)

  abbrev pub on_os_error : {A : Type 0} → Exec S A → Exec S (Unit {0}) → Exec S A
  on_os_error m handler s = rethrow handler (m s)

  -- `try: m` with `except OSError: handler`.
  abbrev pub recover : {A : Type 0} → (ℕ → Exec S A) → Result A × S → Result A × S
  recover handler (err (os_error n), s) = handler n s
  recover handler (r, s) = (r, s)

  abbrev pub except_os_error : {A : Type 0} → Exec S A → (ℕ → Exec S A) → Exec S A
  except_os_error m handler s = recover handler (m s)

  -- `try: m` with `finally: last`; what `last` raises takes the place of the result of `m`.
  abbrev pub after : {A : Type 0} → Exec S (Unit {0}) → Result A × S → Result A × S
  after last (r, s) = continue (λ _. lift r) (last s)

  abbrev pub with_finally : {A : Type 0} → Exec S A → Exec S (Unit {0}) → Exec S A
  with_finally m last s = after last (m s)
