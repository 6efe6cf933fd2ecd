-- ===== src/Volume.antt =====
-- What the file commands call of MicroPython: `open()`, the methods of a file, and `os`. Handles are
-- numbers.
pub mod Store
use mdioprobe.Exec.{Exec, ◌>>=◌, with_finally}
use mdioprobe.Prelude.Text.{Text}
use mdioprobe.Prelude.{ℕ, List, Option}

-- The second argument of `open()`: "r", which is also meant by none, "rb", "w" and "wb".
pub data OpenMode : Type 0 where
  read_text read_bytes write_text write_bytes : OpenMode

-- What `os.ilistdir` yields: a name, the kind, and a size if there are more than three fields.
pub record Entry : Type 0 where
  pub name : Text
  pub kind : ℕ
  pub size : Option ℕ

-- Fields 0 and 6 of `os.stat`.
pub record Stat : Type 0 where
  pub kind : ℕ
  pub size : ℕ

-- Fields 0, 2 and 3 of `os.statvfs`.
pub record StatVfs : Type 0 where
  pub block : ℕ
  pub total : ℕ
  pub free : ℕ

pub record Volume (S : Type 0) : Type 0 where
  pub open_file : Text → OpenMode → Exec S ℕ
  pub read_all : ℕ → Exec S Text
  pub read_some : ℕ → ℕ → Exec S Text
  pub write : ℕ → Text → Exec S (Unit {0})
  pub close : ℕ → Exec S (Unit {0})
  pub stat : Text → Exec S Stat
  pub statvfs : Text → Exec S StatVfs
  pub ilistdir : Text → Exec S (List Entry)
  pub listdir : Text → Exec S (List Text)
  pub getcwd : Exec S Text
  pub chdir : Text → Exec S (Unit {0})
  pub mkdir : Text → Exec S (Unit {0})
  pub rmdir : Text → Exec S (Unit {0})
  pub remove : Text → Exec S (Unit {0})

-- `with open(path, mode) as f: body`
abbrev pub with_file : {S A : Type 0} → Volume S → Text → OpenMode → (ℕ → Exec S A) → Exec S A
with_file vol path mode body = do f ← vol.open_file path mode; with_finally (body f) (vol.close f)
