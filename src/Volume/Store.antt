-- ===== src/Volume/Store.antt =====
-- A volume that works: what its operations do to the files and to the handles.
use mdioprobe.Exec.Returns.{Returns}
use mdioprobe.Exec.{Exec, err, os_error}
use mdioprobe.Prelude.Text.{Text, text_eq}
use mdioprobe.Prelude.{
  ℕ, ◌+◌, ◌*◌, ◌≤◌, ◌≡◌, ◌≢◌, Option, none, some, ◌++◌, [], ◌==◌, if◌then◌else◌, length, take, drop,
}
use mdioprobe.Volume.{Volume, OpenMode, read_text, read_bytes, write_text, write_bytes}

-- The files, the path and the rest of what is open for reading, the path of what is open for writing.
pub record Store : Type 0 where
  pub content : Text → Option Text
  pub reads : ℕ → Option (Text × Text)
  pub writes : ℕ → Option Text

abbrev pub with_content : Text → Option Text → (Text → Option Text) → Text → Option Text
with_content path t content q = if text_eq path q then t else content q

abbrev pub with_handle : {A : Type 0} → ℕ → A → (ℕ → A) → ℕ → A
with_handle f a handles g = if f == g then a else handles g

abbrev pub IsReadMode : OpenMode → Type 0
IsReadMode read_text = Unit {0}
IsReadMode read_bytes = Unit {0}
IsReadMode _ = ⊥

abbrev pub IsWriteMode : OpenMode → Type 0
IsWriteMode write_text = Unit {0}
IsWriteMode write_bytes = Unit {0}
IsWriteMode _ = ⊥

-- Nobody reads the file.
abbrev pub Unread : Store → Text → Type 0
Unread d path = (f : ℕ) (q t : Text) → d.reads f ≡ some (q, t) → q ≢ path

-- The operation fails with an `OSError` and leaves the store as it is.
pub record Misses {S A : Type 0} (m : Exec S A) (s : S) (P : S → Type 0) : Type 0 where
  pub errno : ℕ
  pub state : S
  pub runs : m s ≡ (err (os_error errno), state)
  pub holds : P state

-- `Shows s d`: the state `s` of the world has the files and handles `d`; `rounds s` is more than the
-- number of 256-character chunks of any of its files.
pub record IsVolume {S : Type 0} (vol : Volume S) (rounds : S → ℕ) (Shows : S → Store → Type 0)
    : Type 0 where
  pub enough :
      (s : S) (d : Store) (path t : Text)
      → Shows s d
      → d.content path ≡ some t
      → length t + 256 ≤ 256 * rounds s
  pub stat_none :
      (s : S) (d : Store) (path : Text)
      → Shows s d
      → d.content path ≡ none
      → Misses (vol.stat path) s (λ s'. Shows s' d)
  pub stat_some :
      (s : S) (d : Store) (path t : Text)
      → Shows s d
      → d.content path ≡ some t
      → Returns (vol.stat path) s (λ st s'. (st.size ≡ length t) × Shows s' d)
  pub open_read :
      (s : S) (d : Store) (path t : Text) (mode : OpenMode)
      → IsReadMode mode
      → Shows s d
      → d.content path ≡ some t
      → Returns
          (vol.open_file path mode)
          s
          (λ f s'. Shows s' (record d { reads = with_handle f (some (path, t)) d.reads }))
  pub open_write :
      (s : S) (d : Store) (path : Text) (mode : OpenMode)
      → IsWriteMode mode
      → Shows s d
      → Unread d path
      → Returns (vol.open_file path mode) s (λ f s'. Shows s' (record d {
        content = with_content path (some []) d.content;
        writes = with_handle f (some path) d.writes;
      }))
  pub read_all :
      (s : S) (d : Store) (f : ℕ) (path t : Text)
      → Shows s d
      → d.reads f ≡ some (path, t)
      → Returns (vol.read_all f) s (λ x s'.
        (x ≡ t) × Shows s' (record d { reads = with_handle f (some (path, [])) d.reads }))
  pub read_some :
      (s : S) (d : Store) (f n : ℕ) (path t : Text)
      → Shows s d
      → d.reads f ≡ some (path, t)
      → Returns (vol.read_some f n) s (λ x s'.
        (x ≡ take n t)
        × Shows s' (record d { reads = with_handle f (some (path, drop n t)) d.reads }))
  pub write :
      (s : S) (d : Store) (f : ℕ) (path t x : Text)
      → Shows s d
      → d.writes f ≡ some path
      → d.content path ≡ some t
      → Returns
          (vol.write f x)
          s
          (λ _ s'. Shows s' (record d { content = with_content path (some (t ++ x)) d.content }))
  pub close :
      (s : S) (d : Store) (f : ℕ)
      → Shows s d
      → Returns (vol.close f) s (λ _ s'.
        Shows s'
          (record d { reads = with_handle f none d.reads; writes = with_handle f none d.writes }))
