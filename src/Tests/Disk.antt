-- ===== src/Tests/Disk.antt =====
-- A volume that works, held in memory.
use mdioprobe.Exec.Returns.{Returns}
use mdioprobe.Exec.{Exec, Result, ok, err, os_error}
use mdioprobe.Prelude.Text.{Text, text_eq}
use mathlib.Core.Path.{subst}
use mdioprobe.Prelude.{
  ℕ, suc, ◌+◌, ◌*◌, ◌≤◌, ◌≡◌, refl, sym, arith, Bool-cases, inl, inr, [], ◌++◌, Option, none, some,
  length, length-append, take, drop,
}
use mdioprobe.Volume.Store.{
  Store, IsVolume, IsReadMode, IsWriteMode, Misses, Unread, with_content, with_handle,
}
use mdioprobe.Volume.{Volume, OpenMode, read_text, read_bytes, write_text, write_bytes, Stat}

-- Every file has at most 256 times `bound` characters; `next` is the next handle.
pub record Disk : Type 0 where
  pub store : Store
  pub bound : ℕ
  pub next : ℕ

abbrev opened : Text → Disk → Option Text → Result ℕ × Disk
opened path s none = (err (os_error 2), s)
opened path s (some t) = (
  ok s.next,
  record s {
    store = record (s.store) { reads = with_handle s.next (some (path, t)) (s.store.reads) };
    next = suc s.next;
  },
)

abbrev created : Text → Disk → Result ℕ × Disk
created path s = (
  ok s.next,
  record s {
    store = record (s.store) {
      content = with_content path (some []) (s.store.content);
      writes = with_handle s.next (some path) (s.store.writes);
    };
    next = suc s.next;
  },
)

abbrev open_as : Text → OpenMode → Disk → Result ℕ × Disk
open_as path read_text s = opened path s (s.store.content path)
open_as path read_bytes s = opened path s (s.store.content path)
open_as path write_text s = created path s
open_as path write_bytes s = created path s

-- At most `count` characters are read, all of them if there is no count.
abbrev read_as :
    (Text → Text) → (Text → Text) → ℕ → Disk → Option (Text × Text) → Result Text × Disk
read_as part left f s none = (err (os_error 9), s)
read_as part left f s (some (path, t)) = (
  ok (part t),
  record s {
    store = record (s.store) { reads = with_handle f (some (path, left t)) (s.store.reads) };
  },
)

abbrev text_in : Option Text → Text
text_in none = []
text_in (some t) = t

abbrev disk_put : Text → Disk → Option Text → Result (Unit {0}) × Disk
disk_put x s none = (err (os_error 9), s)
disk_put x s (some path) = (
  ok tt,
  record s {
    store = record (s.store) {
      content = with_content path (some (text_in (s.store.content path) ++ x)) (s.store.content);
    };
    bound = s.bound + length x;
  },
)

abbrev stat_as : Disk → Option Text → Result Stat × Disk
stat_as s none = (err (os_error 2), s)
stat_as s (some t) = (ok (record { kind = 0x8000; size = length t }), s)

abbrev pub disk : Volume Disk
disk = record {
  open_file = open_as;
  read_all = λ f s. read_as (λ t. t) (λ t. []) f s (s.store.reads f);
  read_some = λ f n s. read_as (take n) (drop n) f s (s.store.reads f);
  write = λ f x s. disk_put x s (s.store.writes f);
  close = λ f s. (
    ok tt,
    record s {
      store = record (s.store) {
        reads = with_handle f none (s.store.reads);
        writes = with_handle f none (s.store.writes);
      };
    },
  );
  stat = λ path s. stat_as s (s.store.content path);
  statvfs = λ path s. (ok (record { block = 4096; total = 256; free = 128 }), s);
  ilistdir = λ path s. (ok [], s);
  listdir = λ path s. (ok [], s);
  getcwd = λ s. (ok [], s);
  chdir = λ path s. (ok tt, s);
  mkdir = λ path s. (err (os_error 1), s);
  rmdir = λ path s. (err (os_error 1), s);
  remove = λ path s. (err (os_error 1), s);
}

abbrev pub disk_rounds : Disk → ℕ
disk_rounds s = suc s.bound

abbrev Bounded : ℕ → Store → Type 0
Bounded bound d = (path t : Text) → d.content path ≡ some t → length t ≤ 256 * bound

abbrev pub ShowsDisk : Disk → Store → Type 0
ShowsDisk s d = (s.store ≡ d) × Bounded s.bound d

some_eq : {a b : Text} → Path (Option Text) (some a) (some b) → a ≡ b
some_eq e = cc

no_text : {a : Text} → Path (Option Text) none (some a) → ⊥
no_text e = cc

Bounded-put :
    (path x : Text) (bound : ℕ) (d : Store)
    → length x ≤ 256 * bound
    → Bounded bound d
    → Bounded bound (record d { content = with_content path (some x) d.content })
Bounded-put path x bound d h b q t e = elim (Bool-cases (text_eq path q)) [
  | inl y ↦ rw (some_eq (rw y at e)) at h
  | inr n ↦ b q t (rw n at e)
]

-- What is proved of the store of the disk holds of the store that it shows.
on_store :
    (P : Store → Type 0) {d : Store} (s : Disk)
    → ShowsDisk s d
    → (Bounded s.bound s.store → P s.store)
    → P d
on_store P s (e, b) h = subst P e (h (subst (Bounded s.bound) (sym e) b))

open_lem :
    (path t : Text) (s : Disk)
    → Bounded s.bound s.store
    → s.store.content path ≡ some t
    → Returns
        (λ s. opened path s (s.store.content path))
        s
        (λ f s'.
          ShowsDisk s'
            (record (s.store) { reads = with_handle f (some (path, t)) (s.store.reads) }))
open_lem path t s b c = record {
  value = s.next;
  state = (opened path s (some t)).1;
  runs = rw c refl;
  holds = (refl, b);
}

create_lem :
    (path : Text) (s : Disk)
    → Bounded s.bound s.store
    → Returns (created path) s (λ f s'. ShowsDisk s' (record (s.store) {
      content = with_content path (some []) (s.store.content);
      writes = with_handle f (some path) (s.store.writes);
    }))
create_lem path s b = record {
  value = s.next;
  state = (created path s).1;
  runs = refl;
  holds = (refl, Bounded-put path [] s.bound s.store (omega arith) b);
}

read_lem :
    (part left : Text → Text) (f : ℕ) (path t : Text) (s : Disk)
    → Bounded s.bound s.store
    → s.store.reads f ≡ some (path, t)
    → Returns
        (λ s. read_as part left f s (s.store.reads f))
        s
        (λ x s'.
          (x ≡ part t)
          × ShowsDisk s'
              (record (s.store) { reads = with_handle f (some (path, left t)) (s.store.reads) }))
read_lem part left f path t s b c = record {
  value = part t;
  state = (read_as part left f s (some (path, t))).1;
  runs = rw c refl;
  holds = (refl, (refl, b));
}

put_lem :
    (f : ℕ) (path t x : Text) (s : Disk)
    → Bounded s.bound s.store
    → s.store.writes f ≡ some path
    → s.store.content path ≡ some t
    → Returns
        (λ s. disk_put x s (s.store.writes f))
        s
        (λ _ s'.
          ShowsDisk s'
            (record (s.store) { content = with_content path (some (t ++ x)) (s.store.content) }))
put_lem f path t x s b w c = record {
  value = tt;
  state = (disk_put x s (some path)).1;
  runs = rw w refl;
  holds = rw c (
    refl,
    Bounded-put path (t ++ x) (s.bound + length x) s.store
        (omega (arith, length-append t x, b path t c)) (λ q y e. omega (arith, b q y e)),
  );
}

stat_lem :
    (path t : Text) (s : Disk)
    → Bounded s.bound s.store
    → s.store.content path ≡ some t
    → Returns (disk.stat path) s (λ st s'. (st.size ≡ length t) × ShowsDisk s' s.store)
stat_lem path t s b c = record {
  value = record { kind = 0x8000; size = length t };
  state = s;
  runs = rw c refl;
  holds = (refl, (refl, b));
}

miss_lem :
    (path : Text) (s : Disk)
    → Bounded s.bound s.store
    → s.store.content path ≡ none
    → Misses (disk.stat path) s (λ s'. ShowsDisk s' s.store)
miss_lem path s b c = record { errno = 2; state = s; runs = rw c refl; holds = (refl, b) }

-- What the laws of a volume say of one store.
abbrev Opens : Disk → Text → Text → Exec Disk ℕ → Store → Type 0
Opens s path t m d =
    d.content path ≡ some t
    → Returns m s
        (λ f s'. ShowsDisk s' (record d { reads = with_handle f (some (path, t)) d.reads }))

abbrev Creates : Disk → Text → Store → Type 0
Creates s path d = Returns (created path) s (λ f s'. ShowsDisk s' (record d {
  content = with_content path (some []) d.content;
  writes = with_handle f (some path) d.writes;
}))

abbrev Reads : Disk → ℕ → Text → Text → Text → Text → Exec Disk Text → Store → Type 0
Reads s f path t part left m d =
    d.reads f ≡ some (path, t)
    → Returns m s (λ x s'.
      (x ≡ part) × ShowsDisk s' (record d { reads = with_handle f (some (path, left)) d.reads }))

abbrev Writes : Disk → ℕ → Text → Text → Text → Store → Type 0
Writes s f path t x d =
    d.writes f ≡ some path
    → d.content path ≡ some t
    → Returns (disk.write f x) s
        (λ _ s'. ShowsDisk s' (record d { content = with_content path (some (t ++ x)) d.content }))

abbrev Closes : Disk → ℕ → Store → Type 0
Closes s f d = Returns (disk.close f) s (λ _ s'.
    ShowsDisk s'
      (record d { reads = with_handle f none d.reads; writes = with_handle f none d.writes }))

abbrev Stats : Disk → Text → Text → Store → Type 0
Stats s path t d =
    d.content path ≡ some t
    → Returns (disk.stat path) s (λ st s'. (st.size ≡ length t) × ShowsDisk s' d)

open_read_lem :
    (s : Disk) (d : Store) (path t : Text) (mode : OpenMode)
    → IsReadMode mode
    → ShowsDisk s d
    → Opens s path t (disk.open_file path mode) d
open_read_lem s d path t read_text m sh =
    on_store (Opens s path t (λ s. opened path s (s.store.content path))) s sh (open_lem path t s)
open_read_lem s d path t read_bytes m sh =
    on_store (Opens s path t (λ s. opened path s (s.store.content path))) s sh (open_lem path t s)
open_read_lem s d path t write_text m sh = absurd m
open_read_lem s d path t write_bytes m sh = absurd m

open_write_lem :
    (s : Disk) (d : Store) (path : Text) (mode : OpenMode)
    → IsWriteMode mode
    → ShowsDisk s d
    → Unread d path
    → Returns (disk.open_file path mode) s (λ f s'. ShowsDisk s' (record d {
      content = with_content path (some []) d.content;
      writes = with_handle f (some path) d.writes;
    }))
open_write_lem s d path write_text m sh u = on_store (Creates s path) s sh (create_lem path s)
open_write_lem s d path write_bytes m sh u = on_store (Creates s path) s sh (create_lem path s)
open_write_lem s d path read_text m sh u = absurd m
open_write_lem s d path read_bytes m sh u = absurd m

pub disk-IsVolume : IsVolume disk disk_rounds ShowsDisk
disk-IsVolume = record {
  enough = λ s d path t sh c. omega (arith, sh.1 path t c);
  stat_none = λ s d path sh.
      on_store (λ d. d.content path ≡ none → Misses (disk.stat path) s (λ s'. ShowsDisk s' d)) s sh
        (miss_lem path s);
  stat_some = λ s d path t sh. on_store (Stats s path t) s sh (stat_lem path t s);
  open_read = open_read_lem;
  open_write = open_write_lem;
  read_all = λ s d f path t sh.
      on_store (Reads s f path t t [] (disk.read_all f)) s sh
        (read_lem (λ t. t) (λ t. []) f path t s);
  read_some = λ s d f n path t sh.
      on_store (Reads s f path t (take n t) (drop n t) (disk.read_some f n)) s sh
        (read_lem (take n) (drop n) f path t s);
  write = λ s d f path t x sh. on_store (Writes s f path t x) s sh (put_lem f path t x s);
  close = λ s d f sh.
      on_store (Closes s f) s sh
        (λ b. record { value = tt; state = (disk.close f s).1; runs = refl; holds = (refl, b) });
}
