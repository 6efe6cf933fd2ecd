-- ===== src/CmdEdit/Kept.antt =====
-- What the editor keeps from one command to the next: while nothing is unsaved, the file has the
-- lines of the buffer.
use mdioprobe.CmdEdit.Save.{Quiet, Same}
use mdioprobe.CmdEdit.Places.{
  verb_of, discard, Applied, going, done, ends_of, place_of, first_number, span_of,
}
use mdioprobe.CmdEdit.Words.{first_word, number}
use mdioprobe.CmdEdit.{Typed, typed, interrupted, ended, Desk, on_desk}
use mdioprobe.Exec.Pure
use mdioprobe.Exec.Returns.{Returns}
use mdioprobe.Exec.{
  Exec, Result, ok, err, os_error, command_error, value_error, interrupt, system_exit, defect,
  continue, lift, ◌>>=◌,
}
use mdioprobe.Parser.{integer, or_no_number}
use mdioprobe.Prelude.Int.{ℤ}
use mdioprobe.Prelude.Text.{Text, strip}
use mdioprobe.Prelude.{
  String, Bool, true, false, List, [], ◌∷◌, Option, none, some, ◌≡◌, ◌≢◌, refl, All, if◌then◌else◌,
}
use mdioprobe.Volume.Store.{Store}

-- A value, or a `CommandError`.
pub data Tame {A : Type 0} : Result A → Type 0 where
  gives : (a : A) → Tame (ok a)
  refuses : (m : _) → Tame (err (command_error m))

pub Tame-bind :
    {A B : Type 0} {m : Result A} (f : A → Result B)
    → Tame m
    → ((a : A) → Tame (f a))
    → Tame (Pure.◌>>=◌ m f)
Tame-bind f (gives a) k = k a
Tame-bind f (refuses m) k = refuses m

Tame-if : {A : Type 0} (b : Bool) {x y : Result A} → Tame x → Tame y → Tame (if b then x else y)
Tame-if true x y = x
Tame-if false x y = y

or_no_number-Tame : (token : Text) (what : String) (n : Option ℤ) → Tame (or_no_number token what n)
or_no_number-Tame token what none = refuses _
or_no_number-Tame token what (some n) = gives n

integer-Tame : (token : Text) (what : String) → Tame (integer token what)
unfolding integer
integer-Tame token what = or_no_number-Tame token what _

number-Tame : (token : Text) (lines : List Text) → Tame (number token lines)
unfolding number
number-Tame token lines =
    Tame-bind _ (integer-Tame token "line") (λ n. Tame-if _ (refuses _) (gives _))

pub ends_of-Tame : (lines args : List Text) → Tame (ends_of lines args)
ends_of-Tame lines [] = gives _
ends_of-Tame lines (a ∷ []) = Tame-bind _ (number-Tame a lines) (λ n. gives _)
ends_of-Tame lines (a ∷ b ∷ rest) =
    Tame-bind _ (number-Tame a lines) (λ n. Tame-bind _ (number-Tame b lines) (λ k. gives _))

pub span_of-Tame : (lines args : List Text) → Tame (span_of lines args)
span_of-Tame lines [] = refuses _
span_of-Tame lines (a ∷ []) = Tame-bind _ (number-Tame a lines) (λ n. gives _)
span_of-Tame lines (a ∷ b ∷ rest) =
    Tame-bind _ (number-Tame a lines) (λ n. Tame-bind _ (number-Tame b lines) (λ k. gives _))

pub place_of-Tame : (front : Bool) (lines args : List Text) → Tame (place_of front lines args)
place_of-Tame true lines [] = gives _
place_of-Tame true lines (a ∷ rest) = Tame-bind _ (number-Tame a lines) (λ n. gives _)
place_of-Tame false lines [] = gives _
place_of-Tame false lines (a ∷ rest) =
    Tame-bind _ (integer-Tame a "line") (λ n. Tame-if _ (refuses _) (gives _))

pub first_number-Tame :
    (what : String) (lines args : List Text) → Tame (first_number what lines args)
first_number-Tame what lines [] = refuses _
first_number-Tame what lines (a ∷ rest) = number-Tame a lines

-- Not `q!`.
abbrev pub NoDiscard : Typed → Type 0
NoDiscard (typed s) = verb_of ((first_word (strip s)).0) ≢ discard
NoDiscard interrupted = Unit {0}
NoDiscard ended = Unit {0}

module _ {S : Type 0} (Shows : S → Store → Type 0) (path : Text) where
  -- The volume is at rest, the file has the lines unless they are unsaved, and no `q!` will come.
  pub record Kept (dirty : Bool) (c : Desk S) : Type 0 where
    pub store : Store
    pub shown : Shows c.world store
    pub quiet : Quiet store
    pub same : dirty ≡ false → Same (store.content path) c.lines
    pub calm : All NoDiscard c.inputs

  pub Kept-true :
      {dirty : Bool} {c : Desk S} (lines : List Text)
      → Kept dirty c
      → Kept true (record c { lines = lines })
  Kept-true lines k = record {
    store = k.store;
    shown = k.shown;
    quiet = k.quiet;
    same = λ e. absurd (cc);
    calm = k.calm;
  }

  -- `dirty` is true of the file, and only a saved buffer is left.
  abbrev pub Fits : Applied → Desk S → Type 0
  Fits (going b) c = Kept b c
  Fits done c = Kept false c

  module _ (dirty : Bool) where
    -- A value that meets `P`, or a `CommandError` that leaves the buffer as saved as it was.
    abbrev pub Lands : {A : Type 0} → (A → Desk S → Type 0) → Result A × Desk S → Type 0
    Lands P (ok a, c) = P a c
    Lands P (err (command_error m), c) = Kept dirty c
    Lands P (err _, c) = ⊥

    abbrev pub Keeps : {A : Type 0} → Exec (Desk S) A → Type 0
    Keeps m = (c : Desk S) → Kept dirty c → Lands (λ _. Kept dirty) (m c)

    abbrev pub Steps : Exec (Desk S) Applied → Type 0
    Steps m = (c : Desk S) → Kept dirty c → Lands Fits (m c)

    pub continue-Lands :
        {A B : Type 0} {P : A → Desk S → Type 0} (Q : B → Desk S → Type 0) (f : A → Exec (Desk S) B)
        (p : Result A × Desk S)
        → Lands P p
        → ((a : A) (t : Desk S) → P a t → Lands Q (f a t))
        → Lands Q (continue f p)
    continue-Lands Q f (ok a, t) h k = k a t h
    continue-Lands Q f (err (command_error m), t) h k = h
    continue-Lands Q f (err (os_error _), t) h k = absurd h
    continue-Lands Q f (err (value_error _), t) h k = absurd h
    continue-Lands Q f (err interrupt, t) h k = absurd h
    continue-Lands Q f (err system_exit, t) h k = absurd h
    continue-Lands Q f (err (defect _), t) h k = absurd h

    pub Keeps-bind :
        {A B : Type 0} (m : Exec (Desk S) A) (f : A → Exec (Desk S) B)
        → Keeps m
        → ((a : A) → Keeps (f a))
        → Keeps (m >>= f)
    Keeps-bind m f h g c k = continue-Lands _ f (m c) (h c k) (λ a t k1. g a t k1)

    pub Steps-bind :
        {A : Type 0} (m : Exec (Desk S) A) (f : A → Exec (Desk S) Applied)
        → Keeps m
        → ((a : A) → Steps (f a))
        → Steps (m >>= f)
    Steps-bind m f h g c k = continue-Lands _ f (m c) (h c k) (λ a t k1. g a t k1)

    pub of_Returns :
        {A : Type 0} {P : A → Desk S → Type 0} {m : Exec (Desk S) A} {c : Desk S}
        → Returns m c P
        → Lands P (m c)
    of_Returns r = rw r.runs r.holds

    pub lift-Keeps : {A : Type 0} {r : Result A} → Tame r → Keeps (lift r)
    lift-Keeps (gives a) c k = k
    lift-Keeps (refuses m) c k = k

  module _ (say : Text → Exec S (Unit {0}))
      (speaks : (t : Text) (s : S) (d : Store)
        → Shows s d
        → Returns (say t) s (λ _ s'. Shows s' d)) where
    pub say_lem :
        (b : Bool) (t : Text) (c : Desk S) → Kept b c → Returns (on_desk (say t)) c (λ _. Kept b)
    say_lem b t c k =
        let r = speaks t c.world k.store k.shown in
        record {
          value = tt;
          state = record c { world = r.state };
          runs = rw r.runs refl;
          holds = record {
            store = k.store;
            shown = r.holds;
            quiet = k.quiet;
            same = k.same;
            calm = k.calm;
          };
        }
