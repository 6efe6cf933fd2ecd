-- ===== src/CmdEdit/Saved.antt =====
-- The editor loses nothing: what `q` leaves behind is in the file.
use mdioprobe.CmdEdit.Steps.{typed_on, apply-Steps}
use mdioprobe.CmdEdit.Kept.{Kept, NoDiscard, Lands, Fits, say_lem}
use mdioprobe.CmdEdit.Save.{Quiet, load_lem}
use mdioprobe.CmdEdit.Session.{caught, obey, answer, round, follow, cmd_edit}
use mdioprobe.CmdEdit.Places.{verb_of, discard, Applied, going, done, unsaved}
use mdioprobe.CmdEdit.Words.{first_word}
use mdioprobe.CmdEdit.{
  Typed, typed, interrupted, ended, Desk, on_desk, next_of, next_input, load, max_bytes,
}
use mdioprobe.Exec.Returns.{Returns, Returns-bind, Returns-pure}
use mdioprobe.Exec.{
  Exec, Result, ok, err, os_error, command_error, value_error, interrupt, system_exit, defect, pure,
  ◌>>◌,
}
use mdioprobe.Prelude.Text.{Text, strip}
use mdioprobe.Prelude.{
  ℕ, zero, suc, ◌≤◌, Bool, true, false, List, [], ◌∷◌, some, length, ◌≡◌, ◌≢◌, refl, All,
}
use mdioprobe.Volume.Store.{Store, IsVolume}
use mdioprobe.Volume.{Volume}

module _ {S : Type 0} (vol : Volume S) (rounds : S → ℕ) (Shows : S → Store → Type 0)
    (works : IsVolume vol rounds Shows) (path : Text) (say : Text → Exec S (Unit {0}))
    (speaks : (t : Text) (s : S) (d : Store)
      → Shows s d
      → Returns (say t) s (λ _ s'. Shows s' d)) where
  module _ (os_error_text : ℕ → Text) where
    abbrev Ends : Result Applied × Desk S → Type 0
    Ends p = (a : Applied) × (c : Desk S) × (p ≡ (ok a, c)) × Fits Shows path a c

    Ends-Returns :
        {m : Exec (Desk S) Applied} {c : Desk S} → Returns m c (Fits Shows path) → Ends (m c)
    Ends-Returns r = (r.value, r.state, r.runs, r.holds)

    -- What is said of an error leaves the loop as it was.
    told :
        (dirty : Bool) (t : Text) (c : Desk S)
        → Kept Shows path dirty c
        → Returns (do on_desk (say t); pure (going dirty)) c (Fits Shows path)
    told dirty t c k =
        Returns-bind (say_lem Shows path say speaks dirty t c k)
          (λ _ c1 k1. Returns-pure (going dirty) c1 _ k1)

    caught-Ends :
        (dirty : Bool) (p : Result Applied × Desk S)
        → Lands Shows path dirty (Fits Shows path) p
        → Ends (caught vol rounds say os_error_text path dirty p)
    caught-Ends dirty (ok a, c) h = (a, c, refl, h)
    caught-Ends dirty (err (command_error m), c) h = Ends-Returns (told dirty _ c h)
    caught-Ends dirty (err (os_error _), c) h = absurd h
    caught-Ends dirty (err (value_error _), c) h = absurd h
    caught-Ends dirty (err interrupt, c) h = absurd h
    caught-Ends dirty (err system_exit, c) h = absurd h
    caught-Ends dirty (err (defect _), c) h = absurd h

    obey_lem :
        (dirty : Bool) (x : Text) (c : Desk S)
        → verb_of ((first_word x).0) ≢ discard
        → Kept Shows path dirty c
        → Returns (obey vol rounds say os_error_text path dirty x) c (Fits Shows path)
    unfolding obey
    obey_lem dirty [] c h k = Returns-pure (going dirty) c _ k
    obey_lem dirty (y ∷ x) c h k =
        let (a, t, e, f) =
          caught-Ends dirty _
            (apply-Steps vol rounds Shows works path say speaks dirty (y ∷ x) h c k) in
        record { value = a; state = t; runs = e; holds = f }

    answer_lem :
        (dirty : Bool) (event : Typed) (c : Desk S)
        → NoDiscard event
        → Kept Shows path dirty c
        → Returns (answer vol rounds say os_error_text path dirty event) c (Fits Shows path)
    unfolding answer
    answer_lem dirty interrupted c h k = told dirty [] c k
    answer_lem true ended c h k =
        Returns-bind (say_lem Shows path say speaks true [] c k)
          (λ _ c1 k1. told true unsaved c1 k1)
    answer_lem false ended c h k =
        Returns-bind (say_lem Shows path say speaks false [] c k)
          (λ _ c1 k1. Returns-pure done c1 _ k1)
    answer_lem dirty (typed s) c h k = obey_lem dirty (strip s) c h k

    next_lem :
        (dirty : Bool) (xs : List Typed) (c : Desk S)
        → All NoDiscard xs
        → Kept Shows path dirty c
        → Returns (next_of xs) c (λ event c'. NoDiscard event × Kept Shows path dirty c')
    next_lem dirty [] c h k = Returns-pure ended c _ (tt, k)
    next_lem dirty (x ∷ xs) c h k = record {
      value = x;
      state = _;
      runs = refl;
      holds = (h.0, typed_on vol rounds Shows works path say speaks dirty xs c h.1 k);
    }

    next_input_lem :
        (dirty : Bool) (c : Desk S)
        → Kept Shows path dirty c
        → Returns next_input c (λ event c'. NoDiscard event × Kept Shows path dirty c')
    unfolding next_input
    next_input_lem dirty c k =
        let r = next_lem dirty c.inputs c k.calm k in
        record { value = r.value; state = r.state; runs = r.runs; holds = r.holds }

    round_lem :
        (dirty : Bool) (c : Desk S)
        → Kept Shows path dirty c
        → Returns (round vol rounds say os_error_text path dirty) c (Fits Shows path)
    unfolding round
    round_lem dirty c k =
        Returns-bind (next_input_lem dirty c k) (λ event c1 k1. answer_lem dirty event c1 k1.0 k1.1)

    follow_lem :
        (n : ℕ) (a : Applied) (c : Desk S)
        → Fits Shows path a c
        → Returns (follow vol rounds say os_error_text path n a) c (Fits Shows path)
    unfolding follow
    follow_lem n done c k = Returns-pure done c _ k
    follow_lem zero (going b) c k = Returns-pure (going b) c _ k
    follow_lem (suc n) (going b) c k =
        Returns-bind (round_lem b c k) (λ a c1 k1. follow_lem n a c1 k1)

    start_lem :
        (c : Desk S) (d : Store)
        → Shows c.world d
        → Quiet d
        → ((t : Text) → d.content path ≡ some t → length t ≤ max_bytes)
        → All NoDiscard c.inputs
        → Returns
            (on_desk (load vol rounds path))
            c
            (λ lines c'. Kept Shows path false (record c' { lines = lines }))
    start_lem c d sh q small calm =
        let r = load_lem vol rounds Shows works path d c.world small sh q in
        let (e, sh1, q1, same) = r.holds in
        record {
          value = r.value;
          state = record c { world = r.state };
          runs = rw r.runs refl;
          holds = record { store = e; shown = sh1; quiet = q1; same = λ _. same; calm = calm };
        }

    -- On a volume that works, where nothing is open for reading, with a file of at most 8192
    -- characters or none, and `ctx.out.line` returning and leaving the files alone: whatever is typed,
    -- if no line of it is the command `q!`, the editor raises nothing in any number of rounds; while it
    -- runs and nothing is unsaved, the file has the lines of the buffer (a file that is not there has
    -- none), and once it has left, the file has them.
    pub cmd_edit-Fits :
        (n : ℕ) (c : Desk S) (d : Store)
        → Shows c.world d
        → Quiet d
        → ((t : Text) → d.content path ≡ some t → length t ≤ max_bytes)
        → All NoDiscard c.inputs
        → Returns (cmd_edit vol rounds say os_error_text n (path ∷ [])) c (Fits Shows path)
    unfolding cmd_edit
    cmd_edit-Fits n c d sh q small calm =
        Returns-bind (start_lem c d sh q small calm) (λ lines c1 k1.
          let r =
            Returns-bind (say_lem Shows path say speaks false _ (record c1 { lines = lines }) k1)
              (λ _ c2 k2. follow_lem n (going false) c2 k2) in
          record { value = r.value; state = r.state; runs = r.runs; holds = r.holds })
