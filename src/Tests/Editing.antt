-- ===== src/Tests/Editing.antt =====
-- An edit of a file that is held in memory.
use mathlib.Core.Path.{subst}
use mdioprobe.CmdEdit.Kept.{Fits, NoDiscard}
use mdioprobe.CmdEdit.Saved.{cmd_edit-Fits}
use mdioprobe.CmdEdit.Session.{cmd_edit}
use mdioprobe.CmdEdit.Places.{verb_of, discard}
use mdioprobe.CmdEdit.{Desk, Typed, typed, ended, load, save}
use mdioprobe.CmdFiles.Copy.{copy_file-Put, Put}
use mdioprobe.CmdFiles.{copy_file}
use mdioprobe.Exec.Returns.{Returns, Returns-pure}
use mdioprobe.Exec.{Exec, pure}
use mdioprobe.Prelude.Text.{Text, codes, text_eq}
use mdioprobe.Prelude.{
  ℕ, ◌≡◌, ◌≢◌, ◌≤◌, refl, arith, All, Bool-cases, inl, inr, List, [], ◌∷◌, Option, none, some,
  length, if◌then◌else◌,
}
use mdioprobe.Tests.Disk.{Disk, disk, disk_rounds, ShowsDisk, disk-IsVolume}
use mdioprobe.Volume.Store.{Store}

-- One file of two lines.
abbrev one_file : Store
one_file = record {
  content = λ path. if text_eq (codes "notes") path then some (codes "one\ntwo") else none;
  reads = λ f. none;
  writes = λ f. none;
}

abbrev full : Disk
full = record { store = one_file; bound = 1; next = 3 }

-- Nothing that is said is kept.
abbrev mute : Text → Exec Disk (Unit {0})
mute t = pure tt

abbrev strokes : List Typed
strokes = typed (codes "d 1") ∷ typed (codes " q ") ∷ typed (codes "w") ∷ typed (codes "q") ∷ []

abbrev desk : Desk Disk
desk = record { world = full; inputs = strokes; lines = [] }

no_file : {q x : Text} → Path (Option (Text × Text)) none (some (q, x)) → ⊥
no_file e = cc

no_text : {t : Text} → Path (Option Text) none (some t) → ⊥
no_text e = cc

same_text : {s t : Text} → Path (Option Text) (some s) (some t) → s ≡ t
same_text e = cc

-- The file has the line that was left, and its copy both.
abbrev edited : Text → Option Text
edited path =
    ((cmd_edit disk disk_rounds mute (λ n. []) 9 (codes "notes" ∷ []) desk).1).world.store.content
      path

saved_test :
    (edited (codes "notes") ≡ some (codes "two"))
    × (edited (codes "notes.bak") ≡ some (codes "one\ntwo"))
unfolding cmd_edit load mdioprobe.CmdEdit.next_input mdioprobe.Prelude.Text.strip
    mdioprobe.CmdEdit.Verbs.apply verb_of mdioprobe.CmdEdit.Words.first_word
    mdioprobe.CmdEdit.Words.words mdioprobe.CmdEdit.Words.number mdioprobe.Parser.integer
    mdioprobe.Parser.int_of mdioprobe.Parser.magnitude mdioprobe.Parser.digits_of save copy_file
saved_test = (refl, refl)

-- Every file of the disk is the one.
short :
    (n : ℕ)
    → length (codes "one\ntwo") ≤ n
    → (path t : Text) → one_file.content path ≡ some t
    → length t ≤ n
short n h path t e = elim (Bool-cases (text_eq (codes "notes") path)) [
  | inl y ↦ subst (λ (x : Text). length x ≤ n) (same_text (rw y at e)) h
  | inr k ↦ absurd (no_text (rw k at e))
]

full-Shows : ShowsDisk full one_file
full-Shows = (refl, short 256 (omega arith))

mute_lem :
    (t : Text) (s : Disk) (d : Store) → ShowsDisk s d → Returns (mute t) s (λ _ s'. ShowsDisk s' d)
mute_lem t s d sh = Returns-pure tt s _ sh

quit_verbs :
    (verb_of (codes "d") ≢ discard)
    × (verb_of (codes "q") ≢ discard)
    × (verb_of (codes "w") ≢ discard)
unfolding verb_of
quit_verbs = (λ e. cc, λ e. cc, λ e. cc)

strokes_lem : All NoDiscard strokes
unfolding mdioprobe.Prelude.Text.strip mdioprobe.CmdEdit.Words.first_word
strokes_lem = let (d, q, w) = quit_verbs in (d, (q, (w, (q, tt))))

cmd_edit-Fits_example :
    Returns
      (cmd_edit disk disk_rounds mute (λ n. []) 9 (codes "notes" ∷ []))
      desk
      (Fits ShowsDisk (codes "notes"))
cmd_edit-Fits_example =
    cmd_edit-Fits disk disk_rounds ShowsDisk disk-IsVolume (codes "notes") mute mute_lem (λ n. []) 9
      desk one_file full-Shows (λ g q x e. no_file e)
      (λ t. short 8192 (omega arith) (codes "notes") t) strokes_lem

copy_file-Put_example :
    Returns
      (copy_file disk disk_rounds (codes "notes") (codes "copy"))
      full
      (λ _ s. (e : Store) × ShowsDisk s e × Put one_file (codes "copy") (codes "one\ntwo") e)
copy_file-Put_example =
    copy_file-Put disk disk_rounds ShowsDisk disk-IsVolume (codes "notes") (codes "copy") one_file
      (codes "one\ntwo") full (λ e. cc) (λ g q x e. absurd (no_file e)) refl full-Shows
