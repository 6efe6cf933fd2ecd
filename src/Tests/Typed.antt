-- ===== src/Tests/Typed.antt =====
-- Typed lines on a bus that counts its accesses.
use mdioprobe.Access.{phy_bus, mmd}
use mdioprobe.Bus.{Bus}
use mdioprobe.CmdMdio.Modes.{Mode}
use mdioprobe.CmdMdio.Typed.{cmd_read-typed, cmd_write-typed}
use mdioprobe.CmdMdio.{cmd_read, cmd_write, dump, write_line}
use mdioprobe.Exec.{ok, ◌>>◌}
use mdioprobe.Format.{decimal, digits}
use mdioprobe.Output.{Session, line, in_session}
use mdioprobe.Parser.Spec.{single, between}
use mdioprobe.Prelude.Text.{codes}
use mdioprobe.Prelude.{ℕ, ◌+◌, [], ◌∷◌, ◌≡◌, arith}

abbrev counting : Bus (ℕ × ℕ) (Session ℕ)
counting = in_session (record { read = λ a n. (ok 7, n + 1); write = λ a v n. (ok tt, n + 1) })

abbrev blank : Session ℕ
blank = record { world = 0; lines = [] }

cmd_read-typed_example :
    cmd_read counting (codes "mmd" ∷ codes "6" ∷ codes "7" ∷ codes "61,0-1" ∷ []) blank
    ≡ dump line (mmd (phy_bus counting 6) 7).read (codes "mmd reg") 4 4 (61 ∷ 0 ∷ 1 ∷ []) blank
unfolding decimal digits
cmd_read-typed_example =
    cmd_read-typed counting 6 7 (omega arith) (omega arith) (single 61) (between 0 1 ∷ [])
      (omega arith, (omega arith, tt)) blank

cmd_write-typed_example :
    cmd_write counting (codes "mmd" ∷ codes "6" ∷ codes "7" ∷ codes "60" ∷ codes "6" ∷ []) blank
    ≡ ((mmd (phy_bus counting 6) 7).write 60 6 >> line (write_line Mode.mmd 60 6)) blank
unfolding decimal digits
cmd_write-typed_example =
    cmd_write-typed counting 6 7 (omega arith) (omega arith) 60 6 (omega arith) (omega arith) blank
