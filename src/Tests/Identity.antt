-- ===== src/Tests/Identity.antt =====
-- `probe` at a bus with one PHY, a dead address and a rail that comes back.
use mdioprobe.Bus.{Bus}
use mdioprobe.Exec.Safe.{IsSoft, answers, fails_softly}
use mdioprobe.Exec.{Exec, Result, ok, err, os_error, pure, raise}
use mdioprobe.Format.{decimal}
use mdioprobe.Output.{Session}
use mdioprobe.Prelude.Text.{Text, codes, split}
use mdioprobe.Prelude.{
  ℕ, ◌+◌, ◌*◌, ◌^◌, ◌<◌, zero, suc, true, false, ◌≡◌, refl, arith, map, List, [], ◌∷◌, ◌++◌, Option,
  some, none, All, ◌==◌, if◌then◌else◌, Bool-cases, inl, inr,
}
use mdioprobe.Probe.Command.Completes.{IsChipDb, cmd_probe-Ends}
use mdioprobe.Probe.Command.Reads.{cmd_probe-reads}
use mdioprobe.Probe.Command.{cmd_probe}
use mdioprobe.Probe.Identify.Retry.{steady, lost, identify-retries}
use mdioprobe.Probe.Identify.{ChipDb, identify, named}
use mdioprobe.Probe.Lookup.Best.{Named, lookup_phy-Named}
use mdioprobe.Probe.Lookup.{Entry, IsEntry, table_of}
use mdioprobe.Probe.Switches.Readable.{lookup_switch-found}
use mdioprobe.Probe.Switches.{switch_probes, add_probes, add_probe}
use mdioprobe.Probe.Walk.{walk-lines, at_slice}
use mdioprobe.Probe.{lookup_phy, walk, walk_from, slice, field}

abbrev two_lines : Text
two_lines = 97 ∷ 98 ∷ 10 ∷ 10 ∷ 99 ∷ []

walk-lines_example : map (at_slice two_lines) (walk two_lines) ≡ (97 ∷ 98 ∷ []) ∷ (99 ∷ []) ∷ []
walk-lines_example = walk-lines two_lines

-- Two records of the real table.
abbrev pub known_phys : List Entry
known_phys =
    record { id = 0x01410eb0; mask = 0xfffffff0; name = codes "Marvell 88E1510" }
    ∷ record { id = 0x01410000; mask = 0xffff0000; name = codes "Marvell" }
    ∷ []

known_phys-IsEntry : All IsEntry known_phys
known_phys-IsEntry = ((omega arith, omega arith, refl), ((omega arith, omega arith, refl), tt))

lookup_phy-Named_example :
    (r : Option Text) × (lookup_phy (table_of known_phys) 0x01410eb1 ≡ ok r)
    × Named 0x01410eb1 known_phys r
lookup_phy-Named_example = lookup_phy-Named 0x01410eb1 known_phys known_phys-IsEntry

-- A record of the real table.
abbrev one_switch : Text
one_switch = codes "00000900 00000ff0 0000000f 10 03 c22  mv88e6xxx  88E6240\n"

abbrev db : ChipDb
db = record { kernel = codes "7.0"; phy = table_of known_phys; switch = one_switch }

db-IsChipDb : IsChipDb db
unfolding switch_probes add_probes add_probe walk walk_from slice field mdioprobe.Parser.int_of
    mdioprobe.Prelude.Text.strip mdioprobe.Parser.magnitude mdioprobe.Parser.digits_of
db-IsChipDb = record {
  phy_found = λ ident. let r = lookup_phy-Named ident known_phys known_phys-IsEntry in (r.0, r.1);
  switch_found = λ value address register.
      lookup_switch-found one_switch value address register
        (((0x900, refl), ((0xff0, refl), (0xf, refl))), tt);
  probes_found = ((0x10, 3) ∷ [], refl);
}

-- Answers in the order of the accesses.
abbrev script : Bus ℕ (List (Result ℕ))
script = record {
  read = λ r s. (elim s [ [] ↦ (err (os_error 5), []) | x ∷ rest ↦ (x, rest) ]);
  write = λ r v s. (ok tt, s);
}

abbrev pause : ℕ → Exec (List (Result ℕ)) (Unit {0})
pause ms = pure tt

identify-retries_example :
    identify pause db script 2 (err (os_error 19) ∷ ok 0x0141 ∷ ok 0x0eb0 ∷ [])
    ≡ named db (0x0141, 0x0eb0) []
identify-retries_example =
    identify-retries pause db script 2 [] (ok (0x0141, 0x0eb0))
      (lost _ (ok 0x0141 ∷ ok 0x0eb0 ∷ []) (ok 0x0141 ∷ ok 0x0eb0 ∷ []) refl refl (steady _))
      (omega arith) refl (λ e. cc)

-- A PHY at address 3, nothing elsewhere.
abbrev answer : ℕ → ℕ
answer r = if r == 2 then 0x0141 else if r == 3 then 0x0eb0 else 0

abbrev one_phy : Bus (ℕ × ℕ) (Session (Unit {0}))
one_phy = record {
  read = λ a s. elim (a.0 == 3) [ true ↦ (ok (answer a.1), s) | false ↦ (err (os_error 110), s) ];
  write = λ a v. pure tt;
}

one_phy-IsSoft : (a : ℕ × ℕ) → IsSoft (one_phy.read a)
one_phy-IsSoft a s = elim (Bool-cases (a.0 == 3)) [
  | inl e ↦ rw (one_phy, e) (answers _ _ refl)
  | inr e ↦ rw (one_phy, e) (fails_softly _ _ refl)
]

abbrev start : Session (Unit {0})
start = record { world = tt; lines = [] }

cmd_probe-reads_example :
    cmd_probe one_phy db (codes "3" ∷ []) start
    ≡ cmd_probe (record one_phy { write = λ a v. raise (os_error 5) }) db (codes "3" ∷ []) start
cmd_probe-reads_example =
    cmd_probe-reads one_phy db (λ a v. raise (os_error 5)) (codes "3" ∷ []) refl start

cmd_probe-Ends_example :
    ((c' : Session (Unit {0})) × (cmd_probe one_phy db [] start ≡ (ok tt, c')))
    × ((c' : Session (Unit {0})) × (cmd_probe one_phy db (decimal 3 ∷ []) start ≡ (ok tt, c')))
cmd_probe-Ends_example = cmd_probe-Ends one_phy db one_phy-IsSoft db-IsChipDb 3 (omega arith) start
