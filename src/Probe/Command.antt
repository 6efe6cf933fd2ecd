-- ===== src/Probe/Command.antt =====
-- The command `probe`. `t` is the transport.
pub mod Reads
pub mod Completes
use mdioprobe.Access.{phy_bus, mmd}
use mdioprobe.Bus.{Bus}
use mdioprobe.Exec.Pure
use mdioprobe.Exec.{Exec, Result, ok, says, pure, refuse, lift, ◌>>=◌, ◌>>◌, except_os_error}
use mdioprobe.Format.{decimal, hex_padded, decimal_2, decimal_wide}
use mdioprobe.Output.{Session, line}
use mdioprobe.Parser.{ranged, range}
use mdioprobe.Prelude.Text.{Text, text_eq, codes, concat, join}
use mdioprobe.Prelude.{
  ℕ, zero, suc, ◌+◌, Bool, true, false, not, ◌&&◌, ◌||◌, List, [], ◌∷◌, ◌++◌, Option, none, some,
  map, length, ◌==◌, if◌then◌else◌,
}
use mdioprobe.Probe.Identify.{ChipDb, read_pair, read_identity, is_nothing}
use mdioprobe.Probe.Switches.{Candidate, switch_probes, lookup_switch}
use mdioprobe.Probe.Sweep.{sweep}
use mdioprobe.Probe.Detail.{detail, probe_mmd}
use mdioprobe.Probe.{decode, identifier, lookup_phy}

module _ {S : Type 0} (t : Bus (ℕ × ℕ) (Session S)) (db : ChipDb) where
  -- An argument list without `mmd` in front.
  unfoldable pub probe_plain : List Text → Exec (Session S) (Unit {0})
  unfolding sweep detail
  probe_plain [] = sweep t db
  probe_plain (a ∷ []) = do address ← lift (ranged a 0 31 "address"); detail t db address
  probe_plain (a ∷ b ∷ rest) = refuse (says "usage: probe [<phy> | mmd <phy> [devad]]")

  unfoldable pub cmd_probe : List Text → Exec (Session S) (Unit {0})
  unfolding probe_plain probe_mmd
  cmd_probe [] = probe_plain []
  cmd_probe (a ∷ args) =
      if text_eq a (codes "mmd") then probe_mmd t db args else probe_plain (a ∷ args)
