-- ===== src/CmdMarvell/Groups.antt =====
-- `_run`, the three groups of `mv` and the command itself. `t` is the transport.
use mdioprobe.CmdMarvell.{
  usage, switch_at, Act, take_action, Target, Space, registers_of, address_of, dump_with_hint,
  write_value, modify_bits, reg_space, phy_label, phy_space, scratch_space, read, write, monitor,
  modify,
}
use mdioprobe.Bus.{Bus}
use mdioprobe.CmdMdio.Modes.{Mode, take_mode}
use mdioprobe.CmdMdio.{wrap, hex_word}
use mdioprobe.Exec.{Exec, refuse, lift, ◌>>=◌}
use mdioprobe.Marvell.{switch, switch_phy, scratch_read, scratch_write}
use mdioprobe.Monitor.Run.{Clock, run}
use mdioprobe.Monitor.{take_timeout}
use mdioprobe.Output.{Session}
use mdioprobe.Parser.{ranged}
use mdioprobe.Prelude.Text.{Text, text_eq, codes, concat}
use mdioprobe.Prelude.{ℕ, Bool, List, [], ◌∷◌, Option, if◌then◌else◌}

module _ {S : Type 0} (clock : Clock (Session S)) (out_of_room : Exec (Session S) Bool)
    (rounds : ℕ) where
  unfoldable pub run_act :
      Act → Target (Session S) → Space → Option ℕ → List Text → Exec (Session S) (Unit {0})
  unfolding dump_with_hint write_value modify_bits
  run_act read target space seconds args = do
    registers ← lift (registers_of space args)
    dump_with_hint registers target space
  run_act monitor target space seconds args = do
    registers ← lift (registers_of space args)
    run clock out_of_room target.reads target.label space.awidth space.vwidth rounds registers
        seconds
  run_act write target space seconds args = do
    a ← lift (address_of space args)
    write_value target space (a.0) (a.1)
  run_act (modify sub) target space seconds args = do
    a ← lift (address_of space args)
    modify_bits target space sub (a.0) (a.1)

  -- `_run`
  unfoldable pub run_space :
      Act → Target (Session S) → Space → List Text → Exec (Session S) (Unit {0})
  unfolding run_act
  run_space act target space args = do
    timeout ← lift (take_timeout args)
    run_act act target space (timeout.0) (timeout.1)

  module _ (t : Bus (ℕ × ℕ) (Session S)) where
    abbrev pub registers_at : ℕ → Bus (ℕ × ℕ) (Session S)
    registers_at addr = switch clock.sleep_ms t addr

    abbrev pub reg_target : ℕ → ℕ → Target (Session S)
    reg_target addr dev = record {
      reads = λ r. (registers_at addr).read (dev, r);
      writes = λ r v. (registers_at addr).write (dev, r) v;
      label =
          concat
            (codes "sw " ∷ hex_word 2 addr ∷ codes " dev " ∷ hex_word 2 dev ∷ codes " reg" ∷ []);
    }

    unfoldable pub reg_words : Act → List Text → Exec (Session S) (Unit {0})
    unfolding run_space
    reg_words act (sw ∷ d ∷ args) = do
      addr ← lift (switch_at sw)
      dev ← lift (ranged d 0 31 "device address")
      run_space act (reg_target addr dev) reg_space args
    reg_words act _ = refuse usage

    unfoldable pub reg_group : List Text → Exec (Session S) (Unit {0})
    unfolding reg_words
    reg_group args = do a ← lift (take_action args); reg_words (a.0) (a.1)

    unfoldable pub phy_words : Act → Mode → List Text → Exec (Session S) (Unit {0})
    unfolding run_space
    phy_words act mode (sw ∷ p ∷ args) = do
      addr ← lift (switch_at sw)
      phy ← lift (ranged p 0 31 "PHY address")
      w ← lift (wrap (switch_phy clock.sleep_ms (registers_at addr) phy) mode args)
      run_space act
          (record { reads = w.0.read; writes = w.0.write; label = phy_label addr phy mode })
          (phy_space mode) w.1
    phy_words act mode _ = refuse usage

    unfoldable pub phy_group : List Text → Exec (Session S) (Unit {0})
    unfolding phy_words
    phy_group args = do
      a ← lift (take_action args)
      let m : Mode × List Text = take_mode (a.1)
      phy_words (a.0) (m.0) (m.1)

    abbrev pub scratch_target : ℕ → Target (Session S)
    scratch_target addr = record {
      reads = scratch_read (registers_at addr);
      writes = scratch_write (registers_at addr);
      label = concat (codes "sw " ∷ hex_word 2 addr ∷ codes " scratch" ∷ []);
    }

    unfoldable pub scratch_words : Act → List Text → Exec (Session S) (Unit {0})
    unfolding run_space
    scratch_words act [] = refuse usage
    scratch_words act (sw ∷ args) = do
      addr ← lift (switch_at sw)
      run_space act (scratch_target addr) scratch_space args

    unfoldable pub scratch_group : List Text → Exec (Session S) (Unit {0})
    unfolding scratch_words
    scratch_group args = do a ← lift (take_action args); scratch_words (a.0) (a.1)

    unfoldable pub cmd_mv : List Text → Exec (Session S) (Unit {0})
    unfolding reg_group phy_group scratch_group
    cmd_mv [] = refuse usage
    cmd_mv (a ∷ args) =
        if text_eq a (codes "reg")
        then reg_group args
        else if text_eq a (codes "phy")
        then phy_group args
        else if text_eq a (codes "scratch")
        then scratch_group args
        else refuse usage
