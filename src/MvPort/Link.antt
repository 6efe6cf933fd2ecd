-- ===== src/MvPort/Link.antt =====
-- `Ports.link`: up, down and auto.
pub mod Bits
pub mod Safety
use mdioprobe.Bus.{Bus}
use mdioprobe.Exec.{
  Exec, Result, ok, formatted, pure, refuse, lift, ◌>>=◌, ◌>>◌, except_os_error, on_os_error,
}
use mdioprobe.Format.{decimal, hex_padded, decimal_wide}
use mdioprobe.MvPort.{
  Part, Ports, Source, phy, ppu, serdes, nowhere, port_read, port_write, port_name, mode, has,
  parts_of, port_status, st_link, st_duplex, st_phy_detect, st_cmode, phys_ctrl, pc_rgmii_rx,
  pc_rgmii_tx, pc_link_value, pc_forced_link, port_ctrl, port_state, state_names, bmcr_aneg,
  bmcr_pdown, bmcr_restart,
}
use mdioprobe.Output.{Session, line}
use mdioprobe.Parser.{spec, range}
use mdioprobe.Prelude.Bits.{and_not}
use mdioprobe.Prelude.Text.{Text, text_eq, codes, concat, join}
use mdioprobe.Prelude.{
  ℕ, zero, suc, ◌+◌, ◌-◌, ◌*◌, ◌/◌, ◌%◌, ◌^◌, Bool, true, false, not, ◌&&◌, ◌||◌, List, [], ◌∷◌,
  ◌++◌, Option, none, some, map, bit_and, bit_or, ◌==◌, get_or, if◌then◌else◌,
}

pub data Direction : Type 0 where
  up down auto : Direction

-- What is put into register 0 of a part.
unfoldable pub powered : Direction → Bool → ℕ → ℕ
powered down aneg bmcr = bit_or bmcr bmcr_pdown
powered what true bmcr = and_not (bit_or (bit_or bmcr bmcr_aneg) bmcr_restart) bmcr_pdown
powered what false bmcr = and_not bmcr bmcr_pdown

-- What Physical Control is to become.
unfoldable pub forced : Direction → ℕ → ℕ
forced auto v = and_not v (bit_or pc_forced_link pc_link_value)
forced up v = bit_or (bit_or v pc_forced_link) pc_link_value
forced down v = and_not (bit_or v pc_forced_link) pc_link_value

abbrev pub power_words : Direction → Bool → Text
power_words down aneg = codes "powered down"
power_words what true = codes "powered up, autoneg restarted"
power_words what false = codes "powered up"

abbrev pub force_words : Direction → Text
force_words auto = codes "released to normal detection"
force_words up = codes "forced up"
force_words down = codes "forced down"

abbrev pub decider : Source → Text
decider serdes = codes "the SERDES"
decider _ = codes "the PPU"

abbrev pub change_text : ℕ → ℕ → Text
change_text v new = concat (
    codes "(physical control 0x"
    ∷ hex_padded 4 v
    ∷ codes " -> 0x"
    ∷ hex_padded 4 new
    ∷ codes ")"
    ∷ [])

module _ {S : Type 0} (self : Ports S) where
  unfoldable pub say_missing : ℕ → Text → List Text → Exec (Session S) (Unit {0})
  say_missing n name [] = pure tt
  say_missing n name (m ∷ ms) = line (
      concat (
        port_name self n
        ∷ codes ": "
        ∷ name
        ∷ codes " — expected "
        ∷ join (codes " and a ") (m ∷ ms)
        ∷ codes " for this port and none answers; that is what has to come up, not the MAC link"
        ∷ []))

  abbrev pub power_line : ℕ → Direction → Part S → Bool → Text
  power_line n what part aneg = concat (
      port_name self n
      ∷ codes ": "
      ∷ part.label
      ∷ codes " bmcr 0x"
      ∷ hex_padded 4 part.bmcr
      ∷ codes " -> 0x"
      ∷ hex_padded 4 (powered what aneg part.bmcr)
      ∷ codes " ("
      ∷ power_words what aneg
      ∷ codes ")"
      ∷ [])

  -- The loop over `parts`.
  unfoldable pub power : ℕ → Direction → List (Part S × Bool) → Exec (Session S) (Unit {0})
  power n what [] = pure tt
  power n what ((part, aneg) ∷ rest) = do
    part.put (powered what aneg part.bmcr)
    line (power_line n what part aneg)
    power n what rest

  -- `if new != v: self.write(...)`
  unfoldable pub write_changed : ℕ → ℕ → ℕ → ℕ → Exec (Session S) (Unit {0})
  write_changed n reg v new = if new == v then pure tt else port_write self n reg new

  -- The end of a round: with parts in the path a force is cleared by `auto`, and never added.
  unfoldable pub settle :
      ℕ → Text → Source → Direction → List (Part S × Bool) → ℕ → Exec (Session S) (Unit {0})
  unfolding write_changed
  settle n name source what [] v = do
    write_changed n phys_ctrl v (forced what v)
    line (
        concat (
          port_name self n
          ∷ codes ": "
          ∷ name
          ∷ codes " — nothing to power for this port; MAC link "
          ∷ force_words what
          ∷ codes " "
          ∷ change_text v (forced what v)
          ∷ []))
  settle n name source auto (p ∷ ps) v = do
    write_changed n phys_ctrl v (forced auto v)
    if forced auto v == v
        then pure tt
        else line (
            concat (
              port_name self n
              ∷ codes ": MAC link force removed, "
              ∷ decider source
              ∷ codes " decides again "
              ∷ change_text v (forced auto v)
              ∷ []))
  settle n name source what (p ∷ ps) v = pure tt

  -- One round of `link`, after the status of the port.
  unfoldable pub link_port : Direction → ℕ → Text × Source → Exec (Session S) (Unit {0})
  unfolding say_missing power settle
  link_port what n (name, source) = do
    found ← parts_of self n source
    say_missing n name found.1
    power n what found.0
    v ← port_read self n phys_ctrl
    settle n name source what found.0 v

  -- `Ports.link`
  unfoldable pub link : List ℕ → Direction → Exec (Session S) (Unit {0})
  link [] what = pure tt
  link (n ∷ ports) what = do
    status ← port_read self n port_status
    link_port what n (mode self status)
    link ports what
