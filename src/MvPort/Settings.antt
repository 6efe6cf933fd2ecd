-- ===== src/MvPort/Settings.antt =====
-- `Ports.state` and `Ports.rgmii`: settings that are read, changed and written back if they changed.
pub mod Bits
use mdioprobe.Bus.{Bus}
use mdioprobe.Exec.{
  Exec, Result, ok, formatted, pure, refuse, lift, ◌>>=◌, ◌>>◌, except_os_error, on_os_error,
}
use mdioprobe.Format.{decimal, hex_padded, decimal_wide}
use mdioprobe.MvPort.{
  Part, Ports, Source, phy, ppu, serdes, nowhere, port_read, port_write, port_name, mode, has,
  parts_of, port_status, st_link, st_duplex, st_phy_detect, st_cmode, phys_ctrl, pc_rgmii_rx,
  pc_rgmii_tx, pc_link_value, pc_forced_link, port_ctrl, port_state, state_names, bmcr_aneg,
  bmcr_pdown, bmcr_restart,
}
use mdioprobe.MvPort.Link.{write_changed}
use mdioprobe.Output.{Session, line}
use mdioprobe.Parser.{spec, range}
use mdioprobe.Prelude.Bits.{and_not}
use mdioprobe.Prelude.Text.{Text, text_eq, codes, concat, join}
use mdioprobe.Prelude.{
  ℕ, zero, suc, ◌+◌, ◌-◌, ◌*◌, ◌/◌, ◌%◌, ◌^◌, Bool, true, false, not, ◌&&◌, ◌||◌, List, [], ◌∷◌,
  ◌++◌, Option, none, some, map, bit_and, bit_or, ◌==◌, get_or, if◌then◌else◌,
}

-- `(v & ~mask) | bits`
abbrev pub replaced : ℕ → ℕ → ℕ → ℕ
replaced v mask bits = bit_or (and_not v mask) bits

-- The index of a text in a list.
abbrev pub text_index : Text → List Text → Option ℕ
text_index s [] = none
text_index s (t ∷ ts) =
    let more = text_index s ts in
    if text_eq s t then some 0 else (elim more [ none ↦ none | some i ↦ some (suc i) ])

abbrev pub mode_words : Text → Text
mode_words mode = if text_eq mode (codes "none") then codes "off" else mode

-- `RGMII_MODES.get(mode)`
abbrev pub rgmii_bits : Text → Option ℕ
rgmii_bits mode =
    if text_eq mode (codes "none")
    then some 0
    else if text_eq mode (codes "rx")
    then some pc_rgmii_rx
    else if text_eq mode (codes "tx")
    then some pc_rgmii_tx
    else if text_eq mode (codes "both")
    then some (bit_or pc_rgmii_rx pc_rgmii_tx)
    else none

abbrev pub mem : ℕ → List ℕ → Bool
mem n [] = false
mem n (m ∷ ms) = m == n || mem n ms

module _ {S : Type 0} (self : Ports S) where
  -- One round of `state`.
  unfoldable pub state_port : Text → ℕ → ℕ → Exec (Session S) (Unit {0})
  unfolding write_changed
  state_port name want n = do
    v ← port_read self n port_ctrl
    write_changed self n port_ctrl v (replaced v port_state want)
    line (
        concat (
          port_name self n
          ∷ codes ": "
          ∷ name
          ∷ codes " (port control 0x"
          ∷ hex_padded 4 v
          ∷ codes " -> 0x"
          ∷ hex_padded 4 (replaced v port_state want)
          ∷ codes ")"
          ∷ []))

  unfoldable pub state_ports : Text → ℕ → List ℕ → Exec (Session S) (Unit {0})
  state_ports name want [] = pure tt
  state_ports name want (n ∷ ports) = do state_port name want n; state_ports name want ports

  abbrev pub state_usage : Text
  state_usage = concat (codes "state takes one of: " ∷ join (codes ", ") state_names ∷ [])

  unfoldable pub state_of : Text → Option ℕ → List ℕ → Exec (Session S) (Unit {0})
  unfolding state_ports state_port
  state_of name none ports = refuse (formatted state_usage)
  state_of name (some want) ports = state_ports name want ports

  -- `Ports.state`
  unfoldable pub state : List ℕ → Text → Exec (Session S) (Unit {0})
  unfolding state_of
  state ports name = state_of name (text_index name state_names) ports

  abbrev pub no_rgmii : ℕ → Text
  no_rgmii n = concat (
      codes "port "
      ∷ decimal n
      ∷ codes
          " has no RGMII interface on this family: bits 15:14 of Physical Control are defined on port(s) "
      ∷ join (codes ", ") (map decimal self.rgmii_ports)
      ∷ codes
          " and nowhere else here. The other Link Street families put them on different ports — `help "
      ∷ self.cmd
      ∷ codes "`"
      ∷ [])

  abbrev pub link_is_up : ℕ → Text
  link_is_up n = concat (
      codes "port "
      ∷ decimal n
      ∷ codes
          "'s link is up, and every one of the three specifications says a change to these bits is disruptive and must be made with the link down. `"
      ∷ self.cmd
      ∷ codes " port "
      ∷ decimal self.sw_addr
      ∷ codes " "
      ∷ decimal n
      ∷ codes " down` first"
      ∷ [])

  -- The end of a round of `rgmii`: both delay bits.
  unfoldable pub set_delay : Text → ℕ → ℕ → Exec (Session S) (Unit {0})
  unfolding write_changed
  set_delay mode bits n = do
    v ← port_read self n phys_ctrl
    let new : ℕ = replaced v (bit_or pc_rgmii_rx pc_rgmii_tx) bits
    write_changed self n phys_ctrl v new
    line (
        concat (
          port_name self n
          ∷ codes ": RGMII delay "
          ∷ mode_words mode
          ∷ codes " (physical control 0x"
          ∷ hex_padded 4 v
          ∷ codes " -> 0x"
          ∷ hex_padded 4 new
          ∷ codes ")"
          ∷ []))

  -- One round of `rgmii`.
  unfoldable pub rgmii_port : Text → ℕ → ℕ → Exec (Session S) (Unit {0})
  unfolding set_delay
  rgmii_port mode bits n =
      if not (mem n self.rgmii_ports) then refuse (formatted (no_rgmii n)) else (do
        status ← port_read self n port_status
        if has status st_link then refuse (formatted (link_is_up n)) else set_delay mode bits n)

  unfoldable pub rgmii_from : Text → ℕ → List ℕ → Exec (Session S) (Unit {0})
  rgmii_from mode bits [] = pure tt
  rgmii_from mode bits (n ∷ ports) = do rgmii_port mode bits n; rgmii_from mode bits ports

  unfoldable pub rgmii_of : Text → Option ℕ → List ℕ → Exec (Session S) (Unit {0})
  unfolding rgmii_from rgmii_port
  rgmii_of mode none ports = refuse (formatted (codes "rgmii takes one of: none, rx, tx, both"))
  rgmii_of mode (some bits) ports = rgmii_from mode bits ports

  -- `Ports.rgmii`
  unfoldable pub rgmii : List ℕ → Text → Exec (Session S) (Unit {0})
  unfolding rgmii_of
  rgmii ports mode = rgmii_of mode (rgmii_bits mode) ports
