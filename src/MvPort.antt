-- ===== src/MvPort.antt =====
-- src/python/cli/mvport.py: the port registers that three switch families share. What differs between
-- families is the record `Ports`, which a chip helper fills.
pub mod Link
pub mod Settings
pub mod Status
pub mod Verbs
use mdioprobe.Bus.{Bus}
use mdioprobe.Exec.{Exec, Result, ok, formatted, pure, refuse, lift, ◌>>=◌, ◌>>◌, except_os_error}
use mdioprobe.Format.{decimal, hex_padded, decimal_wide}
use mdioprobe.Output.{Session, line}
use mdioprobe.Prelude.Bits.{and_not}
use mdioprobe.Prelude.Text.{Text, text_eq, codes, concat, join}
use mdioprobe.Prelude.{
  ℕ, zero, suc, ◌+◌, ◌/◌, ◌%◌, ◌^◌, Bool, true, false, not, ◌&&◌, ◌||◌, List, [], ◌∷◌, ◌++◌, Option,
  none, some, map, bit_and, bit_or, ◌==◌, get_or, if◌then◌else◌,
}

abbrev pub port_status : ℕ
port_status = 0x00

abbrev pub st_phy_detect : ℕ
st_phy_detect = 0x1000

abbrev pub st_link : ℕ
st_link = 0x0800

abbrev pub st_duplex : ℕ
st_duplex = 0x0400

abbrev pub st_cmode : ℕ
st_cmode = 0x000f

abbrev pub phys_ctrl : ℕ
phys_ctrl = 0x01

abbrev pub pc_rgmii_rx : ℕ
pc_rgmii_rx = 0x8000

abbrev pub pc_rgmii_tx : ℕ
pc_rgmii_tx = 0x4000

abbrev pub pc_link_value : ℕ
pc_link_value = 0x0020

abbrev pub pc_forced_link : ℕ
pc_forced_link = 0x0010

abbrev pub port_ctrl : ℕ
port_ctrl = 0x04

abbrev pub port_state : ℕ
port_state = 0x0003

-- STATES
abbrev pub state_names : List Text
state_names = codes "disabled" ∷ codes "blocking" ∷ codes "learning" ∷ codes "forwarding" ∷ []

abbrev pub bmcr_aneg : ℕ
bmcr_aneg = 0x1000

abbrev pub bmcr_pdown : ℕ
bmcr_pdown = 0x0800

abbrev pub bmcr_restart : ℕ
bmcr_restart = 0x0200

-- Where a port's link comes from: "phy", "ppu", "px_enable", "serdes", "serdes+ppu", "cpu", "none".
pub data Source : Type 0 where
  phy ppu px_enable serdes serdes_ppu cpu nowhere : Source

abbrev pub wants_phy : Source → Bool
wants_phy phy = true
wants_phy ppu = true
wants_phy serdes_ppu = true
wants_phy _ = false

abbrev pub wants_serdes : Source → Bool
wants_serdes serdes = true
wants_serdes serdes_ppu = true
wants_serdes _ = false

-- What `phy_at` and `serdes_at` return: the value of register 0, a way to put one back, a name.
pub record Part (S : Type 0) : Type 0 where
  pub bmcr : ℕ
  pub put : ℕ → Exec (Session S) (Unit {0})
  pub label : Text

-- The sixteen entries of `cmode` and the four of `speed` are functions from the bits that choose one.
pub record Ports (S : Type 0) : Type 0 where
  pub sw : Bus (ℕ × ℕ) (Session S)
  pub sw_addr : ℕ
  pub cmd : Text
  pub base : ℕ
  pub count : ℕ
  pub rgmii_ports : List ℕ
  pub speed : ℕ → Text
  pub cmode : ℕ → Option ((Text × Source) × (Text × Source))
  pub phy_at : ℕ → Exec (Session S) (Option (Part S))
  pub serdes_at : ℕ → Exec (Session S) (Option (Part S))
  pub wide : Bool

-- `v & mask` as a condition.
abbrev pub has : ℕ → ℕ → Bool
has v mask = not (bit_and v mask == 0)

module _ {S : Type 0} (self : Ports S) where
  -- `Ports.read` and `Ports.write`
  abbrev pub port_read : ℕ → ℕ → Exec (Session S) ℕ
  port_read n reg = self.sw.read (self.base + n, reg)

  abbrev pub port_write : ℕ → ℕ → ℕ → Exec (Session S) (Unit {0})
  port_write n reg value = self.sw.write (self.base + n, reg) value

  abbrev pub port_name : ℕ → Text
  port_name n = codes "port " ++ (if self.wide then decimal_wide n else decimal n)

  abbrev pub reserved_mode : ℕ → Text
  reserved_mode status = concat (
      codes "C_Mode 0x"
      ∷ hex_padded 1 (bit_and status st_cmode)
      ∷ codes ", reserved on this family"
      ∷ [])

  abbrev pub entry_mode : ℕ → Option ((Text × Source) × (Text × Source)) → Text × Source
  entry_mode status none = (reserved_mode status, nowhere)
  entry_mode status (some (absent, detected)) =
      if has status st_phy_detect then detected else absent

  -- `Ports.mode` of a status that has been read.
  unfoldable pub mode : ℕ → Text × Source
  mode status = entry_mode status (self.cmode (bit_and status st_cmode))

  abbrev pub Found : Type 0
  Found = List (Part S × Bool) × List Text

  -- What one of the two searches adds to `parts` and `missing`.
  abbrev pub with_part : Text → Bool → Found → Option (Part S) → Found
  with_part what aneg (parts, missing) none = (parts, missing ++ (what ∷ []))
  with_part what aneg (parts, missing) (some part) = (parts ++ ((part, aneg) ∷ []), missing)

  unfoldable pub search_if :
      Bool → Text → Bool → Exec (Session S) (Option (Part S)) → Found → Exec (Session S) Found
  search_if false what aneg search found = pure found
  search_if true what aneg search found = do part ← search; pure (with_part what aneg found part)

  -- `Ports._parts`
  unfoldable pub parts_of : ℕ → Source → Exec (Session S) Found
  unfolding search_if
  parts_of n source = do
    found ← search_if (wants_serdes source) (codes "SERDES") false (self.serdes_at n) ([], [])
    search_if (wants_phy source) (codes "PHY") true (self.phy_at n) found
