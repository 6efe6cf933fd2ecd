-- ===== src/Access.antt =====
-- src/python/cli/access.py: the addressing modes. Each is a function from the bus it wraps to a bus,
-- so modes compose as the classes do.
pub mod Mmd
pub mod Paging
pub mod Window
pub mod Release
use mdioprobe.Bus.{Bus}
use mdioprobe.Exec.{Exec, pure, continue, ◌>>=◌, ◌>>◌, except_os_error, with_finally}
use mdioprobe.Prelude.Int.{ℤ, mask_low}
use mdioprobe.Prelude.{ℕ, bit_and, bit_or}

-- `PhyBus(phy)`: one address of the transport `t`.
unfoldable pub phy_bus : {S : Type 0} → Bus (ℕ × ℕ) S → ℕ → Bus ℕ S
phy_bus t phy = record {
  read = λ reg. t.read (phy, reg);
  write = λ reg value. t.write (phy, reg) value;
}

abbrev pub select : ℕ
select = 0x1f

module _ {S : Type 0} (bus : Bus ℕ S) where
  -- `Paged`
  unfoldable pub paged_arm : ℤ → ℕ → Exec S (Unit {0})
  paged_arm page select_reg = bus.write select_reg (mask_low 16 page)

  unfoldable pub paged : ℤ → ℕ → Bus ℕ S
  unfolding paged_arm
  paged page select_reg = record {
    read = λ reg. paged_arm page select_reg >> bus.read reg;
    write = λ reg value. paged_arm page select_reg >> bus.write reg value;
  }

abbrev pub extension : ℕ
extension = 0x0007

module _ {S : Type 0} (bus : Bus ℕ S) where
  -- `ExtPage`
  unfoldable pub ext_arm : ℤ → Exec S (Unit {0})
  ext_arm page = do bus.write 0x1f extension; bus.write 0x1e (mask_low 8 page)

  unfoldable pub ext_release : Exec S (Unit {0})
  ext_release = except_os_error (bus.write 0x1f 0x0000) (λ _. pure tt)

  unfoldable pub ext_page : ℤ → Bus ℕ S
  unfolding ext_arm ext_release
  ext_page page = record {
    read = λ reg. ext_arm page >> with_finally (bus.read reg) ext_release;
    write = λ reg value. ext_arm page >> with_finally (bus.write reg value) ext_release;
  }

abbrev pub mmd_addr : ℕ
mmd_addr = 0x0d

abbrev pub mmd_data : ℕ
mmd_data = 0x0e

abbrev pub data_mode : ℕ
data_mode = 0x4000

module _ {S : Type 0} (bus : Bus ℕ S) where
  -- `Mmd`; the constructor masks `devad`.
  unfoldable pub mmd_arm : ℕ → ℕ → Exec S (Unit {0})
  mmd_arm devad reg = do
    bus.write mmd_addr devad
    bus.write mmd_data (bit_and reg 0xffff)
    bus.write mmd_addr (bit_or devad data_mode)

  unfoldable pub mmd : ℕ → Bus ℕ S
  unfolding mmd_arm
  mmd devad =
      let kept = bit_and devad 0x1f in
      record {
        read = λ reg. mmd_arm kept reg >> bus.read mmd_data;
        write = λ reg value. mmd_arm kept reg >> bus.write mmd_data (bit_and value 0xffff);
      }

  -- `Window`
  unfoldable pub window : ℕ → ℕ → Bus ℕ S
  window addr_reg data_reg = record {
    read = λ reg. bus.write addr_reg (bit_and reg 0xffff) >> bus.read data_reg;
    write = λ reg value. do
      bus.write addr_reg (bit_and reg 0xffff)
      bus.write data_reg (bit_and value 0xffff);
  }
