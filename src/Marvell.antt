-- ===== src/Marvell.antt =====
-- src/python/cli/marvell.py: the SMI indirection of Link Street switches, the PHYs behind a switch
-- and the scratch window. `t` is the transport and `sleep_ms` is `time.sleep_ms`.
pub mod Window
pub mod Chain
pub mod Stuck
pub mod Scratch
use mdioprobe.Bus.{Bus}
use mdioprobe.Exec.{Exec, Result, ok, fails, refuse, pure, ◌>>=◌, ◌>>◌, Message}
use mdioprobe.Exec.{switch_range, stayed_busy}
use mdioprobe.Prelude.Int.{ℤ, pos, ltb_ℤ}
use mdioprobe.Prelude.{ℕ, zero, suc, ◌*◌, ◌^◌, ◌||◌, String, bit_and, bit_or, ◌==◌, if◌then◌else◌}

abbrev pub smi_cmd : ℕ
smi_cmd = 0x00

abbrev pub smi_data : ℕ
smi_data = 0x01

abbrev pub smi_op_c22_write : ℕ
smi_op_c22_write = 0x9400

abbrev pub smi_op_c22_read : ℕ
smi_op_c22_read = 0x9800

abbrev pub global2 : ℕ
global2 = 0x1c

abbrev pub g2_phy_cmd : ℕ
g2_phy_cmd = 0x18

abbrev pub g2_phy_data : ℕ
g2_phy_data = 0x19

abbrev pub g2_scratch : ℕ
g2_scratch = 0x1a

abbrev pub g2_phy_op_c22_read : ℕ
g2_phy_op_c22_read = 0x9800

abbrev pub g2_phy_op_c22_write : ℕ
g2_phy_op_c22_write = 0x9400

abbrev pub poll_tries : ℕ
poll_tries = 16

-- `op | (dev << 5) | reg`
abbrev pub command_word : ℕ → ℕ → ℕ → ℕ
command_word op dev reg = bit_or (bit_or op (dev * 2 ^ 5)) reg

module _ {S : Type 0} (sleep_ms : ℕ → Exec S (Unit {0})) where
  -- The `for` loop of `_wait`, by the rounds left.
  unfoldable pub poll : ℕ → Exec S ℕ → String → Exec S (Unit {0})
  poll zero read_busy what = refuse (stayed_busy what)
  poll (suc left) read_busy what = do
    status ← read_busy
    if bit_and status 0x8000 == 0 then pure tt else (do sleep_ms 1; poll left read_busy what)

  unfoldable pub wait : Exec S ℕ → String → Exec S (Unit {0})
  wait = poll poll_tries

-- `Switch.__init__`: the address that is kept.
unfoldable pub new_switch : ℤ → Result ℕ
new_switch (pos addr) =
    if ltb_ℤ (pos 31) (pos addr) then fails (switch_range (pos addr)) else ok addr
new_switch addr = fails (switch_range addr)

module _ {S : Type 0} (sleep_ms : ℕ → Exec S (Unit {0})) (t : Bus (ℕ × ℕ) S) (addr : ℕ) where
  wait_smi : Exec S (Unit {0})
  wait_smi = wait sleep_ms (t.read (addr, smi_cmd)) "SMI"

  unfoldable pub switch_read : ℕ → ℕ → Exec S ℕ
  unfolding wait_smi
  switch_read dev' reg' =
      let dev : ℕ = bit_and dev' 0x1f in
      let reg : ℕ = bit_and reg' 0x1f in
      if addr == 0 then t.read (dev, reg) else (do
        wait_smi
        t.write (addr, smi_cmd) (command_word smi_op_c22_read dev reg)
        wait_smi
        t.read (addr, smi_data))

  unfoldable pub switch_write : ℕ → ℕ → ℕ → Exec S (Unit {0})
  unfolding wait_smi
  switch_write dev' reg' value =
      let dev : ℕ = bit_and dev' 0x1f in
      let reg : ℕ = bit_and reg' 0x1f in
      if addr == 0 then t.write (dev, reg) value else (do
        wait_smi
        t.write (addr, smi_data) (bit_and value 0xffff)
        t.write (addr, smi_cmd) (command_word smi_op_c22_write dev reg)
        wait_smi)

  -- `Switch` as an object with `read(dev, reg)` and `write(dev, reg, value)`.
  unfoldable pub switch : Bus (ℕ × ℕ) S
  switch = record { read = λ a. switch_read a.0 a.1; write = λ a value. switch_write a.0 a.1 value }

module _ {S : Type 0} (sleep_ms : ℕ → Exec S (Unit {0})) (sw : Bus (ℕ × ℕ) S) where
  -- `_phy_wait`
  phy_wait : Exec S (Unit {0})
  phy_wait = wait sleep_ms (sw.read (global2, g2_phy_cmd)) "Global2 PHY command"

  unfoldable pub phy_read : ℕ → ℕ → Exec S ℕ
  unfolding phy_wait
  phy_read phy reg = do
    phy_wait
    sw.write (global2, g2_phy_cmd)
        (command_word g2_phy_op_c22_read (bit_and phy 0x1f) (bit_and reg 0x1f))
    phy_wait
    sw.read (global2, g2_phy_data)

  unfoldable pub phy_write : ℕ → ℕ → ℕ → Exec S (Unit {0})
  unfolding phy_wait
  phy_write phy reg value = do
    phy_wait
    sw.write (global2, g2_phy_data) (bit_and value 0xffff)
    sw.write (global2, g2_phy_cmd)
        (command_word g2_phy_op_c22_write (bit_and phy 0x1f) (bit_and reg 0x1f))
    phy_wait

  -- `SwitchPhy(switch, phy)`
  unfoldable pub switch_phy : ℕ → Bus ℕ S
  switch_phy phy = record {
    read = λ reg. phy_read phy reg;
    write = λ reg value. phy_write phy reg value;
  }

module _ {S : Type 0} (sw : Bus (ℕ × ℕ) S) where
  unfoldable pub scratch_read : ℕ → Exec S ℕ
  scratch_read index = do
    sw.write (global2, g2_scratch) (bit_and index 0xff * 2 ^ 8)
    value ← sw.read (global2, g2_scratch)
    pure (bit_and value 0xff)

  unfoldable pub scratch_write : ℕ → ℕ → Exec S (Unit {0})
  scratch_write index value =
      sw.write (global2, g2_scratch)
        (bit_or (bit_or 0x8000 (bit_and index 0xff * 2 ^ 8)) (bit_and value 0xff))
