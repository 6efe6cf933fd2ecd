-- ===== src/Marvell/Chain.antt =====
-- `Switch` and `SwitchPhy` as layers: each turns a bus of one kind into a bus of what stands behind it.
use mdioprobe.Access.Mmd.{IsRegister, IsMmd, mmd_space, Holds, mmd-Refines}
use mdioprobe.Access.{mmd}
use mdioprobe.Bus.{Bus, Device, Refines}
use mdioprobe.Exec.Returns.{Returns, Returns-weaken}
use mdioprobe.Exec.{Exec}
use mdioprobe.Marvell.Window.{IsWindow, Behind, command_read-Returns, command_write-Returns}
use mdioprobe.Marvell.{switch_read, switch_write, switch, phy_read, phy_write, switch_phy}
use mdioprobe.Prelude.Bits.{and_low}
use mdioprobe.Prelude.{ℕ, ◌^◌, ◌<◌, ◌≡◌, ◌∙◌, arith, bit_and, ◌==◌, false}
use mdioprobe.Transport.Laws.{IsPair}

low5 : (n : ℕ) → n < 32 → bit_and n 0x1f ≡ n
low5 n h = ground (arith, and_low 5 n)

low16 : (n : ℕ) → n < 2 ^ 16 → bit_and n 0xffff ≡ n
low16 n h = ground (arith, and_low 16 n)

module _ {S T : Type 0} {wire : Bus (ℕ × ℕ) S} {dev : Device (ℕ × ℕ) T} {Shows : S → T → Type 0}
    (base : Refines wire dev IsPair Shows) (sleep_ms : ℕ → Exec S (Unit {0})) where
  -- With address 0, a switch is the wire: an access to a device and a register below 32 is the
  -- access of that address, and of nothing else.
  pub switch-Refines_single : Refines (switch sleep_ms wire 0) dev IsPair Shows
  unfolding switch switch_read switch_write
  switch-Refines_single = record {
    reads = λ i s t (hd, hr) sh. rw (low5 i.0 hd, low5 i.1 hr) (base.reads i s t (hd, hr) sh);
    writes = λ i v s t (hd, hr) hv sh.
        rw (low5 i.0 hd, low5 i.1 hr) (base.writes i v s t (hd, hr) hv sh);
  }

is_zero-pos : (n : ℕ) → 0 < n → (n == 0) ≡ false
is_zero-pos n h = ground arith

-- The registers of one of several PHYs.
abbrev pub one_phy : {U : Type 0} → Device (ℕ × ℕ) U → ℕ → Device ℕ U
one_phy phys phy = record { get = λ r. phys.get (phy, r); put = λ r. phys.put (phy, r) }

module _ {S T U : Type 0} {wire : Bus (ℕ × ℕ) S} {dev : Device (ℕ × ℕ) T} {sub : Device (ℕ × ℕ) U}
    {Shows : S → T → Type 0} {rest : T → T} (base : Refines wire dev IsPair Shows)
    (sleep_ms : ℕ → Exec S (Unit {0}))
    (sleeps : (s : S) (t : T)
      → Shows s t
      → Returns (sleep_ms 1) s (λ _ s'. Shows s' (rest t))) where
  -- With an address of 1 to 31 at whose registers 0 and 1 the devices have an SMI pair, which is
  -- ready within fifteen polls, `Switch(addr)` reaches the devices behind the pair: for a device
  -- and a register below 32, each read returns with the register's value and each 16-bit write
  -- returns and puts it.
  pub switch-Refines :
      (addr : ℕ)
      → 0 < addr
      → addr < 32
      → (law : IsWindow dev (addr, 0) (addr, 1) sub rest)
      → Refines (switch sleep_ms wire addr) sub IsPair (Behind law Shows)
  unfolding switch switch_read switch_write
  switch-Refines addr pos fits law =
      let at_cmd : IsPair (addr, 0) = omega arith in
      let at_data : IsPair (addr, 1) = omega arith in
      record {
        reads = λ i s u (hd, hr) sh.
            rw (low5 i.0 hd, low5 i.1 hr, is_zero-pos addr pos)
              (command_read-Returns base law at_cmd at_data sleep_ms sleeps "SMI" i.0 i.1 s u hd hr
                sh);
        writes = λ i v s u (hd, hr) hv sh.
            rw (low5 i.0 hd, low5 i.1 hr, low16 v hv, is_zero-pos addr pos)
              (command_write-Returns base law at_cmd at_data sleep_ms sleeps "SMI" i.0 i.1 v s u hd
                hr hv sh);
      }

  -- Over any bus of devices with the SMI PHY window of Global2 (0x18, 0x19), `SwitchPhy(sw, phy)`
  -- with `phy` below 32 is that PHY: for a register below 32, each read returns with the
  -- register's value and each 16-bit write returns and puts it.
  pub switch_phy-Refines :
      (phy : ℕ)
      → phy < 32
      → (law : IsWindow dev (0x1c, 0x18) (0x1c, 0x19) sub rest)
      → Refines (switch_phy sleep_ms wire phy) (one_phy sub phy) IsRegister (Behind law Shows)
  unfolding switch_phy phy_read phy_write
  switch_phy-Refines phy fits law =
      let at_cmd : IsPair (0x1c, 0x18) = omega arith in
      let at_data : IsPair (0x1c, 0x19) = omega arith in
      record {
        reads = λ r s u hr sh.
            rw (low5 phy fits, low5 r hr)
              (command_read-Returns base law at_cmd at_data sleep_ms sleeps "Global2 PHY command"
                phy r s u fits hr sh);
        writes = λ r v s u hr hv sh.
            rw (low5 phy fits, low5 r hr, low16 v hv)
              (command_write-Returns base law at_cmd at_data sleep_ms sleeps "Global2 PHY command"
                phy r v s u fits hr hv sh);
      }

sleeps_through :
    {S T U : Type 0} {dev : Device (ℕ × ℕ) T} {sub : Device (ℕ × ℕ) U} {Shows : S → T → Type 0}
    {rest : T → T} {cmd data_at : ℕ × ℕ} (sleep_ms : ℕ → Exec S (Unit {0}))
    → ((s : S) (t : T) → Shows s t → Returns (sleep_ms 1) s (λ _ s'. Shows s' (rest t)))
    → (law : IsWindow dev cmd data_at sub rest) (s : S) (u : U) → Behind law Shows s u
    → Returns (sleep_ms 1) s (λ _ s'. Behind law Shows s' u)
sleeps_through {rest} sleep_ms sleeps law s u (t, sh, e, b) =
    Returns-weaken (sleeps s t sh)
      λ _ s' sh'. (rest t, sh', (law.rested t).2 ∙ e, omega (arith, (law.rested t).0))

module _ {S T U V W : Type 0} {wire : Bus (ℕ × ℕ) S} {dev : Device (ℕ × ℕ) T}
    {sub : Device (ℕ × ℕ) U} {phys : Device (ℕ × ℕ) V} {space : Device (ℕ × ℕ) W}
    {Shows : S → T → Type 0} {rest : T → T} (base : Refines wire dev IsPair Shows)
    (sleep_ms : ℕ → Exec S (Unit {0}))
    (sleeps : (s : S) (t : T)
      → Shows s t
      → Returns (sleep_ms 1) s (λ _ s'. Shows s' (rest t))) where
  -- Let the transport hold the devices of `dev`, let `dev` have an SMI pair at `addr` (1 to 31)
  -- with the devices of `sub` behind it, `sub` a Global2 PHY window with PHYs behind it, and PHY
  -- `phy` (0 to 31) the MMD registers. Then `Mmd(SwitchPhy(Switch(addr), phy), devad)` is the
  -- register file of MMD `devad` of that PHY: every read and write through the three layers
  -- returns, a read gives the register's value, and a write puts the value into that register.
  -- The sleep of `_wait` must succeed and leave the devices as `rest` says.
  pub mmd_chain-Refines :
      (addr phy devad : ℕ)
      → 0 < addr
      → addr < 32
      → phy < 32
      → (smi : IsWindow dev (addr, 0) (addr, 1) sub rest)
        (window : IsWindow sub (0x1c, 0x18) (0x1c, 0x19) phys (λ u. u))
        (law : IsMmd (one_phy phys phy) space)
      → Refines
          (mmd (switch_phy sleep_ms (switch sleep_ms wire addr) phy) devad)
          (mmd_space space devad)
          (λ _. Unit {0})
          (Holds law.core (Behind window (Behind smi Shows)))
  mmd_chain-Refines addr phy devad pos fits phy_fits smi window law =
      mmd-Refines
        (switch_phy-Refines (switch-Refines base sleep_ms sleeps addr pos fits smi) sleep_ms
          (sleeps_through sleep_ms sleeps smi) phy phy_fits window)
        law devad
