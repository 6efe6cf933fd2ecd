-- ===== src/CmdMdio/Typed.antt =====
-- `read mmd` and `write mmd` from the words that an operator types to the accesses on the bus.
use mdioprobe.Access.{phy_bus, mmd}
use mdioprobe.Bus.{Bus}
use mdioprobe.CmdMdio.Modes.{Mode, take_mode}
use mdioprobe.CmdMdio.{
  wrap, with_devad, open_in, open_bus, regs, dump, cmd_read, write_one, cmd_write, write_line,
}
use mdioprobe.Exec.{ok, ◌>>◌}
use mdioprobe.Format.{decimal}
use mdioprobe.Output.{Session, line}
use mdioprobe.Parser.Spec.{Part, typed, expand_all, Fits, ranged-decimal, spec-typed}
use mdioprobe.Parser.{phy, u16}
use mdioprobe.Prelude.Text.{Text, codes, join}
use mdioprobe.Prelude.{ℕ, ◌<◌, ◌^◌, ◌≡◌, refl, List, [], ◌∷◌, map, arith, All}

phy-decimal : (n : ℕ) → n < 32 → phy (decimal n) ≡ ok n
unfolding phy
phy-decimal n h = ranged-decimal n 0 31 "PHY address" (omega arith) (omega arith)

u16-decimal : (v : ℕ) → v < 2 ^ 16 → u16 (decimal v) ≡ ok v
unfolding u16
u16-decimal v h = ranged-decimal v 0 0xffff "16-bit value" (omega arith) (omega arith)

module _ {S : Type 0} (t : Bus (ℕ × ℕ) (Session S)) (n d : ℕ) (hn : n < 32) (hd : d < 32) where
  opened :
      (args : List Text)
      → open_bus t (codes "mmd" ∷ decimal n ∷ decimal d ∷ args)
        ≡ ok (record { mode = Mode.mmd; bus = mmd (phy_bus t n) d; rest = args })
  unfolding open_bus open_in wrap with_devad take_mode
  opened args =
      rw (phy-decimal n hn, ranged-decimal d 0 31 "devad" (omega arith) (omega arith)) refl

  -- `read mmd <phy> <devad> <regs>`, with the PHY and the device address below 32 in decimal and the
  -- registers as numbers and ranges of sixteen bits joined by commas, dumps the registers that were
  -- meant, in the order written, through `Mmd(PhyBus(phy), devad)`.
  pub cmd_read-typed :
      (p : Part) (ps : List Part)
      → All (Fits 0 0xffff) (p ∷ ps)
      → (c : Session S)
      → cmd_read t
          (codes "mmd" ∷ decimal n ∷ decimal d ∷ join (b',' ∷ []) (map typed (p ∷ ps)) ∷ [])
          c
        ≡ dump line (mmd (phy_bus t n) d).read (codes "mmd reg") 4 4 (expand_all (p ∷ ps)) c
  unfolding cmd_read regs
  cmd_read-typed p ps h c =
      rw
        (opened (join (b',' ∷ []) (map typed (p ∷ ps)) ∷ []), spec-typed 0 0xffff "register" p ps h)
        refl

  -- `write mmd <phy> <devad> <reg> <value>`, all in decimal, the first two below 32 and the others of
  -- sixteen bits, writes the value to the register through `Mmd(PhyBus(phy), devad)`, and then prints
  -- what it wrote; a write that raises prints nothing.
  pub cmd_write-typed :
      (r v : ℕ)
      → r < 2 ^ 16
      → v < 2 ^ 16
      → (c : Session S)
      → cmd_write t (codes "mmd" ∷ decimal n ∷ decimal d ∷ decimal r ∷ decimal v ∷ []) c
        ≡ ((mmd (phy_bus t n) d).write r v >> line (write_line Mode.mmd r v)) c
  unfolding cmd_write write_one
  cmd_write-typed r v hr hv c =
      rw
        (
          opened (decimal r ∷ decimal v ∷ []),
          ranged-decimal r 0 0xffff "register" (omega arith) (omega arith),
          u16-decimal v hv,
        )
        refl
