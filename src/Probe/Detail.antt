-- ===== src/Probe/Detail.antt =====
-- `probe` of one address: in full, or its MMDs. `t` is the transport.
use mdioprobe.Access.{phy_bus, mmd}
use mdioprobe.Bus.{Bus}
use mdioprobe.Exec.Pure
use mdioprobe.Exec.{Exec, Result, ok, says, pure, refuse, lift, ◌>>=◌, ◌>>◌}
use mdioprobe.Format.{hex_padded, decimal_2, decimal_wide}
use mdioprobe.Output.{Session, line}
use mdioprobe.Parser.{ranged}
use mdioprobe.Prelude.Text.{Text, codes, concat}
use mdioprobe.Prelude.{ℕ, not, List, [], ◌∷◌, ◌++◌, Option, none, some, ◌==◌, if◌then◌else◌}
use mdioprobe.Probe.Identify.{ChipDb, read_pair, read_identity, is_nothing}
use mdioprobe.Probe.Switches.{Candidate, switch_probes, lookup_switch}
use mdioprobe.Probe.Sweep.{or_unknown, rev_text, attempt}
use mdioprobe.Probe.{decode, identifier, lookup_phy}

abbrev pub or_kernel : Text → Option Text → Text
or_kernel kernel (some (c ∷ s)) = c ∷ s
or_kernel kernel _ = concat (codes "not in the database (Linux " ∷ kernel ∷ codes ")" ∷ [])

-- The device addresses that `_mmd` tries.
abbrev pub devads_of : List Text → Result (List ℕ)
devads_of [] = ok (1 ∷ 3 ∷ 7 ∷ [])
devads_of (a ∷ args) = Pure.◌>>=◌ (ranged a 0 31 "device address") (λ d. ok (d ∷ []))

module _ {S : Type 0} where
  unfoldable pub show_switches : ℕ → ℕ → List Candidate → Exec (Session S) (Unit {0})
  show_switches register value [] = pure tt
  show_switches register value ((name, rev) ∷ rest) = do
    line (
        concat (
          codes "  switch      "
          ∷ name
          ∷ rev_text rev
          ∷ codes "   from reg 0x"
          ∷ hex_padded 2 register
          ∷ codes " = 0x"
          ∷ hex_padded 4 value
          ∷ []))
    show_switches register value rest

  unfoldable pub say_control : Option ℕ → Exec (Session S) (Unit {0})
  say_control none = line (codes "  nothing answered here")
  say_control (some value) = if value == 0xffff then line (codes "  nothing answered here") else (do
    line (concat (codes "  reg 0x00    0x" ∷ hex_padded 4 value ∷ []))
    line (codes "  no identifier: registers 2 and 3 did not answer, but register 0 did")
    line (
        codes
          "  a Marvell switch in multi-chip mode looks like this — it decodes 0 and 1 only, and naming it means writing to SMI_CMD"))

module _ {S : Type 0} (t : Bus (ℕ × ℕ) (Session S)) (db : ChipDb) where
  -- What `_detail` says of a silent address.
  unfoldable pub detail_silent : ℕ → Exec (Session S) (Unit {0})
  detail_silent address = do control ← attempt ((phy_bus t address).read 0x00); say_control control

  unfoldable pub detail_named : ℕ → ℕ → Exec (Session S) (Unit {0})
  detail_named reg2 reg3 = do
    let d = decode reg2 reg3
    name ← lift (lookup_phy db.phy d.ident)
    line (concat (codes "  reg 0x02    0x" ∷ hex_padded 4 reg2 ∷ []))
    line (concat (codes "  reg 0x03    0x" ∷ hex_padded 4 reg3 ∷ []))
    line (concat (codes "  identifier  0x" ∷ hex_padded 8 d.ident ∷ []))
    line (concat (codes "  oui         0x" ∷ hex_padded 6 d.oui ∷ codes "   bits 3..24" ∷ []))
    line (concat (codes "  model       0x" ∷ hex_padded 2 d.model ∷ []))
    line (concat (codes "  revision    0x" ∷ hex_padded 1 d.revision ∷ []))
    line (concat (codes "  name        " ∷ or_kernel db.kernel name ∷ []))

  unfoldable pub detail_answer : ℕ → Option (ℕ × ℕ) → Exec (Session S) (Unit {0})
  unfolding detail_silent detail_named
  detail_answer address none = detail_silent address
  detail_answer address (some (reg2, reg3)) = detail_named reg2 reg3

  unfoldable pub detail_value : ℕ → ℕ → Option ℕ → Exec (Session S) (Unit {0})
  detail_value address register none = pure tt
  detail_value address register (some value) = do
    found ← lift (lookup_switch db.switch value address register)
    show_switches register value found

  -- One round of the loop at the end of `_detail`.
  unfoldable pub detail_probe : ℕ → ℕ × ℕ → Exec (Session S) (Unit {0})
  unfolding detail_value
  detail_probe address (at_address, register) = if not (at_address == address) then pure tt else (do
    answer ← attempt ((phy_bus t address).read register)
    detail_value address register answer)

  unfoldable pub detail_probes : ℕ → List (ℕ × ℕ) → Exec (Session S) (Unit {0})
  detail_probes address [] = pure tt
  detail_probes address (p ∷ ps) = do detail_probe address p; detail_probes address ps

  -- `_detail`
  unfoldable pub detail : ℕ → Exec (Session S) (Unit {0})
  unfolding detail_probes detail_probe detail_answer
  detail address = do
    pair ← read_identity (phy_bus t address)
    line (codes "phy " ++ decimal_2 address)
    detail_answer address pair
    probes ← lift (switch_probes db.switch)
    detail_probes address probes

  -- One round of `_mmd`.
  unfoldable pub mmd_one : ℕ → ℕ → Exec (Session S) (Unit {0})
  mmd_one address devad = do
    pair ← attempt (read_pair (mmd (phy_bus t address) devad))
    elim pair [
      | none ↦ line (concat (codes "  devad " ∷ decimal_wide devad ∷ codes "   no answer" ∷ []))
      | some (reg2, reg3) ↦
          if is_nothing reg2 reg3
          then line (concat (codes "  devad " ∷ decimal_wide devad ∷ codes "   empty" ∷ []))
          else (do
            name ← lift (lookup_phy db.phy (identifier reg2 reg3))
            line (
                concat (
                  codes "  devad "
                  ∷ decimal_wide devad
                  ∷ codes "   0x"
                  ∷ hex_padded 8 (identifier reg2 reg3)
                  ∷ codes "  "
                  ∷ or_unknown name
                  ∷ [])))
    ]

  unfoldable pub mmd_from : ℕ → List ℕ → Exec (Session S) (Unit {0})
  mmd_from address [] = pure tt
  mmd_from address (d ∷ ds) = do mmd_one address d; mmd_from address ds

  -- `_mmd`
  unfoldable pub probe_mmd : List Text → Exec (Session S) (Unit {0})
  unfolding mmd_from mmd_one
  probe_mmd [] = refuse (says "usage: probe mmd <phy> [devad]")
  probe_mmd (a ∷ args) = do
    address ← lift (ranged a 0 31 "address")
    devads ← lift (devads_of args)
    line (
        concat (
          codes "phy "
          ∷ decimal_2 address
          ∷ codes ": through registers 13 and 14 — this writes to the target"
          ∷ []))
    mmd_from address devads
