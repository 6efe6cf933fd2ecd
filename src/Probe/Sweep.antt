-- ===== src/Probe/Sweep.antt =====
-- `probe` without arguments: all addresses, then the places where a switch can be named. `t` is the
-- transport.
use mdioprobe.Access.{phy_bus}
use mdioprobe.Bus.{Bus}
use mdioprobe.Exec.{Exec, pure, lift, ◌>>=◌, ◌>>◌, except_os_error}
use mdioprobe.Format.{decimal, hex_padded, decimal_2}
use mdioprobe.Output.{Session, line}
use mdioprobe.Parser.{range}
use mdioprobe.Prelude.Text.{Text, codes, concat, join}
use mdioprobe.Prelude.{
  ℕ, zero, suc, ◌+◌, Bool, false, not, ◌||◌, List, [], ◌∷◌, ◌++◌, Option, none, some, map, length,
  ◌==◌, if◌then◌else◌,
}
use mdioprobe.Probe.Identify.{ChipDb, read_identity}
use mdioprobe.Probe.Switches.{Candidate, switch_probes, lookup_switch}
use mdioprobe.Probe.{decode, lookup_phy}

abbrev pub or_unknown : Option Text → Text
or_unknown none = codes "not in the database"
or_unknown (some []) = codes "not in the database"
or_unknown (some (c ∷ s)) = c ∷ s

abbrev pub note_text : Text → Text
note_text [] = []
note_text (c ∷ s) = codes "   " ++ (c ∷ s)

abbrev pub rev_text : Option ℕ → Text
rev_text none = []
rev_text (some r) = codes " rev " ++ decimal r

abbrev pub candidate_line : ℕ → ℕ → ℕ → Candidate → Text
candidate_line address register value (name, revision) = concat (
    codes "  "
    ∷ hex_padded 2 address
    ∷ codes "."
    ∷ hex_padded 2 register
    ∷ codes " = 0x"
    ∷ hex_padded 4 value
    ∷ codes "  "
    ∷ name
    ∷ rev_text revision
    ∷ [])

module _ {S : Type 0} where
  -- `report`
  unfoldable pub report : Text → Option (ℕ × Option Text) → Text → Exec (Session S) (Unit {0})
  report label none note = line (concat (label ∷ codes ": silent" ∷ []))
  report label (some (ident, name)) note = line (
      concat (
        label
        ∷ codes ": "
        ∷ hex_padded 8 ident
        ∷ codes "  "
        ∷ or_unknown name
        ∷ note_text note
        ∷ []))

abbrev pub is_idle : ℕ → Bool
is_idle value = value == 0xffff || value == 0x0000

-- `try: value = m` with `except OSError: value = None`
abbrev pub attempt : {S A : Type 0} → Exec S A → Exec S (Option A)
attempt m = except_os_error (do value ← m; pure (some value)) (λ _. pure none)

module _ {S : Type 0} where
  -- `if not shown`
  abbrev pub headline : ℕ → Exec (Session S) (Unit {0})
  headline zero = do line []; line (codes "switch candidates, by plain read:")
  headline (suc n) = pure tt

  -- The lines of the candidates that one value fits, the headline before the first of all.
  unfoldable pub show_candidates : ℕ → ℕ → ℕ → ℕ → List Candidate → Exec (Session S) ℕ
  show_candidates shown address register value [] = pure shown
  show_candidates shown address register value (c ∷ cs) = do
    headline shown
    line (candidate_line address register value c)
    show_candidates (shown + 1) address register value cs

-- `found` and `mute` of `_sweep`.
pub record Tally : Type 0 where
  pub found : ℕ
  pub mute : List ℕ

abbrev pub found_line : ℕ → ℕ → Option Text → Text
found_line address ident name = concat (
    codes "phy "
    ∷ decimal_2 address
    ∷ codes ": "
    ∷ hex_padded 8 ident
    ∷ codes "  "
    ∷ or_unknown name
    ∷ [])

-- Register 0 answered, with something.
abbrev pub is_mute : Option ℕ → Bool
is_mute none = false
is_mute (some value) = not (value == 0xffff)

abbrev pub comma : Text
comma = codes ", "

abbrev pub mute_line : List ℕ → Text
mute_line mute = concat (
    decimal (length mute)
    ∷ codes " answered register 0 but no identifier: "
    ∷ join comma (map decimal mute)
    ∷ [])

module _ {S : Type 0} where
  unfoldable pub say_mute : ℕ → List ℕ → Exec (Session S) (Unit {0})
  say_mute found (a ∷ mute) = do
    line (mute_line (a ∷ mute))
    line (
        codes
          "that is what a Marvell switch in multi-chip mode looks like — `probe <addr>` says more")
  say_mute zero [] = line (codes "nothing on the bus, or no pull-up on MDIO — see docs/HARDWARE.md")
  say_mute (suc n) [] = pure tt

  abbrev pub say_switches : ℕ → List ℕ → Exec (Session S) (Unit {0})
  say_switches zero [] = line (codes "no switch named itself by a plain read")
  say_switches shown mute = pure tt

module _ {S : Type 0} (t : Bus (ℕ × ℕ) (Session S)) (db : ChipDb) where
  -- What `_switch_pass` makes of the value of a register.
  unfoldable pub pass_answer : ℕ → ℕ → ℕ → Option ℕ → Exec (Session S) ℕ
  pass_answer shown address register none = pure shown
  pass_answer shown address register (some value) = if is_idle value then pure shown else (do
    found ← lift (lookup_switch db.switch value address register)
    show_candidates shown address register value found)

  -- One round of `_switch_pass`.
  unfoldable pub pass_one : ℕ → ℕ × ℕ → Exec (Session S) ℕ
  unfolding pass_answer
  pass_one shown (address, register) = do
    answer ← attempt ((phy_bus t address).read register)
    pass_answer shown address register answer

  unfoldable pub pass_from : ℕ → List (ℕ × ℕ) → Exec (Session S) ℕ
  pass_from shown [] = pure shown
  pass_from shown (p ∷ ps) = do shown' ← pass_one shown p; pass_from shown' ps

  unfoldable pub switch_pass : Exec (Session S) ℕ
  unfolding pass_one pass_from
  switch_pass = do probes ← lift (switch_probes db.switch); pass_from 0 probes

  -- What `_sweep` makes of the identifier of an address.
  unfoldable pub sweep_answer : Tally → ℕ → Option (ℕ × ℕ) → Exec (Session S) Tally
  sweep_answer tally address none = do
    answer ← attempt ((phy_bus t address).read 0x00)
    pure (if is_mute answer then record tally { mute = tally.mute ++ (address ∷ []) } else tally)
  sweep_answer tally address (some (reg2, reg3)) = do
    name ← lift (lookup_phy db.phy (decode reg2 reg3).ident)
    line (found_line address (decode reg2 reg3).ident name)
    pure (record tally { found = tally.found + 1 })

  -- One round of `_sweep`.
  unfoldable pub sweep_one : Tally → ℕ → Exec (Session S) Tally
  unfolding sweep_answer
  sweep_one tally address = do
    pair ← read_identity (phy_bus t address)
    sweep_answer tally address pair

  unfoldable pub sweep_from : Tally → List ℕ → Exec (Session S) Tally
  sweep_from tally [] = pure tally
  sweep_from tally (a ∷ rest) = do tally' ← sweep_one tally a; sweep_from tally' rest

  -- `_sweep`
  unfoldable pub sweep : Exec (Session S) (Unit {0})
  unfolding sweep_from sweep_one switch_pass
  sweep = do
    tally ← sweep_from (record { found = 0; mute = [] }) (range 0 32)
    line (decimal tally.found ++ codes " device(s) answered with an identifier")
    say_mute tally.found tally.mute
    shown ← switch_pass
    say_switches shown tally.mute
