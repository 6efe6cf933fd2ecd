-- ===== src/CmdMdio.antt =====
-- src/python/cli/cmd_mdio.py: the register commands. `t` is the transport.
pub mod Modes
pub mod Dump
pub mod Modify
pub mod Scan
pub mod Typed
use mdioprobe.Access.{phy_bus, paged, ext_page, mmd, window, select}
use mdioprobe.Bus.{Bus}
use mdioprobe.CmdMdio.Modes.{Mode, plain, is_wide, take_mode, mode_label, mode_name}
use mdioprobe.Exec.Pure
use mdioprobe.Exec.{
  Exec, Result, ok, err, os_error, fails, Message, says, extra_arguments, pure, raise, refuse, lift,
  ◌>>=◌, ◌>>◌, except_os_error,
}
use mdioprobe.Format.{decimal, hex_padded}
use mdioprobe.Output.{Session, line}
use mdioprobe.Parser.{integer, ranged, phy, reg, u16, spec, range}
use mdioprobe.Prelude.Int.{ℤ, negsuc, mask_low}
use mdioprobe.Prelude.Text.{Text, text_eq, codes}
use mdioprobe.Prelude.{
  ℕ, ◌+◌, ◌-◌, ◌^◌, String, Bool, true, false, List, [], ◌∷◌, ◌++◌, Option, none, some, bit_and,
  bit_or, ◌==◌, length, replicate, if◌then◌else◌,
}

-- `wrap` after `mode`: the accessor and the arguments that are left.
module _ {S : Type 0} (bus : Bus ℕ S) where
  unfoldable pub with_number : String → (ℤ → Bus ℕ S) → List Text → Result (Bus ℕ S × List Text)
  with_number missing f [] = fails (says missing)
  with_number missing f (a ∷ rest) = Pure.◌>>=◌ (integer a "page") (λ page. ok (f page, rest))

  unfoldable pub with_devad : List Text → Result (Bus ℕ S × List Text)
  with_devad [] = fails (says "device address (devad) missing")
  with_devad (a ∷ rest) = Pure.◌>>=◌ (ranged a 0 31 "devad") (λ devad. ok (mmd bus devad, rest))

  unfoldable pub wrap : Mode → List Text → Result (Bus ℕ S × List Text)
  unfolding with_number with_devad
  wrap plain args = ok (bus, args)
  wrap Mode.page args = with_number "page number missing" (λ page. paged bus page select) args
  wrap Mode.mvpage args = with_number "page number missing" (λ page. paged bus page 22) args
  wrap Mode.extpage args = with_number "extension page missing" (λ page. ext_page bus page) args
  wrap Mode.mmd args = with_devad args
  wrap Mode.rdb args = ok (window bus 0x1e 0x1f, args)
  wrap Mode.extreg args = ok (window bus 0x1e 0x1f, args)

-- What `_open` returns.
pub record Opened (S : Type 0) : Type 0 where
  pub mode : Mode
  pub bus : Bus ℕ S
  pub rest : List Text

module _ {S : Type 0} (t : Bus (ℕ × ℕ) S) where
  unfoldable pub open_in : Mode → List Text → Result (Opened S)
  open_in mode [] = fails (says "which PHY?")
  open_in mode (a ∷ args) = Pure.◌>>=◌ (phy a) (λ n.
      Pure.◌>>=◌ (wrap (phy_bus t n) mode args)
        (λ w. ok (record { mode = mode; bus = w.0; rest = w.1 })))

  -- `_open`
  unfoldable pub open_bus : List Text → Result (Opened S)
  unfolding open_in
  open_bus args = let (mode, rest) = take_mode args in open_in mode rest

abbrev pub high_of : Mode → ℕ
high_of mode = if is_wide mode then 0xffff else 31

abbrev pub width_of : Mode → ℕ
width_of mode = if is_wide mode then 4 else 2

-- `_regs`
unfoldable pub regs : Mode → List Text → Bool → Result (List ℕ)
regs mode [] required = if required then fails (says "which register?") else ok (range 0 32)
regs mode (a ∷ args) required = spec a 0 (high_of mode) "register"

abbrev pub hex_word : ℕ → ℕ → Text
hex_word width n = b'0' ∷ b'x' ∷ hex_padded width n

abbrev pub register_line : Text → ℕ → ℕ → ℕ → ℕ → Text
register_line label width vwidth r v =
    label ++ (b' ' ∷ (hex_word width r ++ (codes " = " ++ hex_word vwidth v)))

abbrev pub error_line : Text → ℕ → ℕ → ℕ → Text
error_line label width r errno =
    label
    ++ (b' ' ∷ (hex_word width r ++ (codes " = ERROR (errno " ++ (decimal errno ++ codes ")"))))

-- `say` is `ctx.out.line`, whose `OSError`s are caught as those of `read` are; `raise failure` raises
-- the last one.
module _ {W : Type 0} (say : Text → Exec W (Unit {0})) (read : ℕ → Exec W ℕ) (label : Text)
    (width vwidth : ℕ) where
  -- One round of the loop of `dump`, with the failure seen last.
  unfoldable pub dump_one : ℕ → Option ℕ → Exec W (Option ℕ)
  dump_one r failure =
      except_os_error (do v ← read r; say (register_line label width vwidth r v); pure failure)
        (λ errno. do say (error_line label width r errno); pure (some errno))

  abbrev pub raise_failure : Option ℕ → Exec W (Unit {0})
  raise_failure none = pure tt
  raise_failure (some errno) = raise (os_error errno)

  unfoldable pub dump_from : Option ℕ → List ℕ → Exec W (Unit {0})
  dump_from failure [] = raise_failure failure
  dump_from failure (r ∷ rs) = do failure' ← dump_one r failure; dump_from failure' rs

  unfoldable pub dump : List ℕ → Exec W (Unit {0})
  unfolding dump_from
  dump registers = dump_from none registers

unfoldable pub bit_number : List Text → Result (ℕ × List Text)
bit_number [] = fails (says "`bit` needs a bit number")
bit_number (a ∷ args) = Pure.◌>>=◌ (ranged a 0 15 "bit number") (λ n. ok (2 ^ n, args))

unfoldable pub mask_value : List Text → Result (ℕ × List Text)
mask_value [] = fails (says "`mask` needs a value")
mask_value (a ∷ args) = Pure.◌>>=◌ (u16 a) (λ m. ok (m, args))

-- `bitmask`: the mask and the arguments that are left.
unfoldable pub bitmask : List Text → Result (ℕ × List Text)
unfolding bit_number mask_value
bitmask [] = fails (says "which bit or mask?")
bitmask (a ∷ args) =
    if text_eq a (codes "bit")
    then bit_number args
    else if text_eq a (codes "mask")
    then mask_value args
    else Pure.◌>>=◌ (u16 a) (λ m. ok (m, args))

abbrev pub none_left : List Text → Result (Unit {0})
none_left [] = ok tt
none_left (a ∷ args) = fails (extra_arguments (a ∷ args))

pub data Action : Type 0 where
  set_bits clear_bits : Action

-- `before | mask`, and `before & ~mask & 0xFFFF`.
unfoldable pub modified : Action → ℕ → ℕ → ℕ
modified set_bits before mask = bit_or before mask
modified clear_bits before mask = bit_and before (mask_low 16 (negsuc mask))

module _ {S : Type 0} (read : ℕ → Exec S ℕ) (write : ℕ → ℕ → Exec S (Unit {0})) where
  unfoldable pub apply_modify : Action → ℕ → ℕ → Exec S (ℕ × ℕ)
  apply_modify action register mask = do
    before ← read register
    write register (modified action before mask)
    pure (before, modified action before mask)

-- The line that `write` prints.
abbrev pub write_line : Mode → ℕ → ℕ → Text
write_line mode register value =
    mode_label mode
    ++ (b' ' ∷ (hex_word (width_of mode) register ++ (codes " <- " ++ hex_word 4 value)))

abbrev pub action_name : Action → Text
action_name set_bits = codes "set"
action_name clear_bits = codes "clear"

abbrev pub modify_line : Mode → Action → ℕ → ℕ → ℕ → ℕ → Text
modify_line mode action register before after mask =
    mode_label mode
    ++ (b' '
        ∷ (hex_word (width_of mode) register
            ++ (codes ": "
                ++ (hex_word 4 before
                    ++ (codes " -> "
                        ++ (hex_word 4 after
                            ++ (codes "  ("
                                ++ (action_name action
                                    ++ (b' ' ∷ (hex_word 4 mask ++ codes ")"))))))))))

abbrev pub scan_line : ℕ → ℕ → Text
scan_line address value =
    codes "phy "
    ++ ((replicate (2 - length (decimal address)) b'0' ++ decimal address)
        ++ (codes ": " ++ hex_word 4 value))

abbrev pub found_line : ℕ → ℕ → Text
found_line found register =
    decimal found ++ (codes " device(s) answered on register " ++ hex_word 2 register)

abbrev pub scan_register : List Text → Result ℕ
scan_register [] = ok 0
scan_register (a ∷ args) = reg a

abbrev pub modify_usage : Message
modify_usage = says "usage: modify set|clear [mode] <phy> [...] <reg> <bit n|mask v>"

module _ {S : Type 0} (t : Bus (ℕ × ℕ) (Session S)) where
  unfoldable pub cmd_read : List Text → Exec (Session S) (Unit {0})
  cmd_read args = do
    o ← lift (open_bus t args)
    registers ← lift (regs o.mode o.rest (is_wide o.mode))
    dump line o.bus.read (mode_label o.mode) (width_of o.mode) 4 registers

  unfoldable pub write_one : Opened (Session S) → List Text → Exec (Session S) (Unit {0})
  write_one o (r ∷ v ∷ []) = do
    register ← lift (ranged r 0 (high_of o.mode) "register")
    value ← lift (u16 v)
    o.bus.write register value
    line (write_line o.mode register value)
  write_one o _ = refuse (says "need a register and a value")

  unfoldable pub cmd_write : List Text → Exec (Session S) (Unit {0})
  unfolding write_one
  cmd_write args = do o ← lift (open_bus t args); write_one o o.rest

  unfoldable pub modify_one : Action → Opened (Session S) → List Text → Exec (Session S) (Unit {0})
  modify_one action o [] = refuse (says "need a register and a bit or mask")
  modify_one action o (r ∷ args) = do
    register ← lift (ranged r 0 (high_of o.mode) "register")
    m ← lift (bitmask args)
    lift (none_left m.1)
    w ← apply_modify o.bus.read o.bus.write action register m.0
    line (modify_line o.mode action register w.0 w.1 m.0)

  unfoldable pub modify_action : Action → List Text → Exec (Session S) (Unit {0})
  unfolding modify_one
  modify_action action args = do o ← lift (open_bus t args); modify_one action o o.rest

  unfoldable pub cmd_modify : List Text → Exec (Session S) (Unit {0})
  unfolding modify_action
  cmd_modify [] = refuse modify_usage
  cmd_modify (a ∷ args) =
      if text_eq a (codes "set")
      then modify_action set_bits args
      else if text_eq a (codes "clear")
      then modify_action clear_bits args
      else refuse modify_usage

  -- One round of the loop of `scan`: whether a device was found at the address.
  unfoldable pub scan_one : ℕ → ℕ → Exec (Session S) ℕ
  scan_one register address = do
    answer ←
        except_os_error (do value ← t.read (address, register); pure (some value)) (λ _. pure none)
    elim answer [
      | none ↦ pure 0
      | some value ↦ if value == 0xffff then pure 0 else (do line (scan_line address value); pure 1)
    ]

  unfoldable pub scan_from : ℕ → ℕ → List ℕ → Exec (Session S) ℕ
  scan_from register found [] = pure found
  scan_from register found (a ∷ rest) = do
    n ← scan_one register a
    scan_from register (found + n) rest

  unfoldable pub cmd_scan : List Text → Exec (Session S) (Unit {0})
  unfolding scan_one scan_from
  cmd_scan args = do
    register ← lift (scan_register args)
    found ← scan_from register 0 (range 0 32)
    line (found_line found register)
