-- ===== src/MvPort/Verbs.antt =====
-- The arguments of `port`: its verb and its list of ports.
pub mod Split
use mdioprobe.Bus.{Bus}
use mdioprobe.Exec.{
  Exec, Result, ok, err, command_error, formatted, pure, refuse, lift, ◌>>=◌, ◌>>◌, except_os_error,
  on_os_error,
}
use mdioprobe.Format.{decimal, hex_padded, decimal_wide}
use mdioprobe.MvPort.{
  Part, Ports, Source, phy, ppu, serdes, nowhere, port_read, port_write, port_name, mode, has,
  parts_of, port_status, st_link, st_duplex, st_phy_detect, st_cmode, phys_ctrl, pc_rgmii_rx,
  pc_rgmii_tx, pc_link_value, pc_forced_link, port_ctrl, port_state, state_names, bmcr_aneg,
  bmcr_pdown, bmcr_restart,
}
use mdioprobe.Output.{Session, line}
use mdioprobe.Parser.{spec, range}
use mdioprobe.Monitor.{last_two}
use mdioprobe.Prelude.Bits.{and_not}
use mdioprobe.Prelude.Text.{Text, text_eq, codes, concat, join}
use mdioprobe.Prelude.{
  ℕ, zero, suc, ◌+◌, ◌-◌, ◌*◌, ◌/◌, ◌%◌, ◌^◌, Bool, true, false, not, ◌&&◌, ◌||◌, List, [], ◌∷◌,
  ◌++◌, Option, none, some, map, bit_and, bit_or, ◌==◌, get_or, if◌then◌else◌,
}

abbrev pub bare_verbs : List Text
bare_verbs = codes "up" ∷ codes "down" ∷ codes "auto" ∷ []

abbrev pub valued_verbs : List Text
valued_verbs = codes "detect" ∷ codes "state" ∷ codes "rgmii" ∷ []

-- `s in words`
abbrev pub is_one_of : Text → List Text → Bool
is_one_of s [] = false
is_one_of s (t ∷ ts) = text_eq s t || is_one_of s ts

-- What `take_verb` returns.
pub record Verb : Type 0 where
  pub rest : List Text
  pub action : Option Text
  pub value : Option Text

-- `args[:-1]` and `args[-1]`
abbrev pub last_of : List Text → Option (List Text × Text)
last_of [] = none
last_of (a ∷ []) = some ([], a)
last_of (a ∷ b ∷ rest) =
    let found = last_of (b ∷ rest) in
    elim found [ none ↦ none | some (front, x) ↦ some (a ∷ front, x) ]

abbrev pub valued : List Text → Option (List Text × Text × Text) → Verb
valued args none = record { rest = args; action = none; value = none }
valued args (some (rest, verb, value)) =
    if is_one_of verb valued_verbs
    then record { rest = rest; action = some verb; value = some value }
    else record { rest = args; action = none; value = none }

abbrev pub bare_or : List Text → Option (List Text × Text) → Verb → Verb
bare_or args none other = other
bare_or args (some (rest, verb)) other =
    if is_one_of verb bare_verbs
    then record { rest = rest; action = some verb; value = none }
    else other

unfoldable pub take_verb : List Text → Verb
take_verb args = bare_or args (last_of args) (valued args (last_two args))

abbrev pub all_of : Text → ℕ → Text
all_of action count = concat (
    codes "say which ports: `"
    ∷ action
    ∷ codes "` changes them, and with no list that would be all "
    ∷ decimal count
    ∷ [])

-- What an empty list of ports means.
abbrev pub every_port : Option Text → ℕ → Result (List ℕ)
every_port none count = ok (range 0 count)
every_port (some action) count =
    if text_eq action (codes "detect")
    then ok (range 0 count)
    else err (command_error (formatted (all_of action count)))

-- `port_list`; a switch has at least one port.
unfoldable pub port_list : List Text → Option Text → ℕ → Text → Result (List ℕ)
port_list [] action count usage = every_port action count
port_list (a ∷ []) action count usage = spec a 0 (count - 1) "port"
port_list (a ∷ b ∷ rest) action count usage = err (command_error (formatted usage))

-- `refuse_broadcast`; `hint` is the hint with the switch's address in it.
unfoldable pub refuse_broadcast : {S A : Type 0} → ℕ → Text → Text → ℕ → Text → Exec S A
refuse_broadcast n label cmd sw_addr hint = refuse (
    formatted (
      concat (
        codes "port "
        ∷ decimal n
        ∷ codes " reaches "
        ∷ label
        ∷ codes
            " at SMI address 0 on the external bus, and that is the broadcast address: Realtek and Motorcomm PHYs answer there by default as well as at their strapped address, so a write would reach every one of them at once. Turn the broadcast response off in the PHY first, or write the register deliberately with `"
        ∷ hint
        ∷ codes " <value>`. `"
        ∷ cmd
        ∷ codes " probe "
        ∷ decimal sw_addr
        ∷ codes "` shows which addresses answer"
        ∷ [])))
