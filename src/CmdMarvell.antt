-- ===== src/CmdMarvell.antt =====
-- src/python/cli/cmd_marvell.py, the command `mv`: its words, and what it does to one space of registers.
pub mod Groups
pub mod Spelling
use mdioprobe.Bus.{Bus}
use mdioprobe.CmdMdio.Modes.{Mode, plain, is_wide, take_mode, mode_name}
use mdioprobe.CmdMdio.{
  wrap, dump, bitmask, none_left, Action, set_bits, clear_bits, apply_modify, action_name, hex_word,
}
use mdioprobe.Exec.Pure
use mdioprobe.Exec.{
  Exec, Result, ok, err, fails, Message, says, formatted, pure, refuse, lift, ◌>>=◌, ◌>>◌,
}
use mdioprobe.Format.{decimal, hex_padded}
use mdioprobe.Marvell.{new_switch, switch, switch_phy, scratch_read, scratch_write}
use mdioprobe.Monitor.Run.{Clock, run}
use mdioprobe.Monitor.{take_timeout}
use mdioprobe.Output.{Session, line}
use mdioprobe.Parser.{ranged, spec, range}
use mdioprobe.Prelude.Int.{pos}
use mdioprobe.Prelude.Text.{Text, text_eq, codes, concat}
use mdioprobe.Prelude.{
  ℕ, suc, ◌+◌, ◌-◌, ◌*◌, ◌^◌, String, Bool, true, false, not, ◌&&◌, List, [], ◌∷◌, ◌++◌, Option,
  none, some, length, replicate, ◌==◌, if◌then◌else◌,
}

abbrev pub usage : Message
usage = formatted (
    codes
      "usage:\n  mv reg     read|write|modify|monitor <sw> <dev> ...     switch registers\n  mv phy     read|write|modify|monitor [mode] <sw> <addr> ...\n  mv scratch read|write|modify|monitor <sw> ...           one byte each")

-- `_switch`: the address of the switch.
unfoldable pub switch_at : Text → Result ℕ
switch_at token = Pure.◌>>=◌ (ranged token 0 31 "switch address") (λ n. new_switch (pos n))

-- The words of `_ACTIONS`, with the `set` or `clear` that may follow `modify`.
pub data Act : Type 0 where
  read write monitor : Act
  modify : Option Action → Act

abbrev pub sub_of : Text → Option Action
sub_of a =
    if text_eq a (codes "set")
    then some set_bits
    else if text_eq a (codes "clear")
    then some clear_bits
    else none

abbrev pub peel_sub : List Text → Option Action → List Text → Act × List Text
peel_sub args none rest = (modify none, args)
peel_sub args (some sub) rest = (modify (some sub), rest)

abbrev pub modify_of : List Text → Act × List Text
modify_of [] = (modify none, [])
modify_of (a ∷ args) = peel_sub (a ∷ args) (sub_of a) args

-- `_take_action`
unfoldable pub take_action : List Text → Result (Act × List Text)
take_action [] = fails usage
take_action (a ∷ args) =
    if text_eq a (codes "read")
    then ok (read, args)
    else if text_eq a (codes "write")
    then ok (write, args)
    else if text_eq a (codes "modify")
    then ok (modify_of args)
    else if text_eq a (codes "monitor")
    then ok (monitor, args)
    else fails usage

-- `_Target`
pub record Target (S : Type 0) : Type 0 where
  pub reads : ℕ → Exec S ℕ
  pub writes : ℕ → ℕ → Exec S (Unit {0})
  pub label : Text

-- The keyword arguments of `_run`.
pub record Space : Type 0 where
  pub high : ℕ
  pub awidth : ℕ
  pub vwidth : ℕ
  pub default : Option (List ℕ)
  pub what : String
  pub hint_idle : Bool

abbrev pub which : Space → Message
which space = formatted (concat (codes "which " ∷ codes space.what ∷ codes "?" ∷ []))

abbrev pub or_default : Space → Option (List ℕ) → Result (List ℕ)
or_default space none = fails (which space)
or_default space (some registers) = ok registers

-- The registers that `read` and `monitor` are given.
unfoldable pub registers_of : Space → List Text → Result (List ℕ)
registers_of space [] = or_default space space.default
registers_of space (a ∷ args) =
    Pure.◌>>=◌ (spec a 0 space.high space.what)
      (λ registers. Pure.◌>>=◌ (none_left args) (λ u. ok registers))

abbrev pub sub_in : List Text → Option Action → List Text → Result (Action × List Text)
sub_in args none rest = fails (says "modify needs set or clear")
sub_in args (some sub) rest = ok (sub, rest)

-- The `set` or `clear`, if it does not stand behind `modify`.
abbrev pub sub_or : Option Action → List Text → Result (Action × List Text)
sub_or (some sub) args = ok (sub, args)
sub_or none [] = fails (says "modify needs set or clear")
sub_or none (a ∷ args) = sub_in (a ∷ args) (sub_of a) args

-- `address`, and what is left behind it.
unfoldable pub address_of : Space → List Text → Result (ℕ × List Text)
address_of space [] = fails (which space)
address_of space (a ∷ args) =
    Pure.◌>>=◌ (ranged a 0 space.high space.what) (λ address. ok (address, args))

-- `seen` and `idle` of `_dump_with_hint`, beside the world.
pub record Tally (S : Type 0) : Type 0 where
  pub world : S
  pub seen : ℕ
  pub idle : ℕ

abbrev pub idle_hint : Text
idle_hint =
    codes
      "  (every read came back 0xffff — an idle bus reads that way; on some parts this window needs the PPU running)"

module _ {S : Type 0} where
  abbrev pub with_tally : Session S → Tally S → Session (Tally S)
  with_tally c t = record { world = record t { world = c.world }; lines = c.lines }

  abbrev pub without_tally : Session (Tally S) → Session S
  without_tally c = record { world = c.world.world; lines = c.lines }

  abbrev pub tallied : Tally S → Result ℕ × Session S → Result ℕ × Session (Tally S)
  tallied t (ok v, c) = (
    ok v,
    with_tally c
        (record t { seen = t.seen + 1; idle = if v == 0xffff then t.idle + 1 else t.idle }),
  )
  tallied t (err e, c) = (err e, with_tally c t)

  abbrev pub tallied_read : (ℕ → Exec (Session S) ℕ) → ℕ → Exec (Session (Tally S)) ℕ
  tallied_read reads reg c = tallied c.world (reads reg (without_tally c))

  abbrev pub hinted : Bool → Result (Unit {0}) × Session (Tally S) → Result (Unit {0}) × Session S
  hinted hint_idle (ok u, c) =
      (if hint_idle && (not (c.world.seen == 0) && c.world.idle == c.world.seen)
          then line idle_hint
          else pure tt)
        (without_tally c)
  hinted hint_idle (err e, c) = (err e, without_tally c)

  -- `_dump_with_hint`
  unfoldable pub dump_with_hint : List ℕ → Target (Session S) → Space → Exec (Session S) (Unit {0})
  dump_with_hint registers target space c = hinted space.hint_idle (
      dump line (tallied_read target.reads) target.label space.awidth space.vwidth registers
        (with_tally c (record { world = c.world; seen = 0; idle = 0 })))

  abbrev pub written_line : Target (Session S) → Space → ℕ → ℕ → Text
  written_line target space address value = concat (
      target.label
      ∷ codes " "
      ∷ hex_word space.awidth address
      ∷ codes " <- "
      ∷ hex_word space.vwidth value
      ∷ [])

  abbrev pub modified_line : Target (Session S) → Space → Action → ℕ → ℕ → ℕ → ℕ → Text
  modified_line target space sub address before after mask = concat (
      target.label
      ∷ codes " "
      ∷ hex_word space.awidth address
      ∷ codes ": "
      ∷ hex_word space.vwidth before
      ∷ codes " -> "
      ∷ hex_word space.vwidth after
      ∷ codes "  ("
      ∷ action_name sub
      ∷ codes " "
      ∷ hex_word 4 mask
      ∷ codes ")"
      ∷ [])

  -- The branches of `_run` behind the address.
  unfoldable pub write_value :
      Target (Session S) → Space → ℕ → List Text → Exec (Session S) (Unit {0})
  write_value target space address (v ∷ []) = do
    value ← lift (ranged v 0 (2 ^ (4 * space.vwidth) - 1) "value")
    target.writes address value
    line (written_line target space address value)
  write_value target space address _ = refuse (says "need a value")

  unfoldable pub modify_bits :
      Target (Session S) → Space → Option Action → ℕ → List Text → Exec (Session S) (Unit {0})
  modify_bits target space given address args = do
    sub ← lift (sub_or given args)
    m ← lift (bitmask (sub.1))
    lift (none_left m.1)
    w ← apply_modify target.reads target.writes (sub.0) address m.0
    line (modified_line target space (sub.0) address w.0 w.1 m.0)

abbrev pub reg_space : Space
reg_space = record {
  high = 31;
  awidth = 2;
  vwidth = 4;
  default = some (range 0 32);
  what = "register";
  hint_idle = false;
}

abbrev pub mode_prefix : Mode → Text
mode_prefix plain = []
mode_prefix mode = mode_name mode ++ codes " "

abbrev pub phy_label : ℕ → ℕ → Mode → Text
phy_label addr phy mode = concat (
    codes "sw "
    ∷ hex_word 2 addr
    ∷ codes " phy "
    ∷ replicate (2 - length (decimal phy)) b'0'
    ∷ decimal phy
    ∷ codes " "
    ∷ mode_prefix mode
    ∷ codes "reg"
    ∷ [])

abbrev pub phy_space : Mode → Space
phy_space mode = record {
  high = if is_wide mode then 0xffff else 31;
  awidth = if is_wide mode then 4 else 2;
  vwidth = 4;
  default = if is_wide mode then none else some (range 0 32);
  what = "register";
  hint_idle = true;
}

abbrev pub scratch_space : Space
scratch_space = record {
  high = 0xff;
  awidth = 2;
  vwidth = 2;
  default = some (range 0 0x80);
  what = "index";
  hint_idle = false;
}
