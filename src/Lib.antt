-- ===== src/Lib.antt =====
-- mdioprobe: the register access core of the probe's command line, src/python/cli.
--
-- The program is a MicroPython shell on a USB probe that reads and writes the registers of Ethernet
-- PHYs and switches over MDIO (Clause 22). A typed line is split into words (parser.py), a command
-- handler parses them and builds an object with `read` and `write` (cmd_mdio.py), which goes through
-- the addressing modes (access.py) and, for a PHY behind a switch, through the switch's command and
-- data registers (marvell.py), down to the one module that calls the firmware (transport.py). `probe`
-- (cmd_probe.py) reads over these buses what names a part; the port commands of the chip helpers
-- (mvport.py) read and change the port registers of a switch.
--
-- Exec       Exceptions and effects. A pure function that may raise returns a `Result`; a function with
--            effects takes a state to a `Result` and the state that it leaves, also when it raises.
--            Exec/Pure has the `do` blocks of `Result`, Exec/Returns total correctness, Exec/Safe actions
--            that raise `OSError`s only, or nothing. The text of a `CommandError` is a `Message`, which
--            `message_text` of Shell prints.
-- Bus        `Bus`: what every layer offers and expects, `read` and `write`. `Device`: an abstract set of
--            registers. `Refines bus dev`: every access through the bus returns and is the device's.
-- Transport  transport.py. `Host` stands for the builtin module `mdioprobe` and `time.sleep_ms`, which
--            are not Python code of the repository; `World` has `_trace` and what has been printed.
-- Access     access.py. `phy_bus`, `paged`, `ext_page`, `mmd` and `window` are `PhyBus`, `Paged`,
--            `ExtPage`, `Mmd` and `Window`: functions from the bus that is wrapped to a bus.
-- Marvell    marvell.py. `switch` is `Switch`, `switch_phy` is `SwitchPhy`, `wait` is `_wait`.
-- Parser     parser.py. Text is a list of character codes; Format has the number formats of Python.
-- Output     output.py, as far as a handler at the console sees it: the lines that it writes. `dump` and the
--            editor, whose `except OSError` covers a line, take `line` as a parameter, which may raise.
--            Output/Sink is the object behind it: the console or a file, `out_of_room` and `redirect`.
-- CmdMdio    cmd_mdio.py: the commands read, write, modify and scan. CmdMdio/Modes has the mode words.
-- Registry   registry.py: `command` and `lookup`, Registry/Categories the groups of `help`. A dict is a
--            list of pairs.
-- Monitor    monitor.py: `take_timeout` and one sweep over the registers; Monitor/Run has `run` and the
--            command of cmd_monitor.py. `Clock` stands for `time`.
-- CmdMarvell cmd_marvell.py: the words of `mv` and what it does to one space of registers; CmdMarvell/Groups
--            has `_run`, the groups reg, phy and scratch, and `cmd_mv`.
-- Probe      cmd_probe.py. A table of chipdb.py is one text of lines. Probe/Switches has the switch table,
--            Probe/Identify `read_identity` and `identify`, Probe/Sweep `_switch_pass` and `_sweep`,
--            Probe/Detail `_detail` and `_mmd`, Probe/Command the command.
-- MvPort     mvport.py: `Ports` is the class of that name, with what a chip helper supplies as fields.
--            MvPort/Link has `link`, MvPort/Settings `state` and `rgmii`, MvPort/Status `status`,
--            MvPort/Verbs `take_verb`, `port_list` and `refuse_broadcast`.
-- Shell      shell.py: `execute` and `run_line`, over the table of commands and the redirection.
-- Extend     extend.py: `load` and `unload` of command modules; `imports` is `__import__`.
-- Volume     What the file commands call of MicroPython, `open` and `os`: a parameter. Volume/Store says what a
--            volume that works does, the hypothesis of the theorems; Tests/Disk has one in memory.
-- CmdFiles   cmd_files.py: `copy_file`, copy, move, cd, pwd, mkdir and rm.
-- CmdEdit    cmd_edit.py, the line editor: `load`, `save` and `_read_block`; CmdEdit/Words and CmdEdit/Places
--            read what is typed, CmdEdit/Verbs is `_apply`, CmdEdit/Session the loop of `cmd_edit`.
-- Prelude    Shared names, lists over native numbers, bit masks as arithmetic, text.
-- Tests      Concrete devices and lines on which the theorems and the definitions are run.
--
-- Each child module proves what it is named for. What a device is relied on for is a record of its
-- documented behaviour (`IsMmd`, `IsPaged`, `IsExtended`, `HasWindow`, `IsWindow`, `IsScratch`,
-- `IsVolume`, `IsClock`), a hypothesis of the theorems; Tests/Devices, Tests/Pages, Tests/Disk and
-- Tests/Switching have what meets each of them.
--
-- Integers: a register address or value is a natural number, masked where the code masks it. A
-- number that the operator may type negative is a `ℤ`, whose masking is two's complement. Loops:
-- `copy_file` runs for `rounds` of the volume, which is more than any file has chunks; `follow n` is
-- the first n rounds of the editor, for any n; the monitor's `poll_rounds` has the rounds that it is
-- given, of which ten for each second and one more are enough. `poll` is the loop of `_wait`, by the rounds left of its sixteen, so no fuel is added. The loop
-- of `_walk` has the length of the table and one more as fuel, each round passes a character; that
-- of `_popcount` has its argument, which a round halves. The other loops run over lists. Shift
-- lefts are products with powers of two.
--
-- Not modelled: an `OSError` without an errno, and what a line raises in a handler that is
-- redirected and does not catch it; the firmware in C and the wire (the parameter `Host`); the
-- commands trace, ta and clock of cmd_mdio.py; the shell's prompt, banner and loop, completion
-- and the chip helpers in scripts/lib; ls, cat, df and format of cmd_files.py; the commands of
-- cmd_bus.py, cmd_diag.py, cmd_capture.py and cmd_sys.py, which print what the firmware reports;
-- that `gc.collect` makes room for an import; the contents of chipdb.py, a parameter of the
-- lookups, and that it is imported on first use; tools/, the build, hardware/ and docs/.
pub mod Prelude
pub mod Exec
pub mod Bus
pub mod Transport
pub mod Access
pub mod Marvell
pub mod Format
pub mod Parser
pub mod Output
pub mod CmdMdio
pub mod Registry
pub mod Monitor
pub mod Probe
pub mod MvPort
pub mod Shell
pub mod Extend
pub mod CmdMarvell
pub mod Volume
pub mod CmdFiles
pub mod CmdEdit
mod Tests
