-- ===== src/Tests/Switching.antt =====
-- `mv` on a switch at address 6 that answers at once, and the monitor on a clock that ticks.
use mdioprobe.Bus.{Bus}
use mdioprobe.CmdMarvell.Groups.{cmd_mv}
use mdioprobe.CmdMarvell.Spelling.{cmd_mv_spellings}
use mdioprobe.CmdMdio.{set_bits}
use mdioprobe.Exec.Returns.{Returns}
use mdioprobe.Exec.{Exec, ok, pure}
use mdioprobe.Monitor.Ends.{IsClock, run-Returns}
use mdioprobe.Monitor.Run.{Clock, run}
use mdioprobe.Output.{Session, in_session, on_world}
use mdioprobe.Prelude.Int.{pos}
use mdioprobe.Prelude.Text.{Text, codes}
use mdioprobe.Prelude.{
  ℕ, ◌+◌, ◌-◌, false, some, arith, ap, List, [], ◌∷◌, ◌≡◌, refl, ◌==◌, if◌then◌else◌,
}

-- Time, and the data register behind the command register; no command is ever busy.
pub record Bench : Type 0 where
  pub now : ℕ
  pub data_word : ℕ

abbrev bench : Bus (ℕ × ℕ) Bench
bench = record {
  read = λ a s. (ok (if a.1 == 1 then s.data_word else 0), s);
  write = λ a v s. (ok tt, if a.1 == 1 then record s { data_word = v } else s);
}

abbrev ticking : Clock (Session Bench)
ticking = record {
  ticks_ms = on_world (λ s. (ok s.now, s));
  ticks_diff = λ a b. pos (a - b);
  sleep_ms = λ ms. on_world (λ s. (ok tt, record s { now = s.now + ms }));
}

abbrev start : Session Bench
start = record { world = record { now = 5; data_word = 0x10 }; lines = [] }

abbrev typed : List Text → List Text
typed words = ((cmd_mv ticking (pure false) 40 (in_session bench) words start).1).lines

mv_runs :
    (typed (codes "reg" ∷ codes "read" ∷ codes "6" ∷ codes "27" ∷ codes "3" ∷ [])
      ≡ codes "sw 0x06 dev 0x1b reg 0x03 = 0x0010" ∷ [])
    × (typed (
          codes "reg"
          ∷ codes "modify"
          ∷ codes "set"
          ∷ codes "6"
          ∷ codes "27"
          ∷ codes "3"
          ∷ codes "bit"
          ∷ codes "0"
          ∷ [])
        ≡ codes "sw 0x06 dev 0x1b reg 0x03: 0x0010 -> 0x0011  (set 0x0001)" ∷ [])
    × (typed (
          codes "reg"
          ∷ codes "monitor"
          ∷ codes "6"
          ∷ codes "27"
          ∷ codes "3"
          ∷ codes "for"
          ∷ codes "2"
          ∷ [])
        ≡ codes "watching 1 register(s) for 2 s" ∷ codes "0 change(s) in 2.0 s" ∷ [])
unfolding cmd_mv mdioprobe.CmdMarvell.take_action mdioprobe.CmdMarvell.switch_at
    mdioprobe.Parser.ranged mdioprobe.Parser.integer mdioprobe.Prelude.Text.strip
    mdioprobe.Parser.int_of mdioprobe.Parser.magnitude mdioprobe.Parser.digits_of
    mdioprobe.Marvell.new_switch mdioprobe.Monitor.take_timeout mdioprobe.CmdMarvell.registers_of
    mdioprobe.Parser.spec mdioprobe.Parser.spec_parts mdioprobe.Parser.spec_part
    mdioprobe.CmdMdio.dump mdioprobe.CmdMdio.dump_one mdioprobe.CmdMarvell.address_of
    mdioprobe.CmdMdio.modified mdioprobe.CmdMdio.bitmask mdioprobe.CmdMdio.apply_modify
    mdioprobe.Marvell.switch mdioprobe.Monitor.sweep_one mdioprobe.CmdMarvell.modify_bits
    mdioprobe.Marvell.switch_read mdioprobe.Marvell.wait mdioprobe.Marvell.poll
    mdioprobe.Format.hex_padded mdioprobe.Format.digits mdioprobe.Marvell.switch_write run
    mdioprobe.Monitor.Run.look mdioprobe.Format.decimal
mv_runs = (refl, refl, refl)

cmd_mv_spellings_example :
    (cmd_mv ticking
        (pure false)
        40
        (in_session bench)
        (codes "reg"
          ∷ codes "modify"
          ∷ codes "set"
          ∷ codes "6"
          ∷ codes "27"
          ∷ codes "3"
          ∷ codes "0x1"
          ∷ [])
        start
      ≡ cmd_mv ticking
          (pure false)
          40
          (in_session bench)
          (codes "reg"
            ∷ codes "modify"
            ∷ codes "6"
            ∷ codes "27"
            ∷ codes "3"
            ∷ codes "set"
            ∷ codes "0x1"
            ∷ [])
          start)
    × (cmd_mv ticking
          (pure false)
          40
          (in_session bench)
          (codes "scratch"
            ∷ codes "modify"
            ∷ codes "set"
            ∷ codes "6"
            ∷ codes "3"
            ∷ codes "0x1"
            ∷ [])
          start
        ≡ cmd_mv ticking
            (pure false)
            40
            (in_session bench)
            (codes "scratch"
              ∷ codes "modify"
              ∷ codes "6"
              ∷ codes "3"
              ∷ codes "set"
              ∷ codes "0x1"
              ∷ [])
            start)
cmd_mv_spellings_example =
    cmd_mv_spellings ticking (pure false) 40 set_bits (in_session bench) (codes "6") (codes "27")
      (codes "3") (codes "0x1" ∷ []) start refl (refl, (refl, tt))

-- The register behind the bus, in a session.
abbrev bench_read : ℕ → Exec (Session Bench) ℕ
bench_read r = (in_session bench).read (27, r)

now_of : Bench → ℕ
now_of s = s.now

ticking-IsClock : IsClock now_of ticking (pure false) bench_read 0
unfolding now_of
ticking-IsClock = record {
  stamp = λ n. n;
  ticks = λ c. record {
    value = c.world.now;
    state = c;
    runs = refl;
    holds = (refl, record { early = omega arith; late = omega arith });
  };
  diff = λ a n h. ap pos (omega arith);
  sleeps =
      λ ms c. record { value = tt; state = _; runs = refl; holds = (omega arith, omega arith) };
  room = λ c. record {
    value = false;
    state = c;
    runs = refl;
    holds = record { early = omega arith; late = omega arith };
  };
  reads = λ r c. record {
    result = _;
    state = c;
    runs = refl;
    soft = tt;
    passes = record { early = omega arith; late = omega arith };
  };
}

run-Returns_example :
    Returns
      (run ticking (pure false) bench_read (codes "reg") 2 4 21 (1 ∷ 2 ∷ []) (some 2))
      start
      (λ _ _. Unit {0})
run-Returns_example =
    run-Returns now_of ticking (pure false) bench_read 0 ticking-IsClock (codes "reg") 2 4
      (1 ∷ 2 ∷ []) (some 2) 21 start (omega arith) (omega arith)
