-- ===== src/Tests/Commands.antt =====
-- The register commands on a bus of four PHYs, one of which does not answer.
use mdioprobe.Bus.{Bus, Device}
use mdioprobe.CmdMdio.Dump.{
  Outcome, answered, failed, as_result, AnswersAs, dump-reports, outcomes, left_after, last_failure,
  ending, report,
}
use mdioprobe.CmdMdio.Modify.{apply_modify-Returns, bit_after}
use mdioprobe.CmdMdio.Scan.{cmd_scan-reports, device_line, devices}
use mdioprobe.CmdMdio.{apply_modify, clear_bits, cmd_scan, dump, found_line}
use mdioprobe.Exec.{Exec, ok, err, os_error}
use mdioprobe.Exec.Returns.{Returns}
use mdioprobe.Output.{line, Session, on_world, in_session}
use mdioprobe.Parser.{range}
use mdioprobe.Prelude.Masks.{bit_at}
use mdioprobe.Prelude.Text.{Text, codes}
use mdioprobe.Prelude.{
  ℕ, ◌+◌, ◌<◌, List, [], ◌∷◌, ◌++◌, ◌≡◌, refl, arith, length, map, none, if◌then◌else◌, ◌==◌, ltb,
}
use mdioprobe.Tests.Buses.{bus_of, bus_of-Refines}

-- Address 2 fails with errno 5, those above 3 are silent; the state counts the reads.
abbrev answer : ℕ → ℕ → Outcome × ℕ
answer i s =
    (if i == 2 then failed 5 else if ltb i 4 then answered (0x1140 + i) else answered 0xffff, s + 1)

abbrev flaky : ℕ → Exec ℕ ℕ
flaky i s = (as_result (answer i s).0, (answer i s).1)

flaky-AnswersAs : AnswersAs flaky answer
unfolding AnswersAs
flaky-AnswersAs i s = refl

abbrev bench : Bus (ℕ × ℕ) ℕ
bench = record { read = λ a. flaky a.0; write = λ a v s. (ok tt, s) }

bench-AnswersAs : AnswersAs (λ a. bench.read (a, 0)) answer
unfolding AnswersAs
bench-AnswersAs i s = refl

abbrev blank : Session ℕ
blank = record { world = 0; lines = [] }

abbrev three : List ℕ
three = 1 ∷ 2 ∷ 3 ∷ []

-- Every line finds the volume full.
abbrev full_volume : Text → Exec (Session ℕ) (Unit {0})
full_volume t c = (err (os_error 28), c)

dump-reports_example :
    ((q : List ℕ)
      → dump line (λ i. on_world (flaky i)) (codes "reg") 2 4 q blank ≡ (
        ending (last_failure none (outcomes answer q 0)),
        record {
          world = left_after answer q 0;
          lines = map (report (codes "reg") 2 4) (outcomes answer q 0);
        },
      ))
    × (dump full_volume (λ i. on_world (flaky i)) (codes "reg") 2 4 three blank
        ≡ (err (os_error 28), record { world = 1; lines = [] }))
dump-reports_example =
    dump-reports flaky answer (codes "reg") 2 4 flaky-AnswersAs full_volume 28 (λ t c. refl) 1
      (2 ∷ 3 ∷ []) blank

-- The middle read failed, and the two others were printed all the same.
dump_ends : ending (last_failure none (outcomes answer three 0)) ≡ err (os_error 5)
dump_ends = refl

cmd_scan-reports_example : cmd_scan (in_session bench) [] blank ≡ (
  ok tt,
  record {
    world = left_after answer (range 0 32) 0;
    lines =
        map device_line (devices (outcomes answer (range 0 32) 0))
        ++ (found_line (length (devices (outcomes answer (range 0 32) 0))) 0 ∷ []);
  },
)
cmd_scan-reports_example = cmd_scan-reports bench answer 0 bench-AnswersAs [] blank refl

scan_finds : devices (outcomes answer (range 0 32) 0) ≡ (0, 0x1140) ∷ (1, 0x1141) ∷ (3, 0x1143) ∷ []
scan_finds = refl

-- A register file.
abbrev file : Device ℕ (ℕ → ℕ)
file = record { get = λ i t. (t i, t); put = λ i v t j. if i == j then v else t j }

abbrev filled : ℕ → ℕ
filled i = 0x1140

apply_modify-Returns_example :
    Returns
      (apply_modify (bus_of file).read (bus_of file).write clear_bits 0 0x1000)
      filled
      (λ w s'.
        (w.0 ≡ 0x1140)
        × ((k : ℕ) → k < 16 → bit_at k w.1 ≡ bit_after clear_bits (bit_at k w.0) (bit_at k 0x1000))
        × (s' ≡ file.put 0 w.1 filled))
apply_modify-Returns_example =
    apply_modify-Returns {IsAddress = λ i. i < 32} (bus_of-Refines file) clear_bits 0 0x1000 filled
      filled (omega arith) (omega arith) (omega arith) refl
