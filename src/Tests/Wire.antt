-- ===== src/Tests/Wire.antt =====
-- The traced transport over a target that answers at one address only.
use mdioprobe.Exec.{ok, err, os_error}
use mdioprobe.Prelude.{ℕ, ◌+◌, true, [], ◌∷◌, ◌≡◌, ◌==◌, if◌then◌else◌}
use mdioprobe.Transport.Laws.{read_lem, traced, outcome_lines}
use mdioprobe.Transport.{Host, World, reading, read}

-- The state counts the frames; only address 6 answers.
abbrev lonely : Host ℕ
lonely = record {
  c22_read = λ phy reg n. (if phy == 6 then ok 0x0141 else err (os_error 5), n + 1);
  c22_write = λ phy reg v n. (ok tt, n + 1);
  sleep_ms = λ ms n. n;
}

abbrev watched : World ℕ
watched = record { device = 0; trace = true; printed = [] }

lonely_lem :
    read lonely 7 2 watched
    ≡ traced watched (reading 7 2 ∷ outcome_lines (err (os_error 5))) (err (os_error 5), 1)
lonely_lem = read_lem lonely 7 2 watched
