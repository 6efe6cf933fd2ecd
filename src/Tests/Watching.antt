-- ===== src/Tests/Watching.antt =====
-- The monitor on registers that change, and its trailing duration.
use mdioprobe.CmdMdio.Dump.{Outcome, answered, failed, as_result, outcomes, left_after, AnswersAs}
use mdioprobe.Exec.{Exec, ok}
use mdioprobe.Format.{hex_padded, digits}
use mdioprobe.Monitor.Sweep.{reports, seen_last, sweep-reports}
use mdioprobe.Monitor.{Watch, sweep}
use mdioprobe.Output.{on_world}
use mdioprobe.Prelude.Text.{codes}
use mdioprobe.Prelude.{ℕ, ◌+◌, List, [], ◌∷◌, Option, none, some, ◌≡◌, refl, ◌==◌, if◌then◌else◌}

-- Register 2 does not answer, the others show 7.
abbrev answer : ℕ → ℕ → Outcome × ℕ
answer r n = (if r == 2 then failed 5 else answered 7, n + 1)

abbrev target : ℕ → Exec ℕ ℕ
target r n = (as_result (answer r n).0, (answer r n).1)

target-AnswersAs : AnswersAs target answer
unfolding AnswersAs
target-AnswersAs r n = refl

-- Before, register 0 showed 6 and register 3 showed 7; the others have not been seen.
abbrev seen : ℕ → Option ℕ
seen r = if r == 0 then some 6 else if r == 3 then some 7 else none

abbrev watch : Watch
watch = record { previous = seen; changes = 4 }

abbrev four : List ℕ
four = 0 ∷ 1 ∷ 2 ∷ 3 ∷ []

sweep_runs :
    reports seen (outcomes answer four 0) ≡ record { register = 0; before = 6; now = 7 } ∷ []
sweep_runs = refl

sweep-reports_example :
    sweep (λ i. on_world (target i)) (codes "reg") 2 4 four watch (record { world = 0; lines = [] })
    ≡ (
      ok (record { previous = seen_last seen (outcomes answer four 0); changes = 5 }),
      record { world = left_after answer four 0; lines = codes "reg 0x00: 0x0006 -> 0x0007" ∷ [] },
    )
unfolding hex_padded digits
sweep-reports_example =
    sweep-reports target answer (codes "reg") 2 4 target-AnswersAs four watch
      (record { world = 0; lines = [] })
