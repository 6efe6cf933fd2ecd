-- ===== src/Monitor/Sweep.antt =====
-- One sweep of `monitor` against the values that its reads give.
use mathlib.Core.List.{append-nil, append_assoc, map-append}
use mdioprobe.CmdMdio.Dump.{Outcome, answered, failed, as_result, outcomes, left_after, AnswersAs}
use mdioprobe.Exec.{Exec, Result, ok}
use mdioprobe.Monitor.{Watch, remember, change_line, compare_with, sweep_one, sweep}
use mdioprobe.Output.{Session, on_world}
use mdioprobe.Prelude.Text.{Text}
use mdioprobe.Prelude.{
  ℕ, ◌+◌, Bool, true, false, List, [], ◌∷◌, ◌++◌, Option, none, some, ◌≡◌, refl, ap, ◌∙◌, arith,
  length, length-append, map, ◌==◌, Bool-cases, inl, inr,
}

-- A register, the value seen before and the one read now.
pub record Change : Type 0 where
  pub register : ℕ
  pub before : ℕ
  pub now : ℕ

abbrev pub unless_same : Bool → Change → List Change
unless_same true c = []
unless_same false c = c ∷ []

abbrev pub change_of : Option ℕ → ℕ → ℕ → List Change
change_of none r v = []
change_of (some b) r v = unless_same (b == v) (record { register = r; before = b; now = v })

-- What the dict holds after an answer: the value read last.
abbrev pub seen_after : (ℕ → Option ℕ) → ℕ × Outcome → ℕ → Option ℕ
seen_after previous (r, failed n) = previous
seen_after previous (r, answered v) = remember previous r v

abbrev pub reports : (ℕ → Option ℕ) → List (ℕ × Outcome) → List Change
reports previous [] = []
reports previous ((r, failed n) ∷ rest) = reports previous rest
reports previous ((r, answered v) ∷ rest) =
    change_of (previous r) r v ++ reports (remember previous r v) rest

abbrev pub seen_last : (ℕ → Option ℕ) → List (ℕ × Outcome) → ℕ → Option ℕ
seen_last previous [] = previous
seen_last previous (x ∷ rest) = seen_last (seen_after previous x) rest

abbrev news : (ℕ → Option ℕ) → ℕ → Outcome → List Change
news previous r (failed n) = []
news previous r (answered v) = change_of (previous r) r v

reports-cons :
    (previous : ℕ → Option ℕ) (r : ℕ) (o : Outcome) (rest : List (ℕ × Outcome))
    → reports previous ((r, o) ∷ rest)
      ≡ news previous r o ++ reports (seen_after previous (r, o)) rest
reports-cons previous r (answered v) rest = refl
reports-cons previous r (failed n) rest = refl

==→≡ : (a b : ℕ) → (a == b) ≡ true → a ≡ b
==→≡ a b h = ground arith

add_zero : (n : ℕ) → n + 0 ≡ n
add_zero n = omega arith

add_assoc : (a b c : ℕ) → a + b + c ≡ a + (b + c)
add_assoc a b c = omega arith

-- Remembering what is remembered changes nothing.
remember-same : (p : ℕ → Option ℕ) (r v : ℕ) → p r ≡ some v → remember p r v ≡ p
remember-same p r v h = λ i q. at q (q == r) refl i
  where
    at : (q : ℕ) (b : Bool) → (q == r) ≡ b → remember p r v q ≡ p q
    at q true e = rw (e, ==→≡ q r e, h) refl
    at q false e = rw e refl

module _ {S : Type 0} (read : ℕ → Exec S ℕ) (answer : ℕ → S → Outcome × S) (label : Text)
    (width vwidth : ℕ) (h : AnswersAs read answer) where
  abbrev pub report_line : Change → Text
  report_line c = change_line label width vwidth c.register c.before c.now

  abbrev after_one : Outcome → ℕ → Watch → S → Session S → Result Watch × Session S
  after_one o r w s c = (
    ok (record {
      previous = seen_after w.previous (r, o);
      changes = w.changes + length (news w.previous r o);
    }),
    record { world = s; lines = c.lines ++ map report_line (news w.previous r o) },
  )

  compared :
      (o : Option ℕ) (r v : ℕ) (w : Watch) (c : Session S)
      → w.previous r ≡ o
      → compare_with {S = S} label width vwidth o r v w c ≡ after_one (answered v) r w c.world c
  compared none r v w c e = rw (e, append-nil c.lines, add_zero w.changes) refl
  compared (some b) r v w c e = elim (Bool-cases (b == v)) [
    | inl f ↦
        let k : w.previous r ≡ some v = e ∙ ap some (==→≡ b v f) in
        rw (e, f, remember-same w.previous r v k, append-nil c.lines, add_zero w.changes) refl
    | inr f ↦ rw (e, f) refl
  ]

  step_for :
      (o : Outcome) (r : ℕ) (w : Watch) (c : Session S) (s : S)
      → read r c.world ≡ (as_result o, s)
      → sweep_one (λ i. on_world (read i)) label width vwidth r w c ≡ after_one o r w s c
  unfolding sweep_one
  step_for (answered v) r w c s e =
      rw e (compared (w.previous r) r v w (record c { world = s }) refl)
  step_for (failed n) r w c s e = rw (e, append-nil c.lines, add_zero w.changes) refl

  -- Over reads that fail with nothing but `OSError`s, a sweep reads every register once, in order. It
  -- skips those that failed, prints a line for each value that differs from the one seen before, adds
  -- the number of these lines to the changes, and leaves the values read last as those seen.
  pub sweep-reports :
      (rs : List ℕ) (w : Watch) (c : Session S)
      → let found = outcomes answer rs c.world in
        sweep (λ i. on_world (read i)) label width vwidth rs w c ≡ (
          ok (record {
            previous = seen_last w.previous found;
            changes = w.changes + length (reports w.previous found);
          }),
          record {
            world = left_after answer rs c.world;
            lines = c.lines ++ map report_line (reports w.previous found);
          },
        )
  unfolding sweep AnswersAs
  sweep-reports [] w c = rw (append-nil c.lines, add_zero w.changes) refl
  sweep-reports (r ∷ rs) w c =
      let o : Outcome = (answer r c.world).0 in
      let s : S = (answer r c.world).1 in
      let next : Watch = record {
        previous = seen_after w.previous (r, o);
        changes = w.changes + length (news w.previous r o);
      } in
      let more : List Change = reports next.previous (outcomes answer rs s) in
      rw
        (
          step_for o r w c s (h r c.world),
          sweep-reports rs next
              (record { world = s; lines = c.lines ++ map report_line (news w.previous r o) }),
          reports-cons w.previous r o (outcomes answer rs s),
          append_assoc c.lines (map report_line (news w.previous r o)) (map report_line more),
          map-append report_line (news w.previous r o) more,
          length-append (news w.previous r o) more,
          add_assoc w.changes (length (news w.previous r o)) (length more),
        )
        refl
