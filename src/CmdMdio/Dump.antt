-- ===== src/CmdMdio/Dump.antt =====
-- `dump` against a description that reads every register first and prints afterwards.
use mathlib.Core.List.{append-nil, append_assoc}
use mdioprobe.CmdMdio.{register_line, error_line, dump_one, dump_from, dump}
use mdioprobe.Exec.{Exec, Result, ok, err, os_error}
use mdioprobe.Output.{Session, on_world, line}
use mdioprobe.Prelude.Text.{Text}
use mdioprobe.Prelude.{ℕ, List, [], ◌∷◌, ◌++◌, Option, none, some, ◌≡◌, refl, map}

-- An answer, or the errno of the `OSError` that came in its place.
pub data Outcome : Type 0 where
  answered : ℕ → Outcome
  failed : ℕ → Outcome

abbrev pub as_result : Outcome → Result ℕ
as_result (answered v) = ok v
as_result (failed n) = err (os_error n)

-- Every register in turn, whatever the others gave.
module _ {S : Type 0} (answer : ℕ → S → Outcome × S) where
  abbrev pub outcomes : List ℕ → S → List (ℕ × Outcome)
  outcomes [] s = []
  outcomes (r ∷ rs) s = (r, (answer r s).0) ∷ outcomes rs (answer r s).1

  abbrev pub left_after : List ℕ → S → S
  left_after [] s = s
  left_after (r ∷ rs) s = left_after rs (answer r s).1

abbrev pub later : Outcome → Option ℕ → Option ℕ
later (answered v) failure = failure
later (failed n) failure = some n

abbrev pub last_failure : Option ℕ → List (ℕ × Outcome) → Option ℕ
last_failure failure [] = failure
last_failure failure ((r, o) ∷ rest) = last_failure (later o failure) rest

abbrev pub ending : Option ℕ → Result (Unit {0})
ending none = ok tt
ending (some n) = err (os_error n)

module _ (label : Text) (width vwidth : ℕ) where
  abbrev pub report : ℕ × Outcome → Text
  report (r, answered v) = register_line label width vwidth r v
  report (r, failed n) = error_line label width r n

-- `read` gives what `answer` says, and fails with nothing but an `OSError`.
unfoldable pub AnswersAs : {S : Type 0} → (ℕ → Exec S ℕ) → (ℕ → S → Outcome × S) → Type 0
AnswersAs {S} read answer = (r : ℕ) (s : S) → read r s ≡ (as_result (answer r s).0, (answer r s).1)

module _ {S : Type 0} (read : ℕ → Exec S ℕ) (answer : ℕ → S → Outcome × S) (label : Text)
    (width vwidth : ℕ) (h : AnswersAs read answer) where
  step_for :
      (o : Outcome) (r : ℕ) (failure : Option ℕ) (c : Session S) (s : S)
      → read r c.world ≡ (as_result o, s)
      → dump_one line (λ i. on_world (read i)) label width vwidth r failure c ≡ (
        ok (later o failure),
        record { world = s; lines = c.lines ++ (report label width vwidth (r, o) ∷ []) },
      )
  unfolding dump_one
  step_for (answered v) r failure c s e = rw e refl
  step_for (failed n) r failure c s e = rw e refl

  from_lem :
      (rs : List ℕ) (failure : Option ℕ) (c : Session S)
      → dump_from line (λ i. on_world (read i)) label width vwidth failure rs c ≡ (
        ending (last_failure failure (outcomes answer rs c.world)),
        record {
          world = left_after answer rs c.world;
          lines = c.lines ++ map (report label width vwidth) (outcomes answer rs c.world);
        },
      )
  unfolding dump_from AnswersAs
  from_lem [] none c = rw (append-nil c.lines) refl
  from_lem [] (some n) c = rw (append-nil c.lines) refl
  from_lem (r ∷ rs) failure c =
      rw
        (
          step_for (answer r c.world).0 r failure c (answer r c.world).1 (h r c.world),
          from_lem rs (later (answer r c.world).0 failure) (record {
            world = (answer r c.world).1;
            lines = c.lines ++ (report label width vwidth (r, (answer r c.world).0) ∷ []);
          }),
          append_assoc c.lines (report label width vwidth (r, (answer r c.world).0) ∷ [])
              (map (report label width vwidth) (outcomes answer rs (answer r c.world).1)),
        )
        refl

  -- The first line that cannot be written ends the loop.
  full_for :
      (say : Text → Exec (Session S) (Unit {0})) (m : ℕ)
      → ((t : Text) (c : Session S) → say t c ≡ (err (os_error m), c))
      → (o : Outcome) (r : ℕ) (failure : Option ℕ) (c : Session S) (s : S)
      → read r c.world ≡ (as_result o, s)
      → dump_one say (λ i. on_world (read i)) label width vwidth r failure c
        ≡ (err (os_error m), record { world = s; lines = c.lines })
  unfolding dump_one
  full_for say m full (answered v) r failure c s e =
      let d : Session S = record { world = s; lines = c.lines } in
      rw (e, full (register_line label width vwidth r v) d, full (error_line label width r m) d)
        refl
  full_for say m full (failed n) r failure c s e =
      rw (e, full (error_line label width r n) (record { world = s; lines = c.lines })) refl

  -- Let the reads fail with nothing but `OSError`s. At the console `dump` reads every register of the
  -- list in order and adds one line for each, of the value or of the errno; then it raises the last
  -- `OSError` that it met, and returns if it met none. Where every line raises the same `OSError`, as
  -- on a full volume, `dump` of some registers reads the first and raises that error.
  pub dump-reports :
      (say : Text → Exec (Session S) (Unit {0})) (m : ℕ)
      → ((t : Text) (c : Session S) → say t c ≡ (err (os_error m), c))
      → (r : ℕ) (rs : List ℕ) (c : Session S)
      → ((q : List ℕ)
          → dump line (λ i. on_world (read i)) label width vwidth q c ≡ (
            ending (last_failure none (outcomes answer q c.world)),
            record {
              world = left_after answer q c.world;
              lines = c.lines ++ map (report label width vwidth) (outcomes answer q c.world);
            },
          ))
        × (dump say (λ i. on_world (read i)) label width vwidth (r ∷ rs) c
            ≡ (err (os_error m), record { world = (answer r c.world).1; lines = c.lines }))
  unfolding dump dump_from AnswersAs
  dump-reports say m full r rs c = (
    λ q. from_lem q none c,
    rw (full_for say m full (answer r c.world).0 r none c (answer r c.world).1 (h r c.world)) refl,
  )
