-- ===== src/CmdMdio/Scan.antt =====
-- `scan` against a description that asks every address first and picks the devices afterwards.
use mathlib.Core.List.{append-nil, append_assoc, map-append}
use mdioprobe.Bus.{Bus}
use mdioprobe.CmdMdio.Dump.{Outcome, answered, failed, as_result, outcomes, left_after, AnswersAs}
use mdioprobe.CmdMdio.{scan_line, scan_one, scan_from, found_line, scan_register, cmd_scan}
use mdioprobe.Exec.{ok}
use mdioprobe.Output.{Session, in_session}
use mdioprobe.Parser.{range}
use mdioprobe.Prelude.Text.{Text}
use mdioprobe.Prelude.{
  ℕ, ◌+◌, List, [], ◌∷◌, ◌++◌, ◌≡◌, refl, arith, length, length-append, map, Bool, true, false,
  ◌==◌,
}

abbrev pub unless : Bool → ℕ × ℕ → List (ℕ × ℕ)
unless true x = []
unless false x = x ∷ []

-- A device is an address whose answer is not all ones.
abbrev pub device_at : ℕ → Outcome → List (ℕ × ℕ)
device_at a (failed n) = []
device_at a (answered v) = unless (v == 0xffff) (a, v)

abbrev pub devices : List (ℕ × Outcome) → List (ℕ × ℕ)
devices [] = []
devices (x ∷ rest) = device_at x.0 x.1 ++ devices rest

abbrev pub device_line : ℕ × ℕ → Text
device_line (a, v) = scan_line a v

add_zero : (n : ℕ) → n + 0 ≡ n
add_zero n = omega arith

zero_add : (n : ℕ) → 0 + n ≡ n
zero_add n = omega arith

add_assoc : (a b c : ℕ) → a + b + c ≡ a + (b + c)
add_assoc a b c = omega arith

module _ {S : Type 0} (t : Bus (ℕ × ℕ) S) (answer : ℕ → S → Outcome × S) (register : ℕ)
    (h : AnswersAs (λ a. t.read (a, register)) answer) where
  add :
      (v a : ℕ) (c : Session S) (s : S) (b : Bool)
      → (v == 0xffff) ≡ b
      → t.read (a, register) c.world ≡ (ok v, s)
      → scan_one (in_session t) register a c ≡ (
        ok (length (unless b (a, v))),
        record { world = s; lines = c.lines ++ map device_line (unless b (a, v)) },
      )
  unfolding scan_one
  add v a c s true e f = rw (f, e, append-nil c.lines) refl
  add v a c s false e f = rw (f, e) refl

  step_for :
      (o : Outcome) (a : ℕ) (c : Session S) (s : S)
      → t.read (a, register) c.world ≡ (as_result o, s)
      → scan_one (in_session t) register a c ≡ (
        ok (length (device_at a o)),
        record { world = s; lines = c.lines ++ map device_line (device_at a o) },
      )
  unfolding scan_one
  step_for (answered v) a c s e = add v a c s (v == 0xffff) refl e
  step_for (failed n) a c s e = rw (e, append-nil c.lines) refl

  after_one : Outcome → ℕ → S → Session S → Session S
  after_one o a s c = record { world = s; lines = c.lines ++ map device_line (device_at a o) }

  from_lem :
      (addresses : List ℕ) (found : ℕ) (c : Session S)
      → scan_from (in_session t) register found addresses c ≡ (
        ok (found + length (devices (outcomes answer addresses c.world))),
        record {
          world = left_after answer addresses c.world;
          lines = c.lines ++ map device_line (devices (outcomes answer addresses c.world));
        },
      )
  unfolding scan_from AnswersAs after_one
  from_lem [] found c = rw (append-nil c.lines, add_zero found) refl
  from_lem (a ∷ rest) found c =
      let o : Outcome = (answer a c.world).0 in
      let ds : List (ℕ × ℕ) = devices (outcomes answer rest (answer a c.world).1) in
      rw
        (
          step_for o a c (answer a c.world).1 (h a c.world),
          from_lem rest (found + length (device_at a o)) (after_one o a (answer a c.world).1 c),
          append_assoc c.lines (map device_line (device_at a o)) (map device_line ds),
          map-append device_line (device_at a o) ds,
          length-append (device_at a o) ds,
          add_assoc found (length (device_at a o)) (length ds),
        )
        refl

  abbrev found : S → List (ℕ × ℕ)
  found s = devices (outcomes answer (range 0 32) s)

  -- Over reads that fail with nothing but `OSError`s, `scan` with a register number that parses
  -- returns: it asks each of the addresses 0 to 31 once, in order; it prints one line for each that
  -- answered with something else than 0xffff, and last the number of these lines.
  pub cmd_scan-reports :
      (args : List Text) (c : Session S)
      → scan_register args ≡ ok register
      → cmd_scan (in_session t) args c ≡ (
        ok tt,
        record {
          world = left_after answer (range 0 32) c.world;
          lines =
              c.lines
              ++ (map device_line (found c.world)
                  ++ (found_line (length (found c.world)) register ∷ []));
        },
      )
  unfolding cmd_scan
  cmd_scan-reports args c e =
      rw
        (
          e,
          from_lem (range 0 32) 0 c,
          zero_add (length (found c.world)),
          ← append_assoc c.lines (map device_line (found c.world))
              (found_line (length (found c.world)) register ∷ []),
        )
        refl
