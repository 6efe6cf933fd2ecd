-- ===== src/Monitor.antt =====
-- src/python/cli/monitor.py: the duration that ends the arguments of `monitor`, and one sweep of its
-- loop. What was seen last, the dict `previous`, is a function from registers.
pub mod Timeout
pub mod Sweep
pub mod Run
pub mod Ends
use mdioprobe.CmdMdio.{hex_word}
use mdioprobe.Exec.Pure
use mdioprobe.Exec.{Exec, Result, ok, fails, says, pure, ◌>>=◌, ◌>>◌, except_os_error}
use mdioprobe.Output.{Session, line}
use mdioprobe.Parser.{integer}
use mdioprobe.Prelude.Int.{ℤ, pos, negsuc}
use mdioprobe.Prelude.Text.{Text, text_eq, codes}
use mdioprobe.Prelude.{
  ℕ, zero, suc, ◌+◌, Bool, true, false, List, [], ◌∷◌, ◌++◌, Option, none, some, ◌==◌,
  if◌then◌else◌,
}

-- `(args[:-2], args[-2], args[-1])`, if there are as many.
abbrev pub last_two : List Text → Option (List Text × Text × Text)
last_two [] = none
last_two (a ∷ []) = none
last_two (a ∷ b ∷ []) = some ([], a, b)
last_two (a ∷ b ∷ c ∷ rest) =
    let found = last_two (b ∷ c ∷ rest) in
    elim found [ none ↦ none | some (front, x, y) ↦ some (a ∷ front, x, y) ]

abbrev pub positive : ℤ → List Text → Result (Option ℕ × List Text)
positive (pos (suc n)) rest = ok (some (suc n), rest)
positive _ rest = fails (says "duration must be positive")

abbrev pub timeout_in : List Text → Option (List Text × Text × Text) → Result (Option ℕ × List Text)
timeout_in args none = ok (none, args)
timeout_in args (some (rest, word, n)) =
    if text_eq word (codes "for")
    then Pure.◌>>=◌ (integer n "duration") (λ seconds. positive seconds rest)
    else ok (none, args)

unfoldable pub take_timeout : List Text → Result (Option ℕ × List Text)
take_timeout args = timeout_in args (last_two args)

-- `previous[r] = value`
abbrev pub remember : (ℕ → Option ℕ) → ℕ → ℕ → ℕ → Option ℕ
remember previous r value q = if q == r then some value else previous q

-- `previous`, and `changes`.
pub record Watch : Type 0 where
  pub previous : ℕ → Option ℕ
  pub changes : ℕ

module _ (label : Text) (width vwidth : ℕ) where
  abbrev pub change_line : ℕ → ℕ → ℕ → Text
  change_line r before value =
      label
      ++ (b' '
          ∷ (hex_word width r
              ++ (codes ": "
                  ++ (hex_word vwidth before ++ (codes " -> " ++ hex_word vwidth value)))))

module _ {S : Type 0} (label : Text) (width vwidth : ℕ) where
  -- A value that was read, against the one seen before.
  abbrev pub compare_with : Option ℕ → ℕ → ℕ → Watch → Exec (Session S) Watch
  compare_with none r value w = pure (record w { previous = remember w.previous r value })
  compare_with (some before) r value w = if before == value then pure w else (do
    line (change_line label width vwidth r before value)
    pure (record { previous = remember w.previous r value; changes = w.changes + 1 }))

module _ {S : Type 0} (read : ℕ → Exec (Session S) ℕ) (label : Text) (width vwidth : ℕ) where
  unfoldable pub sweep_one : ℕ → Watch → Exec (Session S) Watch
  sweep_one r w = do
    answer ← except_os_error (do value ← read r; pure (some value)) (λ _. pure none)
    elim answer [
      | none ↦ pure w
      | some value ↦ compare_with label width vwidth (w.previous r) r value w
    ]

  -- One round over the registers.
  unfoldable pub sweep : List ℕ → Watch → Exec (Session S) Watch
  sweep [] w = pure w
  sweep (r ∷ rs) w = do next ← sweep_one r w; sweep rs next
