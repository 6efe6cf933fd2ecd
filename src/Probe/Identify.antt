-- ===== src/Probe/Identify.antt =====
-- Reading an identifier: `read_identity`, which takes silence for an answer, and `identify`, which
-- waits for a rail that was lost.
pub mod Retry
use mdioprobe.Bus.{Bus}
use mdioprobe.Exec.{Exec, Result, ok, os_error, pure, raise, lift, ◌>>=◌, ◌>>◌, except_os_error}
use mdioprobe.Prelude.Text.{Text}
use mdioprobe.Prelude.{
  ℕ, zero, suc, ◌-◌, Bool, true, false, ◌&&◌, ◌||◌, Option, none, some, ◌==◌, if◌then◌else◌,
}
use mdioprobe.Probe.{identifier, lookup_phy}

-- `from cli import chipdb`: a module of constants.
pub record ChipDb : Type 0 where
  pub kernel : Text
  pub phy : Text
  pub switch : Text

abbrev pub rail_lost : ℕ
rail_lost = 19

module _ {S : Type 0} (bus : Bus ℕ S) where
  abbrev pub read_pair : Exec S (ℕ × ℕ)
  read_pair = do reg2 ← bus.read 0x02; reg3 ← bus.read 0x03; pure (reg2, reg3)

  abbrev pub unless_idle : Option (ℕ × ℕ) → Option (ℕ × ℕ)
  unless_idle none = none
  unless_idle (some (reg2, reg3)) =
      if reg2 == 0xffff && reg3 == 0xffff then none else some (reg2, reg3)

  unfoldable pub read_identity : Exec S (Option (ℕ × ℕ))
  read_identity = do
    answer ← except_os_error (do pair ← read_pair; pure (some pair)) (λ _. pure none)
    pure (unless_idle answer)

-- `(reg2, reg3) in ((0xFFFF, 0xFFFF), (0x0000, 0x0000))`
abbrev pub is_nothing : ℕ → ℕ → Bool
is_nothing reg2 reg3 = (reg2 == 0xffff && reg3 == 0xffff) || (reg2 == 0x0000 && reg3 == 0x0000)

module _ {S : Type 0} (sleep_ms : ℕ → Exec S (Unit {0})) (bus : Bus ℕ S) where
  -- The loop of `identify`, by the retries left.
  unfoldable pub read_retrying : ℕ → Exec S (ℕ × ℕ)
  read_retrying zero = read_pair bus
  read_retrying (suc left) = except_os_error (read_pair bus) (λ errno. elim (errno == rail_lost) [
    | true ↦ sleep_ms 250 >> read_retrying left
    | false ↦ raise (os_error errno)
  ])

module _ {S : Type 0} (db : ChipDb) where
  abbrev pub named : ℕ × ℕ → Exec S (Option (ℕ × Option Text))
  named (reg2, reg3) = if is_nothing reg2 reg3 then pure none else (do
    name ← lift (lookup_phy db.phy (identifier reg2 reg3))
    pure (some (identifier reg2 reg3, name)))

module _ {S : Type 0} (sleep_ms : ℕ → Exec S (Unit {0})) (db : ChipDb) (bus : Bus ℕ S) where
  unfoldable pub identify : ℕ → Exec S (Option (ℕ × Option Text))
  unfolding read_retrying
  identify tries = do pair ← read_retrying sleep_ms bus (tries - 1); named db pair
