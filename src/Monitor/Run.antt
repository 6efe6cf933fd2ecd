-- ===== src/Monitor/Run.antt =====
-- `run`: the loop over time, and the command `monitor`. `clock` stands for `time`, `out_of_room` for
-- the method of `ctx.out`.
use mdioprobe.Bus.{Bus}
use mdioprobe.CmdMdio.Modes.{is_wide, mode_label}
use mdioprobe.CmdMdio.{open_bus, regs, width_of}
use mdioprobe.Exec.{
  Exec, Result, ok, err, interrupt, defect, pure, raise, lift, ◌>>=◌, ◌>>◌, except_os_error,
}
use mdioprobe.Format.{decimal}
use mdioprobe.Monitor.{Watch, remember, sweep_one, take_timeout}
use mdioprobe.Output.{Session, line}
use mdioprobe.Prelude.Int.{ℤ, pos, pos_part, ltb_ℤ}
use mdioprobe.Prelude.Text.{Text, codes, concat}
use mdioprobe.Prelude.{
  ℕ, zero, suc, ◌*◌, ◌/◌, ◌%◌, Bool, List, [], ◌∷◌, Option, none, some, length, if◌then◌else◌,
}

-- `time.ticks_ms`, `time.ticks_diff` and `time.sleep_ms`.
pub record Clock (S : Type 0) : Type 0 where
  pub ticks_ms : Exec S ℕ
  pub ticks_diff : ℕ → ℕ → ℤ
  pub sleep_ms : ℕ → Exec S (Unit {0})

abbrev pub poll_ms : ℕ
poll_ms = 100

abbrev pub default_seconds : ℕ
default_seconds = 60

abbrev pub seconds_or : Option ℕ → ℕ
seconds_or none = default_seconds
seconds_or (some seconds) = seconds

-- Why the loop ended: the time is over, the volume is nearly full, or a `KeyboardInterrupt`.
pub data Stop : Type 0 where
  timed_out nearly_full interrupted : Stop

abbrev pub stop_note : Stop → Text
stop_note nearly_full = codes " (stopped: the volume is nearly full)"
stop_note _ = []

module _ {S : Type 0} where
  -- What was seen stays as it is when an access raises.
  abbrev pub kept : Watch → Result Watch × Session S → Result (Unit {0}) × (Session S × Watch)
  kept w (ok next, c) = (ok tt, (c, next))
  kept w (err e, c) = (err e, (c, w))

  abbrev pub beside : {A : Type 0} → Watch → Result A × Session S → Result A × (Session S × Watch)
  beside w (r, c) = (r, (c, w))

  -- An action that has no part in what was seen.
  abbrev pub in_loop : {A : Type 0} → Exec (Session S) A → Exec (Session S × Watch) A
  in_loop m s = beside (s.1) (m (s.0))

  -- `except KeyboardInterrupt`
  abbrev pub stopped_by : Result Stop × (Session S × Watch) → Result Stop × (Session S × Watch)
  stopped_by (err interrupt, s) = in_loop (do line []; pure interrupted) s
  stopped_by (r, s) = (r, s)

module _ {S : Type 0} (clock : Clock (Session S)) (out_of_room : Exec (Session S) Bool)
    (read : ℕ → Exec (Session S) ℕ) (label : Text) (width vwidth : ℕ) where
  -- The sweep before the loop.
  unfoldable pub baseline : List ℕ → (ℕ → Option ℕ) → Exec (Session S) (ℕ → Option ℕ)
  baseline [] previous = pure previous
  baseline (r ∷ rs) previous = do
    answer ← except_os_error (do value ← read r; pure (some value)) (λ _. pure none)
    baseline rs (elim answer [ none ↦ previous | some value ↦ remember previous r value ])

  -- The `for` loop inside the loop.
  unfoldable pub look : List ℕ → Exec (Session S × Watch) (Unit {0})
  look [] s = pure tt s
  look (r ∷ rs) s = (kept_one r >> look rs) s
    where
      kept_one : ℕ → Exec (Session S × Watch) (Unit {0})
      kept_one r s = kept (s.1) (sweep_one read label width vwidth r (s.1) (s.0))

  -- The `while` loop, for at most so many rounds.
  unfoldable pub poll_rounds : ℕ → ℕ → ℕ → List ℕ → Exec (Session S × Watch) Stop
  poll_rounds zero started seconds registers = raise (defect (codes "rounds"))
  poll_rounds (suc rounds) started seconds registers = do
    now ← in_loop clock.ticks_ms
    if ltb_ℤ (clock.ticks_diff now started) (pos (seconds * 1000))
        then (do
          full ← in_loop out_of_room
          if full then pure nearly_full else (do
            look registers
            in_loop (clock.sleep_ms poll_ms)
            poll_rounds rounds started seconds registers))
        else pure timed_out

  abbrev pub summary : Stop → ℕ → ℕ → Text
  summary stop changes elapsed = concat (
      decimal changes
      ∷ codes " change(s) in "
      ∷ decimal (elapsed / 1000)
      ∷ codes "."
      ∷ decimal (elapsed % 1000 / 100)
      ∷ codes " s"
      ∷ stop_note stop
      ∷ [])

  -- What follows the loop. The time since `started` is not negative.
  abbrev pub summed_up : ℕ → Result Stop × (Session S × Watch) → Result (Unit {0}) × Session S
  summed_up started (ok stop, (c, w)) =
      (do
        now ← clock.ticks_ms
        line (summary stop w.changes (pos_part (clock.ticks_diff now started))))
        c
  summed_up started (err e, (c, w)) = (err e, c)

  unfoldable pub watch_from : ℕ → ℕ → ℕ → List ℕ → (ℕ → Option ℕ) → Exec (Session S) (Unit {0})
  unfolding poll_rounds
  watch_from rounds started seconds registers previous c = summed_up started (
      stopped_by (
        poll_rounds rounds started seconds registers
          (c, record { previous = previous; changes = 0 })))

  unfoldable pub run : ℕ → List ℕ → Option ℕ → Exec (Session S) (Unit {0})
  unfolding baseline watch_from
  run rounds registers given = do
    let seconds : ℕ = seconds_or given
    previous ← baseline registers (λ r. none)
    started ← clock.ticks_ms
    line (
        concat (
          codes "watching "
          ∷ decimal (length registers)
          ∷ codes " register(s) for "
          ∷ decimal seconds
          ∷ codes " s"
          ∷ []))
    watch_from rounds started seconds registers previous

module _ {S : Type 0} (clock : Clock (Session S)) (out_of_room : Exec (Session S) Bool)
    (t : Bus (ℕ × ℕ) (Session S)) where
  unfoldable pub cmd_monitor : ℕ → List Text → Exec (Session S) (Unit {0})
  unfolding run
  cmd_monitor rounds args = do
    timeout ← lift (take_timeout args)
    o ← lift (open_bus t (timeout.1))
    registers ← lift (regs o.mode o.rest (is_wide o.mode))
    run clock out_of_room o.bus.read (mode_label o.mode) (width_of o.mode) 4 rounds registers
        (timeout.0)
