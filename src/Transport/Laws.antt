-- ===== src/Transport/Laws.antt =====
-- The transport over a host whose calls do what a device says.
use mathlib.Core.List.{append_assoc}
use mdioprobe.Bus.{Device, Refines}
use mdioprobe.Exec.Returns.{Returns}
use mdioprobe.Exec.{
  Result, ok, err, os_error, command_error, value_error, interrupt, system_exit, defect,
}
use mdioprobe.Prelude.{
  ℕ, ◌<◌, ◌^◌, ◌≡◌, refl, ◌++◌, ◌∷◌, [], List, Bool-cases, inl, inr, ◌∙◌, if◌then◌else◌,
}
use mdioprobe.Transport.{
  Host, World, TraceLine, reading, no_answer, answered, writing, read, write, sleep_ms, wire,
}

-- A PHY address and a register, of five bits each.
abbrev pub IsPair : ℕ × ℕ → Type 0
IsPair a = (a.0 < 32) × (a.1 < 32)

-- What a read prints behind its attempt.
abbrev pub outcome_lines : Result ℕ → List TraceLine
outcome_lines (ok v) = answered v ∷ []
outcome_lines (err (os_error n)) = no_answer ∷ []
outcome_lines (err (command_error m)) = []
outcome_lines (err (value_error t)) = []
outcome_lines (err interrupt) = []
outcome_lines (err system_exit) = []
outcome_lines (err (defect t)) = []

-- The world after a call that ended with `p`, with the lines that are printed if the trace is on.
abbrev pub traced : {A D : Type 0} → World D → List TraceLine → Result A × D → Result A × World D
traced w lines (r, d) =
    (r, record w { device = d; printed = if w.trace then w.printed ++ lines else w.printed })

module _ {D : Type 0} (host : Host D) where
  read_from :
      (phy reg : ℕ) (w : World D) (p : Result ℕ × D)
      → host.c22_read phy reg w.device ≡ p
      → read host phy reg w ≡ traced w (reading phy reg ∷ outcome_lines p.0) p
  unfolding read
  read_from phy reg w (ok v, d) e = elim (Bool-cases w.trace) [
    | inl t ↦ rw (t, e, append_assoc)
    | inr t ↦ rw (t, e)
  ]
  read_from phy reg w (err (os_error n), d) e = elim (Bool-cases w.trace) [
    | inl t ↦ rw (t, e, append_assoc)
    | inr t ↦ rw (t, e)
  ]
  read_from phy reg w (err (command_error n), d) e = elim (Bool-cases w.trace) [
    | inl t ↦ rw (t, e)
    | inr t ↦ rw (t, e)
  ]
  read_from phy reg w (err (value_error v), d) e = elim (Bool-cases w.trace) [
    | inl t ↦ rw (t, e)
    | inr t ↦ rw (t, e)
  ]
  read_from phy reg w (err interrupt, d) e = elim (Bool-cases w.trace) [
    | inl t ↦ rw (t, e)
    | inr t ↦ rw (t, e)
  ]
  read_from phy reg w (err system_exit, d) e = elim (Bool-cases w.trace) [
    | inl t ↦ rw (t, e)
    | inr t ↦ rw (t, e)
  ]
  read_from phy reg w (err (defect v), d) e = elim (Bool-cases w.trace) [
    | inl t ↦ rw (t, e)
    | inr t ↦ rw (t, e)
  ]

  -- `read` calls the builtin once and ends as it does, with its value or its exception. If the
  -- trace is on, it has printed the attempt, and behind it the value or, for an `OSError`, that
  -- there was no answer; if it is off, nothing.
  pub read_lem :
      (phy reg : ℕ) (w : World D)
      → let p = host.c22_read phy reg w.device in
        read host phy reg w ≡ traced w (reading phy reg ∷ outcome_lines p.0) p
  read_lem phy reg w = read_from phy reg w (host.c22_read phy reg w.device) refl

  write_from :
      (phy reg v : ℕ) (w : World D) (p : Result (Unit {0}) × D)
      → host.c22_write phy reg v w.device ≡ p
      → write host phy reg v w ≡ traced w (writing phy reg v ∷ []) p
  unfolding write
  write_from phy reg v w (r, d) e = elim (Bool-cases w.trace) [
    | inl t ↦ rw (t, e)
    | inr t ↦ rw (t, e)
  ]

  pub write_lem :
      (phy reg v : ℕ) (w : World D)
      → write host phy reg v w
        ≡ traced w (writing phy reg v ∷ []) (host.c22_write phy reg v w.device)
  write_lem phy reg v w = write_from phy reg v w (host.c22_write phy reg v w.device) refl

-- What the builtin functions are relied on for: an access that the firmware accepts reaches the
-- device, and sleeping lets it rest.
pub record Answers {D T : Type 0} (host : Host D) (dev : Device (ℕ × ℕ) T) (rest : T → T)
    (Shows : D → T → Type 0) : Type 0 where
  pub reads :
      (phy reg : ℕ) (d : D) (t : T)
      → phy < 32
      → reg < 32
      → Shows d t
      → Returns
          (host.c22_read phy reg)
          d
          (λ v d'. (v ≡ (dev.get (phy, reg) t).0) × Shows d' (dev.get (phy, reg) t).1)
  pub writes :
      (phy reg v : ℕ) (d : D) (t : T)
      → phy < 32
      → reg < 32
      → v < 2 ^ 16
      → Shows d t
      → Returns (host.c22_write phy reg v) d (λ _ d'. Shows d' (dev.put (phy, reg) v t))
  pub sleeps : (d : D) (t : T) → Shows d t → Shows (host.sleep_ms 1 d) (rest t)

-- A world shows what its device does, whatever has been traced.
abbrev pub OfDevice : {D T : Type 0} → (D → T → Type 0) → World D → T → Type 0
OfDevice Shows w t = Shows w.device t

module _ {D T : Type 0} {host : Host D} {dev : Device (ℕ × ℕ) T} {rest : T → T}
    {Shows : D → T → Type 0} (law : Answers host dev rest Shows) where
  pub wire-Refines : Refines (wire host) dev IsPair (OfDevice Shows)
  wire-Refines = record {
    reads = λ i w t (hp, hr) sh.
        let r = law.reads i.0 i.1 w.device t hp hr sh in
        record {
          value = r.value;
          state = (traced w (reading i.0 i.1 ∷ outcome_lines (ok r.value)) (ok r.value, r.state)).1;
          runs = read_lem host i.0 i.1 w ∙ rw r.runs;
          holds = r.holds;
        };
    writes = λ i v w t (hp, hr) hv sh.
        let r = law.writes i.0 i.1 v w.device t hp hr hv sh in
        record {
          value = tt;
          state = (traced w (writing i.0 i.1 v ∷ []) (ok tt, r.state)).1;
          runs = write_lem host i.0 i.1 v w ∙ rw r.runs;
          holds = r.holds;
        };
  }

  pub sleeps_world :
      (w : World D) (t : T)
      → OfDevice Shows w t
      → Returns (sleep_ms host 1) w (λ _ w'. OfDevice Shows w' (rest t))
  sleeps_world w t sh = record {
    value = tt;
    state = record w { device = host.sleep_ms 1 w.device };
    runs = refl;
    holds = law.sleeps w.device t sh;
  }
