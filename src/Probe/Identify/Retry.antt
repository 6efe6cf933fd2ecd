-- ===== src/Probe/Identify/Retry.antt =====
-- How `identify` ends when the rail is lost some times.
use mdioprobe.Bus.{Bus}
use mdioprobe.Exec.{
  Exec, Result, ok, err, os_error, command_error, value_error, interrupt, system_exit, defect,
  raise, continue, ◌>>◌,
}
use mdioprobe.Prelude.{
  ℕ, zero, suc, ◌+◌, ◌-◌, ◌<◌, ◌≡◌, refl, ap, ◌∙◌, arith, ◌==◌, Bool, true, false,
}
use mdioprobe.Probe.Identify.{ChipDb, rail_lost, read_pair, read_retrying, named, identify}

zero_add : (n : ℕ) → 0 + n ≡ n
zero_add n = omega arith

suc_add : (n m : ℕ) → suc n + m ≡ suc (n + m)
suc_add n m = omega arith

other_errno : (e : ℕ) → (e ≡ rail_lost → ⊥) → (e == rail_lost) ≡ false
other_errno e h = ground arith

module _ {S : Type 0} (sleep_ms : ℕ → Exec S (Unit {0})) (db : ChipDb) (bus : Bus ℕ S) where
  -- `n` attempts that lose the rail, with the waits between.
  pub data RailLost : ℕ → S → S → Type 0 where
    steady : (s : S) → RailLost zero s s
    lost :
        {n : ℕ} (s s1 s2 : S) {u : S}
        → read_pair bus s ≡ (err (os_error rail_lost), s1)
        → sleep_ms 250 s1 ≡ (ok tt, s2)
        → RailLost n s2 u
        → RailLost (suc n) s u

  one :
      (s s1 s2 : S) (m : ℕ)
      → read_pair bus s ≡ (err (os_error rail_lost), s1)
      → sleep_ms 250 s1 ≡ (ok tt, s2)
      → read_retrying sleep_ms bus (suc m) s ≡ read_retrying sleep_ms bus m s2
  unfolding read_retrying
  one s s1 s2 m e f = rw (e, f) refl

  waits :
      {n : ℕ} {s u : S} (m : ℕ)
      → RailLost n s u
      → read_retrying sleep_ms bus (n + m) s ≡ read_retrying sleep_ms bus m u
  waits {n = zero} m (steady s) = rw (zero_add m) refl
  waits {n = suc n} m (lost s s1 s2 e f r) = rw (suc_add n m) (one s s1 s2 (n + m) e f ∙ waits m r)

  abbrev chosen : ℕ → S → ℕ → Bool → Result (ℕ × ℕ) × S
  chosen e v m b =
      (elim b as (λ _. Exec S (ℕ × ℕ)) [
        | true ↦ sleep_ms 250 >> read_retrying sleep_ms bus m
        | false ↦ raise (os_error e)
      ])
        v

  stops :
      (u v : S) (r : Result (ℕ × ℕ)) (m : ℕ)
      → read_pair bus u ≡ (r, v)
      → (r ≡ err (os_error rail_lost) → m ≡ 0)
      → read_retrying sleep_ms bus m u ≡ (r, v)
  unfolding read_retrying
  stops u v r zero p h = p
  stops u v (ok pair) (suc m) p h = rw p refl
  stops u v (err (os_error e)) (suc m) p h = rw p (
      ap (λ b. chosen e v m b)
        (other_errno e (λ q. absurd (omega (arith, h (ap (λ x. err (os_error x)) q))))))
  stops u v (err (command_error x)) (suc m) p h = rw p refl
  stops u v (err (value_error x)) (suc m) p h = rw p refl
  stops u v (err interrupt) (suc m) p h = rw p refl
  stops u v (err system_exit) (suc m) p h = rw p refl
  stops u v (err (defect x)) (suc m) p h = rw p refl

  -- After the rail was lost `n` times in a row, fewer than `tries`, and 250 ms were waited after each
  -- time, the next attempt is final if it ends otherwise than by a lost rail or if it is the last one.
  -- Of a final attempt that reads the two registers `identify` makes what it would make of a first
  -- one; what a final attempt raises, `identify` raises.
  pub identify-retries :
      {n : ℕ} {s u : S} (tries : ℕ) (v : S) (r : Result (ℕ × ℕ))
      → RailLost n s u
      → n < tries
      → read_pair bus u ≡ (r, v)
      → (r ≡ err (os_error rail_lost) → suc n ≡ tries)
      → identify sleep_ms db bus tries s ≡ continue (named db) (r, v)
  unfolding identify
  identify-retries {n} {u} tries v r l h e k =
      let left : tries - 1 ≡ n + (tries - 1 - n) = omega arith in
      rw (left, waits (tries - 1 - n) l, stops u v r (tries - 1 - n) e (λ q. omega (arith, k q)))
        refl
