-- ===== src/Marvell/Stuck.antt =====
-- What happens when the busy bit never clears. `P k s` says that `s` is a state after k polls.
use mathlib.Core.Path.{subst}
use mdioprobe.Bus.{Bus}
use mdioprobe.Exec.Returns.{Returns}
use mdioprobe.Exec.{Exec, err, command_error, stayed_busy}
use mdioprobe.Marvell.{poll, wait, switch_read, switch_write}
use mdioprobe.Prelude.{ℕ, zero, suc, ◌+◌, ◌<◌, ◌≡◌, refl, arith, String, bit_and, ◌==◌, false}

-- Reading the status, as a poll of a pair that stays busy, and sleeping.
pub record StaysBusy {S : Type 0} (status : Exec S ℕ) (sleep_ms : ℕ → Exec S (Unit {0}))
    (P : ℕ → S → Type 0) : Type 0 where
  pub polls :
      (k : ℕ) (s : S)
      → P k s
      → Returns status s (λ v s'. ((bit_and v 0x8000 == 0) ≡ false) × P (suc k) s')
  pub rests : (k : ℕ) (s : S) → P k s → Returns (sleep_ms 1) s (λ _ s'. P k s')

-- The error that `_wait` raises, in a state after k polls.
abbrev pub GivesUp : {A S : Type 0} → Exec S A → S → String → (S → Type 0) → Type 0
GivesUp {S = S} m s what Q = (s' : S) × (m s ≡ (err (command_error (stayed_busy what)), s')) × Q s'

module _ {S : Type 0} {status : Exec S ℕ} {sleep_ms : ℕ → Exec S (Unit {0})} {P : ℕ → S → Type 0}
    (stuck : StaysBusy status sleep_ms P) where
  poll-GivesUp :
      (n k : ℕ) (what : String) (s : S)
      → P k s
      → GivesUp (poll sleep_ms n status what) s what (P (n + k))
  unfolding poll
  poll-GivesUp zero k what s p = (s, refl, subst (λ j. P j s) (omega arith) p)
  poll-GivesUp (suc n) k what s p =
      let r = stuck.polls k s p in
      let z = stuck.rests (suc k) r.state r.holds.1 in
      let (s', e, q) = poll-GivesUp n (suc k) what z.state z.holds in
      (s', rw (r.runs, r.holds.0, z.runs) e, subst (λ j. P j s') (omega arith) q)

  -- `_wait` polls exactly sixteen times and then raises.
  pub wait-GivesUp :
      (what : String) (s : S) → P 0 s → GivesUp (wait sleep_ms status what) s what (P 16)
  unfolding wait
  wait-GivesUp what s p = poll-GivesUp 16 0 what s p

is_zero-pos : (n : ℕ) → 0 < n → (n == 0) ≡ false
is_zero-pos n h = ground arith

module _ {S : Type 0} (t : Bus (ℕ × ℕ) S) {addr : ℕ} {sleep_ms : ℕ → Exec S (Unit {0})}
    {P : ℕ → S → Type 0} (stuck : StaysBusy (t.read (addr, 0)) sleep_ms P) (pos : 0 < addr) where
  -- In multi-chip mode, at an SMI pair whose busy bit is set at every poll, a read and a write of
  -- the switch poll sixteen times and raise that the pair stayed busy. The state that they leave
  -- is one that sixteen polls lead to.
  pub switch_stuck :
      (dev reg v : ℕ) (s : S)
      → P 0 s
      → GivesUp (switch_read sleep_ms t addr dev reg) s "SMI" (P 16)
        × GivesUp (switch_write sleep_ms t addr dev reg v) s "SMI" (P 16)
  unfolding switch_read switch_write
  switch_stuck dev reg v s p =
      let (s', e, q) = wait-GivesUp stuck "SMI" s p in
      ((s', rw (is_zero-pos addr pos, e), q), (s', rw (is_zero-pos addr pos, e), q))
