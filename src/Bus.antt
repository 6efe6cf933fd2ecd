-- ===== src/Bus.antt =====
-- What `cli.access` relies on: an object with `read(reg)` and `write(reg, value)`. A bus is such an
-- object; a `Device` is an abstract description of what answers behind it.
use mdioprobe.Exec.{Exec}
use mdioprobe.Exec.Returns.{Returns}
use mdioprobe.Prelude.{ℕ, ◌<◌, ◌≡◌, ◌^◌, ◌&&◌, ◌==◌, if◌then◌else◌}

-- `I` is what an access is addressed by: a register, or a pair of a device and a register.
pub record Bus (I S : Type 0) : Type 0 where
  pub read : I → Exec S ℕ
  pub write : I → ℕ → Exec S (Unit {0})

-- Registers may change by being read, so `get` gives the state after it too.
pub record Device (I T : Type 0) : Type 0 where
  pub get : I → T → ℕ × T
  pub put : I → ℕ → T → T

-- Every access through `bus` succeeds and does to the device what `dev` says; `Shows s t` says that
-- the state `s` of the program's world holds a device in state `t`.
pub record Refines {I S T : Type 0} (bus : Bus I S) (dev : Device I T) (IsAddress : I → Type 0)
    (Shows : S → T → Type 0) : Type 0 where
  pub reads :
      (i : I) (s : S) (t : T)
      → IsAddress i
      → Shows s t
      → Returns (bus.read i) s (λ v s'. (v ≡ (dev.get i t).0) × Shows s' (dev.get i t).1)
  pub writes :
      (i : I) (v : ℕ) (s : S) (t : T)
      → IsAddress i
      → v < 2 ^ 16
      → Shows s t
      → Returns (bus.write i v) s (λ _ s'. Shows s' (dev.put i v t))

-- Registers that hold what was written last.
abbrev pub memory : Device (ℕ × ℕ) (ℕ × ℕ → ℕ)
memory = record {
  get = λ i m. (m i, m);
  put = λ i v m j. if i.0 == j.0 && i.1 == j.1 then v else m j;
}
