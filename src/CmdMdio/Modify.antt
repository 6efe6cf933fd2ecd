-- ===== src/CmdMdio/Modify.antt =====
-- `apply_modify` over a bus that holds a device: the bits that it changes.
use mdioprobe.Bus.{Bus, Device, Refines}
use mdioprobe.CmdMdio.{Action, set_bits, clear_bits, modified, apply_modify}
use mdioprobe.Exec.Returns.{Returns, Returns-bind, Returns-pure}
use mdioprobe.Prelude.Bits.{and_low}
use mdioprobe.Prelude.Int.{mask_low, negsuc}
use mdioprobe.Prelude.Masks.{
  bit_at, bit_at-or, bit_at-and, bit_at-complement, bit_at-below, or-below, and-below,
}
use mdioprobe.Prelude.{ℕ, zero, suc, ◌-◌, ◌^◌, ◌<◌, ◌≡◌, arith}

-- What the bit of a register is to be, from its bit before and the bit of the mask.
abbrev pub bit_after : Action → ℕ → ℕ → ℕ
bit_after action before zero = before
bit_after set_bits before (suc m) = 1
bit_after clear_bits before (suc m) = 0

complement_lem : (mask : ℕ) → mask < 2 ^ 16 → mask_low 16 (negsuc mask) ≡ 2 ^ 16 - 1 - mask
complement_lem mask h = omega (arith, and_low 16 mask)

bit_set : (b m : ℕ) → b < 2 → m < 2 → Prim.Native.Nat.max b m ≡ bit_after set_bits b m
bit_set b zero h g = omega arith
bit_set b (suc m) h g = omega arith

bit_clear : (b m : ℕ) → b < 2 → m < 2 → Prim.Native.Nat.min b (1 - m) ≡ bit_after clear_bits b m
bit_clear b zero h g = omega arith
bit_clear b (suc m) h g = omega arith

-- `modified` gives each of the sixteen bits on its own: a bit outside the mask is kept, one inside
-- it becomes 1 for `set` and 0 for `clear`.
pub bit_at-modified :
    (action : Action) (before mask k : ℕ)
    → mask < 2 ^ 16
    → k < 16
    → bit_at k (modified action before mask) ≡ bit_after action (bit_at k before) (bit_at k mask)
unfolding modified
bit_at-modified set_bits before mask k h g =
    rw (bit_at-or k before mask)
      (bit_set (bit_at k before) (bit_at k mask) (bit_at-below k before) (bit_at-below k mask))
bit_at-modified clear_bits before mask k h g =
    rw
      (
        complement_lem mask h,
        bit_at-and k before (2 ^ 16 - 1 - mask),
        bit_at-complement 16 k mask h g,
      )
      (bit_clear (bit_at k before) (bit_at k mask) (bit_at-below k before) (bit_at-below k mask))

pub modified-below :
    (action : Action) (before mask : ℕ)
    → before < 2 ^ 16
    → mask < 2 ^ 16
    → modified action before mask < 2 ^ 16
unfolding modified
modified-below set_bits before mask h g = or-below 16 before mask h g
modified-below clear_bits before mask h g = and-below 16 before (mask_low 16 (negsuc mask)) h

module _ {S T : Type 0} {bus : Bus ℕ S} {dev : Device ℕ T} {IsAddress : ℕ → Type 0}
    {Shows : S → T → Type 0} where
  -- Over a bus that holds a device, at a register that gives a 16-bit value and with a 16-bit mask,
  -- `apply_modify` returns: the value it read, and a value whose sixteen bits are those read outside
  -- the mask and 1 (`set`) or 0 (`clear`) inside it; that value is what it put into the device.
  pub apply_modify-Returns :
      Refines bus dev IsAddress Shows
      → (action : Action) (i mask : ℕ) (s : S) (t : T) → IsAddress i
      → mask < 2 ^ 16
      → (dev.get i t).0 < 2 ^ 16
      → Shows s t
      → Returns (apply_modify bus.read bus.write action i mask) s (λ w s'.
        (w.0 ≡ (dev.get i t).0)
        × ((k : ℕ) → k < 16 → bit_at k w.1 ≡ bit_after action (bit_at k w.0) (bit_at k mask))
        × Shows s' (dev.put i w.1 (dev.get i t).1))
  unfolding apply_modify
  apply_modify-Returns r action i mask s t a g v h = Returns-bind (r.reads i s t a h) (λ b u p.
      Returns-bind
        (r.writes i (modified action b mask) u (dev.get i t).1 a
          (modified-below action b mask (rw (p.0) v) g) p.1)
        (λ _ u' q.
          Returns-pure (b, modified action b mask) u' _
            (p.0, λ k m. bit_at-modified action b mask k g m, q)))
