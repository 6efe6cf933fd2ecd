-- ===== src/MvPort/Link/Bits.antt =====
-- What `link` does to each bit of the two registers that it changes.
use mdioprobe.MvPort.Link.{Direction, up, down, auto, powered, forced}
use mdioprobe.MvPort.{pc_link_value, pc_forced_link, bmcr_aneg, bmcr_pdown, bmcr_restart}
use mdioprobe.Prelude.Masks.{bit_at, bit_at-or, bit_at-and_not, bit_at-pow, bit_at-below}
use mdioprobe.Prelude.{ℕ, ◌≡◌, arith, bit_or, ◌==◌, if◌then◌else◌, Bool, true, false, ◌||◌}

-- Bit 5 is LinkValue and bit 4 ForcedLink.
abbrev pub force_bit : Direction → ℕ → ℕ → ℕ
force_bit what k old =
    if k == 4
    then (elim what [ auto ↦ 0 | _ ↦ 1 ])
    else if k == 5
    then (elim what [ up ↦ 1 | _ ↦ 0 ])
    else old

-- Bit 12 enables autonegotiation, bit 11 powers down and bit 9 restarts autonegotiation.
abbrev pub power_bit : Direction → Bool → ℕ → ℕ → ℕ
power_bit what aneg k old =
    if k == 11
    then (elim what [ down ↦ 1 | _ ↦ 0 ])
    else if k == 12 || k == 9
    then (elim what [ down ↦ old | _ ↦ if aneg then 1 else old ])
    else old

forced_lem : (what : Direction) (k v : ℕ) → bit_at k (forced what v) ≡ force_bit what k (bit_at k v)
unfolding forced
forced_lem auto k v = ground (
  arith,
  bit_at-below k v,
  bit_at-and_not k v (bit_or pc_forced_link pc_link_value),
  bit_at-or k pc_forced_link pc_link_value,
  bit_at-pow k 4,
  bit_at-pow k 5,
)
forced_lem up k v = ground (
  arith,
  bit_at-below k v,
  bit_at-or k (bit_or v pc_forced_link) pc_link_value,
  bit_at-or k v pc_forced_link,
  bit_at-pow k 4,
  bit_at-pow k 5,
)
forced_lem down k v = ground (
  arith,
  bit_at-below k v,
  bit_at-and_not k (bit_or v pc_forced_link) pc_link_value,
  bit_at-or k v pc_forced_link,
  bit_at-pow k 4,
  bit_at-pow k 5,
)

powered_lem :
    (what : Direction) (aneg : Bool) (k v : ℕ)
    → bit_at k (powered what aneg v) ≡ power_bit what aneg k (bit_at k v)
unfolding powered
powered_lem down aneg k v =
    ground (arith, bit_at-below k v, bit_at-or k v bmcr_pdown, bit_at-pow k 11)
powered_lem up true k v = ground (
  arith,
  bit_at-below k v,
  bit_at-and_not k (bit_or (bit_or v bmcr_aneg) bmcr_restart) bmcr_pdown,
  bit_at-or k (bit_or v bmcr_aneg) bmcr_restart,
  bit_at-or k v bmcr_aneg,
  bit_at-pow k 12,
  bit_at-pow k 11,
  bit_at-pow k 9,
)
powered_lem auto true k v = ground (
  arith,
  bit_at-below k v,
  bit_at-and_not k (bit_or (bit_or v bmcr_aneg) bmcr_restart) bmcr_pdown,
  bit_at-or k (bit_or v bmcr_aneg) bmcr_restart,
  bit_at-or k v bmcr_aneg,
  bit_at-pow k 12,
  bit_at-pow k 11,
  bit_at-pow k 9,
)
powered_lem up false k v =
    ground (arith, bit_at-below k v, bit_at-and_not k v bmcr_pdown, bit_at-pow k 11)
powered_lem auto false k v =
    ground (arith, bit_at-below k v, bit_at-and_not k v bmcr_pdown, bit_at-pow k 11)

-- What `link` writes, bit by bit and at every width. Into register 0 of a part: `down` sets bit 11 and
-- `up` and `auto` clear it; with `aneg` the latter two also set bits 12 and 9. Into Physical Control:
-- `up` sets bits 4 and 5, `down` sets bit 4 and clears bit 5, `auto` clears both. Every other bit is
-- kept.
pub link_bits :
    (what : Direction) (aneg : Bool) (k v : ℕ)
    → (bit_at k (powered what aneg v) ≡ power_bit what aneg k (bit_at k v))
      × (bit_at k (forced what v) ≡ force_bit what k (bit_at k v))
link_bits what aneg k v = (powered_lem what aneg k v, forced_lem what k v)
