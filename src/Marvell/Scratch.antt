-- ===== src/Marvell/Scratch.antt =====
-- The scratch and misc window of Global2, one byte at a time.
use mdioprobe.Exec.{pure, ◌>>=◌, ◌>>◌}
use mdioprobe.Bus.{Bus, Device, Refines}
use mdioprobe.Exec.Returns.{Returns, Returns-bind, Returns-pure, Returns-weaken}
use mdioprobe.Marvell.{scratch_read, scratch_write}
use mdioprobe.Prelude.Bits.{and_low, or_fields}
use mdioprobe.Prelude.{ℕ, ◌+◌, ◌*◌, ◌/◌, ◌%◌, ◌^◌, ◌<◌, ◌≡◌, ◌∙◌, ap, arith, bit_and, bit_or}
use mdioprobe.Transport.Laws.{IsPair}

-- The documented window: bit 15 of a written word updates the byte that bits 14:8 point to with bits
-- 7:0; without it the word only moves the pointer. A read gives the byte in bits 7:0.
pub record IsScratch {T U : Type 0} (dev : Device (ℕ × ℕ) T) (bytes : Device ℕ U) : Type 0 where
  pub core : T → U
  pub pointer : T → ℕ
  pub put_pointer :
      (w : ℕ) (t : T)
      → w / 2 ^ 15 ≡ 0
      → (pointer (dev.put (0x1c, 0x1a) w t) ≡ w / 2 ^ 8)
        × (core (dev.put (0x1c, 0x1a) w t) ≡ core t)
  pub put_update :
      (w : ℕ) (t : T)
      → w < 2 ^ 16
      → w / 2 ^ 15 ≡ 1
      → core (dev.put (0x1c, 0x1a) w t) ≡ bytes.put (w / 2 ^ 8 % 2 ^ 7) (w % 2 ^ 8) (core t)
  pub get_byte :
      (t : T)
      → ((dev.get (0x1c, 0x1a) t).0 % 2 ^ 8 ≡ (bytes.get (pointer t) (core t)).0)
        × (core (dev.get (0x1c, 0x1a) t).1 ≡ (bytes.get (pointer t) (core t)).1)

-- The word that `scratch_write` sends.
update_word :
    (i v : ℕ)
    → i < 2 ^ 7
    → bit_or (bit_or 0x8000 (bit_and i 0xff * 2 ^ 8)) (bit_and v 0xff)
      ≡ 2 ^ 15 + i * 2 ^ 8 + v % 2 ^ 8
update_word i v h =
    ap (λ (w : ℕ). bit_or w (bit_and v 0xff))
      (rw (and_low 8 i) (or_fields 15 1 (i % 2 ^ 8 * 2 ^ 8) (omega arith) ∙ scaled))
    ∙ or_fields 8 (2 ^ 7 + i) (bit_and v 0xff) (omega (arith, and_low 8 v))
    ∙ omega (arith, and_low 8 v)
  where
    scaled : 1 * 2 ^ 15 + i % 2 ^ 8 * 2 ^ 8 ≡ (2 ^ 7 + i) * 2 ^ 8
    scaled = omega arith

-- An index of seven bits.
abbrev pub IsIndex : ℕ → Type 0
IsIndex i = i < 2 ^ 7

module _ {S T U : Type 0} {sw : Bus (ℕ × ℕ) S} {dev : Device (ℕ × ℕ) T} {bytes : Device ℕ U}
    {Shows : S → T → Type 0} (base : Refines sw dev IsPair Shows) (law : IsScratch dev bytes) where
  abbrev pub HoldsBytes : S → U → Type 0
  HoldsBytes s u = (t : T) × Shows s t × (law.core t ≡ u)

  -- Over a bus of a switch with the scratch window, and for an index below 128, `scratch_read`
  -- returns the byte at the index and `scratch_write` sets it to the low eight bits of the value.
  pub scratch-Returns :
      (i v : ℕ) (s : S) (u : U)
      → IsIndex i
      → HoldsBytes s u
      → Returns
          (scratch_read sw i)
          s
          (λ b s'. (b ≡ (bytes.get i u).0) × HoldsBytes s' (bytes.get i u).1)
        × Returns (scratch_write sw i v) s (λ _ s'. HoldsBytes s' (bytes.put i (v % 2 ^ 8) u))
  unfolding scratch_read scratch_write
  scratch-Returns i v s u h (t, sh, e) =
      let w : ℕ = bit_and i 0xff * 2 ^ 8 in
      let w_is : w ≡ i * 2 ^ 8 = omega (arith, and_low 8 i) in
      let p = law.put_pointer w t (omega (arith, w_is)) in
      let at_index : law.pointer (dev.put (0x1c, 0x1a) w t) ≡ i = omega (arith, w_is, p.0) in
      let g = rw (at_index, p.1, e) at (law.get_byte (dev.put (0x1c, 0x1a) w t)) in
      let x : ℕ = bit_or (bit_or 0x8000 (bit_and i 0xff * 2 ^ 8)) (bit_and v 0xff) in
      let x_is : x ≡ 2 ^ 15 + i * 2 ^ 8 + v % 2 ^ 8 = update_word i v h in
      let x_at : x / 2 ^ 8 % 2 ^ 7 ≡ i = omega (arith, x_is) in
      let x_low : x % 2 ^ 8 ≡ v % 2 ^ 8 = omega (arith, x_is) in
      (
        Returns-bind (base.writes (0x1c, 0x1a) w s t (omega arith) (omega (arith, w_is)) sh)
            λ _ s1 sh1.
              Returns-bind (base.reads (0x1c, 0x1a) s1 (dev.put (0x1c, 0x1a) w t) (omega arith) sh1)
                λ b s2 (be, sh2). Returns-pure (bit_and b 0xff) s2 _ (
                  and_low 8 b ∙ ap (λ (n : ℕ). n % 2 ^ 8) be ∙ g.0,
                  ((dev.get (0x1c, 0x1a) (dev.put (0x1c, 0x1a) w t)).1, sh2, g.1),
                ),
        Returns-weaken (base.writes (0x1c, 0x1a) x s t (omega arith) (omega (arith, x_is)) sh)
            λ _ s1 sh1. (
              dev.put (0x1c, 0x1a) x t,
              sh1,
              rw (x_at, x_low, e) at
                  (law.put_update x t (omega (arith, x_is)) (omega (arith, x_is))),
            ),
      )

high_word :
    (i : ℕ)
    → i < 2 ^ 7
    → bit_and (2 ^ 7 + i) 0xff * 2 ^ 8
      ≡ bit_or (bit_or 0x8000 (bit_and i 0xff * 2 ^ 8)) (bit_and 0 0xff)
high_word i h = omega (arith, and_low 8 (2 ^ 7 + i), update_word i 0 h)

-- Reading the scratch index 128 + i, with i below 128, sends what writing 0 to index i sends, and
-- then reads: the index's top bit becomes the update bit of the word.
pub scratch_read-writes :
    {S : Type 0} (sw : Bus (ℕ × ℕ) S) (i : ℕ) (s : S)
    → IsIndex i
    → scratch_read sw (2 ^ 7 + i) s
      ≡ (do scratch_write sw i 0; value ← sw.read (0x1c, 0x1a); pure (bit_and value 0xff)) s
unfolding scratch_read scratch_write
scratch_read-writes sw i s h = rw (high_word i h)
