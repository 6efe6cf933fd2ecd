-- ===== src/Access/Window.antt =====
-- `Window`: an address register and a data register, as Broadcom's RDB and Motorcomm's extended
-- registers have.
use mdioprobe.Access.Mmd.{IsRegister, Holds}
use mdioprobe.Access.{window}
use mdioprobe.Bus.{Bus, Device, Refines}
use mdioprobe.Exec.Returns.{Returns-bind, Returns-weaken}
use mdioprobe.Prelude.Bits.{and_low}
use mdioprobe.Prelude.{ℕ, ◌%◌, ◌^◌, ◌<◌, ◌≡◌, ◌∙◌, arith, bit_and}

pub record HasWindow {T U : Type 0} (dev : Device ℕ T) (addr_reg data_reg : ℕ) (space : Device ℕ U)
    : Type 0 where
  pub core : T → U
  pub pointer : T → ℕ
  pub put_address :
      (v : ℕ) (t : T)
      → v < 2 ^ 16
      → (pointer (dev.put addr_reg v t) ≡ v) × (core (dev.put addr_reg v t) ≡ core t)
  pub get_data :
      (t : T)
      → ((dev.get data_reg t).0 ≡ (space.get (pointer t) (core t)).0)
        × (core (dev.get data_reg t).1 ≡ (space.get (pointer t) (core t)).1)
  pub put_data :
      (v : ℕ) (t : T) → v < 2 ^ 16 → core (dev.put data_reg v t) ≡ space.put (pointer t) v (core t)

-- A register file of 16-bit addresses.
abbrev pub wide_space : {U : Type 0} → Device ℕ U → Device ℕ U
wide_space space = record {
  get = λ r u. space.get (r % 2 ^ 16) u;
  put = λ r v u. space.put (r % 2 ^ 16) v u;
}

module _ {S T U : Type 0} {bus : Bus ℕ S} {dev : Device ℕ T} {space : Device ℕ U}
    {Shows : S → T → Type 0} (base : Refines bus dev IsRegister Shows) where
  -- Over a bus of a device with an address register and a data register below 32, `Window` is the
  -- register file behind the pair: every read and every 16-bit write returns and acts on the
  -- register whose number is the given one's low sixteen bits.
  pub window-Refines :
      (addr_reg data_reg : ℕ)
      → addr_reg < 32
      → data_reg < 32
      → (law : HasWindow dev addr_reg data_reg space)
      → Refines
          (window bus addr_reg data_reg)
          (wide_space space)
          (λ _. Unit {0})
          (Holds law.core Shows)
  unfolding window
  window-Refines addr_reg data_reg ha hd law = record {
    reads = λ r s u _ (t, sh, e).
        let a : ℕ = bit_and r 0xffff in
        let a_is : a ≡ r % 2 ^ 16 = and_low 16 r in
        let small : a < 2 ^ 16 = omega (arith, a_is) in
        let t1 = dev.put addr_reg a t in
        let k = law.put_address a t small in
        let at_reg : law.pointer t1 ≡ r % 2 ^ 16 = k.0 ∙ a_is in
        let g = rw (at_reg, k.1, e) at (law.get_data t1) in
        Returns-bind (base.writes addr_reg a s t ha small sh) λ _ s1 sh1.
          Returns-weaken (base.reads data_reg s1 t1 hd sh1)
            λ v s2 (ve, sh2). (ve ∙ g.0, ((dev.get data_reg t1).1, sh2, g.1));
    writes = λ r v s u _ hv (t, sh, e).
        let a : ℕ = bit_and r 0xffff in
        let a_is : a ≡ r % 2 ^ 16 = and_low 16 r in
        let small : a < 2 ^ 16 = omega (arith, a_is) in
        let x : ℕ = bit_and v 0xffff in
        let x_is : x ≡ v = ground (arith, and_low 16 v) in
        let fits : x < 2 ^ 16 = omega (arith, x_is) in
        let t1 = dev.put addr_reg a t in
        let k = law.put_address a t small in
        Returns-bind (base.writes addr_reg a s t ha small sh) λ _ s1 sh1.
          Returns-weaken (base.writes data_reg x s1 t1 hd fits sh1) λ _ s2 sh2.
            (dev.put data_reg x t1, sh2, law.put_data x t1 fits ∙ rw (k.0, k.1, e, a_is, x_is));
  }
