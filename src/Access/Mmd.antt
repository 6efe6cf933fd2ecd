-- ===== src/Access/Mmd.antt =====
-- `Mmd` over any bus whose device has the MMD registers 13 and 14 of IEEE 802.3 Annex 22D.
use mdioprobe.Access.{data_mode, mmd_arm, mmd}
use mdioprobe.Bus.{Bus, Device, Refines}
use mdioprobe.Exec.Returns.{Returns, Returns-bind, Returns-weaken}
use mdioprobe.Prelude.Bits.{and_low, or_fields, or_comm}
use mdioprobe.Prelude.{ℕ, ◌+◌, ◌/◌, ◌%◌, ◌^◌, ◌<◌, ◌≡◌, ap, ◌∙◌, arith, bit_and, bit_or}

abbrev pub IsRegister : ℕ → Type 0
IsRegister r = r < 32

-- Register 13 is the MMD access control (function in bits 15:14, DEVAD in 4:0). With function 00
-- register 14 is the address register of that MMD, with function 01 its data port.
pub record IsMmd {T U : Type 0} (dev : Device ℕ T) (space : Device (ℕ × ℕ) U) : Type 0 where
  pub core : T → U
  pub control : T → ℕ
  pub address : T → ℕ → ℕ
  pub put_control :
      (v : ℕ) (t : T)
      → v < 2 ^ 16
      → (control (dev.put 0x0d v t) ≡ v)
        × (address (dev.put 0x0d v t) ≡ address t)
        × (core (dev.put 0x0d v t) ≡ core t)
  pub put_address :
      (v : ℕ) (t : T)
      → v < 2 ^ 16
      → control t / 2 ^ 14 ≡ 0
      → (control (dev.put 0x0e v t) ≡ control t)
        × (address (dev.put 0x0e v t) (control t % 32) ≡ v)
        × (core (dev.put 0x0e v t) ≡ core t)
  pub put_data :
      (v : ℕ) (t : T)
      → v < 2 ^ 16
      → control t / 2 ^ 14 ≡ 1
      → core (dev.put 0x0e v t) ≡ space.put (control t % 32, address t (control t % 32)) v (core t)
  pub get_data :
      (t : T)
      → control t / 2 ^ 14 ≡ 1
      → ((dev.get 0x0e t).0 ≡ (space.get (control t % 32, address t (control t % 32)) (core t)).0)
        × (core (dev.get 0x0e t).1
            ≡ (space.get (control t % 32, address t (control t % 32)) (core t)).1)

-- The 16-bit register file of one MMD.
abbrev pub mmd_space : {U : Type 0} → Device (ℕ × ℕ) U → ℕ → Device ℕ U
mmd_space space devad = record {
  get = λ r u. space.get (devad % 32, r % 2 ^ 16) u;
  put = λ r v u. space.put (devad % 32, r % 2 ^ 16) v u;
}

-- A world shows MMD registers `u` if it shows a device that holds them.
abbrev pub Holds : {S T U : Type 0} → (T → U) → (S → T → Type 0) → S → U → Type 0
Holds {T = T} core Shows s u = (t : T) × Shows s t × (core t ≡ u)

mode_word : (d : ℕ) → d < 32 → bit_or d data_mode ≡ d + 2 ^ 14
mode_word d h = omega (arith, or_comm d (2 ^ 14), or_fields 14 1 d (omega arith))

module _ {S T U : Type 0} {bus : Bus ℕ S} {dev : Device ℕ T} {space : Device (ℕ × ℕ) U}
    {Shows : S → T → Type 0} (base : Refines bus dev IsRegister Shows) (law : IsMmd dev space) where
  -- After the three writes the data port stands on the register.
  record IsArmed (devad reg : ℕ) (u : U) (s : S) : Type 0 where
    device : T
    shown : Shows s device
    data_port : law.control device / 2 ^ 14 ≡ 1
    selected : law.control device % 32 ≡ devad
    addressed : law.address device devad ≡ reg % 2 ^ 16
    kept : law.core device ≡ u

  arm-IsArmed :
      (devad reg : ℕ) (s : S) (t : T)
      → devad < 32
      → Shows s t
      → Returns (mmd_arm bus devad reg) s (λ _ s'. IsArmed devad reg (law.core t) s')
  unfolding mmd_arm
  arm-IsArmed devad reg s t h sh =
      let low : ℕ = bit_and reg 0xffff in
      let word : ℕ = bit_or devad data_mode in
      let t1 = dev.put 0x0d devad t in
      let t2 = dev.put 0x0e low t1 in
      let low_fits : low < 2 ^ 16 = omega (arith, and_low 16 reg) in
      let word_is : word ≡ devad + 2 ^ 14 = mode_word devad h in
      let c1 = law.put_control devad t (omega arith) in
      let c2 = law.put_address low t1 low_fits (omega (arith, c1.0)) in
      let sel : law.control t1 % 32 ≡ devad = omega (arith, c1.0) in
      let c3 = law.put_control word t2 (omega (arith, word_is)) in
      Returns-bind (base.writes 0x0d devad s t (omega arith) (omega arith) sh) λ _ s1 sh1.
        Returns-bind (base.writes 0x0e low s1 t1 (omega arith) low_fits sh1) λ _ s2 sh2.
          Returns-weaken (base.writes 0x0d word s2 t2 (omega arith) (omega (arith, word_is)) sh2)
            λ _ s3 sh3. record {
              device = dev.put 0x0d word t2;
              shown = sh3;
              data_port = omega (arith, c3.0, word_is);
              selected = omega (arith, c3.0, word_is);
              addressed = ap (λ (f : ℕ → ℕ). f devad) c3.1 ∙ rw sel at c2.1 ∙ and_low 16 reg;
              kept = c3.2 ∙ c2.2 ∙ c1.2;
            }

  armed_get :
      (d r : ℕ) (u : U) (s : S) (a : IsArmed d r u s)
      → ((dev.get 0x0e a.device).0 ≡ (space.get (d, r % 2 ^ 16) u).0)
        × (law.core (dev.get 0x0e a.device).1 ≡ (space.get (d, r % 2 ^ 16) u).1)
  armed_get d r u s a = rw (a.selected, a.addressed, a.kept) at (law.get_data a.device a.data_port)

  armed_put :
      (d r v : ℕ) (u : U) (s : S) (a : IsArmed d r u s)
      → v < 2 ^ 16
      → law.core (dev.put 0x0e v a.device) ≡ space.put (d, r % 2 ^ 16) v u
  armed_put d r v u s a h =
      rw (a.selected, a.addressed, a.kept) at (law.put_data v a.device h a.data_port)

  -- Over a bus of a device with the MMD access registers 13 and 14, `Mmd(bus, devad)` is the register
  -- file of the MMD `devad mod 32`: every read and every 16-bit write returns, and does to the MMD
  -- registers of the device what an access to the register of the number's low sixteen bits does.
  pub mmd-Refines :
      (devad : ℕ)
      → Refines (mmd bus devad) (mmd_space space devad) (λ _. Unit {0}) (Holds law.core Shows)
  unfolding mmd
  mmd-Refines devad =
      let d : ℕ = bit_and devad 0x1f in
      let d_is : d ≡ devad % 32 = and_low 5 devad in
      record {
        reads = λ i s u _ (t, sh, e).
            Returns-bind (arm-IsArmed d i s t (omega (arith, d_is)) sh) λ _ s1 a.
              Returns-weaken (base.reads 0x0e s1 a.device (omega arith) a.shown) λ v s2 r.
                let (g, k) = rw (d_is, e) at (armed_get d i (law.core t) s1 a) in
                (r.0 ∙ g, ((dev.get 0x0e a.device).1, r.1, k));
        writes = λ i v s u _ h (t, sh, e).
            let low : ℕ = bit_and v 0xffff in
            let low_is : low ≡ v = ground (arith, and_low 16 v) in
            Returns-bind (arm-IsArmed d i s t (omega (arith, d_is)) sh) λ _ s1 a.
              Returns-weaken
                (base.writes 0x0e low s1 a.device (omega arith) (omega (arith, low_is)) a.shown)
                λ _ s2 r. (
                  dev.put 0x0e low a.device,
                  r,
                  armed_put d i low (law.core t) s1 a (omega (arith, low_is))
                      ∙ rw (d_is, low_is, e),
                );
      }
