-- ===== src/Marvell/Window.antt =====
-- Command and data registers of one shape: the switch's own SMI pair and the SMI PHY pair of Global2.
use mdioprobe.Bus.{Bus, Device, Refines}
use mdioprobe.Exec.Returns.{Returns, Returns-bind, Returns-pure, Returns-weaken}
use mdioprobe.Exec.{Exec, ◌>>◌}
use mdioprobe.Marvell.{command_word, poll, wait}
use mdioprobe.Prelude.Bits.{and_bit, or_fields}
use mdioprobe.Prelude.{
  ℕ, zero, suc, ◌+◌, ◌-◌, ◌*◌, ◌/◌, ◌%◌, ◌^◌, ◌≤◌, ◌<◌, ◌≡◌, refl, ap, ◌∙◌, arith, bit_and, bit_or,
  String, Bool-cases, inl, inr, ◌==◌, true, false, ◌≢◌,
}

-- The documented behaviour of such a pair. Bit 15 of the command register is busy; a command word
-- has 100110 (read) or 100101 (write) in bits 15:10, the device in 9:5 and the register in 4:0. A
-- command clears its busy bit within 15 polls; only then is the data register read or written.
pub record IsWindow {I T U : Type 0} (dev : Device I T) (cmd data_at : I) (sub : Device (ℕ × ℕ) U)
    (rest : T → T) : Type 0 where
  pub core : T → U
  pub latch : T → ℕ
  pub busy : T → ℕ
  pub polled :
      (t : T)
      → ((dev.get cmd t).0 / 2 ^ 15 % 2 ≡ 0 → busy t ≡ 0)
        × (busy t ≡ 0 → (dev.get cmd t).0 / 2 ^ 15 % 2 ≡ 0)
        × (busy (dev.get cmd t).1 ≡ busy t - 1)
        × (latch (dev.get cmd t).1 ≡ latch t)
        × (core (dev.get cmd t).1 ≡ core t)
  pub rested :
      (t : T) → (busy (rest t) ≤ busy t) × (latch (rest t) ≡ latch t) × (core (rest t) ≡ core t)
  pub put_data :
      (v : ℕ) (t : T)
      → v < 2 ^ 16
      → busy t ≡ 0
      → (busy (dev.put data_at v t) ≡ 0)
        × (latch (dev.put data_at v t) ≡ v)
        × (core (dev.put data_at v t) ≡ core t)
  pub get_data :
      (t : T)
      → busy t ≡ 0
      → ((dev.get data_at t).0 ≡ latch t)
        × (busy (dev.get data_at t).1 ≡ 0)
        × (core (dev.get data_at t).1 ≡ core t)
  pub put_read :
      (v : ℕ) (t : T)
      → v < 2 ^ 16
      → busy t ≡ 0
      → v / 2 ^ 10 ≡ 0b100110
      → (busy (dev.put cmd v t) ≤ 15)
        × (latch (dev.put cmd v t) ≡ (sub.get (v / 2 ^ 5 % 32, v % 32) (core t)).0)
        × (core (dev.put cmd v t) ≡ (sub.get (v / 2 ^ 5 % 32, v % 32) (core t)).1)
  pub put_write :
      (v : ℕ) (t : T)
      → v < 2 ^ 16
      → busy t ≡ 0
      → v / 2 ^ 10 ≡ 0b100101
      → (busy (dev.put cmd v t) ≤ 15)
        × (core (dev.put cmd v t) ≡ sub.put (v / 2 ^ 5 % 32, v % 32) (latch t) (core t))

bit_clear : (v : ℕ) → (bit_and v 0x8000 == 0) ≡ true → v / 2 ^ 15 % 2 ≡ 0
bit_clear v h = ground (arith, and_bit 15 v)

bit_set : (v : ℕ) → (bit_and v 0x8000 == 0) ≡ false → v / 2 ^ 15 % 2 ≢ 0
bit_set v h = ground (arith, and_bit 15 v)

word_fields :
    (op d r : ℕ)
    → op < 64
    → d < 32
    → r < 32
    → command_word (op * 2 ^ 10) d r ≡ op * 2 ^ 10 + d * 2 ^ 5 + r
word_fields op d r ho hd hr =
    ap (λ (w : ℕ). bit_or w r) (or_fields 10 op (d * 2 ^ 5) (omega arith))
    ∙ ap (λ (w : ℕ). bit_or w r) split_word
    ∙ or_fields 5 (op * 2 ^ 5 + d) r (omega arith)
    ∙ omega arith
  where
    split_word : op * 2 ^ 10 + d * 2 ^ 5 ≡ (op * 2 ^ 5 + d) * 2 ^ 5
    split_word = omega arith

busy_pos : {b : ℕ} {v : ℕ} → v ≢ 0 → (b ≡ 0 → v ≡ 0) → 0 < b
busy_pos {b = zero} h k = absurd (h (k refl))
busy_pos {b = suc b} h k = omega arith

-- A world shows devices in state `u` behind the pair, the pair ready within the polls allowed.
abbrev pub Behind :
    {I S T U : Type 0} {dev : Device I T} {cmd data_at : I} {sub : Device (ℕ × ℕ) U} {rest : T → T}
    → IsWindow dev cmd data_at sub rest
    → (S → T → Type 0)
    → S
    → U
    → Type 0
Behind {T = T} law Shows s u = (t : T) × Shows s t × (law.core t ≡ u) × (law.busy t ≤ 15)

module _ {I S T U : Type 0} {bus : Bus I S} {dev : Device I T} {IsAddress : I → Type 0}
    {Shows : S → T → Type 0} {cmd data_at : I} {sub : Device (ℕ × ℕ) U} {rest : T → T}
    (base : Refines bus dev IsAddress Shows) (law : IsWindow dev cmd data_at sub rest)
    (cmd_ok : IsAddress cmd) (data_ok : IsAddress data_at) (sleep_ms : ℕ → Exec S (Unit {0}))
    (sleeps : (s : S) (t : T)
      → Shows s t
      → Returns (sleep_ms 1) s (λ _ s'. Shows s' (rest t))) where
  -- The pair is idle, holds `l` in its data register and the devices behind it are in state `u`.
  record IsIdle (l : ℕ) (u : U) (s : S) : Type 0 where
    device : T
    shown : Shows s device
    idle : law.busy device ≡ 0
    latched : law.latch device ≡ l
    kept : law.core device ≡ u

  poll-IsIdle :
      (n : ℕ) (what : String) (s : S) (t : T)
      → Shows s t
      → law.busy t < n
      → Returns
          (poll sleep_ms n (bus.read cmd) what)
          s
          (λ _ s'. IsIdle (law.latch t) (law.core t) s')
  unfolding poll
  poll-IsIdle zero what s t sh h = absurd (omega arith)
  poll-IsIdle (suc n) what s t sh h = Returns-bind (base.reads cmd s t cmd_ok sh) λ v s1 (ve, sh1).
      let p = law.polled t in
      elim (Bool-cases (bit_and v 0x8000 == 0)) [
        | inl e ↦ rw e (
            Returns-pure tt s1 _ (record {
              device = (dev.get cmd t).1;
              shown = sh1;
              idle = omega (arith, p.2, p.0 (rw ve at (bit_clear v e)));
              latched = p.3;
              kept = p.4;
            }))
        | inr e ↦ rw e (
            Returns-bind (sleeps s1 (dev.get cmd t).1 sh1) λ _ s2 sh2.
              Returns-weaken
                (poll-IsIdle n what s2 (rest (dev.get cmd t).1) sh2 (
                  omega (
                    arith,
                    p.2,
                    (law.rested (dev.get cmd t).1).0,
                    busy_pos (rw ve at (bit_set v e)) p.1,
                  )))
                λ _ s3 ready. record {
                  device = ready.device;
                  shown = ready.shown;
                  idle = ready.idle;
                  latched = ready.latched ∙ (law.rested (dev.get cmd t).1).1 ∙ p.3;
                  kept = ready.kept ∙ (law.rested (dev.get cmd t).1).2 ∙ p.4;
                })
      ]

  wait-IsIdle :
      (what : String) (s : S) (t : T)
      → Shows s t
      → law.busy t ≤ 15
      → Returns (wait sleep_ms (bus.read cmd) what) s (λ _ s'. IsIdle (law.latch t) (law.core t) s')
  unfolding wait
  wait-IsIdle what s t sh h = poll-IsIdle 16 what s t sh (omega arith)

  abbrev pub command_read : String → ℕ → ℕ → Exec S ℕ
  command_read what d r = do
    wait sleep_ms (bus.read cmd) what
    bus.write cmd (command_word 0x9800 d r)
    wait sleep_ms (bus.read cmd) what
    bus.read data_at

  abbrev pub command_write : String → ℕ → ℕ → ℕ → Exec S (Unit {0})
  command_write what d r v = do
    wait sleep_ms (bus.read cmd) what
    bus.write data_at v
    bus.write cmd (command_word 0x9400 d r)
    wait sleep_ms (bus.read cmd) what

  pub command_read-Returns :
      (what : String) (d r : ℕ) (s : S) (u : U)
      → d < 32
      → r < 32
      → Behind law Shows s u
      → Returns
          (command_read what d r)
          s
          (λ v s'. (v ≡ (sub.get (d, r) u).0) × Behind law Shows s' (sub.get (d, r) u).1)
  command_read-Returns what d r s u hd hr (t, sh, e, b) =
      let w : ℕ = command_word 0x9800 d r in
      let w_is : w ≡ 38 * 2 ^ 10 + d * 2 ^ 5 + r = word_fields 38 d r (omega arith) hd hr in
      let dev_is : w / 2 ^ 5 % 32 ≡ d = omega (arith, w_is) in
      let reg_is : w % 32 ≡ r = omega (arith, w_is) in
      let small : w < 2 ^ 16 = omega (arith, w_is) in
      Returns-bind (wait-IsIdle what s t sh b) λ _ s1 q.
        let p = law.put_read w q.device small q.idle (omega (arith, w_is)) in
        let p' = rw (dev_is, reg_is, q.kept, e) at p in
        Returns-bind (base.writes cmd w s1 q.device cmd_ok small q.shown) λ _ s2 sh2.
          Returns-bind (wait-IsIdle what s2 (dev.put cmd w q.device) sh2 p.0) λ _ s3 q3.
            let g = law.get_data q3.device q3.idle in
            Returns-weaken (base.reads data_at s3 q3.device data_ok q3.shown) λ v s4 (ve, sh4). (
              ve ∙ g.0 ∙ q3.latched ∙ p'.1,
              ((dev.get data_at q3.device).1, sh4, g.2 ∙ q3.kept ∙ p'.2, omega (arith, g.1)),
            )

  pub command_write-Returns :
      (what : String) (d r v : ℕ) (s : S) (u : U)
      → d < 32
      → r < 32
      → v < 2 ^ 16
      → Behind law Shows s u
      → Returns (command_write what d r v) s (λ _ s'. Behind law Shows s' (sub.put (d, r) v u))
  command_write-Returns what d r v s u hd hr hv (t, sh, e, b) =
      let w : ℕ = command_word 0x9400 d r in
      let w_is : w ≡ 37 * 2 ^ 10 + d * 2 ^ 5 + r = word_fields 37 d r (omega arith) hd hr in
      let dev_is : w / 2 ^ 5 % 32 ≡ d = omega (arith, w_is) in
      let reg_is : w % 32 ≡ r = omega (arith, w_is) in
      let small : w < 2 ^ 16 = omega (arith, w_is) in
      Returns-bind (wait-IsIdle what s t sh b) λ _ s1 q.
        let l = law.put_data v q.device hv q.idle in
        Returns-bind (base.writes data_at v s1 q.device data_ok hv q.shown) λ _ s2 sh2.
          let t2 = dev.put data_at v q.device in
          let p = law.put_write w t2 small l.0 (omega (arith, w_is)) in
          let p' = rw (dev_is, reg_is, l.1, l.2, q.kept, e) at p in
          Returns-bind (base.writes cmd w s2 t2 cmd_ok small sh2) λ _ s3 sh3.
            Returns-weaken (wait-IsIdle what s3 (dev.put cmd w t2) sh3 p.0)
              λ _ s4 q4. (q4.device, q4.shown, q4.kept ∙ p'.1, omega (arith, q4.idle))
