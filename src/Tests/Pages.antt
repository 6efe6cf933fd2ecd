-- ===== src/Tests/Pages.antt =====
-- Paged, extended and windowed PHYs, a bus that fails and a switch that stays busy.
use mdioprobe.Access.Mmd.{IsRegister, Holds}
use mdioprobe.Access.Paging.{
  IsPaged, page_space, paged-Refines, IsExtended, HoldsPlain, ext_page-Refines,
}
use mdioprobe.Access.Release.{ext_page_releases, ext_page_left_selected}
use mdioprobe.Access.Window.{HasWindow}
use mdioprobe.Access.{paged, ext_page, ext_arm}
use mdioprobe.Bus.{Bus, Device, Refines}
use mdioprobe.Exec.{ok, err, os_error, pure, ◌>>=◌, ◌>>◌}
use mdioprobe.Exec.Returns.{Returns}
use mdioprobe.Marvell.Scratch.{IsScratch, scratch-Returns, scratch_read-writes}
use mdioprobe.Marvell.Stuck.{StaysBusy, GivesUp, switch_stuck}
use mdioprobe.Marvell.{switch_read, switch_write, scratch_read, scratch_write}
use mdioprobe.Prelude.Int.{pos, negsuc}
use mdioprobe.Prelude.{
  ℕ, suc, ◌/◌, ◌%◌, ◌^◌, ◌<◌, ◌≡◌, ◌≢◌, refl, inl, arith, false, ◌==◌, if◌then◌else◌, bit_and,
}
use mdioprobe.Tests.Buses.{bus_of, bus_of-Refines}
use mdioprobe.Tests.Devices.{plain_space}

ne_test : (r k : ℕ) → r ≢ k → (r == k) ≡ false
ne_test r k h = ground arith

-- One register that selects, and a register file of pages behind the others.
record PagedPhy : Type 0 where
  page : ℕ
  regs : ℕ × ℕ → ℕ

abbrev paged_phy : Device ℕ PagedPhy
paged_phy = record {
  get = λ r t. (if r == 0x16 then t.page else t.regs (t.page, r), t);
  put = λ r v t.
      if r == 0x16
      then record t { page = v }
      else record t { regs = (plain_space.put (t.page, r) v t.regs) };
}

paged_phy-IsPaged : IsPaged paged_phy 0x16 plain_space
paged_phy-IsPaged = record {
  core = λ t. t.regs;
  page = λ t. t.page;
  put_page = λ v t h. (refl, refl);
  get_in_page = λ r t h ne. (ground arith, refl, refl);
  put_in_page = λ r v t h ne hv. rw (ne_test r 0x16 ne) (refl, refl);
}

paged-Refines_example :
    Refines
      (paged (bus_of paged_phy) (negsuc 0) 0x16)
      (page_space plain_space 0xffff)
      (λ r. IsRegister r × (r ≢ 0x16))
      (Holds paged_phy-IsPaged.core (λ s t. s ≡ t))
paged-Refines_example =
    paged-Refines (bus_of-Refines paged_phy) (negsuc 0) 0x16 (omega arith) paged_phy-IsPaged

record ExtPhy : Type 0 where
  selected : ℕ
  page : ℕ
  regs : ℕ × ℕ → ℕ

abbrev ext_phy : Device ℕ ExtPhy
ext_phy = record {
  get = λ r t. (t.regs (t.page, r), t);
  put = λ r v t.
      if r == 0x1f
      then record t { selected = v }
      else if t.selected == 7
      then (if r == 0x1e
          then record t { page = v }
          else record t { regs = plain_space.put (t.page, r) v t.regs })
      else t;
}

ext_phy-IsExtended : IsExtended ext_phy plain_space
ext_phy-IsExtended = record {
  core = λ t. t.regs;
  selected = λ t. t.selected;
  page = λ t. t.page;
  put_select = λ v t h. (refl, refl, refl);
  put_page = λ v t h z. rw z (refl, refl, refl);
  get_in_page = λ r t h z. (refl, refl);
  put_in_page = λ r v t h hv z. rw (ne_test r 0x1f (omega arith), z, ne_test r 0x1e (omega arith));
}

ext_page-Refines_example :
    Refines
      (ext_page (bus_of ext_phy) (pos 0x12c))
      (page_space plain_space 0x2c)
      (λ r. r < 0x1e)
      (HoldsPlain ext_phy-IsExtended (λ s t. s ≡ t))
ext_page-Refines_example = ext_page-Refines (bus_of-Refines ext_phy) ext_phy-IsExtended (pos 0x12c)

record WindowPhy : Type 0 where
  pointer : ℕ
  regs : ℕ → ℕ

abbrev flat_space : Device ℕ (ℕ → ℕ)
flat_space = record { get = λ r m. (m r, m); put = λ r v m q. if r == q then v else m q }

abbrev window_phy : Device ℕ WindowPhy
window_phy = record {
  get = λ r t. (t.regs t.pointer, t);
  put = λ r v t.
      if r == 0x1e
      then record t { pointer = v }
      else record t { regs = flat_space.put t.pointer v t.regs };
}

window_phy-HasWindow : HasWindow window_phy 0x1e 0x1f flat_space
window_phy-HasWindow = record {
  core = λ t. t.regs;
  pointer = λ t. t.pointer;
  put_address = λ v t h. (refl, refl);
  get_data = λ t. (refl, refl);
  put_data = λ v t h. refl;
}

-- A bus on which no read is answered; its state is the value last written.
abbrev deaf : Bus ℕ ℕ
deaf = record { read = λ r s. (err (os_error 5), s); write = λ r v s. (ok tt, v) }

deaf_arms : ext_arm deaf (pos 4) 9 ≡ (ok tt, 4)
unfolding ext_arm
deaf_arms = refl

ext_page_releases_example :
    ((ext_page deaf (pos 4)).read 2 9 ≡ (err (os_error 5), 0))
    × ((ext_page deaf (pos 4)).write 2 8 9 ≡ (ok tt, 0))
ext_page_releases_example = ext_page_releases deaf (pos 4) 9 4 2 8 deaf_arms (λ t. inl refl)

-- A bus that refuses to write register 0x1e.
abbrev stubborn : Bus ℕ ℕ
stubborn = record {
  read = λ r s. (ok s, s);
  write = λ r v s. if r == 0x1e then (err (os_error 5), s) else (ok tt, v);
}

ext_page_left_selected_example :
    ((ext_page stubborn (pos 4)).read 2 0 ≡ (err (os_error 5), 7))
    × ((ext_page stubborn (pos 4)).write 2 8 0 ≡ (err (os_error 5), 7))
ext_page_left_selected_example =
    ext_page_left_selected stubborn (pos 4) 0 7 2 8 7 (os_error 5) refl refl

-- A transport that counts its reads and always shows the busy bit.
abbrev jammed : Bus (ℕ × ℕ) ℕ
jammed = record { read = λ a s. (ok 0x8000, suc s); write = λ a v s. (ok tt, 100) }

jammed-StaysBusy : StaysBusy (jammed.read (6, 0)) (λ ms s. (ok tt, s)) (λ k s. s ≡ k)
jammed-StaysBusy = record {
  polls = λ k s e. record { value = 0x8000; state = suc s; runs = refl; holds = (refl, rw e) };
  rests = λ k s e. record { value = tt; state = s; runs = refl; holds = e };
}

switch_stuck_example :
    GivesUp (switch_read (λ ms s. (ok tt, s)) jammed 6 1 2) 0 "SMI" (λ s. s ≡ 16)
    × GivesUp (switch_write (λ ms s. (ok tt, s)) jammed 6 1 2 3) 0 "SMI" (λ s. s ≡ 16)
switch_stuck_example = switch_stuck jammed jammed-StaysBusy (omega arith) 1 2 3 0 refl

record ScratchSwitch : Type 0 where
  pointer : ℕ
  bytes : ℕ → ℕ

abbrev scratch_switch : Device (ℕ × ℕ) ScratchSwitch
scratch_switch = record {
  get = λ a t. (t.bytes t.pointer % 2 ^ 8, t);
  put = λ a w t.
      if w / 2 ^ 15 == 0
      then record t { pointer = w / 2 ^ 8 }
      else record t { bytes = flat_space.put (w / 2 ^ 8 % 2 ^ 7) (w % 2 ^ 8) t.bytes };
}

-- Its bytes, of eight bits each.
abbrev byte_space : Device ℕ (ℕ → ℕ)
byte_space = record { get = λ r m. (m r % 2 ^ 8, m); put = flat_space.put }

scratch_switch-IsScratch : IsScratch scratch_switch byte_space
scratch_switch-IsScratch = record {
  core = λ t. t.bytes;
  pointer = λ t. t.pointer;
  put_pointer = λ w t z. rw z (refl, refl);
  put_update = λ w t h o. rw o;
  get_byte = λ t. (omega arith, refl);
}

scratch-Returns_example :
    Returns
      (scratch_read (bus_of scratch_switch) 0x63)
      (record { pointer = 0; bytes = λ i. i })
      (λ b s'. (b ≡ 0x63) × ((t : ScratchSwitch) × (s' ≡ t) × (t.bytes ≡ (λ i. i))))
    × Returns
        (scratch_write (bus_of scratch_switch) 0x63 0x1ff)
        (record { pointer = 0; bytes = λ i. i })
        (λ _ s'. (t : ScratchSwitch) × (s' ≡ t) × (t.bytes ≡ flat_space.put 0x63 0xff (λ i. i)))
unfolding scratch_switch-IsScratch
scratch-Returns_example =
    scratch-Returns (bus_of-Refines scratch_switch) scratch_switch-IsScratch 0x63 0x1ff
      (record { pointer = 0; bytes = λ i. i }) (λ i. i) (omega arith)
      (record { pointer = 0; bytes = λ i. i }, refl, refl)

scratch_read-writes_example :
    scratch_read (bus_of scratch_switch) 0x83 (record { pointer = 0; bytes = λ i. 5 })
    ≡ (do
      scratch_write (bus_of scratch_switch) 3 0
      value ← (bus_of scratch_switch).read (0x1c, 0x1a)
      pure (bit_and value 0xff))
        (record { pointer = 0; bytes = λ i. 5 })
scratch_read-writes_example =
    scratch_read-writes (bus_of scratch_switch) 3 (record { pointer = 0; bytes = λ i. 5 })
      (omega arith)
