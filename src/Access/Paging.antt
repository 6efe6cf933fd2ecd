-- ===== src/Access/Paging.antt =====
-- `Paged` and `ExtPage` over a bus whose device has the page or address register.
use mdioprobe.Access.Mmd.{IsRegister, Holds}
use native.Mathlib.Nat.{one-le-pow}
use mdioprobe.Access.{paged, extension, ext_arm, ext_release, ext_page}
use mdioprobe.Bus.{Bus, Device, Refines}
use mdioprobe.Exec.Returns.{Returns-bind, Returns-weaken}
use mdioprobe.Prelude.Bits.{and_low}
use mdioprobe.Prelude.Int.{ℤ, pos, negsuc, mask_low}
use mdioprobe.Prelude.{ℕ, ◌^◌, ◌<◌, ◌≡◌, ◌≢◌, ◌∙◌, arith}

pub mask_low-lt : (k : ℕ) (n : ℤ) → mask_low k n < 2 ^ k
mask_low-lt k (pos n) = omega (arith, and_low k n, one-le-pow k 2)
mask_low-lt k (negsuc n) = omega (arith, one-le-pow k 2)

-- Register `select` holds the page, and every other register is one of that page.
pub record IsPaged {T U : Type 0} (dev : Device ℕ T) (select : ℕ) (space : Device (ℕ × ℕ) U)
    : Type 0 where
  pub core : T → U
  pub page : T → ℕ
  pub put_page :
      (v : ℕ) (t : T)
      → v < 2 ^ 16
      → (page (dev.put select v t) ≡ v) × (core (dev.put select v t) ≡ core t)
  pub get_in_page :
      (r : ℕ) (t : T)
      → r < 32
      → r ≢ select
      → ((dev.get r t).0 ≡ (space.get (page t, r) (core t)).0)
        × (core (dev.get r t).1 ≡ (space.get (page t, r) (core t)).1)
        × (page (dev.get r t).1 ≡ page t)
  pub put_in_page :
      (r v : ℕ) (t : T)
      → r < 32
      → r ≢ select
      → v < 2 ^ 16
      → (core (dev.put r v t) ≡ space.put (page t, r) v (core t)) × (page (dev.put r v t) ≡ page t)

-- The registers of one page.
abbrev pub page_space : {U : Type 0} → Device (ℕ × ℕ) U → ℕ → Device ℕ U
page_space space page = record {
  get = λ r u. space.get (page, r) u;
  put = λ r v u. space.put (page, r) v u;
}

module _ {S T U : Type 0} {bus : Bus ℕ S} {dev : Device ℕ T} {space : Device (ℕ × ℕ) U}
    {Shows : S → T → Type 0} (base : Refines bus dev IsRegister Shows) where
  -- Over a bus of a device whose register `select` holds the page, `Paged(bus, page, select)` is
  -- that page: every read and every 16-bit write of a register below 32 but `select` returns and
  -- acts on the register of the page `page & 0xFFFF`. The page may be any integer.
  pub paged-Refines :
      (page : ℤ) (select : ℕ)
      → select < 32
      → (law : IsPaged dev select space)
      → Refines
          (paged bus page select)
          (page_space space (mask_low 16 page))
          (λ r. IsRegister r × (r ≢ select))
          (Holds law.core Shows)
  unfolding paged
  paged-Refines page select hs law =
      let p : ℕ = mask_low 16 page in
      let small : p < 2 ^ 16 = mask_low-lt 16 page in
      record {
        reads = λ r s u (hr, ne) (t, sh, e).
            Returns-bind (base.writes select p s t hs small sh) λ _ s1 sh1.
              let t1 = dev.put select p t in
              let k = law.put_page p t small in
              let g = rw (k.0, k.1, e) at (law.get_in_page r t1 hr ne) in
              Returns-weaken (base.reads r s1 t1 hr sh1)
                λ v s2 (ve, sh2). (ve ∙ g.0, ((dev.get r t1).1, sh2, g.1));
        writes = λ r v s u (hr, ne) hv (t, sh, e).
            Returns-bind (base.writes select p s t hs small sh) λ _ s1 sh1.
              let t1 = dev.put select p t in
              let k = law.put_page p t small in
              let g = rw (k.0, k.1, e) at (law.put_in_page r v t1 hr ne hv) in
              Returns-weaken (base.writes r v s1 t1 hr hv sh1)
                λ _ s2 sh2. (dev.put r v t1, sh2, g.0);
      }

-- Register 0x1f selects the space: 7 is the extension space, where 0x1e is the page and the other
-- registers are those of the page; 0 is the ordinary one.
pub record IsExtended {T U : Type 0} (dev : Device ℕ T) (space : Device (ℕ × ℕ) U) : Type 0 where
  pub core : T → U
  pub selected : T → ℕ
  pub page : T → ℕ
  pub put_select :
      (v : ℕ) (t : T)
      → v < 2 ^ 16
      → (selected (dev.put 0x1f v t) ≡ v)
        × (page (dev.put 0x1f v t) ≡ page t)
        × (core (dev.put 0x1f v t) ≡ core t)
  pub put_page :
      (v : ℕ) (t : T)
      → v < 2 ^ 16
      → selected t ≡ 7
      → (selected (dev.put 0x1e v t) ≡ 7)
        × (page (dev.put 0x1e v t) ≡ v)
        × (core (dev.put 0x1e v t) ≡ core t)
  pub get_in_page :
      (r : ℕ) (t : T)
      → r < 0x1e
      → selected t ≡ 7
      → ((dev.get r t).0 ≡ (space.get (page t, r) (core t)).0)
        × (core (dev.get r t).1 ≡ (space.get (page t, r) (core t)).1)
  pub put_in_page :
      (r v : ℕ) (t : T)
      → r < 0x1e
      → v < 2 ^ 16
      → selected t ≡ 7
      → core (dev.put r v t) ≡ space.put (page t, r) v (core t)

-- A world shows registers `u` in a device whose ordinary space is selected.
abbrev pub HoldsPlain :
    {S T U : Type 0} {dev : Device ℕ T} {space : Device (ℕ × ℕ) U}
    → IsExtended dev space
    → (S → T → Type 0)
    → S
    → U
    → Type 0
HoldsPlain {T = T} law Shows s u = (t : T) × Shows s t × (law.core t ≡ u) × (law.selected t ≡ 0)

module _ {S T U : Type 0} {bus : Bus ℕ S} {dev : Device ℕ T} {space : Device (ℕ × ℕ) U}
    {Shows : S → T → Type 0} (base : Refines bus dev IsRegister Shows)
    (law : IsExtended dev space) where
  -- Over a bus of a device with an extension space, `ExtPage(bus, page)` is the extension page
  -- `page & 0xFF`: every read and every 16-bit write of a register below 0x1e returns and acts on
  -- that page's register, and leaves the device with its ordinary space selected, as it was
  -- before.
  pub ext_page-Refines :
      (page : ℤ)
      → Refines
          (ext_page bus page)
          (page_space space (mask_low 8 page))
          (λ r. r < 0x1e)
          (HoldsPlain law Shows)
  unfolding ext_page ext_arm ext_release
  ext_page-Refines page =
      let p : ℕ = mask_low 8 page in
      let small : p < 2 ^ 16 = omega (arith, mask_low-lt 8 page) in
      record {
        reads = λ r s u hr (t, sh, e, z).
            let t1 = dev.put 0x1f extension t in
            let k1 = law.put_select extension t (omega arith) in
            let t2 = dev.put 0x1e p t1 in
            let k2 = law.put_page p t1 small k1.0 in
            let g = rw (k2.1, k2.2, k1.2, e) at (law.get_in_page r t2 hr k2.0) in
            let t3 = (dev.get r t2).1 in
            let k3 = law.put_select 0 t3 (omega arith) in
            Returns-bind
              (Returns-bind (base.writes 0x1f extension s t (omega arith) (omega arith) sh)
                λ _ s1 sh1. base.writes 0x1e p s1 t1 (omega arith) small sh1)
              λ _ s2 sh2.
                let a = base.reads r s2 t2 (omega arith) sh2 in
                let b = base.writes 0x1f 0 a.state t3 (omega arith) (omega arith) a.holds.1 in
                record {
                  value = a.value;
                  state = b.state;
                  runs = rw (a.runs, b.runs);
                  holds = (a.holds.0 ∙ g.0, (dev.put 0x1f 0 t3, b.holds, k3.2 ∙ g.1, k3.0));
                };
        writes = λ r v s u hr hv (t, sh, e, z).
            let t1 = dev.put 0x1f extension t in
            let k1 = law.put_select extension t (omega arith) in
            let t2 = dev.put 0x1e p t1 in
            let k2 = law.put_page p t1 small k1.0 in
            let g = rw (k2.1, k2.2, k1.2, e) at (law.put_in_page r v t2 hr hv k2.0) in
            let t3 = dev.put r v t2 in
            let k3 = law.put_select 0 t3 (omega arith) in
            Returns-bind
              (Returns-bind (base.writes 0x1f extension s t (omega arith) (omega arith) sh)
                λ _ s1 sh1. base.writes 0x1e p s1 t1 (omega arith) small sh1)
              λ _ s2 sh2.
                let a = base.writes r v s2 t2 (omega arith) hv sh2 in
                let b = base.writes 0x1f 0 a.state t3 (omega arith) (omega arith) a.holds in
                record {
                  value = tt;
                  state = b.state;
                  runs = rw (a.runs, b.runs);
                  holds = (dev.put 0x1f 0 t3, b.holds, k3.2 ∙ g, k3.0);
                };
      }
