-- ===== src/Tests/Devices.antt =====
-- Small devices that behave as the hypotheses of the addressing theorems say.
use mdioprobe.Access.Mmd.{IsMmd}
use mdioprobe.Bus.{Device}
use mdioprobe.Exec.{ok}
use mdioprobe.Marvell.Window.{IsWindow}
use mdioprobe.Prelude.{ℕ, ◌-◌, ◌/◌, ◌%◌, ◌^◌, ◌≡◌, refl, arith, ◌&&◌, ◌==◌, if◌then◌else◌}
use mdioprobe.Transport.Laws.{Answers}
use mdioprobe.Transport.{Host}

abbrev update : (ℕ × ℕ → ℕ) → ℕ × ℕ → ℕ → ℕ × ℕ → ℕ
update m a v b = if a.0 == b.0 && a.1 == b.1 then v else m b

-- A register file.
abbrev pub plain_space : Device (ℕ × ℕ) (ℕ × ℕ → ℕ)
plain_space = record { get = λ a m. (m a, m); put = λ a v m. update m a v }

-- A PHY with MMD registers and nothing else.
pub record MmdPhy : Type 0 where
  pub control : ℕ
  pub address : ℕ → ℕ
  pub space : ℕ × ℕ → ℕ

abbrev pub mmd_put : ℕ → ℕ → MmdPhy → MmdPhy
mmd_put r v t =
    if r == 0x0d
    then record t { control = v }
    else if r == 0x0e
    then (if t.control / 2 ^ 14 == 0
        then record t { address = λ d. if d == t.control % 32 then v else t.address d }
        else record t { space = update t.space (t.control % 32, t.address (t.control % 32)) v })
    else t

abbrev pub mmd_phy : Device ℕ MmdPhy
mmd_phy = record {
  get = λ r t. (t.space (t.control % 32, t.address (t.control % 32)), t);
  put = mmd_put;
}

pub mmd_phy-IsMmd : IsMmd mmd_phy plain_space
mmd_phy-IsMmd = record {
  core = λ t. t.space;
  control = λ t. t.control;
  address = λ t. t.address;
  put_control = λ v t h. (refl, refl, refl);
  put_address = λ v t h z. rw z (refl, ground arith, refl);
  put_data = λ v t h o. rw o;
  get_data = λ t o. (refl, refl);
}

-- A command window that needs three polls for each command.
pub record Win (U : Type 0) : Type 0 where
  pub inner : U
  pub latch : ℕ
  pub busy : ℕ

module _ {U : Type 0} (a cmd data_at : ℕ) (sub : Device (ℕ × ℕ) U) where
  abbrev run_command : ℕ → Win U → Win U
  run_command v t =
      let at : ℕ × ℕ = (v / 2 ^ 5 % 32, v % 32) in
      if v / 2 ^ 10 == 38
      then (let r = sub.get at t.inner in record { inner = r.1; latch = r.0; busy = 3 })
      else if v / 2 ^ 10 == 37
      then record { inner = sub.put at t.latch t.inner; latch = t.latch; busy = 3 }
      else t

  abbrev win_put : ℕ × ℕ → ℕ → Win U → Win U
  win_put i v t =
      if i.0 == a && i.1 == cmd
      then run_command v t
      else if i.0 == a && i.1 == data_at
      then record t { latch = v }
      else t

  abbrev win_get : ℕ × ℕ → Win U → ℕ × Win U
  win_get i t =
      if i.0 == a && i.1 == cmd
      then (if t.busy == 0 then 0 else 0x8000, record t { busy = t.busy - 1 })
      else (t.latch, t)

  abbrev pub win_device : Device (ℕ × ℕ) (Win U)
  win_device = record { get = win_get; put = win_put }

abbrev pub smi : {U : Type 0} → Device (ℕ × ℕ) U → Device (ℕ × ℕ) (Win U)
smi = win_device 6 0 1

abbrev pub g2 : {U : Type 0} → Device (ℕ × ℕ) U → Device (ℕ × ℕ) (Win U)
g2 = win_device 0x1c 0x18 0x19

pub smi-IsWindow :
    {U : Type 0} (sub : Device (ℕ × ℕ) U) → IsWindow (smi sub) (6, 0) (6, 1) sub (λ t. t)
smi-IsWindow sub = record {
  core = λ t. t.inner;
  latch = λ t. t.latch;
  busy = λ t. t.busy;
  polled = λ t. (ground arith, ground arith, refl, refl, refl);
  rested = λ t. (omega arith, refl, refl);
  put_data = λ v t h z. (z, refl, refl);
  get_data = λ t z. (refl, z, refl);
  put_read = λ v t h z o. rw o (omega arith, refl, refl);
  put_write = λ v t h z o. rw o (omega arith, refl);
}

pub g2-IsWindow :
    {U : Type 0} (sub : Device (ℕ × ℕ) U) → IsWindow (g2 sub) (0x1c, 0x18) (0x1c, 0x19) sub (λ t. t)
g2-IsWindow sub = record {
  core = λ t. t.inner;
  latch = λ t. t.latch;
  busy = λ t. t.busy;
  polled = λ t. (ground arith, ground arith, refl, refl, refl);
  rested = λ t. (omega arith, refl, refl);
  put_data = λ v t h z. (z, refl, refl);
  get_data = λ t z. (refl, z, refl);
  put_read = λ v t h z o. rw o (omega arith, refl, refl);
  put_write = λ v t h z o. rw o (omega arith, refl);
}

-- A host that answers every access as the device does.
abbrev pub host_of : {T : Type 0} → Device (ℕ × ℕ) T → Host T
host_of dev = record {
  c22_read = λ phy reg t. let r = dev.get (phy, reg) t in (ok r.0, r.1);
  c22_write = λ phy reg v t. (ok tt, dev.put (phy, reg) v t);
  sleep_ms = λ ms t. t;
}

pub host_of-Answers :
    {T : Type 0} (dev : Device (ℕ × ℕ) T) → Answers (host_of dev) dev (λ t. t) (λ d t. d ≡ t)
host_of-Answers dev = record {
  reads = λ phy reg d t hp hr e. record {
    value = (dev.get (phy, reg) d).0;
    state = (dev.get (phy, reg) d).1;
    runs = refl;
    holds = rw e (refl, refl);
  };
  writes = λ phy reg v d t hp hr hv e. record {
    value = tt;
    state = dev.put (phy, reg) v d;
    runs = refl;
    holds = rw e;
  };
  sleeps = λ d t e. e;
}
