-- ===== src/Tests/Buses.antt =====
-- The addressing theorems at a switch of three polls behind SMI address 6, with PHYs that have MMD
-- registers behind its Global2 window.
use mdioprobe.Access.Mmd.{IsRegister, mmd_space, Holds, mmd-Refines}
use mdioprobe.Access.{mmd}
use mdioprobe.Bus.{Refines}
use mdioprobe.Marvell.Chain.{
  mmd_chain-Refines, switch-Refines, switch-Refines_single, switch_phy-Refines, one_phy,
}
use mdioprobe.Marvell.Window.{Behind}
use mdioprobe.Marvell.{switch, switch_phy}
use mdioprobe.Prelude.{ℕ, ◌≡◌, refl, arith}
use mdioprobe.Tests.Devices.{
  MmdPhy, mmd_phy, mmd_phy-IsMmd, plain_space, Win, smi, g2, smi-IsWindow, g2-IsWindow, host_of,
  host_of-Answers,
}
use mdioprobe.Transport.Laws.{IsPair, OfDevice, wire-Refines, sleeps_world}
use mdioprobe.Transport.{Host, wire, sleep_ms}
use mdioprobe.Bus.{Bus, Device}
use mdioprobe.Exec.{ok}

-- Every PHY address holds the same PHY.
abbrev phys : Device (ℕ × ℕ) MmdPhy
phys = record { get = λ a t. mmd_phy.get a.1 t; put = λ a v t. mmd_phy.put a.1 v t }

abbrev probe : Host (Win (Win MmdPhy))
probe = host_of (smi (g2 phys))

mmd_chain-Refines_example :
    Refines
      (mmd (switch_phy (sleep_ms probe) (switch (sleep_ms probe) (wire probe) 6) 3) 7)
      (mmd_space plain_space 7)
      (λ _. Unit {0})
      (Holds mmd_phy-IsMmd.core
        (Behind (g2-IsWindow phys) (Behind (smi-IsWindow (g2 phys)) (OfDevice (λ d t. d ≡ t)))))
mmd_chain-Refines_example =
    mmd_chain-Refines (wire-Refines (host_of-Answers (smi (g2 phys)))) (sleep_ms probe)
      (sleeps_world (host_of-Answers (smi (g2 phys)))) 6 3 7 (omega arith) (omega arith)
      (omega arith) (smi-IsWindow (g2 phys)) (g2-IsWindow phys) mmd_phy-IsMmd

switch-Refines_example :
    Refines
      (switch (sleep_ms probe) (wire probe) 6)
      (g2 phys)
      IsPair
      (Behind (smi-IsWindow (g2 phys)) (OfDevice (λ d t. d ≡ t)))
switch-Refines_example =
    switch-Refines (wire-Refines (host_of-Answers (smi (g2 phys)))) (sleep_ms probe)
      (sleeps_world (host_of-Answers (smi (g2 phys)))) 6 (omega arith) (omega arith)
      (smi-IsWindow (g2 phys))

-- A single-chip switch: its Global2 is a device on the wire.
abbrev single : Host (Win MmdPhy)
single = host_of (g2 phys)

switch_phy-Refines_example :
    Refines
      (switch_phy (sleep_ms single) (switch (sleep_ms single) (wire single) 0) 3)
      (one_phy phys 3)
      IsRegister
      (Behind (g2-IsWindow phys) (OfDevice (λ d t. d ≡ t)))
switch_phy-Refines_example =
    switch_phy-Refines
      (switch-Refines_single (wire-Refines (host_of-Answers (g2 phys))) (sleep_ms single))
      (sleep_ms single) (sleeps_world (host_of-Answers (g2 phys))) 3 (omega arith)
      (g2-IsWindow phys)

-- A bus over a device itself.
abbrev pub bus_of : {I T : Type 0} → Device I T → Bus I T
bus_of dev = record {
  read = λ r t. let a = dev.get r t in (ok a.0, a.1);
  write = λ r v t. (ok tt, dev.put r v t);
}

pub bus_of-Refines :
    {I T : Type 0} {P : I → Type 0} (dev : Device I T) → Refines (bus_of dev) dev P (λ s t. s ≡ t)
bus_of-Refines dev = record {
  reads = λ r s t h e. record {
    value = (dev.get r s).0;
    state = (dev.get r s).1;
    runs = refl;
    holds = rw e (refl, refl);
  };
  writes =
      λ r v s t h hv e. record { value = tt; state = dev.put r v s; runs = refl; holds = rw e };
}

mmd-Refines_example :
    Refines
      (mmd (bus_of mmd_phy) 39)
      (mmd_space plain_space 39)
      (λ _. Unit {0})
      (Holds mmd_phy-IsMmd.core (λ s t. s ≡ t))
mmd-Refines_example = mmd-Refines (bus_of-Refines mmd_phy) mmd_phy-IsMmd 39
