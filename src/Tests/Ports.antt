-- ===== src/Tests/Ports.antt =====
-- Port commands on a switch of seven ports at SMI addresses 16 and up.
use mdioprobe.Bus.{Bus, Refines, memory}
use mdioprobe.Exec.Returns.{Returns}
use mdioprobe.Exec.{ok, err, command_error, formatted, pure, ◌>>=◌, ◌>>◌}
use mdioprobe.MvPort.Link.Bits.{link_bits}
use mdioprobe.MvPort.Link.{down, powered, forced}
use mdioprobe.MvPort.Settings.Bits.{state_lem, After}
use mdioprobe.MvPort.Settings.{state}
use mdioprobe.MvPort.Verbs.Split.{take_verb_lem, port_list-Within, rejoined, no_verb}
use mdioprobe.MvPort.Verbs.{take_verb, port_list, all_of}
use mdioprobe.MvPort.{Part, Ports, phy}
use mdioprobe.Output.{Session}
use mdioprobe.Parser.Range.{Within}
use mdioprobe.Parser.{range, spec}
use mdioprobe.Prelude.Masks.{bit_at}
use mdioprobe.Prelude.Text.{Text, codes}
use mdioprobe.Prelude.{
  ℕ, zero, suc, ◌+◌, ◌^◌, ◌<◌, ◌≡◌, ◌≢◌, refl, arith, List, [], ◌∷◌, ◌++◌, Option, none, some, All,
  true, false,
}
use mdioprobe.Transport.Laws.{IsPair}

-- A world that is a memory of registers.
abbrev registers : Bus (ℕ × ℕ) (Session (ℕ × ℕ → ℕ))
registers = record {
  read = λ a c. (ok (c.world a), c);
  write = λ a v c. (ok tt, record c { world = memory.put a v c.world });
}

abbrev one_part : Part (ℕ × ℕ → ℕ)
one_part = record { bmcr = 0x1940; put = λ v. pure tt; label = codes "phy" }

abbrev seven : Ports (ℕ × ℕ → ℕ)
seven = record {
  sw = registers;
  sw_addr = 6;
  cmd = codes "mv88e6240";
  base = 16;
  count = 7;
  rgmii_ports = 5 ∷ 6 ∷ [];
  speed = λ k. codes "1000";
  cmode = λ k. some ((codes "internal PHY", phy), (codes "internal PHY", phy));
  phy_at = λ n. pure (some one_part);
  serdes_at = λ n. pure none;
  wide = false;
}

abbrev empty : Session (ℕ × ℕ → ℕ)
empty = record { world = λ a. 0x007f; lines = [] }

registers-Refines : Refines registers memory IsPair (λ c m. (a : ℕ × ℕ) → c.world a ≡ m a)
registers-Refines = record {
  reads = λ i s t h sh. record { value = s.world i; state = s; runs = refl; holds = (sh i, sh) };
  writes = λ i v s t h k sh. record {
    value = tt;
    state = record s { world = memory.put i v s.world };
    runs = refl;
    holds = λ a. ground (arith, sh a);
  };
}

state_lem_example :
    Returns
      (state seven (0 ∷ 3 ∷ []) (codes "forwarding"))
      empty
      (λ _ c'. After (λ s m. (a : ℕ × ℕ) → s a ≡ m a) 16 3 (0 ∷ 3 ∷ []) (λ a. 0x007f) c')
state_lem_example =
    state_lem seven (λ s m. (a : ℕ × ℕ) → s a ≡ m a) (codes "forwarding") 3 (0 ∷ 3 ∷ []) empty
      (λ a. 0x007f) registers-Refines refl (omega arith, (omega arith, tt)) (λ a. omega arith)
      (λ a. refl)

link_bits_example :
    (bit_at 11 (powered down true 0x1140) ≡ 1) × (bit_at 11 (forced down 0x1140) ≡ bit_at 11 0x1140)
link_bits_example = link_bits down true 11 0x1140

take_verb_lem_example :
    (rejoined (take_verb (codes "1,3" ∷ codes "state" ∷ codes "forwarding" ∷ []))
      ≡ codes "1,3" ∷ codes "state" ∷ codes "forwarding" ∷ [])
    × (take_verb [] ≡ no_verb [])
    × (take_verb (codes "forwarding" ∷ []) ≡ no_verb (codes "forwarding" ∷ []))
    × (take_verb (
          codes "1,3"
          ∷ codes "state"
          ∷ codes "forwarding"
          ∷ codes "state"
          ∷ codes "forwarding"
          ∷ [])
        ≡ record {
          rest = codes "1,3" ∷ codes "state" ∷ codes "forwarding" ∷ [];
          action = some (codes "state");
          value = some (codes "forwarding");
        })
take_verb_lem_example =
    take_verb_lem (codes "1,3" ∷ codes "state" ∷ codes "forwarding" ∷ []) (codes "state")
      (codes "forwarding")

abbrev two : List ℕ
two = 1 ∷ 3 ∷ []

port_list-Within_example :
    (two ≢ [])
    × All (Within 0 6) two
    × (port_list [] none 7 (codes "usage") ≡ ok (range 0 7))
    × (port_list [] (some (codes "detect")) 7 (codes "usage") ≡ ok (range 0 7))
    × (port_list [] (some (codes "up")) 7 (codes "usage")
        ≡ err (command_error (formatted (all_of (codes "up") 7))))
unfolding port_list spec mdioprobe.Parser.spec_parts mdioprobe.Parser.spec_part
    mdioprobe.Prelude.Text.strip mdioprobe.Parser.ranged mdioprobe.Parser.integer
    mdioprobe.Parser.int_of mdioprobe.Parser.magnitude mdioprobe.Parser.digits_of
port_list-Within_example =
    port_list-Within (codes "1,3" ∷ []) (some (codes "up")) 7 (codes "usage") (codes "up") two
      (omega arith) refl refl
