-- ===== src/MvPort/Link/Safety.antt =====
-- A port with a PHY or a SERDES in its path is never forced.
use mdioprobe.Exec.{Exec, pure, ◌>>◌}
use mdioprobe.MvPort.Link.{Direction, powered, power_line}
use mdioprobe.MvPort.{Part, Ports}
use mdioprobe.Output.{Session, line}
use mdioprobe.Prelude.Text.{Text}
use mdioprobe.Prelude.{ℕ, Bool, List, [], ◌∷◌}

-- One after the other.
abbrev pub in_turn : {S : Type 0} → List (Exec (Session S) (Unit {0})) → Exec (Session S) (Unit {0})
in_turn [] = pure tt
in_turn (m ∷ ms) = m >> in_turn ms

module _ {S : Type 0} (self : Ports S) where
  -- Each part gets the power word of the direction, and a line says so.
  abbrev pub powering : ℕ → Direction → List (Part S × Bool) → List (Exec (Session S) (Unit {0}))
  powering n what [] = []
  powering n what ((part, aneg) ∷ rest) =
      part.put (powered what aneg part.bmcr)
      ∷ line (power_line self n what part aneg)
      ∷ powering n what rest

module _ {S : Type 0} (self : Ports S) (other : ℕ × ℕ → ℕ → Exec (Session S) (Unit {0})) where
  -- The same ports over a switch with another `write`.
  abbrev pub rewired : Ports S
  rewired = record self { sw = (record (self.sw) { write = other }) }
