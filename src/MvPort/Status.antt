-- ===== src/MvPort/Status.antt =====
-- `Ports.status`: what the plain form prints.
use mdioprobe.Exec.{Exec, pure, ◌>>=◌, ◌>>◌, except_os_error}
use mdioprobe.Format.{decimal, hex_padded}
use mdioprobe.MvPort.{
  Ports, port_read, port_name, mode, has, port_status, st_link, st_duplex, st_phy_detect, port_ctrl,
  port_state, state_names,
}
use mdioprobe.Output.{Session, line}
use mdioprobe.Prelude.Text.{Text, codes, concat}
use mdioprobe.Prelude.{
  ℕ, ◌/◌, ◌^◌, List, [], ◌∷◌, Option, none, some, bit_and, get_or, if◌then◌else◌,
}

-- " 1000 full duplex", of a port whose link is up.
abbrev pub speed_text : {S : Type 0} → Ports S → ℕ → Text
speed_text self v =
    if has v st_link
    then concat (
        codes " "
        ∷ self.speed (bit_and (v / 2 ^ 8) 3)
        ∷ codes " "
        ∷ (if has v st_duplex then codes "full duplex" else codes "half duplex")
        ∷ [])
    else []

module _ {S : Type 0} (self : Ports S) where
  abbrev pub status_line : ℕ → ℕ → ℕ → Text
  status_line n v ctl = concat (
      port_name self n
      ∷ codes ": 0x"
      ∷ hex_padded 4 v
      ∷ codes "  "
      ∷ (mode self v).0
      ∷ codes ", link "
      ∷ (if has v st_link then codes "up" else codes "down")
      ∷ speed_text self v
      ∷ codes ", "
      ∷ get_or state_names (bit_and ctl port_state) []
      ∷ (if has v st_phy_detect then codes ", PHY detected" else [])
      ∷ [])

  abbrev pub status_error : ℕ → ℕ → Text
  status_error n errno =
      concat (port_name self n ∷ codes ": ERROR (errno " ∷ decimal errno ∷ codes ")" ∷ [])

  -- Both registers of a port, or the errno of the read that failed.
  abbrev pub read_both : ℕ → Exec (Session S) ((ℕ × ℕ) × Option ℕ)
  read_both n =
      except_os_error
        (do
          v ← port_read self n port_status
          ctl ← port_read self n port_ctrl
          pure ((v, ctl), none))
        (λ errno. pure ((0, 0), some errno))

  unfoldable pub show_status : ℕ → (ℕ × ℕ) × Option ℕ → Exec (Session S) (Unit {0})
  show_status n (pair, some errno) = line (status_error n errno)
  show_status n ((v, ctl), none) = line (status_line n v ctl)

  -- `Ports.status`
  unfoldable pub status : List ℕ → Exec (Session S) (Unit {0})
  unfolding show_status
  status [] = pure tt
  status (n ∷ ports) = do answer ← read_both n; show_status n answer; status ports
