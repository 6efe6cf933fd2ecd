-- ===== src/Probe/Command/Reads.antt =====
-- `probe` without `mmd` does not write to the bus: it is the same on a bus whose `write` is another.
use mdioprobe.Bus.{Bus}
use mdioprobe.Exec.{Exec, lift, ◌>>=◌, ◌>>◌}
use mdioprobe.Output.{Session, line}
use mdioprobe.Format.{decimal, decimal_2}
use mdioprobe.Probe.Switches.{switch_probes}
use mdioprobe.Parser.{range, ranged}
use mdioprobe.Access.{phy_bus}
use mdioprobe.Prelude.Text.{Text, text_eq, codes}
use mdioprobe.Prelude.{ℕ, List, [], ◌∷◌, ◌++◌, ◌≡◌, refl, Option, none, some, false}
use mdioprobe.Probe.Command.{probe_plain, cmd_probe}
use mdioprobe.Probe.Detail.{detail, detail_answer, detail_probe, detail_probes}
use mdioprobe.Probe.Identify.{ChipDb, read_identity}
use mdioprobe.Probe.Sweep.{
  Tally, sweep, sweep_one, sweep_from, pass_one, pass_from, switch_pass, say_mute, say_switches,
}

module _ {S : Type 0} (t : Bus (ℕ × ℕ) (Session S)) (db : ChipDb)
    (other : ℕ × ℕ → ℕ → Exec (Session S) (Unit {0})) where
  abbrev u : Bus (ℕ × ℕ) (Session S)
  u = record t { write = other }

  identity_reads : (a : ℕ) → read_identity (phy_bus t a) ≡ read_identity (phy_bus u a)
  unfolding read_identity phy_bus
  identity_reads a = refl

  sweep_one_reads : (tally : Tally) (a : ℕ) → sweep_one t db tally a ≡ sweep_one u db tally a
  unfolding sweep_one phy_bus read_identity
  sweep_one_reads tally a = refl

  sweep_from_reads :
      (l : List ℕ) (tally : Tally) → sweep_from t db tally l ≡ sweep_from u db tally l
  unfolding sweep_from
  sweep_from_reads [] tally = refl
  sweep_from_reads (a ∷ rest) tally =
      λ i. sweep_one_reads tally a i >>= λ y. sweep_from_reads rest y i

  pass_one_reads : (shown : ℕ) (p : ℕ × ℕ) → pass_one t db shown p ≡ pass_one u db shown p
  unfolding pass_one phy_bus
  pass_one_reads shown p = refl

  pass_from_reads : (l : List (ℕ × ℕ)) (shown : ℕ) → pass_from t db shown l ≡ pass_from u db shown l
  unfolding pass_from
  pass_from_reads [] shown = refl
  pass_from_reads (p ∷ ps) shown = λ i. pass_one_reads shown p i >>= λ y. pass_from_reads ps y i

  sweep_reads : sweep t db ≡ sweep u db
  unfolding sweep switch_pass
  sweep_reads = λ i. do
    tally ← sweep_from_reads (range 0 32) (record { found = 0; mute = [] }) i
    line (decimal tally.found ++ codes " device(s) answered with an identifier")
    say_mute tally.found tally.mute
    shown ← (lift (switch_probes db.switch) >>= λ probes. pass_from_reads probes 0 i)
    say_switches shown tally.mute

  detail_probe_reads : (a : ℕ) (p : ℕ × ℕ) → detail_probe t db a p ≡ detail_probe u db a p
  unfolding detail_probe phy_bus
  detail_probe_reads a p = refl

  detail_probes_reads : (a : ℕ) (l : List (ℕ × ℕ)) → detail_probes t db a l ≡ detail_probes u db a l
  unfolding detail_probes
  detail_probes_reads a [] = refl
  detail_probes_reads a (p ∷ ps) = λ i. detail_probe_reads a p i >> detail_probes_reads a ps i

  detail_answer_reads :
      (a : ℕ) (pair : Option (ℕ × ℕ)) → detail_answer t db a pair ≡ detail_answer u db a pair
  unfolding detail_answer phy_bus
  detail_answer_reads a none = refl
  detail_answer_reads a (some pair) = refl

  detail_reads : (a : ℕ) → detail t db a ≡ detail u db a
  unfolding detail
  detail_reads a = λ i. do
    pair ← identity_reads a i
    line (codes "phy " ++ decimal_2 a)
    detail_answer_reads a pair i
    probes ← lift (switch_probes db.switch)
    detail_probes_reads a probes i

  plain_reads : (args : List Text) → probe_plain t db args ≡ probe_plain u db args
  unfolding probe_plain
  plain_reads [] = sweep_reads
  plain_reads (a ∷ []) = λ i. lift (ranged a 0 31 "address") >>= λ n. detail_reads n i
  plain_reads (a ∷ b ∷ rest) = refl

  abbrev pub IsPlain : List Text → Type 0
  IsPlain [] = Unit
  IsPlain (a ∷ args) = text_eq a (codes "mmd") ≡ false

  -- Unless its first argument is `mmd`, `probe` writes nothing to the bus, whatever answers there:
  -- with any other `write` in place of the transport's it does the same and prints the same.
  pub cmd_probe-reads :
      (args : List Text)
      → IsPlain args
      → (c : Session S) → cmd_probe t db args c ≡ cmd_probe (record t { write = other }) db args c
  unfolding cmd_probe
  cmd_probe-reads [] h c = λ i. plain_reads [] i c
  cmd_probe-reads (a ∷ args) h c = rw h (λ i. plain_reads (a ∷ args) i c)
