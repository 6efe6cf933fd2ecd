-- ===== src/Probe/Command/Completes.antt =====
-- A dead address, or a bus on which nothing answers, does not end `probe`.
use mdioprobe.Access.{phy_bus}
use mdioprobe.Bus.{Bus}
use mdioprobe.Exec.Safe.{
  IsSoft, Ends, bind-IsSoft, bind-Ends, then-Ends, pure-IsSoft, pure-Ends, lift-Ends, except-Ends,
}
use mdioprobe.Exec.{Exec, ok}
use mdioprobe.Format.{decimal, decimal_2, digits}
use mdioprobe.Output.{Session, line}
use mdioprobe.Parser.Spec.{ranged-decimal}
use mdioprobe.Parser.Numbers.{IsDigit, digits-All}
use mdioprobe.Parser.{range}
use mdioprobe.Prelude.Text.{Text, text_eq, codes}
use mdioprobe.Prelude.{
  ℕ, zero, suc, ◌+◌, ◌++◌, ◌<◌, ◌≡◌, refl, List, [], ◌∷◌, Option, none, some, false, Bool-cases,
  inl, inr, arith, ◌==◌, All,
}
use mdioprobe.Probe.Command.{probe_plain, cmd_probe}
use mdioprobe.Probe.Detail.{
  detail, detail_answer, detail_value, say_control, detail_probe, detail_probes, show_switches,
}
use mdioprobe.Probe.Identify.{ChipDb, read_identity}
use mdioprobe.Probe.Sweep.{
  Tally, attempt, sweep, sweep_one, sweep_answer, sweep_from, headline, show_candidates, pass_one,
  pass_answer, pass_from, switch_pass, say_mute, say_switches, is_idle,
}
use mdioprobe.Probe.Switches.{Candidate, switch_probes, lookup_switch}
use mdioprobe.Probe.{lookup_phy}

-- Every record of the tables can be read.
pub record IsChipDb (db : ChipDb) : Type 0 where
  pub phy_found : (ident : ℕ) → (r : Option Text) × (lookup_phy db.phy ident ≡ ok r)
  pub switch_found :
      (value address register : ℕ)
      → (l : List Candidate) × (lookup_switch db.switch value address register ≡ ok l)
  pub probes_found : (l : List (ℕ × ℕ)) × (switch_probes db.switch ≡ ok l)

not_mmd : (s : Text) → All (IsDigit 10) s → text_eq s (codes "mmd") ≡ false
not_mmd [] h = refl
not_mmd (c ∷ s) h = ground (arith, h.0.value_lt)

decimal-not_mmd : (n : ℕ) → text_eq (decimal n) (codes "mmd") ≡ false
unfolding decimal
decimal-not_mmd n = not_mmd (digits 10 n) (digits-All 10 (omega arith) (omega arith) n)

module _ {S : Type 0} where
  line-Ends : (text : Text) → Ends {S = Session S} (line text)
  line-Ends text s = (tt, record s { lines = s.lines ++ (text ∷ []) }, refl)

  attempt-Ends : {A : Type 0} {m : Exec (Session S) A} → IsSoft m → Ends (attempt m)
  attempt-Ends h = except-Ends (bind-IsSoft h (λ a. pure-IsSoft (some a))) (λ n. pure-Ends none)

  headline-Ends : (n : ℕ) → Ends {S = Session S} (headline n)
  headline-Ends zero = then-Ends (line-Ends []) (line-Ends _)
  headline-Ends (suc n) = pure-Ends tt

  show_candidates-Ends :
      (l : List Candidate) (shown address register value : ℕ)
      → Ends {S = Session S} (show_candidates shown address register value l)
  unfolding show_candidates
  show_candidates-Ends [] shown address register value = pure-Ends shown
  show_candidates-Ends (c ∷ cs) shown address register value =
      then-Ends (headline-Ends shown)
        (then-Ends (line-Ends _) (show_candidates-Ends cs (shown + 1) address register value))

  show_switches-Ends :
      (l : List Candidate) (register value : ℕ)
      → Ends {S = Session S} (show_switches register value l)
  unfolding show_switches
  show_switches-Ends [] register value = pure-Ends tt
  show_switches-Ends (c ∷ cs) register value =
      then-Ends (line-Ends _) (show_switches-Ends cs register value)

  say_mute-Ends : (found : ℕ) (mute : List ℕ) → Ends {S = Session S} (say_mute found mute)
  unfolding say_mute
  say_mute-Ends found (a ∷ mute) = then-Ends (line-Ends _) (line-Ends _)
  say_mute-Ends zero [] = line-Ends _
  say_mute-Ends (suc n) [] = pure-Ends tt

  say_switches-Ends : (shown : ℕ) (mute : List ℕ) → Ends {S = Session S} (say_switches shown mute)
  say_switches-Ends zero [] = line-Ends _
  say_switches-Ends zero (a ∷ mute) = pure-Ends tt
  say_switches-Ends (suc n) [] = pure-Ends tt
  say_switches-Ends (suc n) (a ∷ mute) = pure-Ends tt

module _ {S : Type 0} (t : Bus (ℕ × ℕ) (Session S)) (db : ChipDb)
    (reads : (a : ℕ × ℕ) → IsSoft (t.read a)) (tables : IsChipDb db) where
  identity-Ends : (a : ℕ) → Ends (read_identity (phy_bus t a))
  unfolding read_identity phy_bus
  identity-Ends a =
      bind-Ends
        (attempt-Ends
          (bind-IsSoft (reads (a, 2)) (λ x. bind-IsSoft (reads (a, 3)) (λ y. pure-IsSoft (x, y)))))
        (λ p. pure-Ends _)

  sweep_answer-Ends :
      (tally : Tally) (a : ℕ) (p : Option (ℕ × ℕ)) → Ends (sweep_answer t db tally a p)
  unfolding sweep_answer phy_bus
  sweep_answer-Ends tally a none = bind-Ends (attempt-Ends (reads (a, 0))) (λ o. pure-Ends _)
  sweep_answer-Ends tally a (some (x, y)) =
      bind-Ends (lift-Ends (tables.phy_found _)) (λ name. then-Ends (line-Ends _) (pure-Ends _))

  sweep_from-Ends : (l : List ℕ) (tally : Tally) → Ends (sweep_from t db tally l)
  unfolding sweep_from sweep_one
  sweep_from-Ends [] tally = pure-Ends tally
  sweep_from-Ends (a ∷ rest) tally =
      bind-Ends (bind-Ends (identity-Ends a) (sweep_answer-Ends tally a)) (sweep_from-Ends rest)

  pass_answer-Ends : (shown a r : ℕ) (o : Option ℕ) → Ends (pass_answer t db shown a r o)
  unfolding pass_answer
  pass_answer-Ends shown a r none = pure-Ends shown
  pass_answer-Ends shown a r (some value) = elim (Bool-cases (is_idle value)) [
    | inl e ↦ rw e (pure-Ends shown)
    | inr e ↦ rw e (
        bind-Ends (lift-Ends (tables.switch_found value a r))
          (λ l. show_candidates-Ends l shown a r value))
  ]

  pass_from-Ends : (l : List (ℕ × ℕ)) (shown : ℕ) → Ends (pass_from t db shown l)
  unfolding pass_from pass_one phy_bus
  pass_from-Ends [] shown = pure-Ends shown
  pass_from-Ends ((a, r) ∷ ps) shown =
      bind-Ends (bind-Ends (attempt-Ends (reads (a, r))) (pass_answer-Ends shown a r))
        (pass_from-Ends ps)

  sweep-Ends : Ends (sweep t db)
  unfolding sweep switch_pass
  sweep-Ends = bind-Ends (sweep_from-Ends (range 0 32) (record { found = 0; mute = [] })) (λ tally.
      then-Ends (line-Ends (decimal tally.found ++ codes " device(s) answered with an identifier"))
        (then-Ends (say_mute-Ends tally.found tally.mute) (
          bind-Ends (bind-Ends (lift-Ends tables.probes_found) (λ l. pass_from-Ends l 0))
            (λ shown. say_switches-Ends shown tally.mute))))

  say_control-Ends : (o : Option ℕ) → Ends {S = Session S} (say_control o)
  unfolding say_control
  say_control-Ends none = line-Ends _
  say_control-Ends (some value) = elim (Bool-cases (value == 0xffff)) [
    | inl e ↦ rw e (line-Ends _)
    | inr e ↦ rw e (then-Ends (line-Ends _) (then-Ends (line-Ends _) (line-Ends _)))
  ]

  detail_answer-Ends : (a : ℕ) (p : Option (ℕ × ℕ)) → Ends (detail_answer t db a p)
  unfolding detail_answer phy_bus
  detail_answer-Ends a none = bind-Ends (attempt-Ends (reads (a, 0))) say_control-Ends
  detail_answer-Ends a (some (x, y)) = bind-Ends (lift-Ends (tables.phy_found _)) (λ name.
      then-Ends (line-Ends _) (
        then-Ends (line-Ends _) (
          then-Ends (line-Ends _) (
            then-Ends (line-Ends _)
              (then-Ends (line-Ends _) (then-Ends (line-Ends _) (line-Ends _)))))))

  detail_value-Ends : (a r : ℕ) (o : Option ℕ) → Ends (detail_value t db a r o)
  unfolding detail_value
  detail_value-Ends a r none = pure-Ends tt
  detail_value-Ends a r (some value) =
      bind-Ends (lift-Ends (tables.switch_found value a r)) (λ l. show_switches-Ends l r value)

  detail_probe-Ends : (a : ℕ) (p : ℕ × ℕ) → Ends (detail_probe t db a p)
  unfolding detail_probe phy_bus
  detail_probe-Ends a (b, r) = elim (Bool-cases (b == a)) [
    | inl e ↦ rw e (bind-Ends (attempt-Ends (reads (a, r))) (detail_value-Ends a r))
    | inr e ↦ rw e (pure-Ends tt)
  ]

  detail_probes-Ends : (l : List (ℕ × ℕ)) (a : ℕ) → Ends (detail_probes t db a l)
  unfolding detail_probes
  detail_probes-Ends [] a = pure-Ends tt
  detail_probes-Ends (p ∷ ps) a = then-Ends (detail_probe-Ends a p) (detail_probes-Ends ps a)

  detail-Ends : (a : ℕ) → Ends (detail t db a)
  unfolding detail
  detail-Ends a = bind-Ends (identity-Ends a) (λ p.
      then-Ends (line-Ends (codes "phy " ++ decimal_2 a)) (
        then-Ends (detail_answer-Ends a p)
          (bind-Ends (lift-Ends tables.probes_found) (λ l. detail_probes-Ends l a))))

  -- Over a transport whose reads raise nothing but `OSError`s, in whatever order answers and failures
  -- come, and with tables whose records can all be read, `probe` and `probe <address>`, the address
  -- below 32 in decimal, run to their end: no read that fails and no table ends them by an exception.
  pub cmd_probe-Ends :
      (a : ℕ)
      → a < 32
      → (c : Session S)
      → ((c' : Session S) × (cmd_probe t db [] c ≡ (ok tt, c')))
        × ((c' : Session S) × (cmd_probe t db (decimal a ∷ []) c ≡ (ok tt, c')))
  unfolding cmd_probe probe_plain
  cmd_probe-Ends a h c =
      let (u, c1, e) = sweep-Ends c in
      let (v, c2, f) = detail-Ends a c in
      (
        (c1, e),
        (c2, rw (decimal-not_mmd a, ranged-decimal a 0 31 "address" (omega arith) (omega arith)) f),
      )
