-- ===== src/Probe/Switches/Readable.antt =====
-- A table of switches whose numbers can be read never makes `lookup_switch` raise.
use mdioprobe.Exec.{ok}
use mdioprobe.Prelude.Text.{Text}
use mdioprobe.Prelude.{
  ℕ, ◌+◌, ◌≡◌, refl, List, [], ◌∷◌, ◌++◌, All, bit_and, none, some, if◌then◌else◌, ◌==◌, Bool-cases,
  inl, inr,
}
use mdioprobe.Probe.Switches.{
  Candidate, candidates_at, candidates_from, lookup_switch, is_elsewhere, sw_prod, sw_rev, sw_name,
}
use mdioprobe.Probe.{slice, field, walk}

-- A column of eight digits.
abbrev pub IsNumber : Text → ℕ → Type 0
IsNumber table at = (n : ℕ) × (field table at (at + 8) ≡ ok n)

abbrev pub IsReadable : Text → ℕ × ℕ → Type 0
IsReadable table r =
    IsNumber table r.0 × (IsNumber table (r.0 + sw_prod) × IsNumber table (r.0 + sw_rev))

module _ (table : Text) (value address register : ℕ) where
  candidates_at-found :
      (r : ℕ × ℕ)
      → IsReadable table r
      → (l : List Candidate) × (candidates_at table value address register r ≡ ok l)
  unfolding candidates_at
  candidates_at-found r ((entry, e), ((prod, p), (rev, q))) =
      elim (Bool-cases (is_elsewhere table value address register r.0)) [
        | inl a ↦ ([], rw a refl)
        | inr a ↦ elim (Bool-cases (bit_and value prod == entry)) [
          | inl b ↦ (
            (slice (r.0 + sw_name) r.1 table, if rev == 0 then none else some (bit_and value rev))
                ∷ [],
            rw (a, e, p, b, q) refl,
          )
          | inr b ↦ ([], rw (a, e, p, b) refl)
        ]
      ]

  candidates_from-found :
      (l : List (ℕ × ℕ))
      → All (IsReadable table) l
      → (cs : List Candidate) × (candidates_from table value address register l ≡ ok cs)
  unfolding candidates_from
  candidates_from-found [] h = ([], refl)
  candidates_from-found (r ∷ rs) h =
      let (here, e) = candidates_at-found r h.0 in
      let (more, f) = candidates_from-found rs h.1 in (here ++ more, rw (e, f) refl)

  pub lookup_switch-found :
      All (IsReadable table) (walk table)
      → (cs : List Candidate) × (lookup_switch table value address register ≡ ok cs)
  unfolding lookup_switch
  lookup_switch-found h = candidates_from-found (walk table) h
