-- ===== src/Registry/Members.antt =====
-- What holds of every command of the table holds of the one that `lookup` returns.
use mdioprobe.Exec.Pure.{Yields, yields, raises}
use mdioprobe.Exec.{Result}
use mdioprobe.Prelude.Text.{Text, text_eq, starts_with}
use mdioprobe.Prelude.{[], ◌∷◌, Option, none, some, All, Bool-cases, inl, inr}
use mdioprobe.Registry.{Command, Table, get, near, only_one, exact_or, lookup}

module _ {F : Type 0} (P : Command F → Type 0) (name : Text) where
  abbrev Each : Table F → Type 0
  Each = All (λ (e : Text × Command F). P e.1)

  abbrev OfSome : Option (Command F) → Type 0
  OfSome none = Unit {0}
  OfSome (some c) = P c

  get-Each : (table : Table F) → Each table → OfSome (get name table)
  get-Each [] h = tt
  get-Each ((k, c) ∷ rest) h = elim (Bool-cases (text_eq k name)) [
    | inl e ↦ rw e h.0
    | inr e ↦ rw e (get-Each rest h.1)
  ]

  near-Each : (table : Table F) → Each table → Each (near name table)
  near-Each [] h = tt
  near-Each ((k, c) ∷ rest) h = elim (Bool-cases (starts_with k name)) [
    | inl e ↦ rw e (h.0, near-Each rest h.1)
    | inr e ↦ rw e (near-Each rest h.1)
  ]

  only_one-Each : (table : Table F) → Each table → Yields P (only_one name table)
  only_one-Each [] h = raises
  only_one-Each (e ∷ []) h = yields h.0
  only_one-Each (e ∷ f ∷ rest) h = raises

  exact_or-Each :
      (o : Option (Command F)) (r : Result (Command F))
      → OfSome o
      → Yields P r
      → Yields P (exact_or o r)
  exact_or-Each none r h k = k
  exact_or-Each (some c) r h k = yields h

  pub lookup-Yields :
      (table : Table F) → All (λ (e : Text × Command F). P e.1) table → Yields P (lookup name table)
  unfolding lookup
  lookup-Yields table h =
      exact_or-Each (get name table) _ (get-Each table h)
        (only_one-Each (near name table) (near-Each table h))
