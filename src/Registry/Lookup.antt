-- ===== src/Registry/Lookup.antt =====
-- What `lookup` finds: the command of that name, or the only one whose name begins with it.
use mdioprobe.Exec.{ok}
use mdioprobe.Prelude.Text.{Text, text_eq, starts_with, text_eq_iff}
use mdioprobe.Prelude.{
  ℕ, suc, ◌≡◌, refl, sym, ap, ◌∙◌, ◌⊎◌, inl, inr, true, false, List, [], ◌∷◌, some, All, arith,
  Bool-cases, Option-cases, get_elem?,
}
use mdioprobe.Registry.{Command, Table, put, get, near, only_one, lookup, command, or_name}

text_eq_refl : (s : Text) → text_eq s s ≡ true
text_eq_refl s = (text_eq_iff s s).1 refl

starts_with_self : (s : Text) → starts_with s s ≡ true
starts_with_self [] = refl
starts_with_self (c ∷ s) = ground (arith, starts_with_self s)

-- An entry of the table.
abbrev pub IsAt : {F : Type 0} → Table F → Text × Command F → Type 0
IsAt t e = (i : ℕ) × (get_elem? t i ≡ some e)

-- The only entry whose name begins with `name`.
abbrev pub IsOnly : {F : Type 0} → Text → Table F → Text × Command F → Type 0
IsOnly name t e = (starts_with e.0 name ≡ true) × All (λ f. starts_with f.0 name ≡ true → f ≡ e) t

cons-nil : {A : Type 0} {x : A} {xs : List A} → x ∷ xs ≡ [] → ⊥
cons-nil e = cc

cons-head : {A : Type 0} {x y : A} {xs ys : List A} → x ∷ xs ≡ y ∷ ys → x ≡ y
cons-head e = cc

cons-tail : {A : Type 0} {x y : A} {xs ys : List A} → x ∷ xs ≡ y ∷ ys → xs ≡ ys
cons-tail e = cc

some-injective : {A : Type 0} {x y : A} → some x ≡ some y → x ≡ y
some-injective e = cc

ok-injective : {A : Type 0} {x y : A} → ok x ≡ ok y → x ≡ y
ok-injective e = cc

module _ {F : Type 0} (name : Text) where
  none-only :
      (e : Text × Command F) (t : Table F)
      → All (λ f. starts_with f.0 name ≡ false) t
      → All (λ f. starts_with f.0 name ≡ true → f ≡ e) t
  none-only e [] h = tt
  none-only e (f ∷ t) h = ((λ s. cc), none-only e t h.1)

  get-put : (cmd : Command F) (t : Table F) → get name (put name cmd t) ≡ some cmd
  get-put cmd [] = rw (text_eq_refl name) refl
  get-put cmd ((k, c) ∷ rest) = elim (Bool-cases (text_eq k name)) [
    | inl e ↦ rw (e, e) refl
    | inr e ↦ rw (e, e) (get-put cmd rest)
  ]

  get-put_other :
      (other : Text) (cmd : Command F) (t : Table F)
      → text_eq name other ≡ false
      → get other (put name cmd t) ≡ get other t
  get-put_other other cmd [] h = rw h refl
  get-put_other other cmd ((k, c) ∷ rest) h = elim (Bool-cases (text_eq k name)) [
    | inl e ↦ let q : text_eq k other ≡ false = rw ((text_eq_iff k name).0 e) h in rw (e, q) refl
    | inr e ↦ rw (e, get-put_other other cmd rest h) refl
  ]

  near-none : (t : Table F) → near name t ≡ [] → All (λ e. starts_with e.0 name ≡ false) t
  near-none [] h = tt
  near-none ((j, d) ∷ rest) h = elim (Bool-cases (starts_with j name)) [
    | inl e ↦ absurd (cons-nil (rw e at h))
    | inr e ↦ (e, near-none rest (rw e at h))
  ]

  get-IsAt : (t : Table F) (c : Command F) → get name t ≡ some c → IsAt t (name, c)
  get-IsAt [] c h = cc
  get-IsAt ((k, d) ∷ rest) c h = elim (Bool-cases (text_eq k name)) [
    | inl e ↦
        (let q : some d ≡ some c = rw e at h in
          (0, rw ((text_eq_iff k name).0 e, some-injective q) refl))
    | inr e ↦ (let p = get-IsAt rest c (rw e at h) in (suc p.0, p.1))
  ]

  near-IsOnly :
      (t : Table F) (e : Text × Command F) → near name t ≡ e ∷ [] → IsAt t e × IsOnly name t e
  near-IsOnly [] e h = cc
  near-IsOnly ((j, d) ∷ rest) e h = elim (Bool-cases (starts_with j name)) [
    | inl b ↦
        (let q : (j, d) ∷ near name rest ≡ e ∷ [] = rw b at h in
          let hd = cons-head q in
          (
            (0, ap some hd),
            (
              sym (ap (λ f. starts_with f.0 name) hd) ∙ b,
              ((λ _. hd), none-only e rest (near-none rest (cons-tail q))),
            ),
          ))
    | inr b ↦
        (let p = near-IsOnly rest e (rw b at h) in
          ((suc p.0.0, p.0.1), (p.1.0, ((λ s. cc), p.1.1))))
  ]

  pick :
      (near_ones : Table F) (c : Command F)
      → only_one name near_ones ≡ ok c
      → (k : Text) × (near_ones ≡ (k, c) ∷ [])
  pick [] c h = cc
  pick ((k, d) ∷ []) c h = (k, rw (ok-injective h) refl)
  pick (e ∷ f ∷ rest) c h = cc

  -- What `lookup` returns is in the table: under the name itself, or else under the only name of the
  -- table that begins with it.
  pub lookup-finds :
      (t : Table F) (c : Command F)
      → lookup name t ≡ ok c
      → (k : Text) × IsAt t (k, c) × ((k ≡ name) ⊎ IsOnly name t (k, c))
  unfolding lookup
  lookup-finds t c h = elim (Option-cases (get name t)) [
    | inl e ↦
        let p = pick (near name t) c (rw e at h) in
        let q = near-IsOnly t (p.0, c) p.1 in (p.0, q.0, inr q.1)
    | inr (d, e) ↦
        let same : ok d ≡ ok c = rw e at h in
        (name, get-IsAt t c (rw (ok-injective same) at e), inl refl)
  ]

  -- After `@command(name, ...)` the name finds the new command, with the name in place of an empty
  -- syntax, and every other name that was a key of the table finds what it found before.
  pub lookup-command :
      (category syntax summary detail : Text) (fn : F) (t : Table F)
      → (lookup name (command name category syntax summary detail fn t)
          ≡ ok (record {
            name = name;
            fn = fn;
            category = category;
            syntax = or_name syntax name;
            summary = summary;
            detail = detail;
          }))
        × ((other : Text) (c : Command F)
            → text_eq name other ≡ false
            → get other t ≡ some c
            → lookup other (command name category syntax summary detail fn t) ≡ ok c)
  unfolding lookup command
  lookup-command category syntax summary detail fn t =
      (rw (get-put _ t) refl, λ other c ne h. rw (get-put_other other _ t ne, h) refl)
