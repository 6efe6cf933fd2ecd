-- ===== src/Exec/Safe.antt =====
-- Actions that raise nothing but `OSError`, and actions that raise nothing at all.
use mdioprobe.Exec.{Exec, Result, ok, err, os_error, pure, lift, ◌>>=◌, ◌>>◌, except_os_error}
use mdioprobe.Prelude.{ℕ, ◌≡◌, refl}

pub data Softly {S A : Type 0} (p : Result A × S) : Type 0 where
  answers : (a : A) (s : S) → p ≡ (ok a, s) → Softly p
  fails_softly : (n : ℕ) (s : S) → p ≡ (err (os_error n), s) → Softly p

-- Nothing but an `OSError`.
abbrev pub IsSoft : {S A : Type 0} → Exec S A → Type 0
IsSoft {S = S} m = (s : S) → Softly (m s)

-- No exception, from any state.
abbrev pub Ends : {S A : Type 0} → Exec S A → Type 0
Ends {S = S} {A = A} m = (s : S) → (a : A) × (u : S) × (m s ≡ (ok a, u))

module _ {S A B : Type 0} where
  pub bind-IsSoft :
      {m : Exec S A} {f : A → Exec S B} → IsSoft m → ((a : A) → IsSoft (f a)) → IsSoft (m >>= f)
  bind-IsSoft {f} h k s = elim (h s) [
    | answers a u e ↦ rw e (k a u)
    | fails_softly n u e ↦ fails_softly n u (rw e refl)
  ]

  pub bind-Ends :
      {m : Exec S A} {f : A → Exec S B} → Ends m → ((a : A) → Ends (f a)) → Ends (m >>= f)
  bind-Ends {f} h k s = let (a, u, e) = h s in let (b, v, g) = k a u in (b, v, rw e g)

module _ {S A : Type 0} where
  pub pure-IsSoft : (a : A) → IsSoft {S = S} (pure a)
  pure-IsSoft a s = answers a s refl

  pub pure-Ends : (a : A) → Ends {S = S} (pure a)
  pure-Ends a s = (a, s, refl)

  pub lift-Ends : {r : Result A} → (a : A) × (r ≡ ok a) → Ends {S = S} (lift r)
  lift-Ends (a, e) s = (a, s, rw e refl)

  pub then-Ends : {m : Exec S (Unit {0})} {k : Exec S A} → Ends m → Ends k → Ends (m >> k)
  then-Ends h k s = let (a, u, e) = h s in let (b, v, g) = k u in (b, v, rw e g)

  pub except-Ends :
      {m : Exec S A} {h : ℕ → Exec S A}
      → IsSoft m
      → ((n : ℕ) → Ends (h n))
      → Ends (except_os_error m h)
  except-Ends {h} k l s = elim (k s) [
    | answers a u e ↦ (a, u, rw e refl)
    | fails_softly n u e ↦ (let (b, v, g) = l n u in (b, v, rw e g))
  ]
