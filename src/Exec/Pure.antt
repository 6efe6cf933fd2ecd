-- ===== src/Exec/Pure.antt =====
-- `do` blocks over `Result`.
use mdioprobe.Exec.{Exc, Result, ok, err}
use mdioprobe.Prelude.{◌≡◌}

module _ {A B : Type 0} where
  infixl 5 ◌>>=◌
  abbrev pub ◌>>=◌ : Result A → (A → Result B) → Result B
  ok a >>= f = f a
  err e >>= f = err e

ok-injective : {A : Type 0} {a b : A} → ok a ≡ ok b → a ≡ b
ok-injective e = cc

-- The value, if there is one, meets `P`.
pub data Yields {A : Type 0} (P : A → Type 0) : Result A → Type 0 where
  yields : {a : A} → P a → Yields P (ok a)
  raises : {e : Exc} → Yields P (err e)

pub Yields-bind :
    {A B : Type 0} {P : A → Type 0} {Q : B → Type 0} {m : Result A} (f : A → Result B)
    → Yields P m
    → ((a : A) → P a → Yields Q (f a))
    → Yields Q (m >>= f)
Yields-bind f (yields {a} p) k = k a p
Yields-bind f raises k = raises

pub of_Yields : {A : Type 0} {P : A → Type 0} {m : Result A} {a : A} → Yields P m → m ≡ ok a → P a
of_Yields (yields {a} p) e = rw (ok-injective e) at p
of_Yields raises e = cc

pub Yields-any : {A : Type 0} (m : Result A) → Yields (λ _. Unit {0}) m
Yields-any (ok a) = yields tt
Yields-any (err e) = raises
