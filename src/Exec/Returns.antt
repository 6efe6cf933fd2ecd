-- ===== src/Exec/Returns.antt =====
-- Total correctness of an `Exec`: it ends with a value, and the value and the state meet `P`.
use mdioprobe.Exec.{ok, Exec, pure, ◌>>=◌, with_finally, except_os_error}
use mdioprobe.Prelude.{ℕ, ◌≡◌, refl}

pub record Returns {S A : Type 0} (m : Exec S A) (s : S) (P : A → S → Type 0) : Type 0 where
  pub value : A
  pub state : S
  pub runs : m s ≡ (ok value, state)
  pub holds : P value state

module _ {S A : Type 0} where
  pub Returns-pure : (a : A) (s : S) (P : A → S → Type 0) → P a s → Returns (pure a) s P
  Returns-pure a s P h = record { value = a; state = s; runs = refl; holds = h }

module _ {S A B : Type 0} where
  pub Returns-bind :
      {m : Exec S A} {s : S} {P : A → S → Type 0} {f : A → Exec S B} {Q : B → S → Type 0}
      → Returns m s P
      → ((a : A) (t : S) → P a t → Returns (f a) t Q)
      → Returns (m >>= f) s Q
  Returns-bind r k =
      let next = k r.value r.state r.holds in
      record {
        value = next.value;
        state = next.state;
        runs = rw r.runs next.runs;
        holds = next.holds;
      }

module _ {S A : Type 0} where
  pub Returns-weaken :
      {m : Exec S A} {s : S} {P Q : A → S → Type 0}
      → Returns m s P
      → ((a : A) (t : S) → P a t → Q a t)
      → Returns m s Q
  Returns-weaken r k = record {
    value = r.value;
    state = r.state;
    runs = r.runs;
    holds = k r.value r.state r.holds;
  }

module _ {S A : Type 0} where
  pub Returns-finally :
      {m : Exec S A} {last : Exec S (Unit {0})} {s : S} {P Q : A → S → Type 0}
      → Returns m s P
      → ((a : A) (t : S) → P a t → Returns last t (λ _. Q a))
      → Returns (with_finally m last) s Q
  Returns-finally r k =
      let next = k r.value r.state r.holds in
      record {
        value = r.value;
        state = next.state;
        runs = rw (r.runs, next.runs) refl;
        holds = next.holds;
      }

  pub Returns-recover :
      {m : Exec S A} (h : ℕ → Exec S A) {s : S} {P : A → S → Type 0}
      → Returns m s P
      → Returns (except_os_error m h) s P
  Returns-recover h r = record {
    value = r.value;
    state = r.state;
    runs = rw r.runs refl;
    holds = r.holds;
  }
