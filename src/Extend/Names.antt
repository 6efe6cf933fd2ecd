-- ===== src/Extend/Names.antt =====
-- What popping names leaves of a list and of a table.
use mdioprobe.Extend.{pop, pop_all, keys, fresh, forget}
use mdioprobe.MvPort.Verbs.{is_one_of}
use mdioprobe.Prelude.Text.{Text, text_eq, text_eq_iff}
use mdioprobe.Prelude.{
  arith, Bool, true, false, not, ◌&&◌, ◌||◌, Bool-cases, inl, inr, List, [], ◌∷◌, ◌≡◌, refl, sym,
  ap, ◌∙◌, if◌then◌else◌, Option, none,
}
use mdioprobe.Registry.{Table, get, sorted, insert_text, text_lt}

-- Equal names are in the same lists.
same_name : (k l : Text) (f : Text → Bool) → text_eq k l ≡ true → f l ≡ f k
same_name k l f e = ap f (sym ((text_eq_iff k l).0 e))

pub text_eq_refl : (s : Text) → text_eq s s ≡ true
text_eq_refl s = (text_eq_iff s s).1 refl

true_false : {A : Type 0} → true ≡ false → A
true_false e = cc

text_eq_comm : (s t : Text) → text_eq s t ≡ text_eq t s
text_eq_comm s t = elim (Bool-cases (text_eq s t)) [
  | inl e ↦ e ∙ sym (same_name s t (λ x. text_eq x s) e ∙ text_eq_refl s)
  | inr e ↦ (elim (Bool-cases (text_eq t s)) [
    | inl f ↦ (true_false (sym (same_name t s (λ x. text_eq x t) f ∙ text_eq_refl t) ∙ e))
    | inr f ↦ e ∙ sym f
  ])
]

kept_if :
    (k l : Text) (c : Bool) (xs : List Text)
    → is_one_of k (if c then xs else l ∷ xs) ≡ ((text_eq k l && not c) || is_one_of k xs)
kept_if k l true xs = ground arith
kept_if k l false xs = ground arith

keys_if :
    {A : Type 0} (l : Text) (a : A) (c : Bool) (more : List (Text × A))
    → keys (if c then more else (l, a) ∷ more) ≡ (if c then keys more else l ∷ keys more)
keys_if l a true more = refl
keys_if l a false more = refl

or_true : (n r : Bool) → (not n || (not n && r)) ≡ (not n && true)
or_true true r = refl
or_true false r = refl

not_both :
    (e c n r : Bool) → (e ≡ true → c ≡ n) → ((e && not c) || (not n && r)) ≡ (not n && (e || r))
not_both true c n r h = rw (h refl) (or_true n r)
not_both false c n r h = refl

and_comm : (a b : Bool) → (a && b) ≡ (b && a)
and_comm true true = refl
and_comm true false = refl
and_comm false true = refl
and_comm false false = refl

de_morgan : (x k n : Bool) → ((not x && k) && not n) ≡ (k && not (x || n))
de_morgan true k n = sym (and_comm k false)
de_morgan false k n = refl

or_swap : (x y r : Bool) → (y || (x || r)) ≡ (x || (y || r))
or_swap true true r = refl
or_swap true false r = refl
or_swap false true r = refl
or_swap false false r = refl

one_of-pop :
    {A : Type 0} (k name : Text) (table : List (Text × A))
    → is_one_of k (keys (pop name table)) ≡ (not (text_eq k name) && is_one_of k (keys table))
one_of-pop k name [] = sym (and_comm _ false)
one_of-pop k name ((l, a) ∷ rest) =
    ap (is_one_of k) (keys_if l a (text_eq l name) (pop name rest))
    ∙ kept_if k l (text_eq l name) (keys (pop name rest))
    ∙ ap (λ r. (text_eq k l && not (text_eq l name)) || r) (one_of-pop k name rest)
    ∙ not_both (text_eq k l) (text_eq l name) (text_eq k name) (is_one_of k (keys rest))
        (same_name k l (λ x. text_eq x name))

one_of-pop_all :
    {A : Type 0} (k : Text) (names : List Text) (table : List (Text × A))
    → is_one_of k (keys (pop_all names table))
      ≡ (is_one_of k (keys table) && not (is_one_of k names))
one_of-pop_all k [] table = sym (and_comm _ true)
one_of-pop_all k (name ∷ names) table =
    one_of-pop_all k names (pop name table)
    ∙ ap (λ r. r && not (is_one_of k names)) (one_of-pop k name table)
    ∙ de_morgan (text_eq k name) (is_one_of k (keys table)) (is_one_of k names)

pub one_of-fresh :
    (k : Text) (before names : List Text)
    → is_one_of k (fresh before names) ≡ (is_one_of k names && not (is_one_of k before))
one_of-fresh k before [] = refl
one_of-fresh k before (l ∷ names) =
    kept_if k l (is_one_of l before) (fresh before names)
    ∙ ap (λ r. (text_eq k l && not (is_one_of l before)) || r)
        (one_of-fresh k before names ∙ and_comm (is_one_of k names) (not (is_one_of k before)))
    ∙ not_both (text_eq k l) (is_one_of l before) (is_one_of k before) (is_one_of k names)
        (same_name k l (λ x. is_one_of x before))
    ∙ and_comm (not (is_one_of k before)) (text_eq k l || is_one_of k names)

one_of-insert :
    (k x : Text) (xs : List Text) → is_one_of k (insert_text x xs) ≡ is_one_of k (x ∷ xs)
one_of-insert k x [] = refl
one_of-insert k x (y ∷ xs) = elim (Bool-cases (text_lt y x)) [
  | inl e ↦ rw (e, one_of-insert k x xs) (or_swap (text_eq k x) (text_eq k y) (is_one_of k xs))
  | inr e ↦ rw e refl
]

pub one_of-sorted : (k : Text) (xs : List Text) → is_one_of k (sorted xs) ≡ is_one_of k xs
one_of-sorted k [] = refl
one_of-sorted k (x ∷ xs) =
    one_of-insert k x (sorted xs) ∙ ap (λ r. text_eq k x || r) (one_of-sorted k xs)

pub forgotten : (name : Text) (names : List Text) → is_one_of name (forget name names) ≡ false
forgotten name [] = refl
forgotten name (k ∷ rest) =
    kept_if name k (text_eq k name) (forget name rest)
    ∙ ap (λ r. (text_eq name k && not (text_eq k name)) || r) (forgotten name rest)
    ∙ not_itself
  where
    not_itself : ((text_eq name k && not (text_eq k name)) || false) ≡ false
    not_itself = elim (Bool-cases (text_eq name k)) [
      | inl e ↦ rw (e, same_name name k (λ x. text_eq x name) e, text_eq_refl name) refl
      | inr e ↦ rw e refl
    ]

pub popped :
    {A : Type 0} (name : Text) (table : List (Text × A))
    → is_one_of name (keys (pop name table)) ≡ false
popped name table = one_of-pop name name table ∙ rw (text_eq_refl name) refl

if_none : {A : Type 0} (b : Bool) → Path (Option A) (if b then none else none) none
if_none true = refl
if_none false = refl

if_or :
    {A : Type 0} (n x : Bool) (o : Option A)
    → (if n then none else (if x then none else o)) ≡ (if x || n then none else o)
if_or true true o = refl
if_or true false o = refl
if_or false true o = refl
if_or false false o = refl

if_left :
    {A : Type 0} (t b : Bool) (o : Option A)
    → (t ≡ false → o ≡ none)
    → (if t && not b then none else o) ≡ (if b then o else none)
if_left true true o h = refl
if_left true false o h = refl
if_left false true o h = refl
if_left false false o h = h refl

module _ {F : Type 0} (k : Text) where
  -- A name is bound to nothing once it has been popped, and every other to what it was.
  get-pop :
      (name : Text) (table : Table F)
      → get k (pop name table) ≡ (if text_eq k name then none else get k table)
  get-pop name [] = sym (if_none (text_eq k name))
  get-pop name ((l, c) ∷ rest) = elim (Bool-cases (text_eq l name)) [
    | inl a ↦ (elim (Bool-cases (text_eq k name)) [
      | inl e ↦ rw (a, e) (get-pop name rest ∙ rw e refl)
      | inr e ↦
          rw (a, e, text_eq_comm l k ∙ sym (same_name l name (λ x. text_eq k x) a) ∙ e)
            (get-pop name rest ∙ rw e refl)
    ])
    | inr a ↦ (elim (Bool-cases (text_eq l k)) [
      | inl e ↦ rw (a, e, same_name l k (λ x. text_eq x name) e ∙ a) refl
      | inr e ↦ rw (a, e) (get-pop name rest)
    ])
  ]

  get-pop_all :
      (names : List Text) (table : Table F)
      → get k (pop_all names table) ≡ (if is_one_of k names then none else get k table)
  get-pop_all [] table = refl
  get-pop_all (name ∷ names) table =
      get-pop_all names (pop name table)
      ∙ ap (λ r. if is_one_of k names then none else r) (get-pop name table)
      ∙ if_or (is_one_of k names) (text_eq k name) (get k table)

  get-none : (table : Table F) → is_one_of k (keys table) ≡ false → get k table ≡ none
  get-none [] h = refl
  get-none ((l, c) ∷ rest) h = elim (Bool-cases (text_eq k l)) [
    | inl e ↦ (true_false (sym (rw e refl) ∙ h))
    | inr e ↦ rw (text_eq_comm l k ∙ e) (get-none rest (rw e at h))
  ]

  -- What is left of a table without the names `added`, which are those of the table but not of `before`.
  pub get_left :
      (before added : List Text) (table : Table F)
      → is_one_of k added ≡ (is_one_of k (keys table) && not (is_one_of k before))
      → get k (pop_all added table) ≡ (if is_one_of k before then get k table else none)
  get_left before added table h =
      get-pop_all added table
      ∙ ap (λ b. if b then none else get k table) h
      ∙ if_left (is_one_of k (keys table)) (is_one_of k before) (get k table) (get-none table)
