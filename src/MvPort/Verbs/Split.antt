-- ===== src/MvPort/Verbs/Split.antt =====
-- What `take_verb` splits off, and which ports `port_list` lets through.
use mdioprobe.Exec.Pure.{Yields, yields, raises, of_Yields}
use mdioprobe.Exec.{ok, err, command_error, formatted}
use mdioprobe.Monitor.Timeout.{last_two-append}
use mdioprobe.Monitor.{last_two}
use mdioprobe.MvPort.Verbs.{
  Verb, take_verb, port_list, every_port, all_of, is_one_of, bare_verbs, valued_verbs, last_of,
  valued,
}
use mdioprobe.Parser.Range.{Within, range-All, spec-Within}
use mdioprobe.Parser.{range}
use mdioprobe.Prelude.Text.{Text, text_eq, codes}
use mdioprobe.Prelude.{
  if◌then◌else◌, ℕ, zero, suc, ◌-◌, ◌<◌, ◌≡◌, ◌≢◌, refl, ap, ◌∙◌, sym, arith, false, Bool-cases,
  Option-cases, inl, inr, List, [], ◌∷◌, ◌++◌, Option, none, some, All,
}

abbrev pub listed : Option Text → List Text
listed none = []
listed (some x) = x ∷ []

-- The arguments that a split came from.
abbrev pub rejoined : Verb → List Text
rejoined r = r.rest ++ (listed r.action ++ listed r.value)

abbrev unsplit : Option (List Text × Text) → List Text
unsplit none = []
unsplit (some (front, x)) = front ++ (x ∷ [])

abbrev unsplit_two : Option (List Text × Text × Text) → List Text
unsplit_two none = []
unsplit_two (some (front, x, y)) = front ++ (x ∷ y ∷ [])

last_of-append_two :
    (args : List Text) (v x : Text) → last_of (args ++ (v ∷ x ∷ [])) ≡ some (args ++ (v ∷ []), x)
last_of-append_two [] v x = refl
last_of-append_two (a ∷ []) v x = refl
last_of-append_two (a ∷ b ∷ args) v x = rw (last_of-append_two (b ∷ args) v x) refl

last_of-splits :
    (args front : List Text) (x : Text) → last_of args ≡ some (front, x) → front ++ (x ∷ []) ≡ args
last_of-splits [] front x e = grind arith
last_of-splits (a ∷ []) front x e = grind arith
last_of-splits (a ∷ b ∷ rest) front x e = elim (Option-cases (last_of (b ∷ rest))) [
  | inl f ↦
      (let g : Path (Option (List Text × Text)) none (some (front, x)) = rw f at e in grind arith)
  | inr ((g, y), f) ↦
      (let h : some (a ∷ g, y) ≡ some (front, x) = rw f at e in
        let k = last_of-splits (b ∷ rest) g y f in
        sym (ap unsplit h) ∙ ap (λ (l : List Text). a ∷ l) k)
]

last_two-splits :
    (args front : List Text) (x y : Text)
    → last_two args ≡ some (front, x, y)
    → front ++ (x ∷ y ∷ []) ≡ args
last_two-splits [] front x y e = grind arith
last_two-splits (a ∷ []) front x y e = grind arith
last_two-splits (a ∷ b ∷ []) front x y e = grind arith
last_two-splits (a ∷ b ∷ c ∷ rest) front x y e = elim (Option-cases (last_two (b ∷ c ∷ rest))) [
  | inl f ↦
      (let g : Path (Option (List Text × Text × Text)) none (some (front, x, y)) = rw f at e in
        grind arith)
  | inr ((g, u, v), f) ↦
      (let h : some (a ∷ g, u, v) ≡ some (front, x, y) = rw f at e in
        let k = last_two-splits (b ∷ c ∷ rest) g u v f in
        sym (ap unsplit_two h) ∙ ap (λ (l : List Text). a ∷ l) k)
]

append-nil : (l : List Text) → l ++ [] ≡ l
append-nil [] = refl
append-nil (x ∷ l) = ap (λ (t : List Text). x ∷ t) (append-nil l)

rejoined-valued : (args : List Text) → rejoined (valued args (last_two args)) ≡ args
rejoined-valued args = elim (Option-cases (last_two args)) [
  | inl f ↦ rw f (append-nil args)
  | inr ((front, v, x), f) ↦ elim (Bool-cases (is_one_of v valued_verbs)) [
    | inl q ↦ rw (f, q) (last_two-splits args front v x f)
    | inr q ↦ rw (f, q) (append-nil args)
  ]
]

rejoined_lem : (args : List Text) → rejoined (take_verb args) ≡ args
unfolding take_verb
rejoined_lem args = elim (Option-cases (last_of args)) [
  | inl f ↦ rw f (rejoined-valued args)
  | inr ((front, v), f) ↦ elim (Bool-cases (is_one_of v bare_verbs)) [
    | inl q ↦ rw (f, q) (last_of-splits args front v f)
    | inr q ↦ rw (f, q) (rejoined-valued args)
  ]
]

abbrev pub bare_verb : List Text → Text → Verb
bare_verb args x = record { rest = args; action = some x; value = none }

abbrev pub no_verb : List Text → Verb
no_verb args = record { rest = args; action = none; value = none }

-- Nothing is lost: the rest, the verb and its value in a row are the arguments. A last argument `up`,
-- `down` or `auto` is the verb; otherwise a last but one `detect`, `state` or `rgmii` is, and the last
-- argument is its value; otherwise there is no verb.
pub take_verb_lem :
    (args : List Text) (v x : Text)
    → (rejoined (take_verb args) ≡ args)
      × (take_verb [] ≡ no_verb [])
      × (take_verb (x ∷ []) ≡ (if is_one_of x bare_verbs then bare_verb [] x else no_verb (x ∷ [])))
      × (take_verb (args ++ (v ∷ x ∷ [])) ≡ (
          if is_one_of x bare_verbs
          then bare_verb (args ++ (v ∷ [])) x
          else if is_one_of v valued_verbs
          then record { rest = args; action = some v; value = some x }
          else no_verb (args ++ (v ∷ x ∷ []))))
unfolding take_verb
take_verb_lem args v x =
    (rejoined_lem args, refl, refl, rw (last_two-append args v x, last_of-append_two args v x) refl)

-- Not empty, and below the number of ports.
abbrev Below : ℕ → List ℕ → Type 0
Below count out = (out ≢ []) × All (Within 0 (count - 1)) out

range-Below : (count : ℕ) → 0 < count → Below count (range 0 count)
range-Below zero h = elim h [ ]
range-Below (suc count) h =
    ((λ e. cc), range-All 0 (suc count - 1) "port" 0 (suc count) (omega arith) (omega arith))

every_port-Below :
    (action : Option Text) (count : ℕ) → 0 < count → Yields (Below count) (every_port action count)
every_port-Below none count h = yields (range-Below count h)
every_port-Below (some a) count h = elim (Bool-cases (text_eq a (codes "detect"))) [
  | inl q ↦ rw q (yields (range-Below count h))
  | inr q ↦ rw q raises
]

port_list-Below :
    (rest : List Text) (action : Option Text) (count : ℕ) (usage : Text)
    → 0 < count
    → (out : List ℕ) → port_list rest action count usage ≡ ok out
    → Below count out
unfolding port_list
port_list-Below [] action count usage h out e = of_Yields (every_port-Below action count h) e
port_list-Below (a ∷ []) action count usage h out e = spec-Within 0 (count - 1) "port" a out e
port_list-Below (a ∷ b ∷ rest) action count usage h out e = cc

-- On a switch with at least one port: what `port_list` returns is not empty and names ports below the
-- number of ports only. Without a list it returns all of them in order for a status and for `detect`,
-- and refuses any other verb.
pub port_list-Within :
    (rest : List Text) (action : Option Text) (count : ℕ) (usage verb : Text) (out : List ℕ)
    → 0 < count
    → text_eq verb (codes "detect") ≡ false
    → port_list rest action count usage ≡ ok out
    → (out ≢ [])
      × All (Within 0 (count - 1)) out
      × (port_list [] none count usage ≡ ok (range 0 count))
      × (port_list [] (some (codes "detect")) count usage ≡ ok (range 0 count))
      × (port_list [] (some verb) count usage ≡ err (command_error (formatted (all_of verb count))))
unfolding port_list
port_list-Within rest action count usage verb out h q e =
    let below = port_list-Below rest action count usage h out e in
    (below.0, below.1, refl, refl, rw q refl)
