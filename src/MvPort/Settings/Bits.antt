-- ===== src/MvPort/Settings/Bits.antt =====
-- `state` on a switch whose port registers hold what was written last.
use mdioprobe.Bus.{Refines, memory}
use mdioprobe.Exec.Returns.{Returns, Returns-bind, Returns-pure, Returns-weaken}
use mdioprobe.MvPort.Link.{write_changed}
use mdioprobe.MvPort.Settings.{replaced, text_index, state_port, state_ports, state_of, state}
use mdioprobe.MvPort.{Ports, port_state, port_ctrl, state_names}
use mdioprobe.Output.{Session, line}
use mdioprobe.Prelude.Bits.{and_low, or_fields}
use mdioprobe.Prelude.Text.{Text, text_eq}
use mdioprobe.Prelude.{
  ℕ, suc, ◌+◌, ◌*◌, ◌/◌, ◌^◌, ◌<◌, ◌≡◌, refl, ap, ◌∙◌, sym, arith, bit_or, ◌==◌, ==_iff, ◌&&◌, ◌||◌,
  if◌then◌else◌, Bool, true, false, List, [], ◌∷◌, ◌++◌, All, some, Bool-cases, Option-cases,
  length, none, inl, inr,
}
use mdioprobe.Transport.Laws.{IsPair}

-- The lower two bits are replaced, the others kept.
pub replaced_lem : (v want : ℕ) → want < 4 → replaced v port_state want ≡ v / 4 * 4 + want
replaced_lem v want h =
    ap (λ (x : ℕ). bit_or x want) (omega (arith, and_low 2 v)) ∙ or_fields 2 (v / 4) want h

-- The register is Port Control of one of the ports.
abbrev pub is_control : ℕ → List ℕ → ℕ × ℕ → Bool
is_control base [] a = false
is_control base (n ∷ ns) a = (base + n == a.0 && 4 == a.1) || is_control base ns a

abbrev pub set_to : ℕ → Bool → ℕ → ℕ
set_to want b v = if b then v / 4 * 4 + want else v

set_twice :
    (want v : ℕ) (b b' : Bool)
    → want < 4
    → set_to want b' (set_to want (b || false) v) ≡ set_to want (b || b') v
set_twice want v true true h = omega arith
set_twice want v true false h = refl
set_twice want v false b' h = refl

-- The memory after some of the ports were set.
abbrev pub SetTo : ℕ → ℕ → List ℕ → (ℕ × ℕ → ℕ) → (ℕ × ℕ → ℕ) → Type 0
SetTo base want ports m m' = (a : ℕ × ℕ) → m' a ≡ set_to want (is_control base ports a) (m a)

-- The world shows such a memory.
unfoldable pub After :
    {S : Type 0} → (S → (ℕ × ℕ → ℕ) → Type 0) → ℕ → ℕ → List ℕ → (ℕ × ℕ → ℕ) → Session S → Type 0
After Shows base want ports m c = (m' : ℕ × ℕ → ℕ) × (Shows c.world m' × SetTo base want ports m m')

ap_pair : {a b : ℕ × ℕ} → a.0 ≡ b.0 → a.1 ≡ b.1 → a ≡ b
ap_pair p q i = (p i, q i)

Returns-line :
    {S : Type 0} (text : Text) (c : Session S) {P : Unit {0} → Session S → Type 0}
    → P tt (record c { lines = c.lines ++ (text ∷ []) })
    → Returns (line text) c P
Returns-line text c h = record { value = tt; state = _; runs = refl; holds = h }

hit : (base n : ℕ) (a : ℕ × ℕ) → (base + n == a.0 && 4 == a.1) ≡ true → a ≡ (base + n, 4)
hit base n a e = ap_pair (grind arith) (grind arith)

put_lem :
    (base n want v new : ℕ) (m : ℕ × ℕ → ℕ) (a : ℕ × ℕ)
    → v ≡ m (base + n, 4)
    → new ≡ set_to want true v
    → memory.put (base + n, 4) new m a ≡ set_to want (is_control base (n ∷ []) a) (m a)
put_lem base n want v new m a e f = elim (Bool-cases (base + n == a.0 && 4 == a.1)) [
  | inl q ↦ rw (q, f, e, ap m (hit base n a q)) refl
  | inr q ↦ rw q refl
]

same_lem :
    (base n want v : ℕ) (m : ℕ × ℕ → ℕ) (a : ℕ × ℕ)
    → v ≡ m (base + n, 4)
    → v ≡ set_to want true v
    → m a ≡ set_to want (is_control base (n ∷ []) a) (m a)
same_lem base n want v m a e f = elim (Bool-cases (base + n == a.0 && 4 == a.1)) [
  | inl q ↦ rw (q, ap m (hit base n a q)) (rw (sym e) f)
  | inr q ↦ rw q refl
]

set_to-below : (want : ℕ) → want < 4 → (b : Bool) (v : ℕ) → v < 2 ^ 16 → set_to want b v < 2 ^ 16
set_to-below want small true v h = omega (arith)
set_to-below want small false v h = h

module _ {S : Type 0} (self : Ports S) (Shows : S → (ℕ × ℕ → ℕ) → Type 0)
    (base : Refines (self.sw) memory IsPair (λ c m. Shows c.world m)) (want : ℕ)
    (small : want < 4) where
  write_state :
      (n v : ℕ) (c : Session S) (m : ℕ × ℕ → ℕ)
      → self.base + n < 32
      → v < 2 ^ 16
      → Shows c.world m
      → v ≡ m (self.base + n, 4)
      → Returns
          (write_changed self n port_ctrl v (replaced v port_state want))
          c
          (λ _ c'. After Shows self.base want (n ∷ []) m c')
  unfolding write_changed After
  write_state n v c m hn hv sh e = elim (Bool-cases (replaced v port_state want == v)) [
    | inl q ↦ rw q (
        Returns-pure tt c _ (
          m,
          (
            sh,
            λ a.
                same_lem self.base n want v m a e
                  (sym ((==_iff (replaced v port_state want) v).0 q) ∙ replaced_lem v want small),
          ),
        ))
    | inr q ↦ rw q (
        Returns-weaken
          (base.writes (self.base + n, 4) (replaced v port_state want) c m (hn, omega arith)
            (omega (arith, replaced_lem v want small)) sh)
          (λ _ c' sh'.
            (_, (sh', λ a. put_lem self.base n want v _ m a e (replaced_lem v want small)))))
  ]

  one :
      (name : Text) (n : ℕ) (c : Session S) (m : ℕ × ℕ → ℕ)
      → self.base + n < 32
      → ((a : ℕ × ℕ) → m a < 2 ^ 16)
      → Shows c.world m
      → Returns (state_port self name want n) c (λ _ c'. After Shows self.base want (n ∷ []) m c')
  unfolding state_port After
  one name n c m hn hm sh =
      Returns-bind (base.reads (self.base + n, 4) c m (hn, omega arith) sh) (λ v c1 h.
        Returns-bind (write_state n v c1 m hn (rw (h.0) (hm (self.base + n, 4))) h.1 h.0)
          (λ _ c2 g. Returns-line _ c2 g))

  all :
      (name : Text) (ports : List ℕ) (c : Session S) (m : ℕ × ℕ → ℕ)
      → All (λ n. self.base + n < 32) ports
      → ((a : ℕ × ℕ) → m a < 2 ^ 16)
      → Shows c.world m
      → Returns (state_ports self name want ports) c (λ _ c'. After Shows self.base want ports m c')
  unfolding state_ports After
  all name [] c m hs hm sh = Returns-pure tt c _ (m, (sh, λ a. refl))
  all name (n ∷ ports) c m hs hm sh =
      Returns-bind (one name n c m hs.0 hm sh) (λ _ c1 (m1, (sh1, f)).
        Returns-weaken
          (all name ports c1 m1 hs.1 (λ a. rw (f a) (set_to-below want small _ (m a) (hm a))) sh1)
          (λ _ c2 (m2, (sh2, g)). (
            m2,
            (
              sh2,
              λ a.
                  g a
                  ∙ ap (set_to want (is_control self.base ports a)) (f a)
                  ∙ set_twice want (m a) (self.base + n == a.0 && 4 == a.1) _ small,
            ),
          )))

text_index-below :
    (name : Text) (names : List Text) (i : ℕ) → text_index name names ≡ some i → i < length names
text_index-below name [] i e = grind arith
text_index-below name (t ∷ ts) i e = elim (Bool-cases (text_eq name t)) [
  | inl q ↦ (let f : some 0 ≡ some i = rw q at e in grind arith)
  | inr q ↦ elim (Option-cases (text_index name ts)) [
    | inl f ↦ (let g : none ≡ some i = rw (q, f) at e in grind arith)
    | inr (k, f) ↦
        (let g : some (suc k) ≡ some i = rw (q, f) at e in
          let h = text_index-below name ts k f in grind arith)
  ]
]

module _ {S : Type 0} (self : Ports S) (Shows : S → (ℕ × ℕ → ℕ) → Type 0) where
  -- On a switch whose registers hold what was written last, each of 16 bits, `state` with the name of
  -- state `want` (0 to 3) returns for every list of ports with SMI addresses below 32, repeated ports
  -- included. Afterwards the lower two bits of Port Control are `want` on those ports; the other bits
  -- of these registers, and all other registers of the switch, are as they were.
  pub state_lem :
      (name : Text) (want : ℕ) (ports : List ℕ) (c : Session S) (m : ℕ × ℕ → ℕ)
      → Refines (self.sw) memory IsPair (λ c' m'. Shows c'.world m')
      → text_index name state_names ≡ some want
      → All (λ n. self.base + n < 32) ports
      → ((a : ℕ × ℕ) → m a < 2 ^ 16)
      → Shows c.world m
      → Returns (state self ports name) c (λ _ c'. After Shows self.base want ports m c')
  unfolding state state_of
  state_lem name want ports c m base e hs hm sh =
      rw e (
        all self Shows base want (text_index-below name state_names want e) name ports c m hs hm sh)
