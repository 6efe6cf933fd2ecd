-- ===== src/CmdMarvell/Spelling.antt =====
-- `set` and `clear` of `mv ... modify`, behind the word `modify` or behind the register.
use mdioprobe.Bus.{Bus}
use mdioprobe.CmdMarvell.Groups.{
  run_act, run_space, reg_words, reg_group, reg_target, scratch_words, scratch_group,
  scratch_target, cmd_mv,
}
use mdioprobe.CmdMarvell.{
  modify, sub_of, take_action, Target, Space, reg_space, scratch_space, modify_bits, address_of,
  switch_at,
}
use mdioprobe.CmdMdio.{Action, set_bits, clear_bits, action_name}
use mdioprobe.Exec.Pure
use mdioprobe.Exec.{Exec, Result, ok, err, ◌>>=◌, lift}
use mdioprobe.Monitor.Run.{Clock}
use mdioprobe.Monitor.{last_two, timeout_in, take_timeout}
use mdioprobe.Output.{Session}
use mdioprobe.Parser.{ranged}
use mdioprobe.Prelude.Text.{Text, text_eq, codes}
use mdioprobe.Prelude.{ℕ, Bool, false, List, [], ◌∷◌, Option, none, some, ◌≡◌, refl, All}

abbrev pub NotFor : Text → Type 0
NotFor a = text_eq a (codes "for") ≡ false

abbrev NotForIn : Option (List Text × Text × Text) → Type 0
NotForIn none = Unit {0}
NotForIn (some (front, w, n)) = NotFor w

timeout_in-NotFor :
    (args : List Text) (found : Option (List Text × Text × Text))
    → NotForIn found
    → timeout_in args found ≡ ok (none, args)
timeout_in-NotFor args none h = refl
timeout_in-NotFor args (some (front, w, n)) h = rw h refl

last_two-NotFor : (args : List Text) → All NotFor args → NotForIn (last_two args)
last_two-NotFor [] h = tt
last_two-NotFor (a ∷ []) h = tt
last_two-NotFor (a ∷ b ∷ []) h = h.0
last_two-NotFor (a ∷ b ∷ c ∷ rest) h =
    longer (last_two (b ∷ c ∷ rest)) (last_two-NotFor (b ∷ c ∷ rest) h.1)
  where
    longer :
        (found : Option (List Text × Text × Text))
        → NotForIn found
        → NotForIn (elim found [ none ↦ none | some (front, x, y) ↦ some (a ∷ front, x, y) ])
    longer none k = tt
    longer (some (front, x, y)) k = k

take_timeout-NotFor : (args : List Text) → All NotFor args → take_timeout args ≡ ok (none, args)
unfolding take_timeout
take_timeout-NotFor args h = timeout_in-NotFor args (last_two args) (last_two-NotFor args h)

sub_of-action_name : (sub : Action) → sub_of (action_name sub) ≡ some sub
sub_of-action_name set_bits = refl
sub_of-action_name clear_bits = refl

action_name-NotFor : (sub : Action) → NotFor (action_name sub)
action_name-NotFor set_bits = refl
action_name-NotFor clear_bits = refl

lift_cong :
    {S A B : Type 0} (a : Result A) (f g : A → Exec S B) (c : S)
    → ((x : A) → f x c ≡ g x c)
    → (lift a >>= f) c ≡ (lift a >>= g) c
lift_cong (ok x) f g c h = h x
lift_cong (err e) f g c h = refl

module _ {S : Type 0} (clock : Clock (Session S)) (out_of_room : Exec (Session S) Bool) (rounds : ℕ)
    (sub : Action) where
  bits_lem :
      (target : Target (Session S)) (space : Space) (rest : List Text) (address : ℕ) (c : Session S)
      → modify_bits target space (some sub) address rest c
        ≡ modify_bits target space none address (action_name sub ∷ rest) c
  unfolding modify_bits
  bits_lem target space rest address c = rw (sub_of-action_name sub) refl

  act_lem :
      (target : Target (Session S)) (space : Space) (r : Text) (rest : List Text) (c : Session S)
      → run_act clock out_of_room rounds (modify (some sub)) target space none (r ∷ rest) c
        ≡ run_act clock out_of_room rounds
            (modify none)
            target
            space
            none
            (r ∷ action_name sub ∷ rest)
            c
  unfolding run_act address_of
  act_lem target space r rest c = found (ranged r 0 space.high space.what)
    where
      found :
          (a : Result ℕ)
          → (lift (Pure.◌>>=◌ a (λ n. ok (n, rest)))
                >>= (λ (a : ℕ × List Text). modify_bits target space (some sub) (a.0) (a.1)))
              c
            ≡ (lift (Pure.◌>>=◌ a (λ n. ok (n, action_name sub ∷ rest)))
                  >>= (λ (a : ℕ × List Text). modify_bits target space none (a.0) (a.1)))
                c
      found (ok n) = bits_lem target space rest n c
      found (err e) = refl

  space_lem :
      (target : Target (Session S)) (space : Space) (r : Text) (rest : List Text) (c : Session S)
      → All NotFor (r ∷ rest)
      → run_space clock out_of_room rounds (modify (some sub)) target space (r ∷ rest) c
        ≡ run_space clock out_of_room rounds
            (modify none)
            target
            space
            (r ∷ action_name sub ∷ rest)
            c
  unfolding run_space
  space_lem target space r rest c h =
      rw
        (
          take_timeout-NotFor (r ∷ rest) h,
          take_timeout-NotFor (r ∷ action_name sub ∷ rest) (h.0, (action_name-NotFor sub, h.1)),
        )
        (act_lem target space r rest c)

  module _ (t : Bus (ℕ × ℕ) (Session S)) where
    scratch_lem :
        (sw r : Text) (rest : List Text) (c : Session S)
        → All NotFor (r ∷ rest)
        → scratch_words clock out_of_room rounds t (modify (some sub)) (sw ∷ r ∷ rest) c
          ≡ scratch_words clock out_of_room rounds t
              (modify none)
              (sw ∷ r ∷ action_name sub ∷ rest)
              c
    unfolding scratch_words
    scratch_lem sw r rest c h = lift_cong (switch_at sw) _ _ c (λ addr.
        space_lem (scratch_target clock out_of_room rounds t addr) scratch_space r rest c h)

    reg_lem :
        (sw dev r : Text) (rest : List Text) (c : Session S)
        → All NotFor (r ∷ rest)
        → reg_words clock out_of_room rounds t (modify (some sub)) (sw ∷ dev ∷ r ∷ rest) c
          ≡ reg_words clock out_of_room rounds t
              (modify none)
              (sw ∷ dev ∷ r ∷ action_name sub ∷ rest)
              c
    unfolding reg_words
    reg_lem sw dev r rest c h = lift_cong (switch_at sw) _ _ c (λ addr.
        lift_cong (ranged dev 0 31 "device address") _ _ c
          (λ d. space_lem (reg_target clock out_of_room rounds t addr d) reg_space r rest c h))

    -- `mv reg` and `mv scratch`: `modify set` or `modify clear` in front of the switch does what `set` or
    -- `clear` behind the register does, errors included, if the word for the switch is neither of
    -- them, and neither the register nor a word behind it is `for`.
    pub cmd_mv_spellings :
        (sw dev r : Text) (rest : List Text) (c : Session S)
        → sub_of sw ≡ none
        → All NotFor (r ∷ rest)
        → (cmd_mv clock out_of_room rounds t
              (codes "reg" ∷ codes "modify" ∷ action_name sub ∷ sw ∷ dev ∷ r ∷ rest)
              c
            ≡ cmd_mv clock out_of_room rounds t
                (codes "reg" ∷ codes "modify" ∷ sw ∷ dev ∷ r ∷ action_name sub ∷ rest)
                c)
          × (cmd_mv clock out_of_room rounds t
                (codes "scratch" ∷ codes "modify" ∷ action_name sub ∷ sw ∷ r ∷ rest)
                c
              ≡ cmd_mv clock out_of_room rounds t
                  (codes "scratch" ∷ codes "modify" ∷ sw ∷ r ∷ action_name sub ∷ rest)
                  c)
    unfolding cmd_mv reg_group scratch_group take_action
    cmd_mv_spellings sw dev r rest c e h = (
      rw (sub_of-action_name sub, e) (reg_lem sw dev r rest c h),
      rw (sub_of-action_name sub, e) (scratch_lem sw r rest c h),
    )
