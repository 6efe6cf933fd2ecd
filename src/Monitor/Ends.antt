-- ===== src/Monitor/Ends.antt =====
-- `run` ends, on a clock that runs while it sleeps.
use mdioprobe.Exec.Returns.{Returns, Returns-bind, Returns-pure, Returns-weaken}
use mdioprobe.Exec.{
  Exec, Result, ok, err, os_error, command_error, value_error, interrupt, system_exit, defect, pure,
  ◌>>=◌, ◌>>◌, Exec, Result, ok, err, os_error, command_error, value_error, system_exit, defect,
  pure, ◌>>=◌, ◌>>◌, except_os_error,
}
use mdioprobe.Monitor.Run.{
  Clock, poll_ms, Stop, timed_out, nearly_full, in_loop, baseline, look, poll_rounds, summed_up,
  seconds_or, watch_from, run,
}
use mdioprobe.Monitor.{Watch, compare_with, sweep_one}
use mdioprobe.Output.{Session}
use mdioprobe.Prelude.Int.{pos, ltb_ℤ}
use mdioprobe.Prelude.Text.{Text}
use mdioprobe.Prelude.{
  ℕ, zero, suc, ◌+◌, ◌-◌, ◌*◌, ◌^◌, ◌≤◌, ◌<◌, ◌≡◌, refl, ◌∙◌, ap, arith, Bool, true, false,
  Bool-cases, inl, inr, List, [], ◌∷◌, Option, none, some, ◌==◌, ltb, if◌then◌else◌,
}

-- A value, or an `OSError`.
abbrev pub IsSoftResult : {A : Type 0} → Result A → Type 0
IsSoftResult (ok a) = Unit {0}
IsSoftResult (err (os_error n)) = Unit {0}
IsSoftResult (err _) = ⊥

-- `most` for each register.
abbrev pub sweep_time : ℕ → List ℕ → ℕ
sweep_time most [] = 0
sweep_time most (r ∷ rs) = most + sweep_time most rs

-- What one round of the loop takes at most, while it sleeps 100 ms.
abbrev pub round_time : ℕ → List ℕ → ℕ
round_time most rs = 100 + sweep_time most rs + 3 * most

module _ {S : Type 0} (time : S → ℕ) where
  -- From one state to the other, at most `most` milliseconds pass.
  pub record Passes (most : ℕ) (c d : Session S) : Type 0 where
    pub early : time c.world ≤ time d.world
    pub late : time d.world ≤ time c.world + most

  pub record Softly (most : ℕ) {A : Type 0} (m : Exec (Session S) A) (c : Session S) : Type 0 where
    pub result : Result A
    pub state : Session S
    pub runs : m c ≡ (result, state)
    pub soft : IsSoftResult result
    pub passes : Passes most c state

  -- `ticks_ms` returns the stamp of a time at which it runs, `ticks_diff` is right for stamps less than
  -- 2 ^ 29 ms apart, `sleep_ms` sleeps at least as long as it is told, and no access takes more than
  -- `most` ms.
  pub record IsClock (clock : Clock (Session S)) (out_of_room : Exec (Session S) Bool)
      (read : ℕ → Exec (Session S) ℕ) (most : ℕ) : Type 0 where
    pub stamp : ℕ → ℕ
    pub ticks :
        (c : Session S)
        → Returns clock.ticks_ms c (λ now d. (now ≡ stamp (time d.world)) × Passes most c d)
    pub diff : (a n : ℕ) → n < 2 ^ 29 → clock.ticks_diff (stamp (a + n)) (stamp a) ≡ pos n
    pub sleeps :
        (ms : ℕ) (c : Session S)
        → Returns (clock.sleep_ms ms) c (λ _ d.
          (time c.world + ms ≤ time d.world) × (time d.world ≤ time c.world + (ms + most)))
    pub room : (c : Session S) → Returns out_of_room c (λ _ d. Passes most c d)
    pub reads : (r : ℕ) (c : Session S) → Softly most (read r) c

  module _ (clock : Clock (Session S)) (out_of_room : Exec (Session S) Bool)
      (read : ℕ → Exec (Session S) ℕ) (most : ℕ) (is_clock : IsClock clock out_of_room read most)
      (label : Text) (width vwidth : ℕ) where
    none-Passes : (c : Session S) → Passes 0 c c
    none-Passes c = record { early = omega arith; late = omega arith }

    then-Passes : {a b : ℕ} {c d e : Session S} → Passes a c d → Passes b d e → Passes (a + b) c e
    then-Passes p q = record {
      early = omega (arith, p.early, q.early);
      late = omega (arith, p.late, q.late);
    }

    attempt_lem :
        (r : ℕ) (c : Session S)
        → Returns
            (except_os_error (do value ← read r; pure (some value)) (λ _. pure none))
            c
            (λ _ d. Passes most c d)
    attempt_lem r c =
        let read_r = is_clock.reads r c in
        caught read_r.result read_r.state read_r.runs read_r.soft read_r.passes
      where
        caught :
            (a : Result ℕ) (d : Session S)
            → read r c ≡ (a, d)
            → IsSoftResult a
            → Passes most c d
            → Returns
                (except_os_error (do value ← read r; pure (some value)) (λ _. pure none))
                c
                (λ _ d. Passes most c d)
        caught (ok v) d e h p = record { value = some v; state = d; runs = rw e refl; holds = p }
        caught (err (os_error n)) d e h p = record {
          value = none;
          state = d;
          runs = rw e refl;
          holds = p;
        }
        caught (err (command_error m)) d e h p = absurd h
        caught (err (value_error v)) d e h p = absurd h
        caught (err interrupt) d e h p = absurd h
        caught (err system_exit) d e h p = absurd h
        caught (err (defect m)) d e h p = absurd h

    compare_lem :
        (o : Option ℕ) (r value : ℕ) (w : Watch) (c : Session S)
        → Returns (compare_with label width vwidth o r value w) c (λ _ d. Passes 0 c d)
    compare_lem none r value w c = Returns-pure _ c _ (none-Passes c)
    compare_lem (some before) r value w c = elim (Bool-cases (before == value)) [
      | inl e ↦ rw e (Returns-pure w c _ (none-Passes c))
      | inr e ↦ rw e (record {
        value = _;
        state = _;
        runs = refl;
        holds = record { early = omega arith; late = omega arith };
      })
    ]

    sweep_one_lem :
        (r : ℕ) (w : Watch) (c : Session S)
        → Returns (sweep_one read label width vwidth r w) c (λ _ d. Passes most c d)
    unfolding sweep_one
    sweep_one_lem r w c = Returns-bind (attempt_lem r c) (λ answer d p. seen answer d p)
      where
        seen :
            (answer : Option ℕ) (d : Session S)
            → Passes most c d
            → Returns
                (elim answer [
                  | none ↦ pure w
                  | some value ↦ compare_with label width vwidth (w.previous r) r value w
                ])
                d
                (λ _ d. Passes most c d)
        seen none d p = Returns-pure w d _ p
        seen (some v) d p = Returns-weaken (compare_lem (w.previous r) r v w d) (λ _ e q. record {
          early = omega (arith, p.early, q.early);
          late = omega (arith, p.late, q.late);
        })

    baseline_lem :
        (rs : List ℕ) (p : ℕ → Option ℕ) (c : Session S)
        → Returns
            (baseline clock out_of_room read label width vwidth rs p)
            c
            (λ _ d. Passes (sweep_time most rs) c d)
    unfolding baseline
    baseline_lem [] p c = Returns-pure p c _ (none-Passes c)
    baseline_lem (r ∷ rs) p c =
        Returns-bind (attempt_lem r c)
          (λ answer d h. Returns-weaken (baseline_lem rs _ d) (λ _ e k. then-Passes h k))

    look_lem :
        (rs : List ℕ) (s : Session S × Watch)
        → Returns
            (look clock out_of_room read label width vwidth rs)
            s
            (λ _ d. Passes (sweep_time most rs) (s.0) (d.0))
    unfolding look
    look_lem [] s = Returns-pure tt s _ (none-Passes s.0)
    look_lem (r ∷ rs) (c, w) =
        let one = sweep_one_lem r w c in
        let rest = look_lem rs (one.state, one.value) in
        record {
          value = tt;
          state = rest.state;
          runs = rw (one.runs, rest.runs) refl;
          holds = then-Passes one.holds rest.holds;
        }

    in_loop_lem :
        {A : Type 0} {m : Exec (Session S) A} {c : Session S} {P : A → Session S → Type 0}
        (w : Watch)
        → Returns m c P
        → Returns (in_loop m) (c, w) (λ a d. P a (d.0))
    in_loop_lem w r = record {
      value = r.value;
      state = (r.state, w);
      runs = rw r.runs refl;
      holds = r.holds;
    }

    module _ (rs : List ℕ) (seconds a : ℕ)
        (short : seconds * 1000 + round_time most rs + most < 2 ^ 29) where
      elapsed :
          (c d : Session S) (now : ℕ)
          → a ≤ time d.world
          → time d.world < a + 2 ^ 29
          → now ≡ is_clock.stamp (time d.world)
          → clock.ticks_diff now (is_clock.stamp a) ≡ pos (time d.world - a)
      elapsed c d now h k e =
          let split : time d.world ≡ a + (time d.world - a) = omega arith in
          ap (λ x. clock.ticks_diff x (is_clock.stamp a)) (e ∙ ap is_clock.stamp split)
          ∙ is_clock.diff a (time d.world - a) (omega (arith, h, k))

      before_end :
          (d : S) (now : ℕ)
          → clock.ticks_diff now (is_clock.stamp a) ≡ pos (time d - a)
          → ltb_ℤ (clock.ticks_diff now (is_clock.stamp a)) (pos (seconds * 1000)) ≡ true
          → time d < a + seconds * 1000
      before_end d now t y =
          let y2 : ltb (time d - a + 0) (seconds * 1000 + 0) ≡ true = rw t at y in
          ground (arith, y2)

      abbrev Loop : ℕ → Type 0
      Loop left =
          (s : Session S × Watch)
          → 0 < left
          → a ≤ time (s.0.world)
          → time (s.0.world) ≤ a + (seconds * 1000 + round_time most rs)
          → seconds * 1000 + 100 + a ≤ time (s.0.world) + 100 * left
          → Returns
              (poll_rounds clock out_of_room read label width vwidth left (is_clock.stamp a) seconds
                rs)
              s (λ _ _. Unit {0})

      -- A round that has found its time not yet over.
      round_lem :
          (left : ℕ)
          → Loop left
          → (full : Bool) (s : Session S × Watch) → 0 < left
          → a ≤ time (s.0.world)
          → time (s.0.world) < a + seconds * 1000 + most
          → seconds * 1000 + a ≤ time (s.0.world) + 100 * left
          → Returns
              (if full then pure nearly_full else (do
                look clock out_of_room read label width vwidth rs
                in_loop (clock.sleep_ms poll_ms)
                poll_rounds clock out_of_room read label width vwidth left
                    (is_clock.stamp a)
                    seconds
                    rs))
              s
              (λ _ _. Unit {0})
      round_lem left loop true s z h k g = Returns-pure nearly_full s _ tt
      round_lem left loop false s z h k g = Returns-bind (look_lem rs s) (λ _ d p.
          Returns-bind (in_loop_lem (d.1) (is_clock.sleeps 100 d.0)) (λ _ e q.
            loop e z (omega (arith, h, p.early, q.0)) (omega (arith, k, p.late, q.1))
              (omega (arith, g, p.early, q.0))))

      poll_lem : (left : ℕ) → Loop left
      unfolding poll_rounds
      poll_lem zero s z h k g = absurd (omega arith)
      poll_lem (suc left) (c, w) z h k g =
          Returns-bind (in_loop_lem w (is_clock.ticks c)) (λ now d1 (e, p).
            let t =
              elapsed c (d1.0) now (omega (arith, h, p.early)) (omega (arith, k, p.late, short))
                e in
            let next = before_end d1.0.world now t in
            elim (Bool-cases
              (ltb_ℤ (clock.ticks_diff now (is_clock.stamp a)) (pos (seconds * 1000)))) [
                | inr n ↦ rw n (Returns-pure timed_out d1 _ tt)
                | inl y ↦ rw y (
                    Returns-bind (in_loop_lem (d1.1) (is_clock.room d1.0)) (λ full d2 q.
                      let early = next y in
                      round_lem left (poll_lem left) full d2 (omega (arith, p.early, g, early))
                        (omega (arith, h, p.early, q.early)) (omega (arith, early, q.late))
                        (omega (arith, g, p.early, q.early))))
              ])

    summed_lem :
        (started : ℕ) (stop : Stop) (w : Watch) (c : Session S)
        → Returns
            (λ s. summed_up clock out_of_room read label width vwidth started (ok stop, (s, w)))
            c
            (λ _ _. Unit {0})
    summed_lem started stop w c =
        Returns-bind (is_clock.ticks c)
          (λ now d p. record { value = tt; state = _; runs = refl; holds = tt })

    watch_lem :
        (rs : List ℕ) (seconds rounds started : ℕ) (previous : ℕ → Option ℕ) (c : Session S)
        → seconds * 1000 + round_time most rs + most < 2 ^ 29
        → seconds * 10 + 1 ≤ rounds
        → started ≡ is_clock.stamp (time c.world)
        → Returns
            (watch_from clock out_of_room read label width vwidth rounds started seconds rs
              previous)
            c
            (λ _ _. Unit {0})
    unfolding watch_from
    watch_lem rs seconds rounds started previous c short h e =
        let loop =
          poll_lem rs seconds (time c.world) short rounds
            (c, record { previous = previous; changes = 0 }) (omega (arith, h)) (omega arith)
            (omega arith) (omega (arith, h)) in
        let last =
          summed_lem (is_clock.stamp (time c.world)) loop.value (loop.state.1) (loop.state.0) in
        rw e (record { value = tt; state = last.state; runs = rw loop.runs last.runs; holds = tt })

    -- On a clock that runs while it sleeps, with reads that raise `OSError`s only and accesses of at most
    -- `most` ms, ten rounds for each second and one more are enough, for sixty seconds if none are given:
    -- `run` returns, if the watch is so short that `ticks_diff` does not wrap around.
    pub run-Returns :
        (rs : List ℕ) (given : Option ℕ) (rounds : ℕ) (c : Session S)
        → seconds_or given * 1000 + round_time most rs + most < 2 ^ 29
        → seconds_or given * 10 + 1 ≤ rounds
        → Returns
            (run clock out_of_room read label width vwidth rounds rs given)
            c
            (λ _ _. Unit {0})
    unfolding run
    run-Returns rs given rounds c short h =
        Returns-bind (baseline_lem rs (λ r. none) c) (λ previous d p.
          Returns-bind (is_clock.ticks d) (λ started e q.
            let last =
              watch_lem rs (seconds_or given) rounds started previous (record e { lines = _ }) short
                h q.0 in
            record { value = tt; state = last.state; runs = last.runs; holds = tt }))
