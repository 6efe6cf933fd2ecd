-- ===== src/CmdEdit/Steps.antt =====
-- Every command of the editor keeps the file and the buffer together.
use mdioprobe.CmdEdit.Kept.{
  Tame, Kept, Kept-true, NoDiscard, Lands, Keeps, Steps, Fits, continue-Lands, Keeps-bind,
  Steps-bind, of_Returns, lift-Keeps, say_lem, ends_of-Tame, span_of-Tame, place_of-Tame,
  first_number-Tame,
}
use mdioprobe.CmdEdit.Save.{save-Saved}
use mdioprobe.CmdEdit.Places.{
  Verb, verb_of, help, print, find, add, insert, edit, replace, delete, write, quit, discard,
  unknown, Applied, going, unsaved, help_lines, inserted, replaced,
}
use mdioprobe.CmdEdit.Verbs.{
  say_all, print_from, print_lines, find_from, find_lines, block_read, read_block, add_block,
  replace_block, edit_line, run_verb, apply,
}
use mdioprobe.CmdEdit.Words.{first_word, words, has_part}
use mdioprobe.CmdEdit.{
  Typed, typed, interrupted, ended, Desk, on_desk, set_lines, next_of, next_input, block_of, save,
}
use mdioprobe.Exec.Returns.{Returns}
use mdioprobe.Exec.{Exec, Result, pure, lift, ◌>>=◌, ◌>>◌}
use mdioprobe.Prelude.Text.{Text, text_eq, codes}
use mdioprobe.Prelude.{
  ℕ, ◌+◌, ◌-◌, Bool, true, false, List, [], ◌∷◌, Option, none, some, set, ◌≢◌, refl, All,
  Bool-cases, inl, inr, Option-cases, if◌then◌else◌,
}
use mdioprobe.Volume.Store.{Store, IsVolume}
use mdioprobe.Volume.{Volume}

block_of-All : (inputs : List Typed) → All NoDiscard inputs → All NoDiscard ((block_of inputs).1)
unfolding block_of
block_of-All [] h = h
block_of-All (interrupted ∷ rest) h = h.1
block_of-All (ended ∷ rest) h = h.1
block_of-All (typed line ∷ rest) h = elim (Bool-cases (text_eq line (codes "."))) [
  | inl y ↦ rw y h.1
  | inr n ↦ (elim (Option-cases (block_of rest).0) [
    | inl e ↦ rw (n, e) (block_of-All rest h.1)
    | inr (b, e) ↦ rw (n, e) (block_of-All rest h.1)
  ])
]

module _ {S : Type 0} (vol : Volume S) (rounds : S → ℕ) (Shows : S → Store → Type 0)
    (works : IsVolume vol rounds Shows) (path : Text) (say : Text → Exec S (Unit {0}))
    (speaks : (t : Text) (s : S) (d : Store)
      → Shows s d
      → Returns (say t) s (λ _ s'. Shows s' d)) where
  quit-Steps :
      (dirty : Bool) (rest : List Text) (tail verb : Text)
      → Steps Shows path dirty (run_verb vol rounds say path quit rest tail verb dirty)
  unfolding run_verb
  quit-Steps true rest tail verb = λ c k.
      continue-Lands Shows path true (Fits Shows path) _ (on_desk (say unsaved) c)
        (of_Returns Shows path true (say_lem Shows path say speaks true unsaved c k))
        (λ _ c1 k1. k1)
  quit-Steps false rest tail verb = λ c k. k

  module _ (dirty : Bool) where
    abbrev Keep : {A : Type 0} → Exec (Desk S) A → Type 0
    Keep m = Keeps Shows path dirty m

    abbrev Step : Exec (Desk S) Applied → Type 0
    Step m = Steps Shows path dirty m

    says : (t : Text) → Keep (on_desk (say t))
    says t c k = of_Returns Shows path dirty (say_lem Shows path say speaks dirty t c k)

    -- Something is said, and the loop goes on as it was.
    on : (m : Exec (Desk S) (Unit {0})) → Keep m → Step (do m; pure (going dirty))
    on m h = Steps-bind Shows path dirty m _ h (λ _ c k. k)

    say_all-Keeps : (ts : List Text) → Keep (say_all say ts)
    unfolding say_all
    say_all-Keeps [] = λ c k. k
    say_all-Keeps (t ∷ ts) = Keeps-bind Shows path dirty _ _ (says t) (λ _. say_all-Keeps ts)

    print_from-Keeps :
        (numbered : Bool) (lines : List Text) (is : List ℕ)
        → Keep (print_from say numbered lines is)
    unfolding print_from
    print_from-Keeps numbered lines [] = λ c k. k
    print_from-Keeps numbered lines (i ∷ is) =
        Keeps-bind Shows path dirty _ _ (says _) (λ _. print_from-Keeps numbered lines is)

    print_lines-Keeps :
        (numbered : Bool) (args lines : List Text) → Keep (print_lines say numbered args lines)
    unfolding print_lines
    print_lines-Keeps numbered args [] = says (codes "(empty)")
    print_lines-Keeps numbered args (l ∷ lines) =
        Keeps-bind Shows path dirty _ _
          (lift-Keeps Shows path dirty (ends_of-Tame (l ∷ lines) args))
          (λ ends. print_from-Keeps numbered (l ∷ lines) _)

    find_from-Keeps :
        (text : Text) (i hits : ℕ) (lines : List Text) → Keep (find_from say text i hits lines)
    unfolding find_from
    find_from-Keeps text i hits [] = λ c k. k
    find_from-Keeps text i hits (line ∷ lines) =
        Keeps-bind Shows path dirty _ _ (said (has_part text line) _)
          (λ _. find_from-Keeps text (i + 1) _ lines)
      where
        said : (b : Bool) (t : Text) → Keep (if b then on_desk (say t) else pure tt)
        said true t = says t
        said false t = λ c k. k

    find_lines-Keeps : (tail : Text) (lines : List Text) → Keep (find_lines say tail lines)
    unfolding find_lines
    find_lines-Keeps [] lines = λ c k. k
    find_lines-Keeps (x ∷ s) lines =
        Keeps-bind Shows path dirty _ _ (find_from-Keeps (x ∷ s) 1 0 lines) (λ hits. says _)

    -- Some lines are taken from what will be typed.
    pub typed_on :
        (rest : List Typed) (c : Desk S)
        → All NoDiscard rest
        → Kept Shows path dirty c
        → Kept Shows path dirty (record c { inputs = rest })
    typed_on rest c h k = record {
      store = k.store;
      shown = k.shown;
      quiet = k.quiet;
      same = k.same;
      calm = h;
    }

    block_read-Keeps : (found : Option (List Text)) → Keep (block_read say found)
    block_read-Keeps none = Keeps-bind Shows path dirty _ _ (says _) (λ _ c k. k)
    block_read-Keeps (some b) = λ c k. k

    read_block-Keeps : Keep (read_block say)
    unfolding read_block
    read_block-Keeps c k =
        block_read-Keeps ((block_of c.inputs).0) _ (typed_on _ c (block_of-All c.inputs k.calm) k)

    next_of-Lands :
        (xs : List Typed) (c : Desk S)
        → All NoDiscard xs
        → Kept Shows path dirty c
        → Lands Shows path dirty
            (λ event c'. NoDiscard event × Kept Shows path dirty c')
            (next_of xs c)
    next_of-Lands [] c h k = (tt, k)
    next_of-Lands (x ∷ xs) c h k = (h.0, typed_on xs c h.1 k)

    next_input-Lands :
        (c : Desk S)
        → Kept Shows path dirty c
        → Lands Shows path dirty
            (λ event c'. NoDiscard event × Kept Shows path dirty c')
            (next_input c)
    unfolding next_input
    next_input-Lands c k = next_of-Lands c.inputs c k.calm k

    -- The buffer is changed, which is said and noted.
    changes :
        (lines : List Text) (t : Text)
        → Step (do set_lines lines; on_desk (say t); pure (going true))
    changes lines t c k =
        continue-Lands Shows path dirty (Fits Shows path) _
          (on_desk (say t) (record c { lines = lines }))
          (of_Returns Shows path dirty
            (say_lem Shows path say speaks true t _ (Kept-true Shows path lines k)))
          (λ _ c1 k1. k1)

    add_block-Steps : (at : ℕ) (found : Option (List Text)) → Step (add_block say dirty at found)
    unfolding add_block
    add_block-Steps at none = λ c k. k
    add_block-Steps at (some []) = λ c k. k
    add_block-Steps at (some (l ∷ block)) = λ c k. changes (inserted at (l ∷ block) c.lines) _ c k

    replace_block-Steps :
        (n : ℕ) (found : Option (List Text)) → Step (replace_block say dirty n found)
    unfolding replace_block
    replace_block-Steps n none = λ c k. k
    replace_block-Steps n (some block) = λ c k. changes (replaced n block c.lines) _ c k

    edit_line-Steps : (n : ℕ) (event : Typed) → Step (edit_line say dirty n event)
    unfolding edit_line
    edit_line-Steps n (typed []) = λ c k. k
    edit_line-Steps n (typed (x ∷ s)) = λ c k. Kept-true Shows path (set c.lines (n - 1) (x ∷ s)) k
    edit_line-Steps n interrupted = on _ (says _)
    edit_line-Steps n ended = on _ (says _)

    -- A block is read at the place that the words give.
    placed :
        {A : Type 0} {r : Result A} (act : A → Option (List Text) → Exec (Desk S) Applied)
        → Tame r
        → ((a : A) (found : Option (List Text)) → Step (act a found))
        → Step (do a ← lift r; found ← read_block say; act a found)
    placed act h k =
        Steps-bind Shows path dirty _ _ (lift-Keeps Shows path dirty h)
          (λ a. Steps-bind Shows path dirty _ _ read_block-Keeps (k a))

    edited :
        (n : ℕ) (t : Text)
        → Step (do on_desk (say t); event ← next_input; edit_line say dirty n event)
    edited n t = Steps-bind Shows path dirty _ _ (says t) (λ _ c k.
        continue-Lands Shows path dirty _ _ (next_input c) (next_input-Lands c k)
          (λ event c1 k1. edit_line-Steps n event c1 k1.1))

    written :
        (c : Desk S)
        → Kept Shows path dirty c
        → Returns (on_desk (save vol rounds path c.lines)) c (λ _. Kept Shows path false)
    written c k =
        let r = save-Saved vol rounds Shows works path c.lines c.world k.store k.shown k.quiet in
        let (e, sh, q, same) = r.holds in
        record {
          value = tt;
          state = record c { world = r.state };
          runs = rw r.runs refl;
          holds = record { store = e; shown = sh; quiet = q; same = λ _. inl same; calm = k.calm };
        }

    run_verb-Steps :
        (v : Verb) (rest : List Text) (tail verb : Text)
        → v ≢ discard
        → Step (run_verb vol rounds say path v rest tail verb dirty)
    unfolding run_verb
    run_verb-Steps help rest tail verb h = on _ (say_all-Keeps help_lines)
    run_verb-Steps (print numbered) rest tail verb h =
        λ c k. on _ (print_lines-Keeps numbered rest c.lines) c k
    run_verb-Steps find rest tail verb h = λ c k. on _ (find_lines-Keeps tail c.lines) c k
    run_verb-Steps add rest tail verb h =
        λ c k. placed _ (place_of-Tame false c.lines rest) add_block-Steps c k
    run_verb-Steps insert rest tail verb h =
        λ c k. placed _ (place_of-Tame true c.lines rest) add_block-Steps c k
    run_verb-Steps edit rest tail verb h = λ c k.
        Steps-bind Shows path dirty _ _
          (lift-Keeps Shows path dirty (first_number-Tame "e needs a line number" c.lines rest))
          (λ n. edited n _) c k
    run_verb-Steps replace rest tail verb h = λ c k.
        placed _ (first_number-Tame "r needs a line number" c.lines rest) replace_block-Steps c k
    run_verb-Steps delete rest tail verb h = λ c k.
        Steps-bind Shows path dirty _ _ (lift-Keeps Shows path dirty (span_of-Tame c.lines rest))
          (λ ends. changes _ _) c k
    run_verb-Steps write rest tail verb h = λ c k.
        continue-Lands Shows path dirty (Fits Shows path) _
          (on_desk (save vol rounds path c.lines) c) (of_Returns Shows path dirty (written c k))
          (λ _ c1 k1.
            continue-Lands Shows path dirty (Fits Shows path) _ (on_desk (say _) c1)
              (of_Returns Shows path dirty (say_lem Shows path say speaks false _ c1 k1))
              (λ _ c2 k2. k2))
    run_verb-Steps quit rest tail verb h = quit-Steps dirty rest tail verb
    run_verb-Steps discard rest tail verb h = absurd (h refl)
    run_verb-Steps unknown rest tail verb h = λ c k. k

    pub apply-Steps :
        (x : Text) → verb_of ((first_word x).0) ≢ discard → Step (apply vol rounds say path x dirty)
    unfolding apply
    apply-Steps x h =
        let parts = first_word x in
        run_verb-Steps (verb_of (parts.0)) (words (parts.1)) (parts.1) (parts.0) h
