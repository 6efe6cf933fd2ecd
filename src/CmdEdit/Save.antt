-- ===== src/CmdEdit/Save.antt =====
-- `_load` and `_save` on a volume that works.
use mdioprobe.CmdEdit.{load, save, is_there, stat_of, load_sized, keep_old, backup, max_bytes}
use mdioprobe.CmdFiles.Copy.{copy_file-Put, no_handle, with_content_self, with_handle_self}
use mdioprobe.Exec.Returns.{
  Returns, Returns-bind, Returns-pure, Returns-weaken, Returns-finally, Returns-recover,
}
use mdioprobe.Prelude.Text.{Text, codes, prepend, split, join}
use mdioprobe.Prelude.{
  ℕ, ◌≤◌, ◌≡◌, ◌≢◌, ◌⊎◌, refl, sym, ap, ◌∙◌, arith, Bool, true, false, Bool-cases, inl, inr, Option,
  none, some, List, [], ◌∷◌, length, length-append, ltb, ◌==◌, ==_iff,
}
use mdioprobe.Volume.Store.{Store, IsVolume, with_content, with_handle}
use mdioprobe.Volume.{Volume, Stat, read_text, write_text, with_file}

-- Nothing is open for reading.
abbrev pub Quiet : Store → Type 0
Quiet d = (g : ℕ) (q x : Text) → d.reads g ≡ some (q, x) → ⊥

-- The file has these lines; a file of no lines need not be there yet.
abbrev pub Same : Option Text → List Text → Type 0
Same content lines = (content ≡ some (join (10 ∷ []) lines)) ⊎ ((content ≡ none) × (lines ≡ []))

join-prepend :
    (c p : ℕ) (q : Text) (ps : List Text)
    → join (p ∷ []) (prepend c (q ∷ ps)) ≡ c ∷ join (p ∷ []) (q ∷ ps)
join-prepend c p q [] = refl
join-prepend c p q (r ∷ ps) = refl

split_parts : (sep : ℕ) (t : Text) → (p : Text) × (ps : List Text) × (split sep t ≡ p ∷ ps)
split_parts sep [] = ([], [], refl)
split_parts sep (c ∷ t) =
    let (p, ps, e) = split_parts sep t in
    elim (Bool-cases (c == sep)) [
      | inl y ↦ ([], split sep t, rw y refl)
      | inr n ↦ (c ∷ p, ps, rw (n, e) refl)
    ]

join-split : (sep : ℕ) (t : Text) → join (sep ∷ []) (split sep t) ≡ t
join-split sep [] = refl
join-split sep (c ∷ t) =
    let (p, ps, e) = split_parts sep t in
    let rest : join (sep ∷ []) (p ∷ ps) ≡ t = sym (ap (join (sep ∷ [])) e) ∙ join-split sep t in
    elim (Bool-cases (c == sep)) [
      | inl y ↦ rw (y, e, rest, (==_iff c sep).0 y) refl
      | inr n ↦ rw (n, e, join-prepend c sep p ps, rest) refl
    ]

-- What `os.stat` says of a file.
abbrev Found : Option Text → Option Stat → Type 0
Found content none = content ≡ none
Found content (some st) = (t : Text) × (content ≡ some t) × (st.size ≡ length t)

no_bak : (path : Text) → path ≢ backup path
no_bak path e = absurd (omega (arith, ap length e, length-append path (codes ".bak")))

module _ {S : Type 0} (vol : Volume S) (rounds : S → ℕ) (Shows : S → Store → Type 0)
    (works : IsVolume vol rounds Shows) (path : Text) where
  -- A store without readers, in which the file has these lines.
  abbrev pub Saved : List Text → S → Type 0
  Saved lines s = (e : Store) × Shows s e × Quiet e × (e.content path ≡ some (join (10 ∷ []) lines))

  -- A store without readers is shown.
  abbrev pub Calm : S → Type 0
  Calm s = (e : Store) × Shows s e × Quiet e

  closed :
      (f : ℕ) (d : Store) (t : Text)
      → Quiet d
      → Quiet (record d {
        content = with_content path (some t) (with_content path (some []) d.content);
        reads = with_handle f none d.reads;
        writes = with_handle f none (with_handle f (some path) d.writes);
      })
  closed f d t q g a b k = elim (Bool-cases (f == g)) [
    | inl z ↦ no_handle (rw z at k)
    | inr z ↦ q g a b (rw z at k)
  ]

  read_closed :
      (f : ℕ) (d : Store) (t : Text)
      → Quiet d
      → Quiet (record d {
        reads =
            with_handle f none
              (with_handle f (some (path, [])) (with_handle f (some (path, t)) d.reads));
        writes = with_handle f none d.writes;
      })
  read_closed f d t q g a b k = elim (Bool-cases (f == g)) [
    | inl z ↦ no_handle (rw z at k)
    | inr z ↦ q g a b (rw z at k)
  ]

  write_lem :
      (lines : List Text) (s : S) (d : Store)
      → Shows s d
      → Quiet d
      → Returns
          (with_file vol path write_text (λ f. vol.write f (join (10 ∷ []) lines)))
          s
          (λ _. Saved lines)
  write_lem lines s d sh q =
      let x = join (10 ∷ []) lines in
      Returns-bind (works.open_write s d path write_text tt sh (λ f p t k. absurd (q f p t k)))
        (λ f s1 sh1.
          Returns-finally
            (works.write s1 _ f path [] x sh1 (with_handle_self f _ d.writes)
              (with_content_self path _ d.content))
            (λ _ s2 sh2. Returns-weaken (works.close s2 _ f sh2) (λ _ s3 sh3. (
              _,
              sh3,
              closed f d x q,
              with_content_self path _ (with_content path (some []) d.content),
            ))))

  there_lem :
      (t : Option Text) (s : S) (d : Store)
      → d.content path ≡ t
      → Shows s d
      → Returns
          (is_there vol rounds path)
          s
          (λ b s'. Shows s' d × (b ≡ true → (x : Text) × (t ≡ some x)))
  there_lem none s d c sh =
      let miss = works.stat_none s d path sh c in
      record {
        value = false;
        state = miss.state;
        runs = rw miss.runs refl;
        holds = (miss.holds, λ e. absurd (cc));
      }
  there_lem (some t) s d c sh = Returns-recover _ (
      Returns-bind (works.stat_some s d path t sh c)
        (λ st s1 (_, sh1). Returns-pure true s1 _ (sh1, λ _. (t, refl))))

  keep_lem :
      (b : Bool) (s : S) (d : Store)
      → (b ≡ true → (t : Text) × (d.content path ≡ some t))
      → Shows s d
      → Quiet d
      → Returns (keep_old vol rounds path b) s (λ _. Calm)
  keep_lem false s d h sh q = Returns-pure tt s _ (d, sh, q)
  keep_lem true s d h sh q =
      let (t, c) = h refl in
      Returns-weaken
        (copy_file-Put vol rounds Shows works path (backup path) d t s (no_bak path)
          (λ f p x k. absurd (q f p x k)) c sh)
        (λ _ s2 (e, sh2, put). (e, sh2, λ g a b k. q g a b (put.fewer g a b k)))

  -- `_save` writes the lines, also when there was no such file.
  pub save-Saved :
      (lines : List Text) (s : S) (d : Store)
      → Shows s d
      → Quiet d
      → Returns (save vol rounds path lines) s (λ _. Saved lines)
  unfolding save
  save-Saved lines s d sh q =
      Returns-bind (there_lem (d.content path) s d refl sh) (λ b s1 (sh1, h).
        Returns-bind (keep_lem b s1 d h sh1 q) (λ _ s2 (e, sh2, q2). write_lem lines s2 e sh2 q2))

  -- The file was read and closed.
  abbrev pub Loaded : List Text → S → Type 0
  Loaded lines s = (e : Store) × Shows s e × Quiet e × Same (e.content path) lines

  read_lem :
      (d : Store) (t : Text) (s : S)
      → d.content path ≡ some t
      → Shows s d
      → Quiet d
      → Returns
          (with_file vol path read_text vol.read_all)
          s
          (λ x s'. (e : Store) × Shows s' e × Quiet e × (e.content path ≡ some x))
  read_lem d t s c sh q = Returns-bind (works.open_read s d path t read_text tt sh c) (λ f s1 sh1.
      Returns-finally (works.read_all s1 _ f path t sh1 (with_handle_self f _ d.reads))
        (λ x s2 (z, sh2).
          Returns-weaken (works.close s2 _ f sh2)
            (λ _ s3 sh3. (_, sh3, read_closed f d t q, c ∙ ap some (sym z)))))

  found_lem :
      (t : Option Text) (s : S) (d : Store)
      → d.content path ≡ t
      → Shows s d
      → Returns (stat_of vol rounds path) s (λ st s'. Shows s' d × Found (d.content path) st)
  found_lem none s d c sh =
      let miss = works.stat_none s d path sh c in
      record { value = none; state = miss.state; runs = rw miss.runs refl; holds = (miss.holds, c) }
  found_lem (some t) s d c sh = Returns-recover _ (
      Returns-bind (works.stat_some s d path t sh c)
        (λ st s1 (z, sh1). Returns-pure (some st) s1 _ (sh1, (t, c, z))))

  sized_lem :
      (d : Store) (s : S) (st : Option Stat)
      → Found (d.content path) st
      → ((t : Text) → d.content path ≡ some t → length t ≤ max_bytes)
      → Shows s d
      → Quiet d
      → Returns (load_sized vol rounds path st) s Loaded
  sized_lem d s none c small sh q = Returns-pure [] s _ (d, sh, q, inr (c, refl))
  sized_lem d s (some st) (t, c, z) small sh q =
      let fits : ltb max_bytes st.size ≡ false = ground (arith, small t c, z) in
      rw fits (
        Returns-bind (read_lem d t s c sh q) (λ x s1 (e, sh1, q1, c1).
          Returns-pure (split 10 x) s1 Loaded
            (e, sh1, q1, inl (c1 ∙ ap some (sym (join-split 10 x))))))

  -- `_load` returns the lines of a file of at most 8192 characters.
  pub load_lem :
      (d : Store) (s : S)
      → ((t : Text) → d.content path ≡ some t → length t ≤ max_bytes)
      → Shows s d
      → Quiet d
      → Returns (load vol rounds path) s Loaded
  unfolding load
  load_lem d s small sh q =
      Returns-bind (found_lem (d.content path) s d refl sh)
        (λ st s1 (sh1, found). sized_lem d s1 st found small sh1 q)
