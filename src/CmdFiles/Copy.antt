-- ===== src/CmdFiles/Copy.antt =====
-- `copy_file` on a volume that works: the copy has the content, and nothing else changes.
use mathlib.Core.List.{append-nil, append_assoc}
use mdioprobe.CmdFiles.{copy_chunks, copy_within, copy_file}
use mdioprobe.Exec.Returns.{
  Returns, Returns-bind, Returns-pure, Returns-weaken, Returns-finally, Returns-recover,
}
use mdioprobe.Exec.{Exec, pure, ◌>>◌}
use mdioprobe.Prelude.Text.{Text, text_eq, text_eq_iff}
use mdioprobe.Prelude.{
  ℕ, zero, suc, ◌+◌, ◌*◌, ◌<◌, ◌≤◌, ◌≡◌, ◌≢◌, refl, ap, ◌∙◌, arith, true, false, Bool-cases, inl,
  inr, Option, none, some, [], ◌∷◌, ◌++◌, length, take, drop, take-append-drop, length-drop, ◌==◌,
}
use mdioprobe.Volume.Store.{Store, IsVolume, Unread, with_content, with_handle}
use mdioprobe.Volume.{Volume, read_bytes, write_bytes}

-- Nothing is open for reading that was not.
abbrev pub Fewer : Store → Store → Type 0
Fewer e d = (g : ℕ) (q x : Text) → e.reads g ≡ some (q, x) → d.reads g ≡ some (q, x)

-- What is left after `path` got the content `t`.
pub record Put (d : Store) (path t : Text) (e : Store) : Type 0 where
  pub files : (q : Text) → e.content q ≡ with_content path (some t) d.content q
  pub fewer : Fewer e d

-- In the midst of a copy: what is written, and what is still to be read.
record Copying (src dst : Text) (d : Store) (source sink : ℕ) (done rest : Text) (e : Store)
    : Type 0 where
  reading : e.reads source ≡ some (src, rest)
  writing : e.writes sink ≡ some dst
  files : (q : Text) → e.content q ≡ with_content dst (some done) d.content q
  others :
      (g : ℕ) (q x : Text)
      → (source == g) ≡ false
      → e.reads g ≡ some (q, x)
      → d.reads g ≡ some (q, x)

-- The copy is written; only the source is open besides what was open before.
record Written (dst : Text) (d : Store) (source : ℕ) (t : Text) (e : Store) : Type 0 where
  files : (q : Text) → e.content q ≡ with_content dst (some t) d.content q
  others :
      (g : ℕ) (q x : Text)
      → (source == g) ≡ false
      → e.reads g ≡ some (q, x)
      → d.reads g ≡ some (q, x)

first_path : {a b c d : Text} → Path (Option (Text × Text)) (some (a, b)) (some (c, d)) → a ≡ c
first_path e = cc

pub no_handle {ℓ} : {A : Type ℓ} {q x : Text} → Path (Option (Text × Text)) none (some (q, x)) → A
no_handle e = cc

pub text_eq_refl : (s : Text) → text_eq s s ≡ true
text_eq_refl s = (text_eq_iff s s).1 refl

pub with_content_self :
    (path : Text) (t : Option Text) (content : Text → Option Text)
    → with_content path t content path ≡ t
with_content_self path t content = rw (text_eq_refl path)

pub with_handle_self :
    {A : Type 0} (f : ℕ) (a : A) (handles : ℕ → A) → with_handle f a handles f ≡ a
with_handle_self f a handles = ground arith

take_nil : (n : ℕ) (t : Text) → [] ≡ take (suc n) t → t ≡ []
take_nil n [] e = refl
take_nil n (c ∷ t) e = cc

take_some : (n : ℕ) (t : Text) (x : ℕ) (xs : Text) → x ∷ xs ≡ take n t → 0 < length t
take_some zero t x xs e = cc
take_some (suc n) [] x xs e = cc
take_some (suc n) (c ∷ t) x xs e = omega arith

joined : (x : ℕ) (xs rest : Text) → x ∷ xs ≡ take 256 rest → (x ∷ xs) ++ drop 256 rest ≡ rest
joined x xs rest p = ap (λ (l : Text). l ++ drop 256 rest) p ∙ take-append-drop 256 rest

module _ {S : Type 0} (vol : Volume S) (rounds : S → ℕ) (Shows : S → Store → Type 0)
    (works : IsVolume vol rounds Shows) (src dst : Text) (d : Store) where
  -- Some store of the kind is shown.
  abbrev Shown : (Store → Type 0) → S → Type 0
  Shown P s = (e : Store) × Shows s e × P e

  abbrev Loop : ℕ → Type 0
  Loop left =
      (source sink : ℕ) (done rest : Text) (s : S) (e : Store)
      → length rest + 256 ≤ 256 * left
      → Shows s e
      → Copying src dst d source sink done rest e
      → Returns (copy_chunks vol rounds left source sink) s
          (λ _. Shown (Copying src dst d source sink (done ++ rest) []))

  after_read :
      (source sink : ℕ) (done rest : Text) (e : Store) (n : ℕ)
      → Copying src dst d source sink done rest e
      → Copying src dst d source sink done
          (drop n rest)
          (record e { reads = with_handle source (some (src, drop n rest)) e.reads })
  after_read source sink done rest e n c = record {
    reading = with_handle_self source _ e.reads;
    writing = c.writing;
    files = c.files;
    others = λ g q x h k. c.others g q x h (rw h at k);
  }

  after_write :
      (source sink : ℕ) (done x rest : Text) (e : Store)
      → Copying src dst d source sink done rest e
      → Copying src dst d source sink
          (done ++ x)
          rest
          (record e { content = with_content dst (some (done ++ x)) e.content })
  after_write source sink done x rest e c = record {
    reading = c.reading;
    writing = c.writing;
    files = λ q. elim (Bool-cases (text_eq dst q)) [
      | inl t ↦ rw t refl
      | inr t ↦ rw t (c.files q ∙ rw t refl)
    ];
    others = c.others;
  }

  ended :
      (source sink : ℕ) (done rest : Text) (e : Store)
      → rest ≡ []
      → Copying src dst d source sink done (drop 256 rest) e
      → Copying src dst d source sink (done ++ rest) [] e
  ended source sink done rest e z c = rw (z, append-nil done) (rw z at c)

  chunk_lem :
      (left : ℕ)
      → Loop left
      → (source sink : ℕ) (done rest chunk : Text) (s : S) (e : Store)
      → length rest + 256 ≤ 256 * suc left
      → chunk ≡ take 256 rest
      → Shows s e
      → Copying src dst d source sink done (drop 256 rest) e
      → Returns
          (elim chunk as (λ _. Exec S (Unit {0})) [
            | [] ↦ pure tt
            | x ∷ xs ↦ vol.write sink (x ∷ xs) >> copy_chunks vol rounds left source sink
          ])
          s
          (λ _. Shown (Copying src dst d source sink (done ++ rest) []))
  chunk_lem left loop source sink done rest [] s e h p sh c =
      Returns-pure tt s _ (e, sh, ended source sink done rest e (take_nil 255 rest p) c)
  chunk_lem left loop source sink done rest (x ∷ xs) s e h p sh c =
      Returns-bind
        (works.write s e sink dst done (x ∷ xs) sh c.writing
          (c.files dst ∙ with_content_self dst (some done) d.content))
        (λ _ s1 sh1.
          Returns-weaken
            (loop source sink (done ++ (x ∷ xs)) (drop 256 rest) s1 _
              (omega (arith, length-drop 256 rest, take_some 256 rest x xs p)) sh1
              (after_write source sink done (x ∷ xs) (drop 256 rest) e c))
            (λ _ s2 (e2, sh2, c2).
              (e2, sh2, rw (append_assoc done (x ∷ xs) (drop 256 rest), joined x xs rest p) at c2)))

  chunks_lem : (left : ℕ) → Loop left
  unfolding copy_chunks
  chunks_lem zero source sink done rest s e h sh c = absurd (omega arith)
  chunks_lem (suc left) source sink done rest s e h sh c =
      Returns-bind (works.read_some s e source 256 src rest sh c.reading) (λ chunk s1 (p, sh1).
        chunk_lem left (chunks_lem left) source sink done rest chunk s1 _ h p sh1
          (after_read source sink done rest e 256 c))

  opened :
      (source : ℕ) (t : Text)
      → d.content src ≡ some t
      → src ≢ dst
      → Unread d dst
      → Unread (record d { reads = with_handle source (some (src, t)) d.reads }) dst
  opened source t e h u g q x k = elim (Bool-cases (source == g)) [
    | inl y ↦ (λ z. h (first_path (rw y at k) ∙ z))
    | inr n ↦ u g q x (rw n at k)
  ]

  begun :
      (source sink : ℕ) (t : Text)
      → Copying src dst d source sink [] t (record {
        content = with_content dst (some []) d.content;
        reads = with_handle source (some (src, t)) d.reads;
        writes = with_handle sink (some dst) d.writes;
      })
  begun source sink t = record {
    reading = with_handle_self source _ d.reads;
    writing = with_handle_self sink _ d.writes;
    files = λ q. refl;
    others = λ g q x y k. rw y at k;
  }

  sink_closed :
      (source sink : ℕ) (t : Text) (e : Store)
      → Copying src dst d source sink t [] e
      → Written dst d source t (record e {
        reads = with_handle sink none e.reads;
        writes = with_handle sink none e.writes;
      })
  sink_closed source sink t e c = record {
    files = c.files;
    others = λ g q x y k. elim (Bool-cases (sink == g)) [
      | inl z ↦ no_handle (rw z at k)
      | inr z ↦ c.others g q x y (rw z at k)
    ];
  }

  source_closed :
      (source : ℕ) (t : Text) (e : Store)
      → Written dst d source t e
      → Put d dst t (record e {
        reads = with_handle source none e.reads;
        writes = with_handle source none e.writes;
      })
  source_closed source t e c = record {
    files = c.files;
    fewer = λ g q x k. elim (Bool-cases (source == g)) [
      | inl z ↦ no_handle (rw z at k)
      | inr z ↦ c.others g q x z (rw z at k)
    ];
  }

  within_lem :
      (left : ℕ) (t : Text) (s : S)
      → length t + 256 ≤ 256 * left
      → src ≢ dst
      → Unread d dst
      → d.content src ≡ some t
      → Shows s d
      → Returns (copy_within vol rounds left src dst) s (λ _. Shown (Put d dst t))
  unfolding copy_within
  within_lem left t s n h u e sh =
      Returns-bind (Returns-recover _ (works.open_read s d src t read_bytes tt sh e))
        (λ source s1 sh1.
          Returns-finally {P = λ _. Shown (Written dst d source t)}
            (Returns-bind
              (Returns-recover _
                (works.open_write s1 _ dst write_bytes tt sh1 (opened source t e h u)))
              (λ sink s2 sh2.
                Returns-finally (chunks_lem left source sink [] t s2 _ n sh2 (begun source sink t))
                  (λ _ s3 (e3, sh3, c3).
                    Returns-weaken (works.close s3 e3 sink sh3)
                      (λ _ s4 sh4. (_, sh4, sink_closed source sink t e3 c3)))))
            (λ _ s5 (e5, sh5, c5).
              Returns-weaken (works.close s5 e5 source sh5)
                (λ _ s6 sh6. (_, sh6, source_closed source t e5 c5))))

  -- On a volume that works, where `src` is a file with the content `t`, `dst` another path, and nobody
  -- has `dst` open for reading: `copy_file` returns, `dst` has the content `t`, every other file,
  -- `src` with them, its own, and nothing is open for reading that was not.
  pub copy_file-Put :
      (t : Text) (s : S)
      → src ≢ dst
      → Unread d dst
      → d.content src ≡ some t
      → Shows s d
      → Returns (copy_file vol rounds src dst) s (λ _. Shown (Put d dst t))
  unfolding copy_file
  copy_file-Put t s h u e sh =
      let r = within_lem (rounds s) t s (works.enough s d src t sh e) h u e sh in
      record { value = r.value; state = r.state; runs = r.runs; holds = r.holds }
