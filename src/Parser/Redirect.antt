-- ===== src/Parser/Redirect.antt =====
-- `split_redirect` on a line of characters and quoted runs.
use mathlib.Core.List.{append-nil, append_assoc}
use mdioprobe.Exec.{ok, fails, says}
use mdioprobe.Parser.Tokens.{Piece, plain, quoted, written}
use mdioprobe.Parser.{quote_after, is_quote, non_empty, redirect_from, split_redirect}
use mdioprobe.Prelude.Text.{Text, contains, strip, starts_with}
use mdioprobe.Prelude.{
  ℕ, ◌≡◌, sym, ap, ◌∙◌, Bool, true, false, ◌||◌, List, [], ◌∷◌, ◌++◌, none, some, arith, ◌==◌, All,
}

-- What may stand before a redirection: no `>` but in quotes.
abbrev pub IsCommandPiece : Piece → Type 0
IsCommandPiece (plain c) = (is_quote c ≡ false) × ((c == b'>') ≡ false)
IsCommandPiece (quoted q s) = (is_quote q ≡ true) × (contains q s ≡ false)

module _ (line : Text) where
  pass_inside :
      (before : Text) (q : ℕ) (s rest : Text)
      → contains q s ≡ false
      → redirect_from line (some q) before (s ++ (q ∷ rest))
        ≡ redirect_from line none (before ++ (s ++ (q ∷ []))) rest
  unfolding redirect_from
  pass_inside before q [] rest h =
      ap (λ o. redirect_from line o (before ++ (q ∷ [])) rest) (closes q)
    where
      closes : (q : ℕ) → quote_after (some q) q ≡ none
      closes q = ground arith
  pass_inside before q (c ∷ s) rest h =
      ap (λ o. redirect_from line o (before ++ (c ∷ [])) (s ++ (q ∷ rest)))
        (stays c q (contains q s) h)
      ∙ pass_inside (before ++ (c ∷ [])) q s rest (left_out c q (contains q s) h)
      ∙ rw (append_assoc before (c ∷ []) (s ++ (q ∷ [])))
    where
      stays : (c q : ℕ) (b : Bool) → (c == q || b) ≡ false → quote_after (some q) c ≡ some q
      stays c q b h = ground arith

      left_out : (c q : ℕ) (b : Bool) → (c == q || b) ≡ false → b ≡ false
      left_out c q b h = ground arith

  pass :
      (ps : List Piece) (before rest : Text)
      → All IsCommandPiece ps
      → redirect_from line none before (written ps ++ rest)
        ≡ redirect_from line none (before ++ written ps) rest
  unfolding redirect_from
  pass [] before rest h = rw append-nil
  pass (plain c ∷ ps) before rest h =
      rw (h.0.1, h.0.0)
        (pass ps (before ++ (c ∷ [])) rest h.1 ∙ rw (append_assoc before (c ∷ []) (written ps)))
  pass (quoted q s ∷ ps) before rest h =
      rw (not_mark q h.0.0, h.0.0, append_assoc s (q ∷ written ps) rest)
        (pass_inside (before ++ (q ∷ [])) q s (written ps ++ rest) h.0.1
          ∙ pass ps ((before ++ (q ∷ [])) ++ (s ++ (q ∷ []))) rest h.1
          ∙ rw (regrouped before q s (written ps)))
    where
      not_mark : (q : ℕ) → is_quote q ≡ true → (q == b'>') ≡ false
      not_mark q h = ground arith

      regrouped :
          (b : Text) (q : ℕ) (s w : Text)
          → ((b ++ (q ∷ [])) ++ (s ++ (q ∷ []))) ++ w ≡ b ++ (q ∷ (s ++ (q ∷ w)))
      regrouped b q s w = simp append_assoc

-- After a command of plain characters and quoted runs with no '>' outside quotes: the command
-- alone is kept as it is with no path; with `> path` or `>> path`, both sides come back stripped,
-- and `append` is set for `>>` alone; with a bare '>' the line is refused. The path must not be
-- blank nor begin with '>'.
pub split_redirect-written :
    (ps : List Piece) (path : Text)
    → All IsCommandPiece ps
    → starts_with path (b'>' ∷ []) ≡ false
    → non_empty (strip path) ≡ true
    → (split_redirect (written ps) ≡ ok (record { line = written ps; path = none; append = false }))
      × (split_redirect (written ps ++ (b'>' ∷ path))
          ≡ ok (record { line = strip (written ps); path = some (strip path); append = false }))
      × (split_redirect (written ps ++ (b'>' ∷ b'>' ∷ path))
          ≡ ok (record { line = strip (written ps); path = some (strip path); append = true }))
      × (split_redirect (written ps ++ (b'>' ∷ [])) ≡ fails (says "redirection needs a file name"))
unfolding split_redirect strip
split_redirect-written ps path h one some_path = (
  ap (redirect_from (written ps) none []) (sym (append-nil (written ps)))
      ∙ pass (written ps) ps [] [] h,
  pass _ ps [] (b'>' ∷ path) h ∙ rw (one, some_path),
  pass _ ps [] (b'>' ∷ b'>' ∷ path) h ∙ rw some_path,
  pass _ ps [] (b'>' ∷ []) h,
)
