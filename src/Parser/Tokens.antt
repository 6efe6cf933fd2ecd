-- ===== src/Parser/Tokens.antt =====
-- `tokenize` against the grammar it reads: words of plain characters and quoted runs.
use mathlib.Core.List.{foldl, append-nil, append_assoc}
use mdioprobe.Exec.{Result, ok}
use mdioprobe.Parser.{Lexer, is_quote, is_blank, non_empty, step, finish_in, tokenize}
use mdioprobe.Prelude.Text.{Text, contains, join}
use mdioprobe.Prelude.{
  ℕ, ◌≡◌, refl, ap, ◌∙◌, Bool, true, false, ◌||◌, List, [], ◌∷◌, ◌++◌, map, none, some, arith, ◌==◌,
  All,
}

-- A piece of a word: a character that stands for itself, or a run between two equal quotes.
pub data Piece : Type 0 where
  plain : ℕ → Piece
  quoted : ℕ → Text → Piece

abbrev pub IsPiece : Piece → Type 0
IsPiece (plain c) = (is_quote c ≡ false) × (is_blank c ≡ false)
IsPiece (quoted q s) = (is_quote q ≡ true) × (contains q s ≡ false)

abbrev pub written : List Piece → Text
written [] = []
written (plain c ∷ ps) = c ∷ written ps
written (quoted q s ∷ ps) = q ∷ (s ++ (q ∷ written ps))

-- What the word stands for.
abbrev pub meant : List Piece → Text
meant [] = []
meant (plain c ∷ ps) = c ∷ meant ps
meant (quoted q s ∷ ps) = s ++ meant ps

abbrev pub IsWord : List Piece → Type 0
IsWord [] = ⊥
IsWord (p ∷ ps) = IsPiece p × All IsPiece ps

-- No quote is open: `cur` of the word has been read, `started` if with quotes.
abbrev at_word : List Text → Text → Bool → Lexer
at_word tokens cur started = record { tokens = tokens; cur = cur; quote = none; started = started }

abbrev in_quotes : List Text → Text → ℕ → Lexer
in_quotes tokens cur q = record { tokens = tokens; cur = cur; quote = some q; started = true }

abbrev has_quotes : List Piece → Bool
has_quotes [] = false
has_quotes (plain c ∷ ps) = has_quotes ps
has_quotes (quoted q s ∷ ps) = true

module _ (tokens : List Text) (cur : Text) where
  step_plain :
      (b : Bool) (c : ℕ)
      → is_quote c ≡ false
      → is_blank c ≡ false
      → step (at_word tokens cur b) c ≡ at_word tokens (cur ++ (c ∷ [])) b
  unfolding step
  step_plain b c h k = ground arith

  step_open :
      (b : Bool) (q : ℕ)
      → is_quote q ≡ true
      → step (at_word tokens cur b) q ≡ in_quotes tokens cur q
  unfolding step
  step_open b q h = ground arith

  step_close : (q : ℕ) → step (in_quotes tokens cur q) q ≡ at_word tokens cur true
  unfolding step
  step_close q = ground arith

  step_inside :
      (q c : ℕ)
      → (c == q) ≡ false
      → step (in_quotes tokens cur q) c ≡ in_quotes tokens (cur ++ (c ∷ [])) q
  unfolding step
  step_inside q c h = ground arith

  step_blank :
      (b : Bool)
      → (b || non_empty cur) ≡ true
      → step (at_word tokens cur b) b' ' ≡ at_word (tokens ++ (cur ∷ [])) [] false
  unfolding step
  step_blank b h = rw h

differs : (c q : ℕ) (b : Bool) → (c == q || b) ≡ false → (c == q) ≡ false
differs c q b h = ground arith

left_out : (c q : ℕ) (b : Bool) → (c == q || b) ≡ false → b ≡ false
left_out c q b h = ground arith

or-false : (b : Bool) → (b || false) ≡ b
or-false true = refl
or-false false = refl

or-true : (b : Bool) → (b || true) ≡ true
or-true true = refl
or-true false = refl

run_quoted :
    (tokens : List Text) (cur : Text) (q : ℕ) (s rest : Text)
    → contains q s ≡ false
    → foldl step (in_quotes tokens cur q) (s ++ (q ∷ rest))
      ≡ foldl step (at_word tokens (cur ++ s) true) rest
run_quoted tokens cur q [] rest h =
    ap (λ l. foldl step l rest) (step_close tokens cur q) ∙ rw append-nil
run_quoted tokens cur q (c ∷ s) rest h =
    ap (λ l. foldl step l (s ++ (q ∷ rest)))
      (step_inside tokens cur q c (differs c q (contains q s) h))
    ∙ run_quoted tokens (cur ++ (c ∷ [])) q s rest (left_out c q (contains q s) h)
    ∙ rw (append_assoc cur (c ∷ []) s)

run_word :
    (ps : List Piece) (tokens : List Text) (cur : Text) (b : Bool) (rest : Text)
    → All IsPiece ps
    → foldl step (at_word tokens cur b) (written ps ++ rest)
      ≡ foldl step (at_word tokens (cur ++ meant ps) (b || has_quotes ps)) rest
run_word [] tokens cur b rest h = rw (append-nil, or-false b)
run_word (plain c ∷ ps) tokens cur b rest h =
    ap (λ l. foldl step l (written ps ++ rest)) (step_plain tokens cur b c h.0.0 h.0.1)
    ∙ run_word ps tokens (cur ++ (c ∷ [])) b rest h.1
    ∙ rw (append_assoc cur (c ∷ []) (meant ps))
run_word (quoted q s ∷ ps) tokens cur b rest h =
    rw (append_assoc s (q ∷ written ps) rest, or-true b)
      (ap (λ l. foldl step l (s ++ (q ∷ (written ps ++ rest)))) (step_open tokens cur b q h.0.0)
        ∙ run_quoted tokens cur q s (written ps ++ rest) h.0.1
        ∙ run_word ps tokens (cur ++ s) true rest h.1
        ∙ rw (append_assoc cur s (meant ps)))

-- A word leaves a trace: a quote, or a character.
seen : (ps : List Piece) → IsWord ps → (has_quotes ps || non_empty (meant ps)) ≡ true
seen [] h = absurd h
seen (plain c ∷ ps) h = or-true (has_quotes ps)
seen (quoted q s ∷ ps) h = refl

IsWord-All : (ps : List Piece) → IsWord ps → All IsPiece ps
IsWord-All [] h = absurd h
IsWord-All (p ∷ ps) h = h

abbrev finish : Lexer → Result (List Text)
finish l = finish_in l.quote l

run_words :
    (ws : List (List Piece)) (tokens : List Text)
    → All IsWord ws
    → finish (foldl step (at_word tokens [] false) (join (b' ' ∷ []) (map written ws)))
      ≡ ok (tokens ++ map meant ws)
run_words [] tokens h = rw append-nil
run_words (w ∷ []) tokens h =
    rw (← append-nil (written w), run_word w tokens [] false [] (IsWord-All w h.0), seen w h.0)
run_words (w ∷ v ∷ ws) tokens h =
    ap finish (
      run_word w tokens [] false (b' ' ∷ join (b' ' ∷ []) (map written (v ∷ ws))) (IsWord-All w h.0)
      ∙ ap (λ l. foldl step l (join (b' ' ∷ []) (map written (v ∷ ws))))
          (step_blank tokens (meant w) (has_quotes w) (seen w h.0)))
    ∙ run_words (v ∷ ws) (tokens ++ (meant w ∷ [])) h.1
    ∙ rw (append_assoc tokens (meant w ∷ []) (map meant (v ∷ ws)))

-- A line of words, each of plain characters and quoted runs, with a blank between them is split into
-- what the words mean: quotes are taken off, what they enclose is kept as it is, blanks included.
pub tokenize-written :
    (ws : List (List Piece))
    → All IsWord ws
    → tokenize (join (b' ' ∷ []) (map written ws)) ≡ ok (map meant ws)
unfolding tokenize
tokenize-written ws h = run_words ws [] h
