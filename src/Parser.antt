-- ===== src/Parser.antt =====
-- src/python/cli/parser.py: from a typed line to arguments. Texts are lists of code points, and the
-- loops over characters are folds of one step. `int_of` is Python's own `int(text, base)`.
pub mod Range
pub mod Tokens
pub mod Redirect
pub mod Numbers
pub mod Spec
use mathlib.Core.List.{foldl}
use mdioprobe.Exec.Pure.{◌>>=◌}
use mdioprobe.Exec.{
  Result, ok, err, fails, says, unbalanced, not_a_number, out_of_range, runs_backwards, empty_spec,
}
use mdioprobe.Prelude.Int.{ℤ, pos, negsuc, pos_part, neg, ltb_ℤ}
use mdioprobe.Prelude.Text.{Text, text_eq, strip, lower_char, starts_with, split, cut_at, codes}
use mdioprobe.Prelude.{
  ℕ, zero, suc, ◌+◌, ◌-◌, ◌*◌, String, Bool, true, false, ◌&&◌, ◌||◌, List, [], ◌∷◌, ◌++◌, map,
  drop, take, Option, none, some, ltb, leb, ◌==◌, if◌then◌else◌,
}

abbrev pub is_quote : ℕ → Bool
is_quote c = c == b'"' || c == 39

abbrev pub is_blank : ℕ → Bool
is_blank c = c == b' ' || c == 9

-- The variables of the loop in `tokenize`; `started` is `have`.
pub record Lexer : Type 0 where
  pub tokens : List Text
  pub cur : Text
  pub quote : Option ℕ
  pub started : Bool

abbrev pub non_empty : Text → Bool
non_empty [] = false
non_empty (c ∷ s) = true

abbrev pub push_token : Lexer → Lexer
push_token l = record {
  tokens = l.tokens ++ (l.cur ∷ []);
  cur = [];
  quote = l.quote;
  started = false;
}

unfoldable pub outside : Lexer → ℕ → Lexer
outside l c =
    if is_quote c
    then record l { quote = some c; started = true }
    else if is_blank c
    then (if l.started || non_empty l.cur then push_token l else l)
    else record l { cur = l.cur ++ (c ∷ []) }

unfoldable pub inside : ℕ → Lexer → ℕ → Lexer
inside q l c = if c == q then record l { quote = none } else record l { cur = l.cur ++ (c ∷ []) }

unfoldable pub step_in : Option ℕ → Lexer → ℕ → Lexer
unfolding outside inside
step_in none l c = outside l c
step_in (some q) l c = inside q l c

unfoldable pub step : Lexer → ℕ → Lexer
unfolding step_in
step l c = step_in l.quote l c

abbrev pub fresh : Lexer
fresh = record { tokens = []; cur = []; quote = none; started = false }

abbrev pub finish_in : Option ℕ → Lexer → Result (List Text)
finish_in (some q) l = fails (unbalanced q)
finish_in none l = ok (if l.started || non_empty l.cur then l.tokens ++ (l.cur ∷ []) else l.tokens)

unfoldable pub tokenize : Text → Result (List Text)
unfolding step
tokenize line = let l = foldl step fresh line in finish_in l.quote l

-- What `split_redirect` returns.
pub record Redirected : Type 0 where
  pub line : Text
  pub path : Option Text
  pub append : Bool

abbrev pub quote_after : Option ℕ → ℕ → Option ℕ
quote_after (some q) c = if c == q then none else some q
quote_after none c = if is_quote c then some c else none

abbrev pub is_redirect : Option ℕ → ℕ → Bool
is_redirect (some q) c = false
is_redirect none c = c == b'>'

-- At the first `>` outside quotes, with what stands before and behind it.
abbrev pub peel : Text → Text → Result Redirected
peel before behind =
    let append = starts_with behind (b'>' ∷ []) in
    let path = strip (if append then drop 1 behind else behind) in
    if non_empty path
    then ok (record { line = strip before; path = some path; append = append })
    else fails (says "redirection needs a file name")

unfoldable pub redirect_from : Text → Option ℕ → Text → Text → Result Redirected
redirect_from line quote before [] = ok (record { line = line; path = none; append = false })
redirect_from line quote before (c ∷ rest) =
    let more = redirect_from line (quote_after quote c) (before ++ (c ∷ [])) rest in
    if is_redirect quote c then peel before rest else more

unfoldable pub split_redirect : Text → Result Redirected
unfolding redirect_from
split_redirect line = redirect_from line none [] line

-- The digit that a character stands for, 99 if it is none.
abbrev pub digit_value : ℕ → ℕ
digit_value c =
    if leb b'0' c && leb c b'9'
    then c - b'0'
    else if leb b'a' (lower_char c) && leb (lower_char c) b'z'
    then lower_char c - b'a' + 10
    else 99

-- The value of the digits read, and whether the last character was one of them.
abbrev pub read_digit : ℕ → Option (ℕ × Bool) → ℕ → Option (ℕ × Bool)
read_digit base none c = none
read_digit base (some (n, last)) c =
    if c == b'_'
    then (if last then some (n, false) else none)
    else if ltb (digit_value c) base
    then some (n * base + digit_value c, true)
    else none

abbrev pub digits_end : Option (ℕ × Bool) → Option ℕ
digits_end none = none
digits_end (some (n, last)) = if last then some n else none

unfoldable pub digits_of : ℕ → Text → Option ℕ
digits_of base s = digits_end (foldl (read_digit base) (some (0, false)) s)

abbrev pub has_prefix : Text → Text → Bool
has_prefix s p = starts_with (map lower_char s) p

-- `int(text, 16)` takes one more `0x`, and an underscore behind it.
unfoldable pub magnitude : ℕ → Text → Option ℕ
magnitude base s =
    if base == 16 && has_prefix s (b'0' ∷ b'x' ∷ [])
    then digits_of base (if starts_with (drop 2 s) (b'_' ∷ []) then drop 3 s else drop 2 s)
    else digits_of base s

abbrev pub signed : (ℕ → ℤ) → Option ℕ → Option ℤ
signed f none = none
signed f (some n) = some (f n)

-- `int(text, base)`; `none` is `ValueError`.
unfoldable pub int_of : ℕ → Text → Option ℤ
int_of base text =
    let s = strip text in
    if starts_with s (b'-' ∷ [])
    then signed (λ n. neg (pos n)) (magnitude base (drop 1 s))
    else if starts_with s (b'+' ∷ [])
    then signed pos (magnitude base (drop 1 s))
    else signed pos (magnitude base s)

abbrev pub or_no_number : Text → String → Option ℤ → Result ℤ
or_no_number token what none = fails (not_a_number what token)
or_no_number token what (some n) = ok n

abbrev pub negated : Option ℤ → Option ℤ
negated none = none
negated (some n) = some (neg n)

unfoldable pub integer : Text → String → Result ℤ
integer token what =
    let text = strip token in
    or_no_number token what (
      if has_prefix (take 2 text) (b'0' ∷ b'x' ∷ [])
      then int_of 16 (drop 2 text)
      else if has_prefix (take 3 text) (b'-' ∷ b'0' ∷ b'x' ∷ [])
      then negated (int_of 16 (drop 3 text))
      else int_of 10 text)

-- The bounds are never negative, so the value is a natural number.
unfoldable pub ranged : Text → ℕ → ℕ → String → Result ℕ
ranged token low high what = do
  value ← integer token what
  if ltb_ℤ value (pos low) || ltb_ℤ (pos high) value
      then fails (out_of_range what (pos low) (pos high) value)
      else ok (pos_part value)

unfoldable pub phy : Text → Result ℕ
phy token = ranged token 0 31 "PHY address"

unfoldable pub reg : Text → Result ℕ
reg token = ranged token 0 31 "register"

unfoldable pub u16 : Text → Result ℕ
u16 token = ranged token 0 0xffff "16-bit value"

-- `range(first, first + count)`
abbrev pub range : ℕ → ℕ → List ℕ
range first zero = []
range first (suc count) = first ∷ range (suc first) count

module _ (low high : ℕ) (what : String) where
  -- One part of a specification, with no blanks around it, cut at a `-` behind its first character.
  unfoldable pub spec_range : Text → Option (Text × Text) → Result (List ℕ)
  spec_range part none = do value ← ranged part low high what; ok (value ∷ [])
  spec_range part (some (a, b)) = do
    first ← ranged (take 1 part ++ a) low high what
    last ← ranged b low high what
    if ltb last first then fails (runs_backwards what part) else ok (range first (last + 1 - first))

  unfoldable pub spec_part : Text → Result (List ℕ)
  unfolding spec_range
  spec_part part = if non_empty part then spec_range part (cut_at b'-' (drop 1 part)) else ok []

  unfoldable pub spec_parts : List Text → Result (List ℕ)
  spec_parts [] = ok []
  spec_parts (p ∷ ps) = do out ← spec_part (strip p); more ← spec_parts ps; ok (out ++ more)

  abbrev pub some_found : List ℕ → Result (List ℕ)
  some_found [] = fails (empty_spec what)
  some_found (r ∷ rs) = ok (r ∷ rs)

unfoldable pub spec : Text → ℕ → ℕ → String → Result (List ℕ)
spec token low high what = do
  out ← spec_parts low high what (split b',' token)
  some_found low high what out
