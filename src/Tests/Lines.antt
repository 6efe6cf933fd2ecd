-- ===== src/Tests/Lines.antt =====
-- The parser at typed lines.
use mdioprobe.Exec.{ok, fails, says, not_a_number, out_of_range, unbalanced, runs_backwards}
use mdioprobe.Format.{decimal, digits}
use mdioprobe.Parser.Range.{Within, spec-Within}
use mdioprobe.Parser.Redirect.{split_redirect-written}
use mdioprobe.Parser.Spec.{single, between, spec-typed}
use mdioprobe.Parser.Tokens.{Piece, plain, quoted, tokenize-written}
use mdioprobe.Parser.{
  tokenize, split_redirect, integer, spec, ranged, int_of, magnitude, digits_of, spec_parts,
  spec_part,
}
use mdioprobe.Prelude.Int.{pos, negsuc}
use mdioprobe.Prelude.Text.{codes, strip}
use mdioprobe.Prelude.{ℕ, ◌≡◌, ◌≢◌, refl, List, [], ◌∷◌, some, none, true, false, arith, All}

-- write 'a b'"c"
abbrev words : List (List Piece)
words =
    (plain b'c' ∷ plain b'd' ∷ [])
    ∷ (quoted 39 (codes "a b") ∷ quoted b'"' (codes "c") ∷ plain b'/' ∷ [])
    ∷ (quoted b'"' [] ∷ [])
    ∷ []

tokenize-written_example :
    tokenize (codes "cd 'a b'\"c\"/ \"\"") ≡ ok (codes "cd" ∷ codes "a bc/" ∷ [] ∷ [])
tokenize-written_example = tokenize-written words (
  ((refl, refl), ((refl, refl), tt)),
  (((refl, refl), ((refl, refl), ((refl, refl), tt))), (((refl, refl), tt), tt)),
)

tokenize_unbalanced : tokenize (codes "cat 'a b") ≡ fails (unbalanced 39)
unfolding tokenize
tokenize_unbalanced = refl

abbrev command : List Piece
command = plain b'l' ∷ plain b's' ∷ plain b' ' ∷ quoted 39 (codes ">") ∷ plain b' ' ∷ []

split_redirect-written_example :
    (split_redirect (codes "ls '>' ")
      ≡ ok (record { line = codes "ls '>' "; path = none; append = false }))
    × (split_redirect (codes "ls '>' > out.txt ")
        ≡ ok (record {
          line = strip (codes "ls '>' ");
          path = some (strip (codes " out.txt "));
          append = false;
        }))
    × (split_redirect (codes "ls '>' >> out.txt ")
        ≡ ok (record {
          line = strip (codes "ls '>' ");
          path = some (strip (codes " out.txt "));
          append = true;
        }))
    × (split_redirect (codes "ls '>' >") ≡ fails (says "redirection needs a file name"))
unfolding strip
split_redirect-written_example =
    split_redirect-written command (codes " out.txt ")
      ((refl, refl), ((refl, refl), ((refl, refl), ((refl, refl), ((refl, refl), tt))))) refl refl

integer_runs :
    (integer (codes " -0x1_0 ") "value" ≡ ok (negsuc 15))
    × (integer (codes "0x") "value" ≡ fails (not_a_number "value" (codes "0x")))
    × (integer (codes "12a") "value" ≡ fails (not_a_number "value" (codes "12a")))
unfolding integer int_of magnitude digits_of strip
integer_runs = (refl, refl, refl)

spec-typed_example : spec (codes "0,2-4,31") 0 31 "register" ≡ ok (0 ∷ 2 ∷ 3 ∷ 4 ∷ 31 ∷ [])
unfolding decimal digits
spec-typed_example =
    spec-typed 0 31 "register" (single 0) (between 2 4 ∷ single 31 ∷ []) (omega arith)

spec-Within_example : (◌≢◌ {A = List ℕ} (0 ∷ 2 ∷ 3 ∷ []) []) × All (Within 0 31) (0 ∷ 2 ∷ 3 ∷ [])
unfolding spec spec_parts spec_part ranged integer int_of magnitude digits_of strip
spec-Within_example = spec-Within 0 31 "register" (codes "0, 2-3,") (0 ∷ 2 ∷ 3 ∷ []) refl

spec_errors :
    (spec (codes "7-3") 0 31 "register" ≡ fails (runs_backwards "register" (codes "7-3")))
    × (spec (codes "1,32") 0 31 "register"
        ≡ fails (out_of_range "register" (pos 0) (pos 31) (pos 32)))
unfolding spec spec_parts spec_part ranged integer int_of magnitude digits_of strip
spec_errors = (refl, refl)
