-- ===== src/Monitor/Timeout.antt =====
-- `take_timeout` on arguments with and without a trailing `for <seconds>`.
use mdioprobe.Exec.{ok, fails, says}
use mdioprobe.Format.{decimal}
use mdioprobe.Monitor.{last_two, take_timeout}
use mdioprobe.Parser.Numbers.{integer-decimal}
use mdioprobe.Prelude.Text.{Text, text_eq, codes}
use mdioprobe.Prelude.{ℕ, suc, ◌≡◌, refl, false, List, [], ◌∷◌, ◌++◌, none, some}

pub last_two-append :
    (args : List Text) (a b : Text) → last_two (args ++ (a ∷ b ∷ [])) ≡ some (args, a, b)
last_two-append [] a b = refl
last_two-append (x ∷ []) a b = refl
last_two-append (x ∷ y ∷ []) a b = refl
last_two-append (x ∷ y ∷ z ∷ args) a b = rw (last_two-append (y ∷ z ∷ args) a b) refl

-- A trailing `for` and a number of seconds printed in decimal are peeled off whatever precedes them,
-- and a number of zero is refused; two last arguments of which the first is not `for` stay.
pub take_timeout-peels :
    (args : List Text) (n : ℕ) (a b : Text)
    → text_eq a (codes "for") ≡ false
    → (take_timeout (args ++ (codes "for" ∷ decimal (suc n) ∷ [])) ≡ ok (some (suc n), args))
      × (take_timeout (args ++ (codes "for" ∷ decimal 0 ∷ []))
          ≡ fails (says "duration must be positive"))
      × (take_timeout (args ++ (a ∷ b ∷ [])) ≡ ok (none, args ++ (a ∷ b ∷ [])))
unfolding take_timeout
take_timeout-peels args n a b h = (
  rw (last_two-append args (codes "for") (decimal (suc n)), integer-decimal (suc n) "duration")
      refl,
  rw (last_two-append args (codes "for") (decimal 0), integer-decimal 0 "duration") refl,
  rw (last_two-append args a b, h) refl,
)
