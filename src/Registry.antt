-- ===== src/Registry.antt =====
-- src/python/cli/registry.py: the table of commands. A dict is a list of pairs in the order in which
-- the keys came, and `F` is the type of handlers.
pub mod Lookup
pub mod Categories
pub mod Members
pub mod Order
use mdioprobe.Exec.{Result, ok, fails, ambiguous, unknown_command}
use mdioprobe.Prelude.Text.{Text, text_eq, starts_with}
use mdioprobe.Prelude.{
  ℕ, Bool, true, false, ◌&&◌, ◌||◌, List, [], ◌∷◌, ◌++◌, Option, none, some, map, ltb, ◌==◌,
  if◌then◌else◌,
}

pub record Command (F : Type 0) : Type 0 where
  pub name : Text
  pub fn : F
  pub category : Text
  pub syntax : Text
  pub summary : Text
  pub detail : Text

-- `COMMANDS`
abbrev pub Table : Type 0 → Type 0
Table F = List (Text × Command F)

-- `s < t` of Python strings.
abbrev pub text_lt : Text → Text → Bool
text_lt [] [] = false
text_lt [] (d ∷ t) = true
text_lt (c ∷ s) [] = false
text_lt (c ∷ s) (d ∷ t) = ltb c d || (c == d && text_lt s t)

abbrev pub insert_text : Text → List Text → List Text
insert_text x [] = x ∷ []
insert_text x (y ∷ ys) = let rest = insert_text x ys in if text_lt y x then y ∷ rest else x ∷ y ∷ ys

-- `sorted(names)`
abbrev pub sorted : List Text → List Text
sorted [] = []
sorted (x ∷ xs) = insert_text x (sorted xs)

abbrev pub or_name : Text → Text → Text
or_name [] name = name
or_name (c ∷ s) name = c ∷ s

module _ {F : Type 0} where
  -- `COMMANDS[name] = cmd`: a key that is there keeps its place.
  abbrev pub put : Text → Command F → Table F → Table F
  put name cmd [] = (name, cmd) ∷ []
  put name cmd ((k, c) ∷ rest) =
      let more = put name cmd rest in if text_eq k name then (k, cmd) ∷ rest else (k, c) ∷ more

  -- `COMMANDS.get(name)`
  abbrev pub get : Text → Table F → Option (Command F)
  get name [] = none
  get name ((k, c) ∷ rest) = let more = get name rest in if text_eq k name then some c else more

  -- `command(...)(fn)`
  unfoldable pub command : Text → Text → Text → Text → Text → F → Table F → Table F
  command name category syntax summary detail fn table =
      put name
        (record {
          name = name;
          fn = fn;
          category = category;
          syntax = or_name syntax name;
          summary = summary;
          detail = detail;
        })
        table

  -- `near`, each name with its command.
  abbrev pub near : Text → Table F → Table F
  near name [] = []
  near name ((k, c) ∷ rest) =
      let more = near name rest in if starts_with k name then (k, c) ∷ more else more

  abbrev pub key : Text × Command F → Text
  key e = e.0

  abbrev pub only_one : Text → Table F → Result (Command F)
  only_one name [] = fails (unknown_command name)
  only_one name ((k, c) ∷ []) = ok c
  only_one name (e ∷ f ∷ rest) = fails (ambiguous name (sorted (map key (e ∷ f ∷ rest))))

  abbrev pub exact_or : Option (Command F) → Result (Command F) → Result (Command F)
  exact_or none r = r
  exact_or (some c) r = ok c

  unfoldable pub lookup : Text → Table F → Result (Command F)
  lookup name table = exact_or (get name table) (only_one name (near name table))
