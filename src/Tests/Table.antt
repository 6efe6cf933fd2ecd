-- ===== src/Tests/Table.antt =====
-- A table of three commands, whose handlers are numbers.
use mdioprobe.Exec.{ok, fails, ambiguous, unknown_command}
use mdioprobe.Prelude.Text.{Text, codes}
use mdioprobe.Prelude.{ℕ, [], ◌∷◌, ◌≡◌, refl, ◌⊎◌, String}
use mdioprobe.Registry.Categories.{by_category, ordered_categories}
use mdioprobe.Registry.Lookup.{IsAt, IsOnly, lookup-finds}
use mdioprobe.Registry.{Command, Table, lookup, command}

abbrev add : String → ℕ → Table ℕ → Table ℕ
add name fn = command (codes name) (codes "mdio") [] [] [] fn

abbrev table : Table ℕ
table = add "modify" 3 (add "mode" 2 (add "read" 1 []))

abbrev of_name : String → ℕ → Command ℕ
of_name name fn = record {
  name = codes name;
  fn = fn;
  category = codes "mdio";
  syntax = codes name;
  summary = [];
  detail = [];
}

table_runs :
    (lookup (codes "r") table ≡ ok (of_name "read" 1))
    × (lookup (codes "mod") table
        ≡ fails (ambiguous (codes "mod") (codes "mode" ∷ codes "modify" ∷ [])))
    × (lookup (codes "x") table ≡ fails (unknown_command (codes "x")))
unfolding lookup command
table_runs = (refl, refl, refl)

lookup-finds_example :
    (k : Text) × IsAt table (k, of_name "read" 1)
    × ((k ≡ codes "r") ⊎ IsOnly (codes "r") table (k, of_name "read" 1))
lookup-finds_example = lookup-finds (codes "r") table (of_name "read" 1) table_runs.0

-- Two categories, of which one has a fixed place; the commands are in the order of their names.
table_groups :
    (by_category (command (codes "a") (codes "zoo") [] [] [] 4 table)
      ≡ (codes "mdio", of_name "mode" 2 ∷ of_name "modify" 3 ∷ of_name "read" 1 ∷ [])
        ∷ (codes "zoo", record (of_name "a" 4) { category = codes "zoo" } ∷ [])
        ∷ [])
    × (ordered_categories {F = ℕ} ((codes "zoo", []) ∷ (codes "mdio", []) ∷ [])
        ≡ codes "mdio" ∷ codes "zoo" ∷ [])
unfolding command by_category ordered_categories
table_groups = (refl, refl)
