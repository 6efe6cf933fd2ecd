-- ===== src/Registry/Categories.antt =====
-- `by_category` and `ordered_categories`: the groups that `help` lists.
use mdioprobe.Prelude.Text.{Text, text_eq, codes}
use mdioprobe.Prelude.{Bool, false, not, ◌||◌, List, [], ◌∷◌, ◌++◌, map, if◌then◌else◌}
use mdioprobe.Registry.{Command, Table, text_lt, sorted}

abbrev pub category_order : List Text
category_order = codes "bus" ∷ codes "mdio" ∷ codes "capture" ∷ codes "files" ∷ codes "system" ∷ []

abbrev pub Groups : Type 0 → Type 0
Groups F = List (Text × List (Command F))

-- `s in texts`
abbrev pub is_among : Text → List Text → Bool
is_among s [] = false
is_among s (t ∷ ts) = text_eq s t || is_among s ts

-- `[s for s in texts if test(s)]`
abbrev pub those : (Text → Bool) → List Text → List Text
those test [] = []
those test (s ∷ rest) = let more = those test rest in if test s then s ∷ more else more

module _ {F : Type 0} where
  -- `groups.setdefault(cmd.category, []).append(cmd)`
  abbrev pub add_to : Command F → Groups F → Groups F
  add_to cmd [] = (cmd.category, cmd ∷ []) ∷ []
  add_to cmd ((k, cmds) ∷ rest) =
      let more = add_to cmd rest in
      if text_eq k cmd.category then (k, cmds ++ (cmd ∷ [])) ∷ rest else (k, cmds) ∷ more

  abbrev pub grouped : Groups F → Table F → Groups F
  grouped groups [] = groups
  grouped groups (e ∷ rest) = grouped (add_to e.1 groups) rest

  abbrev pub insert_command : Command F → List (Command F) → List (Command F)
  insert_command x [] = x ∷ []
  insert_command x (y ∷ ys) =
      let rest = insert_command x ys in if text_lt y.name x.name then y ∷ rest else x ∷ y ∷ ys

  -- `cmds.sort(key=lambda c: c.name)`
  abbrev pub sorted_commands : List (Command F) → List (Command F)
  sorted_commands [] = []
  sorted_commands (x ∷ xs) = insert_command x (sorted_commands xs)

  abbrev pub sort_group : Text × List (Command F) → Text × List (Command F)
  sort_group (k, cmds) = (k, sorted_commands cmds)

  unfoldable pub by_category : Table F → Groups F
  by_category table = map sort_group (grouped [] table)

  abbrev pub group_name : Text × List (Command F) → Text
  group_name g = g.0

  unfoldable pub ordered_categories : Groups F → List Text
  ordered_categories groups =
      let names = map group_name groups in
      those (λ c. is_among c names) category_order
      ++ sorted (those (λ c. not (is_among c category_order)) names)
