-- ===== src/CmdMdio/Modes.antt =====
-- The mode words of `read`, `write`, `modify` and `monitor`.
use mdioprobe.Prelude.Text.{Text, text_eq, codes}
use mdioprobe.Prelude.{Bool, true, false, List, [], ◌∷◌, ◌++◌, if◌then◌else◌}

-- `plain` is the absence of a mode word.
pub data Mode : Type 0 where
  plain page mvpage extpage mmd rdb extreg : Mode

abbrev pub is_wide : Mode → Bool
is_wide mmd = true
is_wide rdb = true
is_wide extreg = true
is_wide _ = false

abbrev pub mode_name : Mode → Text
mode_name plain = codes "plain"
mode_name page = codes "page"
mode_name mvpage = codes "mvpage"
mode_name extpage = codes "extpage"
mode_name mmd = codes "mmd"
mode_name rdb = codes "rdb"
mode_name extreg = codes "extreg"

abbrev pub mode_of : Text → Mode
mode_of a =
    if text_eq a (mode_name page)
    then page
    else if text_eq a (mode_name mvpage)
    then mvpage
    else if text_eq a (mode_name extpage)
    then extpage
    else if text_eq a (mode_name mmd)
    then mmd
    else if text_eq a (mode_name rdb)
    then rdb
    else if text_eq a (mode_name extreg)
    then extreg
    else plain

abbrev pub drop_word : Mode → List Text → List Text
drop_word plain args = args
drop_word _ [] = []
drop_word _ (a ∷ args) = args

-- A leading mode word is taken off.
unfoldable pub take_mode : List Text → Mode × List Text
take_mode [] = (plain, [])
take_mode (a ∷ args) = (mode_of a, drop_word (mode_of a) (a ∷ args))

-- `_label`
abbrev pub mode_label : Mode → Text
mode_label plain = codes "reg"
mode_label m = mode_name m ++ codes " reg"
