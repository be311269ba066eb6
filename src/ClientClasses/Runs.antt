-- ===== src/ClientClasses/Runs.antt =====
-- Runs on the table of a class that holds the table of its base class.
use clientplugin.Base.{
  ℕ, true, List, Text, lookup, ◌≡◌, refl, some, [], ◌∷◌, map, codes, text_eq, ok,
}
use clientplugin.Generator.{yielded, outcome}
use clientplugin.ClientClasses.{
  RecvTable, table, no_props, data_table, plain, ClientProp, ClientClasses, parse_tbl, nested,
  add_classes, get_prop_offset,
}
use clientplugin.ClientClasses.Paths.{ways, property_of, parse_tbl-ways}
use clientplugin.ClientClasses.Lookup.{last_offset, get_prop_offset-add_classes}
use clientplugin.ClientClasses.Dump.{
  written, prop_line, command_callback, dump_props_to_file_callback,
}
use clientplugin.ClientClasses.Dump.Complete.{Has, dump-get_prop_offset}

abbrev weapon : RecvTable
weapon = table (codes "DT_Medigun") (
    data_table 16 (table (codes "DT_Base") (plain (codes "m_iHealth") 4 0 no_props))
      (plain (codes "m_flCharge") 8 1 no_props))

health : last_offset (codes "DT_Base::m_iHealth") (yielded (parse_tbl weapon)) ≡ some 20
unfolding parse_tbl yielded nested text_eq
health = refl

parse_tbl-ways_example :
    (yielded (parse_tbl weapon) ≡ map property_of (ways weapon))
    × (outcome (parse_tbl weapon) ≡ ok tt)
parse_tbl-ways_example = parse_tbl-ways weapon

get_prop_offset-add_classes_example :
    (classes' : ClientClasses) × (add_classes ((codes "CMedigun", weapon) ∷ []) [] ≡ ok classes')
    × (get_prop_offset classes' (codes "CMedigun") (codes "DT_Base::m_iHealth") ≡ ok 20)
get_prop_offset-add_classes_example =
    get_prop_offset-add_classes (codes "CMedigun") (codes "DT_Base::m_iHealth") weapon [] 20 health

abbrev charge : ClientProp
charge = record { offset = 8; type = 1 }

abbrev classes : ClientClasses
classes = (codes "CMedigun", (codes "m_flCharge", charge) ∷ []) ∷ []

-- A number that is written as one character, and the orders of entry.
abbrev hex : ℕ → Text
hex n = n ∷ []

abbrev class_order : ClientClasses → ClientClasses
class_order cs = cs

abbrev prop_order : List (Text × ClientProp) → List (Text × ClientProp)
prop_order ps = ps

charge_there : get_prop_offset classes (codes "CMedigun") (codes "m_flCharge") ≡ ok 8
unfolding get_prop_offset lookup text_eq
charge_there = refl

dump-get_prop_offset_example :
    (lines : List Text) × (prop : ClientProp) × (command_callback
        (dump_props_to_file_callback hex (λ fname. true) class_order prop_order)
        (codes "fh_dump_netvars_to_file", codes "out.txt" ∷ [])
        classes
      ≡ written (codes "out.txt") lines)
    × (prop.offset ≡ 8)
    × Has (prop_line hex (λ fname. true) class_order prop_order (codes "m_flCharge", prop)) lines
dump-get_prop_offset_example =
    dump-get_prop_offset hex (λ fname. true) class_order prop_order (λ a xs h. h) (λ a xs h. h)
      (codes "fh_dump_netvars_to_file") (codes "out.txt") (codes "CMedigun") (codes "m_flCharge")
      classes 8 charge_there
