-- ===== src/ClientClasses.antt =====
-- src/offsets/clientclasses.hpp and .cpp: the properties of the client's classes, with their offsets.
-- The tables of the engine are given as data. They form a tree: a table that holds itself would
-- keep `parse_tbl` from ending.
use clientplugin.Base.{
  ℕ, Option, none, some, List, [], ◌∷◌, ◌++◌, Text, codes, text_eq, lookup, assign, Result, ok,
  ◌>>=◌, add32, or_throw, out_of_range,
}
use clientplugin.Generator.{Gen, returns, throws, yields, hangs, for_each}
pub mod Paths
pub mod Lookup
pub mod Dump
mod Runs

-- A `RecvTable` is its name and its properties; a `RecvProp` is one of type DPT_DataTable with its
-- subtable, or one of another type, which is a number.
mutual
  pub data RecvTable : Type 0 where
    table : (name : Text) → RecvProps → RecvTable

  pub data RecvProps : Type 0 where
    no_props : RecvProps
    data_table : (offset : ℕ) → RecvTable → RecvProps → RecvProps
    plain : (name : Text) (offset type : ℕ) → RecvProps → RecvProps

-- `ClientProp`
pub record ClientProp : Type 0 where
  pub offset : ℕ
  pub type : ℕ

-- The loop over the properties of a parsed subtable: each is yielded under a longer name.
unfoldable pub nested :
    Text → ℕ → Gen (Text × ClientProp) → Gen (Text × ClientProp) → Gen (Text × ClientProp)
nested subtable offset returns rest = rest
nested subtable offset (throws e) rest = throws e
nested subtable offset (yields (name, subprop) g) rest =
    yields
      (
        subtable ++ (codes "::" ++ name),
        record { offset = add32 offset subprop.offset; type = subprop.type },
      )
      (nested subtable offset g rest)
nested subtable offset hangs rest = hangs

abbrev pub get_name : RecvTable → Text
get_name (table name props) = name

unfoldable mutual
  unfolding nested

  pub parse_tbl : RecvTable → Gen (Text × ClientProp)
  parse_tbl (table name props) = parse_props props

  pub parse_props : RecvProps → Gen (Text × ClientProp)
  parse_props no_props = returns
  parse_props (data_table offset subtable props) =
      nested (get_name subtable) offset (parse_tbl subtable) (parse_props props)
  parse_props (plain name offset type props) =
      yields (name, record { offset = offset; type = type }) (parse_props props)

-- `clientclasses`: the properties of each class by their names.
abbrev pub ClientClasses : Type 0
ClientClasses = List (Text × List (Text × ClientProp))

abbrev pub class_of : Text → ClientClasses → List (Text × ClientProp)
class_of class_name classes = elim (lookup text_eq class_name classes) [ none ↦ [] | some ps ↦ ps ]

-- `clientclasses[class_name][prop_name] = prop;`
unfoldable pub set_prop : Text → ClientClasses → Text × ClientProp → Result ClientClasses
set_prop class_name classes (prop_name, prop) = ok (
    assign text_eq class_name (assign text_eq prop_name prop (class_of class_name classes)) classes)

-- The constructor of `ClientClassManager`, on the classes in the engine's order.
unfoldable pub add_classes : List (Text × RecvTable) → ClientClasses → Result ClientClasses
unfolding set_prop parse_tbl
add_classes [] classes = ok classes
add_classes ((class_name, recv_table) ∷ rest) classes =
    for_each (set_prop class_name) (parse_tbl recv_table) classes >>= add_classes rest

-- `get_prop_offset`; `at` throws where there is no entry.
unfoldable pub get_prop_offset : ClientClasses → Text → Text → Result ℕ
get_prop_offset classes classname propname = do
  props ← or_throw (lookup text_eq classname classes) out_of_range
  prop ← or_throw (lookup text_eq propname props) out_of_range
  ok prop.offset
