-- ===== src/ClientClasses/Paths.antt =====
-- The ways down a table, and what `parse_tbl` makes of them.
use clientplugin.Base.{ℕ, ◌≡◌, refl, sym, ap, ◌∙◌, List, [], ◌∷◌, ◌++◌, map, Text, codes, add32, ok}
use clientplugin.Generator.{Gen, returns, throws, yields, hangs, yielded, outcome}
use clientplugin.ClientClasses.{
  RecvTable, table, RecvProps, no_props, data_table, plain, ClientProp, nested, get_name, parse_tbl,
  parse_props,
}

-- A way down: the tables entered, each with the offset of its property, and the property at the end.
pub record Way : Type 0 where
  pub tables : List (Text × ℕ)
  pub name : Text
  pub offset : ℕ
  pub type : ℕ

abbrev pub down : Text → ℕ → Way → Way
down name offset w = record w { tables = (name, offset) ∷ w.tables }

mutual
  pub ways : RecvTable → List Way
  ways (table name props) = ways_of props

  pub ways_of : RecvProps → List Way
  ways_of no_props = []
  ways_of (data_table offset subtable props) =
      map (down (get_name subtable) offset) (ways subtable) ++ ways_of props
  ways_of (plain name offset type props) =
      record { tables = []; name = name; offset = offset; type = type } ∷ ways_of props

-- The names on a way, joined by "::", and the sum of its offsets.
abbrev pub full_name : List (Text × ℕ) → Text → Text
full_name [] name = name
full_name ((t, o) ∷ tables) name = t ++ (codes "::" ++ full_name tables name)

abbrev pub full_offset : List (Text × ℕ) → ℕ → ℕ
full_offset [] offset = offset
full_offset ((t, o) ∷ tables) offset = add32 o (full_offset tables offset)

abbrev pub property_of : Way → Text × ClientProp
property_of w =
    (full_name w.tables w.name, record { offset = full_offset w.tables w.offset; type = w.type })

map-append :
    {A : Type 0} {B : Type 0} (f : A → B) (xs ys : List A) → map f (xs ++ ys) ≡ map f xs ++ map f ys
map-append f [] ys = refl
map-append f (x ∷ xs) ys = ap (λ l. f x ∷ l) (map-append f xs ys)

-- A nested coroutine yields what the inner one does, longer, and then the rest.
nested-yielded :
    (name : Text) (offset : ℕ) (g rest : Gen (Text × ClientProp)) (ws : List Way)
    → outcome g ≡ ok tt
    → yielded g ≡ map property_of ws
    → yielded (nested name offset g rest)
      ≡ map property_of (map (down name offset) ws) ++ yielded rest
unfolding nested yielded outcome
nested-yielded name offset returns rest [] e y = refl
nested-yielded name offset returns rest (w ∷ ws) e y = absurd (cc)
nested-yielded name offset (throws x) rest ws e y = absurd (cc)
nested-yielded name offset hangs rest ws e y = absurd (cc)
nested-yielded name offset (yields p g) rest [] e y = absurd (cc)
nested-yielded name offset (yields p g) rest (w ∷ ws) e y =
    let same : p ≡ property_of w = cc in
    ap
      (λ (q : Text × ClientProp).
        (name ++ (codes "::" ++ q.0), record { offset = add32 offset q.1.offset; type = q.1.type })
        ∷ yielded (nested name offset g rest))
      same
    ∙ ap (λ l. property_of (down name offset w) ∷ l) (nested-yielded name offset g rest ws e cc)

nested-outcome :
    (name : Text) (offset : ℕ) (g rest : Gen (Text × ClientProp))
    → outcome g ≡ ok tt
    → outcome (nested name offset g rest) ≡ outcome rest
unfolding nested outcome
nested-outcome name offset returns rest e = refl
nested-outcome name offset (throws x) rest e = absurd (cc)
nested-outcome name offset hangs rest e = absurd (cc)
nested-outcome name offset (yields p g) rest e = nested-outcome name offset g rest e

mutual
  unfolding parse_tbl ways outcome yielded

  -- The coroutine ends well.
  pub parse_tbl-outcome : (t : RecvTable) → outcome (parse_tbl t) ≡ ok tt
  parse_tbl-outcome (table name props) = parse_props-outcome props

  parse_props-outcome : (ps : RecvProps) → outcome (parse_props ps) ≡ ok tt
  parse_props-outcome no_props = refl
  parse_props-outcome (data_table offset subtable props) =
      nested-outcome (get_name subtable) offset (parse_tbl subtable) (parse_props props)
        (parse_tbl-outcome subtable)
      ∙ parse_props-outcome props
  parse_props-outcome (plain name offset type props) = parse_props-outcome props

mutual
  unfolding parse_tbl ways outcome yielded

  tbl-ways : (t : RecvTable) → yielded (parse_tbl t) ≡ map property_of (ways t)
  tbl-ways (table name props) = props-ways props

  props-ways : (ps : RecvProps) → yielded (parse_props ps) ≡ map property_of (ways_of ps)
  props-ways no_props = refl
  props-ways (data_table offset subtable props) =
      nested-yielded (get_name subtable) offset (parse_tbl subtable) (parse_props props)
        (ways subtable) (parse_tbl-outcome subtable) (tbl-ways subtable)
      ∙ ap (λ l. map property_of (map (down (get_name subtable) offset) (ways subtable)) ++ l)
          (props-ways props)
      ∙ sym (
          map-append property_of (map (down (get_name subtable) offset) (ways subtable))
            (ways_of props))
  props-ways (plain name offset type props) =
      ap (λ l. (name, record { offset = offset; type = type }) ∷ l) (props-ways props)

-- `parse_tbl` ends well, and yields a property for each way down the tables to a property that is
-- no table: its name is the names on the way joined by "::", and its offset the sum of theirs.
pub parse_tbl-ways :
    (t : RecvTable)
    → (yielded (parse_tbl t) ≡ map property_of (ways t)) × (outcome (parse_tbl t) ≡ ok tt)
parse_tbl-ways t = (tbl-ways t, parse_tbl-outcome t)
