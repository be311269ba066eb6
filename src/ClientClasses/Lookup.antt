-- ===== src/ClientClasses/Lookup.antt =====
-- `get_prop_offset` on what the constructor of `ClientClassManager` has entered.
use clientplugin.Base.{
  ℕ, ◌≡◌, refl, sym, ap, ◌∙◌, inl, inr, Bool-cases, Option-cases, Option, none, some, List, [], ◌∷◌,
  Text, text_eq, text_eq_iff, lookup, assign, lookup-assign, lookup-assign_other, arith, ok,
  if◌then◌else◌,
}
use clientplugin.Generator.{Gen, returns, throws, yields, hangs, for_each, yielded, outcome}
use clientplugin.ClientClasses.{
  ClientProp, RecvTable, ClientClasses, class_of, set_prop, parse_tbl, add_classes, get_prop_offset,
}
use clientplugin.ClientClasses.Paths.{parse_tbl-outcome}

-- The last property of a name in a list.
abbrev pub last_offset : Text → List (Text × ClientProp) → Option ℕ
last_offset name [] = none
last_offset name ((n, p) ∷ props) = elim (last_offset name props) [
  | some o ↦ some o
  | none ↦ if text_eq n name then some p.offset else none
]

abbrev offset_in : Text → List (Text × ClientProp) → Option ℕ
offset_in name props = elim (lookup text_eq name props) [ none ↦ none | some p ↦ some p.offset ]

abbrev or_else : Option ℕ → Option ℕ → Option ℕ
or_else none old = old
or_else (some o) old = some o

class_of-assign :
    (c : Text) (props : List (Text × ClientProp)) (classes : ClientClasses)
    → class_of c (assign text_eq c props classes) ≡ props
class_of-assign c props classes = rw (lookup-assign c props classes, class_of) refl

offset_in-assign :
    (name n : Text) (p : ClientProp) (props : List (Text × ClientProp))
    → offset_in name (assign text_eq n p props)
      ≡ (if text_eq n name then some p.offset else offset_in name props)
offset_in-assign name n p props = elim (Bool-cases (text_eq n name)) [
  | inl b ↦
      let same = (text_eq_iff n name).0 b in
      rw (b, sym same, lookup-assign n p props, offset_in) refl
  | inr b ↦ rw (b, lookup-assign_other n name p props b, offset_in) refl
]

-- The choice between the entries of one more property and those behind it.
or_else_lem :
    (name n : Text) (p : ClientProp) (props : List (Text × ClientProp)) (old : Option ℕ)
    → or_else (last_offset name props) (if text_eq n name then some p.offset else old)
      ≡ or_else (last_offset name ((n, p) ∷ props)) old
or_else_lem name n p props old = elim (Option-cases (last_offset name props)) [
  | inr (o, e) ↦ rw e refl
  | inl e ↦ elim (Bool-cases (text_eq n name)) [ inl b ↦ rw (e, b) refl | inr b ↦ rw (e, b) refl ]
]

entered :
    (c name : Text) (g : Gen (Text × ClientProp)) (classes : ClientClasses)
    → outcome g ≡ ok tt
    → (classes' : ClientClasses) × (for_each (set_prop c) g classes ≡ ok classes')
      × (offset_in name (class_of c classes')
          ≡ or_else (last_offset name (yielded g)) (offset_in name (class_of c classes)))
unfolding for_each outcome yielded set_prop
entered c name returns classes e = (classes, refl, refl)
entered c name (throws x) classes e = absurd cc
entered c name hangs classes e = absurd cc
entered c name (yields (n, p) g) classes e =
    let props = class_of c classes in
    let (classes', run, found) =
      entered c name g (assign text_eq c (assign text_eq n p props) classes) e in
    (
      classes',
      run,
      found
          ∙ ap (λ l. or_else (last_offset name (yielded g)) (offset_in name l))
              (class_of-assign c (assign text_eq n p props) classes)
          ∙ ap (or_else (last_offset name (yielded g))) (offset_in-assign name n p props)
          ∙ or_else_lem name n p (yielded g) (offset_in name props),
    )

found_offset :
    (c name : Text) (classes : ClientClasses) (o : ℕ)
    → offset_in name (class_of c classes) ≡ some o
    → get_prop_offset classes c name ≡ ok o
unfolding get_prop_offset lookup
found_offset c name classes o e = elim (Option-cases (lookup text_eq c classes)) [
  | inl r ↦ absurd (ground arith)
  | inr (props, r) ↦ elim (Option-cases (lookup text_eq name props)) [
    | inl q ↦ absurd (ground arith)
    | inr (p, q) ↦ ground arith
  ]
]

-- After the properties of a class's table have been entered, `get_prop_offset` gives, for a name
-- under which the table yields a property, the offset of the last such property.
pub get_prop_offset-add_classes :
    (c name : Text) (t : RecvTable) (classes : ClientClasses) (o : ℕ)
    → last_offset name (yielded (parse_tbl t)) ≡ some o
    → (classes' : ClientClasses) × (add_classes ((c, t) ∷ []) classes ≡ ok classes')
      × (get_prop_offset classes' c name ≡ ok o)
unfolding add_classes
get_prop_offset-add_classes c name t classes o e =
    let (classes', run, found) = entered c name (parse_tbl t) classes (parse_tbl-outcome t) in
    (
      classes',
      rw run refl,
      found_offset c name classes' o
          (found ∙ ap (λ l. or_else l (offset_in name (class_of c classes))) e),
    )
