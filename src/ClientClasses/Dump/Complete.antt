-- ===== src/ClientClasses/Dump/Complete.antt =====
-- Which properties stand in a dump.
use clientplugin.Base.{
  or_throw_value, entry_eq, ok_value, ℕ, ◌≡◌, refl, sym, ap, subst, inl, inr, ◌⊎◌, Bool,
  if◌then◌else◌, some, List, [], ◌∷◌, ◌++◌, map, Text, text_eq, text_eq_iff, lookup, Bool-cases, ok,
  >>=-eq-ok, or_throw, out_of_range,
}
use clientplugin.ClientClasses.{ClientProp, ClientClasses, get_prop_offset}
use clientplugin.ClientClasses.Dump.{
  command_callback, dump_props_to_file_callback, written, dropped, prop_line, dump_lines,
  dump_props_to_file,
}

-- An element of a list.
abbrev pub Has : {A : Type 0} → A → List A → Type 0
Has a [] = ⊥
Has a (x ∷ xs) = (x ≡ a) ⊎ Has a xs

Has-left : {A : Type 0} (a : A) (xs ys : List A) → Has a xs → Has a (xs ++ ys)
Has-left a [] ys h = absurd h
Has-left a (x ∷ xs) ys (inl e) = inl e
Has-left a (x ∷ xs) ys (inr h) = inr (Has-left a xs ys h)

Has-right : {A : Type 0} (a : A) (xs ys : List A) → Has a ys → Has a (xs ++ ys)
Has-right a [] ys h = h
Has-right a (x ∷ xs) ys h = inr (Has-right a xs ys h)

Has-map : {A B : Type 0} (f : A → B) (a : A) (xs : List A) → Has a xs → Has (f a) (map f xs)
Has-map f a [] h = absurd h
Has-map f a (x ∷ xs) (inl e) = inl (ap f e)
Has-map f a (x ∷ xs) (inr h) = inr (Has-map f a xs h)

-- What is found under a key is in the map.
lookup-Has :
    {W : Type 0} (k : Text) (entries : List (Text × W)) {v : W}
    → lookup text_eq k entries ≡ some v
    → Has (k, v) entries
unfolding lookup
lookup-Has k [] e = cc
lookup-Has k ((j, w) ∷ entries) {v} e = elim (Bool-cases (text_eq j k)) [
  | inl y ↦ inl (entry_eq ((text_eq_iff j k).0 y) (rw y at e))
  | inr n ↦ inr (lookup-Has k entries (rw n at e))
]

-- An order leaves nothing out.
abbrev pub LeavesNone : {A : Type 0} → (List A → List A) → Type 0
LeavesNone {A} order = (a : A) (xs : List A) → Has a xs → Has a (order xs)

module _ (hex : ℕ → Text) (opens : Text → Bool) (class_order : ClientClasses → ClientClasses)
    (prop_order : List (Text × ClientProp) → List (Text × ClientProp))
    (all_classes : LeavesNone class_order) (all_props : LeavesNone prop_order) where
  dump_lines-Has :
      (class_name : Text) (props : List (Text × ClientProp)) (entry : Text × ClientProp)
      (classes : ClientClasses)
      → Has (class_name, props) classes
      → Has entry props
      → Has
          (prop_line hex opens class_order prop_order entry)
          (dump_lines hex opens class_order prop_order classes)
  unfolding dump_lines
  dump_lines-Has class_name props entry [] h p = absurd h
  dump_lines-Has class_name props entry ((name, qs) ∷ classes) (inl e) p = inr (
      Has-left _ (map (prop_line hex opens class_order prop_order) (prop_order qs)) _ (
        Has-map (prop_line hex opens class_order prop_order) entry (prop_order qs) (
          all_props entry qs
            (subst (λ (c : Text × List (Text × ClientProp)). Has entry c.1) (sym e) p))))
  dump_lines-Has class_name props entry ((name, qs) ∷ classes) (inr h) p = inr (
      Has-right _ (map (prop_line hex opens class_order prop_order) (prop_order qs)) _
        (dump_lines-Has class_name props entry classes h p))

  -- If the maps are passed in orders that leave nothing out, then what the command writes to a file that can be opened
  -- holds the line of each property that `get_prop_offset` finds, with the offset that it gives; where the file
  -- cannot be opened, all of it is dropped.
  pub dump-get_prop_offset :
      (command fname class_name prop_name : Text) (classes : ClientClasses) (offset : ℕ)
      → get_prop_offset classes class_name prop_name ≡ ok offset
      → (lines : List Text) × (prop : ClientProp) × (command_callback
            (dump_props_to_file_callback hex opens class_order prop_order)
            (command, fname ∷ [])
            classes
          ≡ (if opens fname then written fname lines else dropped fname))
        × (prop.offset ≡ offset)
        × Has (prop_line hex opens class_order prop_order (prop_name, prop)) lines
  unfolding dump_props_to_file dump_props_to_file_callback command_callback get_prop_offset
  dump-get_prop_offset command fname class_name prop_name classes offset e =
      let (props, e1, r1) =
        >>=-eq-ok (or_throw (lookup text_eq class_name classes) out_of_range) _ e in
      let (prop, e2, r2) =
        >>=-eq-ok (or_throw (lookup text_eq prop_name props) out_of_range) _ r1 in
      (
        dump_lines hex opens class_order prop_order (class_order classes),
        prop,
        refl,
        ok_value r2,
        dump_lines-Has class_name props (prop_name, prop) (class_order classes)
            (all_classes _ classes (lookup-Has class_name classes (or_throw_value _ _ e1)))
            (lookup-Has prop_name props (or_throw_value _ _ e2)),
      )
