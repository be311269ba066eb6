-- ===== src/Offsets/Init/Entries.antt =====
-- Maps whose entries all have a property.
use clientplugin.Base.{
  ◌≡◌, subst, Bool-cases, inl, inr, some, entry_eq, List, [], ◌∷◌, All, Text, text_eq, text_eq_iff,
  lookup, insert,
}

module _ {V : Type 0} (P : Text × V → Type 0) where
  pub insert-All :
      (k : Text) (v : V) (entries : List (Text × V))
      → All P entries
      → P (k, v)
      → All P (insert text_eq k v entries)
  unfolding insert
  insert-All k v [] each h = (h, tt)
  insert-All k v ((j, w) ∷ entries) each h = elim (Bool-cases (text_eq j k)) [
    | inl y ↦ rw (y, insert) each
    | inr n ↦ rw (n, insert) (each.0, insert-All k v entries each.1 h)
  ]

  pub lookup-All :
      (k : Text) (entries : List (Text × V)) {v : V}
      → All P entries
      → lookup text_eq k entries ≡ some v
      → P (k, v)
  unfolding lookup
  lookup-All k [] each e = cc
  lookup-All k ((j, w) ∷ entries) {v} each e = elim (Bool-cases (text_eq j k)) [
    | inl y ↦ subst P (entry_eq ((text_eq_iff j k).0 y) (rw y at e)) each.0
    | inr n ↦ lookup-All k entries each.1 (rw n at e)
  ]
