-- ===== src/Rtti/Vtables/Grouping.antt =====
-- Which vftables `get_vtables_from_module` hands out.
use mathlib.Core.List.{append_assoc, append-nil}
use clientplugin.Base.{
  refl, subst, ℕ, ◌≡◌, ◌≢◌, ◌⊎◌, sym, ap, ◌∙◌, inl, inr, true, false, Bool-cases, List, [], ◌∷◌,
  ◌++◌, Text, arith, Memory, ok, Result-cases,
}
use clientplugin.Generator.{Gen, returns, throws, yields, hangs, yielded, outcome}
use clientplugin.Rtti.Vtables.{Vtable, changed, typeinfo_name, build_chunks}

-- The vftables of a list of vtables, in order.
abbrev pub vftables : List Vtable → List ℕ
vftables [] = []
vftables (v ∷ vs) = v.1 ++ vftables vs

cons≢nil : (xs : List ℕ) (x : ℕ) (ys : List ℕ) → xs ++ (x ∷ ys) ≢ []
cons≢nil [] x ys e = cc
cons≢nil (y ∷ xs) x ys e = cc

module _ (m : Memory) where
  -- What the loop yields is all but a rest, and the rest is empty only if there was nothing at all.
  abbrev pub Split : Gen ℕ → List ℕ → ℕ → Type 0
  Split g chunk prev =
      (left : List ℕ) × (chunk ++ yielded g
        ≡ vftables (yielded (build_chunks m g chunk prev)) ++ left)
      × (chunk ++ yielded g ≢ [] → left ≢ [])

  -- The two ways on from an entry that the loop takes.
  pub build_chunks-fresh :
      (entry : ℕ) (g : Gen ℕ) (chunk : List ℕ) (prev : ℕ) {name : Text}
      → changed m prev entry ≡ ok true
      → typeinfo_name m chunk ≡ ok name
      → build_chunks m (yields entry g) chunk prev
        ≡ yields (name, chunk) (build_chunks m g (entry ∷ []) entry)
  unfolding build_chunks
  build_chunks-fresh entry g chunk prev c n = ground arith

  pub build_chunks-longer :
      (entry : ℕ) (g : Gen ℕ) (chunk : List ℕ) (prev : ℕ)
      → changed m prev entry ≡ ok false
      → build_chunks m (yields entry g) chunk prev ≡ build_chunks m g (chunk ++ (entry ∷ [])) entry
  unfolding build_chunks
  build_chunks-longer entry g chunk prev c = ground arith

  -- A run that ends well took one of them.
  pub build_chunks-ways :
      (entry : ℕ) (g : Gen ℕ) (chunk : List ℕ) (prev : ℕ)
      → outcome (build_chunks m (yields entry g) chunk prev) ≡ ok tt
      → ((name : Text) × (changed m prev entry ≡ ok true) × (typeinfo_name m chunk ≡ ok name))
        ⊎ (changed m prev entry ≡ ok false)
  unfolding build_chunks outcome
  build_chunks-ways entry g chunk prev e = elim (Result-cases (changed m prev entry)) [
    | inr (inl (x, c)) ↦ absurd (ground arith)
    | inr (inr c) ↦ absurd (ground arith)
    | inl (is_new, c) ↦ elim (Bool-cases is_new) [
      | inr f ↦ inr (rw f at c)
      | inl t ↦ elim (Result-cases (typeinfo_name m chunk)) [
        | inr (inl (x, n)) ↦ absurd (ground arith)
        | inr (inr n) ↦ absurd (ground arith)
        | inl (name, n) ↦ inl (name, rw t at c, n)
      ]
    ]
  ]

  build_chunks-Split :
      (g : Gen ℕ) (chunk : List ℕ) (prev : ℕ)
      → outcome (build_chunks m g chunk prev) ≡ ok tt
      → Split g chunk prev
  unfolding build_chunks yielded outcome
  build_chunks-Split returns chunk prev e =
      (chunk, append-nil chunk, λ some_. rw append-nil at some_)
  build_chunks-Split (throws x) chunk prev e = absurd (cc)
  build_chunks-Split hangs chunk prev e = absurd (cc)
  build_chunks-Split (yields entry g) chunk prev e = elim (build_chunks-ways entry g chunk prev e) [
    | inl (name, c, n) ↦
        let way = build_chunks-fresh entry g chunk prev c n in
        let (left, split, some_left) = build_chunks-Split g (entry ∷ []) entry (rw way at e) in
        (
          left,
          rw way (ap (λ l. chunk ++ l) split ∙ sym (append_assoc chunk _ left)),
          λ _. some_left (λ nil. cc),
        )
    | inr c ↦
        let way = build_chunks-longer entry g chunk prev c in
        let (left, split, some_left) =
          build_chunks-Split g (chunk ++ (entry ∷ [])) entry (rw way at e) in
        (
          left,
          rw way (sym (append_assoc chunk (entry ∷ []) (yielded g)) ∙ split),
          λ _. some_left (rw append_assoc (cons≢nil chunk entry (yielded g))),
        )
  ]

nonempty : (xs : List ℕ) → xs ≢ [] → (x : ℕ) × (ys : List ℕ) × (xs ≡ x ∷ ys)
nonempty [] ne = absurd (ne refl)
nonempty (x ∷ ys) ne = (x, ys, refl)

-- If the loop that builds chunks ends well, and there is an entry, then the vtables that it yields
-- hold the entries in order, all but at least one at the end.
pub build_chunks-rest :
    (m : Memory) (g : Gen ℕ) (chunk : List ℕ) (prev : ℕ)
    → outcome (build_chunks m g chunk prev) ≡ ok tt
    → chunk ++ yielded g ≢ []
    → (first : ℕ) × (lost : List ℕ) × (chunk ++ yielded g
        ≡ vftables (yielded (build_chunks m g chunk prev)) ++ (first ∷ lost))
build_chunks-rest m g chunk prev e some_ =
    let (left, split, some_left) = build_chunks-Split m g chunk prev e in
    let (first, lost, shape) = nonempty left (some_left some_) in
    (
      first,
      lost,
      subst (λ l. chunk ++ yielded g ≡ vftables (yielded (build_chunks m g chunk prev)) ++ l) shape
          split,
    )
