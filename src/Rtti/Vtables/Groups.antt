-- ===== src/Rtti/Vtables/Groups.antt =====
-- What the vtables are that `get_vtables_from_module` hands out.
use clientplugin.Base.{
  ℕ, ◌≡◌, ◌≢◌, refl, ◌∙◌, inl, inr, false, List, [], ◌∷◌, ◌++◌, All, Text, arith, Memory, ok,
  Result-cases,
}
use clientplugin.Generator.{Gen, returns, throws, yields, hangs, yielded, outcome}
use clientplugin.Rtti.Relocations.{get_typeinfo_addr_from_vtable}
use clientplugin.Rtti.Vtables.{Vtable, changed, typeinfo_name, build_chunks}
use clientplugin.Rtti.Vtables.Grouping.{build_chunks-ways, build_chunks-fresh, build_chunks-longer}

module _ (m : Memory) where
  abbrev pub SharesTypeinfo : ℕ → ℕ → Type 0
  SharesTypeinfo v w = get_typeinfo_addr_from_vtable m w ≡ get_typeinfo_addr_from_vtable m v

  -- A vtable holds vftables of one typeinfo, and its name is that typeinfo's.
  abbrev pub IsGroup : Vtable → Type 0
  IsGroup (name, []) = ⊥
  IsGroup (name, v ∷ vs) = (typeinfo_name m (v ∷ vs) ≡ ok name) × All (SharesTypeinfo v) vs

  -- The invariant of the loop.
  abbrev pub IsOpen : List ℕ → ℕ → Type 0
  IsOpen [] prev = prev ≡ 0
  IsOpen (v ∷ vs) prev = (prev ≢ 0) × SharesTypeinfo v prev × All (SharesTypeinfo v) vs

  All-snoc :
      (v w : ℕ) (vs : List ℕ)
      → All (SharesTypeinfo v) vs
      → SharesTypeinfo v w
      → All (SharesTypeinfo v) (vs ++ (w ∷ []))
  All-snoc v w [] a s = (s, tt)
  All-snoc v w (x ∷ vs) a s = (a.0, All-snoc v w vs a.1 s)

  unchanged :
      (prev entry : ℕ) → prev ≢ 0 → changed m prev entry ≡ ok false → SharesTypeinfo prev entry
  unfolding changed
  unchanged prev entry np c = elim (Result-cases (get_typeinfo_addr_from_vtable m entry)) [
    | inr (inl (x, a)) ↦ absurd (ground arith)
    | inr (inr a) ↦ absurd (ground arith)
    | inl (t, a) ↦ elim (Result-cases (get_typeinfo_addr_from_vtable m prev)) [
      | inr (inl (x, b)) ↦ absurd (ground arith)
      | inr (inr b) ↦ absurd (ground arith)
      | inl (u, b) ↦ ground arith
    ]
  ]

  IsOpen-longer :
      (chunk : List ℕ) (prev entry : ℕ)
      → entry ≢ 0
      → IsOpen chunk prev
      → changed m prev entry ≡ ok false
      → IsOpen (chunk ++ (entry ∷ [])) entry
  IsOpen-longer [] prev entry ne o c = (ne, refl, tt)
  IsOpen-longer (v ∷ vs) prev entry ne (np, s, a) c =
      let t = unchanged prev entry np c ∙ s in (ne, t, All-snoc v entry vs a t)

  closed-IsGroup :
      (chunk : List ℕ) (prev : ℕ) {name : Text}
      → IsOpen chunk prev
      → typeinfo_name m chunk ≡ ok name
      → IsGroup (name, chunk)
  unfolding typeinfo_name
  closed-IsGroup [] prev o n = cc
  closed-IsGroup (v ∷ vs) prev (np, s, a) n = (n, a)

  -- From any state of the loop that builds chunks that its invariant allows, if no entry is 0 and
  -- the loop ends well, each vtable that it yields holds vftables that share a typeinfo, under that
  -- typeinfo's name.
  pub build_chunks-IsGroup :
      (g : Gen ℕ) (chunk : List ℕ) (prev : ℕ)
      → IsOpen chunk prev
      → All (λ v. v ≢ 0) (yielded g)
      → outcome (build_chunks m g chunk prev) ≡ ok tt
      → All IsGroup (yielded (build_chunks m g chunk prev))
  unfolding build_chunks yielded outcome
  build_chunks-IsGroup returns chunk prev o nz e = tt
  build_chunks-IsGroup (throws x) chunk prev o nz e = tt
  build_chunks-IsGroup hangs chunk prev o nz e = tt
  build_chunks-IsGroup (yields entry g) chunk prev o (ne, nz) e =
      elim (build_chunks-ways m entry g chunk prev e) [
        | inl (name, c, n) ↦
            let way = build_chunks-fresh m entry g chunk prev c n in
            rw way (
              closed-IsGroup chunk prev o n,
              build_chunks-IsGroup g (entry ∷ []) entry (ne, refl, tt) nz (rw way at e),
            )
        | inr c ↦
            let way = build_chunks-longer m entry g chunk prev c in
            rw way (
              build_chunks-IsGroup g (chunk ++ (entry ∷ [])) entry
                (IsOpen-longer chunk prev entry ne o c) nz (rw way at e))
      ]
