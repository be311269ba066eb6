-- ===== src/Offsets/Cache.antt =====
-- What the members of the offsets are after `init_offsets` has filled them.
use clientplugin.Base.{
  ℕ, zero, suc, ◌≡◌, ◌≢◌, refl, sym, ap, subst, ◌∙◌, List, [], ◌∷◌, All, arith, Text, Memory,
  Result, ok, inl, inr, Result-cases, map,
}
use clientplugin.Offsets.{
  Offset, ModuleRangeMap, ModuleVtables, get_address, cache_address, cache_all,
}

module _ (dlopen : Text → ℕ) (dlsym : ℕ → Text → ℕ) (m : Memory) (modules : ModuleRangeMap)
    (vtables : ModuleVtables) where
  -- The member of an offset is what `get_address` finds, and is not 0.
  abbrev pub IsCached : Offset × ℕ → Type 0
  IsCached (offset, cached_address) =
      (get_address dlopen dlsym m modules vtables offset ≡ ok cached_address) × (cached_address ≢ 0)

  cache_address-IsCached :
      (offset : Offset) (old : ℕ)
      → (cache_address dlopen dlsym m modules vtables offset old).1 ≡ ok tt
      → IsCached (offset, (cache_address dlopen dlsym m modules vtables offset old).0)
  unfolding cache_address
  cache_address-IsCached offset old e =
      elim (Result-cases (get_address dlopen dlsym m modules vtables offset)) [
        | inr (inl (x, r)) ↦ absurd (ground arith)
        | inr (inr r) ↦ absurd (ground arith)
        | inl (zero, r) ↦ absurd (ground arith)
        | inl (suc a, r) ↦
            let c = cached a offset old r in
            subst (λ k. IsCached (offset, k)) (sym c) (r, λ z. omega arith)
      ]
    where
      cached :
          (a : ℕ) (offset : Offset) (old : ℕ)
          → get_address dlopen dlsym m modules vtables offset ≡ ok (suc a)
          → (cache_address dlopen dlsym m modules vtables offset old).0 ≡ suc a
      cached a offset old r = ground arith

  cache_all-step :
      (offset : Offset) (old : ℕ) (offsets : List (Offset × ℕ))
      → (cache_address dlopen dlsym m modules vtables offset old).1 ≡ ok tt
      → cache_all dlopen dlsym m modules vtables ((offset, old) ∷ offsets) ≡ (
        (offset, (cache_address dlopen dlsym m modules vtables offset old).0)
            ∷ (cache_all dlopen dlsym m modules vtables offsets).0,
        (cache_all dlopen dlsym m modules vtables offsets).1,
      )
  unfolding cache_all
  cache_all-step offset old offsets r = rw (r, cache_all) refl

  cache_all-first :
      (offset : Offset) (old : ℕ) (offsets : List (Offset × ℕ))
      → (cache_all dlopen dlsym m modules vtables ((offset, old) ∷ offsets)).1 ≡ ok tt
      → (cache_address dlopen dlsym m modules vtables offset old).1 ≡ ok tt
  unfolding cache_all
  cache_all-first offset old offsets e =
      elim (Result-cases (cache_address dlopen dlsym m modules vtables offset old).1) [
        | inr (inl (x, r)) ↦ absurd (ground arith)
        | inr (inr r) ↦ absurd (ground arith)
        | inl (u, r) ↦ r
      ]

  -- If the loop ends well, then it has passed all offsets, in their order, and the member of each
  -- is what `get_address` finds, and not 0.
  pub cache_all-IsCached :
      (offsets : List (Offset × ℕ))
      → (cache_all dlopen dlsym m modules vtables offsets).1 ≡ ok tt
      → All IsCached (cache_all dlopen dlsym m modules vtables offsets).0
        × (map (λ o. o.0) (cache_all dlopen dlsym m modules vtables offsets).0
            ≡ map (λ o. o.0) offsets)
  unfolding cache_all
  cache_all-IsCached [] e = (tt, refl)
  cache_all-IsCached ((offset, old) ∷ offsets) e =
      let r = cache_all-first offset old offsets e in
      let step = cache_all-step offset old offsets r in
      let rest = cache_all-IsCached offsets (ap (λ c. c.1) (sym step) ∙ e) in
      subst
        (λ (c : List (Offset × ℕ) × Result (Unit {0})).
          All IsCached c.0 × (map (λ o. o.0) c.0 ≡ offset ∷ map (λ o. o.0) offsets))
        (sym step) ((cache_address-IsCached offset old r, rest.0), ap (λ l. offset ∷ l) rest.1)
