-- ===== src/Offsets/Init/Nonzero.antt =====
-- The members of the offsets after `init_offsets`.
use clientplugin.Base.{
  ok_value, ℕ, ◌≡◌, ◌≢◌, refl, sym, ap, subst, ◌∙◌, Option, List, [], ◌∷◌, All, length, map, arith,
  Text, Memory, Result, ok, >>=-eq-ok,
}
use clientplugin.LoadedModule.{Elf}
use clientplugin.Offsets.{Offset, ModuleRangeMap, ModuleVtables}
use clientplugin.Offsets.Cache.{IsCached, cache_all-IsCached}
use clientplugin.Offsets.Init.{PhdrInfo, iterate_phdr, handle_modules, init_offsets}

length-map : (f : Offset × ℕ → Offset) (xs : List (Offset × ℕ)) → length (map f xs) ≡ length xs
length-map f [] = refl
length-map f (x ∷ xs) = omega (arith, length-map f xs)

module _ (dlopen : Text → ℕ) (dlsym : ℕ → Text → ℕ) (m : Memory) (modules : ModuleRangeMap)
    (vtables : ModuleVtables) where
  IsCached-nonzero :
      (offsets : List (Offset × ℕ))
      → All (IsCached dlopen dlsym m modules vtables) offsets
      → All (λ o. o.1 ≢ 0) offsets
  IsCached-nonzero [] each = tt
  IsCached-nonzero (o ∷ offsets) each = (each.0.1, IsCached-nonzero offsets each.1)

module _ (sort : List ℕ → List ℕ) (open_elf : Text → Elf) (m : Memory)
    (basename : Option Text → Result Text) (dlopen : Text → ℕ) (dlsym : ℕ → Text → ℕ)
    (order : ModuleRangeMap → ModuleRangeMap) (infos : List PhdrInfo) where
  -- If the caching ends well, there are as many offsets as before, and no member is null.
  pub init_offsets-AreNonzero :
      (g_offset_list : List (Offset × ℕ)) (done : List (Offset × ℕ) × Result (Unit {0}))
      → init_offsets sort open_elf m basename dlopen dlsym order infos g_offset_list ≡ ok done
      → done.1 ≡ ok tt
      → All (λ o. o.1 ≢ 0) done.0 × (length done.0 ≡ length g_offset_list)
  unfolding init_offsets
  init_offsets-AreNonzero g_offset_list done e ended =
      let (found, _, e1) = >>=-eq-ok (iterate_phdr basename infos []) _ e in
      let (tables, _, last) =
        >>=-eq-ok
          (handle_modules sort open_elf m basename (order found)
            (record { cleaned_modules = []; eh_frame_ranges = []; module_vtables = [] }))
          _ e1 in
      let result = ok_value last in
      let (each, same) =
        cache_all-IsCached dlopen dlsym m tables.cleaned_modules tables.module_vtables g_offset_list
          (ap (λ c. c.1) result ∙ ended) in
      subst
        (λ (c : List (Offset × ℕ) × Result (Unit {0})).
          All (λ o. o.1 ≢ 0) c.0 × (length c.0 ≡ length g_offset_list))
        result
        (
          IsCached-nonzero dlopen dlsym m tables.cleaned_modules tables.module_vtables _ each,
          sym (length-map (λ o. o.0) _) ∙ ap length same ∙ length-map (λ o. o.0) g_offset_list,
        )
