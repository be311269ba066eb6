-- ===== src/Rtti/Vtables/Whole.antt =====
-- `get_vtables_from_module` as a whole, past the sets that it collects first.
use clientplugin.Base.{ℕ, ◌≡◌, ◌≢◌, refl, List, [], ◌∷◌, ◌++◌, All, Memory, ok}
use clientplugin.Generator.{yielded, outcome}
use clientplugin.RangeChecker.{DataRangeChecker}
use clientplugin.LoadedModule.{LoadedModule}
use clientplugin.Rtti.Relocations.{RelocMap}
use clientplugin.Rtti.Candidates.{locate_vftables}
use clientplugin.Rtti.Vtables.{
  build_chunks, collect_functions, collect_typeinfos, get_vtables_from_module,
}
use clientplugin.Rtti.Vtables.Grouping.{vftables, build_chunks-rest}
use clientplugin.Rtti.Vtables.Groups.{IsGroup, build_chunks-IsGroup}

module _ (sort : List ℕ → List ℕ) (m : Memory) (loaded_mod : LoadedModule) where
  get_vtables-eq :
      (functions : DataRangeChecker) (relocs : RelocMap)
      → collect_functions m loaded_mod ≡ ok functions
      → collect_typeinfos loaded_mod loaded_mod.elf.sections [] ≡ ok relocs
      → get_vtables_from_module sort m loaded_mod
        ≡ build_chunks m (locate_vftables sort m loaded_mod relocs functions) [] 0
  unfolding get_vtables_from_module
  get_vtables-eq functions relocs ef er = rw (ef, er) refl

  -- If the collections succeed, no located vftable is at 0, and the coroutine ends well, then each
  -- vtable that it hands out holds vftables that share a typeinfo, under that typeinfo's name.
  pub get_vtables_from_module-IsGroup :
      (functions : DataRangeChecker) (relocs : RelocMap)
      → collect_functions m loaded_mod ≡ ok functions
      → collect_typeinfos loaded_mod loaded_mod.elf.sections [] ≡ ok relocs
      → All (λ v. v ≢ 0) (yielded (locate_vftables sort m loaded_mod relocs functions))
      → outcome (get_vtables_from_module sort m loaded_mod) ≡ ok tt
      → All (IsGroup m) (yielded (get_vtables_from_module sort m loaded_mod))
  get_vtables_from_module-IsGroup functions relocs ef er nz e =
      let whole = get_vtables-eq functions relocs ef er in
      rw whole (
        build_chunks-IsGroup m (locate_vftables sort m loaded_mod relocs functions) [] 0 refl nz
          (rw whole at e))

  -- If the collections succeed, some vftable is located, and the coroutine ends well, then the
  -- vtables that it hands out hold the located vftables in order, all but at least one at the end.
  pub get_vtables_from_module-rest :
      (functions : DataRangeChecker) (relocs : RelocMap)
      → collect_functions m loaded_mod ≡ ok functions
      → collect_typeinfos loaded_mod loaded_mod.elf.sections [] ≡ ok relocs
      → yielded (locate_vftables sort m loaded_mod relocs functions) ≢ []
      → outcome (get_vtables_from_module sort m loaded_mod) ≡ ok tt
      → (first : ℕ) × (lost : List ℕ) × (yielded
            (locate_vftables sort m loaded_mod relocs functions)
          ≡ vftables (yielded (get_vtables_from_module sort m loaded_mod)) ++ (first ∷ lost))
  get_vtables_from_module-rest functions relocs ef er some_ e =
      let whole = get_vtables-eq functions relocs ef er in
      let located = locate_vftables sort m loaded_mod relocs functions in
      rw whole (build_chunks-rest m located [] 0 (rw whole at e) some_)
