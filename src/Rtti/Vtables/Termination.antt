-- ===== src/Rtti/Vtables/Termination.antt =====
-- Termination of `get_vtables_from_module`.
use clientplugin.Base.{
  ℕ, false, List, [], ◌∷◌, ◌++◌, Memory, IsUserSpace, IsByteMemory, load_le, ok, ◌>>=◌, ◌==◌, add32,
  pointer_size, Ends, ok-Ends, err-Ends, if-Ends, >>=-Ends,
}
use clientplugin.DataView.{read_string}
use clientplugin.DataView.Dwarf.{load_le_bound}
use clientplugin.DataView.Total.{load_le-Ends, read_string-Ends}
use clientplugin.EhFrame.Termination.{get_eh_frame_ranges-Finishes}
use clientplugin.Generator.{Gen, returns, throws, yields, hangs, for_each, outcome}
use clientplugin.Generator.Bind
use clientplugin.Generator.Finishes.{
  Finishes, throws-Finishes, returns-Finishes, yields-Finishes, bind-Finishes, if-Finishes,
  for_each-Ends_always,
}
use clientplugin.LoadedModule.{LoadedModule, Section}
use clientplugin.RangeChecker.Laws.{add_range-Ends}
use clientplugin.Rtti.Relocations.{RelocMap, get_relocations}
use clientplugin.Rtti.Relocations.Termination.{get_relocations-Finishes, get_typeinfo_addr-Ends}
use clientplugin.Rtti.Candidates.Termination.{locate_vftables-Finishes}
use clientplugin.Rtti.Vtables.{
  Vtable, sht_rel, collect_functions, keep_typeinfo, collect_typeinfos, changed, typeinfo_name,
  build_chunks, get_vtables_from_module,
}

collect_functions-Ends :
    {m : Memory}
    → IsUserSpace m
    → (loaded_mod : LoadedModule) → Ends (collect_functions m loaded_mod)
unfolding collect_functions
collect_functions-Ends user loaded_mod =
    for_each-Ends_always _ _ _ (get_eh_frame_ranges-Finishes user loaded_mod) add_range-Ends

keep_typeinfo-Ends : (relocs : RelocMap) (entry : _) → Ends (keep_typeinfo relocs entry)
unfolding keep_typeinfo
keep_typeinfo-Ends relocs entry = ok-Ends _

collect_typeinfos-Ends :
    (loaded_mod : LoadedModule) (sections : List Section) (relocs : RelocMap)
    → Ends (collect_typeinfos loaded_mod sections relocs)
unfolding collect_typeinfos
collect_typeinfos-Ends loaded_mod [] relocs = ok-Ends relocs
collect_typeinfos-Ends loaded_mod (section ∷ sections) relocs =
    if-Ends (section.type == sht_rel)
      (for_each keep_typeinfo (get_relocations loaded_mod section) relocs
        >>= collect_typeinfos loaded_mod sections)
      _
      (>>=-Ends _ _
        (for_each-Ends_always _ _ _ (get_relocations-Finishes loaded_mod section)
          keep_typeinfo-Ends)
        λ found _. collect_typeinfos-Ends loaded_mod sections found)
      (collect_typeinfos-Ends loaded_mod sections relocs)

changed-Ends : (m : Memory) (prev_entry entry : ℕ) → Ends (changed m prev_entry entry)
unfolding changed
changed-Ends m prev_entry entry = if-Ends (prev_entry == 0) (ok false) _ (ok-Ends false) (
    >>=-Ends _ _ (get_typeinfo_addr-Ends m entry)
      λ current _. >>=-Ends _ _ (get_typeinfo_addr-Ends m prev_entry) λ previous _. ok-Ends _)

module _ {m : Memory} (user : IsUserSpace m) (bytes : IsByteMemory m) where
  -- The pointer to a name is a word, so the name is read up to a null byte or to a fault.
  typeinfo_name-Ends : (chunk : List ℕ) → Ends (typeinfo_name m chunk)
  unfolding typeinfo_name
  typeinfo_name-Ends [] = err-Ends _
  typeinfo_name-Ends (v ∷ vs) = >>=-Ends _ _ (get_typeinfo_addr-Ends m v) λ typeinfo _.
      >>=-Ends (load_le 4 m (add32 typeinfo pointer_size)) _ (load_le-Ends 4 m _) λ name e.
        >>=-Ends (read_string m name) _
          (read_string-Ends user name (load_le_bound 4 m _ name bytes e)) λ text _. ok-Ends _

  build_chunks-Finishes :
      (entries : Gen ℕ) (current_chunk : List ℕ) (prev_entry : ℕ)
      → Finishes entries
      → Finishes (build_chunks m entries current_chunk prev_entry)
  unfolding build_chunks outcome
  build_chunks-Finishes returns chunk prev h = returns-Finishes Vtable
  build_chunks-Finishes (throws e) chunk prev h = throws-Finishes Vtable e
  build_chunks-Finishes (yields entry g) chunk prev h =
      bind-Finishes _ _ (changed-Ends m prev entry) λ is_new _.
        if-Finishes is_new
          (Bind.◌>>=◌ (typeinfo_name m chunk)
            λ name. yields (name, chunk) (build_chunks m g (entry ∷ []) entry))
          _
          (λ _. bind-Finishes _ _ (typeinfo_name-Ends chunk) λ name _.
            yields-Finishes (name, chunk) (build_chunks m g (entry ∷ []) entry)
              (build_chunks-Finishes g (entry ∷ []) entry h))
          (λ _. build_chunks-Finishes g (chunk ++ (entry ∷ [])) entry h)
  build_chunks-Finishes hangs chunk prev h = h

  -- In user space `get_vtables_from_module` comes to an end on every module.
  pub get_vtables_from_module-Finishes :
      (sort : List ℕ → List ℕ) (loaded_mod : LoadedModule)
      → Finishes (get_vtables_from_module sort m loaded_mod)
  unfolding get_vtables_from_module
  get_vtables_from_module-Finishes sort loaded_mod =
      bind-Finishes _ _ (collect_functions-Ends user loaded_mod) λ functions _.
        bind-Finishes _ _ (collect_typeinfos-Ends loaded_mod loaded_mod.elf.sections []) λ relocs _.
          build_chunks-Finishes _ [] 0
            (locate_vftables-Finishes user sort loaded_mod relocs functions)
