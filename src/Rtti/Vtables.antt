-- ===== src/Rtti/Vtables.antt =====
-- `get_vtables_from_module` of src/offsets/rtti.cpp.
use clientplugin.Base.{
  ℕ, ◌+◌, Bool, true, false, not, List, [], ◌∷◌, ◌++◌, Text, codes, ends_with, insert, Memory,
  load_le, Result, ok, err, undefined, ◌>>=◌, ◌==◌, if◌then◌else◌, add32, pointer_size,
}
use clientplugin.DataView.{read_string}
use clientplugin.EhFrame.{get_eh_frame_ranges}
use clientplugin.Generator.{Gen, returns, throws, yields, hangs, for_each}
use clientplugin.Generator.Bind
use clientplugin.RangeChecker.{DataRangeChecker, make_checker, add_range}
use clientplugin.LoadedModule.{LoadedModule, Section}
use clientplugin.Rtti.Relocations.{RelocMap, get_relocations, get_typeinfo_addr_from_vtable}
use clientplugin.Rtti.Candidates.{locate_vftables}
pub mod Grouping
pub mod Groups
pub mod Whole
pub mod Termination
pub mod Sound

-- `Vtable`: the name of a typeinfo, and its vftables.
abbrev pub Vtable : Type 0
Vtable = Text × List ℕ

-- ELFIO::SHT_REL
abbrev pub sht_rel : ℕ
sht_rel = 9

unfoldable pub collect_functions : Memory → LoadedModule → Result DataRangeChecker
collect_functions m loaded_mod =
    for_each add_range (get_eh_frame_ranges m loaded_mod) (make_checker loaded_mod.online_baseaddr)

unfoldable pub keep_typeinfo : RelocMap → ℕ × Text → Result RelocMap
keep_typeinfo relocs (addr, name) =
    ok (if ends_with name (codes "_class_type_infoE") then insert ◌==◌ addr name relocs else relocs)

unfoldable pub collect_typeinfos : LoadedModule → List Section → RelocMap → Result RelocMap
unfolding keep_typeinfo
collect_typeinfos loaded_mod [] relocs = ok relocs
collect_typeinfos loaded_mod (section ∷ sections) relocs =
    if section.type == sht_rel
    then (for_each keep_typeinfo (get_relocations loaded_mod section) relocs
        >>= collect_typeinfos loaded_mod sections)
    else collect_typeinfos loaded_mod sections relocs

-- `prev_entry != 0 && typeinfo of entry != typeinfo of prev_entry`
unfoldable pub changed : Memory → ℕ → ℕ → Result Bool
changed m prev_entry entry = if prev_entry == 0 then ok false else do
  current ← get_typeinfo_addr_from_vtable m entry
  previous ← get_typeinfo_addr_from_vtable m prev_entry
  ok (not (current == previous))

-- The name of the typeinfo of `current_chunk[0]`. No chunk is empty where this is called.
unfoldable pub typeinfo_name : Memory → List ℕ → Result Text
typeinfo_name m [] = err undefined
typeinfo_name m (v ∷ vs) = do
  typeinfo ← get_typeinfo_addr_from_vtable m v
  name ← load_le 4 m (add32 typeinfo pointer_size)
  (text, q) ← read_string m name
  ok text

-- The loop that builds chunks, with `current_chunk` and `prev_entry`.
unfoldable pub build_chunks : Memory → Gen ℕ → List ℕ → ℕ → Gen Vtable
unfolding changed typeinfo_name
build_chunks m returns current_chunk prev_entry = returns
build_chunks m (throws e) current_chunk prev_entry = throws e
build_chunks m (yields entry g) current_chunk prev_entry =
    let fresh = build_chunks m g (entry ∷ []) entry in
    let longer = build_chunks m g (current_chunk ++ (entry ∷ [])) entry in
    Bind.◌>>=◌ (changed m prev_entry entry) λ is_new.
      if is_new
      then (Bind.◌>>=◌ (typeinfo_name m current_chunk) λ name. yields (name, current_chunk) fresh)
      else longer
build_chunks m hangs current_chunk prev_entry = hangs

-- The argument `function_ranges` of the source is not used there.
unfoldable pub get_vtables_from_module : (List ℕ → List ℕ) → Memory → LoadedModule → Gen Vtable
unfolding build_chunks collect_functions collect_typeinfos
get_vtables_from_module sort m loaded_mod =
    Bind.◌>>=◌ (collect_functions m loaded_mod) λ function_range_checker.
      Bind.◌>>=◌ (collect_typeinfos loaded_mod loaded_mod.elf.sections []) λ typeinfo_relocs.
        build_chunks m (locate_vftables sort m loaded_mod typeinfo_relocs function_range_checker) []
          0
