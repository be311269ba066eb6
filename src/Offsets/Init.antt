-- ===== src/Offsets/Init.antt =====
-- `init_offsets` of src/offsets/offsets.cpp, without its timing and printing.
-- What `dl_iterate_phdr` hands out, `basename`, the files behind the modules and the order in which
-- a hash map is passed are given. The modules are handled by tasks of a scheduler, which write
-- different entries of the tables unless two modules have the same base name. Here the tasks run one
-- after the other, and an exception of one, which ends the process, ends the function; other orders
-- of what they write are in Tasks.
use clientplugin.Base.{
  ℕ, zero, suc, ◌+◌, Bool, true, false, ◌||◌, Option, none, some, List, [], ◌∷◌, ◌++◌, Text, codes,
  text_eq, lookup, insert, assign, Memory, Result, ok, err, stuck, ◌>>=◌, ◌==◌, if◌then◌else◌,
  add32, sub32,
}
use clientplugin.Generator.{for_each}
use clientplugin.RangeChecker.{DataRange}
use clientplugin.EhFrame.{get_eh_frame_ranges}
use clientplugin.LoadedModule.{Elf, LoadedModule, load_module}
use clientplugin.Rtti.Vtables.{Vtable, get_vtables_from_module}
use clientplugin.Offsets.{Offset, Vtables, ModuleVtables, ModuleRangeMap, cache_all}
pub mod Ranges
pub mod Termination
pub mod Sound
pub mod Entries
pub mod Told
pub mod Places
pub mod Tasks
pub mod Nonzero
mod Runs

-- A `dl_phdr_info`: the program headers' `p_vaddr` and `p_memsz`. `dlpi_name` may be a null pointer.
pub record PhdrInfo : Type 0 where
  pub dlpi_addr : ℕ
  pub dlpi_name : Option Text
  pub dlpi_phdr : List (ℕ × ℕ)

abbrev pub EhFrameRanges : Type 0
EhFrameRanges = List (Text × List DataRange)

unfoldable pub is_excluded : Text → Bool
is_excluded fname =
    text_eq fname (codes "linux-vdso.so.1") || text_eq fname (codes "libclientplugin.so")

-- The loop over the program headers. Its body reads the first header, whichever the index is.
unfoldable pub end_loop : ℕ → ℕ × ℕ → List (ℕ × ℕ) → ℕ → ℕ
end_loop dlpi_addr first [] end_addr = end_addr
end_loop dlpi_addr first (header ∷ rest) end_addr =
    end_loop dlpi_addr first rest (add32 dlpi_addr (add32 first.0 first.1))

unfoldable pub module_end : ℕ → List (ℕ × ℕ) → ℕ
unfolding end_loop
module_end dlpi_addr [] = dlpi_addr
module_end dlpi_addr (first ∷ rest) = end_loop dlpi_addr first (first ∷ rest) dlpi_addr

module _ (basename : Option Text → Result Text) where
  unfoldable pub named_module : PhdrInfo → Text → Text → ModuleRangeMap → ModuleRangeMap
  unfolding is_excluded module_end
  named_module info name fname modules =
      if (info.dlpi_addr == 0) || text_eq name []
      then modules
      else if is_excluded fname
      then modules
      else insert text_eq name
          (record {
            begin = info.dlpi_addr;
            length = sub32 (module_end info.dlpi_addr info.dlpi_phdr) info.dlpi_addr;
          })
          modules

  -- The callback of `dl_iterate_phdr`. It takes the base name before it looks at the name.
  unfoldable pub on_phdr : PhdrInfo → ModuleRangeMap → Result ModuleRangeMap
  unfolding named_module
  on_phdr info modules = do
    fname ← basename info.dlpi_name
    elim info.dlpi_name [
      | none ↦ ok modules
      | some name ↦ ok (named_module info name fname modules)
    ]

  unfoldable pub iterate_phdr : List PhdrInfo → ModuleRangeMap → Result ModuleRangeMap
  unfolding on_phdr
  iterate_phdr [] modules = ok modules
  iterate_phdr (info ∷ infos) modules = on_phdr info modules >>= iterate_phdr infos

-- The tables that the tasks and the offsets share.
pub record Tables : Type 0 where
  pub cleaned_modules : ModuleRangeMap
  pub eh_frame_ranges : EhFrameRanges
  pub module_vtables : ModuleVtables

-- `table[fname]`, which is empty where there is no entry.
abbrev entry_of {ℓ} : {A : Type ℓ} → Text → List (Text × List A) → List A
entry_of fname table = elim (lookup text_eq fname table) [ none ↦ [] | some xs ↦ xs ]

unfoldable pub push_range : List DataRange → DataRange → Result (List DataRange)
push_range ranges r = ok (ranges ++ (r ∷ []))

unfoldable pub insert_vtable : Vtables → Vtable → Result Vtables
insert_vtable vtables (name, vftables) = ok (insert text_eq name vftables vtables)

module _ (sort : List ℕ → List ℕ) (open_elf : Text → Elf) (m : Memory) where
  -- A task, on the entries of its module.
  unfoldable pub handle_module :
      Text → DataRange → List DataRange → Vtables → Result (List DataRange × Vtables)
  unfolding push_range insert_vtable
  handle_module mod_name mod_range mod_eh_frame_ranges vtables = do
    loaded_mod ← load_module (open_elf mod_name) mod_range
    ranges ← for_each push_range (get_eh_frame_ranges m loaded_mod) mod_eh_frame_ranges
    filled ← for_each insert_vtable (get_vtables_from_module sort m loaded_mod) vtables
    ok (ranges, filled)

  unfoldable pub add_module : Text → Text → DataRange → Tables → Result Tables
  unfolding handle_module
  add_module fname mod_name mod_range tables = do
    (ranges, vtables) ←
        handle_module mod_name mod_range (entry_of fname tables.eh_frame_ranges)
          (entry_of fname tables.module_vtables)
    ok (record {
      cleaned_modules = insert text_eq fname mod_range tables.cleaned_modules;
      eh_frame_ranges = assign text_eq fname ranges tables.eh_frame_ranges;
      module_vtables = assign text_eq fname vtables tables.module_vtables;
    })

  module _ (basename : Option Text → Result Text) where
    -- The loop over the modules.
    unfoldable pub handle_modules : ModuleRangeMap → Tables → Result Tables
    unfolding add_module
    handle_modules [] tables = ok tables
    handle_modules ((mod_name, mod_range) ∷ modules) tables = do
      fname ← basename (some mod_name)
      tables' ← add_module fname mod_name mod_range tables
      handle_modules modules tables'

    -- `order` is the order in which the map of the modules is passed. The members of the offsets come
    -- back with how the function ends.
    unfoldable pub init_offsets :
        (Text → ℕ)
        → (ℕ → Text → ℕ)
        → (ModuleRangeMap → ModuleRangeMap)
        → List PhdrInfo
        → List (Offset × ℕ)
        → Result (List (Offset × ℕ) × Result (Unit {0}))
    unfolding iterate_phdr handle_modules
    init_offsets dlopen dlsym order infos g_offset_list = do
      modules ← iterate_phdr basename infos []
      tables ←
          handle_modules (order modules)
            (record { cleaned_modules = []; eh_frame_ranges = []; module_vtables = [] })
      ok (cache_all dlopen dlsym m tables.cleaned_modules tables.module_vtables g_offset_list)
