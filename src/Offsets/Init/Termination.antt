-- ===== src/Offsets/Init/Termination.antt =====
-- Termination of `init_offsets`.
use clientplugin.Base.{
  to_string, pointer_size, ◌*◌, >>=-eq-ok, inl, inr, Result-cases, ℕ, zero, suc, Option, none, some,
  List, [], ◌∷◌, ◌++◌, length, Text, text_eq, lookup, get_elem?, Memory, IsUserSpace, IsByteMemory,
  Result, ok, err, ◌>>=◌, out_of_range, null_module, no_handle, no_symbol, ◌==◌, if◌then◌else◌,
  Ends, ok-Ends, err-Ends, if-Ends, >>=-Ends, or_throw-Ends, arith, add32, bit_and,
}
use clientplugin.DataView.Total.{load-Ends, load_le-Ends}
use clientplugin.EhFrame.Termination.{get_eh_frame_ranges-Finishes}
use clientplugin.Generator.Finishes.{for_each-Ends_always}
use clientplugin.LoadedModule.{Elf, load_module}
use clientplugin.RangeChecker.{DataRange}
use clientplugin.Rtti.Vtables.{Vtable}
use clientplugin.Rtti.Vtables.Termination.{get_vtables_from_module-Finishes}
use clientplugin.Offsets.{
  Offset, manual_offset, shared_lib_offset, vtable_offset, shared_lib_symbol, shared_lib_signature,
  Vtables, ModuleVtables, ModuleRangeMap, window_matches, scan, get_address, cache_address,
  cache_all,
}
use clientplugin.Offsets.Init.{
  PhdrInfo, Tables, named_module, on_phdr, iterate_phdr, push_range, insert_vtable, handle_module,
  add_module, handle_modules, init_offsets,
}

window_matches-Ends :
    (m : Memory) (p : ℕ) (signature mask : List ℕ) → Ends (window_matches m p signature mask)
unfolding window_matches
window_matches-Ends m p [] mask = ok-Ends _
window_matches-Ends m p (s ∷ signature) [] = ok-Ends _
window_matches-Ends m p (s ∷ signature) (k ∷ mask) = >>=-Ends _ _ (load-Ends m p) λ orig_byte _.
    if-Ends (bit_and orig_byte k == bit_and s k) _ _
      (window_matches-Ends m (add32 p 1) signature mask) (ok-Ends _)

scan-Ends :
    (m : Memory) (begin : ℕ) (signature mask : List ℕ) (idx windows : ℕ)
    → Ends (scan m begin signature mask idx windows)
unfolding scan
scan-Ends m begin signature mask idx zero = err-Ends _
scan-Ends m begin signature mask idx (suc windows) =
    >>=-Ends _ _ (window_matches-Ends m _ signature mask) λ matched _.
      if-Ends matched _ _ (ok-Ends _) (scan-Ends m begin signature mask (suc idx) windows)

module _ (dlopen : Text → ℕ) (dlsym : ℕ → Text → ℕ) (m : Memory) (modules : ModuleRangeMap)
    (vtables : ModuleVtables) where
  get_address-Ends : (offset : Offset) → Ends (get_address dlopen dlsym m modules vtables offset)
  unfolding get_address
  get_address-Ends (manual_offset a) = ok-Ends a
  get_address-Ends (shared_lib_offset lib offset) =
      >>=-Ends _ _ (or_throw-Ends (lookup text_eq lib modules) out_of_range) λ range _.
        if-Ends (range.begin == 0) (err null_module) (ok (add32 range.begin offset)) (err-Ends _)
          (ok-Ends _)
  get_address-Ends (vtable_offset lib name function vftable) =
      >>=-Ends _ _ (or_throw-Ends (lookup text_eq lib vtables) out_of_range) λ of_module _.
        >>=-Ends _ _
          (or_throw-Ends (lookup text_eq (to_string (length name) ++ name) of_module) out_of_range)
          λ vftables _.
            >>=-Ends _ _ (or_throw-Ends (get_elem? vftables vftable) out_of_range)
              λ ptr _. load_le-Ends 4 m (add32 ptr (pointer_size * function))
  get_address-Ends (shared_lib_symbol lib symbol) =
      if-Ends (dlopen lib == 0) (err no_handle)
        (if dlsym (dlopen lib) symbol == 0 then err no_symbol else ok (dlsym (dlopen lib) symbol))
        (err-Ends _)
        (if-Ends (dlsym (dlopen lib) symbol == 0) (err no_symbol) (ok (dlsym (dlopen lib) symbol))
          (err-Ends _) (ok-Ends _))
  get_address-Ends (shared_lib_signature lib signature mask) =
      >>=-Ends _ _ (or_throw-Ends (lookup text_eq lib modules) out_of_range)
        λ range _. scan-Ends m range.begin signature mask 0 _

  cache_address-Ends :
      (offset : Offset) (cached_address : ℕ)
      → Ends (cache_address dlopen dlsym m modules vtables offset cached_address).1
  unfolding cache_address
  cache_address-Ends offset cached_address e =
      elim (Result-cases (get_address dlopen dlsym m modules vtables offset)) [
        | inl (zero, r) ↦ absurd (ground arith)
        | inl (suc a, r) ↦ absurd (ground arith)
        | inr (inl (x, r)) ↦ absurd (ground arith)
        | inr (inr r) ↦ get_address-Ends offset r
      ]

  cache_all-Ends :
      (offsets : List (Offset × ℕ)) → Ends (cache_all dlopen dlsym m modules vtables offsets).1
  unfolding cache_all
  cache_all-Ends [] e = absurd (ground arith)
  cache_all-Ends ((offset, old) ∷ offsets) e =
      elim (Result-cases (cache_address dlopen dlsym m modules vtables offset old).1) [
        | inl (u, r) ↦ cache_all-Ends offsets (ground arith)
        | inr (inl (x, r)) ↦ absurd (ground arith)
        | inr (inr r) ↦ cache_address-Ends offset old r
      ]

module _ (basename : Option Text → Result Text)
    (names : (name : Option Text) → Ends (basename name)) where
  on_phdr-Ends : (info : PhdrInfo) (modules : ModuleRangeMap) → Ends (on_phdr basename info modules)
  unfolding on_phdr
  on_phdr-Ends info modules =
      >>=-Ends _ _ (names info.dlpi_name) λ fname _. named info.dlpi_name fname
    where
      named :
          (name : Option Text) (fname : Text)
          → Ends (elim name [
            | none ↦ ok modules
            | some n ↦ ok (named_module basename info n fname modules)
          ])
      named none fname = ok-Ends _
      named (some n) fname = ok-Ends _

  iterate_phdr-Ends :
      (infos : List PhdrInfo) (modules : ModuleRangeMap)
      → Ends (iterate_phdr basename infos modules)
  unfolding iterate_phdr
  iterate_phdr-Ends [] modules = ok-Ends modules
  iterate_phdr-Ends (info ∷ infos) modules =
      >>=-Ends _ _ (on_phdr-Ends info modules) λ found _. iterate_phdr-Ends infos found

load_module-Ends : (elf : Elf) (range : DataRange) → Ends (load_module elf range)
unfolding load_module
load_module-Ends elf range = ground arith

push_range-Ends : (ranges : List DataRange) (range : DataRange) → Ends (push_range ranges range)
unfolding push_range
push_range-Ends ranges range = ok-Ends _

insert_vtable-Ends : (vtables : Vtables) (vtable : Vtable) → Ends (insert_vtable vtables vtable)
unfolding insert_vtable
insert_vtable-Ends vtables vtable = ok-Ends _

module _ {m : Memory} (user : IsUserSpace m) (bytes : IsByteMemory m) (sort : List ℕ → List ℕ)
    (open_elf : Text → Elf) where
  handle_module-Ends :
      (mod_name : Text) (mod_range : DataRange) (ranges : List DataRange) (vtables : Vtables)
      → Ends (handle_module sort open_elf m mod_name mod_range ranges vtables)
  unfolding handle_module
  handle_module-Ends mod_name mod_range ranges vtables =
      >>=-Ends _ _ (load_module-Ends (open_elf mod_name) mod_range) λ loaded_mod _.
        >>=-Ends _ _
          (for_each-Ends_always _ _ _ (get_eh_frame_ranges-Finishes user loaded_mod)
            push_range-Ends)
          λ frames _.
            >>=-Ends _ _
              (for_each-Ends_always _ _ _
                (get_vtables_from_module-Finishes user bytes sort loaded_mod) insert_vtable-Ends)
              λ filled _. ok-Ends _

  add_module-Ends :
      (fname mod_name : Text) (mod_range : DataRange) (tables : Tables)
      → Ends (add_module sort open_elf m fname mod_name mod_range tables)
  unfolding add_module
  add_module-Ends fname mod_name mod_range tables =
      >>=-Ends _ _ (handle_module-Ends mod_name mod_range _ _) λ filled _. ok-Ends _

  module _ (basename : Option Text → Result Text)
      (names : (name : Option Text) → Ends (basename name)) where
    handle_modules-Ends :
        (modules : ModuleRangeMap) (tables : Tables)
        → Ends (handle_modules sort open_elf m basename modules tables)
    unfolding handle_modules
    handle_modules-Ends [] tables = ok-Ends tables
    handle_modules-Ends ((mod_name, mod_range) ∷ modules) tables =
        >>=-Ends _ _ (names (some mod_name)) λ fname _.
          >>=-Ends _ _ (add_module-Ends fname mod_name mod_range tables)
            λ tables' _. handle_modules-Ends modules tables'

    -- `init_offsets` comes to an end: where the memory of the process holds bytes, where neither the
    -- null page nor the last byte of the address space is mapped, and where `basename` returns or
    -- throws, it neither loops for ever in a module's file, sections, frames or vtables nor in the
    -- search for an offset, whatever the files, the memory and the offsets are. It returns, or it
    -- throws, and so do the calls of `cache_address`.
    pub init_offsets-Ends :
        (dlopen : Text → ℕ) (dlsym : ℕ → Text → ℕ) (order : ModuleRangeMap → ModuleRangeMap)
        (infos : List PhdrInfo) (g_offset_list : List (Offset × ℕ))
        → Ends (
            init_offsets sort open_elf m basename dlopen dlsym order infos g_offset_list >>= λ done.
            done.1)
    unfolding init_offsets
    init_offsets-Ends dlopen dlsym order infos g_offset_list =
        >>=-Ends _ _
          (>>=-Ends _ _ (iterate_phdr-Ends basename names infos [])
            λ modules _. >>=-Ends _ _ (handle_modules-Ends (order modules) _) λ tables _. ok-Ends _)
          λ done e.
            let (modules, _, rest) = >>=-eq-ok (iterate_phdr basename infos []) _ e in
            let (tables, _, cached) =
              >>=-eq-ok (handle_modules sort open_elf m basename (order modules) _) _ rest in
            λ never.
              cache_all-Ends dlopen dlsym m tables.cleaned_modules tables.module_vtables
                g_offset_list cc
