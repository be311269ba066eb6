-- ===== src/Offsets/Init/Places.antt =====
-- Which module an offset into a module is taken from, and which function a symbol stands for.
use clientplugin.Base.{
  or_throw_value, ok_value, ℕ, ◌≡◌, ◌≢◌, sym, ap, subst, Option, List, [], ◌∷◌, All, map, Text,
  text_eq, lookup, Memory, Result, ok, err, >>=-eq-ok, or_throw, out_of_range, null_module,
  no_handle, no_symbol, add32, arith, ◌==◌, if◌then◌else◌,
}
use clientplugin.LoadedModule.{Elf}
use clientplugin.RangeChecker.{DataRange}
use clientplugin.Offsets.{
  Offset, manual_offset, shared_lib_offset, vtable_offset, shared_lib_symbol, shared_lib_signature,
  ModuleVtables, ModuleRangeMap, get_address,
}
use clientplugin.Offsets.Cache.{IsCached, cache_all-IsCached}
use clientplugin.Offsets.Scan.{IsFirst, get_address-IsFirst}
use clientplugin.Offsets.Init.Entries.{lookup-All}
use clientplugin.Offsets.Init.{PhdrInfo, iterate_phdr, handle_modules, init_offsets}
use clientplugin.Offsets.Init.Told.{
  IsTold, IsToldAs, IsToldOf, told_of_list, iterate_phdr-told, handle_modules-told,
}

-- What the address of each kind of offset is, but for those into vtables: a place in a module that was told, the first
-- window of such a module that matches, or what a symbol stands for.
abbrev pub IsPlaced :
    (Option Text → Result Text)
    → (Text → ℕ)
    → (ℕ → Text → ℕ)
    → Memory
    → List PhdrInfo
    → Offset × ℕ
    → Type 0
IsPlaced basename dlopen dlsym m infos (shared_lib_offset lib offset, a) =
    (begin : ℕ) × IsTold basename infos lib begin × (a ≡ add32 begin offset)
IsPlaced basename dlopen dlsym m infos (shared_lib_signature lib signature mask, a) =
    (begin i : ℕ) × IsTold basename infos lib begin
    × (a ≡ add32 i begin)
    × IsFirst m signature mask begin 0 i
IsPlaced basename dlopen dlsym m infos (shared_lib_symbol lib symbol, a) =
    (dlopen lib ≢ 0) × (a ≡ dlsym (dlopen lib) symbol)
IsPlaced basename dlopen dlsym m infos (manual_offset manual_address, a) = a ≡ manual_address
IsPlaced basename dlopen dlsym m infos (vtable_offset lib name function vftable, a) = Unit {0}

based :
    (begin offset a : ℕ)
    → (if begin == 0 then err null_module else ok (add32 begin offset)) ≡ ok a
    → a ≡ add32 begin offset
based begin offset a e = ground arith

symbol_found :
    (handle addr a : ℕ)
    → (if handle == 0 then err no_handle else if addr == 0 then err no_symbol else ok addr) ≡ ok a
    → (handle ≢ 0) × (a ≡ addr)
symbol_found handle addr a e = ((λ z. ground arith), ground arith)

module _ (basename : Option Text → Result Text) (dlopen : Text → ℕ) (dlsym : ℕ → Text → ℕ)
    (m : Memory) (infos : List PhdrInfo) (modules : ModuleRangeMap) (vtables : ModuleVtables)
    (told : All (IsToldOf basename (IsTold basename infos)) modules) where
  get_address-IsPlaced :
      (offset : Offset) (a : ℕ)
      → get_address dlopen dlsym m modules vtables offset ≡ ok a
      → IsPlaced basename dlopen dlsym m infos (offset, a)
  unfolding get_address
  get_address-IsPlaced (manual_offset manual_address) a e = sym (ok_value e)
  get_address-IsPlaced (shared_lib_offset lib offset) a e =
      let (range, er, rest) = >>=-eq-ok (or_throw (lookup text_eq lib modules) out_of_range) _ e in
      (
        range.begin,
        lookup-All (IsToldOf basename (IsTold basename infos)) lib modules told
            (or_throw_value _ _ er),
        based range.begin offset a rest,
      )
  get_address-IsPlaced (vtable_offset lib name function vftable) a e = tt
  get_address-IsPlaced (shared_lib_symbol lib symbol) a e =
      symbol_found (dlopen lib) (dlsym (dlopen lib) symbol) a e
  get_address-IsPlaced (shared_lib_signature lib signature mask) a e =
      let (range, er, rest) = >>=-eq-ok (or_throw (lookup text_eq lib modules) out_of_range) _ e in
      let (i, _, at, first) =
        get_address-IsFirst dlopen dlsym m modules vtables lib signature mask range a
          (or_throw_value _ _ er) e in
      (
        range.begin,
        i,
        lookup-All (IsToldOf basename (IsTold basename infos)) lib modules told
            (or_throw_value _ _ er),
        at,
        first,
      )

  All-IsPlaced :
      (offsets : List (Offset × ℕ))
      → All (IsCached dlopen dlsym m modules vtables) offsets
      → All (IsPlaced basename dlopen dlsym m infos) offsets
  All-IsPlaced [] cached = tt
  All-IsPlaced ((offset, a) ∷ offsets) cached =
      (get_address-IsPlaced offset a cached.0.0, All-IsPlaced offsets cached.1)

-- The order in which a map is passed brings no entries in.
abbrev pub AddsNone : (ModuleRangeMap → ModuleRangeMap) → Type 1
AddsNone order =
    (P : Text × DataRange → Type 0) (entries : ModuleRangeMap)
    → All P entries
    → All P (order entries)

module _ (sort : List ℕ → List ℕ) (open_elf : Text → Elf) (m : Memory)
    (basename : Option Text → Result Text) (dlopen : Text → ℕ) (dlsym : ℕ → Text → ℕ)
    (order : ModuleRangeMap → ModuleRangeMap) (adds_none : AddsNone order) where
  -- If the map of the modules is passed in an order that brings none in, and `init_offsets` and its caching end well,
  -- then the offsets are the same as before, in their order, and their members are: for a SharedLibOffset, its
  -- distance from the address of a module of its base name that the dynamic linker has told of and that is not
  -- excluded; for a SharedLibSignature, the first window from such an address on that matches; for a
  -- SharedLibSymbol, what `dlsym` gives with the handle of its module, which is not null; and for a manual
  -- address, that.
  pub init_offsets-IsPlaced :
      (infos : List PhdrInfo) (g_offset_list offsets : List (Offset × ℕ))
      → init_offsets sort open_elf m basename dlopen dlsym order infos g_offset_list
        ≡ ok (offsets, ok tt)
      → All (IsPlaced basename dlopen dlsym m infos) offsets
        × (map (λ (o : Offset × ℕ). o.0) offsets ≡ map (λ (o : Offset × ℕ). o.0) g_offset_list)
  unfolding init_offsets
  init_offsets-IsPlaced infos g_offset_list offsets e =
      let told = IsTold basename infos in
      let (found, collected, e1) = >>=-eq-ok (iterate_phdr basename infos []) _ e in
      let (tables, handled, last) =
        >>=-eq-ok
          (handle_modules sort open_elf m basename (order found)
            (record { cleaned_modules = []; eh_frame_ranges = []; module_vtables = [] }))
          _ e1 in
      let named =
        iterate_phdr-told basename told infos []
          (told_of_list basename told infos (λ lib begin t. t)) collected tt in
      let based_on =
        handle_modules-told basename told sort open_elf m (order found) _ handled
          (adds_none (IsToldAs basename told) found named) tt in
      let result = ok_value last in
      let (cached, same) =
        cache_all-IsCached dlopen dlsym m tables.cleaned_modules tables.module_vtables g_offset_list
          (ap (λ (c : List (Offset × ℕ) × Result (Unit {0})). c.1) result) in
      subst
        (λ (c : List (Offset × ℕ) × Result (Unit {0})).
          All (IsPlaced basename dlopen dlsym m infos) c.0
          × (map (λ (o : Offset × ℕ). o.0) c.0 ≡ map (λ (o : Offset × ℕ). o.0) g_offset_list))
        result
        (
          All-IsPlaced basename dlopen dlsym m infos tables.cleaned_modules tables.module_vtables
              based_on _ cached,
          same,
        )
