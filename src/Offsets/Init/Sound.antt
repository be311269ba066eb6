-- ===== src/Offsets/Init/Sound.antt =====
-- What the vtable offsets are after `init_offsets`.
use clientplugin.Base.{
  or_throw_value, ok_value, ℕ, ◌*◌, ◌≡◌, refl, ap, subst, Bool-cases, inl, inr, Option, none, some,
  List, [], ◌∷◌, ◌++◌, All, length, get_elem?, Text, text_eq, to_string, lookup, assign, Memory,
  IsUserSpace, load_le, Result, ok, >>=-eq-ok, or_throw, out_of_range, add32, pointer_size,
}
use clientplugin.EhFrame.{get_eh_frame_ranges}
use clientplugin.Generator.{for_each}
use clientplugin.Generator.Loops.{for_each-keeps, for_each-outcome}
use clientplugin.LoadedModule.{Elf, load_module}
use clientplugin.RangeChecker.{DataRange}
use clientplugin.Rtti.Candidates.Bounds.{IsRearranging}
use clientplugin.Rtti.Vtables.{Vtable, typeinfo_name, get_vtables_from_module}
use clientplugin.Rtti.Vtables.Groups.{IsGroup}
use clientplugin.Rtti.Vtables.Sound.{get_vtables-IsGroup, IsGroup-member}
use clientplugin.Offsets.{
  Offset, manual_offset, shared_lib_offset, vtable_offset, shared_lib_symbol, shared_lib_signature,
  Vtables, ModuleVtables, ModuleRangeMap, get_address,
}
use clientplugin.Offsets.Cache.{IsCached, cache_all-IsCached}
use clientplugin.Offsets.Init.Entries.{insert-All, lookup-All}
use clientplugin.Offsets.Init.{
  PhdrInfo, Tables, iterate_phdr, entry_of, push_range, insert_vtable, handle_module, add_module,
  handle_modules, init_offsets,
}

-- The address stands in the vftable of that number, which has the typeinfo of the name.
abbrev pub IsVtableEntry : Memory → Offset × ℕ → Type 0
IsVtableEntry m (vtable_offset lib name function vftable, cached_address) =
    (ptr : ℕ) × (typeinfo_name m (ptr ∷ []) ≡ ok (to_string (length name) ++ name))
    × (load_le 4 m (add32 ptr (pointer_size * function)) ≡ ok cached_address)
IsVtableEntry m _ = Unit {0}

module _ {m : Memory} (user : IsUserSpace m) (sort : List ℕ → List ℕ) (sorts : IsRearranging sort)
    (open_elf : Text → Elf) where
  abbrev AreGroups : Text × Vtables → Type 0
  AreGroups entry = All (IsGroup m) entry.1

  insert_vtable-groups :
      (vtables : Vtables) (v : Vtable) (vtables' : Vtables)
      → IsGroup m v
      → insert_vtable vtables v ≡ ok vtables'
      → All (IsGroup m) vtables
      → All (IsGroup m) vtables'
  unfolding insert_vtable
  insert_vtable-groups vtables (name, vftables) vtables' g e each =
      subst (All (IsGroup m)) (ok_value e) (insert-All (IsGroup m) name vftables vtables each g)

  handle_module-groups :
      (mod_name : Text) (mod_range : DataRange) (frames : List DataRange) (vtables : Vtables)
      {after : List DataRange × Vtables}
      → handle_module sort open_elf m mod_name mod_range frames vtables ≡ ok after
      → All (IsGroup m) vtables
      → All (IsGroup m) after.1
  unfolding handle_module
  handle_module-groups mod_name mod_range frames vtables e each =
      let (loaded_mod, _, e1) = >>=-eq-ok (load_module (open_elf mod_name) mod_range) _ e in
      let (ranges, _, e2) =
        >>=-eq-ok (for_each push_range (get_eh_frame_ranges m loaded_mod) frames) _ e1 in
      let (filled, passed, e3) =
        >>=-eq-ok (for_each insert_vtable (get_vtables_from_module sort m loaded_mod) vtables) _
          e2 in
      let ended =
        for_each-outcome insert_vtable (get_vtables_from_module sort m loaded_mod) vtables filled
          passed in
      subst (λ (a : List DataRange × Vtables). All (IsGroup m) a.1) (ok_value e3)
        (for_each-keeps (IsGroup m) (All (IsGroup m)) insert_vtable
          (λ t v t' g one. insert_vtable-groups t v t' g one)
          (get_vtables_from_module sort m loaded_mod) vtables filled
          (get_vtables-IsGroup user sort sorts loaded_mod ended) passed each)

  entry_of-groups :
      (fname : Text) (tables : ModuleVtables)
      → All AreGroups tables
      → All (IsGroup m) (entry_of fname tables)
  entry_of-groups fname tables each = of_lookup (lookup text_eq fname tables) refl
    where
      of_lookup :
          (o : Option Vtables)
          → lookup text_eq fname tables ≡ o
          → All (IsGroup m) (elim o [ none ↦ [] | some xs ↦ xs ])
      of_lookup none e = tt
      of_lookup (some xs) e = lookup-All AreGroups fname tables each e

  assign-groups :
      (k : Text) (v : Vtables) (tables : ModuleVtables)
      → All AreGroups tables
      → All (IsGroup m) v
      → All AreGroups (assign text_eq k v tables)
  unfolding assign
  assign-groups k v [] each h = (h, tt)
  assign-groups k v ((j, w) ∷ tables) each h = elim (Bool-cases (text_eq j k)) [
    | inl y ↦ rw (y, assign) (h, each.1)
    | inr n ↦ rw (n, assign) (each.0, assign-groups k v tables each.1 h)
  ]

  add_module-groups :
      (fname mod_name : Text) (mod_range : DataRange) (tables : Tables) {tables' : Tables}
      → add_module sort open_elf m fname mod_name mod_range tables ≡ ok tables'
      → All AreGroups tables.module_vtables
      → All AreGroups tables'.module_vtables
  unfolding add_module
  add_module-groups fname mod_name mod_range tables e each =
      let (after, handled, last) =
        >>=-eq-ok
          (handle_module sort open_elf m mod_name mod_range (entry_of fname tables.eh_frame_ranges)
            (entry_of fname tables.module_vtables))
          _ e in
      subst (λ (t : Tables). All AreGroups t.module_vtables) (ok_value last)
        (assign-groups fname after.1 tables.module_vtables each (
          handle_module-groups mod_name mod_range _ _ handled
            (entry_of-groups fname tables.module_vtables each)))

  module _ (basename : Option Text → Result Text) where
    handle_modules-groups :
        (modules : ModuleRangeMap) (tables : Tables) {tables' : Tables}
        → handle_modules sort open_elf m basename modules tables ≡ ok tables'
        → All AreGroups tables.module_vtables
        → All AreGroups tables'.module_vtables
    unfolding handle_modules
    handle_modules-groups [] tables e each =
        subst (λ (t : Tables). All AreGroups t.module_vtables) (ok_value e) each
    handle_modules-groups ((mod_name, mod_range) ∷ modules) tables e each =
        let (fname, _, e1) = >>=-eq-ok (basename (some mod_name)) _ e in
        let (between, added, rest) =
          >>=-eq-ok (add_module sort open_elf m fname mod_name mod_range tables) _ e1 in
        handle_modules-groups modules between rest
          (add_module-groups fname mod_name mod_range tables added each)

    module _ (dlopen : Text → ℕ) (dlsym : ℕ → Text → ℕ) where
      get_address-entry :
          (modules : ModuleRangeMap) (vtables : ModuleVtables) (offset : Offset)
          (cached_address : ℕ)
          → All AreGroups vtables
          → get_address dlopen dlsym m modules vtables offset ≡ ok cached_address
          → IsVtableEntry m (offset, cached_address)
      unfolding get_address
      get_address-entry modules vtables (manual_offset a) cached_address each e = tt
      get_address-entry modules vtables (shared_lib_offset lib offset) cached_address each e = tt
      get_address-entry modules vtables (shared_lib_symbol lib symbol) cached_address each e = tt
      get_address-entry modules vtables (shared_lib_signature lib s k) cached_address each e = tt
      get_address-entry modules vtables (vtable_offset lib name function vftable) cached_address
            each e =
          let key = to_string (length name) ++ name in
          let (of_module, e1, r1) =
            >>=-eq-ok (or_throw (lookup text_eq lib vtables) out_of_range) _ e in
          let (vftables, e2, r2) =
            >>=-eq-ok (or_throw (lookup text_eq key of_module) out_of_range) _ r1 in
          let (ptr, e3, r3) = >>=-eq-ok (or_throw (get_elem? vftables vftable) out_of_range) _ r2 in
          let groups = lookup-All AreGroups lib vtables each (or_throw_value _ _ e1) in
          let group = lookup-All (IsGroup m) key of_module groups (or_throw_value _ _ e2) in
          (ptr, IsGroup-member m key vftables vftable ptr group (or_throw_value _ _ e3), r3)

      All-entries :
          (modules : ModuleRangeMap) (vtables : ModuleVtables) (offsets : List (Offset × ℕ))
          → All AreGroups vtables
          → All (IsCached dlopen dlsym m modules vtables) offsets
          → All (IsVtableEntry m) offsets
      All-entries modules vtables [] each cached = tt
      All-entries modules vtables ((offset, address) ∷ offsets) each cached = (
        get_address-entry modules vtables offset address each cached.0.0,
        All-entries modules vtables offsets each cached.1,
      )

      -- In user space, and with a sort that gives back what it is given: if `init_offsets` and its caching
      -- end well, then each VtableOffset holds the address that stands at its index in some vftable,
      -- and the name of that vftable's typeinfo in memory is the class's, with its length before it.
      pub init_offsets-IsVtableEntry :
          (order : ModuleRangeMap → ModuleRangeMap) (infos : List PhdrInfo)
          (g_offset_list offsets : List (Offset × ℕ))
          → init_offsets sort open_elf m basename dlopen dlsym order infos g_offset_list
            ≡ ok (offsets, ok tt)
          → All (IsVtableEntry m) offsets
      unfolding init_offsets
      init_offsets-IsVtableEntry order infos g_offset_list offsets e =
          let (found, _, e1) = >>=-eq-ok (iterate_phdr basename infos []) _ e in
          let (tables, handled, last) =
            >>=-eq-ok
              (handle_modules sort open_elf m basename (order found)
                (record { cleaned_modules = []; eh_frame_ranges = []; module_vtables = [] }))
              _ e1 in
          let result = ok_value last in
          let groups = handle_modules-groups (order found) _ handled tt in
          let cached =
            cache_all-IsCached dlopen dlsym m tables.cleaned_modules tables.module_vtables
              g_offset_list (ap (λ c. c.1) result) in
          All-entries tables.cleaned_modules tables.module_vtables offsets groups (
            subst
              (λ (c : List (Offset × ℕ) × Result (Unit {0})).
                All (IsCached dlopen dlsym m tables.cleaned_modules tables.module_vtables) c.0)
              result cached.0)
