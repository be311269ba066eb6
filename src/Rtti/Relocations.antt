-- ===== src/Rtti/Relocations.antt =====
-- `get_relocations`, `section_ranges` and `get_typeinfo_size` of src/offsets/rtti.cpp.
use clientplugin.Base.{
  ℕ, zero, suc, ◌+◌, ◌*◌, ◌%◌, Bool, true, false, not, ◌||◌, Option, none, some, List, [], ◌∷◌,
  Text, codes, ends_with, lookup, Memory, load_le, Result, ok, err, ◌>>=◌, Error, bad_relocation,
  unknown_rtti, out_of_range, or_throw, ◌==◌, if◌then◌else◌, add32, sub32, word, pointer_size,
}
use clientplugin.Generator.{Gen, returns, throws, yields}
use clientplugin.RangeChecker.{DataRange}
use clientplugin.LoadedModule.{
  LoadedModule, Section, Symbol, Relocation, get_online_address_from_offline,
}
pub mod Sizes
pub mod Termination

-- `RelocMap`: the name of the symbol that a relocation at an address refers to.
abbrev pub RelocMap : Type 0
RelocMap = List (ℕ × Text)

-- ELFIO::STN_UNDEF
abbrev pub stn_undef : ℕ
stn_undef = 0

-- One relocation whose symbol has been looked up: skip it, or yield it.
unfoldable pub relocation :
    LoadedModule → Relocation → Option Symbol → Gen (ℕ × Text) → Gen (ℕ × Text)
relocation m r none rest = rest
relocation m r (some symbol) rest =
    if (r.type == 0) || (symbol.type == stn_undef)
    then rest
    else yields (get_online_address_from_offline m (r.offset % word), symbol.name) rest

-- The loop over the entries of a section; `none` is an entry that ELFIO fails to read.
unfoldable pub relocations_from :
    LoadedModule → Section → ℕ → List (Option Relocation) → Gen (ℕ × Text)
unfolding relocation
relocations_from m section relidx [] = returns
relocations_from m section relidx (none ∷ entries) = throws (bad_relocation relidx)
relocations_from m section relidx (some r ∷ entries) =
    relocation m r (section.get_symbol r.symbol) (relocations_from m section (suc relidx) entries)

unfoldable pub get_relocations : LoadedModule → Section → Gen (ℕ × Text)
unfolding relocations_from
get_relocations m section = relocations_from m section 0 section.entries

unfoldable pub ranges_of : LoadedModule → List Section → Gen DataRange
ranges_of m [] = returns
ranges_of m (s ∷ sections) =
    let rest = ranges_of m sections in
    if s.address == 0
    then rest
    else yields
        (record {
          begin = get_online_address_from_offline m (s.address % word);
          length = s.size % word;
        })
        rest

unfoldable pub section_ranges : LoadedModule → Gen DataRange
unfolding ranges_of
section_ranges m = ranges_of m m.elf.sections

-- The loop over the bases of a __vmi_class_type_info adds a pointer and a long for each.
unfoldable pub add_bases : ℕ → ℕ → ℕ
add_bases zero size = size
add_bases (suc base_count) size = add_bases base_count (add32 (add32 size pointer_size) 4)

-- The choice by the name of the typeinfo's own vtable.
unfoldable pub typeinfo_size : Memory → ℕ → Text → Result ℕ
unfolding add_bases
typeinfo_size m addr vtable_type =
    if ends_with vtable_type (codes "__si_class_type_infoE")
    then ok 12
    else if ends_with vtable_type (codes "__vmi_class_type_infoE")
    then (do base_count ← load_le 4 m (add32 addr 12); ok (add_bases base_count 16))
    else if ends_with vtable_type (codes "__class_type_infoE")
    then ok 8
    else err (unknown_rtti vtable_type)

unfoldable pub get_typeinfo_size : Memory → RelocMap → ℕ → Result ℕ
unfolding typeinfo_size
get_typeinfo_size m relocations addr = do
  vtable_type ← or_throw (lookup ◌==◌ addr relocations) out_of_range
  typeinfo_size m addr vtable_type

unfoldable pub get_typeinfo_addr_from_vtable : Memory → ℕ → Result ℕ
get_typeinfo_addr_from_vtable m v = load_le 4 m (sub32 v pointer_size)
