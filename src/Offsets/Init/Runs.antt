-- ===== src/Offsets/Init/Runs.antt =====
-- A module with two classes, A and B, and an offset into the vtable of A.
use clientplugin.Base.{
  ℕ, ◌+◌, ◌<◌, ◌≡◌, refl, Bool-cases, inl, inr, Option, none, some, List, [], ◌∷◌, All, map, arith,
  Text, codes, text_eq, starts_with, ends_with, to_string, decimal, lookup, insert, assign, Memory,
  IsUserSpace, IsByteMemory, load, load_le, Result, ok, ◌>>=◌, ◌==◌, Ends,
}
use clientplugin.DataView.{read_string, string_at}
use clientplugin.EhFrame.{get_eh_frame_ranges, frames_of}
use clientplugin.Generator.{for_each}
use clientplugin.LoadedModule.{
  Elf, Symbol, Relocation, pt_load, load_module, lowest, get_online_address_from_offline,
}
use clientplugin.RangeChecker.{
  make_checker, set_bit, test_bit, add_loop, add_range, is_position_in_range,
}
use clientplugin.Rtti.Relocations.{
  relocation, relocations_from, get_relocations, ranges_of, section_ranges, add_bases,
  typeinfo_size, get_typeinfo_size, get_typeinfo_addr_from_vtable,
}
use clientplugin.Rtti.Candidates.{
  is_typeinfo, visit, visit_words, visit_range, find_candidates, remove_inside, seen, filter_seen,
  locate_vftables,
}
use clientplugin.Rtti.Candidates.Bounds.{IsRearranging}
use clientplugin.Rtti.Vtables.{
  sht_rel, collect_functions, keep_typeinfo, collect_typeinfos, changed, typeinfo_name,
  build_chunks, get_vtables_from_module,
}
use clientplugin.Offsets.{
  Offset, vtable_offset, shared_lib_offset, ModuleRangeMap, get_address, cache_address, cache_all,
}
use clientplugin.Offsets.Init.{
  PhdrInfo, is_excluded, end_loop, module_end, named_module, on_phdr, iterate_phdr, push_range,
  insert_vtable, handle_module, add_module, handle_modules, init_offsets,
}
use clientplugin.Offsets.Init.Places.{IsPlaced, init_offsets-IsPlaced}
use clientplugin.Offsets.Init.Sound.{IsVtableEntry, init_offsets-IsVtableEntry}
use clientplugin.Offsets.Init.Termination.{init_offsets-Ends}

-- Four bytes of a word below 65536.
abbrev word_at : ℕ → ℕ → ℕ → List (ℕ × ℕ) → List (ℕ × ℕ)
word_at a low high rest = (a, low) ∷ (a + 1, high) ∷ (a + 2, 0) ∷ (a + 3, 0) ∷ rest

-- The typeinfos stand at 4352 and 4368, their names at 4384 and 4392, and the vtables from 4608 on.
abbrev bytes : List (ℕ × ℕ)
bytes = word_at 4356 32 17 (
    word_at 4372 40 17 (
      word_at 4608 0 17 (
        word_at 4612 0 32 (
          word_at 4616 16 17 (
            word_at 4620 0 33
              ((4384, 49) ∷ (4385, 65) ∷ (4386, 0) ∷ (4392, 49) ∷ (4393, 66) ∷ (4394, 0) ∷ []))))))

abbrev pub image : Memory
image a = lookup ◌==◌ a bytes

abbrev pub client : Text
client = codes "client.so"

-- Each typeinfo refers to the vtable of its own class.
abbrev class_type_info : Symbol
class_type_info = record { name = codes "_ZTVN10__cxxabiv117__class_type_infoE"; type = 1 }

abbrev reference : ℕ → Option Relocation
reference offset = some (record { offset = offset; symbol = 1; type = 1 })

abbrev elf : Elf
elf = record {
  segments = record { type = pt_load; virtual_address = 0 } ∷ [];
  sections =
      record {
        name = codes ".rel.dyn";
        type = sht_rel;
        address = 0;
        size = 16;
        entries = reference 256 ∷ reference 272 ∷ [];
        get_symbol = λ i. some class_type_info;
      }
      ∷ record {
        name = codes ".data.rel.ro";
        type = 1;
        address = 512;
        size = 16;
        entries = [];
        get_symbol = λ i. none;
      }
      ∷ [];
}

abbrev pub open_elf : Text → Elf
open_elf name = elf

abbrev pub sort : List ℕ → List ℕ
sort xs = xs

abbrev pub basename : Option Text → Result Text
basename none = ok []
basename (some name) = ok name

abbrev dlopen : Text → ℕ
dlopen lib = 0

abbrev dlsym : ℕ → Text → ℕ
dlsym handle symbol = 0

abbrev order : ModuleRangeMap → ModuleRangeMap
order modules = modules

abbrev infos : List PhdrInfo
infos = record { dlpi_addr = 4096; dlpi_name = some client; dlpi_phdr = (0, 1024) ∷ [] } ∷ []

abbrev g_offset_list : List (Offset × ℕ)
g_offset_list = (vtable_offset client (codes "A") 0 0, 0) ∷ (shared_lib_offset client 16, 0) ∷ []

abbrev filled : List (Offset × ℕ)
filled = (vtable_offset client (codes "A") 0 0, 8192) ∷ (shared_lib_offset client 16, 4112) ∷ []

-- The first virtual function of A is found at 8192.
found :
    init_offsets sort open_elf image basename dlopen dlsym order infos g_offset_list
    ≡ ok (filled, ok tt)
unfolding init_offsets iterate_phdr on_phdr named_module is_excluded module_end end_loop
    handle_modules add_module handle_module push_range insert_vtable load_module lowest
    get_eh_frame_ranges frames_of get_vtables_from_module collect_functions collect_typeinfos
    keep_typeinfo get_relocations relocations_from relocation get_online_address_from_offline
    locate_vftables find_candidates visit_range visit_words visit is_typeinfo get_typeinfo_size
    typeinfo_size add_bases section_ranges ranges_of remove_inside filter_seen seen build_chunks
    changed typeinfo_name get_typeinfo_addr_from_vtable make_checker set_bit test_bit add_loop
    add_range is_position_in_range cache_all cache_address get_address read_string string_at load
    load_le lookup insert assign text_eq ends_with starts_with to_string decimal for_each
found = refl

image-IsUserSpace : IsUserSpace image
unfolding lookup
image-IsUserSpace = record { null_page = refl; kernel_space = refl }

bytes_small :
    (entries : List (ℕ × ℕ))
    → All (λ e. e.1 < 256) entries
    → (a b : ℕ) → lookup ◌==◌ a entries ≡ some b
    → b < 256
unfolding lookup
bytes_small [] each a b e = cc
bytes_small ((c, d) ∷ entries) each a b e = elim (Bool-cases (c == a)) [
  | inl y ↦ ground (arith, each.0)
  | inr n ↦ bytes_small entries each.1 a b (rw n at e)
]

image-IsByteMemory : IsByteMemory image
image-IsByteMemory = bytes_small bytes (ground arith)

sort-IsRearranging : IsRearranging sort
sort-IsRearranging P xs each = each

init_offsets-IsVtableEntry_example : All (IsVtableEntry image) filled
init_offsets-IsVtableEntry_example =
    init_offsets-IsVtableEntry image-IsUserSpace sort sort-IsRearranging open_elf basename dlopen
      dlsym order infos g_offset_list filled found

init_offsets-IsPlaced_example :
    All (IsPlaced basename dlopen dlsym image infos) filled
    × (map (λ (o : Offset × ℕ). o.0) filled ≡ map (λ (o : Offset × ℕ). o.0) g_offset_list)
init_offsets-IsPlaced_example =
    init_offsets-IsPlaced sort open_elf image basename dlopen dlsym order (λ P entries each. each)
      infos g_offset_list filled found

basename-Ends : (name : Option Text) → Ends (basename name)
basename-Ends none e = cc
basename-Ends (some name) e = cc

init_offsets-Ends_example : Ends (
    init_offsets sort open_elf image basename dlopen dlsym order infos g_offset_list >>= λ done.
    done.1)
init_offsets-Ends_example =
    init_offsets-Ends image-IsUserSpace image-IsByteMemory sort open_elf basename basename-Ends
      dlopen dlsym order infos g_offset_list
