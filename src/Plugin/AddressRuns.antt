-- ===== src/Plugin/AddressRuns.antt =====
-- A process in which every constant of the offsets is found: three modules, with the classes CEngine,
-- CGameServer and CTFCleaver.
use clientplugin.Base.{
  ℕ, ◌≡◌, refl, Option, none, some, List, [], ◌∷◌, All, Text, codes, text_eq, starts_with,
  ends_with, to_string, decimal, lookup, insert, assign, Memory, load, load_le, Result, ok, ◌==◌,
}
use clientplugin.DataView.{read_string, string_at}
use clientplugin.EhFrame.{get_eh_frame_ranges, frames_of}
use clientplugin.Generator.{for_each}
use clientplugin.LoadedModule.{
  Elf, Symbol, Relocation, pt_load, load_module, lowest, get_online_address_from_offline,
}
use clientplugin.RangeChecker.{
  make_checker, set_bit, test_bit, add_loop, add_range, is_position_in_range,
}
use clientplugin.Rtti.Relocations.{
  relocation, relocations_from, get_relocations, ranges_of, section_ranges, add_bases,
  typeinfo_size, get_typeinfo_size, get_typeinfo_addr_from_vtable,
}
use clientplugin.Rtti.Candidates.{
  is_typeinfo, visit, visit_words, visit_range, find_candidates, remove_inside, seen, filter_seen,
  locate_vftables,
}
use clientplugin.Rtti.Vtables.{
  sht_rel, collect_functions, keep_typeinfo, collect_typeinfos, changed, typeinfo_name,
  build_chunks, get_vtables_from_module,
}
use clientplugin.Offsets.{
  Offset, ModuleRangeMap, get_address, cache_address, cache_all, window_matches, scan,
  make_vtable_offset, make_signature, make_offset,
}
use clientplugin.Offsets.Init.{
  PhdrInfo, is_excluded, end_loop, module_end, named_module, on_phdr, iterate_phdr, push_range,
  insert_vtable, handle_module, add_module, handle_modules, init_offsets,
}
use clientplugin.Modules.Registered.{Replacing, registered, gfx_overlay_mod}
use clientplugin.Offsets.Constants.{OffsetName, all_names, constant, construct}
use clientplugin.Plugin.{addresses_found}
use clientplugin.Plugin.Addresses.{HooksNoNull, registered-no_null}

-- The typeinfos stand from 4352 on, their names from 4416, and the vtables from 4608.
abbrev bytes : List (ℕ × ℕ)
bytes =
    (4356, 64)
    ∷ (4357, 17)
    ∷ (4358, 0)
    ∷ (4359, 0)
    ∷ (4372, 80)
    ∷ (4373, 17)
    ∷ (4374, 0)
    ∷ (4375, 0)
    ∷ (4388, 96)
    ∷ (4389, 17)
    ∷ (4390, 0)
    ∷ (4391, 0)
    ∷ (4404, 112)
    ∷ (4405, 17)
    ∷ (4406, 0)
    ∷ (4407, 0)
    ∷ (4608, 0)
    ∷ (4609, 17)
    ∷ (4610, 0)
    ∷ (4611, 0)
    ∷ (4612, 16)
    ∷ (4613, 17)
    ∷ (4614, 0)
    ∷ (4615, 0)
    ∷ (4616, 32)
    ∷ (4617, 17)
    ∷ (4618, 0)
    ∷ (4619, 0)
    ∷ (4620, 48)
    ∷ (4621, 17)
    ∷ (4622, 0)
    ∷ (4623, 0)
    ∷ (4416, 55)
    ∷ (4417, 67)
    ∷ (4418, 69)
    ∷ (4419, 110)
    ∷ (4420, 103)
    ∷ (4421, 105)
    ∷ (4422, 110)
    ∷ (4423, 101)
    ∷ (4424, 0)
    ∷ (4432, 49)
    ∷ (4433, 49)
    ∷ (4434, 67)
    ∷ (4435, 71)
    ∷ (4436, 97)
    ∷ (4437, 109)
    ∷ (4438, 101)
    ∷ (4439, 83)
    ∷ (4440, 101)
    ∷ (4441, 114)
    ∷ (4442, 118)
    ∷ (4443, 101)
    ∷ (4444, 114)
    ∷ (4445, 0)
    ∷ (4448, 49)
    ∷ (4449, 48)
    ∷ (4450, 67)
    ∷ (4451, 84)
    ∷ (4452, 70)
    ∷ (4453, 67)
    ∷ (4454, 108)
    ∷ (4455, 101)
    ∷ (4456, 97)
    ∷ (4457, 118)
    ∷ (4458, 101)
    ∷ (4459, 114)
    ∷ (4460, 0)
    ∷ (4464, 49)
    ∷ (4465, 90)
    ∷ (4466, 0)
    ∷ (4636, 0)
    ∷ (4637, 32)
    ∷ (4638, 0)
    ∷ (4639, 0)
    ∷ (4836, 16)
    ∷ (4837, 32)
    ∷ (4838, 0)
    ∷ (4839, 0)
    ∷ (6636, 32)
    ∷ (6637, 32)
    ∷ (6638, 0)
    ∷ (6639, 0)
    ∷ (4096, 85)
    ∷ []

abbrev image : Memory
image a = lookup ◌==◌ a bytes

abbrev class_type_info : Symbol
class_type_info = record { name = codes "_ZTVN10__cxxabiv117__class_type_infoE"; type = 1 }

abbrev reference : ℕ → Option Relocation
reference offset = some (record { offset = offset; symbol = 1; type = 1 })

abbrev elf : Elf
elf = record {
  segments = record { type = pt_load; virtual_address = 0 } ∷ [];
  sections =
      record {
        name = codes ".rel.dyn";
        type = sht_rel;
        address = 0;
        size = 32;
        entries = reference 256 ∷ reference 272 ∷ reference 288 ∷ reference 304 ∷ [];
        get_symbol = λ i. some class_type_info;
      }
      ∷ record {
        name = codes ".data.rel.ro";
        type = 1;
        address = 512;
        size = 16;
        entries = [];
        get_symbol = λ i. none;
      }
      ∷ [];
}

abbrev open_elf : Text → Elf
open_elf name = elf

abbrev sort : List ℕ → List ℕ
sort xs = xs

-- One byte that is compared in no bit.
abbrev unhex : Text → Result (List ℕ)
unhex s = ok (0 ∷ [])

abbrev basename : Option Text → Result Text
basename none = ok []
basename (some name) = ok name

abbrev dlopen : Text → ℕ
dlopen lib = 1

abbrev dlsym : ℕ → Text → ℕ
dlsym handle symbol = 12288

abbrev order : ModuleRangeMap → ModuleRangeMap
order modules = modules

abbrev info : Text → PhdrInfo
info name = record { dlpi_addr = 4096; dlpi_name = some name; dlpi_phdr = (0, 4096) ∷ [] }

abbrev infos : List PhdrInfo
infos = info (codes "client.so") ∷ info (codes "server.so") ∷ info (codes "engine.so") ∷ []

abbrev built_from : Result (List (Offset × ℕ)) → List (Offset × ℕ)
built_from (ok offsets) = offsets
built_from _ = []

abbrev g_offset_list : List (Offset × ℕ)
g_offset_list = built_from (construct unhex all_names [])

built : construct unhex all_names [] ≡ ok g_offset_list
unfolding construct constant
built = refl

abbrev found_in : Result (OffsetName → ℕ) → OffsetName → ℕ
found_in (ok address) name = address name
found_in _ name = 0

abbrev address : OffsetName → ℕ
address = found_in (
    addresses_found
      (init_offsets sort open_elf image basename dlopen dlsym order infos g_offset_list))

found :
    addresses_found
      (init_offsets sort open_elf image basename dlopen dlsym order infos g_offset_list)
    ≡ ok address
unfolding addresses_found construct constant make_vtable_offset make_signature make_offset
    window_matches scan init_offsets iterate_phdr on_phdr named_module is_excluded module_end
    end_loop handle_modules add_module handle_module push_range insert_vtable load_module lowest
    get_eh_frame_ranges frames_of get_vtables_from_module collect_functions collect_typeinfos
    keep_typeinfo get_relocations relocations_from relocation get_online_address_from_offline
    locate_vftables find_candidates visit_range visit_words visit is_typeinfo get_typeinfo_size
    typeinfo_size add_bases section_ranges ranges_of remove_inside filter_seen seen build_chunks
    changed typeinfo_name get_typeinfo_addr_from_vtable make_checker set_bit test_bit add_loop
    add_range is_position_in_range cache_all cache_address get_address read_string string_at load
    load_le lookup insert assign text_eq ends_with starts_with to_string decimal for_each
found = refl

abbrev function : Replacing → ℕ
function f = 16384

registered-no_null_example :
    All HooksNoNull (gfx_overlay_mod address function ∷ registered address function [])
registered-no_null_example =
    registered-no_null unhex sort open_elf image basename dlopen dlsym order infos g_offset_list
      address built found function []
