-- ===== src/Offsets/Init/Tasks/Runs.antt =====
-- Two modules whose tasks run at the same time.
use clientplugin.Base.{
  ◌≡◌, refl, ap, List, [], ◌∷◌, Text, codes, text_eq, starts_with, ends_with, to_string, decimal,
  lookup, insert, assign, load, load_le, ok,
}
use clientplugin.DataView.{read_string, string_at}
use clientplugin.EhFrame.{get_eh_frame_ranges, frames_of}
use clientplugin.Generator.{for_each, yielded}
use clientplugin.LoadedModule.{load_module, lowest, get_online_address_from_offline}
use clientplugin.RangeChecker.{
  DataRange, make_checker, set_bit, test_bit, add_loop, add_range, is_position_in_range,
}
use clientplugin.Rtti.Relocations.{
  relocation, relocations_from, get_relocations, ranges_of, section_ranges, add_bases,
  typeinfo_size, get_typeinfo_size, get_typeinfo_addr_from_vtable,
}
use clientplugin.Rtti.Candidates.{
  is_typeinfo, visit, visit_words, visit_range, find_candidates, remove_inside, seen, filter_seen,
  locate_vftables,
}
use clientplugin.Rtti.Vtables.{
  collect_functions, keep_typeinfo, collect_typeinfos, changed, typeinfo_name, build_chunks,
  get_vtables_from_module,
}
use clientplugin.Offsets.{ModuleRangeMap}
use clientplugin.Offsets.Init.{
  Tables, push_range, insert_vtable, handle_module, add_module, handle_modules,
}
use clientplugin.Offsets.Init.Runs.{image, client, open_elf, sort, basename}
use clientplugin.Offsets.Init.Tasks.{
  Write, inserts_vtable, run, first, other, finished, then_, writes_of, task_writes, tasks_of,
}
use clientplugin.Offsets.Init.Tasks.Sequential.{entry, handle_modules-Schedules}

abbrev engine : Text
engine = codes "engine.so"

abbrev range : DataRange
range = record { begin = 4096; length = 1024 }

abbrev modules : ModuleRangeMap
modules = (client, range) ∷ (engine, range) ∷ []

abbrev tables : Tables
tables = record { cleaned_modules = []; eh_frame_ranges = []; module_vtables = [] }

abbrev writes : List Write
writes = inserts_vtable (codes "1A", 4612 ∷ []) ∷ []

abbrev tasks : List (Text × List Write)
tasks = (client, writes) ∷ (engine, writes) ∷ []

-- The engine's write comes first.
abbrev schedule : List (Text × Write)
schedule =
    (engine, inserts_vtable (codes "1A", 4612 ∷ []))
    ∷ (client, inserts_vtable (codes "1A", 4612 ∷ []))
    ∷ []

abbrev written : Tables
written = record {
  cleaned_modules = (client, range) ∷ (engine, range) ∷ [];
  eh_frame_ranges = (client, []) ∷ (engine, []) ∷ [];
  module_vtables =
      (client, (codes "1A", 4612 ∷ []) ∷ []) ∷ (engine, (codes "1A", 4612 ∷ []) ∷ []) ∷ [];
}

one_task : (name : Text) → task_writes sort open_elf image name range ≡ writes
unfolding task_writes writes_of load_module lowest get_eh_frame_ranges frames_of
    get_vtables_from_module collect_functions collect_typeinfos keep_typeinfo get_relocations
    relocations_from relocation get_online_address_from_offline locate_vftables find_candidates
    visit_range visit_words visit is_typeinfo get_typeinfo_size typeinfo_size add_bases
    section_ranges ranges_of remove_inside filter_seen seen build_chunks changed typeinfo_name
    get_typeinfo_addr_from_vtable make_checker set_bit test_bit add_loop add_range
    is_position_in_range read_string string_at load load_le lookup insert assign text_eq ends_with
    starts_with to_string decimal yielded for_each
one_task name = refl

both_tasks : tasks_of sort open_elf image basename modules ≡ ok tasks
unfolding tasks_of
both_tasks =
    ap
      (λ (ws : List Write).
        let ts : List (Text × List Write) = (client, ws) ∷ (engine, ws) ∷ [] in ok ts)
      (one_task client)

one_module :
    (name : Text)
    → handle_module sort open_elf image name range [] [] ≡ ok ([], (codes "1A", 4612 ∷ []) ∷ [])
unfolding handle_module push_range insert_vtable for_each load_module lowest get_eh_frame_ranges
    frames_of get_vtables_from_module collect_functions collect_typeinfos keep_typeinfo
    get_relocations relocations_from relocation get_online_address_from_offline locate_vftables
    find_candidates visit_range visit_words visit is_typeinfo get_typeinfo_size typeinfo_size
    add_bases section_ranges ranges_of remove_inside filter_seen seen build_chunks changed
    typeinfo_name get_typeinfo_addr_from_vtable make_checker set_bit test_bit add_loop add_range
    is_position_in_range read_string string_at load load_le lookup insert assign text_eq ends_with
    starts_with to_string decimal
one_module name = refl

after_both : handle_modules sort open_elf image basename modules tables ≡ ok written
unfolding handle_modules add_module lookup assign insert text_eq
after_both = rw (one_module client, one_module engine) refl

handle_modules-Schedules_example : run schedule (entry tables) engine ≡ entry written engine
unfolding text_eq
handle_modules-Schedules_example =
    handle_modules-Schedules sort open_elf image basename modules tables tasks schedule after_both
      both_tasks ((refl, tt), (tt, tt))
      (then_ (other first) (then_ first (finished (refl, (refl, tt))))) engine
