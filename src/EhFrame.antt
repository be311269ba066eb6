-- ===== src/EhFrame.antt =====
-- src/offsets/eh_frame.cpp: the ranges of the functions that a .eh_frame section describes.
-- `handle_cie` is in the child Cie; the functions here are coroutines.
use clientplugin.Base.{
  ℕ, zero, suc, ◌+◌, ◌-◌, ◌%◌, Option, none, some, List, [], ◌∷◌, Text, codes, text_eq, Memory,
  word, or_throw, Error, extended_length, no_pc_begin, record_overrun, ltb, leb, ◌==◌, ◌||◌,
  if◌then◌else◌, add32, sub32, pointer_size, uint32_max,
}
use clientplugin.DataView.{read, read_dwarf_encoded}
use clientplugin.Generator.{Gen, returns, throws, yields, hangs, followed_by}
use clientplugin.Generator.Bind.{◌>>=◌}
use clientplugin.RangeChecker.{DataRange}
use clientplugin.LoadedModule.{LoadedModule, Section, get_online_address_from_offline}
use Cie.{handle_cie}
pub mod Cie
pub mod Align
pub mod Termination
mod Runs

-- `while ((data_ptr % sizeof(void*)) != 0) data_ptr += 1;`: three rounds reach a multiple of four.
align_loop : ℕ → ℕ → ℕ
align_loop zero p = p
align_loop (suc fuel) p =
    let again = align_loop fuel (add32 p 1) in if p % pointer_size == 0 then p else again

pub align : ℕ → ℕ
unfolding align_loop
align p = align_loop 3 p

-- The end of a round: the record must not be overrun.
move_on : ℕ → ℕ → Gen DataRange → Gen DataRange
move_on data_ptr next_record_address rest =
    if leb next_record_address data_ptr then throws record_overrun else rest

-- An FDE, whose CIE pointer stands four bytes before p2 and counts back from there.
fde_record : Memory → ℕ → ℕ → ℕ → Gen DataRange → Gen DataRange
unfolding move_on
fde_record m p2 cie_offset next_record_address rest = do
  cie_data ← handle_cie m (sub32 (sub32 p2 cie_offset) 4)
  (found, p3) ← read_dwarf_encoded cie_data.fde_pointer_encoding m p2
  fde_pc_begin ← or_throw found no_pc_begin
  (fde_pc_range, p4) ← read pointer_size m p3
  yields (record { begin = fde_pc_begin; length = fde_pc_range })
      (move_on p4 next_record_address rest)

-- A record behind its length. A CIE is skipped.
frame_record : Memory → ℕ → ℕ → Gen DataRange → Gen DataRange
unfolding fde_record
frame_record m p1 next_record_address rest = do
  (cie_id_or_cie_offset, p2) ← read 4 m p1
  if cie_id_or_cie_offset == 0
      then move_on p2 next_record_address rest
      else fde_record m p2 cie_id_or_cie_offset next_record_address rest

-- The while loop of `handle_eh_frame`.
frame_loop : ℕ → Memory → ℕ → ℕ → Gen DataRange
unfolding frame_record
frame_loop zero m data_ptr end_address = hangs
frame_loop (suc fuel) m data_ptr end_address =
    if ltb data_ptr end_address
    then (do
      (length, p1) ← read 4 m data_ptr
      let next_record_address = add32 p1 length
      let rest = frame_loop fuel m (align next_record_address) end_address
      if leb end_address p1 || (length == 0)
          then returns
          else if length == uint32_max
          then throws extended_length
          else frame_record m p1 next_record_address rest)
    else returns

-- Each record takes four bytes at least, so the bytes of the section bound the rounds.
pub handle_eh_frame : Memory → ℕ → ℕ → Gen DataRange
unfolding frame_loop
handle_eh_frame m start_address end_address =
    frame_loop (suc (suc (end_address - start_address))) m start_address end_address

-- ".eh_frame"
abbrev pub eh_frame_name : Text
eh_frame_name = codes ".eh_frame"

section_frames : Memory → LoadedModule → Section → Gen DataRange
section_frames m loaded_mod section =
    let eh_frame_address = get_online_address_from_offline loaded_mod (section.address % word) in
    handle_eh_frame m eh_frame_address (add32 eh_frame_address (section.size % word))

unfoldable pub frames_of : Memory → LoadedModule → List Section → Gen DataRange
unfolding section_frames
frames_of m loaded_mod [] = returns
frames_of m loaded_mod (section ∷ sections) =
    let rest = frames_of m loaded_mod sections in
    if text_eq section.name eh_frame_name
    then followed_by (section_frames m loaded_mod section) rest
    else rest

unfoldable pub get_eh_frame_ranges : Memory → LoadedModule → Gen DataRange
unfolding frames_of
get_eh_frame_ranges m loaded_mod = frames_of m loaded_mod loaded_mod.elf.sections
