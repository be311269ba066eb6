-- ===== src/LoadedModule.antt =====
-- src/util/loaded_module.hpp and .cpp: a module that is loaded, and its ELF file.
-- What ELFIO reads of the file is given: the segments and sections as it hands them out. `elf.load`
-- returns whether it could read the file, and the code does not look; an unread file has none.
use clientplugin.Base.{
  ℕ, ◌%◌, Bool, List, [], ◌∷◌, Option, Text, Result, ok, err, Error, null_base, min, add32, sub32,
  uint32_max, word, ◌==◌, if◌then◌else◌,
}
use clientplugin.RangeChecker.{DataRange}
pub mod Addresses
mod Runs

pub record Segment : Type 0 where
  pub type : ℕ
  pub virtual_address : ℕ

-- The symbols and relocations that ELFIO's accessors give for a section; `none` where they fail.
pub record Symbol : Type 0 where
  pub name : Text
  pub type : ℕ

pub record Relocation : Type 0 where
  pub offset : ℕ
  pub symbol : ℕ
  pub type : ℕ

pub record Section : Type 0 where
  pub name : Text
  pub type : ℕ
  pub address : ℕ
  pub size : ℕ
  pub entries : List (Option Relocation)
  pub get_symbol : ℕ → Option Symbol

pub record Elf : Type 0 where
  pub segments : List Segment
  pub sections : List Section

-- ELFIO::PT_LOAD
abbrev pub pt_load : ℕ
pt_load = 1

pub record LoadedModule : Type 0 where
  pub elf : Elf
  pub online_baseaddr : ℕ
  pub online_length : ℕ
  pub offline_baseaddr : ℕ

-- The loop over the segments, which keeps the least address of a PT_LOAD segment.
unfoldable pub lowest : List Segment → ℕ → ℕ
lowest [] offline_baseaddr = offline_baseaddr
lowest (s ∷ rest) offline_baseaddr = lowest rest (
    if s.type == pt_load then min offline_baseaddr (s.virtual_address % word) else offline_baseaddr)

-- The constructor.
unfoldable pub load_module : Elf → DataRange → Result LoadedModule
unfolding lowest
load_module elf mod_range =
    if mod_range.begin == 0
    then err null_base
    else ok (record {
      elf = elf;
      online_baseaddr = mod_range.begin;
      online_length = mod_range.length;
      offline_baseaddr = lowest elf.segments uint32_max;
    })

unfoldable pub get_online_address_from_offline : LoadedModule → ℕ → ℕ
get_online_address_from_offline m offline_addr =
    add32 m.online_baseaddr (sub32 offline_addr m.offline_baseaddr)

pub get_offline_address_from_online : LoadedModule → ℕ → ℕ
get_offline_address_from_online m online_addr =
    add32 m.offline_baseaddr (sub32 online_addr m.online_baseaddr)
