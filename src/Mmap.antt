-- ===== src/Mmap.antt =====
-- src/util/mmap.hpp and .cpp: a file that is mapped into memory.
-- The system's calls are given by what they return: a descriptor below 0 is none, and so is a mapping that
-- has failed.
use clientplugin.Base.{ℕ, Bool, Option, none, some, List, [], ◌∷◌, ◌++◌, Text}
pub mod Descriptors
mod Runs

-- The calls that are made, the last first.
pub data SystemCall : Type 0 where
  open_file : (fname : Text) → SystemCall
  seek_end seek_start close_file : (fd : ℕ) → SystemCall
  map_file : (length fd : ℕ) → SystemCall
  unmap : (address length : ℕ) → SystemCall

abbrev pub SystemCalls : Type 0
SystemCalls = List SystemCall

pub record MemoryMappedFile : Type 0 where
  pub mapped_address : ℕ
  pub mapped_length : ℕ

-- How the constructor ends: with the file, or with a StringError that names it.
pub data Mapped : Type 0 where
  mapped : MemoryMappedFile → Mapped
  failed_to_open failed_to_mmap : (fname : Text) → Mapped

-- What open, lseek to the end, and mmap return, after the calls before.
module _ (opens : SystemCalls → Text → Option ℕ) (file_length : SystemCalls → ℕ → ℕ)
    (maps : SystemCalls → ℕ → ℕ → Option ℕ) where
  -- With a descriptor.
  map_descriptor : Text → ℕ → SystemCalls → Mapped × SystemCalls
  map_descriptor fname fd calls =
      let mapped_length = file_length calls fd in
      let placed = seek_start fd ∷ seek_end fd ∷ calls in
      elim (maps placed mapped_length fd) [
        | none ↦ (failed_to_mmap fname, map_file mapped_length fd ∷ placed)
        | some address ↦ (
          mapped (record { mapped_address = address; mapped_length = mapped_length }),
          close_file fd ∷ map_file mapped_length fd ∷ placed,
        )
      ]

  -- The constructor.
  pub map_memory : Text → SystemCalls → Mapped × SystemCalls
  unfolding map_descriptor
  map_memory fname calls = elim (opens calls fname) [
    | none ↦ (failed_to_open fname, open_file fname ∷ calls)
    | some fd ↦ map_descriptor fname fd (open_file fname ∷ calls)
  ]

-- The destructor.
pub unmap_memory : MemoryMappedFile → SystemCalls → SystemCalls
unmap_memory file calls = unmap file.mapped_address file.mapped_length ∷ calls
