-- ===== src/LoadedModule/Runs.antt =====
-- Runs of src/util/loaded_module.cpp.
use clientplugin.Base.{◌≡◌, refl, [], ◌∷◌, ok}
use clientplugin.RangeChecker.{DataRange}
use clientplugin.LoadedModule.{Segment, Elf, LoadedModule, load_module}

abbrev headers : Segment
headers = record { type = 6; virtual_address = 0x34 }

abbrev text : Segment
text = record { type = 1; virtual_address = 0x2000 }

abbrev data_ : Segment
data_ = record { type = 1; virtual_address = 0x1000 }

abbrev elf : Elf
elf = record { segments = headers ∷ text ∷ data_ ∷ []; sections = [] }

abbrev mapped : DataRange
mapped = record { begin = 0xF000_0000; length = 0x5000 }

abbrev loaded : LoadedModule
loaded = record {
  elf = elf;
  online_baseaddr = 0xF000_0000;
  online_length = 0x5000;
  offline_baseaddr = 0x1000;
}

elf_loaded : load_module elf mapped ≡ ok loaded
unfolding load_module
elf_loaded = refl
